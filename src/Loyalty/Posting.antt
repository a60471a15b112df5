-- ===== src/Loyalty/Posting.antt =====
-- `postLoyaltyEntry`: the claim on the account, the insert with its compensation, the audit row and
-- the change of tier.
use online_observatory.Common.{
  ℕ, Bool, false, ◌&&◌, Option, none, some, ◌∷◌, ◌==◌, if◌then◌else◌, ℤ, pos, ◌+ℤ◌, neg, ltb_ℤ,
  leb_ℤ, lookup, adjust,
}
use online_observatory.Loyalty.{
  LoyaltyAccount, LoyaltyEntry, LoyaltyDb, Attempt, returned, thrown, and_then, record_not_found,
  PostResult, posted, not_posted, duplicate, insufficient_points, entry_written, tier_changed,
  find_entry, read_loyalty_scheme, tier_for, Interference, ensure_loyalty_account,
}

-- `increment` of both numbers of an account
abbrev pub add_points : ℤ → ℤ → LoyaltyAccount → LoyaltyAccount
add_points points tier a = record a {
  balance = a.balance +ℤ points;
  tier_points = a.tier_points +ℤ tier;
}

unfoldable pub move : ℕ → ℤ → ℤ → LoyaltyDb → LoyaltyDb
move u points tier db = record db { accounts = adjust u (add_points points tier) db.accounts }

-- `update`, which throws where the row is missing
unfoldable pub update_points : ℕ → ℤ → ℤ → LoyaltyDb → Attempt LoyaltyDb
unfolding move
update_points u points tier db = elim (lookup u db.accounts) [
  | none ↦ thrown record_not_found
  | some _ ↦ returned (move u points tier db)
]

abbrev pub covers : Option LoyaltyAccount → ℤ → Bool
covers none need = false
covers (some a) need = leb_ℤ need a.balance

abbrev pub move_if_covered : LoyaltyEntry → LoyaltyDb → Option LoyaltyDb
move_if_covered e db =
    if covers (lookup e.user_id db.accounts) (neg e.points)
    then some (move e.user_id e.points e.tier_points db)
    else none

-- The claim; `none` is a count of 0.
unfoldable pub claim_points : LoyaltyEntry → LoyaltyDb → Attempt (Option LoyaltyDb)
claim_points e db =
    if e.refuse_negative_balance && ltb_ℤ e.points (pos 0)
    then returned (move_if_covered e db)
    else and_then (update_points e.user_id e.points e.tier_points db)
        (λ moved. returned (some moved))

unfoldable pub set_tier : ℕ → LoyaltyAccount → ℕ → LoyaltyDb → LoyaltyDb
set_tier u a code db = record db {
  accounts = adjust u (λ r. record r { tier_code = code }) db.accounts;
  audit = tier_changed u a.tier_code code a.tier_points ∷ db.audit;
}

-- The tier, where the entry moved tier points.
unfoldable pub update_tier : LoyaltyEntry → LoyaltyAccount → LoyaltyDb → Attempt LoyaltyDb
update_tier e a db =
    if leb_ℤ e.tier_points (pos 0) && leb_ℤ (pos 0) e.tier_points
    then returned db
    else and_then (read_loyalty_scheme db) (λ r.
      let tier = tier_for r.lowest r.tiers a.tier_points in
      if tier.code == a.tier_code
      then returned db
      else returned (set_tier e.user_id a tier.code db))

unfoldable pub write_entry : LoyaltyEntry → LoyaltyAccount → LoyaltyDb → LoyaltyDb
write_entry e a db = record db {
  ledger = e ∷ db.ledger;
  audit = entry_written e a.balance ∷ db.audit;
}

abbrev pub with_result : LoyaltyAccount → LoyaltyDb → Attempt (PostResult × LoyaltyDb)
with_result a db = returned (posted a.balance a.tier_points, db)

-- The insert with ON CONFLICT DO NOTHING and what follows it.
unfoldable pub record_loyalty_entry : LoyaltyEntry → LoyaltyDb → Attempt (PostResult × LoyaltyDb)
record_loyalty_entry e db = elim (find_entry e.user_id e.kind e.source_ref db.ledger) [
  | some _ ↦
      and_then (update_points e.user_id (neg e.points) (neg e.tier_points) db)
        (λ undone. returned (not_posted duplicate, undone))
  | none ↦ elim (lookup e.user_id db.accounts) [
    | none ↦ thrown record_not_found
    | some a ↦ and_then (update_tier e a (write_entry e a db)) (with_result a)
  ]
]

abbrev pub after_claim :
    (LoyaltyDb → LoyaltyDb)
    → LoyaltyEntry
    → LoyaltyDb
    → Option LoyaltyDb
    → Attempt (PostResult × LoyaltyDb)
after_claim before_insert e db none = returned (not_posted insufficient_points, db)
after_claim before_insert e db (some claimed) = record_loyalty_entry e (before_insert claimed)

unfoldable pub claim_loyalty_entry :
    (LoyaltyDb → LoyaltyDb) → LoyaltyEntry → LoyaltyDb → Attempt (PostResult × LoyaltyDb)
claim_loyalty_entry before_insert e db =
    and_then (claim_points e db) (after_claim before_insert e db)

abbrev pub post_once : Interference → LoyaltyEntry → LoyaltyDb → Attempt (PostResult × LoyaltyDb)
post_once env e db = elim (find_entry e.user_id e.kind e.source_ref db.ledger) [
  | some _ ↦ returned (not_posted duplicate, db)
  | none ↦ claim_loyalty_entry env.before_insert e (env.before_claim db)
]

-- `postLoyaltyEntry`
unfoldable pub post_loyalty_entry :
    Interference → LoyaltyEntry → LoyaltyDb → Attempt (PostResult × LoyaltyDb)
post_loyalty_entry env e db =
    and_then (ensure_loyalty_account e.user_id none (env.new_referral_code e.user_id) db)
      (post_once env e)
