-- ===== src/Loyalty/Books.antt =====
-- What `postLoyaltyEntry` keeps: balances and tier points add up to their entries.
use online_observatory.Common.{
  ℕ, ◌≡◌, refl, ◌⊎◌, inl, inr, Bool, true, false, none, some, arith, List, [], ◌∷◌, ◌==◌,
  if◌then◌else◌, ◌&&◌, leb_ℤ, ℤ, pos, ◌+ℤ◌, ◌-ℤ◌, neg, lookup, lookup-adjust, Option-cases,
  Bool-cases,
}
use online_observatory.Loyalty.{
  LoyaltyAccount, LoyaltyEntry, LoyaltyDb, returned, and_then-returned, SchemeRead, tier_for,
  PostResult, posted, not_posted, duplicate, find_entry, read_loyalty_scheme,
}
use online_observatory.Loyalty.Posting.{
  move, update_points, claim_points, update_tier, set_tier, write_entry, with_result,
  record_loyalty_entry,
}

-- The two numbers of an account.
pub data Counter : Type 0 where
  of_balance of_tier : Counter

abbrev pub read_of : Counter → LoyaltyAccount → ℤ
read_of of_balance a = a.balance
read_of of_tier a = a.tier_points

abbrev pub amount_of : Counter → LoyaltyEntry → ℤ
amount_of of_balance e = e.points
amount_of of_tier e = e.tier_points

abbrev pub is_known : ℕ → LoyaltyDb → Bool
is_known u db = elim (lookup u db.accounts) [ none ↦ false | some _ ↦ true ]

unfoldable pub read_points : Counter → ℕ → LoyaltyDb → ℤ
read_points w u db = elim (lookup u db.accounts) [ none ↦ pos 0 | some a ↦ read_of w a ]

abbrev pub sum_of : Counter → ℕ → List LoyaltyEntry → ℤ
sum_of w u [] = pos 0
sum_of w u (e ∷ l) = (if u == e.user_id then amount_of w e else pos 0) +ℤ sum_of w u l

-- By how much an account and the sum of its entries differ.
abbrev pub drift : Counter → ℕ → LoyaltyDb → ℤ
drift w u db = read_points w u db -ℤ sum_of w u db.ledger

abbrev pub by : Counter → ℤ → ℤ → ℤ
by of_balance p t = p
by of_tier p t = t

pub read-move :
    (w : Counter) (u v : ℕ) (p t : ℤ) (db : LoyaltyDb)
    → is_known v db ≡ true
    → read_points w u (move v p t db)
      ≡ (if u == v then read_points w u db +ℤ by w p t else read_points w u db)
unfolding read_points move
read-move w u v p t db k = ground (
  arith,
  lookup-adjust u v (λ a. record a { balance = a.balance +ℤ p; tier_points = a.tier_points +ℤ t })
      db.accounts,
)

pub known-move : (u v : ℕ) (p t : ℤ) (db : LoyaltyDb) → is_known u (move v p t db) ≡ is_known u db
unfolding move
known-move u v p t db = ground (
  arith,
  lookup-adjust u v (λ a. record a { balance = a.balance +ℤ p; tier_points = a.tier_points +ℤ t })
      db.accounts,
)

pub ledger-move : (v : ℕ) (p t : ℤ) (db : LoyaltyDb) → (move v p t db).ledger ≡ db.ledger
unfolding move
ledger-move v p t db = refl

pub read-set_tier :
    (w : Counter) (u v : ℕ) (a : LoyaltyAccount) (code : ℕ) (db : LoyaltyDb)
    → read_points w u (set_tier v a code db) ≡ read_points w u db
unfolding set_tier read_points
read-set_tier w u v a code db =
    ground
      (arith, lookup-adjust u v (λ (r : LoyaltyAccount). record r { tier_code = code }) db.accounts)

pub ledger-set_tier :
    (v : ℕ) (a : LoyaltyAccount) (code : ℕ) (db : LoyaltyDb)
    → (set_tier v a code db).ledger ≡ db.ledger
unfolding set_tier
ledger-set_tier v a code db = refl

update_tier_cases :
    (e : LoyaltyEntry) (a : LoyaltyAccount) (db db' : LoyaltyDb)
    → update_tier e a db ≡ returned db'
    → (db' ≡ db) ⊎ ((code : ℕ) × (db' ≡ set_tier e.user_id a code db))
unfolding update_tier
update_tier_cases e a db db' h =
    elim (Bool-cases (leb_ℤ e.tier_points (pos 0) && leb_ℤ (pos 0) e.tier_points)) [
      | inl still ↦ inl (ground arith)
      | inr moved ↦
          let choose = λ (r : SchemeRead).
            let tier = tier_for r.lowest r.tiers a.tier_points in
            if tier.code == a.tier_code
            then returned db
            else returned (set_tier e.user_id a tier.code db) in
          let (r, read, chosen) =
            and_then-returned (read_loyalty_scheme db) choose db' (rw (moved, update_tier) at h) in
          let tier = tier_for r.lowest r.tiers a.tier_points in
          elim (Bool-cases (tier.code == a.tier_code)) [
            | inl same ↦ inl (ground arith)
            | inr other ↦ inr (tier.code, ground arith)
          ]
    ]

-- A change of tier moves no points and writes no entry.
pub update_tier-keeps :
    (w : Counter) (u : ℕ) (e : LoyaltyEntry) (a : LoyaltyAccount) (db db' : LoyaltyDb)
    → update_tier e a db ≡ returned db'
    → (read_points w u db' ≡ read_points w u db) × (db'.ledger ≡ db.ledger)
update_tier-keeps w u e a db db' h = elim (update_tier_cases e a db db' h) [
  | inl same ↦ rw same (refl, refl)
  | inr (code, set) ↦
      rw set (read-set_tier w u e.user_id a code db, ledger-set_tier e.user_id a code db)
]

-- The insert wrote the row, or found the source and moved the points back.
pub record_loyalty_entry_cases :
    (e : LoyaltyEntry) (db db' : LoyaltyDb) (r : PostResult)
    → is_known e.user_id db ≡ true
    → record_loyalty_entry e db ≡ returned (r, db')
    → ((r ≡ not_posted duplicate) × (db' ≡ move e.user_id (neg e.points) (neg e.tier_points) db))
      ⊎ ((a : LoyaltyAccount) × (lookup e.user_id db.accounts ≡ some a)
          × (r ≡ posted a.balance a.tier_points)
          × (update_tier e a (write_entry e a db) ≡ returned db'))
unfolding record_loyalty_entry update_points
record_loyalty_entry_cases e db db' r k h =
    elim (Option-cases (find_entry e.user_id e.kind e.source_ref db.ledger)) [
      | inr (f, found) ↦ inl (ground arith, ground arith)
      | inl fresh ↦ elim (Option-cases (lookup e.user_id db.accounts)) [
        | inl missing ↦ absurd (ground arith)
        | inr (a, here) ↦
            let (after, tiered, result) =
              and_then-returned (update_tier e a (write_entry e a db)) (with_result a) (r, db')
                (rw (fresh, here, record_loyalty_entry) at h) in
            inr (a, here, ground arith, ground arith)
      ]
    ]

-- A claim that succeeds moves the points of a known account.
pub claim_cases :
    (e : LoyaltyEntry) (db c : LoyaltyDb)
    → claim_points e db ≡ returned (some c)
    → (is_known e.user_id db ≡ true) × (c ≡ move e.user_id e.points e.tier_points db)
unfolding claim_points update_points
claim_cases e db c h = ground arith
