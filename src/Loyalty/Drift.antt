-- ===== src/Loyalty/Drift.antt =====
-- Balances and tier points add up to their entries, whatever other transactions commit between the
-- statements of `postLoyaltyEntry`.
use online_observatory.Common.{
  ℕ, ◌≡◌, refl, ◌∙◌, inl, inr, true, none, arith, ◌∷◌, ◌==◌, ==_iff, if◌then◌else◌, ℤ, pos, ◌+ℤ◌,
  neg, int_laws, +ℤ_cancel_right, lookup, Option-cases, Bool-cases, Option,
}
use online_observatory.Loyalty.{
  LoyaltyAccount, LoyaltyEntry, LoyaltyDb, returned, and_then-returned, SchemeRead, PostResult,
  find_entry, read_loyalty_scheme, Interference, ensure_loyalty_account, new_account, code_taken,
  thrown, record_not_found,
}
use online_observatory.Loyalty.Posting.{
  move, claim_points, write_entry, record_loyalty_entry, after_claim, claim_loyalty_entry,
  post_once, post_loyalty_entry,
}
use online_observatory.Loyalty.Books.{
  Counter, of_balance, of_tier, amount_of, is_known, read_points, drift, by, read-move, known-move,
  ledger-move, update_tier-keeps, record_loyalty_entry_cases, claim_cases,
}

-- Other transactions: they move no points without the entry, and delete no account.
pub record KeepsBooks (f : LoyaltyDb → LoyaltyDb) : Type 0 where
  pub drift_kept : (w : Counter) (u : ℕ) (db : LoyaltyDb) → drift w u (f db) ≡ drift w u db
  pub known_kept : (u : ℕ) (db : LoyaltyDb) → is_known u db ≡ true → is_known u (f db) ≡ true

abbrev share : Counter → ℕ → LoyaltyEntry → ℤ
share w u e = if u == e.user_id then amount_of w e else pos 0

undone_share :
    (w : Counter) (e : LoyaltyEntry) → by w (neg e.points) (neg e.tier_points) ≡ neg (amount_of w e)
undone_share of_balance e = refl
undone_share of_tier e = refl

claimed_share : (w : Counter) (e : LoyaltyEntry) → by w e.points e.tier_points ≡ amount_of w e
claimed_share of_balance e = refl
claimed_share of_tier e = refl

claimed-drift :
    (w : Counter) (u : ℕ) (e : LoyaltyEntry) (db : LoyaltyDb)
    → is_known e.user_id db ≡ true
    → drift w u (move e.user_id e.points e.tier_points db) ≡ drift w u db +ℤ share w u e
claimed-drift w u e db k =
    rw
      (
        read-move w u e.user_id e.points e.tier_points db k,
        ledger-move e.user_id e.points e.tier_points db,
        claimed_share w e,
      )
      (elim (Bool-cases (u == e.user_id)) [
        | inl y ↦ rw y (omega int_laws)
        | inr n ↦ rw n (omega int_laws)
      ])

undone-drift :
    (w : Counter) (u : ℕ) (e : LoyaltyEntry) (db : LoyaltyDb)
    → is_known e.user_id db ≡ true
    → drift w u (move e.user_id (neg e.points) (neg e.tier_points) db) +ℤ share w u e ≡ drift w u db
undone-drift w u e db k =
    rw
      (
        read-move w u e.user_id (neg e.points) (neg e.tier_points) db k,
        ledger-move e.user_id (neg e.points) (neg e.tier_points) db,
        undone_share w e,
      )
      (elim (Bool-cases (u == e.user_id)) [
        | inl y ↦ rw y (omega int_laws)
        | inr n ↦ rw n (omega int_laws)
      ])

written-drift :
    (w : Counter) (u : ℕ) (e : LoyaltyEntry) (a : LoyaltyAccount) (db : LoyaltyDb)
    → drift w u (write_entry e a db) +ℤ share w u e ≡ drift w u db
unfolding write_entry read_points
written-drift w u e a db = omega int_laws

record_loyalty_entry-drift :
    (w : Counter) (u : ℕ) (e : LoyaltyEntry) (db db' : LoyaltyDb) (r : PostResult)
    → is_known e.user_id db ≡ true
    → record_loyalty_entry e db ≡ returned (r, db')
    → drift w u db' +ℤ share w u e ≡ drift w u db
record_loyalty_entry-drift w u e db db' r k h = elim (record_loyalty_entry_cases e db db' r k h) [
  | inl (_, back) ↦ rw back (undone-drift w u e db k)
  | inr (a, _, _, tiered) ↦
      let (points, entries) = update_tier-keeps w u e a (write_entry e a db) db' tiered in
      rw (points, entries) (written-drift w u e a db)
]

claim_loyalty_entry-drift :
    (w : Counter) (u : ℕ) (f : LoyaltyDb → LoyaltyDb) (e : LoyaltyEntry) (db db' : LoyaltyDb)
    (r : PostResult)
    → KeepsBooks f
    → claim_loyalty_entry f e db ≡ returned (r, db')
    → drift w u db' ≡ drift w u db
unfolding claim_loyalty_entry
claim_loyalty_entry-drift w u f e db db' r keep h =
    let (o, claimed, rest) =
      and_then-returned (claim_points e db) (after_claim f e db) (r, db') h in
    elim (Option-cases o) [
      | inl refused ↦ ground (arith)
      | inr (c, success) ↦
          let (known, moved) = claim_cases e db c (claimed ∙ rw success) in
          let known_after : is_known e.user_id c ≡ true =
            rw moved (known-move e.user_id e.user_id e.points e.tier_points db ∙ known) in
          let settled =
            record_loyalty_entry-drift w u e (f c) db' r (keep.known_kept e.user_id c known_after)
              (rw success at rest) in
          +ℤ_cancel_right _ _ (share w u e)
            (settled ∙ keep.drift_kept w u c ∙ rw moved (claimed-drift w u e db known))
    ]

-- A new account has no points, and no account had none.
read-new_account :
    (w : Counter) (v u : ℕ) (a : LoyaltyAccount) (db : LoyaltyDb)
    → lookup u db.accounts ≡ none
    → a.balance ≡ pos 0
    → a.tier_points ≡ pos 0
    → read_points w v (record db { accounts = (u, a) ∷ db.accounts }) ≡ read_points w v db
unfolding read_points
read-new_account w v u a db missing b t = ground (arith, ==_iff v u)

pub ensure_cases :
    (u : ℕ) (o : Option ℕ) (code : ℕ) (db db' : LoyaltyDb)
    → ensure_loyalty_account u o code db ≡ returned db'
    → (is_known u db' ≡ true)
      × ((w : Counter) (v : ℕ) → drift w v db' ≡ drift w v db)
      × (db'.ledger ≡ db.ledger)
unfolding ensure_loyalty_account
ensure_cases u o code db db' h = elim (Option-cases (lookup u db.accounts)) [
  | inr (a, here) ↦
      let same : db' ≡ db = ground arith in rw same (ground arith, (λ w v. refl), refl)
  | inl missing ↦
      let make = λ (r : SchemeRead).
        if code_taken code db.accounts
        then thrown record_not_found
        else returned (record db { accounts = (u, new_account u o code r.lowest) ∷ db.accounts }) in
      let (r, read, made) =
        and_then-returned (read_loyalty_scheme db) make db'
          (rw (missing, ensure_loyalty_account) at h) in
      let made_is : db'
          ≡ record db { accounts = (u, new_account u o code r.lowest) ∷ db.accounts } =
        ground arith in
      rw made_is (
        ground arith,
        (λ w v.
            rw (read-new_account w v u (new_account u o code r.lowest) db missing refl refl) refl),
        refl,
      )
]

-- A call that returns leaves every balance, and every account's tier points, as far from the sum of
-- its entries as it found them, if the transactions that commit between its statements do so and
-- delete no account.
pub post_loyalty_entry-drift :
    (env : Interference) (e : LoyaltyEntry) (db db' : LoyaltyDb) (r : PostResult) (w : Counter)
    (u : ℕ)
    → KeepsBooks env.before_claim
    → KeepsBooks env.before_insert
    → post_loyalty_entry env e db ≡ returned (r, db')
    → drift w u db' ≡ drift w u db
unfolding post_loyalty_entry
post_loyalty_entry-drift env e db db' r w u kc ki h =
    let (ensured, made, rest) =
      and_then-returned (ensure_loyalty_account e.user_id none (env.new_referral_code e.user_id) db)
        (post_once env e) (r, db') h in
    let (_, same, _) =
      ensure_cases e.user_id none (env.new_referral_code e.user_id) db ensured made in
    elim (Option-cases (find_entry e.user_id e.kind e.source_ref ensured.ledger)) [
      | inr (f, found) ↦ let stay : db' ≡ ensured = ground arith in rw stay (same w u)
      | inl fresh ↦
          claim_loyalty_entry-drift w u env.before_insert e (env.before_claim ensured) db' r ki
            (ground arith)
          ∙ kc.drift_kept w u ensured
          ∙ same w u
    ]
