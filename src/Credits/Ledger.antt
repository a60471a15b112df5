-- ===== src/Credits/Ledger.antt =====
-- What `postCreditEntry` keeps, whatever other transactions commit between its statements.
use online_observatory.Common.{
  ℕ, ◌≡◌, refl, ◌∙◌, true, false, some, ◌∷◌, arith, ◌==◌, if◌then◌else◌, ℤ, pos, ◌+ℤ◌, neg,
  int_laws, +ℤ_zero, +ℤ_cancel_right, lookup, Option-cases, Bool-cases, inl, inr, ◌⊎◌,
}
use online_observatory.Credits.{
  CreditDb, CreditEntry, CreditPostResult, posted, not_posted, duplicate, returned, Interference,
  row_of, has_key, increment, ensure_credit_account, read_credit_balance, claim, record_entry,
  settle_entry, claim_entry, post_credit_entry,
}
use online_observatory.Credits.Accounts.{
  is_known, drift, read-ensure, known-ensure, read-increment, known-increment,
}

-- Other transactions: they move no balance without its entry, and delete no account.
pub record KeepsBooks (f : CreditDb → CreditDb) : Type 0 where
  pub drift_kept : (u : ℕ) (db : CreditDb) → drift u (f db) ≡ drift u db
  pub known_kept : (u : ℕ) (db : CreditDb) → is_known u db ≡ true → is_known u (f db) ≡ true

pub claim_cases :
    (v : ℕ) (a : ℤ) (db c : CreditDb)
    → claim v a db ≡ some c
    → (c ≡ increment v a db) ⊎ ((c ≡ db) × (a ≡ pos 0))
unfolding claim
claim_cases v a db c e = ground arith

increment-ledger : (v : ℕ) (a : ℤ) (db : CreditDb) → (increment v a db).ledger ≡ db.ledger
unfolding increment
increment-ledger v a db = refl

-- A claim moves one balance by the amount, writes no entry and deletes no account.
pub claim-moves :
    (u v : ℕ) (a : ℤ) (db c : CreditDb)
    → is_known v db ≡ true
    → claim v a db ≡ some c
    → (read_credit_balance u c
        ≡ (if u == v then read_credit_balance u db +ℤ a else read_credit_balance u db))
      × (c.ledger ≡ db.ledger)
      × (is_known v c ≡ true)
claim-moves u v a db c k e = elim (claim_cases v a db c e) [
  | inl moved ↦
      ground (arith, read-increment u v a db k, known-increment v v a db, increment-ledger v a db)
  | inr same ↦ ground (arith, +ℤ_zero (read_credit_balance u db))
]

-- The insert wrote the row, or found the key and moved the balance back.
pub record_entry_cases :
    (e : CreditEntry) (b : ℤ) (db db' : CreditDb) (r : CreditPostResult)
    → record_entry e b db ≡ returned (r, db')
    → ((has_key e.idempotency_key db.ledger ≡ true)
        × (r ≡ not_posted duplicate)
        × (db' ≡ increment e.user_id (neg e.amount) db))
      ⊎ ((has_key e.idempotency_key db.ledger ≡ false)
          × (r ≡ posted b)
          × (db'.ledger ≡ row_of e b ∷ db.ledger)
          × (db'.accounts ≡ db.accounts))
unfolding record_entry
record_entry_cases e b db db' r h = ground arith

pub read_of_accounts :
    (u : ℕ) (db db' : CreditDb)
    → db'.accounts ≡ db.accounts
    → read_credit_balance u db' ≡ read_credit_balance u db
unfolding read_credit_balance
read_of_accounts u db db' h = rw h

share : ℕ → CreditEntry → ℤ
share u e = if u == e.user_id then e.amount else pos 0

-- The insert and its compensation, from a state where the claim has moved the balance already.
record_entry-drift :
    (u : ℕ) (e : CreditEntry) (b : ℤ) (db db' : CreditDb) (r : CreditPostResult)
    → is_known e.user_id db ≡ true
    → record_entry e b db ≡ returned (r, db')
    → drift u db' +ℤ share u e ≡ drift u db
unfolding share
record_entry-drift u e b db db' r k h = elim (record_entry_cases e b db db' r h) [
  | inl (_, _, back) ↦
      rw
        (
          back,
          read-increment u e.user_id (neg e.amount) db k,
          increment-ledger e.user_id (neg e.amount) db,
        )
        (elim (Bool-cases (u == e.user_id)) [
          | inl y ↦ rw y (omega int_laws)
          | inr n ↦ rw n (omega int_laws)
        ])
  | inr (_, _, l, a) ↦
      rw (read_of_accounts u db db' a, l)
        (elim (Bool-cases (u == e.user_id)) [
          | inl y ↦ rw y (omega int_laws)
          | inr n ↦ rw n (omega int_laws)
        ])
]

claim-drift :
    (u : ℕ) (e : CreditEntry) (db c : CreditDb)
    → is_known e.user_id db ≡ true
    → claim e.user_id e.amount db ≡ some c
    → drift u c ≡ drift u db +ℤ share u e
unfolding share
claim-drift u e db c k h =
    let (m, l, _) = claim-moves u e.user_id e.amount db c k h in
    rw (m, l)
      (elim (Bool-cases (u == e.user_id)) [
        | inl y ↦ rw y (omega int_laws)
        | inr n ↦ rw n (omega int_laws)
      ])

settle_entry-drift :
    (u : ℕ) (f : CreditDb → CreditDb) (e : CreditEntry) (c db' : CreditDb) (r : CreditPostResult)
    → KeepsBooks f
    → is_known e.user_id c ≡ true
    → settle_entry f e c ≡ returned (r, db')
    → drift u db' +ℤ share u e ≡ drift u c
unfolding settle_entry
settle_entry-drift u f e c db' r keep k h = elim (Option-cases (lookup e.user_id c.accounts)) [
  | inl missing ↦ absurd (ground arith)
  | inr (b, found) ↦
      record_entry-drift u e b (f c) db' r (keep.known_kept e.user_id c k)
        (rw (found, settle_entry) at h)
      ∙ keep.drift_kept u c
]

claim_entry-drift :
    (u : ℕ) (f : CreditDb → CreditDb) (e : CreditEntry) (db db' : CreditDb) (r : CreditPostResult)
    → KeepsBooks f
    → is_known e.user_id db ≡ true
    → claim_entry f e db ≡ returned (r, db')
    → drift u db' ≡ drift u db
unfolding claim_entry
claim_entry-drift u f e db db' r keep k h = elim (Option-cases (claim e.user_id e.amount db)) [
  | inl refused ↦ ground arith
  | inr (c, claimed) ↦
      let settled =
        settle_entry-drift u f e c db' r keep (claim-moves u e.user_id e.amount db c k claimed).2
          (rw (claimed, claim_entry) at h) in
      let moved = claim-drift u e db c k claimed in
      +ℤ_cancel_right _ _ (share u e) (settled ∙ moved)
]

ensure-drift : (u v : ℕ) (db : CreditDb) → drift u (ensure_credit_account v db) ≡ drift u db
unfolding ensure_credit_account
ensure-drift u v db = rw (← read-ensure u v db)

-- How a call that returns went: by the key, or on to the claim.
pub post_cases :
    (env : Interference) (e : CreditEntry) (db db' : CreditDb) (r : CreditPostResult)
    → post_credit_entry env e db ≡ returned (r, db')
    → ((r ≡ not_posted duplicate)
        × (db' ≡ ensure_credit_account e.user_id db)
        × (has_key e.idempotency_key db.ledger ≡ true))
      ⊎ ((has_key e.idempotency_key db.ledger ≡ false)
          × (claim_entry env.before_insert e (env.before_claim (ensure_credit_account e.user_id db))
              ≡ returned (r, db')))
unfolding post_credit_entry ensure_credit_account
post_cases env e db db' r h = ground arith

-- A call that returns leaves every balance as far from the sum of its entries as it found it,
-- if the transactions that commit between its statements do so and delete no account.
pub post_credit_entry-drift :
    (env : Interference) (e : CreditEntry) (db db' : CreditDb) (r : CreditPostResult) (u : ℕ)
    → KeepsBooks env.before_claim
    → KeepsBooks env.before_insert
    → post_credit_entry env e db ≡ returned (r, db')
    → drift u db' ≡ drift u db
post_credit_entry-drift env e db db' r u kc ki h = elim (post_cases env e db db' r h) [
  | inl (_, same, _) ↦ rw same (ensure-drift u e.user_id db)
  | inr (_, run) ↦
      let ensured = ensure_credit_account e.user_id db in
      claim_entry-drift u env.before_insert e (env.before_claim ensured) db' r ki
        (kc.known_kept e.user_id ensured (known-ensure e.user_id db)) run
      ∙ kc.drift_kept u ensured
      ∙ ensure-drift u e.user_id db
]
