-- ===== src/Credits/Solvency.antt =====
-- No interleaving of the calls of packages/db/credits.ts overdraws an account.
use online_observatory.Common.{
  ℕ, ◌≡◌, true, some, arith, ◌==◌, ℤ, pos, ◌+ℤ◌, neg, ◌≤ℤ◌, leb_ℤ, leb_ℤ→le, leb_ℤ-false→lt,
  int_laws, lookup, Option-cases, Bool-cases, inl, inr, ==_self, ==_iff,
}
use online_observatory.Credits.{
  CreditDb, CreditEntry, CreditPostResult, returned, Interference, increment, ensure_credit_account,
  read_credit_balance, claim, record_entry, settle_entry, claim_entry, post_credit_entry,
}
use online_observatory.Credits.Ledger.{
  KeepsBooks, claim-moves, post_cases, record_entry_cases, read_of_accounts,
}
use online_observatory.Credits.Spending.{IsSolvent, KeepsRow, known_lookup, claim-refused}
use online_observatory.Credits.Accounts.{is_known, read-ensure, known-ensure, read-increment}

-- A claim that wrote a row leaves that balance at zero or more.
claim-covered :
    (v : ℕ) (a b : ℤ) (db c : CreditDb)
    → lookup v db.accounts ≡ some b
    → pos 0 ≤ℤ b
    → claim v a db ≡ some c
    → pos 0 ≤ℤ b +ℤ a
claim-covered v a b db c h nonneg e = elim (Bool-cases (leb_ℤ (pos 0) (b +ℤ a))) [
  | inl enough ↦ leb_ℤ→le (pos 0) (b +ℤ a) enough
  | inr short ↦
      let refused = claim-refused v a b db h nonneg (leb_ℤ-false→lt (pos 0) (b +ℤ a) short) in
      absurd (cc)
]

claim-IsSolvent :
    (v : ℕ) (a : ℤ) (db c : CreditDb)
    → is_known v db ≡ true
    → IsSolvent db
    → claim v a db ≡ some c
    → IsSolvent c
claim-IsSolvent v a db c k s e u =
    let covered = claim-covered v a (read_credit_balance v db) db c (known_lookup v db k) (s v) e in
    rw ((claim-moves u v a db c k e).0) (elim (Bool-cases (u == v)) [
      | inl y ↦ ground (arith, covered, (==_iff u v).0 y)
      | inr n ↦ rw n (s u)
    ])

-- Other transactions leave no balance below zero.
abbrev pub KeepsSolvent : (CreditDb → CreditDb) → Type 0
KeepsSolvent f = (db : CreditDb) → IsSolvent db → IsSolvent (f db)

known_of_row :
    (v : ℕ) (f : CreditDb → CreditDb) (db : CreditDb)
    → KeepsRow v f
    → is_known v db ≡ true
    → is_known v (f db) ≡ true
known_of_row v f db row k = ground (arith, row db)

read_of_row :
    (v : ℕ) (f : CreditDb → CreditDb) (db : CreditDb)
    → KeepsRow v f
    → read_credit_balance v (f db) ≡ read_credit_balance v db
unfolding read_credit_balance
read_of_row v f db row = rw (row db, read_credit_balance)

back : (a b : ℤ) → b +ℤ a +ℤ neg a ≡ b
back a b = omega int_laws

-- The compensation puts the claimed balance back where it was.
compensated :
    (u : ℕ) (f : CreditDb → CreditDb) (e : CreditEntry) (db c : CreditDb)
    → KeepsSolvent f
    → KeepsRow e.user_id f
    → is_known e.user_id db ≡ true
    → IsSolvent db
    → claim e.user_id e.amount db ≡ some c
    → pos 0 ≤ℤ read_credit_balance u (increment e.user_id (neg e.amount) (f c))
compensated u f e db c keep row k s claimed =
    let moves = claim-moves e.user_id e.user_id e.amount db c k claimed in
    let known = known_of_row e.user_id f c row moves.2 in
    let solvent = keep c (claim-IsSolvent e.user_id e.amount db c k s claimed) in
    rw (read-increment u e.user_id (neg e.amount) (f c) known) (elim (Bool-cases (u == e.user_id)) [
      | inl y ↦ rw y (
          rw
            (
              (==_iff u e.user_id).0 y,
              read_of_row e.user_id f c row,
              moves.0,
              ==_self e.user_id,
              back e.amount (read_credit_balance e.user_id db),
            )
            (s e.user_id))
      | inr n ↦ rw n (solvent u)
    ])

claim_entry-IsSolvent :
    (f : CreditDb → CreditDb) (e : CreditEntry) (db db' : CreditDb) (r : CreditPostResult)
    → KeepsSolvent f
    → KeepsRow e.user_id f
    → is_known e.user_id db ≡ true
    → IsSolvent db
    → claim_entry f e db ≡ returned (r, db')
    → IsSolvent db'
unfolding claim_entry settle_entry
claim_entry-IsSolvent f e db db' r keep row k s h u =
    elim (Option-cases (claim e.user_id e.amount db)) [
      | inl refused ↦ ground (arith, s u)
      | inr (c, claimed) ↦
          let known =
            known_lookup e.user_id c (claim-moves u e.user_id e.amount db c k claimed).2 in
          let recorded : record_entry e (read_credit_balance e.user_id c) (f c)
              ≡ returned (r, db') =
            rw (claimed, known, claim_entry, settle_entry) at h in
          elim (record_entry_cases e (read_credit_balance e.user_id c) (f c) db' r recorded) [
            | inl (_, _, back_again) ↦ rw back_again (compensated u f e db c keep row k s claimed)
            | inr (_, _, _, same) ↦
                rw (read_of_accounts u (f c) db' same)
                  (keep c (claim-IsSolvent e.user_id e.amount db c k s claimed) u)
          ]
    ]

-- A call that returns leaves no balance below zero, if none was, the other transactions leave none
-- so and delete no account, and none writes the user's row while this call holds it.
pub post_credit_entry-IsSolvent :
    (env : Interference) (e : CreditEntry) (db db' : CreditDb) (r : CreditPostResult)
    → KeepsBooks env.before_claim
    → KeepsSolvent env.before_claim
    → KeepsSolvent env.before_insert
    → KeepsRow e.user_id env.before_insert
    → IsSolvent db
    → post_credit_entry env e db ≡ returned (r, db')
    → IsSolvent db'
post_credit_entry-IsSolvent env e db db' r books kc ki row s h =
    let ensured = ensure_credit_account e.user_id db in
    let solvent : IsSolvent ensured = λ u. rw (read-ensure u e.user_id db) (s u) in
    elim (post_cases env e db db' r h) [
      | inl (_, same, _) ↦ rw same solvent
      | inr (_, run) ↦
          claim_entry-IsSolvent env.before_insert e (env.before_claim ensured) db' r ki row
            (books.known_kept e.user_id ensured (known-ensure e.user_id db)) (kc ensured solvent)
            run
    ]
