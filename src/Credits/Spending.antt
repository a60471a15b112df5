-- ===== src/Credits/Spending.antt =====
-- What a call does to the balances, run alone or beside others: spends never overdraw, an event is
-- recorded once, and each of the ledger's callers moves what it says.
use online_observatory.Common.{
  ℕ, ◌≡◌, ◌≢◌, refl, ◌∙◌, true, false, none, some, List, ◌∷◌, arith, ◌==◌, if◌then◌else◌, ℤ, pos,
  ◌+ℤ◌, neg, ◌≤ℤ◌, ◌<ℤ◌, int_laws, lookup, Option-cases, inl, inr, ==_self, ap,
}
use online_observatory.Credits.{
  CreditDb, LedgerRow, CreditEntry, posted, not_posted, insufficient_credits, returned, undisturbed,
  row_of, is_private_debit, is_safe_integer, has_key, ensure_credit_account, read_credit_balance,
  claim, record_entry, settle_entry, claim_entry, post_credit_entry,
}
use online_observatory.Credits.Ledger.{claim-moves, read_of_accounts}
use online_observatory.Credits.Accounts.{is_known, read-ensure, known-ensure}

-- No balance is below zero.
abbrev pub IsSolvent : CreditDb → Type 0
IsSolvent db = (u : ℕ) → pos 0 ≤ℤ read_credit_balance u db

-- While a claim has moved the user's row, no other transaction writes that row.
abbrev pub KeepsRow : ℕ → (CreditDb → CreditDb) → Type 0
KeepsRow u f = (db : CreditDb) → lookup u (f db).accounts ≡ lookup u db.accounts

-- The balances of two states agree.
abbrev pub SameBalances : CreditDb → CreditDb → Type 0
SameBalances db db' = (u : ℕ) → read_credit_balance u db' ≡ read_credit_balance u db

pub known_lookup :
    (v : ℕ) (db : CreditDb)
    → is_known v db ≡ true
    → lookup v db.accounts ≡ some (read_credit_balance v db)
unfolding read_credit_balance
known_lookup v db h = ground arith

pub claim-refused :
    (v : ℕ) (a b : ℤ) (db : CreditDb)
    → lookup v db.accounts ≡ some b
    → pos 0 ≤ℤ b
    → b +ℤ a <ℤ pos 0
    → claim v a db ≡ none
unfolding claim
claim-refused v a b db h nonneg lt =
    let neg_a : a <ℤ pos 0 = omega int_laws in
    let short : b <ℤ neg a = omega int_laws in ground arith

claim-ne-none :
    (v : ℕ) (a b : ℤ) (db : CreditDb)
    → lookup v db.accounts ≡ some b
    → pos 0 ≤ℤ b +ℤ a
    → claim v a db ≢ none
unfolding claim
claim-ne-none v a b db h le = let enough : neg a ≤ℤ b = omega int_laws in ground arith

claim-allowed :
    (v : ℕ) (a b : ℤ) (db : CreditDb)
    → lookup v db.accounts ≡ some b
    → pos 0 ≤ℤ b +ℤ a
    → (c : CreditDb) × (claim v a db ≡ some c)
claim-allowed v a b db h le = elim (Option-cases (claim v a db)) [
  | inl refused ↦ absurd (claim-ne-none v a b db h le refused)
  | inr allowed ↦ allowed
]

-- An entry that `postCreditEntry` does not throw at.
abbrev pub IsWritable : CreditEntry → Type 0
IsWritable e = (is_private_debit e.reason ≡ false) × (is_safe_integer e.amount ≡ true)

abbrev pub balance_with : ℕ → CreditEntry → CreditDb → ℤ
balance_with u e db =
    if u == e.user_id then read_credit_balance u db +ℤ e.amount else read_credit_balance u db

abbrev added : CreditEntry → ℤ → CreditDb → CreditDb
added e balance c = record c {
  ledger = row_of e balance ∷ c.ledger;
  audit = record { actor_user_id = e.actor_user_id; entry = row_of e balance } ∷ c.audit;
}

posts_from :
    (e : CreditEntry) (balance : ℤ) (db c : CreditDb)
    → IsWritable e
    → has_key e.idempotency_key db.ledger ≡ false
    → claim e.user_id e.amount (ensure_credit_account e.user_id db) ≡ some c
    → c.ledger ≡ (ensure_credit_account e.user_id db).ledger
    → lookup e.user_id c.accounts ≡ some balance
    → post_credit_entry undisturbed e db ≡ returned (posted balance, added e balance c)
unfolding post_credit_entry claim_entry settle_entry record_entry ensure_credit_account
posts_from e balance db c ok fresh claimed same_ledger now = ground arith

-- Run alone on a fresh key, a writable entry that leaves its user a balance of zero or more is
-- posted: one row is added, with the new balance in it, and that user's balance alone moves.
pub post_credit_entry-posts :
    (e : CreditEntry) (db : CreditDb)
    → IsWritable e
    → has_key e.idempotency_key db.ledger ≡ false
    → pos 0 ≤ℤ read_credit_balance e.user_id db +ℤ e.amount
    → let balance = read_credit_balance e.user_id db +ℤ e.amount in
      (db' : CreditDb) × (post_credit_entry undisturbed e db ≡ returned (posted balance, db'))
      × (db'.ledger ≡ row_of e balance ∷ db.ledger)
      × ((u : ℕ) → read_credit_balance u db' ≡ balance_with u e db)
unfolding ensure_credit_account
post_credit_entry-posts e db ok fresh le =
    let ensured = ensure_credit_account e.user_id db in
    let balance = read_credit_balance e.user_id db +ℤ e.amount in
    let known = known-ensure e.user_id db in
    let (c, claimed) =
      claim-allowed e.user_id e.amount (read_credit_balance e.user_id ensured) ensured
        (known_lookup e.user_id ensured known) (rw (read-ensure e.user_id e.user_id db) le) in
    let (_, same_ledger, still_known) =
      claim-moves e.user_id e.user_id e.amount ensured c known claimed in
    let reads : (u : ℕ) → read_credit_balance u c ≡ balance_with u e db = λ u.
      (claim-moves u e.user_id e.amount ensured c known claimed).0
      ∙ rw (read-ensure u e.user_id db) in
    let now : lookup e.user_id c.accounts ≡ some balance =
      known_lookup e.user_id c still_known ∙ ap some (reads e.user_id ∙ rw (==_self e.user_id)) in
    (
      added e balance c,
      posts_from e balance db c ok fresh claimed same_ledger now,
      ap (λ (l : List LedgerRow). row_of e balance ∷ l) same_ledger,
      λ u. read_of_accounts u c (added e balance c) refl ∙ reads u,
    )

-- Run alone on a fresh key, a spend of more than the balance is refused, and no balance moves.
pub post_credit_entry-refuses :
    (e : CreditEntry) (db : CreditDb)
    → IsWritable e
    → has_key e.idempotency_key db.ledger ≡ false
    → IsSolvent db
    → read_credit_balance e.user_id db +ℤ e.amount <ℤ pos 0
    → (db' : CreditDb) × (post_credit_entry undisturbed e db
        ≡ returned (not_posted insufficient_credits, db'))
      × (db'.ledger ≡ db.ledger)
      × SameBalances db db'
unfolding post_credit_entry claim_entry ensure_credit_account
post_credit_entry-refuses e db ok fresh solvent lt =
    let ensured = ensure_credit_account e.user_id db in
    (
      ensured,
      ground (
        arith,
        claim-refused e.user_id e.amount (read_credit_balance e.user_id ensured) ensured
            (known_lookup e.user_id ensured (known-ensure e.user_id db)),
        read-ensure e.user_id e.user_id db,
        solvent e.user_id,
      ),
      refl,
      λ u. read-ensure u e.user_id db,
    )
