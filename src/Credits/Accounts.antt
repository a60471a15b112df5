-- ===== src/Credits/Accounts.antt =====
-- The balances of packages/db/credits.ts under its updates, and what a ledger adds up to.
use online_observatory.Common.{
  ℕ, ◌≡◌, Bool, true, false, none, some, List, [], ◌∷◌, arith, ◌==◌, if◌then◌else◌, ℤ, pos, ◌+ℤ◌,
  ◌-ℤ◌, lookup, lookup-adjust, lookup-create,
}
use online_observatory.Credits.{
  CreditDb, LedgerRow, IdempotencyKey, renewal, booking, booking_release, expiry_of, admin,
  same_key, increment, ensure_credit_account, read_credit_balance,
}

-- The user has an account.
abbrev pub is_known : ℕ → CreditDb → Bool
is_known u db = elim (lookup u db.accounts) [ none ↦ false | some _ ↦ true ]

-- The sum of a user's entries.
abbrev pub ledger_sum : ℕ → List LedgerRow → ℤ
ledger_sum u [] = pos 0
ledger_sum u (r ∷ rs) = (if u == r.user_id then r.amount else pos 0) +ℤ ledger_sum u rs

-- By how much a balance and the sum of its entries differ.
abbrev pub drift : ℕ → CreditDb → ℤ
drift u db = read_credit_balance u db -ℤ ledger_sum u db.ledger

pub read-ensure :
    (u v : ℕ) (db : CreditDb)
    → read_credit_balance u (ensure_credit_account v db) ≡ read_credit_balance u db
unfolding read_credit_balance ensure_credit_account
read-ensure u v db = ground (arith, lookup-create u v (pos 0) db.accounts)

pub known-ensure : (u : ℕ) (db : CreditDb) → is_known u (ensure_credit_account u db) ≡ true
unfolding ensure_credit_account
known-ensure u db = ground (arith, lookup-create u u (pos 0) db.accounts)

pub read-increment :
    (u v : ℕ) (a : ℤ) (db : CreditDb)
    → is_known v db ≡ true
    → read_credit_balance u (increment v a db)
      ≡ (if u == v then read_credit_balance u db +ℤ a else read_credit_balance u db)
unfolding read_credit_balance increment
read-increment u v a db h = ground (arith, lookup-adjust u v (λ b. b +ℤ a) db.accounts)

pub known-increment :
    (u v : ℕ) (a : ℤ) (db : CreditDb) → is_known u (increment v a db) ≡ is_known u db
unfolding increment
known-increment u v a db = ground (arith, lookup-adjust u v (λ b. b +ℤ a) db.accounts)

pub same_key_self : (k : IdempotencyKey) → same_key k k ≡ true
same_key_self (renewal s p) = ground arith
same_key_self (booking b) = ground arith
same_key_self (booking_release b) = ground arith
same_key_self (expiry_of s p) = ground arith
same_key_self (admin a) = ground arith
