-- ===== src/Credits/Tests.antt =====
-- Runs of the credit ledger, and its theorems at concrete states.
use online_observatory.Common.{
  ℕ, ◌≡◌, refl, Bool, true, false, none, some, [], ◌∷◌, arith, ◌==◌, if◌then◌else◌, ℤ, pos, negsuc,
  ◌+ℤ◌, neg, ◌≤ℤ◌, int_laws, lookup, ◌-ℤ◌, ◌≢◌,
}
use online_observatory.Credits.{
  CreditDb, LedgerRow, CreditEntry, Subscription, active, paused, refund, subscription_grant,
  mission_debit, adjustment, admin, posted, not_posted, duplicate, insufficient_credits, returned,
  Interference, undisturbed, row_of, post_credit_entry, read_credit_balance, spend_booking_minutes,
  release_spent_minutes, expire_subscription_minutes, CreditBooking, SubscriptionRef, claim,
  claim_entry, settle_entry, record_entry, ensure_credit_account, increment, has_key, spendable,
  has_running_period,
}
use online_observatory.Credits.Accounts.{ledger_sum, drift}
use online_observatory.Credits.Ledger.{KeepsBooks, post_credit_entry-drift}
use online_observatory.Credits.Spending.{
  IsSolvent, SameBalances, balance_with, post_credit_entry-posts, post_credit_entry-refuses,
}
use online_observatory.Credits.Solvency.{post_credit_entry-IsSolvent}
use online_observatory.Credits.Callers.{
  post_credit_entry-repeated, spend_booking_minutes-posted, spend-release,
  expire_subscription_minutes-empties,
}

abbrev bank : CreditDb
bank = record {
  accounts = (1, pos 90) ∷ (2, pos 5) ∷ [];
  ledger = [];
  subscriptions = (1, record { status = paused; current_period_end = some 1000 }) ∷ [];
  audit = [];
}

abbrev bonus : CreditEntry
bonus = record {
  user_id = 1;
  amount = pos 30;
  reason = adjustment;
  idempotency_key = admin 7;
  mission_id = none;
  note = none;
  actor_user_id = none;
  is_demo = false;
}

abbrev overspend : CreditEntry
overspend = record bonus { user_id = 2; amount = negsuc 5 }

-- Another transaction that records the same event first, with nothing moved.
abbrev first_writer : CreditDb → CreditDb
first_writer db = record db {
  ledger = row_of (record bonus { amount = pos 0 }) (pos 90) ∷ db.ledger;
}

abbrev raced : Interference
raced = record { before_claim = λ db. db; before_insert = first_writer }

nothing_added : (b : Bool) (x : ℤ) → (if b then pos 0 else pos 0) +ℤ x ≡ x
nothing_added true x = omega int_laws
nothing_added false x = omega int_laws

first_writer-KeepsBooks : KeepsBooks first_writer
unfolding read_credit_balance
first_writer-KeepsBooks = record {
  drift_kept = λ u db. rw (nothing_added (u == 1) (ledger_sum u db.ledger));
  known_kept = λ u db h. h;
}

same-KeepsBooks : KeepsBooks (λ db. db)
same-KeepsBooks = record { drift_kept = λ u db. refl; known_kept = λ u db h. h }

bank-IsSolvent : IsSolvent bank
unfolding read_credit_balance
bank-IsSolvent u = ground arith

-- The compensation of a lost race leaves the balance alone.
raced_runs : post_credit_entry raced bonus bank ≡ returned (not_posted duplicate, first_writer bank)
unfolding post_credit_entry claim_entry settle_entry record_entry claim ensure_credit_account
    increment has_key neg ◌+ℤ◌
raced_runs = refl

post_credit_entry-drift_example : drift 1 (first_writer bank) ≡ drift 1 bank
post_credit_entry-drift_example =
    post_credit_entry-drift raced bonus bank (first_writer bank) (not_posted duplicate) 1
      same-KeepsBooks first_writer-KeepsBooks raced_runs

post_credit_entry-IsSolvent_example : IsSolvent (first_writer bank)
unfolding read_credit_balance
post_credit_entry-IsSolvent_example =
    post_credit_entry-IsSolvent raced bonus bank (first_writer bank) (not_posted duplicate)
      same-KeepsBooks (λ db s. s) (λ db s. s) (λ db. refl) bank-IsSolvent raced_runs

post_credit_entry-posts_example :
    (db' : CreditDb) × (post_credit_entry undisturbed bonus bank
      ≡ returned (posted (read_credit_balance 1 bank +ℤ pos 30), db'))
    × (db'.ledger ≡ row_of bonus (read_credit_balance 1 bank +ℤ pos 30) ∷ [])
    × ((u : ℕ) → read_credit_balance u db' ≡ balance_with u bonus bank)
unfolding has_key
post_credit_entry-posts_example =
    post_credit_entry-posts bonus bank (refl, refl) refl
      (unfold read_credit_balance ◌+ℤ◌ in (omega arith))

post_credit_entry-refuses_example :
    (db' : CreditDb) × (post_credit_entry undisturbed overspend bank
      ≡ returned (not_posted insufficient_credits, db'))
    × (db'.ledger ≡ [])
    × SameBalances bank db'
unfolding has_key
post_credit_entry-refuses_example =
    post_credit_entry-refuses overspend bank (refl, refl) refl bank-IsSolvent
      (unfold read_credit_balance ◌+ℤ◌ in (omega arith))

post_credit_entry-repeated_example :
    (db' : CreditDb) × (post_credit_entry raced bonus (first_writer bank)
      ≡ returned (not_posted duplicate, db'))
    × (db'.ledger ≡ (first_writer bank).ledger)
    × (db'.audit ≡ [])
    × SameBalances (first_writer bank) db'
unfolding has_key
post_credit_entry-repeated_example =
    post_credit_entry-repeated raced bonus (first_writer bank) (refl, refl) refl

abbrev session : CreditBooking
session = record { id = 4; user_id = 1; minutes = 60; is_demo = false }

abbrev spent_row : LedgerRow
spent_row = record {
  user_id = 1;
  mission_id = none;
  amount = negsuc 59;
  balance_after = pos 30;
  reason = mission_debit;
  idempotency_key = online_observatory.Credits.booking 4;
  note = none;
  is_demo = false;
}

abbrev after_spend : CreditDb
after_spend = record bank {
  accounts = (1, pos 30) ∷ (2, pos 5) ∷ [];
  ledger = spent_row ∷ [];
  audit = record { actor_user_id = some 1; entry = spent_row } ∷ [];
}

spend_runs :
    spend_booking_minutes undisturbed session 500 bank ≡ returned (posted (pos 30), after_spend)
unfolding spend_booking_minutes post_credit_entry claim_entry settle_entry record_entry claim
    ensure_credit_account increment has_key neg ◌+ℤ◌
spend_runs = refl

spend_booking_minutes-posted_example :
    (spendable (lookup 1 bank.subscriptions) 500 ≡ true)
    × (pos 60 ≤ℤ read_credit_balance 1 bank)
    × (pos 30 ≡ read_credit_balance 1 bank -ℤ pos 60)
    × ((u : ℕ)
        → read_credit_balance u after_spend
          ≡ (if u == 1 then pos 30 else read_credit_balance u bank))
spend_booking_minutes-posted_example =
    spend_booking_minutes-posted session 500 bank after_spend (pos 30) (omega arith) bank-IsSolvent
      spend_runs

spend-release_example :
    (released : CreditDb) × (release_spent_minutes undisturbed session 700 after_spend
      ≡ returned released)
    × SameBalances bank released
unfolding has_running_period has_key
spend-release_example =
    spend-release session 500 700 bank after_spend (pos 30) (omega arith) (omega arith)
      bank-IsSolvent refl spend_runs refl

abbrev monthly : SubscriptionRef
monthly = record { id = 3; user_id = 1; is_demo = false }

expire_subscription_minutes-empties_example :
    (expired : CreditDb) × (expire_subscription_minutes undisturbed monthly 1000 bank
      ≡ some (returned (posted (pos 0), expired)))
    × (read_credit_balance 1 expired ≡ pos 0)
    × ((u : ℕ) → u ≢ 1 → read_credit_balance u expired ≡ read_credit_balance u bank)
    × (expire_subscription_minutes undisturbed monthly 1000 expired ≡ none)
unfolding has_key read_credit_balance
expire_subscription_minutes-empties_example =
    expire_subscription_minutes-empties monthly 1000 bank 89 refl (omega arith) refl
