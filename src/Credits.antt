-- ===== src/Credits.antt =====
-- packages/db/credits.ts: the ledger of subscription minutes. A call inside a database transaction
-- is a function of the tables; `Interference` is what other transactions commit between its
-- statements. Ids are only compared, so they are numbers; instants are milliseconds. The text
-- keys (`booking:<id>`, …) are a data type with one constructor for each convention: the ids and
-- ISO instants in them hold no further colon-separated word, so the texts differ as the values do.
-- The audit row is `recordAuditEvent` of packages/db/audit.ts, reduced to what it records here.
pub mod Accounts
pub mod Ledger
pub mod Spending
pub mod Solvency
pub mod Callers
mod Tests
use online_observatory.Common.{
  ℕ, ◌+◌, ◌≤◌, ◌<◌, ◌≡◌, Bool, true, false, not, ◌&&◌, ◌||◌, Option, none, some, List, [], ◌∷◌, ltb,
  leb, ◌==◌, if◌then◌else◌, any, ℤ, pos, pos_part, neg_part, ◌+ℤ◌, neg, ltb_ℤ, leb_ℤ, Table, lookup,
  adjust, create,
}

pub data CreditLedgerReason : Type 0 where
  subscription_grant mission_debit private_session_debit refund adjustment expiry :
      CreditLedgerReason

pub data SubscriptionStatus : Type 0 where
  trialing active paused cancelled expired : SubscriptionStatus

pub data IdempotencyKey : Type 0 where
  renewal : ℕ → ℕ → IdempotencyKey
  booking : ℕ → IdempotencyKey
  booking_release : ℕ → IdempotencyKey
  expiry_of : ℕ → ℕ → IdempotencyKey
  admin : ℕ → IdempotencyKey

abbrev pub same_key : IdempotencyKey → IdempotencyKey → Bool
same_key (renewal s p) (renewal t q) = s == t && p == q
same_key (booking b) (booking c) = b == c
same_key (booking_release b) (booking_release c) = b == c
same_key (expiry_of s p) (expiry_of t q) = s == t && p == q
same_key (admin a) (admin b) = a == b
same_key _ _ = false

-- A row of `CreditLedger`.
pub record LedgerRow : Type 0 where
  pub user_id : ℕ
  pub mission_id : Option ℕ
  pub amount : ℤ
  pub balance_after : ℤ
  pub reason : CreditLedgerReason
  pub idempotency_key : IdempotencyKey
  pub note : Option ℕ
  pub is_demo : Bool

-- The audit row that a written entry leaves.
pub record CreditAudit : Type 0 where
  pub actor_user_id : Option ℕ
  pub entry : LedgerRow

pub record Subscription : Type 0 where
  pub status : SubscriptionStatus
  pub current_period_end : Option ℕ

-- The tables that the ledger reads and writes. An account is its balance.
pub record CreditDb : Type 0 where
  pub accounts : Table ℤ
  pub ledger : List LedgerRow
  pub subscriptions : Table Subscription
  pub audit : List CreditAudit

pub record CreditEntry : Type 0 where
  pub user_id : ℕ
  pub amount : ℤ
  pub reason : CreditLedgerReason
  pub idempotency_key : IdempotencyKey
  pub mission_id : Option ℕ
  pub note : Option ℕ
  pub actor_user_id : Option ℕ
  pub is_demo : Bool

pub data Refusal : Type 0 where
  duplicate insufficient_credits no_current_period : Refusal

pub data CreditPostResult : Type 0 where
  posted : ℤ → CreditPostResult
  not_posted : Refusal → CreditPostResult

pub data Fault : Type 0 where
  private_session_debit_written not_a_whole_number record_not_found : Fault

-- A transaction that throws is rolled back, so no state comes with the fault.
pub data Attempt {ℓ} (A : Type ℓ) : Type ℓ where
  returned : A → Attempt A
  thrown : Fault → Attempt A

-- What other transactions commit before the claim on the balance, and before the insert.
pub record Interference : Type 0 where
  pub before_claim : CreditDb → CreditDb
  pub before_insert : CreditDb → CreditDb

abbrev pub undisturbed : Interference
undisturbed = record { before_claim = λ db. db; before_insert = λ db. db }

unfoldable pub ensure_credit_account : ℕ → CreditDb → CreditDb
ensure_credit_account u db = record db { accounts = create u (pos 0) db.accounts }

unfoldable pub has_key : IdempotencyKey → List LedgerRow → Bool
has_key k [] = false
has_key k (r ∷ rs) = same_key k r.idempotency_key || has_key k rs

-- `Number.isSafeInteger`; a fractional amount is no ℤ.
abbrev pub max_safe_integer : ℕ
max_safe_integer = 9007199254740991

abbrev pub is_safe_integer : ℤ → Bool
is_safe_integer a = leb (pos_part a + neg_part a) max_safe_integer

-- `balance: { increment: amount }` on the user's row
unfoldable pub increment : ℕ → ℤ → CreditDb → CreditDb
increment u amount db = record db { accounts = adjust u (λ b. b +ℤ amount) db.accounts }

abbrev pub covers : Option ℤ → ℤ → Bool
covers none need = false
covers (some balance) need = leb_ℤ need balance

-- The conditional update; `none` is a count of 0.
unfoldable pub claim : ℕ → ℤ → CreditDb → Option CreditDb
claim u amount db =
    if ltb_ℤ amount (pos 0)
    then (if covers (lookup u db.accounts) (neg amount) then some (increment u amount db) else none)
    else if ltb_ℤ (pos 0) amount
    then some (increment u amount db)
    else some db

abbrev row_of : CreditEntry → ℤ → LedgerRow
row_of e balance = record {
  user_id = e.user_id;
  mission_id = e.mission_id;
  amount = e.amount;
  balance_after = balance;
  reason = e.reason;
  idempotency_key = e.idempotency_key;
  note = e.note;
  is_demo = e.is_demo;
}

-- The insert with ON CONFLICT DO NOTHING, the compensation when it wrote no row, and the audit row.
unfoldable pub record_entry : CreditEntry → ℤ → CreditDb → Attempt (CreditPostResult × CreditDb)
record_entry e balance db =
    if has_key e.idempotency_key db.ledger
    then returned (not_posted duplicate, increment e.user_id (neg e.amount) db)
    else returned (
      posted balance,
      record db {
        ledger = row_of e balance ∷ db.ledger;
        audit = record { actor_user_id = e.actor_user_id; entry = row_of e balance } ∷ db.audit;
      },
    )

-- `findUniqueOrThrow` for the balance that the claim produced, then the insert.
unfoldable pub settle_entry :
    (CreditDb → CreditDb) → CreditEntry → CreditDb → Attempt (CreditPostResult × CreditDb)
settle_entry before_insert e db = elim (lookup e.user_id db.accounts) [
  | none ↦ thrown record_not_found
  | some balance ↦ record_entry e balance (before_insert db)
]

-- The claim and what follows it, from the state that the claim finds.
unfoldable pub claim_entry :
    (CreditDb → CreditDb) → CreditEntry → CreditDb → Attempt (CreditPostResult × CreditDb)
claim_entry before_insert e db = elim (claim e.user_id e.amount db) [
  | none ↦ returned (not_posted insufficient_credits, db)
  | some claimed ↦ settle_entry before_insert e claimed
]

abbrev pub is_private_debit : CreditLedgerReason → Bool
is_private_debit private_session_debit = true
is_private_debit _ = false

-- `postCreditEntry`
unfoldable pub post_credit_entry :
    Interference → CreditEntry → CreditDb → Attempt (CreditPostResult × CreditDb)
post_credit_entry env e db =
    if is_private_debit e.reason
    then thrown private_session_debit_written
    else if not (is_safe_integer e.amount)
    then thrown not_a_whole_number
    else let ensured = ensure_credit_account e.user_id db in
      if has_key e.idempotency_key ensured.ledger
      then returned (not_posted duplicate, ensured)
      else claim_entry env.before_insert e (env.before_claim ensured)

-- `readCreditBalance`
unfoldable pub read_credit_balance : ℕ → CreditDb → ℤ
read_credit_balance u db = elim (lookup u db.accounts) [ none ↦ pos 0 | some b ↦ b ]

pub record CreditBooking : Type 0 where
  pub id : ℕ
  pub user_id : ℕ
  pub minutes : ℕ
  pub is_demo : Bool

abbrev pub may_spend : SubscriptionStatus → Bool
may_spend active = true
may_spend paused = true
may_spend _ = false

abbrev pub runs_past : Option ℕ → ℕ → Bool
runs_past none now = false
runs_past (some period_end) now = ltb now period_end

abbrev pub spendable : Option Subscription → ℕ → Bool
spendable none now = false
spendable (some s) now = may_spend s.status && runs_past s.current_period_end now

abbrev pub debit_of : CreditBooking → CreditEntry
debit_of b = record {
  user_id = b.user_id;
  amount = neg (pos b.minutes);
  reason = mission_debit;
  idempotency_key = booking b.id;
  mission_id = none;
  note = none;
  actor_user_id = some b.user_id;
  is_demo = b.is_demo;
}

-- `spendBookingMinutes`; `posted` stands for `{ spent: true }`.
unfoldable pub spend_booking_minutes :
    Interference → CreditBooking → ℕ → CreditDb → Attempt (CreditPostResult × CreditDb)
spend_booking_minutes env b now db =
    if spendable (lookup b.user_id db.subscriptions) now
    then post_credit_entry env (debit_of b) db
    else returned (not_posted no_current_period, db)

-- `hasRunningPeriod`
unfoldable pub has_running_period : ℕ → ℕ → CreditDb → Bool
has_running_period u now db = elim (lookup u db.subscriptions) [
  | none ↦ false
  | some s ↦ runs_past s.current_period_end now
]

abbrev pub release_of : CreditBooking → CreditEntry
release_of b = record {
  user_id = b.user_id;
  amount = pos b.minutes;
  reason = refund;
  idempotency_key = booking_release b.id;
  mission_id = none;
  note = none;
  actor_user_id = none;
  is_demo = false;
}

abbrev pub state_of : Attempt (CreditPostResult × CreditDb) → Attempt CreditDb
state_of (returned (_, db)) = returned db
state_of (thrown f) = thrown f

-- `releaseSpentMinutes`; `minutes` is the booking's `subscriptionMinutesSpent`.
unfoldable pub release_spent_minutes :
    Interference → CreditBooking → ℕ → CreditDb → Attempt CreditDb
release_spent_minutes env b now db =
    if b.minutes == 0
    then returned db
    else if has_running_period b.user_id now db
    then state_of (post_credit_entry env (release_of b) db)
    else returned db

pub record SubscriptionRef : Type 0 where
  pub id : ℕ
  pub user_id : ℕ
  pub is_demo : Bool

abbrev pub expiry_entry : SubscriptionRef → ℕ → ℤ → CreditEntry
expiry_entry s period_end balance = record {
  user_id = s.user_id;
  amount = neg balance;
  reason = expiry;
  idempotency_key = expiry_of s.id period_end;
  mission_id = none;
  note = none;
  actor_user_id = none;
  is_demo = s.is_demo;
}

-- `expireSubscriptionMinutes`; `none` is the source's `null`.
unfoldable pub expire_subscription_minutes :
    Interference → SubscriptionRef → ℕ → CreditDb → Option (Attempt (CreditPostResult × CreditDb))
expire_subscription_minutes env s period_end db =
    let balance = read_credit_balance s.user_id db in
    if leb_ℤ balance (pos 0)
    then none
    else some (post_credit_entry env (expiry_entry s period_end balance) db)

abbrev pub grant_of : SubscriptionRef → ℕ → ℕ → CreditEntry
grant_of s period_start minutes = record {
  user_id = s.user_id;
  amount = pos minutes;
  reason = subscription_grant;
  idempotency_key = renewal s.id period_start;
  mission_id = none;
  note = none;
  actor_user_id = none;
  is_demo = s.is_demo;
}

-- `grantSubscriptionMinutes`
unfoldable pub grant_subscription_minutes :
    Interference → SubscriptionRef → ℕ → ℕ → CreditDb → Attempt (CreditPostResult × CreditDb)
grant_subscription_minutes env s period_start minutes =
    post_credit_entry env (grant_of s period_start minutes)
