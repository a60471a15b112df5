-- ===== src/Renewals.antt =====
-- The renewal sweep's decision on one subscription: `decide` of
-- apps/realtime/src/subscriptions/renewals.ts. The row is locked, so it is read once; `payments` are
-- the payments of all subscriptions. What other transactions do to them before the insert is a
-- parameter, as is what they do to the credit ledger. Instants are milliseconds.
pub mod Charging
mod Tests
use online_observatory.Common.{
  ℕ, suc, ◌+◌, ◌*◌, Bool, true, false, not, ◌&&◌, ◌||◌, Option, none, some, List, [], ◌∷◌, ltb, leb,
  ◌==◌, if◌then◌else◌, any, select, length,
}
use online_observatory.Credits.{
  CreditDb, CreditPostResult, SubscriptionStatus, active, paused, cancelled, expired, Attempt,
  returned, thrown, Interference, expire_subscription_minutes,
}

abbrev pub renewal_attempts : ℕ
renewal_attempts = 3

abbrev pub renewal_retry_days : ℕ
renewal_retry_days = 2

abbrev pub renewal_grace_days : ℕ
renewal_grace_days = 7

abbrev pub day_ms : ℕ
day_ms = 86400000

pub data PaymentStatus : Type 0 where
  pending authorized captured failed refunded : PaymentStatus

pub record PaymentRow : Type 0 where
  pub id : ℕ
  pub status : PaymentStatus
  pub subscription_id : ℕ
  pub period_start : ℕ
  pub user_id : ℕ
  pub amount_minor : ℕ
  pub is_demo : Bool

pub record SubscriptionRow : Type 0 where
  pub id : ℕ
  pub user_id : ℕ
  pub status : SubscriptionStatus
  pub current_period_end : Option ℕ
  pub cancel_at_period_end : Bool
  pub provider_mandate_ref : Option ℕ
  pub price_minor : ℕ
  pub ends_at : Option ℕ
  pub is_demo : Bool

pub data ExpiryReason : Type 0 where
  no_saved_instrument attempts_exhausted grace_period_ended : ExpiryReason

-- Without the provider, the currency and the ids.
pub data RenewalAudit : Type 0 where
  subscription_cancelled : (ends_at : ℕ) → RenewalAudit
  subscription_expired : (period_end failed_attempts : ℕ) → ExpiryReason → RenewalAudit
  renewal_charged : (payment_id attempt : ℕ) → RenewalAudit

pub record RenewalDb : Type 0 where
  pub subscription : SubscriptionRow
  pub payments : List PaymentRow
  pub credits : CreditDb
  pub audit : List RenewalAudit

pub record SavedInstrumentCharge : Type 0 where
  pub payment_id : ℕ
  pub mandate_ref : ℕ
  pub amount_minor : ℕ

pub data Decision : Type 0 where
  nothing_due was_cancelled has_expired : Decision
  charge : SavedInstrumentCharge → Decision

-- What the surroundings decide: whether there is a charger, the random id of a new payment, and what
-- other transactions commit.
pub record RenewalEnv : Type 0 where
  pub has_charger : Bool
  pub payment_id : ℕ
  pub ledger : Interference
  pub before_insert : List PaymentRow → List PaymentRow

abbrev pub is_status : PaymentStatus → PaymentStatus → Bool
is_status pending pending = true
is_status authorized authorized = true
is_status captured captured = true
is_status failed failed = true
is_status refunded refunded = true
is_status _ _ = false

-- A payment for the period, that is one of the attempts.
abbrev pub is_attempt : ℕ → ℕ → PaymentRow → Bool
is_attempt subscription start p = p.subscription_id == subscription && p.period_start == start

abbrev pub attempts_in : ℕ → ℕ → List PaymentRow → List PaymentRow
attempts_in subscription start l = select (is_attempt subscription start) l

unfoldable pub failed_in : ℕ → ℕ → List PaymentRow → ℕ
failed_in subscription start l =
    length (select (λ p. is_status failed p.status) (attempts_in subscription start l))

unfoldable pub has_attempt : PaymentStatus → ℕ → ℕ → List PaymentRow → Bool
has_attempt s subscription start l =
    any (λ p. is_status s p.status) (attempts_in subscription start l)

-- `Payment_subscription_period_live_key`: what a second live charge of a period collides with.
unfoldable pub is_live_charge : ℕ → ℕ → PaymentRow → Bool
is_live_charge subscription start p =
    is_attempt subscription start p && not (is_status failed p.status)

abbrev pub new_payment : RenewalEnv → SubscriptionRow → ℕ → PaymentRow
new_payment env s period_end = record {
  id = env.payment_id;
  status = pending;
  subscription_id = s.id;
  period_start = period_end;
  user_id = s.user_id;
  amount_minor = s.price_minor;
  is_demo = s.is_demo;
}

-- The insert with ON CONFLICT DO NOTHING, and what follows it.
unfoldable pub open_charge : RenewalEnv → ℕ → ℕ → ℕ → RenewalDb → Decision × RenewalDb
open_charge env mandate period_end failures db =
    let s = db.subscription in
    let rows = env.before_insert db.payments in
    if any (is_live_charge s.id period_end) rows
    then (nothing_due, record db { payments = rows })
    else (
      charge (record {
        payment_id = env.payment_id;
        mandate_ref = mandate;
        amount_minor = s.price_minor;
      }),
      record db {
        payments = new_payment env s period_end ∷ rows;
        audit = renewal_charged env.payment_id (suc failures) ∷ db.audit;
      },
    )

unfoldable pub end_as : SubscriptionStatus → ℕ → RenewalAudit → RenewalDb → RenewalDb
end_as status ends_at why db = record db {
  subscription = record db.subscription { status = status; ends_at = some ends_at };
  audit = why ∷ db.audit;
}

abbrev pub lapse : ExpiryReason → ℕ → ℕ → ℕ → RenewalDb → Decision × RenewalDb
lapse why period_end failures now db =
    (has_expired, end_as expired now (subscription_expired period_end failures why) db)

-- An active subscription that has a saved card.
unfoldable pub renew_with : RenewalEnv → ℕ → ℕ → ℕ → ℕ → RenewalDb → Decision × RenewalDb
renew_with env mandate period_end failures now db =
    if leb renewal_attempts failures || leb (period_end + renewal_grace_days * day_ms) now
    then lapse (if leb renewal_attempts failures then attempts_exhausted else grace_period_ended)
        period_end failures now db
    else if has_attempt pending db.subscription.id period_end db.payments || not env.has_charger
    then (nothing_due, db)
    else if ltb now (period_end + failures * renewal_retry_days * day_ms)
    then (nothing_due, db)
    else open_charge env mandate period_end failures db

-- An active subscription that is not to be cancelled.
unfoldable pub renew : RenewalEnv → ℕ → ℕ → RenewalDb → Decision × RenewalDb
renew env period_end now db =
    let s = db.subscription in
    let failures = failed_in s.id period_end db.payments in
    if has_attempt captured s.id period_end db.payments
    then (nothing_due, db)
    else elim s.provider_mandate_ref [
      | none ↦ lapse no_saved_instrument period_end failures now db
      | some mandate ↦ renew_with env mandate period_end failures now db
    ]

abbrev pub is_paused : SubscriptionStatus → Bool
is_paused paused = true
is_paused _ = false

-- What follows the expiry of the minutes.
unfoldable pub end_or_renew : RenewalEnv → ℕ → ℕ → RenewalDb → Decision × RenewalDb
end_or_renew env period_end now db =
    if db.subscription.cancel_at_period_end
    then (was_cancelled, end_as cancelled period_end (subscription_cancelled period_end) db)
    else if is_paused db.subscription.status
    then (nothing_due, db)
    else renew env period_end now db

abbrev pub is_running : SubscriptionStatus → Bool
is_running active = true
is_running paused = true
is_running _ = false

-- The expiry's tables; it throws or leaves them as they are where there is nothing to expire.
unfoldable pub after_expiry : RenewalEnv → ℕ → RenewalDb → Attempt RenewalDb
after_expiry env period_end db =
    let s = db.subscription in
    elim (expire_subscription_minutes env.ledger
      (record { id = s.id; user_id = s.user_id; is_demo = s.is_demo }) period_end db.credits) [
        | none ↦ returned db
        | some attempt ↦ elim attempt [
          | thrown fault ↦ thrown fault
          | returned r ↦ returned (record db { credits = r.1 })
        ]
      ]

abbrev pub decide_at : RenewalEnv → ℕ → ℕ → RenewalDb → Attempt (Decision × RenewalDb)
decide_at env period_end now db =
    if leb period_end now
    then elim (after_expiry env period_end db) [
      | thrown fault ↦ thrown fault
      | returned settled ↦ returned (end_or_renew env period_end now settled)
    ]
    else returned (nothing_due, db)

-- `decide`
unfoldable pub decide : RenewalEnv → ℕ → RenewalDb → Attempt (Decision × RenewalDb)
decide env now db =
    if is_running db.subscription.status
    then elim db.subscription.current_period_end [
      | none ↦ returned (nothing_due, db)
      | some period_end ↦ decide_at env period_end now db
    ]
    else returned (nothing_due, db)
