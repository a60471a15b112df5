-- ===== src/Renewals/Tests.antt =====
-- A subscription whose period ended and whose first charge failed.
use online_observatory.Common.{ℕ, ◌≡◌, refl, ◌≤◌, true, false, some, none, [], ◌∷◌, arith}
use online_observatory.Credits.{
  active, expired, undisturbed, returned, expire_subscription_minutes, read_credit_balance,
}
use online_observatory.Renewals.{
  PaymentRow, SubscriptionRow, RenewalDb, RenewalEnv, charge, has_expired, grace_period_ended,
  SavedInstrumentCharge, failed, captured, new_payment, renewal_charged, subscription_expired,
  decide, end_or_renew, renew, renew_with, open_charge, end_as, after_expiry, failed_in,
  has_attempt, is_live_charge,
}
use online_observatory.Renewals.Charging.{ChargeIsDue, Opened, decide-charge, decide-grace}

abbrev subscription : SubscriptionRow
subscription = record {
  id = 3;
  user_id = 5;
  status = active;
  current_period_end = some 1000;
  cancel_at_period_end = false;
  provider_mandate_ref = some 44;
  price_minor = 9900;
  ends_at = none;
  is_demo = false;
}

abbrev declined : PaymentRow
declined = record {
  id = 20;
  status = failed;
  subscription_id = 3;
  period_start = 1000;
  user_id = 5;
  amount_minor = 9900;
  is_demo = false;
}

abbrev tables : RenewalDb
tables = record {
  subscription = subscription;
  payments = declined ∷ [];
  credits = record { accounts = []; ledger = []; subscriptions = []; audit = [] };
  audit = [];
}

abbrev env : RenewalEnv
env = record {
  has_charger = true;
  payment_id = 21;
  ledger = undisturbed;
  before_insert = λ rows. rows;
}

abbrev second_charge : SavedInstrumentCharge
second_charge = record { payment_id = 21; mandate_ref = 44; amount_minor = 9900 }

abbrev charged : RenewalDb
charged = record tables {
  payments = new_payment env subscription 1000 ∷ declined ∷ [];
  audit = renewal_charged 21 2 ∷ [];
}

charged_two_days_later : decide env 172801000 tables ≡ returned (charge second_charge, charged)
unfolding decide end_or_renew renew renew_with open_charge after_expiry failed_in has_attempt
    is_live_charge expire_subscription_minutes read_credit_balance
charged_two_days_later = refl

decide-charge_example :
    (period_end mandate : ℕ) × (subscription.current_period_end ≡ some period_end)
    × (period_end ≤ 172801000)
    × ChargeIsDue env period_end 172801000 mandate subscription tables.payments
    × Opened env period_end mandate subscription tables.payments charged second_charge
decide-charge_example =
    decide-charge env 172801000 tables charged second_charge charged_two_days_later

abbrev lapsed : RenewalDb
lapsed = record tables {
  subscription = record subscription { status = expired; ends_at = some 604801000 };
  audit = subscription_expired 1000 1 grace_period_ended ∷ [];
}

expired_after_grace : decide env 604801000 tables ≡ returned (has_expired, lapsed)
unfolding decide end_or_renew renew renew_with end_as after_expiry failed_in has_attempt
    expire_subscription_minutes read_credit_balance
expired_after_grace = refl

none_captured : has_attempt captured 3 1000 tables.payments ≡ false
unfolding has_attempt
none_captured = refl

decide-grace_example :
    (has_expired ≡ has_expired)
    × (lapsed.subscription.status ≡ expired)
    × (lapsed.subscription.ends_at ≡ some 604801000)
decide-grace_example =
    decide-grace env 604801000 1000 tables lapsed has_expired expired_after_grace refl refl refl
      (ground arith) none_captured
