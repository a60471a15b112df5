-- ===== src/Refunds.antt =====
-- Refunds of entitled bookings: packages/db/refunds.ts and packages/db/card-prizes.ts. The tables of
-- this file; `Refunds/Paying` has the walk to what paid, and the refund. Rows are found by id, and a
-- voucher or a prize also by the booking that spent it. `none` for a result is a throw, after which
-- the transaction is rolled back.
pub mod Paying
pub mod Refunding
pub mod Chain
pub mod Frames
pub mod Once
mod Tests
use online_observatory.Common.{
  ℕ, ◌+◌, ◌*◌, Bool, true, false, Option, none, some, List, [], ◌∷◌, ltb, ◌==◌, if◌then◌else◌, any,
  Table, lookup, adjust,
}
use online_observatory.Credits.{CreditDb}
use online_observatory.Loyalty.{LoyaltyDb}

pub data EntitlementOutcome : Type 0 where
  no_entitlement open_entitlement refunded_entitlement rescheduled_entitlement : EntitlementOutcome

pub data BookingStatus : Type 0 where
  pending_payment confirmed cancelled_booking expired_booking refunded_booking : BookingStatus

pub data PaymentStatus : Type 0 where
  payment_pending payment_authorized payment_captured payment_failed payment_refunded :
      PaymentStatus

pub data PaymentProvider : Type 0 where
  sandbox bog_ipay : PaymentProvider

pub data CardPrizeKind : Type 0 where
  free_slot observer_seat discount : CardPrizeKind

pub record EntitlementRow : Type 0 where
  pub user_id : ℕ
  pub outcome : EntitlementOutcome
  pub resolved_at : Option ℕ

pub record BookingRow : Type 0 where
  pub user_id : ℕ
  pub status : BookingStatus
  pub payment_id : Option ℕ
  pub subscription_minutes_spent : ℕ
  pub loyalty_points_redeemed : ℕ
  pub rescheduled_from : Option ℕ

pub record RefundPayment : Type 0 where
  pub user_id : ℕ
  pub provider : PaymentProvider
  pub status : PaymentStatus
  pub amount_minor : ℕ
  pub refunded_at : Option ℕ

-- A gift voucher; one that is not redeemed names no booking.
pub record VoucherRow : Type 0 where
  pub is_active : Bool
  pub expires_at : Option ℕ
  pub redeemed_booking_id : Option ℕ

pub record PrizeRow : Type 0 where
  pub kind : CardPrizeKind
  pub is_redeemed : Bool
  pub expires_at : ℕ
  pub redeemed_booking_id : Option ℕ

pub data RefundAudit : Type 0 where
  audit_payment_refunded : (payment booking amount : ℕ) → Bool → RefundAudit
  audit_voucher_restored : (voucher booking expires_at : ℕ) → Bool → RefundAudit
  audit_prize_restored : (prize booking expires_at : ℕ) → RefundAudit
  audit_minutes_returned : (booking paid_booking minutes : ℕ) → Bool → RefundAudit

-- The key that an email is queued once by.
pub data EmailKey : Type 0 where
  email_booking_refunded email_minutes_returned : (booking : ℕ) → EmailKey
  email_voucher_restored : (voucher booking : ℕ) → EmailKey

pub record RefundDb : Type 0 where
  pub entitlements : Table EntitlementRow
  pub bookings : Table BookingRow
  pub payments : Table RefundPayment
  pub vouchers : Table VoucherRow
  pub prizes : Table PrizeRow
  pub credits : CreditDb
  pub loyalty : LoyaltyDb
  pub audit : List (Option ℕ × RefundAudit)
  pub emails : List (EmailKey × ℕ)

abbrev pub then_try {ℓ κ} : {A : Type ℓ} {B : Type κ} → Option A → (A → Option B) → Option B
then_try none f = none
then_try (some a) f = f a

-- `update`, which throws where the row is missing
abbrev pub update {ℓ} : {V : Type ℓ} → ℕ → (V → V) → Table V → Option (Table V)
update k f t = elim (lookup k t) [ none ↦ none | some _ ↦ some (adjust k f t) ]

abbrev pub is_id : Option ℕ → ℕ → Bool
is_id none b = false
is_id (some a) b = a == b

-- The row that a booking spent, with its id.
abbrev pub spent_on {ℓ} : {V : Type ℓ} → (V → Option ℕ) → ℕ → Table V → Option (ℕ × V)
spent_on booking_of b [] = none
spent_on booking_of b ((k, v) ∷ t) =
    let rest = spent_on booking_of b t in if is_id (booking_of v) b then some (k, v) else rest

abbrev pub day_ms : ℕ
day_ms = 86400000

abbrev pub restored_voucher_min_days : ℕ
restored_voucher_min_days = 30

abbrev pub floor_at : ℕ → ℕ
floor_at now = now + restored_voucher_min_days * day_ms

abbrev pub add_audit : Option ℕ → RefundAudit → RefundDb → RefundDb
add_audit actor a db = record db { audit = (actor, a) ∷ db.audit }

abbrev pub same_email : EmailKey → EmailKey → Bool
same_email (email_booking_refunded a) (email_booking_refunded b) = a == b
same_email (email_minutes_returned a) (email_minutes_returned b) = a == b
same_email (email_voucher_restored v a) (email_voucher_restored w b) =
    if v == w then a == b else false
same_email _ _ = false

-- `queueEmail`, by its key
abbrev pub queue_email : ℕ → EmailKey → RefundDb → RefundDb
queue_email user key db =
    if any (λ m. same_email key m.0) db.emails
    then db
    else record db { emails = (key, user) ∷ db.emails }

pub data PrizeCause : Type 0 where
  hold_released booking_was_refunded : PrizeCause

abbrev pub prize_expiry : PrizeCause → ℕ → ℕ → ℕ
prize_expiry booking_was_refunded now expires =
    if ltb expires (floor_at now) then floor_at now else expires
prize_expiry hold_released now expires = expires

abbrev pub give_back : ℕ → PrizeRow → PrizeRow
give_back expires p = record p {
  is_redeemed = false;
  expires_at = expires;
  redeemed_booking_id = none;
}

-- `releaseCardPrize`, with nothing committed between its read and its update
unfoldable pub release_card_prize : ℕ → PrizeCause → Option ℕ → ℕ → RefundDb → Option ℕ × RefundDb
release_card_prize booking cause actor now db =
    elim (spent_on (λ p. p.redeemed_booking_id) booking db.prizes) [
      | none ↦ (none, db)
      | some row ↦
          let expires = prize_expiry cause now row.1.expires_at in
          if row.1.is_redeemed
          then (
            some row.0,
            add_audit actor (audit_prize_restored row.0 booking expires)
                (record db { prizes = adjust row.0 (give_back expires) db.prizes }),
          )
          else (none, db)
    ]
