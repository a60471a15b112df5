-- ===== src/Refunds/Refunding.antt =====
-- `refundEntitledBooking`: the four ways that a booking is refunded, and the choice between them.
use online_observatory.Common.{
  ℕ, Bool, true, false, Option, none, some, [], ◌∷◌, ltb, if◌then◌else◌, Table, lookup,
}
use online_observatory.Credits.{CreditBooking, release_spent_minutes}
use online_observatory.Loyalty.Earning.{Payment, LoyaltyBooking, reverse_loyalty_for_refund}
use online_observatory.Refunds.{
  BookingRow, RefundPayment, PaymentProvider, sandbox, bog_ipay, PaymentStatus, payment_captured,
  payment_refunded, VoucherRow, audit_payment_refunded, audit_voucher_restored,
  audit_minutes_returned, email_booking_refunded, email_minutes_returned, email_voucher_restored,
  RefundDb, then_try, update, is_id, floor_at, add_audit, queue_email, release_card_prize,
  booking_was_refunded,
}
use online_observatory.Refunds.Paying.{
  RefundEnv, RefundInput, RefundResult, refund_made, refund_refused, no_open_entitlement,
  nothing_to_refund, provider_refund_unavailable, Funding, by_payment, by_voucher, by_free_slot,
  by_minutes, max_reschedule_chain, walk, is_entitled, with_claim, mark_refunded, of_credits,
  of_loyalty,
}

abbrev pub longer : Option ℕ → ℕ → ℕ
longer none floor = floor
longer (some expires) floor = if ltb floor expires then expires else floor

abbrev pub reactivate : ℕ → VoucherRow → VoucherRow
reactivate now v = record {
  is_active = true;
  expires_at = some (longer v.expires_at (floor_at now));
  redeemed_booking_id = none;
}

abbrev pub finish_voucher : RefundInput → ℕ → ℕ → ℕ → RefundDb → Option (RefundResult × RefundDb)
finish_voucher i user voucher expires db = then_try (mark_refunded i.booking_id db) (λ marked.
    some (
      refund_made (record {
        payment_id = none;
        voucher_id = some voucher;
        prize_id = none;
        minutes_returned = 0;
      }),
      queue_email user (email_voucher_restored voucher i.booking_id) (
          add_audit i.actor_user_id
            (audit_voucher_restored voucher i.booking_id expires i.automatic) marked),
    ))

-- `restoreVoucher`; the voucher was read on the walk.
unfoldable pub restore_voucher :
    RefundEnv → RefundInput → ℕ → ℕ → VoucherRow → RefundDb → Option (RefundResult × RefundDb)
restore_voucher env i user voucher row db = with_claim env i db (λ claimed.
    then_try (update voucher (λ _. reactivate i.now row) claimed.vouchers) (λ vouchers.
      finish_voucher i user voucher (longer row.expires_at (floor_at i.now))
        (record claimed { vouchers = vouchers })))

-- `restoreFreeSlotPrize`
unfoldable pub restore_free_slot_prize :
    RefundEnv → RefundInput → ℕ → RefundDb → Option (RefundResult × RefundDb)
restore_free_slot_prize env i paid_booking db = with_claim env i db (λ claimed.
    let released =
      release_card_prize paid_booking booking_was_refunded i.actor_user_id i.now claimed in
    then_try (mark_refunded i.booking_id released.1) (λ marked. some (
      refund_made (record {
        payment_id = none;
        voucher_id = none;
        prize_id = released.0;
        minutes_returned = 0;
      }),
      marked,
    )))

abbrev pub minutes_booking : ℕ → BookingRow → CreditBooking
minutes_booking b row = record {
  id = b;
  user_id = row.user_id;
  minutes = row.subscription_minutes_spent;
  is_demo = false;
}

-- `returnMinutes`; the paid booking was read on the walk.
unfoldable pub return_minutes :
    RefundEnv → RefundInput → ℕ → BookingRow → RefundDb → Option (RefundResult × RefundDb)
return_minutes env i paid row db = with_claim env i db (λ claimed.
    then_try
      (of_credits
        (release_spent_minutes env.credits (minutes_booking paid row) i.now claimed.credits)
        claimed)
      (λ released. then_try (mark_refunded i.booking_id released) (λ marked. some (
        refund_made (record {
          payment_id = none;
          voucher_id = none;
          prize_id = none;
          minutes_returned = row.subscription_minutes_spent;
        }),
        queue_email row.user_id (email_minutes_returned i.booking_id) (
            add_audit i.actor_user_id
              (audit_minutes_returned i.booking_id paid row.subscription_minutes_spent i.automatic)
              marked),
      ))))

-- `booking.findFirst({ paymentId })`
abbrev pub paid_with : ℕ → Table BookingRow → Option (ℕ × BookingRow)
paid_with payment [] = none
paid_with payment ((b, row) ∷ t) =
    let rest = paid_with payment t in if is_id row.payment_id payment then some (b, row) else rest

abbrev pub loyalty_booking : ℕ × BookingRow → LoyaltyBooking
loyalty_booking (b, row) = record {
  id = b;
  user_id = row.user_id;
  loyalty_points_redeemed = row.loyalty_points_redeemed;
}

abbrev pub loyalty_payment : ℕ → RefundPayment → Payment
loyalty_payment id p = record { id = id; user_id = p.user_id; amount_minor = p.amount_minor }

abbrev pub map_booking : Option (ℕ × BookingRow) → Option LoyaltyBooking
map_booking none = none
map_booking (some b) = some (loyalty_booking b)

abbrev pub release_prize_of : RefundInput → Option (ℕ × BookingRow) → RefundDb → Option ℕ × RefundDb
release_prize_of i none db = (none, db)
release_prize_of i (some b) db =
    release_card_prize b.0 booking_was_refunded i.actor_user_id i.now db

-- What follows the rows of a money refund: the loyalty ledger, the prize, the audit row, the email.
unfoldable pub after_payment :
    RefundEnv → RefundInput → ℕ → ℕ → RefundPayment → RefundDb → Option (RefundResult × RefundDb)
after_payment env i user id p db =
    let paid = paid_with id db.bookings in
    then_try
      (of_loyalty
        (reverse_loyalty_for_refund env.loyalty (loyalty_payment id p) (map_booking paid)
          db.loyalty)
        db)
      (λ reversed.
        let released = release_prize_of i paid reversed in
        some (
          refund_made (record {
            payment_id = some id;
            voucher_id = none;
            prize_id = released.0;
            minutes_returned = 0;
          }),
          queue_email user (email_booking_refunded i.booking_id) (
              add_audit i.actor_user_id
                (audit_payment_refunded id i.booking_id p.amount_minor i.automatic) released.1),
        ))

abbrev pub pay_back : ℕ → RefundPayment → RefundPayment
pay_back now p = record p { status = payment_refunded; refunded_at = some now }

-- The money refund.
unfoldable pub refund_payment :
    RefundEnv → RefundInput → ℕ → ℕ → RefundPayment → RefundDb → Option (RefundResult × RefundDb)
refund_payment env i user id p db = with_claim env i db (λ claimed.
    then_try (update id (pay_back i.now) claimed.payments) (λ payments.
      then_try (mark_refunded i.booking_id (record claimed { payments = payments }))
        (after_payment env i user id p)))

abbrev pub is_captured : PaymentStatus → Bool
is_captured payment_captured = true
is_captured _ = false

abbrev pub is_sandbox : PaymentProvider → Bool
is_sandbox sandbox = true
is_sandbox bog_ipay = false

-- The payment that was found, if it is one that can be refunded.
unfoldable pub refund_money :
    RefundEnv → RefundInput → ℕ → ℕ → RefundDb → Option (RefundResult × RefundDb)
refund_money env i user id db = elim (lookup id db.payments) [
  | none ↦ some (refund_refused nothing_to_refund, db)
  | some p ↦
      if is_captured p.status
      then (if is_sandbox p.provider
          then refund_payment env i user id p db
          else some (refund_refused provider_refund_unavailable, db))
      else some (refund_refused nothing_to_refund, db)
]

-- The refund of what paid, by what it is.
unfoldable pub refund_by :
    RefundEnv → RefundInput → ℕ → Option Funding → RefundDb → Option (RefundResult × RefundDb)
refund_by env i user none db = some (refund_refused nothing_to_refund, db)
refund_by env i user (some (by_payment id)) db = refund_money env i user id db
refund_by env i user (some (by_voucher id)) db =
    then_try (lookup id db.vouchers) (λ row. restore_voucher env i user id row db)
refund_by env i user (some (by_free_slot paid)) db = restore_free_slot_prize env i paid db
refund_by env i user (some (by_minutes paid)) db =
    then_try (lookup paid db.bookings) (λ row. return_minutes env i paid row db)

-- `refundEntitledBooking`
unfoldable pub refund_entitled_booking :
    RefundEnv → RefundInput → RefundDb → Option (RefundResult × RefundDb)
refund_entitled_booking env i db = elim (lookup i.booking_id db.entitlements) [
  | none ↦ some (refund_refused no_open_entitlement, db)
  | some e ↦
      if is_entitled i.booking_id db
      then then_try (walk max_reschedule_chain (some i.booking_id) db)
          (λ f. refund_by env i e.user_id f db)
      else some (refund_refused no_open_entitlement, db)
]
