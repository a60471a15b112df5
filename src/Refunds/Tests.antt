-- ===== src/Refunds/Tests.antt =====
-- A booking that was rescheduled once, and lost again.
use online_observatory.Common.{◌≡◌, ◌↔◌, refl, true, false, some, none, [], ◌∷◌, arith}
use online_observatory.Credits as Credits
use online_observatory.Loyalty as Loyalty
use online_observatory.Loyalty.Earning.{reverse_loyalty_for_refund, reverse_earned}
use online_observatory.Refunds.{
  EntitlementRow, open_entitlement, refunded_entitlement, BookingRow, confirmed, refunded_booking,
  RefundPayment, sandbox, payment_captured, payment_refunded, RefundDb, audit_payment_refunded,
  email_booking_refunded, release_card_prize,
}
use online_observatory.Refunds.Paying.{
  RefundEnv, RefundInput, Refunded, refund_made, refund_refused, no_open_entitlement, by_payment,
  own_funding, walk, max_reschedule_chain, with_claim, mark_refunded,
}
use online_observatory.Refunds.Refunding.{
  refund_entitled_booking, refund_by, refund_money, refund_payment, after_payment,
}
use online_observatory.Refunds.Chain.{Funds, own, earlier, walk-Funds}
use online_observatory.Refunds.Frames.{was_refunded}
use online_observatory.Refunds.Once.{refund_entitled_booking-once, is_made}

abbrev paid : BookingRow
paid = record {
  user_id = 5;
  status = confirmed;
  payment_id = some 7;
  subscription_minutes_spent = 0;
  loyalty_points_redeemed = 0;
  rescheduled_from = none;
}

abbrev moved : BookingRow
moved = record paid { payment_id = none; rescheduled_from = some 1 }

abbrev payment : RefundPayment
payment = record {
  user_id = 5;
  provider = sandbox;
  status = payment_captured;
  amount_minor = 4500;
  refunded_at = none;
}

abbrev entitlement : EntitlementRow
entitlement = record { user_id = 5; outcome = open_entitlement; resolved_at = none }

abbrev tables : RefundDb
tables = record {
  entitlements = (2, entitlement) ∷ [];
  bookings = (1, paid) ∷ (2, moved) ∷ [];
  payments = (7, payment) ∷ [];
  vouchers = [];
  prizes = [];
  credits = record { accounts = []; ledger = []; subscriptions = []; audit = [] };
  loyalty = record { accounts = []; ledger = []; scheme = none; tiers = []; audit = [] };
  audit = [];
  emails = [];
}

abbrev env : RefundEnv
env = record {
  before_claim = λ db. db;
  credits = Credits.undisturbed;
  loyalty = record {
    before_claim = λ db. db;
    before_insert = λ db. db;
    new_referral_code = λ u. u;
  };
}

abbrev input : RefundInput
input = record { booking_id = 2; actor_user_id = some 5; automatic = false; now = 1000 }

abbrev made : Refunded
made = record { payment_id = some 7; voucher_id = none; prize_id = none; minutes_returned = 0 }

abbrev after : RefundDb
after = record tables {
  entitlements =
      (2, record entitlement { outcome = refunded_entitlement; resolved_at = some 1000 }) ∷ [];
  bookings = (1, paid) ∷ (2, record moved { status = refunded_booking }) ∷ [];
  payments = (7, record payment { status = payment_refunded; refunded_at = some 1000 }) ∷ [];
  audit = (some 5, audit_payment_refunded 7 2 4500 false) ∷ [];
  emails = (email_booking_refunded 2, 5) ∷ [];
}

root_is_refunded : refund_entitled_booking env input tables ≡ some (refund_made made, after)
unfolding refund_entitled_booking walk own_funding refund_by refund_money refund_payment with_claim
    mark_refunded after_payment release_card_prize reverse_loyalty_for_refund reverse_earned
    Loyalty.Earning.release_redeemed_points Loyalty.find_entry
root_is_refunded = refl

-- The other refund commits between the reads of this one and its claim.
abbrev raced : RefundEnv
raced = record env { before_claim = λ db. after }

refund_entitled_booking-once_example :
    (was_refunded 2 after ≡ true)
    × (refund_entitled_booking raced (record input { now = 2000 }) after
        ≡ some (refund_refused no_open_entitlement, after))
    × (is_made (refund_entitled_booking raced (record input { now = 2000 }) tables) ≡ false)
refund_entitled_booking-once_example =
    refund_entitled_booking-once env raced input (record input { now = 2000 }) tables after tables
      made root_is_refunded refl refl

paid_at_root : Funds tables 2 1 (by_payment 7)
unfolding own_funding
paid_at_root = earlier moved refl refl refl (own paid refl refl)

walk-Funds_example :
    (walk max_reschedule_chain (some 2) tables ≡ some (some (by_payment 7)))
    ↔ (some (by_payment 7) ≡ some (by_payment 7))
walk-Funds_example =
    walk-Funds 2 1 (by_payment 7) tables (ground arith) paid_at_root (some (by_payment 7))
