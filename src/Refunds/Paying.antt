-- ===== src/Refunds/Paying.antt =====
-- The walk back to what paid for a booking, and the four refunds.
use online_observatory.Common.{
  ℕ, zero, suc, Bool, true, false, Option, none, some, ◌==◌, if◌then◌else◌, lookup, adjust,
}
use online_observatory.Credits.{CreditBooking, release_spent_minutes}
use online_observatory.Credits as Credits
use online_observatory.Loyalty as Loyalty
use online_observatory.Refunds.{
  EntitlementRow, EntitlementOutcome, open_entitlement, refunded_entitlement, BookingRow,
  refunded_booking, VoucherRow, CardPrizeKind, free_slot, RefundDb, then_try, update, spent_on,
}

pub data RefundRefusal : Type 0 where
  no_open_entitlement nothing_to_refund provider_refund_unavailable : RefundRefusal

pub record Refunded : Type 0 where
  pub payment_id : Option ℕ
  pub voucher_id : Option ℕ
  pub prize_id : Option ℕ
  pub minutes_returned : ℕ

pub data RefundResult : Type 0 where
  refund_made : Refunded → RefundResult
  refund_refused : RefundRefusal → RefundResult

-- What other transactions commit before the claim, and between the statements of the ledgers.
pub record RefundEnv : Type 0 where
  pub before_claim : RefundDb → RefundDb
  pub credits : Credits.Interference
  pub loyalty : Loyalty.Interference

pub record RefundInput : Type 0 where
  pub booking_id : ℕ
  pub actor_user_id : Option ℕ
  pub automatic : Bool
  pub now : ℕ

-- What paid for a booking: a payment or a voucher by its id, a prize or minutes by the booking that
-- spent them.
pub data Funding : Type 0 where
  by_payment by_voucher by_free_slot by_minutes : ℕ → Funding

abbrev pub voucher_of : ℕ → RefundDb → Option (ℕ × VoucherRow)
voucher_of b db = spent_on (λ v. v.redeemed_booking_id) b db.vouchers

abbrev pub is_free_slot : CardPrizeKind → Bool
is_free_slot free_slot = true
is_free_slot _ = false

abbrev pub has_free_slot : ℕ → RefundDb → Bool
has_free_slot b db = elim (spent_on (λ p. p.redeemed_booking_id) b db.prizes) [
  | none ↦ false
  | some row ↦ is_free_slot row.1.kind
]

abbrev pub minutes_funding : ℕ → ℕ → Option Funding
minutes_funding b minutes = if minutes == 0 then none else some (by_minutes b)

-- What the booking itself was paid for with.
unfoldable pub own_funding : ℕ → BookingRow → RefundDb → Option Funding
own_funding b row db = elim row.payment_id [
  | some payment ↦ some (by_payment payment)
  | none ↦ elim (voucher_of b db) [
    | some voucher ↦ some (by_voucher voucher.0)
    | none ↦
        if has_free_slot b db
        then some (by_free_slot b)
        else minutes_funding b row.subscription_minutes_spent
  ]
]

abbrev pub max_reschedule_chain : ℕ
max_reschedule_chain = 12

-- The loop, with the steps that are left; `some none` is that nothing was found.
unfoldable pub walk : ℕ → Option ℕ → RefundDb → Option (Option Funding)
walk zero current db = some none
walk (suc steps) none db = some none
walk (suc steps) (some b) db = elim (lookup b db.bookings) [
  | none ↦ none
  | some row ↦
      let rest = walk steps row.rescheduled_from db in
      elim (own_funding b row db) [ some f ↦ some (some f) | none ↦ rest ]
]

abbrev pub is_open : EntitlementOutcome → Bool
is_open open_entitlement = true
is_open _ = false

abbrev pub is_entitled : ℕ → RefundDb → Bool
is_entitled b db = elim (lookup b db.entitlements) [ none ↦ false | some e ↦ is_open e.outcome ]

abbrev pub resolve : ℕ → EntitlementRow → EntitlementRow
resolve now e = record e { outcome = refunded_entitlement; resolved_at = some now }

-- The conditional update on OPEN and, where it wrote the row, the rest of the refund.
unfoldable pub with_claim :
    RefundEnv
    → RefundInput
    → RefundDb
    → (RefundDb → Option (RefundResult × RefundDb))
    → Option (RefundResult × RefundDb)
with_claim env i db rest =
    let found = env.before_claim db in
    if is_entitled i.booking_id found
    then rest
        (record found { entitlements = adjust i.booking_id (resolve i.now) found.entitlements })
    else some (refund_refused no_open_entitlement, found)

-- `booking.update({ status: "REFUNDED" })`
unfoldable pub mark_refunded : ℕ → RefundDb → Option RefundDb
mark_refunded b db =
    then_try (update b (λ r. record r { status = refunded_booking }) db.bookings)
      (λ rows. some (record db { bookings = rows }))

abbrev pub of_credits : Credits.Attempt Credits.CreditDb → RefundDb → Option RefundDb
of_credits (Credits.returned c) db = some (record db { credits = c })
of_credits (Credits.thrown f) db = none

abbrev pub of_loyalty : Loyalty.Attempt Loyalty.LoyaltyDb → RefundDb → Option RefundDb
of_loyalty (Loyalty.returned l) db = some (record db { loyalty = l })
of_loyalty (Loyalty.thrown f) db = none
