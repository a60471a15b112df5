-- ===== src/Waitlist.antt =====
-- The waitlist's view of a slot, packages/db/waitlist.ts: who holds the telescope across it and
-- which open offers overlap it. The tables are lists of rows, as for the list of a night.
pub mod Around
mod Tests
use online_observatory.Common.{
  ℕ, ◌+◌, Bool, true, not, ◌&&◌, Option, none, some, List, map, select, ltb, ◌==◌,
}
use online_observatory.Slots.{HeldBooking, Span, span, overlaps}
use online_observatory.Hours.Listing.{
  BookedRow, WaitlistRow, holds_slot, is_offer, booked_span, offered_span,
}

-- `LOOK_MS`
abbrev pub look_ms : ℕ
look_ms = 86400000

pub record WantedSlot : Type 0 where
  pub observatory_id : ℕ
  pub slot_start_at : ℕ
  pub duration_minutes : ℕ

-- A row of the result of `bookingsHolding`.
pub record Holder : Type 0 where
  pub id : ℕ
  pub user_id : ℕ

abbrev pub wanted_span : WantedSlot → Span
wanted_span slot = span slot.slot_start_at slot.duration_minutes

abbrev pub span_of : HeldBooking → Span
span_of b = span b.slot_start_at b.duration_minutes

-- The starts that the queries look at, a day on either side.
abbrev pub is_in_sight : WantedSlot → HeldBooking → Bool
is_in_sight slot b =
    ltb (wanted_span slot).start (b.slot_start_at + look_ms)
    && ltb b.slot_start_at ((wanted_span slot).end + look_ms)

abbrev pub holder_of : BookedRow → Holder
holder_of r = record { id = r.id; user_id = r.user_id }

module _ (slot : WantedSlot) (now : ℕ) where
  abbrev pub holds_telescope : BookedRow → Bool
  holds_telescope r =
      (r.observatory_id == slot.observatory_id) && holds_slot now r.status r.hold_expires_at

  -- `bookingsHolding`: the query, then the filter.
  unfoldable pub bookings_holding : List BookedRow → List Holder
  bookings_holding rows = map holder_of (
      select (λ r. overlaps (wanted_span slot) (span_of (booked_span r)))
        (select (λ r. holds_telescope r && is_in_sight slot (booked_span r)) rows))

  abbrev pub is_other : Option ℕ → ℕ → Bool
  is_other none user = true
  is_other (some except) user = not (user == except)

  abbrev pub is_open_offer : Option ℕ → WaitlistRow → Bool
  is_open_offer except r =
      (r.observatory_id == slot.observatory_id)
      && is_offer now r.status r.offer_expires_at
      && is_other except r.user_id

  -- `offersAround`
  unfoldable pub offers_around : Option ℕ → List WaitlistRow → List HeldBooking
  offers_around except rows = map offered_span (
      select (λ r. overlaps (wanted_span slot) (span_of (offered_span r)))
        (select (λ r. is_open_offer except r && is_in_sight slot (offered_span r)) rows))
