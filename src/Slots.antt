-- ===== src/Slots.antt =====
-- Offered sessions: apps/api/src/lib/slots/generate.ts, and the same interval rule as the waitlist
-- keeps it (packages/db/waitlist.ts). Instants are milliseconds after the epoch.
pub mod Clash
pub mod Grid
mod Tests
use online_observatory.Common.{
  ℕ, zero, suc, ◌+◌, ◌-◌, ◌*◌, ◌/◌, ◌%◌, Bool, true, false, not, ◌&&◌, Option, none, some, List, [],
  ◌∷◌, ltb, leb, ◌==◌, if◌then◌else◌, any,
}

abbrev pub slot_duration_minutes : ℕ
slot_duration_minutes = 30

abbrev pub session_min_minutes : ℕ
session_min_minutes = 15

abbrev pub session_max_minutes : ℕ
session_max_minutes = 240

abbrev pub session_step_minutes : ℕ
session_step_minutes = 15

abbrev pub slot_turnaround_minutes : ℕ
slot_turnaround_minutes = 10

abbrev pub slot_stride_minutes : ℕ
slot_stride_minutes = 15

abbrev pub slot_alignment_minutes : ℕ
slot_alignment_minutes = 15

abbrev pub provisional_slot_price_minor : ℕ
provisional_slot_price_minor = 4500

-- `isSessionLength`; a ℕ is an integer.
unfoldable pub is_session_length : ℕ → Bool
is_session_length minutes =
    leb session_min_minutes minutes
    && leb minutes session_max_minutes
    && minutes % session_step_minutes == 0

-- `sessionPriceMinor`
unfoldable pub session_price_minor : ℕ → ℕ
session_price_minor minutes = provisional_slot_price_minor * minutes / slot_duration_minutes

-- `alignForward`: `Math.ceil(at / step) * step`.
unfoldable pub align_forward : ℕ → ℕ → ℕ
align_forward at minutes = let step = minutes * 60000 in (at + (step - 1)) / step * step

pub record NightWindow : Type 0 where
  pub dusk_at : ℕ
  pub dawn_at : ℕ

pub record HeldBooking : Type 0 where
  pub slot_start_at : ℕ
  pub duration_minutes : ℕ

-- `clashesWithHeld`
unfoldable pub clashes_with_held : ℕ → ℕ → List HeldBooking → Bool
clashes_with_held start duration held =
    let turnaround = slot_turnaround_minutes * 60000 in
    let end = start + duration * 60000 + turnaround in
    any
      (λ b.
        ltb start (b.slot_start_at + b.duration_minutes * 60000 + turnaround)
        && ltb b.slot_start_at end)
      held

pub data SlotUnavailableReason : Type 0 where
  in_the_past already_booked held_for_waitlist weather_hold observatory_offline :
      SlotUnavailableReason

-- `SlotForecast` is a type of the contract that nothing here looks into.
pub record SlotAvailabilityInput (Forecast : Type 0) : Type 0 where
  pub observatory_id : ℕ
  pub window : NightWindow
  pub now : ℕ
  pub online : Bool
  pub weather_hold_active : Bool
  pub held : List HeldBooking
  pub offers : Option (List HeldBooking)
  pub forecast_for : Option (ℕ → ℕ → Forecast)
  pub duration_minutes : Option ℕ

abbrev pub offers_of : {F : Type 0} → SlotAvailabilityInput F → List HeldBooking
offers_of i = elim i.offers [ none ↦ [] | some l ↦ l ]

-- `unavailableReason`
unfoldable pub unavailable_reason :
    {F : Type 0} → ℕ → ℕ → SlotAvailabilityInput F → Option SlotUnavailableReason
unavailable_reason start duration i =
    if leb start i.now
    then some in_the_past
    else if clashes_with_held start duration i.held
    then some already_booked
    else if clashes_with_held start duration (offers_of i)
    then some held_for_waitlist
    else if i.weather_hold_active
    then some weather_hold
    else if not i.online
    then some observatory_offline
    else none

pub record Slot (Forecast : Type 0) : Type 0 where
  pub observatory_id : ℕ
  pub start_at : ℕ
  pub end_at : ℕ
  pub duration_minutes : ℕ
  pub available : Bool
  pub price_minor : ℕ
  pub unavailable_reason : Option SlotUnavailableReason
  pub forecast : Forecast

abbrev pub is_none {ℓ} : {A : Type ℓ} → Option A → Bool
is_none none = true
is_none (some a) = false

abbrev pub duration_of : {F : Type 0} → SlotAvailabilityInput F → ℕ
duration_of i = elim i.duration_minutes [ none ↦ slot_duration_minutes | some d ↦ d ]

-- The body of the loop.
abbrev pub slot_at : {F : Type 0} → F → SlotAvailabilityInput F → ℕ → Slot F
slot_at unknown i start =
    let duration = duration_of i in
    let reason = unavailable_reason start duration i in
    record {
      observatory_id = i.observatory_id;
      start_at = start;
      end_at = start + duration * 60000;
      duration_minutes = duration;
      available = is_none reason;
      price_minor = session_price_minor duration;
      unavailable_reason = reason;
      forecast = elim i.forecast_for [
        | none ↦ unknown
        | some f ↦ f start (start + duration * 60000)
      ];
    }

-- The loop `for (start; start + duration <= dawn; start += stride)`, with fuel.
unfoldable pub slots_from : {F : Type 0} → F → SlotAvailabilityInput F → ℕ → ℕ → List (Slot F)
slots_from unknown i zero start = []
slots_from unknown i (suc fuel) start =
    let rest = slots_from unknown i fuel (start + slot_stride_minutes * 60000) in
    if leb (start + duration_of i * 60000) i.window.dawn_at
    then slot_at unknown i start ∷ rest
    else []

-- `generateSlots`. The start grows by the stride, so dawn bounds the rounds.
unfoldable pub generate_slots : {F : Type 0} → F → SlotAvailabilityInput F → List (Slot F)
generate_slots unknown i =
    slots_from unknown i (suc i.window.dawn_at)
      (align_forward i.window.dusk_at slot_alignment_minutes)

-- The waitlist's own copy of the rule.
abbrev pub turnaround_minutes : ℕ
turnaround_minutes = 10

pub record Span : Type 0 where
  pub start : ℕ
  pub end : ℕ

-- `span` and `overlaps`
unfoldable pub span : ℕ → ℕ → Span
span start duration = record {
  start = start;
  end = start + (duration + turnaround_minutes) * 60000;
}

unfoldable pub overlaps : Span → Span → Bool
overlaps a b = ltb a.start b.end && ltb b.start a.end
