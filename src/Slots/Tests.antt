-- ===== src/Slots/Tests.antt =====
-- A short night with one booking.
use online_observatory.Common.{
  ℕ, ◌*◌, ◌+◌, ◌≤◌, ◌<◌, ◌%◌, ◌≡◌, ◌↔◌, refl, true, false, some, none, [], ◌∷◌, any, All, ◌==◌,
  ◌&&◌, arith, inr,
}
use online_observatory.Slots.{
  HeldBooking, SlotAvailabilityInput, generate_slots, clashes_with_held, span, overlaps,
  duration_of, offers_of,
}
use online_observatory.Slots.Clash.{IsApart, clashes_with_held-IsApart, clashes_with_held-overlaps}
use online_observatory.Slots.Grid.{generate_slots-available}

-- Two hours from a minute past the epoch, with a booking at 45 minutes.
abbrev booking : HeldBooking
booking = record { slot_start_at = 2700000; duration_minutes = 15 }

abbrev night : SlotAvailabilityInput ℕ
night = record {
  observatory_id = 5;
  window = record { dusk_at = 60000; dawn_at = 7200000 };
  now = 30000;
  online = true;
  weather_hold_active = false;
  held = booking ∷ [];
  offers = none;
  forecast_for = none;
  duration_minutes = some 15;
}

clashes_with_held-IsApart_example :
    (clashes_with_held 900000 15 (booking ∷ []) ≡ false) ↔ All (IsApart 900000 15) (booking ∷ [])
clashes_with_held-IsApart_example = clashes_with_held-IsApart 900000 15 (booking ∷ [])

clashes_with_held-overlaps_example :
    clashes_with_held 1800000 15 (booking ∷ [])
    ≡ any (λ b. overlaps (span 1800000 15) (span b.slot_start_at b.duration_minutes)) (booking ∷ [])
clashes_with_held-overlaps_example = clashes_with_held-overlaps 1800000 15 (booking ∷ [])

generate_slots-available_example :
    (any (λ s. (s.start_at == 900000) && s.available) (generate_slots 0 night) ≡ true) ↔ (
      (night.window.dusk_at ≤ 900000
        × (900000 % 900000 ≡ 0)
        × (900000 + duration_of night * 60000 ≤ night.window.dawn_at))
      × (night.now < 900000)
      × All (IsApart 900000 (duration_of night)) night.held
      × All (IsApart 900000 (duration_of night)) (offers_of night)
      × (night.weather_hold_active ≡ false)
      × (night.online ≡ true))
generate_slots-available_example = generate_slots-available 0 night 900000

first_start_is_available :
    any (λ s. (s.start_at == 900000) && s.available) (generate_slots 0 night) ≡ true
first_start_is_available = generate_slots-available_example.1 (
  (ground arith, ground arith, ground arith),
  ground arith,
  (inr (ground arith), tt),
  tt,
  refl,
  refl,
)

turnaround_is_kept : clashes_with_held 1800000 15 (booking ∷ []) ≡ true
unfolding clashes_with_held
turnaround_is_kept = refl
