-- ===== src/Slots/Clash.antt =====
-- The turnaround rule, on the API's side and on the waitlist's.
use online_observatory.Common.{
  ℕ, ◌+◌, ◌*◌, ◌≤◌, ◌<◌, ◌≡◌, ◌↔◌, ◌⊎◌, refl, true, false, none, arith, List, [], ◌∷◌, any, All,
}
use online_observatory.Slots.{
  HeldBooking, clashes_with_held, span, overlaps, unavailable_reason, SlotAvailabilityInput,
  offers_of,
}

-- The two sessions keep ten minutes between them.
abbrev pub IsApart : ℕ → ℕ → HeldBooking → Type 0
IsApart start duration b =
    (b.slot_start_at + b.duration_minutes * 60000 + 600000 ≤ start)
    ⊎ (start + duration * 60000 + 600000 ≤ b.slot_start_at)

-- A session clashes with none of the held ones exactly when it keeps the turnaround from each.
pub clashes_with_held-IsApart :
    (start duration : ℕ) (held : List HeldBooking)
    → (clashes_with_held start duration held ≡ false) ↔ All (IsApart start duration) held
unfolding clashes_with_held
clashes_with_held-IsApart start duration [] = (λ h. tt, λ h. refl)
clashes_with_held-IsApart start duration (b ∷ held) =
    let (apart, clear) = clashes_with_held-IsApart start duration held in
    (λ h. (ground arith, apart (ground arith)), λ h. ground (arith, clear h.1))

-- The API and the waitlist decide a clash alike.
pub clashes_with_held-overlaps :
    (start duration : ℕ) (held : List HeldBooking)
    → clashes_with_held start duration held
      ≡ any (λ b. overlaps (span start duration) (span b.slot_start_at b.duration_minutes)) held
unfolding clashes_with_held span overlaps
clashes_with_held-overlaps start duration [] = refl
clashes_with_held-overlaps start duration (b ∷ held) =
    ground (arith, clashes_with_held-overlaps start duration held)

-- A start is offered as available exactly when it is after now, keeps the turnaround from every
-- held booking and every open offer, no weather hold is on and the observatory is online.
pub unavailable_reason-none :
    {F : Type 0} (start duration : ℕ) (i : SlotAvailabilityInput F)
    → (unavailable_reason start duration i ≡ none) ↔ (
        (i.now < start)
        × All (IsApart start duration) i.held
        × All (IsApart start duration) (offers_of i)
        × (i.weather_hold_active ≡ false)
        × (i.online ≡ true))
unfolding unavailable_reason
unavailable_reason-none start duration i =
    let (apart, clear) = clashes_with_held-IsApart start duration i.held in
    let (apart', clear') = clashes_with_held-IsApart start duration (offers_of i) in
    (
      λ h. (ground arith, apart (ground arith), apart' (ground arith), ground arith, ground arith),
      λ (t, a, a', w, o). let p = clear a in let q = clear' a' in ground arith,
    )
