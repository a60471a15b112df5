-- ===== src/Slots/Grid.antt =====
-- Which starts the list of a night has, and which of them can be booked.
use online_observatory.Common.{
  ℕ, zero, suc, ◌+◌, ◌*◌, ◌/◌, ◌-◌, ◌%◌, ◌≤◌, ◌<◌, ◌≡◌, ◌↔◌, inl, inr, sym, ap, ◌∙◌, Bool, true,
  false, ◌&&◌, arith, List, leb, ◌==◌, Bool-cases, any, All, ==_iff,
}
use online_observatory.Slots.{
  Slot, SlotAvailabilityInput, offers_of, duration_of, slots_from, slot_at, generate_slots,
  align_forward,
}
use online_observatory.Slots.Clash.{IsApart, unavailable_reason-none}

module _ {F : Type 0} (unknown : F) (i : SlotAvailabilityInput F) where
  -- A start is offered that passes a test.
  abbrev pub has_start : ℕ → (Slot F → Bool) → List (Slot F) → Bool
  has_start t p l = any (λ s. (s.start_at == t) && p s) l

  -- A quarter hour from which the session ends by dawn.
  abbrev pub FitsFrom : ℕ → ℕ → Type 0
  FitsFrom start t = (start ≤ t) × (t % 900000 ≡ 0) × (t + duration_of i * 60000 ≤ i.window.dawn_at)

  -- The loop finds every later start of the grid that fits, if it has fuel up to dawn.
  slots_from-has_start :
      (p : Slot F → Bool) (fuel start t : ℕ)
      → start % 900000 ≡ 0
      → i.window.dawn_at < start + fuel * 900000
      → (has_start t p (slots_from unknown i fuel start) ≡ true)
        ↔ (FitsFrom start t × (p (slot_at unknown i t) ≡ true))
  unfolding slots_from
  slots_from-has_start p zero start t grid enough =
      (λ h. absurd (ground arith), λ h. absurd (ground arith))
  slots_from-has_start p (suc fuel) start t grid enough =
      let moved : start ≡ t → p (slot_at unknown i start) ≡ p (slot_at unknown i t) =
        ap (λ (u : ℕ). p (slot_at unknown i u)) in
      let (later, back) =
        slots_from-has_start p fuel (start + 900000) t (omega arith) (omega arith) in
      elim (Bool-cases (leb (start + duration_of i * 60000) i.window.dawn_at)) [
        | inr late ↦ rw late (λ h. absurd (ground arith), λ h. absurd (ground arith))
        | inl fits ↦ rw fits (elim (Bool-cases (start == t)) [
          | inl here ↦
              let same = (==_iff start t).0 here in
              (
                λ h. elim (Bool-cases (p (slot_at unknown i start))) [
                  | inl good ↦ ((ground arith, ground arith, ground arith), sym (moved same) ∙ good)
                  | inr bad ↦ let ((a, b, c), d) = later (ground arith) in ((omega arith, b, c), d)
                ],
                λ (f, g).
                    let good : p (slot_at unknown i start) ≡ true = moved same ∙ g in ground arith,
              )
          | inr apart ↦ (
            λ h. let ((a, b, c), d) = later (ground arith) in ((omega arith, b, c), d),
            λ ((a, b, c), d). let on = back ((ground arith, b, c), d) in ground arith,
          )
        ])
      ]

  pub generate_slots-has_start :
      (p : Slot F → Bool) (t : ℕ)
      → (has_start t p (generate_slots unknown i) ≡ true)
        ↔ (FitsFrom i.window.dusk_at t × (p (slot_at unknown i t) ≡ true))
  unfolding generate_slots align_forward
  generate_slots-has_start p t =
      let first = (i.window.dusk_at + (900000 - 1)) / 900000 * 900000 in
      let (to, back) =
        slots_from-has_start p (suc i.window.dawn_at) first t (omega arith) (omega arith) in
      (
        λ h. let ((a, b, c), d) = to h in ((omega arith, b, c), d),
        λ ((a, b, c), d). back ((omega arith, b, c), d),
      )

-- A start can be booked from the list of a night exactly when it is a quarter hour after now, its
-- session lies between dusk and dawn and keeps the turnaround from every held booking and every
-- open offer, no weather hold is on and the observatory is online.
pub generate_slots-available :
    {F : Type 0} (unknown : F) (i : SlotAvailabilityInput F) (t : ℕ)
    → (any (λ s. (s.start_at == t) && s.available) (generate_slots unknown i) ≡ true) ↔ (
        ((i.window.dusk_at ≤ t) × (t % 900000 ≡ 0) × (t + duration_of i * 60000 ≤ i.window.dawn_at))
        × (i.now < t)
        × All (IsApart t (duration_of i)) i.held
        × All (IsApart t (duration_of i)) (offers_of i)
        × (i.weather_hold_active ≡ false)
        × (i.online ≡ true))
generate_slots-available unknown i t =
    let (to, back) = generate_slots-has_start unknown i (λ s. s.available) t in
    let (free, offered) = unavailable_reason-none t (duration_of i) i in
    (
      λ h.
          let (fits, good) = to h in
          let (later, held, offers, calm, online) = free (ground arith) in
          (fits, later, held, offers, calm, online),
      λ (fits, later, held, offers, calm, online).
          let ok = offered (later, held, offers, calm, online) in back (fits, rw ok),
    )
