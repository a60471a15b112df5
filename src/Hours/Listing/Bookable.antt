-- ===== src/Hours/Listing/Bookable.antt =====
-- Which starts of the list can be booked: what the queries leave out could not clash.
use online_observatory.Common.{
  ℕ, ◌+◌, ◌-◌, ◌*◌, ◌≤◌, ◌<◌, ◌≡◌, ◌∙◌, refl, sym, inl, inr, Bool, true, false, not, ◌&&◌, Option,
  some, List, [], ◌∷◌, map, select, any, All, arith, ltb, ◌==◌, Bool-cases, any-ext, any-and,
  any-map, any-select, any-flat_map,
}
use online_observatory.Slots.{
  NightWindow, HeldBooking, SlotAvailabilityInput, duration_of, generate_slots, clashes_with_held,
  unavailable_reason, offers_of, slot_at, session_max_minutes,
}
use online_observatory.Slots.Grid.{generate_slots-has_start}
use online_observatory.Hours.{Calendar, open_intervals}
use online_observatory.Hours.Merge.{is_open, covers}
use online_observatory.Hours.Open.{open_intervals-is_open}
use online_observatory.Hours.Listing.{
  BookableObservatory, BookedRow, WaitlistRow, interval_input, list_slots, held_near, offers_near,
  is_near, is_booked, is_offered_slot, booked_span, offered_span,
}
use online_observatory.Hours.Listing.Found.{is_grid_start}

-- The two sessions overlap, the turnaround of each included.
abbrev pub clashes : ℕ → ℕ → HeldBooking → Bool
clashes start duration b =
    ltb start (b.slot_start_at + b.duration_minutes * 60000 + 600000)
    && ltb b.slot_start_at (start + duration * 60000 + 600000)

clashes_with_held-any :
    (start duration : ℕ) (held : List HeldBooking)
    → clashes_with_held start duration held ≡ any (clashes start duration) held
unfolding clashes_with_held
clashes_with_held-any start duration held = refl

module _ {R : Type 0} (span_of : R → HeldBooking) (q : R → Bool) (night : NightWindow) where
  near_one :
      (t duration : ℕ) (r : R)
      → night.dusk_at ≤ t
      → t + duration * 60000 ≤ night.dawn_at
      → (span_of r).duration_minutes ≤ session_max_minutes
      → ((q r && is_near night (span_of r)) && clashes t duration (span_of r))
        ≡ (q r && clashes t duration (span_of r))
  near_one t duration r low high short = elim (Bool-cases (clashes t duration (span_of r))) [
    | inr clear ↦ rw clear (ground arith)
    | inl meets ↦
        let near : is_near night (span_of r) ≡ true = ground arith in
        rw (meets, near) (ground arith)
  ]

  near_same :
      (t duration : ℕ) (rows : List R)
      → night.dusk_at ≤ t
      → t + duration * 60000 ≤ night.dawn_at
      → All (λ r. (span_of r).duration_minutes ≤ session_max_minutes) rows
      → any (λ r. (q r && is_near night (span_of r)) && clashes t duration (span_of r)) rows
        ≡ any (λ r. q r && clashes t duration (span_of r)) rows
  near_same t duration [] low high short = refl
  near_same t duration (r ∷ rows) low high short =
      rw (near_one t duration r low high short.0, near_same t duration rows low high short.1) refl

  -- The rows that the query leaves out could not clash with a session of the night.
  near_enough :
      (t duration : ℕ) (rows : List R)
      → night.dusk_at ≤ t
      → t + duration * 60000 ≤ night.dawn_at
      → All (λ r. (span_of r).duration_minutes ≤ session_max_minutes) rows
      → any (clashes t duration) (map span_of (select (λ r. q r && is_near night (span_of r)) rows))
        ≡ any (λ r. q r && clashes t duration (span_of r)) rows
  near_enough t duration rows low high short =
      any-map span_of (clashes t duration) (select (λ r. q r && is_near night (span_of r)) rows)
      ∙ any-select (λ r. clashes t duration (span_of r)) (λ r. q r && is_near night (span_of r))
          rows
      ∙ near_same t duration rows low high short

-- Whether a start that fits is available.
abbrev pub is_free : {F : Type 0} → ℕ → SlotAvailabilityInput F → Bool
is_free t i =
    ltb i.now t
    && not (any (clashes t (duration_of i)) i.held)
    && not (any (clashes t (duration_of i)) (offers_of i))
    && not i.weather_hold_active
    && i.online

and_both : (a b : Bool) → (a && b) ≡ true → (a ≡ true) × (b ≡ true)
and_both true b h = (refl, h)
and_both false b h = absurd (cc)

free_start :
    {F : Type 0} (unknown : F) (i : SlotAvailabilityInput F) (t : ℕ)
    → (slot_at unknown i t).available ≡ is_free t i
unfolding unavailable_reason
free_start unknown i t =
    rw
      (
        clashes_with_held-any t (duration_of i) i.held,
        clashes_with_held-any t (duration_of i) (offers_of i),
      )
      (ground arith)

-- The available starts of an interval
bookable_starts :
    {F : Type 0} (unknown : F) (i : SlotAvailabilityInput F) (t : ℕ)
    → any (λ s. (s.start_at == t) && s.available) (generate_slots unknown i)
      ≡ (is_grid_start t (duration_of i) i.window && is_free t i)
bookable_starts unknown i t =
    let (to, back) = generate_slots-has_start unknown i (λ s. s.available) t in
    let free = free_start unknown i t in
    elim (Bool-cases (any (λ s. (s.start_at == t) && s.available) (generate_slots unknown i))) [
      | inl there ↦
          let ((a, b, d), e) = to there in
          let fits : is_grid_start t (duration_of i) i.window ≡ true = ground arith in
          there ∙ sym (rw (fits, sym free ∙ e) refl)
      | inr not_there ↦
          elim (Bool-cases (is_grid_start t (duration_of i) i.window && is_free t i)) [
            | inr no_fit ↦ not_there ∙ sym no_fit
            | inl fits ↦
                let (on, good) =
                  and_both (is_grid_start t (duration_of i) i.window) (is_free t i) fits in
                let there : any (λ s. (s.start_at == t) && s.available) (generate_slots unknown i)
                    ≡ true =
                  back ((ground arith, ground arith, ground arith), free ∙ good) in
                absurd (cc)
          ]
    ]

-- A session that an interval holds is open at each of its milliseconds.
grid_open :
    (t duration u : ℕ) (is : List NightWindow)
    → t ≤ u
    → u < t + duration * 60000
    → any (is_grid_start t duration) is ≡ true
    → is_open u is ≡ true
grid_open t duration u [] low high h = h
grid_open t duration u (i ∷ is) low high h = elim (Bool-cases (is_grid_start t duration i)) [
  | inl fits ↦ let here : covers u i ≡ true = ground arith in rw here refl
  | inr other ↦
      let there = grid_open t duration u is low high (sym (rw other refl) ∙ h) in
      rw there (ground arith)
]

within_night :
    {D : Type 0} (c : Calendar D) (o : BookableObservatory) (night : NightWindow) (t duration : ℕ)
    → 0 < duration
    → any (is_grid_start t duration) (open_intervals c night o.windows) ≡ true
    → (night.dusk_at ≤ t) × (t + duration * 60000 ≤ night.dawn_at)
within_night c o night t duration some_time h =
    let open_at : (u : ℕ) → t ≤ u → u < t + duration * 60000 → covers u night ≡ true = λ u low high.
      (and_both (covers u night) _ (
        sym (open_intervals-is_open c night o.windows u)
        ∙ grid_open t duration u (open_intervals c night o.windows) low high h)).0 in
    let first = open_at t (omega arith) (omega arith) in
    let last = open_at (t + duration * 60000 - 1) (omega arith) (omega arith) in
    (ground arith, ground arith)

abbrev pub AreShort : {R : Type 0} → (R → HeldBooking) → List R → Type 0
AreShort span_of rows = All (λ r. (span_of r).duration_minutes ≤ session_max_minutes) rows

-- If no row is longer than the longest session, a start can be booked from the list of a night
-- exactly when it is a quarter hour from which the session lies in one open interval, after now,
-- no row of the whole table that holds a slot of the observatory clashes with the session, no open
-- offer of the whole waitlist does, no weather hold is on and the observatory is online.
pub list_slots-available :
    {D F : Type 0} (c : Calendar D) (night_window : D → Option NightWindow) (unknown : F)
    (o : BookableObservatory) (now duration t : ℕ) (rows : List BookedRow)
    (entries : List WaitlistRow) (forecast_for : ℕ → ℕ → F) (night : NightWindow)
    → 0 < duration
    → AreShort booked_span rows
    → AreShort offered_span entries
    → any
        (λ s. (s.start_at == t) && s.available)
        (list_slots c night_window unknown o now duration rows entries forecast_for (some night))
      ≡ (any (is_grid_start t duration) (open_intervals c night o.windows)
          && ltb now t
          && not (any (λ r. is_booked o now r && clashes t duration (booked_span r)) rows)
          && not (any (λ r. is_offered_slot o now r && clashes t duration (offered_span r)) entries)
          && not o.weather_hold
          && o.is_online)
unfolding list_slots
list_slots-available {F = F} c night_window unknown o now duration t rows entries forecast_for night
      some_time short short' =
    let is = open_intervals c night o.windows in
    let input : NightWindow → SlotAvailabilityInput F =
      interval_input o now duration (held_near o now night rows)
        (some (offers_near o now night entries)) (some forecast_for) in
    let fits = is_grid_start t duration in
    let all =
      any-flat_map (λ s. (s.start_at == t) && s.available) (λ i. generate_slots unknown (input i))
        is
      ∙ any-ext
          (λ i. any (λ s. (s.start_at == t) && s.available) (generate_slots unknown (input i)))
          (λ i. fits i && is_free t (input night)) is (λ i. bookable_starts unknown (input i) t)
      ∙ any-and fits (is_free t (input night)) is in
    all ∙ elim (Bool-cases (any fits is)) [
      | inr nowhere ↦ rw nowhere refl
      | inl there ↦
          let (low, high) = within_night c o night t duration some_time there in
          rw
            (
              near_enough booked_span (is_booked o now) night t duration rows low high short,
              near_enough offered_span (is_offered_slot o now) night t duration entries low high
                  short',
              there,
            )
            refl
    ]
