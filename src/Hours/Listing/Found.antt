-- ===== src/Hours/Listing/Found.antt =====
-- A start is on the grid of an interval; the list and the search of a reservation agree on it.
use online_observatory.Common.{
  ℕ, ◌+◌, ◌*◌, ◌%◌, ◌≡◌, ◌∙◌, refl, sym, inl, inr, Bool, true, false, not, ◌&&◌, ◌||◌, Option, none,
  some, List, [], ◌∷◌, any, arith, leb, ◌==◌, Bool-cases, any-ext, any-flat_map,
}
use online_observatory.Slots.{
  NightWindow, Slot, SlotAvailabilityInput, duration_of, generate_slots, is_none,
}
use online_observatory.Slots.Grid.{generate_slots-has_start}
use online_observatory.Hours.{Calendar, open_intervals}
use online_observatory.Hours.Listing.{
  BookableObservatory, BookedRow, WaitlistRow, interval_input, find_start, or_else, find_in,
  find_on, find_generated_slot, list_slots, list_slots_for_date, held_near, offers_near,
}

-- A quarter hour from which the session lies in the interval.
abbrev pub is_grid_start : ℕ → ℕ → NightWindow → Bool
is_grid_start t duration i =
    (t % 900000 == 0) && leb i.dusk_at t && leb (t + duration * 60000) i.dawn_at

module _ {F : Type 0} (unknown : F) where
  pub grid_starts :
      (i : SlotAvailabilityInput F) (t : ℕ)
      → any (λ s. s.start_at == t) (generate_slots unknown i)
        ≡ is_grid_start t (duration_of i) i.window
  grid_starts i t =
      let (to, back) = generate_slots-has_start unknown i (λ s. true) t in
      let plain =
        any-ext (λ s. (s.start_at == t) && true) (λ s. s.start_at == t) (generate_slots unknown i)
          (λ s. ground arith) in
      sym plain
      ∙ elim (Bool-cases (any (λ s. (s.start_at == t) && true) (generate_slots unknown i))) [
        | inl there ↦ let ((a, b, d), e) = to there in there ∙ ground arith
        | inr not_there ↦ elim (Bool-cases (is_grid_start t (duration_of i) i.window)) [
          | inl fits ↦
              let there = back ((ground arith, ground arith, ground arith), refl) in absurd (cc)
          | inr no_fit ↦ not_there ∙ sym no_fit
        ]
      ]

  find_start-none :
      {D : Type 0} (c : Calendar D) (w : D → Option NightWindow) (t : ℕ) (ss : List (Slot F))
      → not (is_none (find_start c w unknown t ss)) ≡ any (λ s. s.start_at == t) ss
  find_start-none c w t [] = refl
  find_start-none c w t (s ∷ ss) = elim (Bool-cases (s.start_at == t)) [
    | inl here ↦ rw here refl
    | inr other ↦ rw (other, find_start-none c w t ss) refl
  ]

module _ {D F : Type 0} (c : Calendar D) (night_window : D → Option NightWindow) (unknown : F) where
  or_else-found :
      {A : Type 0} (a b : Option A)
      → not (is_none (or_else c night_window unknown a b)) ≡ (not (is_none a) || not (is_none b))
  or_else-found none b = refl
  or_else-found (some a) b = refl

  find_in-found :
      (o : BookableObservatory) (now duration t : ℕ) (is : List NightWindow)
      (rest : Option (Slot F))
      → not (is_none (find_in c night_window unknown o now duration t is rest))
        ≡ (any (is_grid_start t duration) is || not (is_none rest))
  find_in-found o now duration t [] rest = refl
  find_in-found o now duration t (i ∷ is) rest =
      let input : SlotAvailabilityInput F = interval_input o now duration [] none none i in
      let found = find_start c night_window unknown t (generate_slots unknown input) in
      let later = find_in c night_window unknown o now duration t is rest in
      rw
        (
          or_else-found found later,
          find_start-none unknown c night_window t (generate_slots unknown input),
          grid_starts unknown input t,
          find_in-found o now duration t is rest,
        )
        (ground arith)

  abbrev pub night_has : BookableObservatory → ℕ → ℕ → Option NightWindow → Bool
  night_has o duration t none = false
  night_has o duration t (some night) =
      any (is_grid_start t duration) (open_intervals c night o.windows)

  find_on-found :
      (o : BookableObservatory) (now duration t : ℕ) (night : Option NightWindow)
      (rest : Option (Slot F))
      → not (is_none (find_on c night_window unknown o now duration t night rest))
        ≡ (night_has o duration t night || not (is_none rest))
  find_on-found o now duration t none rest = refl
  find_on-found o now duration t (some night) rest =
      find_in-found o now duration t (open_intervals c night o.windows) rest

  list_slots-starts :
      (o : BookableObservatory) (now duration t : ℕ) (rows : List BookedRow)
      (entries : List WaitlistRow) (forecast_for : ℕ → ℕ → F) (night : Option NightWindow)
      → any
          (λ s. s.start_at == t)
          (list_slots c night_window unknown o now duration rows entries forecast_for night)
        ≡ night_has o duration t night
  unfolding list_slots
  list_slots-starts o now duration t rows entries forecast_for none = refl
  list_slots-starts o now duration t rows entries forecast_for (some night) =
      let input =
        interval_input o now duration (held_near o now night rows)
          (some (offers_near o now night entries)) (some forecast_for) in
      any-flat_map (λ s. s.start_at == t) (λ i. generate_slots unknown (input i))
        (open_intervals c night o.windows)
      ∙ any-ext (λ i. any (λ s. s.start_at == t) (generate_slots unknown (input i)))
          (is_grid_start t duration) (open_intervals c night o.windows)
          (λ i. grid_starts unknown (input i) t)

-- A reservation finds a slot at a start exactly when the list of the start's local date has it or
-- the list of the date before does, whatever bookings, offers and forecasts the lists were made
-- from and whenever they were.
pub find_generated_slot-listed :
    {D F : Type 0} (c : Calendar D) (night_window : D → Option NightWindow) (unknown : F)
    (o : BookableObservatory) (now listed duration t : ℕ) (rows : List BookedRow)
    (entries : List WaitlistRow) (forecast_for : ℕ → ℕ → F)
    → not (is_none (find_generated_slot c night_window unknown o now duration t))
      ≡ any
          (λ date.
            any
              (λ s. s.start_at == t)
              (list_slots_for_date c night_window unknown o date listed duration rows entries
                forecast_for))
          (c.previous_date (c.local_date t) ∷ c.local_date t ∷ [])
unfolding find_generated_slot list_slots_for_date
find_generated_slot-listed c night_window unknown o now listed duration t rows entries
      forecast_for =
    let on = c.local_date t in
    let before = c.previous_date on in
    let starts =
      list_slots-starts c night_window unknown o listed duration t rows entries forecast_for in
    let second = find_on c night_window unknown o now duration t (night_window on) none in
    rw
      (
        starts (night_window before),
        starts (night_window on),
        find_on-found c night_window unknown o now duration t (night_window before) second,
        find_on-found c night_window unknown o now duration t (night_window on) none,
      )
      refl
