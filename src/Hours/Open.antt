-- ===== src/Hours/Open.antt =====
-- What the offered hours open of a night.
use online_observatory.Common.{
  any-select, any-ext, ℕ, ◌<◌, ◌≡◌, refl, ◌∙◌, inl, inr, Bool, true, not, ◌&&◌, ◌||◌, List, [], ◌∷◌,
  any, arith, leb, ◌==◌, Bool-cases, All, max, min,
}
use online_observatory.Slots.{NightWindow}
use online_observatory.Hours.{
  LocalWindow, Calendar, is_usable, usable_of, overlap, instants_for, push, intersections_on,
  intersections, dates_of, open_usable, open_intervals,
}
use online_observatory.Hours.Merge.{
  covers, is_open, AreApart, IsProper, merge-is_open, merge-AreApart,
}

push-is_open :
    (t : ℕ) (a b : NightWindow) (is : List NightWindow)
    → is_open t (push (overlap a b) is) ≡ ((covers t a && covers t b) || is_open t is)
unfolding overlap
push-is_open t a b is =
    elim (Bool-cases (leb (min a.dawn_at b.dawn_at) (max a.dusk_at b.dusk_at))) [
      | inl empty ↦ rw empty (ground arith)
      | inr left ↦ rw left (ground arith)
    ]

push-IsProper :
    (a b : NightWindow) (is : List NightWindow)
    → All IsProper is
    → All IsProper (push (overlap a b) is)
unfolding overlap
push-IsProper a b is h =
    elim (Bool-cases (leb (min a.dawn_at b.dawn_at) (max a.dusk_at b.dusk_at))) [
      | inl empty ↦ rw empty h
      | inr left ↦ rw left (ground arith, h)
    ]

module _ {D : Type 0} (c : Calendar D) (night : NightWindow) where
  -- The window is one of the date's weekday, and its hours on that date cover the instant.
  abbrev pub is_offered_on : ℕ → D → LocalWindow → Bool
  is_offered_on t date w = (w.weekday == c.weekday_of date) && covers t (instants_for c w date)

  -- Some window is offered then, on the evening's date or the next.
  abbrev pub is_offered : ℕ → List D → List LocalWindow → Bool
  is_offered t dates ws = any (λ date. any (is_offered_on t date) ws) dates

  intersections_on-is_open :
      (t : ℕ) (date : D) (ws : List LocalWindow) (rest : List NightWindow)
      → is_open t (intersections_on c night date ws rest)
        ≡ ((covers t night && any (is_offered_on t date) ws) || is_open t rest)
  intersections_on-is_open t date [] rest = ground arith
  intersections_on-is_open t date (w ∷ ws) rest =
      let others = intersections_on-is_open t date ws rest in
      let pushed =
        push-is_open t night (instants_for c w date) (intersections_on c night date ws rest) in
      elim (Bool-cases (w.weekday == c.weekday_of date)) [
        | inl same ↦ rw (same, pushed, others) (ground arith)
        | inr other ↦ rw (other, others) (ground arith)
      ]

  intersections-is_open :
      (t : ℕ) (dates : List D) (ws : List LocalWindow)
      → is_open t (intersections c night dates ws) ≡ (covers t night && is_offered t dates ws)
  intersections-is_open t [] ws = ground arith
  intersections-is_open t (date ∷ dates) ws =
      rw
        (
          intersections_on-is_open t date ws (intersections c night dates ws),
          intersections-is_open t dates ws,
        )
        (ground arith)

  intersections_on-IsProper :
      (date : D) (ws : List LocalWindow) (rest : List NightWindow)
      → All IsProper rest
      → All IsProper (intersections_on c night date ws rest)
  intersections_on-IsProper date [] rest h = h
  intersections_on-IsProper date (w ∷ ws) rest h =
      let others = intersections_on-IsProper date ws rest h in
      elim (Bool-cases (w.weekday == c.weekday_of date)) [
        | inl same ↦ rw same (
            push-IsProper night (instants_for c w date) (intersections_on c night date ws rest)
              others)
        | inr other ↦ rw other others
      ]

  intersections-IsProper :
      (dates : List D) (ws : List LocalWindow) → All IsProper (intersections c night dates ws)
  intersections-IsProper [] ws = tt
  intersections-IsProper (date ∷ dates) ws =
      intersections_on-IsProper date ws (intersections c night dates ws)
        (intersections-IsProper dates ws)

  open_usable-is_open :
      (t : ℕ) (ws : List LocalWindow)
      → is_open t (open_usable c night ws)
        ≡ (covers t night && (not (any (λ w. true) ws) || is_offered t (dates_of c night) ws))
  open_usable-is_open t [] = ground arith
  open_usable-is_open t (w ∷ ws) =
      merge-is_open t (intersections c night (dates_of c night) (w ∷ ws))
      ∙ intersections-is_open t (dates_of c night) (w ∷ ws)

  open_usable-AreApart :
      (ws : List LocalWindow) → IsProper night → AreApart (open_usable c night ws)
  open_usable-AreApart [] proper = (proper, tt, tt)
  open_usable-AreApart (w ∷ ws) proper =
      merge-AreApart (intersections c night (dates_of c night) (w ∷ ws))
        (intersections-IsProper (dates_of c night) (w ∷ ws))

-- An instant lies in one of the open intervals exactly when it lies in the night and either no
-- window of the owner is usable, or a usable window of the weekday of the evening's date or of the
-- next date covers it. A window covers the instants that are its minutes, as elapsed time, after the
-- date's local midnight, also on a date on which the zone's offset changes.
pub open_intervals-is_open :
    {D : Type 0} (c : Calendar D) (night : NightWindow) (windows : List LocalWindow) (t : ℕ)
    → is_open t (open_intervals c night windows) ≡ (
        covers t night
        && (not (any is_usable windows)
            || any
                (λ date. any (λ w. is_usable w && is_offered_on c night t date w) windows)
                (dates_of c night)))
unfolding open_intervals
open_intervals-is_open c night windows t =
    let evening = c.local_date night.dusk_at in
    rw
      (
        open_usable-is_open c night t (usable_of windows),
        any-select (λ w. true) is_usable windows,
        any-ext (λ w. is_usable w && true) is_usable windows (λ w. ground arith),
        any-select (is_offered_on c night t evening) is_usable windows,
        any-select (is_offered_on c night t (c.next_date evening)) is_usable windows,
      )
      refl

-- The open intervals of a night that is not empty are in order, none is empty, and there is time
-- between any two, so that a contiguous run is one interval.
pub open_intervals-AreApart :
    {D : Type 0} (c : Calendar D) (night : NightWindow) (windows : List LocalWindow)
    → night.dusk_at < night.dawn_at
    → AreApart (open_intervals c night windows)
unfolding open_intervals
open_intervals-AreApart c night windows proper =
    open_usable-AreApart c night (usable_of windows) proper
