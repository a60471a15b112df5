-- ===== src/Entitlements/Timeline.antt =====
-- When the observatory was unavailable, read off its audit rows at one moment: the intervals of
-- `unavailability` hold at a moment of the slot exactly when a weather hold or an outage is in force.
use online_observatory.Common.{
  ℕ, ◌≤◌, ◌<◌, ◌≡◌, refl, sym, ◌∙◌, inl, inr, Bool, true, false, ◌&&◌, ◌||◌, Option, none, some,
  List, [], ◌∷◌, ◌++◌, any-++, arith, ltb, leb, if◌then◌else◌, Bool-cases,
}
use online_observatory.Entitlements.{
  Interval, Cause, weather, observatory_fault, AvailabilityAction, weather_hold_set,
  weather_hold_cleared, agent_link_lost, agent_link_up, AvailabilityRow, unavailable, since_then,
  or_at,
}
use online_observatory.Entitlements.Union.{is_lost, every, holds_at}

abbrev pub hold_after : AvailabilityAction → Bool → Bool
hold_after weather_hold_set on = true
hold_after weather_hold_cleared on = false
hold_after _ on = on

abbrev pub outage_after : AvailabilityAction → Bool → Bool
outage_after agent_link_lost on = true
outage_after agent_link_up on = false
outage_after _ on = on

-- What is in force at a moment: what the rows up to it say, starting from `on`.
abbrev pub in_force : (AvailabilityAction → Bool → Bool) → ℕ → Bool → List AvailabilityRow → Bool
in_force after t on [] = on
in_force after t on (r ∷ rs) =
    in_force after t (if leb r.created_at t then after r.action on else on) rs

-- From `last` on, the rows come in order.
abbrev pub IsInOrder : ℕ → List AvailabilityRow → Type 0
IsInOrder last [] = Unit
IsInOrder last (r ∷ rs) = (last ≤ r.created_at) × IsInOrder r.created_at rs

abbrev pub begun : Option ℕ → ℕ → Bool
begun none t = false
begun (some since) t = leb since t

abbrev IsBy : Option ℕ → ℕ → Type 0
IsBy none last = Unit
IsBy (some since) last = since ≤ last

rows_to_come :
    (after : AvailabilityAction → Bool → Bool) (t last : ℕ) (on : Bool) (rs : List AvailabilityRow)
    → t < last
    → IsInOrder last rs
    → in_force after t on rs ≡ on
rows_to_come after t last on [] l s = refl
rows_to_come after t last on (r ∷ rs) l s =
    let later : leb r.created_at t ≡ false = ground (arith, s.0) in
    rw later (rows_to_come after t r.created_at on rs (omega (arith, s.0)) s.1)

pub since_then-lost :
    (since : Option ℕ) (to t : ℕ) (cause : Cause)
    → is_lost every (since_then since to cause) t ≡ (begun since t && ltb t to)
since_then-lost none to t cause = refl
since_then-lost (some since) to t cause = ground arith

or_at-begun :
    (since : Option ℕ) (c last t : ℕ)
    → IsBy since last
    → last ≤ c
    → begun (or_at since c) t ≡ (if leb c t then true else begun since t)
or_at-begun none c last t by l = ground arith
or_at-begun (some since) c last t by l = ground arith

or_at-IsBy : (since : Option ℕ) (c last : ℕ) → IsBy since last → last ≤ c → IsBy (or_at since c) c
or_at-IsBy none c last by l = omega arith
or_at-IsBy (some since) c last by l = omega (arith, by)

IsBy-later : (since : Option ℕ) (c last : ℕ) → IsBy since last → last ≤ c → IsBy since c
IsBy-later none c last by l = tt
IsBy-later (some since) c last by l = omega (arith, by)

either_way : (b v : Bool) → (if b then v else v) ≡ v
either_way true v = refl
either_way false v = refl

-- An interval that ends at a row, and what is in force from then on.
ended :
    (after : AvailabilityAction → Bool → Bool) (since : Option ℕ) (c t : ℕ)
    (rs : List AvailabilityRow)
    → IsInOrder c rs
    → ((begun since t && ltb t c) || in_force after t false rs)
      ≡ in_force after t (if leb c t then false else begun since t) rs
ended after since c t rs s = elim (Bool-cases (leb c t)) [
  | inl past ↦ let over : ltb t c ≡ false = ground arith in rw (past, over) (ground arith)
  | inr future ↦
      let soon : ltb t c ≡ true = ground arith in
      rw
        (
          future,
          soon,
          rows_to_come after t c false rs (ground arith) s,
          rows_to_come after t c (begun since t) rs (ground arith) s,
        )
        (ground arith)
]

-- A weather hold or an outage is in force at `t`.
abbrev pub is_down : ℕ → (held out : Bool) → List AvailabilityRow → Bool
is_down t held out rs = in_force hold_after t held rs || in_force outage_after t out rs

module _ (stop t : ℕ) where
  abbrev Shows : (hold down : Option ℕ) → List AvailabilityRow → Type 0
  Shows hold down rs =
      is_lost every (unavailable hold down stop rs) t ≡ is_down t (begun hold t) (begun down t) rs

  over_then :
      (since : Option ℕ) (c : ℕ) (cause : Cause) (later : List Interval)
      → is_lost every (since_then since c cause ++ later) t
        ≡ ((begun since t && ltb t c) || is_lost every later t)
  over_then since c cause later =
      any-++ (λ i. holds_at t i && every i) (since_then since c cause) later
      ∙ rw (since_then-lost since c t cause) refl

  step-Shows :
      (a : AvailabilityAction) (hold down : Option ℕ) (last : ℕ) (r : AvailabilityRow)
      (rs : List AvailabilityRow)
      → r.action ≡ a
      → last ≤ r.created_at
      → IsInOrder r.created_at rs
      → IsBy hold last
      → IsBy down last
      → ((h d : Option ℕ) → IsBy h r.created_at → IsBy d r.created_at → Shows h d rs)
      → Shows hold down (r ∷ rs)
  unfolding unavailable
  step-Shows weather_hold_set hold down last r rs e l s by by' ih =
      let c = r.created_at in
      rw
        (
          e,
          ih (or_at hold c) down (or_at-IsBy hold c last by l) (IsBy-later down c last by' l),
          or_at-begun hold c last t by l,
          either_way (leb c t) (begun down t),
        )
        refl
  step-Shows agent_link_lost hold down last r rs e l s by by' ih =
      let c = r.created_at in
      rw
        (
          e,
          ih hold (or_at down c) (IsBy-later hold c last by l) (or_at-IsBy down c last by' l),
          or_at-begun down c last t by' l,
          either_way (leb c t) (begun hold t),
        )
        refl
  step-Shows weather_hold_cleared hold down last r rs e l s by by' ih =
      let c = r.created_at in
      let fin = ended hold_after hold c t rs s in
      rw
        (
          e,
          over_then hold c weather (unavailable none down stop rs),
          ih none down tt (IsBy-later down c last by' l),
          either_way (leb c t) (begun down t),
          sym fin,
        )
        (ground arith)
  step-Shows agent_link_up hold down last r rs e l s by by' ih =
      let c = r.created_at in
      let fin = ended outage_after down c t rs s in
      rw
        (
          e,
          over_then down c observatory_fault (unavailable hold none stop rs),
          ih hold none (IsBy-later hold c last by l) tt,
          either_way (leb c t) (begun hold t),
          sym fin,
        )
        (ground arith)

  shows :
      (hold down : Option ℕ) (last : ℕ) (rs : List AvailabilityRow)
      → t < stop
      → IsInOrder last rs
      → IsBy hold last
      → IsBy down last
      → Shows hold down rs
  unfolding unavailable
  shows hold down last [] before s by by' =
      let soon : ltb t stop ≡ true = ground arith in
      over_then hold stop weather (since_then down stop observatory_fault)
      ∙ rw (since_then-lost down stop t observatory_fault, soon) (ground arith)
  shows hold down last (r ∷ rs) before s by by' =
      step-Shows r.action hold down last r rs refl s.0 s.1 by by'
        (λ h d b b'. shows h d r.created_at rs before s.1 b b')

  pub unavailable-is_down :
      (rs : List AvailabilityRow)
      → t < stop
      → IsInOrder 0 rs
      → is_lost every (unavailable none none stop rs) t ≡ is_down t false false rs
  unavailable-is_down rs before s = shows none none 0 rs before s tt tt
