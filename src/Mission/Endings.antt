-- ===== src/Mission/Endings.antt =====
-- What a mission's events can and cannot do to it, in any order that they arrive.
use online_observatory.Common.{
  ◌≡◌, ◌≢◌, ◌∙◌, refl, Bool, true, false, arith, ◌⊎◌, inl, inr, some, List, [], ◌∷◌, any, ◌==◌,
  Bool-cases, ==_self,
}
use online_observatory.Mission.{
  MissionState, preparing, observing, capturing, processing, complete, is_legal_mission_transition,
  MissionRow, MissionEventRecord, MissionDb, apply_mission_event, apply_all, applied,
  is_terminal_state, moved, same_state, includes, hold_mission_states, state_code,
}

-- Nothing but itself is reached from a terminal state.
terminal_stays :
    (s t : MissionState)
    → is_terminal_state s ≡ true
    → is_legal_mission_transition s t ≡ true
    → t ≡ s
unfolding is_legal_mission_transition
terminal_stays s t h l = ground arith

-- From a hold a mission starts again from the top, or stays held.
hold_lifts :
    (s t : MissionState)
    → includes hold_mission_states s ≡ true
    → is_legal_mission_transition s t ≡ true
    → (t ≡ s) ⊎ (t ≡ preparing)
unfolding is_legal_mission_transition
hold_lifts s t h l = ground arith

-- The telescope has been on the object.
abbrev pub has_observed : MissionState → Bool
has_observed observing = true
has_observed capturing = true
has_observed processing = true
has_observed complete = true
has_observed _ = false

first_observed :
    (s t : MissionState)
    → has_observed s ≡ false
    → t ≢ observing
    → is_legal_mission_transition s t ≡ true
    → has_observed t ≡ false
unfolding is_legal_mission_transition
first_observed s t h n l = ground arith

-- What one event makes of the row: its state is kept, or is the event's by a legal transition.
step_row :
    (e : MissionEventRecord) (db : MissionDb) (m : MissionRow)
    → db.mission ≡ some m
    → (m' : MissionRow) × ((apply_mission_event e db).1.mission ≡ some m')
      × ((m'.state ≡ m.state)
          ⊎ ((m'.state ≡ e.state) × (is_legal_mission_transition m.state e.state ≡ true)))
unfolding apply_mission_event
step_row e db m here = elim (Bool-cases (m.observatory_id == e.observatory_id)) [
  | inr other ↦ (m, ground arith, inl refl)
  | inl ours ↦ elim (Bool-cases (is_legal_mission_transition m.state e.state)) [
    | inr illegal ↦ (m, ground arith, inl refl)
    | inl legal ↦ (moved e m, ground arith, inr (refl, legal))
  ]
]

-- A finished mission stays in the state it finished in, whatever events arrive in whatever order.
pub apply_all-terminal :
    (es : List MissionEventRecord) (db : MissionDb) (m : MissionRow)
    → db.mission ≡ some m
    → is_terminal_state m.state ≡ true
    → (m' : MissionRow) × ((apply_all es db).mission ≡ some m') × (m'.state ≡ m.state)
unfolding apply_all
apply_all-terminal [] db m here t = (m, here, refl)
apply_all-terminal (e ∷ es) db m here t =
    let (m', here', same) = step_row e db m here in
    let state_kept : m'.state ≡ m.state = elim same [
      | inl kept ↦ kept
      | inr (state_is, legal) ↦ state_is ∙ terminal_stays m.state e.state t legal
    ] in
    let (m'', last, kept) =
      apply_all-terminal es (apply_mission_event e db).1 m' here' (rw state_kept t) in
    (m'', last, kept ∙ state_kept)

-- A held mission stays held, with that hold, until an event starts it again from PREPARING.
pub apply_all-held :
    (es : List MissionEventRecord) (db : MissionDb) (m : MissionRow)
    → db.mission ≡ some m
    → includes hold_mission_states m.state ≡ true
    → any (λ e. same_state e.state preparing) es ≡ false
    → (m' : MissionRow) × ((apply_all es db).mission ≡ some m') × (m'.state ≡ m.state)
unfolding apply_all
apply_all-held [] db m here t quiet = (m, here, refl)
apply_all-held (e ∷ es) db m here t quiet =
    let (m', here', same) = step_row e db m here in
    let state_kept : m'.state ≡ m.state = elim same [
      | inl kept ↦ kept
      | inr (state_is, legal) ↦ elim (hold_lifts m.state e.state t legal) [
        | inl kept ↦ state_is ∙ kept
        | inr lifted ↦ absurd (ground arith)
      ]
    ] in
    let (m'', last, kept) =
      apply_all-held es (apply_mission_event e db).1 m' here' (rw state_kept t) (ground arith) in
    (m'', last, kept ∙ state_kept)

-- A mission that has not observed yet does not complete, nor capture, without an event that
-- reports OBSERVING.
pub apply_all-needs_observing :
    (es : List MissionEventRecord) (db : MissionDb) (m m' : MissionRow)
    → db.mission ≡ some m
    → has_observed m.state ≡ false
    → (apply_all es db).mission ≡ some m'
    → has_observed m'.state ≡ true
    → any (λ e. same_state e.state observing) es ≡ true
unfolding apply_all
apply_all-needs_observing [] db m m' here before last after = absurd (ground arith)
apply_all-needs_observing (e ∷ es) db m m' here before last after =
    elim (Bool-cases (same_state e.state observing)) [
      | inl now ↦ rw now
      | inr later ↦
          let (mid, here', same) = step_row e db m here in
          let still : has_observed mid.state ≡ false = elim same [
            | inl kept ↦ rw kept before
            | inr (state_is, legal) ↦
                rw state_is (first_observed m.state e.state before (ground arith) legal)
          ] in
          rw later (
            apply_all-needs_observing es (apply_mission_event e db).1 mid m' here' still last after)
    ]

-- A terminal event that is reported again is applied again: its failure reason and its instant
-- replace those that the mission ended with.
pub terminal_reported_again :
    (e : MissionEventRecord) (db : MissionDb) (m : MissionRow)
    → db.mission ≡ some m
    → m.observatory_id ≡ e.observatory_id
    → is_terminal_state m.state ≡ true
    → e.state ≡ m.state
    → ((apply_mission_event e db).0 ≡ applied)
      × ((apply_mission_event e db).1.mission
          ≡ some
              (record m { failure_reason = e.failure_reason; completed_at = some e.occurred_at }))
unfolding apply_mission_event is_legal_mission_transition
terminal_reported_again e db m here ours t same = ground (arith, ==_self (state_code m.state))
