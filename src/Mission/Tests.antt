-- ===== src/Mission/Tests.antt =====
-- A mission's events at a concrete observatory.
use online_observatory.Common.{ℕ, ◌≡◌, refl, true, false, some, none, List, [], ◌∷◌, any}
use online_observatory.Mission.{
  MissionState, scheduled, preparing, slewing, verifying, observing, complete, weather_hold, failed,
  tracking_lost, is_legal_mission_transition, MissionRow, MissionEventRecord, MissionDb,
  apply_mission_event, apply_all, applied, same_state,
}
use online_observatory.Mission.Endings.{
  apply_all-terminal, apply_all-held, apply_all-needs_observing, terminal_reported_again,
}

abbrev row : MissionState → MissionRow
row s = record {
  observatory_id = 5;
  state = s;
  failure_reason = none;
  completed_at = none;
  simulated = true;
  is_demo = false;
}

abbrev tables : MissionState → MissionDb
tables s = record { mission = some (row s); events = []; commands = (8, 5) ∷ [] }

abbrev reports : MissionState → ℕ → MissionEventRecord
reports s at = record {
  observatory_id = 5;
  state = s;
  failure_reason = none;
  occurred_at = at;
  command_id = some 8;
  detail = none;
}

abbrev night : List MissionEventRecord
night =
    reports preparing 1
    ∷ reports slewing 2
    ∷ reports verifying 3
    ∷ reports observing 4
    ∷ reports complete 5
    ∷ []

night_completes :
    (apply_all night (tables scheduled)).mission
    ≡ some (record (row complete) { completed_at = some 5 })
unfolding apply_all apply_mission_event is_legal_mission_transition
night_completes = refl

apply_all-terminal_example :
    (m' : MissionRow) × ((apply_all night (tables failed)).mission ≡ some m') × (m'.state ≡ failed)
apply_all-terminal_example = apply_all-terminal night (tables failed) (row failed) refl refl

apply_all-held_example :
    (m' : MissionRow) × ((apply_all
        (reports failed 1 ∷ reports observing 2 ∷ [])
        (tables weather_hold)).mission
      ≡ some m')
    × (m'.state ≡ weather_hold)
apply_all-held_example =
    apply_all-held (reports failed 1 ∷ reports observing 2 ∷ []) (tables weather_hold)
      (row weather_hold) refl refl refl

apply_all-needs_observing_example : any (λ e. same_state e.state observing) night ≡ true
apply_all-needs_observing_example =
    apply_all-needs_observing night (tables scheduled) (row scheduled)
      (record (row complete) { completed_at = some 5 }) refl refl night_completes refl

abbrev late_report : MissionEventRecord
late_report = record (reports failed 9) { failure_reason = some tracking_lost }

terminal_reported_again_example :
    ((apply_mission_event late_report (tables failed)).0 ≡ applied)
    × ((apply_mission_event late_report (tables failed)).1.mission
        ≡ some (record (row failed) { failure_reason = some tracking_lost; completed_at = some 9 }))
terminal_reported_again_example =
    terminal_reported_again late_report (tables failed) (row failed) refl refl refl refl
