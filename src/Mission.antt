-- ===== src/Mission.antt =====
-- The mission state machine as the cloud applies it: the transition table and the guarded update of
-- apps/realtime/src/link/store.ts and prisma-store.ts (`applyMissionEvent`), and why a session ended
-- (packages/db/booked-session.ts). Ids are numbers, instants milliseconds.
pub mod Endings
mod Tests
use online_observatory.Common.{
  ℕ, Bool, true, false, ◌||◌, Option, none, some, List, [], ◌∷◌, ◌==◌, if◌then◌else◌, ◌++◌, any,
}

pub data MissionState : Type 0 where
  requested scheduled preparing slewing verifying centering observing capturing processing complete
        weather_hold not_visible hardware_error cancelled failed :
      MissionState

pub data MissionFailureReason : Type 0 where
  plate_solve_failed slew_timeout centering_iterations_exhausted tracking_lost mount_fault
        camera_fault focuser_fault agent_link_lost heartbeat_lost safety_refused
        safety_envelope_unmeasured target_set_below_limit weather_unsafe session_expired
        operator_abort customer_cancelled payment_failed :
      MissionFailureReason

abbrev pub state_code : MissionState → ℕ
state_code requested = 0
state_code scheduled = 1
state_code preparing = 2
state_code slewing = 3
state_code verifying = 4
state_code centering = 5
state_code observing = 6
state_code capturing = 7
state_code processing = 8
state_code complete = 9
state_code weather_hold = 10
state_code not_visible = 11
state_code hardware_error = 12
state_code cancelled = 13
state_code failed = 14

-- `===` on states
abbrev pub same_state : MissionState → MissionState → Bool
same_state s t = state_code s == state_code t

-- `Array.includes`
abbrev pub includes : List MissionState → MissionState → Bool
includes l s = any (λ t. same_state s t) l

abbrev pub live_mission_states : List MissionState
live_mission_states =
    preparing ∷ slewing ∷ verifying ∷ centering ∷ observing ∷ capturing ∷ processing ∷ []

abbrev pub terminal_mission_states : List MissionState
terminal_mission_states = complete ∷ cancelled ∷ failed ∷ []

abbrev pub hold_mission_states : List MissionState
hold_mission_states = weather_hold ∷ not_visible ∷ hardware_error ∷ []

abbrev stoppable : List MissionState
stoppable = live_mission_states ++ scheduled ∷ []

-- `LEGAL_PREDECESSORS`
abbrev pub legal_predecessors : MissionState → List MissionState
legal_predecessors requested = []
legal_predecessors scheduled = []
legal_predecessors preparing = scheduled ∷ hold_mission_states
legal_predecessors slewing = preparing ∷ centering ∷ observing ∷ []
legal_predecessors verifying = slewing ∷ []
legal_predecessors centering = verifying ∷ []
legal_predecessors observing = verifying ∷ processing ∷ []
legal_predecessors capturing = observing ∷ []
legal_predecessors processing = capturing ∷ []
legal_predecessors complete = processing ∷ observing ∷ []
legal_predecessors weather_hold = stoppable
legal_predecessors not_visible = stoppable
legal_predecessors hardware_error = stoppable
legal_predecessors cancelled = stoppable
legal_predecessors failed = stoppable

unfoldable pub legal_predecessors_of : MissionState → List MissionState
legal_predecessors_of to = to ∷ legal_predecessors to

unfoldable pub is_legal_mission_transition : MissionState → MissionState → Bool
unfolding legal_predecessors_of
is_legal_mission_transition from to = includes (legal_predecessors_of to) from

pub record MissionRow : Type 0 where
  pub observatory_id : ℕ
  pub state : MissionState
  pub failure_reason : Option MissionFailureReason
  pub completed_at : Option ℕ
  pub simulated : Bool
  pub is_demo : Bool

pub record MissionEventRecord : Type 0 where
  pub observatory_id : ℕ
  pub state : MissionState
  pub failure_reason : Option MissionFailureReason
  pub occurred_at : ℕ
  pub command_id : Option ℕ
  pub detail : Option ℕ

-- A row of `MissionEvent` with source AGENT.
pub record EventRow : Type 0 where
  pub state : MissionState
  pub failure_reason : Option MissionFailureReason
  pub command_id : Option ℕ
  pub message : Option ℕ
  pub occurred_at : ℕ
  pub simulated : Bool
  pub is_demo : Bool

-- The mission, if there is one by the event's id, its event log, and the commands minted for the
-- reporting observatory.
pub record MissionDb : Type 0 where
  pub mission : Option MissionRow
  pub events : List EventRow
  pub commands : List (ℕ × ℕ)

pub data MissionEventOutcome : Type 0 where
  applied recorded not_found wrong_observatory : MissionEventOutcome

-- `findFirst({ id, observatoryId })`, as the id that is found
abbrev caused_by : Option ℕ → ℕ → List (ℕ × ℕ) → Option ℕ
caused_by none observatory commands = none
caused_by (some c) observatory [] = none
caused_by (some c) observatory ((id, owner) ∷ rest) =
    if c == id
    then (if owner == observatory then some c else caused_by (some c) observatory rest)
    else caused_by (some c) observatory rest

abbrev event_row : MissionEventRecord → MissionRow → List (ℕ × ℕ) → EventRow
event_row e m commands = record {
  state = e.state;
  failure_reason = e.failure_reason;
  command_id = caused_by e.command_id e.observatory_id commands;
  message = e.detail;
  occurred_at = e.occurred_at;
  simulated = m.simulated;
  is_demo = m.is_demo;
}

abbrev pub is_terminal_state : MissionState → Bool
is_terminal_state s = includes terminal_mission_states s

-- The data of the guarded update.
unfoldable pub moved : MissionEventRecord → MissionRow → MissionRow
moved e m = record m {
  state = e.state;
  failure_reason = e.failure_reason;
  completed_at = if is_terminal_state e.state then some e.occurred_at else m.completed_at;
}

-- `applyMissionEvent`; the guard and the write are one statement.
unfoldable pub apply_mission_event :
    MissionEventRecord → MissionDb → MissionEventOutcome × MissionDb
unfolding is_legal_mission_transition moved
apply_mission_event e db = elim db.mission [
  | none ↦ (not_found, db)
  | some m ↦
      if m.observatory_id == e.observatory_id
      then (let logged = record db { events = event_row e m db.commands ∷ db.events } in
          if is_legal_mission_transition m.state e.state
          then (applied, record logged { mission = some (moved e m) })
          else (recorded, logged))
      else (wrong_observatory, db)
]

-- The events of one mission, in the order their transactions commit.
unfoldable pub apply_all : List MissionEventRecord → MissionDb → MissionDb
apply_all [] db = db
apply_all (e ∷ es) db = apply_all es (apply_mission_event e db).1

pub data SessionEndReason : Type 0 where
  slot_ended customer_ended operator_ended weather fault : SessionEndReason

abbrev is_reason : MissionFailureReason → Option MissionFailureReason → Bool
is_reason session_expired (some session_expired) = true
is_reason customer_cancelled (some customer_cancelled) = true
is_reason operator_abort (some operator_abort) = true
is_reason weather_unsafe (some weather_unsafe) = true
is_reason _ _ = false

-- `sessionEndReasonOf`
unfoldable pub session_end_reason_of : MissionState → Option MissionFailureReason → SessionEndReason
session_end_reason_of state reason =
    if same_state state complete
    then slot_ended
    else if is_reason session_expired reason
    then slot_ended
    else if is_reason customer_cancelled reason
    then customer_ended
    else if is_reason operator_abort reason
    then operator_ended
    else if is_reason weather_unsafe reason || same_state state weather_hold
    then weather
    else fault
