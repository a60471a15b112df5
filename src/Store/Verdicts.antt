-- ===== src/Store/Verdicts.antt =====
-- What the agent answers and reports: `recordCommandVerdict` with `failRefusedStart`,
-- `applyMissionEvent`, `recordImageHealth` and `observatoryOwnsMission` of
-- apps/realtime/src/link/prisma-store.ts, and the rules of apps/realtime/src/link/store.ts.
use online_observatory.Common.{
  ℕ, Bool, true, false, not, ◌&&◌, Option, none, some, ◌∷◌, map, if◌then◌else◌, ◌==◌, Table, lookup,
  adjust,
}
use online_observatory.Mission as Mission
use online_observatory.Mission.{
  MissionRow, MissionFailureReason, safety_refused, preparing, same_state, MissionDb,
  MissionEventRecord, MissionEventOutcome,
}
use online_observatory.Link.Messages.{
  CommandAck, CommandAcceptanceStatus, MissionEvent, RejectionReason,
}
use online_observatory.Link.Storage.{CommandVerdictOutcome, RelayableCommand}
use online_observatory.Store.{
  Tables, StoredMission, CommandRow, CommandPayload, goto, retarget, ObservatoryCommandStatus,
  RevokedFor, mission_start_refused, mission_target_changed, verdict_recorded, record_audit_event,
  matches, update_many, is_live_state, revoke_sessions,
}

-- `COMMAND_STATUS_FOR`
abbrev pub command_status_for : CommandAcceptanceStatus → Option ObservatoryCommandStatus
command_status_for CommandAcceptanceStatus.accepted = some ObservatoryCommandStatus.executing
command_status_for CommandAcceptanceStatus.rejected = some ObservatoryCommandStatus.rejected
command_status_for CommandAcceptanceStatus.expired = some ObservatoryCommandStatus.expired
command_status_for CommandAcceptanceStatus.completed = some ObservatoryCommandStatus.completed
command_status_for CommandAcceptanceStatus.failed = some ObservatoryCommandStatus.failed
command_status_for CommandAcceptanceStatus.duplicate = none

-- `isTerminalCommandStatus`
abbrev pub is_terminal_command_status : ObservatoryCommandStatus → Bool
is_terminal_command_status ObservatoryCommandStatus.completed = true
is_terminal_command_status ObservatoryCommandStatus.rejected = true
is_terminal_command_status ObservatoryCommandStatus.expired = true
is_terminal_command_status ObservatoryCommandStatus.failed = true
is_terminal_command_status _ = false

-- `START_NOT_RUN_STATUSES`
abbrev pub is_start_not_run : ObservatoryCommandStatus → Bool
is_start_not_run ObservatoryCommandStatus.rejected = true
is_start_not_run ObservatoryCommandStatus.expired = true
is_start_not_run ObservatoryCommandStatus.failed = true
is_start_not_run _ = false

abbrev pub is_starting_goto : CommandPayload → Bool
is_starting_goto (goto target recenter) = not recenter
is_starting_goto _ = false

abbrev pub dwell_target_of : CommandPayload → Option ℕ
dwell_target_of (retarget target) = target
dwell_target_of (goto target recenter) = if recenter then none else target
dwell_target_of _ = none

abbrev pub failure_reason_for_refused_start : Option RejectionReason → Option MissionFailureReason
failure_reason_for_refused_start none = none
failure_reason_for_refused_start (some r) = if r.safety then some safety_refused else none

abbrev pub refused_start : CommandAck → (decided_at : ℕ) → StoredMission → StoredMission
refused_start k at m = record m {
  core = record m.core {
    state = Mission.failed;
    failure_reason = failure_reason_for_refused_start k.rejection_reason;
  };
  cloud_events =
      record {
        state = Mission.failed;
        failure_reason = failure_reason_for_refused_start k.rejection_reason;
        command_id = some k.command_id;
        occurred_at = at;
        simulated = m.core.simulated;
        is_demo = m.core.is_demo;
      }
      ∷ m.cloud_events;
}

abbrev pub is_preparing_here : (observatory_id : ℕ) → StoredMission → Bool
is_preparing_here o m = m.core.observatory_id == o && same_state m.core.state preparing

-- `failRefusedStart`; `now` is the moment of the revocation.
unfoldable pub fail_refused_start :
    (observatory_id mission_id : ℕ) → CommandAck → (decided_at now : ℕ) → Tables → Tables
fail_refused_start o m k at now t =
    if matches (is_preparing_here o) (lookup m t.missions)
    then record_audit_event (mission_start_refused m) (record t {
      missions = update_many m (is_preparing_here o) (refused_start k at) t.missions;
      sessions = revoke_sessions m now RevokedFor.start_refused_by_agent t.sessions;
      notified = m ∷ t.notified;
    })
    else t

abbrev pub is_retarget : CommandPayload → Bool
is_retarget (retarget target) = true
is_retarget _ = false

abbrev pub is_live_here : (observatory_id : ℕ) → StoredMission → Bool
is_live_here o m = m.core.observatory_id == o && is_live_state m.core.state

-- The dwell that an accepted command starts
unfoldable pub start_dwell :
    (observatory_id : ℕ) → CommandRow → (target decided_at : ℕ) → Tables → Tables
start_dwell o c target at t =
    let moved = record t {
      missions =
          update_many c.mission_id (is_live_here o)
            (λ m. record m { current_target_id = some target; current_target_since = some at })
            t.missions;
    } in
    if matches (is_live_here o) (lookup c.mission_id t.missions) && is_retarget c.payload
    then record_audit_event (mission_target_changed c.mission_id) moved
    else moved

abbrev pub is_accepted : CommandAcceptanceStatus → Bool
is_accepted CommandAcceptanceStatus.accepted = true
is_accepted _ = false

-- The guarded update of the command
abbrev pub is_undecided : (observatory_id : ℕ) → CommandRow → Bool
is_undecided o c = c.observatory_id == o && not (is_terminal_command_status c.status)

abbrev pub decided :
    CommandAck → (decided_at : ℕ) → ObservatoryCommandStatus → CommandRow → CommandRow
decided k at status c = record c {
  status = status;
  completed_at = if is_terminal_command_status status then some at else c.completed_at;
  result = some (k, at);
}

unfoldable pub dwell_on :
    (observatory_id : ℕ) → CommandRow → Option ℕ → (decided_at : ℕ) → Tables → Tables
unfolding start_dwell
dwell_on o c none at t = t
dwell_on o c (some target) at t = start_dwell o c target at t

-- What a verdict that was applied brings with it
unfoldable pub after_verdict :
    (observatory_id : ℕ)
    → CommandAck
    → ObservatoryCommandStatus
    → CommandRow
    → (decided_at now : ℕ) → Tables
    → Tables
unfolding dwell_on fail_refused_start
after_verdict o k status c at now t =
    let t1 = if is_accepted k.status then dwell_on o c (dwell_target_of c.payload) at t else t in
    if is_start_not_run status && is_starting_goto c.payload
    then fail_refused_start o c.mission_id k at now t1
    else t1

-- `recordCommandVerdict`, `decidedAt` and `now` apart
unfoldable pub record_command_verdict :
    (observatory_id : ℕ)
    → CommandAck
    → (decided_at now : ℕ) → Tables
    → CommandVerdictOutcome × Tables
unfolding after_verdict
record_command_verdict o k at now t = elim (lookup k.command_id t.commands) [
  | none ↦ (CommandVerdictOutcome.not_found, t)
  | some c ↦
      if c.observatory_id == o
      then elim (command_status_for k.status) [
        | none ↦ (CommandVerdictOutcome.duplicate_ack, t)
        | some status ↦
            if is_terminal_command_status c.status
            then (CommandVerdictOutcome.ignored_stale, t)
            else (
              CommandVerdictOutcome.recorded,
              after_verdict o k status c at now (
                  record_audit_event (verdict_recorded k.command_id) (record t {
                    commands =
                        update_many k.command_id (is_undecided o) (decided k at status) t.commands;
                  })),
            )
      ]
      else (CommandVerdictOutcome.wrong_observatory, t)
]

unfoldable pub load_command : ℕ → Tables → Option RelayableCommand
load_command c t = elim (lookup c t.commands) [
  | none ↦ none
  | some r ↦ some (record { observatory_id = r.observatory_id; mission_id = r.mission_id })
]

unfoldable pub observatory_owns_mission : (observatory_id mission_id : ℕ) → Tables → Bool
observatory_owns_mission o m t = matches (λ r. r.core.observatory_id == o) (lookup m t.missions)

abbrev pub reported : (observatory_id : ℕ) → MissionEvent → MissionEventRecord
reported o e = record {
  observatory_id = o;
  state = e.state;
  failure_reason = e.failure_reason;
  occurred_at = e.occurred_at;
  command_id = e.command_id;
  detail = e.detail;
}

-- The mission's part of the tables
abbrev pub mission_part : Table CommandRow → StoredMission → MissionDb
mission_part commands r = record {
  mission = some r.core;
  events = r.events;
  commands = map (λ c. (c.0, c.1.observatory_id)) commands;
}

abbrev pub written_back : MissionDb → StoredMission → StoredMission
written_back d r = elim d.mission [
  | none ↦ r
  | some core ↦ record r { core = core; events = d.events }
]

-- `applyMissionEvent`, by the mission's own part of the tables
unfoldable pub apply_event :
    (observatory_id : ℕ) → MissionEvent → Tables → MissionEventOutcome × Tables
apply_event o e t = (
  elim (lookup e.mission_id t.missions) [
    | none ↦ MissionEventOutcome.not_found
    | some r ↦ (Mission.apply_mission_event (reported o e) (mission_part t.commands r)).0
  ],
  record t {
    missions =
        adjust e.mission_id
          (λ r.
            written_back (Mission.apply_mission_event (reported o e) (mission_part t.commands r)).1
              r)
          t.missions;
  },
)

abbrev pub needs_health : (observatory_id : ℕ) → (unrecovered : Bool) → StoredMission → Bool
needs_health o unrecovered m =
    m.core.observatory_id == o
    && elim m.image_unrecovered_since [ none ↦ unrecovered | some _ ↦ not unrecovered ]

unfoldable pub record_image_health :
    (observatory_id mission_id : ℕ) → (unrecovered : Bool) → (at : ℕ) → Tables → Tables
record_image_health o m unrecovered at t = record t {
  missions =
      update_many m (needs_health o unrecovered)
        (λ r. record r { image_unrecovered_since = if unrecovered then some at else none })
        t.missions;
}
