-- ===== src/Store/Tests.antt =====
-- The store at concrete tables.
use online_observatory.Common.{true, false, none, some, [], ◌∷◌, ◌≡◌, ◌≢◌, refl, All, inl, lookup}
use online_observatory.Mission.{
  MissionState, preparing, complete, safety_refused, agent_link_lost, is_terminal_state,
}
use online_observatory.Link.Messages.{CommandAck, CommandAcceptanceStatus, SessionEnded}
use online_observatory.Link.Storage.{CommandVerdictOutcome, ResumeOutcome}
use online_observatory.Store.{Tables, StoredMission, CommandRow, goto, ObservatoryCommandStatus}
use online_observatory.Store.Verdicts.{record_command_verdict}
use online_observatory.Store.Hello.{mark_link_up}
use online_observatory.Store.Sweeps.{end_mission_session, ended_record}
use online_observatory.Store.Past.{IsLater-refl}
use online_observatory.Store.Commands.{
  record_command_verdict-decided, record_command_verdict-refuses_start, is_released, IsFailed,
}
use online_observatory.Store.Ends.{
  end_mission_session-once, mark_link_up-reconnected, mark_link_up-restarted,
}

abbrev row : MissionState → StoredMission
row state = record {
  core = record {
    observatory_id = 1;
    state = state;
    failure_reason = none;
    completed_at = none;
    simulated = false;
    is_demo = false;
  };
  user_id = 5;
  target_id = 9;
  current_target_id = some 9;
  current_target_since = some 100;
  booking = none;
  slot_end_notified_at = none;
  session_ended_notified_at = none;
  image_unrecovered_since = none;
  events = [];
  cloud_events = [];
}

abbrev command : ObservatoryCommandStatus → CommandRow
command status = record {
  observatory_id = 1;
  mission_id = 3;
  payload = goto (some 9) false;
  status = status;
  completed_at = none;
  result = none;
}

abbrev tables : MissionState → ObservatoryCommandStatus → Tables
tables state status = record {
  messages = [];
  observatories =
      (
        1,
        record {
          link_up = false;
          link_lost_at = some 50;
          agent_booted_at = some 40;
          agent_posture = none;
          agent_disarm_reason = none;
        },
      )
      ∷ [];
  missions = (3, row state) ∷ [];
  commands = (4, command status) ∷ [];
  captures = [];
  sessions = record { mission_id = 3; revoked = none } ∷ [];
  audit = [];
  emails = [];
  notified = [];
}

abbrev waiting : Tables
waiting = tables preparing ObservatoryCommandStatus.authorized

abbrev refusal : CommandAck
refusal = record {
  command_id = 4;
  status = CommandAcceptanceStatus.rejected;
  rejection_reason = some (record { code = 2; safety = true });
  detail = none;
}

record_command_verdict-refuses_start_example :
    ((record_command_verdict 1 refusal 70 71 waiting).0 ≡ CommandVerdictOutcome.recorded)
    × IsFailed
        (some safety_refused)
        70
        (row preparing)
        (lookup 3 (record_command_verdict 1 refusal 70 71 waiting).1.missions)
    × All (λ s. is_released 3 s ≡ true) (record_command_verdict 1 refusal 70 71 waiting).1.sessions
    × ((record_command_verdict 1 refusal 70 71 waiting).1.notified ≡ 3 ∷ [])
record_command_verdict-refuses_start_example =
    record_command_verdict-refuses_start 1 refusal 70 71 waiting
      (command ObservatoryCommandStatus.authorized) (some 9) (row preparing) refl refl refl
      (inl refl) refl refl refl refl

abbrev answered : Tables
answered = tables preparing ObservatoryCommandStatus.completed

record_command_verdict-decided_example :
    ((record_command_verdict 1 refusal 70 71 answered).1 ≡ answered)
    × ((record_command_verdict 1 refusal 70 71 answered).0 ≢ CommandVerdictOutcome.recorded)
record_command_verdict-decided_example =
    record_command_verdict-decided 1 refusal 70 71 answered
      (command ObservatoryCommandStatus.completed) refl refl

abbrev over : Tables
over = tables complete ObservatoryCommandStatus.completed

abbrev ended : SessionEnded
ended = ended_record 3 (row complete) true false 90 over

ends : (end_mission_session 3 true 90 over).0 ≡ some ended
unfolding end_mission_session
ends = refl

end_mission_session-once_example :
    (is_terminal_state ended.state ≡ true)
    × ((end_mission_session 3 false 95 (end_mission_session 3 true 90 over).1).0 ≡ none)
end_mission_session-once_example =
    end_mission_session-once 3 true false 90 95 over (end_mission_session 3 true 90 over).1 ended
      ends (IsLater-refl (end_mission_session 3 true 90 over).1)

mark_link_up-reconnected_example :
    ((mark_link_up 1 40 (some 3) 60 waiting).1.missions ≡ waiting.missions)
    × ((mark_link_up 1 40 (some 3) 60 waiting).1.sessions ≡ waiting.sessions)
    × ((mark_link_up 1 40 (some 3) 60 waiting).0 ≢ some ResumeOutcome.resolved)
mark_link_up-reconnected_example = mark_link_up-reconnected 1 40 (some 3) 60 waiting refl

mark_link_up-restarted_example :
    ((mark_link_up 1 55 (some 3) 60 waiting).0 ≡ some ResumeOutcome.resolved)
    × IsFailed
        (some agent_link_lost)
        60
        (row preparing)
        (lookup 3 (mark_link_up 1 55 (some 3) 60 waiting).1.missions)
    × All (λ s. is_released 3 s ≡ true) (mark_link_up 1 55 (some 3) 60 waiting).1.sessions
mark_link_up-restarted_example =
    mark_link_up-restarted 1 55 40 3 (some 3) 60 waiting (row preparing) refl refl (inl refl) refl
      refl refl
