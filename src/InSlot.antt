-- ===== src/InSlot.antt =====
-- A booked session's in-slot rules: apps/api/src/features/missions/in-slot.ts, the numbers of
-- packages/db/booked-session.ts, and the countdowns that the realtime service shows for them
-- (apps/realtime/src/mission/booked-session.ts). Instants are milliseconds; `a - b < c` on instants
-- is written `a < b + c`, which is the same on signed numbers. Messages are left out of a refusal.
pub mod Rules
pub mod Countdown
mod Tests
use online_observatory.Common.{
  ℕ, ◌+◌, ◌*◌, Bool, true, false, not, ◌&&◌, ◌||◌, Option, none, some, List, ltb, leb, ◌==◌,
  if◌then◌else◌,
}
use online_observatory.Mission.{
  MissionState, observing, capturing, processing, live_mission_states, terminal_mission_states,
  includes, same_state,
}

abbrev pub dwell_seconds : ℕ
dwell_seconds = 600

abbrev pub capture_cooldown_seconds : ℕ
capture_cooldown_seconds = 30

abbrev pub max_captures_per_mission : ℕ
max_captures_per_mission = 50

abbrev pub capture_close_seconds : ℕ
capture_close_seconds = 60

abbrev pub retarget_close_seconds : ℕ
retarget_close_seconds = 300

-- `dwellEndsAt`
unfoldable pub dwell_ends_at : Option ℕ → Option ℕ
dwell_ends_at none = none
dwell_ends_at (some since) = some (since + dwell_seconds * 1000)

-- The instant, if it is after `now`.
abbrev pub after : Option ℕ → ℕ → Option ℕ
after none now = none
after (some t) now = if ltb now t then some t else none

-- `effectiveRetargetAllowedAt`
unfoldable pub effective_retarget_allowed_at : Option ℕ → Bool → Bool → ℕ → Option ℕ
effective_retarget_allowed_at ends unrecovered current_listed now = elim (after ends now) [
  | none ↦ none
  | some t ↦ if unrecovered || not current_listed then none else some t
]

pub data RefusalCode : Type 0 where
  mission_busy session_ending conflict dwell_locked target_not_observable capture_in_progress
        capture_cooldown capture_limit_reached :
      RefusalCode

-- A 409, with the instant at which the same request would stop being refused by that rule.
pub record InSlotRefusal : Type 0 where
  pub code : RefusalCode
  pub allowed_at : Option ℕ

abbrev refused : RefusalCode → Option InSlotRefusal
refused code = some (record { code = code; allowed_at = none })

-- The visible-now list, as it answers for the current and the requested object. It is computed by
-- the ephemeris, so it is an input.
pub record VisibleNow : Type 0 where
  pub current_listed : Bool
  pub requested_listed : Bool

pub record RetargetFacts : Type 0 where
  pub state : MissionState
  pub now : ℕ
  pub session_ends_at : ℕ
  pub current_target_id : Option ℕ
  pub target_id : ℕ
  pub dwell_ends : Option ℕ
  pub unrecovered : Bool
  pub visible_now : VisibleNow

abbrev pub is_target : Option ℕ → ℕ → Bool
is_target none t = false
is_target (some c) t = t == c

-- `judgeRetarget`
unfoldable pub judge_retarget : RetargetFacts → Option InSlotRefusal
judge_retarget f =
    if not (same_state f.state observing)
    then refused mission_busy
    else if ltb f.session_ends_at (f.now + retarget_close_seconds * 1000)
    then refused session_ending
    else if is_target f.current_target_id f.target_id
    then refused conflict
    else elim (effective_retarget_allowed_at f.dwell_ends f.unrecovered f.visible_now.current_listed
        f.now) [
          | some t ↦ some (record { code = dwell_locked; allowed_at = some t })
          | none ↦ if f.visible_now.requested_listed then none else refused target_not_observable
        ]

pub record CaptureFacts : Type 0 where
  pub state : MissionState
  pub now : ℕ
  pub session_ends_at : ℕ
  pub awaiting_verdict : Bool
  pub last_issued_at : Option ℕ
  pub capture_count : ℕ

-- `captureCooldownEndsAt`
unfoldable pub capture_cooldown_ends_at : Option ℕ → ℕ → Option ℕ
capture_cooldown_ends_at none now = none
capture_cooldown_ends_at (some last) now = after (some (last + capture_cooldown_seconds * 1000)) now

abbrev pub in_progress : Bool → MissionState → Bool
in_progress awaiting state = awaiting || same_state state capturing || same_state state processing

-- `judgeCapture`
unfoldable pub judge_capture : CaptureFacts → Option InSlotRefusal
judge_capture f =
    if in_progress f.awaiting_verdict f.state
    then refused capture_in_progress
    else elim (capture_cooldown_ends_at f.last_issued_at f.now) [
      | some t ↦ some (record { code = capture_cooldown; allowed_at = some t })
      | none ↦
          if leb max_captures_per_mission f.capture_count
          then refused capture_limit_reached
          else if ltb f.session_ends_at (f.now + capture_close_seconds * 1000)
          then refused session_ending
          else none
    ]

-- `MissionLiveContext`, as far as the countdowns read it
pub record MissionLiveContext : Type 0 where
  pub state : MissionState
  pub current_target_id : Option ℕ
  pub current_target_since : Option ℕ
  pub session_ends_at : Option ℕ
  pub last_capture_issued_at : Option ℕ
  pub capture_awaiting_verdict : Bool
  pub capture_count : ℕ

pub data ImageHealth : Type 0 where
  healthy degraded unrecovered : ImageHealth

pub data EndPhase : Type 0 where
  finishing parking parked : EndPhase

pub record BookedSessionTelemetry : Type 0 where
  pub current_target_id : Option ℕ
  pub retarget_allowed_at : Option ℕ
  pub capture_allowed_at : Option ℕ
  pub image_health : Option ImageHealth
  pub end_phase : Option EndPhase

abbrev pub is_unrecovered : Option ImageHealth → Bool
is_unrecovered (some unrecovered) = true
is_unrecovered _ = false

abbrev pub is_live : MissionState → Bool
is_live s = includes live_mission_states s

abbrev pub is_terminal : MissionState → Bool
is_terminal s = includes terminal_mission_states s

-- `endsAt && endsAt <= now`
abbrev pub passed : Option ℕ → ℕ → Bool
passed none now = false
passed (some t) now = leb t now

abbrev pub cooldown_of : Option ℕ → Option ℕ
cooldown_of none = none
cooldown_of (some last) = some (last + capture_cooldown_seconds * 1000)

abbrev end_phase_of : MissionLiveContext → Bool → ℕ → Option EndPhase
end_phase_of c is_parked now =
    if is_terminal c.state
    then some (if is_parked then parked else parking)
    else if is_live c.state && passed c.session_ends_at now
    then some finishing
    else none

-- `bookedSessionTelemetry`
unfoldable pub booked_session_telemetry :
    Option MissionLiveContext → Option ImageHealth → Bool → ℕ → BookedSessionTelemetry
booked_session_telemetry none health is_parked now = record {
  current_target_id = none;
  retarget_allowed_at = none;
  capture_allowed_at = none;
  image_health = health;
  end_phase = none;
}
booked_session_telemetry (some c) health is_parked now = record {
  current_target_id = c.current_target_id;
  retarget_allowed_at =
      if is_live c.state && not (is_unrecovered health)
      then after (dwell_ends_at c.current_target_since) now
      else none;
  capture_allowed_at =
      if is_live c.state
        && not (in_progress c.capture_awaiting_verdict c.state)
        && ltb c.capture_count max_captures_per_mission
      then after (cooldown_of c.last_capture_issued_at) now
      else none;
  image_health = health;
  end_phase = end_phase_of c is_parked now;
}
