-- ===== src/Store.antt =====
-- The one store that the realtime service runs on, apps/realtime/src/link/prisma-store.ts: the
-- tables that it reads and writes, and their rows. A transaction is one function from tables to
-- tables. Ids are numbers and instants milliseconds; a capture is named by its command, which is
-- unique. A mission's row holds its own events.
pub mod Hello
pub mod Verdicts
pub mod Captures
pub mod Sweeps
pub mod Past
pub mod Kept
pub mod Service
pub mod Commands
pub mod Ends
mod Tests
use online_observatory.Common.{
  ℕ, ◌+◌, ◌*◌, Bool, true, false, Option, none, some, List, [], ◌∷◌, if◌then◌else◌, ◌==◌, any,
  Table, lookup, adjust,
}
use online_observatory.Mission.{
  MissionRow, EventRow, MissionState, MissionFailureReason, SessionEndReason, includes,
  live_mission_states,
}
use online_observatory.Link.Messages.{
  AgentPosture, CommandAck, CommandAcceptanceStatus, CaptureAssetKind, ObjectKey, RejectionReason,
}

pub data ObservatoryCommandStatus : Type 0 where
  received authorized executing completed rejected expired failed : ObservatoryCommandStatus

-- The type of a command, with what the store reads of its payload.
pub data CommandPayload : Type 0 where
  goto : (target_id : Option ℕ) → (recenter : Bool) → CommandPayload
  retarget : (target_id : Option ℕ) → CommandPayload
  capture : CommandPayload
  other_command : ℕ → CommandPayload

pub record CommandRow : Type 0 where
  pub observatory_id : ℕ
  pub mission_id : ℕ
  pub payload : CommandPayload
  pub status : ObservatoryCommandStatus
  pub completed_at : Option ℕ
  pub result : Option (CommandAck × ℕ)

pub record Booking : Type 0 where
  pub slot_start_at : ℕ
  pub duration_minutes : ℕ

-- An event with source CLOUD
pub record CloudEvent : Type 0 where
  pub state : MissionState
  pub failure_reason : Option MissionFailureReason
  pub command_id : Option ℕ
  pub occurred_at : ℕ
  pub simulated : Bool
  pub is_demo : Bool

-- `core` are the columns that the agent's events move.
pub record StoredMission : Type 0 where
  pub core : MissionRow
  pub user_id : ℕ
  pub target_id : ℕ
  pub current_target_id : Option ℕ
  pub current_target_since : Option ℕ
  pub booking : Option Booking
  pub slot_end_notified_at : Option ℕ
  pub session_ended_notified_at : Option ℕ
  pub image_unrecovered_since : Option ℕ
  pub events : List EventRow
  pub cloud_events : List CloudEvent

pub data RevokedFor : Type 0 where
  agent_link_lost start_refused_by_agent : RevokedFor

pub record SessionRow : Type 0 where
  pub mission_id : ℕ
  pub revoked : Option (ℕ × RevokedFor)

pub record CaptureRow : Type 0 where
  pub command_id : ℕ
  pub mission_id : ℕ
  pub user_id : ℕ
  pub target_id : ℕ
  pub captured_at : ℕ
  pub shot : ℕ
  pub fits_available : Bool
  pub simulated : Bool
  pub is_demo : Bool
  pub assets : List (CaptureAssetKind × ObjectKey)

pub record ObservatoryRow : Type 0 where
  pub link_up : Bool
  pub link_lost_at : Option ℕ
  pub agent_booted_at : Option ℕ
  pub agent_posture : Option AgentPosture
  pub agent_disarm_reason : Option ℕ

pub data StoreAudit : Type 0 where
  link_up link_lost posture_changed : (observatory_id : ℕ) → StoreAudit
  resolved_after_restart mission_start_refused mission_target_changed mission_not_started
        mission_slot_ended :
      (mission_id : ℕ) → StoreAudit
  mission_session_ended : (mission_id : ℕ) → SessionEndReason → (parked : Bool) → StoreAudit
  verdict_recorded capture_filed : (command_id : ℕ) → StoreAudit

-- The key that an email is sent once for
pub data EmailKey : Type 0 where
  capture_ready session_summary : ℕ → EmailKey

-- `notified` is what `pg_notify` has told the relay: the missions whose owner was revoked.
pub record Tables : Type 0 where
  pub messages : List ℕ
  pub observatories : Table ObservatoryRow
  pub missions : Table StoredMission
  pub commands : Table CommandRow
  pub captures : List CaptureRow
  pub sessions : List SessionRow
  pub audit : List StoreAudit
  pub emails : List EmailKey
  pub notified : List ℕ

abbrev pub record_audit_event : StoreAudit → Tables → Tables
record_audit_event a t = record t { audit = a ∷ t.audit }

-- `updateMany` on one id: the count is 1 when the row is there and passes.
abbrev pub matches {ℓ} : {V : Type ℓ} → (V → Bool) → Option V → Bool
matches p none = false
matches p (some v) = p v

abbrev pub update_many {ℓ} : {V : Type ℓ} → ℕ → (V → Bool) → (V → V) → Table V → Table V
update_many k p f t = adjust k (λ v. if p v then f v else v) t

abbrev pub is_live_state : MissionState → Bool
is_live_state s = includes live_mission_states s

abbrev pub set_core : (MissionRow → MissionRow) → StoredMission → StoredMission
set_core f m = record m { core = f m.core }

-- Revoke what is not revoked of the mission's sessions.
abbrev pub revoke_sessions : (mission_id now : ℕ) → RevokedFor → List SessionRow → List SessionRow
revoke_sessions m now why [] = []
revoke_sessions m now why (s ∷ ss) =
    let rest = revoke_sessions m now why ss in
    if s.mission_id == m
    then elim s.revoked [ none ↦ record s { revoked = some (now, why) } ∷ rest | some _ ↦ s ∷ rest ]
    else s ∷ rest

abbrev pub same_email : EmailKey → EmailKey → Bool
same_email (capture_ready a) (capture_ready b) = a == b
same_email (session_summary a) (session_summary b) = a == b
same_email _ _ = false

-- `queueEmail`: whether the email is new
unfoldable pub queue_email : EmailKey → Tables → Bool × Tables
queue_email key t =
    if any (λ e. same_email key e) t.emails
    then (false, t)
    else (true, record t { emails = key ∷ t.emails })

-- `slotEndOf`
abbrev pub slot_end_of : Booking → ℕ
slot_end_of b = b.slot_start_at + b.duration_minutes * 60000
