-- ===== src/Link/Storage.antt =====
-- What the agent link needs of the store: the operations of `LinkStore` (apps/realtime/src/link/store.ts)
-- that apps/realtime/src/link/agent-link.ts calls, over a database of any type, and the laws that
-- the link relies on.
use online_observatory.Common.{ℕ, Bool, true, false, not, Option, none, some, List, ◌≡◌, ◌==◌}
use online_observatory.Mission.{MissionEventOutcome, applied}
use online_observatory.Link.Messages.{
  AgentPosture, MissionEvent, CommandAck, CaptureAssetKind, ObjectKey, SessionEnded,
}

pub data ResumeOutcome : Type 0 where
  resolved still_live not_live wrong_observatory not_found : ResumeOutcome

pub data CommandVerdictOutcome : Type 0 where
  recorded duplicate_ack ignored_stale wrong_observatory not_found : CommandVerdictOutcome

pub data CaptureOutcome : Type 0 where
  recorded duplicate not_found wrong_observatory : CaptureOutcome

-- A minted command, as far as the link reads it.
pub record RelayableCommand : Type 0 where
  pub observatory_id : ℕ
  pub mission_id : ℕ

-- The command is there and was minted for the observatory.
abbrev pub is_minted_for : (observatory_id : ℕ) → Option RelayableCommand → Bool
is_minted_for o none = false
is_minted_for o (some c) = c.observatory_id == o

pub record CaptureRecord : Type 0 where
  pub observatory_id : ℕ
  pub mission_id : ℕ
  pub command_id : ℕ
  pub captured_at : ℕ
  pub shot : ℕ
  pub target_id : Option ℕ
  pub assets : List (CaptureAssetKind × ObjectKey)

pub record LinkStore : Type 1 where
  pub Db : Type 0
  pub record_inbound_message : (message_id observatory_id : ℕ) → Db → Bool × Db
  pub mark_link_up :
      (observatory_id booted_at : ℕ)
      → (resume_mission_id : Option ℕ) → (now : ℕ) → Db
      → Option ResumeOutcome × Db
  pub mark_link_lost : (observatory_id at : ℕ) → Db → Db
  pub record_posture : (observatory_id : ℕ) → AgentPosture → Option ℕ → Db → Db
  pub load_command : ℕ → Db → Option RelayableCommand
  pub apply_mission_event : (observatory_id : ℕ) → MissionEvent → Db → MissionEventOutcome × Db
  pub record_command_verdict :
      (observatory_id : ℕ) → CommandAck → (decided_at : ℕ) → Db → CommandVerdictOutcome × Db
  pub live_mission_id : ℕ → Db → Option ℕ
  pub observatory_owns_mission : (observatory_id mission_id : ℕ) → Db → Bool
  pub record_capture : CaptureRecord → Db → CaptureOutcome × Db
  pub record_image_health :
      (observatory_id mission_id : ℕ) → (unrecovered : Bool) → (at : ℕ) → Db → Db
  pub end_mission_session :
      (mission_id : ℕ) → (parked : Bool) → (now : ℕ) → Db → Option SessionEnded × Db
  -- The identity of a message is stored.
  pub seen : ℕ → Db → Bool
  -- One database comes from another by what this or any other process does to it.
  pub Later : Db → Db → Type 0
  pub later_refl : (a : Db) → Later a a
  pub later_trans : (a b c : Db) → Later a b → Later b c → Later a c
  pub later_seen : (i : ℕ) (a b : Db) → Later a b → seen i a ≡ true → seen i b ≡ true
  pub later_owns :
      (o m : ℕ) (a b : Db)
      → Later a b
      → observatory_owns_mission o m a ≡ true
      → observatory_owns_mission o m b ≡ true
  pub later_minted :
      (o i : ℕ) (a b : Db)
      → Later a b
      → is_minted_for o (load_command i a) ≡ true
      → is_minted_for o (load_command i b) ≡ true
  pub first_sighting :
      (i o : ℕ) (a : Db)
      → ((record_inbound_message i o a).0 ≡ not (seen i a))
        × (seen i (record_inbound_message i o a).1 ≡ true)
        × (seen i a ≡ true → (record_inbound_message i o a).1 ≡ a)
  pub applied_owns :
      (o : ℕ) (e : MissionEvent) (a : Db)
      → (apply_mission_event o e a).0 ≡ applied
      → observatory_owns_mission o e.mission_id a ≡ true
  pub verdict_minted :
      (o : ℕ) (k : CommandAck) (t : ℕ) (a : Db)
      → (record_command_verdict o k t a).0 ≡ recorded
      → is_minted_for o (load_command k.command_id a) ≡ true
  pub capture_owns :
      (c : CaptureRecord) (a : Db)
      → (record_capture c a).0 ≡ recorded
      → observatory_owns_mission c.observatory_id c.mission_id a ≡ true
  pub ended_mission :
      (m : ℕ) (p : Bool) (now : ℕ) (a : Db) (r : SessionEnded)
      → (end_mission_session m p now a).0 ≡ some r
      → r.mission_id ≡ m
  pub record_inbound_message_later : (i o : ℕ) (a : Db) → Later a (record_inbound_message i o a).1
  pub mark_link_up_later :
      (o b : ℕ) (r : Option ℕ) (now : ℕ) (a : Db) → Later a (mark_link_up o b r now a).1
  pub mark_link_lost_later : (o t : ℕ) (a : Db) → Later a (mark_link_lost o t a)
  pub record_posture_later :
      (o : ℕ) (p : AgentPosture) (r : Option ℕ) (a : Db) → Later a (record_posture o p r a)
  pub apply_mission_event_later :
      (o : ℕ) (e : MissionEvent) (a : Db) → Later a (apply_mission_event o e a).1
  pub record_command_verdict_later :
      (o : ℕ) (k : CommandAck) (t : ℕ) (a : Db) → Later a (record_command_verdict o k t a).1
  pub record_capture_later : (c : CaptureRecord) (a : Db) → Later a (record_capture c a).1
  pub record_image_health_later :
      (o m : ℕ) (u : Bool) (t : ℕ) (a : Db) → Later a (record_image_health o m u t a)
  pub end_mission_session_later :
      (m : ℕ) (p : Bool) (now : ℕ) (a : Db) → Later a (end_mission_session m p now a).1
