-- ===== src/Store/Service.antt =====
-- The store is one that the agent link may rely on: it fills the link's interface.
use online_observatory.Common.{
  ℕ, Bool, true, Option, some, ◌≡◌, refl, inl, inr, Bool-cases, Option-cases, arith, ◌==◌, lookup,
}
use online_observatory.Mission as Mission
use online_observatory.Mission.{MissionEventOutcome}
use online_observatory.Link.Messages.{AgentPosture, MissionEvent, CommandAck, SessionEnded}
use online_observatory.Link.Storage.{
  LinkStore, is_minted_for, CommandVerdictOutcome, CaptureRecord, CaptureOutcome,
}
use online_observatory.Store.{Tables}
use online_observatory.Store.Hello.{
  record_inbound_message, mark_link_up, mark_link_lost, record_posture, live_mission_id,
}
use online_observatory.Store.Verdicts.{
  record_command_verdict, load_command, observatory_owns_mission, apply_event, record_image_health,
}
use online_observatory.Store.Captures.{record_capture}
use online_observatory.Store.Sweeps.{end_mission_session, can_end}
use online_observatory.Store.Past.{is_seen, IsLater, IsLater-refl, IsLater-trans, same-IsLater}
use online_observatory.Store.Kept.{
  record_inbound_message_lem, record_inbound_message_IsLater, mark_link_up-IsLater,
  record_command_verdict-IsLater, record_capture-IsLater, end_mission_session-IsLater,
  apply_event-IsLater, record_image_health-IsLater,
}

pub mark_link_lost-IsLater : (o at : ℕ) (t : Tables) → IsLater t (mark_link_lost o at t)
unfolding mark_link_lost
mark_link_lost-IsLater o at t = same-IsLater t _ refl refl refl

pub record_posture-IsLater :
    (o : ℕ) (p : AgentPosture) (r : Option ℕ) (t : Tables) → IsLater t (record_posture o p r t)
unfolding record_posture
record_posture-IsLater o p r t = same-IsLater t _ refl refl refl

pub apply_event-owner :
    (o : ℕ) (e : MissionEvent) (t : Tables)
    → (apply_event o e t).0 ≡ MissionEventOutcome.applied
    → observatory_owns_mission o e.mission_id t ≡ true
unfolding apply_event observatory_owns_mission Mission.apply_mission_event
apply_event-owner o e t h = elim (Option-cases (lookup e.mission_id t.missions)) [
  | inl none_there ↦ absurd (ground arith)
  | inr (r, there) ↦ elim (Bool-cases (r.core.observatory_id == o)) [
    | inl ours ↦ rw (there, ours) refl
    | inr other ↦ absurd (ground arith)
  ]
]

pub record_capture-owner :
    (c : CaptureRecord) (t : Tables)
    → (record_capture c t).0 ≡ CaptureOutcome.recorded
    → observatory_owns_mission c.observatory_id c.mission_id t ≡ true
unfolding record_capture observatory_owns_mission
record_capture-owner c t h = elim (Option-cases (lookup c.mission_id t.missions)) [
  | inl e ↦ absurd (ground arith)
  | inr (m, e) ↦ elim (Bool-cases (m.core.observatory_id == c.observatory_id)) [
    | inr e2 ↦ absurd (ground arith)
    | inl e2 ↦ rw (e, e2) refl
  ]
]

pub end_mission_session-mission :
    (k : ℕ) (parked : Bool) (now : ℕ) (t : Tables) (r : SessionEnded)
    → (end_mission_session k parked now t).0 ≡ some r
    → r.mission_id ≡ k
unfolding end_mission_session
end_mission_session-mission k parked now t r h = elim (Option-cases (lookup k t.missions)) [
  | inl e ↦ absurd (ground arith)
  | inr (m, e) ↦ elim (Bool-cases (can_end m)) [
    | inr e2 ↦ absurd (ground arith)
    | inl e2 ↦ ground arith
  ]
]

pub verdict_minted_for :
    (o : ℕ) (k : CommandAck) (at now : ℕ) (t : Tables)
    → (record_command_verdict o k at now t).0 ≡ CommandVerdictOutcome.recorded
    → is_minted_for o (load_command k.command_id t) ≡ true
unfolding record_command_verdict load_command
verdict_minted_for o k at now t h = elim (Option-cases (lookup k.command_id t.commands)) [
  | inl e ↦ absurd (ground arith)
  | inr (c, e) ↦ elim (Bool-cases (c.observatory_id == o)) [
    | inr e2 ↦ absurd (ground arith)
    | inl e2 ↦ rw (load_command, e, e2) refl
  ]
]

-- The store behind the link. `revoked_at` is the moment at which a refused start revokes a session.
abbrev pub prisma_store : (revoked_at : ℕ) → LinkStore
prisma_store revoked_at = record {
  Db = Tables;
  record_inbound_message = record_inbound_message;
  mark_link_up = mark_link_up;
  mark_link_lost = mark_link_lost;
  record_posture = record_posture;
  load_command = load_command;
  apply_mission_event = apply_event;
  record_command_verdict = λ o k at t. record_command_verdict o k at revoked_at t;
  live_mission_id = live_mission_id;
  observatory_owns_mission = observatory_owns_mission;
  record_capture = record_capture;
  record_image_health = record_image_health;
  end_mission_session = end_mission_session;
  seen = is_seen;
  Later = IsLater;
  later_refl = IsLater-refl;
  later_trans = IsLater-trans;
  later_seen = λ i a b l. l.keeps_seen i;
  later_owns = λ o m a b l. l.keeps_owner o m;
  later_minted = λ o i a b l. l.keeps_minted o i;
  first_sighting = record_inbound_message_lem;
  applied_owns = apply_event-owner;
  verdict_minted = λ o k at t. verdict_minted_for o k at revoked_at t;
  capture_owns = record_capture-owner;
  ended_mission = end_mission_session-mission;
  record_inbound_message_later = record_inbound_message_IsLater;
  mark_link_up_later = mark_link_up-IsLater;
  mark_link_lost_later = mark_link_lost-IsLater;
  record_posture_later = record_posture-IsLater;
  apply_mission_event_later = apply_event-IsLater;
  record_command_verdict_later = λ o k at t. record_command_verdict-IsLater o k at revoked_at t;
  record_capture_later = record_capture-IsLater;
  record_image_health_later = record_image_health-IsLater;
  end_mission_session_later = end_mission_session-IsLater;
}
