-- ===== src/Link/Handlers.antt =====
-- What each message does: the `apply` handlers of `AgentLink` (apps/realtime/src/link/agent-link.ts).
-- A handler runs to its end before the next event and reads the clock once, as `now`. `out` lists
-- what the link has put out, the latest first.
use online_observatory.Common.{
  ℕ, ◌+◌, ◌*◌, Bool, true, false, ◌&&◌, Option, none, some, List, ◌∷◌, ltb, if◌then◌else◌, lookup,
}
use online_observatory.Mission.{is_terminal_state}
use online_observatory.Link.Messages.{
  AgentPosture, capture_object_key, ObservatoryTelemetry, ImageHealth, StateDelta, MissionEvent,
  CommandAck, UploadGrantRequest, CaptureReady, ErrorCode, forbidden, validation_failed,
  cloud_error, cloud_upload_grant, mission_moved, command_answered, capture_recorded,
  telemetry_reported, session_ended, CloseReason, Effect, sends, closes, broadcasts,
  max_upload_bytes, upload_url_ttl_seconds, is_allowed_upload,
}
use online_observatory.Link.Messages.{SessionEnded}
use online_observatory.Mission.{MissionEventOutcome}
use online_observatory.Link.Storage.{
  CaptureRecord, LinkStore, CommandVerdictOutcome, CaptureOutcome,
}
use online_observatory.Link.State.{
  LinkState, awaiting_hello, online, AgentLink, same_posture, same_flag, is_unrecovered,
  fresh_ending, reported_mission, is_ending, is_parked, assets_of, all_granted, closed,
}
use online_observatory.Link.State.{Presign, is_ours}

module _ (S : LinkStore) where
  pub record World : Type 0 where
    pub link : AgentLink
    pub db : S.Db
    pub out : List Effect

  abbrev pub emit : Effect → World → World
  emit e w = record w { out = e ∷ w.out }

  abbrev pub set_link : (AgentLink → AgentLink) → World → World
  set_link f w = record w { link = f w.link }

  abbrev pub set_db : S.Db → World → World
  set_db d w = record w { db = d }

  -- `refuse`
  abbrev pub refuse : World → World
  refuse w = emit (sends (cloud_error forbidden false)) w

  abbrev pub stop : LinkState → CloseReason → World → World
  stop closed reason w = w
  stop awaiting_hello reason w =
      emit (closes reason) (set_link (λ l. record l { state = closed }) w)
  stop online reason w = emit (closes reason) (set_link (λ l. record l { state = closed }) w)

  unfoldable pub terminate : CloseReason → World → World
  terminate reason w = stop w.link.state reason w

  -- Answered with a fatal error, and closed.
  abbrev pub fatal : ErrorCode → CloseReason → World → World
  unfolding terminate
  fatal code reason w = terminate reason (emit (sends (cloud_error code true)) w)

  unfoldable pub apply_posture : AgentPosture → Option ℕ → World → World
  apply_posture p r w =
      if same_posture p r w.link.recorded_posture
      then w
      else set_db (S.record_posture w.link.observatory_id p r w.db)
          (set_link (λ l. record l { recorded_posture = some (p, r) }) w)

  -- The cached answer, or the store's, which is then cached
  abbrev pub answer_ownership : Option Bool → ℕ → World → Bool × World
  answer_ownership (some cached) m w = (cached, w)
  answer_ownership none m w =
      let owned = S.observatory_owns_mission w.link.observatory_id m w.db in
      (owned, set_link (λ l. record l { mission_ownership = (m, owned) ∷ l.mission_ownership }) w)

  unfoldable pub owns_mission : ℕ → World → Bool × World
  owns_mission m w = answer_ownership (lookup m w.link.mission_ownership) m w

  unfoldable pub apply_image_health : ℕ → Option ImageHealth → ℕ → World → World
  apply_image_health m health now w =
      if same_flag (lookup m w.link.image_unrecovered) (is_unrecovered health)
      then w
      else set_db (S.record_image_health w.link.observatory_id m (is_unrecovered health) now w.db) (
          set_link
            (λ l. record l { image_unrecovered = (m, is_unrecovered health) ∷ l.image_unrecovered })
            w)

  -- Only a delta that names its mission reports on the picture.
  abbrev pub note_image_health : Option ℕ → ℕ → Option ImageHealth → ℕ → World → World
  unfolding apply_image_health
  note_image_health none m health now w = w
  note_image_health (some named) m health now w = apply_image_health m health now w

  abbrev pub relay_end : Option SessionEnded → World → World
  relay_end none w = w
  relay_end (some r) w = emit (broadcasts (session_ended r)) w

  -- The park of the mission that is ending ends its session.
  unfoldable pub end_if_parked : ℕ → ObservatoryTelemetry → ℕ → World → World
  end_if_parked m t now w =
      if is_ending m w.link.ending && is_parked t
      then (let (ended, db) = S.end_mission_session m true now w.db in
          relay_end ended (set_db db (set_link (λ l. record l { ending = none }) w)))
      else w

  unfoldable pub relay_delta : ℕ → StateDelta → ℕ → World → World
  unfolding owns_mission note_image_health end_if_parked
  relay_delta m d now w =
      let (owned, w1) = owns_mission m w in
      if owned
      then end_if_parked m d.telemetry now (
          emit (broadcasts (telemetry_reported m d))
            (note_image_health d.mission_id m d.image_health now w1))
      else refuse w1

  unfoldable pub apply_state_delta : StateDelta → ℕ → World → World
  unfolding relay_delta
  apply_state_delta d now w =
      let w1 =
        set_link
          (λ l. record l { telemetry = some d.telemetry; ending = fresh_ending now l.ending }) w in
      elim (reported_mission d.mission_id w1.link.ending) [
        | none ↦ w1
        | some m ↦ relay_delta m d now w1
      ]

  -- A terminal report starts the mission's park.
  abbrev pub note_ending : MissionEvent → ℕ → World → World
  note_ending e now w =
      set_link
        (λ l. record l {
          ending = if is_terminal_state e.state then some (e.mission_id, now) else l.ending;
        })
        w

  abbrev pub relay_event : MissionEventOutcome → MissionEvent → ℕ → World → World
  relay_event MissionEventOutcome.applied e now w =
      emit (broadcasts (mission_moved e.mission_id e.state e.failure_reason)) (note_ending e now w)
  relay_event MissionEventOutcome.recorded e now w = note_ending e now w
  relay_event MissionEventOutcome.wrong_observatory e now w = refuse w
  relay_event MissionEventOutcome.not_found e now w = refuse w

  unfoldable pub apply_mission_event : MissionEvent → ℕ → World → World
  apply_mission_event e now w =
      let (outcome, db) = S.apply_mission_event w.link.observatory_id e w.db in
      relay_event outcome e now (set_db db w)

  abbrev pub relay_verdict : CommandVerdictOutcome → CommandAck → World → World
  relay_verdict CommandVerdictOutcome.recorded k w = emit (broadcasts (command_answered k)) w
  relay_verdict CommandVerdictOutcome.duplicate_ack k w = w
  relay_verdict CommandVerdictOutcome.ignored_stale k w = w
  relay_verdict CommandVerdictOutcome.wrong_observatory k w = refuse w
  relay_verdict CommandVerdictOutcome.not_found k w = refuse w

  unfoldable pub apply_command_ack : CommandAck → (sent_at : ℕ) → World → World
  apply_command_ack k sent_at w =
      let (outcome, db) = S.record_command_verdict w.link.observatory_id k sent_at w.db in
      relay_verdict outcome k (set_db db w)

  unfoldable pub apply_upload_grant_request : Presign → UploadGrantRequest → ℕ → World → World
  apply_upload_grant_request presign q now w =
      let key = capture_object_key w.link.observatory_id q.mission_id q.command_id q.kind in
      if is_ours (S.load_command q.command_id w.db) w.link.observatory_id q.mission_id
      then (if is_allowed_upload q.kind q.content_type
          then (if ltb max_upload_bytes q.content_length
              then emit (sends (cloud_error validation_failed false)) w
              else emit
                  (sends (
                    cloud_upload_grant (record {
                      mission_id = q.mission_id;
                      command_id = q.command_id;
                      kind = q.kind;
                      storage_key = key;
                      url = presign key now q;
                      expires_at = now + upload_url_ttl_seconds * 1000;
                      content_type = q.content_type;
                      content_length = q.content_length;
                    })))
                  w)
          else emit (sends (cloud_error validation_failed false)) w)
      else emit (sends (cloud_error ErrorCode.not_found false)) w

  abbrev pub relay_capture : CaptureOutcome → CaptureReady → World → World
  relay_capture CaptureOutcome.recorded c w =
      emit (broadcasts (capture_recorded c.mission_id c.command_id)) w
  relay_capture CaptureOutcome.duplicate c w = w
  relay_capture CaptureOutcome.not_found c w = refuse w
  relay_capture CaptureOutcome.wrong_observatory c w = refuse w

  -- The row that a report asks for
  abbrev pub capture_record : (observatory_id : ℕ) → CaptureReady → CaptureRecord
  capture_record o c = record {
    observatory_id = o;
    mission_id = c.mission_id;
    command_id = c.command_id;
    captured_at = c.captured_at;
    shot = c.shot;
    target_id = c.target_id;
    assets = assets_of c;
  }

  unfoldable pub apply_capture_ready : CaptureReady → World → World
  apply_capture_ready c w =
      if all_granted w.link.observatory_id c.mission_id c.command_id (assets_of c)
      then (let (outcome, db) = S.record_capture (capture_record w.link.observatory_id c) w.db in
          relay_capture outcome c (set_db db w))
      else refuse w
