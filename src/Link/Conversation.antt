-- ===== src/Link/Conversation.antt =====
-- One agent's conversation with the cloud: what `AgentLink` of
-- apps/realtime/src/link/agent-link.ts does with each message, frame and call.
use online_observatory.Common.{
  ℕ, Bool, true, false, Option, none, some, List, ◌==◌, if◌then◌else◌, length,
}
use online_observatory.Link.Messages.{
  LiveFrameHeader, Hello, MessageBody, agent_live_frame, agent_state_delta, agent_heartbeat,
  agent_mission_event, agent_command_ack, agent_capture_ready, agent_upload_grant_request,
  AgentToCloudMessage, bad_request, forbidden, internal, CloudToAgentMessage, cloud_error,
  cloud_welcome, cloud_session_revoked, live_frame_arrived, unsupported_protocol_version,
  message_before_hello, observatory_mismatch, heartbeat_lost, sends, broadcasts,
  protocol_version_spoken, Wire, parse_agent_message,
}
use online_observatory.Link.Storage.{LinkStore, ResumeOutcome}
use online_observatory.Link.State.{LinkState, is_online, awaiting_hello, online, closed}
use online_observatory.Link.Handlers.{
  World, emit, set_link, set_db, refuse, terminate, fatal, apply_posture, owns_mission,
  apply_state_delta, apply_mission_event, apply_command_ack, apply_upload_grant_request,
  apply_capture_ready,
}
use online_observatory.Link.State.{as_hello}
use online_observatory.Link.State.{Presign}

module _ (S : LinkStore) where
  -- `apply`: what an inbound message means. AGENT_ERROR is only recorded.
  unfoldable pub apply_body : Presign → (sent_at : ℕ) → MessageBody → ℕ → World S → World S
  unfolding apply_mission_event apply_command_ack apply_capture_ready apply_upload_grant_request
  apply_body presign sent_at (agent_mission_event e) now w = apply_mission_event S e now w
  apply_body presign sent_at (agent_command_ack k) now w = apply_command_ack S k sent_at w
  apply_body presign sent_at (agent_capture_ready c) now w = apply_capture_ready S c w
  apply_body presign sent_at (agent_upload_grant_request q) now w =
      apply_upload_grant_request S presign q now w
  apply_body presign sent_at _ now w = w

  abbrev pub tell_revoked : (held : Option ℕ) → World S → World S
  tell_revoked none w = w
  tell_revoked (some m) w = emit S (sends (cloud_session_revoked m)) w

  -- What the agent is told of the mission it came back with
  abbrev pub answer_resume : Option ResumeOutcome → (held : Option ℕ) → World S → World S
  answer_resume none held w = w
  answer_resume (some ResumeOutcome.still_live) held w = w
  answer_resume (some ResumeOutcome.wrong_observatory) held w = refuse S w
  answer_resume (some ResumeOutcome.not_found) held w = refuse S w
  answer_resume (some ResumeOutcome.resolved) held w = tell_revoked held w
  answer_resume (some ResumeOutcome.not_live) held w = tell_revoked held w

  unfoldable pub handle_hello : (message_id : ℕ) → Hello → ℕ → World S → World S
  unfolding apply_posture
  handle_hello i h now w =
      if h.protocol_version == protocol_version_spoken
      then (if h.observatory_id == w.link.observatory_id
          then (let (first, db1) = S.record_inbound_message i w.link.observatory_id w.db in
              let w1 = set_db S db1 (set_link S (λ l. record l { state = online }) w) in
              let (resumed, db2) =
                S.mark_link_up w.link.observatory_id h.booted_at h.resume_mission_id now w1.db in
              let w2 = apply_posture S h.posture h.disarm_reason (set_db S db2 w1) in
              answer_resume resumed h.resume_mission_id (
                emit S (sends (cloud_welcome (S.live_mission_id w2.link.observatory_id w2.db))) w2))
          else fatal S forbidden observatory_mismatch w)
      else fatal S bad_request unsupported_protocol_version w

  -- `record`, then `apply` on the first sighting only
  unfoldable pub apply_first : Presign → AgentToCloudMessage → ℕ → World S → World S
  unfolding apply_body
  apply_first presign m now w =
      let (first, db) = S.record_inbound_message m.message_id w.link.observatory_id w.db in
      if first then apply_body presign m.sent_at m.body now (set_db S db w) else set_db S db w

  -- A message of an ONLINE link that is no hello. The identity of a frame, of a sample and of a
  -- heartbeat is not recorded.
  unfoldable pub receive_online :
      Presign → AgentToCloudMessage → MessageBody → ℕ → World S → World S
  unfolding apply_state_delta apply_posture apply_first
  receive_online presign m (agent_live_frame h) now w =
      set_link S (λ l. record l { awaiting_pixels = some h }) w
  receive_online presign m (agent_state_delta d) now w = apply_state_delta S d now w
  receive_online presign m (agent_heartbeat p r) now w = apply_posture S p r w
  receive_online presign m _ now w = apply_first presign m now w

  -- A message that does not parse
  unfoldable pub receive_rejected : LinkState → World S → World S
  unfolding terminate
  receive_rejected closed w = w
  receive_rejected awaiting_hello w = fatal S bad_request unsupported_protocol_version w
  receive_rejected online w =
      emit S (sends (cloud_error bad_request false))
        (set_link S (λ l. record l { awaiting_pixels = none }) w)

  unfoldable pub receive_hello_or :
      (otherwise : World S → World S) → AgentToCloudMessage → ℕ → World S → World S
  unfolding handle_hello
  receive_hello_or otherwise m now w =
      let w1 = set_link S (λ l. record l { last_activity_at = now }) w in
      elim (as_hello m.body) [ some h ↦ handle_hello m.message_id h now w1 | none ↦ otherwise w1 ]

  -- One that does
  unfoldable pub receive_message : LinkState → Presign → AgentToCloudMessage → ℕ → World S → World S
  unfolding terminate receive_online receive_hello_or
  receive_message closed presign m now w = w
  receive_message awaiting_hello presign m now w =
      receive_hello_or (λ v. fatal S bad_request message_before_hello v) m now w
  receive_message online presign m now w =
      receive_hello_or (λ v. receive_online presign m m.body now v) m now w

  -- `receive`
  unfoldable pub receive : (W : Wire) → Presign → W.Raw → ℕ → World S → World S
  unfolding receive_rejected receive_message
  receive W presign raw now w = elim (parse_agent_message W raw) [
    | none ↦ receive_rejected w.link.state w
    | some m ↦ receive_message w.link.state presign m now w
  ]

  -- The pixels of the header that came just before
  unfoldable pub show_frame : LiveFrameHeader → List ℕ → ℕ → World S → World S
  unfolding owns_mission
  show_frame h payload now w =
      if length payload == h.byte_length
      then (let (owned, w1) = owns_mission S h.mission_id w in
          if owned
          then emit S
              (broadcasts (
                live_frame_arrived (record {
                  frame_header = h;
                  observatory_id = w1.link.observatory_id;
                  frame_mode = w1.link.mode;
                  bytes = payload;
                  received_at = now;
                })))
              w1
          else refuse S w1)
      else w

  unfoldable pub pair_frame : Option LiveFrameHeader → List ℕ → ℕ → World S → World S
  unfolding show_frame
  pair_frame none payload now w = w
  pair_frame (some h) payload now w =
      show_frame h payload now (set_link S (λ l. record l { last_activity_at = now }) w)

  -- `receiveBinary`: the header is consumed first, whatever comes of it.
  unfoldable pub receive_binary : List ℕ → ℕ → World S → World S
  unfolding pair_frame
  receive_binary payload now w =
      let w1 = set_link S (λ l. record l { awaiting_pixels = none }) w in
      if is_online w.link.state then pair_frame w.link.awaiting_pixels payload now w1 else w1

  unfoldable pub dispatch : CloudToAgentMessage → World S → Bool × World S
  dispatch message w =
      if is_online w.link.state then (true, emit S (sends message) w) else (false, w)

  unfoldable pub expire : ℕ → World S → World S
  unfolding terminate
  expire now w =
      let w1 = fatal S internal heartbeat_lost w in
      set_db S (S.mark_link_lost w1.link.observatory_id now w1.db) w1
