-- ===== src/Link/Ownership/Events.antt =====
-- Each event keeps to the observatory's missions.
use online_observatory.Common.{
  ℕ, ◌==◌, Option, none, some, List, refl, inl, inr, Bool-cases, Option-cases, lookup, length,
}
use online_observatory.Link.Messages.{
  Wire, parse_agent_message, sends, CloudToAgentMessage, AgentToCloudMessage, forbidden, Hello,
  LiveFrameHeader, MessageBody, agent_hello, agent_live_frame, agent_state_delta, agent_heartbeat,
  agent_mission_event, agent_command_ack, agent_capture_ready, agent_upload_grant_request,
  agent_error, cloud_session_revoked, protocol_version_spoken, bad_request,
  unsupported_protocol_version, observatory_mismatch, message_before_hello, internal,
  heartbeat_lost,
}
use online_observatory.Link.Storage.{LinkStore, ResumeOutcome}
use online_observatory.Link.State.{
  Presign, LinkState, closed, awaiting_hello, online, is_online, as_hello,
}
use online_observatory.Link.Handlers.{
  World, set_link, set_db, answer_ownership, owns_mission, apply_mission_event, apply_command_ack,
}
use online_observatory.Link.Conversation.{
  answer_resume, tell_revoked, handle_hello, receive_online, receive_rejected, receive_message,
  receive, show_frame, pair_frame, receive_binary, dispatch, expire,
}
use online_observatory.Link.Ownership.Relays.{
  own_apply_state_delta, own_relay_event, own_relay_verdict, own_apply_capture_ready, own_grant,
}
use online_observatory.Link.Conversation.{apply_body, apply_first, receive_hello_or}
use online_observatory.Link.Ownership.{
  IsOwned, own_later, own_emit, own_refuse, own_fatal, own_apply_posture, own_answer,
}

module _ (S : LinkStore) (o : ℕ) (base : S.Db) where
  pub own_apply_body :
      (p : Presign) (t : ℕ) (b : MessageBody) (now : ℕ) (w : World S)
      → IsOwned S o base w
      → IsOwned S o base (apply_body S p t b now w)
  unfolding apply_body apply_mission_event apply_command_ack
  own_apply_body p t (agent_mission_event e) now w h =
      let id = w.link.observatory_id in
      let later = S.apply_mission_event_later id e w.db in
      own_relay_event S o base (S.apply_mission_event id e w.db).0 e now
        (set_db S (S.apply_mission_event id e w.db).1 w)
        (λ is. S.later_owns id e.mission_id w.db _ later (S.applied_owns id e w.db is))
        (own_later S o base w _ later h)
  own_apply_body p t (agent_command_ack k) now w h =
      let id = w.link.observatory_id in
      let later = S.record_command_verdict_later id k t w.db in
      own_relay_verdict S o base (S.record_command_verdict id k t w.db).0 k
        (set_db S (S.record_command_verdict id k t w.db).1 w)
        (λ is. S.later_minted id k.command_id w.db _ later (S.verdict_minted id k t w.db is))
        (own_later S o base w _ later h)
  own_apply_body p t (agent_capture_ready c) now w h = own_apply_capture_ready S o base c w h
  own_apply_body p t (agent_upload_grant_request q) now w h = own_grant S o base p q now w h
  own_apply_body p t (agent_hello g) now w h = h
  own_apply_body p t (agent_live_frame g) now w h = h
  own_apply_body p t (agent_state_delta g) now w h = h
  own_apply_body p t (agent_heartbeat q r) now w h = h
  own_apply_body p t (agent_error g) now w h = h

  own_apply_first :
      (p : Presign) (m : AgentToCloudMessage) (now : ℕ) (w : World S)
      → IsOwned S o base w
      → IsOwned S o base (apply_first S p m now w)
  unfolding apply_first
  own_apply_first p m now w h =
      let id = w.link.observatory_id in
      let h1 = own_later S o base w _ (S.record_inbound_message_later m.message_id id w.db) h in
      elim (Bool-cases (S.record_inbound_message m.message_id id w.db).0) [
        | inl e ↦ rw e (own_apply_body p m.sent_at m.body now _ h1)
        | inr e ↦ rw e h1
      ]

  own_receive_online :
      (p : Presign) (m : AgentToCloudMessage) (b : MessageBody) (now : ℕ) (w : World S)
      → IsOwned S o base w
      → IsOwned S o base (receive_online S p m b now w)
  unfolding receive_online
  own_receive_online p m (agent_live_frame g) now w h = record {
    cached = h.cached;
    told = h.told;
    since = h.since;
    same_id = h.same_id;
  }
  own_receive_online p m (agent_state_delta d) now w h = own_apply_state_delta S o base d now w h
  own_receive_online p m (agent_heartbeat q r) now w h = own_apply_posture S o base q r w h
  own_receive_online p m (agent_hello g) now w h = own_apply_first p m now w h
  own_receive_online p m (agent_mission_event g) now w h = own_apply_first p m now w h
  own_receive_online p m (agent_command_ack g) now w h = own_apply_first p m now w h
  own_receive_online p m (agent_capture_ready g) now w h = own_apply_first p m now w h
  own_receive_online p m (agent_upload_grant_request g) now w h = own_apply_first p m now w h
  own_receive_online p m (agent_error g) now w h = own_apply_first p m now w h

  own_revoked :
      (held : Option ℕ) (w : World S)
      → IsOwned S o base w
      → IsOwned S o base (tell_revoked S held w)
  own_revoked none w h = h
  own_revoked (some m) w h = own_emit S o base w (sends (cloud_session_revoked m)) tt h

  own_answer_resume :
      (r : Option ResumeOutcome) (held : Option ℕ) (w : World S)
      → IsOwned S o base w
      → IsOwned S o base (answer_resume S r held w)
  own_answer_resume none held w h = h
  own_answer_resume (some ResumeOutcome.still_live) held w h = h
  own_answer_resume (some ResumeOutcome.wrong_observatory) held w h = own_refuse S o base w h
  own_answer_resume (some ResumeOutcome.not_found) held w h = own_refuse S o base w h
  own_answer_resume (some ResumeOutcome.resolved) held w h = own_revoked held w h
  own_answer_resume (some ResumeOutcome.not_live) held w h = own_revoked held w h

  own_handle_hello :
      (i : ℕ) (g : Hello) (now : ℕ) (w : World S)
      → IsOwned S o base w
      → IsOwned S o base (handle_hello S i g now w)
  unfolding handle_hello
  own_handle_hello i g now w h = elim (Bool-cases (g.protocol_version == protocol_version_spoken)) [
    | inr e ↦ rw e (own_fatal S o base bad_request unsupported_protocol_version w h)
    | inl e ↦ elim (Bool-cases (g.observatory_id == w.link.observatory_id)) [
      | inr e2 ↦ rw (e, e2) (own_fatal S o base forbidden observatory_mismatch w h)
      | inl e2 ↦
          let id = w.link.observatory_id in
          let w0 = set_link S (λ l. record l { state = online }) w in
          let h0 : IsOwned S o base w0 = record {
            cached = h.cached;
            told = h.told;
            since = h.since;
            same_id = h.same_id;
          } in
          let h1 = own_later S o base w0 _ (S.record_inbound_message_later i id w.db) h0 in
          let up =
            S.mark_link_up_later id g.booted_at g.resume_mission_id now
              (S.record_inbound_message i id w.db).1 in
          let h2 =
            own_apply_posture S o base g.posture g.disarm_reason _ (own_later S o base _ _ up h1) in
          rw (e, e2) (own_answer_resume _ g.resume_mission_id _ (own_emit S o base _ _ tt h2))
    ]
  ]

  own_receive_hello_or :
      (k : World S → World S) (m : AgentToCloudMessage) (now : ℕ) (w : World S)
      → ((v : World S) → IsOwned S o base v → IsOwned S o base (k v))
      → IsOwned S o base w
      → IsOwned S o base (receive_hello_or S k m now w)
  unfolding receive_hello_or
  own_receive_hello_or k m now w own h =
      let w1 = set_link S (λ l. record l { last_activity_at = now }) w in
      let h1 : IsOwned S o base w1 = record {
        cached = h.cached;
        told = h.told;
        since = h.since;
        same_id = h.same_id;
      } in
      elim (Option-cases (as_hello m.body)) [
        | inl e ↦ rw (receive_hello_or, e) (own w1 h1)
        | inr (g, e) ↦ rw (receive_hello_or, e) (own_handle_hello m.message_id g now w1 h1)
      ]

  own_receive_message :
      (s : LinkState) (p : Presign) (m : AgentToCloudMessage) (now : ℕ) (w : World S)
      → IsOwned S o base w
      → IsOwned S o base (receive_message S s p m now w)
  unfolding receive_message
  own_receive_message closed p m now w h = h
  own_receive_message awaiting_hello p m now w h =
      own_receive_hello_or _ m now w
        (λ v own. own_fatal S o base bad_request message_before_hello v own) h
  own_receive_message online p m now w h =
      own_receive_hello_or _ m now w (λ v own. own_receive_online p m m.body now v own) h

  own_receive_rejected :
      (s : LinkState) (w : World S) → IsOwned S o base w → IsOwned S o base (receive_rejected S s w)
  unfolding receive_rejected
  own_receive_rejected closed w h = h
  own_receive_rejected awaiting_hello w h =
      own_fatal S o base bad_request unsupported_protocol_version w h
  own_receive_rejected online w h = record {
    cached = h.cached;
    told = (tt, h.told);
    since = h.since;
    same_id = h.same_id;
  }

  pub own_receive :
      (W : Wire) (p : Presign) (raw : W.Raw) (now : ℕ) (w : World S)
      → IsOwned S o base w
      → IsOwned S o base (receive S W p raw now w)
  unfolding receive
  own_receive W p raw now w h = elim (Option-cases (parse_agent_message W raw)) [
    | inl e ↦ rw (receive, e) (own_receive_rejected w.link.state w h)
    | inr (m, e) ↦ rw (receive, e) (own_receive_message w.link.state p m now w h)
  ]

  own_show_frame :
      (g : LiveFrameHeader) (bytes : List ℕ) (now : ℕ) (w : World S)
      → IsOwned S o base w
      → IsOwned S o base (show_frame S g bytes now w)
  unfolding show_frame owns_mission
  own_show_frame g bytes now w h = elim (Bool-cases (length bytes == g.byte_length)) [
    | inr e ↦ rw e h
    | inl e ↦
        let a = lookup g.mission_id w.link.mission_ownership in
        let w1 = (answer_ownership S a g.mission_id w).1 in
        let (h1, if_owned, same_db, same_id, same_ending) =
          own_answer S o base a g.mission_id w refl h in
        elim (Bool-cases (answer_ownership S a g.mission_id w).0) [
          | inr e2 ↦ rw (e, e2) (own_refuse S o base w1 h1)
          | inl e2 ↦
              rw (e, e2) (own_emit S o base w1 _ (rw (same_db, same_id) (if_owned e2), refl) h1)
        ]
  ]

  own_pair_frame :
      (g : Option LiveFrameHeader) (bytes : List ℕ) (now : ℕ) (w : World S)
      → IsOwned S o base w
      → IsOwned S o base (pair_frame S g bytes now w)
  unfolding pair_frame
  own_pair_frame none bytes now w h = h
  own_pair_frame (some g) bytes now w h =
      own_show_frame g bytes now _
        (record { cached = h.cached; told = h.told; since = h.since; same_id = h.same_id })

  pub own_receive_binary :
      (bytes : List ℕ) (now : ℕ) (w : World S)
      → IsOwned S o base w
      → IsOwned S o base (receive_binary S bytes now w)
  unfolding receive_binary
  own_receive_binary bytes now w h =
      let w1 = set_link S (λ l. record l { awaiting_pixels = none }) w in
      let h1 : IsOwned S o base w1 = record {
        cached = h.cached;
        told = h.told;
        since = h.since;
        same_id = h.same_id;
      } in
      elim (Bool-cases (is_online w.link.state)) [
        | inr e ↦ rw e h1
        | inl e ↦ rw e (own_pair_frame w.link.awaiting_pixels bytes now w1 h1)
      ]

  pub own_dispatch :
      (m : CloudToAgentMessage) (w : World S)
      → IsOwned S o base w
      → IsOwned S o base (dispatch S m w).1
  unfolding dispatch
  own_dispatch m w h = elim (Bool-cases (is_online w.link.state)) [
    | inr e ↦ rw e h
    | inl e ↦ rw e (own_emit S o base w (sends m) tt h)
  ]

  pub own_expire : (now : ℕ) (w : World S) → IsOwned S o base w → IsOwned S o base (expire S now w)
  unfolding expire
  own_expire now w h =
      let h1 = own_fatal S o base internal heartbeat_lost w h in
      own_later S o base _ _ (S.mark_link_lost_later _ now _) h1
