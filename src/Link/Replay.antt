-- ===== src/Link/Replay.antt =====
-- A message is acted on once, however often the agent replays its queue.
use online_observatory.Common.{
  ℕ, Bool, true, false, none, some, ◌≡◌, refl, inl, inr, Bool-cases, ◌∙◌,
}
use online_observatory.Link.Messages.{
  Wire, parse_agent_message, AgentToCloudMessage, MessageBody, agent_hello, agent_live_frame,
  agent_state_delta, agent_heartbeat, agent_mission_event, agent_command_ack, agent_capture_ready,
  agent_upload_grant_request, agent_error,
}
use online_observatory.Link.Storage.{LinkStore}
use online_observatory.Link.State.{Presign, LinkState, online, closed, awaiting_hello, as_hello}
use online_observatory.Link.Handlers.{World, set_link, set_db}
use online_observatory.Link.Conversation.{
  apply_first, receive_online, receive_hello_or, receive_message, receive,
}
use online_observatory.Link.Ownership.{IsOwned, own_later}
use online_observatory.Link.Ownership.Events.{own_apply_body}
use online_observatory.Link.Reach.{
  Reaches, here, Reaches-Step, text, fresh, IsOwned-now, Reaches-Later,
}

-- The messages whose identity is recorded, of those that do not open the conversation
abbrev pub is_recorded : MessageBody → Bool
is_recorded (agent_hello h) = false
is_recorded (agent_live_frame h) = false
is_recorded (agent_state_delta d) = false
is_recorded (agent_heartbeat p r) = false
is_recorded _ = true

recorded_no_hello : (b : MessageBody) → is_recorded b ≡ true → as_hello b ≡ none
recorded_no_hello (agent_hello h) e = absurd (cc)
recorded_no_hello (agent_live_frame h) e = refl
recorded_no_hello (agent_state_delta d) e = refl
recorded_no_hello (agent_heartbeat p r) e = refl
recorded_no_hello (agent_mission_event d) e = refl
recorded_no_hello (agent_command_ack d) e = refl
recorded_no_hello (agent_capture_ready d) e = refl
recorded_no_hello (agent_upload_grant_request d) e = refl
recorded_no_hello (agent_error d) e = refl

module _ (S : LinkStore) where
  recorded_online :
      (p : Presign) (m : AgentToCloudMessage) (b : MessageBody) (now : ℕ) (w : World S)
      → is_recorded b ≡ true
      → receive_online S p m b now w ≡ apply_first S p m now w
  unfolding receive_online
  recorded_online p m (agent_hello h) now w e = absurd (cc)
  recorded_online p m (agent_live_frame h) now w e = absurd (cc)
  recorded_online p m (agent_state_delta d) now w e = absurd (cc)
  recorded_online p m (agent_heartbeat q r) now w e = absurd (cc)
  recorded_online p m (agent_mission_event d) now w e = refl
  recorded_online p m (agent_command_ack d) now w e = refl
  recorded_online p m (agent_capture_ready d) now w e = refl
  recorded_online p m (agent_upload_grant_request d) now w e = refl
  recorded_online p m (agent_error d) now w e = refl

  abbrev pub touched : ℕ → World S → World S
  touched now w = set_link S (λ l. record l { last_activity_at = now }) w

  recorded_message :
      (s : LinkState) (p : Presign) (m : AgentToCloudMessage) (now : ℕ) (w : World S)
      → s ≡ online
      → is_recorded m.body ≡ true
      → receive_message S s p m now w ≡ apply_first S p m now (touched now w)
  unfolding receive_message
  recorded_message awaiting_hello p m now w on e = absurd (cc)
  recorded_message closed p m now w on e = absurd (cc)
  recorded_message online p m now w on e =
      rw (receive_hello_or, recorded_no_hello m.body e)
        (recorded_online p m m.body now (touched now w) e)

  -- A recorded message of an ONLINE link goes through `record`.
  recorded_receive :
      (W : Wire) (p : Presign) (raw : W.Raw) (m : AgentToCloudMessage) (now : ℕ) (w : World S)
      → parse_agent_message W raw ≡ some m
      → is_recorded m.body ≡ true
      → w.link.state ≡ online
      → receive S W p raw now w ≡ apply_first S p m now (touched now w)
  unfolding receive
  recorded_receive W p raw m now w parsed e on =
      rw (receive, parsed) (recorded_message w.link.state p m now w on e)

  apply_first_seen :
      (p : Presign) (m : AgentToCloudMessage) (now : ℕ) (w : World S)
      → S.seen m.message_id w.db ≡ true
      → apply_first S p m now w ≡ w
  unfolding apply_first
  apply_first_seen p m now w seen =
      let (answer, now_seen, same) = S.first_sighting m.message_id w.link.observatory_id w.db in
      rw (answer, seen, same seen) refl

  apply_first_remembers :
      (o : ℕ) (p : Presign) (m : AgentToCloudMessage) (now : ℕ) (w : World S)
      → IsOwned S o w.db w
      → S.seen m.message_id (apply_first S p m now w).db ≡ true
  unfolding apply_first
  apply_first_remembers o p m now w h =
      let id = w.link.observatory_id in
      let d = (S.record_inbound_message m.message_id id w.db).1 in
      let (answer, now_seen, same) = S.first_sighting m.message_id id w.db in
      let h1 = own_later S o w.db w d (S.record_inbound_message_later m.message_id id w.db) h in
      let h2 : IsOwned S o d (set_db S d w) = record {
        cached = h1.cached;
        told = h1.told;
        since = S.later_refl d;
        same_id = h1.same_id;
      } in
      elim (Bool-cases (S.record_inbound_message m.message_id id w.db).0) [
        | inr e ↦ rw e now_seen
        | inl e ↦ rw e (
            S.later_seen m.message_id d _
              (own_apply_body S o d p m.sent_at m.body now (set_db S d w) h2).since now_seen)
      ]

  -- What becomes of the service after a moment: the link goes on, or at some moment the agent
  -- connects again and a new link begins, over whatever the store has become by then; any number of
  -- times.
  pub data Continues (W : Wire) (p : Presign) : World S → World S → Type 0 where
    same_link : (v w : World S) → Reaches S W p v w → Continues W p v w
    reconnected :
        (v u w : World S) (o mode t : ℕ) (d : S.Db)
        → Reaches S W p v u
        → S.Later u.db d
        → Continues W p (fresh S W p o mode t d) w
        → Continues W p v w

  Continues-Later :
      (W : Wire) (p : Presign) (o mode t : ℕ) (d : S.Db) (v w : World S)
      → Reaches S W p (fresh S W p o mode t d) v
      → Continues W p v w
      → S.Later v.db w.db
  Continues-Later W p o mode t d _ _ before (same_link v w r) =
      Reaches-Later S W p o mode t d v w before r
  Continues-Later W p o mode t d _ _ before (reconnected v u w o' mode' t' d' r changed rest) =
      S.later_trans v.db u.db w.db (Reaches-Later S W p o mode t d v u before r) (
        S.later_trans u.db d' w.db changed (
          Continues-Later W p o' mode' t' d' (fresh S W p o' mode' t' d') w
            (here (fresh S W p o' mode' t' d')) rest))

  -- When an ONLINE link has received a recorded message, then whatever happens to it and to the store
  -- afterwards, and however often the agent connects again, a later recorded message of the same id,
  -- on this link or a new one that is ONLINE, changes nothing but the time of the link's last
  -- activity: nothing is put out, and the store is as it was.
  pub receive_replayed :
      (W : Wire) (p : Presign) (o mode t : ℕ) (d : S.Db) (v w : World S) (raw raw' : W.Raw)
      (m m' : AgentToCloudMessage) (now now' : ℕ)
      → Reaches S W p (fresh S W p o mode t d) v
      → v.link.state ≡ online
      → parse_agent_message W raw ≡ some m
      → is_recorded m.body ≡ true
      → Continues W p (receive S W p raw now v) w
      → w.link.state ≡ online
      → parse_agent_message W raw' ≡ some m'
      → is_recorded m'.body ≡ true
      → m'.message_id ≡ m.message_id
      → receive S W p raw' now' w ≡ touched now' w
  receive_replayed W p o mode t d v w raw raw' m m' now now' reached on parsed kept r on' parsed'
        kept' same =
      let h = IsOwned-now S W p o mode t d v reached in
      let h1 : IsOwned S o v.db (touched now v) = record {
        cached = h.cached;
        told = h.told;
        since = h.since;
        same_id = h.same_id;
      } in
      let seen = apply_first_remembers o p m now (touched now v) h1 in
      let after = recorded_receive W p raw m now v parsed kept on in
      let seen' : S.seen m.message_id (receive S W p raw now v).db ≡ true = rw after seen in
      let later =
        Continues-Later W p o mode t d (receive S W p raw now v) w
          (Reaches-Step S W p _ v _ reached (text raw now v)) r in
      recorded_receive W p raw' m' now' w parsed' kept' on'
      ∙ apply_first_seen p m' now' (touched now' w)
          (rw same (S.later_seen m.message_id _ w.db later seen'))
