-- ===== src/Link/Silence.antt =====
-- What a link that is closed, or has not had its hello, lets through: nothing.
use online_observatory.Common.{ℕ, true, false, List, ◌∷◌, ◌≡◌, refl, inl, inr, Option-cases}
use online_observatory.Link.Messages.{
  Wire, parse_agent_message, AgentToCloudMessage, CloudToAgentMessage, ErrorCode, CloseReason,
  sends, closes, cloud_error,
}
use online_observatory.Link.Storage.{LinkStore}
use online_observatory.Link.State.{Presign, LinkState, online, closed, awaiting_hello, is_online}
use online_observatory.Link.Handlers.{World}
use online_observatory.Link.Conversation.{
  receive_rejected, receive_message, receive, receive_binary, dispatch,
}

module _ (S : LinkStore) where
  closed_message :
      (s : LinkState) (p : Presign) (m : AgentToCloudMessage) (now : ℕ) (w : World S)
      → s ≡ closed
      → receive_message S s p m now w ≡ w
  unfolding receive_message
  closed_message closed p m now w e = refl
  closed_message awaiting_hello p m now w e = absurd (cc)
  closed_message online p m now w e = absurd (cc)

  closed_rejected : (s : LinkState) (w : World S) → s ≡ closed → receive_rejected S s w ≡ w
  unfolding receive_rejected
  closed_rejected closed w e = refl
  closed_rejected awaiting_hello w e = absurd (cc)
  closed_rejected online w e = absurd (cc)

  -- A closed link ignores what arrives, text or binary, and dispatches nothing: the store is as it
  -- was and nothing is put out.
  pub receive-closed :
      (W : Wire) (p : Presign) (raw : W.Raw) (payload : List ℕ) (message : CloudToAgentMessage)
      (now : ℕ) (w : World S)
      → w.link.state ≡ closed
      → (receive S W p raw now w ≡ w)
        × ((receive_binary S payload now w).db ≡ w.db)
        × ((receive_binary S payload now w).out ≡ w.out)
        × (dispatch S message w ≡ (false, w))
  unfolding receive receive_binary dispatch
  receive-closed W p raw payload message now w e =
      let off : is_online w.link.state ≡ false = simp e in
      (
        elim (Option-cases (parse_agent_message W raw)) [
          | inl parsed ↦ rw (receive, parsed) (closed_rejected w.link.state w e)
          | inr (m, parsed) ↦ rw (receive, parsed) (closed_message w.link.state p m now w e)
        ],
        rw off refl,
        rw off refl,
        rw off refl,
      )

  -- A refused opening: the store is as it was, and the agent is told before it is cut off.
  pub record IsCutOff (v w : World S) : Type 0 where
    pub same_db : w.db ≡ v.db
    pub shut : w.link.state ≡ closed
    pub code : ErrorCode
    pub reason : CloseReason
    pub told : w.out ≡ closes reason ∷ sends (cloud_error code true) ∷ v.out
