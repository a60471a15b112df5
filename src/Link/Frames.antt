-- ===== src/Link/Frames.antt =====
-- A frame's pixels go out under the header that came just before them, or not at all.
use mathlib.Core.Path.{subst}
use online_observatory.Common.{
  ℕ, Bool, true, Option, none, some, List, ◌∷◌, ◌≡◌, ◌≢◌, refl, inl, inr, Bool-cases, length,
  lookup, ◌==◌, ==_iff, sym, ◌∙◌,
}
use online_observatory.Link.Messages.{
  Wire, parse_agent_message, AgentToCloudMessage, LiveFrameHeader, agent_live_frame, broadcasts,
  live_frame_arrived, LiveFrame,
}
use online_observatory.Link.Storage.{LinkStore}
use online_observatory.Link.State.{Presign, LinkState, online, closed, awaiting_hello, is_online}
use online_observatory.Link.Handlers.{World, set_link, owns_mission, answer_ownership}
use online_observatory.Link.Conversation.{
  receive_online, receive_hello_or, receive_message, receive, show_frame, pair_frame,
  receive_binary,
}

module _ (S : LinkStore) where
  header_kept :
      (s : LinkState) (p : Presign) (m : AgentToCloudMessage) (h : LiveFrameHeader) (now : ℕ)
      (w : World S)
      → s ≡ online
      → m.body ≡ agent_live_frame h
      → receive_message S s p m now w
        ≡ set_link S (λ l. record l { last_activity_at = now; awaiting_pixels = some h }) w
  unfolding receive_message receive_online
  header_kept closed p m h now w e is = absurd (cc)
  header_kept awaiting_hello p m h now w e is = absurd (cc)
  header_kept online p m h now w e is =
      let w1 = set_link S (λ l. record l { last_activity_at = now }) w in
      rw (receive_hello_or, is)
        (subst
          (λ b.
            receive_online S p m b now w1
            ≡ set_link S (λ l. record l { awaiting_pixels = some h }) w1)
          (sym is) refl)

  answer_keeps :
      (a : Option Bool) (k : ℕ) (w : World S)
      → ((answer_ownership S a k w).1.link.awaiting_pixels ≡ w.link.awaiting_pixels)
        × ((answer_ownership S a k w).1.out ≡ w.out)
        × ((answer_ownership S a k w).1.link.observatory_id ≡ w.link.observatory_id)
        × ((answer_ownership S a k w).1.link.mode ≡ w.link.mode)
  answer_keeps none k w = (refl, refl, refl, refl)
  answer_keeps (some c) k w = (refl, refl, refl, refl)

  -- No header is left when a binary frame has been taken.
  no_header_left :
      (g : Option LiveFrameHeader) (payload : List ℕ) (now : ℕ) (w : World S)
      → w.link.awaiting_pixels ≡ none
      → (pair_frame S g payload now w).link.awaiting_pixels ≡ none
  unfolding pair_frame show_frame owns_mission
  no_header_left none payload now w e = e
  no_header_left (some h) payload now w e =
      let w1 = set_link S (λ l. record l { last_activity_at = now }) w in
      let a = lookup h.mission_id w.link.mission_ownership in
      let kept = (answer_keeps a h.mission_id w1).0 in
      elim (Bool-cases (length payload == h.byte_length)) [
        | inr short ↦ rw short e
        | inl fits ↦ elim (Bool-cases (answer_ownership S a h.mission_id w1).0) [
          | inr other ↦ rw (fits, other, kept) e
          | inl ours ↦ rw (fits, ours, kept) e
        ]
      ]

  binary_takes_header :
      (payload : List ℕ) (now : ℕ) (w : World S)
      → (receive_binary S payload now w).link.awaiting_pixels ≡ none
  unfolding receive_binary
  binary_takes_header payload now w =
      let w1 = set_link S (λ l. record l { awaiting_pixels = none }) w in
      elim (Bool-cases (is_online w.link.state)) [
        | inr off ↦ rw off refl
        | inl on ↦ rw on (no_header_left w.link.awaiting_pixels payload now w1 refl)
      ]

  unpaired_pair :
      (g : Option LiveFrameHeader) (payload : List ℕ) (now : ℕ) (w : World S)
      → g ≡ none
      → (pair_frame S g payload now w).out ≡ w.out
  unfolding pair_frame
  unpaired_pair none payload now w e = refl
  unpaired_pair (some h) payload now w e = absurd (cc)

  unpaired_dropped :
      (payload : List ℕ) (now : ℕ) (w : World S)
      → w.link.awaiting_pixels ≡ none
      → (receive_binary S payload now w).out ≡ w.out
  unfolding receive_binary
  unpaired_dropped payload now w e =
      let w1 = set_link S (λ l. record l { awaiting_pixels = none }) w in
      elim (Bool-cases (is_online w.link.state)) [
        | inr off ↦ rw off refl
        | inl on ↦ rw on (unpaired_pair w.link.awaiting_pixels payload now w1 e)
      ]

  -- The frame as it goes out
  abbrev pub frame_of : World S → LiveFrameHeader → List ℕ → ℕ → LiveFrame
  frame_of w h payload now = record {
    frame_header = h;
    observatory_id = w.link.observatory_id;
    frame_mode = w.link.mode;
    bytes = payload;
    received_at = now;
  }

  shown :
      (h : LiveFrameHeader) (payload : List ℕ) (now : ℕ) (w : World S)
      → (length payload ≡ h.byte_length
          → (owns_mission S h.mission_id w).0 ≡ true
          → (show_frame S h payload now w).out
            ≡ broadcasts (live_frame_arrived (frame_of w h payload now)) ∷ w.out)
        × (length payload ≢ h.byte_length → (show_frame S h payload now w).out ≡ w.out)
  unfolding show_frame owns_mission
  shown h payload now w =
      let a = lookup h.mission_id w.link.mission_ownership in
      let (pixels, out, id, mode) = answer_keeps a h.mission_id w in
      (
        λ fits ours. rw ((==_iff _ _).1 fits, ours, out, id, mode) refl,
        λ short. elim (Bool-cases (length payload == h.byte_length)) [
          | inl fits ↦ absurd (short ((==_iff _ _).0 fits))
          | inr e ↦ rw e refl
        ],
      )

  binary_online :
      (payload : List ℕ) (now : ℕ) (w : World S)
      → is_online w.link.state ≡ true
      → receive_binary S payload now w
        ≡ pair_frame S w.link.awaiting_pixels payload now
            (set_link S (λ l. record l { awaiting_pixels = none }) w)
  unfolding receive_binary
  binary_online payload now w on = rw on refl

  -- The link after the header's text and the consumption of the header
  abbrev taken : (at now : ℕ) → LiveFrameHeader → World S → World S
  taken at now h w =
      set_link S (λ l. record l { last_activity_at = now; awaiting_pixels = none })
        (set_link S (λ l. record l { last_activity_at = at; awaiting_pixels = some h }) w)

  answer-taken :
      (a : Option Bool) (k at now : ℕ) (h : LiveFrameHeader) (w : World S)
      → (answer_ownership S a k (taken at now h w)).0 ≡ (answer_ownership S a k w).0
  answer-taken none k at now h w = refl
  answer-taken (some c) k at now h w = refl

  -- A header is followed by its pixels: when the lengths agree and the mission is the observatory's
  -- they go out as one frame, with the mode of the observatory's row and not the agent's account;
  -- when the lengths differ nothing goes out; a second binary frame never does.
  pub receive_binary-receive :
      (W : Wire) (p : Presign) (raw : W.Raw) (m : AgentToCloudMessage) (h : LiveFrameHeader)
      (payload second : List ℕ) (at now later : ℕ) (w : World S)
      → w.link.state ≡ online
      → parse_agent_message W raw ≡ some m
      → m.body ≡ agent_live_frame h
      → (length payload ≡ h.byte_length
          → (owns_mission S h.mission_id w).0 ≡ true
          → (receive_binary S payload now (receive S W p raw at w)).out
            ≡ broadcasts (live_frame_arrived (frame_of w h payload now)) ∷ w.out)
        × (length payload ≢ h.byte_length
            → (receive_binary S payload now (receive S W p raw at w)).out ≡ w.out)
        × ((receive_binary S second later
              (receive_binary S payload now (receive S W p raw at w))).out
            ≡ (receive_binary S payload now (receive S W p raw at w)).out)
  unfolding receive owns_mission pair_frame
  receive_binary-receive W p raw m h payload second at now later w on parsed is =
      let w1 = set_link S (λ l. record l { last_activity_at = at; awaiting_pixels = some h }) w in
      let kept : receive S W p raw at w ≡ w1 =
        rw (receive, parsed) (header_kept w.link.state p m h at w on is) in
      let w2 = taken at now h w in
      let shows : receive_binary S payload now w1 ≡ show_frame S h payload now w2 =
        binary_online payload now w1 (simp on) in
      let same =
        answer-taken (lookup h.mission_id w.link.mission_ownership) h.mission_id at now h w in
      let (goes, stays) = shown h payload now w2 in
      rw (kept, shows)
        (
          λ fits ours. goes fits (same ∙ ours),
          stays,
          unpaired_dropped second later (show_frame S h payload now w2)
              (no_header_left (some h) payload now (taken at at h w) refl),
        )
