-- ===== src/Link/Ownership.antt =====
-- Whatever a link puts out is about its own observatory's missions: the invariant, and the steps
-- that keep it.
pub mod Relays
pub mod Events
use online_observatory.Common.{
  ==_iff, ℕ, ◌==◌, Bool, true, false, Option, none, some, List, [], ◌∷◌, ◌≡◌, refl, inl, inr, All,
  arith, sym, Bool-cases, Option-cases, lookup, length,
}
use online_observatory.Link.Messages.{
  Wire, parse_agent_message, Effect, sends, closes, broadcasts, Broadcast, mission_moved,
  command_answered, capture_recorded, telemetry_reported, session_ended, live_frame_arrived,
  CloudToAgentMessage, AgentToCloudMessage, AgentPosture, StateDelta, MissionEvent, CommandAck,
  cloud_error, forbidden, CaptureReady, UploadGrantRequest, CloseReason, ErrorCode, Hello,
  LiveFrameHeader, ObservatoryTelemetry, ImageHealth,
}
use online_observatory.Mission.{MissionEventOutcome}
use online_observatory.Link.Storage.{
  LinkStore, is_minted_for, ResumeOutcome, CommandVerdictOutcome, CaptureOutcome,
}
use online_observatory.Link.State.{
  AgentLink, Presign, LinkState, same_posture, closed, awaiting_hello, online, same_flag,
  is_unrecovered, is_ending, is_parked,
}
use online_observatory.Link.Handlers.{
  World, emit, set_link, set_db, terminate, fatal, refuse, stop, answer_ownership, apply_posture,
  owns_mission, apply_image_health, note_image_health, end_if_parked, apply_state_delta,
  note_ending, apply_mission_event, apply_command_ack, apply_upload_grant_request,
  apply_capture_ready,
}

module _ (S : LinkStore) where
  -- The mission that it is about is the observatory's, or the command was minted for it.
  abbrev pub IsOwnEffect : (observatory_id : ℕ) → S.Db → Effect → Type 0
  IsOwnEffect o d (sends m) = Unit
  IsOwnEffect o d (closes r) = Unit
  IsOwnEffect o d (broadcasts (mission_moved m s r)) = S.observatory_owns_mission o m d ≡ true
  IsOwnEffect o d (broadcasts (command_answered k)) =
      is_minted_for o (S.load_command k.command_id d) ≡ true
  IsOwnEffect o d (broadcasts (capture_recorded m c)) = S.observatory_owns_mission o m d ≡ true
  IsOwnEffect o d (broadcasts (telemetry_reported m t)) = S.observatory_owns_mission o m d ≡ true
  IsOwnEffect o d (broadcasts (session_ended r)) =
      S.observatory_owns_mission o r.mission_id d ≡ true
  IsOwnEffect o d (broadcasts (live_frame_arrived f)) =
      (S.observatory_owns_mission o f.frame_header.mission_id d ≡ true) × (f.observatory_id ≡ o)

  abbrev pub IsOwnEntry : (observatory_id : ℕ) → S.Db → ℕ × Bool → Type 0
  IsOwnEntry o d (m, cached) = cached ≡ true → S.observatory_owns_mission o m d ≡ true

  -- So is everything put out by the link of observatory `o`, and every mission that the cache says
  -- is, in a database that comes from `base`.
  pub record IsOwned (o : ℕ) (base : S.Db) (w : World S) : Type 0 where
    pub same_id : w.link.observatory_id ≡ o
    pub since : S.Later base w.db
    pub cached : All (IsOwnEntry w.link.observatory_id w.db) w.link.mission_ownership
    pub told : All (IsOwnEffect w.link.observatory_id w.db) w.out

  pub IsOwnEffect-later :
      (o : ℕ) (a b : S.Db) → S.Later a b → (e : Effect) → IsOwnEffect o a e → IsOwnEffect o b e
  IsOwnEffect-later o a b l (sends m) h = tt
  IsOwnEffect-later o a b l (closes r) h = tt
  IsOwnEffect-later o a b l (broadcasts (mission_moved m s r)) h = S.later_owns o m a b l h
  IsOwnEffect-later o a b l (broadcasts (command_answered k)) h =
      S.later_minted o k.command_id a b l h
  IsOwnEffect-later o a b l (broadcasts (capture_recorded m c)) h = S.later_owns o m a b l h
  IsOwnEffect-later o a b l (broadcasts (telemetry_reported m t)) h = S.later_owns o m a b l h
  IsOwnEffect-later o a b l (broadcasts (session_ended r)) h = S.later_owns o r.mission_id a b l h
  IsOwnEffect-later o a b l (broadcasts (live_frame_arrived f)) h =
      (S.later_owns o f.frame_header.mission_id a b l h.0, h.1)

  pub own_effects_later :
      (o : ℕ) (a b : S.Db)
      → S.Later a b
      → (es : List Effect) → All (IsOwnEffect o a) es
      → All (IsOwnEffect o b) es
  own_effects_later o a b l [] h = tt
  own_effects_later o a b l (e ∷ es) h =
      (IsOwnEffect-later o a b l e h.0, own_effects_later o a b l es h.1)

  pub own_entries_later :
      (o : ℕ) (a b : S.Db)
      → S.Later a b
      → (es : List (ℕ × Bool)) → All (IsOwnEntry o a) es
      → All (IsOwnEntry o b) es
  own_entries_later o a b l [] h = tt
  own_entries_later o a b l ((m, c) ∷ es) h =
      (λ e. S.later_owns o m a b l (h.0 e), own_entries_later o a b l es h.1)

  module _ (o : ℕ) (base : S.Db) where
    pub own_later :
        (w : World S) (d : S.Db) → S.Later w.db d → IsOwned o base w → IsOwned o base (set_db S d w)
    own_later w d l h = record {
      cached = own_entries_later w.link.observatory_id w.db d l w.link.mission_ownership h.cached;
      told = own_effects_later w.link.observatory_id w.db d l w.out h.told;
      since = S.later_trans base w.db d h.since l;
      same_id = h.same_id;
    }

    pub own_emit :
        (w : World S) (e : Effect)
        → IsOwnEffect w.link.observatory_id w.db e
        → IsOwned o base w
        → IsOwned o base (emit S e w)
    own_emit w e own h = record {
      cached = h.cached;
      told = (own, h.told);
      since = h.since;
      same_id = h.same_id;
    }

    -- The steps of the handlers keep it.
    pub own_refuse : (w : World S) → IsOwned o base w → IsOwned o base (refuse S w)
    own_refuse w h = own_emit w (sends (cloud_error forbidden false)) tt h

    pub own_stop :
        (s : LinkState) (r : CloseReason) (w : World S)
        → IsOwned o base w
        → IsOwned o base (stop S s r w)
    own_stop closed r w h = h
    own_stop awaiting_hello r w h = record {
      cached = h.cached;
      told = (tt, h.told);
      since = h.since;
      same_id = h.same_id;
    }
    own_stop online r w h = record {
      cached = h.cached;
      told = (tt, h.told);
      since = h.since;
      same_id = h.same_id;
    }

    pub own_fatal :
        (c : ErrorCode) (r : CloseReason) (w : World S)
        → IsOwned o base w
        → IsOwned o base (fatal S c r w)
    unfolding terminate
    own_fatal c r w h =
        let e = sends (cloud_error c true) in
        own_stop w.link.state r (emit S e w) (own_emit w e tt h)

    pub own_apply_posture :
        (p : AgentPosture) (r : Option ℕ) (w : World S)
        → IsOwned o base w
        → IsOwned o base (apply_posture S p r w)
    unfolding apply_posture
    own_apply_posture p r w h = elim (Bool-cases (same_posture p r w.link.recorded_posture)) [
      | inl e ↦ rw e h
      | inr e ↦ rw e (
          own_later (set_link S (λ l. record l { recorded_posture = some (p, r) }) w)
            (S.record_posture w.link.observatory_id p r w.db)
            (S.record_posture_later w.link.observatory_id p r w.db)
            (record { cached = h.cached; told = h.told; since = h.since; same_id = h.same_id }))
    ]

    pub cached_own :
        (m : ℕ) (o : ℕ) (d : S.Db) (t : List (ℕ × Bool))
        → All (IsOwnEntry o d) t
        → lookup m t ≡ some true
        → S.observatory_owns_mission o m d ≡ true
    cached_own m o d [] h e = absurd (cc)
    cached_own m o d ((k, c) ∷ t) h e = elim (Bool-cases (m == k)) [
      | inl same ↦ rw ((==_iff m k).0 same) (h.0 (ground arith))
      | inr other ↦ cached_own m o d t h.1 (ground arith)
    ]

    -- The answer, when it is yes, is the store's.
    pub own_answer :
        (a : Option Bool) (m : ℕ) (w : World S)
        → lookup m w.link.mission_ownership ≡ a
        → IsOwned o base w
        → IsOwned o base (answer_ownership S a m w).1
          × ((answer_ownership S a m w).0 ≡ true
              → S.observatory_owns_mission w.link.observatory_id m w.db ≡ true)
          × ((answer_ownership S a m w).1.db ≡ w.db)
          × ((answer_ownership S a m w).1.link.observatory_id ≡ w.link.observatory_id)
          × ((answer_ownership S a m w).1.link.ending ≡ w.link.ending)
    own_answer none m w e h = (
      record { cached = (λ y. y, h.cached); told = h.told; since = h.since; same_id = h.same_id },
      λ y. y,
      refl,
      refl,
      refl,
    )
    own_answer (some true) m w e h = (
      h,
      λ y. cached_own m w.link.observatory_id w.db w.link.mission_ownership h.cached e,
      refl,
      refl,
      refl,
    )
    own_answer (some false) m w e h = (h, λ y. absurd (cc), refl, refl, refl)

    pub own_image_health :
        (m : ℕ) (i : Option ImageHealth) (now : ℕ) (w : World S)
        → IsOwned o base w
        → IsOwned o base (apply_image_health S m i now w)
    unfolding apply_image_health
    own_image_health m i now w h =
        elim (Bool-cases (same_flag (lookup m w.link.image_unrecovered) (is_unrecovered i))) [
          | inl e ↦ rw e h
          | inr e ↦ rw e (
              own_later
                (set_link S
                  (λ l. record l {
                    image_unrecovered = (m, is_unrecovered i) ∷ l.image_unrecovered;
                  })
                  w)
                (S.record_image_health w.link.observatory_id m (is_unrecovered i) now w.db)
                (S.record_image_health_later w.link.observatory_id m (is_unrecovered i) now w.db)
                (record { cached = h.cached; told = h.told; since = h.since; same_id = h.same_id }))
        ]
