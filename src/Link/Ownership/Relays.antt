-- ===== src/Link/Ownership/Relays.antt =====
-- What each message does keeps to the observatory's missions.
use online_observatory.Common.{
  ℕ, ◌&&◌, true, Option, none, some, ◌≡◌, refl, inl, inr, ltb, Bool-cases, Option-cases, lookup,
}
use online_observatory.Link.Messages.{
  broadcasts, mission_moved, command_answered, capture_recorded, telemetry_reported, session_ended,
  StateDelta, MissionEvent, CommandAck, CaptureReady, UploadGrantRequest, ObservatoryTelemetry,
  ImageHealth, SessionEnded, max_upload_bytes, is_allowed_upload,
}
use online_observatory.Mission.{MissionEventOutcome}
use online_observatory.Link.Storage.{
  LinkStore, is_minted_for, CommandVerdictOutcome, CaptureOutcome,
}
use online_observatory.Link.State.{
  Presign, is_ending, is_parked, same_flag, is_unrecovered, is_ours, fresh_ending, reported_mission,
  all_granted, assets_of,
}
use online_observatory.Link.Handlers.{
  World, emit, set_link, set_db, answer_ownership, owns_mission, apply_image_health,
  note_image_health, end_if_parked, relay_end, relay_delta, apply_state_delta, note_ending,
  relay_event, relay_verdict, apply_upload_grant_request, relay_capture, capture_record,
  apply_capture_ready,
}
use online_observatory.Link.Ownership.{
  IsOwned, own_later, own_emit, own_refuse, own_answer, own_image_health,
}

module _ (S : LinkStore) (o : ℕ) (base : S.Db) where
  -- The mission of a delta stays the observatory's while the picture's health is noted.
  pub own_note_health :
      (named : Option ℕ) (m : ℕ) (i : Option ImageHealth) (now : ℕ) (w : World S)
      → IsOwned S o base w
      → S.observatory_owns_mission w.link.observatory_id m w.db ≡ true
      → IsOwned S o base (note_image_health S named m i now w)
        × (S.observatory_owns_mission
              (note_image_health S named m i now w).link.observatory_id
              m
              (note_image_health S named m i now w).db
            ≡ true)
  unfolding apply_image_health
  own_note_health none m i now w h own = (h, own)
  own_note_health (some k) m i now w h own = (
    own_image_health S o base m i now w h,
    elim (Bool-cases (same_flag (lookup m w.link.image_unrecovered) (is_unrecovered i))) [
      | inl e ↦ rw e own
      | inr e ↦ rw e (
          S.later_owns w.link.observatory_id m w.db _
            (S.record_image_health_later w.link.observatory_id m (is_unrecovered i) now w.db) own)
    ],
  )

  pub own_relay_end :
      (ended : Option SessionEnded) (w : World S)
      → IsOwned S o base w
      → ((r : SessionEnded)
          → ended ≡ some r
          → S.observatory_owns_mission w.link.observatory_id r.mission_id w.db ≡ true)
      → IsOwned S o base (relay_end S ended w)
  own_relay_end none w h own = h
  own_relay_end (some r) w h own = own_emit S o base w (broadcasts (session_ended r)) (own r refl) h

  pub own_end_if_parked :
      (m : ℕ) (t : ObservatoryTelemetry) (now : ℕ) (w : World S)
      → IsOwned S o base w
      → S.observatory_owns_mission w.link.observatory_id m w.db ≡ true
      → IsOwned S o base (end_if_parked S m t now w)
  unfolding end_if_parked
  own_end_if_parked m t now w h own = elim (Bool-cases (is_ending m w.link.ending && is_parked t)) [
    | inr e ↦ rw e h
    | inl e ↦
        let later = S.end_mission_session_later m true now w.db in
        let w1 = set_link S (λ l. record l { ending = none }) w in
        rw e (
          own_relay_end (S.end_mission_session m true now w.db).0
            (set_db S (S.end_mission_session m true now w.db).1 w1)
            (own_later S o base w1 (S.end_mission_session m true now w.db).1 later
              (record { cached = h.cached; told = h.told; since = h.since; same_id = h.same_id }))
            (λ r is.
              S.later_owns w.link.observatory_id r.mission_id w.db _ later
                (rw (S.ended_mission m true now w.db r is) own)))
  ]

  pub own_relay_delta :
      (m : ℕ) (d : StateDelta) (now : ℕ) (w : World S)
      → IsOwned S o base w
      → IsOwned S o base (relay_delta S m d now w)
  unfolding relay_delta owns_mission
  own_relay_delta m d now w h =
      let a = lookup m w.link.mission_ownership in
      let (h1, if_owned, same_db, same_id, same_ending) = own_answer S o base a m w refl h in
      let w1 = (answer_ownership S a m w).1 in
      elim (Bool-cases (answer_ownership S a m w).0) [
        | inr e ↦ rw e (own_refuse S o base w1 h1)
        | inl own ↦
            let (h2, own2) =
              own_note_health d.mission_id m d.image_health now w1 h1
                (rw (same_db, same_id) (if_owned own)) in
            let w2 = note_image_health S d.mission_id m d.image_health now w1 in
            rw own (
              own_end_if_parked m d.telemetry now (emit S (broadcasts (telemetry_reported m d)) w2)
                (own_emit S o base w2 (broadcasts (telemetry_reported m d)) own2 h2) own2)
      ]

  pub own_apply_state_delta :
      (d : StateDelta) (now : ℕ) (w : World S)
      → IsOwned S o base w
      → IsOwned S o base (apply_state_delta S d now w)
  unfolding apply_state_delta
  own_apply_state_delta d now w h =
      let w1 =
        set_link S
          (λ l. record l { telemetry = some d.telemetry; ending = fresh_ending now l.ending }) w in
      let h1 : IsOwned S o base w1 = record {
        cached = h.cached;
        told = h.told;
        since = h.since;
        same_id = h.same_id;
      } in
      elim (Option-cases (reported_mission d.mission_id w1.link.ending)) [
        | inl e ↦ rw (apply_state_delta, e) h1
        | inr (m, e) ↦ rw (apply_state_delta, e) (own_relay_delta m d now w1 h1)
      ]

  pub own_note_ending :
      (e : MissionEvent) (now : ℕ) (w : World S)
      → IsOwned S o base w
      → IsOwned S o base (note_ending S e now w)
  own_note_ending e now w h = record {
    cached = h.cached;
    told = h.told;
    since = h.since;
    same_id = h.same_id;
  }

  pub own_relay_event :
      (outcome : MissionEventOutcome) (e : MissionEvent) (now : ℕ) (w : World S)
      → (outcome ≡ MissionEventOutcome.applied
          → S.observatory_owns_mission w.link.observatory_id e.mission_id w.db ≡ true)
      → IsOwned S o base w
      → IsOwned S o base (relay_event S outcome e now w)
  own_relay_event MissionEventOutcome.applied e now w own h =
      own_emit S o base (note_ending S e now w)
        (broadcasts (mission_moved e.mission_id e.state e.failure_reason)) (own refl)
        (own_note_ending e now w h)
  own_relay_event MissionEventOutcome.recorded e now w own h = own_note_ending e now w h
  own_relay_event MissionEventOutcome.wrong_observatory e now w own h = own_refuse S o base w h
  own_relay_event MissionEventOutcome.not_found e now w own h = own_refuse S o base w h

  pub own_relay_verdict :
      (outcome : CommandVerdictOutcome) (k : CommandAck) (w : World S)
      → (outcome ≡ CommandVerdictOutcome.recorded
          → is_minted_for w.link.observatory_id (S.load_command k.command_id w.db) ≡ true)
      → IsOwned S o base w
      → IsOwned S o base (relay_verdict S outcome k w)
  own_relay_verdict CommandVerdictOutcome.recorded k w minted h =
      own_emit S o base w (broadcasts (command_answered k)) (minted refl) h
  own_relay_verdict CommandVerdictOutcome.duplicate_ack k w minted h = h
  own_relay_verdict CommandVerdictOutcome.ignored_stale k w minted h = h
  own_relay_verdict CommandVerdictOutcome.wrong_observatory k w minted h = own_refuse S o base w h
  own_relay_verdict CommandVerdictOutcome.not_found k w minted h = own_refuse S o base w h

  pub own_relay_capture :
      (outcome : CaptureOutcome) (c : CaptureReady) (w : World S)
      → (outcome ≡ CaptureOutcome.recorded
          → S.observatory_owns_mission w.link.observatory_id c.mission_id w.db ≡ true)
      → IsOwned S o base w
      → IsOwned S o base (relay_capture S outcome c w)
  own_relay_capture CaptureOutcome.recorded c w own h =
      own_emit S o base w (broadcasts (capture_recorded c.mission_id c.command_id)) (own refl) h
  own_relay_capture CaptureOutcome.duplicate c w own h = h
  own_relay_capture CaptureOutcome.wrong_observatory c w own h = own_refuse S o base w h
  own_relay_capture CaptureOutcome.not_found c w own h = own_refuse S o base w h

  pub own_apply_capture_ready :
      (c : CaptureReady) (w : World S)
      → IsOwned S o base w
      → IsOwned S o base (apply_capture_ready S c w)
  unfolding apply_capture_ready
  own_apply_capture_ready c w h =
      let id = w.link.observatory_id in
      let row = capture_record S id c in
      let later = S.record_capture_later row w.db in
      elim (Bool-cases (all_granted id c.mission_id c.command_id (assets_of c))) [
        | inr e ↦ rw e (own_refuse S o base w h)
        | inl e ↦ rw e (
            own_relay_capture (S.record_capture row w.db).0 c
              (set_db S (S.record_capture row w.db).1 w)
              (λ is. S.later_owns id c.mission_id w.db _ later (S.capture_owns row w.db is))
              (own_later S o base w _ later h))
      ]

  pub own_grant :
      (p : Presign) (q : UploadGrantRequest) (now : ℕ) (w : World S)
      → IsOwned S o base w
      → IsOwned S o base (apply_upload_grant_request S p q now w)
  unfolding apply_upload_grant_request
  own_grant p q now w h =
      elim (Bool-cases
        (is_ours (S.load_command q.command_id w.db) w.link.observatory_id q.mission_id)) [
          | inr e ↦ rw e (record {
            cached = h.cached;
            told = (tt, h.told);
            since = h.since;
            same_id = h.same_id;
          })
          | inl e ↦ elim (Bool-cases (is_allowed_upload q.kind q.content_type)) [
            | inr e2 ↦
                rw (e, e2)
                  (record {
                    cached = h.cached;
                    told = (tt, h.told);
                    since = h.since;
                    same_id = h.same_id;
                  })
            | inl e2 ↦ elim (Bool-cases (ltb max_upload_bytes q.content_length)) [
              | inr e3 ↦
                  rw (e, e2, e3)
                    (record {
                      cached = h.cached;
                      told = (tt, h.told);
                      since = h.since;
                      same_id = h.same_id;
                    })
              | inl e3 ↦
                  rw (e, e2, e3)
                    (record {
                      cached = h.cached;
                      told = (tt, h.told);
                      since = h.since;
                      same_id = h.same_id;
                    })
            ]
          ]
        ]
