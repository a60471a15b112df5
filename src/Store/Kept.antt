-- ===== src/Store/Kept.antt =====
-- What each operation of the store keeps: recorded messages stay recorded, and missions stay their
-- observatory's.
use online_observatory.Common.{
  ℕ, Bool, true, not, ◌&&◌, Option, none, some, ◌≡◌, refl, inl, inr, Bool-cases, Option-cases,
  arith, ◌==◌, ==_self, Table, lookup, if◌then◌else◌,
}
use online_observatory.Mission as Mission
use online_observatory.Mission.{MissionEventOutcome, MissionRow, MissionDb, MissionEventRecord}
use online_observatory.Link.Messages.{MissionEvent, CommandAck}
use online_observatory.Link.Storage.{CaptureRecord}
use online_observatory.Store.{
  Tables, Booking, StoredMission, CommandRow, ObservatoryCommandStatus, is_live_state, matches,
  update_many, queue_email, EmailKey, capture_ready, session_summary,
}
use online_observatory.Store.Hello.{
  record_inbound_message, settle_held_mission, settle_on_hello, mark_link_up, live_mission_id,
  closed_out, remembered_boot, is_boot,
}
use online_observatory.Store.Verdicts.{
  record_command_verdict, after_verdict, start_dwell, dwell_on, fail_refused_start,
  observatory_owns_mission, load_command, apply_event, record_image_health, needs_health,
  is_live_here, is_preparing_here, refused_start, reported, mission_part, written_back,
  command_status_for, is_accepted, dwell_target_of, is_terminal_command_status, is_start_not_run,
  is_starting_goto, is_retarget, is_undecided, decided,
}
use online_observatory.Store.Captures.{mail_unbooked, record_capture, minted_for, is_filed, filed}
use online_observatory.Store.Sweeps.{
  end_mission_session, can_end, is_unannounced, is_booked, reached_observing,
}
use online_observatory.Store.Past.{
  Keeps, is_seen, IsLater, IsLater-refl, IsLater-trans, adjust-IsLater, update-IsLater,
  same-IsLater, command-IsLater,
}

pub record_inbound_message_lem :
    (i o : ℕ) (t : Tables)
    → ((record_inbound_message i o t).0 ≡ not (is_seen i t))
      × (is_seen i (record_inbound_message i o t).1 ≡ true)
      × (is_seen i t ≡ true → (record_inbound_message i o t).1 ≡ t)
unfolding record_inbound_message
record_inbound_message_lem i o t = elim (Bool-cases (is_seen i t)) [
  | inl e ↦ (
    rw (record_inbound_message, e) refl,
    rw (record_inbound_message, e) e,
    λ h. rw (record_inbound_message, e) refl,
  )
  | inr e ↦ (
    rw (record_inbound_message, e) refl,
    rw (record_inbound_message, e) (rw (==_self i) refl),
    λ h. absurd (cc),
  )
]

pub record_inbound_message_IsLater :
    (i o : ℕ) (t : Tables) → IsLater t (record_inbound_message i o t).1
unfolding record_inbound_message observatory_owns_mission load_command
record_inbound_message_IsLater i o t = elim (Bool-cases (is_seen i t)) [
  | inl e ↦ rw e (IsLater-refl t)
  | inr e ↦ rw e (record {
    keeps_seen = λ j h. ground arith;
    keeps_owner = λ q m h. h;
    keeps_minted = λ q j h. h;
    keeps_announced = λ m h. h;
  })
]

pub settle-IsLater :
    (o m : ℕ) (restarted : Bool) (now : ℕ) (t : Tables)
    → IsLater t (settle_held_mission o m restarted now t).1
unfolding settle_held_mission
settle-IsLater o m restarted now t = elim (Option-cases (lookup m t.missions)) [
  | inl e ↦ rw (settle_held_mission, e) (IsLater-refl t)
  | inr (r, e) ↦ elim (Bool-cases (r.core.observatory_id == o)) [
    | inr e2 ↦ rw (settle_held_mission, e, e2) (IsLater-refl t)
    | inl e2 ↦ elim (Bool-cases (is_live_state r.core.state)) [
      | inr dead ↦ elim (Bool-cases restarted) [
        | inl e3 ↦ rw (settle_held_mission, e, e2, e3, dead) (IsLater-refl t)
        | inr e3 ↦ rw (settle_held_mission, e, e2, e3, dead) (IsLater-refl t)
      ]
      | inl live ↦ elim (Bool-cases restarted) [
        | inl e3 ↦
            rw (settle_held_mission, e, e2, e3, live)
              (adjust-IsLater t _ m (closed_out now) (λ q. (refl, λ h. h)) refl refl refl)
        | inr e3 ↦ rw (settle_held_mission, e, e2, e3, live) (IsLater-refl t)
      ]
    ]
  ]
]

pub settle_on_hello-IsLater :
    (o : ℕ) (remembered : Option ℕ) (restarted : Bool) (resume : Option ℕ) (now : ℕ) (t : Tables)
    → IsLater t (settle_on_hello o remembered restarted resume now t).1
unfolding settle_on_hello
settle_on_hello-IsLater o remembered restarted (some m) now t = settle-IsLater o m restarted now t
settle_on_hello-IsLater o none restarted none now t = IsLater-refl t
settle_on_hello-IsLater o (some b) restarted none now t = elim (Bool-cases restarted) [
  | inr e ↦ rw e (IsLater-refl t)
  | inl e ↦ elim (Option-cases (live_mission_id o t)) [
    | inl e2 ↦ rw (settle_on_hello, e, e2) (IsLater-refl t)
    | inr (m, e2) ↦ rw (settle_on_hello, e, e2) (settle-IsLater o m restarted now t)
  ]
]

pub mark_link_up-IsLater :
    (o b : ℕ) (resume : Option ℕ) (now : ℕ) (t : Tables)
    → IsLater t (mark_link_up o b resume now t).1
unfolding mark_link_up
mark_link_up-IsLater o b resume now t =
    let remembered = remembered_boot o t in
    let restarted = not (is_boot b remembered) in
    IsLater-trans t (settle_on_hello o remembered restarted resume now t).1 _
      (settle_on_hello-IsLater o remembered restarted resume now t)
      (same-IsLater _ _ refl refl refl)

pub fail_refused_start-IsLater :
    (o m : ℕ) (k : CommandAck) (at now : ℕ) (t : Tables)
    → IsLater t (fail_refused_start o m k at now t)
unfolding fail_refused_start
fail_refused_start-IsLater o m k at now t =
    elim (Bool-cases (matches (is_preparing_here o) (lookup m t.missions))) [
      | inr e ↦ rw (fail_refused_start, e) (IsLater-refl t)
      | inl e ↦
          rw (fail_refused_start, e)
            (update-IsLater t _ m (is_preparing_here o) (refused_start k at) (λ q. (refl, λ h. h))
              refl refl refl)
    ]

pub start_dwell-IsLater :
    (o : ℕ) (c : CommandRow) (target at : ℕ) (t : Tables) → IsLater t (start_dwell o c target at t)
unfolding start_dwell
start_dwell-IsLater o c target at t =
    elim (Bool-cases
      (matches (is_live_here o) (lookup c.mission_id t.missions) && is_retarget c.payload)) [
        | inr e ↦
            rw (start_dwell, e)
              (update-IsLater t _ c.mission_id (is_live_here o) _ (λ q. (refl, λ h. h)) refl refl
                refl)
        | inl e ↦
            rw (start_dwell, e)
              (update-IsLater t _ c.mission_id (is_live_here o) _ (λ q. (refl, λ h. h)) refl refl
                refl)
      ]

pub dwell_on-IsLater :
    (o : ℕ) (c : CommandRow) (target : Option ℕ) (at : ℕ) (t : Tables)
    → IsLater t (dwell_on o c target at t)
unfolding dwell_on
dwell_on-IsLater o c none at t = IsLater-refl t
dwell_on-IsLater o c (some target) at t = start_dwell-IsLater o c target at t

pub after_verdict-IsLater :
    (o : ℕ) (k : CommandAck) (s : ObservatoryCommandStatus) (c : CommandRow) (at now : ℕ)
    (t : Tables)
    → IsLater t (after_verdict o k s c at now t)
unfolding after_verdict
after_verdict-IsLater o k s c at now t =
    let t1 = if is_accepted k.status then dwell_on o c (dwell_target_of c.payload) at t else t in
    let first : IsLater t t1 = elim (Bool-cases (is_accepted k.status)) [
      | inr e ↦ rw e (IsLater-refl t)
      | inl e ↦ rw e (dwell_on-IsLater o c (dwell_target_of c.payload) at t)
    ] in
    elim (Bool-cases (is_start_not_run s && is_starting_goto c.payload)) [
      | inr e ↦ rw (after_verdict, e) first
      | inl e ↦
          rw (after_verdict, e)
            (IsLater-trans t t1 _ first (fail_refused_start-IsLater o c.mission_id k at now t1))
    ]

pub record_command_verdict-IsLater :
    (o : ℕ) (k : CommandAck) (at now : ℕ) (t : Tables)
    → IsLater t (record_command_verdict o k at now t).1
unfolding record_command_verdict
record_command_verdict-IsLater o k at now t = elim (Option-cases (lookup k.command_id t.commands)) [
  | inl e ↦ rw (record_command_verdict, e) (IsLater-refl t)
  | inr (c, e) ↦ elim (Bool-cases (c.observatory_id == o)) [
    | inr e2 ↦ rw (record_command_verdict, e, e2) (IsLater-refl t)
    | inl e2 ↦ elim (Option-cases (command_status_for k.status)) [
      | inl e3 ↦ rw (record_command_verdict, e, e2, e3) (IsLater-refl t)
      | inr (s, e3) ↦ elim (Bool-cases (is_terminal_command_status c.status)) [
        | inl e4 ↦ rw (record_command_verdict, e, e2, e3, e4) (IsLater-refl t)
        | inr e4 ↦
            rw (record_command_verdict, e, e2, e3, e4)
              (IsLater-trans t _ _
                (command-IsLater t _ k.command_id
                  (λ r. if is_undecided o r then decided k at s r else r) (λ r. ground arith) refl
                  refl refl)
                (after_verdict-IsLater o k s c at now _))
      ]
    ]
  ]
]

pub queue_email-keeps :
    (key : EmailKey) (t : Tables)
    → ((queue_email key t).1.messages ≡ t.messages)
      × ((queue_email key t).1.missions ≡ t.missions)
      × ((queue_email key t).1.commands ≡ t.commands)
unfolding queue_email
queue_email-keeps key t = (ground arith, ground arith, ground arith)

pub mail-IsLater : (b : Option Booking) (k : ℕ) (t : Tables) → IsLater t (mail_unbooked b k t)
unfolding mail_unbooked
mail-IsLater (some b) k t = IsLater-refl t
mail-IsLater none k t =
    let (messages, missions, commands) = queue_email-keeps (capture_ready k) t in
    same-IsLater t _ messages commands missions

pub filed-IsLater : (c : CaptureRecord) (m : StoredMission) (t : Tables) → IsLater t (filed c m t)
unfolding filed
filed-IsLater c m t =
    IsLater-trans t _ _ (same-IsLater t _ refl refl refl) (mail-IsLater m.booking c.command_id _)

pub record_capture-IsLater : (c : CaptureRecord) (t : Tables) → IsLater t (record_capture c t).1
unfolding record_capture
record_capture-IsLater c t = elim (Option-cases (lookup c.mission_id t.missions)) [
  | inl e ↦ rw (record_capture, e) (IsLater-refl t)
  | inr (m, e) ↦ elim (Bool-cases (m.core.observatory_id == c.observatory_id)) [
    | inr e2 ↦ rw (record_capture, e, e2) (IsLater-refl t)
    | inl e2 ↦ elim (Bool-cases (matches (minted_for c) (lookup c.command_id t.commands))) [
      | inr e3 ↦ rw (record_capture, e, e2, e3) (IsLater-refl t)
      | inl e3 ↦ elim (Bool-cases (is_filed c.command_id t.captures)) [
        | inl e4 ↦ rw (record_capture, e, e2, e3, e4) (IsLater-refl t)
        | inr e4 ↦ rw (record_capture, e, e2, e3, e4) (filed-IsLater c m t)
      ]
    ]
  ]
]

pub end_mission_session-IsLater :
    (k : ℕ) (parked : Bool) (now : ℕ) (t : Tables)
    → IsLater t (end_mission_session k parked now t).1
unfolding end_mission_session
end_mission_session-IsLater k parked now t = elim (Option-cases (lookup k t.missions)) [
  | inl e ↦ rw (end_mission_session, e) (IsLater-refl t)
  | inr (m, e) ↦ elim (Bool-cases (can_end m)) [
    | inr e2 ↦ rw (end_mission_session, e, e2) (IsLater-refl t)
    | inl e2 ↦
        let t1 = record t {
          missions =
              update_many k is_unannounced (λ r. record r { session_ended_notified_at = some now })
                t.missions;
        } in
        let (messages, missions, commands) = queue_email-keeps (session_summary k) t1 in
        let first =
          update-IsLater t t1 k is_unannounced _ (λ q. (refl, λ h. refl)) refl refl refl in
        elim (Bool-cases (is_booked m && reached_observing m)) [
          | inr e3 ↦
              rw (end_mission_session, e, e2, e3)
                (IsLater-trans t t1 _ first (same-IsLater t1 _ refl refl refl))
          | inl e3 ↦
              rw (end_mission_session, e, e2, e3)
                (IsLater-trans t t1 _ first (same-IsLater t1 _ messages commands missions))
        ]
  ]
]

-- The core that an event writes back is the mission's own.
event-Keeps :
    (o : ℕ) (e : MissionEvent) (commands : Table CommandRow)
    → Keeps (λ r.
      written_back (Mission.apply_mission_event (reported o e) (mission_part commands r)).1 r)
unfolding Mission.apply_mission_event Mission.moved
event-Keeps o e commands r = elim (Bool-cases (r.core.observatory_id == o)) [
  | inr other ↦ rw other (refl, λ h. h)
  | inl ours ↦ elim (Bool-cases (Mission.is_legal_mission_transition r.core.state e.state)) [
    | inr illegal ↦ rw (ours, illegal) (refl, λ h. h)
    | inl legal ↦ rw (ours, legal) (refl, λ h. h)
  ]
]

pub apply_event-IsLater : (o : ℕ) (e : MissionEvent) (t : Tables) → IsLater t (apply_event o e t).1
unfolding apply_event
apply_event-IsLater o e t =
    adjust-IsLater t _ e.mission_id _ (event-Keeps o e t.commands) refl refl refl

pub record_image_health-IsLater :
    (o m : ℕ) (u : Bool) (at : ℕ) (t : Tables) → IsLater t (record_image_health o m u at t)
unfolding record_image_health
record_image_health-IsLater o m u at t =
    update-IsLater t _ m (needs_health o u) _ (λ q. (refl, λ h. h)) refl refl refl
