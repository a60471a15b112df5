-- ===== src/Store/Ends.antt =====
-- How missions and sessions end: once, and only for a reason.
use online_observatory.Common.{
  ℕ, Bool, true, false, not, ◌&&◌, Option, none, some, ◌≡◌, ◌≢◌, ◌⊎◌, refl, inl, inr, Bool-cases,
  Option-cases, arith, ◌==◌, ==_iff, ==_self, Table, lookup, lookup-adjust, map_some, ◌∙◌, All, ap,
  if◌then◌else◌,
}
use online_observatory.Mission.{is_terminal_state, agent_link_lost}
use online_observatory.Link.Messages.{SessionEnded}
use online_observatory.Link.Storage.{ResumeOutcome}
use online_observatory.Store.{
  Tables, StoredMission, RevokedFor, matches, update_many, is_live_state, session_summary,
}
use online_observatory.Store.Hello.{
  mark_link_up, settle_on_hello, settle_held_mission, remembered_boot, is_boot, closed_out,
  live_mission_id,
}
use online_observatory.Store.Sweeps.{
  end_mission_session, can_end, is_unannounced, is_booked, reached_observing,
}
use online_observatory.Store.Past.{IsLater, is_announced}
use online_observatory.Store.Commands.{is_released, IsFailed, revoke_sessions-All}
use online_observatory.Store.Kept.{queue_email-keeps}

abbrev announcing : (mission_id now : ℕ) → Table StoredMission → Table StoredMission
announcing k now missions =
    update_many k is_unannounced (λ r. record r { session_ended_notified_at = some now }) missions

announcing-lookup :
    (k now : ℕ) (t : Tables) (m : StoredMission)
    → lookup k t.missions ≡ some m
    → is_unannounced m ≡ true
    → matches (λ r. not (is_unannounced r)) (lookup k (announcing k now t.missions)) ≡ true
announcing-lookup k now t m here fresh =
    rw
      (
        lookup-adjust k k
            (λ r. if is_unannounced r then record r { session_ended_notified_at = some now } else r)
            t.missions,
        ==_self k,
        here,
        map_some,
        fresh,
      )
      refl

-- A session that is said to end is of a mission that is over, and its end is then announced.
end_mission_session-announces :
    (k : ℕ) (parked : Bool) (now : ℕ) (t : Tables) (r : SessionEnded)
    → (end_mission_session k parked now t).0 ≡ some r
    → (is_terminal_state r.state ≡ true)
      × (is_announced k t ≡ false)
      × (is_announced k (end_mission_session k parked now t).1 ≡ true)
unfolding end_mission_session
end_mission_session-announces k parked now t r h = elim (Option-cases (lookup k t.missions)) [
  | inl e ↦ absurd (ground arith)
  | inr (m, e) ↦ elim (Bool-cases (can_end m)) [
    | inr e2 ↦ absurd (ground arith)
    | inl e2 ↦
        let fresh : is_unannounced m ≡ true = ground arith in
        let t1 = record t { missions = announcing k now t.missions } in
        let kept = (queue_email-keeps (session_summary k) t1).1 in
        let row = announcing-lookup k now t m e fresh in
        (
          ground arith,
          rw (e, fresh) refl,
          elim (Bool-cases (is_booked m && reached_observing m)) [
            | inr e3 ↦ rw (end_mission_session, e, e2, e3) row
            | inl e3 ↦ rw (end_mission_session, e, e2, e3, kept) row
          ],
        )
  ]
]

announced_once :
    (k : ℕ) (parked : Bool) (now : ℕ) (t : Tables)
    → is_announced k t ≡ true
    → (end_mission_session k parked now t).0 ≡ none
unfolding end_mission_session
announced_once k parked now t h = elim (Option-cases (lookup k t.missions)) [
  | inl e ↦ rw (end_mission_session, e) refl
  | inr (m, e) ↦ elim (Bool-cases (can_end m)) [
    | inr e2 ↦ rw (end_mission_session, e, e2) refl
    | inl e2 ↦ let old : is_unannounced m ≡ false = ground arith in absurd (ground arith)
  ]
]

-- A session's end is announced at most once: when one call has ended it, no later call does, whatever
-- the store has been through in between; and it is announced only of a mission that is over.
pub end_mission_session-once :
    (k : ℕ) (parked parked' : Bool) (now now' : ℕ) (t t' : Tables) (r : SessionEnded)
    → (end_mission_session k parked now t).0 ≡ some r
    → IsLater (end_mission_session k parked now t).1 t'
    → (is_terminal_state r.state ≡ true) × ((end_mission_session k parked' now' t').0 ≡ none)
end_mission_session-once k parked parked' now now' t t' r h later =
    let (over, before, after) = end_mission_session-announces k parked now t r h in
    (over, announced_once k parked' now' t' (later.keeps_announced k after))

settle-unrestarted :
    (o m now : ℕ) (t : Tables)
    → ((settle_held_mission o m false now t).1 ≡ t)
      × ((settle_held_mission o m false now t).0 ≢ ResumeOutcome.resolved)
unfolding settle_held_mission
settle-unrestarted o m now t = elim (Option-cases (lookup m t.missions)) [
  | inl e ↦ rw (settle_held_mission, e) (refl, λ h. absurd (cc))
  | inr (r, e) ↦ elim (Bool-cases (r.core.observatory_id == o)) [
    | inr e2 ↦ rw (settle_held_mission, e, e2) (refl, λ h. absurd (cc))
    | inl e2 ↦ elim (Bool-cases (is_live_state r.core.state)) [
      | inl e3 ↦ rw (settle_held_mission, e, e2, e3) (refl, λ h. absurd (cc))
      | inr e3 ↦ rw (settle_held_mission, e, e2, e3) (refl, λ h. absurd (cc))
    ]
  ]
]

settle_on_hello-unrestarted :
    (o b : ℕ) (resume : Option ℕ) (now : ℕ) (t : Tables)
    → ((settle_on_hello o (some b) false resume now t).1 ≡ t)
      × ((settle_on_hello o (some b) false resume now t).0 ≢ some ResumeOutcome.resolved)
unfolding settle_on_hello
settle_on_hello-unrestarted o b (some m) now t =
    let (same, other) = settle-unrestarted o m now t in (same, λ h. other (ground arith))
settle_on_hello-unrestarted o b none now t = (refl, λ h. absurd (cc))

-- The agent's process is the one that was remembered: it rode the outage out, so missions and
-- sessions are as they were, and nothing is closed out.
pub mark_link_up-reconnected :
    (o b : ℕ) (resume : Option ℕ) (now : ℕ) (t : Tables)
    → remembered_boot o t ≡ some b
    → ((mark_link_up o b resume now t).1.missions ≡ t.missions)
      × ((mark_link_up o b resume now t).1.sessions ≡ t.sessions)
      × ((mark_link_up o b resume now t).0 ≢ some ResumeOutcome.resolved)
unfolding mark_link_up
mark_link_up-reconnected o b resume now t same =
    let (tables, outcome) = settle_on_hello-unrestarted o b resume now t in
    let booted : is_boot b (some b) ≡ true = ==_self b in
    rw (mark_link_up, same, booted, tables) (refl, refl, outcome)

settle-restarted :
    (o m now : ℕ) (t : Tables) (r : StoredMission)
    → lookup m t.missions ≡ some r
    → r.core.observatory_id ≡ o
    → is_live_state r.core.state ≡ true
    → ((settle_held_mission o m true now t).0 ≡ ResumeOutcome.resolved)
      × (lookup m (settle_held_mission o m true now t).1.missions ≡ some (closed_out now r))
      × All (λ s. is_released m s ≡ true) (settle_held_mission o m true now t).1.sessions
unfolding settle_held_mission
settle-restarted o m now t r here ours live =
    rw (settle_held_mission, here, (==_iff r.core.observatory_id o).1 ours, live)
      (
        refl,
        lookup-adjust m m (closed_out now) t.missions ∙ rw (==_self m, here, map_some) refl,
        revoke_sessions-All m now RevokedFor.agent_link_lost t.sessions,
      )

settle_on_hello-restarted :
    (o old m : ℕ) (resume : Option ℕ) (now : ℕ) (t : Tables) (r : StoredMission)
    → ((resume ≡ some m) ⊎ ((resume ≡ none) × (live_mission_id o t ≡ some m)))
    → lookup m t.missions ≡ some r
    → r.core.observatory_id ≡ o
    → is_live_state r.core.state ≡ true
    → ((settle_on_hello o (some old) true resume now t).0 ≡ some ResumeOutcome.resolved)
      × (lookup m (settle_on_hello o (some old) true resume now t).1.missions
          ≡ some (closed_out now r))
      × All
          (λ s. is_released m s ≡ true)
          (settle_on_hello o (some old) true resume now t).1.sessions
unfolding settle_on_hello
settle_on_hello-restarted o old m resume now t r which here ours live =
    let (outcome, row, sessions) = settle-restarted o m now t r here ours live in
    elim which [
      | inl named ↦ rw named (ap some outcome, row, sessions)
      | inr (unnamed, held) ↦ rw (unnamed, settle_on_hello, held) (ap some outcome, row, sessions)
    ]

closed_out-IsFailed :
    (now : ℕ) (r : StoredMission) (after : Option StoredMission)
    → after ≡ some (closed_out now r)
    → IsFailed (some agent_link_lost) now r after
closed_out-IsFailed now r after e = record {
  row = closed_out now r;
  event = _;
  is_there = e;
  has_failed = refl;
  reason = refl;
  logged = refl;
  logged_state = refl;
  logged_at = refl;
  same_observatory = refl;
  same_user = refl;
  same_events = refl;
}

-- The agent restarted and names a mission of this observatory that is live, or names none while one
-- is and a process was remembered: that mission has FAILED with AGENT_LINK_LOST, its log says so, and
-- no session of it is left unrevoked.
pub mark_link_up-restarted :
    (o b old m : ℕ) (resume : Option ℕ) (now : ℕ) (t : Tables) (r : StoredMission)
    → remembered_boot o t ≡ some old
    → (old == b) ≡ false
    → ((resume ≡ some m) ⊎ ((resume ≡ none) × (live_mission_id o t ≡ some m)))
    → lookup m t.missions ≡ some r
    → r.core.observatory_id ≡ o
    → is_live_state r.core.state ≡ true
    → ((mark_link_up o b resume now t).0 ≡ some ResumeOutcome.resolved)
      × IsFailed (some agent_link_lost) now r (lookup m (mark_link_up o b resume now t).1.missions)
      × All (λ s. is_released m s ≡ true) (mark_link_up o b resume now t).1.sessions
unfolding mark_link_up
mark_link_up-restarted o b old m resume now t r same other which here ours live =
    let (outcome, row, sessions) =
      settle_on_hello-restarted o old m resume now t r which here ours live in
    let off : is_boot b (some old) ≡ false = other in
    rw (mark_link_up, same, off) (outcome, closed_out-IsFailed now r _ row, sessions)
