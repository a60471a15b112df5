-- ===== src/Store/Commands.antt =====
-- What the agent's verdicts do to commands and missions.
use online_observatory.Common.{
  ℕ, Bool, true, false, Option, none, some, List, [], ◌∷◌, ◌≡◌, ◌≢◌, ◌⊎◌, refl, inl, inr,
  if◌then◌else◌, Bool-cases, Option-cases, arith, ◌==◌, ==_iff, ==_self, lookup, lookup-adjust,
  map_some, ◌∙◌, All,
}
use online_observatory.Mission.{MissionState, MissionFailureReason, preparing, safety_refused}
use online_observatory.Link.Messages.{CommandAck, CommandAcceptanceStatus}
use online_observatory.Link.Storage.{CommandVerdictOutcome}
use online_observatory.Store.{
  Tables, record_audit_event, verdict_recorded, StoredMission, CloudEvent, CommandRow,
  ObservatoryCommandStatus, goto, SessionRow, RevokedFor, revoke_sessions, matches, update_many,
}
use online_observatory.Store.Verdicts.{
  record_command_verdict, after_verdict, fail_refused_start, command_status_for,
  is_terminal_command_status, is_start_not_run, is_starting_goto, is_accepted, is_preparing_here,
  is_undecided, decided, refused_start,
}

-- A command that is decided is not decided again, whatever verdict arrives: the store is as it was.
pub record_command_verdict-decided :
    (o : ℕ) (k : CommandAck) (at now : ℕ) (t : Tables) (c : CommandRow)
    → lookup k.command_id t.commands ≡ some c
    → is_terminal_command_status c.status ≡ true
    → ((record_command_verdict o k at now t).1 ≡ t)
      × ((record_command_verdict o k at now t).0 ≢ CommandVerdictOutcome.recorded)
unfolding record_command_verdict
record_command_verdict-decided o k at now t c there done =
    elim (Bool-cases (c.observatory_id == o)) [
      | inr other ↦ rw (record_command_verdict, there, other) (refl, λ h. absurd (cc))
      | inl ours ↦ elim (Option-cases (command_status_for k.status)) [
        | inl dup ↦ rw (record_command_verdict, there, ours, dup) (refl, λ h. absurd (cc))
        | inr (s, is) ↦ rw (record_command_verdict, there, ours, is, done) (refl, λ h. absurd (cc))
      ]
    ]

-- No session of the mission is left that is not revoked.
abbrev pub is_released : (mission_id : ℕ) → SessionRow → Bool
is_released m s =
    if s.mission_id == m then elim s.revoked [ none ↦ false | some r ↦ true ] else true

pub revoke_sessions-All :
    (m now : ℕ) (why : RevokedFor) (ss : List SessionRow)
    → All (λ s. is_released m s ≡ true) (revoke_sessions m now why ss)
revoke_sessions-All m now why [] = tt
revoke_sessions-All m now why (s ∷ ss) = elim (Bool-cases (s.mission_id == m)) [
  | inr other ↦ rw (other) (rw other refl, revoke_sessions-All m now why ss)
  | inl ours ↦ elim (Option-cases s.revoked) [
    | inl e ↦ simp (ours, e) (refl, revoke_sessions-All m now why ss)
    | inr (r, e) ↦ simp (ours, e) (refl, revoke_sessions-All m now why ss)
  ]
]

refused_not_accepted :
    (v : CommandAcceptanceStatus) (s : ObservatoryCommandStatus)
    → command_status_for v ≡ some s
    → is_start_not_run s ≡ true
    → is_accepted v ≡ false
refused_not_accepted v s e h = ground arith

-- What `failRefusedStart` does to a mission that is PREPARING
fail_refused_start-preparing :
    (o i : ℕ) (k : CommandAck) (at now : ℕ) (t : Tables) (m : StoredMission)
    → lookup i t.missions ≡ some m
    → is_preparing_here o m ≡ true
    → (lookup i (fail_refused_start o i k at now t).missions ≡ some (refused_start k at m))
      × All (λ s. is_released i s ≡ true) (fail_refused_start o i k at now t).sessions
      × ((fail_refused_start o i k at now t).notified ≡ i ∷ t.notified)
unfolding fail_refused_start
fail_refused_start-preparing o i k at now t m here prep =
    let matched : matches (is_preparing_here o) (lookup i t.missions) ≡ true = rw here prep in
    rw (fail_refused_start, matched)
      (
        lookup-adjust i i _ t.missions ∙ rw (==_self i, here, map_some, prep) refl,
        revoke_sessions-All i now RevokedFor.start_refused_by_agent t.sessions,
        refl,
      )

-- The agent's reason is one of its SAFETY_ reasons.
abbrev pub is_safety_refusal : CommandAck → Bool
is_safety_refusal k = elim k.rejection_reason [ none ↦ false | some r ↦ r.safety ]

-- What becomes of a mission that ends: it FAILED for that reason, its log says so at that moment,
-- and the columns of the sale stay.
pub record IsFailed (why : Option MissionFailureReason) (at : ℕ) (m : StoredMission)
    (after : Option StoredMission) : Type 0 where
  pub row : StoredMission
  pub event : CloudEvent
  pub is_there : after ≡ some row
  pub has_failed : row.core.state ≡ MissionState.failed
  pub reason : row.core.failure_reason ≡ why
  pub logged : row.cloud_events ≡ event ∷ m.cloud_events
  pub logged_state : event.state ≡ MissionState.failed
  pub logged_at : event.occurred_at ≡ at
  pub same_observatory : row.core.observatory_id ≡ m.core.observatory_id
  pub same_user : row.user_id ≡ m.user_id
  pub same_events : row.events ≡ m.events

refused_start-IsFailed :
    (k : CommandAck) (at : ℕ) (m : StoredMission) (after : Option StoredMission)
    → after ≡ some (refused_start k at m)
    → IsFailed (if is_safety_refusal k then some safety_refused else none) at m after
refused_start-IsFailed k at m after e = record {
  row = refused_start k at m;
  event = _;
  is_there = e;
  has_failed = refl;
  reason = ground arith;
  logged = refl;
  logged_state = refl;
  logged_at = refl;
  same_observatory = refl;
  same_user = refl;
  same_events = refl;
}

refuses_start :
    (o : ℕ) (k : CommandAck) (at now : ℕ) (t : Tables) (c : CommandRow)
    (s : ObservatoryCommandStatus) (m : StoredMission)
    → lookup k.command_id t.commands ≡ some c
    → c.observatory_id ≡ o
    → is_terminal_command_status c.status ≡ false
    → command_status_for k.status ≡ some s
    → is_start_not_run s ≡ true
    → is_starting_goto c.payload ≡ true
    → lookup c.mission_id t.missions ≡ some m
    → m.core.observatory_id ≡ o
    → m.core.state ≡ preparing
    → (let after = (record_command_verdict o k at now t).1 in
        ((record_command_verdict o k at now t).0 ≡ CommandVerdictOutcome.recorded)
        × IsFailed
            (if is_safety_refusal k then some safety_refused else none)
            at
            m
            (lookup c.mission_id after.missions)
        × All (λ s. is_released c.mission_id s ≡ true) after.sessions
        × (after.notified ≡ c.mission_id ∷ t.notified))
unfolding record_command_verdict after_verdict fail_refused_start
refuses_start o k at now t c s m there ours undecided status refused start here owner prep =
    let t1 = record_audit_event (verdict_recorded k.command_id) (record t {
      commands = update_many k.command_id (is_undecided o) (decided k at s) t.commands;
    }) in
    let prep_here : is_preparing_here o m ≡ true = rw (owner, prep, ==_self o) refl in
    let (row, released, told) =
      fail_refused_start-preparing o c.mission_id k at now t1 m here prep_here in
    rw
      (
        record_command_verdict,
        there,
        (==_iff c.observatory_id o).1 ours,
        status,
        undecided,
        after_verdict,
        refused_not_accepted k.status s status refused,
        refused,
        start,
      )
      (refl, refused_start-IsFailed k at m _ row, released, told)

start_not_run :
    (v : CommandAcceptanceStatus)
    → (v ≡ CommandAcceptanceStatus.rejected)
      ⊎ ((v ≡ CommandAcceptanceStatus.expired) ⊎ (v ≡ CommandAcceptanceStatus.failed))
    → (s : ObservatoryCommandStatus) × (command_status_for v ≡ some s) × (is_start_not_run s ≡ true)
start_not_run v (inl e) = (ObservatoryCommandStatus.rejected, rw e refl, refl)
start_not_run v (inr (inl e)) = (ObservatoryCommandStatus.expired, rw e refl, refl)
start_not_run v (inr (inr e)) = (ObservatoryCommandStatus.failed, rw e refl, refl)

-- A starting GOTO, no recentering, that the agent reports as rejected, expired or failed before it
-- was decided and while its mission is still PREPARING: the mission has
-- FAILED, with SAFETY_REFUSED when the reason is a SAFETY_ one and without a reason otherwise, its
-- log says so, every session of it is revoked, and the relay is told.
pub record_command_verdict-refuses_start :
    (o : ℕ) (k : CommandAck) (at now : ℕ) (t : Tables) (c : CommandRow) (target : Option ℕ)
    (m : StoredMission)
    → lookup k.command_id t.commands ≡ some c
    → c.observatory_id ≡ o
    → is_terminal_command_status c.status ≡ false
    → (k.status ≡ CommandAcceptanceStatus.rejected)
      ⊎ ((k.status ≡ CommandAcceptanceStatus.expired) ⊎ (k.status ≡ CommandAcceptanceStatus.failed))
    → c.payload ≡ goto target false
    → lookup c.mission_id t.missions ≡ some m
    → m.core.observatory_id ≡ o
    → m.core.state ≡ preparing
    → (let after = (record_command_verdict o k at now t).1 in
        ((record_command_verdict o k at now t).0 ≡ CommandVerdictOutcome.recorded)
        × IsFailed
            (if is_safety_refusal k then some safety_refused else none)
            at
            m
            (lookup c.mission_id after.missions)
        × All (λ s. is_released c.mission_id s ≡ true) after.sessions
        × (after.notified ≡ c.mission_id ∷ t.notified))
record_command_verdict-refuses_start o k at now t c target m there ours undecided not_run goes here
      owner prep =
    let (s, status, refused) = start_not_run k.status not_run in
    refuses_start o k at now t c s m there ours undecided status refused (rw goes refl) here owner
      prep
