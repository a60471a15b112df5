-- ===== src/Store/Hello.antt =====
-- The hello and the loss of a link: `recordInboundMessage`, `markLinkUp` with `settleHeldMission`,
-- `markLinkLost` and `recordPosture` of apps/realtime/src/link/prisma-store.ts.
use online_observatory.Common.{
  ℕ, Bool, true, false, not, Option, none, some, [], ◌∷◌, if◌then◌else◌, ◌==◌, any, Table, lookup,
  adjust,
}
use online_observatory.Mission.{failed, agent_link_lost}
use online_observatory.Link.Messages.{AgentPosture, disarmed}
use online_observatory.Link.Storage.{ResumeOutcome}
use online_observatory.Store.{
  Tables, StoredMission, RevokedFor, link_up, link_lost, posture_changed, resolved_after_restart,
  record_audit_event, is_live_state, revoke_sessions,
}

-- `createMany` with `skipDuplicates` on the primary key
unfoldable pub record_inbound_message : (message_id observatory_id : ℕ) → Tables → Bool × Tables
record_inbound_message i o t =
    if any (λ j. i == j) t.messages
    then (false, t)
    else (true, record t { messages = i ∷ t.messages })

abbrev pub closed_out : (now : ℕ) → StoredMission → StoredMission
closed_out now m = record m {
  core = record m.core { state = failed; failure_reason = some agent_link_lost };
  cloud_events =
      record {
        state = failed;
        failure_reason = none;
        command_id = none;
        occurred_at = now;
        simulated = m.core.simulated;
        is_demo = m.core.is_demo;
      }
      ∷ m.cloud_events;
}

-- `settleHeldMission`. The guarded update and the event are of one transaction.
unfoldable pub settle_held_mission :
    (observatory_id mission_id : ℕ)
    → (restarted : Bool) → (now : ℕ) → Tables
    → ResumeOutcome × Tables
settle_held_mission o m restarted now t = elim (lookup m t.missions) [
  | none ↦ (ResumeOutcome.not_found, t)
  | some r ↦
      if r.core.observatory_id == o
      then (if restarted
          then (if is_live_state r.core.state
              then (
                ResumeOutcome.resolved,
                record_audit_event (resolved_after_restart m) (record t {
                  missions = adjust m (closed_out now) t.missions;
                  sessions = revoke_sessions m now RevokedFor.agent_link_lost t.sessions;
                }),
              )
              else (ResumeOutcome.not_live, t))
          else (if is_live_state r.core.state
              then (ResumeOutcome.still_live, t)
              else (ResumeOutcome.not_live, t)))
      else (ResumeOutcome.wrong_observatory, t)
]

-- `findFirst` of the observatory's live mission
abbrev pub find_live : (observatory_id : ℕ) → Table StoredMission → Option ℕ
find_live o [] = none
find_live o ((m, r) ∷ rest) =
    let later = find_live o rest in
    if r.core.observatory_id == o
    then (if is_live_state r.core.state then some m else later)
    else later

-- `liveMissionId`
unfoldable pub live_mission_id : (observatory_id : ℕ) → Tables → Option ℕ
live_mission_id o t = find_live o t.missions

abbrev pub is_boot : ℕ → Option ℕ → Bool
is_boot b none = false
is_boot b (some remembered) = remembered == b

abbrev pub remembered_boot : ℕ → Tables → Option ℕ
remembered_boot o t = elim (lookup o t.observatories) [ none ↦ none | some r ↦ r.agent_booted_at ]

-- What becomes of the mission that the agent names, or, when a restarted one names none, of the
-- mission that is live.
unfoldable pub settle_on_hello :
    (observatory_id : ℕ)
    → (remembered : Option ℕ) → (restarted : Bool) → (resume_mission_id : Option ℕ) → (now : ℕ)
    → Tables
    → Option ResumeOutcome × Tables
unfolding settle_held_mission live_mission_id
settle_on_hello o remembered restarted (some m) now t =
    let (outcome, t1) = settle_held_mission o m restarted now t in (some outcome, t1)
settle_on_hello o none restarted none now t = (none, t)
settle_on_hello o (some b) restarted none now t =
    if restarted
    then elim (live_mission_id o t) [
      | none ↦ (none, t)
      | some m ↦ let (outcome, t1) = settle_held_mission o m restarted now t in (some outcome, t1)
    ]
    else (none, t)

-- `markLinkUp`, with `resumed` for its answer
unfoldable pub mark_link_up :
    (observatory_id booted_at : ℕ)
    → (resume_mission_id : Option ℕ) → (now : ℕ) → Tables
    → Option ResumeOutcome × Tables
unfolding settle_on_hello
mark_link_up o booted_at resume now t =
    let remembered = remembered_boot o t in
    let (resumed, t1) =
      settle_on_hello o remembered (not (is_boot booted_at remembered)) resume now t in
    (
      resumed,
      record_audit_event (link_up o) (record t1 {
        observatories =
            adjust o
              (λ r. record r {
                link_up = true;
                link_lost_at = none;
                agent_booted_at = some booted_at;
              })
              t1.observatories;
      }),
    )

unfoldable pub mark_link_lost : (observatory_id at : ℕ) → Tables → Tables
mark_link_lost o at t = record_audit_event (link_lost o) (record t {
  observatories =
      adjust o (λ r. record r { link_up = false; link_lost_at = some at }) t.observatories;
})

abbrev reason_if_disarmed : AgentPosture → Option ℕ → Option ℕ
reason_if_disarmed disarmed r = r
reason_if_disarmed _ r = none

unfoldable pub record_posture : (observatory_id : ℕ) → AgentPosture → Option ℕ → Tables → Tables
record_posture o p r t = record_audit_event (posture_changed o) (record t {
  observatories =
      adjust o
        (λ row. record row { agent_posture = some p; agent_disarm_reason = reason_if_disarmed p r })
        t.observatories;
})
