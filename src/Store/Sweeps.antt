-- ===== src/Store/Sweeps.antt =====
-- How a booked session ends: `closeUnstartedMissions`, `claimEndedSlots` and `endMissionSession` of
-- apps/realtime/src/link/prisma-store.ts. A sweep takes its candidates from the tables as they were
-- when it began, and each of them in a transaction of its own.
use online_observatory.Common.{
  ℕ, Bool, true, false, ◌&&◌, ◌||◌, Option, none, some, List, [], ◌∷◌, map, if◌then◌else◌, ◌==◌,
  ltb, leb, any, Table, lookup, select,
}
use online_observatory.Mission.{
  scheduled, cancelled, observing, session_expired, same_state, is_terminal_state,
  session_end_reason_of,
}
use online_observatory.Link.Messages.{SessionEnded}
use online_observatory.Store.{
  Tables, StoredMission, CaptureRow, mission_not_started, mission_slot_ended, mission_session_ended,
  record_audit_event, queue_email, session_summary, matches, update_many, is_live_state,
  slot_end_of,
}

abbrev pub is_scheduled : StoredMission → Bool
is_scheduled m = same_state m.core.state scheduled

-- The booked slot is over.
abbrev pub slot_is_over : (now : ℕ) → StoredMission → Bool
slot_is_over now m = elim m.booking [ none ↦ false | some b ↦ leb (slot_end_of b) now ]

-- The slot has started, which is what the query asks.
abbrev slot_has_started : (now : ℕ) → StoredMission → Bool
slot_has_started now m = elim m.booking [ none ↦ false | some b ↦ leb b.slot_start_at now ]

abbrev pub not_started : (now : ℕ) → StoredMission → StoredMission
not_started now m = record m {
  core = record m.core {
    state = cancelled;
    failure_reason = some session_expired;
    completed_at = some now;
  };
  cloud_events =
      record {
        state = cancelled;
        failure_reason = some session_expired;
        command_id = none;
        occurred_at = now;
        simulated = m.core.simulated;
        is_demo = m.core.is_demo;
      }
      ∷ m.cloud_events;
}

-- One candidate's transaction: whether it was applied
unfoldable pub close_unstarted : (mission_id now : ℕ) → Tables → Bool × Tables
close_unstarted m now t =
    if matches is_scheduled (lookup m t.missions)
    then (
      true,
      record_audit_event (mission_not_started m)
          (record t { missions = update_many m is_scheduled (not_started now) t.missions }),
    )
    else (false, t)

-- The loop over the candidates
unfoldable pub sweep : (step : ℕ → Tables → Bool × Tables) → List ℕ → Tables → List ℕ × Tables
sweep step [] t = ([], t)
sweep step (m ∷ ms) t =
    let (applied, t1) = step m t in
    let (later, t2) = sweep step ms t1 in (if applied then m ∷ later else later, t2)

abbrev pub candidates : (StoredMission → Bool) → Table StoredMission → List ℕ
candidates p missions = map (λ m. m.0) (select (λ m. p m.1) missions)

-- `closeUnstartedMissions`
unfoldable pub close_unstarted_missions : (now : ℕ) → Tables → List ℕ × Tables
unfolding sweep close_unstarted
close_unstarted_missions now t =
    sweep (λ m. close_unstarted m now)
      (candidates (λ m. is_scheduled m && slot_has_started now m && slot_is_over now m) t.missions)
      t

abbrev pub is_unclaimed : StoredMission → Bool
is_unclaimed m = elim m.slot_end_notified_at [ none ↦ true | some at ↦ false ]

unfoldable pub claim_slot_end : (mission_id now : ℕ) → Tables → Bool × Tables
claim_slot_end m now t =
    if matches is_unclaimed (lookup m t.missions)
    then (
      true,
      record_audit_event (mission_slot_ended m) (record t {
        missions =
            update_many m is_unclaimed (λ r. record r { slot_end_notified_at = some now })
              t.missions;
      }),
    )
    else (false, t)

-- `claimEndedSlots`, by the missions' ids
unfoldable pub claim_ended_slots : (now : ℕ) → Tables → List ℕ × Tables
unfolding sweep claim_slot_end
claim_ended_slots now t =
    sweep (λ m. claim_slot_end m now)
      (candidates
        (λ m.
          is_live_state m.core.state
          && is_unclaimed m
          && slot_has_started now m
          && slot_is_over now m)
        t.missions)
      t

abbrev insert_capture : CaptureRow → List CaptureRow → List CaptureRow
insert_capture c [] = c ∷ []
insert_capture c (d ∷ ds) =
    let rest = insert_capture c ds in
    if ltb d.captured_at c.captured_at then d ∷ rest else c ∷ d ∷ ds

abbrev by_capture_time : List CaptureRow → List CaptureRow
by_capture_time [] = []
by_capture_time (c ∷ cs) = insert_capture c (by_capture_time cs)

-- The mission's captures, the earliest first
abbrev pub captures_of : (mission_id : ℕ) → List CaptureRow → List ℕ
captures_of m captures =
    map (λ c. c.command_id) (by_capture_time (select (λ c. c.mission_id == m) captures))

abbrev pub is_unannounced : StoredMission → Bool
is_unannounced m = elim m.session_ended_notified_at [ none ↦ true | some at ↦ false ]

abbrev has_target : StoredMission → Bool
has_target m = elim m.current_target_id [ none ↦ false | some q ↦ true ]

abbrev pub is_booked : StoredMission → Bool
is_booked m = elim m.booking [ none ↦ false | some b ↦ true ]

-- A session that ends: the mission is over and was on an object, and nobody has been told.
abbrev pub can_end : StoredMission → Bool
can_end m = is_terminal_state m.core.state && has_target m && is_unannounced m

abbrev pub reached_observing : StoredMission → Bool
reached_observing m =
    any (λ e. same_state e.state observing) m.events
    || any (λ e. same_state e.state observing) m.cloud_events

abbrev or_now : Option ℕ → ℕ → ℕ
or_now none now = now
or_now (some at) now = at

abbrev pub ended_record :
    ℕ → StoredMission → (parked queued : Bool) → (now : ℕ) → Tables → SessionEnded
ended_record k m parked queued now t = record {
  mission_id = k;
  state = m.core.state;
  failure_reason = m.core.failure_reason;
  end_reason = session_end_reason_of m.core.state m.core.failure_reason;
  ended_at = or_now m.core.completed_at now;
  parked = parked;
  capture_ids = captures_of k t.captures;
  summary_email_queued = queued;
}

-- `endMissionSession`
unfoldable pub end_mission_session :
    (mission_id : ℕ) → (parked : Bool) → (now : ℕ) → Tables → Option SessionEnded × Tables
unfolding queue_email
end_mission_session k parked now t = elim (lookup k t.missions) [
  | none ↦ (none, t)
  | some m ↦
      if can_end m
      then (let t1 = record t {
        missions =
            update_many k is_unannounced (λ r. record r { session_ended_notified_at = some now })
              t.missions;
      } in
          let (queued, t2) =
            if is_booked m && reached_observing m
            then queue_email (session_summary k) t1
            else (false, t1) in
          (
            some (ended_record k m parked queued now t),
            record_audit_event
                (mission_session_ended k (session_end_reason_of m.core.state m.core.failure_reason)
                  parked)
                t2,
          ))
      else (none, t)
]
