-- ===== src/Entitlements.antt =====
-- What an ended slot entitles its customer to: apps/realtime/src/refunds/entitlements.ts. Instants are
-- milliseconds.
pub mod Measure
pub mod Union
pub mod Edges
pub mod Losses
pub mod Timeline
pub mod Endings
pub mod Reference
mod Tests
use online_observatory.Common.{
  ℕ, ◌+◌, ◌*◌, ◌-◌, ◌/◌, min, max, Bool, true, false, not, ◌&&◌, ◌||◌, Option, none, some, List, [],
  ◌∷◌, ◌++◌, if◌then◌else◌, ◌==◌, ltb, leb, any, select,
}
use online_observatory.Mission.{
  MissionState, MissionFailureReason, failed, cancelled, weather_hold, hardware_error, not_visible,
  customer_cancelled, payment_failed, session_expired, weather_unsafe,
}

abbrev pub reschedule_window_days : ℕ
reschedule_window_days = 30

abbrev pub evaluation_grace_minutes : ℕ
evaluation_grace_minutes = 5

pub data Cause : Type 0 where
  weather observatory_fault : Cause

pub record Interval : Type 0 where
  pub from : ℕ
  pub to : ℕ
  pub cause : Cause

pub record SlotLoss : Type 0 where
  pub minutes_lost : ℕ
  pub loss_cause : Option Cause

abbrev pub is_weather : Interval → Bool
is_weather i = elim i.cause [ weather ↦ true | observatory_fault ↦ false ]

-- The intervals within the slot, the empty ones left out
abbrev pub clip : (start stop : ℕ) → List Interval → List Interval
clip start stop [] = []
clip start stop (i ∷ is) =
    let rest = clip start stop is in
    let c = record i { from = max i.from start; to = min i.to stop } in
    if ltb c.from c.to then c ∷ rest else rest

-- Into a sorted list without duplicates
abbrev pub insert_edge : ℕ → List ℕ → List ℕ
insert_edge x [] = x ∷ []
insert_edge x (e ∷ es) =
    let rest = insert_edge x es in
    if x == e then e ∷ es else if ltb x e then x ∷ e ∷ es else e ∷ rest

-- `[...new Set(...)].sort(...)` of all ends
abbrev pub edges_of : List Interval → List ℕ
edges_of [] = []
edges_of (i ∷ is) = insert_edge i.from (insert_edge i.to (edges_of is))

-- The interval covers the whole gap.
abbrev pub spans : (from to : ℕ) → Interval → Bool
spans from to i = leb i.from from && leb to i.to

-- The loop over adjacent edges: the milliseconds lost to weather, and to a fault
unfoldable pub sum_gaps : List Interval → ℕ → List ℕ → ℕ × ℕ
sum_gaps clipped from [] = (0, 0)
sum_gaps clipped from (to ∷ edges) =
    let (wet, fault) = sum_gaps clipped to edges in
    if any (λ i. spans from to i) clipped
    then (if any (λ i. spans from to i && is_weather i) clipped
        then (wet + (to - from), fault)
        else (wet, fault + (to - from)))
    else (wet, fault)

unfoldable pub sum_edges : List Interval → List ℕ → ℕ × ℕ
unfolding sum_gaps
sum_edges clipped [] = (0, 0)
sum_edges clipped (e ∷ es) = sum_gaps clipped e es

-- `Math.round(ms / 60_000)`
abbrev pub round_minutes : ℕ → ℕ
round_minutes ms = (ms + 30000) / 60000

abbrev pub loss_of : ℕ × ℕ → SlotLoss
loss_of (wet, fault) =
    if wet + fault == 0 then record { minutes_lost = 0; loss_cause = none } else record {
      minutes_lost = round_minutes (wet + fault);
      loss_cause = some (if leb fault wet then weather else observatory_fault);
    }

-- `lostWithin`
unfoldable pub lost_within : List Interval → (start stop : ℕ) → SlotLoss
unfolding sum_edges
lost_within intervals start stop =
    let clipped = clip start stop intervals in loss_of (sum_edges clipped (edges_of clipped))

pub data AvailabilityAction : Type 0 where
  weather_hold_set weather_hold_cleared agent_link_lost agent_link_up : AvailabilityAction

pub record AvailabilityRow : Type 0 where
  pub action : AvailabilityAction
  pub created_at : ℕ

abbrev pub or_at : Option ℕ → ℕ → Option ℕ
or_at none at = some at
or_at (some since) at = some since

abbrev pub since_then : Option ℕ → ℕ → Cause → List Interval
since_then none at cause = []
since_then (some since) at cause = record { from = since; to = at; cause = cause } ∷ []

-- The loop over the audit rows of `unavailability`, which come in order: the hold and the outage that
-- are in force, the intervals that are over, and at `stop` those still in force.
unfoldable pub unavailable :
    (hold down : Option ℕ) → (stop : ℕ) → List AvailabilityRow → List Interval
unavailable hold down stop [] =
    since_then hold stop weather ++ since_then down stop observatory_fault
unavailable hold down stop (r ∷ rs) = elim r.action [
  | weather_hold_set ↦ unavailable (or_at hold r.created_at) down stop rs
  | weather_hold_cleared ↦ since_then hold r.created_at weather ++ unavailable none down stop rs
  | agent_link_lost ↦ unavailable hold (or_at down r.created_at) stop rs
  | agent_link_up ↦ since_then down r.created_at observatory_fault ++ unavailable hold none stop rs
]

-- What is read of the booking's mission: its final event is its latest.
pub record EndedMission : Type 0 where
  pub state : MissionState
  pub failure_reason : Option MissionFailureReason
  pub last_event_at : Option ℕ

abbrev pub customer_endings : Option MissionFailureReason → Bool
customer_endings (some customer_cancelled) = true
customer_endings (some payment_failed) = true
customer_endings _ = false

abbrev pub ended_early : MissionState → Bool
ended_early failed = true
ended_early cancelled = true
ended_early weather_hold = true
ended_early hardware_error = true
ended_early not_visible = true
ended_early _ = false

abbrev pub is_not_started : Option MissionFailureReason → Bool
is_not_started (some session_expired) = true
is_not_started _ = false

abbrev pub ending_cause : MissionState → Option MissionFailureReason → Cause
ending_cause weather_hold r = weather
ending_cause s (some weather_unsafe) = weather
ending_cause s r = observatory_fault

abbrev pub customer_ended : Option EndedMission → Bool
customer_ended none = false
customer_ended (some m) = customer_endings m.failure_reason

-- The mission ending on our side: from its last event to the end of the slot
abbrev pub our_ending : Option EndedMission → (stop : ℕ) → List Interval
our_ending none stop = []
our_ending (some m) stop =
    if ended_early m.state && not (is_not_started m.failure_reason)
    then since_then m.last_event_at stop (ending_cause m.state m.failure_reason)
    else []

abbrev pub slot_stop : (start duration_minutes : ℕ) → ℕ
slot_stop start duration = start + duration * 60000

-- The loss of a booking's slot. `rows` are the observatory's audit rows for the slot, as they are
-- read: the last hold and the last link row before it, then those within it.
unfoldable pub slot_loss :
    Option EndedMission → List AvailabilityRow → (start duration_minutes : ℕ) → SlotLoss
unfolding lost_within unavailable
slot_loss mission rows start duration =
    let stop = slot_stop start duration in
    if customer_ended mission
    then record { minutes_lost = 0; loss_cause = none }
    else lost_within (unavailable none none stop rows ++ our_ending mission stop) start stop

pub data EntitlementOutcome : Type 0 where
  open_entitlement no_entitlement : EntitlementOutcome

pub record EntitlementRow : Type 0 where
  pub outcome : EntitlementOutcome
  pub entitled_for : Option Cause
  pub minutes_lost : ℕ
  pub evaluated_at : ℕ
  pub expires_at : Option ℕ

abbrev pub is_entitled : SlotLoss → (duration_minutes : ℕ) → Bool
is_entitled loss duration = elim loss.loss_cause [
  | none ↦ false
  | some c ↦ leb duration (loss.minutes_lost * 2)
]

-- The row that `evaluateEndedSlots` writes
unfoldable pub evaluate : SlotLoss → (duration_minutes now : ℕ) → EntitlementRow
evaluate loss duration now =
    if is_entitled loss duration
    then record {
      outcome = open_entitlement;
      entitled_for = loss.loss_cause;
      minutes_lost = loss.minutes_lost;
      evaluated_at = now;
      expires_at = some (now + reschedule_window_days * 86400000);
    }
    else record {
      outcome = no_entitlement;
      entitled_for = none;
      minutes_lost = loss.minutes_lost;
      evaluated_at = now;
      expires_at = none;
    }
