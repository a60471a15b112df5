-- ===== src/InSlot/Tests.antt =====
-- The in-slot rules at a session that ends at 1,800,000 ms.
use online_observatory.Common.{
  ℕ, ◌+◌, ◌≤◌, ◌<◌, ◌≡◌, ◌≢◌, ◌↔◌, refl, Bool, true, false, none, some, arith,
}
use online_observatory.Mission.{observing}
use online_observatory.InSlot.{
  RetargetFacts, CaptureFacts, InSlotRefusal, MissionLiveContext, judge_retarget, judge_capture,
  dwell_locked, capture_cooldown, capture_cooldown_ends_at, effective_retarget_allowed_at,
  booked_session_telemetry, dwell_ends_at, finishing, parking, parked, is_live, is_terminal, passed,
}
use online_observatory.InSlot.Rules.{
  judge_retarget-dwell, judge_capture-cooldown, judge_retarget-accepts, judge_capture-accepts,
  MayRetarget, MayCapture,
}
use online_observatory.InSlot.Countdown.{
  capture_countdown, retarget_countdown, SameCapture, SameRetarget, end_phase_cases,
}

abbrev held : RetargetFacts
held = record {
  state = observing;
  now = 100000;
  session_ends_at = 1800000;
  current_target_id = some 1;
  target_id = 2;
  dwell_ends = some 700000;
  unrecovered = false;
  visible_now = record { current_listed = true; requested_listed = true };
}

abbrev cooling : CaptureFacts
cooling = record {
  state = observing;
  now = 100000;
  session_ends_at = 1800000;
  awaiting_verdict = false;
  last_issued_at = some 90000;
  capture_count = 3;
}

abbrev context : MissionLiveContext
context = record {
  state = observing;
  current_target_id = some 1;
  current_target_since = some 100000;
  session_ends_at = some 1800000;
  last_capture_issued_at = some 90000;
  capture_awaiting_verdict = false;
  capture_count = 3;
}

abbrev locked : InSlotRefusal
locked = record { code = dwell_locked; allowed_at = some 700000 }

abbrev cooldown : InSlotRefusal
cooldown = record { code = capture_cooldown; allowed_at = some 120000 }

judge_retarget-accepts_example : (judge_retarget held ≡ none) ↔ MayRetarget held
judge_retarget-accepts_example = judge_retarget-accepts held

judge_capture-accepts_example : (judge_capture cooling ≡ none) ↔ MayCapture cooling
judge_capture-accepts_example = judge_capture-accepts cooling

judge_retarget-dwell_example :
    (t : ℕ) × (locked.allowed_at ≡ some t)
    × (held.dwell_ends ≡ some t)
    × (held.now < t)
    × (t ≤ 700000
        → (r' : InSlotRefusal) → judge_retarget (record held { now = 700000 }) ≡ some r'
        → r'.code ≢ dwell_locked)
unfolding judge_retarget effective_retarget_allowed_at
judge_retarget-dwell_example = judge_retarget-dwell held locked 700000 refl refl

judge_capture-cooldown_example :
    (last : ℕ) × (cooling.last_issued_at ≡ some last)
    × (cooldown.allowed_at ≡ some (last + 30000))
    × (cooling.now < last + 30000)
    × (last + 30000 ≤ 120000
        → (r' : InSlotRefusal) → judge_capture (record cooling { now = 120000 }) ≡ some r'
        → r'.code ≢ capture_cooldown)
unfolding judge_capture capture_cooldown_ends_at
judge_capture-cooldown_example = judge_capture-cooldown cooling cooldown 120000 refl refl

cooling-SameCapture : SameCapture context cooling
cooling-SameCapture = record { state = refl; awaiting = refl; last = refl; count = refl }

held-SameRetarget : SameRetarget context none held
unfolding dwell_ends_at
held-SameRetarget = record { state = refl; dwell = refl; picture = refl }

capture_countdown_example :
    ((booked_session_telemetry (some context) none false 100000).capture_allowed_at ≡ some 120000)
    ↔ (judge_capture cooling ≡ some cooldown)
capture_countdown_example =
    capture_countdown context cooling none false 120000 cooling-SameCapture refl (omega arith)

retarget_countdown_example :
    ((booked_session_telemetry (some context) none false 100000).retarget_allowed_at ≡ some 700000)
    ↔ (judge_retarget held ≡ some locked)
retarget_countdown_example =
    retarget_countdown context held none false 700000 held-SameRetarget refl refl (omega arith) refl

end_phase_cases_example :
    let phase = (booked_session_telemetry (some context) none false 1800000).end_phase in
    ((phase ≡ some finishing)
      ↔ ((is_live observing ≡ true) × (passed (some 1800000) 1800000 ≡ true)))
    × ((phase ≡ some parked) ↔ ((is_terminal observing ≡ true) × (◌≡◌ {A = Bool} false true)))
    × ((phase ≡ some parking) ↔ ((is_terminal observing ≡ true) × (◌≡◌ {A = Bool} false false)))
end_phase_cases_example = end_phase_cases context none false 1800000
