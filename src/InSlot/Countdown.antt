-- ===== src/InSlot/Countdown.antt =====
-- The realtime service's countdowns agree with the API's refusals: the client's clock reaches zero
-- when the refusal ends.
use online_observatory.Common.{ℕ, ◌+◌, ◌≤◌, ◌<◌, ◌≡◌, ◌↔◌, Bool, true, false, Option, some, arith}
use online_observatory.Mission.{observing}
use online_observatory.InSlot.{
  RetargetFacts, CaptureFacts, judge_retarget, judge_capture, dwell_locked, capture_cooldown,
  effective_retarget_allowed_at, capture_cooldown_ends_at, is_target, MissionLiveContext,
  ImageHealth, booked_session_telemetry, dwell_ends_at, is_live, is_terminal, is_unrecovered,
  finishing, parking, parked, passed,
}

-- The facts that the API judges a CAPTURE on are the rows that the realtime service reads.
pub record SameCapture (c : MissionLiveContext) (f : CaptureFacts) : Type 0 where
  pub state : f.state ≡ c.state
  pub awaiting : f.awaiting_verdict ≡ c.capture_awaiting_verdict
  pub last : f.last_issued_at ≡ c.last_capture_issued_at
  pub count : f.capture_count ≡ c.capture_count

-- While a live mission has room for a capture, the countdown shows an instant exactly when the API
-- refuses a CAPTURE for its cooldown until that instant.
pub capture_countdown :
    (c : MissionLiveContext) (f : CaptureFacts) (health : Option ImageHealth) (is_parked : Bool)
    (t : ℕ)
    → SameCapture c f
    → is_live c.state ≡ true
    → c.capture_count < 50
    → ((booked_session_telemetry (some c) health is_parked f.now).capture_allowed_at ≡ some t)
      ↔ (judge_capture f ≡ some (record { code = capture_cooldown; allowed_at = some t }))
unfolding booked_session_telemetry judge_capture capture_cooldown_ends_at
capture_countdown c f health is_parked t same live room = (λ h. ground arith, λ h. ground arith)

-- The facts that the API judges a RETARGET on are the rows, and the picture, that the realtime
-- service reads.
pub record SameRetarget (c : MissionLiveContext) (health : Option ImageHealth) (f : RetargetFacts)
    : Type 0 where
  pub state : f.state ≡ c.state
  pub dwell : f.dwell_ends ≡ dwell_ends_at c.current_target_since
  pub picture : f.unrecovered ≡ is_unrecovered health

-- While a mission is observing an object that is still listed, and a RETARGET names another one in
-- time, the countdown shows an instant exactly when the API refuses it as DWELL_LOCKED until then.
pub retarget_countdown :
    (c : MissionLiveContext) (f : RetargetFacts) (health : Option ImageHealth) (is_parked : Bool)
    (t : ℕ)
    → SameRetarget c health f
    → c.state ≡ observing
    → f.visible_now.current_listed ≡ true
    → f.now + 300000 ≤ f.session_ends_at
    → is_target f.current_target_id f.target_id ≡ false
    → ((booked_session_telemetry (some c) health is_parked f.now).retarget_allowed_at ≡ some t)
      ↔ (judge_retarget f ≡ some (record { code = dwell_locked; allowed_at = some t }))
unfolding booked_session_telemetry judge_retarget effective_retarget_allowed_at
retarget_countdown c f health is_parked t same on_object listed time_left elsewhere =
    (λ h. ground arith, λ h. ground arith)

-- FINISHING is shown exactly for a live mission whose slot has ended, PARKED and PARKING exactly for
-- one that has ended, by whether the mount reported parked.
pub end_phase_cases :
    (c : MissionLiveContext) (health : Option ImageHealth) (is_parked : Bool) (now : ℕ)
    → let phase = (booked_session_telemetry (some c) health is_parked now).end_phase in
      ((phase ≡ some finishing)
        ↔ ((is_live c.state ≡ true) × (passed c.session_ends_at now ≡ true)))
      × ((phase ≡ some parked) ↔ ((is_terminal c.state ≡ true) × (is_parked ≡ true)))
      × ((phase ≡ some parking) ↔ ((is_terminal c.state ≡ true) × (is_parked ≡ false)))
unfolding booked_session_telemetry
end_phase_cases c health is_parked now = (
  (λ h. ground arith, λ h. ground arith),
  (λ h. ground arith, λ h. ground arith),
  (λ h. ground arith, λ h. ground arith),
)
