-- ===== src/InSlot/Rules.antt =====
-- The in-slot judgements against their rules.
use online_observatory.Common.{
  ℕ, ◌+◌, ◌≤◌, ◌<◌, ◌≡◌, ◌≢◌, ◌↔◌, inl, inr, true, false, Option, none, some, arith, Option-cases,
}
use online_observatory.Mission.{MissionState, observing, capturing, processing, same_state}
use online_observatory.InSlot.{
  RetargetFacts, CaptureFacts, InSlotRefusal, judge_retarget, judge_capture, dwell_locked,
  capture_cooldown, effective_retarget_allowed_at, capture_cooldown_ends_at, is_target,
}

-- The dwell lock binds.
abbrev pub IsHeld : RetargetFacts → Type 0
IsHeld f =
    (t : ℕ) × (f.dwell_ends ≡ some t)
    × (f.now < t)
    × (f.unrecovered ≡ false)
    × (f.visible_now.current_listed ≡ true)

-- Every rule of ADR-079 for a RETARGET.
pub record MayRetarget (f : RetargetFacts) : Type 0 where
  pub is_observing : f.state ≡ observing
  pub time_left : f.now + 300000 ≤ f.session_ends_at
  pub elsewhere : f.current_target_id ≢ some f.target_id
  pub not_held : ¬ IsHeld f
  pub is_listed : f.visible_now.requested_listed ≡ true

is_observing_of : (s : MissionState) → same_state s observing ≡ true → s ≡ observing
is_observing_of s h = ground arith

lock_open :
    (f : RetargetFacts)
    → effective_retarget_allowed_at f.dwell_ends f.unrecovered f.visible_now.current_listed f.now
      ≡ none
    → ¬ IsHeld f
unfolding effective_retarget_allowed_at
lock_open f e (t, ends, later, clear, listed) = ground arith

lock_shut :
    (f : RetargetFacts) (t : ℕ)
    → effective_retarget_allowed_at f.dwell_ends f.unrecovered f.visible_now.current_listed f.now
      ≡ some t
    → (f.dwell_ends ≡ some t)
      × (f.now < t)
      × (f.unrecovered ≡ false)
      × (f.visible_now.current_listed ≡ true)
unfolding effective_retarget_allowed_at
lock_shut f t e = ground arith

is_target-of : (c : Option ℕ) (t : ℕ) → is_target c t ≡ false → c ≢ some t
is_target-of c t h e = ground arith

-- A RETARGET is accepted exactly when every rule holds.
pub judge_retarget-accepts : (f : RetargetFacts) → (judge_retarget f ≡ none) ↔ MayRetarget f
unfolding judge_retarget
judge_retarget-accepts f =
    let lock =
      effective_retarget_allowed_at f.dwell_ends f.unrecovered f.visible_now.current_listed f.now in
    elim (Option-cases lock) [
      | inl open_lock ↦ (
        λ h. record {
          is_observing = ground arith;
          time_left = ground arith;
          elsewhere = is_target-of f.current_target_id f.target_id (ground arith);
          not_held = lock_open f open_lock;
          is_listed = ground arith;
        },
        λ m. ground arith,
      )
      | inr (t, shut) ↦ (
        λ h. absurd (ground arith),
        λ m.
            let (ends, later, clear, listed) = lock_shut f t shut in
            absurd (m.not_held (t, ends, later, clear, listed)),
      )
    ]

lock_past :
    (f : RetargetFacts) (t later : ℕ) (r : InSlotRefusal)
    → f.dwell_ends ≡ some t
    → t ≤ later
    → judge_retarget (record f { now = later }) ≡ some r
    → r.code ≢ dwell_locked
unfolding judge_retarget effective_retarget_allowed_at
lock_past f t later r ends past h locked = ground arith

-- A RETARGET refused as DWELL_LOCKED names an instant: the end of the dwell, which is to come, and
-- from which on the same request is not refused as DWELL_LOCKED.
pub judge_retarget-dwell :
    (f : RetargetFacts) (r : InSlotRefusal) (later : ℕ)
    → judge_retarget f ≡ some r
    → r.code ≡ dwell_locked
    → (t : ℕ) × (r.allowed_at ≡ some t)
      × (f.dwell_ends ≡ some t)
      × (f.now < t)
      × (t ≤ later
          → (r' : InSlotRefusal) → judge_retarget (record f { now = later }) ≡ some r'
          → r'.code ≢ dwell_locked)
unfolding judge_retarget
judge_retarget-dwell f r later h code =
    let lock =
      effective_retarget_allowed_at f.dwell_ends f.unrecovered f.visible_now.current_listed f.now in
    elim (Option-cases lock) [
      | inl open_lock ↦ absurd (ground arith)
      | inr (t, shut) ↦
          let held = lock_shut f t shut in
          (
            t,
            ground arith,
            held.0,
            held.1,
            λ past r' h' locked. lock_past f t later r' held.0 past h' locked,
          )
    ]

-- Every rule of ADR-079 for a CAPTURE.
pub record MayCapture (f : CaptureFacts) : Type 0 where
  pub answered : f.awaiting_verdict ≡ false
  pub not_capturing : f.state ≢ capturing
  pub not_processing : f.state ≢ processing
  pub cooled : (last : ℕ) → f.last_issued_at ≡ some last → last + 30000 ≤ f.now
  pub room : f.capture_count < 50
  pub time_left : f.now + 60000 ≤ f.session_ends_at

-- A CAPTURE is accepted exactly when every rule holds.
pub judge_capture-accepts : (f : CaptureFacts) → (judge_capture f ≡ none) ↔ MayCapture f
unfolding judge_capture capture_cooldown_ends_at
judge_capture-accepts f = (
  λ h. record {
    answered = ground arith;
    not_capturing = λ e. ground arith;
    not_processing = λ e. ground arith;
    cooled = λ last e. ground arith;
    room = ground arith;
    time_left = ground arith;
  },
  λ m. elim (Option-cases f.last_issued_at) [
    | inl never ↦ ground arith
    | inr (last, e) ↦ ground (arith, m.cooled last e)
  ],
)

-- A CAPTURE refused for its cooldown names an instant: thirty seconds after the last one was
-- issued, which is to come, and from which on the same request is not refused for its cooldown.
pub judge_capture-cooldown :
    (f : CaptureFacts) (r : InSlotRefusal) (later : ℕ)
    → judge_capture f ≡ some r
    → r.code ≡ capture_cooldown
    → (last : ℕ) × (f.last_issued_at ≡ some last)
      × (r.allowed_at ≡ some (last + 30000))
      × (f.now < last + 30000)
      × (last + 30000 ≤ later
          → (r' : InSlotRefusal) → judge_capture (record f { now = later }) ≡ some r'
          → r'.code ≢ capture_cooldown)
unfolding judge_capture capture_cooldown_ends_at
judge_capture-cooldown f r later h code = elim (Option-cases f.last_issued_at) [
  | inl never ↦ absurd (ground arith)
  | inr (last, e) ↦ (last, e, ground arith, ground arith, λ past r' h' locked. ground arith)
]
