-- ===== src/Entitlements/Endings.antt =====
-- How the mission of a slot ended: by its customer, or early and on our side.
use online_observatory.Common.{
  ℕ, ◌<◌, ◌≡◌, ◌↔◌, ◌⊎◌, inl, inr, refl, ap, ◌∙◌, Bool, true, false, [], ◌∷◌, Option, none, some,
  arith, Bool-cases, any, not, ◌&&◌, sym, ltb,
}
use online_observatory.Entitlements.{
  EndedMission, customer_ended, our_ending, customer_endings, ended_early, is_not_started,
  ending_cause,
}
use online_observatory.Mission.{
  MissionState, MissionFailureReason, same_state, failed, cancelled, weather_hold, hardware_error,
  not_visible, session_expired, customer_cancelled, payment_failed,
}
use online_observatory.Entitlements.Timeline.{since_then-lost, begun}
use online_observatory.Entitlements.Union.{is_lost, every}

-- The mission was ended by the customer's cancellation or for want of payment.
abbrev pub IsTheirs : Option EndedMission → Type 0
IsTheirs mission =
    (m : EndedMission) × (mission ≡ some m)
    × ((m.failure_reason ≡ some customer_cancelled) ⊎ (m.failure_reason ≡ some payment_failed))

-- It is not one that was never started.
abbrev pub was_started : Option MissionFailureReason → Bool
was_started none = true
was_started (some session_expired) = false
was_started (some r) = true

-- By that moment the mission had ended early.
abbrev pub is_over : ℕ → Option EndedMission → Bool
is_over t none = false
is_over t (some m) =
    any (λ s. same_state m.state s)
      (failed ∷ cancelled ∷ weather_hold ∷ hardware_error ∷ not_visible ∷ [])
    && was_started m.failure_reason
    && begun m.last_event_at t

their_reason :
    (r : Option MissionFailureReason)
    → customer_endings r ≡ true
    → (r ≡ some customer_cancelled) ⊎ (r ≡ some payment_failed)
their_reason r h = ground arith

pub customer_ended-IsTheirs :
    (mission : Option EndedMission) → (customer_ended mission ≡ true) ↔ IsTheirs mission
customer_ended-IsTheirs none = (λ h. absurd (cc), λ (m, e, r). absurd (cc))
customer_ended-IsTheirs (some m) = (
  λ h. (m, refl, their_reason m.failure_reason h),
  λ (n, e, r).
      let same : m.failure_reason ≡ n.failure_reason =
        ap
          (λ (o : Option EndedMission). elim o [
            | none ↦ m.failure_reason
            | some x ↦ x.failure_reason
          ])
          e in
      elim r [ inl a ↦ rw (same ∙ a) refl | inr b ↦ rw (same ∙ b) refl ],
)

early :
    (s : MissionState)
    → ended_early s
      ≡ any
          (λ t. same_state s t)
          (failed ∷ cancelled ∷ weather_hold ∷ hardware_error ∷ not_visible ∷ [])
early s = ground arith

not_started : (r : Option MissionFailureReason) → not (is_not_started r) ≡ was_started r
not_started r = ground arith

pub our_ending-is_over :
    (m : Option EndedMission) (stop t : ℕ)
    → t < stop
    → is_lost every (our_ending m stop) t ≡ is_over t m
our_ending-is_over none stop t before = refl
our_ending-is_over (some m) stop t before =
    let began = since_then-lost m.last_event_at stop t (ending_cause m.state m.failure_reason) in
    let soon : ltb t stop ≡ true = ground arith in
    let g = ended_early m.state && not (is_not_started m.failure_reason) in
    let over_is : is_over t (some m) ≡ (g && begun m.last_event_at t) =
      rw (early m.state, not_started m.failure_reason) refl in
    let lost : is_lost every (our_ending (some m) stop) t ≡ (g && begun m.last_event_at t) =
      elim (Bool-cases g) [
        | inl ours ↦ rw (ours, began, soon) (ground arith)
        | inr theirs ↦ rw theirs refl
      ] in
    lost ∙ sym over_is
