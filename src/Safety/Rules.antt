-- ===== src/Safety/Rules.antt =====
-- A pointing and a nudge against every rule of the envelope.
use online_observatory.Common.{
  ℕ, ◌≡◌, ◌≢◌, ◌↔◌, ◌⊎◌, inl, inr, refl, true, false, Option, none, some, arith, List, [], ◌∷◌, any,
  All, Option-cases,
}
use online_observatory.Safety.{
  Float, permitted, refuse, safety_daylight_lock, SafetyEnvelopeConfig, AzimuthSector,
  HorizontalCoordinates, Site, Pointing, int, sun_exclusion_degrees, daylight_lock_altitude_degrees,
  azimuth_in_sector, horizon_minimum_altitude, separation_at, below, evaluate_sky,
  evaluate_measured, evaluate_pointing, evaluate_nudge_step, is_measured,
}

module _ (F : Float) where
  none_inside :
      (a : F.Num) (l : List (AzimuthSector F))
      → (any (λ t. azimuth_in_sector F a t.from_degrees t.to_degrees) l ≡ false)
        ↔ All (λ t. azimuth_in_sector F a t.from_degrees t.to_degrees ≡ false) l
  none_inside a [] = (λ h. tt, λ h. refl)
  none_inside a (t ∷ l) =
      let (to, back) = none_inside a l in
      (λ h. (ground arith, to (ground arith)), λ h. ground (arith, back h.1))

  module _ (sun : ℕ → Site F → HorizontalCoordinates F) where
    -- Every rule of the envelope, for a measured one at a known site.
    pub record IsClear (c : SafetyEnvelopeConfig F) (max_altitude : F.Num) (s : Site F)
        (p : Pointing F) : Type 0 where
      pub far_from_sun : F.lt (separation_at F sun p s) (sun_exclusion_degrees F c) ≡ false
      pub dark :
          (F.lt (daylight_lock_altitude_degrees F c) (sun p.at s).altitude ≡ false)
          ⊎ (p.operator_override ≡ true)
      pub not_low : F.lt p.altitude_degrees c.min_altitude_degrees ≡ false
      pub not_high : F.lt max_altitude p.altitude_degrees ≡ false
      pub over_horizon :
          below F p.altitude_degrees (horizon_minimum_altitude F p.azimuth_degrees c.horizon_mask)
          ≡ false
      pub unwrapped :
          All
            (λ t. azimuth_in_sector F p.azimuth_degrees t.from_degrees t.to_degrees ≡ false)
            c.forbidden_azimuth_sectors

    -- The pointing is a position, the envelope measured, the site known, and every rule kept.
    abbrev pub MayPoint : Pointing F → Type 0
    MayPoint p =
        (c : SafetyEnvelopeConfig F) × (m : F.Num) × (s : Site F) × (p.config ≡ some c)
        × (c.max_altitude_degrees ≡ some m)
        × (p.site ≡ some s)
        × (F.is_finite p.altitude_degrees ≡ true)
        × (F.is_finite p.azimuth_degrees ≡ true)
        × IsClear c m s p

    sky-IsClear :
        (c : SafetyEnvelopeConfig F) (m : F.Num) (s : Site F) (p : Pointing F)
        → evaluate_sky F sun c m s p ≡ permitted
        → IsClear c m s p
    unfolding evaluate_sky
    sky-IsClear c m s p h = record {
      far_from_sun = ground arith;
      dark = ground arith;
      not_low = ground arith;
      not_high = ground arith;
      over_horizon = ground arith;
      unwrapped = (none_inside p.azimuth_degrees c.forbidden_azimuth_sectors).0 (ground arith);
    }

    clear_sky :
        (c : SafetyEnvelopeConfig F) (m : F.Num) (s : Site F) (p : Pointing F)
        → IsClear c m s p
        → evaluate_sky F sun c m s p ≡ permitted
    unfolding evaluate_sky
    clear_sky c m s p k =
        let outside = (none_inside p.azimuth_degrees c.forbidden_azimuth_sectors).1 k.unwrapped in
        elim k.dark [
          | inl night ↦ rw (k.far_from_sun, night, k.not_low, k.not_high, k.over_horizon, outside)
          | inr attended ↦ ground (arith, k.far_from_sun, k.not_low, k.not_high, k.over_horizon)
        ]

    -- A pointing is permitted exactly when the envelope is measured, the pointing is a finite
    -- position, the site is known, the Sun is outside its exclusion, the sky is dark or the operator
    -- attends, the altitude is within its limits and over the surveyed horizon, and no forbidden
    -- sector holds the bearing.
    pub evaluate_pointing-permits :
        (p : Pointing F) → (evaluate_pointing F sun p ≡ permitted) ↔ MayPoint p
    unfolding evaluate_pointing evaluate_measured
    evaluate_pointing-permits p = (
      λ h. elim (Option-cases p.config) [
        | inl absent ↦ absurd (ground arith)
        | inr (c, stored) ↦ elim (Option-cases c.max_altitude_degrees) [
          | inl unmeasured ↦ absurd (ground arith)
          | inr (m, measured) ↦ elim (Option-cases p.site) [
            | inl nowhere ↦ absurd (ground arith)
            | inr (s, known) ↦ (
              c,
              m,
              s,
              stored,
              measured,
              known,
              ground arith,
              ground arith,
              sky-IsClear c m s p (ground arith),
            )
          ]
        ]
      ],
      λ (c, m, s, e, e', e'', fin, fin', k). let clear = clear_sky c m s p k in ground arith,
    )

    -- The override changes a verdict only from SAFETY_DAYLIGHT_LOCK.
    pub evaluate_pointing-override :
        (p : Pointing F)
        → evaluate_pointing F sun (record p { operator_override = false })
          ≢ refuse safety_daylight_lock
        → evaluate_pointing F sun (record p { operator_override = true })
          ≡ evaluate_pointing F sun (record p { operator_override = false })
    unfolding evaluate_pointing evaluate_measured evaluate_sky
    evaluate_pointing-override p h = ground arith

  -- A nudge step is permitted exactly when the envelope is measured and the step is neither negative
  -- nor over the permitted step, nor alone over the cumulative limit.
  pub evaluate_nudge_step-permits :
      (config : Option (SafetyEnvelopeConfig F)) (step : F.Num)
      → (evaluate_nudge_step F config step ≡ permitted) ↔ (
          (c : SafetyEnvelopeConfig F) × (config ≡ some c)
          × (c.max_altitude_degrees ≢ none)
          × (F.lt step (int F 0) ≡ false)
          × (F.lt c.nudge_rate_degrees_per_second step ≡ false)
          × (F.lt c.nudge_max_degrees step ≡ false))
  unfolding evaluate_nudge_step is_measured
  evaluate_nudge_step-permits none step = (λ h. absurd (ground arith), λ h. absurd (ground arith))
  evaluate_nudge_step-permits (some c) step = (
    λ h. (c, refl, λ e. ground arith, ground arith, ground arith, ground arith),
    λ (c', e, m, a, b, d). ground arith,
  )
