-- ===== src/Safety/Sun.antt =====
-- The Sun exclusion holds whatever is stored in the envelope.
use online_observatory.Common.{
  ℕ, ◌≡◌, ◌≢◌, true, false, some, arith, pos, negsuc, Bool-cases, inl, inr,
}
use online_observatory.Safety.{
  Float, Ordered, permitted, SafetyEnvelopeConfig, HorizontalCoordinates, Site, Pointing, int,
  sun_exclusion_degrees, daylight_lock_altitude_degrees, separation_at, evaluate_pointing,
}
use online_observatory.Safety.Rules.{evaluate_pointing-permits}

module _ (F : Float) (laws : Ordered F) where
  -- The enforced exclusion is no narrower than fifteen degrees.
  exclusion_floor :
      (c : SafetyEnvelopeConfig F) → F.le (int F 15) (sun_exclusion_degrees F c) ≡ true
  unfolding sun_exclusion_degrees
  exclusion_floor c = elim (Bool-cases (F.is_finite c.sun_exclusion_degrees)) [
    | inl finite ↦
        rw finite
          (laws.max_right c.sun_exclusion_degrees (int F 15) finite (laws.of_int_finite (pos 15)))
    | inr broken ↦ rw broken (laws.of_int_le (pos 15) (pos 180) (ground arith))
  ]

  -- The enforced lock engages no later than at the horizon.
  lock_ceiling :
      (c : SafetyEnvelopeConfig F) → F.le (daylight_lock_altitude_degrees F c) (int F 0) ≡ true
  unfolding daylight_lock_altitude_degrees
  lock_ceiling c = elim (Bool-cases (F.is_finite c.daylight_lock_sun_altitude_degrees)) [
    | inl finite ↦ rw finite (
        laws.min_right c.daylight_lock_sun_altitude_degrees (int F 0) finite
          (laws.of_int_finite (pos 0)))
    | inr broken ↦ rw broken (laws.of_int_le (negsuc 89) (pos 0) (ground arith))
  ]

  module _ (sun : ℕ → Site F → HorizontalCoordinates F) where
    -- At a known site, a pointing within fifteen degrees of the Sun is never permitted, whatever
    -- envelope is stored and whatever the override.
    pub evaluate_pointing-sun :
        (p : Pointing F) (s : Site F)
        → p.site ≡ some s
        → F.lt (separation_at F sun p s) (int F 15) ≡ true
        → evaluate_pointing F sun p ≢ permitted
    evaluate_pointing-sun p s here near h =
        let (c, m, s', _, _, there, _, _, clear) = (evaluate_pointing-permits F sun p).0 h in
        let inside =
          laws.lt-le-trans (separation_at F sun p s) (int F 15) (sun_exclusion_degrees F c) near
            (exclusion_floor c) in
        let far = clear.far_from_sun in ground arith

    -- At a known site, with the Sun above the horizon and no override, no pointing is permitted,
    -- whatever envelope is stored.
    pub evaluate_pointing-daylight :
        (p : Pointing F) (s : Site F)
        → p.site ≡ some s
        → p.operator_override ≡ false
        → F.lt (int F 0) (sun p.at s).altitude ≡ true
        → evaluate_pointing F sun p ≢ permitted
    evaluate_pointing-daylight p s here unattended up h =
        let (c, m, s', _, _, there, _, _, clear) = (evaluate_pointing-permits F sun p).0 h in
        let engaged =
          laws.le-lt-trans (daylight_lock_altitude_degrees F c) (int F 0) (sun p.at s).altitude
            (lock_ceiling c) up in
        let dark = clear.dark in ground arith
