-- ===== src/Safety.antt =====
-- The cloud's safety envelope: apps/api/src/lib/safety/envelope.ts, and the separation of two
-- horizontal positions (apps/api/src/lib/ephemeris/engine.ts). The Sun's position is the ephemeris
-- library's, a parameter. Verdicts are modelled without their texts.
mod Numbers
pub use Numbers.*
pub mod Rules
pub mod Sun
pub mod Sectors
mod Tests
use online_observatory.Common.{
  ℕ, suc, Bool, true, false, not, ◌&&◌, ◌||◌, Option, none, some, List, [], ◌∷◌, if◌then◌else◌, ℤ,
  pos, negsuc, any,
}

pub data CommandRejectionReason : Type 0 where
  safety_envelope_unmeasured device_unavailable safety_sun_exclusion safety_daylight_lock
        safety_below_min_altitude safety_above_max_altitude safety_horizon_mask
        safety_forbidden_azimuth safety_nudge_limit_exceeded safety_slew_rate :
      CommandRejectionReason

pub data SafetyVerdict : Type 0 where
  permitted : SafetyVerdict
  refuse : CommandRejectionReason → SafetyVerdict

module _ (F : Float) where
  pub record HorizonMaskEntry : Type 0 where
    pub azimuth_degrees : F.Num
    pub min_altitude_degrees : F.Num

  pub record AzimuthSector : Type 0 where
    pub from_degrees : F.Num
    pub to_degrees : F.Num

  pub record SafetyEnvelopeConfig : Type 0 where
    pub max_altitude_degrees : Option F.Num
    pub min_altitude_degrees : F.Num
    pub sun_exclusion_degrees : F.Num
    pub daylight_lock_sun_altitude_degrees : F.Num
    pub horizon_mask : List HorizonMaskEntry
    pub forbidden_azimuth_sectors : List AzimuthSector
    pub nudge_rate_degrees_per_second : F.Num
    pub nudge_max_degrees : F.Num

  pub record HorizontalCoordinates : Type 0 where
    pub altitude : F.Num
    pub azimuth : F.Num

  pub record Site : Type 0 where
    pub latitude_degrees : F.Num
    pub longitude_degrees : F.Num
    pub elevation_metres : Option F.Num

  abbrev pub int : ℕ → F.Num
  int n = F.of_int (pos n)

  -- `sunExclusionDegrees`; 15 is `MIN_SUN_EXCLUSION_DEGREES`.
  unfoldable pub sun_exclusion_degrees : SafetyEnvelopeConfig → F.Num
  sun_exclusion_degrees c =
      if not (F.is_finite c.sun_exclusion_degrees)
      then int 180
      else F.max_of c.sun_exclusion_degrees (int 15)

  -- `daylightLockAltitudeDegrees`; 0 is `MAX_DAYLIGHT_LOCK_ALTITUDE_DEGREES`.
  unfoldable pub daylight_lock_altitude_degrees : SafetyEnvelopeConfig → F.Num
  daylight_lock_altitude_degrees c =
      if not (F.is_finite c.daylight_lock_sun_altitude_degrees)
      then F.of_int (negsuc 89)
      else F.min_of c.daylight_lock_sun_altitude_degrees (int 0)

  -- `isMeasured`
  unfoldable pub is_measured : Option SafetyEnvelopeConfig → Bool
  is_measured none = false
  is_measured (some c) = elim c.max_altitude_degrees [ none ↦ false | some _ ↦ true ]

  -- `normaliseAzimuth`
  unfoldable pub normalise_azimuth : F.Num → F.Num
  normalise_azimuth a =
      let wrapped = F.rem (F.add (F.rem a (int 360)) (int 360)) (int 360) in
      if F.le (int 360) wrapped then int 0 else wrapped

  -- `azimuthInSector`
  unfoldable pub azimuth_in_sector : F.Num → F.Num → F.Num → Bool
  azimuth_in_sector azimuth_degrees from to =
      let azimuth = normalise_azimuth azimuth_degrees in
      let start = normalise_azimuth from in
      let end = normalise_azimuth to in
      if F.eq start end
      then false
      else if F.lt start end
      then F.le start azimuth && F.lt azimuth end
      else F.le start azimuth || F.lt azimuth end

  -- `horizontalSeparationDegrees`
  unfoldable pub horizontal_separation_degrees :
      HorizontalCoordinates → HorizontalCoordinates → F.Num
  horizontal_separation_degrees left right =
      let to_radians = F.div F.pi (int 180) in
      let alt1 = F.mul left.altitude to_radians in
      let alt2 = F.mul right.altitude to_radians in
      let az1 = F.mul left.azimuth to_radians in
      let az2 = F.mul right.azimuth to_radians in
      let cosine =
        F.add (F.mul (F.sin alt1) (F.sin alt2))
          (F.mul (F.mul (F.cos alt1) (F.cos alt2)) (F.cos (F.sub az2 az1))) in
      F.div (F.acos (F.min_of (int 1) (F.max_of (F.of_int (negsuc 0)) cosine))) to_radians

  -- `[...mask].sort` by bearing, which is stable.
  abbrev pub insert : HorizonMaskEntry → List HorizonMaskEntry → List HorizonMaskEntry
  insert e [] = e ∷ []
  insert e (f ∷ l) =
      let rest = insert e l in
      if F.lt (normalise_azimuth f.azimuth_degrees) (normalise_azimuth e.azimuth_degrees)
      then f ∷ rest
      else e ∷ f ∷ l

  abbrev pub sort : List HorizonMaskEntry → List HorizonMaskEntry
  sort [] = []
  sort (e ∷ l) = insert e (sort l)

  abbrev pub last_of : HorizonMaskEntry → List HorizonMaskEntry → HorizonMaskEntry
  last_of e [] = e
  last_of e (f ∷ l) = last_of f l

  -- Between two samples, whose bearings the caller gives.
  abbrev pub interpolate : F.Num → HorizonMaskEntry → F.Num → HorizonMaskEntry → F.Num → F.Num
  interpolate azimuth previous previous_azimuth entry entry_azimuth =
      let span = F.sub entry_azimuth previous_azimuth in
      let fraction =
        if F.eq span (int 0) then int 0 else F.div (F.sub azimuth previous_azimuth) span in
      F.add previous.min_altitude_degrees
        (F.mul (F.sub entry.min_altitude_degrees previous.min_altitude_degrees) fraction)

  -- The loop over the samples and the return after it. `previous` is the sample before, at first
  -- the last one across north; `first` the one that follows the last.
  unfoldable pub horizon_scan :
      F.Num → HorizonMaskEntry → HorizonMaskEntry → F.Num → List HorizonMaskEntry → F.Num
  horizon_scan azimuth first previous previous_azimuth [] =
      interpolate azimuth previous previous_azimuth first
        (F.add (normalise_azimuth first.azimuth_degrees) (int 360))
  horizon_scan azimuth first previous previous_azimuth (entry ∷ rest) =
      let entry_azimuth = normalise_azimuth entry.azimuth_degrees in
      let later = horizon_scan azimuth first entry entry_azimuth rest in
      if F.eq entry_azimuth azimuth
      then entry.min_altitude_degrees
      else if F.lt azimuth entry_azimuth
      then interpolate azimuth previous previous_azimuth entry entry_azimuth
      else later

  abbrev pub sorted_minimum : F.Num → List HorizonMaskEntry → Option F.Num
  sorted_minimum azimuth [] = none
  sorted_minimum azimuth (only ∷ []) = some only.min_altitude_degrees
  sorted_minimum azimuth (first ∷ second ∷ rest) =
      let last = last_of second rest in
      some (
        horizon_scan azimuth first last (F.sub (normalise_azimuth last.azimuth_degrees) (int 360))
          (first ∷ second ∷ rest))

  -- `horizonMinimumAltitude`
  unfoldable pub horizon_minimum_altitude : F.Num → List HorizonMaskEntry → Option F.Num
  horizon_minimum_altitude azimuth_degrees mask =
      sorted_minimum (normalise_azimuth azimuth_degrees) (sort mask)

  pub record Pointing : Type 0 where
    pub config : Option SafetyEnvelopeConfig
    pub site : Option Site
    pub at : ℕ
    pub altitude_degrees : F.Num
    pub azimuth_degrees : F.Num
    pub operator_override : Bool

  abbrev pub below : F.Num → Option F.Num → Bool
  below altitude none = false
  below altitude (some minimum) = F.lt altitude minimum

  -- `sunHorizontal`: the ephemeris library's position of the Sun.
  module _ (sun_horizontal : ℕ → Site → HorizontalCoordinates) where
    abbrev pub separation_at : Pointing → Site → F.Num
    separation_at p s =
        horizontal_separation_degrees
          (record { altitude = p.altitude_degrees; azimuth = p.azimuth_degrees })
          (sun_horizontal p.at s)

    -- `evaluatePointing` from its fourth check on.
    unfoldable pub evaluate_sky : SafetyEnvelopeConfig → F.Num → Site → Pointing → SafetyVerdict
    evaluate_sky c max_altitude s p =
        if F.lt (separation_at p s) (sun_exclusion_degrees c)
        then refuse safety_sun_exclusion
        else if F.lt (daylight_lock_altitude_degrees c) (sun_horizontal p.at s).altitude
            && not p.operator_override
        then refuse safety_daylight_lock
        else if F.lt p.altitude_degrees c.min_altitude_degrees
        then refuse safety_below_min_altitude
        else if F.lt max_altitude p.altitude_degrees
        then refuse safety_above_max_altitude
        else if below p.altitude_degrees (horizon_minimum_altitude p.azimuth_degrees c.horizon_mask)
        then refuse safety_horizon_mask
        else if any (λ t. azimuth_in_sector p.azimuth_degrees t.from_degrees t.to_degrees)
            c.forbidden_azimuth_sectors
        then refuse safety_forbidden_azimuth
        else permitted

    -- `evaluatePointing` with a measured envelope.
    unfoldable pub evaluate_measured : SafetyEnvelopeConfig → F.Num → Pointing → SafetyVerdict
    evaluate_measured c max_altitude p =
        if not (F.is_finite p.altitude_degrees) || not (F.is_finite p.azimuth_degrees)
        then refuse device_unavailable
        else elim p.site [
          | none ↦ refuse safety_sun_exclusion
          | some s ↦ evaluate_sky c max_altitude s p
        ]

    -- `evaluatePointing`
    unfoldable pub evaluate_pointing : Pointing → SafetyVerdict
    evaluate_pointing p = elim p.config [
      | none ↦ refuse safety_envelope_unmeasured
      | some c ↦ elim c.max_altitude_degrees [
        | none ↦ refuse safety_envelope_unmeasured
        | some max_altitude ↦ evaluate_measured c max_altitude p
      ]
    ]

  abbrev pub nudge_step : SafetyEnvelopeConfig → F.Num → SafetyVerdict
  nudge_step c step =
      if F.lt step (int 0)
      then refuse safety_nudge_limit_exceeded
      else if F.lt c.nudge_rate_degrees_per_second step
      then refuse safety_slew_rate
      else if F.lt c.nudge_max_degrees step
      then refuse safety_nudge_limit_exceeded
      else permitted

  -- `evaluateNudgeStep`
  unfoldable pub evaluate_nudge_step : Option SafetyEnvelopeConfig → F.Num → SafetyVerdict
  evaluate_nudge_step none step = refuse safety_envelope_unmeasured
  evaluate_nudge_step (some c) step =
      if is_measured (some c) then nudge_step c step else refuse safety_envelope_unmeasured
