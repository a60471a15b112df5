-- ===== src/Safety/Tests.antt =====
-- The envelope over whole numbers, the Sun in the north at the horizon.
use online_observatory.Common.{
  ℕ, ◌+◌, ◌*◌, ◌/◌, ◌%◌, ◌≡◌, ◌≢◌, ◌↔◌, refl, true, false, not, ◌&&◌, none, some, arith, [], ◌∷◌, ℤ,
  pos, negsuc, pos_part, neg_part, ◌+ℤ◌, ◌-ℤ◌, neg, ltb_ℤ, leb_ℤ, if◌then◌else◌,
}
use online_observatory.Safety.{
  Float, Ordered, permitted, refuse, safety_daylight_lock, SafetyEnvelopeConfig,
  HorizontalCoordinates, Site, Pointing, separation_at, horizontal_separation_degrees,
  evaluate_pointing, evaluate_measured, evaluate_sky, azimuth_in_sector, normalise_azimuth,
  horizon_minimum_altitude, evaluate_nudge_step, sun_exclusion_degrees, is_measured,
}
use online_observatory.Safety.Rules.{
  MayPoint, evaluate_pointing-permits, evaluate_pointing-override, evaluate_nudge_step-permits,
}
use online_observatory.Safety.Sun.{evaluate_pointing-sun, evaluate_pointing-daylight}
use online_observatory.Safety.Sectors.{
  IsBearing, azimuth_in_sector-complement, horizon_minimum_altitude-none,
}

abbrev size : ℤ → ℕ
size z = pos_part z + neg_part z

-- The sign of a product or a quotient.
abbrev signed : ℤ → ℤ → ℕ → ℤ
signed (pos _) (pos _) n = pos n
signed (pos _) (negsuc _) n = neg (pos n)
signed (negsuc _) (pos _) n = neg (pos n)
signed (negsuc _) (negsuc _) n = pos n

abbrev whole : Float
whole = record {
  Num = ℤ;
  of_int = λ z. z;
  lt = ltb_ℤ;
  le = leb_ℤ;
  eq = λ a b. leb_ℤ a b && leb_ℤ b a;
  is_finite = λ z. true;
  add = λ a b. a +ℤ b;
  sub = λ a b. a -ℤ b;
  mul = λ a b. signed a b (size a * size b);
  div = λ a b. signed a b (size a / size b);
  rem = λ a b. signed a (pos 0) (size a % size b);
  min_of = λ a b. if leb_ℤ a b then a else b;
  max_of = λ a b. if leb_ℤ a b then b else a;
  sin = λ z. pos 0;
  cos = λ z. pos 1;
  acos = λ z. pos 0;
  pi = pos 3;
}

whole-Ordered : Ordered whole
whole-Ordered = record {
  lt-le-trans = λ a b c h k. ground arith;
  le-lt-trans = λ a b c h k. ground arith;
  le-not_lt = λ a b h k. ground arith;
  lt-asym = λ a b h. ground arith;
  eq_iff_neither = λ a b h k m n. ground arith;
  eq-comm = λ a b. ground arith;
  max_right = λ a b h k. ground arith;
  min_right = λ a b h k. ground arith;
  of_int_finite = λ z. refl;
  of_int_le = λ y z h. ground arith;
}

abbrev sun_at_noon : ℕ → Site whole → HorizontalCoordinates whole
sun_at_noon at s = record { altitude = pos 40; azimuth = pos 180 }

abbrev tbilisi : Site whole
tbilisi = record { latitude_degrees = pos 41; longitude_degrees = pos 44; elevation_metres = none }

-- An operator has set the exclusion to nothing, and the lock to never.
abbrev careless : SafetyEnvelopeConfig whole
careless = record {
  max_altitude_degrees = some (pos 60);
  min_altitude_degrees = pos 20;
  sun_exclusion_degrees = pos 0;
  daylight_lock_sun_altitude_degrees = pos 90;
  horizon_mask = record { azimuth_degrees = pos 90; min_altitude_degrees = pos 25 } ∷ [];
  forbidden_azimuth_sectors = record { from_degrees = pos 350; to_degrees = pos 10 } ∷ [];
  nudge_rate_degrees_per_second = pos 2;
  nudge_max_degrees = pos 5;
}

abbrev at_noon : Pointing whole
at_noon = record {
  config = some careless;
  site = some tbilisi;
  at = 0;
  altitude_degrees = pos 40;
  azimuth_degrees = pos 180;
  operator_override = false;
}

evaluate_pointing-permits_example :
    (evaluate_pointing whole sun_at_noon at_noon ≡ permitted) ↔ MayPoint whole sun_at_noon at_noon
evaluate_pointing-permits_example = evaluate_pointing-permits whole sun_at_noon at_noon

not_locked : evaluate_pointing whole sun_at_noon at_noon ≢ refuse safety_daylight_lock
unfolding evaluate_pointing evaluate_measured evaluate_sky horizontal_separation_degrees
    sun_exclusion_degrees ◌+ℤ◌ ◌-ℤ◌ neg
not_locked h = cc

evaluate_pointing-override_example :
    evaluate_pointing whole sun_at_noon (record at_noon { operator_override = true })
    ≡ evaluate_pointing whole sun_at_noon at_noon
evaluate_pointing-override_example = evaluate_pointing-override whole sun_at_noon at_noon not_locked

at_the_sun : ltb_ℤ (separation_at whole sun_at_noon at_noon tbilisi) (pos 15) ≡ true
unfolding horizontal_separation_degrees ◌+ℤ◌ ◌-ℤ◌ neg
at_the_sun = refl

evaluate_pointing-sun_example : evaluate_pointing whole sun_at_noon at_noon ≢ permitted
evaluate_pointing-sun_example =
    evaluate_pointing-sun whole whole-Ordered sun_at_noon at_noon tbilisi refl at_the_sun

evaluate_pointing-daylight_example : evaluate_pointing whole sun_at_noon at_noon ≢ permitted
evaluate_pointing-daylight_example =
    evaluate_pointing-daylight whole whole-Ordered sun_at_noon at_noon tbilisi refl refl refl

evaluate_nudge_step-permits_example :
    (evaluate_nudge_step whole (some careless) (pos 1) ≡ permitted) ↔ (
      (c : SafetyEnvelopeConfig whole) × (some careless ≡ some c)
      × (c.max_altitude_degrees ≢ none)
      × (ltb_ℤ (pos 1) (pos 0) ≡ false)
      × (ltb_ℤ c.nudge_rate_degrees_per_second (pos 1) ≡ false)
      × (ltb_ℤ c.nudge_max_degrees (pos 1) ≡ false))
evaluate_nudge_step-permits_example = evaluate_nudge_step-permits whole (some careless) (pos 1)

small_step_is_permitted : evaluate_nudge_step whole (some careless) (pos 1) ≡ permitted
unfolding evaluate_nudge_step is_measured
small_step_is_permitted = refl

whole-IsBearing : (z : ℤ) → IsBearing whole z
whole-IsBearing z = ground arith

ends_differ :
    (leb_ℤ (normalise_azimuth whole (pos 350)) (normalise_azimuth whole (pos 10))
      && leb_ℤ (normalise_azimuth whole (pos 10)) (normalise_azimuth whole (pos 350)))
    ≡ false
unfolding normalise_azimuth ◌+ℤ◌ neg
ends_differ = refl

-- The sector from 350 to 10 goes through north.
azimuth_in_sector-complement_example :
    azimuth_in_sector whole (pos 5) (pos 350) (pos 10)
    ≡ not (azimuth_in_sector whole (pos 5) (pos 10) (pos 350))
azimuth_in_sector-complement_example =
    azimuth_in_sector-complement whole whole-Ordered (pos 5) (pos 350) (pos 10)
      (whole-IsBearing (pos 5)) (whole-IsBearing (pos 350)) (whole-IsBearing (pos 10)) ends_differ

horizon_minimum_altitude-none_example :
    (horizon_minimum_altitude whole (pos 5) careless.horizon_mask ≡ none)
    ↔ (careless.horizon_mask ≡ [])
horizon_minimum_altitude-none_example =
    horizon_minimum_altitude-none whole (pos 5) careless.horizon_mask
