-- ===== src/Safety/Sectors.antt =====
-- Azimuth sectors and the surveyed horizon.
use online_observatory.Common.{
  ◌≡◌, ◌≢◌, ◌↔◌, refl, true, false, not, none, arith, List, [], ◌∷◌, Bool-cases, inl, inr,
}
use online_observatory.Safety.{
  Float, Ordered, HorizonMaskEntry, normalise_azimuth, azimuth_in_sector, sort, insert,
  horizon_minimum_altitude, sorted_minimum,
}

module _ (F : Float) where
  -- The bearing is a number.
  abbrev pub IsBearing : F.Num → Type 0
  IsBearing a = F.eq (normalise_azimuth F a) (normalise_azimuth F a) ≡ true

  -- Two bearings that differ cut the circle in two sectors, clockwise from the one to the other and
  -- back: every bearing is in exactly one of them, whether or not a sector goes through north.
  pub azimuth_in_sector-complement :
      (laws : Ordered F) (a from to : F.Num)
      → IsBearing a
      → IsBearing from
      → IsBearing to
      → F.eq (normalise_azimuth F from) (normalise_azimuth F to) ≡ false
      → azimuth_in_sector F a from to ≡ not (azimuth_in_sector F a to from)
  unfolding azimuth_in_sector
  azimuth_in_sector-complement laws a from to na nf nt apart =
      let x = normalise_azimuth F a in
      let s = normalise_azimuth F from in
      let e = normalise_azimuth F to in
      let back = laws.eq-comm s e in
      let after_start = laws.le-not_lt s x nf na in
      let after_end = laws.le-not_lt e x nt na in
      elim (Bool-cases (F.lt s e)) [
        | inl before ↦ let other = laws.lt-asym s e before in ground arith
        | inr later ↦ elim (Bool-cases (F.lt e s)) [
          | inl before ↦ ground arith
          | inr neither ↦
              let same = laws.eq_iff_neither s e nf nt later neither in absurd (ground arith)
        ]
      ]

  insert-nonempty : (e : HorizonMaskEntry F) (l : List (HorizonMaskEntry F)) → insert F e l ≢ []
  insert-nonempty e [] h = ground arith
  insert-nonempty e (f ∷ l) h = ground arith

  sorted_minimum-none :
      (a : F.Num) (l : List (HorizonMaskEntry F)) → sorted_minimum F a l ≡ none → l ≡ []
  sorted_minimum-none a [] h = refl
  sorted_minimum-none a (e ∷ []) h = cc
  sorted_minimum-none a (e ∷ f ∷ l) h = cc

  -- The horizon constrains every bearing once one is surveyed, and none before.
  pub horizon_minimum_altitude-none :
      (a : F.Num) (mask : List (HorizonMaskEntry F))
      → (horizon_minimum_altitude F a mask ≡ none) ↔ (mask ≡ [])
  unfolding horizon_minimum_altitude
  horizon_minimum_altitude-none a [] = (λ h. refl, λ h. refl)
  horizon_minimum_altitude-none a (e ∷ l) = (
    λ h. absurd (
        insert-nonempty e (sort F l)
          (sorted_minimum-none (normalise_azimuth F a) (sort F (e ∷ l)) h)),
    λ h. absurd (ground arith),
  )
