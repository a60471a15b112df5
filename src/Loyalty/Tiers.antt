-- ===== src/Loyalty/Tiers.antt =====
-- The tier that purchase points reach.
use mathlib.Core.Path.{subst}
use online_observatory.Common.{
  sym, ◌∙◌, ◌≡◌, inl, inr, refl, true, false, Option-cases, List, [], ◌∷◌, arith, select, All, ℤ,
  pos, ◌≤ℤ◌, leb_ℤ, ltb_ℤ, Bool-cases,
}
use online_observatory.Loyalty.{
  LoyaltyScheme, LoyaltyTier, LoyaltyDb, SchemeRead, returned, read_loyalty_scheme, with_tiers,
  insert_tier, by_threshold, last_or, at_least_zero, tier_for,
}

-- In order of the thresholds.
abbrev pub IsSorted : List LoyaltyTier → Type 0
IsSorted [] = Unit
IsSorted (t ∷ l) = All (λ s. t.threshold_points ≤ℤ s.threshold_points) l × IsSorted l

insert-All :
    (b : ℤ) (t : LoyaltyTier) (l : List LoyaltyTier)
    → b ≤ℤ t.threshold_points
    → All (λ s. b ≤ℤ s.threshold_points) l
    → All (λ s. b ≤ℤ s.threshold_points) (insert_tier t l)
insert-All b t [] h a = (h, tt)
insert-All b t (s ∷ l) h (p, q) = elim (Bool-cases (ltb_ℤ s.threshold_points t.threshold_points)) [
  | inl lower ↦ rw lower (p, insert-All b t l h q)
  | inr higher ↦ rw higher (h, (p, q))
]

weaken :
    (a b : ℤ) (l : List LoyaltyTier)
    → a ≤ℤ b
    → All (λ s. b ≤ℤ s.threshold_points) l
    → All (λ s. a ≤ℤ s.threshold_points) l
weaken a b [] h q = tt
weaken a b (s ∷ l) h (p, q) = (omega arith, weaken a b l h q)

insert-IsSorted : (t : LoyaltyTier) (l : List LoyaltyTier) → IsSorted l → IsSorted (insert_tier t l)
insert-IsSorted t [] h = (tt, tt)
insert-IsSorted t (s ∷ l) (p, q) = elim (Bool-cases (ltb_ℤ s.threshold_points t.threshold_points)) [
  | inl lower ↦ rw lower (insert-All s.threshold_points t l (ground arith) p, insert-IsSorted t l q)
  | inr higher ↦
      let le : t.threshold_points ≤ℤ s.threshold_points = ground arith in
      rw higher ((le, weaken t.threshold_points s.threshold_points l le p), (p, q))
]

pub by_threshold-IsSorted : (l : List LoyaltyTier) → IsSorted (by_threshold l)
by_threshold-IsSorted [] = tt
by_threshold-IsSorted (t ∷ l) = insert-IsSorted t (by_threshold l) (by_threshold-IsSorted l)

-- Of the tiers that are reached, the last one, or `d` where none is.
unfoldable reached : LoyaltyTier → List LoyaltyTier → ℤ → LoyaltyTier
reached d l z = last_or d (select (λ t. leb_ℤ t.threshold_points z) l)

reached_here :
    (d t : LoyaltyTier) (l : List LoyaltyTier) (z : ℤ)
    → leb_ℤ t.threshold_points z ≡ true
    → reached d (t ∷ l) z ≡ reached t l z
unfolding reached
reached_here d t l z h = rw h

reached_over :
    (d t : LoyaltyTier) (l : List LoyaltyTier) (z : ℤ)
    → leb_ℤ t.threshold_points z ≡ false
    → reached d (t ∷ l) z ≡ reached d l z
unfolding reached
reached_over d t l z h = rw h

reached_none : (d : LoyaltyTier) (z : ℤ) → reached d [] z ≡ d
unfolding reached
reached_none d z = refl

-- `b` is no lower than `d`, is reached, and no reached tier of the list is higher.
record IsBest (d : LoyaltyTier) (l : List LoyaltyTier) (z : ℤ) (b : LoyaltyTier) : Type 0 where
  is_reached : b.threshold_points ≤ℤ z
  no_lower : d.threshold_points ≤ℤ b.threshold_points
  none_higher : All (λ t. t.threshold_points ≤ℤ z → t.threshold_points ≤ℤ b.threshold_points) l

reached-IsBest :
    (d : LoyaltyTier) (l : List LoyaltyTier) (z : ℤ)
    → d.threshold_points ≤ℤ z
    → All (λ s. d.threshold_points ≤ℤ s.threshold_points) l
    → IsSorted l
    → IsBest d l z (reached d l z)
reached-IsBest d [] z h a s =
    rw (reached_none d z) (record { is_reached = h; no_lower = ground arith; none_higher = tt })
reached-IsBest d (t ∷ l) z h (p, a) (q, s) = elim (Bool-cases (leb_ℤ t.threshold_points z)) [
  | inl here ↦
      let best = reached-IsBest t l z (ground arith) q s in
      let lower = best.no_lower in
      rw (reached_here d t l z here) (record {
        is_reached = best.is_reached;
        no_lower = omega arith;
        none_higher = (λ k. lower, best.none_higher);
      })
  | inr over ↦
      let best = reached-IsBest d l z h a s in
      rw (reached_over d t l z over) (record {
        is_reached = best.is_reached;
        no_lower = best.no_lower;
        none_higher = (λ k. absurd (ground arith), best.none_higher);
      })
]

All-of_insert :
    (P : LoyaltyTier → Type 0) (t : LoyaltyTier) (l : List LoyaltyTier)
    → All P (insert_tier t l)
    → P t × All P l
All-of_insert P t [] h = h
All-of_insert P t (s ∷ l) h = elim (Bool-cases (ltb_ℤ s.threshold_points t.threshold_points)) [
  | inl lower ↦
      let (p, q) : P s × All P (insert_tier t l) = rw lower at h in
      let (a, b) = All-of_insert P t l q in (a, (p, b))
  | inr higher ↦ rw higher at h
]

All-of_sorted : (P : LoyaltyTier → Type 0) (l : List LoyaltyTier) → All P (by_threshold l) → All P l
All-of_sorted P [] h = tt
All-of_sorted P (t ∷ l) h =
    let (a, b) = All-of_insert P t (by_threshold l) h in (a, All-of_sorted P l b)

with_tiers_cases :
    (scheme : LoyaltyScheme) (l : List LoyaltyTier) (r : SchemeRead)
    → with_tiers scheme l ≡ returned r
    → (rest : List LoyaltyTier) × (r.tiers ≡ l)
      × (l ≡ r.lowest ∷ rest)
      × (r.lowest.threshold_points ≡ pos 0)
with_tiers_cases scheme [] r h = absurd (cc)
with_tiers_cases scheme (t ∷ l) r h = (l, ground arith, ground arith, ground arith)

scheme_cases :
    (db : LoyaltyDb) (r : SchemeRead)
    → read_loyalty_scheme db ≡ returned r
    → (rest : List LoyaltyTier) × (r.tiers ≡ by_threshold db.tiers)
      × (by_threshold db.tiers ≡ r.lowest ∷ rest)
      × (r.lowest.threshold_points ≡ pos 0)
unfolding read_loyalty_scheme
scheme_cases db r h = elim (Option-cases db.scheme) [
  | inl missing ↦ absurd (ground arith)
  | inr (scheme, stored) ↦
      with_tiers_cases scheme (by_threshold db.tiers) r (rw (stored, read_loyalty_scheme) at h)
]

tier_for-IsBest :
    (lowest : LoyaltyTier) (rest : List LoyaltyTier) (points : ℤ)
    → lowest.threshold_points ≤ℤ at_least_zero points
    → IsSorted (lowest ∷ rest)
    → IsBest lowest (lowest ∷ rest) (at_least_zero points) (tier_for lowest (lowest ∷ rest) points)
unfolding tier_for reached
tier_for-IsBest lowest rest points start (a, s) =
    reached-IsBest lowest (lowest ∷ rest) (at_least_zero points) start ((ground arith, a)) (a, s)

-- The tier of an account is one that its purchase points, counted from zero, reach, and no stored
-- tier that they reach has a higher threshold.
pub tier_for-best :
    (db : LoyaltyDb) (r : SchemeRead) (points : ℤ)
    → read_loyalty_scheme db ≡ returned r
    → ((tier_for r.lowest r.tiers points).threshold_points ≤ℤ at_least_zero points)
      × All
          (λ t.
            t.threshold_points ≤ℤ at_least_zero points
            → t.threshold_points ≤ℤ (tier_for r.lowest r.tiers points).threshold_points)
          db.tiers
tier_for-best db r points h =
    let (rest, sorted, split, zero) = scheme_cases db r h in
    let order : IsSorted (r.lowest ∷ rest) =
      subst (λ l. IsSorted l) split (by_threshold-IsSorted db.tiers) in
    let start : r.lowest.threshold_points ≤ℤ at_least_zero points = ground arith in
    let best = tier_for-IsBest r.lowest rest points start order in
    let read =
      subst (λ l. IsBest r.lowest l (at_least_zero points) (tier_for r.lowest l points))
        (sym split ∙ sym sorted) best in
    let P : LoyaltyTier → Type 0 = λ t.
      t.threshold_points ≤ℤ at_least_zero points
      → t.threshold_points ≤ℤ (tier_for r.lowest r.tiers points).threshold_points in
    (read.is_reached, All-of_sorted P db.tiers (subst (λ l. All P l) sorted read.none_higher))
