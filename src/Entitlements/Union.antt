-- ===== src/Entitlements/Union.antt =====
-- The gaps between edges add up to the milliseconds that the intervals cover, each once.
use online_observatory.Common.{
  ℕ, ◌+◌, ◌-◌, ◌≤◌, ◌<◌, ◌≡◌, ◌⊎◌, inl, inr, refl, Bool, true, ◌&&◌, ◌||◌, List, [], ◌∷◌, any,
  if◌then◌else◌, ltb, leb, ◌==◌, arith, Bool-cases, All,
}
use online_observatory.Entitlements.{Interval, spans}
use online_observatory.Entitlements.Measure.{count, count-split, count-same}

-- The interval holds at that millisecond.
abbrev pub holds_at : ℕ → Interval → Bool
holds_at t i = leb i.from t && ltb t i.to

-- Some interval of the kind does.
abbrev pub is_lost : (Interval → Bool) → List Interval → ℕ → Bool
is_lost q is t = any (λ i. holds_at t i && q i) is

-- The gaps that an interval of the kind spans
abbrev pub gaps : (Interval → Bool) → List Interval → ℕ → List ℕ → ℕ
gaps q c from [] = 0
gaps q c from (to ∷ es) =
    (if any (λ i. spans from to i && q i) c then to - from else 0) + gaps q c to es

abbrev pub every : Interval → Bool
every i = true

-- A number that is no more than `a`, or one of the edges after it.
abbrev pub is_edge : ℕ → ℕ → List ℕ → Bool
is_edge x a es = leb x a || any (λ e. x == e) es

abbrev pub IsSorted : ℕ → List ℕ → Type 0
IsSorted a [] = Unit
IsSorted a (e ∷ es) = (a < e) × IsSorted e es

abbrev pub last : ℕ → List ℕ → ℕ
last a [] = a
last a (e ∷ es) = last e es

abbrev pub EndsIn : ℕ → List ℕ → List Interval → Type 0
EndsIn a es c = All (λ i. (is_edge i.from a es ≡ true) × (is_edge i.to a es ≡ true)) c

beyond_head : (x b : ℕ) (es : List ℕ) → IsSorted b es → any (λ e. x == e) es ≡ true → b < x
beyond_head x b [] s h = absurd (cc)
beyond_head x b (e ∷ es) s h = elim (Bool-cases (x == e)) [
  | inl same ↦ ground arith
  | inr other ↦ ground (arith, beyond_head x e es s.1 (ground arith))
]

-- An edge that is not up to `a` is at or beyond the next one.
edge_step :
    (x a b : ℕ) (es : List ℕ) → IsSorted b es → is_edge x a (b ∷ es) ≡ true → (x ≤ a) ⊎ (b ≤ x)
edge_step x a b es s h = elim (Bool-cases (leb x a)) [
  | inl low ↦ inl (ground arith)
  | inr high ↦ elim (Bool-cases (x == b)) [
    | inl same ↦ inr (ground arith)
    | inr other ↦ inr (ground (arith, beyond_head x b es s (ground arith)))
  ]
]

-- Within a gap, what holds at a millisecond is what spans the gap.
holds_spans :
    (i : Interval) (a b : ℕ) (es : List ℕ) (t : ℕ)
    → a ≤ t
    → t < b
    → IsSorted b es
    → is_edge i.from a (b ∷ es) ≡ true
    → is_edge i.to a (b ∷ es) ≡ true
    → holds_at t i ≡ spans a b i
holds_spans i a b es t low high s from_edge to_edge = elim (edge_step i.from a b es s from_edge) [
  | inl f ↦ elim (edge_step i.to a b es s to_edge) [ inl g ↦ ground arith | inr g ↦ ground arith ]
  | inr f ↦ ground arith
]

lost_spans :
    (q : Interval → Bool) (c : List Interval) (a b : ℕ) (es : List ℕ) (t : ℕ)
    → a ≤ t
    → t < b
    → IsSorted b es
    → EndsIn a (b ∷ es) c
    → is_lost q c t ≡ any (λ i. spans a b i && q i) c
lost_spans q [] a b es t low high s ends = refl
lost_spans q (i ∷ c) a b es t low high s ends =
    rw
      (
        holds_spans i a b es t low high s ends.0.0 ends.0.1,
        lost_spans q c a b es t low high s ends.1,
      )
      refl

ends_later :
    (c : List Interval) (a b : ℕ) (es : List ℕ) → a < b → EndsIn a (b ∷ es) c → EndsIn b es c
ends_later [] a b es l h = tt
ends_later (i ∷ c) a b es l h = ((ground arith, ground arith), ends_later c a b es l h.1)

pub last_later : (a : ℕ) (es : List ℕ) → IsSorted a es → a ≤ last a es
last_later a [] s = omega arith
last_later a (e ∷ es) s = omega (arith, last_later e es s.1, s.0)

-- The gaps add up to the milliseconds that are lost between the first edge and the last.
pub gaps-count :
    (q : Interval → Bool) (c : List Interval) (a : ℕ) (es : List ℕ)
    → IsSorted a es
    → EndsIn a es c
    → gaps q c a es ≡ count (is_lost q c) a (last a es - a)
gaps-count q c a [] s ends = let nothing : a - a ≡ 0 = omega arith in rw nothing refl
gaps-count q c a (b ∷ es) s ends =
    let v = any (λ i. spans a b i && q i) c in
    let far = last_later b es s.1 in
    let lengths : last b es - a ≡ b - a + (last b es - b) = omega arith in
    let next : a + (b - a) ≡ b = omega arith in
    let gap =
      count-same (is_lost q c) v a (b - a)
        (λ t low high. lost_spans q c a b es t low (omega arith) s.1 ends) in
    let rest = gaps-count q c b es s.1 (ends_later c a b es s.0 ends) in
    rw (lengths, count-split (is_lost q c) a (b - a) (last b es - b), next, gap, rest) refl
