-- ===== src/Entitlements/Losses.antt =====
-- What is lost of a slot is what the intervals cover of it, each millisecond once.
use online_observatory.Common.{
  ℕ, ◌+◌, ◌-◌, ◌≤◌, ◌<◌, min, max, ◌≡◌, inl, inr, refl, sym, Bool, true, false, ◌&&◌, List, [], ◌∷◌,
  any, ltb, ◌==◌, arith, Bool-cases, All,
}
use online_observatory.Entitlements.{
  Interval, is_weather, clip, insert_edge, edges_of, spans, sum_gaps,
}
use online_observatory.Entitlements.Measure.{count, count-split, count-same}
use online_observatory.Entitlements.Union.{
  holds_at, is_lost, gaps, every, IsSorted, last, last_later, gaps-count,
}
use online_observatory.Entitlements.Edges.{IsSortedFrom, EndsAre, ends_start, is_in}

any-every :
    (from to : ℕ) (c : List Interval)
    → any (λ i. spans from to i && every i) c ≡ any (λ i. spans from to i) c
any-every from to [] = refl
any-every from to (i ∷ c) = rw (any-every from to c) (ground arith)

any_kind :
    (from to : ℕ) (c : List Interval)
    → any (λ i. spans from to i) c ≡ false
    → any (λ i. spans from to i && is_weather i) c ≡ false
any_kind from to [] h = refl
any_kind from to (i ∷ c) h = ground (arith, any_kind from to c)

-- The two sums are the gaps that weather spans, and all the gaps that are spanned.
pub sums :
    (c : List Interval) (a : ℕ) (es : List ℕ)
    → ((sum_gaps c a es).0 ≡ gaps is_weather c a es)
      × ((sum_gaps c a es).0 + (sum_gaps c a es).1 ≡ gaps every c a es)
unfolding sum_gaps
sums c a [] = (refl, refl)
sums c a (b ∷ es) =
    let (wet, all) = sums c b es in
    let same = any-every a b c in
    elim (Bool-cases (any (λ i. spans a b i) c)) [
      | inr e ↦ (rw (e, any_kind a b c e) (omega (arith, wet)), rw (same, e) (omega (arith, all)))
      | inl e ↦ elim (Bool-cases (any (λ i. spans a b i && is_weather i) c)) [
        | inl w ↦ (rw (e, w) (omega (arith, wet)), rw (same, e, w) (omega (arith, all)))
        | inr w ↦ (rw (e, w) (omega (arith, wet)), rw (same, e, w) (omega (arith, all)))
      ]
    ]

abbrev pub IsWithin : (start stop : ℕ) → Interval → Type 0
IsWithin start stop i = (start ≤ i.from) × (i.from < i.to) × (i.to ≤ stop)

pub clip-IsWithin :
    (start stop : ℕ) (is : List Interval) → All (IsWithin start stop) (clip start stop is)
clip-IsWithin start stop [] = tt
clip-IsWithin start stop (i ∷ is) = elim (Bool-cases (ltb (max i.from start) (min i.to stop))) [
  | inr e ↦ rw e (clip-IsWithin start stop is)
  | inl e ↦ rw e ((omega arith, ground arith, omega arith), clip-IsWithin start stop is)
]

-- Within the slot, clipping changes nothing.
pub clip-lost :
    (q : Interval → Bool) (start stop : ℕ) (is : List Interval) (t : ℕ)
    → ((i : Interval) (f u : ℕ) → q (record i { from = f; to = u }) ≡ q i)
    → start ≤ t
    → t < stop
    → is_lost q (clip start stop is) t ≡ is_lost q is t
clip-lost q start stop [] t k low high = refl
clip-lost q start stop (i ∷ is) t k low high =
    let rest = clip-lost q start stop is t k low high in
    elim (Bool-cases (ltb (max i.from start) (min i.to stop))) [
      | inl e ↦
          let same : holds_at t (record i { from = max i.from start; to = min i.to stop })
              ≡ holds_at t i =
            ground arith in
          rw (e, rest, k i (max i.from start) (min i.to stop), same) refl
      | inr e ↦ let never : holds_at t i ≡ false = ground arith in rw (e, rest, never) refl
    ]

abbrev pub IsBounded : (start stop : ℕ) → List ℕ → Type 0
IsBounded start stop es = All (λ e. (start ≤ e) × (e ≤ stop)) es

insert-IsBounded :
    (x start stop : ℕ) (es : List ℕ)
    → start ≤ x
    → x ≤ stop
    → IsBounded start stop es
    → IsBounded start stop (insert_edge x es)
insert-IsBounded x start stop [] l h b = ((l, h), tt)
insert-IsBounded x start stop (e ∷ es) l h b = elim (Bool-cases (x == e)) [
  | inl same ↦ rw same b
  | inr other ↦ elim (Bool-cases (ltb x e)) [
    | inl below ↦ rw (other, below) ((l, h), b)
    | inr above ↦ rw (other, above) (b.0, insert-IsBounded x start stop es l h b.1)
  ]
]

pub edges_of-IsBounded :
    (start stop : ℕ) (c : List Interval)
    → All (IsWithin start stop) c
    → IsBounded start stop (edges_of c)
edges_of-IsBounded start stop [] h = tt
edges_of-IsBounded start stop (i ∷ c) h =
    let (low, some_time, high) = h.0 in
    insert-IsBounded i.from start stop (insert_edge i.to (edges_of c)) low (omega arith) (
      insert-IsBounded i.to start stop (edges_of c) (omega arith) high
        (edges_of-IsBounded start stop c h.1))

-- The gaps between all the edges
abbrev pub gaps_of : (Interval → Bool) → List Interval → List ℕ → ℕ
gaps_of q c [] = 0
gaps_of q c (e ∷ es) = gaps q c e es

no_ends : (q : Interval → Bool) (c : List Interval) (t : ℕ) → EndsAre [] c → is_lost q c t ≡ false
no_ends q [] t h = refl
no_ends q (i ∷ c) t h = absurd (cc)

head_first : (x a : ℕ) (es : List ℕ) → IsSorted a es → is_in x (a ∷ es) ≡ true → a ≤ x
head_first x a [] s h = ground arith
head_first x a (e ∷ es) s h = elim (Bool-cases (x == a)) [
  | inl same ↦ ground arith
  | inr other ↦ ground (arith, head_first x e es s.1 (ground arith))
]

last_last : (x a : ℕ) (es : List ℕ) → IsSorted a es → is_in x (a ∷ es) ≡ true → x ≤ last a es
last_last x a [] s h = ground arith
last_last x a (e ∷ es) s h = elim (Bool-cases (x == a)) [
  | inl same ↦ let far = last_later e es s.1 in ground arith
  | inr other ↦ last_last x e es s.1 (ground arith)
]

lost_before :
    (q : Interval → Bool) (c : List Interval) (a : ℕ) (es : List ℕ) (t : ℕ)
    → IsSorted a es
    → EndsAre (a ∷ es) c
    → t < a
    → is_lost q c t ≡ false
lost_before q [] a es t s h l = refl
lost_before q (i ∷ c) a es t s h l =
    let first = head_first i.from a es s h.0.0 in
    let never : holds_at t i ≡ false = ground arith in
    rw (never, lost_before q c a es t s h.1 l) refl

lost_after :
    (q : Interval → Bool) (c : List Interval) (a : ℕ) (es : List ℕ) (t : ℕ)
    → IsSorted a es
    → EndsAre (a ∷ es) c
    → last a es ≤ t
    → is_lost q c t ≡ false
lost_after q [] a es t s h l = refl
lost_after q (i ∷ c) a es t s h l =
    let final = last_last i.to a es s h.0.1 in
    let never : holds_at t i ≡ false = ground arith in
    rw (never, lost_after q c a es t s h.1 l) refl

last_bounded :
    (a start stop : ℕ) (es : List ℕ)
    → IsBounded start stop (a ∷ es)
    → (start ≤ last a es) × (last a es ≤ stop)
last_bounded a start stop [] h = h.0
last_bounded a start stop (e ∷ es) h = last_bounded e start stop es h.1

-- The gaps are what is lost of the whole slot.
pub gaps_of-count :
    (q : Interval → Bool) (c : List Interval) (start stop : ℕ) (es : List ℕ)
    → start ≤ stop
    → IsSortedFrom es
    → EndsAre es c
    → IsBounded start stop es
    → gaps_of q c es ≡ count (is_lost q c) start (stop - start)
gaps_of-count q c start stop [] le s h b =
    sym (count-same (is_lost q c) false start (stop - start) (λ t low high. no_ends q c t h))
gaps_of-count q c start stop (a ∷ es) le s h b =
    let p = is_lost q c in
    let z = last a es in
    let far = last_later a es s in
    let (z_low, z_high) = last_bounded a start stop es b in
    let (a_low, a_high) = b.0 in
    let lengths : stop - start ≡ a - start + (z - a + (stop - z)) = omega arith in
    let to_a : start + (a - start) ≡ a = omega arith in
    let to_z : a + (z - a) ≡ z = omega arith in
    let before =
      count-same p false start (a - start)
        (λ t low high. lost_before q c a es t s h (omega arith)) in
    let after = count-same p false z (stop - z) (λ t low high. lost_after q c a es t s h low) in
    rw
      (
        lengths,
        count-split p start (a - start) (z - a + (stop - z)),
        to_a,
        count-split p a (z - a) (stop - z),
        to_z,
        before,
        after,
        gaps-count q c a es s (ends_start a es c h),
      )
      (omega arith)
