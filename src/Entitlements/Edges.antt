-- ===== src/Entitlements/Edges.antt =====
-- The edges of the intervals: sorted, and every end is one.
use online_observatory.Common.{
  ℕ, ◌<◌, ◌≡◌, inl, inr, refl, Bool, true, ◌||◌, List, [], ◌∷◌, any, ltb, ◌==◌, arith, Bool-cases,
  All,
}
use online_observatory.Entitlements.{Interval, insert_edge, edges_of}
use online_observatory.Entitlements.Union.{IsSorted, EndsIn}

-- The ends of the intervals are edges, and the edges are sorted.
abbrev pub IsSortedFrom : List ℕ → Type 0
IsSortedFrom [] = Unit
IsSortedFrom (e ∷ es) = IsSorted e es

insert-IsSorted : (x a : ℕ) (es : List ℕ) → a < x → IsSorted a es → IsSorted a (insert_edge x es)
insert-IsSorted x a [] l s = (l, tt)
insert-IsSorted x a (e ∷ es) l s = elim (Bool-cases (x == e)) [
  | inl same ↦ rw same s
  | inr other ↦ elim (Bool-cases (ltb x e)) [
    | inl below ↦ rw (other, below) (l, (ground arith, s.1))
    | inr above ↦ rw (other, above) (s.0, insert-IsSorted x e es (ground arith) s.1)
  ]
]

insert-IsSortedFrom : (x : ℕ) (es : List ℕ) → IsSortedFrom es → IsSortedFrom (insert_edge x es)
insert-IsSortedFrom x [] s = tt
insert-IsSortedFrom x (e ∷ es) s = elim (Bool-cases (x == e)) [
  | inl same ↦ rw same s
  | inr other ↦ elim (Bool-cases (ltb x e)) [
    | inl below ↦ rw (other, below) (ground arith, s)
    | inr above ↦ rw (other, above) (insert-IsSorted x e es (ground arith) s)
  ]
]

pub edges_of-IsSortedFrom : (c : List Interval) → IsSortedFrom (edges_of c)
edges_of-IsSortedFrom [] = tt
edges_of-IsSortedFrom (i ∷ c) =
    insert-IsSortedFrom i.from (insert_edge i.to (edges_of c))
      (insert-IsSortedFrom i.to (edges_of c) (edges_of-IsSortedFrom c))

abbrev pub is_in : ℕ → List ℕ → Bool
is_in x es = any (λ e. x == e) es

insert-in : (x y : ℕ) (es : List ℕ) → is_in x (insert_edge y es) ≡ (x == y || is_in x es)
insert-in x y [] = refl
insert-in x y (e ∷ es) = elim (Bool-cases (y == e)) [
  | inl same ↦ rw same (ground arith)
  | inr other ↦ elim (Bool-cases (ltb y e)) [
    | inl below ↦ rw (other, below) refl
    | inr above ↦ rw (other, above, insert-in x y es) (ground arith)
  ]
]

abbrev pub EndsAre : List ℕ → List Interval → Type 0
EndsAre es c = All (λ i. (is_in i.from es ≡ true) × (is_in i.to es ≡ true)) c

ends_insert :
    (y : ℕ) (es : List ℕ) (c : List Interval) → EndsAre es c → EndsAre (insert_edge y es) c
ends_insert y es [] h = tt
ends_insert y es (i ∷ c) h = (
  (
    rw (insert-in i.from y es, h.0.0) (ground arith),
    rw (insert-in i.to y es, h.0.1) (ground arith),
  ),
  ends_insert y es c h.1,
)

pub edges-ends : (c : List Interval) → EndsAre (edges_of c) c
edges-ends [] = tt
edges-ends (i ∷ c) =
    let es = edges_of c in
    let fs = insert_edge i.to es in
    (
      (
        rw (insert-in i.from i.from fs) (ground arith),
        rw (insert-in i.to i.from fs, insert-in i.to i.to es) (ground arith),
      ),
      ends_insert i.from fs c (ends_insert i.to es c (edges-ends c)),
    )

pub ends_start : (a : ℕ) (es : List ℕ) (c : List Interval) → EndsAre (a ∷ es) c → EndsIn a es c
ends_start a es [] h = tt
ends_start a es (i ∷ c) h = ((ground arith, ground arith), ends_start a es c h.1)
