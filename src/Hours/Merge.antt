-- ===== src/Hours/Merge.antt =====
-- Merged intervals: what they cover, and how they lie.
use online_observatory.Common.{
  ℕ, ◌≤◌, ◌<◌, ◌≡◌, ◌∙◌, refl, inl, inr, Bool, ◌&&◌, ◌||◌, List, [], ◌∷◌, any, arith, ltb, leb,
  Bool-cases, All,
}
use online_observatory.Slots.{NightWindow}
use online_observatory.Hours.{insert_by_dusk, sort_by_dusk, extend, merge_into, merge_sorted, merge}

abbrev pub covers : ℕ → NightWindow → Bool
covers t i = leb i.dusk_at t && ltb t i.dawn_at

-- Some interval covers the instant.
abbrev pub is_open : ℕ → List NightWindow → Bool
is_open t is = any (covers t) is

-- From `at` on, the dusks do not fall.
abbrev pub IsSorted : ℕ → List NightWindow → Type 0
IsSorted at [] = Unit
IsSorted at (i ∷ is) = (at ≤ i.dusk_at) × IsSorted i.dusk_at is

-- None is empty, and each begins after the one before it has ended, with time between.
abbrev pub AreApart : List NightWindow → Type 0
AreApart [] = Unit
AreApart (i ∷ is) = (i.dusk_at < i.dawn_at) × All (λ j. i.dawn_at < j.dusk_at) is × AreApart is

abbrev pub IsProper : NightWindow → Type 0
IsProper i = i.dusk_at < i.dawn_at

IsSorted-before : (a b : ℕ) (is : List NightWindow) → a ≤ b → IsSorted b is → IsSorted a is
IsSorted-before a b [] l s = tt
IsSorted-before a b (i ∷ is) l s = (omega (arith, s.0), s.1)

insert-IsSorted :
    (i : NightWindow) (at : ℕ) (is : List NightWindow)
    → at ≤ i.dusk_at
    → IsSorted at is
    → IsSorted at (insert_by_dusk i is)
insert-IsSorted i at [] l s = (l, tt)
insert-IsSorted i at (j ∷ js) l s = elim (Bool-cases (leb i.dusk_at j.dusk_at)) [
  | inl up ↦ rw up (l, (ground arith, s.1))
  | inr down ↦ rw down (s.0, insert-IsSorted i j.dusk_at js (ground arith) s.1)
]

sort-IsSorted : (is : List NightWindow) → IsSorted 0 (sort_by_dusk is)
sort-IsSorted [] = tt
sort-IsSorted (i ∷ is) = insert-IsSorted i 0 (sort_by_dusk is) (omega arith) (sort-IsSorted is)

insert-is_open :
    (t : ℕ) (i : NightWindow) (is : List NightWindow)
    → is_open t (insert_by_dusk i is) ≡ (covers t i || is_open t is)
insert-is_open t i [] = refl
insert-is_open t i (j ∷ js) = elim (Bool-cases (leb i.dusk_at j.dusk_at)) [
  | inl up ↦ rw up refl
  | inr down ↦ rw (down, insert-is_open t i js) (ground arith)
]

sort-is_open : (t : ℕ) (is : List NightWindow) → is_open t (sort_by_dusk is) ≡ is_open t is
sort-is_open t [] = refl
sort-is_open t (i ∷ is) = rw (insert-is_open t i (sort_by_dusk is), sort-is_open t is) refl

insert-IsProper :
    (i : NightWindow) (is : List NightWindow)
    → IsProper i
    → All IsProper is
    → All IsProper (insert_by_dusk i is)
insert-IsProper i [] p a = (p, tt)
insert-IsProper i (j ∷ js) p a = elim (Bool-cases (leb i.dusk_at j.dusk_at)) [
  | inl up ↦ rw up (p, a)
  | inr down ↦ rw down (a.0, insert-IsProper i js p a.1)
]

sort-IsProper : (is : List NightWindow) → All IsProper is → All IsProper (sort_by_dusk is)
sort-IsProper [] a = tt
sort-IsProper (i ∷ is) a = insert-IsProper i (sort_by_dusk is) a.0 (sort-IsProper is a.1)

-- Two intervals that touch cover what the extended one does.
extend-covers :
    (t : ℕ) (last i : NightWindow)
    → last.dusk_at ≤ i.dusk_at
    → i.dusk_at ≤ last.dawn_at
    → covers t (extend last i) ≡ (covers t last || covers t i)
extend-covers t last i up touch = ground arith

merge_into-is_open :
    (t : ℕ) (last : NightWindow) (is : List NightWindow)
    → IsSorted last.dusk_at is
    → is_open t (merge_into last is) ≡ (covers t last || is_open t is)
merge_into-is_open t last [] s = refl
merge_into-is_open t last (i ∷ is) s = elim (Bool-cases (leb i.dusk_at last.dawn_at)) [
  | inl touch ↦
      let later : IsSorted last.dusk_at is = IsSorted-before last.dusk_at i.dusk_at is s.0 s.1 in
      rw
        (
          touch,
          merge_into-is_open t (extend last i) is later,
          extend-covers t last i s.0 (ground arith),
        )
        (ground arith)
  | inr apart ↦ rw (apart, merge_into-is_open t i is s.1) refl
]

merge_sorted-is_open :
    (t : ℕ) (is : List NightWindow) → IsSorted 0 is → is_open t (merge_sorted is) ≡ is_open t is
merge_sorted-is_open t [] s = refl
merge_sorted-is_open t (i ∷ is) s = merge_into-is_open t i is s.1

pub merge-is_open : (t : ℕ) (is : List NightWindow) → is_open t (merge is) ≡ is_open t is
unfolding merge
merge-is_open t is = merge_sorted-is_open t (sort_by_dusk is) (sort-IsSorted is) ∙ sort-is_open t is

-- Whatever begins before the last one does so before every merged one.
merge_into-after :
    (a : ℕ) (last : NightWindow) (is : List NightWindow)
    → a < last.dusk_at
    → IsSorted last.dusk_at is
    → All (λ j. a < j.dusk_at) (merge_into last is)
merge_into-after a last [] l s = (l, tt)
merge_into-after a last (i ∷ is) l s = elim (Bool-cases (leb i.dusk_at last.dawn_at)) [
  | inl touch ↦
      rw touch (
        merge_into-after a (extend last i) is l (IsSorted-before last.dusk_at i.dusk_at is s.0 s.1))
  | inr apart ↦ rw apart (l, merge_into-after a i is (omega (arith, s.0)) s.1)
]

merge_into-AreApart :
    (last : NightWindow) (is : List NightWindow)
    → IsSorted last.dusk_at is
    → IsProper last
    → All IsProper is
    → AreApart (merge_into last is)
merge_into-AreApart last [] s p a = (p, tt, tt)
merge_into-AreApart last (i ∷ is) s p a = elim (Bool-cases (leb i.dusk_at last.dawn_at)) [
  | inl touch ↦ rw touch (
      merge_into-AreApart (extend last i) is (IsSorted-before last.dusk_at i.dusk_at is s.0 s.1)
        (ground arith) a.1)
  | inr apart ↦ rw apart (
    p,
    merge_into-after last.dawn_at i is (ground arith) s.1,
    merge_into-AreApart i is s.1 a.0 a.1,
  )
]

merge_sorted-AreApart :
    (is : List NightWindow) → IsSorted 0 is → All IsProper is → AreApart (merge_sorted is)
merge_sorted-AreApart [] s a = tt
merge_sorted-AreApart (i ∷ is) s a = merge_into-AreApart i is s.1 a.0 a.1

pub merge-AreApart : (is : List NightWindow) → All IsProper is → AreApart (merge is)
unfolding merge
merge-AreApart is a =
    merge_sorted-AreApart (sort_by_dusk is) (sort-IsSorted is) (sort-IsProper is a)
