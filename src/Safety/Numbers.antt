-- ===== src/Safety/Numbers.antt =====
-- The language's numbers (IEEE 754 doubles) with what the safety envelope computes of them. They
-- are a parameter of the envelope: any arithmetic will do for most of it, and `Ordered` has the
-- laws of the comparisons that some of it relies on.
use online_observatory.Common.{◌≡◌, Bool, true, false, not, ℤ, ◌≤ℤ◌}

pub record Float : Type 1 where
  pub Num : Type 0
  pub of_int : ℤ → Num
  pub lt : Num → Num → Bool
  pub le : Num → Num → Bool
  pub eq : Num → Num → Bool
  -- `Number.isFinite`
  pub is_finite : Num → Bool
  pub add : Num → Num → Num
  pub sub : Num → Num → Num
  pub mul : Num → Num → Num
  pub div : Num → Num → Num
  -- `%`
  pub rem : Num → Num → Num
  -- `Math.min`, `Math.max`, `Math.sin`, `Math.cos`, `Math.acos`, `Math.PI`
  pub min_of : Num → Num → Num
  pub max_of : Num → Num → Num
  pub sin : Num → Num
  pub cos : Num → Num
  pub acos : Num → Num
  pub pi : Num

-- The comparisons of doubles: `<` and `<=` are transitive and together total on numbers, which
-- excludes NaN; `Math.max` is no less than either number and `Math.min` no more.
pub record Ordered (F : Float) : Type 0 where
  pub lt-le-trans : (a b c : F.Num) → F.lt a b ≡ true → F.le b c ≡ true → F.lt a c ≡ true
  pub le-not_lt : (a b : F.Num) → F.eq a a ≡ true → F.eq b b ≡ true → F.le a b ≡ not (F.lt b a)
  pub lt-asym : (a b : F.Num) → F.lt a b ≡ true → F.lt b a ≡ false
  pub eq_iff_neither :
      (a b : F.Num)
      → F.eq a a ≡ true
      → F.eq b b ≡ true
      → F.lt a b ≡ false
      → F.lt b a ≡ false
      → F.eq a b ≡ true
  pub eq-comm : (a b : F.Num) → F.eq a b ≡ F.eq b a
  pub max_right :
      (a b : F.Num) → F.is_finite a ≡ true → F.is_finite b ≡ true → F.le b (F.max_of a b) ≡ true
  pub min_right :
      (a b : F.Num) → F.is_finite a ≡ true → F.is_finite b ≡ true → F.le (F.min_of a b) b ≡ true
  pub le-lt-trans : (a b c : F.Num) → F.le a b ≡ true → F.lt b c ≡ true → F.lt a c ≡ true
  pub of_int_finite : (z : ℤ) → F.is_finite (F.of_int z) ≡ true
  pub of_int_le : (y z : ℤ) → y ≤ℤ z → F.le (F.of_int y) (F.of_int z) ≡ true
