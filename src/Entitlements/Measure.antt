-- ===== src/Entitlements/Measure.antt =====
-- How many milliseconds of a stretch have a property.
use online_observatory.Common.{
  ℕ, zero, suc, ◌+◌, ◌≤◌, ◌<◌, ◌≡◌, refl, Bool, true, inl, inr, if◌then◌else◌, arith, Bool-cases,
}

abbrev pub count : (ℕ → Bool) → (start length : ℕ) → ℕ
count p a zero = 0
count p a (suc n) = (if p a then 1 else 0) + count p (suc a) n

pub count-bounded : (p : ℕ → Bool) (a n : ℕ) → count p a n ≤ n
count-bounded p a zero = ground arith
count-bounded p a (suc n) = ground (arith, count-bounded p (suc a) n)

pub count-split : (p : ℕ → Bool) (a m n : ℕ) → count p a (m + n) ≡ count p a m + count p (a + m) n
count-split p a zero n =
    let same : a + 0 ≡ a = omega arith in
    let all : 0 + n ≡ n = omega arith in rw (same, all) (omega arith)
count-split p a (suc m) n =
    let here : a + suc m ≡ suc a + m = omega arith in
    let rest = count-split p (suc a) m n in
    let step : suc m + n ≡ suc (m + n) = omega arith in rw (step, here) (omega (arith, rest))

-- Where the property is the same throughout
pub count-same :
    (p : ℕ → Bool) (v : Bool) (a n : ℕ)
    → ((t : ℕ) → a ≤ t → t < a + n → p t ≡ v)
    → count p a n ≡ (if v then n else 0)
count-same p v a zero h = ground arith
count-same p v a (suc n) h =
    let rest = count-same p v (suc a) n (λ t l u. h t (omega arith) (omega arith)) in
    rw (h a (omega arith) (omega arith), rest) (ground arith)

pub count-ext :
    (p q : ℕ → Bool) (a n : ℕ)
    → ((t : ℕ) → a ≤ t → t < a + n → p t ≡ q t)
    → count p a n ≡ count q a n
count-ext p q a zero h = refl
count-ext p q a (suc n) h =
    let rest = count-ext p q (suc a) n (λ t l u. h t (omega arith) (omega arith)) in
    rw (h a (omega arith) (omega arith), rest) refl

pub count-implied :
    (p q : ℕ → Bool) (a n : ℕ) → ((t : ℕ) → p t ≡ true → q t ≡ true) → count p a n ≤ count q a n
count-implied p q a zero h = omega arith
count-implied p q a (suc n) h =
    let rest = count-implied p q (suc a) n h in
    elim (Bool-cases (p a)) [
      | inl e ↦ rw (e, h a e) (omega (arith, rest))
      | inr e ↦ ground (arith, rest)
    ]
