-- ===== src/Refunds/Chain.antt =====
-- The walk finds the booking at the root of a reschedule chain.
use online_observatory.Common.{
  ℕ, zero, suc, ◌≤◌, ◌<◌, ◌≡◌, ◌↔◌, refl, Option, none, some, arith, lookup, Option-cases, inl, inr,
}
use online_observatory.Refunds.{BookingRow, RefundDb}
use online_observatory.Refunds.Paying.{Funding, own_funding, walk, max_reschedule_chain}

-- `Funds db b n f`: `b` was made by `n` reschedules from a booking that `f` paid for, and no booking
-- on the way was paid for itself.
pub data Funds (db : RefundDb) : ℕ → ℕ → Funding → Type 0 where
  own :
      {b : ℕ} {f : Funding} (row : BookingRow)
      → lookup b db.bookings ≡ some row
      → own_funding b row db ≡ some f
      → Funds db b 0 f
  earlier :
      {b c n : ℕ} {f : Funding} (row : BookingRow)
      → lookup b db.bookings ≡ some row
      → own_funding b row db ≡ none
      → row.rescheduled_from ≡ some c
      → Funds db c n f
      → Funds db b (suc n) f

-- The walk returns what paid, if it is within its steps.
pub walk-finds :
    (steps b n : ℕ) (f : Funding) (db : RefundDb)
    → suc n ≤ steps
    → Funds db b n f
    → walk steps (some b) db ≡ some (some f)
unfolding walk
walk-finds zero b n f db h (own row here paid) = absurd (omega arith)
walk-finds zero b n f db h (earlier row here free before rest) = absurd (omega arith)
walk-finds (suc steps) b n f db h (own row here paid) = ground arith
walk-finds (suc steps) b n f db h (earlier {c = c} {n = m} row here free before rest) =
    let later = walk-finds steps c m f db (omega arith) rest in ground arith

walk-none : (steps : ℕ) (db : RefundDb) → walk steps none db ≡ some none
unfolding walk
walk-none zero db = refl
walk-none (suc steps) db = refl

-- What the walk returns has paid.
pub walk-found :
    (steps b : ℕ) (f : Funding) (db : RefundDb)
    → walk steps (some b) db ≡ some (some f)
    → (n : ℕ) × (suc n ≤ steps) × Funds db b n f
unfolding walk
walk-found zero b f db h = absurd (ground arith)
walk-found (suc steps) b f db h = elim (Option-cases (lookup b db.bookings)) [
  | inl missing ↦ absurd (ground arith)
  | inr (row, here) ↦ elim (Option-cases (own_funding b row db)) [
    | inr (g, paid) ↦ (0, omega arith, own row here (ground arith))
    | inl free ↦ elim (Option-cases row.rescheduled_from) [
      | inl first ↦ let ended = walk-none steps db in absurd (ground arith)
      | inr (c, before) ↦
          let (n, short, rest) = walk-found steps c f db (ground arith) in
          (suc n, omega arith, earlier row here free before rest)
    ]
  ]
]

-- Within twelve steps the walk returns exactly what paid for the booking.
pub walk-Funds :
    (b n : ℕ) (f : Funding) (db : RefundDb)
    → n < 12
    → Funds db b n f
    → (g : Option Funding) → (walk max_reschedule_chain (some b) db ≡ some g) ↔ (g ≡ some f)
walk-Funds b n f db short paid g =
    let found = walk-finds 12 b n f db (omega arith) paid in (λ h. ground arith, λ h. ground arith)
