-- ===== src/Refunds/Frames.antt =====
-- What the steps of a refund keep, and how its claim closes the entitlement.
use online_observatory.Common.{
  ℕ, ◌≡◌, refl, ◌∙◌, Bool, true, false, Option, none, some, arith, lookup, adjust, lookup-adjust,
  Option-cases, Bool-cases, inl, inr, ==_self,
}
use online_observatory.Credits as Credits
use online_observatory.Loyalty as Loyalty
use online_observatory.Refunds.{
  BookingStatus, refunded_booking, BookingRow, RefundPayment, RefundDb, then_try, queue_email,
  release_card_prize, booking_was_refunded, EmailKey, PrizeCause,
}
use online_observatory.Refunds.Paying.{
  RefundEnv, RefundInput, RefundResult, refund_made, Refunded, is_entitled, resolve, with_claim,
  mark_refunded, of_credits, of_loyalty,
}
use online_observatory.Refunds.Refunding.{
  finish_voucher, after_payment, release_prize_of, paid_with, loyalty_payment, map_booking,
}
use online_observatory.Loyalty.Earning.{reverse_loyalty_for_refund}

pub then_try-some {ℓ κ} :
    {A : Type ℓ} {B : Type κ} (x : Option A) (f : A → Option B) (b : B)
    → then_try x f ≡ some b
    → (a : A) × (x ≡ some a) × (f a ≡ some b)
then_try-some none f b h = absurd (cc)
then_try-some (some a) f b h = (a, refl, h)

-- The entitlements and the bookings stay as they are.
abbrev pub Same : RefundDb → RefundDb → Type 0
Same db db' = (db'.entitlements ≡ db.entitlements) × (db'.bookings ≡ db.bookings)

abbrev is_refunded : BookingStatus → Bool
is_refunded refunded_booking = true
is_refunded _ = false

abbrev pub was_refunded : ℕ → RefundDb → Bool
was_refunded b db = elim (lookup b db.bookings) [ none ↦ false | some r ↦ is_refunded r.status ]

pub release-Same :
    (b : ℕ) (cause : PrizeCause) (actor : Option ℕ) (now : ℕ) (db : RefundDb)
    → Same db (release_card_prize b cause actor now db).1
unfolding release_card_prize
release-Same b cause actor now db = (ground arith, ground arith)

release_of-Same :
    (i : RefundInput) (paid : Option (ℕ × BookingRow)) (db : RefundDb)
    → Same db (release_prize_of i paid db).1
release_of-Same i none db = (refl, refl)
release_of-Same i (some b) db = release-Same b.0 booking_was_refunded i.actor_user_id i.now db

email-Same : (u : ℕ) (k : EmailKey) (db : RefundDb) → Same db (queue_email u k db)
email-Same u k db = (ground arith, ground arith)

-- The booking is refunded, and the entitlements stay as they are.
abbrev pub Ends : ℕ → RefundDb → RefundDb → Type 0
Ends b db db' = (db'.entitlements ≡ db.entitlements) × (was_refunded b db' ≡ true)

pub mark_refunded-Ends : (b : ℕ) (db db' : RefundDb) → mark_refunded b db ≡ some db' → Ends b db db'
unfolding mark_refunded
mark_refunded-Ends b db db' h = (
  ground arith,
  ground (
    arith,
    lookup-adjust b b (λ (r : BookingRow). record r { status = refunded_booking }) db.bookings,
  ),
)

pub then-Ends : (b : ℕ) (db mid db' : RefundDb) → Ends b db mid → Same mid db' → Ends b db db'
then-Ends b db mid db' (e, r) (same, rows) = (same ∙ e, rw rows r)

pub after-Ends :
    (b : ℕ) (db mid db' : RefundDb)
    → mid.entitlements ≡ db.entitlements
    → Ends b mid db'
    → Ends b db db'
after-Ends b db mid db' same (e, r) = (e ∙ same, r)

pub finish_voucher-Ends :
    (i : RefundInput) (u v x : ℕ) (db db' : RefundDb) (r : RefundResult)
    → finish_voucher i u v x db ≡ some (r, db')
    → Ends i.booking_id db db'
finish_voucher-Ends i u v x db db' r h = elim (Option-cases (mark_refunded i.booking_id db)) [
  | inl threw ↦ absurd (ground arith)
  | inr (marked, done) ↦
      then-Ends i.booking_id db marked db' (mark_refunded-Ends i.booking_id db marked done)
        (ground arith, ground arith)
]

of_loyalty-Same :
    (a : Loyalty.Attempt Loyalty.LoyaltyDb) (db db' : RefundDb)
    → of_loyalty a db ≡ some db'
    → Same db db'
of_loyalty-Same (Loyalty.returned l) db db' h = (ground arith, ground arith)
of_loyalty-Same (Loyalty.thrown f) db db' h = absurd (cc)

pub of_credits-kept :
    (a : Credits.Attempt Credits.CreditDb) (db db' : RefundDb)
    → of_credits a db ≡ some db'
    → db'.entitlements ≡ db.entitlements
of_credits-kept (Credits.returned c) db db' h = ground arith
of_credits-kept (Credits.thrown f) db db' h = absurd (cc)

pub after_payment-Same :
    (env : RefundEnv) (i : RefundInput) (u id : ℕ) (p : RefundPayment) (db db' : RefundDb)
    (r : RefundResult)
    → after_payment env i u id p db ≡ some (r, db')
    → Same db db'
unfolding after_payment
after_payment-Same env i u id p db db' r h =
    let paid = paid_with id db.bookings in
    elim (Option-cases (
      of_loyalty
        (reverse_loyalty_for_refund env.loyalty (loyalty_payment id p) (map_booking paid)
          db.loyalty)
        db)) [
          | inl threw ↦ absurd (ground arith)
          | inr (reversed, done) ↦
              let (kept, rows) = of_loyalty-Same _ db reversed done in
              let (kept', rows') = release_of-Same i paid reversed in
              (ground (arith, kept, kept'), ground (arith, rows, rows'))
        ]

-- A claim that wrote the row closes the entitlement.
claimed_closed :
    (b now : ℕ) (db : RefundDb)
    → is_entitled b (record db { entitlements = adjust b (resolve now) db.entitlements }) ≡ false
claimed_closed b now db = ground (arith, lookup-adjust b b (resolve now) db.entitlements, ==_self b)

-- A refund found the entitlement open at its claim, and left it closed and the booking refunded.
abbrev pub Closes : RefundEnv → RefundInput → RefundDb → RefundDb → Type 0
Closes env i db db' =
    (is_entitled i.booking_id db' ≡ false)
    × (was_refunded i.booking_id db' ≡ true)
    × (is_entitled i.booking_id (env.before_claim db) ≡ true)

-- Where the rest of a refund ends it, the refund that was made closes the entitlement.
pub with_claim-closes :
    (env : RefundEnv) (i : RefundInput) (db db' : RefundDb)
    (rest : RefundDb → Option (RefundResult × RefundDb)) (m : Refunded)
    → ((c d : RefundDb) (r : RefundResult) → rest c ≡ some (r, d) → Ends i.booking_id c d)
    → with_claim env i db rest ≡ some (refund_made m, db')
    → Closes env i db db'
unfolding with_claim
with_claim-closes env i db db' rest m ends h =
    let found = env.before_claim db in
    elim (Bool-cases (is_entitled i.booking_id found)) [
      | inr taken ↦ absurd (ground arith)
      | inl free ↦
          let claimed = record found {
            entitlements = adjust i.booking_id (resolve i.now) found.entitlements;
          } in
          let (kept, marked) = ends claimed db' (refund_made m) (ground arith) in
          (rw kept (claimed_closed i.booking_id i.now found), marked, free)
    ]
