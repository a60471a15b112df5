-- ===== src/Refunds/Once.antt =====
-- A booking is refunded at most once.
use online_observatory.Common.{
  ℕ, ◌≡◌, ◌∙◌, refl, Bool, true, false, Option, none, some, arith, lookup, Option-cases, Bool-cases,
  inl, inr,
}
use online_observatory.Refunds.{
  floor_at, BookingRow, VoucherRow, RefundPayment, RefundDb, then_try, update, release_card_prize,
  booking_was_refunded,
}
use online_observatory.Refunds.Paying.{
  RefundEnv, RefundInput, RefundResult, refund_made, refund_refused, no_open_entitlement, Refunded,
  Funding, by_payment, by_voucher, by_free_slot, by_minutes, is_entitled, mark_refunded, walk,
  of_credits, max_reschedule_chain,
}
use online_observatory.Refunds.Refunding.{
  reactivate, longer, minutes_booking, restore_voucher, restore_free_slot_prize, return_minutes,
  after_payment, pay_back, refund_payment, refund_money, refund_by, refund_entitled_booking,
}
use online_observatory.Credits.{release_spent_minutes}
use online_observatory.Refunds.Frames.{
  then_try-some, Ends, Closes, was_refunded, release-Same, mark_refunded-Ends, finish_voucher-Ends,
  of_credits-kept, after_payment-Same, with_claim-closes, then-Ends, after-Ends,
}

refund_payment-closes :
    (env : RefundEnv) (i : RefundInput) (u id : ℕ) (p : RefundPayment) (db db' : RefundDb)
    (m : Refunded)
    → refund_payment env i u id p db ≡ some (refund_made m, db')
    → Closes env i db db'
unfolding refund_payment
refund_payment-closes env i u id p db db' m h = with_claim-closes env i db db' _ m ends h
  where
    ends :
        (c d : RefundDb) (r : RefundResult)
        → then_try (update id (pay_back i.now) c.payments) (λ payments.
          then_try
            (mark_refunded i.booking_id (record c { payments = payments }))
            (after_payment env i u id p))
          ≡ some (r, d)
        → Ends i.booking_id c d
    ends c d r h =
        let (payments, _, next) =
          then_try-some (update id (pay_back i.now) c.payments) _ (r, d) h in
        let (marked, done, last) =
          then_try-some (mark_refunded i.booking_id (record c { payments = payments }))
            (after_payment env i u id p) (r, d) next in
        then-Ends i.booking_id c marked d
          (mark_refunded-Ends i.booking_id (record c { payments = payments }) marked done)
          (after_payment-Same env i u id p marked d r last)

restore_voucher-closes :
    (env : RefundEnv) (i : RefundInput) (u v : ℕ) (row : VoucherRow) (db db' : RefundDb)
    (m : Refunded)
    → restore_voucher env i u v row db ≡ some (refund_made m, db')
    → Closes env i db db'
unfolding restore_voucher
restore_voucher-closes env i u v row db db' m h =
    with_claim-closes env i db db' _ m
      (λ c d r e.
        let (vouchers, _, next) =
          then_try-some (update v (λ _. reactivate i.now row) c.vouchers) _ (r, d) e in
        finish_voucher-Ends i u v (longer row.expires_at (floor_at i.now))
          (record c { vouchers = vouchers }) d r next)
      h

restore_free_slot_prize-closes :
    (env : RefundEnv) (i : RefundInput) (paid : ℕ) (db db' : RefundDb) (m : Refunded)
    → restore_free_slot_prize env i paid db ≡ some (refund_made m, db')
    → Closes env i db db'
unfolding restore_free_slot_prize
restore_free_slot_prize-closes env i paid db db' m h =
    with_claim-closes env i db db' _ m
      (λ c d r e.
        let released = release_card_prize paid booking_was_refunded i.actor_user_id i.now c in
        let (kept, _) = release-Same paid booking_was_refunded i.actor_user_id i.now c in
        let (marked, done, next) =
          then_try-some (mark_refunded i.booking_id released.1) _ (r, d) e in
        let same : d ≡ marked = ground arith in
        rw same (
          after-Ends i.booking_id c released.1 marked kept
            (mark_refunded-Ends i.booking_id released.1 marked done)))
      h

return_minutes-closes :
    (env : RefundEnv) (i : RefundInput) (paid : ℕ) (row : BookingRow) (db db' : RefundDb)
    (m : Refunded)
    → return_minutes env i paid row db ≡ some (refund_made m, db')
    → Closes env i db db'
unfolding return_minutes
return_minutes-closes env i paid row db db' m h =
    with_claim-closes env i db db' _ m
      (λ c d r e.
        let attempt =
          release_spent_minutes env.credits (minutes_booking paid row) i.now c.credits in
        let (released, back, next) = then_try-some (of_credits attempt c) _ (r, d) e in
        let (marked, done, last) =
          then_try-some (mark_refunded i.booking_id released) _ (r, d) next in
        then-Ends i.booking_id c marked d
          (after-Ends i.booking_id c released marked (of_credits-kept attempt c released back)
            (mark_refunded-Ends i.booking_id released marked done))
          (ground arith, ground arith))
      h

-- A refund that was made has left the booking REFUNDED and its entitlement closed.
closes :
    (env : RefundEnv) (i : RefundInput) (u : ℕ) (f : Option Funding) (db db' : RefundDb)
    (m : Refunded)
    → refund_by env i u f db ≡ some (refund_made m, db')
    → Closes env i db db'
unfolding refund_by refund_money
closes env i u none db db' m h = absurd (cc)
closes env i u (some (by_payment id)) db db' m h = elim (Option-cases (lookup id db.payments)) [
  | inl missing ↦ absurd (ground arith)
  | inr (p, here) ↦ refund_payment-closes env i u id p db db' m (ground arith)
]
closes env i u (some (by_voucher id)) db db' m h =
    let (row, _, next) = then_try-some (lookup id db.vouchers) _ (refund_made m, db') h in
    restore_voucher-closes env i u id row db db' m next
closes env i u (some (by_free_slot paid)) db db' m h =
    restore_free_slot_prize-closes env i paid db db' m h
closes env i u (some (by_minutes paid)) db db' m h =
    let (row, _, next) = then_try-some (lookup paid db.bookings) _ (refund_made m, db') h in
    return_minutes-closes env i paid row db db' m next

refused_again :
    (env : RefundEnv) (i : RefundInput) (db : RefundDb)
    → is_entitled i.booking_id db ≡ false
    → refund_entitled_booking env i db ≡ some (refund_refused no_open_entitlement, db)
unfolding refund_entitled_booking
refused_again env i db h = ground arith

abbrev pub is_made : Option (RefundResult × RefundDb) → Bool
is_made (some (refund_made m, db)) = true
is_made _ = false

not_made :
    (x : Option (RefundResult × RefundDb))
    → ((m : Refunded) (d : RefundDb) → ¬ (x ≡ some (refund_made m, d)))
    → is_made x ≡ false
not_made none h = refl
not_made (some (refund_made m, d)) h = absurd (h m d refl)
not_made (some (refund_refused r, d)) h = refl

made_closes :
    (env : RefundEnv) (i : RefundInput) (db db' : RefundDb) (m : Refunded)
    → refund_entitled_booking env i db ≡ some (refund_made m, db')
    → Closes env i db db'
unfolding refund_entitled_booking
made_closes env i db db' m h = elim (Option-cases (lookup i.booking_id db.entitlements)) [
  | inl missing ↦ absurd (ground arith)
  | inr (e, here) ↦ elim (Bool-cases (is_entitled i.booking_id db)) [
    | inr over ↦ absurd (ground arith)
    | inl entitled ↦
        let (f, _, next) =
          then_try-some (walk max_reschedule_chain (some i.booking_id) db)
            (λ f. refund_by env i e.user_id f db) (refund_made m, db') (ground arith) in
        closes env i e.user_id f db db' m next
  ]
]

entitled_alike :
    (b : ℕ) (x y : RefundDb)
    → lookup b x.entitlements ≡ lookup b y.entitlements
    → is_entitled b x ≡ is_entitled b y
entitled_alike b x y h = ground (arith, h)

not_open : (v : Bool) → v ≡ false → ¬ (v ≡ true)
not_open true h = λ _. absurd (cc)
not_open false h = λ e. absurd (cc)

-- After a refund that was made, whatever other transactions committed before its claim, the booking
-- is REFUNDED, any further refund of it is refused as NO_OPEN_ENTITLEMENT and changes no table, and
-- a refund of it that has read any tables before, and makes its claim where the entitlement is as
-- the first refund left it, is not made either.
pub refund_entitled_booking-once :
    (env env' : RefundEnv) (i i' : RefundInput) (db db' read : RefundDb) (m : Refunded)
    → refund_entitled_booking env i db ≡ some (refund_made m, db')
    → i'.booking_id ≡ i.booking_id
    → lookup i.booking_id (env'.before_claim read).entitlements
      ≡ lookup i.booking_id db'.entitlements
    → (was_refunded i.booking_id db' ≡ true)
      × (refund_entitled_booking env' i' db' ≡ some (refund_refused no_open_entitlement, db'))
      × (is_made (refund_entitled_booking env' i' read) ≡ false)
refund_entitled_booking-once env env' i i' db db' read m h same raced =
    let (closed, marked, _) = made_closes env i db db' m h in
    let gone : is_entitled i'.booking_id (env'.before_claim read) ≡ false =
      entitled_alike i'.booking_id (env'.before_claim read) db' (rw same raced) ∙ rw same closed in
    (
      marked,
      refused_again env' i' db' (rw same closed),
      not_made (refund_entitled_booking env' i' read) (λ m' d made.
          not_open (is_entitled i'.booking_id (env'.before_claim read)) gone
            (made_closes env' i' read d m' made).2),
    )
