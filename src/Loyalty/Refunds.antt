-- ===== src/Loyalty/Refunds.antt =====
-- A refund takes back exactly what its payment earned.
use online_observatory.Common.{
  ℕ, ◌≡◌, refl, ◌∙◌, inl, inr, true, none, some, Option, arith, ◌==◌, ℤ, ◌+ℤ◌, neg, int_laws,
  Bool-cases, ==_self,
}
use online_observatory.Loyalty.{
  LoyaltyDb, SchemeRead, purchase_earned, purchase_reversed, payment_ref, returned, find_entry,
  read_loyalty_scheme,
}
use online_observatory.Loyalty.Earning.{
  Payment, points_earned_for, earn_entry, reversal_entry, earn_on_settled_payment, reverse_earned,
  reverse_loyalty_for_refund,
}
use online_observatory.Loyalty.Books.{
  Counter, of_balance, of_tier, amount_of, is_known, read_points,
}
use online_observatory.Loyalty.Callers.{undisturbed, Posts, post_loyalty_entry-Posts}

earned_found :
    (p : Payment) (booking : Option ℕ) (n : ℕ) (db db' : LoyaltyDb)
    → Posts (earn_entry p booking n) db db'
    → find_entry p.user_id purchase_earned (payment_ref p.id) db'.ledger
      ≡ some (earn_entry p booking n)
unfolding find_entry
earned_found p booking n db db' posts =
    rw posts.writes (ground (arith, ==_self p.user_id, ==_self p.id))

not_reversed :
    (p : Payment) (booking : Option ℕ) (n : ℕ) (db db' : LoyaltyDb)
    → Posts (earn_entry p booking n) db db'
    → find_entry p.user_id purchase_reversed (payment_ref p.id) db.ledger ≡ none
    → find_entry p.user_id purchase_reversed (payment_ref p.id) db'.ledger ≡ none
unfolding find_entry
not_reversed p booking n db db' posts fresh = rw posts.writes (ground (arith, fresh))

cancels : (a b : ℤ) → a +ℤ b +ℤ neg b ≡ a
cancels a b = omega int_laws

both_cancel :
    (w : Counter) (v : ℕ) (p : Payment) (booking : Option ℕ) (n : ℕ) (db earned db' : LoyaltyDb)
    → Posts (earn_entry p booking n) db earned
    → Posts (reversal_entry p (earn_entry p booking n)) earned db'
    → read_points w v db' ≡ read_points w v db
both_cancel w v p booking n db earned db' up down =
    down.moves w v
    ∙ rw (up.moves w v) (elim (Bool-cases (v == p.user_id)) [
      | inl payer ↦ rw payer (undo w v)
      | inr other ↦ rw other refl
    ])
  where
    undo :
        (w : Counter) (v : ℕ)
        → read_points w v db
            +ℤ amount_of w (earn_entry p booking n)
            +ℤ amount_of w (reversal_entry p (earn_entry p booking n))
          ≡ read_points w v db
    undo of_balance v = cancels _ _
    undo of_tier v = cancels _ _

-- A payment of a known account that settles and is then refunded leaves every balance and all tier
-- points as they were, where neither was recorded before, the scheme can be read and no other
-- transaction comes in between.
pub earn-reverse :
    (code : ℕ → ℕ) (p : Payment) (booking : Option ℕ) (db : LoyaltyDb) (r : SchemeRead)
    → read_loyalty_scheme db ≡ returned r
    → is_known p.user_id db ≡ true
    → find_entry p.user_id purchase_earned (payment_ref p.id) db.ledger ≡ none
    → find_entry p.user_id purchase_reversed (payment_ref p.id) db.ledger ≡ none
    → (earned db' : LoyaltyDb) × (earn_on_settled_payment (undisturbed code) p booking db
        ≡ returned earned)
      × (reverse_loyalty_for_refund (undisturbed code) p none earned ≡ returned db')
      × ((w : Counter) (v : ℕ) → read_points w v db' ≡ read_points w v db)
unfolding earn_on_settled_payment reverse_loyalty_for_refund reverse_earned
earn-reverse code p booking db r read known fresh kept =
    let n = points_earned_for r.scheme p.amount_minor in
    elim (Bool-cases (n == 0)) [
      | inl nothing ↦ (db, db, rw (read, nothing) refl, ground arith, λ w v. refl)
      | inr some_points ↦
          let (earned, done, up) =
            post_loyalty_entry-Posts code (earn_entry p booking n) db r read known refl fresh in
          let (db', undone, down) =
            post_loyalty_entry-Posts code (reversal_entry p (earn_entry p booking n)) earned r
              (up.scheme_kept ∙ read) up.known_kept refl
              (not_reversed p booking n db earned up kept) in
          let found = earned_found p booking n db earned up in
          (
            earned,
            db',
            rw (read, some_points) done,
            ground arith,
            λ w v. both_cancel w v p booking n db earned db' up down,
          )
    ]
