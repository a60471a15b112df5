-- ===== src/Credits/Callers.antt =====
-- The callers of `postCreditEntry`: spending a booking's minutes and giving them back, expiry, and
-- an event that is recorded twice.
use online_observatory.Common.{
  ℕ, ◌≡◌, ◌≢◌, refl, ◌∙◌, true, false, none, some, List, ◌∷◌, arith, ◌==◌, if◌then◌else◌, ℤ, pos,
  ◌+ℤ◌, ◌-ℤ◌, neg, ◌≤ℤ◌, leb_ℤ, leb_ℤ→le, leb_ℤ-false→lt, int_laws, lookup, Bool-cases, inl, inr,
  ==_self, ==_iff, ◌<◌, ◌≤◌, suc,
}
use online_observatory.Credits.{
  CreditDb, CreditEntry, posted, not_posted, duplicate, returned, Interference, undisturbed,
  has_key, row_of, LedgerRow, ensure_credit_account, read_credit_balance, post_credit_entry,
  booking_release, CreditBooking, SubscriptionRef, spendable, spend_booking_minutes,
  release_spent_minutes, release_of, debit_of, has_running_period, expire_subscription_minutes,
  expiry_entry, expiry_of, max_safe_integer, is_safe_integer,
}
use online_observatory.Credits.Ledger.{post_cases}
use online_observatory.Credits.Spending.{
  IsSolvent, SameBalances, IsWritable, balance_with, post_credit_entry-posts,
  post_credit_entry-refuses,
}
use online_observatory.Credits.Accounts.{read-ensure}

-- What a posted entry did, run alone.
post_posted :
    (e : CreditEntry) (db db' : CreditDb) (b : ℤ)
    → IsWritable e
    → IsSolvent db
    → post_credit_entry undisturbed e db ≡ returned (posted b, db')
    → (db'.ledger ≡ row_of e b ∷ db.ledger)
      × ((u : ℕ) → read_credit_balance u db' ≡ balance_with u e db)
      × (pos 0 ≤ℤ b)
      × (b ≡ read_credit_balance e.user_id db +ℤ e.amount)
      × (has_key e.idempotency_key db.ledger ≡ false)
post_posted e db db' b ok s h = elim (post_cases undisturbed e db db' (posted b) h) [
  | inl (no_post, _, _) ↦ absurd (cc)
  | inr (fresh, _) ↦
      elim (Bool-cases (leb_ℤ (pos 0) (read_credit_balance e.user_id db +ℤ e.amount))) [
        | inl enough ↦
            let (d, posts, rows, reads) =
              post_credit_entry-posts e db ok fresh (leb_ℤ→le (pos 0) _ enough) in
            let same : d ≡ db' = cc in
            let value : b ≡ read_credit_balance e.user_id db +ℤ e.amount = cc in
            (
              rw (← same, value) rows,
              rw (← same) reads,
              rw value (leb_ℤ→le (pos 0) _ enough),
              value,
              fresh,
            )
        | inr short ↦
            let (d, refused, _, _) =
              post_credit_entry-refuses e db ok fresh s (leb_ℤ-false→lt (pos 0) _ short) in
            absurd (cc)
      ]
]

-- An entry whose key is in the ledger already is answered DUPLICATE, and no balance moves,
-- whatever other transactions do.
pub post_credit_entry-repeated :
    (env : Interference) (e : CreditEntry) (db : CreditDb)
    → IsWritable e
    → has_key e.idempotency_key db.ledger ≡ true
    → (db' : CreditDb) × (post_credit_entry env e db ≡ returned (not_posted duplicate, db'))
      × (db'.ledger ≡ db.ledger)
      × (db'.audit ≡ db.audit)
      × SameBalances db db'
unfolding post_credit_entry ensure_credit_account
post_credit_entry-repeated env e db ok seen =
    (ensure_credit_account e.user_id db, ground arith, refl, refl, λ u. read-ensure u e.user_id db)

writable_amount :
    (n : ℕ)
    → n ≤ max_safe_integer
    → (is_safe_integer (pos n) ≡ true) × (is_safe_integer (neg (pos n)) ≡ true)
unfolding neg
writable_amount n h = ground arith

spend-posted :
    (b : CreditBooking) (now : ℕ) (db spent : CreditDb) (left : ℤ)
    → spend_booking_minutes undisturbed b now db ≡ returned (posted left, spent)
    → (spendable (lookup b.user_id db.subscriptions) now ≡ true)
      × (post_credit_entry undisturbed (debit_of b) db ≡ returned (posted left, spent))
unfolding spend_booking_minutes
spend-posted b now db spent left h = ground arith

release-posted :
    (b : CreditBooking) (later : ℕ) (db released : CreditDb) (left : ℤ)
    → 0 < b.minutes
    → has_running_period b.user_id later db ≡ true
    → post_credit_entry undisturbed (release_of b) db ≡ returned (posted left, released)
    → release_spent_minutes undisturbed b later db ≡ returned released
unfolding release_spent_minutes
release-posted b later db released left some_minutes running h = ground arith

release_fresh :
    (b : CreditBooking) (left : ℤ) (ledger : List LedgerRow)
    → has_key (booking_release b.id) ledger ≡ false
    → has_key (booking_release b.id) (row_of (debit_of b) left ∷ ledger) ≡ false
unfolding has_key
release_fresh b left ledger h = h

there_and_back : (a n : ℤ) → a +ℤ neg n +ℤ n ≡ a
there_and_back a n = omega int_laws

nonneg_sum : (a : ℤ) (n : ℕ) → pos 0 ≤ℤ a → pos 0 ≤ℤ a +ℤ pos n
nonneg_sum a n h = omega int_laws

-- A spend that posts is within a period that has not ended and within the balance, and takes
-- exactly the booking's minutes from its user, from nobody else.
pub spend_booking_minutes-posted :
    (b : CreditBooking) (now : ℕ) (db spent : CreditDb) (left : ℤ)
    → b.minutes ≤ max_safe_integer
    → IsSolvent db
    → spend_booking_minutes undisturbed b now db ≡ returned (posted left, spent)
    → (spendable (lookup b.user_id db.subscriptions) now ≡ true)
      × (pos b.minutes ≤ℤ read_credit_balance b.user_id db)
      × (left ≡ read_credit_balance b.user_id db -ℤ pos b.minutes)
      × ((u : ℕ)
          → read_credit_balance u spent
            ≡ (if u == b.user_id then left else read_credit_balance u db))
spend_booking_minutes-posted b now db spent left bound s h =
    let (may, posts) = spend-posted b now db spent left h in
    let (_, reads, nonneg, value, _) =
      post_posted (debit_of b) db spent left (refl, (writable_amount b.minutes bound).1) s posts in
    let within : pos 0 ≤ℤ read_credit_balance b.user_id db +ℤ neg (pos b.minutes) =
      rw (← value) nonneg in
    (
      may,
      omega int_laws,
      rw value (omega int_laws),
      λ u. reads u ∙ elim (Bool-cases (u == b.user_id)) [
        | inl y ↦ rw (y, value, (==_iff u b.user_id).0 y)
        | inr n ↦ rw n
      ],
    )

-- A booking's minutes that were spent come back whole: releasing them while the period still runs
-- leaves every balance as it was before the spend.
pub spend-release :
    (b : CreditBooking) (now later : ℕ) (db spent : CreditDb) (left : ℤ)
    → 0 < b.minutes
    → b.minutes ≤ max_safe_integer
    → IsSolvent db
    → has_key (booking_release b.id) db.ledger ≡ false
    → spend_booking_minutes undisturbed b now db ≡ returned (posted left, spent)
    → has_running_period b.user_id later spent ≡ true
    → (released : CreditDb) × (release_spent_minutes undisturbed b later spent ≡ returned released)
      × SameBalances db released
spend-release b now later db spent left some_minutes bound s fresh h running =
    let (_, posts) = spend-posted b now db spent left h in
    let (rows, reads, nonneg, value, _) =
      post_posted (debit_of b) db spent left (refl, (writable_amount b.minutes bound).1) s posts in
    let left_is : read_credit_balance b.user_id spent ≡ left =
      reads b.user_id ∙ rw (==_self b.user_id, value) in
    let (released, again, _, reads_back) =
      post_credit_entry-posts (release_of b) spent (refl, (writable_amount b.minutes bound).0)
        (rw rows (release_fresh b left db.ledger fresh))
        (rw left_is (nonneg_sum left b.minutes nonneg)) in
    (
      released,
      release-posted b later spent released _ some_minutes running again,
      λ u. reads_back u ∙ elim (Bool-cases (u == b.user_id)) [
        | inl y ↦ rw y (rw (reads u, y) (there_and_back _ (pos b.minutes)))
        | inr n ↦ rw n (reads u ∙ rw n)
      ],
    )

expire_from :
    (sub : SubscriptionRef) (period_end : ℕ) (db d : CreditDb) (n : ℕ) (b : ℤ)
    → read_credit_balance sub.user_id db ≡ pos (suc n)
    → post_credit_entry undisturbed (expiry_entry sub period_end (pos (suc n))) db
      ≡ returned (posted b, d)
    → expire_subscription_minutes undisturbed sub period_end db ≡ some (returned (posted b, d))
unfolding expire_subscription_minutes
expire_from sub period_end db d n b balance h = ground arith

expire_nothing :
    (sub : SubscriptionRef) (period_end : ℕ) (db : CreditDb)
    → read_credit_balance sub.user_id db ≡ pos 0
    → expire_subscription_minutes undisturbed sub period_end db ≡ none
unfolding expire_subscription_minutes
expire_nothing sub period_end db h = rw h

-- Expiry at a period's end takes the whole balance, and a second pass for the user writes nothing.
pub expire_subscription_minutes-empties :
    (sub : SubscriptionRef) (period_end : ℕ) (db : CreditDb) (n : ℕ)
    → read_credit_balance sub.user_id db ≡ pos (suc n)
    → n < max_safe_integer
    → has_key (expiry_of sub.id period_end) db.ledger ≡ false
    → (expired : CreditDb) × (expire_subscription_minutes undisturbed sub period_end db
        ≡ some (returned (posted (pos 0), expired)))
      × (read_credit_balance sub.user_id expired ≡ pos 0)
      × ((u : ℕ) → u ≢ sub.user_id → read_credit_balance u expired ≡ read_credit_balance u db)
      × (expire_subscription_minutes undisturbed sub period_end expired ≡ none)
expire_subscription_minutes-empties sub period_end db n balance bound fresh =
    let e = expiry_entry sub period_end (pos (suc n)) in
    let zero_left : read_credit_balance sub.user_id db +ℤ neg (pos (suc n)) ≡ pos 0 =
      rw balance (omega int_laws) in
    let (expired, posts, _, reads) =
      post_credit_entry-posts e db (refl, (writable_amount (suc n) bound).1) fresh
        (rw zero_left (omega arith)) in
    let emptied : read_credit_balance sub.user_id expired ≡ pos 0 =
      reads sub.user_id ∙ rw (==_self sub.user_id) zero_left in
    (
      expired,
      expire_from sub period_end db expired n (pos 0) balance (rw zero_left at posts),
      emptied,
      λ u other. reads u ∙ ground arith,
      expire_nothing sub period_end expired emptied,
    )
