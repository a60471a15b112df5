-- ===== src/Renewals/Charging.antt =====
-- When the sweep charges a saved card, and when it stops trying.
use online_observatory.Common.{
  ℕ, ◌+◌, ◌*◌, ◌≤◌, ◌<◌, ◌≡◌, refl, ◌⊎◌, inl, inr, true, false, some, arith, List, ◌∷◌, leb, any,
  Bool-cases, Option-cases,
}
use online_observatory.Credits.{active, expired, Attempt, Fault, returned, thrown}
use online_observatory.Renewals.{
  PaymentRow, SubscriptionRow, RenewalDb, RenewalEnv, Decision, nothing_due, has_expired, charge,
  SavedInstrumentCharge, pending, captured, failed_in, has_attempt, is_live_charge, new_payment,
  open_charge, end_as, renew_with, renew, end_or_renew, after_expiry, decide, is_running,
}

-- Everything that has to hold for a charge of the period that ended at `period_end`.
pub record ChargeIsDue (env : RenewalEnv) (period_end now mandate : ℕ) (s : SubscriptionRow)
    (rows : List PaymentRow) : Type 0 where
  pub is_active : s.status ≡ active
  pub goes_on : s.cancel_at_period_end ≡ false
  pub unpaid : has_attempt captured s.id period_end rows ≡ false
  pub unanswered : has_attempt pending s.id period_end rows ≡ false
  pub card : s.provider_mandate_ref ≡ some mandate
  pub charger : env.has_charger ≡ true
  pub attempts_left : failed_in s.id period_end rows < 3
  pub in_grace : now < period_end + 604800000
  pub waited : period_end + failed_in s.id period_end rows * 172800000 ≤ now
  pub alone : any (is_live_charge s.id period_end) (env.before_insert rows) ≡ false

pub renew_with-charge :
    (env : RenewalEnv) (mandate period_end failures now : ℕ) (db db' : RenewalDb)
    (c : SavedInstrumentCharge)
    → renew_with env mandate period_end failures now db ≡ (charge c, db')
    → (failures < 3)
      × (now < period_end + 604800000)
      × (has_attempt pending db.subscription.id period_end db.payments ≡ false)
      × (env.has_charger ≡ true)
      × (period_end + failures * 172800000 ≤ now)
      × (any (is_live_charge db.subscription.id period_end) (env.before_insert db.payments) ≡ false)
      × (db'.payments ≡ new_payment env db.subscription period_end ∷ env.before_insert db.payments)
      × (c.mandate_ref ≡ mandate)
      × (c.amount_minor ≡ db.subscription.price_minor)
      × (c.payment_id ≡ env.payment_id)
unfolding renew_with open_charge
renew_with-charge env mandate period_end failures now db db' c h = (
  ground arith,
  ground arith,
  ground arith,
  ground arith,
  ground arith,
  ground arith,
  ground arith,
  ground arith,
  ground arith,
  ground arith,
)

-- The charge that was opened, and its row.
pub record Opened (env : RenewalEnv) (period_end mandate : ℕ) (s : SubscriptionRow)
    (rows : List PaymentRow) (db' : RenewalDb) (c : SavedInstrumentCharge) : Type 0 where
  pub row : db'.payments ≡ new_payment env s period_end ∷ env.before_insert rows
  pub to_card : c.mandate_ref ≡ mandate
  pub amount : c.amount_minor ≡ s.price_minor
  pub of_row : c.payment_id ≡ env.payment_id

end_or_renew-charge :
    (env : RenewalEnv) (period_end now : ℕ) (db db' : RenewalDb) (c : SavedInstrumentCharge)
    → is_running db.subscription.status ≡ true
    → end_or_renew env period_end now db ≡ (charge c, db')
    → (mandate : ℕ) × ChargeIsDue env period_end now mandate db.subscription db.payments
      × Opened env period_end mandate db.subscription db.payments db' c
unfolding end_or_renew renew
end_or_renew-charge env period_end now db db' c run h =
    elim (Option-cases db.subscription.provider_mandate_ref) [
      | inl cardless ↦ absurd (ground arith)
      | inr (mandate, card) ↦
          let failures = failed_in db.subscription.id period_end db.payments in
          let (left, grace, quiet, charger, waited, alone, row, to, amount, id) =
            renew_with-charge env mandate period_end failures now db db' c (ground arith) in
          (
            mandate,
            record {
              is_active = ground arith;
              goes_on = ground arith;
              unpaid = ground arith;
              unanswered = quiet;
              card = card;
              charger = charger;
              attempts_left = left;
              in_grace = grace;
              waited = waited;
              alone = alone;
            },
            record { row = row; to_card = to; amount = amount; of_row = id },
          )
    ]

pub after_expiry-keeps :
    (env : RenewalEnv) (period_end : ℕ) (db db' : RenewalDb)
    → after_expiry env period_end db ≡ returned db'
    → (db'.subscription ≡ db.subscription) × (db'.payments ≡ db.payments)
unfolding after_expiry
after_expiry-keeps env period_end db db' h = ground arith

Attempt-cases {ℓ} :
    {A : Type ℓ} (x : Attempt A) → ((a : A) × (x ≡ returned a)) ⊎ ((f : Fault) × (x ≡ thrown f))
Attempt-cases (returned a) = inl (a, refl)
Attempt-cases (thrown f) = inr (f, refl)

-- What a decision that was reached past the guards came from.
decide_cases :
    (env : RenewalEnv) (now : ℕ) (db db' : RenewalDb) (d : Decision)
    → decide env now db ≡ returned (d, db')
    → ((d ≡ nothing_due)
        × (db' ≡ db)
        × ((e : ℕ)
            → db.subscription.current_period_end ≡ some e
            → is_running db.subscription.status ≡ true
            → now < e))
      ⊎ ((period_end : ℕ) × (settled : RenewalDb) × (db.subscription.current_period_end
            ≡ some period_end)
          × (period_end ≤ now)
          × (is_running db.subscription.status ≡ true)
          × (after_expiry env period_end db ≡ returned settled)
          × (end_or_renew env period_end now settled ≡ (d, db')))
unfolding decide
decide_cases env now db db' d h = elim (Bool-cases (is_running db.subscription.status)) [
  | inr stopped ↦ inl (ground arith, ground arith, λ e p q. ground arith)
  | inl running ↦ elim (Option-cases db.subscription.current_period_end) [
    | inl unfunded ↦ inl (ground arith, ground arith, λ e p q. ground arith)
    | inr (period_end, ends) ↦ elim (Bool-cases (leb period_end now)) [
      | inr early ↦ inl (ground arith, ground arith, λ e p q. ground arith)
      | inl ended ↦ elim (Attempt-cases (after_expiry env period_end db)) [
        | inr (fault, threw) ↦ absurd (ground arith)
        | inl (settled, expiry) ↦
            inr (period_end, settled, ends, ground arith, running, expiry, ground arith)
      ]
    ]
  ]
]

-- The sweep charges a saved card only for an active subscription that is not to be cancelled, whose
-- period has ended less than seven days ago, with no charge of it captured, pending or open
-- elsewhere and fewer than three failed, two days for each failed one after the period ended; and
-- then it writes one pending payment of the subscription's price, for that period.
pub decide-charge :
    (env : RenewalEnv) (now : ℕ) (db db' : RenewalDb) (c : SavedInstrumentCharge)
    → decide env now db ≡ returned (charge c, db')
    → (period_end mandate : ℕ) × (db.subscription.current_period_end ≡ some period_end)
      × (period_end ≤ now)
      × ChargeIsDue env period_end now mandate db.subscription db.payments
      × Opened env period_end mandate db.subscription db.payments db' c
decide-charge env now db db' c h = elim (decide_cases env now db db' (charge c) h) [
  | inl (idle, _, _) ↦ absurd (cc)
  | inr (period_end, settled, ends, ended, running, expiry, went_on) ↦
      let (row, rows) = after_expiry-keeps env period_end db settled expiry in
      let (mandate, due, opened) =
        end_or_renew-charge env period_end now settled db' c (rw row running) went_on in
      (period_end, mandate, ends, ended, rw (row, rows) at due, rw (row, rows) at opened)
]

end_or_renew-grace :
    (env : RenewalEnv) (now period_end : ℕ) (db db' : RenewalDb) (d : Decision)
    → end_or_renew env period_end now db ≡ (d, db')
    → db.subscription.status ≡ active
    → db.subscription.cancel_at_period_end ≡ false
    → period_end + 604800000 ≤ now
    → has_attempt captured db.subscription.id period_end db.payments ≡ false
    → (d ≡ has_expired)
      × (db'.subscription.status ≡ expired)
      × (db'.subscription.ends_at ≡ some now)
unfolding end_or_renew renew renew_with end_as
end_or_renew-grace env now period_end db db' d h run goes_on late unpaid =
    elim (Option-cases db.subscription.provider_mandate_ref) [
      | inl cardless ↦ (ground arith, ground arith, ground arith)
      | inr (mandate, card) ↦ (ground arith, ground arith, ground arith)
    ]

-- An active subscription that is not to be cancelled, with no charge captured for the period that
-- ended seven days ago or more, is expired by a pass that returns.
pub decide-grace :
    (env : RenewalEnv) (now period_end : ℕ) (db db' : RenewalDb) (d : Decision)
    → decide env now db ≡ returned (d, db')
    → db.subscription.status ≡ active
    → db.subscription.cancel_at_period_end ≡ false
    → db.subscription.current_period_end ≡ some period_end
    → period_end + 604800000 ≤ now
    → has_attempt captured db.subscription.id period_end db.payments ≡ false
    → (d ≡ has_expired)
      × (db'.subscription.status ≡ expired)
      × (db'.subscription.ends_at ≡ some now)
decide-grace env now period_end db db' d h run goes_on ends late unpaid =
    elim (decide_cases env now db db' d h) [
      | inl (_, _, early) ↦ let later = early period_end ends (rw run refl) in absurd (omega arith)
      | inr (e, settled, ends', ended, running, expiry, went_on) ↦
          let (row, rows) = after_expiry-keeps env e db settled expiry in
          let same : e ≡ period_end = ground arith in
          end_or_renew-grace env now e settled db' d went_on (rw row run) (rw row goes_on)
            (ground arith) (rw (row, rows, same) unpaid)
    ]
