-- ===== src/Loyalty/Earning.antt =====
-- What posts entries: earning on a payment, the referral bonus, the release of redeemed points and
-- the reversal on a refund. `none` as a booking is the source's `null`.
use online_observatory.Common.{
  ℕ, ◌*◌, ◌/◌, true, false, Option, none, some, ◌==◌, if◌then◌else◌, ℤ, pos, neg, leb_ℤ, lookup,
  adjust,
}
use online_observatory.Loyalty.{
  LoyaltyScheme, LoyaltyEntryKind, referral_bonus, purchase_earned, purchase_reversed,
  redemption_released, SourceRef, payment_ref, booking_ref, referee_ref, LoyaltyAccount,
  LoyaltyEntry, LoyaltyDb, Attempt, returned, and_then, find_entry, read_loyalty_scheme,
  Interference,
}
use online_observatory.Loyalty.Posting.{post_loyalty_entry}

-- `pointsEarnedFor`
unfoldable pub points_earned_for : LoyaltyScheme → ℕ → ℕ
points_earned_for scheme amount_minor = amount_minor * scheme.points_per_gel / 100

pub record Payment : Type 0 where
  pub id : ℕ
  pub user_id : ℕ
  pub amount_minor : ℕ

pub record LoyaltyBooking : Type 0 where
  pub id : ℕ
  pub user_id : ℕ
  pub loyalty_points_redeemed : ℕ

-- An entry without a reason or an actor, that may take the balance below zero.
abbrev pub entry_of : ℕ → LoyaltyEntryKind → ℤ → ℤ → SourceRef → Option ℕ → LoyaltyEntry
entry_of u kind points tier source booking = record {
  user_id = u;
  kind = kind;
  points = points;
  tier_points = tier;
  source_ref = source;
  booking_id = booking;
  reason = none;
  actor_user_id = none;
  refuse_negative_balance = false;
}

-- A post whose result the caller does not read.
unfoldable pub post_only : Interference → LoyaltyEntry → LoyaltyDb → Attempt LoyaltyDb
post_only env e db = and_then (post_loyalty_entry env e db) (λ r. returned r.1)

abbrev pub earn_entry : Payment → Option ℕ → ℕ → LoyaltyEntry
earn_entry p booking points =
    entry_of p.user_id purchase_earned (pos points) (pos points) (payment_ref p.id) booking

-- `earnOnSettledPayment`
unfoldable pub earn_on_settled_payment :
    Interference → Payment → Option ℕ → LoyaltyDb → Attempt LoyaltyDb
earn_on_settled_payment env p booking db = and_then (read_loyalty_scheme db) (λ r.
    let points = points_earned_for r.scheme p.amount_minor in
    if points == 0 then returned db else post_only env (earn_entry p booking points) db)

abbrev pub referral_entry : ℕ → ℤ → ℕ → LoyaltyEntry
referral_entry referee points u =
    entry_of u referral_bonus points (pos 0) (referee_ref referee) none

unfoldable pub mark_rewarded : ℕ → LoyaltyDb → LoyaltyDb
mark_rewarded u db = record db {
  accounts = adjust u (λ a. record a { referral_rewarded = true }) db.accounts;
}

abbrev pub grant_both : Interference → ℕ → ℕ → LoyaltyDb → Attempt LoyaltyDb
grant_both env referee referrer db = and_then (read_loyalty_scheme db) (λ r.
    if leb_ℤ r.scheme.referral_bonus_points (pos 0)
    then returned db
    else and_then (post_only env (referral_entry referee r.scheme.referral_bonus_points referee) db)
        (post_only env (referral_entry referee r.scheme.referral_bonus_points referrer)))

abbrev pub reward_account : Interference → ℕ → LoyaltyAccount → LoyaltyDb → Attempt LoyaltyDb
reward_account env referee a db = elim a.referred_by_user_id [
  | none ↦ returned db
  | some referrer ↦
      if a.referral_rewarded
      then returned db
      else grant_both env referee referrer (mark_rewarded referee db)
]

-- `rewardReferralOnFirstPaidBooking`, with nothing committed between its read and its claim.
unfoldable pub reward_referral_on_first_paid_booking :
    Interference → ℕ → LoyaltyDb → Attempt LoyaltyDb
reward_referral_on_first_paid_booking env referee db = elim (lookup referee db.accounts) [
  | none ↦ returned db
  | some a ↦ reward_account env referee a db
]

abbrev pub release_entry : LoyaltyBooking → LoyaltyEntry
release_entry b =
    entry_of b.user_id redemption_released (pos b.loyalty_points_redeemed) (pos 0)
      (booking_ref b.id) (some b.id)

-- `releaseRedeemedPoints`
unfoldable pub release_redeemed_points :
    Interference → LoyaltyBooking → LoyaltyDb → Attempt LoyaltyDb
release_redeemed_points env b db =
    if b.loyalty_points_redeemed == 0 then returned db else post_only env (release_entry b) db

abbrev pub reversal_entry : Payment → LoyaltyEntry → LoyaltyEntry
reversal_entry p earned =
    entry_of p.user_id purchase_reversed (neg earned.points) (neg earned.tier_points)
      (payment_ref p.id) earned.booking_id

unfoldable pub reverse_earned : Interference → Payment → LoyaltyDb → Attempt LoyaltyDb
reverse_earned env p db = elim (find_entry p.user_id purchase_earned (payment_ref p.id) db.ledger) [
  | none ↦ returned db
  | some earned ↦ post_only env (reversal_entry p earned) db
]

-- `reverseLoyaltyForRefund`
unfoldable pub reverse_loyalty_for_refund :
    Interference → Payment → Option LoyaltyBooking → LoyaltyDb → Attempt LoyaltyDb
reverse_loyalty_for_refund env p booking db = and_then (reverse_earned env p db) (λ reversed.
    elim booking [ none ↦ returned reversed | some b ↦ release_redeemed_points env b reversed ])
