-- ===== src/Loyalty/Tests.antt =====
-- A club with three tiers and one member.
use online_observatory.Common.{ℕ, ◌≡◌, refl, false, none, some, [], ◌∷◌, All, pos, ◌≤ℤ◌, ◌+ℤ◌}
use online_observatory.Loyalty.{
  LoyaltyScheme, LoyaltyTier, LoyaltyAccount, LoyaltyDb, SchemeRead, posted, payment_ref,
  purchase_earned, purchase_reversed, tier_changed, entry_written, returned, read_loyalty_scheme,
  find_entry, at_least_zero, tier_for, ensure_loyalty_account,
}
use online_observatory.Loyalty.Posting.{
  move, update_points, claim_points, update_tier, set_tier, write_entry, record_loyalty_entry,
  claim_loyalty_entry, post_loyalty_entry,
}
use online_observatory.Loyalty.Earning.{
  Payment, earn_entry, earn_on_settled_payment, reverse_loyalty_for_refund,
}
use online_observatory.Loyalty.Tiers.{tier_for-best}
use online_observatory.Loyalty.Books.{Counter, of_tier, drift, read_points}
use online_observatory.Loyalty.Drift.{KeepsBooks, post_loyalty_entry-drift}
use online_observatory.Loyalty.Callers.{undisturbed}
use online_observatory.Loyalty.Refunds.{earn-reverse}

abbrev tier : ℕ → ℕ → LoyaltyTier
tier code threshold = record {
  code = code;
  threshold_points = pos threshold;
  discount_percent = code;
}

abbrev terms : LoyaltyScheme
terms = record {
  points_per_gel = 2;
  points_per_gel_redeemed = 10;
  welcome_bonus_points = pos 50;
  referral_bonus_points = pos 100;
  minimum_payable_minor = 100;
}

abbrev member : LoyaltyAccount
member = record {
  balance = pos 0;
  tier_points = pos 0;
  tier_code = 1;
  referral_code = 77;
  referred_by_user_id = none;
  referral_rewarded = false;
}

-- The tiers stand out of order.
abbrev club : LoyaltyDb
club = record {
  accounts = (5, member) ∷ [];
  ledger = [];
  scheme = some terms;
  tiers = tier 3 500 ∷ tier 1 0 ∷ tier 2 80 ∷ [];
  audit = [];
}

abbrev read_club : SchemeRead
read_club = record {
  scheme = terms;
  lowest = tier 1 0;
  tiers = tier 1 0 ∷ tier 2 80 ∷ tier 3 500 ∷ [];
}

club_is_read : read_loyalty_scheme club ≡ returned read_club
unfolding read_loyalty_scheme
club_is_read = refl

tier_for-best_example :
    ((tier_for read_club.lowest read_club.tiers (pos 90)).threshold_points
      ≤ℤ at_least_zero (pos 90))
    × All
        (λ t.
          t.threshold_points ≤ℤ at_least_zero (pos 90)
          → t.threshold_points
            ≤ℤ (tier_for read_club.lowest read_club.tiers (pos 90)).threshold_points)
        club.tiers
tier_for-best_example = tier_for-best club read_club (pos 90) club_is_read

second_tier : tier_for read_club.lowest read_club.tiers (pos 90) ≡ tier 2 80
unfolding tier_for
second_tier = refl

-- 45.00 GEL.
abbrev payment : Payment
payment = record { id = 9; user_id = 5; amount_minor = 4500 }

abbrev earned_club : LoyaltyDb
earned_club = record club {
  accounts = (5, record member { balance = pos 90; tier_points = pos 90; tier_code = 2 }) ∷ [];
  ledger = earn_entry payment none 90 ∷ [];
  audit = tier_changed 5 1 2 (pos 90) ∷ entry_written (earn_entry payment none 90) (pos 90) ∷ [];
}

earning_posts :
    post_loyalty_entry (undisturbed (λ u. u)) (earn_entry payment none 90) club
    ≡ returned (posted (pos 90) (pos 90), earned_club)
unfolding post_loyalty_entry ensure_loyalty_account find_entry claim_loyalty_entry claim_points
    update_points move record_loyalty_entry write_entry update_tier set_tier tier_for
    read_loyalty_scheme ◌+ℤ◌
earning_posts = refl

quiet-KeepsBooks : KeepsBooks (λ (db : LoyaltyDb). db)
quiet-KeepsBooks = record { drift_kept = λ w u db. refl; known_kept = λ u db k. k }

post_loyalty_entry-drift_example : drift of_tier 5 earned_club ≡ drift of_tier 5 club
post_loyalty_entry-drift_example =
    post_loyalty_entry-drift (undisturbed (λ u. u)) (earn_entry payment none 90) club earned_club
      (posted (pos 90) (pos 90)) of_tier 5 quiet-KeepsBooks quiet-KeepsBooks earning_posts

nothing_found :
    (find_entry 5 purchase_earned (payment_ref 9) [] ≡ none)
    × (find_entry 5 purchase_reversed (payment_ref 9) [] ≡ none)
unfolding find_entry
nothing_found = (refl, refl)

earn-reverse_example :
    (earned db' : LoyaltyDb) × (earn_on_settled_payment (undisturbed (λ u. u)) payment none club
      ≡ returned earned)
    × (reverse_loyalty_for_refund (undisturbed (λ u. u)) payment none earned ≡ returned db')
    × ((w : Counter) (v : ℕ) → read_points w v db' ≡ read_points w v club)
earn-reverse_example =
    earn-reverse (λ u. u) payment none club read_club club_is_read refl nothing_found.0
      nothing_found.1
