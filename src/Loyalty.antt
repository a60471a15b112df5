-- ===== src/Loyalty.antt =====
-- packages/db/loyalty.ts: the ledger of loyalty points. A call inside a database transaction is a
-- function of the tables; `Interference` is what other transactions commit between its statements,
-- and the random referral code that an account would get. Ids are numbers; the texts `sourceRef`
-- are a data type of their five conventions. Audit rows hold the entry, or the change of tier.
pub mod Posting
pub mod Earning
pub mod Refunds
pub mod Tiers
pub mod Books
pub mod Drift
pub mod Callers
mod Tests
use online_observatory.Common.{
  ℕ, ◌+◌, ◌*◌, ◌/◌, ◌≡◌, refl, Bool, true, false, not, ◌&&◌, ◌||◌, Option, none, some, List, [],
  ◌∷◌, ltb, leb, ◌==◌, if◌then◌else◌, any, select, ℤ, pos, ◌+ℤ◌, neg, ltb_ℤ, leb_ℤ, Table, lookup,
  adjust,
}

-- The rates, without the progress markers; a tier is known by its code, without its names.
pub record LoyaltyScheme : Type 0 where
  pub points_per_gel : ℕ
  pub points_per_gel_redeemed : ℕ
  pub welcome_bonus_points : ℤ
  pub referral_bonus_points : ℤ
  pub minimum_payable_minor : ℕ

pub record LoyaltyTier : Type 0 where
  pub code : ℕ
  pub threshold_points : ℤ
  pub discount_percent : ℕ

pub data LoyaltyEntryKind : Type 0 where
  welcome_bonus referral_bonus purchase_earned purchase_reversed redeemed redemption_released
        admin_adjustment :
      LoyaltyEntryKind

pub data SourceRef : Type 0 where
  payment_ref booking_ref referee_ref user_ref adjustment_ref : ℕ → SourceRef

pub record LoyaltyAccount : Type 0 where
  pub balance : ℤ
  pub tier_points : ℤ
  pub tier_code : ℕ
  pub referral_code : ℕ
  pub referred_by_user_id : Option ℕ
  pub referral_rewarded : Bool

-- `LoyaltyEntry`, and the columns of a row of the ledger that it fills
pub record LoyaltyEntry : Type 0 where
  pub user_id : ℕ
  pub kind : LoyaltyEntryKind
  pub points : ℤ
  pub tier_points : ℤ
  pub source_ref : SourceRef
  pub booking_id : Option ℕ
  pub reason : Option ℕ
  pub actor_user_id : Option ℕ
  pub refuse_negative_balance : Bool

pub data LoyaltyAudit : Type 0 where
  entry_written : LoyaltyEntry → ℤ → LoyaltyAudit
  tier_changed : (user_id from to : ℕ) → ℤ → LoyaltyAudit

pub record LoyaltyDb : Type 0 where
  pub accounts : Table LoyaltyAccount
  pub ledger : List LoyaltyEntry
  pub scheme : Option LoyaltyScheme
  pub tiers : List LoyaltyTier
  pub audit : List LoyaltyAudit

pub data LoyaltyFault : Type 0 where
  no_scheme no_zero_tier record_not_found : LoyaltyFault

-- A transaction that throws is rolled back, so no state comes with the fault.
pub data Attempt {ℓ} (A : Type ℓ) : Type ℓ where
  returned : A → Attempt A
  thrown : LoyaltyFault → Attempt A

abbrev pub and_then {ℓ κ} : {A : Type ℓ} {B : Type κ} → Attempt A → (A → Attempt B) → Attempt B
and_then (returned a) f = f a
and_then (thrown e) f = thrown e

pub and_then-returned {ℓ κ} :
    {A : Type ℓ} {B : Type κ} (x : Attempt A) (f : A → Attempt B) (b : B)
    → and_then x f ≡ returned b
    → (a : A) × (x ≡ returned a) × (f a ≡ returned b)
and_then-returned (returned a) f b h = (a, refl, h)
and_then-returned (thrown e) f b h = absurd (cc)

pub data Refusal : Type 0 where
  duplicate insufficient_points : Refusal

pub data PostResult : Type 0 where
  posted : (balance tier_points : ℤ) → PostResult
  not_posted : Refusal → PostResult

abbrev pub kind_code : LoyaltyEntryKind → ℕ
kind_code welcome_bonus = 0
kind_code referral_bonus = 1
kind_code purchase_earned = 2
kind_code purchase_reversed = 3
kind_code redeemed = 4
kind_code redemption_released = 5
kind_code admin_adjustment = 6

abbrev pub same_ref : SourceRef → SourceRef → Bool
same_ref (payment_ref a) (payment_ref b) = a == b
same_ref (booking_ref a) (booking_ref b) = a == b
same_ref (referee_ref a) (referee_ref b) = a == b
same_ref (user_ref a) (user_ref b) = a == b
same_ref (adjustment_ref a) (adjustment_ref b) = a == b
same_ref _ _ = false

-- The unique key of the ledger: user, kind and source.
abbrev pub same_source : ℕ → LoyaltyEntryKind → SourceRef → LoyaltyEntry → Bool
same_source u k s e = u == e.user_id && kind_code k == kind_code e.kind && same_ref s e.source_ref

unfoldable pub find_entry :
    ℕ → LoyaltyEntryKind → SourceRef → List LoyaltyEntry → Option LoyaltyEntry
find_entry u k s [] = none
find_entry u k s (e ∷ l) =
    let rest = find_entry u k s l in if same_source u k s e then some e else rest

-- `orderBy: { thresholdPoints: "asc" }`
abbrev pub insert_tier : LoyaltyTier → List LoyaltyTier → List LoyaltyTier
insert_tier t [] = t ∷ []
insert_tier t (s ∷ l) =
    let rest = insert_tier t l in
    if ltb_ℤ s.threshold_points t.threshold_points then s ∷ rest else t ∷ s ∷ l

abbrev pub by_threshold : List LoyaltyTier → List LoyaltyTier
by_threshold [] = []
by_threshold (t ∷ l) = insert_tier t (by_threshold l)

-- The scheme, the first tier and all the tiers.
pub record SchemeRead : Type 0 where
  pub scheme : LoyaltyScheme
  pub lowest : LoyaltyTier
  pub tiers : List LoyaltyTier

abbrev pub with_tiers : LoyaltyScheme → List LoyaltyTier → Attempt SchemeRead
with_tiers scheme [] = thrown no_zero_tier
with_tiers scheme (t ∷ l) =
    if leb_ℤ t.threshold_points (pos 0) && leb_ℤ (pos 0) t.threshold_points
    then returned (record { scheme = scheme; lowest = t; tiers = t ∷ l })
    else thrown no_zero_tier

-- `readLoyaltyScheme`
unfoldable pub read_loyalty_scheme : LoyaltyDb → Attempt SchemeRead
read_loyalty_scheme db = elim db.scheme [
  | none ↦ thrown no_scheme
  | some scheme ↦ with_tiers scheme (by_threshold db.tiers)
]

-- `.at(-1) ?? tiers[0]`
abbrev pub last_or : LoyaltyTier → List LoyaltyTier → LoyaltyTier
last_or t [] = t
last_or t (s ∷ l) = last_or s l

abbrev pub at_least_zero : ℤ → ℤ
at_least_zero z = if leb_ℤ (pos 0) z then z else pos 0

-- `tierFor`; `lowest` is `tiers[0]`.
unfoldable pub tier_for : LoyaltyTier → List LoyaltyTier → ℤ → LoyaltyTier
tier_for lowest tiers points =
    last_or lowest (select (λ t. leb_ℤ t.threshold_points (at_least_zero points)) tiers)

pub record Interference : Type 0 where
  pub before_claim : LoyaltyDb → LoyaltyDb
  pub before_insert : LoyaltyDb → LoyaltyDb
  pub new_referral_code : ℕ → ℕ

abbrev pub other_than : Option ℕ → ℕ → Option ℕ
other_than none u = none
other_than (some r) u = if r == u then none else some r

abbrev pub new_account : ℕ → Option ℕ → ℕ → LoyaltyTier → LoyaltyAccount
new_account u referrer code lowest = record {
  balance = pos 0;
  tier_points = pos 0;
  tier_code = lowest.code;
  referral_code = code;
  referred_by_user_id = other_than referrer u;
  referral_rewarded = false;
}

abbrev pub code_taken : ℕ → Table LoyaltyAccount → Bool
code_taken code accounts = any (λ r. code == r.1.referral_code) accounts

-- `ensureLoyaltyAccount`, for the tables it leaves. A taken code writes no row, so the read throws.
unfoldable pub ensure_loyalty_account : ℕ → Option ℕ → ℕ → LoyaltyDb → Attempt LoyaltyDb
ensure_loyalty_account u referrer code db = elim (lookup u db.accounts) [
  | some _ ↦ returned db
  | none ↦ and_then (read_loyalty_scheme db) (λ r.
      if code_taken code db.accounts
      then thrown record_not_found
      else returned
          (record db { accounts = (u, new_account u referrer code r.lowest) ∷ db.accounts }))
]
