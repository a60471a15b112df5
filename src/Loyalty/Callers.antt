-- ===== src/Loyalty/Callers.antt =====
-- What the callers of `postLoyaltyEntry` do, with no other transaction in between.
use online_observatory.Common.{
  ℕ, ◌≡◌, refl, ◌∙◌, inl, inr, true, false, ◌&&◌, none, arith, ◌∷◌, ◌==◌, if◌then◌else◌, pos, ◌+ℤ◌,
  leb_ℤ, lookup, lookup-adjust, Option-cases, Bool-cases,
}
use online_observatory.Loyalty.{
  LoyaltyAccount, LoyaltyEntry, LoyaltyDb, SchemeRead, returned, PostResult, posted, find_entry,
  read_loyalty_scheme, tier_for, Interference, ensure_loyalty_account,
}
use online_observatory.Loyalty.Posting.{
  move, update_points, claim_points, set_tier, update_tier, write_entry, record_loyalty_entry,
  claim_loyalty_entry, post_loyalty_entry,
}
use online_observatory.Loyalty.Earning.{post_only}
use online_observatory.Loyalty.Books.{
  Counter, of_balance, of_tier, amount_of, is_known, read_points, read-move, known-move,
  read-set_tier, ledger-set_tier, by, ledger-move,
}

abbrev pub undisturbed : (ℕ → ℕ) → Interference
undisturbed code = record {
  before_claim = λ db. db;
  before_insert = λ db. db;
  new_referral_code = code;
}

-- The entry is written and its points are moved, and nothing else of the accounts' points or of the
-- scheme has changed.
pub record Posts (e : LoyaltyEntry) (db db' : LoyaltyDb) : Type 0 where
  pub moves :
      (w : Counter) (v : ℕ)
      → read_points w v db'
        ≡ (if v == e.user_id then read_points w v db +ℤ amount_of w e else read_points w v db)
  pub writes : db'.ledger ≡ e ∷ db.ledger
  pub scheme_kept : read_loyalty_scheme db' ≡ read_loyalty_scheme db
  pub known_kept : is_known e.user_id db' ≡ true

known-set_tier :
    (v u : ℕ) (a : LoyaltyAccount) (code : ℕ) (db : LoyaltyDb)
    → is_known v (set_tier u a code db) ≡ is_known v db
unfolding set_tier
known-set_tier v u a code db =
    ground
      (arith, lookup-adjust v u (λ (r : LoyaltyAccount). record r { tier_code = code }) db.accounts)

scheme-set_tier :
    (u : ℕ) (a : LoyaltyAccount) (code : ℕ) (db : LoyaltyDb)
    → read_loyalty_scheme (set_tier u a code db) ≡ read_loyalty_scheme db
unfolding set_tier read_loyalty_scheme
scheme-set_tier u a code db = refl

-- The change of tier does not throw where the scheme can be read, and keeps what `Posts` is about.
update_tier-Posts :
    (e : LoyaltyEntry) (a : LoyaltyAccount) (db before : LoyaltyDb) (r : SchemeRead)
    → read_loyalty_scheme db ≡ returned r
    → Posts e before db
    → (db' : LoyaltyDb) × (update_tier e a db ≡ returned db') × Posts e before db'
unfolding update_tier
update_tier-Posts e a db before r read p =
    elim (Bool-cases (leb_ℤ e.tier_points (pos 0) && leb_ℤ (pos 0) e.tier_points)) [
      | inl still ↦ (db, rw still refl, p)
      | inr moved ↦
          let tier = tier_for r.lowest r.tiers a.tier_points in
          elim (Bool-cases (tier.code == a.tier_code)) [
            | inl same ↦ (db, rw (moved, read, same) refl, p)
            | inr other ↦ (
              set_tier e.user_id a tier.code db,
              rw (moved, read, other) refl,
              record {
                moves = λ w v. read-set_tier w v e.user_id a tier.code db ∙ p.moves w v;
                writes = ledger-set_tier e.user_id a tier.code db ∙ p.writes;
                scheme_kept = scheme-set_tier e.user_id a tier.code db ∙ p.scheme_kept;
                known_kept = known-set_tier e.user_id e.user_id a tier.code db ∙ p.known_kept;
              },
            )
          ]
    ]

read-write_entry :
    (w : Counter) (v : ℕ) (e : LoyaltyEntry) (a : LoyaltyAccount) (db : LoyaltyDb)
    → read_points w v (write_entry e a db) ≡ read_points w v db
unfolding read_points write_entry
read-write_entry w v e a db = refl

claimed_share : (w : Counter) (e : LoyaltyEntry) → by w e.points e.tier_points ≡ amount_of w e
claimed_share of_balance e = refl
claimed_share of_tier e = refl

claimed-Posts :
    (e : LoyaltyEntry) (a : LoyaltyAccount) (db : LoyaltyDb)
    → is_known e.user_id db ≡ true
    → Posts e db (write_entry e a (move e.user_id e.points e.tier_points db))
unfolding write_entry move read_loyalty_scheme
claimed-Posts e a db k = record {
  moves = λ w v.
      read-write_entry w v e a (move e.user_id e.points e.tier_points db)
      ∙ rw (read-move w v e.user_id e.points e.tier_points db k, claimed_share w e) refl;
  writes = refl;
  scheme_kept = refl;
  known_kept = known-move e.user_id e.user_id e.points e.tier_points db ∙ k;
}

record_loyalty_entry-Posts :
    (e : LoyaltyEntry) (db : LoyaltyDb) (r : SchemeRead)
    → read_loyalty_scheme db ≡ returned r
    → is_known e.user_id db ≡ true
    → find_entry e.user_id e.kind e.source_ref db.ledger ≡ none
    → (db' : LoyaltyDb) × (res : PostResult) × (record_loyalty_entry e
          (move e.user_id e.points e.tier_points db)
        ≡ returned (res, db'))
      × Posts e db db'
unfolding record_loyalty_entry
record_loyalty_entry-Posts e db r read k fresh =
    let claimed = move e.user_id e.points e.tier_points db in
    let still : find_entry e.user_id e.kind e.source_ref claimed.ledger ≡ none =
      rw (ledger-move e.user_id e.points e.tier_points db) fresh in
    elim (Option-cases (lookup e.user_id claimed.accounts)) [
      | inl missing ↦
          let known = known-move e.user_id e.user_id e.points e.tier_points db in
          absurd (ground arith)
      | inr (a, here) ↦
          let start = claimed-Posts e a db k in
          let (db', tiered, p) =
            update_tier-Posts e a (write_entry e a claimed) db r (start.scheme_kept ∙ read) start in
          (
            db',
            posted a.balance a.tier_points,
            rw (record_loyalty_entry, still, here, tiered) refl,
            p,
          )
    ]

-- An entry of a known account with a new source is posted, where the scheme can be read and the
-- entry may take the balance below zero.
pub post_loyalty_entry-Posts :
    (code : ℕ → ℕ) (e : LoyaltyEntry) (db : LoyaltyDb) (r : SchemeRead)
    → read_loyalty_scheme db ≡ returned r
    → is_known e.user_id db ≡ true
    → e.refuse_negative_balance ≡ false
    → find_entry e.user_id e.kind e.source_ref db.ledger ≡ none
    → (db' : LoyaltyDb) × (post_only (undisturbed code) e db ≡ returned db') × Posts e db db'
unfolding post_only post_loyalty_entry ensure_loyalty_account claim_loyalty_entry claim_points
    update_points
post_loyalty_entry-Posts code e db r read k free fresh =
    elim (Option-cases (lookup e.user_id db.accounts)) [
      | inl missing ↦ absurd (ground arith)
      | inr (a, here) ↦
          let (db', res, done, p) = record_loyalty_entry-Posts e db r read k fresh in
          (db', ground arith, p)
    ]
