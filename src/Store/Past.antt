-- ===== src/Store/Past.antt =====
-- What no operation of the store undoes: a recorded message stays recorded, a mission stays its
-- observatory's, and a session's end that was announced stays announced.
use online_observatory.Common.{
  ℕ, Bool, true, not, Option, none, some, ◌≡◌, refl, sym, inl, inr, Bool-cases, Option-cases, ◌==◌,
  any, lookup, adjust, if◌then◌else◌, ◌∙◌, map_some, lookup-adjust,
}
use online_observatory.Store.{Tables, StoredMission, CommandRow, matches, update_many}
use online_observatory.Store.Sweeps.{is_unannounced}
use online_observatory.Store.Verdicts.{observatory_owns_mission, load_command}
use online_observatory.Link.Storage.{is_minted_for}

abbrev pub is_seen : ℕ → Tables → Bool
is_seen i t = any (λ j. i == j) t.messages

abbrev has_announced : StoredMission → Bool
has_announced m = not (is_unannounced m)

-- The end of the mission's session has been announced.
abbrev pub is_announced : (mission_id : ℕ) → Tables → Bool
is_announced m t = matches has_announced (lookup m t.missions)

-- `b` comes from `a`.
pub record IsLater (a b : Tables) : Type 0 where
  pub keeps_seen : (i : ℕ) → is_seen i a ≡ true → is_seen i b ≡ true
  pub keeps_owner :
      (o m : ℕ) → observatory_owns_mission o m a ≡ true → observatory_owns_mission o m b ≡ true
  pub keeps_minted :
      (o i : ℕ)
      → is_minted_for o (load_command i a) ≡ true
      → is_minted_for o (load_command i b) ≡ true
  pub keeps_announced : (m : ℕ) → is_announced m a ≡ true → is_announced m b ≡ true

pub IsLater-refl : (a : Tables) → IsLater a a
IsLater-refl a = record {
  keeps_seen = λ i e. e;
  keeps_owner = λ o m e. e;
  keeps_minted = λ o i e. e;
  keeps_announced = λ m e. e;
}

pub IsLater-trans : (a b c : Tables) → IsLater a b → IsLater b c → IsLater a c
IsLater-trans a b c p q = record {
  keeps_seen = λ i e. q.keeps_seen i (p.keeps_seen i e);
  keeps_owner = λ o m e. q.keeps_owner o m (p.keeps_owner o m e);
  keeps_minted = λ o i e. q.keeps_minted o i (p.keeps_minted o i e);
  keeps_announced = λ m e. q.keeps_announced m (p.keeps_announced m e);
}

-- A change of a mission's row that keeps its owner, and what was announced.
abbrev pub Keeps : (StoredMission → StoredMission) → Type 0
Keeps f =
    (r : StoredMission)
    → ((f r).core.observatory_id ≡ r.core.observatory_id)
      × (has_announced r ≡ true → has_announced (f r) ≡ true)

if_Keeps :
    (p : StoredMission → Bool) (f : StoredMission → StoredMission)
    → Keeps f
    → Keeps (λ r. if p r then f r else r)
if_Keeps p f k r = elim (Bool-cases (p r)) [ inl e ↦ rw e (k r) | inr e ↦ rw e (refl, λ h. h) ]

matches-map_some :
    (o : ℕ) (f : StoredMission → StoredMission) (v : Option StoredMission)
    → Keeps f
    → matches (λ r. r.core.observatory_id == o) (map_some f v)
      ≡ matches (λ r. r.core.observatory_id == o) v
matches-map_some o f none k = refl
matches-map_some o f (some r) k = rw (k r).0 refl

announced-map_some :
    (f : StoredMission → StoredMission) (v : Option StoredMission)
    → Keeps f
    → matches has_announced v ≡ true
    → matches has_announced (map_some f v) ≡ true
announced-map_some f none k h = h
announced-map_some f (some r) k h = (k r).1 h

-- A change of one mission's row that keeps its owner.
pub adjust-IsLater :
    (a b : Tables) (m : ℕ) (f : StoredMission → StoredMission)
    → Keeps f
    → b.messages ≡ a.messages
    → b.commands ≡ a.commands
    → b.missions ≡ adjust m f a.missions
    → IsLater a b
unfolding observatory_owns_mission load_command
adjust-IsLater a b m f k same minted rows = record {
  keeps_seen = λ i e. rw same e;
  keeps_owner = λ o q e.
      rw (rows, lookup-adjust q m f a.missions)
        (elim (Bool-cases (q == m)) [
          | inl here ↦ rw here (matches-map_some o f (lookup q a.missions) k ∙ e)
          | inr other ↦ rw other e
        ]);
  keeps_minted = λ o i e. rw minted e;
  keeps_announced = λ q e.
      rw (rows, lookup-adjust q m f a.missions)
        (elim (Bool-cases (q == m)) [
          | inl here ↦ rw here (announced-map_some f (lookup q a.missions) k e)
          | inr other ↦ rw other e
        ]);
}

pub update-IsLater :
    (a b : Tables) (m : ℕ) (p : StoredMission → Bool) (f : StoredMission → StoredMission)
    → Keeps f
    → b.messages ≡ a.messages
    → b.commands ≡ a.commands
    → b.missions ≡ update_many m p f a.missions
    → IsLater a b
update-IsLater a b m p f k same minted rows =
    adjust-IsLater a b m (λ r. if p r then f r else r) (if_Keeps p f k) same minted rows

-- Neither messages nor commands nor missions change.
pub same-IsLater :
    (a b : Tables)
    → b.messages ≡ a.messages
    → b.commands ≡ a.commands
    → b.missions ≡ a.missions
    → IsLater a b
unfolding observatory_owns_mission load_command
same-IsLater a b messages commands missions = record {
  keeps_seen = λ i e. rw messages e;
  keeps_owner = λ o m e. rw missions e;
  keeps_minted = λ o i e. rw commands e;
  keeps_announced = λ m e. rw missions e;
}

minted-map_some :
    (o : ℕ) (f : CommandRow → CommandRow) (v : Option CommandRow)
    → ((r : CommandRow) → (f r).observatory_id ≡ r.observatory_id)
    → matches (λ r. r.observatory_id == o) (map_some f v) ≡ matches (λ r. r.observatory_id == o) v
minted-map_some o f none k = refl
minted-map_some o f (some r) k = rw (k r) refl

load-minted :
    (o i : ℕ) (t : Tables)
    → is_minted_for o (load_command i t)
      ≡ matches (λ r. r.observatory_id == o) (lookup i t.commands)
unfolding load_command
load-minted o i t = elim (Option-cases (lookup i t.commands)) [
  | inl e ↦ rw (load_command, e) refl
  | inr (r, e) ↦ rw (load_command, e) refl
]

-- A change of one command's row that keeps its observatory.
pub command-IsLater :
    (a b : Tables) (c : ℕ) (f : CommandRow → CommandRow)
    → ((r : CommandRow) → (f r).observatory_id ≡ r.observatory_id)
    → b.messages ≡ a.messages
    → b.missions ≡ a.missions
    → b.commands ≡ adjust c f a.commands
    → IsLater a b
unfolding observatory_owns_mission
command-IsLater a b c f k messages missions rows = record {
  keeps_seen = λ i e. rw messages e;
  keeps_owner = λ o m e. rw missions e;
  keeps_announced = λ m e. rw missions e;
  keeps_minted = λ o i e.
      load-minted o i b
      ∙ rw (rows, lookup-adjust i c f a.commands)
          (elim (Bool-cases (i == c)) [
            | inl here ↦
                rw here (minted-map_some o f (lookup i a.commands) k ∙ sym (load-minted o i a) ∙ e)
            | inr other ↦ rw other (sym (load-minted o i a) ∙ e)
          ]);
}
