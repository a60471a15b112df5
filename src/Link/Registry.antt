-- ===== src/Link/Registry.antt =====
-- Which observatory is connected: `AgentLinkRegistry` of apps/realtime/src/link/registry.ts. A link
-- has an identity; the map keeps its insertion order.
use online_observatory.Common.{
  ℕ, Bool, true, false, Option, none, some, List, [], ◌∷◌, ◌++◌, map, ◌≡◌, refl, inl, inr,
  Bool-cases, Option-cases, arith, ◌==◌, ==_iff, ==_self, ◌≢◌, ◌∙◌, Table, lookup, if◌then◌else◌,
  select,
}
use online_observatory.Link.State.{AgentLink, is_expired}

pub record Registered : Type 0 where
  pub identity : ℕ
  pub link : AgentLink

pub data AdmitResult : Type 0 where
  admitted already_connected : AdmitResult

unfoldable pub admit :
    (observatory_id : ℕ) → Registered → Table Registered → AdmitResult × Table Registered
admit o l links = elim (lookup o links) [
  | some incumbent ↦ (already_connected, links)
  | none ↦ (admitted, links ++ (o, l) ∷ [])
]

-- `Map.delete`
abbrev pub delete : ℕ → Table Registered → Table Registered
delete k [] = []
delete k ((j, l) ∷ t) = let rest = delete k t in if k == j then rest else (j, l) ∷ rest

unfoldable pub release : (observatory_id : ℕ) → Registered → Table Registered → Table Registered
release o l links = elim (lookup o links) [
  | none ↦ links
  | some held ↦ if held.identity == l.identity then delete o links else links
]

-- The loop of `expireSilent` over the entries as they were: what is expired, in order, and the map.
unfoldable pub expire_entries :
    (at : ℕ) → List (ℕ × Registered) → Table Registered → List ℕ × Table Registered
expire_entries at [] links = ([], links)
expire_entries at ((o, l) ∷ rest) links =
    let left = if is_expired l.link at then delete o links else links in
    let (later, kept) = expire_entries at rest left in
    (if is_expired l.link at then o ∷ later else later, kept)

-- `expireSilent`, without what `AgentLink.expire` does
unfoldable pub expire_silent : (at : ℕ) → Table Registered → List ℕ × Table Registered
unfolding expire_entries
expire_silent at links = expire_entries at links links

-- Each observatory at most once
abbrev pub IsUnique : Table Registered → Type 0
IsUnique [] = Unit
IsUnique ((o, l) ∷ t) = (lookup o t ≡ none) × IsUnique t

lookup-append :
    (q o : ℕ) (l : Registered) (t : Table Registered)
    → lookup q (t ++ (o, l) ∷ [])
      ≡ elim (lookup q t) [ some r ↦ some r | none ↦ if q == o then some l else none ]
lookup-append q o l [] = refl
lookup-append q o l ((j, r) ∷ t) = elim (Bool-cases (q == j)) [
  | inl e ↦ rw e refl
  | inr e ↦ rw e (lookup-append q o l t)
]

if_found :
    (f : Option Registered) (b : Bool) (l : Registered)
    → b ≡ false
    → elim f [ some r ↦ some r | none ↦ if b then some l else none ] ≡ f
if_found none b l e = rw e refl
if_found (some r) b l e = refl

append-IsUnique :
    (o : ℕ) (l : Registered) (t : Table Registered)
    → IsUnique t
    → lookup o t ≡ none
    → IsUnique (t ++ (o, l) ∷ [])
append-IsUnique o l [] h e = (refl, tt)
append-IsUnique o l ((j, r) ∷ t) h e =
    (rw (lookup-append j o l t, h.0) (ground arith), append-IsUnique o l t h.1 (ground arith))

lookup-delete :
    (q k : ℕ) (t : Table Registered) → lookup q (delete k t) ≡ (if q == k then none else lookup q t)
lookup-delete q k [] = ground arith
lookup-delete q k ((j, r) ∷ t) = ground (arith, lookup-delete q k t)

delete-IsUnique : (k : ℕ) (t : Table Registered) → IsUnique t → IsUnique (delete k t)
delete-IsUnique k [] h = tt
delete-IsUnique k ((j, r) ∷ t) h = elim (Bool-cases (k == j)) [
  | inl e ↦ rw e (delete-IsUnique k t h.1)
  | inr e ↦ rw e (rw (lookup-delete j k t, h.0) (ground arith), delete-IsUnique k t h.1)
]

-- The incumbent wins: an observatory that holds a link is refused another, and nothing changes. One
-- that holds none gets it; every other observatory keeps what it has, and none has two.
pub admit-lookup :
    (o : ℕ) (l : Registered) (t : Table Registered)
    → ((i : Registered) → lookup o t ≡ some i → admit o l t ≡ (already_connected, t))
      × (lookup o t ≡ none → ((admit o l t).0 ≡ admitted) × (lookup o (admit o l t).1 ≡ some l))
      × ((q : ℕ) → (q == o) ≡ false → lookup q (admit o l t).1 ≡ lookup q t)
      × (IsUnique t → IsUnique (admit o l t).1)
unfolding admit
admit-lookup o l t = elim (Option-cases (lookup o t)) [
  | inl e ↦ (
    λ i is. absurd (cc),
    λ is. rw (admit, e) (refl, lookup-append o o l t ∙ rw (e, ==_self o) refl),
    λ q other. rw (admit, e) (lookup-append q o l t ∙ if_found (lookup q t) (q == o) l other),
    λ h. rw (admit, e) (append-IsUnique o l t h e),
  )
  | inr (i, e) ↦ (
    λ j is. rw (admit, e) refl,
    λ is. absurd (cc),
    λ q other. rw (admit, e) refl,
    λ h. rw (admit, e) h,
  )
]

-- The link that is silent too long is dropped from what is registered.
abbrev pub if_heard : (at : ℕ) → Option Registered → Option Registered
if_heard at none = none
if_heard at (some r) = if is_expired r.link at then none else some r

abbrev silent_in : (at q : ℕ) → List (ℕ × Registered) → Bool
silent_in at q [] = false
silent_in at q ((j, r) ∷ t) =
    if q == j then (if is_expired r.link at then true else silent_in at q t) else silent_in at q t

lookup-expire_entries :
    (at q : ℕ) (es : List (ℕ × Registered)) (t : Table Registered)
    → lookup q (expire_entries at es t).1 ≡ (if silent_in at q es then none else lookup q t)
unfolding expire_entries
lookup-expire_entries at q [] t = refl
lookup-expire_entries at q ((j, r) ∷ es) t = elim (Bool-cases (is_expired r.link at)) [
  | inl e ↦ rw (e, lookup-expire_entries at q es (delete j t), lookup-delete q j t) (ground arith)
  | inr e ↦ rw (e, lookup-expire_entries at q es t) (ground arith)
]

silent_in-none : (at q : ℕ) (t : Table Registered) → lookup q t ≡ none → silent_in at q t ≡ false
silent_in-none at q [] e = refl
silent_in-none at q ((j, r) ∷ t) e = ground (arith, silent_in-none at q t)

silent_in-lookup :
    (at q : ℕ) (t : Table Registered)
    → IsUnique t
    → (if silent_in at q t then none else lookup q t) ≡ if_heard at (lookup q t)
silent_in-lookup at q [] h = refl
silent_in-lookup at q ((j, r) ∷ t) h = elim (Bool-cases (q == j)) [
  | inr e ↦ rw e (silent_in-lookup at q t h.1)
  | inl e ↦
      let gone = silent_in-none at q t (rw ((==_iff q j).0 e) h.0) in
      elim (Bool-cases (is_expired r.link at)) [
        | inl late ↦ rw (e, late) refl
        | inr heard ↦ rw (e, heard, gone) refl
      ]
]

expired_ids :
    (at : ℕ) (es : List (ℕ × Registered)) (t : Table Registered)
    → (expire_entries at es t).0 ≡ map (λ e. e.0) (select (λ e. is_expired e.1.link at) es)
unfolding expire_entries
expired_ids at [] t = refl
expired_ids at ((j, r) ∷ es) t = elim (Bool-cases (is_expired r.link at)) [
  | inl e ↦ rw (e, expired_ids at es (delete j t)) refl
  | inr e ↦ rw (e, expired_ids at es t) refl
]

-- The observatories that are dropped are those whose link has been silent past the grace period, in
-- the order that they connected; each is no longer registered, and every other one is as it was.
pub expire_silent-lookup :
    (at : ℕ) (t : Table Registered)
    → IsUnique t
    → ((expire_silent at t).0 ≡ map (λ e. e.0) (select (λ e. is_expired e.1.link at) t))
      × ((q : ℕ) → lookup q (expire_silent at t).1 ≡ if_heard at (lookup q t))
unfolding expire_silent
expire_silent-lookup at t h =
    (expired_ids at t t, λ q. lookup-expire_entries at q t t ∙ silent_in-lookup at q t h)

-- Only the link that is registered can release its observatory; then that observatory is free and
-- every other keeps its link.
pub release-lookup :
    (o : ℕ) (l : Registered) (t : Table Registered)
    → ((h : Registered)
        → lookup o t ≡ some h
        → (h.identity ≡ l.identity
            → (q : ℕ) → lookup q (release o l t) ≡ (if q == o then none else lookup q t))
          × (h.identity ≢ l.identity → release o l t ≡ t))
      × (lookup o t ≡ none → release o l t ≡ t)
unfolding release
release-lookup o l t = (
  λ h held. (
    λ same q. rw (release, held, (==_iff h.identity l.identity).1 same) (lookup-delete q o t),
    λ other. elim (Bool-cases (h.identity == l.identity)) [
      | inl same ↦ absurd (other ((==_iff h.identity l.identity).0 same))
      | inr e ↦ rw (release, held, e) refl
    ],
  ),
  λ free. rw (release, free) refl,
)
