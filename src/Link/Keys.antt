-- ===== src/Link/Keys.antt =====
-- The keys that grants derive, what a capture may name, and what may be uploaded.
use mathlib.Core.Path.{subst}
use online_observatory.Common.{
  ℕ, true, ◌&&◌, Option, none, some, List, [], ◌∷◌, ◌++◌, ◌≡◌, ◌≢◌, ◌↔◌, ◌⊎◌, ap, refl, inl, inr,
  ==_iff, ◌==◌, Bool-cases, ==_self, sym, arith, All,
}
use online_observatory.Link.Messages.{
  CaptureAssetKind, image, unmarked, fits, thumbnail, ContentType, image_jpeg, image_png,
  application_fits, image_fits, kind_code, ObjectKey, capture_object_key, other_key, same_key,
  CaptureReady, is_allowed_upload,
}
use online_observatory.Link.Storage.{RelayableCommand}
use online_observatory.Link.State.{all_granted, assets_of, asset, is_ours}

kind_code_injective : (k l : CaptureAssetKind) → kind_code k ≡ kind_code l → k ≡ l
kind_code_injective k l e = ground arith

same_parts :
    (o' m' c' : ℕ) (k' : CaptureAssetKind) (o m c : ℕ) (k : CaptureAssetKind)
    → same_key (capture_object_key o' m' c' k') (capture_object_key o m c k) ≡ true
    → capture_object_key o' m' c' k' ≡ capture_object_key o m c k
same_parts o' m' c' k' o m c k e =
    let a : o' ≡ o = ground arith in
    let b : m' ≡ m = ground arith in
    let d : c' ≡ c = ground arith in
    let kinds : k' ≡ k = kind_code_injective k' k (ground arith) in rw (a, b, d, kinds) refl

same_key_self :
    (o m c : ℕ) (k : CaptureAssetKind)
    → same_key (capture_object_key o m c k) (capture_object_key o m c k) ≡ true
same_key_self o m c k = rw (==_self o, ==_self m, ==_self c) (==_self (kind_code k))

same_key_iff :
    (a : ObjectKey) (o m c : ℕ) (k : CaptureAssetKind)
    → (same_key a (capture_object_key o m c k) ≡ true) ↔ (a ≡ capture_object_key o m c k)
same_key_iff (other_key i) o m c k = (λ e. absurd (cc), λ e. absurd (cc))
same_key_iff (capture_object_key o' m' c' k') o m c k = (
  λ e. same_parts o' m' c' k' o m c k e,
  λ e. subst (λ a. same_key a (capture_object_key o m c k) ≡ true) (sym e) (same_key_self o m c k),
)

-- Every asset of a capture has the key that a grant for it derives.
all_granted_iff :
    (o m c : ℕ) (l : List (CaptureAssetKind × ObjectKey))
    → (all_granted o m c l ≡ true) ↔ All (λ a. a.1 ≡ capture_object_key o m c a.0) l
all_granted_iff o m c [] = (λ e. tt, λ e. refl)
all_granted_iff o m c ((k, key) ∷ l) =
    let (to, back) = all_granted_iff o m c l in
    let (key_to, key_back) = same_key_iff key o m c k in
    elim (Bool-cases (same_key key (capture_object_key o m c k))) [
      | inl e ↦ (λ h. (key_to e, to (ground arith)), λ h. ground (arith, back h.1))
      | inr e ↦ (λ h. absurd (ground arith), λ h. absurd (ground (arith, key_back h.0)))
    ]

-- No key, or that one
abbrev pub NoneOr : Option ObjectKey → ObjectKey → Type 0
NoneOr given key = (given ≡ none) ⊎ (given ≡ some key)

-- The image has the key that a grant for it derives, and so has each further object that is named.
abbrev pub HasGrantedKeys : (observatory_id : ℕ) → CaptureReady → Type 0
HasGrantedKeys o c =
    let key = capture_object_key o c.mission_id c.command_id in
    (c.image_storage_key ≡ key image)
    × NoneOr c.unmarked_storage_key (key unmarked)
    × NoneOr c.fits_storage_key (key fits)
    × NoneOr c.thumbnail_storage_key (key thumbnail)

all_granted-++ :
    (o m c : ℕ) (xs ys : List (CaptureAssetKind × ObjectKey))
    → all_granted o m c (xs ++ ys) ≡ (all_granted o m c xs && all_granted o m c ys)
all_granted-++ o m c [] ys = refl
all_granted-++ o m c ((kind, key) ∷ xs) ys =
    elim (Bool-cases (same_key key (capture_object_key o m c kind))) [
      | inl e ↦ rw e (all_granted-++ o m c xs ys)
      | inr e ↦ rw e refl
    ]

asset_granted :
    (o m c : ℕ) (kind : CaptureAssetKind) (given : Option ObjectKey)
    → (all_granted o m c (asset kind given) ≡ true) ↔ NoneOr given (capture_object_key o m c kind)
asset_granted o m c kind none = (λ e. inl refl, λ h. refl)
asset_granted o m c kind (some key) =
    let (to, back) = same_key_iff key o m c kind in
    elim (Bool-cases (same_key key (capture_object_key o m c kind))) [
      | inl e ↦ rw e (λ h. inr (ap some (to e)), λ h. refl)
      | inr e ↦ rw e (
        λ h. absurd (cc),
        λ h. elim h [
          | inl missing ↦ absurd (cc)
          | inr same ↦
              let yes_same =
                back (ap (λ (k : Option ObjectKey). elim k [ none ↦ key | some l ↦ l ]) same) in
              absurd (cc)
        ],
      )
    ]

pub all_granted-HasGrantedKeys :
    (o : ℕ) (c : CaptureReady)
    → (all_granted o c.mission_id c.command_id (assets_of c) ≡ true) ↔ HasGrantedKeys o c
all_granted-HasGrantedKeys o c =
    let m = c.mission_id in
    let k = c.command_id in
    let u = asset unmarked c.unmarked_storage_key in
    let f = asset fits c.fits_storage_key in
    let t = asset thumbnail c.thumbnail_storage_key in
    let (to, back) = same_key_iff c.image_storage_key o m k image in
    let (u_to, u_back) = asset_granted o m k unmarked c.unmarked_storage_key in
    let (f_to, f_back) = asset_granted o m k fits c.fits_storage_key in
    let (t_to, t_back) = asset_granted o m k thumbnail c.thumbnail_storage_key in
    let parts : all_granted o m k (u ++ f ++ t)
        ≡ (all_granted o m k u && all_granted o m k f && all_granted o m k t) =
      rw (all_granted-++ o m k (u ++ f) t, all_granted-++ o m k u f) refl in
    elim (Bool-cases (same_key c.image_storage_key (capture_object_key o m k image))) [
      | inr other ↦ rw other (λ h. absurd (cc), λ h. let e = back h.0 in absurd (cc))
      | inl e ↦
          rw (e, parts)
            (
              λ h. (to e, u_to (ground arith), f_to (ground arith), t_to (ground arith)),
              λ h. rw (u_back h.1, f_back h.2, t_back h.3) refl,
            )
    ]

-- The types that a kind of object may be written as
abbrev pub IsUploadType : CaptureAssetKind → ContentType → Type 0
IsUploadType kind type =
    ((kind ≡ fits) × ((type ≡ application_fits) ⊎ (type ≡ image_fits)))
    ⊎ ((kind ≢ fits) × ((type ≡ image_jpeg) ⊎ (type ≡ image_png)))

pub upload_type_to :
    (k : CaptureAssetKind) (t : ContentType) → is_allowed_upload k t ≡ true → IsUploadType k t
upload_type_to k t h = ground arith

pub upload_type_back :
    (k : CaptureAssetKind) (t : ContentType) → IsUploadType k t → is_allowed_upload k t ≡ true
upload_type_back k t (inl (e, inl f)) = rw (e, f) refl
upload_type_back k t (inl (e, inr f)) = rw (e, f) refl
upload_type_back image t (inr (e, inl f)) = rw f refl
upload_type_back image t (inr (e, inr f)) = rw f refl
upload_type_back unmarked t (inr (e, inl f)) = rw f refl
upload_type_back unmarked t (inr (e, inr f)) = rw f refl
upload_type_back thumbnail t (inr (e, inl f)) = rw f refl
upload_type_back thumbnail t (inr (e, inr f)) = rw f refl
upload_type_back fits t (inr (e, f)) = absurd (e refl)

pub is_ours_to :
    (r : Option RelayableCommand) (o m : ℕ)
    → is_ours r o m ≡ true
    → (c : RelayableCommand) × (r ≡ some c) × (c.observatory_id ≡ o) × (c.mission_id ≡ m)
is_ours_to none o m h = absurd (cc)
is_ours_to (some c) o m h = elim (Bool-cases (c.observatory_id == o)) [
  | inl ours ↦ (c, refl, (==_iff _ _).0 ours, (==_iff _ _).0 (ground arith))
  | inr other ↦ absurd (ground arith)
]

pub is_ours_back :
    (r : Option RelayableCommand) (o m : ℕ) (c : RelayableCommand)
    → r ≡ some c
    → c.observatory_id ≡ o
    → c.mission_id ≡ m
    → is_ours r o m ≡ true
is_ours_back r o m c e ours same =
    rw (e, (==_iff c.observatory_id o).1 ours) ((==_iff c.mission_id m).1 same)
