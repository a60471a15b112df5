-- ===== src/Link/Uploads.antt =====
-- Where an agent may write: the keys that a grant derives, and the captures that name them.
use online_observatory.Common.{
  ℕ, false, some, ◌∷◌, ◌≡◌, ◌⊎◌, refl, inl, inr, Bool-cases, arith, ◌≤◌, ltb, ◌+◌,
}
use online_observatory.Link.Messages.{
  capture_object_key, UploadGrantRequest, UploadGrant, sends, cloud_upload_grant, cloud_error,
  validation_failed, ErrorCode, max_upload_bytes, is_allowed_upload,
}
use online_observatory.Link.Storage.{LinkStore, RelayableCommand}
use online_observatory.Link.State.{Presign, is_ours}
use online_observatory.Link.Handlers.{World, apply_upload_grant_request}
use online_observatory.Link.Keys.{
  IsUploadType, upload_type_to, upload_type_back, is_ours_to, is_ours_back,
}

module _ (S : LinkStore) where
  -- The command was minted for the link's observatory and the mission that is named, the kind may be
  -- written as that type, and the object has at most 64 MiB.
  abbrev pub MayUpload : UploadGrantRequest → World S → Type 0
  MayUpload q w =
      ((c : RelayableCommand) × (S.load_command q.command_id w.db ≡ some c)
        × (c.observatory_id ≡ w.link.observatory_id)
        × (c.mission_id ≡ q.mission_id))
      × IsUploadType q.kind q.content_type
      × (q.content_length ≤ 67108864)

  -- A request is answered with a grant exactly when its command was minted for the observatory and
  -- the mission, its kind may have that type and it is not over 64 MiB. The grant's key is derived
  -- from the observatory, the mission, the command and the kind, it is for that type and length, and
  -- it lasts a quarter of an hour. Otherwise the answer is an error that is not fatal. Either way the
  -- store and the link are as they were.
  pub apply_upload_grant_request-granted :
      (p : Presign) (q : UploadGrantRequest) (now : ℕ) (w : World S)
      → ((apply_upload_grant_request S p q now w).link ≡ w.link)
        × ((apply_upload_grant_request S p q now w).db ≡ w.db)
        × ((MayUpload q w
              × ((g : UploadGrant) × ((apply_upload_grant_request S p q now w).out
                    ≡ sends (cloud_upload_grant g) ∷ w.out)
                  × (g.storage_key
                      ≡ capture_object_key w.link.observatory_id q.mission_id q.command_id q.kind)
                  × (g.content_type ≡ q.content_type)
                  × (g.content_length ≡ q.content_length)
                  × (g.expires_at ≡ now + 900000)))
            ⊎ ((¬ MayUpload q w)
                × ((code : ErrorCode) × ((apply_upload_grant_request S p q now w).out
                      ≡ sends (cloud_error code false) ∷ w.out))))
  unfolding apply_upload_grant_request
  apply_upload_grant_request-granted p q now w =
      let r = S.load_command q.command_id w.db in
      let o = w.link.observatory_id in
      elim (Bool-cases (is_ours r o q.mission_id)) [
        | inr e ↦ rw e (
          refl,
          refl,
          inr (
            λ ((c, is, ours, same), t, l).
                let e' = is_ours_back r o q.mission_id c is ours same in absurd (cc),
            (ErrorCode.not_found, refl),
          ),
        )
        | inl e ↦ elim (Bool-cases (is_allowed_upload q.kind q.content_type)) [
          | inr e2 ↦
              rw (e, e2)
                (
                  refl,
                  refl,
                  inr (
                    λ (c, t, l). let e' = upload_type_back q.kind q.content_type t in absurd (cc),
                    (validation_failed, refl),
                  ),
                )
          | inl e2 ↦ elim (Bool-cases (ltb max_upload_bytes q.content_length)) [
            | inl e3 ↦
                rw (e, e2, e3)
                  (refl, refl, inr (λ (c, t, l). absurd (ground arith), (validation_failed, refl)))
            | inr e3 ↦
                rw (e, e2, e3)
                  (
                    refl,
                    refl,
                    inl (
                      (
                        is_ours_to r o q.mission_id e,
                        upload_type_to q.kind q.content_type e2,
                        ground arith,
                      ),
                      (_, refl, refl, refl, refl, refl),
                    ),
                  )
          ]
        ]
      ]
