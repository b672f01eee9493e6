-- ===== src/Registry/Fetching.antt =====
-- registry/repository.go: `FetchSignatureBlob`.
use notation_go_lib.Base.{
  ◌≤◌, String, ◌≡◌, ◌⊎◌, inl, inr, ◌∙◌, not, ◌&&◌, Option, none, some, List, [], ◌∷◌, ◌==◌, ok,
  arith, ltb, eq_iff, Bool-cases, Option-cases, ok_inj, guard, >>=-eq-ok, guard-eq-ok,
}
use mathlib.Core.Path.{subst}
use notation_go_lib.Verifier.Types.{Descriptor}
use notation_go_lib.Registry.{
  Artifact, Image, RegistryError, Target, or_error, media_type_artifact_manifest,
  media_type_image_manifest, max_manifest_size_limit, max_blob_size_limit, manifest_blobs,
  only_blob, get_signature_blob_desc, fetch_signature_blob, fetch_failed, manifest_too_large,
  media_type_refused, blob_too_large,
}

pub or_error-eq-ok :
    {A : Type 0} (o : Option A) (e : RegistryError) (a : A) → or_error o e ≡ ok a → o ≡ some a
or_error-eq-ok none e a h = cc
or_error-eq-ok (some b) e a h = cc

module _ (t : Target) where
  -- The manifest, read from the target, names exactly one blob, that one.
  abbrev pub Names : String → String → Descriptor → Type 0
  Names media_type json blob =
      ((media_type ≡ media_type_image_manifest)
        × ((image : Image) × (t.parse_image json ≡ some image) × (image.layers ≡ blob ∷ [])))
      ⊎ ((media_type ≡ media_type_artifact_manifest)
          × ((artifact : Artifact) × (t.parse_artifact json ≡ some artifact)
              × (artifact.blobs ≡ blob ∷ [])))

  only_blob-eq-ok :
      (blobs : List Descriptor) (b : Descriptor) → only_blob t blobs ≡ ok b → blobs ≡ b ∷ []
  only_blob-eq-ok [] b h = cc
  only_blob-eq-ok (x ∷ []) b h = cc
  only_blob-eq-ok (x ∷ y ∷ rest) b h = cc

  manifest_blobs-Names :
      (media_type json : String) (blobs : List Descriptor) (b : Descriptor)
      → (media_type ≡ media_type_artifact_manifest) ⊎ (media_type ≡ media_type_image_manifest)
      → manifest_blobs t media_type json ≡ ok blobs
      → blobs ≡ b ∷ []
      → Names media_type json b
  unfolding manifest_blobs
  manifest_blobs-Names media_type json blobs b known h one =
      elim (Bool-cases (media_type == media_type_image_manifest)) [
        | inl image ↦ elim (Option-cases (t.parse_image json)) [
          | inl bad ↦ cc (rw (image, bad, manifest_blobs) at h)
          | inr (i, parsed) ↦ inl (
            (eq_iff _ _).0 image,
            (i, parsed, ok_inj (rw (image, parsed, manifest_blobs) at h) ∙ one),
          )
        ]
        | inr artifact ↦ elim (Option-cases (t.parse_artifact json)) [
          | inl bad ↦ cc (rw (artifact, bad, manifest_blobs) at h)
          | inr (a, parsed) ↦ inr (
            ground (arith, eq_iff media_type media_type_image_manifest),
            (a, parsed, ok_inj (rw (artifact, parsed, manifest_blobs) at h) ∙ one),
          )
        ]
      ]

  -- A signature that `FetchSignatureBlob` returns comes from a manifest of one of the two kinds, not
  -- over 4 MiB, that names exactly one blob; the blob is that one, not over 32 MiB.
  pub fetch_signature_blob_sound :
      (manifest : Descriptor) (blob : String) (desc : Descriptor)
      → fetch_signature_blob t manifest ≡ ok (blob, desc)
      → (json : String) × (manifest.size ≤ max_manifest_size_limit)
        × (t.fetch_manifest manifest ≡ some json)
        × Names manifest.media_type json desc
        × (desc.size ≤ max_blob_size_limit)
        × (t.fetch_blob desc ≡ some blob)
  unfolding fetch_signature_blob get_signature_blob_desc
  fetch_signature_blob_sound manifest blob desc h =
      let (d, got, h1) = >>=-eq-ok (get_signature_blob_desc t manifest) _ h in
      let (u, small, h2) =
        >>=-eq-ok (guard (not (ltb max_blob_size_limit d.size)) (blob_too_large d.size)) _ h1 in
      let (b, fetched, h3) = >>=-eq-ok (or_error (t.fetch_blob d) (fetch_failed d)) _ h2 in
      let (json, fits, there, names) = of_manifest d got in
      let same : d ≡ desc = cc in
      (
        json,
        fits,
        there,
        subst (Names manifest.media_type json) same names,
        subst (λ x. x.size ≤ max_blob_size_limit) same
            (ground (arith, guard-eq-ok (not (ltb max_blob_size_limit d.size)) _ small)),
        subst (λ x. t.fetch_blob x ≡ some blob) same (or_error-eq-ok _ _ b fetched ∙ cc),
      )
    where
      of_manifest :
          (d : Descriptor)
          → get_signature_blob_desc t manifest ≡ ok d
          → (json : String) × (manifest.size ≤ max_manifest_size_limit)
            × (t.fetch_manifest manifest ≡ some json)
            × Names manifest.media_type json d
      of_manifest d k =
          let (u, known, k1) =
            >>=-eq-ok
              (guard
                (not (
                  not (manifest.media_type == media_type_artifact_manifest)
                  && not (manifest.media_type == media_type_image_manifest)))
                (media_type_refused manifest.media_type))
              _ k in
          let (w, fits, k2) =
            >>=-eq-ok
              (guard (not (ltb max_manifest_size_limit manifest.size))
                (manifest_too_large manifest.size))
              _ k1 in
          let (json, there, k3) =
            >>=-eq-ok (or_error (t.fetch_manifest manifest) (fetch_failed manifest)) _ k2 in
          let (blobs, listed, k4) = >>=-eq-ok (manifest_blobs t manifest.media_type json) _ k3 in
          (
            json,
            ground (arith, guard-eq-ok (not (ltb max_manifest_size_limit manifest.size)) _ fits),
            or_error-eq-ok _ _ json there,
            manifest_blobs-Names manifest.media_type json blobs d
                (ground (
                  arith,
                  guard-eq-ok
                      (not (
                        not (manifest.media_type == media_type_artifact_manifest)
                        && not (manifest.media_type == media_type_image_manifest)))
                      _ known,
                  eq_iff manifest.media_type media_type_artifact_manifest,
                  eq_iff manifest.media_type media_type_image_manifest,
                ))
                listed (only_blob-eq-ok blobs d k4),
          )
