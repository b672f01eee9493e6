-- ===== src/Registry/Pushed.antt =====
-- registry/repository.go: what `PushSignature` leaves in the target.
use notation_go_lib.Base.{
  String, ◌≡◌, ◌⊎◌, inl, inr, refl, sym, ap, ◌∙◌, true, false, Option, none, some, Result, ok, err,
  Option-cases, Result-cases, ok_inj,
}
use notation_go_lib.Pkix.{StringMap}
use notation_go_lib.Verifier.Types.{Descriptor}
use notation_go_lib.Registry.{RegistryError}
use notation_go_lib.Registry.Push.{
  PushEnv, PushResult, pushed, already_exists, push_error, notation_empty_config_desc,
  push_notation_manifest_config, pack_options, or_failed, upload_signature_manifest, with_blob,
  push_signature,
}

module _ {Store : Type 0} (e : PushEnv Store) where
  -- The notation configuration is in the target, or it is pushed, or it turns out to be there.
  abbrev pub HasConfig : Store → Store → Type 0
  HasConfig before after =
      ((e.exists before (notation_empty_config_desc e) ≡ some true) × (after ≡ before))
      ⊎ (e.push_empty before (notation_empty_config_desc e) ≡ (pushed, after))
      ⊎ (e.push_empty before (notation_empty_config_desc e) ≡ (already_exists, after))

  config-HasConfig :
      (s : Store) (desc : Descriptor)
      → (push_notation_manifest_config e s).0 ≡ ok desc
      → (desc ≡ (notation_empty_config_desc e)) × HasConfig s (push_notation_manifest_config e s).1
  unfolding push_notation_manifest_config
  config-HasConfig s desc h = elim (Option-cases (e.exists s (notation_empty_config_desc e))) [
    | inl failed ↦ cc (rw (failed, push_notation_manifest_config) at h)
    | inr (true, there) ↦ (
      sym (ok_inj (rw (there, push_notation_manifest_config) at h)),
      rw (there, push_notation_manifest_config) (inl (refl, refl)),
    )
    | inr (false, missing) ↦ go (e.push_empty s (notation_empty_config_desc e)).0 refl missing
  ]
    where
      go :
          (r : PushResult)
          → (e.push_empty s (notation_empty_config_desc e)).0 ≡ r
          → e.exists s (notation_empty_config_desc e) ≡ some false
          → (desc ≡ (notation_empty_config_desc e))
            × HasConfig s (push_notation_manifest_config e s).1
      go pushed is missing = (
        sym (ok_inj (rw (missing, is, push_notation_manifest_config) at h)),
        rw (missing, push_notation_manifest_config) (rw is (inr (inl refl))),
      )
      go already_exists is missing = (
        sym (ok_inj (rw (missing, is, push_notation_manifest_config) at h)),
        rw (missing, push_notation_manifest_config) (rw is (inr (inr refl))),
      )
      go push_error is missing = cc (rw (missing, is, push_notation_manifest_config) at h)

  or_failed-some :
      (failure : RegistryError) (o : Option Descriptor) (desc : Descriptor)
      → or_failed e failure o ≡ ok desc
      → o ≡ some desc
  or_failed-some failure none desc h = cc
  or_failed-some failure (some d) desc h = cc

  upload-packs :
      (s : Store) (subject blob_desc manifest : Descriptor) (annotations : StringMap)
      → (upload_signature_manifest e s subject blob_desc annotations).0 ≡ ok manifest
      → (between : Store) × HasConfig s between
        × (e.pack_manifest between
              (pack_options e subject blob_desc annotations (notation_empty_config_desc e))
            ≡ (some manifest, (upload_signature_manifest e s subject blob_desc annotations).1))
  unfolding upload_signature_manifest
  upload-packs s subject blob_desc manifest annotations h =
      elim (Result-cases (push_notation_manifest_config e s).0) [
        | inl (failure, bad) ↦ cc (rw (bad, upload_signature_manifest) at h)
        | inr (config, good) ↦
            let (same, has) = config-HasConfig s config good in
            let packed =
              or_failed-some _ _ manifest (rw (good, same, upload_signature_manifest) at h) in
            let left =
              (e.pack_manifest (push_notation_manifest_config e s).1
                (pack_options e subject blob_desc annotations (notation_empty_config_desc e))).1 in
            (
              (push_notation_manifest_config e s).1,
              has,
              rw (good, same, upload_signature_manifest)
                  (ap (λ (r : Option Descriptor). (r, left)) packed),
            )
      ]

  with_blob-ok :
      (blob_desc : Descriptor) (r : Result RegistryError Descriptor × Store)
      {descs : Descriptor × Descriptor}
      → (with_blob e blob_desc r).0 ≡ ok descs
      → (blob_desc ≡ descs.0) × (r.0 ≡ ok descs.1) × ((with_blob e blob_desc r).1 ≡ r.1)
  with_blob-ok blob_desc (err failure, s) h = cc
  with_blob-ok blob_desc (ok manifest, s) h =
      let same = ok_inj h in (ap (λ p. p.0) same, ap (λ p. ok p.1) same, refl)

  -- Where `PushSignature` succeeds, the envelope was pushed, then the notation configuration was there
  -- or was pushed, and then a manifest was packed whose subject is the artifact and whose one layer is
  -- the envelope, with that configuration and the given annotations. It returns the descriptors of
  -- the envelope and of this manifest, and nothing is done to the target after it.
  pub push_signature_sound :
      (s : Store) (media_type blob : String) (subject blob_desc manifest : Descriptor)
      (annotations : StringMap)
      → (push_signature e s media_type blob subject annotations).0 ≡ ok (blob_desc, manifest)
      → (with_envelope between : Store) × (e.push_bytes s media_type blob
          ≡ (some blob_desc, with_envelope))
        × HasConfig with_envelope between
        × (e.pack_manifest between
              (pack_options e subject blob_desc annotations (notation_empty_config_desc e))
            ≡ (some manifest, (push_signature e s media_type blob subject annotations).1))
  unfolding push_signature
  push_signature_sound s media_type blob subject blob_desc manifest annotations h =
      elim (Option-cases (e.push_bytes s media_type blob).0) [
        | inl failed ↦ cc (rw (failed, push_signature) at h)
        | inr (desc, sent) ↦
            let after = (e.push_bytes s media_type blob).1 in
            let (same, ran, left) =
              with_blob-ok desc (upload_signature_manifest e after subject desc annotations)
                (rw (sent, push_signature) at h) in
            let (between, has, packs) = upload-packs after subject desc manifest annotations ran in
            let whole : (push_signature e s media_type blob subject annotations).1
                ≡ (upload_signature_manifest e after subject desc annotations).1 =
              rw (sent, push_signature) left in
            (
              after,
              between,
              ap (λ (r : Option Descriptor). (r, after)) (sent ∙ ap some same),
              has,
              ap
                    (λ d.
                      e.pack_manifest between
                        (pack_options e subject d annotations (notation_empty_config_desc e)))
                    (sym same)
                  ∙ packs
                  ∙ ap (λ (x : Store). (some manifest, x)) (sym whole),
            )
      ]
