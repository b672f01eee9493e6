-- ===== src/Registry/Listing.antt =====
-- registry/repository.go: `signatureReferrers`.
use notation_go_lib.Base.{
  ◌≤◌, String, ◌≡◌, ◌⊎◌, inl, inr, refl, true, not, Option, some, List, [], ◌∷◌, ◌==◌, ok, ◌>>=◌,
  ◌>>◌, All, Any, All-append, arith, ltb, eq_iff, Bool-cases, Result-cases, ok_inj, guard,
  >>=-eq-ok, guard-eq-ok,
}
use mathlib.Core.Path.{subst}
use notation_go_lib.Pkix.{StringMap}
use notation_go_lib.Verifier.Types.{Descriptor}
use notation_go_lib.Registry.{
  Artifact, Image, RegistryError, Target, or_error, artifact_type_notation,
  media_type_artifact_manifest, media_type_image_manifest, max_manifest_size_limit, has_subject,
  keep, referrer_of, referrers_of, fetch_failed,
}
use notation_go_lib.Registry.Fetching.{or_error-eq-ok}

module _ (t : Target) where
  -- What is kept of a node among those given: its manifest, read from the target in the form that the
  -- node's media type says, is a notation signature whose subject is the artifact, and the annotations
  -- are replaced by the manifest's.
  pub record IsSignatureOf (nodes : List Descriptor) (desc kept : Descriptor) : Type 0 where
    pub node : Descriptor
    pub json : String
    pub subject : Option Descriptor
    pub annotations : StringMap
    pub listed : Any (λ n. n ≡ node) nodes
    pub fits : node.size ≤ max_manifest_size_limit
    pub there : t.fetch_manifest node ≡ some json
    pub manifest :
        ((artifact : Artifact) × (t.parse_artifact json ≡ some artifact)
          × (node.media_type ≡ media_type_artifact_manifest)
          × (artifact.subject ≡ subject)
          × (artifact.annotations ≡ annotations)
          × (artifact.artifact_type ≡ artifact_type_notation))
        ⊎ ((image : Image) × (t.parse_image json ≡ some image)
            × (node.media_type ≡ media_type_image_manifest)
            × (image.subject ≡ subject)
            × (image.annotations ≡ annotations)
            × (image.config_media_type ≡ artifact_type_notation))
    pub of_artifact : has_subject t subject desc ≡ true
    pub same : kept ≡ record node { annotations = annotations }

  keep-All :
      (P : Descriptor → Type 0) (node desc : Descriptor) (subject : Option Descriptor)
      (artifact_type : String) (annotations : StringMap)
      → (has_subject t subject desc ≡ true
          → artifact_type ≡ artifact_type_notation
          → P (record node { annotations = annotations }))
      → All P (keep t node desc subject artifact_type annotations)
  keep-All P node desc subject artifact_type annotations f =
      elim (Bool-cases (has_subject t subject desc)) [
        | inr other ↦ rw other tt
        | inl about ↦ elim (Bool-cases (artifact_type == artifact_type_notation)) [
          | inr other ↦ rw (about, other) tt
          | inl notation ↦ rw (about, notation) (f about ((eq_iff _ _).0 notation), tt)
        ]
      ]

  referrer_of-All :
      (nodes : List Descriptor) (desc node : Descriptor) (kept : List Descriptor)
      → Any (λ n. n ≡ node) nodes
      → referrer_of t desc node ≡ ok kept
      → All (IsSignatureOf nodes desc) kept
  unfolding referrer_of
  referrer_of-All nodes desc node kept there_listed h =
      elim (Bool-cases (node.media_type == media_type_artifact_manifest)) [
        | inl artifact ↦ as_artifact ((eq_iff _ _).0 artifact) (rw (artifact, referrer_of) at h)
        | inr other ↦ elim (Bool-cases (node.media_type == media_type_image_manifest)) [
          | inl image ↦ as_image ((eq_iff _ _).0 image) (rw (other, image, referrer_of) at h)
          | inr neither ↦
              subst (All (IsSignatureOf nodes desc))
                (ok_inj (rw (other, neither, referrer_of) at h)) tt
        ]
      ]
    where
      as_artifact :
          node.media_type ≡ media_type_artifact_manifest
          → (do
            guard
                (not (ltb max_manifest_size_limit node.size))
                (RegistryError.node_too_large node.size)
            json ← or_error (t.fetch_manifest node) (fetch_failed node)
            artifact ← or_error (t.parse_artifact json) RegistryError.manifest_unparsable
            ok (keep t node desc artifact.subject artifact.artifact_type artifact.annotations))
            ≡ ok kept
          → All (IsSignatureOf nodes desc) kept
      as_artifact is_kind k =
          let (u, fits, k1) =
            >>=-eq-ok
              (guard (not (ltb max_manifest_size_limit node.size))
                (RegistryError.node_too_large node.size))
              _ k in
          let (json, there, k2) =
            >>=-eq-ok (or_error (t.fetch_manifest node) (fetch_failed node)) _ k1 in
          let (artifact, parsed, k3) =
            >>=-eq-ok (or_error (t.parse_artifact json) RegistryError.manifest_unparsable) _ k2 in
          subst (All (IsSignatureOf nodes desc)) (ok_inj k3) (
            keep-All (IsSignatureOf nodes desc) node desc artifact.subject artifact.artifact_type
              artifact.annotations
              (λ about notation. record {
                node = node;
                listed = there_listed;
                json = json;
                subject = artifact.subject;
                annotations = artifact.annotations;
                fits =
                    ground
                      (arith, guard-eq-ok (not (ltb max_manifest_size_limit node.size)) _ fits);
                there = or_error-eq-ok _ _ json there;
                manifest =
                    inl
                      (artifact, or_error-eq-ok _ _ artifact parsed, is_kind, refl, refl, notation);
                of_artifact = about;
                same = refl;
              }))

      as_image :
          node.media_type ≡ media_type_image_manifest
          → (do
            guard
                (not (ltb max_manifest_size_limit node.size))
                (RegistryError.node_too_large node.size)
            json ← or_error (t.fetch_manifest node) (fetch_failed node)
            image ← or_error (t.parse_image json) RegistryError.manifest_unparsable
            ok (keep t node desc image.subject image.config_media_type image.annotations))
            ≡ ok kept
          → All (IsSignatureOf nodes desc) kept
      as_image is_kind k =
          let (u, fits, k1) =
            >>=-eq-ok
              (guard (not (ltb max_manifest_size_limit node.size))
                (RegistryError.node_too_large node.size))
              _ k in
          let (json, there, k2) =
            >>=-eq-ok (or_error (t.fetch_manifest node) (fetch_failed node)) _ k1 in
          let (image, parsed, k3) =
            >>=-eq-ok (or_error (t.parse_image json) RegistryError.manifest_unparsable) _ k2 in
          subst (All (IsSignatureOf nodes desc)) (ok_inj k3) (
            keep-All (IsSignatureOf nodes desc) node desc image.subject image.config_media_type
              image.annotations
              (λ about notation. record {
                node = node;
                listed = there_listed;
                json = json;
                subject = image.subject;
                annotations = image.annotations;
                fits =
                    ground
                      (arith, guard-eq-ok (not (ltb max_manifest_size_limit node.size)) _ fits);
                there = or_error-eq-ok _ _ json there;
                manifest =
                    inr (image, or_error-eq-ok _ _ image parsed, is_kind, refl, refl, notation);
                of_artifact = about;
                same = refl;
              }))

  pub referrers_of-All :
      (nodes : List Descriptor) (desc : Descriptor) (rest kept : List Descriptor)
      → ((n : Descriptor) → Any (λ x. x ≡ n) rest → Any (λ x. x ≡ n) nodes)
      → referrers_of t desc rest ≡ ok kept
      → All (IsSignatureOf nodes desc) kept
  unfolding referrers_of
  referrers_of-All nodes desc [] kept within h =
      subst (All (IsSignatureOf nodes desc)) (ok_inj h) tt
  referrers_of-All nodes desc (node ∷ rest) kept within h =
      elim (Result-cases (referrer_of t desc node)) [
        | inl (e, bad) ↦ cc (rw (bad, referrers_of) at h)
        | inr (first, good) ↦ elim (Result-cases (referrers_of t desc rest)) [
          | inl (e, bad) ↦ cc (rw (good, bad, referrers_of) at h)
          | inr (more, later) ↦
              subst (All (IsSignatureOf nodes desc)) (ok_inj (rw (good, later, referrers_of) at h))
                (All-append _ first more
                  (referrer_of-All nodes desc node first (within node (inl refl)) good)
                  (referrers_of-All nodes desc rest more (λ n k. within n (inr k)) later))
        ]
      ]
