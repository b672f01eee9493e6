-- ===== src/Registry/Complete.antt =====
-- registry/repository.go: the list of `signatureReferrers` as a whole.
use notation_go_lib.Base.{
  String, ◌≡◌, inl, inr, refl, sym, ap, ◌∙◌, true, false, not, All, Option, some, List, [], ◌∷◌,
  ◌==◌, ok, Any, Any-append_left, Any-append_right, arith, ltb, eq_iff, Result-cases, ok_inj,
  >>=-eq-ok, >>=-ok, guard-ok,
}
use mathlib.Core.Path.{subst}
use notation_go_lib.Pkix.{StringMap}
use notation_go_lib.Verifier.Types.{Descriptor}
use notation_go_lib.Registry.{
  RegistryError, Target, or_error, artifact_type_notation, media_type_artifact_manifest,
  media_type_image_manifest, max_manifest_size_limit, has_subject, keep, referrer_of, referrers_of,
  signature_referrers, fetch_failed,
}
use notation_go_lib.Registry.Fetching.{or_error-eq-ok}
use notation_go_lib.Registry.Listing.{IsSignatureOf, referrers_of-All}

module _ (t : Target) where
  keep-kept :
      (node desc kept : Descriptor) (subject subject' : Option Descriptor) (type : String)
      (annotations annotations' : StringMap)
      → has_subject t subject desc ≡ true
      → kept ≡ record node { annotations = annotations }
      → subject' ≡ subject
      → annotations' ≡ annotations
      → type ≡ artifact_type_notation
      → keep t node desc subject' type annotations' ≡ kept ∷ []
  keep-kept node desc kept subject subject' type annotations annotations' about same is with
        notation =
      rw (is, with, notation, same, about) refl

  referrer_of-kept :
      (nodes : List Descriptor) (desc kept : Descriptor) (s : IsSignatureOf t nodes desc kept)
      → referrer_of t desc s.node ≡ ok (kept ∷ [])
  unfolding referrer_of
  referrer_of-kept nodes desc kept s =
      let small : not (ltb max_manifest_size_limit s.node.size) ≡ true = ground (arith, s.fits) in
      let read : or_error (t.fetch_manifest s.node) (fetch_failed s.node) ≡ ok s.json =
        rw s.there refl in
      elim (s.manifest) [
        | inl (artifact, parsed, kind, subject, annotations, type) ↦
            let reads : or_error (t.parse_artifact s.json) RegistryError.manifest_unparsable
                ≡ ok artifact =
              rw parsed refl in
            rw (referrer_of, (eq_iff s.node.media_type media_type_artifact_manifest).1 kind)
              (>>=-ok _ _ (guard-ok _ _ small) (
                >>=-ok _ _ read (
                  >>=-ok _ _ reads (
                    ap ok (
                      keep-kept s.node desc kept s.subject artifact.subject artifact.artifact_type
                        s.annotations artifact.annotations s.of_artifact s.same subject annotations
                        type)))))
        | inr (image, parsed, kind, subject, annotations, type) ↦
            let reads : or_error (t.parse_image s.json) RegistryError.manifest_unparsable
                ≡ ok image =
              rw parsed refl in
            let other : (s.node.media_type == media_type_artifact_manifest) ≡ false =
              rw kind refl in
            rw (referrer_of, other, (eq_iff s.node.media_type media_type_image_manifest).1 kind)
              (>>=-ok _ _ (guard-ok _ _ small) (
                >>=-ok _ _ read (
                  >>=-ok _ _ reads (
                    ap ok (
                      keep-kept s.node desc kept s.subject image.subject image.config_media_type
                        s.annotations image.annotations s.of_artifact s.same subject annotations
                        type)))))
      ]

  referrers_of-kept :
      (nodes : List Descriptor) (desc kept : Descriptor) (s : IsSignatureOf t nodes desc kept)
      (rest found : List Descriptor)
      → Any (λ n. n ≡ s.node) rest
      → referrers_of t desc rest ≡ ok found
      → Any (λ k. k ≡ kept) found
  unfolding referrers_of
  referrers_of-kept nodes desc kept s [] found listed h = absurd listed
  referrers_of-kept nodes desc kept s (node ∷ rest) found listed h =
      elim (Result-cases (referrer_of t desc node)) [
        | inl (e, bad) ↦ cc (rw (bad, referrers_of) at h)
        | inr (first, good) ↦ elim (Result-cases (referrers_of t desc rest)) [
          | inl (e, bad) ↦ cc (rw (good, bad, referrers_of) at h)
          | inr (more, later) ↦
              subst (Any (λ k. k ≡ kept)) (ok_inj (rw (good, later, referrers_of) at h))
                (elim listed [
                  | inl here ↦
                      let one : kept ∷ [] ≡ first = ok_inj (
                        sym (referrer_of-kept nodes desc kept s)
                        ∙ ap (referrer_of t desc) (sym here)
                        ∙ good) in
                      Any-append_left _ first more (subst (Any (λ k. k ≡ kept)) one (inl refl))
                  | inr there ↦
                      Any-append_right _ first more
                        (referrers_of-kept nodes desc kept s rest more there later)
                ])
        ]
      ]

  -- Without a lister of referrers, what is listed for an artifact is exactly its notation signatures:
  -- the predecessors of the artifact whose manifests say so, each with its manifest's annotations.
  pub signature_referrers_exact :
      (desc : Descriptor) (kept : List Descriptor)
      → signature_referrers t desc ≡ ok kept
      → (nodes : List Descriptor) × (t.predecessors desc ≡ some nodes)
        × All (IsSignatureOf t nodes desc) kept
        × ((k : Descriptor) → IsSignatureOf t nodes desc k → Any (λ x. x ≡ k) kept)
  unfolding signature_referrers
  signature_referrers_exact desc kept h =
      let (nodes, there, ran) =
        >>=-eq-ok (or_error (t.predecessors desc) RegistryError.predecessors_failed) _ h in
      (
        nodes,
        or_error-eq-ok _ _ nodes there,
        referrers_of-All t nodes desc nodes kept (λ n k. k) ran,
        λ k s. referrers_of-kept nodes desc k s nodes kept s.listed ran,
      )
