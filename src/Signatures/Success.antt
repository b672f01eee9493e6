-- ===== src/Signatures/Success.antt =====
-- notation.go: what follows the loop of `Verify` over the signatures.
use notation_go_lib.Base.{
  ℕ, ◌≤◌, ◌≡◌, refl, sym, ◌∙◌, ap, true, false, Option, none, some, List, [], ◌∷◌, ◌++◌, arith, leb,
}
use mathlib.Core.Path.{subst}
use notation_go_lib.Verifier.Types.{Descriptor, Outcome}
use notation_go_lib.Registry.{RegistryError, Repository}
use notation_go_lib.Signatures.{
  VerifierOps, NotationOptions, NotationError, limit_exceeded, Stop, done, stopped, State, start,
  Report, process_page, process_pages, without_stop, conclude, verify_signatures,
}
use notation_go_lib.Signatures.Loop.{
  Accepts, Succeeded, Left, process_page-Left, process_page-bounded,
}
use notation_go_lib.Signatures.Pages.{concat, and_pages, process_pages-cons, process_pages-concat}

module _ (ops : VerifierOps) (repo : Repository) (opts : NotationOptions) (max : ℕ)
    (artifact : Descriptor) where
  -- Whatever the pages are, no more signatures are counted than the limit that was given.
  pub process_pages-bounded :
      (pages : List (List Descriptor)) (trailing : Option RegistryError) (s : State)
      → s.processed ≤ max
      → (process_pages ops repo opts max artifact pages trailing s).1.processed ≤ max
  unfolding process_pages
  process_pages-bounded [] trailing s le = le
  process_pages-bounded (page ∷ pages) trailing s le =
      subst (λ r. r.1.processed ≤ max)
        (sym (process_pages-cons ops repo opts max artifact page pages trailing s _ refl))
        (later _ refl (process_pages-bounded pages trailing))
    where
      later :
          (r : Option Stop × State)
          → process_page ops repo opts max artifact page s ≡ r
          → ((s : State)
              → s.processed ≤ max
              → (process_pages ops repo opts max artifact pages trailing s).1.processed ≤ max)
          → (and_pages ops repo opts max artifact pages trailing r).1.processed ≤ max
      later (some e, s') ran ih =
          subst (λ r. r.1.processed ≤ max) ran
            (process_page-bounded ops repo opts max artifact page s le)
      later (none, s') ran ih = ih s' (
          subst (λ r. r.1.processed ≤ max) ran
            (process_page-bounded ops repo opts max artifact page s le))

  -- The signature that a success rests on: it is listed for the artifact, it is fetched, and the
  -- verifier accepts it with the one outcome that is returned.
  pub record Found (outcomes : List (Option Outcome)) : Type 0 where
    pub before : List Descriptor
    pub manifest : Descriptor
    pub after : List Descriptor
    pub outcome : Option Outcome
    pub listed : concat (repo.list_signatures artifact).0 ≡ before ++ manifest ∷ after
    pub accepts : Accepts ops repo opts max artifact manifest outcome
    pub only : outcomes ≡ outcome ∷ []

  without_stop_sound :
      (s : State) (desc : Descriptor) (outcomes : List (Option Outcome))
      → without_stop ops repo opts max artifact s ≡ (desc, outcomes, none)
      → (desc ≡ artifact) × (outcomes ≡ s.outcomes) × (s.succeeded ≡ true)
  without_stop_sound s desc outcomes h = ground arith

  -- The result, by the end of the one page that stands for all.
  conclude_sound :
      (ms : List Descriptor) (trailing : Option RegistryError) (desc : Descriptor)
      (outcomes : List (Option Outcome)) (r : Option Stop × State)
      → Left ops repo opts max artifact ms start r
      → conclude ops repo opts max artifact (and_pages ops repo opts max artifact [] trailing r)
        ≡ (desc, outcomes, none)
      → (desc ≡ artifact)
        × ((s' : State) × Succeeded ops repo opts max artifact ms s' × (outcomes ≡ s'.outcomes))
  unfolding process_pages Left
  conclude_sound ms trailing desc outcomes (some done, s') l h =
      let (same, kept, flagged) = without_stop_sound s' desc outcomes h in (same, (s', l, kept))
  conclude_sound ms trailing desc outcomes (some (stopped (limit_exceeded n)), s') l h =
      absurd (no_error h)
    where
      no_error :
          {d d' : Descriptor} {os os' : List (Option Outcome)} {e : NotationError}
          → ◌≡◌ {A = Report} (d, os, some e) (d', os', none)
          → ⊥
      no_error k = let wrong = ap (λ (r : Report). r.2) k in cc
  conclude_sound ms trailing desc outcomes (some (stopped _), s') l h = ground arith
  conclude_sound ms (some e) desc outcomes (none, s') l h = ground arith
  conclude_sound ms none desc outcomes (none, s') l h =
      let (same, kept, flagged) = without_stop_sound s' desc outcomes h in absurd (ground arith)

  pub verify_signatures_sound :
      (desc : Descriptor) (outcomes : List (Option Outcome))
      → leb max 0 ≡ false
      → verify_signatures ops repo opts max artifact ≡ (desc, outcomes, none)
      → (desc ≡ artifact) × Found outcomes
  unfolding verify_signatures
  verify_signatures_sound desc outcomes room h =
      let listing = repo.list_signatures artifact in
      let as_one =
        process_pages-concat ops repo opts max artifact listing.0 listing.1 start room
        ∙ process_pages-cons ops repo opts max artifact (concat listing.0) [] listing.1 start _
            refl in
      let (same, (s', l, kept)) =
        conclude_sound (concat listing.0) listing.1 desc outcomes _
          (process_page-Left ops repo opts max artifact (concat listing.0) start)
          (subst (λ r. conclude ops repo opts max artifact r ≡ (desc, outcomes, none)) as_one h) in
      (
        same,
        record {
          before = l.before;
          manifest = l.manifest;
          after = l.after;
          outcome = l.outcome;
          listed = l.stands;
          accepts = l.accepts;
          only = kept ∙ l.only;
        },
      )
