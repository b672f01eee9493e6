-- ===== src/Signatures/Loop.antt =====
-- notation.go: one page of signatures, and what the callback leaves in its variables.
use notation_go_lib.Base.{
  ℕ, ◌≤◌, String, ◌≡◌, inl, inr, refl, sym, ◌∙◌, ap, true, false, Option, none, some, List, [], ◌∷◌,
  ◌++◌, ok, err, arith, leb, Bool-cases, Result-cases,
}
use mathlib.Core.Path.{subst}
use notation_go_lib.Verifier.Types.{Descriptor, Outcome, VerifyError}
use notation_go_lib.Verifier.Verify.{Verdict}
use notation_go_lib.Registry.{RegistryError, Repository}
use notation_go_lib.Signatures.{
  VerifierOps, NotationOptions, NotationError, limit_exceeded, Stop, done, stopped, State,
  verifier_options, count, fail_one, succeed, process_page,
}

module _ (ops : VerifierOps) (repo : Repository) (opts : NotationOptions) (max : ℕ)
    (artifact : Descriptor) where
  -- The signature of the manifest is fetched, and the verifier accepts it with the outcome.
  abbrev pub Accepts : Descriptor → Option Outcome → Type 0
  Accepts manifest o =
      (blob : String) × (desc : Descriptor) × (repo.fetch_signature_blob manifest ≡ ok (blob, desc))
      × (ops.verify artifact blob (verifier_options opts desc.media_type) ≡ (o, none))

  pub process_page-full :
      (ms : List Descriptor) (s : State)
      → leb max s.processed ≡ true
      → process_page ops repo opts max artifact ms s ≡ (some (stopped (limit_exceeded max)), s)
  unfolding process_page
  process_page-full [] s full = ground arith
  process_page-full (m ∷ ms) s full = ground arith

  -- What a round does, by what the repository and the verifier answer.
  pub data Round (m : Descriptor) (s : State) : Type 0 where
    lost :
        (e : RegistryError)
        → repo.fetch_signature_blob m ≡ err e
        → ((ms : List Descriptor)
            → process_page ops repo opts max artifact (m ∷ ms) s
              ≡ (some (stopped (NotationError.retrieval_failed m.digest e)), count s))
        → Round m s
    accepted :
        (o : Option Outcome)
        → Accepts m o
        → ((ms : List Descriptor)
            → process_page ops repo opts max artifact (m ∷ ms) s ≡ (some done, succeed (count s) o))
        → Round m s
    broken :
        (e : VerifyError)
        → ((ms : List Descriptor)
            → process_page ops repo opts max artifact (m ∷ ms) s
              ≡ (some (stopped (NotationError.verifier_failed e)), count s))
        → Round m s
    refused :
        (o : Outcome)
        → ((ms : List Descriptor)
            → process_page ops repo opts max artifact (m ∷ ms) s
              ≡ process_page ops repo opts max artifact ms (fail_one (count s) m o))
        → Round m s

  pub round : (m : Descriptor) (s : State) → leb max s.processed ≡ false → Round m s
  unfolding process_page
  round m s room = elim (Result-cases (repo.fetch_signature_blob m)) [
    | inl (e, bad) ↦ Round.lost e bad (λ ms. rw (room, bad, process_page) refl)
    | inr ((blob, desc), good) ↦ after blob desc good _ refl
  ]
    where
      after :
          (blob : String) (desc : Descriptor)
          → repo.fetch_signature_blob m ≡ ok (blob, desc)
          → (v : Verdict) → ops.verify artifact blob (verifier_options opts desc.media_type) ≡ v
          → Round m s
      after blob desc good (o, none) ran =
          Round.accepted o (blob, desc, good, ran)
            (λ ms. rw (room, good, ap (λ v. v.1) ran, ap (λ v. v.0) ran, process_page) refl)
      after blob desc good (none, some e) ran =
          Round.broken e
            (λ ms. rw (room, good, ap (λ v. v.1) ran, ap (λ v. v.0) ran, process_page) refl)
      after blob desc good (some o, some e) ran =
          Round.refused o
            (λ ms. rw (room, good, ap (λ v. v.1) ran, ap (λ v. v.0) ran, process_page) refl)

  -- The signature that ended a page: it stands in the page, it is accepted with the outcome, and
  -- that outcome is the only one that is kept.
  pub record Succeeded (ms : List Descriptor) (s' : State) : Type 0 where
    pub before : List Descriptor
    pub manifest : Descriptor
    pub after : List Descriptor
    pub outcome : Option Outcome
    pub stands : ms ≡ before ++ manifest ∷ after
    pub accepts : Accepts manifest outcome
    pub only : s'.outcomes ≡ outcome ∷ []
    pub flagged : s'.succeeded ≡ true

  -- What a page leaves, by the error of the callback.
  unfoldable pub Left : List Descriptor → State → Option Stop × State → Type 0
  Left ms s (some done, s') = Succeeded ms s'
  Left ms s (some (stopped e), s') = (s'.outcomes ≡ s.outcomes)
  Left ms s (none, s') =
      (s'.outcomes ≡ s.outcomes) × (s'.succeeded ≡ s.succeeded) × (leb max s'.processed ≡ false)

  Left-later :
      (m : Descriptor) (ms : List Descriptor) (s s1 : State) (r : Option Stop × State)
      → s1.outcomes ≡ s.outcomes
      → s1.succeeded ≡ s.succeeded
      → Left ms s1 r
      → Left (m ∷ ms) s r
  unfolding Left
  Left-later m ms s s1 (some done, s') o f l = record {
    before = m ∷ l.before;
    manifest = l.manifest;
    after = l.after;
    outcome = l.outcome;
    stands = ap (λ x. m ∷ x) l.stands;
    accepts = l.accepts;
    only = l.only;
    flagged = l.flagged;
  }
  Left-later m ms s s1 (some (stopped e), s') o f l = l ∙ o
  Left-later m ms s s1 (none, s') o f l = (l.0 ∙ o, l.1 ∙ f, l.2)

  pub process_page-Left :
      (ms : List Descriptor) (s : State) → Left ms s (process_page ops repo opts max artifact ms s)
  unfolding process_page Left
  process_page-Left [] s = elim (Bool-cases (leb max s.processed)) [
    | inl full ↦ rw full refl
    | inr room ↦ rw room (refl, refl, room)
  ]
  process_page-Left (m ∷ ms) s = elim (Bool-cases (leb max s.processed)) [
    | inl full ↦ subst (Left (m ∷ ms) s) (sym (process_page-full (m ∷ ms) s full)) refl
    | inr room ↦ elim (round m s room) [
      | Round.lost e bad same ↦ subst (Left (m ∷ ms) s) (sym (same ms)) refl
      | Round.broken e same ↦ subst (Left (m ∷ ms) s) (sym (same ms)) refl
      | Round.accepted o accepts same ↦ subst (Left (m ∷ ms) s) (sym (same ms)) (record {
        before = [];
        manifest = m;
        after = ms;
        outcome = o;
        stands = refl;
        accepts = accepts;
        only = refl;
        flagged = refl;
      })
      | Round.refused o same ↦ subst (Left (m ∷ ms) s) (sym (same ms)) (
          Left-later m ms s (fail_one (count s) m o) _ refl refl
            (process_page-Left ms (fail_one (count s) m o)))
    ]
  ]

  -- The callback never counts beyond the limit.
  pub process_page-bounded :
      (ms : List Descriptor) (s : State)
      → s.processed ≤ max
      → (process_page ops repo opts max artifact ms s).1.processed ≤ max
  unfolding process_page
  process_page-bounded [] s le = le
  process_page-bounded (m ∷ ms) s le = elim (Bool-cases (leb max s.processed)) [
    | inl full ↦ subst (λ r. r.1.processed ≤ max) (sym (process_page-full (m ∷ ms) s full)) le
    | inr room ↦ elim (round m s room) [
      | Round.lost e bad same ↦ subst (λ r. r.1.processed ≤ max) (sym (same ms)) (ground arith)
      | Round.broken e same ↦ subst (λ r. r.1.processed ≤ max) (sym (same ms)) (ground arith)
      | Round.accepted o accepts same ↦
          subst (λ r. r.1.processed ≤ max) (sym (same ms)) (ground arith)
      | Round.refused o same ↦
          subst (λ r. r.1.processed ≤ max) (sym (same ms))
            (process_page-bounded ms (fail_one (count s) m o) (ground arith))
    ]
  ]

  -- A page that ends without an error leaves room.
  pub process_page-room :
      (ms : List Descriptor) (s s' : State)
      → process_page ops repo opts max artifact ms s ≡ (none, s')
      → leb max s'.processed ≡ false
  unfolding Left
  process_page-room ms s s' h = (subst (Left ms s) h (process_page-Left ms s)).2
