-- ===== src/Signatures/Pages.antt =====
-- notation.go: the callback over the pages of a listing, and over one page of all of them.
use notation_go_lib.Base.{
  ℕ, suc, ◌≡◌, inl, inr, refl, sym, ◌∙◌, ap, false, Option, none, some, List, [], ◌∷◌, ◌++◌, leb,
  Bool-cases,
}
use notation_go_lib.Verifier.Types.{Descriptor, Outcome}
use notation_go_lib.Registry.{RegistryError, Repository}
use notation_go_lib.Signatures.{
  VerifierOps, NotationOptions, Stop, State, count, fail_one, process_page, after_pages,
  process_pages,
}
use notation_go_lib.Signatures.Loop.{Round, round, process_page-full, process_page-room}

abbrev pub concat : List (List Descriptor) → List Descriptor
concat [] = []
concat (page ∷ pages) = page ++ concat pages

module _ (ops : VerifierOps) (repo : Repository) (opts : NotationOptions) (max : ℕ)
    (artifact : Descriptor) where
  abbrev then_page : List Descriptor → Option Stop × State → Option Stop × State
  then_page ms (some e, s) = (some e, s)
  then_page ms (none, s) = process_page ops repo opts max artifact ms s

  process_page-nil :
      (s : State)
      → leb max s.processed ≡ false
      → process_page ops repo opts max artifact [] s ≡ (none, s)
  unfolding process_page
  process_page-nil s room = rw room refl

  process_page-append :
      (a b : List Descriptor) (s : State)
      → leb max s.processed ≡ false
      → process_page ops repo opts max artifact (a ++ b) s
        ≡ then_page b (process_page ops repo opts max artifact a s)
  process_page-append [] b s room = ap (then_page b) (sym (process_page-nil s room))
  process_page-append (m ∷ a) b s room = elim (round ops repo opts max artifact m s room) [
    | Round.lost e bad same ↦ same (a ++ b) ∙ ap (then_page b) (sym (same a))
    | Round.broken e same ↦ same (a ++ b) ∙ ap (then_page b) (sym (same a))
    | Round.accepted o accepts same ↦ same (a ++ b) ∙ ap (then_page b) (sym (same a))
    | Round.refused o same ↦
        same (a ++ b)
        ∙ later o (process_page-append a b (fail_one (count s) m o))
        ∙ ap (then_page b) (sym (same a))
  ]
    where
      later :
          (o : Outcome)
          → (leb max (suc s.processed) ≡ false
              → process_page ops repo opts max artifact (a ++ b) (fail_one (count s) m o)
                ≡ then_page b (process_page ops repo opts max artifact a (fail_one (count s) m o)))
          → process_page ops repo opts max artifact (a ++ b) (fail_one (count s) m o)
            ≡ then_page b (process_page ops repo opts max artifact a (fail_one (count s) m o))
      later o more_of = elim (Bool-cases (leb max (suc s.processed))) [
        | inr more ↦ more_of more
        | inl full ↦
            process_page-full ops repo opts max artifact (a ++ b) (fail_one (count s) m o) full
            ∙ ap (then_page b)
                (sym (process_page-full ops repo opts max artifact a (fail_one (count s) m o) full))
      ]

  abbrev pub and_pages :
      List (List Descriptor) → Option RegistryError → Option Stop × State → Option Stop × State
  and_pages pages trailing (some e, s) = (some e, s)
  and_pages pages trailing (none, s) = process_pages ops repo opts max artifact pages trailing s

  pub process_pages-cons :
      (page : List Descriptor) (pages : List (List Descriptor)) (trailing : Option RegistryError)
      (s : State) (r : Option Stop × State)
      → process_page ops repo opts max artifact page s ≡ r
      → process_pages ops repo opts max artifact (page ∷ pages) trailing s
        ≡ and_pages pages trailing r
  unfolding process_pages
  process_pages-cons page pages trailing s (none, s') ran =
      rw (ap (λ r. r.0) ran, ap (λ r. r.1) ran, process_pages) refl
  process_pages-cons page pages trailing s (some e, s') ran =
      rw (ap (λ r. r.0) ran, ap (λ r. r.1) ran, process_pages) refl

  process_pages-nil :
      (trailing : Option RegistryError) (s : State)
      → process_pages ops repo opts max artifact [] trailing s
        ≡ (after_pages ops repo opts max artifact trailing, s)
  unfolding process_pages
  process_pages-nil trailing s = refl

  -- Pages one by one leave the same state, and stop with the same error, as one page of all their
  -- signatures: how a registry cuts its listing into pages does not matter.
  pub process_pages-concat :
      (pages : List (List Descriptor)) (trailing : Option RegistryError) (s : State)
      → leb max s.processed ≡ false
      → process_pages ops repo opts max artifact pages trailing s
        ≡ process_pages ops repo opts max artifact (concat pages ∷ []) trailing s
  process_pages-concat [] trailing s room =
      sym (process_pages-cons [] [] trailing s (none, s) (process_page-nil s room))
  process_pages-concat (page ∷ pages) trailing s room =
      process_pages-cons page pages trailing s _ refl
      ∙ later _ refl (process_pages-concat pages trailing)
      ∙ sym (
          process_pages-cons (page ++ concat pages) [] trailing s _
            (process_page-append page (concat pages) s room))
    where
      later :
          (r : Option Stop × State)
          → process_page ops repo opts max artifact page s ≡ r
          → ((s : State)
              → leb max s.processed ≡ false
              → process_pages ops repo opts max artifact pages trailing s
                ≡ process_pages ops repo opts max artifact (concat pages ∷ []) trailing s)
          → and_pages pages trailing r ≡ and_pages [] trailing (then_page (concat pages) r)
      later (some e, s') ran ih = refl
      later (none, s') ran ih =
          ih s' (process_page-room ops repo opts max artifact page s s' ran)
          ∙ process_pages-cons (concat pages) [] trailing s' _ refl
