-- ===== src/CrlCache/Laws.antt =====
-- verifier/crl/crl.go: `Get` after `Set`.
use mathlib.Core.Path.{subst}
use notation_go_lib.Base.{
  ℕ, String, ◌≡◌, ◌≢◌, ◌≤◌, ◌<◌, refl, Option, none, some, ok, >>=-eq-ok, >>=-ok, ok_inj, arith,
}
use notation_go_lib.CrlCache.{
  Crl, Bundle, FileCacheContent, CacheError, CacheEnv, contents, check_expiry, or_error, if_present,
  read_content, get, content_of, set, decode_failed, base_malformed, delta_malformed, encode_failed,
  write_failed,
}

pub or_error-ok :
    {A : Type 0} (e : CacheError) (o : Option A) {a : A} → or_error e o ≡ ok a → o ≡ some a
or_error-ok e none h = cc
or_error-ok e (some b) h = cc

module _ {Disk : Type 0} (e : CacheEnv Disk) where
  -- `os.ReadFile` and `file.WriteFile` on a disk, and `json` on the content: a delta of no bytes is
  -- left out of the text and so not read back.
  pub record CacheLaws : Type 0 where
    pub read_written :
        (disk after : Disk) (name text : String)
        → e.write_file disk name text ≡ some after
        → e.read_file after name ≡ contents text
    pub read_other :
        (disk after : Disk) (name other text : String)
        → e.write_file disk name text ≡ some after
        → other ≢ name
        → e.read_file after other ≡ e.read_file disk other
    pub decoded :
        (content : FileCacheContent) (text : String)
        → content.delta_crl ≢ some ""
        → e.marshal content ≡ some text
        → e.unmarshal text ≡ some content

  -- A list that the parser returned for its own bytes and whose next update is not over.
  abbrev pub IsFresh : ℕ → Crl → Type 0
  IsFresh now crl =
      (e.parse_revocation_list crl.raw ≡ some crl)
      × (crl.raw ≢ "")
      × (0 < crl.next_update)
      × (now ≤ crl.next_update)

  -- The bundle has a base, and its lists are fresh.
  abbrev pub AllFresh : Crl → Option Crl → Type 0
  AllFresh base none = IsFresh e.now_at_base base
  AllFresh base (some delta) = IsFresh e.now_at_base base × IsFresh e.now_at_delta delta

  check_expiry-ok :
      (now next_update : ℕ)
      → 0 < next_update
      → now ≤ next_update
      → check_expiry now next_update ≡ ok tt
  check_expiry-ok now next_update some_time later = ground arith

  -- The two stages of `Get` on the delta: parsing it and checking its expiry.
  delta-parsed :
      (base : Crl) (delta : Option Crl)
      → AllFresh base delta
      → if_present
          (λ raw. or_error delta_malformed (e.parse_revocation_list raw))
          (content_of e base delta).delta_crl
        ≡ ok delta
  delta-parsed base none fresh = refl
  delta-parsed base (some delta) (_, (parsed, _, _, _)) = rw (parsed, if_present) refl

  delta-checked :
      (base : Crl) (delta : Option Crl)
      → AllFresh base delta
      → (checked : Option (Unit {0})) × (if_present
            (λ (crl : Crl). check_expiry e.now_at_delta crl.next_update)
            delta
          ≡ ok checked)
  delta-checked base none fresh = (none, refl)
  delta-checked base (some delta) (_, (_, _, some_time, later)) = (
    some tt,
    rw (check_expiry-ok e.now_at_delta delta.next_update some_time later, if_present) refl,
  )

  base-IsFresh :
      (base : Crl) (delta : Option Crl) → AllFresh base delta → IsFresh e.now_at_base base
  base-IsFresh base none fresh = fresh
  base-IsFresh base (some delta) fresh = fresh.0

  content_of-base :
      (base : Crl) (delta : Option Crl) → (content_of e base delta).base_crl ≡ base.raw
  content_of-base base none = refl
  content_of-base base (some delta) = refl

  content_of-delta :
      (base : Crl) (delta : Option Crl)
      → AllFresh base delta
      → (content_of e base delta).delta_crl ≢ some ""
  content_of-delta base none fresh h = cc
  content_of-delta base (some delta) (_, (_, bytes, _, _)) h = bytes (cc)

  get-content :
      (disk : Disk) (url text : String) (base : Crl) (delta : Option Crl)
      → AllFresh base delta
      → e.read_file disk (e.file_name url) ≡ contents text
      → e.unmarshal text ≡ some (content_of e base delta)
      → get e disk url ≡ ok (record { base_crl = some base; delta_crl = delta })
  unfolding get
  get-content disk url text base delta fresh read decoded =
      let (parsed, _, some_time, later) = base-IsFresh base delta fresh in
      let content = content_of e base delta in
      let has_text : read_content e (e.read_file disk (e.file_name url)) ≡ ok text =
        rw (read, read_content) refl in
      let has_content : or_error decode_failed (e.unmarshal text) ≡ ok content =
        rw (decoded, or_error) refl in
      let has_base : or_error base_malformed (e.parse_revocation_list content.base_crl) ≡ ok base =
        rw (content_of-base base delta, parsed, or_error) refl in
      >>=-ok _ _ has_text (
        >>=-ok _ _ has_content (
          >>=-ok _ _ has_base (
            >>=-ok _ _ (delta-parsed base delta fresh) (
              >>=-ok _ _ (check_expiry-ok e.now_at_base base.next_update some_time later)
                (>>=-ok _ _ (delta-checked base delta fresh).1 refl)))))

  -- What the cache stores it returns: over a disk and JSON that keep their laws, and for a bundle whose
  -- lists were parsed from their bytes and are not over, `Get` after a `Set` that succeeds returns the
  -- bundle, and for every URL with another file name what it returned before.
  pub get-set :
      (disk after : Disk) (url other : String) (base : Crl) (delta : Option Crl)
      → CacheLaws
      → AllFresh base delta
      → set e disk url (some (record { base_crl = some base; delta_crl = delta })) ≡ ok after
      → (get e after url ≡ ok (record { base_crl = some base; delta_crl = delta }))
        × (e.file_name other ≢ e.file_name url → get e after other ≡ get e disk other)
  unfolding get set
  get-set disk after url other base delta laws fresh h =
      let (text, encoded, h) =
        >>=-eq-ok (or_error encode_failed (e.marshal (content_of e base delta))) _ h in
      let written = or_error-ok write_failed _ h in
      (
        get-content after url text base delta fresh (laws.read_written disk after _ text written) (
            laws.decoded _ text (content_of-delta base delta fresh)
              (or_error-ok encode_failed _ encoded)),
        λ apart. rw (laws.read_other disk after _ (e.file_name other) text written apart) refl,
      )

  check_expiry-InTime :
      (now next_update : ℕ) (u : Unit {0})
      → check_expiry now next_update ≡ ok u
      → (0 < next_update) × (now ≤ next_update)
  check_expiry-InTime now next_update u h = (ground arith, ground arith)

  -- The delta is in time, if there is one.
  abbrev pub DeltaInTime : Option Crl → Type 0
  DeltaInTime none = Unit
  DeltaInTime (some delta) = (0 < delta.next_update) × (e.now_at_delta ≤ delta.next_update)

  delta-InTime :
      (delta : Option Crl) (checked : Option (Unit {0}))
      → if_present (λ (crl : Crl). check_expiry e.now_at_delta crl.next_update) delta ≡ ok checked
      → DeltaInTime delta
  delta-InTime none checked h = tt
  delta-InTime (some delta) checked h =
      let (u, here, h) = >>=-eq-ok (check_expiry e.now_at_delta delta.next_update) _ h in
      check_expiry-InTime e.now_at_delta delta.next_update u here

  -- A bundle that the cache returns has a base list, and none of its lists is over: each has a time of
  -- the next update, and that is not before the time of the check.
  pub get_sound :
      (disk : Disk) (url : String) (bundle : Bundle)
      → get e disk url ≡ ok bundle
      → (base : Crl) × (bundle.base_crl ≡ some base)
        × (0 < base.next_update)
        × (e.now_at_base ≤ base.next_update)
        × DeltaInTime bundle.delta_crl
  unfolding get
  get_sound disk url bundle h =
      let (text, _, h) = >>=-eq-ok (read_content e (e.read_file disk (e.file_name url))) _ h in
      let (content, _, h) = >>=-eq-ok (or_error decode_failed (e.unmarshal text)) _ h in
      let (base, _, h) =
        >>=-eq-ok (or_error base_malformed (e.parse_revocation_list content.base_crl)) _ h in
      let (delta, _, h) =
        >>=-eq-ok
          (if_present (λ raw. or_error delta_malformed (e.parse_revocation_list raw))
            content.delta_crl)
          _ h in
      let (u, in_time, h) = >>=-eq-ok (check_expiry e.now_at_base base.next_update) _ h in
      let (checked, delta_in_time, h) =
        >>=-eq-ok (if_present (λ (crl : Crl). check_expiry e.now_at_delta crl.next_update) delta) _
          h in
      let (some_time, later) = check_expiry-InTime e.now_at_base base.next_update u in_time in
      subst
        (λ (b : Bundle).
          (base : Crl) × (b.base_crl ≡ some base)
          × (0 < base.next_update)
          × (e.now_at_base ≤ base.next_update)
          × DeltaInTime b.delta_crl)
        (ok_inj h) (base, refl, some_time, later, delta-InTime delta checked delta_in_time)
