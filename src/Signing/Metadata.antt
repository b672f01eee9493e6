-- ===== src/Signing/Metadata.antt =====
-- notation.go: `addUserMetadataToDescriptor`, and the metadata check of the verifier.
use mathlib.Core.Path.{subst}
use notation_go_lib.Base.{
  String, ◌≡◌, inl, inr, refl, false, none, some, [], ◌∷◌, ok, >>=-eq-ok, ok_inj, All, arith,
  eq_iff, eq_refl, Bool-cases, Option-cases,
}
use notation_go_lib.Pkix.{StringMap}
use notation_go_lib.Verifier.Types.{Descriptor}
use notation_go_lib.Verifier.Checks.{find, verify_user_metadata}
use notation_go_lib.Verifier.Verify.Metadata.{HasMetadata, verify_user_metadata_iff}
use notation_go_lib.Signing.{
  has_reserved_prefix, reserved_annotation_prefixes, add_entries, add_user_metadata_to_descriptor,
}

find-still :
    (k' k v v' : String) (m : StringMap)
    → find m k' ≡ none
    → find m k ≡ some v
    → find ((k', v') ∷ m) k ≡ some v
unfolding find
find-still k' k v v' m new there = ground (arith, eq_iff k' k)

find-first : (k v : String) (m : StringMap) → find ((k, v) ∷ m) k ≡ some v
unfolding find
find-first k v m = rw (eq_refl k) refl

-- Entries that are added keep what was there.
add_entries_keeps :
    (annotations metadata merged : StringMap)
    → add_entries annotations metadata ≡ ok merged
    → (k v : String) → find annotations k ≡ some v
    → find merged k ≡ some v
unfolding add_entries
add_entries_keeps annotations [] merged h k v there =
    subst (λ m. find m k ≡ some v) (ok_inj h) there
add_entries_keeps annotations ((k', v') ∷ rest) merged h k v there =
    elim (Bool-cases (has_reserved_prefix k' reserved_annotation_prefixes)) [
      | inl reserved ↦ cc (rw (reserved, add_entries) at h)
      | inr free ↦ elim (Option-cases (find annotations k')) [
        | inr (old, present) ↦ cc (rw (free, present, add_entries) at h)
        | inl new ↦
            add_entries_keeps ((k', v') ∷ annotations) rest merged
              (rw (free, new, add_entries) at h) k v (find-still k' k v v' annotations new there)
      ]
    ]

-- Every entry is added, none with a reserved key, and none over an entry that was there.
abbrev pub IsAdded : StringMap → StringMap → String × String → Type 0
IsAdded annotations merged (k, v) =
    (find merged k ≡ some v)
    × (find annotations k ≡ none)
    × (has_reserved_prefix k reserved_annotation_prefixes ≡ false)

IsAdded-weaken :
    (k v k' v' : String) (annotations merged : StringMap)
    → IsAdded ((k', v') ∷ annotations) merged (k, v)
    → IsAdded annotations merged (k, v)
unfolding find
IsAdded-weaken k v k' v' annotations merged h = (h.0, ground (arith, h.1), h.2)

All-IsAdded-weaken :
    (k' v' : String) (annotations merged metadata : StringMap)
    → All (IsAdded ((k', v') ∷ annotations) merged) metadata
    → All (IsAdded annotations merged) metadata
All-IsAdded-weaken k' v' annotations merged [] h = tt
All-IsAdded-weaken k' v' annotations merged ((k, v) ∷ rest) h = (
  IsAdded-weaken k v k' v' annotations merged h.0,
  All-IsAdded-weaken k' v' annotations merged rest h.1,
)

add_entries-IsAdded :
    (annotations metadata merged : StringMap)
    → add_entries annotations metadata ≡ ok merged
    → All (IsAdded annotations merged) metadata
unfolding add_entries
add_entries-IsAdded annotations [] merged h = tt
add_entries-IsAdded annotations ((k', v') ∷ rest) merged h =
    elim (Bool-cases (has_reserved_prefix k' reserved_annotation_prefixes)) [
      | inl reserved ↦ cc (rw (reserved, add_entries) at h)
      | inr free ↦ elim (Option-cases (find annotations k')) [
        | inr (old, present) ↦ cc (rw (free, present, add_entries) at h)
        | inl new ↦
            let later = rw (free, new, add_entries) at h in
            (
              (
                add_entries_keeps ((k', v') ∷ annotations) rest merged later k' v'
                    (find-first k' v' annotations),
                new,
                free,
              ),
              All-IsAdded-weaken k' v' annotations merged rest
                  (add_entries-IsAdded ((k', v') ∷ annotations) rest merged later),
            )
      ]
    ]

-- Metadata that are added to a descriptor are all in its annotations, under keys that are not
-- reserved and were free; the annotations that were there stay, and so do the other fields.
pub add_user_metadata_sound :
    (desc merged : Descriptor) (metadata : StringMap)
    → add_user_metadata_to_descriptor desc metadata ≡ ok merged
    → All (IsAdded desc.annotations merged.annotations) metadata
      × ((k v : String) → find desc.annotations k ≡ some v → find merged.annotations k ≡ some v)
      × (merged ≡ record desc { annotations = merged.annotations })
unfolding add_user_metadata_to_descriptor
add_user_metadata_sound desc merged metadata h =
    let (annotations, added, same) = >>=-eq-ok (add_entries desc.annotations metadata) _ h in
    let is : record desc { annotations = annotations } ≡ merged = ok_inj same in
    subst
      (λ m.
        All (IsAdded desc.annotations m.annotations) metadata
        × ((k v : String) → find desc.annotations k ≡ some v → find m.annotations k ≡ some v)
        × (m ≡ record desc { annotations = m.annotations }))
      is
      (
        add_entries-IsAdded desc.annotations metadata annotations added,
        add_entries_keeps desc.annotations metadata annotations added,
        refl,
      )

IsAdded-HasMetadata :
    (annotations merged metadata : StringMap)
    → All (IsAdded annotations merged) metadata
    → HasMetadata merged metadata
IsAdded-HasMetadata annotations merged [] h = tt
IsAdded-HasMetadata annotations merged ((k, v) ∷ rest) h =
    (h.0.0, IsAdded-HasMetadata annotations merged rest h.1)

-- The metadata that are added when an artifact is signed pass the check of the verifier.
pub add_user_metadata-verify :
    (desc merged : Descriptor) (metadata : StringMap)
    → add_user_metadata_to_descriptor desc metadata ≡ ok merged
    → verify_user_metadata merged.annotations metadata ≡ none
add_user_metadata-verify desc merged metadata h =
    (verify_user_metadata_iff merged.annotations metadata).1 (
      IsAdded-HasMetadata desc.annotations merged.annotations metadata
        (add_user_metadata_sound desc merged metadata h).0)
