-- ===== src/Registry/Push.antt =====
-- What a push of internal/osix/registry.go replaces, and the descriptors that it merges.
use mathlib.Core.List.{append-nil, Memᴰ, append_assoc}
use mathlib.Core.List.Memᴰ.{head, tail}
use smol_agent_oci_fs.Base.{
  Bytes, true, false, ◌||◌, if◌then◌else◌, List, [], ◌∷◌, ◌++◌, eqb, eqb→eq, eqb_refl, eq_of_iff,
  All, any, any-append, trim_space, none, Bool-cases, inl, inr, ◌≡◌, ◌⊎◌, refl, arith, ap, ◌∙◌, sym,
}
use smol_agent_oci_fs.Registry.{
  Remote, current, no_manifest, unreachable, is_exempt, check_tags, check_remote_tag_preconditions,
  Descriptor, has_descriptor, merge_descriptors,
}

module _ (get_manifest : Bytes → Remote) (snapshot_id new_digest : Bytes) where
  abbrev IsFit : Bytes → Bytes → Type 0
  IsFit expected tag =
      (get_manifest tag ≡ current new_digest) ⊎ (get_manifest tag ≡ current expected)

  IsFit-of :
      (expected tag digest : Bytes)
      → get_manifest tag ≡ current digest
      → (eqb digest new_digest ≡ true) ⊎ (eqb digest expected ≡ true)
      → IsFit expected tag
  IsFit-of expected tag digest e (inl y) = inl (e ∙ ap current (eqb→eq digest new_digest y))
  IsFit-of expected tag digest e (inr y) = inr (e ∙ ap current (eqb→eq digest expected y))

  checked_first :
      (expected tag : Bytes) (tags : List Bytes)
      → is_exempt snapshot_id tag ≡ false
      → check_tags get_manifest (tag ∷ tags) snapshot_id new_digest expected ≡ none
      → IsFit expected tag
  unfolding check_tags
  checked_first expected tag tags n h = go (get_manifest tag) refl
    where
      go : (r : Remote) → get_manifest tag ≡ r → IsFit expected tag
      go no_manifest e = absurd (ground (arith, n, h, e))
      go unreachable e = absurd (ground (arith, n, h, e))
      go (current digest) e = elim (Bool-cases (eqb digest new_digest)) [
        | inl y ↦ IsFit-of expected tag digest e (inl y)
        | inr other ↦ IsFit-of expected tag digest e (inr (ground (arith, n, h, e, other)))
      ]

  checked_rest :
      (expected tag : Bytes) (tags : List Bytes)
      → check_tags get_manifest (tag ∷ tags) snapshot_id new_digest expected ≡ none
      → check_tags get_manifest tags snapshot_id new_digest expected ≡ none
  unfolding check_tags
  checked_rest expected tag tags h = ground (arith, h)

  checked_each :
      (expected : Bytes) (before after : List Bytes) (tag : Bytes)
      → is_exempt snapshot_id tag ≡ false
      → check_tags get_manifest (before ++ (tag ∷ after)) snapshot_id new_digest expected ≡ none
      → IsFit expected tag
  checked_each expected [] after tag n h = checked_first expected tag after n h
  checked_each expected (t ∷ before) after tag n h =
      checked_each expected before after tag n (checked_rest expected t (before ++ (tag ∷ after)) h)

  -- Where a push expects a parent and the check passes, each tag that is checked has the new
  -- digest already or the digest that is expected.
  pub check_remote_tag_preconditions_fit :
      (before after : List Bytes) (tag expected_parent : Bytes)
      → eqb (trim_space expected_parent) [] ≡ false
      → is_exempt snapshot_id tag ≡ false
      → check_remote_tag_preconditions get_manifest
          (before ++ (tag ∷ after))
          snapshot_id
          new_digest
          expected_parent
        ≡ none
      → (get_manifest tag ≡ current new_digest)
        ⊎ (get_manifest tag ≡ current (trim_space expected_parent))
  unfolding check_remote_tag_preconditions
  check_remote_tag_preconditions_fit before after tag expected_parent there n h =
      checked_each (trim_space expected_parent) before after tag n (ground (arith, there, h))

-- A descriptor that is there already is not added, which its digest cannot tell.
has_descriptor-add :
    (out : List Descriptor) (desc : Descriptor) (digest : Bytes)
    → has_descriptor (if has_descriptor out desc.digest then out else out ++ (desc ∷ [])) digest
      ≡ (has_descriptor out digest || eqb desc.digest digest)
unfolding has_descriptor any
has_descriptor-add out desc digest = elim (Bool-cases (has_descriptor out desc.digest)) [
  | inl y ↦ rw y (elim (Bool-cases (eqb desc.digest digest)) [
    | inl same ↦
        let there : has_descriptor out digest ≡ true =
          ap (has_descriptor out) (sym (eqb→eq desc.digest digest same)) ∙ y in
        ground (arith, there, same)
    | inr other ↦ ground (arith, other)
  ])
  | inr n ↦
      rw n (any-append (λ (d : Descriptor). eqb d.digest digest) out (desc ∷ []) ∙ ground arith)
]

-- No two descriptors have the same digest.
abbrev pub HasUniqueDigests : List Descriptor → Type 0
HasUniqueDigests [] = Unit
HasUniqueDigests (desc ∷ descs) =
    (has_descriptor descs desc.digest ≡ false) × HasUniqueDigests descs

has_descriptor-merge_descriptors :
    (out descs : List Descriptor) (digest : Bytes)
    → has_descriptor (merge_descriptors out descs) digest
      ≡ (has_descriptor out digest || has_descriptor descs digest)
unfolding merge_descriptors has_descriptor any
has_descriptor-merge_descriptors out [] digest = ground arith
has_descriptor-merge_descriptors out (desc ∷ descs) digest =
    has_descriptor-merge_descriptors
      (if has_descriptor out desc.digest then out else out ++ (desc ∷ [])) descs digest
    ∙ ground (arith, has_descriptor-add out desc digest)

eqb_sym : (s t : Bytes) → eqb s t ≡ eqb t s
eqb_sym s t = eq_of_iff (eqb s t) (eqb t s) (flip s t) (flip t s)
  where
    flip : (s t : Bytes) → eqb s t ≡ true → eqb t s ≡ true
    flip s t h = ap (eqb t) (eqb→eq s t h) ∙ eqb_refl t

HasUniqueDigests-append :
    (out : List Descriptor) (desc : Descriptor)
    → HasUniqueDigests out
    → has_descriptor out desc.digest ≡ false
    → HasUniqueDigests (out ++ (desc ∷ []))
unfolding has_descriptor any
HasUniqueDigests-append [] desc u n = (refl, tt)
HasUniqueDigests-append (d ∷ out) desc u n = (
  any-append (λ (e : Descriptor). eqb e.digest d.digest) out (desc ∷ [])
      ∙ ground (arith, u.0, n, eqb_sym d.digest desc.digest),
  HasUniqueDigests-append out desc u.1 (ground (arith, n)),
)

-- The first list, and after it descriptors of the second.
abbrev pub Extends : List Descriptor → List Descriptor → List Descriptor → Type 0
Extends out descs merged =
    (added : List Descriptor) × (merged ≡ out ++ added) × All (λ d. Memᴰ d descs) added

All-tail :
    (desc : Descriptor) (descs added : List Descriptor)
    → All (λ d. Memᴰ d descs) added
    → All (λ d. Memᴰ d (desc ∷ descs)) added
All-tail desc descs [] h = tt
All-tail desc descs (d ∷ added) h = (tail h.0, All-tail desc descs added h.1)

Extends-step :
    (out : List Descriptor) (desc : Descriptor) (descs merged : List Descriptor)
    → Extends (if has_descriptor out desc.digest then out else out ++ (desc ∷ [])) descs merged
    → Extends out (desc ∷ descs) merged
Extends-step out desc descs merged (added, at, from) =
    elim (Bool-cases (has_descriptor out desc.digest)) [
      | inl y ↦ (added, rw y at at, All-tail desc descs added from)
      | inr n ↦ (
        desc ∷ added,
        (rw n at at) ∙ append_assoc out (desc ∷ []) added,
        (head refl, All-tail desc descs added from),
      )
    ]

Extends-merge_descriptors :
    (out descs : List Descriptor) → Extends out descs (merge_descriptors out descs)
unfolding merge_descriptors
Extends-merge_descriptors out [] = ([], sym (append-nil out), tt)
Extends-merge_descriptors out (desc ∷ descs) =
    let next = if has_descriptor out desc.digest then out else out ++ (desc ∷ []) in
    Extends-step out desc descs (merge_descriptors next descs)
      (Extends-merge_descriptors next descs)

merge_descriptors-HasUniqueDigests :
    (out descs : List Descriptor)
    → HasUniqueDigests out
    → HasUniqueDigests (merge_descriptors out descs)
unfolding merge_descriptors
merge_descriptors-HasUniqueDigests out [] u = u
merge_descriptors-HasUniqueDigests out (desc ∷ descs) u =
    merge_descriptors-HasUniqueDigests
      (if has_descriptor out desc.digest then out else out ++ (desc ∷ [])) descs
      (elim (Bool-cases (has_descriptor out desc.digest)) [
        | inl y ↦ rw y u
        | inr n ↦ rw n (HasUniqueDigests-append out desc u n)
      ])

-- Where no two descriptors of the first list have the same digest, none of the merged list have;
-- it is the first list, and after it descriptors of the second; and it has every digest that one
-- of the two has, and no other.
pub merge_descriptors_merges :
    (out descs : List Descriptor)
    → HasUniqueDigests out
    → HasUniqueDigests (merge_descriptors out descs)
      × Extends out descs (merge_descriptors out descs)
      × ((digest : Bytes)
          → has_descriptor (merge_descriptors out descs) digest
            ≡ (has_descriptor out digest || has_descriptor descs digest))
merge_descriptors_merges out descs u = (
  merge_descriptors-HasUniqueDigests out descs u,
  Extends-merge_descriptors out descs,
  has_descriptor-merge_descriptors out descs,
)
