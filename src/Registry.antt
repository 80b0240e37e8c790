-- ===== src/Registry.antt =====
-- Parts of internal/osix/registry.go that decide without the network: `checkRemoteTagPreconditions`,
-- for what the registry answers for each tag, `mergeDescriptors` and `registryBaseURLWithScheme`; and
-- `uniqueTags` of snapshot.go.
pub mod Push
use smol_agent_oci_fs.Base.{
  ℕ, Bytes, codes, Bool, true, false, not, ◌&&◌, ◌||◌, ◌==◌, if◌then◌else◌, List, [], ◌∷◌, ◌++◌,
  eqb, elem, any, has_prefix, has_suffix, contains, trim_space, Option, none, some,
}
use smol_agent_oci_fs.SideEffects.Decision.{to_lower}

-- What `getManifest` gives for a tag: the digest, that there is none, or another error.
pub data Remote : Type 0 where
  current : Bytes → Remote
  no_manifest : Remote
  unreachable : Remote

-- RemoteBranchConflictError, with a missing tag apart, and the error of a failed request.
pub data PushError : Type 0 where
  conflict : Bytes → Bytes → PushError
  conflict_missing : Bytes → PushError
  not_checked : Bytes → PushError

-- The tags that are not checked.
abbrev pub is_exempt : Bytes → Bytes → Bool
is_exempt snapshot_id tag = eqb tag [] || eqb tag snapshot_id || has_prefix tag (codes "sha256:")

module _ (get_manifest : Bytes → Remote) where
  unfoldable pub check_tags : List Bytes → Bytes → Bytes → Bytes → Option PushError
  check_tags [] snapshot_id new_digest expected = none
  check_tags (tag ∷ tags) snapshot_id new_digest expected =
      let rest = check_tags tags snapshot_id new_digest expected in
      if is_exempt snapshot_id tag then rest else elim (get_manifest tag) [
        | no_manifest ↦ some (conflict_missing tag)
        | unreachable ↦ some (not_checked tag)
        | current digest ↦
            if eqb digest new_digest
            then rest
            else if not (eqb digest expected)
            then some (conflict tag digest)
            else rest
      ]

  -- `none` is no error.
  unfoldable pub check_remote_tag_preconditions :
      List Bytes → Bytes → Bytes → Bytes → Option PushError
  unfolding check_tags
  check_remote_tag_preconditions tags snapshot_id new_digest expected_parent =
      let expected = trim_space expected_parent in
      if eqb expected [] then none else check_tags tags snapshot_id new_digest expected

-- Descriptor of types.go, without the artifact type and the annotations.
pub record Descriptor : Type 0 where
  pub media_type : Bytes
  pub digest : Bytes
  pub size : ℕ

unfoldable pub has_descriptor : List Descriptor → Bytes → Bool
unfolding any
has_descriptor descs digest = any (λ desc. eqb desc.digest digest) descs

unfoldable pub merge_descriptors : List Descriptor → List Descriptor → List Descriptor
unfolding has_descriptor
merge_descriptors out [] = out
merge_descriptors out (desc ∷ descs) =
    merge_descriptors (if has_descriptor out desc.digest then out else out ++ (desc ∷ [])) descs

-- The loop of `uniqueTags`, with the set `seen`.
unfoldable pub unique_from : List Bytes → List Bytes → List Bytes
unique_from seen [] = []
unique_from seen (given ∷ tags) = elim (eqb (trim_space given) [] || elem (trim_space given) seen) [
  | true ↦ unique_from seen tags
  | false ↦ trim_space given ∷ unique_from (trim_space given ∷ seen) tags
]

unfoldable pub unique_tags : List Bytes → List Bytes
unfolding unique_from
unique_tags tags = unique_from [] tags
