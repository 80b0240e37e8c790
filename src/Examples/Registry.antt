-- ===== src/Examples/Registry.antt =====
-- Pushes and signed payloads of internal/osix at inputs.
use smol_agent_oci_fs.Base.{
  Bytes, codes, List, any, ◌||◌, if◌then◌else◌, [], ◌∷◌, eqb, has_prefix, trim_space, trim_left,
  none, some, ◌≡◌, ◌⊎◌, refl,
}
use smol_agent_oci_fs.Base.Decimal.{decimal, decimal_onto}
use smol_agent_oci_fs.Registry.{
  Remote, current, no_manifest, conflict, check_tags, check_remote_tag_preconditions, Descriptor,
  has_descriptor, merge_descriptors,
}
use smol_agent_oci_fs.Registry.Push.{
  check_remote_tag_preconditions_fit, merge_descriptors_merges, HasUniqueDigests, Extends,
}
use smol_agent_oci_fs.Signing.{dsse_pae}
use smol_agent_oci_fs.Signing.Unambiguous.{dsse_pae_injective}

abbrev remote_tags : Bytes → Remote
remote_tags tag = if eqb tag (codes "main") then current (codes "sha256:1") else no_manifest

passed_test :
    check_remote_tag_preconditions remote_tags
      (codes "s-2" ∷ codes "main" ∷ [])
      (codes "s-2")
      (codes "sha256:2")
      (codes "sha256:1 ")
    ≡ none
unfolding check_remote_tag_preconditions check_tags eqb has_prefix trim_space trim_left
passed_test = refl

refused_test :
    check_remote_tag_preconditions remote_tags
      (codes "main" ∷ [])
      (codes "s-2")
      (codes "sha256:2")
      (codes "sha256:0")
    ≡ some (conflict (codes "main") (codes "sha256:1"))
unfolding check_remote_tag_preconditions check_tags eqb has_prefix trim_space trim_left
refused_test = refl

check_remote_tag_preconditions_fit_example :
    (remote_tags (codes "main") ≡ current (codes "sha256:2"))
    ⊎ (remote_tags (codes "main") ≡ current (trim_space (codes "sha256:1 ")))
unfolding eqb has_prefix trim_space trim_left
check_remote_tag_preconditions_fit_example =
    check_remote_tag_preconditions_fit remote_tags (codes "s-2") (codes "sha256:2")
      (codes "s-2" ∷ []) [] (codes "main") (codes "sha256:1 ") refl refl passed_test

abbrev descriptor : Bytes → Descriptor
descriptor digest = record { media_type = codes "m"; digest = digest; size = 1 }

abbrev here_list : List Descriptor
here_list = descriptor (codes "a") ∷ []

abbrev more_list : List Descriptor
more_list = descriptor (codes "a") ∷ descriptor (codes "b") ∷ []

merge_descriptors_merges_example :
    HasUniqueDigests (merge_descriptors here_list more_list)
    × Extends here_list more_list (merge_descriptors here_list more_list)
    × ((digest : Bytes)
        → has_descriptor (merge_descriptors here_list more_list) digest
          ≡ (has_descriptor here_list digest || has_descriptor more_list digest))
unfolding has_descriptor any
merge_descriptors_merges_example = merge_descriptors_merges here_list more_list (refl, tt)

dsse_pae_injective_example : (codes "t" ≡ codes "t") × (codes "1 x" ≡ codes "1 x")
dsse_pae_injective_example =
    dsse_pae_injective (codes "t") (codes "t") (codes "1 x") (codes "1 x") refl

dsse_pae_test : dsse_pae (codes "http") (codes "a b") ≡ codes "DSSEv1 4 http 3 a b"
unfolding dsse_pae decimal decimal_onto
dsse_pae_test = refl
