-- ===== src/Examples/Compact.antt =====
-- Chains and the pruning of internal/osix/store.go and compact.go on a store of two snapshots.
use smol_agent_oci_fs.Base.{
  Bytes, codes, Bool, true, if◌then◌else◌, List, [], ◌∷◌, ◌++◌, eqb, elem, any, has_prefix,
  trim_prefix, trim_space, trim_left, lookup, keep_keys, Option, none, some, ◌≡◌, ◌≢◌, refl, All,
}
use smol_agent_oci_fs.Store.Refs.{is_digest, all_hex, safe_ref_name, replace_separators}
use smol_agent_oci_fs.Store.Chain.{
  Manifest, AgentConfig, SnapshotChainItem, Blobs, hex_of, resolve_ref, read_blob, load_manifest,
  out_of_fuel, chain, walk, snapshot_chain_with_digests,
}
use smol_agent_oci_fs.Store.Chain.Ends.{snapshot_chain_with_digests_ends}
use smol_agent_oci_fs.Compact.{
  RefFiles, Ref, unsafe_ref_name, list_refs, blobs_of_items, chain_of, delete_set, candidate_blobs,
  reachable_from, reachable_blob_digests, prune_refs, prune_blobs, prune_local_snapshots,
}
use smol_agent_oci_fs.Compact.Kept.{NamesAlgorithm, read}
use smol_agent_oci_fs.Compact.Reachable.{pruned, chosen, prune_local_snapshots_keeps}

abbrev named : Bytes → Bytes
named h = codes "sha256:" ++ h

abbrev m1 : Bytes
m1 = codes "1111111111111111111111111111111111111111111111111111111111111111"

abbrev m2 : Bytes
m2 = codes "2222222222222222222222222222222222222222222222222222222222222222"

abbrev c1 : Bytes
c1 = codes "aaaaaaaaaaaaaaaaaaaaaaaaaaaaaaaaaaaaaaaaaaaaaaaaaaaaaaaaaaaaaaaa"

abbrev c2 : Bytes
c2 = codes "bbbbbbbbbbbbbbbbbbbbbbbbbbbbbbbbbbbbbbbbbbbbbbbbbbbbbbbbbbbbbbbb"

-- Each content is its own sum.
abbrev own_sum : Bytes → Bytes
own_sum content = content

abbrev manifests : Bytes → Option Manifest
manifests file =
    if eqb file m1
    then some (record { config = named c1; layers = [] })
    else if eqb file m2
    then some (record { config = named c2; layers = [] })
    else none

abbrev configs : Bytes → Option AgentConfig
configs file =
    if eqb file c1
    then some (record { parent = none; base = []; sequence = 1 })
    else if eqb file c2
    then some (record { parent = some (named m1); base = []; sequence = 2 })
    else none

abbrev two_snapshots : Blobs
two_snapshots = (m1, m1) ∷ (c1, c1) ∷ (m2, m2) ∷ (c2, c2) ∷ []

abbrev ref_files : RefFiles
ref_files = (codes "main", named m2) ∷ (codes "old", named m1) ∷ []

abbrev first_item : SnapshotChainItem
first_item = record {
  digest = named m1;
  manifest = record { config = named c1; layers = [] };
  config = record { parent = none; base = []; sequence = 1 };
}

abbrev second_item : SnapshotChainItem
second_item = record {
  digest = named m2;
  manifest = record { config = named c2; layers = [] };
  config = record { parent = some (named m1); base = []; sequence = 2 };
}

snapshot_chain_with_digests_ends_example :
    snapshot_chain_with_digests own_sum manifests configs (λ q. none) two_snapshots (named m2)
    ≢ out_of_fuel
snapshot_chain_with_digests_ends_example =
    snapshot_chain_with_digests_ends own_sum manifests configs (λ q. none) two_snapshots (named m2)

abbrev always : Bytes → Bool
always path = true

abbrev as_given : List Bytes → List Bytes
as_given ds = ds

abbrev old_only : List Bytes
old_only = named m1 ∷ []

abbrev main_ref : Ref
main_ref = record { name = codes "main"; digest = named m2 }

-- The reference of the old snapshot is removed.
left_test :
    list_refs (pruned own_sum manifests configs always as_given old_only ref_files two_snapshots).0
    ≡ main_ref ∷ []
unfolding list_refs unsafe_ref_name prune_local_snapshots delete_set prune_refs candidate_blobs
    prune_blobs reachable_blob_digests reachable_from blobs_of_items keep_keys lookup load_manifest
    resolve_ref read_blob hex_of snapshot_chain_with_digests walk is_digest all_hex safe_ref_name
    replace_separators trim_space trim_left trim_prefix has_prefix eqb elem any
left_test = refl

chosen_test :
    All NamesAlgorithm
      (chosen own_sum manifests configs always as_given old_only ref_files two_snapshots)
unfolding list_refs unsafe_ref_name prune_local_snapshots delete_set prune_refs candidate_blobs
    prune_blobs reachable_blob_digests reachable_from blobs_of_items keep_keys lookup load_manifest
    resolve_ref read_blob hex_of snapshot_chain_with_digests walk is_digest all_hex safe_ref_name
    replace_separators trim_space trim_left trim_prefix has_prefix eqb elem any
chosen_test = (refl, (refl, tt))

chain_test :
    chain_of own_sum manifests configs
      (pruned own_sum manifests configs always as_given old_only ref_files two_snapshots).0
      two_snapshots
      (named m2)
    ≡ chain (first_item ∷ second_item ∷ [])
unfolding list_refs unsafe_ref_name prune_local_snapshots delete_set prune_refs candidate_blobs
    prune_blobs reachable_blob_digests reachable_from blobs_of_items keep_keys lookup load_manifest
    resolve_ref read_blob hex_of snapshot_chain_with_digests walk is_digest all_hex safe_ref_name
    replace_separators trim_space trim_left trim_prefix has_prefix eqb elem any
chain_test = refl

-- The blob of the old snapshot stays, since the chain of the other reference needs it.
prune_local_snapshots_keeps_example :
    (chain_of own_sum manifests configs
        (pruned own_sum manifests configs always as_given old_only ref_files two_snapshots).0
        (pruned own_sum manifests configs always as_given old_only ref_files two_snapshots).1
        (named m2)
      ≡ chain (first_item ∷ second_item ∷ []))
    × (read own_sum manifests configs
          (pruned own_sum manifests configs always as_given old_only ref_files two_snapshots).1
          (named m1)
        ≡ some m1)
unfolding blobs_of_items elem any eqb read_blob is_digest all_hex hex_of trim_prefix has_prefix
    lookup
prune_local_snapshots_keeps_example =
    prune_local_snapshots_keeps own_sum manifests configs always as_given old_only ref_files
      two_snapshots [] [] main_ref (first_item ∷ second_item ∷ []) (named m1) m1 left_test
      chosen_test chain_test refl refl
