-- ===== src/Compact.antt =====
-- `pruneLocalSnapshots` and `reachableBlobDigests` of internal/osix/compact.go, with `listRefs` of
-- store.go. Whether os.Remove of a file succeeds is a parameter, and so is the order in which Go ranges
-- over the map of candidates. The names that the function returns are left out.
pub mod Plan
pub mod Kept
pub mod Reachable
use smol_agent_oci_fs.Base.{
  ℕ, Bytes, codes, Bool, true, false, not, ◌&&◌, ◌==◌, if◌then◌else◌, List, [], ◌∷◌, ◌++◌, map, eqb,
  elem, trim_space, lookup, keep_keys, Option, none, some,
}
use smol_agent_oci_fs.Store.Refs.{Refs, is_digest, safe_ref_name}
use smol_agent_oci_fs.Store.Chain.{
  Manifest, AgentConfig, SnapshotChainItem, Blobs, hex_of, load_manifest, Walk, out_of_fuel,
  parent_cycle, unreadable, chain, snapshot_chain_with_digests,
}

-- strings.ReplaceAll(name, "__", "/")
unfoldable pub unsafe_ref_name : Bytes → Bytes
unsafe_ref_name [] = []
unsafe_ref_name (a ∷ []) = a ∷ []
unsafe_ref_name (a ∷ b ∷ s) = elim (a == b'_' && b == b'_') [
  | true ↦ b'/' ∷ unsafe_ref_name s
  | false ↦ a ∷ unsafe_ref_name (b ∷ s)
]

pub record Ref : Type 0 where
  pub name : Bytes
  pub digest : Bytes

-- The files of the directory of references: their names and contents.
abbrev pub RefFiles : Type 0
RefFiles = List (Bytes × Bytes)

abbrev pub refs_of : RefFiles → Refs
refs_of files q = lookup q files

-- In the order of the files; `listRefs` sorts by name, which the functions here do not depend on.
unfoldable pub list_refs : RefFiles → List Ref
unfolding unsafe_ref_name
list_refs [] = []
list_refs ((path, content) ∷ files) =
    record { name = unsafe_ref_name path; digest = trim_space content } ∷ list_refs files

-- The digests that hold a snapshot: its manifest, its configuration and its layers.
abbrev pub blobs_of_item : SnapshotChainItem → List Bytes
blobs_of_item item = item.digest ∷ item.manifest.config ∷ item.manifest.layers

unfoldable pub blobs_of_items : List SnapshotChainItem → List Bytes
blobs_of_items [] = []
blobs_of_items (item ∷ items) = blobs_of_item item ++ blobs_of_items items

abbrev pub blobs_of_chain : Walk → List Bytes
blobs_of_chain (chain items) = blobs_of_items items
blobs_of_chain out_of_fuel = []
blobs_of_chain parent_cycle = []
blobs_of_chain unreadable = []

unfoldable pub delete_set : List Bytes → List Bytes
delete_set [] = []
delete_set (c ∷ cs) =
    let rest = delete_set cs in if eqb (trim_space c) [] then rest else trim_space c ∷ rest

-- The early returns: no candidate, and a reference that is not removed.
abbrev pub outcome :
    List Bytes → RefFiles × Bool → Blobs × Bool → RefFiles → Blobs → RefFiles × Blobs × Bool
outcome [] pruned left files blobs = (files, blobs, true)
outcome (d ∷ ds) (refs_left, false) left files blobs = (refs_left, blobs, false)
outcome (d ∷ ds) (refs_left, true) (blobs_left, done) files blobs = (refs_left, blobs_left, done)

module _ (sha256 : Bytes → Bytes) (parse_manifest : Bytes → Option Manifest)
    (parse_config : Bytes → Option AgentConfig) where
  abbrev pub chain_of : RefFiles → Blobs → Bytes → Walk
  chain_of files blobs digest =
      snapshot_chain_with_digests sha256 parse_manifest parse_config (refs_of files) blobs digest

  -- What is removed with a candidate.
  abbrev pub with_manifest : Bytes → Option SnapshotChainItem → List Bytes
  with_manifest digest none = digest ∷ []
  with_manifest digest (some item) = digest ∷ item.manifest.config ∷ item.manifest.layers

  unfoldable pub candidate_blobs : RefFiles → Blobs → List Bytes → List Bytes
  candidate_blobs files blobs [] = []
  candidate_blobs files blobs (d ∷ ds) =
      with_manifest d (load_manifest sha256 parse_manifest parse_config (refs_of files) blobs d)
      ++ candidate_blobs files blobs ds

  -- The loop of `reachableBlobDigests`.
  unfoldable pub reachable_from : RefFiles → Blobs → List Ref → List Bytes
  unfolding blobs_of_items
  reachable_from files blobs [] = []
  reachable_from files blobs (r ∷ rs) =
      r.digest ∷ (blobs_of_chain (chain_of files blobs r.digest) ++ reachable_from files blobs rs)

  unfoldable pub reachable_blob_digests : RefFiles → Blobs → List Bytes
  unfolding reachable_from list_refs
  reachable_blob_digests files blobs = reachable_from files blobs (list_refs files)

  module _ (can_remove : Bytes → Bool) (order : List Bytes → List Bytes) where
    -- The files that are left, and whether every removal succeeded.
    unfoldable pub prune_refs : List Bytes → List Ref → RefFiles → RefFiles × Bool
    prune_refs deleted [] files = (files, true)
    prune_refs deleted (r ∷ rs) files = elim (elem r.digest deleted) [
      | false ↦ prune_refs deleted rs files
      | true ↦ elim (can_remove (safe_ref_name r.name)) [
        | false ↦ (files, false)
        | true ↦
            prune_refs deleted rs (keep_keys (λ path. not (eqb path (safe_ref_name r.name))) files)
      ]
    ]

    unfoldable pub prune_blobs : List Bytes → List Bytes → Blobs → Blobs × Bool
    prune_blobs reachable [] blobs = (blobs, true)
    prune_blobs reachable (d ∷ ds) blobs = elim (elem d reachable) [
      | true ↦ prune_blobs reachable ds blobs
      | false ↦ elim (is_digest d && can_remove (hex_of d)) [
        | false ↦ (blobs, false)
        | true ↦ prune_blobs reachable ds (keep_keys (λ name. not (eqb name (hex_of d))) blobs)
      ]
    ]

    -- The references and the blobs that are left, and whether there is no error.
    unfoldable pub prune_local_snapshots : List Bytes → RefFiles → Blobs → RefFiles × Blobs × Bool
    unfolding delete_set candidate_blobs prune_refs prune_blobs reachable_blob_digests
    prune_local_snapshots candidates files blobs =
        let deleted = delete_set candidates in
        let pruned = prune_refs deleted (list_refs files) files in
        let left =
          prune_blobs (reachable_blob_digests pruned.0 blobs)
            (order (candidate_blobs files blobs deleted)) blobs in
        outcome deleted pruned left files blobs
