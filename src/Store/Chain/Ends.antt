-- ===== src/Store/Chain/Ends.antt =====
-- The loop of `snapshotChainWithDigests` of internal/osix/store.go ends: its fuel is enough.
use mathlib.Core.Path.{subst}
use smol_agent_oci_fs.Base.{
  ℕ, zero, suc, ◌+◌, ◌≤◌, Bytes, true, List, [], ◌∷◌, length, eqb, eqb→eq, eqb_refl, elem, any,
  any_found, lookup, Option, some, ◌≡◌, ◌≢◌, refl, arith, ap, ◌∙◌, sym, All, All-map, Bool-cases,
  Option-cases, inl, inr,
}
use smol_agent_oci_fs.Store.Refs.{Refs}
use smol_agent_oci_fs.Store.Chain.{
  Manifest, AgentConfig, SnapshotChainItem, Blobs, and_then, hex_of, read_blob, load_manifest, Walk,
  out_of_fuel, add_item, reversed, walk, snapshot_chain_with_digests,
}
use smol_agent_oci_fs.Store.Chain.Loading.{load_manifest-IsLoaded}
use smol_agent_oci_fs.Store.Chain.Counting.{is_there, AreDistinct, AreThere, length-AreThere}

add_item_ends :
    (item : SnapshotChainItem) (w : Walk) → w ≢ out_of_fuel → add_item item w ≢ out_of_fuel
add_item_ends item w h e = ground (arith, e, h)

reversed_ends : (w : Walk) → w ≢ out_of_fuel → reversed w ≢ out_of_fuel
reversed_ends w h e = ground (arith, e, h)

module _ (sha256 : Bytes → Bytes) (parse_manifest : Bytes → Option Manifest)
    (parse_config : Bytes → Option AgentConfig) (refs : Refs) (blobs : Blobs) where
  abbrev load : Bytes → Option SnapshotChainItem
  load = load_manifest sha256 parse_manifest parse_config refs blobs

  abbrev go_on : ℕ → List Bytes → Bytes → Walk
  go_on fuel seen digest = walk sha256 parse_manifest parse_config fuel refs blobs seen digest

  abbrev key : SnapshotChainItem → Bytes
  key item = hex_of item.manifest.config

  -- The parent that the configuration in a file names.
  abbrev parent_at : Bytes → Option Bytes
  parent_at k =
      and_then (lookup k blobs) λ file. and_then (parse_config file) λ config. config.parent

  read_blob_file :
      (digest file : Bytes)
      → read_blob sha256 parse_manifest parse_config blobs digest ≡ some file
      → lookup (hex_of digest) blobs ≡ some file
  unfolding read_blob
  read_blob_file digest file h = ground (arith, h)

  load_key :
      (digest : Bytes) (item : SnapshotChainItem)
      → load digest ≡ some item
      → (is_there (lookup (key item) blobs) ≡ true) × (parent_at (key item) ≡ item.config.parent)
  load_key digest item h =
      let l = load_manifest-IsLoaded sha256 parse_manifest parse_config refs blobs digest item h in
      let there = read_blob_file item.manifest.config l.config_file l.config_read in
      (ap is_there there, rw there (rw (l.config_parsed) refl))

  module _ (seen : List Bytes) (digest : Bytes) where
    -- The parent that a used file names has been seen or comes next.
    abbrev Follows : Bytes → Type 0
    Follows k = (p : Bytes) → parent_at k ≡ some p → elem p (digest ∷ seen) ≡ true

  walk_seen :
      (fuel : ℕ) (seen : List Bytes) (p : Bytes)
      → elem p seen ≡ true
      → 1 ≤ fuel
      → go_on fuel seen p ≢ out_of_fuel
  unfolding walk
  walk_seen zero seen p h l e = omega arith
  walk_seen (suc fuel) seen p h l e = elim (Bool-cases (eqb p [])) [
    | inl y ↦ absurd (ground (arith, y, e))
    | inr n ↦ absurd (ground (arith, n, h, e))
  ]

  Follows-more :
      (seen : List Bytes) (digest p k : Bytes) → Follows seen digest k → Follows (digest ∷ seen) p k
  unfolding elem any
  Follows-more seen digest p k f q e = ground (arith, f q e)

  Follows-found :
      (seen : List Bytes) (digest k : Bytes) (ks : List Bytes)
      → All (Follows seen digest) ks
      → elem k ks ≡ true
      → Follows seen digest k
  unfolding elem
  Follows-found seen digest k ks h e =
      let (x, f, same) = any_found (Follows seen digest) (eqb k) ks h e in
      subst (Follows seen digest) (sym (eqb→eq k x same)) f

  comes_next : (seen : List Bytes) (p q : Bytes) → some p ≡ some q → elem q (p ∷ seen) ≡ true
  unfolding elem any
  comes_next seen p q e = let same : p ≡ q = cc in ground (arith, ap (eqb q) same, eqb_refl q)

  -- With a unit of fuel for each file that is not used yet and two more, the loop ends.
  walk_ends :
      (fuel : ℕ) (seen : List Bytes) (digest : Bytes) (ks : List Bytes)
      → AreDistinct ks
      → AreThere blobs ks
      → All (Follows seen digest) ks
      → length blobs + 2 ≤ fuel + length ks
      → go_on fuel seen digest ≢ out_of_fuel
  unfolding walk
  walk_ends zero seen digest ks d t f l e = omega (arith, length-AreThere blobs ks d t)
  walk_ends (suc fuel) seen digest ks d t f l e = elim (Bool-cases (eqb digest [])) [
    | inl y ↦ absurd (ground (arith, y, e))
    | inr named ↦ elim (Bool-cases (elem digest seen)) [
      | inl y ↦ absurd (ground (arith, named, y, e))
      | inr unseen ↦ elim (Option-cases (load digest)) [
        | inl missing ↦ absurd (ground (arith, named, unseen, missing, e))
        | inr (item, loaded) ↦ elim (Option-cases item.config.parent) [
          | inl root ↦ absurd (ground (arith, named, unseen, loaded, root, e))
          | inr (p, has) ↦
              let (there, parent) = load_key digest item loaded in
              let k = key item in
              let ends : go_on fuel (digest ∷ seen) p ≢ out_of_fuel =
                elim (Bool-cases (elem k ks)) [
                  | inl used ↦
                      walk_seen fuel (digest ∷ seen) p
                        (Follows-found seen digest k ks f used p (parent ∙ has))
                        (omega (arith, length-AreThere blobs ks d t, l))
                  | inr unused ↦
                      walk_ends fuel (digest ∷ seen) p (k ∷ ks) (unused, d) (there, t)
                        (
                          λ q e. comes_next (digest ∷ seen) p q (sym (parent ∙ has) ∙ e),
                          All-map (Follows seen digest) (Follows (digest ∷ seen) p) ks
                              (λ j h. Follows-more seen digest p j h) f,
                        )
                        (omega (arith, l))
                ] in
              add_item_ends item (go_on fuel (digest ∷ seen) p) ends
                (ground (arith, named, unseen, loaded, has, e))
        ]
      ]
    ]
  ]

  -- The chain of a snapshot is found or refused: the fuel, two more than the files of the store, is
  -- never used up, whatever the manifests, the configurations and the references say.
  pub snapshot_chain_with_digests_ends :
      (digest : Bytes)
      → snapshot_chain_with_digests sha256 parse_manifest parse_config refs blobs digest
        ≢ out_of_fuel
  unfolding snapshot_chain_with_digests
  snapshot_chain_with_digests_ends digest =
      reversed_ends (go_on (length blobs + 2) [] digest)
        (walk_ends (length blobs + 2) [] digest [] tt tt tt (omega arith))
