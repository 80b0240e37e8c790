-- ===== src/Compact/Reachable.antt =====
-- A reference that `pruneLocalSnapshots` of internal/osix/compact.go leaves keeps its whole chain.
use mathlib.Core.List.{reverse-cons}
use smol_agent_oci_fs.Base.{
  ℕ, zero, suc, ◌+◌, Bytes, Bool, true, false, ◌||◌, List, [], ◌∷◌, ◌++◌, length, reverse, eqb,
  eqb_refl, elem, any, any-append, Option, some, ◌≡◌, ◌⊎◌, refl, arith, ap, ◌∙◌, sym, All,
  Bool-cases, Option-cases, inl, inr,
}
use smol_agent_oci_fs.Store.Refs.{Refs}
use smol_agent_oci_fs.Store.Chain.{
  Manifest, AgentConfig, SnapshotChainItem, Blobs, load_manifest, Walk, out_of_fuel, parent_cycle,
  unreadable, chain, add_item, reversed, walk, snapshot_chain_with_digests,
}
use smol_agent_oci_fs.Store.Chain.Loading.{load_manifest-IsLoaded, IsLoaded-load_manifest}
use smol_agent_oci_fs.Store.Chain.Ends.{snapshot_chain_with_digests_ends}
use smol_agent_oci_fs.Compact.{
  RefFiles, refs_of, Ref, list_refs, blobs_of_item, blobs_of_items, blobs_of_chain, delete_set,
  chain_of, candidate_blobs, reachable_from, reachable_blob_digests, prune_refs, prune_blobs,
  outcome, prune_local_snapshots,
}
use smol_agent_oci_fs.Compact.Kept.{NamesAlgorithm, read, prune_blobs_keeps}

elem-append : (x : Bytes) (xs ys : List Bytes) → elem x (xs ++ ys) ≡ (elem x xs || elem x ys)
unfolding elem
elem-append x xs ys = any-append (eqb x) xs ys

elem_nil : (x : Bytes) → elem x [] ≡ false
unfolding elem any
elem_nil x = refl

elem-blobs_append :
    (x : Bytes) (xs ys : List SnapshotChainItem)
    → elem x (blobs_of_items (xs ++ ys))
      ≡ (elem x (blobs_of_items xs) || elem x (blobs_of_items ys))
unfolding blobs_of_items
elem-blobs_append x [] ys = unfold elem any in refl
elem-blobs_append x (item ∷ xs) ys =
    elem-append x (blobs_of_item item) (blobs_of_items (xs ++ ys))
    ∙ ground
        (arith, elem-blobs_append x xs ys, elem-append x (blobs_of_item item) (blobs_of_items xs))

-- A digest of the snapshots, in whatever order they stand.
elem-blobs_reverse :
    (x : Bytes) (items : List SnapshotChainItem)
    → elem x (blobs_of_items (reverse items)) ≡ elem x (blobs_of_items items)
unfolding blobs_of_items
elem-blobs_reverse x [] = refl
elem-blobs_reverse x (item ∷ items) = rw (reverse-cons item items) (
    elem-blobs_append x (reverse items) (item ∷ [])
    ∙ ground (
      arith,
      elem-blobs_reverse x items,
      elem_nil x,
      elem-append x (blobs_of_item item) [],
      elem-append x (blobs_of_item item) (blobs_of_items items),
    ))

add_item-chain :
    (item : SnapshotChainItem) (w : Walk) (items : List SnapshotChainItem)
    → add_item item w ≡ chain items
    → (rest : List SnapshotChainItem) × (w ≡ chain rest) × (items ≡ item ∷ rest)
add_item-chain item (chain rest) items h = (rest, refl, ground (arith, h))
add_item-chain item out_of_fuel items h = absurd (cc)
add_item-chain item parent_cycle items h = absurd (cc)
add_item-chain item unreadable items h = absurd (cc)

module _ (sha256 : Bytes → Bytes) (parse_manifest : Bytes → Option Manifest)
    (parse_config : Bytes → Option AgentConfig) (refs : Refs) (b b' : Blobs) where
  abbrev load : Blobs → Bytes → Option SnapshotChainItem
  load blobs d = load_manifest sha256 parse_manifest parse_config refs blobs d

  abbrev go_on : ℕ → Blobs → List Bytes → Bytes → Walk
  go_on fuel blobs seen d = walk sha256 parse_manifest parse_config fuel refs blobs seen d

  -- What can be read of the digests reads the same from the other store.
  abbrev Agrees : List Bytes → Type 0
  Agrees ds =
      (x content : Bytes)
      → elem x ds ≡ true
      → read sha256 parse_manifest parse_config b x ≡ some content
      → read sha256 parse_manifest parse_config b' x ≡ some content

  load-Agrees :
      (d : Bytes) (item : SnapshotChainItem)
      → Agrees (blobs_of_item item)
      → load b d ≡ some item
      → load b' d ≡ some item
  unfolding elem any
  load-Agrees d item a h =
      let l = load_manifest-IsLoaded sha256 parse_manifest parse_config refs b d item h in
      IsLoaded-load_manifest sha256 parse_manifest parse_config refs b' d item (record {
        manifest_file = l.manifest_file;
        config_file = l.config_file;
        resolved = l.resolved;
        manifest_read =
            a item.digest l.manifest_file (ground (arith, eqb_refl item.digest)) l.manifest_read;
        manifest_parsed = l.manifest_parsed;
        config_read =
            a item.manifest.config l.config_file (ground (arith, eqb_refl item.manifest.config))
              l.config_read;
        config_parsed = l.config_parsed;
      })

  abbrev SameOrShort : Walk → List SnapshotChainItem → Type 0
  SameOrShort w items = (w ≡ chain items) ⊎ (w ≡ out_of_fuel)

  add_item-SameOrShort :
      (item : SnapshotChainItem) (w : Walk) (items : List SnapshotChainItem)
      → SameOrShort w items
      → SameOrShort (add_item item w) (item ∷ items)
  add_item-SameOrShort item w items (inl e) = inl (rw e refl)
  add_item-SameOrShort item w items (inr e) = inr (rw e refl)

  first-Agrees :
      (item : SnapshotChainItem) (rest : List SnapshotChainItem)
      → Agrees (blobs_of_items (item ∷ rest))
      → Agrees (blobs_of_item item) × Agrees (blobs_of_items rest)
  unfolding blobs_of_items
  first-Agrees item rest a = (
    λ x content e h.
        a x content (elem-append x (blobs_of_item item) (blobs_of_items rest) ∙ ground (arith, e))
          h,
    λ x content e h.
        a x content (elem-append x (blobs_of_item item) (blobs_of_items rest) ∙ ground (arith, e))
          h,
  )

  walk-Agrees :
      (fuel fuel' : ℕ) (seen : List Bytes) (d : Bytes) (items : List SnapshotChainItem)
      → go_on fuel b seen d ≡ chain items
      → Agrees (blobs_of_items items)
      → SameOrShort (go_on fuel' b' seen d) items
  unfolding walk
  walk-Agrees zero fuel' seen d items h a = absurd (cc)
  walk-Agrees (suc fuel) zero seen d items h a = inr refl
  walk-Agrees (suc fuel) (suc fuel') seen d items h a = elim (Bool-cases (eqb d [])) [
    | inl y ↦ inl (ground (arith, y, h))
    | inr named ↦ elim (Bool-cases (elem d seen)) [
      | inl y ↦ absurd (ground (arith, named, y, h))
      | inr unseen ↦ elim (Option-cases (load b d)) [
        | inl missing ↦ absurd (ground (arith, named, unseen, missing, h))
        | inr (item, loaded) ↦ elim (Option-cases item.config.parent) [
          | inl root ↦
              let one : item ∷ [] ≡ items = ground (arith, named, unseen, loaded, root, h) in
              let a' = rw (sym one) at a in
              let loaded' = load-Agrees d item (first-Agrees item [] a').0 loaded in
              inl (ground (arith, named, unseen, loaded', root, one))
          | inr (p, has) ↦
              let stepped : add_item item (go_on fuel b (d ∷ seen) p) ≡ chain items =
                ground (arith, named, unseen, loaded, has, h) in
              let (rest, older, split) =
                add_item-chain item (go_on fuel b (d ∷ seen) p) items stepped in
              let (a_item, a_rest) = first-Agrees item rest (rw split at a) in
              let loaded' = load-Agrees d item a_item loaded in
              let next : go_on (suc fuel') b' seen d ≡ add_item item (go_on fuel' b' (d ∷ seen) p) =
                ground (arith, named, unseen, loaded', has) in
              rw (next, split)
                (add_item-SameOrShort item (go_on fuel' b' (d ∷ seen) p) rest
                  (walk-Agrees fuel fuel' (d ∷ seen) p rest older a_rest))
        ]
      ]
    ]
  ]

reversed-chain :
    (w : Walk) (items : List SnapshotChainItem)
    → reversed w ≡ chain items
    → (walked : List SnapshotChainItem) × (w ≡ chain walked) × (items ≡ reverse walked)
reversed-chain (chain walked) items h = (walked, refl, ground (arith, h))
reversed-chain out_of_fuel items h = absurd (cc)
reversed-chain parent_cycle items h = absurd (cc)
reversed-chain unreadable items h = absurd (cc)

module _ (sha256 : Bytes → Bytes) (parse_manifest : Bytes → Option Manifest)
    (parse_config : Bytes → Option AgentConfig) (files : RefFiles) (blobs : Blobs) where
  abbrev reachable : List Bytes
  reachable = reachable_blob_digests sha256 parse_manifest parse_config files blobs

  abbrev chain_in : Blobs → Bytes → Walk
  chain_in b digest = chain_of sha256 parse_manifest parse_config files b digest

  reachable_from-chain :
      (before after : List Ref) (r : Ref) (x : Bytes) (items : List SnapshotChainItem)
      → chain_in blobs r.digest ≡ chain items
      → elem x (blobs_of_items items) ≡ true
      → elem x
          (reachable_from sha256 parse_manifest parse_config files blobs (before ++ (r ∷ after)))
        ≡ true
  unfolding reachable_from elem any
  reachable_from-chain [] after r x items h e =
      let mine : elem x (blobs_of_chain (chain_in blobs r.digest)) ≡ true = rw h e in
      ground (
        arith,
        mine,
        elem-append x (blobs_of_chain (chain_in blobs r.digest))
            (reachable_from sha256 parse_manifest parse_config files blobs after),
      )
  reachable_from-chain (s ∷ before) after r x items h e = ground (
    arith,
    reachable_from-chain before after r x items h e,
    elem-append x (blobs_of_chain (chain_in blobs s.digest))
        (reachable_from sha256 parse_manifest parse_config files blobs (before ++ (r ∷ after))),
  )

  module _ (before after : List Ref) (r : Ref) (listed : list_refs files ≡ before ++ (r ∷ after))
      (items : List SnapshotChainItem) (walked : chain_in blobs r.digest ≡ chain items)
      (can_remove : Bytes → Bool) (order : List Bytes → List Bytes) (ds : List Bytes)
      (named : All NamesAlgorithm ds) where
    abbrev left : Blobs
    left = (prune_blobs sha256 parse_manifest parse_config can_remove order reachable ds blobs).0

    kept :
        (x content : Bytes)
        → elem x (blobs_of_items items) ≡ true
        → read sha256 parse_manifest parse_config blobs x ≡ some content
        → read sha256 parse_manifest parse_config left x ≡ some content
    unfolding reachable_blob_digests
    kept x content e h =
        prune_blobs_keeps sha256 parse_manifest parse_config can_remove order reachable ds blobs x
          content named (rw listed (reachable_from-chain before after r x items walked e)) h

    chain_kept : chain_in left r.digest ≡ chain items
    unfolding snapshot_chain_with_digests
    chain_kept =
        let (newest_first, found, turned) =
          reversed-chain
            (go_on sha256 parse_manifest parse_config (refs_of files) blobs left (length blobs + 2)
              blobs [] r.digest)
            items walked in
        elim (walk-Agrees sha256 parse_manifest parse_config (refs_of files) blobs left
          (length blobs + 2) (length left + 2) [] r.digest newest_first found
          (λ x content e h.
            kept x content
              (ap (λ z. elem x (blobs_of_items z)) turned ∙ elem-blobs_reverse x newest_first ∙ e)
              h)) [
                | inl same ↦ rw (same, turned) refl
                | inr short ↦ absurd (
                    snapshot_chain_with_digests_ends sha256 parse_manifest parse_config
                      (refs_of files) left r.digest (rw short refl))
              ]

outcome-cases :
    (ds : List Bytes) (refs_left : RefFiles × Bool) (ran : Blobs × Bool) (files : RefFiles)
    (blobs : Blobs)
    → ((outcome ds refs_left ran files blobs).1 ≡ blobs)
      ⊎ (((outcome ds refs_left ran files blobs).1 ≡ ran.0)
          × ((outcome ds refs_left ran files blobs).0 ≡ refs_left.0))
outcome-cases [] refs_left ran files blobs = inl refl
outcome-cases (d ∷ ds) (refs_left, false) ran files blobs = inl refl
outcome-cases (d ∷ ds) (refs_left, true) ran files blobs = inr (refl, refl)

module _ (sha256 : Bytes → Bytes) (parse_manifest : Bytes → Option Manifest)
    (parse_config : Bytes → Option AgentConfig) (can_remove : Bytes → Bool)
    (order : List Bytes → List Bytes) (candidates : List Bytes) (files : RefFiles)
    (blobs : Blobs) where
  abbrev pub pruned : RefFiles × Blobs × Bool
  pruned =
      prune_local_snapshots sha256 parse_manifest parse_config can_remove order candidates files
        blobs

  abbrev pub chosen : List Bytes
  chosen =
      order (candidate_blobs sha256 parse_manifest parse_config files blobs (delete_set candidates))

  -- Either no blob was removed, or the loop over the candidates ran.
  pruned-cases :
      (pruned.1 ≡ blobs)
      ⊎ (pruned.1
          ≡ (prune_blobs sha256 parse_manifest parse_config can_remove order
              (reachable_blob_digests sha256 parse_manifest parse_config pruned.0 blobs)
              chosen
              blobs).0)
  unfolding prune_local_snapshots
  pruned-cases =
      let deleted = delete_set candidates in
      let refs_left =
        prune_refs sha256 parse_manifest parse_config can_remove order deleted (list_refs files)
          files in
      let blobs_left =
        prune_blobs sha256 parse_manifest parse_config can_remove order
          (reachable_blob_digests sha256 parse_manifest parse_config refs_left.0 blobs) chosen
          blobs in
      elim (outcome-cases deleted refs_left blobs_left files blobs) [
        | inl same ↦ inl same
        | inr (ran, refs_same) ↦ inr (
            ran
            ∙ ap
                (λ z.
                  (prune_blobs sha256 parse_manifest parse_config can_remove order
                    (reachable_blob_digests sha256 parse_manifest parse_config z blobs) chosen
                    blobs).0)
                (sym refs_same))
      ]

  -- Where the candidates' digests name their algorithm, a reference that is left has the chain that
  -- it had before blobs were removed, and each blob of the chain reads the same, whichever
  -- removals fail and in whatever order they come.
  pub prune_local_snapshots_keeps :
      (before after : List Ref) (r : Ref) (items : List SnapshotChainItem) (x content : Bytes)
      → list_refs pruned.0 ≡ before ++ (r ∷ after)
      → All NamesAlgorithm chosen
      → chain_of sha256 parse_manifest parse_config pruned.0 blobs r.digest ≡ chain items
      → elem x (blobs_of_items items) ≡ true
      → read sha256 parse_manifest parse_config blobs x ≡ some content
      → (chain_of sha256 parse_manifest parse_config pruned.0 pruned.1 r.digest ≡ chain items)
        × (read sha256 parse_manifest parse_config pruned.1 x ≡ some content)
  prune_local_snapshots_keeps before after r items x content listed named walked e h =
      elim pruned-cases [
        | inl same ↦ (
          ap (λ b. chain_of sha256 parse_manifest parse_config pruned.0 b r.digest) same ∙ walked,
          ap (λ b. read sha256 parse_manifest parse_config b x) same ∙ h,
        )
        | inr same ↦ (
          ap (λ b. chain_of sha256 parse_manifest parse_config pruned.0 b r.digest) same
              ∙ chain_kept sha256 parse_manifest parse_config pruned.0 blobs before after r listed
                  items walked can_remove order chosen named,
          ap (λ b. read sha256 parse_manifest parse_config b x) same
              ∙ kept sha256 parse_manifest parse_config pruned.0 blobs before after r listed items
                  walked can_remove order chosen named x content e h,
        )
      ]
