-- ===== src/Layer/Restore.antt =====
-- The layer of a snapshot, made and extracted: `diffLayerEntries`, `makeLayer` and `extractLayer`
-- of internal/osix/snapshot.go together.
use mathlib.Core.List.{flatten}
use mathlib.Core.Path.{subst}
use smol_agent_oci_fs.Base.{
  ℕ, Bytes, true, false, List, [], ◌∷◌, ◌++◌, map, keep, Option, none, some, ◌≡◌, ◌⊎◌, ◌≢◌, inl,
  inr, refl, ap, ◌∙◌, sym, arith, All, All-map, All-keep, Bool-cases, Option-cases,
}
use smol_agent_oci_fs.Tree.Entry.{
  TreeEntry, file, dir, symlink, entry_at, entry_at-find_entry, find_entry, find_entry-path,
  is_covered, entry_eqb→eq,
}
use smol_agent_oci_fs.Tree.Diff.{
  is_changed, is_missing, diff_layer_entries, type_change_whiteouts, paths,
}
use smol_agent_oci_fs.Tree.Diff.Layer.{
  IsTree, layer_entries, layer_whiteouts, Reason, whiteouts-Reason, not_covered, missing_covered,
  type_change_covered, kept_layer_entry, keep-HasUniquePaths, keep-IsOrdered, entry_at_self,
  found_All, same_entry, none-some, is_changed_some, is_changed-none,
}
use smol_agent_oci_fs.Layer.Disk.{Disk, Node, dir_node, file_node, link_node, ok}
use smol_agent_oci_fs.Layer.Make.{Header, whiteout_header, layer_body, make_entries, make_layer}
use smol_agent_oci_fs.Layer.Extract.{extract_layer}
use smol_agent_oci_fs.Layer.Descent.{IsOpenAt}
use smol_agent_oci_fs.Layer.Entries.{IsEntryPath, redacted_node}
use smol_agent_oci_fs.Layer.Whiteouts.{IsTarget}
use smol_agent_oci_fs.Layer.Removal.{
  IsRemovable, All-merge_whiteouts, remove_each, remove_each_at, extract_layer-whiteouts,
}
use smol_agent_oci_fs.Layer.Scan.{scan_entry, scan_at, Scanned}
use smol_agent_oci_fs.Layer.Writing.{Fits, restored_at, pending, write_entries}

file_not_dir : file ≢ dir
file_not_dir h = cc

symlink_not_dir : symlink ≢ dir
symlink_not_dir h = cc

symlink_not_file : symlink ≢ file
symlink_not_file h = cc

-- The digest tells the files of two disks at one path apart.
abbrev pub TellsApart : (Bytes → Bytes) → Disk → Disk → Type 0
TellsApart digest before after =
    (q : Bytes) (m k : ℕ) (a b : Bytes)
    → before q ≡ some (file_node m a)
    → after q ≡ some (file_node k b)
    → digest a ≡ digest b
    → a ≡ b

-- Every file of a disk is redacted already where logs are redacted.
abbrev pub IsRedacted : (Bytes → Bytes) → Disk → Type 0
IsRedacted redact fs =
    (q : Bytes) (m : ℕ) (b : Bytes) → fs q ≡ some (file_node m b) → layer_body redact q b ≡ b

module _ (masked : ℕ → ℕ) (redact digest : Bytes → Bytes) (before after : Disk)
    (p c : List TreeEntry) (hp : IsTree p) (hc : IsTree c) (was : Scanned digest before p)
    (is : Scanned digest after c) (targets : All (λ e. IsTarget e.path) p)
    (names : All (λ e. IsEntryPath e.path) c) (apart : TellsApart digest before after)
    (redacted : IsRedacted redact before) where
  abbrev ws : List Bytes
  ws = layer_whiteouts p c hp hc

  abbrev cleared : Disk
  cleared = remove_each before ws

  before_entry :
      (q : Bytes) (n : Node) → before q ≡ some n → entry_at p q ≡ some (scan_entry digest q n)
  before_entry q n h = sym (was q) ∙ ap (scan_at digest q) h

  after_entry :
      (q : Bytes) (n : Node) → after q ≡ some n → entry_at c q ≡ some (scan_entry digest q n)
  after_entry q n h = sym (is q) ∙ ap (scan_at digest q) h

  gone :
      (digest' : Bytes → Bytes) (fs : Disk) (q : Bytes)
      → scan_at digest' q (fs q) ≡ none
      → fs q ≡ none
  gone d fs q h = elim (Option-cases (fs q)) [
    | inl free ↦ free
    | inr (n, e) ↦ absurd (none-some h (ap (scan_at d q) e))
  ]

  covered_free : (q : Bytes) → is_covered ws q ≡ true → cleared q ≡ none
  covered_free q h = remove_each_at before ws q ∙ rw h

  uncovered_same : (q : Bytes) → is_covered ws q ≡ false → cleared q ≡ before q
  uncovered_same q h = remove_each_at before ws q ∙ rw h

  cleared_cases : (q : Bytes) → (cleared q ≡ none) ⊎ (cleared q ≡ before q)
  cleared_cases q = elim (Bool-cases (is_covered ws q)) [
    | inl y ↦ inl (covered_free q y)
    | inr n ↦ inr (uncovered_same q n)
  ]

  still_free : (q : Bytes) → before q ≡ none → cleared q ≡ none
  still_free q h = elim (cleared_cases q) [ inl y ↦ y | inr e ↦ e ∙ h ]

  dir_before :
      (q : Bytes) (d : TreeEntry) → entry_at p q ≡ some d → d.kind ≡ dir → IsOpenAt before q
  dir_before q d h k = go (before q) refl
    where
      go : (o : Option Node) → before q ≡ o → IsOpenAt before q
      go none e = inl e
      go (some (dir_node m)) e = inr (m, e)
      go (some (file_node m b)) e = absurd (
          file_not_dir
            (ap (λ (x : TreeEntry). x.kind) (same_entry (before_entry q (file_node m b) e) h) ∙ k))
      go (some (link_node l)) e = absurd (
          symlink_not_dir
            (ap (λ (x : TreeEntry). x.kind) (same_entry (before_entry q (link_node l) e) h) ∙ k))

  Reason-IsRemovable : (w : Bytes) → Reason p c hp hc w → IsRemovable before w
  Reason-IsRemovable w (a, ha, reason) =
      let found = sym (entry_at-find_entry w p hp.unique) ∙ ha in
      (
        subst IsTarget (find_entry-path w p a found)
            (found_All (λ e. IsTarget e.path) w p a targets found),
        λ v (r, i). let (d, hd, k) = hp.closed w v r a ha i in dir_before v d hd k,
      )

  removable : All (IsRemovable before) ws
  unfolding flatten
  removable =
      let groups =
        paths (keep (is_missing c) p) ∷ type_change_whiteouts p (layer_entries p c hp hc) ∷ [] in
      All-merge_whiteouts (IsRemovable before) groups (
        All-map (Reason p c hp hc) (IsRemovable before) (flatten groups) Reason-IsRemovable
          (whiteouts-Reason p c hp hc))

  replaced :
      (q : Bytes) (k n : Node)
      → before q ≡ some k
      → after q ≡ some n
      → (scan_entry digest q k).kind ≢ (scan_entry digest q n).kind
      → cleared q ≡ none
  replaced q k n hk hn differ = covered_free q (
      type_change_covered p c hp hc q (scan_entry digest q k) (scan_entry digest q n)
        (before_entry q k hk) (after_entry q n hn) differ)

  fits : (q : Bytes) (n : Node) → after q ≡ some n → Fits cleared q n
  fits q (dir_node m) h = go (before q) refl
    where
      go : (o : Option Node) → before q ≡ o → IsOpenAt cleared q
      go none e = inl (still_free q e)
      go (some (dir_node k)) e = elim (cleared_cases q) [ inl y ↦ inl y | inr s ↦ inr (k, s ∙ e) ]
      go (some (file_node k b)) e = inl (replaced q (file_node k b) (dir_node m) e h file_not_dir)
      go (some (link_node l)) e = inl (replaced q (link_node l) (dir_node m) e h symlink_not_dir)
  fits q (file_node m b) h = go (before q) refl
    where
      go : (o : Option Node) → before q ≡ o → Fits cleared q (file_node m b)
      go none e = inl (still_free q e)
      go (some (dir_node k)) e =
          inl (replaced q (dir_node k) (file_node m b) e h (λ x. file_not_dir (sym x)))
      go (some (file_node k old)) e = elim (cleared_cases q) [
        | inl y ↦ inl y
        | inr s ↦ inr (k, old, s ∙ e)
      ]
      go (some (link_node l)) e =
          inl (replaced q (link_node l) (file_node m b) e h symlink_not_file)
  fits q (link_node l) h = tt

  -- Equal entries come from nodes that the layer need not carry.
  same_scan :
      (q : Bytes) (k n : Node)
      → before q ≡ some k
      → after q ≡ some n
      → scan_entry digest q k ≡ scan_entry digest q n
      → k ≡ redacted_node redact q n
  same_scan q (dir_node m) (dir_node k) h j e = ap dir_node (ap (λ (x : TreeEntry). x.mode) e)
  same_scan q (file_node m a) (file_node k b) h j e =
      let same : a ≡ b = apart q m k a b h j (ap (λ (x : TreeEntry). x.digest) e) in
      let kept = redacted q m a h in
      ap (λ (x : ℕ). file_node x a) (ap (λ (x : TreeEntry). x.mode) e)
      ∙ ap (file_node k) (sym kept ∙ ap (layer_body redact q) same)
  same_scan q (link_node l) (link_node k) h j e =
      ap link_node (ap (λ (x : TreeEntry). x.linkname) e)
  same_scan q (dir_node m) (file_node k b) h j e =
      absurd (file_not_dir (sym (ap (λ (x : TreeEntry). x.kind) e)))
  same_scan q (dir_node m) (link_node k) h j e =
      absurd (symlink_not_dir (sym (ap (λ (x : TreeEntry). x.kind) e)))
  same_scan q (file_node m a) (dir_node k) h j e =
      absurd (file_not_dir (ap (λ (x : TreeEntry). x.kind) e))
  same_scan q (file_node m a) (link_node k) h j e =
      absurd (symlink_not_file (sym (ap (λ (x : TreeEntry). x.kind) e)))
  same_scan q (link_node l) (dir_node k) h j e =
      absurd (symlink_not_dir (ap (λ (x : TreeEntry). x.kind) e))
  same_scan q (link_node l) (file_node k b) h j e =
      absurd (symlink_not_file (ap (λ (x : TreeEntry). x.kind) e))

  some_node :
      (fs : Disk) (q : Bytes) (b : TreeEntry)
      → scan_at digest q (fs q) ≡ some b
      → (n : Node) × (fs q ≡ some n) × (scan_entry digest q n ≡ b)
  some_node fs q b h = go (fs q) refl h
    where
      go :
          (o : Option Node)
          → fs q ≡ o
          → scan_at digest q o ≡ some b
          → (n : Node) × (fs q ≡ some n) × (scan_entry digest q n ≡ b)
      go none e h = absurd (cc)
      go (some n) e h = (n, e, cc)

  -- An entry that the layer leaves out is in the old tree as it is.
  unchanged_entry :
      (q : Bytes) (b : TreeEntry)
      → entry_at c q ≡ some b
      → find_entry q (layer_entries p c hp hc) ≡ none
      → entry_at p q ≡ some b
  unchanged_entry q b hb out = go (Bool-cases (is_changed p b)) (Option-cases (entry_at p b.path))
    where
      at_q : b.path ≡ q
      at_q = find_entry-path q c b (sym (entry_at-find_entry q c hc.unique) ∙ hb)

      go :
          (is_changed p b ≡ true) ⊎ (is_changed p b ≡ false)
          → (entry_at p b.path ≡ none) ⊎ ((a : TreeEntry) × (entry_at p b.path ≡ some a))
          → entry_at p q ≡ some b
      go (inl y) o = absurd (none-some out (kept_layer_entry p c hp hc q b hb y))
      go (inr n) (inl new) = absurd (ground (arith, n, is_changed-none p b new))
      go (inr n) (inr (a, ha)) =
          let same : a ≡ b = entry_eqb→eq a b (ground (arith, n, is_changed_some p b a ha)) in
          ap (entry_at p) (sym at_q) ∙ ha ∙ ap some same

  unchanged :
      (q : Bytes)
      → find_entry q (layer_entries p c hp hc) ≡ none
      → cleared q ≡ restored_at redact q (after q)
  unchanged q out = elim (Option-cases (entry_at c q)) [
    | inl none_now ↦
        lost (Option-cases (entry_at p q)) none_now
        ∙ ap (restored_at redact q) (sym (gone digest after q (is q ∙ none_now)))
    | inr (b, hb) ↦
        let hp' = unchanged_entry q b hb out in
        let (k, hk, ek) = some_node before q b (was q ∙ hp') in
        let (n, hn, en) = some_node after q b (is q ∙ hb) in
        uncovered_same q (not_covered p c hp hc q b b hp' hb refl)
        ∙ hk
        ∙ ap some (same_scan q k n hk hn (ek ∙ sym en))
        ∙ ap (restored_at redact q) (sym hn)
  ]
    where
      lost :
          (entry_at p q ≡ none) ⊎ ((a : TreeEntry) × (entry_at p q ≡ some a))
          → entry_at c q ≡ none
          → cleared q ≡ none
      lost (inl none_then) none_now = still_free q (gone digest before q (was q ∙ none_then))
      lost (inr (a, ha)) none_now = covered_free q (missing_covered p c hp hc q a ha none_now)

  between_start :
      (q : Bytes)
      → cleared q
        ≡ pending
            (find_entry q (layer_entries p c hp hc))
            (cleared q)
            (restored_at redact q (after q))
  between_start q = elim (Option-cases (find_entry q (layer_entries p c hp hc))) [
    | inl out ↦ rw out (unchanged q out)
    | inr (e, found) ↦ rw found
  ]

  make_layer_ok :
      (entries : List TreeEntry) (whiteouts : List Bytes) (hs : List Header)
      → make_entries redact after entries ≡ ok hs
      → make_layer redact after entries whiteouts ≡ ok (map whiteout_header whiteouts ++ hs)
  unfolding make_layer
  make_layer_ok entries whiteouts hs h = rw h

  -- Let p and c be the trees scanned of a directory before and after a change: sorted, with one
  -- entry a path, each below directories of the tree, the paths of c plain and no whiteouts
  -- themselves, those of p fit for whiteouts. Let the digest tell the files of the two apart and
  -- the files before be redacted already. Then the layer of the difference can be made, and
  -- extracting it over the directory before gives the one after at every path, its logs redacted.
  pub extract-make-diff :
      (layer : List Header) × (make_layer redact after
          (diff_layer_entries p c).0
          (diff_layer_entries p c).1
        ≡ ok layer)
      × ((fs : Disk) × (extract_layer masked before layer ≡ ok fs)
          × ((q : Bytes) → fs q ≡ restored_at redact q (after q)))
  unfolding diff_layer_entries
  extract-make-diff =
      let entries = layer_entries p c hp hc in
      let (hs, made, (fs, ran, done)) =
        write_entries masked redact digest after cleared c hc is fits entries cleared between_start
          (All-keep (λ e. (entry_at c e.path ≡ some e) × IsEntryPath e.path) (is_changed p) c
            (All-both c (entry_at_self c hc.unique) names))
          (keep-IsOrdered (is_changed p) c hc.ordered)
          (keep-HasUniquePaths (is_changed p) c hc.unique) in
      (
        map whiteout_header ws ++ hs,
        make_layer_ok entries ws hs made,
        (fs, extract_layer-whiteouts masked before ws hs removable ∙ ran, done),
      )
    where
      All-both :
          (t : List TreeEntry)
          → All (λ e. entry_at c e.path ≡ some e) t
          → All (λ e. IsEntryPath e.path) t
          → All (λ e. (entry_at c e.path ≡ some e) × IsEntryPath e.path) t
      All-both [] h k = tt
      All-both (e ∷ t) h k = ((h.0, k.0), All-both t h.1 k.1)
