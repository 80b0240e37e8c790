-- ===== src/Reads/Lazy/Agreement.antt =====
-- Reads of internal/osix/lazy_read.go against the restore of internal/osix/snapshot.go, for the layer
-- of the difference of two trees.
use mathlib.Core.List.{flatten}
use mathlib.Core.Path.{subst}
use smol_agent_oci_fs.Base.{
  ℕ, Bytes, true, List, [], ◌∷◌, keep, eqb_refl, elem, any, any_found, Option, none, some, ◌≡◌, ◌≢◌,
  inl, inr, refl, ap, ◌∙◌, sym, arith, All, All-map, All-keep,
}
use smol_agent_oci_fs.Tree.Entry.{
  TreeEntry, entry_at, entry_at-find_entry, find_entry-path, covers, covers-Below, Below, at, under,
  is_covered,
}
use smol_agent_oci_fs.Tree.Diff.{
  is_changed, is_missing, diff_layer_entries, type_change_whiteouts, paths,
}
use smol_agent_oci_fs.Tree.Diff.Layer.{
  IsTree, layer_entries, layer_whiteouts, Reason, whiteouts-Reason, type_change_covered, found_All,
  same_entry, none-some,
}
use smol_agent_oci_fs.Layer.Disk.{Disk, Node, dir_node, file_node, link_node, ok}
use smol_agent_oci_fs.Layer.Make.{Header, make_layer}
use smol_agent_oci_fs.Layer.Extract.{extract_layer}
use smol_agent_oci_fs.Layer.Entries.{IsEntryPath}
use smol_agent_oci_fs.Layer.Whiteouts.{IsTarget}
use smol_agent_oci_fs.Layer.Removal.{All-merge_whiteouts}
use smol_agent_oci_fs.Layer.Scan.{Scanned}
use smol_agent_oci_fs.Layer.Writing.{restored_at}
use smol_agent_oci_fs.Layer.Restore.{TellsApart, IsRedacted, extract-make-diff}
use smol_agent_oci_fs.Reads.Lazy.{deleted, found, read_file_from_layer}
use smol_agent_oci_fs.Reads.Lazy.Layer.{node_reading, read_file_from_layer-make_layer}

elem_self : (xs : List Bytes) → All (λ x. elem x xs ≡ true) xs
unfolding elem any
elem_self [] = tt
elem_self (x ∷ xs) = (
  ground (arith, eqb_refl x),
  All-map (λ y. elem y xs ≡ true) (λ y. elem y (x ∷ xs) ≡ true) xs (λ y h. ground (arith, h))
      (elem_self xs),
)

All-both : (P Q : Bytes → Type 0) (xs : List Bytes) → All P xs → All Q xs → All (λ x. P x × Q x) xs
All-both P Q [] h k = tt
All-both P Q (x ∷ xs) h k = ((h.0, k.0), All-both P Q xs h.1 k.1)

module _ (p c : List TreeEntry) (hp : IsTree p) (hc : IsTree c) where
  abbrev ws : List Bytes
  ws = layer_whiteouts p c hp hc

  whiteouts_All : (P : Bytes → Type 0) → ((w : Bytes) → Reason p c hp hc w → P w) → All P ws
  unfolding flatten
  whiteouts_All P f =
      let groups =
        paths (keep (is_missing c) p) ∷ type_change_whiteouts p (layer_entries p c hp hc) ∷ [] in
      All-merge_whiteouts P groups
        (All-map (Reason p c hp hc) P (flatten groups) f (whiteouts-Reason p c hp hc))

  targets-whiteouts : All (λ e. IsTarget e.path) p → All IsTarget ws
  targets-whiteouts targets = whiteouts_All IsTarget λ w (a, ha, reason).
      let there = sym (entry_at-find_entry w p hp.unique) ∙ ha in
      subst IsTarget (find_entry-path w p a there)
        (found_All (λ e. IsTarget e.path) w p a targets there)

  module _ (q : Bytes) (a b : TreeEntry) (ha : entry_at p q ≡ some a) (hb : entry_at c q ≡ some b)
      (differ : a.kind ≢ b.kind) where
    -- Above a path of both trees there are directories in both.
    only_itself : (w : Bytes) → Reason p c hp hc w → Below w q → q ≡ w
    only_itself w reason (at e) = e
    only_itself w (o, ho, reason) (under r e) =
        let (d, hd, k) = hc.closed q w r b hb e in
        let (d', hd', k') = hp.closed q w r a ha e in
        absurd (elim reason [
          | inl gone ↦ none-some gone hd
          | inr (n, hn, unlike) ↦ unlike (
              ap (λ (x : TreeEntry). x.kind) (same_entry ho hd')
              ∙ k'
              ∙ sym k
              ∙ ap (λ (x : TreeEntry). x.kind) (same_entry hd hn))
        ])

    type_changed_listed : elem q ws ≡ true
    unfolding is_covered
    type_changed_listed =
        let (w, (reason, listed), cov) =
          any_found (λ w. Reason p c hp hc w × (elem w ws ≡ true)) (λ t. covers t q) ws
            (All-both (Reason p c hp hc) (λ w. elem w ws ≡ true) ws
              (whiteouts_All (Reason p c hp hc) (λ w h. h)) (elem_self ws))
            (type_change_covered p c hp hc q a b ha hb differ) in
        ap (λ x. elem x ws) (only_itself w reason (covers-Below w q cov)) ∙ listed

  -- Where a path has an entry in both trees, of one kind before and of another after, the layer of
  -- the difference reads as if the path were deleted: `readFileFromLayer` stops at its whiteout.
  pub read_file_from_layer-type_changed :
      (redact : Bytes → Bytes) (after : Disk) (layer : List Header) (q : Bytes) (a b : TreeEntry)
      → All (λ e. IsTarget e.path) p
      → All (λ e. IsEntryPath e.path) c
      → make_layer redact after (diff_layer_entries p c).0 (diff_layer_entries p c).1 ≡ ok layer
      → entry_at p q ≡ some a
      → entry_at c q ≡ some b
      → a.kind ≢ b.kind
      → read_file_from_layer layer q ≡ ok deleted
  unfolding diff_layer_entries
  read_file_from_layer-type_changed redact after layer q a b targets names made ha hb differ =
      read_file_from_layer-make_layer redact after (layer_entries p c hp hc) ws layer q made
        (All-keep (λ e. IsEntryPath e.path) (is_changed p) c names) (targets-whiteouts targets)
      ∙ rw (type_changed_listed q a b ha hb differ) refl

-- The bytes of a file or the target of a link.
abbrev pub content_of : Option Node → Option Bytes
content_of none = none
content_of (some (dir_node m)) = none
content_of (some (file_node m b)) = some b
content_of (some (link_node l)) = some l

content_of-read :
    (redact : Bytes → Bytes) (q content : Bytes) (o : Option Node)
    → node_reading redact q o ≡ ok (found content)
    → content_of (restored_at redact q o) ≡ some content
content_of-read redact q content none h = absurd (ground (arith, h))
content_of-read redact q content (some (dir_node m)) h = absurd (ground (arith, h))
content_of-read redact q content (some (file_node m b)) h = ground (arith, h)
content_of-read redact q content (some (link_node l)) h = ground (arith, h)

module _ (masked : ℕ → ℕ) (redact digest : Bytes → Bytes) (before after : Disk)
    (p c : List TreeEntry) (hp : IsTree p) (hc : IsTree c) (was : Scanned digest before p)
    (is : Scanned digest after c) (targets : All (λ e. IsTarget e.path) p)
    (names : All (λ e. IsEntryPath e.path) c) (apart : TellsApart digest before after)
    (redacted : IsRedacted redact before) where
  found_in_layer :
      (layer : List Header) (q content : Bytes)
      → make_layer redact after (diff_layer_entries p c).0 (diff_layer_entries p c).1 ≡ ok layer
      → read_file_from_layer layer q ≡ ok (found content)
      → node_reading redact q (after q) ≡ ok (found content)
  unfolding diff_layer_entries
  found_in_layer layer q content made h =
      let reads =
        sym (
          read_file_from_layer-make_layer redact after (layer_entries p c hp hc) (ws p c hp hc)
            layer q made (All-keep (λ e. IsEntryPath e.path) (is_changed p) c names)
            (targets-whiteouts p c hp hc targets))
        ∙ h in
      ground (arith, reads)

  -- What a lazy read finds for a file or a link in the layer of the difference of two scanned
  -- trees is what stands there once the layer is extracted over the directory before.
  pub read_file_from_layer-extract_layer :
      (layer : List Header) (q content : Bytes)
      → make_layer redact after (diff_layer_entries p c).0 (diff_layer_entries p c).1 ≡ ok layer
      → read_file_from_layer layer q ≡ ok (found content)
      → (fs : Disk) × (extract_layer masked before layer ≡ ok fs)
        × (content_of (fs q) ≡ some content)
  read_file_from_layer-extract_layer layer q content made h =
      let (layer', made', (fs, ran, done)) =
        extract-make-diff masked redact digest before after p c hp hc was is targets names apart
          redacted in
      let same : layer' ≡ layer = ground (arith, made, made') in
      (
        fs,
        rw (sym same) ran,
        ap content_of (done q)
            ∙ content_of-read redact q content (after q) (found_in_layer layer q content made h),
      )
