-- ===== src/Examples/Trees.antt =====
-- Paths, whiteouts and layers of internal/osix on small inputs.
use smol_agent_oci_fs.Base.{
  ℕ, Bytes, codes, slash, List, [], ◌∷◌, ◌++◌, none, some, eqb, has_prefix, str_leb, any, keep,
  elem, sort, insert_sorted, lookup, insert, ◌≡◌, refl, arith, eqb→eq, if◌then◌else◌, ◌⊎◌, ◌≢◌, inl,
  inr, sym, ◌∙◌,
}
use smol_agent_oci_fs.Paths.Components.{components, clean, canonical_layer_path, base_of}
use smol_agent_oci_fs.Tree.Entry.{TreeEntry, file, dir, tree_map, entry_at, entry_eqb, type_eqb}
use smol_agent_oci_fs.Tree.Whiteout.Defs.{merge_unique, is_pruned, prune, merge_whiteouts}
use smol_agent_oci_fs.Tree.Diff.{
  is_changed, is_missing, is_type_changed, paths, type_change_whiteouts, diff_layer_entries,
}
use smol_agent_oci_fs.Tree.Diff.Layer.{IsTree}
use smol_agent_oci_fs.Layer.Disk.{Disk, dir_node, file_node, ok}
use smol_agent_oci_fs.Layer.Make.{make_layer, Header}
use smol_agent_oci_fs.Layer.Extract.{extract_layer}
use smol_agent_oci_fs.Layer.Scan.{Scanned}
use smol_agent_oci_fs.Layer.Writing.{restored_at}
use smol_agent_oci_fs.Layer.Restore.{extract-make-diff}
use mathlib.Core.List.{flatten}
use smol_agent_oci_fs.Policy.PathRules.{should_redact}

clean_test : clean (codes "a//b/../c/./") ≡ codes "a/c"
unfolding clean
clean_test = refl

guard_test : canonical_layer_path (codes "a/../../x") ≡ none
unfolding canonical_layer_path clean has_prefix eqb
guard_test = refl

merge_test :
    merge_whiteouts ((codes "b" ∷ codes "a/x" ∷ []) ∷ (codes "a" ∷ codes "b" ∷ []) ∷ [])
    ≡ codes "a" ∷ codes "b" ∷ []
unfolding merge_whiteouts flatten merge_unique elem any eqb sort insert_sorted str_leb prune
    is_pruned has_prefix
merge_test = refl

-- A file becomes a directory with a file in it.
abbrev pub old_entry : TreeEntry
old_entry = record {
  path = codes "b";
  kind = file;
  mode = 420;
  size = 1;
  digest = codes "1";
  linkname = [];
}

abbrev pub new_dir : TreeEntry
new_dir = record { path = codes "b"; kind = dir; mode = 493; size = 0; digest = []; linkname = [] }

abbrev pub new_file : TreeEntry
new_file = record {
  path = codes "b/x";
  kind = file;
  mode = 420;
  size = 2;
  digest = codes "22";
  linkname = [];
}

abbrev pub old_tree : List TreeEntry
old_tree = old_entry ∷ []

abbrev pub new_tree : List TreeEntry
new_tree = new_dir ∷ new_file ∷ []

diff_test : diff_layer_entries old_tree new_tree ≡ (new_dir ∷ new_file ∷ [], codes "b" ∷ [])
unfolding diff_layer_entries keep is_changed is_missing is_type_changed type_change_whiteouts paths
    tree_map lookup entry_eqb type_eqb eqb merge_whiteouts flatten merge_unique elem any sort
    insert_sorted str_leb prune is_pruned has_prefix
diff_test = refl

abbrev pub old_disk : Disk
old_disk = λ q. if eqb q (codes "b") then some (file_node 420 (codes "1")) else none

abbrev pub new_disk : Disk
new_disk = λ q.
    if eqb q (codes "b")
    then some (dir_node 493)
    else if eqb q (codes "b/x")
    then some (file_node 420 (codes "22"))
    else none

abbrev pub same : Bytes → Bytes
same b = b

pub old-Scanned : Scanned same old_disk old_tree
unfolding tree_map lookup insert
old-Scanned q = ground (arith, eqb→eq q (codes "b"))

pub new-Scanned : Scanned same new_disk new_tree
unfolding tree_map lookup insert eqb
new-Scanned q = ground (arith, eqb→eq q (codes "b"), eqb→eq q (codes "b/x"))

nothing_below_nil : (w r : Bytes) → [] ≡ w ++ (slash ∷ r) → ⊥
nothing_below_nil [] r h = cc
nothing_below_nil (x ∷ w) r h = cc

nothing_below : (c : ℕ) (w r : Bytes) → c ≢ slash → c ∷ [] ≡ w ++ (slash ∷ r) → ⊥
nothing_below c [] r n h = ground (arith, n, h)
nothing_below c (x ∷ w) r n h = ground (arith, nothing_below_nil w r, h)

above_x : (w r : Bytes) → codes "b/x" ≡ w ++ (slash ∷ r) → w ≡ codes "b"
above_x [] r h = ground (arith, h)
above_x (x ∷ []) r h = ground (arith, h)
above_x (x ∷ y ∷ w) r h =
    absurd (ground (arith, nothing_below b'x' w r (λ (e : b'x' ≡ slash). omega arith), h))

old_paths : (p : Bytes) (e : TreeEntry) → entry_at old_tree p ≡ some e → p ≡ codes "b"
unfolding tree_map lookup insert
old_paths p e h = ground (arith, eqb→eq p (codes "b"))

new_paths :
    (p : Bytes) (e : TreeEntry) → entry_at new_tree p ≡ some e → (p ≡ codes "b") ⊎ (p ≡ codes "b/x")
unfolding tree_map lookup insert eqb
new_paths p e h = ground (arith, eqb→eq p (codes "b"), eqb→eq p (codes "b/x"))

new_dir_there : (w : Bytes) → w ≡ codes "b" → entry_at new_tree w ≡ some new_dir
unfolding tree_map lookup insert eqb
new_dir_there w e = rw e

new_closed :
    (p w r : Bytes) (e : TreeEntry)
    → (p ≡ codes "b") ⊎ (p ≡ codes "b/x")
    → p ≡ w ++ (slash ∷ r)
    → (d : TreeEntry) × (entry_at new_tree w ≡ some d) × (d.kind ≡ dir)
new_closed p w r e (inl h) f =
    absurd (nothing_below b'b' w r (λ (e : b'b' ≡ slash). omega arith) (sym h ∙ f))
new_closed p w r e (inr h) f = (new_dir, new_dir_there w (above_x w r (sym h ∙ f)), refl)

pub old_tree-IsTree : IsTree old_tree
old_tree-IsTree = record {
  ordered = (tt, tt);
  unique = (tt, tt);
  named = (unfold eqb in refl, tt);
  closed = λ p w r e h f.
      absurd
        (nothing_below b'b' w r (λ (e : b'b' ≡ slash). omega arith) (sym (old_paths p e h) ∙ f));
}

pub new_tree-IsTree : IsTree new_tree
new_tree-IsTree = record {
  ordered = ((unfold str_leb in refl, tt), (tt, tt));
  unique = ((unfold eqb in refl, tt), (tt, tt));
  named = (unfold eqb in refl, (unfold eqb in refl, tt));
  closed = λ p w r e h f. new_closed p w r e (new_paths p e h) f;
}

pub layer_body_same : (q b : Bytes) → (if should_redact q then b else b) ≡ b
layer_body_same q b = ground arith

extract-make-diff_example :
    (layer : List Header) × (make_layer same new_disk
        (diff_layer_entries old_tree new_tree).0
        (diff_layer_entries old_tree new_tree).1
      ≡ ok layer)
    × ((fs : Disk) × (extract_layer (λ m. m) old_disk layer ≡ ok fs)
        × ((q : Bytes) → fs q ≡ restored_at same q (new_disk q)))
unfolding components base_of has_prefix eqb any
extract-make-diff_example =
    extract-make-diff (λ m. m) same same old_disk new_disk old_tree new_tree old_tree-IsTree
      new_tree-IsTree old-Scanned new-Scanned ((((refl, refl, refl), tt), refl, refl), tt)
      ((
        (((refl, refl, refl), tt), refl),
        ((((refl, refl, refl), ((refl, refl, refl), tt)), refl), tt),
      ))
      (λ q m k a b h j e. e) (λ q m b h. layer_body_same q b)
