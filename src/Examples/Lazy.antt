-- ===== src/Examples/Lazy.antt =====
-- Lazy reads of internal/osix/lazy_read.go on layers of small trees.
use mathlib.Core.List.{flatten}
use mathlib.Core.Path.{subst}
use smol_agent_oci_fs.Base.{
  Bytes, codes, if◌then◌else◌, true, List, [], ◌∷◌, none, some, eqb, has_prefix, trim_prefix,
  trim_space, trim_left, str_leb, any, keep, elem, sort, insert_sorted, lookup, insert, contains,
  Option, ◌≡◌, refl, ◌++◌, Bool, false, Bool-cases, inl, inr, arith,
}
use smol_agent_oci_fs.Paths.Components.{
  components, clean, canonical_layer_path, canonical_read_path, base_of, join_path, split_path,
}
use smol_agent_oci_fs.Layer.Names.{whiteout_name, whiteout_target}
use smol_agent_oci_fs.Policy.PathRules.{should_redact}
use smol_agent_oci_fs.Tree.Entry.{tree_map, entry_at, entry_eqb, type_eqb, is_covered, covers}
use smol_agent_oci_fs.Tree.Whiteout.Defs.{merge_unique, is_pruned, prune, merge_whiteouts}
use smol_agent_oci_fs.Tree.Diff.{
  is_changed, is_missing, is_type_changed, paths, type_change_whiteouts, diff_layer_entries,
}
use smol_agent_oci_fs.Layer.Disk.{Disk, dir_node, file_node, ok, ◌>>=◌}
use smol_agent_oci_fs.Layer.Make.{Header, whiteout_header, node_header, make_entries, make_layer}
use smol_agent_oci_fs.Layer.Extract.{extract_layer, validate_whiteout_header}
use smol_agent_oci_fs.Reads.Range.{slice_range, slice}
use smol_agent_oci_fs.Reads.Lazy.{
  deleted, found, read_file_from_layer, LazyItem, read_chain, read_on, read_item, read_header,
  read_typed, read_canonical, read_chain_range, range_again, range_on, read_snapshot_file,
  read_snapshot_file_range,
}
use smol_agent_oci_fs.Reads.Lazy.Layer.{read_file_from_layer-make_layer}
use smol_agent_oci_fs.Reads.Lazy.Chain.{
  AreSilent, read_snapshot_file_range-slice_range, read_chain_skips,
}
use smol_agent_oci_fs.Reads.Lazy.Agreement.{
  content_of, read_file_from_layer-type_changed, read_file_from_layer-extract_layer,
}
use smol_agent_oci_fs.Examples.Trees.{
  old_entry, new_dir, new_file, old_tree, new_tree, old_disk, new_disk, same, old-Scanned,
  new-Scanned, old_tree-IsTree, new_tree-IsTree, layer_body_same,
}

-- The layer in which a file becomes a directory.
abbrev forward : List Header
forward =
    whiteout_header (codes "b")
    ∷ node_header same (codes "b") (dir_node 493)
    ∷ node_header same (codes "b/x") (file_node 420 (codes "22"))
    ∷ []

forward_test : make_layer same new_disk (new_dir ∷ new_file ∷ []) (codes "b" ∷ []) ≡ ok forward
unfolding make_layer make_entries eqb
forward_test = refl

read_file_from_layer-make_layer_example :
    read_file_from_layer forward (codes "b/x") ≡ ok (found (codes "22"))
unfolding components base_of has_prefix eqb any elem paths should_redact
read_file_from_layer-make_layer_example =
    read_file_from_layer-make_layer same new_disk (new_dir ∷ new_file ∷ []) (codes "b" ∷ []) forward
      (codes "b/x") forward_test
      (
        (((refl, refl, refl), tt), refl),
        ((((refl, refl, refl), ((refl, refl, refl), tt)), refl), tt),
      )
      ((((refl, refl, refl), tt), refl, refl), tt)

-- The layer in which the directory becomes a file again.
abbrev back : List Header
back = whiteout_header (codes "b") ∷ node_header same (codes "b") (file_node 420 (codes "1")) ∷ []

back_test :
    make_layer same old_disk
      (diff_layer_entries new_tree old_tree).0
      (diff_layer_entries new_tree old_tree).1
    ≡ ok back
unfolding make_layer make_entries diff_layer_entries keep is_changed is_missing is_type_changed
    type_change_whiteouts paths tree_map lookup insert entry_eqb type_eqb eqb merge_whiteouts
    flatten merge_unique elem any sort insert_sorted str_leb prune is_pruned has_prefix
back_test = refl

new_there : entry_at new_tree (codes "b") ≡ some new_dir
unfolding tree_map lookup insert eqb
new_there = refl

old_there : entry_at old_tree (codes "b") ≡ some old_entry
unfolding tree_map lookup insert eqb
old_there = refl

read_file_from_layer-type_changed_example : read_file_from_layer back (codes "b") ≡ ok deleted
unfolding components base_of has_prefix eqb any
read_file_from_layer-type_changed_example =
    read_file_from_layer-type_changed new_tree old_tree new_tree-IsTree old_tree-IsTree same
      old_disk back (codes "b") new_dir old_entry
      (
        (((refl, refl, refl), tt), refl, refl),
        ((((refl, refl, refl), ((refl, refl, refl), tt)), refl, refl), tt),
      )
      ((((refl, refl, refl), tt), refl), tt) back_test new_there old_there (λ e. cc)

diff_forward :
    make_layer same new_disk
      (diff_layer_entries old_tree new_tree).0
      (diff_layer_entries old_tree new_tree).1
    ≡ ok forward
unfolding make_layer make_entries diff_layer_entries keep is_changed is_missing is_type_changed
    type_change_whiteouts paths tree_map lookup insert entry_eqb type_eqb eqb merge_whiteouts
    flatten merge_unique elem any sort insert_sorted str_leb prune is_pruned has_prefix
diff_forward = refl

forward_reads : read_file_from_layer forward (codes "b/x") ≡ ok (found (codes "22"))
unfolding read_file_from_layer canonical_layer_path clean has_prefix eqb should_redact whiteout_name
    join_path split_path base_of validate_whiteout_header whiteout_target trim_prefix any
    node_header
forward_reads = refl

read_file_from_layer-extract_layer_example :
    (fs : Disk) × (extract_layer (λ m. m) old_disk forward ≡ ok fs)
    × (content_of (fs (codes "b/x")) ≡ some (codes "22"))
unfolding components base_of has_prefix eqb any
read_file_from_layer-extract_layer_example =
    read_file_from_layer-extract_layer (λ m. m) same same old_disk new_disk old_tree new_tree
      old_tree-IsTree new_tree-IsTree old-Scanned new-Scanned
      ((((refl, refl, refl), tt), refl, refl), tt)
      ((
        (((refl, refl, refl), tt), refl),
        ((((refl, refl, refl), ((refl, refl, refl), tt)), refl), tt),
      ))
      (λ q m k a b h j e. e) (λ q m b h. layer_body_same q b) forward (codes "b/x") (codes "22")
      diff_forward forward_reads

-- The directory goes, and the newest layer has only its whiteout.
abbrev gone : List Header
gone = whiteout_header (codes "b") ∷ []

abbrev empty_disk : Disk
empty_disk q = none

abbrev blobs : Bytes → Option (List Header)
blobs d =
    if eqb d (codes "l1") then some forward else if eqb d (codes "l2") then some gone else none

abbrev newest : LazyItem
newest = record { digest = codes "s2"; layers = codes "l2" ∷ [] }

abbrev oldest : LazyItem
oldest = record { digest = codes "s1"; layers = codes "l1" ∷ [] }

gone_test : make_layer same empty_disk [] (codes "b" ∷ []) ≡ ok gone
unfolding make_layer make_entries
gone_test = refl

covered_test : is_covered (codes "b" ∷ []) (codes "b/x") ≡ true
unfolding is_covered covers any eqb has_prefix
covered_test = refl

read_chain_skips_example :
    read_chain blobs (newest ∷ oldest ∷ []) (codes "b/x")
    ≡ read_chain blobs (oldest ∷ []) (codes "b/x")
unfolding components base_of has_prefix eqb any elem paths
read_chain_skips_example =
    read_chain_skips blobs same empty_disk [] (codes "b" ∷ []) gone (codes "l2") (codes "s2")
      (oldest ∷ []) (codes "b/x") gone_test refl tt ((((refl, refl, refl), tt), refl, refl), tt)
      refl refl

-- Names in double quotes.
abbrev quoted : Bytes → Bytes
quoted s = b'"' ∷ (s ++ (b'"' ∷ []))

abbrev none_missing : Bytes → Bool
none_missing d = false

blobs-AreSilent : (d : Bytes) (hs : List Header) → blobs d ≡ some hs → AreSilent quoted hs
unfolding node_header
blobs-AreSilent d hs h = elim (Bool-cases (eqb d (codes "l1"))) [
  | inl y ↦
      let same : forward ≡ hs = ground (arith, y, h) in
      subst (AreSilent quoted) same (
        unfold contains whiteout_name split_path join_path has_prefix eqb in
        (refl, (refl, (refl, tt))))
  | inr n ↦ elim (Bool-cases (eqb d (codes "l2"))) [
    | inl y ↦
        let same : gone ≡ hs = ground (arith, n, y, h) in
        subst (AreSilent quoted) same
          (unfold contains whiteout_name split_path join_path has_prefix eqb in (refl, tt))
    | inr m ↦ absurd (ground (arith, n, m, h))
  ]
]

read_snapshot_file_range-slice_range_example :
    read_snapshot_file_range blobs quoted none_missing (oldest ∷ newest ∷ []) (codes "/b/x") 1 5 ≡ (
      read_snapshot_file blobs (oldest ∷ newest ∷ []) (codes "/b/x")
      >>= (λ content. ok (slice_range content 1 5)))
unfolding canonical_read_path canonical_layer_path clean has_prefix trim_prefix trim_space trim_left
    eqb contains
read_snapshot_file_range-slice_range_example =
    read_snapshot_file_range-slice_range blobs quoted none_missing (oldest ∷ newest ∷ [])
      (codes "/b/x") (codes "b/x") 1 5 (λ d. refl) blobs-AreSilent refl refl refl

-- A name with a space in front, which the second pass over the name takes away.
abbrev spaced : Bytes → Option (List Header)
spaced d = some (
    node_header same (codes " foo") (file_node 420 (codes "12"))
    ∷ node_header same (codes "foo") (file_node 420 (codes "34"))
    ∷ [])

spaced_file_test : read_snapshot_file spaced (oldest ∷ []) (codes "/ foo") ≡ ok (codes "12")
unfolding read_snapshot_file read_canonical read_chain read_on read_item read_file_from_layer
    read_header read_typed canonical_read_path canonical_layer_path clean base_of split_path
    has_prefix trim_prefix trim_space trim_left node_header eqb should_redact
spaced_file_test = refl

spaced_range_test :
    read_snapshot_file_range spaced quoted none_missing (oldest ∷ []) (codes "/ foo") 0 9
    ≡ ok (some (codes "34"))
unfolding read_snapshot_file_range read_chain_range range_again range_on read_chain read_on
    read_item read_file_from_layer read_header read_typed canonical_read_path canonical_layer_path
    clean base_of split_path has_prefix trim_prefix trim_space trim_left node_header eqb
    should_redact slice_range slice
spaced_range_test = refl
