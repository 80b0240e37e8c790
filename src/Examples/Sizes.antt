-- ===== src/Examples/Sizes.antt =====
-- Sizes and decisions of internal/csinode, and changes of internal/osix/snapshot.go, at inputs.
use smol_agent_oci_fs.Base.{
  ◌&&◌, ◌||◌, ◌==◌, leb, codes, true, false, [], ◌∷◌, ◌++◌, eqb, has_suffix, has_prefix,
  trim_suffix, trim_prefix, trim_space, trim_left, some, lookup, insert, sort, insert_sorted,
  str_leb, ◌≡◌, ◌*◌, ◌%◌, refl, arith,
}
use smol_agent_oci_fs.Base.Decimal.{pos, decimal, decimal_onto, read_number, read_digits}
use smol_agent_oci_fs.Csi.Sizes.{
  TargetChangeSummary, parse_byte_size, split_unit, parse_int, snapshot_needed, of_bits, int_values,
}
use smol_agent_oci_fs.Csi.Sizes.Units.{gib, mib, parse_byte_size-decimal, snapshot_needed-decimal}
use smol_agent_oci_fs.Tree.Entry.{tree_map, tree_map_from, entry_at, entry_eqb, type_eqb}
use smol_agent_oci_fs.Tree.Changes.{
  added, modified, change, change_leb, right_changes, left_changes, diff_trees,
}
use smol_agent_oci_fs.Tree.Changes.Exact.{change_between, is_kind, reports, reports-diff_trees}
use smol_agent_oci_fs.Examples.Trees.{old_tree, new_tree}
use smol_agent_oci_fs.Examples.Csi.{often}

parse_byte_size-decimal_example :
    parse_byte_size (decimal 17179869184 ++ codes "GiB")
    ≡ some (of_bits ((17179869184 * 1073741824) % int_values))
parse_byte_size-decimal_example =
    parse_byte_size-decimal 17179869184 1073741824 (codes "GiB") gib (omega arith)

-- A limit of 16 EiB is no limit.
wrapped_test : parse_byte_size (codes "17179869184GiB") ≡ some (pos 0)
unfolding parse_byte_size split_unit parse_int read_number read_digits has_suffix has_prefix
    trim_suffix trim_prefix trim_space trim_left eqb
wrapped_test = refl

abbrev small_change : TargetChangeSummary
small_change = record { missing_reference = false; changed = true; dirty_bytes = 10 }

skipped_test : snapshot_needed small_change (some often) ≡ some false
unfolding snapshot_needed parse_byte_size split_unit parse_int read_number read_digits has_suffix
    has_prefix trim_suffix trim_prefix trim_space trim_left eqb
skipped_test = refl

-- A limit of 64 MiB, and 10 dirty bytes.
snapshot_needed-decimal_example :
    snapshot_needed small_change (some often)
    ≡ some (
        small_change.changed
        && (small_change.missing_reference
            || small_change.dirty_bytes == 0
            || leb (64 * 1048576) small_change.dirty_bytes))
unfolding decimal decimal_onto
snapshot_needed-decimal_example =
    snapshot_needed-decimal small_change often 64 1048576 (codes "MiB") mib (omega arith) refl

reports-diff_trees_example :
    reports modified (codes "b") (diff_trees old_tree new_tree)
    ≡ is_kind modified
        (change_between (entry_at old_tree (codes "b")) (entry_at new_tree (codes "b")))
reports-diff_trees_example = reports-diff_trees modified (codes "b") old_tree new_tree

changes_test :
    diff_trees old_tree new_tree ≡ change modified (codes "b") ∷ change added (codes "b/x") ∷ []
unfolding diff_trees right_changes left_changes change_leb tree_map tree_map_from lookup insert eqb
    entry_eqb type_eqb sort insert_sorted str_leb
changes_test = refl
