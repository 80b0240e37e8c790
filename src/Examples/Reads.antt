-- ===== src/Examples/Reads.antt =====
-- Ranges of internal/osix/lazy_read.go and sources of internal/osix/snapshot.go at inputs.
use smol_agent_oci_fs.Base.{
  Bytes, codes, List, [], ◌∷◌, reverse, none, some, ◌≡◌, refl, arith, eqb, lookup, insert,
}
use smol_agent_oci_fs.Tree.Entry.{TreeEntry, file, tree_map, entry_eqb, type_eqb}
use smol_agent_oci_fs.Reads.Range.{take, drop, slice_range, slice_range-take, slice_range_panics}
use smol_agent_oci_fs.Reads.Source.{
  ChainItem, has_entry, parent_has_entry, newest_source, restore_source_digest_for_entry,
  Introduced, restore_source_digest_for_entry-Introduced,
}

abbrev text : Bytes
text = codes "abcdef"

slice_range-take_example : slice_range text 2 3 ≡ some (take 3 (drop 2 text))
slice_range-take_example = slice_range-take text 2 3 (omega arith)

-- --offset 1 --length 9223372036854775807
slice_range_panics_example : slice_range text 1 9223372036854775807 ≡ none
slice_range_panics_example =
    slice_range_panics text 1 9223372036854775807 (omega arith) (omega arith) (omega arith)
      (omega arith)

abbrev notes : TreeEntry
notes = record {
  path = codes "n";
  kind = file;
  mode = 420;
  size = 1;
  digest = codes "1";
  linkname = [];
}

abbrev chain : List ChainItem
chain =
    record { digest = codes "d0"; tree = [] }
    ∷ record { digest = codes "d1"; tree = notes ∷ [] }
    ∷ record { digest = codes "d2"; tree = notes ∷ [] }
    ∷ []

source_test : restore_source_digest_for_entry chain notes ≡ some (codes "d1")
unfolding restore_source_digest_for_entry newest_source parent_has_entry has_entry tree_map lookup
    insert eqb entry_eqb type_eqb
source_test = refl

restore_source_digest_for_entry-Introduced_example :
    (d : Bytes) × (restore_source_digest_for_entry chain notes ≡ some d)
    × Introduced notes (reverse chain) d
unfolding parent_has_entry has_entry tree_map lookup insert eqb entry_eqb type_eqb
restore_source_digest_for_entry-Introduced_example =
    restore_source_digest_for_entry-Introduced chain notes refl
