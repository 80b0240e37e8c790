-- ===== src/Examples/Overlay.antt =====
-- The overlay tree of internal/osix/snapshot.go on small inputs.
use smol_agent_oci_fs.Base.{
  codes, List, [], ◌∷◌, none, some, eqb, has_prefix, lookup, insert, any, ◌≡◌, ◌⊎◌, refl,
}
use smol_agent_oci_fs.Tree.Entry.{
  TreeEntry, file, dir, tree_map, entry_at, find_entry, covers, is_covered, or_else,
}
use smol_agent_oci_fs.Tree.Overlay.{merged_map, changed_overlay_entries}
use smol_agent_oci_fs.Tree.Overlay.Merge.{
  lookup-merged_map_uncovered, lookup-merged_map_covered, equal_entry_lost,
}

abbrev state_dir : TreeEntry
state_dir = record {
  path = codes "d";
  kind = dir;
  mode = 493;
  size = 0;
  digest = [];
  linkname = [];
}

abbrev state_file : TreeEntry
state_file = record {
  path = codes "d/f";
  kind = file;
  mode = 420;
  size = 1;
  digest = codes "1";
  linkname = [];
}

abbrev parent_tree : List TreeEntry
parent_tree = state_dir ∷ state_file ∷ []

lookup-merged_map_uncovered_example :
    lookup (codes "d") (merged_map parent_tree [] (codes "d/f" ∷ []))
    ≡ or_else (find_entry (codes "d") []) (entry_at parent_tree (codes "d"))
unfolding is_covered any covers eqb has_prefix
lookup-merged_map_uncovered_example =
    lookup-merged_map_uncovered parent_tree [] (codes "d/f" ∷ []) (codes "d") tt refl

lookup-merged_map_covered_example :
    (lookup (codes "d/f") (merged_map parent_tree [] (codes "d/f" ∷ []))
      ≡ find_entry (codes "d/f") [])
    ⊎ ((e : TreeEntry) × (entry_at parent_tree (codes "d/f") ≡ some e)
        × (e.kind ≡ dir)
        × (lookup (codes "d/f") (merged_map parent_tree [] (codes "d/f" ∷ [])) ≡ some e))
unfolding is_covered any covers eqb has_prefix
lookup-merged_map_covered_example =
    lookup-merged_map_covered parent_tree [] (codes "d/f" ∷ []) (codes "d/f") tt refl

-- The upper directory replaces `d` by an opaque directory and writes `d/f` again as it was.
equal_entry_lost_example :
    lookup
      (codes "d/f")
      (merged_map parent_tree (changed_overlay_entries parent_tree parent_tree) (codes "d" ∷ []))
    ≡ none
unfolding is_covered any covers eqb has_prefix find_entry tree_map lookup insert
equal_entry_lost_example =
    equal_entry_lost parent_tree parent_tree (codes "d" ∷ []) (codes "d/f") state_file
      ((refl, tt), (tt, tt)) refl refl (λ e. cc) refl
