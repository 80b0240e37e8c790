-- ===== src/Tree/Overlay.antt =====
-- The tree of an overlay mount: `changedOverlayEntries`, `effectiveOverlayWhiteouts` and
-- `mergeOverlayTree` of internal/osix/snapshot.go.
pub mod Merge
use smol_agent_oci_fs.Base.{
  ℕ, zero, suc, Bytes, if◌then◌else◌, Bool, true, false, not, ◌||◌, List, [], ◌∷◌, keep, sort,
  str_leb, length, Option, none, some, eqb, lookup, insert, keep_keys, values,
}
use smol_agent_oci_fs.Paths.Components.{dir_of, dot}
use smol_agent_oci_fs.Tree.Entry.{TreeEntry, EntryType, dir, tree_map, entry_at, entry_eqb, covers}
use smol_agent_oci_fs.Tree.Diff.{is_changed}

-- changedOverlayEntries: what `diffLayerEntries` keeps of a tree, of the upper directory
unfoldable pub changed_overlay_entries : List TreeEntry → List TreeEntry → List TreeEntry
changed_overlay_entries parent upper = keep (is_changed parent) upper

abbrev pub is_there : Option TreeEntry → Bool
is_there none = false
is_there (some e) = true

-- effectiveOverlayWhiteouts
unfoldable pub effective_overlay_whiteouts : List TreeEntry → List Bytes → List Bytes
effective_overlay_whiteouts parent whiteouts =
    sort str_leb (keep (λ path. is_there (entry_at parent path)) whiteouts)

abbrev pub EntryMap : Type 0
EntryMap = List (Bytes × TreeEntry)

-- The first loop of `mergeOverlayTree`.
unfoldable pub delete_covered : EntryMap → List Bytes → EntryMap
delete_covered merged [] = merged
delete_covered merged (target ∷ targets) =
    delete_covered (keep_keys (λ path. not (covers target path)) merged) targets

-- `if parentEntry, ok := parentMap[ancestor]; ok && parentEntry.Type == "dir"`
unfoldable pub add_ancestor : List TreeEntry → EntryMap → Bytes → EntryMap
add_ancestor parent merged ancestor = elim (lookup ancestor merged) [
  | some e ↦ merged
  | none ↦ elim (entry_at parent ancestor) [
    | none ↦ merged
    | some e ↦ elim e.kind [ dir ↦ insert ancestor e merged | _ ↦ merged ]
  ]
]

-- The loop over the ancestors of a path. The paths of entries are relative, and each directory of a
-- relative path is shorter than the path in it or is ".", so that the length of the path is fuel
-- enough. For an absolute path the loop of the source does not end, and the model says nothing.
unfoldable pub add_ancestors : ℕ → List TreeEntry → EntryMap → Bytes → EntryMap
add_ancestors zero parent merged ancestor = merged
add_ancestors (suc fuel) parent merged ancestor = elim (eqb ancestor dot || eqb ancestor []) [
  | true ↦ merged
  | false ↦ add_ancestors fuel parent (add_ancestor parent merged ancestor) (dir_of ancestor)
]

-- The second loop of `mergeOverlayTree`.
unfoldable pub add_changed : List TreeEntry → EntryMap → List TreeEntry → EntryMap
add_changed parent merged [] = merged
add_changed parent merged (e ∷ es) =
    add_changed parent
      (add_ancestors (length e.path) parent (insert e.path e merged) (dir_of e.path)) es

unfoldable pub merged_map : List TreeEntry → List TreeEntry → List Bytes → EntryMap
merged_map parent changed whiteouts =
    add_changed parent (delete_covered (tree_map parent) whiteouts) changed

unfoldable pub merge_overlay_tree : List TreeEntry → List TreeEntry → List Bytes → List TreeEntry
merge_overlay_tree parent changed whiteouts =
    sort (λ a b. str_leb a.path b.path) (values (merged_map parent changed whiteouts))
