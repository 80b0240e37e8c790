-- ===== src/Tree/Diff.antt =====
-- `diffLayerEntries` and `typeChangeWhiteouts` of internal/osix/snapshot.go.
pub mod Layer
use smol_agent_oci_fs.Base.{
  Bytes, Bool, true, false, not, List, [], ◌∷◌, map, keep, Option, none, some,
}
use smol_agent_oci_fs.Tree.Entry.{TreeEntry, entry_at, entry_eqb, type_eqb}
use smol_agent_oci_fs.Tree.Whiteout.Defs.{merge_whiteouts}

-- `old, ok := parentMap[entry.Path]; !ok || old != entry`
unfoldable pub is_changed : List TreeEntry → TreeEntry → Bool
is_changed parent e = elim (entry_at parent e.path) [
  | none ↦ true
  | some old ↦ not (entry_eqb old e)
]

-- `_, ok := currentMap[entry.Path]; !ok`
unfoldable pub is_missing : List TreeEntry → TreeEntry → Bool
is_missing current e = elim (entry_at current e.path) [ none ↦ true | some now ↦ false ]

unfoldable pub is_type_changed : List TreeEntry → TreeEntry → Bool
is_type_changed parent e = elim (entry_at parent e.path) [
  | none ↦ false
  | some old ↦ not (type_eqb old.kind e.kind)
]

unfoldable pub paths : List TreeEntry → List Bytes
paths [] = []
paths (e ∷ es) = e.path ∷ paths es

unfoldable pub type_change_whiteouts : List TreeEntry → List TreeEntry → List Bytes
type_change_whiteouts parent changed = paths (keep (is_type_changed parent) changed)

unfoldable pub diff_layer_entries : List TreeEntry → List TreeEntry → List TreeEntry × List Bytes
diff_layer_entries parent current =
    let entries = keep (is_changed parent) current in
    (
      entries,
      merge_whiteouts
          (paths (keep (is_missing current) parent) ∷ type_change_whiteouts parent entries ∷ []),
    )
