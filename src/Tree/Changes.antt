-- ===== src/Tree/Changes.antt =====
-- The reported changes: `diffTrees` and `diffOverlayUpper` of internal/osix/snapshot.go.
pub mod Exact
use smol_agent_oci_fs.Base.{
  Bytes, slash, Bool, true, false, ◌&&◌, ◌||◌, if◌then◌else◌, List, [], ◌∷◌, ◌++◌, eqb, elem, sort,
  str_leb, Option, none, some,
}
use smol_agent_oci_fs.Tree.Entry.{TreeEntry, entry_eqb, tree_map, entry_at}
use smol_agent_oci_fs.Tree.Overlay.{EntryMap, effective_overlay_whiteouts}

-- "A", "M" and "D"
pub data Kind : Type 0 where
  added modified deleted : Kind

unfoldable pub kind_eqb : Kind → Kind → Bool
kind_eqb added added = true
kind_eqb modified modified = true
kind_eqb deleted deleted = true
kind_eqb _ _ = false

-- The order of the letters.
unfoldable pub kind_leb : Kind → Kind → Bool
kind_leb added k = true
kind_leb deleted added = false
kind_leb deleted k = true
kind_leb modified modified = true
kind_leb modified k = false

pub record Change : Type 0 where
  pub kind : Kind
  pub path : Bytes

unfoldable pub change_leb : Change → Change → Bool
change_leb a b = if eqb a.path b.path then kind_leb a.kind b.kind else str_leb a.path b.path

abbrev pub change : Kind → Bytes → Change
change kind path = record { kind = kind; path = slash ∷ path }

-- The loop over the entries on the right. What it finds at a path on the left is an argument.
abbrev pub right_change : Option TreeEntry → Bytes → TreeEntry → List Change → List Change
right_change none path e rest = change added path ∷ rest
right_change (some old) path e rest = if entry_eqb old e then rest else change modified path ∷ rest

unfoldable pub right_changes : List TreeEntry → EntryMap → List Change
right_changes left [] = []
right_changes left ((path, e) ∷ m) = right_change (entry_at left path) path e (right_changes left m)

-- The loop over the entries on the left.
abbrev pub left_change : Option TreeEntry → Bytes → List Change → List Change
left_change none path rest = change deleted path ∷ rest
left_change (some e) path rest = rest

unfoldable pub left_changes : List TreeEntry → EntryMap → List Change
left_changes right [] = []
left_changes right ((path, e) ∷ m) = left_change (entry_at right path) path (left_changes right m)

unfoldable pub diff_trees : List TreeEntry → List TreeEntry → List Change
unfolding right_changes left_changes change_leb
diff_trees left right =
    sort change_leb (right_changes left (tree_map right) ++ left_changes right (tree_map left))

-- The first loop of `diffOverlayUpper`, with the set `seen`.
unfoldable pub upper_changes : List TreeEntry → List Bytes → List TreeEntry → List Change
upper_changes parent seen [] = []
upper_changes parent seen (e ∷ es) = elim (elem e.path seen) [
  | true ↦ upper_changes parent seen es
  | false ↦ right_change (entry_at parent e.path) e.path e (upper_changes parent (e.path ∷ seen) es)
]

unfoldable pub whiteout_changes : List Bytes → List Change
whiteout_changes [] = []
whiteout_changes (path ∷ paths) = change deleted path ∷ whiteout_changes paths

unfoldable pub diff_overlay_upper : List TreeEntry → List TreeEntry → List Bytes → List Change
unfolding upper_changes whiteout_changes change_leb
diff_overlay_upper parent upper whiteouts = sort change_leb (
    upper_changes parent [] upper
    ++ whiteout_changes (effective_overlay_whiteouts parent whiteouts))
