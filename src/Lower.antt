-- ===== src/Lower.antt =====
-- The read-only view of a snapshot's tree: `Lookup`, `ReadDir` and `requireReadableFile` of
-- internal/osix/lower_store.go, for the tree of the store. `none` is an error.
pub mod Children
pub mod Listing
use smol_agent_oci_fs.Base.{
  ℕ, Bytes, codes, Bool, true, false, not, ◌||◌, if◌then◌else◌, List, [], ◌∷◌, eqb, sort, str_leb,
  insert, values, Option, none, some,
}
use smol_agent_oci_fs.Paths.Components.{canonical_lower_store_path, lower_store_parent}
use smol_agent_oci_fs.Tree.Entry.{TreeEntry, file, dir, symlink, type_eqb, find_entry}
use smol_agent_oci_fs.Tree.Overlay.{EntryMap}

-- The entry of the root.
abbrev pub root_entry : TreeEntry
root_entry = record { path = []; kind = dir; mode = 493; size = 0; digest = []; linkname = [] }

abbrev pub and_then {ℓ κ} : {A : Type ℓ} {B : Type κ} → Option A → (A → Option B) → Option B
and_then none f = none
and_then (some a) f = f a

-- The first entry with a path that is canonical already, and the root; the Boolean `found` is an
-- Option.
unfoldable pub lookup_name : List TreeEntry → Bytes → Option TreeEntry
lookup_name tree name = if eqb name [] then some root_entry else find_entry name tree

unfoldable pub lookup_entry : List TreeEntry → Bytes → Option (Option TreeEntry)
unfolding lookup_name
lookup_entry tree given =
    and_then (canonical_lower_store_path given) λ name. some (lookup_name tree name)

-- `parent != name || base == ""`
abbrev pub is_child : Bytes → Bytes × Bytes → Bool
is_child name (parent, base) = not (not (eqb parent name) || eqb base [])

-- The loop that fills the map of children.
unfoldable pub children : Bytes → EntryMap → List TreeEntry → EntryMap
children name m [] = m
children name m (e ∷ es) =
    children name
      (if is_child name (lower_store_parent e.path)
        then insert (lower_store_parent e.path).1 e m
        else m)
      es

abbrev pub path_leb : TreeEntry → TreeEntry → Bool
path_leb a b = str_leb a.path b.path

abbrev pub is_directory : Option TreeEntry → Bool
is_directory none = false
is_directory (some e) = type_eqb e.kind dir

unfoldable pub read_dir : List TreeEntry → Bytes → Option (List TreeEntry)
unfolding lookup_entry children
read_dir tree given = and_then (canonical_lower_store_path given) λ name.
    and_then (if eqb name [] then some (some root_entry) else lookup_entry tree name) λ entry.
      if is_directory entry then some (sort path_leb (values (children name [] tree))) else none

abbrev pub is_readable : Option TreeEntry → Bool
is_readable none = false
is_readable (some e) = type_eqb e.kind file || type_eqb e.kind symlink

abbrev pub is_readable_found : Option (Option TreeEntry) → Bool
is_readable_found none = false
is_readable_found (some e) = is_readable e

-- Whether `requireReadableFile` gives no error.
unfoldable pub is_readable_file : List TreeEntry → Bytes → Bool
unfolding lookup_entry
is_readable_file tree name =
    if eqb name [] then false else is_readable_found (lookup_entry tree name)
