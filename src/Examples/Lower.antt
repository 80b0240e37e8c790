-- ===== src/Examples/Lower.antt =====
-- A listing of internal/osix/lower_store.go.
use smol_agent_oci_fs.Base.{
  codes, List, All, inl, inr, Bool, true, ◌&&◌, [], ◌∷◌, eqb, has_prefix, trim_prefix, trim_suffix,
  trim_space, trim_left, any, sort, insert_sorted, str_leb, insert, values, some, ◌≡◌, refl,
}
use smol_agent_oci_fs.Paths.Components.{
  canonical_lower_store_path, canonical_layer_path, clean, components, lower_store_parent,
  split_path,
}
use smol_agent_oci_fs.Tree.Entry.{TreeEntry, HasUniquePaths, type_eqb, find_entry}
use smol_agent_oci_fs.Lower.{
  root_entry, lookup_name, lookup_entry, children, read_dir, is_readable_file,
}
use smol_agent_oci_fs.Lower.Listing.{read_dir_lists}
use smol_agent_oci_fs.Lower.Children.{lies_in, IsTreePath}
use smol_agent_oci_fs.Examples.Trees.{new_dir, new_tree}

-- A tree with an entry for the root.
abbrev rooted_tree : List TreeEntry
rooted_tree = root_entry ∷ new_tree

rooted_tree-HasUniquePaths : HasUniquePaths rooted_tree
unfolding eqb
rooted_tree-HasUniquePaths = ((refl, (refl, tt)), ((refl, tt), (tt, tt)))

rooted_tree-AllTreePath : All (λ e. IsTreePath e.path) rooted_tree
unfolding components eqb
rooted_tree-AllTreePath = (
  inl refl,
  (inr ((refl, refl, refl), tt), (inr ((refl, refl, refl), ((refl, refl, refl), tt)), tt)),
)

listing_test : read_dir rooted_tree (codes "") ≡ some (new_dir ∷ [])
unfolding read_dir lookup_entry lookup_name find_entry children insert values sort insert_sorted
    str_leb canonical_lower_store_path canonical_layer_path clean lower_store_parent split_path
    trim_suffix trim_prefix trim_space trim_left has_prefix eqb type_eqb
listing_test = refl

canonical_test : canonical_lower_store_path (codes "") ≡ some []
unfolding canonical_lower_store_path canonical_layer_path clean trim_prefix trim_space trim_left
    has_prefix eqb
canonical_test = refl

readable_test : is_readable_file new_tree (codes "b/x") ≡ true
unfolding is_readable_file lookup_entry lookup_name find_entry canonical_lower_store_path
    canonical_layer_path clean trim_prefix trim_space trim_left has_prefix eqb type_eqb
readable_test = refl

abbrev is_small : TreeEntry → Bool
is_small e = eqb e.digest (codes "22")

read_dir_lists_example :
    any is_small (new_dir ∷ []) ≡ any (λ e. lies_in [] e.path && is_small e) rooted_tree
read_dir_lists_example =
    read_dir_lists rooted_tree (codes "") [] (new_dir ∷ []) is_small rooted_tree-HasUniquePaths
      rooted_tree-AllTreePath canonical_test listing_test
