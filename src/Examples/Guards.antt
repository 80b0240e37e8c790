-- ===== src/Examples/Guards.antt =====
-- The theorems without hypotheses but with inputs, at inputs: the guard on names and the merged
-- whiteouts of internal/osix/snapshot.go.
use mathlib.Core.List.{flatten}
use smol_agent_oci_fs.Base.{Bytes, codes, ◌≡◌, ◌↔◌, some, List, [], ◌∷◌, All}
use smol_agent_oci_fs.Paths.Components.{components, canonical_layer_path}
use smol_agent_oci_fs.Paths.Canonical.{IsPlain, canonical_layer_path-IsPlain}
use smol_agent_oci_fs.Tree.Entry.{is_covered}
use smol_agent_oci_fs.Tree.Whiteout.Defs.{merge_whiteouts}
use smol_agent_oci_fs.Tree.Whiteout.Covering.{nonempty, is_covered-merge_whiteouts}
use smol_agent_oci_fs.Tree.Whiteout.Minimal.{IsApart, merge_whiteouts-IsApart}

canonical_layer_path-IsPlain_example :
    (canonical_layer_path (codes "a/../b") ≡ some (codes "b"))
    ↔ ((codes "b" ≡ codes "a/../b") × All IsPlain (components (codes "a/../b")))
canonical_layer_path-IsPlain_example = canonical_layer_path-IsPlain (codes "a/../b") (codes "b")

abbrev deleted_paths : List (List Bytes)
deleted_paths = (codes "b" ∷ codes "a/x" ∷ []) ∷ (codes "a" ∷ []) ∷ []

is_covered-merge_whiteouts_example :
    is_covered (merge_whiteouts deleted_paths) (codes "a/x/y")
    ≡ is_covered (nonempty (flatten deleted_paths)) (codes "a/x/y")
is_covered-merge_whiteouts_example = is_covered-merge_whiteouts deleted_paths (codes "a/x/y")

merge_whiteouts-IsApart_example : IsApart (merge_whiteouts deleted_paths)
merge_whiteouts-IsApart_example = merge_whiteouts-IsApart deleted_paths
