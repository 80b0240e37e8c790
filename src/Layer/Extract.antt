-- ===== src/Layer/Extract.antt =====
-- `extractLayer`, `validateWhiteoutHeader` and `applyWhiteout` of internal/osix/snapshot.go.
use smol_agent_oci_fs.Base.{
  ℕ, Bytes, ◌==◌, ◌||◌, if◌then◌else◌, List, [], ◌∷◌, eqb, has_prefix, trim_prefix, none, some,
}
use smol_agent_oci_fs.Paths.Components.{split_path, base_of, canonical_layer_path}
use smol_agent_oci_fs.Layer.Disk.{
  Disk, Result, ok, err, unsafe_tar_path, invalid_whiteout, unsupported_tar_entry, ◌>>=◌, ◌>>◌,
  link_node, put, remove_all, descend, mkdir_all, chmod, write_file, ensure_no_symlink_in_path,
  ensure_not_symlink, parent_of,
}
use smol_agent_oci_fs.Layer.Names.{wh, opq, names_nothing}
use smol_agent_oci_fs.Layer.Make.{Header, type_reg, type_dir, type_symlink, type_other}

unfoldable pub validate_whiteout_header : Header → Result (Unit {0})
validate_whiteout_header h = elim h.typeflag [
  | type_reg ↦ if h.size == 0 then ok tt else err (invalid_whiteout h.name)
  | _ ↦ err (invalid_whiteout h.name)
]

unfoldable pub apply_whiteout : Disk → Bytes → Result Disk
apply_whiteout fs whiteout =
    let base = (split_path whiteout).1 in
    let target_name = trim_prefix base wh in
    if eqb base opq
    then err (invalid_whiteout whiteout)
    else if names_nothing target_name || eqb target_name base
    then err (invalid_whiteout whiteout)
    else (do
      ensure_no_symlink_in_path fs (parent_of whiteout)
      ok (remove_all fs (descend (parent_of whiteout) target_name)))

-- The cases of the switch on the type of a header.
module _ (masked : ℕ → ℕ) where
  unfoldable pub extract_dir : Disk → Bytes → ℕ → Result Disk
  extract_dir fs p mode = do
    ensure_no_symlink_in_path fs p
    made ← mkdir_all masked fs p mode
    chmod made p mode

  unfoldable pub extract_file : Disk → Bytes → ℕ → Bytes → Result Disk
  extract_file fs p mode body = do
    ensure_no_symlink_in_path fs (parent_of p)
    made ← mkdir_all masked fs (parent_of p) 493
    ensure_not_symlink made p
    written ← write_file masked made p mode body
    chmod written p mode

  unfoldable pub extract_link : Disk → Bytes → Bytes → Result Disk
  extract_link fs p target = do
    ensure_no_symlink_in_path fs (parent_of p)
    made ← mkdir_all masked fs (parent_of p) 493
    ok (put (remove_all made p) p (link_node target))

  unfoldable pub extract_typed : Disk → Bytes → Header → Result Disk
  extract_typed fs p h = elim h.typeflag [
    | type_dir ↦ extract_dir fs p h.mode
    | type_reg ↦ extract_file fs p h.mode h.body
    | type_symlink ↦ extract_link fs p h.linkname
    | type_other t ↦ err unsupported_tar_entry
  ]

  -- One round of the loop.
  unfoldable pub extract_header : Disk → Header → Result Disk
  extract_header fs h = elim (canonical_layer_path h.name) [
    | none ↦ err (unsafe_tar_path h.name)
    | some clean ↦
        if has_prefix (base_of clean) wh
        then (do validate_whiteout_header h; apply_whiteout fs clean)
        else extract_typed fs clean h
  ]

  unfoldable pub extract_layer : Disk → List Header → Result Disk
  extract_layer fs [] = ok fs
  extract_layer fs (h ∷ hs) = extract_header fs h >>= (λ fs'. extract_layer fs' hs)
