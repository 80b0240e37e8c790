-- ===== src/Layer/Names.antt =====
-- The names of whiteouts in internal/osix/snapshot.go and lazy_read.go.
use smol_agent_oci_fs.Base.{
  Bytes, slash, codes, ◌==◌, if◌then◌else◌, Bool, ◌||◌, [], ◌∷◌, ◌++◌, eqb, has_prefix, trim_prefix,
  trim_suffix, any,
}
use smol_agent_oci_fs.Paths.Components.{split_path, join_path, dot, dotdot}

abbrev pub wh : Bytes
wh = codes ".wh."

abbrev pub opq : Bytes
opq = codes ".wh..wh..opq"

-- whiteoutName
unfoldable pub whiteout_name : Bytes → Bytes
whiteout_name target = let (d, b) = split_path target in join_path d (wh ++ b)

-- isOverlayWhiteoutMarker
unfoldable pub is_overlay_whiteout_marker : Bytes → Bool
is_overlay_whiteout_marker path = has_prefix (split_path path).1 wh

-- strings.ContainsAny(name, `/\`)
abbrev pub has_separator : Bytes → Bool
has_separator = any (λ c. c == slash || c == b'\\')

-- The test of `applyWhiteout` on the name that a marker's base names.
unfoldable pub names_nothing : Bytes → Bool
names_nothing name = eqb name [] || eqb name dot || eqb name dotdot || has_separator name

-- whiteoutTarget of lazy_read.go
unfoldable pub whiteout_target : Bytes → Bytes
unfolding names_nothing
whiteout_target whiteout =
    let (d, b) = split_path whiteout in
    if has_prefix b wh
    then (if names_nothing (trim_prefix b wh) then [] else join_path d (trim_prefix b wh))
    else []

-- overlayWhiteoutTarget
unfoldable pub overlay_whiteout_target : Bytes → Bytes
overlay_whiteout_target path =
    let (d, b) = split_path path in
    if eqb b opq
    then []
    else if has_prefix b wh
    then (if eqb (trim_prefix b wh) [] then [] else join_path d (trim_prefix b wh))
    else []

-- overlayOpaqueTarget
unfoldable pub overlay_opaque_target : Bytes → Bytes
overlay_opaque_target path =
    let (d, b) = split_path path in
    let target = trim_suffix d (slash ∷ []) in
    if eqb b opq then (if eqb target [] || eqb target dot then [] else target) else []
