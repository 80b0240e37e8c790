-- ===== src/Reads/Lazy/Marker.antt =====
-- The target that lazy reads find in the name of a whiteout, `whiteoutTarget` of
-- internal/osix/lazy_read.go, is the path that `whiteoutName` of snapshot.go made the name for.
use smol_agent_oci_fs.Base.{
  Bytes, slash, true, false, [], ◌∷◌, ◌++◌, eqb, has_prefix, has_prefix-append, trim_prefix-append,
  ◌≡◌, refl, ap, ◌∙◌, sym, append_assoc, All, All-append,
}
use smol_agent_oci_fs.Paths.Components.{components, split_path, base_of, join_path, clean}
use smol_agent_oci_fs.Paths.Canonical.{IsPlain, HasNoSlash, plain-clean}
use smol_agent_oci_fs.Paths.Parent.{
  split_single, split_inside, clean_child, components-append_slash,
}
use smol_agent_oci_fs.Layer.Names.{wh, has_separator, names_nothing, whiteout_name, whiteout_target}
use smol_agent_oci_fs.Layer.Descent.{not_empty}
use smol_agent_oci_fs.Layer.Whiteouts.{
  IsTarget, Marked, alone_marked, inside_marked, whiteout_name-Marked, wh-IsPlain, wh-HasNoSlash,
  single_components, names_nothing_plain,
}

join_alone : (b : Bytes) → HasNoSlash b → IsPlain b → join_path [] b ≡ b
unfolding join_path eqb
join_alone b h plain = rw (plain.0) (plain-clean b (single_components b h plain))

join_below :
    (d b : Bytes)
    → All IsPlain (components d)
    → HasNoSlash b
    → IsPlain b
    → join_path (d ++ (slash ∷ [])) b ≡ d ++ (slash ∷ b)
unfolding join_path
join_below d b hd hb plain =
    rw (not_empty d [], plain.0)
      (ap clean (append_assoc d (slash ∷ []) (slash ∷ b)) ∙ clean_child d b hd hb plain)

-- The two facts on the name of a whiteout that a read uses.
abbrev Reads : Bytes → Bytes → Type 0
Reads t w =
    (whiteout_target w ≡ t) × (has_prefix (base_of w) wh ≡ true) × All IsPlain (components w)

target_of :
    (w d b : Bytes)
    → split_path w ≡ (d, wh ++ b)
    → names_nothing b ≡ false
    → (whiteout_target w ≡ join_path d b) × (has_prefix (base_of w) wh ≡ true)
unfolding whiteout_target base_of
target_of w d b e n = (
  rw e (rw (has_prefix-append wh b, trim_prefix-append wh b, n) refl),
  ap (λ (z : Bytes × Bytes). has_prefix z.1 wh) e ∙ has_prefix-append wh b,
)

base_separator :
    (t d b : Bytes)
    → split_path t ≡ (d, b)
    → has_separator (base_of t) ≡ false
    → has_separator b ≡ false
unfolding base_of
base_separator t d b e h = ap (λ (z : Bytes × Bytes). has_separator z.1) (sym e) ∙ h

Marked-Reads : (t w : Bytes) → IsTarget t → Marked t w → Reads t w
Marked-Reads t w h (alone_marked free plain e) =
    let sep = base_separator t [] t (split_single t free) h.2 in
    let free_w = wh-HasNoSlash t free in
    let (target, marked) =
      target_of w [] t (ap split_path e ∙ split_single (wh ++ t) free_w)
        (names_nothing_plain t plain sep) in
    (
      target ∙ join_alone t free plain,
      marked,
      rw e (single_components (wh ++ t) free_w (wh-IsPlain t)),
    )
Marked-Reads t w h (inside_marked d b f hd free plain e) =
    let above = d ++ (slash ∷ []) in
    let sep = base_separator t above b (ap split_path f ∙ split_inside d b free) h.2 in
    let free_w = wh-HasNoSlash b free in
    let (target, marked) =
      target_of w above b (ap split_path e ∙ split_inside d (wh ++ b) free_w)
        (names_nothing_plain b plain sep) in
    (
      target ∙ join_below d b hd free plain ∙ sym f,
      marked,
      rw e (
          rw (components-append_slash d (wh ++ b)) (
            All-append IsPlain (components d) (components (wh ++ b)) hd
              (single_components (wh ++ b) free_w (wh-IsPlain b)))),
    )

-- The name of the whiteout of a path is a plain path, has the marker, and gives the path back.
pub whiteout_target-whiteout_name :
    (t : Bytes)
    → IsTarget t
    → (whiteout_target (whiteout_name t) ≡ t)
      × (has_prefix (base_of (whiteout_name t)) wh ≡ true)
      × All IsPlain (components (whiteout_name t))
whiteout_target-whiteout_name t h = Marked-Reads t (whiteout_name t) h (whiteout_name-Marked t h)
