-- ===== src/Layer/Whiteouts.antt =====
-- A whiteout of internal/osix/snapshot.go, from the name that `whiteoutName` gives it to what
-- `applyWhiteout` removes.
use mathlib.Core.Path.{subst}
use smol_agent_oci_fs.Base.{
  ℕ, Bytes, codes, slash, true, false, [], ◌∷◌, ◌++◌, eqb, eqb→eq, eqb_refl, has_prefix,
  has_prefix-append, trim_prefix, trim_prefix-append, any, ◌≡◌, refl, ap, ◌∙◌, sym, arith,
  append_assoc, All, All-append,
}
use smol_agent_oci_fs.Paths.Components.{
  components, split_path, base_of, dir_of, join_path, clean, dot,
}
use smol_agent_oci_fs.Paths.Canonical.{
  IsPlain, HasNoSlash, accept_plain, components_single, plain-clean, false_of_not,
}
use smol_agent_oci_fs.Paths.Parent.{
  Split, alone, inside, split_path-Split, split_single, split_inside, clean_child,
  components-append_slash, All-append_left, All-append_right, clean_trailing, clean_none,
  dir_of-split,
}
use smol_agent_oci_fs.Tree.Entry.{Below, at, under}
use smol_agent_oci_fs.Layer.Disk.{
  Disk, ok, remove_all, descend, parent_of, ensure_no_symlink_in_path,
}
use smol_agent_oci_fs.Layer.Names.{wh, opq, has_separator, names_nothing, whiteout_name}
use smol_agent_oci_fs.Layer.Make.{whiteout_header}
use smol_agent_oci_fs.Layer.Extract.{validate_whiteout_header, apply_whiteout, extract_header}
use smol_agent_oci_fs.Layer.Descent.{
  IsOpenAt, Inside, ensure_ok, not_empty, descend_below, plain-not_empty,
}

-- A path that a whiteout may name: plain components, the last of which is no marker and has no
-- backslash.
abbrev pub IsTarget : Bytes → Type 0
IsTarget t =
    All IsPlain (components t)
    × (has_prefix (base_of t) wh ≡ false)
    × (has_separator (base_of t) ≡ false)

-- The name of a whiteout: the marker is put before the last component.
pub data Marked (t w : Bytes) : Type 0 where
  alone_marked : HasNoSlash t → IsPlain t → w ≡ wh ++ t → Marked t w
  inside_marked :
      (d b : Bytes)
      → t ≡ d ++ (slash ∷ b)
      → All IsPlain (components d)
      → HasNoSlash b
      → IsPlain b
      → w ≡ d ++ (slash ∷ (wh ++ b))
      → Marked t w

pub wh-IsPlain : (b : Bytes) → IsPlain (wh ++ b)
unfolding eqb
wh-IsPlain b = (refl, refl, refl)

pub wh-HasNoSlash : (b : Bytes) → HasNoSlash b → HasNoSlash (wh ++ b)
wh-HasNoSlash b h = (refl, (refl, (refl, (refl, h))))

no_separator-HasNoSlash : (b : Bytes) → has_separator b ≡ false → HasNoSlash b
unfolding any
no_separator-HasNoSlash [] h = tt
no_separator-HasNoSlash (c ∷ b) h =
    (ground (arith, h), no_separator-HasNoSlash b (ground (arith, h)))

single-IsPlain : (b : Bytes) → HasNoSlash b → All IsPlain (components b) → IsPlain b
single-IsPlain b h plain =
    let one : All IsPlain (b ∷ []) = rw (components_single b h) at plain in one.0

pub single_components : (b : Bytes) → HasNoSlash b → IsPlain b → All IsPlain (components b)
single_components b h plain = rw (components_single b h) (plain, tt)

join_root : (b : Bytes) → HasNoSlash b → join_path [] (wh ++ b) ≡ wh ++ b
unfolding join_path eqb
join_root b h =
    plain-clean (wh ++ b) (single_components (wh ++ b) (wh-HasNoSlash b h) (wh-IsPlain b))

join_inside :
    (d b : Bytes)
    → All IsPlain (components d)
    → HasNoSlash b
    → join_path (d ++ (slash ∷ [])) (wh ++ b) ≡ d ++ (slash ∷ (wh ++ b))
unfolding join_path
join_inside d b hd hb =
    rw (not_empty d [], not_empty [] [])
      (ap clean (append_assoc d (slash ∷ []) (slash ∷ (wh ++ b)))
        ∙ clean_child d (wh ++ b) hd (wh-HasNoSlash b hb) (wh-IsPlain b))

whiteout_name-split :
    (t : Bytes) (q : Bytes × Bytes) → split_path t ≡ q → whiteout_name t ≡ join_path q.0 (wh ++ q.1)
unfolding whiteout_name
whiteout_name-split t q e = ap (λ (z : Bytes × Bytes). join_path z.0 (wh ++ z.1)) e

base_of-split : (t : Bytes) (q : Bytes × Bytes) → split_path t ≡ q → base_of t ≡ q.1
unfolding base_of
base_of-split t q e = ap (λ (z : Bytes × Bytes). z.1) e

pub whiteout_name-Marked : (t : Bytes) → IsTarget t → Marked t (whiteout_name t)
whiteout_name-Marked t h = go (split_path t) refl (split_path-Split t)
  where
    base_no_slash : (q : Bytes × Bytes) → split_path t ≡ q → HasNoSlash q.1
    base_no_slash q e =
        no_separator-HasNoSlash q.1 (ap has_separator (sym (base_of-split t q e)) ∙ h.2)

    go : (q : Bytes × Bytes) → split_path t ≡ q → Split t q → Marked t (whiteout_name t)
    go _ e alone =
        let free = base_no_slash ([], t) e in
        alone_marked free (single-IsPlain t free h.0)
          (whiteout_name-split t ([], t) e ∙ join_root t free)
    go _ e (inside d b f) =
        let free = base_no_slash (d ++ (slash ∷ []), b) e in
        let parts = subst (All IsPlain) (ap components f ∙ components-append_slash d b) h.0 in
        let plain = All-append_left IsPlain (components d) (components b) parts in
        inside_marked d b f plain free
          (single-IsPlain b free (All-append_right IsPlain (components d) (components b) parts))
          (whiteout_name-split t (d ++ (slash ∷ []), b) e ∙ join_inside d b plain free)

-- What `applyWhiteout` finds in the name of a whiteout.
abbrev Facts : Disk → Bytes → Bytes → Type 0
Facts fs t w =
    (b : Bytes) × (base_of t ≡ b)
    × (base_of w ≡ wh ++ b)
    × IsPlain b
    × All IsPlain (components w)
    × (ensure_no_symlink_in_path fs (parent_of w) ≡ ok tt)
    × (descend (parent_of w) b ≡ t)

parent_of-dir : (w d : Bytes) → dir_of w ≡ d → eqb d dot ≡ false → parent_of w ≡ d
unfolding parent_of
parent_of-dir w d e n = rw e (rw n)

parent_of-root : (w : Bytes) → dir_of w ≡ dot → parent_of w ≡ []
unfolding parent_of
parent_of-root w e = rw e (rw (eqb_refl dot))

dot-not_plain : (d : Bytes) → All IsPlain (components d) → eqb d dot ≡ false
unfolding components
dot-not_plain d h = false_of_not _ λ e.
    let dots : All IsPlain (components dot) =
      subst (λ (z : Bytes). All IsPlain (components z)) (eqb→eq d dot e) h in
    ground (arith, dots.0.1, eqb_refl dot)

module _ (fs : Disk) (t : Bytes) (open_at : (a : Bytes) → Inside a t → IsOpenAt fs a) where
  root-Facts : (w : Bytes) → HasNoSlash t → IsPlain t → w ≡ wh ++ t → Facts fs t w
  root-Facts w free plain e =
      let free_w = wh-HasNoSlash t free in
      let split_w : split_path w ≡ ([], wh ++ t) =
        ap split_path e ∙ split_single (wh ++ t) free_w in
      let root = parent_of-root w (dir_of-split w ([], wh ++ t) split_w ∙ clean_none) in
      (
        t,
        base_of-split t ([], t) (split_single t free),
        base_of-split w ([], wh ++ t) split_w,
        plain,
        rw e (single_components (wh ++ t) free_w (wh-IsPlain t)),
        ap (ensure_no_symlink_in_path fs) root ∙ (unfold ensure_no_symlink_in_path eqb in refl),
        ap (λ (z : Bytes). descend z t) root ∙ (unfold descend eqb in refl),
      )

  inside-Facts :
      (w d b : Bytes)
      → t ≡ d ++ (slash ∷ b)
      → All IsPlain (components d)
      → HasNoSlash b
      → IsPlain b
      → w ≡ d ++ (slash ∷ (wh ++ b))
      → Facts fs t w
  inside-Facts w d b f hd free plain e =
      let free_w = wh-HasNoSlash b free in
      let split_w : split_path w ≡ (d ++ (slash ∷ []), wh ++ b) =
        ap split_path e ∙ split_inside d (wh ++ b) free_w in
      let parent =
        parent_of-dir w d
          (dir_of-split w (d ++ (slash ∷ []), wh ++ b) split_w ∙ clean_trailing d hd)
          (dot-not_plain d hd) in
      (
        b,
        base_of-split t (d ++ (slash ∷ []), b) (ap split_path f ∙ split_inside d b free),
        base_of-split w (d ++ (slash ∷ []), wh ++ b) split_w,
        plain,
        rw e (
            rw (components-append_slash d (wh ++ b)) (
              All-append IsPlain (components d) (components (wh ++ b)) hd
                (single_components (wh ++ b) free_w (wh-IsPlain b)))),
        ap (ensure_no_symlink_in_path fs) parent ∙ ensure_ok fs d hd (λ a h. open_at a (above a h)),
        ap (λ (z : Bytes). descend z b) parent ∙ descend_below d b (plain-not_empty d hd) ∙ sym f,
      )
    where
      above : (a : Bytes) → Below a d → Inside a t
      above a (at g) = (b, f ∙ ap (λ (z : Bytes). z ++ (slash ∷ b)) g)
      above a (under r g) = (
        r ++ (slash ∷ b),
        f ∙ ap (λ (z : Bytes). z ++ (slash ∷ b)) g ∙ append_assoc a (slash ∷ r) (slash ∷ b),
      )

  Marked-Facts : (w : Bytes) → Marked t w → Facts fs t w
  Marked-Facts w (alone_marked free plain e) = root-Facts w free plain e
  Marked-Facts w (inside_marked d b f hd free plain e) = inside-Facts w d b f hd free plain e

opaque_base : (b : Bytes) → wh ++ b ≡ opq → b ≡ codes ".wh..opq"
unfolding trim_prefix
opaque_base b e = sym (trim_prefix-append wh b) ∙ ap (λ (z : Bytes). trim_prefix z wh) e

not_opaque : (b : Bytes) → has_prefix b wh ≡ false → eqb (wh ++ b) opq ≡ false
unfolding has_prefix
not_opaque b h = false_of_not _ λ e.
    let same = opaque_base b (eqb→eq (wh ++ b) opq e) in
    let yes' : has_prefix b wh ≡ true = rw same in ground (arith, h, yes')

not_itself : (b : Bytes) → has_prefix b wh ≡ false → eqb b (wh ++ b) ≡ false
not_itself b h = false_of_not _ λ e. ground (arith, h, has_prefix-append wh b, eqb→eq b (wh ++ b) e)

pub names_nothing_plain :
    (b : Bytes) → IsPlain b → has_separator b ≡ false → names_nothing b ≡ false
unfolding names_nothing
names_nothing_plain b plain h = rw (plain.0, plain.1, plain.2, h)

apply_marked :
    (fs : Disk) (t w b : Bytes)
    → base_of w ≡ wh ++ b
    → IsPlain b
    → has_prefix b wh ≡ false
    → has_separator b ≡ false
    → ensure_no_symlink_in_path fs (parent_of w) ≡ ok tt
    → descend (parent_of w) b ≡ t
    → apply_whiteout fs w ≡ ok (remove_all fs t)
unfolding apply_whiteout base_of
apply_marked fs t w b base plain marker sep guard target = rw base (
    rw
      (
        trim_prefix-append wh b,
        not_opaque b marker,
        names_nothing_plain b plain sep,
        not_itself b marker,
        guard,
      )
      (ap (λ (z : Bytes). ok (remove_all fs z)) target))

extract_marked :
    (masked : ℕ → ℕ) (fs : Disk) (t b : Bytes)
    → All IsPlain (components (whiteout_name t))
    → base_of (whiteout_name t) ≡ wh ++ b
    → extract_header masked fs (whiteout_header t) ≡ apply_whiteout fs (whiteout_name t)
unfolding extract_header validate_whiteout_header
extract_marked masked fs t b plain base =
    rw (accept_plain (whiteout_name t) plain, extract_header) (rw (base, has_prefix-append wh b))

-- A whiteout that the snapshot wrote for a path removes the path and what lies below it.
pub extract_header-whiteout :
    (masked : ℕ → ℕ) (fs : Disk) (t : Bytes)
    → IsTarget t
    → ((a : Bytes) → Inside a t → IsOpenAt fs a)
    → extract_header masked fs (whiteout_header t) ≡ ok (remove_all fs t)
extract_header-whiteout masked fs t h open_at =
    let w = whiteout_name t in
    let (b, base_t, base_w, plain, plain_w, guard, target) =
      Marked-Facts fs t open_at w (whiteout_name-Marked t h) in
    let marker = ap (λ (z : Bytes). has_prefix z wh) (sym base_t) ∙ h.1 in
    let sep = ap has_separator (sym base_t) ∙ h.2 in
    extract_marked masked fs t b plain_w base_w
    ∙ apply_marked fs t w b base_w plain marker sep guard target
