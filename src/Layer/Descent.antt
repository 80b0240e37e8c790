-- ===== src/Layer/Descent.antt =====
-- When the walks of internal/osix/snapshot.go down to a path succeed: `ensureNoSymlinkInPath`, and
-- `os.MkdirAll` where nothing is missing.
use mathlib.Core.Path.{subst}
use smol_agent_oci_fs.Base.{
  ℕ, Bytes, slash, if◌then◌else◌, true, false, List, [], ◌∷◌, ◌++◌, append_assoc, eqb, eqb_refl,
  none, some, ◌≡◌, ◌⊎◌, inl, inr, refl, ap, ◌∙◌, sym, arith, All, All-map, Bool-cases,
}
use smol_agent_oci_fs.Paths.Components.{components, join, dir_of, dot}
use smol_agent_oci_fs.Paths.Canonical.{
  IsPlain, components-cons, join-components, plain-not_rooted, plain-not_dotdot, plain-not_up,
}
use smol_agent_oci_fs.Paths.Parent.{Dir, top, sub, dir_of_lem}
use smol_agent_oci_fs.Tree.Entry.{Below, at, under}
use smol_agent_oci_fs.Layer.Disk.{
  Disk, dir_node, ok, descend, mkdir_parts, mkdir_all, ensure_parts, ensure_no_symlink_in_path,
  parent_of,
}

abbrev pub IsDirAt : Disk → Bytes → Type 0
IsDirAt fs p = (m : ℕ) × (fs p ≡ some (dir_node m))

-- Nothing is in the way: the path is free or a directory.
abbrev pub IsOpenAt : Disk → Bytes → Type 0
IsOpenAt fs p = (fs p ≡ none) ⊎ IsDirAt fs p

abbrev pub Inside : Bytes → Bytes → Type 0
Inside a p = (r : Bytes) × (p ≡ a ++ (slash ∷ r))

-- The paths that a walk visits.
walk : Bytes → List Bytes → List Bytes
walk current [] = []
walk current (c ∷ cs) = descend current c ∷ walk (descend current c) cs

module _ (fs : Disk) where
  ensure_parts_step :
      (current c : Bytes) (cs : List Bytes)
      → IsOpenAt fs (descend current c)
      → ensure_parts fs (descend current c) cs ≡ ok tt
      → ensure_parts fs current (c ∷ cs) ≡ ok tt
  unfolding ensure_parts
  ensure_parts_step current c cs (inl e) rest = rw (e, ensure_parts)
  ensure_parts_step current c cs (inr (m, e)) rest = rw (e, ensure_parts) rest

  ensure_parts_ok :
      (current : Bytes) (cs : List Bytes)
      → All (IsOpenAt fs) (walk current cs)
      → ensure_parts fs current cs ≡ ok tt
  unfolding walk
  ensure_parts_ok current [] h = unfold ensure_parts in refl
  ensure_parts_ok current (c ∷ cs) h =
      ensure_parts_step current c cs h.0 (ensure_parts_ok (descend current c) cs h.1)

  pub mkdir_parts_step :
      (masked : ℕ → ℕ) (mode : ℕ) (current c : Bytes) (cs : List Bytes) (m : ℕ)
      → fs (descend current c) ≡ some (dir_node m)
      → mkdir_parts masked fs mode current (c ∷ cs)
        ≡ mkdir_parts masked fs mode (descend current c) cs
  unfolding mkdir_parts
  mkdir_parts_step masked mode current c cs m e = rw (e, mkdir_parts)

  mkdir_parts_same :
      (masked : ℕ → ℕ) (mode : ℕ) (current : Bytes) (cs : List Bytes)
      → All (IsDirAt fs) (walk current cs)
      → mkdir_parts masked fs mode current cs ≡ ok fs
  unfolding walk
  mkdir_parts_same masked mode current [] h = unfold mkdir_parts in refl
  mkdir_parts_same masked mode current (c ∷ cs) h =
      mkdir_parts_step masked mode current c cs h.0.0 h.0.1
      ∙ mkdir_parts_same masked mode (descend current c) cs h.1

pub not_empty : (x s : Bytes) → eqb (x ++ (slash ∷ s)) [] ≡ false
unfolding eqb
not_empty [] s = refl
not_empty (c ∷ x) s = refl

pub descend_below :
    (current c : Bytes) → eqb current [] ≡ false → descend current c ≡ current ++ (slash ∷ c)
unfolding descend
descend_below current c h = rw h

-- A walk down to a path visits paths at or above it.
walk_from :
    (current c : Bytes) (cs : List Bytes)
    → eqb current [] ≡ false
    → All (λ a. Below a (current ++ (slash ∷ join (c ∷ cs)))) (walk current (c ∷ cs))
unfolding walk join
walk_from current c [] h = rw (descend_below current c h) (at refl, tt)
walk_from current c (d ∷ cs) h =
    let target : (current ++ (slash ∷ c)) ++ (slash ∷ join (d ∷ cs))
        ≡ current ++ (slash ∷ (c ++ (slash ∷ join (d ∷ cs)))) =
      append_assoc current (slash ∷ c) (slash ∷ join (d ∷ cs)) in
    rw (descend_below current c h) (
      under (join (d ∷ cs)) (sym target),
      All-map (λ a. Below a ((current ++ (slash ∷ c)) ++ (slash ∷ join (d ∷ cs))))
          (λ a. Below a (current ++ (slash ∷ (c ++ (slash ∷ join (d ∷ cs))))))
          (walk (current ++ (slash ∷ c)) (d ∷ cs)) (λ a b. rw target at b)
          (walk_from (current ++ (slash ∷ c)) d cs (not_empty current c)),
    )

pub descend_root : (c : Bytes) → descend [] c ≡ c
unfolding descend eqb
descend_root c = refl

walk_start :
    (c : Bytes) (cs : List Bytes)
    → eqb c [] ≡ false
    → All (λ a. Below a (join (c ∷ cs))) (walk [] (c ∷ cs))
unfolding walk join
walk_start c [] h = rw (descend_root c) (at refl, tt)
walk_start c (d ∷ cs) h = rw (descend_root c) (under (join (d ∷ cs)) refl, walk_from c d cs h)

walk-Below :
    (p : Bytes) → All IsPlain (components p) → All (λ a. Below a p) (walk [] (components p))
walk-Below p h =
    let (c, cs, e) = components-cons p in
    let same : join (c ∷ cs) ≡ p = ap join (sym e) ∙ join-components p in
    let plain : All IsPlain (c ∷ cs) = rw e at h in
    rw e (
      All-map (λ a. Below a (join (c ∷ cs))) (λ a. Below a p) (walk [] (c ∷ cs))
        (λ a b. subst (Below a) same b) (walk_start c cs plain.0.0))

pub plain-not_empty : (p : Bytes) → All IsPlain (components p) → eqb p [] ≡ false
unfolding components eqb
plain-not_empty [] h = cc h.0.0
plain-not_empty (c ∷ p) h = refl

module _ (fs : Disk) (p : Bytes) (plain : All IsPlain (components p)) where
  -- The guard passes where nothing is in the way.
  pub ensure_ok : ((a : Bytes) → Below a p → IsOpenAt fs a) → ensure_no_symlink_in_path fs p ≡ ok tt
  unfolding ensure_no_symlink_in_path
  ensure_ok open_at =
      let (c, cs, e) = components-cons p in
      let plain' : All IsPlain (c ∷ cs) = rw e at plain in
      let walked =
        All-map (λ a. Below a p) (IsOpenAt fs) (walk [] (components p)) open_at
          (walk-Below p plain) in
      rw
        (
          plain-not_empty p plain,
          plain-not_up p c cs e plain'.0,
          plain-not_dotdot p c cs e plain'.0,
          plain-not_rooted p c cs e plain'.0,
        )
        (ensure_parts_ok fs [] (components p) walked)

  -- Where all directories are there, nothing is made.
  pub mkdir_all_same :
      (masked : ℕ → ℕ) (mode : ℕ)
      → ((a : Bytes) → Below a p → IsDirAt fs a)
      → mkdir_all masked fs p mode ≡ ok fs
  unfolding mkdir_all
  mkdir_all_same masked mode dirs = rw (plain-not_empty p plain) (
      mkdir_parts_same fs masked mode [] (components p)
        (All-map (λ a. Below a p) (IsDirAt fs) (walk [] (components p)) dirs (walk-Below p plain)))

above_parent :
    (p : Bytes) (b : Bytes)
    → p ≡ dir_of p ++ (slash ∷ b)
    → (a : Bytes) → Below a (dir_of p)
    → Inside a p
above_parent p b e a (at f) = (b, e ∙ ap (λ (z : Bytes). z ++ (slash ∷ b)) f)
above_parent p b e a (under r f) = (
  r ++ (slash ∷ b),
  e ∙ ap (λ (z : Bytes). z ++ (slash ∷ b)) f ∙ append_assoc a (slash ∷ r) (slash ∷ b),
)

module _ (fs : Disk) (p : Bytes) (plain : All IsPlain (components p)) where
  pub ensure_parent_ok :
      ((a : Bytes) → Inside a p → IsOpenAt fs a)
      → ensure_no_symlink_in_path fs (parent_of p) ≡ ok tt
  unfolding parent_of
  ensure_parent_ok open_at = go (dir_of_lem p plain) (Bool-cases (eqb (dir_of p) dot))
    where
      root : ensure_no_symlink_in_path fs [] ≡ ok tt
      root = unfold ensure_no_symlink_in_path eqb in refl

      go :
          Dir p
          → (eqb (dir_of p) dot ≡ true) ⊎ (eqb (dir_of p) dot ≡ false)
          → ensure_no_symlink_in_path fs (if eqb (dir_of p) dot then [] else dir_of p) ≡ ok tt
      go d (inl y) = rw y root
      go (top e) (inr n) = absurd (ground (arith, e, n, eqb_refl dot))
      go (sub b e above) (inr n) =
          rw n (ensure_ok fs (dir_of p) above (λ a h. open_at a (above_parent p b e a h)))

  pub mkdir_parent_same :
      (masked : ℕ → ℕ) (mode : ℕ)
      → ((a : Bytes) → Inside a p → IsDirAt fs a)
      → mkdir_all masked fs (parent_of p) mode ≡ ok fs
  unfolding parent_of
  mkdir_parent_same masked mode dirs = go (dir_of_lem p plain) (Bool-cases (eqb (dir_of p) dot))
    where
      root : mkdir_all masked fs [] mode ≡ ok fs
      root = unfold mkdir_all eqb in refl

      go :
          Dir p
          → (eqb (dir_of p) dot ≡ true) ⊎ (eqb (dir_of p) dot ≡ false)
          → mkdir_all masked fs (if eqb (dir_of p) dot then [] else dir_of p) mode ≡ ok fs
      go d (inl y) = rw y root
      go (top e) (inr n) = absurd (ground (arith, e, n, eqb_refl dot))
      go (sub b e above) (inr n) =
          rw n (
            mkdir_all_same fs (dir_of p) above masked mode (λ a h. dirs a (above_parent p b e a h)))
