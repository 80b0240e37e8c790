-- ===== src/Lower/Children.antt =====
-- The paths that lie in a directory, and `lowerStoreParent` of internal/osix/lower_store.go.
use mathlib.Core.Path.{subst}
use mathlib.Core.List.{append_assoc, reverse, reverse-append, reverse-reverse}
use smol_agent_oci_fs.Base.{
  ℕ, Bytes, slash, Bool, true, false, not, if◌then◌else◌, ◌==◌, ◌&&◌, [], ◌∷◌, ◌++◌, eqb, eqb→eq,
  eqb_refl, eq_of_iff, any, has_prefix, has_prefix-append, has_prefix_split, trim_prefix,
  trim_prefix-append, trim_suffix, Bool-cases, inl, inr, ◌≡◌, ◌≢◌, ◌⊎◌, refl, arith, ap, ◌∙◌, sym,
  All,
}
use smol_agent_oci_fs.Paths.Components.{components, split_step, split_path, lower_store_parent}
use smol_agent_oci_fs.Paths.Canonical.{IsPlain, HasNoSlash, components-cons, plain-not_rooted}
use smol_agent_oci_fs.Paths.Parent.{
  Split, alone, inside, split_path-Split, split_single, split_inside,
}
use smol_agent_oci_fs.Lower.{is_child}

-- One name: not empty, and without a slash.
unfoldable pub is_name : Bytes → Bool
is_name s = not (eqb s []) && not (any (λ c. c == slash) s)

-- Whether a path is that of a name in a directory, the root being the empty path.
unfoldable pub lies_in : Bytes → Bytes → Bool
unfolding is_name
lies_in [] path = is_name path
lies_in (c ∷ name) path =
    let above = (c ∷ name) ++ (slash ∷ []) in
    has_prefix path above && is_name (trim_prefix path above)

no_slash : (s : Bytes) → any (λ c. c == slash) s ≡ false → HasNoSlash s
unfolding any
no_slash [] h = tt
no_slash (c ∷ s) h = (ground (arith, h), no_slash s (ground (arith, h)))

slash_free : (s : Bytes) → HasNoSlash s → any (λ c. c == slash) s ≡ false
unfolding any
slash_free [] h = refl
slash_free (c ∷ s) h = ground (arith, h.0, slash_free s h.1)

split_step-HasNoSlash : (c : ℕ) (q : Bytes × Bytes) → HasNoSlash q.1 → HasNoSlash (split_step c q).1
split_step-HasNoSlash c ([], b) h = elim (Bool-cases (c == slash)) [
  | inl y ↦ rw y h
  | inr n ↦ rw n (n, h)
]
split_step-HasNoSlash c (e ∷ ds, b) h = h

split_path-HasNoSlash : (p : Bytes) → HasNoSlash (split_path p).1
unfolding split_path
split_path-HasNoSlash [] = tt
split_path-HasNoSlash (c ∷ s) = split_step-HasNoSlash c (split_path s) (split_path-HasNoSlash s)

-- A path that ends in a name.
lies_in_below :
    (d b : Bytes) → eqb d [] ≡ false → is_name b ≡ true → lies_in d (d ++ (slash ∷ b)) ≡ true
unfolding lies_in
lies_in_below [] b n h = absurd (ground (arith, n, eqb_refl []))
lies_in_below (c ∷ d) b n h =
    let at : (c ∷ d) ++ (slash ∷ b) ≡ ((c ∷ d) ++ (slash ∷ [])) ++ b =
      sym (append_assoc (c ∷ d) (slash ∷ []) b) in
    rw at (
      rw
        (
          has_prefix-append ((c ∷ d) ++ (slash ∷ [])) b,
          trim_prefix-append ((c ∷ d) ++ (slash ∷ [])) b,
          h,
        )
        refl)

trim_suffix-append : (d t : Bytes) → trim_suffix (d ++ t) t ≡ d
unfolding trim_suffix
trim_suffix-append d t =
    rw (reverse-append d t, trim_prefix-append (reverse t) (reverse d)) (reverse-reverse d)

place_alone : (p : Bytes) → HasNoSlash p → lower_store_parent p ≡ ([], p)
unfolding lower_store_parent trim_suffix trim_prefix has_prefix
place_alone p h = rw (split_single p h) refl

place_inside : (d b : Bytes) → HasNoSlash b → lower_store_parent (d ++ (slash ∷ b)) ≡ (d, b)
unfolding lower_store_parent
place_inside d b h = rw (split_inside d b h, trim_suffix-append d (slash ∷ [])) refl

is_child_name : (name x b : Bytes) → is_child name (x, b) ≡ true → (x ≡ name) × (eqb b [] ≡ false)
is_child_name name x b h = (eqb→eq x name (ground (arith, h)), ground (arith, h))

is_child_of : (name b : Bytes) → eqb b [] ≡ false → is_child name (name, b) ≡ true
is_child_of name b h = ground (arith, h, eqb_refl name)

name_of : (b : Bytes) → eqb b [] ≡ false → HasNoSlash b → is_name b ≡ true
unfolding is_name
name_of b h free = ground (arith, h, slash_free b free)

of_name : (b : Bytes) → is_name b ≡ true → (eqb b [] ≡ false) × HasNoSlash b
unfolding is_name
of_name b h = (ground (arith, h), no_slash b (ground (arith, h)))

-- The path of an entry: empty, or plain.
abbrev pub IsTreePath : Bytes → Type 0
IsTreePath p = (p ≡ []) ⊎ All IsPlain (components p)

append_nonempty : (d b : Bytes) → d ++ (slash ∷ b) ≢ []
append_nonempty [] b e = cc
append_nonempty (c ∷ d) b e = cc

parent_not_root : (p d b : Bytes) → IsTreePath p → p ≡ d ++ (slash ∷ b) → eqb d [] ≡ false
parent_not_root p d b (inl empty) e = absurd (append_nonempty d b (sym e ∙ empty))
parent_not_root p d b (inr plain) e = elim (Bool-cases (eqb d [])) [
  | inr n ↦ n
  | inl root ↦
      let rooted : p ≡ slash ∷ b = e ∙ ap (λ z. z ++ (slash ∷ b)) (eqb→eq d [] root) in
      let (c, cs, parts) = components-cons p in
      absurd (
        ground (
          arith,
          plain-not_rooted p c cs parts (subst (All IsPlain) parts plain).0,
          ap (λ z. has_prefix z (slash ∷ [])) rooted ∙ has_prefix-append (slash ∷ []) b,
        ))
]

lies_in_of_child :
    (name p : Bytes)
    → IsTreePath p
    → is_child name (lower_store_parent p) ≡ true
    → lies_in name p ≡ true
lies_in_of_child name p plain h = go (split_path p) (split_path-Split p) (split_path-HasNoSlash p)
  where
    go : (q : Bytes × Bytes) → Split p q → HasNoSlash q.1 → lies_in name p ≡ true
    go _ alone free =
        let (root, there) =
          is_child_name name [] p (ap (is_child name) (sym (place_alone p free)) ∙ h) in
        ap (λ z. lies_in z p) (sym root) ∙ (unfold lies_in in name_of p there free)
    go _ (inside d b e) free =
        let at : lower_store_parent p ≡ (d, b) = ap lower_store_parent e ∙ place_inside d b free in
        let (above, there) = is_child_name name d b (ap (is_child name) (sym at) ∙ h) in
        ap (λ z. lies_in z p) (sym above)
        ∙ ap (lies_in d) e
        ∙ lies_in_below d b (parent_not_root p d b plain e) (name_of b there free)

child_of_lies_in :
    (name p : Bytes) → lies_in name p ≡ true → is_child name (lower_store_parent p) ≡ true
unfolding lies_in
child_of_lies_in [] p h =
    let (there, free) = of_name p h in
    ap (is_child []) (place_alone p free) ∙ is_child_of [] p there
child_of_lies_in (c ∷ name) p h =
    let above = (c ∷ name) ++ (slash ∷ []) in
    let (r, at) = has_prefix_split p above (ground (arith, h)) in
    let rest : trim_prefix p above ≡ r =
      ap (λ z. trim_prefix z above) at ∙ trim_prefix-append above r in
    let (there, free) = of_name r (ap is_name (sym rest) ∙ ground (arith, h)) in
    ap (λ z. is_child (c ∷ name) (lower_store_parent z))
      (at ∙ append_assoc (c ∷ name) (slash ∷ []) r)
    ∙ ap (is_child (c ∷ name)) (place_inside (c ∷ name) r free)
    ∙ is_child_of (c ∷ name) r there

-- For the path of an entry, the test of `ReadDir` on the parent and the base is that it lies in the
-- directory.
pub is_child-lies_in :
    (name p : Bytes) → IsTreePath p → is_child name (lower_store_parent p) ≡ lies_in name p
is_child-lies_in name p plain =
    eq_of_iff (is_child name (lower_store_parent p)) (lies_in name p)
      (lies_in_of_child name p plain) (child_of_lies_in name p)

abbrev rebuild : Bytes × Bytes → Bytes
rebuild (x, b) = if eqb x [] then b else x ++ (slash ∷ b)

rebuild-lower_store_parent : (p : Bytes) → IsTreePath p → rebuild (lower_store_parent p) ≡ p
rebuild-lower_store_parent p plain =
    go (split_path p) (split_path-Split p) (split_path-HasNoSlash p)
  where
    go : (q : Bytes × Bytes) → Split p q → HasNoSlash q.1 → rebuild (lower_store_parent p) ≡ p
    go _ alone free = rw (place_alone p free) (unfold eqb in refl)
    go _ (inside d b e) free =
        ap rebuild (ap lower_store_parent e ∙ place_inside d b free)
        ∙ rw (parent_not_root p d b plain e) (sym e)

-- Paths with the same directory and the same name are the same.
pub lower_store_parent_injective :
    (p q : Bytes)
    → IsTreePath p
    → IsTreePath q
    → lower_store_parent p ≡ lower_store_parent q
    → p ≡ q
lower_store_parent_injective p q hp hq e =
    sym (rebuild-lower_store_parent p hp) ∙ ap rebuild e ∙ rebuild-lower_store_parent q hq
