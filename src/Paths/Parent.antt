-- ===== src/Paths/Parent.antt =====
-- The directory of a canonical path: `filepath.Split` and `filepath.Dir` on the names that
-- `canonicalLayerPath` of internal/osix/snapshot.go accepts.
use mathlib.Core.Path.{subst}
use mathlib.Core.List.{append-nil, reverse-cons}
use smol_agent_oci_fs.Base.{
  Bytes, slash, ◌==◌, ==_iff, false, List, [], ◌∷◌, ◌++◌, reverse, append_assoc, eqb, ◌≡◌, inl, inr,
  refl, sym, ap, ◌∙◌, All, All-append, Bool-cases,
}
use smol_agent_oci_fs.Paths.Components.{
  dot, components, join, clean_step, clean_loop, or_dot, clean, split_path, split_step, dir_of,
}
use smol_agent_oci_fs.Paths.Canonical.{
  IsPlain, HasNoSlash, components_single, components-cons, join-components, clean_loop_plain,
  clean-or_dot, plain-not_rooted,
}

-- What `filepath.Split` returns: nothing before the last component, or a directory and its slash.
pub data Split (p : Bytes) : Bytes × Bytes → Type 0 where
  alone : Split p ([], p)
  inside : (d b : Bytes) → p ≡ d ++ (slash ∷ b) → Split p (d ++ (slash ∷ []), b)

pub split_path-Split : (p : Bytes) → Split p (split_path p)
unfolding split_path
split_path-Split [] = alone
split_path-Split (c ∷ s) = go (split_path s) (split_path-Split s)
  where
    go : (q : Bytes × Bytes) → Split s q → Split (c ∷ s) (split_step c q)
    go _ alone = elim (Bool-cases (c == slash)) [
      | inl y ↦ rw (y, (==_iff c slash).0 y) (inside [] s refl)
      | inr n ↦ rw n alone
    ]
    go _ (inside [] b e) = inside (c ∷ []) b (ap (λ (t : Bytes). c ∷ t) e)
    go _ (inside (x ∷ d) b e) = inside (c ∷ x ∷ d) b (ap (λ (t : Bytes). c ∷ t) e)

pub components-append_slash :
    (x s : Bytes) → components (x ++ (slash ∷ s)) ≡ components x ++ components s
unfolding components
components-append_slash [] s = refl
components-append_slash (c ∷ x) s =
    let (y, ys, e) = components-cons x in
    elim (Bool-cases (c == slash)) [
      | inl h ↦ rw (h, components-append_slash x s)
      | inr h ↦ rw (h, components-append_slash x s) (rw e refl)
    ]

pub All-append_left {κ} : (P : Bytes → Type κ) (xs ys : List Bytes) → All P (xs ++ ys) → All P xs
All-append_left P [] ys h = tt
All-append_left P (x ∷ xs) ys h = (h.0, All-append_left P xs ys h.1)

pub clean_loop_cons :
    (out : List Bytes) (c : Bytes) (cs : List Bytes)
    → IsPlain c
    → clean_loop false out (c ∷ cs) ≡ clean_loop false (c ∷ out) cs
unfolding clean_loop clean_step
clean_loop_cons out c cs h = rw (h.0, h.1, h.2)

pub All-append_right {κ} : (P : Bytes → Type κ) (xs ys : List Bytes) → All P (xs ++ ys) → All P ys
All-append_right P [] ys h = h
All-append_right P (x ∷ xs) ys h = All-append_right P xs ys h.1

loop_trailing :
    (out cs : List Bytes)
    → All IsPlain cs
    → clean_loop false out (cs ++ ([] ∷ [])) ≡ reverse out ++ cs
loop_trailing out [] h = unfold clean_loop clean_step eqb in sym (append-nil (reverse out))
loop_trailing out (c ∷ cs) h =
    clean_loop_cons out c (cs ++ ([] ∷ [])) h.0
    ∙ loop_trailing (c ∷ out) cs h.1
    ∙ ap (λ (t : List Bytes). t ++ cs) (reverse-cons c out)
    ∙ append_assoc (reverse out) (c ∷ []) cs

pub or_dot-components :
    (d c : Bytes) (cs : List Bytes) → components d ≡ c ∷ cs → or_dot (components d) ≡ d
unfolding or_dot
or_dot-components d c cs e = rw e (ap join (sym e) ∙ join-components d)

-- A plain path keeps its components when it is cleaned with a slash at its end.
pub clean_trailing : (d : Bytes) → All IsPlain (components d) → clean (d ++ (slash ∷ [])) ≡ d
clean_trailing d h =
    let (c, cs, e) = components-cons d in
    let h' : All IsPlain (c ∷ cs) = rw e at h in
    let parts : components (d ++ (slash ∷ [])) ≡ components d ++ ([] ∷ []) =
      components-append_slash d [] ∙ (unfold components in refl) in
    clean-or_dot (d ++ (slash ∷ [])) (
      plain-not_rooted (d ++ (slash ∷ [])) c (cs ++ ([] ∷ []))
        (parts ∙ ap (λ (t : List Bytes). t ++ ([] ∷ [])) e) h'.0)
    ∙ ap (λ (t : List Bytes). or_dot (clean_loop false [] t)) parts
    ∙ ap or_dot (loop_trailing [] (components d) h)
    ∙ or_dot-components d c cs e

-- The directory of a plain path: the root, or a plain path that the given one lies below.
pub data Dir (p : Bytes) : Type 0 where
  top : dir_of p ≡ dot → Dir p
  sub : (b : Bytes) → p ≡ dir_of p ++ (slash ∷ b) → All IsPlain (components (dir_of p)) → Dir p

pub clean_none : clean [] ≡ dot
unfolding clean
clean_none = refl

pub dir_of-split : (p : Bytes) (q : Bytes × Bytes) → split_path p ≡ q → dir_of p ≡ clean q.0
unfolding dir_of
dir_of-split p q e = ap (λ (z : Bytes × Bytes). clean z.0) e

pub dir_of_lem : (p : Bytes) → All IsPlain (components p) → Dir p
dir_of_lem p h = go (split_path p) refl (split_path-Split p)
  where
    go : (q : Bytes × Bytes) → split_path p ≡ q → Split p q → Dir p
    go _ e alone = top (dir_of-split p ([], p) e ∙ clean_none)
    go _ e (inside d b f) =
        let parts : All IsPlain (components d ++ components b) =
          subst (All IsPlain) (ap components f ∙ components-append_slash d b) h in
        let plain = All-append_left IsPlain (components d) (components b) parts in
        let same : dir_of p ≡ d =
          dir_of-split p (d ++ (slash ∷ []), b) e ∙ clean_trailing d plain in
        sub b (f ∙ ap (λ (z : Bytes). z ++ (slash ∷ b)) (sym same)) (rw same plain)

pub split_single : (b : Bytes) → HasNoSlash b → split_path b ≡ ([], b)
unfolding split_path
split_single [] h = refl
split_single (c ∷ b) h = ap (split_step c) (split_single b h.1) ∙ rw h.0

pub split_inside :
    (d b : Bytes) → HasNoSlash b → split_path (d ++ (slash ∷ b)) ≡ (d ++ (slash ∷ []), b)
unfolding split_path
split_inside [] b h = ap (split_step slash) (split_single b h)
split_inside (c ∷ []) b h = ap (split_step c) (split_inside [] b h)
split_inside (c ∷ x ∷ d) b h = ap (split_step c) (split_inside (x ∷ d) b h)

-- An empty component changes nothing.
loop_skip :
    (out cs rest : List Bytes)
    → All IsPlain cs
    → clean_loop false out (cs ++ ([] ∷ rest)) ≡ clean_loop false out (cs ++ rest)
loop_skip out [] rest h = unfold clean_loop clean_step eqb in refl
loop_skip out (c ∷ cs) rest h =
    clean_loop_cons out c (cs ++ ([] ∷ rest)) h.0
    ∙ loop_skip (c ∷ out) cs rest h.1
    ∙ sym (clean_loop_cons out c (cs ++ rest) h.0)

-- `filepath.Join` of a plain directory, written with its slash, and a plain name.
pub clean_child :
    (d b : Bytes)
    → All IsPlain (components d)
    → HasNoSlash b
    → IsPlain b
    → clean (d ++ (slash ∷ (slash ∷ b))) ≡ d ++ (slash ∷ b)
clean_child d b hd hb plain =
    let (c, cs, e) = components-cons d in
    let hd' : All IsPlain (c ∷ cs) = rw e at hd in
    let kids = components d ++ (b ∷ []) in
    let parts : components (d ++ (slash ∷ (slash ∷ b))) ≡ components d ++ ([] ∷ b ∷ []) =
      components-append_slash d (slash ∷ b)
      ∙ ap (λ (t : List Bytes). components d ++ t) (components-append_slash [] b ∙ two b hb) in
    let child : components (d ++ (slash ∷ b)) ≡ kids =
      components-append_slash d b
      ∙ ap (λ (t : List Bytes). components d ++ t) (components_single b hb) in
    let kids_plain = All-append IsPlain (components d) (b ∷ []) hd (plain, tt) in
    let first : kids ≡ c ∷ (cs ++ (b ∷ [])) = ap (λ (t : List Bytes). t ++ (b ∷ [])) e in
    clean-or_dot (d ++ (slash ∷ (slash ∷ b))) (
      plain-not_rooted (d ++ (slash ∷ (slash ∷ b))) c (cs ++ ([] ∷ b ∷ []))
        (parts ∙ ap (λ (t : List Bytes). t ++ ([] ∷ b ∷ [])) e) hd'.0)
    ∙ ap (λ (t : List Bytes). or_dot (clean_loop false [] t)) parts
    ∙ ap or_dot
        (loop_skip [] (components d) (b ∷ []) hd ∙ clean_loop_plain false [] kids kids_plain)
    ∙ ap or_dot (sym child)
    ∙ or_dot-components (d ++ (slash ∷ b)) c (cs ++ (b ∷ [])) (child ∙ first)
  where
    two : (x : Bytes) → HasNoSlash x → components [] ++ components x ≡ [] ∷ x ∷ []
    two x h = rw (components_single x h) (unfold components in refl)
