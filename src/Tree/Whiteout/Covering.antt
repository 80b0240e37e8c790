-- ===== src/Tree/Whiteout/Covering.antt =====
-- What the merged whiteouts of internal/osix/snapshot.go cover.
use mathlib.Core.List.{flatten}
use smol_agent_oci_fs.Base.{
  Bytes, slash, if◌then◌else◌, Bool, true, false, not, ◌||◌, List, [], ◌∷◌, ◌++◌, eqb, eqb→eq,
  has_prefix, any, any-append, any-sort, elem, keep, sort, str_leb, ◌≡◌, refl, ap, ◌∙◌, sym, ◌⊎◌,
  inl, inr, Bool-cases, arith,
}
use smol_agent_oci_fs.Tree.Entry.{covers, is_covered, covers_trans}
use smol_agent_oci_fs.Tree.Whiteout.Defs.{
  merge_unique_skip, merge_unique_take, merge_unique, is_pruned, prune, merge_whiteouts,
}

-- A group of whiteouts without the empty paths, which name nothing.
abbrev pub nonempty : List Bytes → List Bytes
nonempty = keep (λ p. not (eqb p []))

prefix-covers : (t p : Bytes) → has_prefix p (t ++ (slash ∷ [])) ≡ true → covers t p ≡ true
unfolding covers
prefix-covers t p h = ground (arith, h)

is_covered-elem :
    (t : Bytes) (ts : List Bytes) (q : Bytes)
    → elem t ts ≡ true
    → covers t q ≡ true
    → is_covered ts q ≡ true
unfolding is_covered any elem
is_covered-elem t [] q h k = cc
is_covered-elem t (u ∷ ts) q h k = elim (Bool-cases (eqb t u)) [
  | inl e ↦ ground (arith, k, ap (λ (z : Bytes). covers z q) (eqb→eq t u e))
  | inr n ↦ ground (arith, is_covered-elem t ts q (ground (arith, n, h)) k)
]

-- A path that is pruned lies below one that was kept.
is_covered-is_pruned :
    (ts : List Bytes) (p q : Bytes)
    → is_pruned ts p ≡ true
    → covers p q ≡ true
    → is_covered ts q ≡ true
unfolding is_covered is_pruned any
is_covered-is_pruned [] p q h k = cc
is_covered-is_pruned (t ∷ ts) p q h k = elim (Bool-cases (has_prefix p (t ++ (slash ∷ [])))) [
  | inl e ↦ ground (arith, covers_trans t p q (prefix-covers t p e) k)
  | inr n ↦ ground (arith, is_covered-is_pruned ts p q (ground (arith, n, h)) k)
]

is_covered-append :
    (xs ys : List Bytes) (q : Bytes)
    → is_covered (xs ++ ys) q ≡ (is_covered xs q || is_covered ys q)
unfolding is_covered
is_covered-append xs ys q = any-append (λ t. covers t q) xs ys

is_covered-cons :
    (p : Bytes) (ps : List Bytes) (q : Bytes)
    → is_covered (p ∷ ps) q ≡ (covers p q || is_covered ps q)
unfolding is_covered any
is_covered-cons p ps q = refl

-- What is dropped adds nothing to what the rest covers.
absorb : (a b c : Bool) → (b ≡ true → a ≡ true) → (a || c) ≡ (a || (b || c))
absorb true b c h = refl
absorb false true c h = cc (h refl)
absorb false false c h = refl

is_covered-prune :
    (ts ps : List Bytes) (q : Bytes)
    → is_covered (prune ts ps) q ≡ (is_covered ts q || is_covered ps q)
unfolding prune
is_covered-prune ts [] q = unfold is_covered any in ground arith
is_covered-prune ts (p ∷ ps) q =
    is_covered-prune (if is_pruned ts p then ts else ts ++ (p ∷ [])) ps q
    ∙ step (Bool-cases (is_pruned ts p))
  where
    step :
        (is_pruned ts p ≡ true) ⊎ (is_pruned ts p ≡ false)
        → (is_covered (if is_pruned ts p then ts else ts ++ (p ∷ [])) q || is_covered ps q)
          ≡ (is_covered ts q || is_covered (p ∷ ps) q)
    step (inl y) =
        rw (y, is_covered-cons)
          (absorb (is_covered ts q) (covers p q) (is_covered ps q) (is_covered-is_pruned ts p q y))
    step (inr n) =
        rw (n, is_covered-append)
          (ground (arith, is_covered-cons p ps q, is_covered-cons p [] q, is_covered_none q))
      where
        is_covered_none : (z : Bytes) → is_covered [] z ≡ false
        is_covered_none z = unfold is_covered any in refl

nonempty_skip : (p : Bytes) (ps : List Bytes) → eqb p [] ≡ true → nonempty (p ∷ ps) ≡ nonempty ps
unfolding keep
nonempty_skip p ps h = ground (arith, h)

nonempty_take :
    (p : Bytes) (ps : List Bytes) → eqb p [] ≡ false → nonempty (p ∷ ps) ≡ p ∷ nonempty ps
unfolding keep
nonempty_take p ps h = ground (arith, h)

is_covered-merge_unique :
    (seen ps : List Bytes) (q : Bytes)
    → (is_covered seen q || is_covered (merge_unique seen ps) q)
      ≡ (is_covered seen q || is_covered (nonempty ps) q)
is_covered-merge_unique seen [] q = unfold merge_unique keep in refl
is_covered-merge_unique seen (p ∷ ps) q = elim (Bool-cases (eqb p [])) [
  | inl e ↦
      rw (merge_unique_skip seen p ps (ground (arith, e)), nonempty_skip p ps e)
        (is_covered-merge_unique seen ps q)
  | inr n ↦ elim (Bool-cases (elem p seen)) [
    | inl old ↦
        rw (merge_unique_skip seen p ps (ground (arith, old)), nonempty_take p ps n)
          (is_covered-merge_unique seen ps q
            ∙ absorb (is_covered seen q) (covers p q) (is_covered (nonempty ps) q)
                (is_covered-elem p seen q old)
            ∙ ap (λ (b : Bool). is_covered seen q || b) (sym (is_covered-cons p (nonempty ps) q)))
    | inr new ↦
        rw (merge_unique_take seen p ps (ground (arith, n, new)), nonempty_take p ps n)
          (ground (
            arith,
            is_covered-merge_unique (p ∷ seen) ps q,
            is_covered-cons p seen q,
            is_covered-cons p (merge_unique (p ∷ seen) ps) q,
            is_covered-cons p (nonempty ps) q,
          ))
  ]
]

is_covered_none : (q : Bytes) → is_covered [] q ≡ false
unfolding is_covered any
is_covered_none q = refl

is_covered-sort : (ps : List Bytes) (q : Bytes) → is_covered (sort str_leb ps) q ≡ is_covered ps q
unfolding is_covered
is_covered-sort ps q = any-sort str_leb (λ t. covers t q) ps

-- The merged whiteouts cover exactly the paths that the given groups cover together, where an
-- empty path in a group counts for nothing.
pub is_covered-merge_whiteouts :
    (groups : List (List Bytes)) (q : Bytes)
    → is_covered (merge_whiteouts groups) q ≡ is_covered (nonempty (flatten groups)) q
unfolding merge_whiteouts
is_covered-merge_whiteouts groups q = ground (
  arith,
  is_covered-prune [] (sort str_leb (merge_unique [] (flatten groups))) q,
  is_covered-sort (merge_unique [] (flatten groups)) q,
  is_covered_none q,
  is_covered-merge_unique [] (flatten groups) q,
)
