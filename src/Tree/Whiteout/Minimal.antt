-- ===== src/Tree/Whiteout/Minimal.antt =====
-- No whiteout that internal/osix/snapshot.go writes repeats another or lies below another.
use mathlib.Core.List.{flatten}
use smol_agent_oci_fs.Base.{
  Bytes, slash, Bool, true, false, ◌||◌, List, [], ◌∷◌, ◌++◌, eqb, eqb→eq, eqb_refl, eqb_comm, any,
  any-insert_sorted, elem, insert_sorted, sort, sort-IsSorted, IsSorted, str_leb, str_leb_total,
  str_leb_trans, str_leb_antisymm, str_leb-append, ◌≡◌, refl, ap, ◌∙◌, sym, ◌⊎◌, inl, inr,
  Bool-cases, arith, All, All-append,
}
use smol_agent_oci_fs.Tree.Entry.{covers, covers-Below, Below, at, under}
use smol_agent_oci_fs.Tree.Whiteout.Defs.{
  merge_unique_skip, merge_unique_take, merge_unique, is_pruned, prune, merge_whiteouts,
}

-- Neither path is the other or lies below it.
abbrev pub Apart : Bytes → Bytes → Type 0
Apart s t = (covers s t ≡ false) × (covers t s ≡ false)

abbrev pub IsApart : List Bytes → Type 0
IsApart [] = Unit
IsApart (t ∷ ts) = All (Apart t) ts × IsApart ts

abbrev Distinct : List Bytes → Type 0
Distinct [] = Unit
Distinct (t ∷ ts) = (elem t ts ≡ false) × Distinct ts

-- Sorted, and without repetition.
abbrev Less : Bytes → Bytes → Type 0
Less s t = (str_leb s t ≡ true) × (eqb s t ≡ false)

abbrev IsStrict : List Bytes → Type 0
IsStrict [] = Unit
IsStrict (t ∷ ts) = All (Less t) ts × IsStrict ts

elem-insert_sorted :
    (s p : Bytes) (ts : List Bytes) → elem s (insert_sorted str_leb p ts) ≡ (eqb s p || elem s ts)
unfolding elem
elem-insert_sorted s p ts = any-insert_sorted str_leb (eqb s) p ts

insert_sorted-Distinct :
    (p : Bytes) (ts : List Bytes)
    → elem p ts ≡ false
    → Distinct ts
    → Distinct (insert_sorted str_leb p ts)
unfolding insert_sorted
insert_sorted-Distinct p [] h d = (h, tt)
insert_sorted-Distinct p (t ∷ ts) h d = elim (Bool-cases (str_leb p t)) [
  | inl le ↦ rw le (h, d)
  | inr gt ↦
      let h' : (eqb p t || elem p ts) ≡ false = unfold elem any in h in
      rw gt (
        elem-insert_sorted t p ts ∙ ground (arith, eqb_comm p t, h', d.0),
        insert_sorted-Distinct p ts (ground (arith, h')) d.1,
      )
]

elem-cons : (s t : Bytes) (ts : List Bytes) → elem s (t ∷ ts) ≡ (eqb s t || elem s ts)
unfolding elem any
elem-cons s t ts = refl

elem-sort : (s : Bytes) (ts : List Bytes) → elem s (sort str_leb ts) ≡ elem s ts
unfolding sort
elem-sort s [] = refl
elem-sort s (t ∷ ts) =
    elem-insert_sorted s t (sort str_leb ts)
    ∙ ap (λ (b : Bool). eqb s t || b) (elem-sort s ts)
    ∙ sym (elem-cons s t ts)

sort-Distinct : (ts : List Bytes) → Distinct ts → Distinct (sort str_leb ts)
unfolding sort
sort-Distinct [] d = tt
sort-Distinct (t ∷ ts) d =
    insert_sorted-Distinct t (sort str_leb ts) (elem-sort t ts ∙ d.0) (sort-Distinct ts d.1)

Less-All :
    (t : Bytes) (ts : List Bytes)
    → All (λ s. str_leb t s ≡ true) ts
    → elem t ts ≡ false
    → All (Less t) ts
unfolding elem any
Less-All t [] h e = tt
Less-All t (s ∷ ts) h e = ((h.0, ground (arith, e)), Less-All t ts h.1 (ground (arith, e)))

IsStrict-of : (ts : List Bytes) → IsSorted str_leb ts → Distinct ts → IsStrict ts
IsStrict-of [] s d = tt
IsStrict-of (t ∷ ts) s d = (Less-All t ts s.0 d.0, IsStrict-of ts s.1 d.1)

-- `merged` holds no path twice, and none that was seen.
merge_unique-new :
    (seen ps : List Bytes) (s : Bytes) → elem s seen ≡ true → elem s (merge_unique seen ps) ≡ false
merge_unique-new seen [] s h = unfold merge_unique elem any in refl
merge_unique-new seen (p ∷ ps) s h = elim (Bool-cases (eqb p [] || elem p seen)) [
  | inl e ↦ rw (merge_unique_skip seen p ps e) (merge_unique-new seen ps s h)
  | inr n ↦ rw (merge_unique_take seen p ps n) (
      elem-cons s p (merge_unique (p ∷ seen) ps)
      ∙ fresh n (merge_unique-new (p ∷ seen) ps s (elem-cons s p seen ∙ ground (arith, h)))
          (Bool-cases (eqb s p)))
]
  where
    fresh :
        (eqb p [] || elem p seen) ≡ false
        → elem s (merge_unique (p ∷ seen) ps) ≡ false
        → (eqb s p ≡ true) ⊎ (eqb s p ≡ false)
        → (eqb s p || elem s (merge_unique (p ∷ seen) ps)) ≡ false
    fresh n new (inl e) = ground (arith, n, h, ap (λ (z : Bytes). elem z seen) (eqb→eq s p e))
    fresh n new (inr d) = ground (arith, d, new)

merge_unique-Distinct : (seen ps : List Bytes) → Distinct (merge_unique seen ps)
merge_unique-Distinct seen [] = unfold merge_unique in tt
merge_unique-Distinct seen (p ∷ ps) = elim (Bool-cases (eqb p [] || elem p seen)) [
  | inl e ↦ rw (merge_unique_skip seen p ps e) (merge_unique-Distinct seen ps)
  | inr n ↦ rw (merge_unique_take seen p ps n) (
    merge_unique-new (p ∷ seen) ps p (elem-cons p p seen ∙ ground (arith, eqb_refl p)),
    merge_unique-Distinct (p ∷ seen) ps,
  )
]

-- An earlier path of a strictly sorted list does not lie below a later one.
not_below_later : (s t : Bytes) → Less s t → covers t s ≡ false
not_below_later s t h = elim (Bool-cases (covers t s)) [
  | inr n ↦ n
  | inl y ↦ absurd (clash (covers-Below t s y))
]
  where
    clash : Below t s → ⊥
    clash (at e) = ground (arith, h.1, eqb_refl t, e)
    clash (under r e) =
        let back : str_leb t s ≡ true = rw e (str_leb-append t (slash ∷ r)) in
        let same = str_leb_antisymm s t h.0 back in ground (arith, h.1, eqb_refl t, same)

-- A path that survives the test lies below none of the earlier ones.
not_pruned :
    (ts : List Bytes) (p : Bytes)
    → is_pruned ts p ≡ false
    → All (λ t. Less t p) ts
    → All (λ t. Apart t p) ts
unfolding is_pruned any
not_pruned [] p h k = tt
not_pruned (t ∷ ts) p h k = (
  (unfold covers in ground (arith, h, eqb_comm t p, k.0), not_below_later t p k.0),
  not_pruned ts p (ground (arith, h)) k.1,
)

IsApart-snoc :
    (ts : List Bytes) (p : Bytes) → IsApart ts → All (λ t. Apart t p) ts → IsApart (ts ++ (p ∷ []))
IsApart-snoc [] p a h = (tt, tt)
IsApart-snoc (t ∷ ts) p a h =
    (All-append (Apart t) ts (p ∷ []) a.0 (h.0, tt), IsApart-snoc ts p a.1 h.1)

prune-IsApart :
    (ts ps : List Bytes)
    → IsApart ts
    → IsStrict ps
    → All (λ p. All (λ t. Less t p) ts) ps
    → IsApart (prune ts ps)
unfolding prune
prune-IsApart ts [] a s h = a
prune-IsApart ts (p ∷ ps) a s h = elim (Bool-cases (is_pruned ts p)) [
  | inl y ↦ rw y (prune-IsApart ts ps a s.1 h.1)
  | inr n ↦ rw n (
      prune-IsApart (ts ++ (p ∷ [])) ps (IsApart-snoc ts p a (not_pruned ts p n h.0)) s.1
        (later ps s.0 h.1))
]
  where
    later :
        (qs : List Bytes)
        → All (Less p) qs
        → All (λ q. All (λ t. Less t q) ts) qs
        → All (λ q. All (λ t. Less t q) (ts ++ (p ∷ []))) qs
    later [] l k = tt
    later (q ∷ qs) l k = (All-append (λ t. Less t q) ts (p ∷ []) k.0 (l.0, tt), later qs l.1 k.1)

none_before : (ps : List Bytes) → All (λ p. All (λ t. Less t p) []) ps
none_before [] = tt
none_before (p ∷ ps) = (tt, none_before ps)

-- Of the merged whiteouts none repeats another and none lies below another.
pub merge_whiteouts-IsApart : (groups : List (List Bytes)) → IsApart (merge_whiteouts groups)
unfolding merge_whiteouts
merge_whiteouts-IsApart groups =
    let merged = sort str_leb (merge_unique [] (flatten groups)) in
    prune-IsApart [] merged tt
      (IsStrict-of merged
        (sort-IsSorted str_leb str_leb_total str_leb_trans (merge_unique [] (flatten groups)))
        (sort-Distinct (merge_unique [] (flatten groups))
          (merge_unique-Distinct [] (flatten groups))))
      (none_before merged)
