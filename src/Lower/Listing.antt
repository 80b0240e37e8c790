-- ===== src/Lower/Listing.antt =====
-- What `ReadDir` of internal/osix/lower_store.go lists.
use smol_agent_oci_fs.Base.{
  Bytes, Bool, true, false, ◌&&◌, ◌||◌, List, [], ◌∷◌, eqb, eqb→eq, eqb_refl, any, any-sort, sort,
  insert, lookup, lookup-insert, values, none, some, Bool-cases, inl, inr, ◌≡◌, refl, arith, ap,
  ◌∙◌, sym, All,
}
use smol_agent_oci_fs.Paths.Components.{canonical_lower_store_path, lower_store_parent}
use smol_agent_oci_fs.Tree.Entry.{TreeEntry, HasUniquePaths}
use smol_agent_oci_fs.Tree.Overlay.{EntryMap}
use smol_agent_oci_fs.Lower.Children.{
  lies_in, IsTreePath, is_child-lies_in, lower_store_parent_injective,
}
use smol_agent_oci_fs.Lower.{is_child, children, path_leb, read_dir}

-- The directory and the name of an entry.
abbrev place : TreeEntry → Bytes × Bytes
place e = lower_store_parent e.path

abbrev is_same_place : TreeEntry → TreeEntry → Bool
is_same_place e f = eqb (place e).0 (place f).0 && eqb (place e).1 (place f).1

-- No two entries have the same directory and name.
abbrev HasUniquePlaces : List TreeEntry → Type 0
HasUniquePlaces [] = Unit
HasUniquePlaces (e ∷ es) = All (λ f. is_same_place e f ≡ false) es × HasUniquePlaces es

any-values-insert :
    (g : TreeEntry → Bool) (k : Bytes) (e : TreeEntry) (m : EntryMap)
    → lookup k m ≡ none
    → any g (values (insert k e m)) ≡ (g e || any g (values m))
unfolding any values insert lookup
any-values-insert g k e [] h = refl
any-values-insert g k e ((j, w) ∷ m) h = elim (Bool-cases (eqb k j)) [
  | inl y ↦ absurd (ground (arith, y, h))
  | inr n ↦ rw n (ground (arith, any-values-insert g k e m (ground (arith, n, h))))
]

module _ (name : Bytes) where
  abbrev belongs : TreeEntry → Bool
  belongs e = is_child name (place e)

  -- Entries of the directory that are still to come have names that the map does not have.
  abbrev IsNew : EntryMap → TreeEntry → Type 0
  IsNew m f = belongs f ≡ true → lookup (place f).1 m ≡ none

  IsNew-insert :
      (m : EntryMap) (e f : TreeEntry)
      → belongs e ≡ true
      → is_same_place e f ≡ false
      → IsNew m f
      → IsNew (insert (place e).1 e m) f
  IsNew-insert m e f he apart new hf =
      let free = new hf in
      let same : (place e).0 ≡ (place f).0 =
        eqb→eq (place e).0 name (ground (arith, he))
        ∙ sym (eqb→eq (place f).0 name (ground (arith, hf))) in
      let other : eqb (place f).1 (place e).1 ≡ false =
        elim (Bool-cases (eqb (place f).1 (place e).1)) [
          | inr n ↦ n
          | inl y ↦
              let names : (place e).1 ≡ (place f).1 = sym (eqb→eq (place f).1 (place e).1 y) in
              absurd (
                ground (
                  arith,
                  apart,
                  ap (λ z. eqb z (place f).0) same,
                  eqb_refl (place f).0,
                  ap (λ z. eqb z (place f).1) names,
                  eqb_refl (place f).1,
                ))
        ] in
      lookup-insert (place f).1 (place e).1 e m ∙ rw other free

  All-IsNew-insert :
      (m : EntryMap) (e : TreeEntry) (es : List TreeEntry)
      → belongs e ≡ true
      → All (λ f. is_same_place e f ≡ false) es
      → All (IsNew m) es
      → All (IsNew (insert (place e).1 e m)) es
  All-IsNew-insert m e [] he apart new = tt
  All-IsNew-insert m e (f ∷ es) he apart new =
      (IsNew-insert m e f he apart.0 new.0, All-IsNew-insert m e es he apart.1 new.1)

  any-children :
      (g : TreeEntry → Bool) (m : EntryMap) (es : List TreeEntry)
      → HasUniquePlaces es
      → All (IsNew m) es
      → any g (values (children name m es)) ≡ (any g (values m) || any (λ e. belongs e && g e) es)
  unfolding children any
  any-children g m [] u new = ground arith
  any-children g m (e ∷ es) u new = elim (Bool-cases (belongs e)) [
    | inr n ↦ rw n (any-children g m es u.1 new.1)
    | inl y ↦ rw y (
        any-children g (insert (place e).1 e m) es u.1 (All-IsNew-insert m e es y u.0 new.1)
        ∙ ground (arith, any-values-insert g (place e).1 e m (new.0 y)))
  ]

pair_eq : (x y : Bytes × Bytes) → x.0 ≡ y.0 → x.1 ≡ y.1 → x ≡ y
pair_eq (a, b) (c, d) e f = cc

All-always : (P : TreeEntry → Type 0) (es : List TreeEntry) → ((e : TreeEntry) → P e) → All P es
All-always P [] h = tt
All-always P (e ∷ es) h = (h e, All-always P es h)

apart-places :
    (e f : TreeEntry)
    → IsTreePath e.path
    → IsTreePath f.path
    → eqb e.path f.path ≡ false
    → is_same_place e f ≡ false
apart-places e f he hf apart = elim (Bool-cases (is_same_place e f)) [
  | inr n ↦ n
  | inl y ↦
      let same : place e ≡ place f =
        pair_eq (place e) (place f) (eqb→eq (place e).0 (place f).0 (ground (arith, y)))
          (eqb→eq (place e).1 (place f).1 (ground (arith, y))) in
      let paths : e.path ≡ f.path = lower_store_parent_injective e.path f.path he hf same in
      absurd (ground (arith, apart, ap (λ z. eqb z f.path) paths, eqb_refl f.path))
]

apart_from :
    (e : TreeEntry) (es : List TreeEntry)
    → IsTreePath e.path
    → All (λ f. IsTreePath f.path) es
    → All (λ f. eqb e.path f.path ≡ false) es
    → All (λ f. is_same_place e f ≡ false) es
apart_from e [] he hs u = tt
apart_from e (f ∷ es) he hs u = (apart-places e f he hs.0 u.0, apart_from e es he hs.1 u.1)

HasUniquePlaces-of :
    (es : List TreeEntry) → All (λ f. IsTreePath f.path) es → HasUniquePaths es → HasUniquePlaces es
HasUniquePlaces-of [] h u = tt
HasUniquePlaces-of (e ∷ es) h u = (apart_from e es h.0 h.1 u.0, HasUniquePlaces-of es h.1 u.1)

any-lies_in :
    (name : Bytes) (g : TreeEntry → Bool) (es : List TreeEntry)
    → All (λ f. IsTreePath f.path) es
    → any (λ e. is_child name (lower_store_parent e.path) && g e) es
      ≡ any (λ e. lies_in name e.path && g e) es
unfolding any
any-lies_in name g [] h = refl
any-lies_in name g (e ∷ es) h =
    rw (is_child-lies_in name e.path h.0, any-lies_in name g es h.1) refl

-- For a tree with plain paths, none twice, and possibly an entry for the root, a listing that
-- succeeds has an entry with a property exactly if an entry of the tree has it whose path is that of
-- a name in the directory.
pub read_dir_lists :
    (tree : List TreeEntry) (given name : Bytes) (out : List TreeEntry) (g : TreeEntry → Bool)
    → HasUniquePaths tree
    → All (λ e. IsTreePath e.path) tree
    → canonical_lower_store_path given ≡ some name
    → read_dir tree given ≡ some out
    → any g out ≡ any (λ e. lies_in name e.path && g e) tree
unfolding read_dir
read_dir_lists tree given name out g u paths c h =
    let listed : sort path_leb (values (children name [] tree)) ≡ out = ground (arith, c, h) in
    ap (any g) (sym listed)
    ∙ any-sort path_leb g (values (children name [] tree))
    ∙ any-children name g [] tree (HasUniquePlaces-of tree paths u)
        (All-always (IsNew name []) tree (λ e f. unfold lookup in refl))
    ∙ (unfold any values in any-lies_in name g tree paths)
