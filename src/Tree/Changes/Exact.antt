-- ===== src/Tree/Changes/Exact.antt =====
-- What `diffTrees` of internal/osix/snapshot.go reports, path by path.
use smol_agent_oci_fs.Base.{
  Bytes, slash, Bool, false, ◌&&◌, ◌||◌, if◌then◌else◌, List, [], ◌∷◌, ◌++◌, eqb, eqb→eq, eqb_comm,
  any, any-append, any-sort, lookup, lookup-insert, insert, Option, none, some, ◌≡◌, refl, arith,
  ap, ◌∙◌, sym, Bool-cases, inl, inr,
}
use smol_agent_oci_fs.Tree.Entry.{TreeEntry, entry_eqb, tree_map, tree_map_from, entry_at}
use smol_agent_oci_fs.Tree.Overlay.{EntryMap}
use smol_agent_oci_fs.Tree.Changes.{
  Kind, added, modified, deleted, kind_eqb, Change, change_leb, right_change, right_changes,
  left_change, left_changes, diff_trees,
}

-- The change of one path, from its entries on both sides.
abbrev pub change_between : Option TreeEntry → Option TreeEntry → Option Kind
change_between none none = none
change_between none (some e) = some added
change_between (some old) none = some deleted
change_between (some old) (some e) = if entry_eqb old e then none else some modified

abbrev pub is_kind : Kind → Option Kind → Bool
is_kind k none = false
is_kind k (some j) = kind_eqb k j

abbrev pub is_change : Kind → Bytes → Change → Bool
is_change k q c = kind_eqb k c.kind && eqb q c.path

abbrev AreUnique : EntryMap → Type 0
AreUnique [] = Unit
AreUnique ((k, e) ∷ m) = (lookup k m ≡ none) × AreUnique m

insert-AreUnique :
    (k : Bytes) (e : TreeEntry) (m : EntryMap) → AreUnique m → AreUnique (insert k e m)
unfolding insert
insert-AreUnique k e [] u = (unfold lookup in refl, tt)
insert-AreUnique k e ((j, w) ∷ m) u = elim (Bool-cases (eqb k j)) [
  | inl y ↦ rw y (ap (λ z. lookup z m) (eqb→eq k j y) ∙ u.0, u.1)
  | inr n ↦
      rw n
        (lookup-insert j k e m ∙ ground (arith, n, eqb_comm j k, u.0), insert-AreUnique k e m u.1)
]

tree_map_from-AreUnique :
    (m : EntryMap) (es : List TreeEntry) → AreUnique m → AreUnique (tree_map_from m es)
unfolding tree_map_from
tree_map_from-AreUnique m [] u = u
tree_map_from-AreUnique m (e ∷ es) u =
    tree_map_from-AreUnique (insert e.path e m) es (insert-AreUnique e.path e m u)

tree_map-AreUnique : (es : List TreeEntry) → AreUnique (tree_map es)
unfolding tree_map
tree_map-AreUnique es = tree_map_from-AreUnique [] es tt

-- The part of a change that each loop reports.
abbrev on_right : Option TreeEntry → Option TreeEntry → Option Kind
on_right l none = none
on_right none (some e) = some added
on_right (some old) (some e) = if entry_eqb old e then none else some modified

abbrev on_left : Option TreeEntry → Option TreeEntry → Option Kind
on_left none r = none
on_left (some e) none = some deleted
on_left (some e) (some f) = none

same_path : (q p : Bytes) → eqb (slash ∷ q) (slash ∷ p) ≡ eqb q p
unfolding eqb
same_path q p = ground arith

-- Whether a list of changes reports the change of the kind at the path.
abbrev pub reports : Kind → Bytes → List Change → Bool
reports k q cs = any (is_change k (slash ∷ q)) cs

module _ (k : Kind) (q : Bytes) where
  reports-right_change :
      (l : Option TreeEntry) (p : Bytes) (e : TreeEntry) (rest : List Change)
      → reports k q (right_change l p e rest)
        ≡ ((eqb q p && is_kind k (on_right l (some e))) || reports k q rest)
  unfolding any
  reports-right_change none p e rest = ground (arith, same_path q p)
  reports-right_change (some old) p e rest = elim (Bool-cases (entry_eqb old e)) [
    | inl y ↦ rw y (ground arith)
    | inr n ↦ rw n (ground (arith, same_path q p))
  ]

  reports-left_change :
      (r : Option TreeEntry) (p : Bytes) (e : TreeEntry) (rest : List Change)
      → reports k q (left_change r p rest)
        ≡ ((eqb q p && is_kind k (on_left (some e) r)) || reports k q rest)
  unfolding any
  reports-left_change none p e rest = ground (arith, same_path q p)
  reports-left_change (some f) p e rest = ground arith

  reports-right_changes :
      (left : List TreeEntry) (m : EntryMap)
      → AreUnique m
      → reports k q (right_changes left m) ≡ is_kind k (on_right (entry_at left q) (lookup q m))
  unfolding right_changes lookup
  reports-right_changes left [] u = unfold any in refl
  reports-right_changes left ((p, e) ∷ m) u =
      reports-right_change (entry_at left p) p e (right_changes left m)
      ∙ elim (Bool-cases (eqb q p)) [
        | inl y ↦
            let same = eqb→eq q p y in
            let free : lookup q m ≡ none = ap (λ z. lookup z m) same ∙ u.0 in
            rw (y, reports-right_changes left m u.1, free)
              (ap (λ z. is_kind k (on_right (entry_at left z) (some e)) || false) (sym same)
                ∙ ground arith)
        | inr n ↦ rw (n, reports-right_changes left m u.1) refl
      ]

  reports-left_changes :
      (right : List TreeEntry) (m : EntryMap)
      → AreUnique m
      → reports k q (left_changes right m) ≡ is_kind k (on_left (lookup q m) (entry_at right q))
  unfolding left_changes lookup
  reports-left_changes right [] u = unfold any in refl
  reports-left_changes right ((p, e) ∷ m) u =
      reports-left_change (entry_at right p) p e (left_changes right m)
      ∙ elim (Bool-cases (eqb q p)) [
        | inl y ↦
            let same = eqb→eq q p y in
            let free : lookup q m ≡ none = ap (λ z. lookup z m) same ∙ u.0 in
            rw (y, reports-left_changes right m u.1, free)
              (ap (λ z. is_kind k (on_left (some e) (entry_at right z)) || false) (sym same)
                ∙ ground arith)
        | inr n ↦ rw (n, reports-left_changes right m u.1) refl
      ]

  both_loops :
      (l r : Option TreeEntry)
      → (is_kind k (on_right l r) || is_kind k (on_left l r)) ≡ is_kind k (change_between l r)
  both_loops none none = refl
  both_loops none (some e) = ground arith
  both_loops (some old) none = refl
  both_loops (some old) (some e) = ground arith

  -- `diffTrees` reports a change of a kind at a path exactly where the entries of the two trees at
  -- the path say so: one that is on the right only is added, one on the left only deleted, and
  -- two that differ are modified.
  pub reports-diff_trees :
      (left right : List TreeEntry)
      → reports k q (diff_trees left right)
        ≡ is_kind k (change_between (entry_at left q) (entry_at right q))
  unfolding diff_trees
  reports-diff_trees left right =
      any-sort change_leb (is_change k (slash ∷ q))
        (right_changes left (tree_map right) ++ left_changes right (tree_map left))
      ∙ any-append (is_change k (slash ∷ q)) (right_changes left (tree_map right))
          (left_changes right (tree_map left))
      ∙ rw
          (
            reports-right_changes left (tree_map right) (tree_map-AreUnique right),
            reports-left_changes right (tree_map left) (tree_map-AreUnique left),
          )
          (both_loops (entry_at left q) (entry_at right q))
