-- ===== src/Tree/Entry.antt =====
-- `TreeEntry` of internal/osix/types.go, the struct comparison `!=` on it, and `treeMap` and
-- `dirtyBytesForEntries` of internal/osix/snapshot.go.
use smol_agent_oci_fs.Base.{
  ℕ, ◌+◌, Bytes, slash, ◌==◌, if◌then◌else◌, Bool, true, false, ◌&&◌, Option, none, some, List, [],
  ◌∷◌, ◌++◌, eqb, eqb→eq, eqb_refl, has_prefix, has_prefix_split, has_prefix-append, ◌||◌, any,
  lookup, insert, lookup-insert, ◌≡◌, ◌⊎◌, inl, inr, refl, ap, ◌∙◌, sym, arith, All, Bool-cases,
  append_assoc,
}

-- The field `Type`: the three values that a scan writes, and whatever else a stored tree may hold.
pub data EntryType : Type 0 where
  file dir symlink : EntryType
  other : Bytes → EntryType

pub record TreeEntry : Type 0 where
  pub path : Bytes
  pub kind : EntryType
  pub mode : ℕ
  pub size : ℕ
  pub digest : Bytes
  pub linkname : Bytes

unfoldable pub type_eqb : EntryType → EntryType → Bool
unfolding eqb
type_eqb file file = true
type_eqb dir dir = true
type_eqb symlink symlink = true
type_eqb (other a) (other b) = eqb a b
type_eqb _ _ = false

pub type_eqb→eq : (a b : EntryType) → type_eqb a b ≡ true → a ≡ b
unfolding type_eqb
type_eqb→eq file file h = refl
type_eqb→eq dir dir h = refl
type_eqb→eq symlink symlink h = refl
type_eqb→eq (other a) (other b) h = ap other (eqb→eq a b h)
type_eqb→eq _ _ h = cc

pub type_eqb_refl : (a : EntryType) → type_eqb a a ≡ true
unfolding type_eqb
type_eqb_refl file = refl
type_eqb_refl dir = refl
type_eqb_refl symlink = refl
type_eqb_refl (other a) = eqb_refl a

-- Go's `==` on the struct
unfoldable pub entry_eqb : TreeEntry → TreeEntry → Bool
entry_eqb a b =
    eqb a.path b.path
    && type_eqb a.kind b.kind
    && a.mode == b.mode
    && a.size == b.size
    && eqb a.digest b.digest
    && eqb a.linkname b.linkname

pub entry_eqb→eq : (a b : TreeEntry) → entry_eqb a b ≡ true → a ≡ b
unfolding entry_eqb
entry_eqb→eq a b h = ground (
  arith,
  eqb→eq a.path b.path,
  type_eqb→eq a.kind b.kind,
  eqb→eq a.digest b.digest,
  eqb→eq a.linkname b.linkname,
)

pub entry_eqb_refl : (a : TreeEntry) → entry_eqb a a ≡ true
unfolding entry_eqb
entry_eqb_refl a =
    ground (arith, eqb_refl a.path, type_eqb_refl a.kind, eqb_refl a.digest, eqb_refl a.linkname)

unfoldable pub tree_map_from : List (Bytes × TreeEntry) → List TreeEntry → List (Bytes × TreeEntry)
tree_map_from m [] = m
tree_map_from m (e ∷ es) = tree_map_from (insert e.path e m) es

-- treeMap
unfoldable pub tree_map : List TreeEntry → List (Bytes × TreeEntry)
unfolding tree_map_from insert
tree_map es = tree_map_from [] es

-- The entry that a tree has at a path: the last one of that path.
abbrev pub entry_at : List TreeEntry → Bytes → Option TreeEntry
entry_at es p = lookup p (tree_map es)

-- No path occurs twice in the tree.
abbrev pub HasUniquePaths : List TreeEntry → Type 0
HasUniquePaths [] = Unit
HasUniquePaths (e ∷ es) = All (λ f. eqb e.path f.path ≡ false) es × HasUniquePaths es

-- The first entry at a path.
unfoldable pub find_entry : Bytes → List TreeEntry → Option TreeEntry
find_entry p [] = none
find_entry p (e ∷ es) = if eqb p e.path then some e else find_entry p es

pub find_entry-path :
    (p : Bytes) (es : List TreeEntry) (e : TreeEntry) → find_entry p es ≡ some e → e.path ≡ p
unfolding find_entry
find_entry-path p [] e h = cc
find_entry-path p (x ∷ es) e h = ground (arith, find_entry-path p es e, eqb→eq p x.path)

pub find_entry-none :
    (p : Bytes) (e : TreeEntry) (es : List TreeEntry)
    → eqb p e.path ≡ true
    → All (λ f. eqb e.path f.path ≡ false) es
    → find_entry p es ≡ none
unfolding find_entry
find_entry-none p e [] h k = refl
find_entry-none p e (f ∷ es) h k =
    rw (ap (λ (z : Bytes). eqb z f.path) (eqb→eq p e.path h) ∙ k.0) (find_entry-none p e es h k.1)

abbrev pub or_else : Option TreeEntry → Option TreeEntry → Option TreeEntry
or_else none o = o
or_else (some e) o = some e

lookup-tree_map_from :
    (p : Bytes) (m : List (Bytes × TreeEntry)) (es : List TreeEntry)
    → HasUniquePaths es
    → lookup p (tree_map_from m es) ≡ or_else (find_entry p es) (lookup p m)
unfolding tree_map_from find_entry
lookup-tree_map_from p m [] h = refl
lookup-tree_map_from p m (e ∷ es) h =
    lookup-tree_map_from p (insert e.path e m) es h.1 ∙ step (Bool-cases (eqb p e.path))
  where
    step :
        (eqb p e.path ≡ true) ⊎ (eqb p e.path ≡ false)
        → or_else (find_entry p es) (lookup p (insert e.path e m))
          ≡ or_else (if eqb p e.path then some e else find_entry p es) (lookup p m)
    step (inl y) = rw (lookup-insert p e.path e m) (rw (y, find_entry-none p e es y h.0))
    step (inr n) = rw (lookup-insert p e.path e m) (rw n)

-- With unique paths the map of a tree finds what a search of the tree finds.
pub entry_at-find_entry :
    (p : Bytes) (es : List TreeEntry) → HasUniquePaths es → entry_at es p ≡ find_entry p es
unfolding tree_map
entry_at-find_entry p es h = lookup-tree_map_from p [] es h ∙ or_none (find_entry p es)
  where
    or_none : (o : Option TreeEntry) → or_else o (lookup p []) ≡ o
    or_none none = unfold lookup in refl
    or_none (some e) = refl

-- dirtyBytesForEntries; sizes are non-negative, and their sum is taken to stay within an int64.
unfoldable pub dirty_bytes_for_entries : List TreeEntry → ℕ
dirty_bytes_for_entries [] = 0
dirty_bytes_for_entries (e ∷ es) =
    let rest = dirty_bytes_for_entries es in elim e.kind [ file ↦ e.size + rest | _ ↦ rest ]

-- `path == target || strings.HasPrefix(path, target+"/")`: the path is the target or lies below it.
unfoldable pub covers : Bytes → Bytes → Bool
covers target path = eqb path target || has_prefix path (target ++ (slash ∷ []))

-- isCoveredByWhiteout, with the set given by its elements
unfoldable pub is_covered : List Bytes → Bytes → Bool
is_covered targets path = any (λ t. covers t path) targets

-- What it is to lie at or below a path.
pub data Below (t : Bytes) (p : Bytes) : Type 0 where
  at : p ≡ t → Below t p
  under : (r : Bytes) → p ≡ t ++ (slash ∷ r) → Below t p

pub covers-Below : (t p : Bytes) → covers t p ≡ true → Below t p
unfolding covers
covers-Below t p h = elim (Bool-cases (eqb p t)) [
  | inl e ↦ at (eqb→eq p t e)
  | inr n ↦
      let (r, e) = has_prefix_split p (t ++ (slash ∷ [])) (ground (arith, n, h)) in
      under r (e ∙ append_assoc t (slash ∷ []) r)
]

pub Below-covers : (t p : Bytes) → Below t p → covers t p ≡ true
unfolding covers
Below-covers t p (at e) = rw (e, eqb_refl t)
Below-covers t p (under r e) =
    let h = has_prefix-append (t ++ (slash ∷ [])) r in
    let f : (t ++ (slash ∷ [])) ++ r ≡ p = append_assoc t (slash ∷ []) r ∙ sym e in
    let k : has_prefix p (t ++ (slash ∷ [])) ≡ true = rw f at h in ground (arith, k)

pub Below-trans : {a b c : Bytes} → Below a b → Below b c → Below a c
Below-trans (at e) k = rw e at k
Below-trans (under r e) (at f) = under r (f ∙ e)
Below-trans {a} (under r e) (under s f) =
    under (r ++ (slash ∷ s))
      (f ∙ ap (λ (z : Bytes). z ++ (slash ∷ s)) e ∙ append_assoc a (slash ∷ r) (slash ∷ s))

pub covers_refl : (p : Bytes) → covers p p ≡ true
covers_refl p = Below-covers p p (at refl)

pub covers_trans : (a b c : Bytes) → covers a b ≡ true → covers b c ≡ true → covers a c ≡ true
covers_trans a b c h k = Below-covers a c (Below-trans (covers-Below a b h) (covers-Below b c k))
