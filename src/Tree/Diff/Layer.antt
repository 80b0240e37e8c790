-- ===== src/Tree/Diff/Layer.antt =====
-- What the entries and the whiteouts of a layer say of the two trees that they were made from:
-- `diffLayerEntries` of internal/osix/snapshot.go.
use mathlib.Core.List.{flatten}
use mathlib.Core.Path.{subst}
use smol_agent_oci_fs.Base.{
  Bytes, slash, Bool, true, false, not, if◌then◌else◌, List, [], ◌∷◌, ◌++◌, keep, Option, none,
  some, any, any_found, eqb, eqb→eq, eqb_refl, eqb_comm, ◌≡◌, ◌≢◌, ◌⊎◌, inl, inr, refl, ap, ◌∙◌,
  sym, arith, All, All-append, All-keep, All-map, Bool-cases, Option-cases, str_leb,
}
use smol_agent_oci_fs.Paths.Canonical.{false_of_not}
use smol_agent_oci_fs.Tree.Entry.{
  TreeEntry, dir, entry_at, find_entry, find_entry-none, find_entry-path, entry_at-find_entry,
  HasUniquePaths, entry_eqb, entry_eqb→eq, type_eqb, type_eqb→eq, type_eqb_refl, covers, is_covered,
  covers_refl, covers-Below, Below, at, under,
}
use smol_agent_oci_fs.Tree.Whiteout.Defs.{merge_whiteouts}
use smol_agent_oci_fs.Tree.Whiteout.Covering.{nonempty, is_covered-merge_whiteouts}
use smol_agent_oci_fs.Tree.Diff.{
  is_changed, is_missing, is_type_changed, paths, type_change_whiteouts,
}

module _ (parent : List TreeEntry) (e old : TreeEntry)
    (was : entry_at parent e.path ≡ some old) where
  pub is_changed_some : is_changed parent e ≡ not (entry_eqb old e)
  unfolding is_changed
  is_changed_some = rw (was, is_changed)

  is_type_changed_some : is_type_changed parent e ≡ not (type_eqb old.kind e.kind)
  unfolding is_type_changed
  is_type_changed_some = rw (was, is_type_changed)

pub is_changed-none :
    (parent : List TreeEntry) (e : TreeEntry)
    → entry_at parent e.path ≡ none
    → is_changed parent e ≡ true
unfolding is_changed
is_changed-none parent e new = rw (new, is_changed)

-- The order of `sort.Slice` by path.
abbrev pub IsOrdered : List TreeEntry → Type 0
IsOrdered [] = Unit
IsOrdered (e ∷ es) = All (λ f. str_leb e.path f.path ≡ true) es × IsOrdered es

-- A tree as a scan of a directory gives it: sorted by path, every path once and not empty, and
-- every path that lies below another lies in a directory of the tree.
pub record IsTree (t : List TreeEntry) : Type 0 where
  pub ordered : IsOrdered t
  pub unique : HasUniquePaths t
  pub named : All (λ e. eqb e.path [] ≡ false) t
  pub closed :
      (p w r : Bytes) (e : TreeEntry)
      → entry_at t p ≡ some e
      → p ≡ w ++ (slash ∷ r)
      → (d : TreeEntry) × (entry_at t w ≡ some d) × (d.kind ≡ dir)

pub same_entry : {o : Option TreeEntry} {a b : TreeEntry} → o ≡ some a → o ≡ some b → a ≡ b
same_entry h k = cc

pub none-some : {o : Option TreeEntry} {a : TreeEntry} → o ≡ none → o ≡ some a → ⊥
none-some h k = cc

find_entry_self :
    (t : List TreeEntry) → HasUniquePaths t → All (λ e. find_entry e.path t ≡ some e) t
find_entry_self [] u = tt
find_entry_self (x ∷ es) u =
    (unfold find_entry in rw (eqb_refl x.path), shift es u.0 (find_entry_self es u.1))
  where
    shift :
        (ys : List TreeEntry)
        → All (λ f. eqb x.path f.path ≡ false) ys
        → All (λ f. find_entry f.path es ≡ some f) ys
        → All (λ f. find_entry f.path (x ∷ es) ≡ some f) ys
    shift [] d h = tt
    shift (y ∷ ys) d h =
        (unfold find_entry in rw (eqb_comm y.path x.path) (rw d.0 h.0), shift ys d.1 h.1)

-- Each entry is what the tree has at its path.
pub entry_at_self :
    (t : List TreeEntry) → HasUniquePaths t → All (λ e. entry_at t e.path ≡ some e) t
entry_at_self t u =
    All-map (λ e. find_entry e.path t ≡ some e) (λ e. entry_at t e.path ≡ some e) t
      (λ e h. entry_at-find_entry e.path t u ∙ h) (find_entry_self t u)

abbrev pub passes : (TreeEntry → Bool) → Option TreeEntry → Option TreeEntry
passes f none = none
passes f (some e) = if f e then some e else none

pub find_entry-keep :
    (f : TreeEntry → Bool) (q : Bytes) (t : List TreeEntry)
    → HasUniquePaths t
    → find_entry q (keep f t) ≡ passes f (find_entry q t)
unfolding find_entry keep
find_entry-keep f q [] u = refl
find_entry-keep f q (x ∷ es) u =
    ground
      (arith, find_entry-keep f q es u.1, λ (h : eqb q x.path ≡ true). find_entry-none q x es h u.0)

pub keep-HasUniquePaths :
    (f : TreeEntry → Bool) (t : List TreeEntry) → HasUniquePaths t → HasUniquePaths (keep f t)
unfolding keep
keep-HasUniquePaths f [] u = tt
keep-HasUniquePaths f (x ∷ t) u = elim (Bool-cases (f x)) [
  | inl y ↦ rw y (All-keep (λ e. eqb x.path e.path ≡ false) f t u.0, keep-HasUniquePaths f t u.1)
  | inr n ↦ rw n (keep-HasUniquePaths f t u.1)
]

pub keep-IsOrdered :
    (f : TreeEntry → Bool) (t : List TreeEntry) → IsOrdered t → IsOrdered (keep f t)
unfolding keep
keep-IsOrdered f [] u = tt
keep-IsOrdered f (x ∷ t) u = elim (Bool-cases (f x)) [
  | inl y ↦ rw y (All-keep (λ e. str_leb x.path e.path ≡ true) f t u.0, keep-IsOrdered f t u.1)
  | inr n ↦ rw n (keep-IsOrdered f t u.1)
]

-- A predicate of all entries holds of the one that is found.
pub found_All :
    (P : TreeEntry → Type 0) (q : Bytes) (t : List TreeEntry) (e : TreeEntry)
    → All P t
    → find_entry q t ≡ some e
    → P e
found_All P q [] e h k = absurd (unfold find_entry in cc)
found_All P q (x ∷ t) e h k = elim (Bool-cases (eqb q x.path)) [
  | inl y ↦ subst P {x = x} (unfold find_entry in ground (arith, y, k)) h.0
  | inr n ↦ found_All P q t e h.1 (unfold find_entry in ground (arith, n, k))
]

found_covered :
    (q : Bytes) (e : TreeEntry) (u : List TreeEntry) (rest : List Bytes)
    → eqb q [] ≡ false
    → find_entry q u ≡ some e
    → is_covered (nonempty (paths u ++ rest)) q ≡ true
unfolding is_covered any paths find_entry keep
found_covered q e [] rest named h = cc
found_covered q e (x ∷ u) rest named h = elim (Bool-cases (eqb q x.path)) [
  | inl y ↦
      rw (ap (λ (z : Bytes). eqb z []) (sym (eqb→eq q x.path y)) ∙ named)
        (ground (arith, covers_refl q, eqb→eq q x.path y))
  | inr n ↦ ground (arith, found_covered q e u rest named (ground (arith, n, h)))
]

covered_right :
    (q : Bytes) (xs ys : List Bytes)
    → is_covered (nonempty ys) q ≡ true
    → is_covered (nonempty (xs ++ ys)) q ≡ true
unfolding is_covered any keep
covered_right q [] ys h = h
covered_right q (x ∷ xs) ys h = ground (arith, covered_right q xs ys h)

All-paths : (P : Bytes → Type 0) (t : List TreeEntry) → All (λ e. P e.path) t → All P (paths t)
unfolding paths
All-paths P [] h = tt
All-paths P (e ∷ t) h = (h.0, All-paths P t h.1)

is_covered_found :
    (q : Bytes) (e : TreeEntry) (t : List TreeEntry)
    → find_entry q t ≡ some e
    → is_covered (paths t) q ≡ true
unfolding is_covered any paths find_entry
is_covered_found q e [] h = cc
is_covered_found q e (f ∷ t) h = elim (Bool-cases (eqb q f.path)) [
  | inl y ↦ ground (arith, covers_refl q, eqb→eq q f.path y)
  | inr n ↦ ground (arith, is_covered_found q e t (ground (arith, n, h)))
]

module _ (p c : List TreeEntry) (hp : IsTree p) (hc : IsTree c) where
  abbrev pub layer_entries : List TreeEntry
  layer_entries = keep (is_changed p) c

  -- Why a path is a whiteout: the new tree lacks it, or has something of another kind there.
  abbrev pub Reason : Bytes → Type 0
  Reason w =
      (a : TreeEntry) × (entry_at p w ≡ some a)
      × ((entry_at c w ≡ none) ⊎ ((b : TreeEntry) × (entry_at c w ≡ some b) × (a.kind ≢ b.kind)))

  missing-Reason :
      (a : TreeEntry) → entry_at p a.path ≡ some a → is_missing c a ≡ true → Reason a.path
  unfolding is_missing
  missing-Reason a e h = (a, e, inl (ground (arith, h)))

  changed-Reason :
      (b : TreeEntry) → entry_at c b.path ≡ some b → is_type_changed p b ≡ true → Reason b.path
  changed-Reason b e h = go (Option-cases (entry_at p b.path))
    where
      go :
          (entry_at p b.path ≡ none) ⊎ ((a : TreeEntry) × (entry_at p b.path ≡ some a))
          → Reason b.path
      go (inl none') = absurd (unfold is_type_changed in ground (arith, none', h))
      go (inr (a, f)) = (
        a,
        f,
        inr (
          b,
          e,
          λ same. unfold is_type_changed in ground (arith, f, h, same, type_eqb_refl b.kind),
        ),
      )

  All-kept :
      (P : TreeEntry → Type 0) (f : TreeEntry → Bool) (t : List TreeEntry)
      → All P t
      → All (λ e. P e × (f e ≡ true)) (keep f t)
  unfolding keep
  All-kept P f [] h = tt
  All-kept P f (e ∷ t) h = elim (Bool-cases (f e)) [
    | inl y ↦ rw y ((h.0, y), All-kept P f t h.1)
    | inr n ↦ rw n (All-kept P f t h.1)
  ]

  pub whiteouts-Reason :
      All Reason (paths (keep (is_missing c) p) ++ (type_change_whiteouts p layer_entries ++ []))
  unfolding type_change_whiteouts
  whiteouts-Reason =
      All-append Reason (paths (keep (is_missing c) p))
        (paths (keep (is_type_changed p) layer_entries) ++ [])
        (All-paths Reason (keep (is_missing c) p) (
          All-map (λ a. (entry_at p a.path ≡ some a) × (is_missing c a ≡ true)) (λ a. Reason a.path)
            (keep (is_missing c) p) (λ a h. missing-Reason a h.0 h.1)
            (All-kept (λ a. entry_at p a.path ≡ some a) (is_missing c) p
              (entry_at_self p hp.unique))))
        (All-append Reason (paths (keep (is_type_changed p) layer_entries)) []
          (All-paths Reason (keep (is_type_changed p) layer_entries) (
            All-map (λ b. (entry_at c b.path ≡ some b) × (is_type_changed p b ≡ true))
              (λ b. Reason b.path) (keep (is_type_changed p) layer_entries)
              (λ b h. changed-Reason b h.0 h.1)
              (All-kept (λ b. entry_at c b.path ≡ some b) (is_type_changed p) layer_entries
                (All-keep (λ b. entry_at c b.path ≡ some b) (is_changed p) c
                  (entry_at_self c hc.unique)))))
          tt)

  abbrev pub layer_whiteouts : List Bytes
  layer_whiteouts =
      merge_whiteouts (paths (keep (is_missing c) p) ∷ type_change_whiteouts p layer_entries ∷ [])

  is_covered-layer :
      (q : Bytes)
      → is_covered layer_whiteouts q
        ≡ is_covered
            (nonempty
              (paths (keep (is_missing c) p) ++ (type_change_whiteouts p layer_entries ++ [])))
            q
  unfolding flatten
  is_covered-layer q =
      is_covered-merge_whiteouts
        (paths (keep (is_missing c) p) ∷ type_change_whiteouts p layer_entries ∷ []) q

  -- A covered path lies at or below a path that has a reason to be a whiteout.
  covered-Reason :
      (q : Bytes)
      → is_covered layer_whiteouts q ≡ true
      → (w : Bytes) × Reason w × (covers w q ≡ true)
  unfolding is_covered
  covered-Reason q h =
      any_found Reason (λ t. covers t q)
        (nonempty (paths (keep (is_missing c) p) ++ (type_change_whiteouts p layer_entries ++ [])))
        (All-keep Reason (λ t. not (eqb t []))
          (paths (keep (is_missing c) p) ++ (type_change_whiteouts p layer_entries ++ []))
          whiteouts-Reason)
        (sym (is_covered-layer q) ∙ h)

  -- No whiteout touches a path whose kind stays.
  pub not_covered :
      (q : Bytes) (a b : TreeEntry)
      → entry_at p q ≡ some a
      → entry_at c q ≡ some b
      → a.kind ≡ b.kind
      → is_covered layer_whiteouts q ≡ false
  not_covered q a b ha hb same = elim (Bool-cases (is_covered layer_whiteouts q)) [
    | inr n ↦ n
    | inl y ↦
        let (w, (o, ho, reason), cov) = covered-Reason q y in
        absurd (clash w o ho (covers-Below w q cov) reason)
  ]
    where
      clash :
          (w : Bytes) (o : TreeEntry)
          → entry_at p w ≡ some o
          → Below w q
          → (entry_at c w ≡ none) ⊎ ((n : TreeEntry) × (entry_at c w ≡ some n) × (o.kind ≢ n.kind))
          → ⊥
      clash w o ho (at e) (inl gone) = none-some (ap (entry_at c) e ∙ gone) hb
      clash w o ho (at e) (inr (n, hn, differ)) = differ (
          ap (λ (x : TreeEntry). x.kind) (same_entry ho (ap (entry_at p) (sym e) ∙ ha))
          ∙ same
          ∙ ap (λ (x : TreeEntry). x.kind) (same_entry (ap (entry_at c) (sym e) ∙ hb) hn))
      clash w o ho (under r e) (inl gone) =
          let (d, hd, k) = hc.closed q w r b hb e in none-some gone hd
      clash w o ho (under r e) (inr (n, hn, differ)) =
          let (d, hd, k) = hc.closed q w r b hb e in
          let (d', hd', k') = hp.closed q w r a ha e in
          differ (
            ap (λ (x : TreeEntry). x.kind) (same_entry ho hd')
            ∙ k'
            ∙ sym k
            ∙ ap (λ (x : TreeEntry). x.kind) (same_entry hd hn))

  pub kept_layer_entry :
      (q : Bytes) (b : TreeEntry)
      → entry_at c q ≡ some b
      → is_changed p b ≡ true
      → find_entry q layer_entries ≡ some b
  kept_layer_entry q b hb changed =
      find_entry-keep (is_changed p) q c hc.unique
      ∙ ap (passes (is_changed p)) (sym (entry_at-find_entry q c hc.unique) ∙ hb)
      ∙ rw changed

  named_at : (q : Bytes) (a : TreeEntry) → entry_at p q ≡ some a → eqb q [] ≡ false
  named_at q a ha =
      let found = sym (entry_at-find_entry q p hp.unique) ∙ ha in
      ap (λ (z : Bytes). eqb z []) (sym (find_entry-path q p a found))
      ∙ found_All (λ e. eqb e.path [] ≡ false) q p a hp.named found

  unlike_entries : (a b : TreeEntry) → a.kind ≢ b.kind → entry_eqb a b ≡ false
  unlike_entries a b differ =
      false_of_not _ (λ h. differ (ap (λ (x : TreeEntry). x.kind) (entry_eqb→eq a b h)))

  -- What the new tree lacks is covered.
  pub missing_covered :
      (q : Bytes) (a : TreeEntry)
      → entry_at p q ≡ some a
      → entry_at c q ≡ none
      → is_covered layer_whiteouts q ≡ true
  missing_covered q a ha gone =
      let found = sym (entry_at-find_entry q p hp.unique) ∙ ha in
      let at_q : a.path ≡ q = find_entry-path q p a found in
      let missing : is_missing c a ≡ true =
        unfold is_missing in ground (arith, ap (entry_at c) at_q, gone) in
      is_covered-layer q
      ∙ found_covered q a (keep (is_missing c) p) (type_change_whiteouts p layer_entries ++ [])
          (named_at q a ha)
          (find_entry-keep (is_missing c) q p hp.unique
            ∙ ap (passes (is_missing c)) found
            ∙ rw missing)

  typed_covered :
      (q : Bytes) (b : TreeEntry)
      → eqb q [] ≡ false
      → find_entry q (keep (is_type_changed p) layer_entries) ≡ some b
      → is_covered (nonempty (type_change_whiteouts p layer_entries ++ [])) q ≡ true
  unfolding type_change_whiteouts
  typed_covered q b named found =
      found_covered q b (keep (is_type_changed p) layer_entries) [] named found

  -- A path whose kind changes is covered.
  pub type_change_covered :
      (q : Bytes) (a b : TreeEntry)
      → entry_at p q ≡ some a
      → entry_at c q ≡ some b
      → a.kind ≢ b.kind
      → is_covered layer_whiteouts q ≡ true
  type_change_covered q a b ha hb differ =
      let at_q : b.path ≡ q =
        find_entry-path q c b (sym (entry_at-find_entry q c hc.unique) ∙ hb) in
      let old : entry_at p b.path ≡ some a = ap (entry_at p) at_q ∙ ha in
      let unlike : type_eqb a.kind b.kind ≡ false =
        false_of_not _ (λ h. differ (type_eqb→eq a.kind b.kind h)) in
      let changed : is_changed p b ≡ true =
        is_changed_some p b a old ∙ ap not (unlike_entries a b differ) in
      let typed : is_type_changed p b ≡ true = is_type_changed_some p b a old ∙ ap not unlike in
      let found : find_entry q (keep (is_type_changed p) layer_entries) ≡ some b =
        find_entry-keep (is_type_changed p) q layer_entries
          (keep-HasUniquePaths (is_changed p) c hc.unique)
        ∙ ap (passes (is_type_changed p)) (kept_layer_entry q b hb changed)
        ∙ rw typed in
      is_covered-layer q
      ∙ covered_right q (paths (keep (is_missing c) p))
          (type_change_whiteouts p layer_entries ++ []) (typed_covered q b (named_at q a ha) found)
