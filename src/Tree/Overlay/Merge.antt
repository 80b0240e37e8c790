-- ===== src/Tree/Overlay/Merge.antt =====
-- What `mergeOverlayTree` of internal/osix/snapshot.go has at each path.
use mathlib.Core.Path.{subst}
use smol_agent_oci_fs.Base.{
  ℕ, zero, suc, Bytes, if◌then◌else◌, true, false, not, ◌||◌, List, [], ◌∷◌, keep, length, Option,
  none, some, eqb, eqb→eq, lookup, insert, keep_keys, lookup-insert, lookup-keep_keys, any, ◌≡◌,
  ◌≢◌, ◌⊎◌, inl, inr, refl, ap, ◌∙◌, sym, arith, Bool-cases, Option-cases,
}
use smol_agent_oci_fs.Paths.Components.{dir_of, dot}
use smol_agent_oci_fs.Tree.Entry.{
  TreeEntry, EntryType, file, dir, symlink, other, tree_map, entry_at, find_entry, find_entry-none,
  find_entry-path, or_else, entry_eqb_refl, HasUniquePaths, covers, is_covered,
}
use smol_agent_oci_fs.Tree.Diff.{is_changed}
use smol_agent_oci_fs.Tree.Diff.Layer.{
  keep-HasUniquePaths, find_entry-keep, passes, is_changed_some, same_entry,
}
use smol_agent_oci_fs.Tree.Overlay.{
  EntryMap, delete_covered, add_ancestor, add_ancestors, add_changed, merged_map,
  changed_overlay_entries,
}

lookup-delete_covered :
    (m : EntryMap) (ws : List Bytes) (q : Bytes)
    → lookup q (delete_covered m ws) ≡ (if is_covered ws q then none else lookup q m)
unfolding delete_covered is_covered any
lookup-delete_covered m [] q = refl
lookup-delete_covered m (w ∷ ws) q = ground (
  arith,
  lookup-delete_covered (keep_keys (λ path. not (covers w path)) m) ws q,
  lookup-keep_keys (λ path. not (covers w path)) q m,
)

-- An ancestor is added only where nothing is, and only as the directory that the parent has.
data Added (parent : List TreeEntry) (q : Bytes) (old : Option TreeEntry)
    : Option TreeEntry → Type 0 where
  kept : Added parent q old old
  readded :
      (e : TreeEntry)
      → old ≡ none
      → entry_at parent q ≡ some e
      → e.kind ≡ dir
      → Added parent q old (some e)

module _ (parent : List TreeEntry) (q : Bytes) where
  Added-trans :
      {a b c : Option TreeEntry} → Added parent q a b → Added parent q b c → Added parent q a c
  Added-trans kept y = y
  Added-trans (readded e h k d) kept = readded e h k d
  Added-trans (readded e h k d) (readded f h' k' d') = absurd (cc)

  Added-insert :
      (m : EntryMap) (a : Bytes) (e : TreeEntry)
      → lookup a m ≡ none
      → entry_at parent a ≡ some e
      → e.kind ≡ dir
      → Added parent q (lookup q m) (lookup q (insert a e m))
  Added-insert m a e h k d = elim (Bool-cases (eqb q a)) [
    | inl y ↦
        let same = eqb→eq q a y in
        rw (lookup-insert q a e m) (
          rw y
            (readded e (ap (λ (z : Bytes). lookup z m) same ∙ h) (ap (entry_at parent) same ∙ k) d))
    | inr n ↦ rw (lookup-insert q a e m) (rw n kept)
  ]

  Added-some : {o : Option TreeEntry} {e : TreeEntry} → Added parent q (some e) o → o ≡ some e
  Added-some kept = refl
  Added-some (readded e h k d) = absurd (cc)

  add_ancestor-Added :
      (m : EntryMap) (a : Bytes) → Added parent q (lookup q m) (lookup q (add_ancestor parent m a))
  unfolding add_ancestor
  add_ancestor-Added m a = go (lookup a m) (entry_at parent a) refl refl
    where
      go :
          (o p : Option TreeEntry)
          → lookup a m ≡ o
          → entry_at parent a ≡ p
          → Added parent q (lookup q m) (
              lookup q (elim o [
                | some e ↦ m
                | none ↦ elim p [ none ↦ m | some e ↦ elim e.kind [ dir ↦ insert a e m | _ ↦ m ] ]
              ]))
      go (some e) p h k = kept
      go none none h k = kept
      go none (some e) h k = by_kind e.kind refl
        where
          by_kind :
              (t : EntryType)
              → e.kind ≡ t
              → Added parent q (lookup q m) (lookup q (elim t [ dir ↦ insert a e m | _ ↦ m ]))
          by_kind dir d = Added-insert m a e h k d
          by_kind file d = kept
          by_kind symlink d = kept
          by_kind (other t) d = kept

  add_ancestors-Added :
      (fuel : ℕ) (m : EntryMap) (a : Bytes)
      → Added parent q (lookup q m) (lookup q (add_ancestors fuel parent m a))
  unfolding add_ancestors
  add_ancestors-Added zero m a = kept
  add_ancestors-Added (suc fuel) m a = elim (Bool-cases (eqb a dot || eqb a [])) [
    | inl y ↦ rw (y, add_ancestors) kept
    | inr n ↦
        rw (n, add_ancestors)
          (Added-trans (add_ancestor-Added m a)
            (add_ancestors-Added fuel (add_ancestor parent m a) (dir_of a)))
  ]

  -- Without an entry of the path among the changed ones the path is kept, or added as an ancestor.
  add_changed-Added :
      (m : EntryMap) (es : List TreeEntry)
      → find_entry q es ≡ none
      → Added parent q (lookup q m) (lookup q (add_changed parent m es))
  unfolding add_changed find_entry
  add_changed-Added m [] h = kept
  add_changed-Added m (e ∷ es) h = elim (Bool-cases (eqb q e.path)) [
    | inl y ↦ absurd (ground (arith, h, y))
    | inr n ↦
        Added-trans
          (Added-trans (rw (lookup-insert q e.path e m) (rw n kept))
            (add_ancestors-Added (length e.path) (insert e.path e m) (dir_of e.path)))
          (add_changed-Added
            (add_ancestors (length e.path) parent (insert e.path e m) (dir_of e.path)) es
            (ground (arith, h, n)))
  ]

  -- A changed entry is what the merged map has at its path.
  lookup-add_changed :
      (m : EntryMap) (es : List TreeEntry) (x : TreeEntry)
      → HasUniquePaths es
      → find_entry q es ≡ some x
      → lookup q (add_changed parent m es) ≡ some x
  unfolding add_changed
  lookup-add_changed m [] x u h = absurd (unfold find_entry in cc)
  lookup-add_changed m (e ∷ es) x u h = elim (Bool-cases (eqb q e.path)) [
    | inr n ↦
        lookup-add_changed
          (add_ancestors (length e.path) parent (insert e.path e m) (dir_of e.path)) es x u.1
          (unfold find_entry in ground (arith, h, n))
    | inl y ↦
        let same : e ≡ x = unfold find_entry in ground (arith, h, y) in
        let put : lookup q (insert e.path e m) ≡ some e = lookup-insert q e.path e m ∙ rw y in
        let above =
          subst
            (λ (o : Option TreeEntry).
              Added parent q o (
                lookup q
                  (add_ancestors (length e.path) parent (insert e.path e m) (dir_of e.path))))
            put (add_ancestors-Added (length e.path) (insert e.path e m) (dir_of e.path)) in
        let rest =
          subst
            (λ (o : Option TreeEntry). Added parent q o (
              lookup q (
                add_changed parent
                  (add_ancestors (length e.path) parent (insert e.path e m) (dir_of e.path)) es)))
            (Added-some above)
            (add_changed-Added
              (add_ancestors (length e.path) parent (insert e.path e m) (dir_of e.path)) es
              (find_entry-none q e es y u.0)) in
        Added-some rest ∙ ap some same
  ]

module _ (parent changed : List TreeEntry) (ws : List Bytes) (q : Bytes)
    (u : HasUniquePaths changed) where
  deleted :
      lookup q (delete_covered (tree_map parent) ws)
      ≡ (if is_covered ws q then none else entry_at parent q)
  deleted = lookup-delete_covered (tree_map parent) ws q

  uncovered_case :
      {a b : Option TreeEntry} → a ≡ entry_at parent q → Added parent q a b → b ≡ entry_at parent q
  uncovered_case e kept = e
  uncovered_case e (readded d h k l) = sym k

  covered_case :
      {a b : Option TreeEntry}
      → a ≡ none
      → Added parent q a b
      → (b ≡ none)
        ⊎ ((d : TreeEntry) × (entry_at parent q ≡ some d) × (d.kind ≡ dir) × (b ≡ some d))
  covered_case e kept = inl e
  covered_case e (readded d h k l) = inr (d, k, l, refl)

  -- At a path that no whiteout covers the merged map has the changed entry of the path, if there
  -- is one, and what the parent has otherwise.
  pub lookup-merged_map_uncovered :
      is_covered ws q ≡ false
      → lookup q (merged_map parent changed ws) ≡ or_else (find_entry q changed) (entry_at parent q)
  unfolding merged_map
  lookup-merged_map_uncovered n = elim (Option-cases (find_entry q changed)) [
    | inl out ↦ rw out (
        uncovered_case (deleted ∙ rw n)
          (add_changed-Added parent q (delete_covered (tree_map parent) ws) changed out))
    | inr (x, found) ↦
        rw found
          (lookup-add_changed parent q (delete_covered (tree_map parent) ws) changed x u found)
  ]

  -- At a path that a whiteout covers the merged map has the changed entry of the path, if there is
  -- one; otherwise nothing, or a directory that the parent has there.
  pub lookup-merged_map_covered :
      is_covered ws q ≡ true
      → (lookup q (merged_map parent changed ws) ≡ find_entry q changed)
        ⊎ ((d : TreeEntry) × (entry_at parent q ≡ some d)
            × (d.kind ≡ dir)
            × (lookup q (merged_map parent changed ws) ≡ some d))
  unfolding merged_map
  lookup-merged_map_covered y = elim (Option-cases (find_entry q changed)) [
    | inl out ↦ rw out (
        covered_case (deleted ∙ rw y)
          (add_changed-Added parent q (delete_covered (tree_map parent) ws) changed out))
    | inr (x, found) ↦ inl (
        lookup-add_changed parent q (delete_covered (tree_map parent) ws) changed x u found
        ∙ sym found)
  ]

-- A file or link of the upper directory that a whiteout covers, as below an opaque directory, is
-- missing from the merged tree if the parent has an equal entry at its path.
pub equal_entry_lost :
    (parent upper : List TreeEntry) (ws : List Bytes) (q : Bytes) (e : TreeEntry)
    → HasUniquePaths upper
    → find_entry q upper ≡ some e
    → entry_at parent q ≡ some e
    → e.kind ≢ dir
    → is_covered ws q ≡ true
    → lookup q (merged_map parent (changed_overlay_entries parent upper) ws) ≡ none
unfolding changed_overlay_entries
equal_entry_lost parent upper ws q e u found was plain covered = lost (
    lookup-merged_map_covered parent (keep (is_changed parent) upper) ws q
      (keep-HasUniquePaths (is_changed parent) upper u) covered)
  where
    at_q : e.path ≡ q
    at_q = find_entry-path q upper e found

    same : is_changed parent e ≡ false
    same = is_changed_some parent e e (ap (entry_at parent) at_q ∙ was) ∙ ap not (entry_eqb_refl e)

    out : find_entry q (keep (is_changed parent) upper) ≡ none
    out =
        find_entry-keep (is_changed parent) q upper u
        ∙ ap (passes (is_changed parent)) found
        ∙ rw same

    lost :
        {o : Option TreeEntry}
        → (o ≡ find_entry q (keep (is_changed parent) upper))
          ⊎ ((d : TreeEntry) × (entry_at parent q ≡ some d) × (d.kind ≡ dir) × (o ≡ some d))
        → o ≡ none
    lost (inl h) = h ∙ out
    lost (inr (d, h, k, l)) = absurd (plain (ap (λ (x : TreeEntry). x.kind) (same_entry was h) ∙ k))
