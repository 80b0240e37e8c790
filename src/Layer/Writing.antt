-- ===== src/Layer/Writing.antt =====
-- The entries of a layer, all of them: what the second part of `extractLayer` of
-- internal/osix/snapshot.go leaves.
use mathlib.Core.Path.{subst, ap₂}
use smol_agent_oci_fs.Base.{
  ℕ, Bytes, slash, true, List, [], ◌∷◌, ◌++◌, eqb, eqb→eq, eqb_refl, str_leb, str_leb-append,
  str_leb_antisymm, str_leb_total, length, length-append, Option, none, some, ◌≡◌, ◌≢◌, ◌⊎◌, inl,
  inr, refl, ap, ◌∙◌, sym, arith, All, Bool-cases, Option-cases,
}
use smol_agent_oci_fs.Tree.Entry.{
  TreeEntry, dir, symlink, entry_at, find_entry, find_entry-none, find_entry-path, HasUniquePaths,
}
use smol_agent_oci_fs.Tree.Diff.Layer.{IsTree, IsOrdered, found_All, same_entry, none-some}
use smol_agent_oci_fs.Layer.Disk.{Disk, Node, dir_node, file_node, link_node, ok}
use smol_agent_oci_fs.Layer.Make.{Header, node_header, make_entries}
use smol_agent_oci_fs.Layer.Extract.{extract_layer}
use smol_agent_oci_fs.Layer.Descent.{IsDirAt, IsOpenAt, Inside}
use smol_agent_oci_fs.Layer.Entries.{
  IsEntryPath, Gives, IsSetAt, redacted_node, extract_header_sets,
}
use smol_agent_oci_fs.Layer.Removal.{extract_layer_cons}
use smol_agent_oci_fs.Layer.Scan.{scan_entry, scan_at, Scanned}

-- What the layer gives back at a path.
abbrev pub restored_at : (Bytes → Bytes) → Bytes → Option Node → Option Node
restored_at redact q none = none
restored_at redact q (some n) = some (redacted_node redact q n)

-- A free place, or one of the same kind. A link replaces whatever stands in its place.
abbrev pub Fits : Disk → Bytes → Node → Type 0
Fits fs p (dir_node m) = IsOpenAt fs p
Fits fs p (file_node m b) =
    (fs p ≡ none) ⊎ ((k : ℕ) × (old : Bytes) × (fs p ≡ some (file_node k old)))
Fits fs p (link_node l) = Unit

-- What is at a path while entries are pending: what was there, or what is to be there.
abbrev pub pending : Option TreeEntry → Option Node → Option Node → Option Node
pending none was goal = goal
pending (some e) was goal = was

str_leb_refl : (a : Bytes) → str_leb a a ≡ true
str_leb_refl a = elim (Bool-cases (str_leb a a)) [ inl y ↦ y | inr n ↦ str_leb_total a a n ]

link_not_dir : symlink ≢ dir
link_not_dir h = cc

not_inside_itself : (a r : Bytes) → a ≢ a ++ (slash ∷ r)
not_inside_itself a r e = absurd (omega (arith, ap length e, length-append a (slash ∷ r)))

module _ (masked : ℕ → ℕ) (redact digest : Bytes → Bytes) (after cleared : Disk)
    (c : List TreeEntry) (tree : IsTree c) (scanned : Scanned digest after c)
    (fits : (p : Bytes) (n : Node) → after p ≡ some n → Fits cleared p n) where
  abbrev goal : Bytes → Option Node
  goal q = restored_at redact q (after q)

  -- The disk between two rounds of the loop.
  abbrev Between : List TreeEntry → Disk → Type 0
  Between es fs = (q : Bytes) → fs q ≡ pending (find_entry q es) (cleared q) (goal q)

  abbrev AreEntries : List TreeEntry → Type 0
  AreEntries es = All (λ e. (entry_at c e.path ≡ some e) × IsEntryPath e.path) es

  -- The tree names what the disk holds.
  node_of :
      (q : Bytes) (e : TreeEntry)
      → entry_at c q ≡ some e
      → (n : Node) × (after q ≡ some n) × (scan_entry digest q n ≡ e)
  node_of q e h = go (after q) refl (scanned q ∙ h)
    where
      go :
          (o : Option Node)
          → after q ≡ o
          → scan_at digest q o ≡ some e
          → (n : Node) × (after q ≡ some n) × (scan_entry digest q n ≡ e)
      go none f k = absurd (cc)
      go (some n) f k = (n, f, cc)

  entry_of : (q : Bytes) (n : Node) → after q ≡ some n → entry_at c q ≡ some (scan_entry digest q n)
  entry_of q n h = sym (scanned q) ∙ ap (scan_at digest q) h

  dir_goal :
      (q : Bytes) (d : TreeEntry)
      → entry_at c q ≡ some d
      → d.kind ≡ dir
      → (m : ℕ) × (goal q ≡ some (dir_node m))
  dir_goal q d h k = go (node_of q d h)
    where
      go :
          (n : Node) × (after q ≡ some n) × (scan_entry digest q n ≡ d)
          → (m : ℕ) × (goal q ≡ some (dir_node m))
      go (dir_node m, e, f) = (m, rw e)
      go (file_node m b, e, f) = absurd (cc (ap (λ (x : TreeEntry). x.kind) f))
      go (link_node l, e, f) = absurd (cc (ap (λ (x : TreeEntry). x.kind) f))

  module _ (e : TreeEntry) (es : List TreeEntry) (fs : Disk) (between : Between (e ∷ es) fs)
      (entries : AreEntries (e ∷ es)) (ordered : IsOrdered (e ∷ es)) where
    All-later : All (λ f. str_leb e.path f.path ≡ true) (e ∷ es)
    All-later = (str_leb_refl e.path, ordered.0)

    -- A directory above the next entry is not pending: it would be sorted before.
    not_pending_above : (a : Bytes) → Inside a e.path → find_entry a (e ∷ es) ≡ none
    not_pending_above a (r, i) = elim (Option-cases (find_entry a (e ∷ es))) [
      | inl free ↦ free
      | inr (f, found) ↦
          let later = found_All (λ f. str_leb e.path f.path ≡ true) a (e ∷ es) f All-later found in
          let below : str_leb e.path a ≡ true =
            subst (λ (z : Bytes). str_leb e.path z ≡ true) (find_entry-path a (e ∷ es) f found)
              later in
          let above : str_leb a e.path ≡ true = rw i (str_leb-append a (slash ∷ r)) in
          absurd (not_inside_itself a r (sym (str_leb_antisymm e.path a below above) ∙ i))
    ]

    dirs_above : (a : Bytes) → Inside a e.path → IsDirAt fs a
    dirs_above a (r, i) =
        let (d, hd, k) = tree.closed e.path a r e entries.0.0 i in
        let (m, g) = dir_goal a d hd k in
        (
          m,
          between a
              ∙ ap (λ (o : Option TreeEntry). pending o (cleared a) (goal a))
                  (not_pending_above a (r, i))
              ∙ g,
        )

    next_was : fs e.path ≡ cleared e.path
    next_was = between e.path ∙ (unfold find_entry in rw (eqb_refl e.path))

    -- Nothing of the tree lies below a link.
    nothing_below_link :
        (l q r : Bytes)
        → after e.path ≡ some (link_node l)
        → q ≡ e.path ++ (slash ∷ r)
        → entry_at c q ≡ none
    nothing_below_link l q r h i = elim (Option-cases (entry_at c q)) [
      | inl free ↦ free
      | inr (x, hx) ↦
          let (d, hd, k) = tree.closed q e.path r x hx i in
          let kinds =
            ap (λ (y : TreeEntry). y.kind) (same_entry hd (entry_of e.path (link_node l) h)) in
          absurd (link_not_dir (sym kinds ∙ k))
    ]

    free_below_link :
        (l q r : Bytes)
        → after e.path ≡ some (link_node l)
        → q ≡ e.path ++ (slash ∷ r)
        → fs q ≡ none
    free_below_link l q r h i =
        let none_there = nothing_below_link l q r h i in
        between q
        ∙ ap₂ (λ (o : Option TreeEntry) (g : Option Node). pending o (cleared q) g)
            (elim (Option-cases (find_entry q (e ∷ es))) [
              | inl free ↦ free
              | inr (f, found) ↦
                  let there =
                    found_All (λ f. (entry_at c f.path ≡ some f) × IsEntryPath f.path) q (e ∷ es) f
                      entries found in
                  absurd (
                    none-some none_there
                      (ap (entry_at c) (sym (find_entry-path q (e ∷ es) f found)) ∙ there.0))
            ])
            (elim (Option-cases (after q)) [
              | inl free ↦ ap (restored_at redact q) free
              | inr (n, hn) ↦ absurd (none-some none_there (entry_of q n hn))
            ])

    gives : (n : Node) → after e.path ≡ some n → Gives fs e.path (redacted_node redact e.path n)
    gives (dir_node m) h = rw next_was (fits e.path (dir_node m) h)
    gives (file_node m b) h = rw next_was (fits e.path (file_node m b) h)
    gives (link_node l) h = λ q (r, i). free_below_link l q r h i

    after_next :
        (n : Node) (fs' : Disk)
        → after e.path ≡ some n
        → HasUniquePaths (e ∷ es)
        → IsSetAt fs e.path (redacted_node redact e.path n) fs'
        → Between es fs'
    after_next n fs' h unique set q = elim (Bool-cases (eqb q e.path)) [
      | inl y ↦
          set q
          ∙ rw y (
              rw (find_entry-none q e es y unique.0) (
                ap (λ (z : Bytes). restored_at redact z (some n)) (sym (eqb→eq q e.path y))
                ∙ ap (restored_at redact q) (sym (ap after (eqb→eq q e.path y) ∙ h))))
      | inr n' ↦ set q ∙ rw n' (between q ∙ (unfold find_entry in rw n'))
    ]

  make_entries_cons :
      (e : TreeEntry) (es : List TreeEntry) (n : Node) (hs : List Header)
      → after e.path ≡ some n
      → make_entries redact after es ≡ ok hs
      → make_entries redact after (e ∷ es) ≡ ok (node_header redact e.path n ∷ hs)
  make_entries_cons e es n hs h k = unfold make_entries in rw (h, make_entries) (rw k)

  -- The layer of some entries is made, and extracting it leaves what is to be there.
  pub write_entries :
      (es : List TreeEntry) (fs : Disk)
      → Between es fs
      → AreEntries es
      → IsOrdered es
      → HasUniquePaths es
      → (hs : List Header) × (make_entries redact after es ≡ ok hs)
        × ((fs' : Disk) × (extract_layer masked fs hs ≡ ok fs') × ((q : Bytes) → fs' q ≡ goal q))
  unfolding find_entry
  write_entries [] fs b a o u =
      ([], unfold make_entries in refl, (fs, unfold extract_layer in refl, λ q. b q))
  write_entries (e ∷ es) fs b a o u =
      let (n, hn, k) = node_of e.path e a.0.0 in
      let (fs', ran, set) =
        extract_header_sets masked redact fs e.path a.0.1 (dirs_above e es fs b a o) n
          (gives e es fs b a o n hn) in
      let (hs, made, (last, rest, done)) =
        write_entries es fs' (after_next e es fs b a o n fs' hn u set) a.1 o.1 u.1 in
      (
        node_header redact e.path n ∷ hs,
        make_entries_cons e es n hs hn made,
        (last, extract_layer_cons masked fs fs' (node_header redact e.path n) hs ran ∙ rest, done),
      )
