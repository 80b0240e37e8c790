-- ===== src/Reads/Source.antt =====
-- `restoreSourceDigestForEntry` of internal/osix/snapshot.go: the snapshot of a chain whose layer
-- holds an entry.
use smol_agent_oci_fs.Base.{
  Bytes, Bool, true, false, if◌then◌else◌, List, [], ◌∷◌, ◌++◌, reverse, Option, none, some, ◌≡◌,
  refl, ap, inl, inr, All, Bool-cases, arith,
}
use smol_agent_oci_fs.Tree.Entry.{TreeEntry, entry_at, entry_eqb}

-- snapshotChainItem, of which the tree of the configuration is used here
pub record ChainItem : Type 0 where
  pub digest : Bytes
  pub tree : List TreeEntry

-- `current, ok := treeMap(...)[entry.Path]; ok && current == entry`
unfoldable pub has_entry : TreeEntry → ChainItem → Bool
has_entry e item = elim (entry_at item.tree e.path) [
  | none ↦ false
  | some current ↦ entry_eqb current e
]

-- Whether the item before, if there is one, has the entry.
unfoldable pub parent_has_entry : TreeEntry → List ChainItem → Bool
unfolding has_entry
parent_has_entry e [] = false
parent_has_entry e (parent ∷ older) = has_entry e parent

-- The loop, which goes from the newest item to the oldest.
unfoldable pub newest_source : TreeEntry → List ChainItem → Option Bytes
unfolding has_entry parent_has_entry
newest_source e [] = none
newest_source e (item ∷ older) =
    let rest = newest_source e older in
    if has_entry e item then (if parent_has_entry e older then rest else some item.digest) else rest

unfoldable pub restore_source_digest_for_entry : List ChainItem → TreeEntry → Option Bytes
unfolding newest_source
restore_source_digest_for_entry chain e = newest_source e (reverse chain)

-- The item at which the run of items that have the entry, up to the newest one, begins.
pub record Introduced (e : TreeEntry) (newest_first : List ChainItem) (digest : Bytes)
    : Type 0 where
  pub later : List ChainItem
  pub item : ChainItem
  pub older : List ChainItem
  pub split : newest_first ≡ later ++ (item ∷ older)
  pub kept : All (λ i. has_entry e i ≡ true) later
  pub there : has_entry e item ≡ true
  pub new : parent_has_entry e older ≡ false
  pub named : item.digest ≡ digest

newest_source-Introduced :
    (e : TreeEntry) (xs : List ChainItem)
    → parent_has_entry e xs ≡ true
    → (d : Bytes) × (newest_source e xs ≡ some d) × Introduced e xs d
unfolding newest_source parent_has_entry
newest_source-Introduced e [] h = absurd (cc)
newest_source-Introduced e (x ∷ xs) h = elim (Bool-cases (parent_has_entry e xs)) [
  | inl more ↦
      let (d, found, i) = newest_source-Introduced e xs more in
      (
        d,
        ground (arith, h, more, found),
        record {
          later = x ∷ i.later;
          item = i.item;
          older = i.older;
          split = ap (λ r. x ∷ r) i.split;
          kept = (h, i.kept);
          there = i.there;
          new = i.new;
          named = i.named;
        },
      )
  | inr first ↦ (
    x.digest,
    ground (arith, h, first),
    record {
      later = [];
      item = x;
      older = xs;
      split = refl;
      kept = tt;
      there = h;
      new = first;
      named = refl;
    },
  )
]

-- If the newest snapshot of a chain has an entry, a source is found for it: the snapshot that
-- begins the run, up to the newest one, of snapshots that have the entry.
pub restore_source_digest_for_entry-Introduced :
    (chain : List ChainItem) (e : TreeEntry)
    → parent_has_entry e (reverse chain) ≡ true
    → (d : Bytes) × (restore_source_digest_for_entry chain e ≡ some d)
      × Introduced e (reverse chain) d
unfolding restore_source_digest_for_entry
restore_source_digest_for_entry-Introduced chain e h = newest_source-Introduced e (reverse chain) h
