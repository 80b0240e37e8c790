-- ===== src/Reads/Lazy/Chain.antt =====
-- Reads of a range of a file and of the whole file, along the chain: internal/osix/lazy_read.go.
use smol_agent_oci_fs.Base.{
  ℕ, Bytes, codes, Bool, false, List, [], ◌∷◌, reverse, contains, Option, none, some, Bool-cases,
  inl, inr, ◌≡◌, refl, arith, ◌∙◌, elem, All,
}
use smol_agent_oci_fs.Paths.Components.{canonical_read_path}
use smol_agent_oci_fs.Tree.Entry.{TreeEntry}
use smol_agent_oci_fs.Tree.Diff.{paths}
use smol_agent_oci_fs.Layer.Disk.{
  Disk, Error, Result, ok, err, unreadable_layer, unsafe_tar_path, ◌>>=◌,
}
use smol_agent_oci_fs.Layer.Make.{Header, make_layer}
use smol_agent_oci_fs.Layer.Extract.{validate_whiteout_header}
use smol_agent_oci_fs.Layer.Entries.{IsEntryPath}
use smol_agent_oci_fs.Layer.Whiteouts.{IsTarget}
use smol_agent_oci_fs.Reads.Range.{slice_range}
use smol_agent_oci_fs.Reads.Lazy.{
  Reading, absent, deleted, found, read_typed, read_header, read_file_from_layer, LazyItem,
  read_item, read_on, read_chain, read_snapshot_file, says_not_found, range_on, range_again,
  read_canonical, read_chain_range, read_snapshot_file_range,
}
use smol_agent_oci_fs.Reads.Lazy.Layer.{read_file_from_layer-make_layer}

-- The texts of the headers' names do not contain the words by which a missing file is told.
abbrev pub AreSilent : (Bytes → Bytes) → List Header → Type 0
AreSilent quote = All (λ h. contains (quote h.name) (codes "not found") ≡ false)

module _ (quote : Bytes → Bytes) (names_missing : Bytes → Bool)
    (load : Bytes → Option (List Header)) (name : Bytes)
    (plain : contains name (codes "not found") ≡ false) where
  abbrev says : Error → Bool
  says e = says_not_found load quote names_missing name e

  -- An error is not taken for a missing file.
  abbrev IsQuiet : Result Reading → Type 0
  IsQuiet r = (e : Error) → r ≡ err e → says e ≡ false

  abbrev SilentHeader : Header → Type 0
  SilentHeader h = contains (quote h.name) (codes "not found") ≡ false

  validate-IsQuiet :
      (h : Header)
      → SilentHeader h
      → (e : Error) → validate_whiteout_header h ≡ err e
      → says e ≡ false
  unfolding validate_whiteout_header says_not_found
  validate-IsQuiet h silent e same = ground (arith, same, silent)

  typed-IsQuiet : (h : Header) → IsQuiet (read_typed h)
  unfolding read_typed says_not_found
  typed-IsQuiet h e same = ground (arith, same, plain)

  unsafe-IsQuiet : (h : Header) → SilentHeader h → IsQuiet (err (unsafe_tar_path h.name))
  unfolding says_not_found
  unsafe-IsQuiet h silent e same = ground (arith, same, silent)

  header-IsQuiet :
      (h : Header) (rest : Result Reading)
      → SilentHeader h
      → IsQuiet rest
      → IsQuiet (read_header h name rest)
  unfolding read_header
  header-IsQuiet h rest silent k e same =
      ground (
        arith,
        same,
        k e,
        unsafe-IsQuiet h silent e,
        validate-IsQuiet h silent e,
        typed-IsQuiet h e,
      )

  layer-IsQuiet : (hs : List Header) → AreSilent quote hs → IsQuiet (read_file_from_layer hs name)
  unfolding read_file_from_layer
  layer-IsQuiet [] silent e same = absurd (cc)
  layer-IsQuiet (h ∷ hs) silent e same =
      header-IsQuiet h (read_file_from_layer hs name) silent.0 (layer-IsQuiet hs silent.1) e same

  loaded-IsQuiet :
      (d : Bytes) (o : Option (List Header))
      → names_missing d ≡ false
      → ((hs : List Header) → o ≡ some hs → AreSilent quote hs)
      → IsQuiet
          (elim o [ none ↦ err (unreadable_layer d) | some hs ↦ read_file_from_layer hs name ])
  unfolding says_not_found
  loaded-IsQuiet d none known silent e same = ground (arith, known, same)
  loaded-IsQuiet d (some hs) known silent e same = layer-IsQuiet hs (silent hs refl) e same

  module _ (known : (d : Bytes) → names_missing d ≡ false)
      (silent : (d : Bytes) (hs : List Header) → load d ≡ some hs → AreSilent quote hs) where
    item-IsQuiet : (item : LazyItem) → IsQuiet (read_item load item name)
    unfolding read_item says_not_found
    item-IsQuiet item e = go item.layers e
      where
        go : (ds : List Bytes) → IsQuiet (read_item load (record item { layers = ds }) name)
        go [] e same = ground (arith, same)
        go (d ∷ []) e same = loaded-IsQuiet d (load d) (known d) (silent d) e same
        go (d ∷ d' ∷ ds) e same = ground (arith, same)

    module _ (offset n : ℕ) where
      abbrev sliced : Result Bytes → Result (Option Bytes)
      sliced r = r >>= (λ content. ok (slice_range content offset n))

      range_on-sliced :
          (r : Result Reading) (older : Result Bytes)
          → IsQuiet r
          → range_on load quote names_missing name offset n (read_on load r older) (sliced older)
            ≡ sliced (read_on load r older)
      unfolding range_on read_on says_not_found
      range_on-sliced (err e) older quiet = rw (quiet e refl) refl
      range_on-sliced (ok deleted) older quiet = rw plain refl
      range_on-sliced (ok (found content)) older quiet = refl
      range_on-sliced (ok absent) (ok content) quiet = refl
      range_on-sliced (ok absent) (err e) quiet = elim (Bool-cases (says e)) [
        | inl y ↦ rw y refl
        | inr other ↦ rw other refl
      ]

      read_chain_range-sliced :
          canonical_read_path name ≡ some name
          → (items : List LazyItem)
          → read_chain_range load quote names_missing items name offset n
            ≡ sliced (read_chain load items name)
      unfolding read_chain_range read_chain range_again
      read_chain_range-sliced again [] = refl
      read_chain_range-sliced again (item ∷ older) = rw (read_chain_range-sliced again older) (
          rw (again, range_again)
            (range_on-sliced (read_item load item name) (read_chain load older name)
              (item-IsQuiet item)))

module _ (load : Bytes → Option (List Header)) where
  -- For a path that stays the same when it is made canonical a second time, where the path, the
  -- quoted names in the layers and the errors of reading a layer do not contain the words by which
  -- a missing file is told, the read of a range, which tries one snapshot of the chain after the
  -- other, is the range of the read of the whole file, and it has the same errors.
  pub read_snapshot_file_range-slice_range :
      (quote : Bytes → Bytes) (names_missing : Bytes → Bool) (chain : List LazyItem)
      (given name : Bytes) (offset n : ℕ)
      → ((d : Bytes) → names_missing d ≡ false)
      → ((d : Bytes) (hs : List Header) → load d ≡ some hs → AreSilent quote hs)
      → canonical_read_path given ≡ some name
      → canonical_read_path name ≡ some name
      → contains name (codes "not found") ≡ false
      → read_snapshot_file_range load quote names_missing chain given offset n
        ≡ (read_snapshot_file load chain given >>= (λ content. ok (slice_range content offset n)))
  unfolding read_snapshot_file_range read_snapshot_file read_canonical
  read_snapshot_file_range-slice_range quote names_missing chain given name offset n known silent h
        again plain =
      rw (h, read_snapshot_file_range, read_snapshot_file, read_canonical)
        (read_chain_range-sliced quote names_missing load name plain known silent offset n again
          (reverse chain))

  -- A newest snapshot whose layer was made with neither an entry nor a whiteout for the file leaves
  -- the read to the older ones, also where the whiteout of a directory above covers the file.
  pub read_chain_skips :
      (redact : Bytes → Bytes) (root : Disk) (es : List TreeEntry) (ws : List Bytes)
      (layer : List Header) (d digest : Bytes) (older : List LazyItem) (name : Bytes)
      → make_layer redact root es ws ≡ ok layer
      → load d ≡ some layer
      → All (λ e. IsEntryPath e.path) es
      → All IsTarget ws
      → elem name ws ≡ false
      → elem name (paths es) ≡ false
      → read_chain load (record { digest = digest; layers = d ∷ [] } ∷ older) name
        ≡ read_chain load older name
  unfolding read_chain read_item
  read_chain_skips redact root es ws layer d digest older name made there k t w p =
      let reads : read_file_from_layer layer name ≡ ok absent =
        read_file_from_layer-make_layer redact root es ws layer name made k t ∙ rw (w, p) refl in
      rw (there, read_item) (rw (reads, read_on) refl)
