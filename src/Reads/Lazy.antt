-- ===== src/Reads/Lazy.antt =====
-- Reading one file through the layers of a chain: `readFileFromLayer`, `ReadSnapshotFile` and
-- `ReadSnapshotFileRange` of internal/osix/lazy_read.go, for layers that are not encrypted. The blob of
-- a layer, read from the store or fetched and read again, is the parameter `load`, by its digest.
pub mod Marker
pub mod Layer
pub mod Chain
pub mod Agreement
use smol_agent_oci_fs.Base.{
  ℕ, Bytes, codes, Bool, true, false, if◌then◌else◌, List, [], ◌∷◌, reverse, eqb, contains,
  has_prefix, trim_prefix, trim_space, not, ◌&&◌, Option, none, some,
}
use smol_agent_oci_fs.Paths.Components.{base_of, canonical_layer_path, canonical_read_path}
use smol_agent_oci_fs.Layer.Disk.{
  Error, Result, ok, err, not_found, unsafe_tar_path, invalid_whiteout, not_a_file,
  unreadable_layer, wrong_layer_count, deleted_by_snapshot, unsafe_read_path, ◌>>=◌,
}
use smol_agent_oci_fs.Layer.Names.{wh, whiteout_target}
use smol_agent_oci_fs.Layer.Make.{Header, type_reg, type_dir, type_symlink, type_other}
use smol_agent_oci_fs.Layer.Extract.{validate_whiteout_header}
use smol_agent_oci_fs.Reads.Range.{slice_range}

-- The content with the two Booleans `found` and `deleted`.
pub data Reading : Type 0 where
  absent deleted : Reading
  found : Bytes → Reading

-- The cases of the switch on the type of a header.
unfoldable pub read_typed : Header → Result Reading
read_typed h = elim h.typeflag [
  | type_reg ↦ ok (found h.body)
  | type_symlink ↦ ok (found h.linkname)
  | type_dir ↦ err not_a_file
  | type_other t ↦ err not_a_file
]

-- One round of the loop, with what the rounds after it give.
unfoldable pub read_header : Header → Bytes → Result Reading → Result Reading
unfolding read_typed
read_header h name rest = elim (canonical_layer_path h.name) [
  | none ↦ err (unsafe_tar_path h.name)
  | some clean ↦
      if has_prefix (base_of clean) wh
      then (validate_whiteout_header h
          >>= (λ checked. if eqb (whiteout_target clean) name then ok deleted else rest))
      else if eqb clean name
      then read_typed h
      else rest
]

unfoldable pub read_file_from_layer : List Header → Bytes → Result Reading
unfolding read_header
read_file_from_layer [] name = ok absent
read_file_from_layer (h ∷ hs) name = read_header h name (read_file_from_layer hs name)

-- A snapshot of the chain, by its digest and the digests of the layers of its manifest.
pub record LazyItem : Type 0 where
  pub digest : Bytes
  pub layers : List Bytes

module _ (load : Bytes → Option (List Header)) where
  -- What the layer of a snapshot has for a file.
  unfoldable pub read_item : LazyItem → Bytes → Result Reading
  read_item item name = elim item.layers [
    | [] ↦ err wrong_layer_count
    | d ∷ ds ↦ elim ds [
      | [] ↦ elim (load d) [
        | none ↦ err (unreadable_layer d)
        | some hs ↦ read_file_from_layer hs name
      ]
      | e ∷ es ↦ err wrong_layer_count
    ]
  ]

  -- A reading decides, or leaves the decision to the older snapshots.
  unfoldable pub read_on : Result Reading → Result Bytes → Result Bytes
  read_on (err e) older = err e
  read_on (ok absent) older = older
  read_on (ok deleted) older = err deleted_by_snapshot
  read_on (ok (found content)) older = ok content

  -- The loop, from the newest snapshot of the chain on.
  unfoldable pub read_chain : List LazyItem → Bytes → Result Bytes
  unfolding read_item read_on
  read_chain [] name = err not_found
  read_chain (item ∷ older) name = read_on (read_item item name) (read_chain older name)

  -- The name that `canonicalReadPath` hands to `canonicalLayerPath`.
  abbrev pub trimmed : Bytes → Bytes
  trimmed given = trim_prefix (trim_space given) (codes "/")

  -- The loop with the name in its canonical form.
  unfoldable pub read_canonical : List LazyItem → Bytes → Result Bytes
  read_canonical items given = elim (canonical_read_path given) [
    | none ↦ err (unsafe_read_path (trimmed given))
    | some name ↦ read_chain items name
  ]

  -- The chain from the oldest snapshot on.
  unfoldable pub read_snapshot_file : List LazyItem → Bytes → Result Bytes
  unfolding read_canonical
  read_snapshot_file chain given = read_canonical (reverse chain) given

  -- `quote` is strconv.Quote, and `names_missing` is whether the text of the error of reading,
  -- fetching, decrypting or unpacking the layer with a digest contains "not found".
  module _ (quote : Bytes → Bytes) (names_missing : Bytes → Bool) where
    -- `strings.Contains(err.Error(), "not found")`, for a read of the file of the name: the other
    -- texts around the names cannot complete a part of these words.
    unfoldable pub says_not_found : Bytes → Error → Bool
    says_not_found name not_found = true
    says_not_found name not_a_file = contains name (codes "not found")
    says_not_found name deleted_by_snapshot = contains name (codes "not found")
    says_not_found name (unsafe_tar_path entry) = contains (quote entry) (codes "not found")
    says_not_found name (invalid_whiteout entry) = contains (quote entry) (codes "not found")
    says_not_found name (unsafe_read_path given) =
        not (eqb given []) && contains (quote given) (codes "not found")
    says_not_found name (unreadable_layer digest) = names_missing digest
    says_not_found name _ = false

    -- What the loop of `ReadSnapshotFileRange` does with a read of the file from one snapshot on.
    unfoldable pub range_on :
        Bytes → ℕ → ℕ → Result Bytes → Result (Option Bytes) → Result (Option Bytes)
    range_on name offset n (ok content) older = ok (slice_range content offset n)
    range_on name offset n (err e) older = if says_not_found name e then older else err e

    -- Each round reads the file with `ReadSnapshotFile`, which makes the name canonical again.
    unfoldable pub range_again :
        List LazyItem → Bytes → ℕ → ℕ → Result (Option Bytes) → Result (Option Bytes)
    unfolding range_on
    range_again items name offset n older = elim (canonical_read_path name) [
      | none ↦ range_on name offset n (err (unsafe_read_path (trimmed name))) older
      | some again ↦ range_on again offset n (read_chain items again) older
    ]

    -- `none` in the result is the panic of `sliceRange`.
    unfoldable pub read_chain_range : List LazyItem → Bytes → ℕ → ℕ → Result (Option Bytes)
    unfolding range_again
    read_chain_range [] name offset n = err not_found
    read_chain_range (item ∷ older) name offset n =
        range_again (item ∷ older) name offset n (read_chain_range older name offset n)

    unfoldable pub read_snapshot_file_range : List LazyItem → Bytes → ℕ → ℕ → Result (Option Bytes)
    read_snapshot_file_range chain given offset n = elim (canonical_read_path given) [
      | none ↦ err (unsafe_read_path (trimmed given))
      | some name ↦ read_chain_range (reverse chain) name offset n
    ]
