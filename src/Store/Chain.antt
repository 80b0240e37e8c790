-- ===== src/Store/Chain.antt =====
-- `resolveRef`, `readBlob`, `loadManifest` and `snapshotChainWithDigests` of internal/osix/store.go. The
-- blobs are the files of the blob directory by their names; the hexadecimal SHA-256 sum of a content and
-- json.Unmarshal are parameters.
pub mod Counting
pub mod Loading
pub mod Ends
use smol_agent_oci_fs.Base.{
  ℕ, zero, suc, ◌+◌, Bytes, codes, Bool, true, false, if◌then◌else◌, List, [], ◌∷◌, ◌++◌, length,
  reverse, eqb, elem, has_prefix, trim_prefix, trim_space, lookup, Option, none, some,
}
use smol_agent_oci_fs.Store.Refs.{Refs, is_digest, safe_ref_name}

-- The digests of the configuration and of the layers.
pub record Manifest : Type 0 where
  pub config : Bytes
  pub layers : List Bytes

-- The digest of the parent, if there is one, that of the base, and the sequence number.
pub record AgentConfig : Type 0 where
  pub parent : Option Bytes
  pub base : Bytes
  pub sequence : ℕ

pub record SnapshotChainItem : Type 0 where
  pub digest : Bytes
  pub manifest : Manifest
  pub config : AgentConfig

abbrev pub Blobs : Type 0
Blobs = List (Bytes × Bytes)

abbrev pub and_then {ℓ κ} : {A : Type ℓ} {B : Type κ} → Option A → (A → Option B) → Option B
and_then none f = none
and_then (some a) f = f a

-- `digestHex`, where it gives no error.
unfoldable pub hex_of : Bytes → Bytes
hex_of digest = trim_prefix digest (codes "sha256:")

unfoldable pub resolve_ref : Refs → Bytes → Option Bytes
resolve_ref refs ref =
    if has_prefix ref (codes "sha256:")
    then (if is_digest ref then some ref else none)
    else and_then (refs (safe_ref_name ref))
        (λ file. if is_digest (trim_space file) then some (trim_space file) else none)

-- A walk over the parents: the snapshots from the newest on, or why there are none.
pub data Walk : Type 0 where
  out_of_fuel parent_cycle unreadable : Walk
  chain : List SnapshotChainItem → Walk

abbrev pub add_item : SnapshotChainItem → Walk → Walk
add_item item out_of_fuel = out_of_fuel
add_item item parent_cycle = parent_cycle
add_item item unreadable = unreadable
add_item item (chain items) = chain (item ∷ items)

abbrev pub reversed : Walk → Walk
reversed out_of_fuel = out_of_fuel
reversed parent_cycle = parent_cycle
reversed unreadable = unreadable
reversed (chain items) = chain (reverse items)

module _ (sha256 : Bytes → Bytes) (parse_manifest : Bytes → Option Manifest)
    (parse_config : Bytes → Option AgentConfig) where
  abbrev pub digest_bytes : Bytes → Bytes
  digest_bytes content = codes "sha256:" ++ sha256 content

  unfoldable pub read_blob : Blobs → Bytes → Option Bytes
  unfolding hex_of
  read_blob blobs digest =
      if is_digest digest
      then and_then (lookup (hex_of digest) blobs)
          (λ data_read. if eqb (digest_bytes data_read) digest then some data_read else none)
      else none

  unfoldable pub load_manifest : Refs → Blobs → Bytes → Option SnapshotChainItem
  unfolding resolve_ref read_blob
  load_manifest refs blobs ref = and_then (resolve_ref refs ref) λ digest.
      and_then (read_blob blobs digest) λ manifest_data.
        and_then (parse_manifest manifest_data) λ manifest.
          and_then (read_blob blobs manifest.config) λ config_data.
            and_then (parse_config config_data)
              λ config. some (record { digest = digest; manifest = manifest; config = config })

  -- The loop, on fuel.
  unfoldable pub walk : ℕ → Refs → Blobs → List Bytes → Bytes → Walk
  walk zero refs blobs seen digest = out_of_fuel
  walk (suc fuel) refs blobs seen digest = elim (eqb digest []) [
    | true ↦ chain []
    | false ↦ elim (elem digest seen) [
      | true ↦ parent_cycle
      | false ↦ elim (load_manifest refs blobs digest) [
        | none ↦ unreadable
        | some item ↦ elim item.config.parent [
          | none ↦ chain (item ∷ [])
          | some parent ↦ add_item item (walk fuel refs blobs (digest ∷ seen) parent)
        ]
      ]
    ]
  ]

  -- The oldest snapshot comes first.
  unfoldable pub snapshot_chain_with_digests : Refs → Blobs → Bytes → Walk
  unfolding walk
  snapshot_chain_with_digests refs blobs digest =
      reversed (walk (length blobs + 2) refs blobs [] digest)
