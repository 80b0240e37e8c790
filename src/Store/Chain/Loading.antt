-- ===== src/Store/Chain/Loading.antt =====
-- The steps of `loadManifest` of internal/osix/store.go that a loaded snapshot went through.
use smol_agent_oci_fs.Base.{Bytes, Option, none, some, ◌≡◌, refl, arith, ap, ◌∙◌, sym}
use smol_agent_oci_fs.Store.Refs.{Refs}
use smol_agent_oci_fs.Store.Chain.{
  Manifest, AgentConfig, SnapshotChainItem, Blobs, and_then, resolve_ref, read_blob, load_manifest,
}

pub and_then-some {ℓ κ} :
    {A : Type ℓ} {B : Type κ} (o : Option A) (f : A → Option B) (b : B)
    → and_then o f ≡ some b
    → (a : A) × (o ≡ some a) × (f a ≡ some b)
and_then-some none f b h = absurd (cc)
and_then-some (some a) f b h = (a, refl, h)

module _ (sha256 : Bytes → Bytes) (parse_manifest : Bytes → Option Manifest)
    (parse_config : Bytes → Option AgentConfig) where
  abbrev read : Blobs → Bytes → Option Bytes
  read blobs digest = read_blob sha256 parse_manifest parse_config blobs digest

  -- The two contents that a snapshot was loaded from.
  pub record IsLoaded (refs : Refs) (blobs : Blobs) (ref : Bytes) (item : SnapshotChainItem)
      : Type 0 where
    pub manifest_file : Bytes
    pub config_file : Bytes
    pub resolved : resolve_ref refs ref ≡ some item.digest
    pub manifest_read : read blobs item.digest ≡ some manifest_file
    pub manifest_parsed : parse_manifest manifest_file ≡ some item.manifest
    pub config_read : read blobs item.manifest.config ≡ some config_file
    pub config_parsed : parse_config config_file ≡ some item.config

  module _ (refs : Refs) (blobs : Blobs) (ref : Bytes) (item : SnapshotChainItem) where
    pub load_manifest-IsLoaded :
        load_manifest sha256 parse_manifest parse_config refs blobs ref ≡ some item
        → IsLoaded refs blobs ref item
    unfolding load_manifest
    load_manifest-IsLoaded h =
        let (digest, resolved, h1) = and_then-some (resolve_ref refs ref) _ item h in
        let (manifest_file, manifest_read, h2) = and_then-some (read blobs digest) _ item h1 in
        let (manifest, manifest_parsed, h3) =
          and_then-some (parse_manifest manifest_file) _ item h2 in
        let (config_file, config_read, h4) = and_then-some (read blobs manifest.config) _ item h3 in
        let (config, config_parsed, h5) = and_then-some (parse_config config_file) _ item h4 in
        let same : record { digest = digest; manifest = manifest; config = config } ≡ item =
          ground (arith, h5) in
        let d : digest ≡ item.digest = ap (λ (x : SnapshotChainItem). x.digest) same in
        let m : manifest ≡ item.manifest = ap (λ (x : SnapshotChainItem). x.manifest) same in
        let c : config ≡ item.config = ap (λ (x : SnapshotChainItem). x.config) same in
        record {
          manifest_file = manifest_file;
          config_file = config_file;
          resolved = resolved ∙ ap some d;
          manifest_read = ap (read blobs) (sym d) ∙ manifest_read;
          manifest_parsed = manifest_parsed ∙ ap some m;
          config_read = ap (λ (x : Manifest). read blobs x.config) (sym m) ∙ config_read;
          config_parsed = config_parsed ∙ ap some c;
        }

    pub IsLoaded-load_manifest :
        IsLoaded refs blobs ref item
        → load_manifest sha256 parse_manifest parse_config refs blobs ref ≡ some item
    unfolding load_manifest
    IsLoaded-load_manifest l = rw (l.resolved) (
        rw (l.manifest_read)
          (rw (l.manifest_parsed) (rw (l.config_read) (rw (l.config_parsed) refl))))
