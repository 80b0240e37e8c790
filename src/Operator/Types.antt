-- ===== src/Operator/Types.antt =====
-- The resources of internal/k8soperator/types.go, with `NormalizeFileSystem` and
-- `ValidateFileSystem`. A pointer is an Option; references that no function here reads are left out.
use smol_agent_oci_fs.Base.Decimal.{ℤ}
use smol_agent_oci_fs.Base.{
  Bytes, codes, Bool, not, ◌||◌, if◌then◌else◌, List, [], eqb, trim_space, Option,
}

pub record SecretKeySelector : Type 0 where
  pub name : Bytes
  pub key : Bytes

pub record EncryptionSpec : Type 0 where
  pub recipients : Bytes
  pub secret_ref : Option SecretKeySelector

pub record SigningSpec : Type 0 where
  pub signer : Bytes
  pub attestation : Bytes
  pub trusted_key_secret_ref : Option SecretKeySelector
  pub identity_token_secret_ref : Option SecretKeySelector
  pub certificate_identity : Bytes
  pub certificate_identity_regexp : Bytes
  pub certificate_oidc_issuer : Bytes
  pub certificate_oidc_issuer_regexp : Bytes
  pub sigstore_trusted_root : Bytes
  pub sigstore_ignore_tlog : Bool
  pub sigstore_ignore_timestamp : Bool
  pub sigstore_ignore_certificate_sct : Bool

-- AgentOCIFileSystem, with its TypeMeta, ObjectMeta and AgentOCIFileSystemSpec in one record;
-- a LocalObjectReference is its name.
pub record FileSystem : Type 0 where
  pub api_version : Bytes
  pub kind : Bytes
  pub name : Bytes
  pub namespace : Bytes
  pub uid : Bytes
  pub base_image : Bytes
  pub state_ref : Bytes
  pub branch : Bytes
  pub source_ref : Bytes
  pub mount_mode : Bytes
  pub registry_secret_ref : Option Bytes
  pub encryption : Option EncryptionSpec
  pub signing : Option SigningSpec

-- AgentOCISnapshotPolicySpec
pub record SnapshotPolicy : Type 0 where
  pub every : Bytes
  pub max_dirty_bytes : Bytes
  pub on_turn_boundary : Bool
  pub push : Bool
  pub compact_every : ℤ
  pub squash_every : ℤ
  pub checkpoint_tag_prefix : Bytes
  pub keep_snapshots : List Bytes
  pub preserve_signed : Bool
  pub prune_local : Bool
  pub prune_remote : Bool

-- `if field == "" { field = value }`
abbrev pub default_to : Bytes → Bytes → Bytes
default_to field value = if eqb field [] then value else field

unfoldable pub normalize_file_system : FileSystem → FileSystem
normalize_file_system fs = record fs {
  api_version = default_to fs.api_version (codes "agent.smol.ai/v1alpha1");
  kind = default_to fs.kind (codes "AgentOCIFileSystem");
  branch = default_to fs.branch (codes "main");
  mount_mode = default_to fs.mount_mode (codes "auto");
}

abbrev pub is_blank : Bytes → Bool
is_blank s = eqb (trim_space s) []

-- Whether `ValidateFileSystem` gives no error.
unfoldable pub is_valid_file_system : FileSystem → Bool
is_valid_file_system fs = not (is_blank fs.name || is_blank fs.base_image || is_blank fs.state_ref)
