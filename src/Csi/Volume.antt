-- ===== src/Csi/Volume.antt =====
-- `volumeContext` of internal/csinode/csi_server.go, with `first`, `boolValue` and `intValue`.
use smol_agent_oci_fs.Base.{
  Bytes, codes, Bool, not, ◌&&◌, ◌||◌, if◌then◌else◌, List, [], ◌∷◌, ◌++◌, eqb, trim_space, Option,
  none, some,
}
use smol_agent_oci_fs.Base.Decimal.{ℤ, pos, atoi}
use smol_agent_oci_fs.Operator.Types.{
  FileSystem, EncryptionSpec, SigningSpec, SnapshotPolicy, normalize_file_system,
  is_valid_file_system, is_blank, default_to,
}
use smol_agent_oci_fs.Operator.Context.{Context}
use smol_agent_oci_fs.SideEffects.Decision.{to_lower}

-- The first key whose value is not blank; a missing key reads as the empty string.
unfoldable pub first : Context → List Bytes → Bytes
first values [] = []
first values (key ∷ keys) =
    let rest = first values keys in
    elim (values key) [ none ↦ rest | some v ↦ if is_blank v then rest else trim_space v ]

unfoldable pub bool_value : Bytes → Bool
bool_value v =
    let value = to_lower (trim_space v) in
    eqb value (codes "1")
    || eqb value (codes "true")
    || eqb value (codes "yes")
    || eqb value (codes "on")

unfoldable pub int_value : Bytes → ℤ
int_value value = if eqb value [] then pos 0 else atoi value

-- The keys of the driver's prefix.
abbrev pub own : Bytes → Bytes
own key = codes "agent.smol.ai/" ++ key

-- `if value != "" { field = &value }`
abbrev pub optional : Bytes → Option Bytes
optional v = if eqb v [] then none else some v

abbrev pub encryption_of : Bytes → Option EncryptionSpec
encryption_of v = if eqb v [] then none else some (record { recipients = v; secret_ref = none })

-- The literal of SigningSpec, from the texts and tests of its fields.
unfoldable pub build_signing :
    Bytes → Bytes → Bytes → Bytes → Bytes → Bytes → Bytes → Bool → Bool → Bool → SigningSpec
build_signing signer attestation identity identity_regexp issuer issuer_regexp root tlog timestamp
      sct =
    record {
      signer = signer;
      attestation = attestation;
      trusted_key_secret_ref = none;
      identity_token_secret_ref = none;
      certificate_identity = identity;
      certificate_identity_regexp = identity_regexp;
      certificate_oidc_issuer = issuer;
      certificate_oidc_issuer_regexp = issuer_regexp;
      sigstore_trusted_root = root;
      sigstore_ignore_tlog = tlog;
      sigstore_ignore_timestamp = timestamp;
      sigstore_ignore_certificate_sct = sct;
    }

-- A key and the same with the driver's prefix.
abbrev pub two : Context → Bytes → Bytes → Bytes
two values a b = first values (a ∷ own b ∷ [])

unfoldable pub signing_of : Context → SigningSpec
unfolding first bool_value build_signing
signing_of values =
    build_signing (two values (codes "signer") (codes "signer"))
      (two values (codes "attestation") (codes "attestation"))
      (two values (codes "certificateIdentity") (codes "certificate-identity"))
      (two values (codes "certificateIdentityRegexp") (codes "certificate-identity-regexp"))
      (two values (codes "certificateOIDCIssuer") (codes "certificate-oidc-issuer"))
      (two values (codes "certificateOIDCIssuerRegexp") (codes "certificate-oidc-issuer-regexp"))
      (two values (codes "sigstoreTrustedRoot") (codes "sigstore-trusted-root"))
      (bool_value (two values (codes "sigstoreIgnoreTlog") (codes "sigstore-ignore-tlog")))
      (bool_value
        (two values (codes "sigstoreIgnoreTimestamp") (codes "sigstore-ignore-timestamp")))
      (bool_value (
        two values (codes "sigstoreIgnoreCertificateSCT")
          (codes "sigstore-ignore-certificate-sct")))

-- `signing == (SigningSpec{})`
unfoldable pub is_no_signing : SigningSpec → Bool
is_no_signing s =
    eqb s.signer []
    && eqb s.attestation []
    && eqb s.certificate_identity []
    && eqb s.certificate_identity_regexp []
    && eqb s.certificate_oidc_issuer []
    && eqb s.certificate_oidc_issuer_regexp []
    && eqb s.sigstore_trusted_root []
    && not s.sigstore_ignore_tlog
    && not s.sigstore_ignore_timestamp
    && not s.sigstore_ignore_certificate_sct

-- A key, another name of it, and the key with the driver's prefix.
abbrev pub three : Context → Bytes → Bytes → Bytes → Bytes
three values a b c = first values (a ∷ b ∷ own c ∷ [])

-- The literal of the file system, from the texts of its fields. `NormalizeFileSystem` reads none of
-- the three optional fields, which the code sets after it.
unfoldable pub build_file_system :
    Bytes
    → Bytes
    → Bytes
    → Bytes
    → Bytes
    → Bytes
    → Bytes
    → Bytes
    → Bytes
    → Bytes
    → SigningSpec
    → FileSystem
unfolding normalize_file_system
build_file_system name namespace uid base state branch source mode secret recipients signing =
    normalize_file_system (record {
      api_version = codes "agent.smol.ai/v1alpha1";
      kind = codes "AgentOCIFileSystem";
      name = default_to name (codes "agent");
      namespace = namespace;
      uid = uid;
      base_image = base;
      state_ref = state;
      branch = branch;
      source_ref = source;
      mount_mode = mode;
      registry_secret_ref = optional secret;
      encryption = encryption_of recipients;
      signing = if is_no_signing signing then none else some signing;
    })

unfoldable pub file_system_of : Context → FileSystem
unfolding first signing_of build_file_system
file_system_of values =
    build_file_system (three values (codes "name") (codes "filesystemName") (codes "name"))
      (three values (codes "namespace") (codes "filesystemNamespace") (codes "namespace"))
      (three values (codes "uid") (codes "filesystemUID") (codes "uid"))
      (three values (codes "baseImage") (codes "base") (codes "base-image"))
      (three values (codes "stateRef") (codes "state") (codes "state-ref"))
      (two values (codes "branch") (codes "branch"))
      (three values (codes "sourceRef") (codes "source") (codes "source-ref"))
      (three values (codes "mountMode") (codes "mode") (codes "mount-mode"))
      (three values (codes "registrySecretRef") (codes "registrySecretName")
        (codes "registry-secret"))
      (two values (codes "encryptionRecipients") (codes "encryption-recipients"))
      (signing_of values)

-- The literal of the policy, from the texts of its fields.
unfoldable pub build_policy :
    Bytes → Bytes → Bytes → Bytes → Bytes → Bytes → Bytes → Bytes → Bytes → Bytes → SnapshotPolicy
unfolding bool_value int_value
build_policy every max_dirty turn push_disabled compact squash prefix signed local remote = record {
  every = every;
  max_dirty_bytes = max_dirty;
  on_turn_boundary = bool_value turn;
  push = not (bool_value push_disabled);
  compact_every = int_value compact;
  squash_every = int_value squash;
  checkpoint_tag_prefix = prefix;
  keep_snapshots = [];
  preserve_signed = bool_value signed;
  prune_local = bool_value local;
  prune_remote = bool_value remote;
}

unfoldable pub policy_of : Context → SnapshotPolicy
unfolding first build_policy
policy_of values =
    build_policy
      (three values (codes "snapshotEvery") (codes "policy.every") (codes "snapshot-every"))
      (three values (codes "maxDirtyBytes") (codes "policy.maxDirtyBytes")
        (codes "max-dirty-bytes"))
      (three values (codes "onTurnBoundary") (codes "policy.onTurnBoundary")
        (codes "on-turn-boundary"))
      (three values (codes "pushDisabled") (codes "policy.pushDisabled") (codes "push-disabled"))
      (three values (codes "compactEvery") (codes "policy.compactEvery") (codes "compact-every"))
      (three values (codes "squashEvery") (codes "policy.squashEvery") (codes "squash-every"))
      (three values (codes "checkpointTagPrefix") (codes "policy.checkpointTagPrefix")
        (codes "checkpoint-tag-prefix"))
      (three values (codes "preserveSigned") (codes "policy.preserveSigned")
        (codes "preserve-signed"))
      (three values (codes "pruneLocal") (codes "policy.pruneLocal") (codes "prune-local"))
      (three values (codes "pruneRemote") (codes "policy.pruneRemote") (codes "prune-remote"))

-- `none` is the error of `ValidateFileSystem`.
unfoldable pub volume_context : Context → Option (FileSystem × SnapshotPolicy × Bool)
volume_context values =
    let fs = file_system_of values in
    if is_valid_file_system fs
    then some (
      fs,
      policy_of values,
      bool_value (two values (codes "autoSnapshot") (codes "auto-snapshot")),
    )
    else none
