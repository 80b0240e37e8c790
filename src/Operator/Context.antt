-- ===== src/Operator/Context.antt =====
-- `CSIVolumeContext` of internal/k8soperator/planner.go.
use smol_agent_oci_fs.Base.{
  Bytes, codes, Bool, true, not, ◌&&◌, if◌then◌else◌, [], ◌++◌, eqb, Option, none, some,
}
use smol_agent_oci_fs.Base.Decimal.{is_positive, sprint_int}
use smol_agent_oci_fs.Operator.Types.{
  FileSystem, EncryptionSpec, SigningSpec, SnapshotPolicy, normalize_file_system,
  is_valid_file_system, is_blank,
}

-- A map from strings to strings, by its values.
abbrev pub Context : Type 0
Context = Bytes → Option Bytes

abbrev pub empty_context : Context
empty_context key = none

-- `if on { values[key] = value }`
unfoldable pub put_if : Bool → Bytes → Bytes → Context → Context
put_if on key value m = λ q. if eqb q key && on then some value else m q

-- A value under its short key and under its key with the driver's prefix.
unfoldable pub put_both : Bool → Bytes → Bytes → Bytes → Context → Context
unfolding put_if
put_both on short long value m =
    put_if on (codes "agent.smol.ai/" ++ long) value (put_if on short value m)

abbrev pub unless_blank : Option Bytes → Option Bytes
unless_blank none = none
unless_blank (some v) = if is_blank v then none else some v

-- The last loop: `delete(values, key)` for a blank value
unfoldable pub drop_blank : Context → Context
drop_blank m = λ q. unless_blank (m q)

abbrev pub text_of : Option Bytes → Bytes
text_of none = []
text_of (some v) = v

abbrev pub recipients_of : Option EncryptionSpec → Bytes
recipients_of none = []
recipients_of (some e) = e.recipients

abbrev pub signer_of : Option SigningSpec → Bytes
signer_of none = []
signer_of (some s) = s.signer

abbrev pub attestation_of : Option SigningSpec → Bytes
attestation_of none = []
attestation_of (some s) = s.attestation

abbrev pub is_set : Bytes → Bool
is_set v = not (eqb v [])

-- The map literal.
unfoldable pub file_system_context : FileSystem → Context
unfolding put_both
file_system_context fs = put_both true (codes "name") (codes "name") fs.name (
    put_both true (codes "namespace") (codes "namespace") fs.namespace (
      put_both true (codes "uid") (codes "uid") fs.uid (
        put_both true (codes "baseImage") (codes "base-image") fs.base_image (
          put_both true (codes "stateRef") (codes "state-ref") fs.state_ref (
            put_both true (codes "branch") (codes "branch") fs.branch (
              put_both true (codes "sourceRef") (codes "source-ref") fs.source_ref (
                put_both true (codes "mountMode") (codes "mount-mode") fs.mount_mode
                  empty_context)))))))

-- The registry secret, the recipients and the signing.
unfoldable pub secrets_context : FileSystem → Context → Context
unfolding put_both
secrets_context fs m =
    let registry = text_of fs.registry_secret_ref in
    let recipients = recipients_of fs.encryption in
    let signer = signer_of fs.signing in
    let attestation = attestation_of fs.signing in
    put_both (is_set attestation) (codes "attestation") (codes "attestation") attestation (
      put_both (is_set signer) (codes "signer") (codes "signer") signer (
        put_both (is_set recipients) (codes "encryptionRecipients") (codes "encryption-recipients")
          recipients
          (put_both (is_set registry) (codes "registrySecretRef") (codes "registry-secret") registry
            m)))

abbrev pub yes_text : Bytes
yes_text = codes "true"

unfoldable pub policy_context : SnapshotPolicy → Context → Context
unfolding put_both
policy_context p m = put_both p.prune_remote (codes "pruneRemote") (codes "prune-remote") yes_text (
    put_both p.prune_local (codes "pruneLocal") (codes "prune-local") yes_text (
      put_both p.preserve_signed (codes "preserveSigned") (codes "preserve-signed") yes_text (
        put_both (is_set p.checkpoint_tag_prefix) (codes "checkpointTagPrefix")
          (codes "checkpoint-tag-prefix") p.checkpoint_tag_prefix
          (put_both (is_positive p.squash_every) (codes "squashEvery") (codes "squash-every")
            (sprint_int p.squash_every)
            (put_both (is_positive p.compact_every) (codes "compactEvery") (codes "compact-every")
              (sprint_int p.compact_every)
              (put_both (not p.push) (codes "pushDisabled") (codes "push-disabled") yes_text (
                put_both p.on_turn_boundary (codes "onTurnBoundary") (codes "on-turn-boundary")
                  yes_text
                  (put_both true (codes "maxDirtyBytes") (codes "max-dirty-bytes") p.max_dirty_bytes
                    (put_both true (codes "snapshotEvery") (codes "snapshot-every") p.every
                      m)))))))))

abbrev pub auto_context : Bool → Context → Context
auto_context auto m = put_both auto (codes "autoSnapshot") (codes "auto-snapshot") yes_text m

-- `none` is the error of `ValidateFileSystem`. A policy turns the automatic snapshots on.
unfoldable pub csi_volume_context : FileSystem → Option SnapshotPolicy → Bool → Option Context
csi_volume_context given policy auto_snapshot =
    let fs = normalize_file_system given in
    let base = secrets_context fs (file_system_context fs) in
    if is_valid_file_system fs
    then some (
        drop_blank (elim policy [
          | none ↦ auto_context auto_snapshot base
          | some p ↦ auto_context true (policy_context p base)
        ]))
    else none
