-- ===== src/Csi/Sent.antt =====
-- The whole round trip of a volume context, from `CSIVolumeContext` of
-- internal/k8soperator/planner.go to `volumeContext` of internal/csinode/csi_server.go.
use smol_agent_oci_fs.Base.{
  Bytes, codes, Bool, true, false, ◌&&◌, if◌then◌else◌, [], ◌∷◌, eqb, trim_space, none, some, ◌≡◌,
  refl, arith, ◌∙◌,
}
use smol_agent_oci_fs.Operator.Types.{
  FileSystem, SnapshotPolicy, normalize_file_system, is_valid_file_system, is_blank, default_to,
}
use smol_agent_oci_fs.Operator.Context.{
  Context, csi_volume_context, text_of, recipients_of, signer_of, attestation_of,
}
use smol_agent_oci_fs.Csi.Volume.{
  optional, encryption_of, build_file_system, build_signing, is_no_signing, file_system_of,
  volume_context,
}
use smol_agent_oci_fs.Csi.RoundTrip.{
  AreTrimmed, PolicyTravels, sent_signing, sent_policy, full, file_system_of-full, policy_of-full,
  auto_snapshot-full,
}

-- What of a normalized file system arrives: of the signing only the signer and the attestation, of
-- the encryption only the recipients.
abbrev pub sent_file_system : FileSystem → FileSystem
sent_file_system fs = record {
  api_version = codes "agent.smol.ai/v1alpha1";
  kind = codes "AgentOCIFileSystem";
  name = fs.name;
  namespace = fs.namespace;
  uid = fs.uid;
  base_image = fs.base_image;
  state_ref = fs.state_ref;
  branch = fs.branch;
  source_ref = fs.source_ref;
  mount_mode = fs.mount_mode;
  registry_secret_ref = optional (text_of fs.registry_secret_ref);
  encryption = encryption_of (recipients_of fs.encryption);
  signing =
      if eqb (signer_of fs.signing) [] && eqb (attestation_of fs.signing) []
      then none
      else some (sent_signing (signer_of fs.signing) (attestation_of fs.signing));
}

is_no_signing_sent : (a b : Bytes) → is_no_signing (sent_signing a b) ≡ (eqb a [] && eqb b [])
unfolding is_no_signing build_signing eqb
is_no_signing_sent a b = ground arith

default_set : (v d : Bytes) → eqb v [] ≡ false → default_to v d ≡ v
default_set v d h = ground (arith, h)

default_nonempty : (v d : Bytes) → eqb d [] ≡ false → eqb (default_to v d) [] ≡ false
default_nonempty v d h = ground (arith, h)

build_file_system-sent :
    (fs : FileSystem)
    → eqb fs.name [] ≡ false
    → eqb fs.branch [] ≡ false
    → eqb fs.mount_mode [] ≡ false
    → build_file_system fs.name fs.namespace fs.uid fs.base_image fs.state_ref fs.branch
        fs.source_ref fs.mount_mode
        (text_of fs.registry_secret_ref)
        (recipients_of fs.encryption)
        (sent_signing (signer_of fs.signing) (attestation_of fs.signing))
      ≡ sent_file_system fs
unfolding build_file_system eqb
build_file_system-sent fs n b m =
    cc (n, b, m, is_no_signing_sent (signer_of fs.signing) (attestation_of fs.signing))

eqb_main : eqb (codes "main") [] ≡ false
unfolding eqb
eqb_main = refl

eqb_auto : eqb (codes "auto") [] ≡ false
unfolding eqb
eqb_auto = refl

blank_nil : (v : Bytes) → eqb v [] ≡ true → is_blank v ≡ true
unfolding trim_space eqb
blank_nil [] h = refl
blank_nil (c ∷ s) h = cc

nonempty_of_valid : (v : Bytes) → is_blank v ≡ false → eqb v [] ≡ false
nonempty_of_valid v h = ground (arith, blank_nil v, h)

module _ (fs : FileSystem) (p : SnapshotPolicy) (t : AreTrimmed fs) (travels : PolicyTravels p)
    (b : eqb fs.branch [] ≡ false) (m : eqb fs.mount_mode [] ≡ false)
    (valid : is_valid_file_system fs ≡ true) where
  name_there : eqb fs.name [] ≡ false
  unfolding is_valid_file_system
  name_there = nonempty_of_valid fs.name (ground (arith, valid))

  arrives : file_system_of (full fs p) ≡ sent_file_system fs
  arrives = file_system_of-full fs p t ∙ build_file_system-sent fs name_there b m

  arrives_valid : is_valid_file_system (file_system_of (full fs p)) ≡ true
  unfolding is_valid_file_system
  arrives_valid = rw arrives valid

  volume_context-full : volume_context (full fs p) ≡ some (sent_file_system fs, sent_policy p, true)
  unfolding volume_context
  volume_context-full =
      rw (arrives_valid, arrives, policy_of-full fs p travels, auto_snapshot-full fs p travels)

module _ (given : FileSystem) (p : SnapshotPolicy) (auto_snapshot : Bool) where
  -- Where the texts of a normalized file system and of a policy are trimmed, the file system is
  -- valid and the numbers of the policy are ints, the operator's context can be read by the node,
  -- with automatic snapshots. The policy arrives as it was, but for the snapshots to keep and
  -- numbers that are not positive; of the file system, the secret and the key references, the
  -- certificate identities and the sigstore settings do not arrive.
  pub volume_context-csi_volume_context :
      AreTrimmed (normalize_file_system given)
      → PolicyTravels p
      → is_valid_file_system (normalize_file_system given) ≡ true
      → (context : Context) × (csi_volume_context given (some p) auto_snapshot ≡ some context)
        × (volume_context context
            ≡ some (sent_file_system (normalize_file_system given), sent_policy p, true))
  unfolding csi_volume_context normalize_file_system
  volume_context-csi_volume_context t travels valid =
      let fs = normalize_file_system given in
      (
        full fs p,
        rw valid,
        volume_context-full fs p t travels (default_nonempty given.branch (codes "main") eqb_main)
            (default_nonempty given.mount_mode (codes "auto") eqb_auto) valid,
      )
