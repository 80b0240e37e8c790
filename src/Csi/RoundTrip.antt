-- ===== src/Csi/RoundTrip.antt =====
-- What of a file system and a policy reaches the node through the volume context:
-- `CSIVolumeContext` of internal/k8soperator/planner.go and `volumeContext` of
-- internal/csinode/csi_server.go.
use smol_agent_oci_fs.Base.{
  ℕ, zero, suc, ◌<◌, ltb, Bytes, codes, Bool, true, false, not, if◌then◌else◌, [], ◌∷◌, eqb, eqb→eq,
  trim_space, Option, none, some, ◌≡◌, refl, arith, Bool-cases, inl, inr, ap, ◌∙◌, sym,
}
use smol_agent_oci_fs.Base.Decimal.{
  ℤ, pos, negsuc, is_positive, sprint_int, int_end, decimal_nonempty, atoi-decimal,
}
use smol_agent_oci_fs.Base.Trim.{trim_space-decimal}
use smol_agent_oci_fs.Operator.Types.{FileSystem, SigningSpec, SnapshotPolicy, is_blank}
use smol_agent_oci_fs.Operator.Context.{
  Context, put_if, put_both, drop_blank, file_system_context, secrets_context, policy_context,
  auto_context, text_of, recipients_of, signer_of, attestation_of, unless_blank, is_set, yes_text,
}
use smol_agent_oci_fs.Csi.Volume.{
  first, bool_value, int_value, build_signing, build_file_system, build_policy, signing_of,
  file_system_of, policy_of, own,
}

abbrev pub IsTrimmed : Bytes → Type 0
IsTrimmed v = trim_space v ≡ v

abbrev pub full : FileSystem → SnapshotPolicy → Context
full fs p =
    drop_blank (auto_context true (policy_context p (secrets_context fs (file_system_context fs))))

first_two :
    (m : Context) (a c : Bytes) (x : Option Bytes)
    → m a ≡ unless_blank x
    → m c ≡ unless_blank x
    → IsTrimmed (text_of x)
    → first m (a ∷ c ∷ []) ≡ text_of x
unfolding first
first_two m a c none h k t = ground (arith, h, k)
first_two m a c (some v) h k t = elim (Bool-cases (is_blank v)) [
  | inl blank ↦
      let none_left : v ≡ [] = sym t ∙ eqb→eq (trim_space v) [] blank in
      ground (arith, blank, h, k, none_left)
  | inr there ↦ ground (arith, there, h, k, t)
]

first_three :
    (m : Context) (a b c : Bytes) (x : Option Bytes)
    → m a ≡ unless_blank x
    → m b ≡ none
    → m c ≡ unless_blank x
    → IsTrimmed (text_of x)
    → first m (a ∷ b ∷ c ∷ []) ≡ text_of x
unfolding first
first_three m a b c none h n k t = ground (arith, h, n, k)
first_three m a b c (some v) h n k t = elim (Bool-cases (is_blank v)) [
  | inl blank ↦
      let none_left : v ≡ [] = sym t ∙ eqb→eq (trim_space v) [] blank in
      ground (arith, blank, h, n, k, none_left)
  | inr there ↦ ground (arith, there, h, n, k, t)
]

nothing_false : bool_value [] ≡ false
unfolding bool_value eqb trim_space
nothing_false = refl

-- What is put only where it is not empty.
abbrev if_set : Bytes → Option Bytes
if_set v = if is_set v then some v else none

text_of-if_set : (v : Bytes) → text_of (if_set v) ≡ v
text_of-if_set v = ground (arith, eqb→eq v [])

first_set :
    (m : Context) (a c v : Bytes)
    → m a ≡ unless_blank (if_set v)
    → m c ≡ unless_blank (if_set v)
    → IsTrimmed v
    → first m (a ∷ c ∷ []) ≡ v
first_set m a c v h k t =
    first_two m a c (if_set v) h k (rw (text_of-if_set v) t) ∙ text_of-if_set v

first_set_three :
    (m : Context) (a b c v : Bytes)
    → m a ≡ unless_blank (if_set v)
    → m b ≡ none
    → m c ≡ unless_blank (if_set v)
    → IsTrimmed v
    → first m (a ∷ b ∷ c ∷ []) ≡ v
first_set_three m a b c v h n k t =
    first_three m a b c (if_set v) h n k (rw (text_of-if_set v) t) ∙ text_of-if_set v

-- The texts of a file system that travel are trimmed.
pub record AreTrimmed (fs : FileSystem) : Type 0 where
  pub name : IsTrimmed fs.name
  pub namespace : IsTrimmed fs.namespace
  pub uid : IsTrimmed fs.uid
  pub base_image : IsTrimmed fs.base_image
  pub state_ref : IsTrimmed fs.state_ref
  pub branch : IsTrimmed fs.branch
  pub source_ref : IsTrimmed fs.source_ref
  pub mount_mode : IsTrimmed fs.mount_mode
  pub registry : IsTrimmed (text_of fs.registry_secret_ref)
  pub recipients : IsTrimmed (recipients_of fs.encryption)
  pub signer : IsTrimmed (signer_of fs.signing)
  pub attestation : IsTrimmed (attestation_of fs.signing)

-- Of the signing only the signer and the attestation travel.
abbrev pub sent_signing : Bytes → Bytes → SigningSpec
sent_signing signer attestation = build_signing signer attestation [] [] [] [] [] false false false

module _ (fs : FileSystem) (p : SnapshotPolicy) (t : AreTrimmed fs) where
  signing_of-full :
      signing_of (full fs p) ≡ sent_signing (signer_of fs.signing) (attestation_of fs.signing)
  unfolding drop_blank policy_context secrets_context file_system_context put_both put_if eqb
      signing_of bool_value
  signing_of-full =
      let m = full fs p in
      cc (
        first_set m (codes "signer") (own (codes "signer")) (signer_of fs.signing) refl refl
            t.signer,
        first_set m (codes "attestation") (own (codes "attestation")) (attestation_of fs.signing)
            refl refl t.attestation,
        nothing_false,
      )

  pub file_system_of-full :
      file_system_of (full fs p)
      ≡ build_file_system fs.name fs.namespace fs.uid fs.base_image fs.state_ref fs.branch
          fs.source_ref fs.mount_mode
          (text_of fs.registry_secret_ref)
          (recipients_of fs.encryption)
          (sent_signing (signer_of fs.signing) (attestation_of fs.signing))
  unfolding drop_blank policy_context secrets_context file_system_context put_both put_if eqb
      file_system_of
  file_system_of-full =
      let m = full fs p in
      cc (
        signing_of-full,
        first_three m (codes "name") (codes "filesystemName") (own (codes "name")) (some fs.name)
            refl refl refl t.name,
        first_three m (codes "namespace") (codes "filesystemNamespace") (own (codes "namespace"))
            (some fs.namespace) refl refl refl t.namespace,
        first_three m (codes "uid") (codes "filesystemUID") (own (codes "uid")) (some fs.uid) refl
            refl refl t.uid,
        first_three m (codes "baseImage") (codes "base") (own (codes "base-image"))
            (some fs.base_image) refl refl refl t.base_image,
        first_three m (codes "stateRef") (codes "state") (own (codes "state-ref"))
            (some fs.state_ref) refl refl refl t.state_ref,
        first_two m (codes "branch") (own (codes "branch")) (some fs.branch) refl refl t.branch,
        first_three m (codes "sourceRef") (codes "source") (own (codes "source-ref"))
            (some fs.source_ref) refl refl refl t.source_ref,
        first_three m (codes "mountMode") (codes "mode") (own (codes "mount-mode"))
            (some fs.mount_mode) refl refl refl t.mount_mode,
        first_set_three m (codes "registrySecretRef") (codes "registrySecretName")
            (own (codes "registry-secret")) (text_of fs.registry_secret_ref) refl refl refl
            t.registry,
        first_set m (codes "encryptionRecipients") (own (codes "encryption-recipients"))
            (recipients_of fs.encryption) refl refl t.recipients,
      )

-- An int that is printed where it is positive.
abbrev if_positive : ℤ → Bytes
if_positive n = if is_positive n then sprint_int n else []

abbrev pub sent_int : ℤ → ℤ
sent_int n = if is_positive n then n else pos 0

abbrev pub FitsInt : ℤ → Type 0
FitsInt (pos n) = n < int_end
FitsInt (negsuc n) = Unit

int_value-if_positive : (n : ℤ) → FitsInt n → int_value (if_positive n) ≡ sent_int n
unfolding int_value sprint_int eqb
int_value-if_positive (pos zero) h = refl
int_value-if_positive (pos (suc n)) h =
    ground (arith, decimal_nonempty (suc n), atoi-decimal (suc n) h)
int_value-if_positive (negsuc n) h = refl

is_positive_suc : (n : ℕ) → ltb 0 (suc n) ≡ true
is_positive_suc n = ground arith

if_positive-IsTrimmed :
    (n : ℤ) → IsTrimmed (text_of (if is_positive n then some (sprint_int n) else none))
unfolding sprint_int trim_space
if_positive-IsTrimmed (pos zero) = refl
if_positive-IsTrimmed (pos (suc n)) = rw (is_positive_suc n) (trim_space-decimal (suc n))
if_positive-IsTrimmed (negsuc n) = refl

text_of-if_positive :
    (n : ℤ) → text_of (if is_positive n then some (sprint_int n) else none) ≡ if_positive n
text_of-if_positive n = ground arith

flag-IsTrimmed : (on : Bool) → IsTrimmed (text_of (if on then some yes_text else none))
unfolding trim_space
flag-IsTrimmed true = refl
flag-IsTrimmed false = refl

bool_value-flag : (on : Bool) → bool_value (text_of (if on then some yes_text else none)) ≡ on
unfolding bool_value eqb trim_space
bool_value-flag true = refl
bool_value-flag false = refl

pub record PolicyTravels (p : SnapshotPolicy) : Type 0 where
  pub every : IsTrimmed p.every
  pub max_dirty : IsTrimmed p.max_dirty_bytes
  pub prefix : IsTrimmed p.checkpoint_tag_prefix
  pub compact : FitsInt p.compact_every
  pub squash : FitsInt p.squash_every

abbrev pub sent_policy : SnapshotPolicy → SnapshotPolicy
sent_policy p = record {
  every = p.every;
  max_dirty_bytes = p.max_dirty_bytes;
  on_turn_boundary = p.on_turn_boundary;
  push = p.push;
  compact_every = sent_int p.compact_every;
  squash_every = sent_int p.squash_every;
  checkpoint_tag_prefix = p.checkpoint_tag_prefix;
  keep_snapshots = [];
  preserve_signed = p.preserve_signed;
  prune_local = p.prune_local;
  prune_remote = p.prune_remote;
}

abbrev flag : Bool → Option Bytes
flag on = if on then some yes_text else none

abbrev number : ℤ → Option Bytes
number n = if is_positive n then some (sprint_int n) else none

not-not : (b : Bool) → not (not b) ≡ b
not-not true = refl
not-not false = refl

build_policy-sent :
    (p : SnapshotPolicy)
    → PolicyTravels p
    → build_policy p.every p.max_dirty_bytes
        (text_of (flag p.on_turn_boundary))
        (text_of (flag (not p.push)))
        (text_of (number p.compact_every))
        (text_of (number p.squash_every))
        p.checkpoint_tag_prefix
        (text_of (flag p.preserve_signed))
        (text_of (flag p.prune_local))
        (text_of (flag p.prune_remote))
      ≡ sent_policy p
unfolding build_policy
build_policy-sent p t =
    rw (text_of-if_positive p.compact_every, text_of-if_positive p.squash_every)
      (cc (
        int_value-if_positive p.compact_every t.compact,
        int_value-if_positive p.squash_every t.squash,
        bool_value-flag p.on_turn_boundary,
        bool_value-flag (not p.push),
        not-not p.push,
        bool_value-flag p.preserve_signed,
        bool_value-flag p.prune_local,
        bool_value-flag p.prune_remote,
      ))

module _ (fs : FileSystem) (p : SnapshotPolicy) (t : PolicyTravels p) where
  pub flag_three :
      (a b c : Bytes) (on : Bool)
      → full fs p a ≡ unless_blank (flag on)
      → full fs p b ≡ none
      → full fs p c ≡ unless_blank (flag on)
      → first (full fs p) (a ∷ b ∷ c ∷ []) ≡ text_of (flag on)
  flag_three a b c on h n k = first_three (full fs p) a b c (flag on) h n k (flag-IsTrimmed on)

  pub policy_of-full : policy_of (full fs p) ≡ sent_policy p
  unfolding drop_blank policy_context secrets_context file_system_context put_both put_if eqb
      policy_of
  policy_of-full =
      let m = full fs p in
      cc (
        build_policy-sent p t,
        first_three m (codes "snapshotEvery") (codes "policy.every") (own (codes "snapshot-every"))
            (some p.every) refl refl refl t.every,
        first_three m (codes "maxDirtyBytes") (codes "policy.maxDirtyBytes")
            (own (codes "max-dirty-bytes")) (some p.max_dirty_bytes) refl refl refl t.max_dirty,
        flag_three (codes "onTurnBoundary") (codes "policy.onTurnBoundary")
            (own (codes "on-turn-boundary")) p.on_turn_boundary refl refl refl,
        flag_three (codes "pushDisabled") (codes "policy.pushDisabled")
            (own (codes "push-disabled")) (not p.push) refl refl refl,
        first_three m (codes "compactEvery") (codes "policy.compactEvery")
            (own (codes "compact-every")) (number p.compact_every) refl refl refl
            (if_positive-IsTrimmed p.compact_every),
        first_three m (codes "squashEvery") (codes "policy.squashEvery")
            (own (codes "squash-every")) (number p.squash_every) refl refl refl
            (if_positive-IsTrimmed p.squash_every),
        first_set_three m (codes "checkpointTagPrefix") (codes "policy.checkpointTagPrefix")
            (own (codes "checkpoint-tag-prefix")) p.checkpoint_tag_prefix refl refl refl t.prefix,
        flag_three (codes "preserveSigned") (codes "policy.preserveSigned")
            (own (codes "preserve-signed")) p.preserve_signed refl refl refl,
        flag_three (codes "pruneLocal") (codes "policy.pruneLocal") (own (codes "prune-local"))
            p.prune_local refl refl refl,
        flag_three (codes "pruneRemote") (codes "policy.pruneRemote") (own (codes "prune-remote"))
            p.prune_remote refl refl refl,
      )

  -- Automatic snapshots are on where there is a policy.
  pub auto_snapshot-full :
      bool_value (first (full fs p) (codes "autoSnapshot" ∷ own (codes "auto-snapshot") ∷ []))
      ≡ true
  unfolding drop_blank policy_context secrets_context file_system_context put_both put_if eqb
  auto_snapshot-full =
      ap bool_value (
        first_two (full fs p) (codes "autoSnapshot") (own (codes "auto-snapshot")) (flag true) refl
          refl (flag-IsTrimmed true))
      ∙ bool_value-flag true
