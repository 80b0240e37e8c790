-- ===== src/Operator/Plan.antt =====
-- The commands that internal/k8soperator/planner.go plans for a volume: `PublishPlan`,
-- `SnapshotPlan`, `UnpublishPlan` and `registryEnv`.
use smol_agent_oci_fs.Base.{
  ℕ, ◌+◌, Bytes, codes, slash, Bool, true, false, not, ◌&&◌, ◌||◌, ◌==◌, ltb, if◌then◌else◌, List,
  [], ◌∷◌, ◌++◌, map, eqb, contains, trim_space, Option, none, some,
}
use smol_agent_oci_fs.Base.Decimal.{pos, is_positive, sprint_int}
use smol_agent_oci_fs.Paths.Components.{join_path}
use smol_agent_oci_fs.Operator.Types.{
  SecretKeySelector, EncryptionSpec, SigningSpec, FileSystem, SnapshotPolicy, normalize_file_system,
  is_valid_file_system, is_blank,
}
use smol_agent_oci_fs.Operator.Context.{
  Context, empty_context, put_if, text_of, recipients_of, signer_of, attestation_of, is_set,
}
use smol_agent_oci_fs.Operator.Segment.{safe_volume_path_segment}

pub record CommandStep : Type 0 where
  pub name : Bytes
  pub command : List Bytes
  pub env : Context

pub record VolumePlanOptions : Type 0 where
  pub workspace_root : Bytes
  pub target_path : Bytes
  pub volume_id : Bytes
  pub policy : Option SnapshotPolicy

-- strings.LastIndex plus one, which is 0 where the byte does not occur
unfoldable pub last_index : ℕ → Bytes → ℕ
last_index c [] = 0
last_index c (x ∷ s) =
    let rest = last_index c s in if ltb 0 rest then rest + 1 else if x == c then 1 else 0

unfoldable pub is_registry_ref : Bytes → Bool
unfolding last_index contains
is_registry_ref given =
    let ref = trim_space given in
    not (eqb ref [])
    && (ltb (last_index slash ref) (last_index b':' ref) || contains ref (codes "@sha256:"))

-- The two variables of a secret's key, where there is one
abbrev put_secret : Option SecretKeySelector → Bytes → Bytes → Context → Context
put_secret none name key env = env
put_secret (some s) name key env = put_if true key s.key (put_if true name s.name env)

abbrev encryption_secret : Option EncryptionSpec → Option SecretKeySelector
encryption_secret none = none
encryption_secret (some e) = e.secret_ref

abbrev trusted_key_secret : Option SigningSpec → Option SecretKeySelector
trusted_key_secret none = none
trusted_key_secret (some s) = s.trusted_key_secret_ref

abbrev identity_token_secret : Option SigningSpec → Option SecretKeySelector
identity_token_secret none = none
identity_token_secret (some s) = s.identity_token_secret_ref

-- A nil map is the empty one.
unfoldable pub registry_env : FileSystem → Context
registry_env fs =
    let registry = text_of fs.registry_secret_ref in
    put_secret (identity_token_secret fs.signing) (codes "OSIX_IDENTITY_TOKEN_SECRET_NAME")
      (codes "OSIX_IDENTITY_TOKEN_SECRET_KEY")
      (put_secret (trusted_key_secret fs.signing) (codes "OSIX_TRUSTED_KEY_SECRET_NAME")
        (codes "OSIX_TRUSTED_KEY_SECRET_KEY")
        (put_secret (encryption_secret fs.encryption) (codes "OSIX_ENCRYPTION_SECRET_NAME")
          (codes "OSIX_ENCRYPTION_SECRET_KEY")
          (put_if (is_set registry) (codes "OSIX_REGISTRY_SECRET_NAME") registry empty_context)))

-- A flag with its value, where the value is not empty
abbrev option_args : Bytes → Bytes → List Bytes
option_args flag value = if eqb value [] then [] else flag ∷ value ∷ []

abbrev flag_args : Bytes → Bool → List Bytes
flag_args flag on = if on then flag ∷ [] else []

abbrev pub csi_source : Bytes
csi_source = codes "csi-source"

-- The steps before their environment is set.
unfoldable pub publish_steps : FileSystem → Bytes → List (Bytes × List Bytes)
unfolding is_registry_ref
publish_steps fs target =
    let remote = is_registry_ref fs.source_ref in
    let source = if remote then csi_source else fs.source_ref in
    (
      codes "init",
      (codes "osix"
            ∷ codes "init"
            ∷ fs.base_image
            ∷ codes "--name"
            ∷ fs.name
            ∷ codes "--state"
            ∷ fs.state_ref
            ∷ codes "--mount"
            ∷ target
            ∷ [])
          ++ option_args (codes "--encrypt") (recipients_of fs.encryption),
    )
    ∷ ((if remote
          then (
            codes "pull",
            codes "osix" ∷ codes "pull" ∷ fs.source_ref ∷ codes "--tag" ∷ csi_source ∷ [],
          )
            ∷ []
          else [])
        ++ ((if eqb source []
              then (
                codes "prepare-empty",
                codes "mkdir" ∷ codes "-p" ∷ join_path target (codes "agent/workspace") ∷ [],
              )
              else (
                codes "mount",
                codes "osix"
                    ∷ codes "mount"
                    ∷ source
                    ∷ target
                    ∷ codes "--mode"
                    ∷ fs.mount_mode
                    ∷ codes "--branch"
                    ∷ fs.branch
                    ∷ codes "--force"
                    ∷ [],
              ))
            ∷ []))

abbrev default_id : Bytes → Bytes → Bytes
default_id id name = if eqb id [] then name else id

module _ (sum16 : Bytes → Bytes) where
  abbrev pub workspace_of : FileSystem → VolumePlanOptions → Bytes
  workspace_of fs opts =
      join_path opts.workspace_root
        (safe_volume_path_segment sum16 (default_id opts.volume_id fs.name))

  -- `none` is an error.
  unfoldable pub publish_plan : FileSystem → VolumePlanOptions → Option (List CommandStep)
  publish_plan given opts =
      let fs = normalize_file_system given in
      let env = put_if true (codes "OSIX_WORKSPACE") (workspace_of fs opts) (registry_env fs) in
      if not (is_valid_file_system fs) || is_blank opts.workspace_root || is_blank opts.target_path
      then none
      else some (
          map (λ (s : Bytes × List Bytes). record { name = s.0; command = s.1; env = env })
            (publish_steps fs opts.target_path))

abbrev policy_or_push : Option SnapshotPolicy → SnapshotPolicy
policy_or_push (some p) = p
policy_or_push none = record {
  every = [];
  max_dirty_bytes = [];
  on_turn_boundary = false;
  push = true;
  compact_every = pos 0;
  squash_every = pos 0;
  checkpoint_tag_prefix = [];
  keep_snapshots = [];
  preserve_signed = false;
  prune_local = false;
  prune_remote = false;
}

-- strings.Join with a comma
unfoldable pub join_commas : List Bytes → Bytes
join_commas [] = []
join_commas (s ∷ []) = s
join_commas (s ∷ t ∷ ss) = s ++ (b',' ∷ join_commas (t ∷ ss))

abbrev keep_args : List Bytes → List Bytes
keep_args [] = []
keep_args (k ∷ ks) = codes "--keep-snapshots" ∷ join_commas (k ∷ ks) ∷ []

unfoldable pub snapshot_command : FileSystem → SnapshotPolicy → Bytes → List Bytes
unfolding join_commas
snapshot_command fs p target =
    (codes "osix" ∷ codes "watch" ∷ target ∷ codes "--once" ∷ [])
    ++ (option_args (codes "--every") p.every
        ++ (option_args (codes "--max-dirty") p.max_dirty_bytes
            ++ (flag_args (codes "--on-turn-boundary") p.on_turn_boundary
                ++ (flag_args (codes "--push") p.push
                    ++ (option_args (codes "--encrypt") (recipients_of fs.encryption)
                        ++ (option_args (codes "--sign") (signer_of fs.signing)
                            ++ (option_args (codes "--attest") (attestation_of fs.signing)
                                ++ ((if is_positive p.compact_every
                                      then codes "--compact-every" ∷ sprint_int p.compact_every ∷ []
                                      else [])
                                    ++ ((if is_positive p.squash_every
                                          then codes "--squash-every"
                                            ∷ sprint_int p.squash_every
                                            ∷ []
                                          else [])
                                        ++ (option_args (codes "--checkpoint-tag-prefix")
                                              p.checkpoint_tag_prefix
                                            ++ (keep_args p.keep_snapshots
                                                ++ (flag_args (codes "--preserve-signed")
                                                      p.preserve_signed
                                                    ++ (flag_args (codes "--prune-local")
                                                          p.prune_local
                                                        ++ flag_args (codes "--prune-remote")
                                                            p.prune_remote)))))))))))))

unfoldable pub snapshot_plan : FileSystem → VolumePlanOptions → Option (List CommandStep)
snapshot_plan given opts =
    let fs = normalize_file_system given in
    if not (is_valid_file_system fs) || is_blank opts.target_path
    then none
    else some (
        record {
          name = codes "snapshot";
          command = snapshot_command fs (policy_or_push opts.policy) opts.target_path;
          env = registry_env fs;
        }
        ∷ [])

abbrev unmount_step : Bytes → CommandStep
unmount_step target = record {
  name = codes "unmount";
  command = codes "osix" ∷ codes "unmount" ∷ target ∷ codes "--force" ∷ [];
  env = empty_context;
}

unfoldable pub unpublish_plan :
    Bytes → Bool → FileSystem → VolumePlanOptions → Option (List CommandStep)
unpublish_plan target final_snapshot fs opts =
    if is_blank target
    then none
    else if final_snapshot
    then elim (snapshot_plan fs opts) [
      | none ↦ none
      | some steps ↦ some (steps ++ (unmount_step target ∷ []))
    ]
    else some (unmount_step target ∷ [])
