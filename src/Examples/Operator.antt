-- ===== src/Examples/Operator.antt =====
-- The operator's functions of internal/k8soperator at inputs.
use smol_agent_oci_fs.Base.{
  Bytes, codes, true, List, [], ◌∷◌, Option, none, some, ◌≡◌, refl, arith, All, eqb, has_prefix,
  trim_space, trim_left, contains,
}
use smol_agent_oci_fs.Operator.Types.{FileSystem, normalize_file_system, is_valid_file_system}
use smol_agent_oci_fs.Operator.Context.{put_if}
use smol_agent_oci_fs.Operator.Status.{
  Status, condition, mark_snapshot_result, find_condition, HasUniqueKinds,
}
use smol_agent_oci_fs.Operator.Conditions.{
  status_of, mark_snapshot_result-HasUniqueKinds, mark_snapshot_result_reported,
}
use smol_agent_oci_fs.Operator.Segment.{
  is_safe_id, all_id_bytes, safe_volume_path_segment, IsSegment, safe_volume_path_segment-IsSegment,
  safe_volume_path_segment_injective,
}
use smol_agent_oci_fs.Operator.Plan.{
  CommandStep, VolumePlanOptions, last_index, is_registry_ref, registry_env, publish_steps,
  publish_plan, workspace_of,
}
use smol_agent_oci_fs.Operator.LocalMounts.{MountsLocal, publish_plan-MountsLocal}

abbrev ready_status : Status
ready_status = record {
  conditions = condition (codes "Ready") true (codes "Mounted") [] ∷ [];
  last_snapshot_digest = [];
  last_checkpoint_digest = [];
  last_error = codes "old";
}

abbrev denied : Option Bytes
denied = some (codes "denied")

mark_snapshot_result-HasUniqueKinds_example :
    HasUniqueKinds (mark_snapshot_result 7 ready_status [] [] denied).conditions
mark_snapshot_result-HasUniqueKinds_example =
    mark_snapshot_result-HasUniqueKinds 7 ready_status [] [] denied (tt, tt)

mark_snapshot_result_reported_example :
    (status_of (codes "SnapshotFailed") (mark_snapshot_result 7 ready_status [] [] denied)
      ≡ some (codes "True"))
    × (status_of (codes "Snapshotting") (mark_snapshot_result 7 ready_status [] [] denied)
        ≡ some (codes "False"))
    × (find_condition (codes "Ready") (mark_snapshot_result 7 ready_status [] [] denied).conditions
        ≡ find_condition (codes "Ready") ready_status.conditions)
unfolding eqb
mark_snapshot_result_reported_example =
    mark_snapshot_result_reported 7 ready_status [] [] denied (codes "Ready") refl refl refl

-- A sum with no bytes.
abbrev no_sum : Bytes → Bytes
no_sum v = []

abbrev plain_sum : Bytes → Bytes
plain_sum v = codes "00"

safe_volume_path_segment-IsSegment_example :
    IsSegment (safe_volume_path_segment plain_sum (codes "../../etc"))
safe_volume_path_segment-IsSegment_example =
    safe_volume_path_segment-IsSegment plain_sum (λ v. (λ e. omega arith, (λ e. omega arith, tt)))
      (codes "../../etc")

abbrev same_sum : Bytes → Bytes
same_sum v = v

safe_volume_path_segment_injective_example : codes "pvc-1" ≡ codes "pvc-1"
safe_volume_path_segment_injective_example =
    safe_volume_path_segment_injective same_sum (codes "pvc-1") (codes "pvc-1") (λ h. h) refl

segment_test : safe_volume_path_segment same_sum (codes "a/b") ≡ codes "~volume-a/b"
unfolding safe_volume_path_segment is_safe_id all_id_bytes eqb
segment_test = refl

abbrev pub demo : FileSystem
demo = record {
  api_version = [];
  kind = [];
  name = codes "demo";
  namespace = [];
  uid = [];
  base_image = codes "alpine";
  state_ref = codes "ghcr.io/a/state";
  branch = [];
  source_ref = codes "ghcr.io/a/state:v1";
  mount_mode = [];
  registry_secret_ref = some (codes "regcred");
  encryption = some (record { recipients = codes "age1x"; secret_ref = none });
  signing = none;
}

abbrev options : VolumePlanOptions
options = record {
  workspace_root = codes "/ws";
  target_path = codes "/mnt/a";
  volume_id = codes "pvc-1";
  policy = none;
}

abbrev demo_step : Bytes → List Bytes → CommandStep
demo_step name command = record {
  name = name;
  command = command;
  env =
      put_if true (codes "OSIX_WORKSPACE")
        (workspace_of no_sum (normalize_file_system demo) options)
        (registry_env (normalize_file_system demo));
}

abbrev demo_steps : List CommandStep
demo_steps =
    demo_step (codes "init") (
      codes "osix"
      ∷ codes "init"
      ∷ codes "alpine"
      ∷ codes "--name"
      ∷ codes "demo"
      ∷ codes "--state"
      ∷ codes "ghcr.io/a/state"
      ∷ codes "--mount"
      ∷ codes "/mnt/a"
      ∷ codes "--encrypt"
      ∷ codes "age1x"
      ∷ [])
    ∷ demo_step (codes "pull") (
        codes "osix"
        ∷ codes "pull"
        ∷ codes "ghcr.io/a/state:v1"
        ∷ codes "--tag"
        ∷ codes "csi-source"
        ∷ [])
    ∷ demo_step (codes "mount") (
        codes "osix"
        ∷ codes "mount"
        ∷ codes "csi-source"
        ∷ codes "/mnt/a"
        ∷ codes "--mode"
        ∷ codes "auto"
        ∷ codes "--branch"
        ∷ codes "main"
        ∷ codes "--force"
        ∷ [])
    ∷ []

demo_steps_test : publish_plan no_sum demo options ≡ some demo_steps
unfolding publish_plan is_valid_file_system normalize_file_system trim_space trim_left eqb
    publish_steps is_registry_ref last_index contains has_prefix
demo_steps_test = refl

publish_plan-MountsLocal_example :
    All
      (λ step.
        (step.env (codes "OSIX_WORKSPACE")
          ≡ some (workspace_of no_sum (normalize_file_system demo) options))
        × MountsLocal step.command)
      demo_steps
publish_plan-MountsLocal_example =
    publish_plan-MountsLocal no_sum demo options demo_steps demo_steps_test

publish_plan_fails : publish_plan no_sum demo (record options { target_path = codes " " }) ≡ none
unfolding publish_plan is_valid_file_system normalize_file_system trim_space trim_left eqb
publish_plan_fails = refl
