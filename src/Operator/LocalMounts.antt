-- ===== src/Operator/LocalMounts.antt =====
-- What the steps of `PublishPlan` of internal/k8soperator/planner.go do.
use mathlib.Core.Path.{subst}
use smol_agent_oci_fs.Base.{
  Bytes, codes, true, false, List, [], ◌∷◌, map, eqb, eqb_refl, contains, has_prefix, trim_space,
  some, ◌≡◌, refl, arith, All, All-map, Bool-cases, inl, inr,
}
use smol_agent_oci_fs.Operator.Types.{FileSystem, normalize_file_system}
use smol_agent_oci_fs.Operator.Context.{put_if}
use smol_agent_oci_fs.Operator.Plan.{
  CommandStep, VolumePlanOptions, last_index, is_registry_ref, registry_env, publish_steps,
  publish_plan, workspace_of, csi_source,
}

-- The source that a command mounts is no reference of a registry.
abbrev pub MountsLocal : List Bytes → Type 0
MountsLocal command =
    (source : Bytes) (rest : List Bytes)
    → command ≡ codes "osix" ∷ codes "mount" ∷ source ∷ rest
    → is_registry_ref source ≡ false

csi_source_local : is_registry_ref csi_source ≡ false
unfolding is_registry_ref last_index contains trim_space has_prefix eqb
csi_source_local = refl

not_mount :
    (verb : Bytes) (args : List Bytes)
    → eqb verb (codes "mount") ≡ false
    → MountsLocal (codes "osix" ∷ verb ∷ args)
not_mount verb args n source rest e =
    let same : verb ≡ codes "mount" = cc in
    absurd (ground (arith, n, same, eqb_refl (codes "mount")))

mounted :
    (source : Bytes) (args : List Bytes)
    → is_registry_ref source ≡ false
    → MountsLocal (codes "osix" ∷ codes "mount" ∷ source ∷ args)
mounted source args h other rest e = let same : source ≡ other = cc in rw (← same) h

prepared : (args : List Bytes) → MountsLocal (codes "mkdir" ∷ args)
prepared args source rest e =
    let same : codes "mkdir" ≡ codes "osix" = cc in absurd (ground (arith, same))

publish_steps-MountsLocal :
    (fs : FileSystem) (target : Bytes) → All (λ s. MountsLocal s.1) (publish_steps fs target)
unfolding publish_steps eqb
publish_steps-MountsLocal fs target = elim (Bool-cases (is_registry_ref fs.source_ref)) [
  | inl remote ↦ rw remote (
    not_mount (codes "init") _ refl,
    (not_mount (codes "pull") _ refl, (mounted csi_source _ csi_source_local, tt)),
  )
  | inr here ↦ elim (Bool-cases (eqb fs.source_ref [])) [
    | inl empty ↦ rw (here, empty) (not_mount (codes "init") _ refl, (prepared _, tt))
    | inr named ↦
        rw (here, named) (not_mount (codes "init") _ refl, (mounted fs.source_ref _ here, tt))
  ]
]

All-steps :
    (P : CommandStep → Type 0) (f : Bytes × List Bytes → CommandStep)
    (xs : List (Bytes × List Bytes))
    → All (λ x. P (f x)) xs
    → All P (map f xs)
All-steps P f [] h = tt
All-steps P f (x ∷ xs) h = (h.0, All-steps P f xs h.1)

module _ (sum16 : Bytes → Bytes) (given : FileSystem) (opts : VolumePlanOptions) where
  abbrev workspace : Bytes
  workspace = workspace_of sum16 (normalize_file_system given) opts

  abbrev planned : List (Bytes × List Bytes)
  planned = publish_steps (normalize_file_system given) opts.target_path

  abbrev made : Bytes × List Bytes → CommandStep
  made s = record {
    name = s.0;
    command = s.1;
    env =
        put_if true (codes "OSIX_WORKSPACE") workspace (registry_env (normalize_file_system given));
  }

  env_workspace : (s : Bytes × List Bytes) → (made s).env (codes "OSIX_WORKSPACE") ≡ some workspace
  unfolding put_if eqb
  env_workspace s = refl

  -- Every step of a publish plan runs in the volume's workspace, and none mounts a reference of a
  -- registry: such a source is pulled and mounted by a local tag.
  pub publish_plan-MountsLocal :
      (steps : List CommandStep)
      → publish_plan sum16 given opts ≡ some steps
      → All
          (λ step.
            (step.env (codes "OSIX_WORKSPACE")
              ≡ some (workspace_of sum16 (normalize_file_system given) opts))
            × MountsLocal step.command)
          steps
  unfolding publish_plan
  publish_plan-MountsLocal steps h =
      let same : map made planned ≡ steps = ground (arith, h) in
      subst
        (All
          (λ step. (step.env (codes "OSIX_WORKSPACE") ≡ some workspace) × MountsLocal step.command))
        same
        (All-steps
          (λ step. (step.env (codes "OSIX_WORKSPACE") ≡ some workspace) × MountsLocal step.command)
          made planned
          (All-map (λ s. MountsLocal s.1)
            (λ s.
              ((made s).env (codes "OSIX_WORKSPACE") ≡ some workspace)
              × MountsLocal (made s).command)
            planned (λ s local. (env_workspace s, local))
            (publish_steps-MountsLocal (normalize_file_system given) opts.target_path)))
