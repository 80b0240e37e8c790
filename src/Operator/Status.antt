-- ===== src/Operator/Status.antt =====
-- The status of a resource: `SetCondition` of internal/k8soperator/types.go and status.go.
use smol_agent_oci_fs.Base.{
  ℕ, Bytes, codes, Bool, true, false, if◌then◌else◌, List, [], ◌∷◌, eqb, Option, none, some, ◌==◌,
  ◌≡◌, All,
}

-- A zero time is 0.
pub record Condition : Type 0 where
  pub kind : Bytes
  pub status : Bytes
  pub reason : Bytes
  pub message : Bytes
  pub last_transition_time : ℕ

pub record Status : Type 0 where
  pub conditions : List Condition
  pub last_snapshot_digest : Bytes
  pub last_checkpoint_digest : Bytes
  pub last_error : Bytes

-- The loop over the conditions: the first one of the type is replaced.
unfoldable pub replace_condition : Condition → List Condition → List Condition
replace_condition c [] = c ∷ []
replace_condition c (d ∷ ds) =
    let rest = replace_condition c ds in if eqb d.kind c.kind then c ∷ ds else d ∷ rest

abbrev pub condition : Bytes → Bool → Bytes → Bytes → Condition
condition kind on reason message = record {
  kind = kind;
  status = if on then codes "True" else codes "False";
  reason = reason;
  message = message;
  last_transition_time = 0;
}

-- The time of the call is a parameter.
module _ (now : ℕ) where
  abbrev pub stamp : Condition → Condition
  stamp c = record c {
    last_transition_time = if c.last_transition_time == 0 then now else c.last_transition_time;
  }

  unfoldable pub set_condition : Status → Condition → Status
  unfolding replace_condition
  set_condition s c = record s { conditions = replace_condition (stamp c) s.conditions }

  unfoldable pub mark_mounted : Status → Bytes → Bytes → Status
  mark_mounted s source_ref message =
      let cleared = record s { last_error = [] } in
      set_condition
        (set_condition cleared (condition (codes "Mounted") true (codes "Published") message))
        (condition (codes "Ready") true (codes "Mounted") source_ref)

  -- The error, where there is one, is its text.
  unfoldable pub mark_snapshot_result : Status → Bytes → Bytes → Option Bytes → Status
  mark_snapshot_result s snapshot checkpoint (some error) =
      set_condition
        (set_condition (record s { last_error = error })
          (condition (codes "SnapshotFailed") true (codes "SnapshotError") error))
        (condition (codes "Snapshotting") false (codes "Failed") [])
  mark_snapshot_result s snapshot checkpoint none =
      let done =
        set_condition
          (set_condition
            (record s {
              last_error = [];
              last_snapshot_digest = snapshot;
              last_checkpoint_digest = checkpoint;
            })
            (condition (codes "SnapshotFailed") false (codes "SnapshotSucceeded") []))
          (condition (codes "Snapshotting") false (codes "Completed") []) in
      if eqb checkpoint []
      then done
      else set_condition done
          (condition (codes "Checkpointed") true (codes "CheckpointCreated") checkpoint)

  unfoldable pub mark_registry : Status → Bool → Bytes → Bytes → Status
  mark_registry s ready reason message =
      set_condition s (condition (codes "RegistryReady") ready reason message)

-- The status that a resource reports for a type of condition: the first one, if there is any.
unfoldable pub find_condition : Bytes → List Condition → Option Condition
find_condition k [] = none
find_condition k (d ∷ ds) = let rest = find_condition k ds in if eqb d.kind k then some d else rest

-- No type of condition occurs twice.
abbrev pub HasUniqueKinds : List Condition → Type 0
HasUniqueKinds [] = Unit
HasUniqueKinds (d ∷ ds) = All (λ c. eqb d.kind c.kind ≡ false) ds × HasUniqueKinds ds
