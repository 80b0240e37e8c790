-- ===== src/Compact/Plan.antt =====
-- The plan of `Compact` of internal/osix/compact.go: which snapshots of a chain it keeps, which it may
-- delete, and whether it makes a checkpoint. Whether a snapshot has a signature, and the digest of a
-- reference, are arguments.
pub mod Candidates
use smol_agent_oci_fs.Base.{
  ℕ, Bytes, codes, Bool, true, false, not, ◌&&◌, ◌||◌, leb, if◌then◌else◌, List, [], ◌∷◌, length,
  eqb, elem, Option, none, some,
}
use smol_agent_oci_fs.Base.Decimal.{ℤ, pos, negsuc}

-- The fields of CompactPolicy that the plan reads.
pub record CompactPolicy : Type 0 where
  pub squash_every : ℤ
  pub keep_snapshots : List Bytes
  pub preserve_signed : Bool
  pub prune_source : Bool

-- The digest of an item of the chain and the id in its configuration.
pub record PlanItem : Type 0 where
  pub digest : Bytes
  pub id : Bytes

pub data Reason : Type 0 where
  explicit_keep signed_snapshot branch_head : Reason

abbrev pub is_last : List PlanItem → Bool
is_last [] = true
is_last (item ∷ items) = false

-- `policy.SquashEvery <= 0`
abbrev pub squash_threshold : ℤ → ℕ
squash_threshold (pos n) = if leb n 0 then 50 else n
squash_threshold (negsuc n) = 50

module _ (resolve_ref : Bytes → Option Bytes) (has_signature : Bytes → Bool) where
  abbrev pub add_resolved : Option Bytes → Bytes → List Bytes → List Bytes
  add_resolved none keep rest = keep ∷ rest
  add_resolved (some digest) keep rest = digest ∷ keep ∷ rest

  -- The set `keepSet`.
  unfoldable pub keep_set : List Bytes → List Bytes
  keep_set [] = []
  keep_set (keep ∷ keeps) =
      let rest = keep_set keeps in
      if eqb keep [] then rest else add_resolved (resolve_ref keep) keep rest

  -- The tests in their order.
  unfoldable pub reason_of : CompactPolicy → List Bytes → PlanItem → Bool → Option Reason
  reason_of policy kept item last =
      if elem item.digest kept || elem item.id kept
      then some explicit_keep
      else if policy.preserve_signed && has_signature item.digest
      then some signed_snapshot
      else if last && not policy.prune_source
      then some branch_head
      else none

  abbrev pub sort_out : Option Reason → Bytes → List Bytes × List Bytes → List Bytes × List Bytes
  sort_out none digest (keep, delete) = (keep, digest ∷ delete)
  sort_out (some reason) digest (keep, delete) = (digest ∷ keep, delete)

  -- The loop over the chain: `Keep` and `DeleteCandidates`.
  unfoldable pub plan_items : CompactPolicy → List Bytes → List PlanItem → List Bytes × List Bytes
  unfolding reason_of
  plan_items policy kept [] = ([], [])
  plan_items policy kept (item ∷ items) =
      sort_out (reason_of policy kept item (is_last items)) item.digest
        (plan_items policy kept items)

  pub record CompactPlan : Type 0 where
    pub create_checkpoint : Bool
    pub keep : List Bytes
    pub delete_candidates : List Bytes

  unfoldable pub compact_plan : CompactPolicy → List PlanItem → CompactPlan
  unfolding keep_set plan_items
  compact_plan policy chain =
      let sorted = plan_items policy (keep_set policy.keep_snapshots) chain in
      record {
        create_checkpoint = leb (squash_threshold policy.squash_every) (length chain);
        keep = sorted.0;
        delete_candidates = sorted.1;
      }
