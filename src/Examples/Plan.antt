-- ===== src/Examples/Plan.antt =====
-- The plan of internal/osix/compact.go on a chain of four snapshots.
use smol_agent_oci_fs.Base.{
  Bytes, codes, Bool, true, false, if◌then◌else◌, List, [], ◌∷◌, eqb, elem, any, Option, none, some,
  ◌≡◌, refl,
}
use smol_agent_oci_fs.Base.Decimal.{pos}
use smol_agent_oci_fs.Compact.Plan.{
  CompactPolicy, PlanItem, keep_set, reason_of, plan_items, compact_plan,
}
use smol_agent_oci_fs.Compact.Plan.Candidates.{HasNoRule, delete_candidates_unwanted}

abbrev resolve : Bytes → Option Bytes
resolve keep = if eqb keep (codes "old") then some (codes "sha256:0") else none

-- The first snapshot has a signature.
abbrev signed : Bytes → Bool
signed digest = eqb digest (codes "sha256:1")

abbrev plan_policy : CompactPolicy
plan_policy = record {
  squash_every = pos 3;
  keep_snapshots = codes "snap-b" ∷ [];
  preserve_signed = true;
  prune_source = false;
}

abbrev plan_chain : List PlanItem
plan_chain =
    record { digest = codes "sha256:1"; id = codes "snap-a" }
    ∷ record { digest = codes "sha256:2"; id = codes "snap-b" }
    ∷ record { digest = codes "sha256:3"; id = codes "snap-c" }
    ∷ record { digest = codes "sha256:4"; id = codes "snap-d" }
    ∷ []

compact_plan_test : compact_plan resolve signed plan_policy plan_chain ≡ record {
  create_checkpoint = true;
  keep = codes "sha256:1" ∷ codes "sha256:2" ∷ codes "sha256:4" ∷ [];
  delete_candidates = codes "sha256:3" ∷ [];
}
unfolding compact_plan plan_items reason_of keep_set elem any eqb
compact_plan_test = refl

candidate_test :
    elem (codes "sha256:3") (compact_plan resolve signed plan_policy plan_chain).delete_candidates
    ≡ true
unfolding compact_plan plan_items reason_of keep_set elem any eqb
candidate_test = refl

delete_candidates_unwanted_example :
    HasNoRule resolve signed plan_policy plan_chain (codes "sha256:3")
delete_candidates_unwanted_example =
    delete_candidates_unwanted resolve signed plan_policy plan_chain (codes "sha256:3")
      candidate_test
