-- ===== src/SideEffects/Decision.antt =====
-- `CheckSideEffect` of internal/osix/side_effect_adapter.go.
use Prim.Native.String.{String}
use smol_agent_oci_fs.Base.{
  ◌+◌, Bytes, codes, not, ◌&&◌, leb, if◌then◌else◌, [], map, eqb, trim_space, Option, none, some,
  ◌⊎◌, inl, inr,
}
use smol_agent_oci_fs.SideEffects.Ledger.{
  SideEffectEntry, SideEffectCheck, FileRead, missing, unreadable, content, retry_policy,
  read_side_effect_ledger, match_side_effect_entry,
}

-- The SideEffectAction constants
pub data SideEffectAction : Type 0 where
  allow mock read_only require_approval deny : SideEffectAction

pub record SideEffectDecision : Type 0 where
  pub action : SideEffectAction
  pub replay_mode : Bytes
  pub replay_policy : Bytes
  pub matched_entry : Option SideEffectEntry
  pub reason : String

pub data CheckError : Type 0 where
  invalid_operation tool_required resource_required : CheckError
  bad_marker bad_ledger invalid_policy : CheckError

abbrev pub read : Bytes
read = codes "read"

abbrev pub write : Bytes
write = codes "write"

abbrev pub normal : Bytes
normal = codes "normal"

-- strings.ToLower on ASCII texts
abbrev pub to_lower : Bytes → Bytes
to_lower = map (λ c. if leb 65 c && leb c 90 then c + 32 else c)

unfoldable pub operation_of : SideEffectCheck → Bytes
operation_of check =
    let op = to_lower (trim_space check.operation) in if eqb op [] then write else op

unfoldable pub replay_policy_of : Option SideEffectEntry → Bytes
replay_policy_of none = []
replay_policy_of (some e) = e.replay_policy

unfoldable pub side_effect_decision :
    SideEffectAction → Bytes → Option SideEffectEntry → String → SideEffectDecision
side_effect_decision act mode entry why = record {
  action = act;
  replay_mode = mode;
  replay_policy = replay_policy_of entry;
  matched_entry = entry;
  reason = why;
}

-- The switch on the policy of the entry.
unfoldable pub decide_by_policy :
    Bytes → SideEffectCheck → SideEffectEntry → CheckError ⊎ SideEffectDecision
decide_by_policy mode check e =
    let decided : SideEffectAction → String → CheckError ⊎ SideEffectDecision =
      λ act why. inr (side_effect_decision act mode (some e) why) in
    if eqb e.replay_policy (codes "mock-by-default")
    then decided mock "ledger policy requires mock behavior by default"
    else if eqb e.replay_policy (codes "read-only-by-default")
    then decided read_only "ledger policy allows reads but blocks writes by default"
    else if eqb e.replay_policy (codes "require-approval")
    then decided require_approval "ledger policy requires approval before replay"
    else if eqb e.replay_policy (codes "never-replay")
    then decided deny "ledger policy forbids replay"
    else if eqb e.replay_policy retry_policy
    then (if not (eqb check.idempotency_key []) && eqb check.idempotency_key e.idempotency_key
        then decided allow "matching idempotency key allows retry"
        else decided require_approval "idempotent retry requires the original idempotency key")
    else inl invalid_policy

-- What follows the call of `matchSideEffectEntry`.
unfoldable pub decide :
    Bytes → SideEffectCheck → Option SideEffectEntry → CheckError ⊎ SideEffectDecision
decide mode check entry =
    if eqb mode normal
    then inr (side_effect_decision allow mode entry "runtime is not marked as restored or forked")
    else if eqb (operation_of check) read
    then inr (side_effect_decision allow mode entry "read-only external operation is allowed")
    else elim entry [
      | none ↦ inr (
          side_effect_decision require_approval mode none
            "restored runtime has no matching side-effect ledger entry")
      | some e ↦ decide_by_policy mode check e
    ]

-- json.Unmarshal of the marker, of which only the mode is used, is the parameter `parse_mode`.
module _ (parse_mode : Bytes → Option Bytes) where
  -- The mode of `readReplayMarker`, `normal` where there is no marker or no mode in it.
  unfoldable pub replay_mode_of : FileRead → Option Bytes
  replay_mode_of missing = some normal
  replay_mode_of unreadable = none
  replay_mode_of (content text) = elim (parse_mode text) [
    | none ↦ none
    | some mode ↦ some (if eqb mode [] then normal else mode)
  ]

module _ (parse_mode : Bytes → Option Bytes) (parse_entry : Bytes → Option SideEffectEntry) where
  unfoldable pub check_side_effect :
      FileRead → FileRead → SideEffectCheck → CheckError ⊎ SideEffectDecision
  check_side_effect marker ledger check =
      if not (eqb (operation_of check) read) && not (eqb (operation_of check) write)
      then inl invalid_operation
      else if eqb (trim_space check.tool) []
      then inl tool_required
      else if eqb (trim_space check.external_resource) []
      then inl resource_required
      else elim (replay_mode_of parse_mode marker) [
        | none ↦ inl bad_marker
        | some mode ↦ elim (read_side_effect_ledger parse_entry ledger) [
          | none ↦ inl bad_ledger
          | some es ↦ decide mode check (match_side_effect_entry es check)
        ]
      ]
