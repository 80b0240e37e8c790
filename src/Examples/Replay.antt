-- ===== src/Examples/Replay.antt =====
-- The decisions of internal/osix/side_effect_adapter.go at one ledger.
use smol_agent_oci_fs.Base.{
  Bytes, codes, List, [], ◌∷◌, Option, some, ◌≡◌, ◌≢◌, inr, refl, eqb, elem, any, trim_space,
  trim_left,
}
use smol_agent_oci_fs.SideEffects.Ledger.{
  SideEffectEntry, SideEffectCheck, FileRead, content, read_side_effect_ledger, read_lines,
  read_entry, scan_lines, has_required_fields, valid_replay_policy, match_side_effect_entry,
  is_match, retry_policy,
}
use smol_agent_oci_fs.SideEffects.Decision.{
  SideEffectDecision, check_side_effect, decide, decide_by_policy, operation_of, replay_mode_of,
  side_effect_decision, allow, read, write,
}
use smol_agent_oci_fs.SideEffects.Replay.{
  IsRetryOf, check_side_effect-IsRetryOf, check_side_effect_total,
}

abbrev payment : SideEffectEntry
payment = record {
  turn = 3;
  tool = codes "pay";
  idempotency_key = codes "k1";
  request_digest = codes "r";
  response_digest = codes "s";
  external_resource = codes "bank";
  replay_policy = retry_policy;
  compensating_action = [];
}

abbrev pay_again : SideEffectCheck
pay_again = record {
  tool = codes "pay";
  external_resource = codes "bank";
  operation = codes " Write";
  idempotency_key = codes "k1";
}

-- A decoder that knows one line and one marker.
abbrev parse_line : Bytes → Option SideEffectEntry
parse_line line = some payment

abbrev parse_marker : Bytes → Option Bytes
parse_marker text = some text

abbrev marker : FileRead
marker = content (codes "restored")

abbrev ledger : FileRead
ledger = content (codes "{}")

ledger_read : read_side_effect_ledger parse_line ledger ≡ some (payment ∷ [])
unfolding read_side_effect_ledger read_lines read_entry scan_lines has_required_fields
    valid_replay_policy elem any eqb trim_space trim_left
ledger_read = refl

marker_read : replay_mode_of parse_marker marker ≡ some (codes "restored")
unfolding replay_mode_of eqb
marker_read = refl

pay_again-write : operation_of pay_again ≡ write
unfolding operation_of eqb trim_space trim_left
pay_again-write = refl

abbrev allowed : SideEffectDecision
allowed =
    side_effect_decision allow (codes "restored") (some payment)
      "matching idempotency key allows retry"

-- The check computes.
allowed_test : check_side_effect parse_marker parse_line marker ledger pay_again ≡ inr allowed
unfolding check_side_effect decide decide_by_policy operation_of replay_mode_of
    read_side_effect_ledger read_lines read_entry scan_lines has_required_fields valid_replay_policy
    match_side_effect_entry is_match elem any eqb trim_space trim_left
allowed_test = refl

not_normal : codes "restored" ≢ codes "normal"
not_normal h = cc

not_read : operation_of pay_again ≢ read
unfolding operation_of eqb trim_space trim_left
not_read h = cc

check_side_effect-IsRetryOf_example :
    (es : List SideEffectEntry) × (e : SideEffectEntry) × (read_side_effect_ledger parse_line ledger
      ≡ some es)
    × (match_side_effect_entry es pay_again ≡ some e)
    × IsRetryOf pay_again e
unfolding side_effect_decision
check_side_effect-IsRetryOf_example =
    check_side_effect-IsRetryOf parse_marker parse_line marker ledger pay_again (codes "restored")
      allowed marker_read not_normal not_read allowed_test refl

check_side_effect_total_example :
    (d : SideEffectDecision) × (check_side_effect parse_marker parse_line marker ledger pay_again
      ≡ inr d)
    × (d.replay_mode ≡ codes "restored")
    × (d.matched_entry ≡ match_side_effect_entry (payment ∷ []) pay_again)
unfolding trim_space trim_left eqb
check_side_effect_total_example =
    check_side_effect_total parse_marker parse_line marker ledger pay_again (codes "restored")
      (payment ∷ []) (inr pay_again-write) refl refl marker_read ledger_read
