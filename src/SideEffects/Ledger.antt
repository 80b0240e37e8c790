-- ===== src/SideEffects/Ledger.antt =====
-- The ledger of side effects: `readSideEffectLedger` and `matchSideEffectEntry` of
-- internal/osix/side_effect_adapter.go, `SideEffectEntry` and `validReplayPolicy` of policy.go.
use smol_agent_oci_fs.Base.{
  ℕ, Bytes, codes, Bool, not, ◌&&◌, ◌||◌, ◌==◌, leb, if◌then◌else◌, List, [], ◌∷◌, eqb, elem,
  trim_space, length, Option, none, some,
}

-- Of a turn only its difference from 0 is used.
pub record SideEffectEntry : Type 0 where
  pub turn : ℕ
  pub tool : Bytes
  pub idempotency_key : Bytes
  pub request_digest : Bytes
  pub response_digest : Bytes
  pub external_resource : Bytes
  pub replay_policy : Bytes
  pub compensating_action : Bytes

pub record SideEffectCheck : Type 0 where
  pub tool : Bytes
  pub external_resource : Bytes
  pub operation : Bytes
  pub idempotency_key : Bytes

-- What opening and reading a file gives: os.IsNotExist, another error, or the content.
pub data FileRead : Type 0 where
  missing unreadable : FileRead
  content : Bytes → FileRead

abbrev pub retry_policy : Bytes
retry_policy = codes "idempotent-retry-allowed"

abbrev pub other_policies : List Bytes
other_policies =
    codes "mock-by-default"
    ∷ codes "read-only-by-default"
    ∷ codes "require-approval"
    ∷ codes "never-replay"
    ∷ []

unfoldable pub valid_replay_policy : Bytes → Bool
valid_replay_policy policy = elem policy other_policies || eqb policy retry_policy

-- The negation of `entry.Turn == 0 || entry.Tool == "" || ...`
unfoldable pub has_required_fields : SideEffectEntry → Bool
has_required_fields e = not (
    e.turn == 0
    || eqb e.tool []
    || eqb e.idempotency_key []
    || eqb e.request_digest []
    || eqb e.response_digest []
    || eqb e.external_resource []
    || eqb e.replay_policy [])

abbrev pub newline : ℕ
newline = 10

abbrev add_to_first : ℕ → List Bytes → List Bytes
add_to_first c [] = (c ∷ []) ∷ []
add_to_first c (l ∷ ls) = (c ∷ l) ∷ ls

-- The lines of bufio.Scanner. It also drops a carriage return at the end of a line, which
-- TrimSpace drops in any case.
unfoldable pub scan_lines : Bytes → List Bytes
scan_lines [] = []
scan_lines (c ∷ s) =
    let rest = scan_lines s in if c == newline then [] ∷ rest else add_to_first c rest

-- json.Unmarshal of a line is the parameter `parse_entry`.
module _ (parse_entry : Bytes → Option SideEffectEntry) where
  -- The body of the loop for one line that is not empty.
  unfoldable pub read_entry : Bytes → Option SideEffectEntry
  read_entry line = elim (parse_entry line) [
    | none ↦ none
    | some e ↦ if has_required_fields e && valid_replay_policy e.replay_policy then some e else none
  ]

  -- bufio.Scanner stops with an error at a line of 64 KiB; `none` is an error.
  unfoldable pub read_lines : List Bytes → Option (List SideEffectEntry)
  read_lines [] = some []
  read_lines (line ∷ lines) =
      let rest = read_lines lines in
      if leb 65536 (length line)
      then none
      else if eqb (trim_space line) []
      then rest
      else elim (read_entry (trim_space line)) [
        | none ↦ none
        | some e ↦ elim rest [ none ↦ none | some es ↦ some (e ∷ es) ]
      ]

  unfoldable pub read_side_effect_ledger : FileRead → Option (List SideEffectEntry)
  read_side_effect_ledger missing = some []
  read_side_effect_ledger unreadable = none
  read_side_effect_ledger (content text) = read_lines (scan_lines text)

-- The entry passes both `continue` tests of the loop.
unfoldable pub is_match : SideEffectCheck → SideEffectEntry → Bool
is_match check e =
    eqb e.tool check.tool
    && eqb e.external_resource check.external_resource
    && (eqb check.idempotency_key [] || eqb e.idempotency_key check.idempotency_key)

unfoldable pub match_side_effect_entry :
    List SideEffectEntry → SideEffectCheck → Option SideEffectEntry
match_side_effect_entry [] check = none
match_side_effect_entry (e ∷ es) check =
    let later = match_side_effect_entry es check in if is_match check e then some e else later
