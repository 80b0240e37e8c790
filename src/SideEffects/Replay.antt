-- ===== src/SideEffects/Replay.antt =====
-- What `CheckSideEffect` of internal/osix/side_effect_adapter.go lets through.
use mathlib.Core.Path.{subst}
use smol_agent_oci_fs.Base.{
  Bytes, true, false, not, ◌&&◌, List, [], ◌∷◌, eqb, eqb→eq, eqb_refl, elem, any, All, Bool-cases,
  Option-cases, trim_space, Option, none, some, ◌≡◌, ◌≢◌, ◌⊎◌, inl, inr, refl, arith,
}
use smol_agent_oci_fs.SideEffects.Ledger.{
  SideEffectEntry, SideEffectCheck, FileRead, missing, unreadable, content, retry_policy,
  read_side_effect_ledger, read_lines, read_entry, scan_lines, is_match, match_side_effect_entry,
  valid_replay_policy,
}
use smol_agent_oci_fs.SideEffects.Decision.{
  SideEffectDecision, CheckError, allow, decide, decide_by_policy, check_side_effect, operation_of,
  replay_mode_of, side_effect_decision, read, write, normal,
}

-- A matched entry stands in the ledger and passes the test.
match_side_effect_entry-is_match :
    (es : List SideEffectEntry) (check : SideEffectCheck) (e : SideEffectEntry)
    → match_side_effect_entry es check ≡ some e
    → is_match check e ≡ true
unfolding match_side_effect_entry
match_side_effect_entry-is_match [] check e h = cc
match_side_effect_entry-is_match (x ∷ es) check e h = elim (Bool-cases (is_match check x)) [
  | inl y ↦ ground (arith, y)
  | inr n ↦ match_side_effect_entry-is_match es check e (rw n at h)
]

match_side_effect_entry-All :
    (P : SideEffectEntry → Type 0) (es : List SideEffectEntry) (check : SideEffectCheck)
    (e : SideEffectEntry)
    → All P es
    → match_side_effect_entry es check ≡ some e
    → P e
unfolding match_side_effect_entry
match_side_effect_entry-All P [] check e a h = absurd (cc)
match_side_effect_entry-All P (x ∷ es) check e a h = elim (Bool-cases (is_match check x)) [
  | inl y ↦ let same : x ≡ e = ground (arith, y) in subst P same a.0
  | inr n ↦ match_side_effect_entry-All P es check e a.1 (rw n at h)
]

abbrev IsValid : SideEffectEntry → Type 0
IsValid e = valid_replay_policy e.replay_policy ≡ true

module _ (parse_entry : Bytes → Option SideEffectEntry) where
  read_entry-IsValid :
      (line : Bytes) (e : SideEffectEntry) → read_entry parse_entry line ≡ some e → IsValid e
  unfolding read_entry
  read_entry-IsValid line e h = ground arith

  read_lines-IsValid :
      (lines : List Bytes) (es : List SideEffectEntry)
      → read_lines parse_entry lines ≡ some es
      → All IsValid es
  unfolding read_lines
  read_lines-IsValid [] es h = let same : [] ≡ es = cc in subst (All IsValid) same tt
  read_lines-IsValid (line ∷ lines) es h = elim (Option-cases (read_lines parse_entry lines)) [
    | inl bad ↦ absurd (ground (arith, bad))
    | inr (later, good) ↦ elim (Option-cases (read_entry parse_entry (trim_space line))) [
      | inl skip ↦
          let same : later ≡ es = ground (arith, good, skip) in
          subst (All IsValid) same (read_lines-IsValid lines later good)
      | inr (e, got) ↦ elim (Bool-cases (eqb (trim_space line) [])) [
        | inl blank ↦
            let same : later ≡ es = ground (arith, good, blank) in
            subst (All IsValid) same (read_lines-IsValid lines later good)
        | inr text ↦
            let same : e ∷ later ≡ es = ground (arith, good, got, text) in
            subst (All IsValid) same
              (read_entry-IsValid (trim_space line) e got, read_lines-IsValid lines later good)
      ]
    ]
  ]

  read_side_effect_ledger-IsValid :
      (ledger : FileRead) (es : List SideEffectEntry)
      → read_side_effect_ledger parse_entry ledger ≡ some es
      → All IsValid es
  unfolding read_side_effect_ledger
  read_side_effect_ledger-IsValid missing es h =
      let same : [] ≡ es = cc in subst (All IsValid) same tt
  read_side_effect_ledger-IsValid unreadable es h = absurd (cc)
  read_side_effect_ledger-IsValid (content text) es h = read_lines-IsValid (scan_lines text) es h

-- The switch has a case for every policy that the ledger may hold.
decide_by_policy-IsValid :
    (mode : Bytes) (check : SideEffectCheck) (e : SideEffectEntry) (x : CheckError)
    → IsValid e
    → decide_by_policy mode check e ≢ inl x
unfolding decide_by_policy valid_replay_policy elem any
decide_by_policy-IsValid mode check e x v h = ground (arith, v, h)

decide_by_policy-allow :
    (mode : Bytes) (check : SideEffectCheck) (e : SideEffectEntry) (d : SideEffectDecision)
    → decide_by_policy mode check e ≡ inr d
    → d.action ≡ allow
    → (eqb e.replay_policy retry_policy ≡ true)
      × (eqb check.idempotency_key [] ≡ false)
      × (eqb check.idempotency_key e.idempotency_key ≡ true)
unfolding decide_by_policy side_effect_decision
decide_by_policy-allow mode check e d h a = ground (arith, h, a)

-- An entry whose retry is allowed, of the tool and resource of the check and with its key.
abbrev pub IsRetryOf : SideEffectCheck → SideEffectEntry → Type 0
IsRetryOf check e =
    (e.tool ≡ check.tool)
    × (e.external_resource ≡ check.external_resource)
    × (e.replay_policy ≡ retry_policy)
    × (check.idempotency_key ≢ [])
    × (check.idempotency_key ≡ e.idempotency_key)

not_empty : (k : Bytes) → eqb k [] ≡ false → k ≢ []
unfolding eqb
not_empty [] h e = cc
not_empty (x ∷ k) h e = cc

is_retry :
    (mode : Bytes) (check : SideEffectCheck) (e : SideEffectEntry) (d : SideEffectDecision)
    → is_match check e ≡ true
    → decide_by_policy mode check e ≡ inr d
    → d.action ≡ allow
    → IsRetryOf check e
unfolding is_match
is_retry mode check e d m h a =
    let (policy, key, same) = decide_by_policy-allow mode check e d h a in
    (
      eqb→eq e.tool check.tool (ground (arith, m)),
      eqb→eq e.external_resource check.external_resource (ground (arith, m)),
      eqb→eq e.replay_policy retry_policy policy,
      λ empty. not_empty check.idempotency_key key empty,
      eqb→eq check.idempotency_key e.idempotency_key same,
    )

decide-allow :
    (mode : Bytes) (check : SideEffectCheck) (es : List SideEffectEntry) (d : SideEffectDecision)
    → decide mode check (match_side_effect_entry es check) ≡ inr d
    → d.action ≡ allow
    → (mode ≡ normal)
      ⊎ ((operation_of check ≡ read)
          ⊎ ((e : SideEffectEntry) × (match_side_effect_entry es check ≡ some e)
              × IsRetryOf check e))
unfolding decide side_effect_decision
decide-allow mode check es d h a = elim (Bool-cases (eqb mode normal)) [
  | inl y ↦ inl (eqb→eq mode normal y)
  | inr n ↦ elim (Bool-cases (eqb (operation_of check) read)) [
    | inl y ↦ inr (inl (eqb→eq (operation_of check) read y))
    | inr w ↦ elim (Option-cases (match_side_effect_entry es check)) [
      | inl unmatched ↦ absurd (ground (arith, n, w, unmatched, h, a))
      | inr (e, found) ↦ inr (
          inr (
            e,
            found,
            is_retry mode check e d (match_side_effect_entry-is_match es check e found)
                (ground (arith, n, w, found, h)) a,
          ))
    ]
  ]
]

decide_total :
    (mode : Bytes) (check : SideEffectCheck) (es : List SideEffectEntry) (x : CheckError)
    → All IsValid es
    → decide mode check (match_side_effect_entry es check) ≢ inl x
unfolding decide
decide_total mode check es x v h = elim (Option-cases (match_side_effect_entry es check)) [
  | inl unmatched ↦ ground (arith, unmatched, h)
  | inr (e, found) ↦
      decide_by_policy-IsValid mode check e x
        (match_side_effect_entry-All IsValid es check e v found) (ground (arith, found, h))
]

Result-cases :
    (r : CheckError ⊎ SideEffectDecision)
    → ((x : CheckError) × (r ≡ inl x)) ⊎ ((d : SideEffectDecision) × (r ≡ inr d))
Result-cases (inl x) = inl (x, refl)
Result-cases (inr d) = inr (d, refl)

decide_by_policy-fields :
    (mode : Bytes) (check : SideEffectCheck) (e : SideEffectEntry) (d : SideEffectDecision)
    → decide_by_policy mode check e ≡ inr d
    → (d.replay_mode ≡ mode) × (d.matched_entry ≡ some e)
unfolding decide_by_policy side_effect_decision
decide_by_policy-fields mode check e d h = ground (arith, h)

decide-fields :
    (mode : Bytes) (check : SideEffectCheck) (o : Option SideEffectEntry) (d : SideEffectDecision)
    → decide mode check o ≡ inr d
    → (d.replay_mode ≡ mode) × (d.matched_entry ≡ o)
unfolding decide side_effect_decision
decide-fields mode check none d h = ground (arith, h)
decide-fields mode check (some e) d h = ground (arith, decide_by_policy-fields mode check e d, h)

is_operation :
    (o : Bytes) → (o ≡ read) ⊎ (o ≡ write) → (not (eqb o read) && not (eqb o write)) ≡ false
is_operation o (inl e) = ground (arith, e, eqb_refl read)
is_operation o (inr e) = ground (arith, e, eqb_refl write)

module _ (parse_mode : Bytes → Option Bytes) (parse_entry : Bytes → Option SideEffectEntry)
    (marker ledger : FileRead) (check : SideEffectCheck) where
  -- Where the marker gives a mode other than `normal` and the check allows a write, the ledger was
  -- read, and the first entry in it for the tool, the resource and the key of the check allows a
  -- retry and has the key of the check, which is not empty.
  pub check_side_effect-IsRetryOf :
      (mode : Bytes) (d : SideEffectDecision)
      → replay_mode_of parse_mode marker ≡ some mode
      → mode ≢ normal
      → operation_of check ≢ read
      → check_side_effect parse_mode parse_entry marker ledger check ≡ inr d
      → d.action ≡ allow
      → (es : List SideEffectEntry) × (e : SideEffectEntry) × (read_side_effect_ledger parse_entry
            ledger
          ≡ some es)
        × (match_side_effect_entry es check ≡ some e)
        × IsRetryOf check e
  unfolding check_side_effect
  check_side_effect-IsRetryOf mode d m restored writes h a =
      elim (Option-cases (read_side_effect_ledger parse_entry ledger)) [
        | inl unread ↦ absurd (ground (arith, m, unread, h))
        | inr (es, was_read) ↦
            let decided : decide mode check (match_side_effect_entry es check) ≡ inr d =
              ground (arith, m, was_read, h) in
            elim (decide-allow mode check es d decided a) [
              | inl e ↦ absurd (restored e)
              | inr (inl e) ↦ absurd (writes e)
              | inr (inr (e, found, retry)) ↦ (es, e, was_read, found, retry)
            ]
      ]

  -- Where the operation is a read or a write, the tool and the resource are not blank, and the
  -- marker and the ledger can be read, the check decides, whatever policies the ledger holds; the
  -- decision carries the mode of the marker and the first match of the ledger.
  pub check_side_effect_total :
      (mode : Bytes) (es : List SideEffectEntry)
      → (operation_of check ≡ read) ⊎ (operation_of check ≡ write)
      → eqb (trim_space check.tool) [] ≡ false
      → eqb (trim_space check.external_resource) [] ≡ false
      → replay_mode_of parse_mode marker ≡ some mode
      → read_side_effect_ledger parse_entry ledger ≡ some es
      → (d : SideEffectDecision) × (check_side_effect parse_mode parse_entry marker ledger check
          ≡ inr d)
        × (d.replay_mode ≡ mode)
        × (d.matched_entry ≡ match_side_effect_entry es check)
  unfolding check_side_effect
  check_side_effect_total mode es op tool resource m l =
      elim (Result-cases (decide mode check (match_side_effect_entry es check))) [
        | inl (x, failed) ↦ absurd (
            decide_total mode check es x (read_side_effect_ledger-IsValid parse_entry ledger es l)
              failed)
        | inr (d, decided) ↦
            let fields = decide-fields mode check (match_side_effect_entry es check) d decided in
            (
              d,
              ground (arith, is_operation (operation_of check) op, tool, resource, m, l, decided),
              fields.0,
              fields.1,
            )
      ]
