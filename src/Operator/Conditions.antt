-- ===== src/Operator/Conditions.antt =====
-- The conditions of a status after the marks of internal/k8soperator/status.go.
use mathlib.Core.Path.{subst}
use mathlib.Core.Option as Option
use smol_agent_oci_fs.Base.{
  ℕ, Bytes, codes, Bool, true, false, if◌then◌else◌, List, [], ◌∷◌, eqb, eqb→eq, Option, none, some,
  ◌≡◌, refl, sym, ap, arith, Bool-cases, inl, inr, All,
}
use smol_agent_oci_fs.Operator.Status.{
  Condition, Status, replace_condition, stamp, set_condition, mark_snapshot_result, find_condition,
  HasUniqueKinds,
}

-- The text of a condition's status, if there is one of the type.
abbrev pub status_of : Bytes → Status → Option Bytes
status_of k s = Option.map (λ (c : Condition). c.status) (find_condition k s.conditions)

abbrev pub is_error : Option Bytes → Bool
is_error none = false
is_error (some e) = true

find_condition-replace_condition :
    (k : Bytes) (c : Condition) (ds : List Condition)
    → find_condition k (replace_condition c ds)
      ≡ (if eqb c.kind k then some c else find_condition k ds)
unfolding find_condition replace_condition
find_condition-replace_condition k c [] = refl
find_condition-replace_condition k c (d ∷ ds) = elim (Bool-cases (eqb d.kind c.kind)) [
  | inl same ↦
      let e : eqb d.kind k ≡ eqb c.kind k = ap (λ x. eqb x k) (eqb→eq d.kind c.kind same) in
      ground (arith, same, e)
  | inr other ↦ elim (Bool-cases (eqb c.kind k)) [
    | inl y ↦
        let e : eqb d.kind k ≡ eqb d.kind c.kind = ap (eqb d.kind) (sym (eqb→eq c.kind k y)) in
        ground (arith, other, y, e, find_condition-replace_condition k c ds)
    | inr n ↦ ground (arith, other, n, find_condition-replace_condition k c ds)
  ]
]

replace_condition-All :
    (P : Condition → Type 0) (c : Condition) (ds : List Condition)
    → P c
    → All P ds
    → All P (replace_condition c ds)
unfolding replace_condition
replace_condition-All P c [] h a = (h, tt)
replace_condition-All P c (d ∷ ds) h a = elim (Bool-cases (eqb d.kind c.kind)) [
  | inl same ↦ rw same (h, a.1)
  | inr other ↦ rw other (a.0, replace_condition-All P c ds h a.1)
]

replace_condition-HasUniqueKinds :
    (c : Condition) (ds : List Condition)
    → HasUniqueKinds ds
    → HasUniqueKinds (replace_condition c ds)
unfolding replace_condition
replace_condition-HasUniqueKinds c [] u = (tt, tt)
replace_condition-HasUniqueKinds c (d ∷ ds) u = elim (Bool-cases (eqb d.kind c.kind)) [
  | inl same ↦
      rw same (subst (λ k. All (λ x. eqb k x.kind ≡ false) ds) (eqb→eq d.kind c.kind same) u.0, u.1)
  | inr other ↦ rw other (
    replace_condition-All (λ x. eqb d.kind x.kind ≡ false) c ds other u.0,
    replace_condition-HasUniqueKinds c ds u.1,
  )
]

module _ (now : ℕ) where
  set_condition-HasUniqueKinds :
      (s : Status) (c : Condition)
      → HasUniqueKinds s.conditions
      → HasUniqueKinds (set_condition now s c).conditions
  unfolding set_condition
  set_condition-HasUniqueKinds s c u = replace_condition-HasUniqueKinds (stamp now c) s.conditions u

  find_condition-set_condition :
      (k : Bytes) (s : Status) (c : Condition)
      → find_condition k (set_condition now s c).conditions
        ≡ (if eqb c.kind k then some (stamp now c) else find_condition k s.conditions)
  unfolding set_condition
  find_condition-set_condition k s c = find_condition-replace_condition k (stamp now c) s.conditions

  -- A result leaves one condition of each type, if there was one before.
  pub mark_snapshot_result-HasUniqueKinds :
      (s : Status) (snapshot checkpoint : Bytes) (error : Option Bytes)
      → HasUniqueKinds s.conditions
      → HasUniqueKinds (mark_snapshot_result now s snapshot checkpoint error).conditions
  unfolding mark_snapshot_result
  mark_snapshot_result-HasUniqueKinds s snapshot checkpoint (some error) u =
      set_condition-HasUniqueKinds _ _ (set_condition-HasUniqueKinds _ _ u)
  mark_snapshot_result-HasUniqueKinds s snapshot checkpoint none u =
      elim (Bool-cases (eqb checkpoint [])) [
        | inl y ↦ rw y (set_condition-HasUniqueKinds _ _ (set_condition-HasUniqueKinds _ _ u))
        | inr n ↦ rw n (
            set_condition-HasUniqueKinds _ _
              (set_condition-HasUniqueKinds _ _ (set_condition-HasUniqueKinds _ _ u)))
      ]

  -- After a result the condition `SnapshotFailed` tells whether there was an error, the condition
  -- `Snapshotting` is false, and a condition of another type than these and `Checkpointed` is as
  -- it was.
  pub mark_snapshot_result_reported :
      (s : Status) (snapshot checkpoint : Bytes) (error : Option Bytes) (k : Bytes)
      → eqb (codes "SnapshotFailed") k ≡ false
      → eqb (codes "Snapshotting") k ≡ false
      → eqb (codes "Checkpointed") k ≡ false
      → (status_of (codes "SnapshotFailed") (mark_snapshot_result now s snapshot checkpoint error)
          ≡ some (if is_error error then codes "True" else codes "False"))
        × (status_of (codes "Snapshotting") (mark_snapshot_result now s snapshot checkpoint error)
            ≡ some (codes "False"))
        × (find_condition k (mark_snapshot_result now s snapshot checkpoint error).conditions
            ≡ find_condition k s.conditions)
  unfolding mark_snapshot_result eqb
  mark_snapshot_result_reported s snapshot checkpoint (some error) k f g h =
      let at = find_condition-set_condition in (simp (at), simp (at), simp (at, f, g))
  mark_snapshot_result_reported s snapshot checkpoint none k f g h =
      let at = find_condition-set_condition in
      elim (Bool-cases (eqb checkpoint [])) [
        | inl y ↦ rw y (simp (at), simp (at), simp (at, f, g))
        | inr n ↦ rw n (simp (at), simp (at), simp (at, f, g, h))
      ]
