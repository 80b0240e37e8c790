-- ===== src/Store/Atomic.antt =====
-- The transaction on references of internal/osix/store.go leaves all of them or none changed.
use mathlib.Core.Path.{subst}
use smol_agent_oci_fs.Base.{
  ℕ, suc, Bytes, Bool, true, false, List, [], ◌∷◌, ◌++◌, codes, eqb, eqb→eq, elem, any, All, insert,
  trim_space, Bool-cases, Option, some, ◌≡◌, ◌≢◌, ◌⊎◌, inl, inr, refl, ap, arith,
}
use smol_agent_oci_fs.Store.Refs.{
  RefUpdate, Refs, set_ref, SavedRef, RefError, prepare, safe_ref_name, Outcome, written, rejected,
  rolled_back, rollback, commit, write_refs_if_expected,
}

-- The items saved what the references had at first.
abbrev AreSaved : Refs → List SavedRef → Type 0
AreSaved refs items = All (λ i. i.saved ≡ refs i.path) items

saved_paths : List SavedRef → List Bytes
saved_paths [] = []
saved_paths (i ∷ items) = i.path ∷ saved_paths items

-- The references are as at first, except at the paths of the items.
abbrev AgreesOff : Refs → Refs → List SavedRef → Type 0
AgreesOff first refs items = (q : Bytes) → elem q (saved_paths items) ≡ false → refs q ≡ first q

-- Neither all written nor some files not put back.
abbrev pub IsUndone : Outcome → Type 0
IsUndone o = (o ≢ written) × (o ≢ rolled_back false)

undone_rolled : (ok : Bool) → IsUndone (rolled_back ok) → ok ≡ true
undone_rolled true h = refl
undone_rolled false h = absurd (h.1 refl)

Prepared-cases :
    (r : RefError ⊎ List SavedRef)
    → ((e : RefError) × (r ≡ inl e)) ⊎ ((items : List SavedRef) × (r ≡ inr items))
Prepared-cases (inl e) = inl (e, refl)
Prepared-cases (inr items) = inr (items, refl)

module _ (first : Refs) where
  set_ref-AgreesOff :
      (refs : Refs) (i : SavedRef) (done : List SavedRef) (file : Option Bytes)
      → AgreesOff first refs done
      → AgreesOff first (set_ref refs i.path file) (i ∷ done)
  unfolding saved_paths elem any set_ref
  set_ref-AgreesOff refs i done file agree q off = ground (arith, agree q, off)

  put_back-AgreesOff :
      (refs : Refs) (i : SavedRef) (done : List SavedRef)
      → i.saved ≡ first i.path
      → AgreesOff first refs (i ∷ done)
      → AgreesOff first (set_ref refs i.path i.saved) done
  unfolding saved_paths elem any set_ref
  put_back-AgreesOff refs i done saved agree q off = elim (Bool-cases (eqb q i.path)) [
    | inl same ↦ ground (arith, same, saved, ap first (eqb→eq q i.path same))
    | inr other ↦ ground (arith, other, agree q, off)
  ]

  module _ (can_restore : Bytes → Bool) (left : Bytes → Option Bytes) where
    rollback-AgreesOff :
        (refs : Refs) (done : List SavedRef)
        → AreSaved first done
        → AgreesOff first refs done
        → (rollback can_restore left refs done).0 ≡ true
        → (q : Bytes) → (rollback can_restore left refs done).1 q ≡ first q
    unfolding rollback saved_paths elem any
    rollback-AgreesOff refs [] saved agree ok q = agree q refl
    rollback-AgreesOff refs (i ∷ done) saved agree ok q = elim (Bool-cases (can_restore i.path)) [
      | inl y ↦ rw y (
          rollback-AgreesOff (set_ref refs i.path i.saved) done saved.1
            (put_back-AgreesOff refs i done saved.0 agree) (rw y at ok) q)
      | inr n ↦ absurd (ground (arith, n, ok))
    ]

    module _ (can_rename : ℕ → Bool) where
      commit-restores :
          (k : ℕ) (refs : Refs) (done todo : List SavedRef)
          → AreSaved first done
          → AreSaved first todo
          → AgreesOff first refs done
          → IsUndone (commit can_rename can_restore left k refs done todo).0
          → (q : Bytes) → (commit can_rename can_restore left k refs done todo).1 q ≡ first q
      unfolding commit
      commit-restores k refs done [] was will agree undone q = absurd (undone.0 refl)
      commit-restores k refs done (i ∷ todo) was will agree undone q =
          elim (Bool-cases (can_rename k)) [
            | inl y ↦ rw y (
                commit-restores (suc k) (set_ref refs i.path (some i.next)) (i ∷ done) todo
                  (will.0, was) will.1 (set_ref-AgreesOff refs i done (some i.next) agree)
                  (rw y at undone) q)
            | inr n ↦ rw n (
                rollback-AgreesOff refs done was agree
                  (undone_rolled (rollback can_restore left refs done).0 (rw n at undone)) q)
          ]

prepare-AreSaved :
    (can_read can_stage : ℕ → Bool) (k : ℕ) (refs : Refs) (paths : List (Bytes × Bytes))
    (us : List RefUpdate) (items : List SavedRef)
    → prepare can_read can_stage k refs paths us ≡ inr items
    → AreSaved refs items
unfolding prepare
prepare-AreSaved can_read can_stage k refs paths [] items h =
    let same : [] ≡ items = cc in subst (AreSaved refs) same tt
prepare-AreSaved can_read can_stage k refs paths (u ∷ us) items h =
    elim (Bool-cases (eqb (trim_space u.name) [])) [
      | inl blank ↦ prepare-AreSaved can_read can_stage (suc k) refs paths us items (rw blank at h)
      | inr named ↦
          let path = safe_ref_name u.name in
          elim (Prepared-cases
            (prepare can_read can_stage (suc k) refs (insert path u.name paths) us)) [
              | inl (e, bad) ↦ absurd (ground (arith, named, bad, h))
              | inr (rest, good) ↦
                  let item : SavedRef = record {
                    path = path;
                    saved = refs path;
                    next = u.digest ++ codes "\n";
                  } in
                  let same : item ∷ rest ≡ items = ground (arith, named, good, h) in
                  subst (AreSaved refs) same (
                    refl,
                    prepare-AreSaved can_read can_stage (suc k) refs (insert path u.name paths) us
                        rest good,
                  )
            ]
    ]

module _ (can_rename : ℕ → Bool) (can_restore : Bytes → Bool) (left : Bytes → Option Bytes)
    (can_read can_stage : ℕ → Bool) (refs : Refs) (updates : List RefUpdate) where
  write_rejected :
      (e : RefError)
      → prepare can_read can_stage 0 refs [] updates ≡ inl e
      → write_refs_if_expected can_rename can_restore left can_read can_stage refs updates
        ≡ (rejected e, refs)
  unfolding write_refs_if_expected
  write_rejected e h = ground (arith, h)

  write_prepared :
      (items : List SavedRef)
      → prepare can_read can_stage 0 refs [] updates ≡ inr items
      → write_refs_if_expected can_rename can_restore left can_read can_stage refs updates
        ≡ commit can_rename can_restore left 0 refs [] items
  unfolding write_refs_if_expected
  write_prepared items h = ground (arith, h)

  -- Whatever calls fail, and whatever conflict or bad update is found: if a transaction does not
  -- write all of its references, and does not report that a file could not be put back, then
  -- every reference is as it was before.
  pub write_refs_if_expected_atomic :
      IsUndone
        (write_refs_if_expected can_rename can_restore left can_read can_stage refs updates).0
      → (q : Bytes)
      → (write_refs_if_expected can_rename can_restore left can_read can_stage refs updates).1 q
        ≡ refs q
  write_refs_if_expected_atomic undone q =
      elim (Prepared-cases (prepare can_read can_stage 0 refs [] updates)) [
        | inl (e, bad) ↦ rw (write_rejected e bad)
        | inr (items, good) ↦
            let same = write_prepared items good in
            rw same (
              commit-restores refs can_restore left can_rename 0 refs [] items tt
                (prepare-AreSaved can_read can_stage 0 refs [] updates items good) (λ p off. refl)
                (rw same at undone) q)
      ]
