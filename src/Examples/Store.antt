-- ===== src/Examples/Store.antt =====
-- A transaction of internal/osix/store.go whose second rename fails.
use smol_agent_oci_fs.Base.{
  ℕ, Bytes, codes, ◌==◌, Bool, true, List, [], ◌∷◌, Option, none, some, ◌≡◌, refl, eqb,
  if◌then◌else◌, lookup, insert, trim_space, trim_left, trim_prefix, has_prefix,
}
use smol_agent_oci_fs.Store.Refs.{
  RefUpdate, Refs, set_ref, prepare, replace_separators, safe_ref_name, all_hex, is_digest,
  is_conflict, is_taken, Outcome, rolled_back, rollback, commit, write_refs_if_expected,
}
use smol_agent_oci_fs.Store.Atomic.{IsUndone, write_refs_if_expected_atomic}

abbrev some_digest : Bytes
some_digest = codes "sha256:00112233445566778899aabbccddeeff00112233445566778899aabbccddeeff"

abbrev two_updates : List RefUpdate
two_updates =
    record { name = codes "team/main"; digest = some_digest; expected = [] }
    ∷ record { name = codes "dev"; digest = some_digest; expected = codes "old" }
    ∷ []

abbrev old_refs : Refs
old_refs = λ q. if eqb q (codes "dev") then some (codes "old") else none

abbrev first_only : ℕ → Bool
first_only k = k == 0

abbrev always {ℓ} : {A : Type ℓ} → A → Bool
always x = true

abbrev nothing_left : Bytes → Option Bytes
nothing_left q = none

safe_ref_name_test : safe_ref_name (codes " :team/main") ≡ codes "team__main"
unfolding safe_ref_name replace_separators trim_space trim_left trim_prefix has_prefix
safe_ref_name_test = refl

undone_test :
    (write_refs_if_expected first_only always nothing_left always always old_refs two_updates).0
    ≡ rolled_back true
unfolding write_refs_if_expected commit rollback prepare is_conflict is_taken is_digest all_hex
    safe_ref_name replace_separators trim_space trim_left trim_prefix has_prefix eqb lookup insert
    set_ref
undone_test = refl

rolled_back-IsUndone : (o : Outcome) → o ≡ rolled_back true → IsUndone o
rolled_back-IsUndone o e = (λ h. cc, λ h. cc)

write_refs_if_expected_atomic_example :
    (write_refs_if_expected first_only always nothing_left always always old_refs two_updates).1
      (codes "team__main")
    ≡ old_refs (codes "team__main")
write_refs_if_expected_atomic_example =
    write_refs_if_expected_atomic first_only always nothing_left always always old_refs two_updates
      (rolled_back-IsUndone
        (write_refs_if_expected first_only always nothing_left always always old_refs two_updates).0
        undone_test)
      (codes "team__main")
