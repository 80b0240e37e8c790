-- ===== src/Examples/Restore.antt =====
-- A commit of internal/osix/snapshot.go that the process does not finish.
use smol_agent_oci_fs.Base.{ℕ, ◌≡◌, ◌≢◌, ◌⊎◌, refl}
use smol_agent_oci_fs.Restore.{
  whole, Places, at_start, target_moved, committed, Steps, here, next, removes_part, removes, moves,
  half_removed, without_backup, target_to_backup, recover_restore_backup,
}
use smol_agent_oci_fs.Restore.Crash.{IsEither, recover-commit}

abbrev old_version : ℕ
old_version = 1

abbrev new_version : ℕ
new_version = 2

abbrev places_before : Places ℕ
places_before = record { target = whole old_version; backup = whole 0; stage = whole new_version }

abbrev half : Places ℕ
half = record places_before { backup = half_removed (whole 0) }

-- The old backup is removed in two parts, the target is moved, and the process ends.
abbrev broken_off :
    Steps at_start places_before target_moved (target_to_backup (without_backup half))
broken_off =
    next (next (next here (removes_part places_before refl)) (removes half refl))
      (moves (without_backup half))

recover-commit_example :
    IsEither old_version new_version
      (recover_restore_backup (target_to_backup (without_backup half))).target
    × ((target_moved ≢ committed)
        ⊎ ((target_to_backup (without_backup half)).target ≡ whole new_version))
recover-commit_example =
    recover-commit old_version new_version places_before (target_to_backup (without_backup half))
      target_moved refl refl broken_off

recovered_test :
    (recover_restore_backup (target_to_backup (without_backup half))).target ≡ whole old_version
unfolding recover_restore_backup
recovered_test = refl
