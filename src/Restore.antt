-- ===== src/Restore.antt =====
-- The last part of `Restore` of internal/osix/snapshot.go: `commitRestoreTarget`, which puts the stage in
-- the place of the target, and `recoverRestoreBackup`, which runs before the next restore. A call of
-- the operating system can fail, and the process can end between any two calls.
pub mod Crash
use smol_agent_oci_fs.Base.{Bool, true, false, if◌then◌else◌, ◌≡◌}

-- A directory: not there, as it was made, or with a part of it removed.
pub data Place {ℓ} (T : Type ℓ) : Type ℓ where
  missing : Place T
  whole : T → Place T
  partial : Place T

abbrev pub is_missing {ℓ} : {T : Type ℓ} → Place T → Bool
is_missing missing = true
is_missing (whole t) = false
is_missing partial = false

pub record Places {ℓ} (T : Type ℓ) : Type ℓ where
  pub target : Place T
  pub backup : Place T
  pub stage : Place T

-- Where `commitRestoreTarget` stands: at its start, with the old backup removed, with the target
-- moved away, with the stage in its place, or with the second rename failed; then its end.
pub data Point : Type 0 where
  at_start backup_removed target_moved stage_placed placing_failed : Point
  committed failed : Point

module _ {ℓ} {T : Type ℓ} where
  abbrev pub without_backup : Places T → Places T
  without_backup s = record s { backup = missing }

  -- `renameRestorePath(target, backup)`
  abbrev pub target_to_backup : Places T → Places T
  target_to_backup s = record s { backup = s.target; target = missing }

  -- `renameRestorePath(stage, target)`
  abbrev pub stage_to_target : Places T → Places T
  stage_to_target s = record s { target = s.stage; stage = missing }

  -- `os.Rename(backup, target)`
  abbrev pub backup_to_target : Places T → Places T
  backup_to_target s = record s { target = s.backup; backup = missing }

  abbrev pub half_removed : Place T → Place T
  half_removed missing = missing
  half_removed (whole t) = partial
  half_removed partial = partial

  -- One step of `commitRestoreTarget`, from its point and the three directories.
  pub data Step : Point → Places T → Point → Places T → Type ℓ where
    -- os.Lstat of the target fails
    lstat_fails : (s : Places T) → Step at_start s failed s
    -- there is no target
    places_new :
        (s : Places T) → is_missing s.target ≡ true → Step at_start s committed (stage_to_target s)
    places_new_fails : (s : Places T) → is_missing s.target ≡ true → Step at_start s failed s
    -- the first removeRestoreTree(backup), which may remove a part and go on or fail
    removes_part :
        (s : Places T)
        → is_missing s.target ≡ false
        → Step at_start s at_start (record s { backup = half_removed s.backup })
    removes :
        (s : Places T)
        → is_missing s.target ≡ false
        → Step at_start s backup_removed (without_backup s)
    removes_fails : (s : Places T) → is_missing s.target ≡ false → Step at_start s failed s
    moves : (s : Places T) → Step backup_removed s target_moved (target_to_backup s)
    moves_fails : (s : Places T) → Step backup_removed s failed s
    places : (s : Places T) → Step target_moved s stage_placed (stage_to_target s)
    places_fails : (s : Places T) → Step target_moved s placing_failed s
    rolls_back : (s : Places T) → Step placing_failed s failed (backup_to_target s)
    rolls_back_fails : (s : Places T) → Step placing_failed s failed s
    -- the last removeRestoreTree(backup)
    cleans_part :
        (s : Places T)
        → Step stage_placed s stage_placed (record s { backup = half_removed s.backup })
    cleans : (s : Places T) → Step stage_placed s committed (without_backup s)
    cleans_fails : (s : Places T) → Step stage_placed s failed s

  pub data Steps (p : Point) (s : Places T) : Point → Places T → Type ℓ where
    here : Steps p s p s
    next : {q r : Point} {t u : Places T} → Steps p s q t → Step q t r u → Steps p s r u

  -- `recoverRestoreBackup`, where its calls succeed.
  unfoldable pub recover_restore_backup : Places T → Places T
  recover_restore_backup s =
      if is_missing s.backup
      then s
      else if is_missing s.target
      then backup_to_target s
      else without_backup s
