-- ===== src/Restore/Crash.antt =====
-- Whatever fails and wherever the process ends, a restore of internal/osix/snapshot.go leaves the old
-- directory or the new one, whole.
use smol_agent_oci_fs.Base.{◌≡◌, ◌≢◌, ◌⊎◌, inl, inr, refl, arith}
use smol_agent_oci_fs.Restore.{
  Place, missing, whole, Places, Point, at_start, backup_removed, target_moved, stage_placed,
  placing_failed, committed, failed, Step, lstat_fails, places_new, places_new_fails, removes_part,
  removes, removes_fails, moves, moves_fails, places, places_fails, rolls_back, rolls_back_fails,
  cleans_part, cleans, cleans_fails, Steps, here, next, recover_restore_backup,
}

module _ {ℓ} {T : Type ℓ} (old new : T) where
  -- What holds at each point: the old target stands, or it is the backup, or the new one stands.
  abbrev OldStands : Places T → Type ℓ
  OldStands s = (s.target ≡ whole old) × (s.stage ≡ whole new)

  abbrev OldIsBackup : Places T → Type ℓ
  OldIsBackup s = (s.target ≡ missing) × (s.backup ≡ whole old) × (s.stage ≡ whole new)

  abbrev NewStands : Places T → Type ℓ
  NewStands s = s.target ≡ whole new

  abbrev Holds : Point → Places T → Type ℓ
  Holds at_start s = OldStands s
  Holds backup_removed s = OldStands s
  Holds target_moved s = OldIsBackup s
  Holds placing_failed s = OldIsBackup s
  Holds stage_placed s = NewStands s
  Holds committed s = NewStands s
  Holds failed s =
      (s.target ≡ whole old) ⊎ ((s.target ≡ missing) × (s.backup ≡ whole old)) ⊎ NewStands s

  Step-Holds : {p q : Point} {s t : Places T} → Step p s q t → Holds p s → Holds q t
  Step-Holds (lstat_fails s) h = inl (h.0)
  Step-Holds (places_new s free) h = absurd (ground (arith, free, h))
  Step-Holds (places_new_fails s free) h = inl (h.0)
  Step-Holds (removes_part s there) h = h
  Step-Holds (removes s there) h = h
  Step-Holds (removes_fails s there) h = inl (h.0)
  Step-Holds (moves s) h = (refl, h.0, h.1)
  Step-Holds (moves_fails s) h = inl (h.0)
  Step-Holds (places s) h = h.2
  Step-Holds (places_fails s) h = h
  Step-Holds (rolls_back s) h = inl (h.1)
  Step-Holds (rolls_back_fails s) h = inr (inl (h.0, h.1))
  Step-Holds (cleans_part s) h = h
  Step-Holds (cleans s) h = h
  Step-Holds (cleans_fails s) h = inr (inr h)

  Steps-Holds :
      {p : Point} {s : Places T} {q : Point} {t : Places T} → Holds p s → Steps p s q t → Holds q t
  Steps-Holds h here = h
  Steps-Holds h (next r s) = Step-Holds s (Steps-Holds h r)

  -- The old directory or the new one, as it was made.
  abbrev pub IsEither : Place T → Type ℓ
  IsEither d = (d ≡ whole old) ⊎ (d ≡ whole new)

  target_stays : (s : Places T) → IsEither s.target → IsEither (recover_restore_backup s).target
  unfolding recover_restore_backup
  target_stays s (inl e) = inl (ground (arith, e))
  target_stays s (inr e) = inr (ground (arith, e))

  backup_returns :
      (s : Places T)
      → s.target ≡ missing
      → s.backup ≡ whole old
      → (recover_restore_backup s).target ≡ whole old
  unfolding recover_restore_backup
  backup_returns s e f = ground (arith, e, f)

  Holds-recovered :
      (p : Point) (s : Places T) → Holds p s → IsEither (recover_restore_backup s).target
  Holds-recovered at_start s h = target_stays s (inl (h.0))
  Holds-recovered backup_removed s h = target_stays s (inl (h.0))
  Holds-recovered target_moved s h = inl (backup_returns s h.0 h.1)
  Holds-recovered placing_failed s h = inl (backup_returns s h.0 h.1)
  Holds-recovered stage_placed s h = target_stays s (inr h)
  Holds-recovered committed s h = target_stays s (inr h)
  Holds-recovered failed s (inl e) = target_stays s (inl e)
  Holds-recovered failed s (inr (inl h)) = inl (backup_returns s h.0 h.1)
  Holds-recovered failed s (inr (inr e)) = target_stays s (inr e)

  committed_new : (p : Point) (s : Places T) → Holds p s → (p ≢ committed) ⊎ (s.target ≡ whole new)
  committed_new committed s h = inr h
  committed_new at_start s h = inl (λ e. cc)
  committed_new backup_removed s h = inl (λ e. cc)
  committed_new target_moved s h = inl (λ e. cc)
  committed_new placing_failed s h = inl (λ e. cc)
  committed_new stage_placed s h = inl (λ e. cc)
  committed_new failed s h = inl (λ e. cc)

  -- From a whole target and a whole stage, whatever backup an earlier run left and wherever the
  -- commit stands, the recovery gives the old or the new directory, whole; and the new one
  -- is in place once the commit returns without an error.
  pub recover-commit :
      (s t : Places T) (p : Point)
      → s.target ≡ whole old
      → s.stage ≡ whole new
      → Steps at_start s p t
      → IsEither (recover_restore_backup t).target × ((p ≢ committed) ⊎ (t.target ≡ whole new))
  recover-commit s t p h k r =
      let holds = Steps-Holds (h, k) r in (Holds-recovered p t holds, committed_new p t holds)
