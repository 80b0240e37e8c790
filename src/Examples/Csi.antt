-- ===== src/Examples/Csi.antt =====
-- The functions of internal/csinode at inputs.
use native.Mathlib.Decide.{ℕ_discrete}
use smol_agent_oci_fs.Base.{
  ℕ, Bytes, codes, Bool, Option, if◌then◌else◌, ap, sym, ◌∙◌, ◌⊎◌, inl, inr, true, false, [], ◌∷◌,
  none, some, ◌≡◌, refl, arith, All, eqb, trim_space, trim_left,
}
use smol_agent_oci_fs.Base.Decimal.{pos}
use smol_agent_oci_fs.Operator.Types.{SnapshotPolicy, normalize_file_system, is_valid_file_system}
use smol_agent_oci_fs.Operator.Context.{Context, csi_volume_context}
use smol_agent_oci_fs.Csi.Volume.{volume_context}
use smol_agent_oci_fs.Csi.RoundTrip.{AreTrimmed, PolicyTravels, sent_policy}
use smol_agent_oci_fs.Csi.Sent.{sent_file_system, volume_context-csi_volume_context}
use smol_agent_oci_fs.Csi.Records.{
  MountRecord, Files, Faults, replace_separators, safe_file_name, record_path, read_mount_record,
  write_mount_record, write_record_file, unpublish, run_call, run_calls, with_slash, with_colon,
  unpublish_other_volume,
}
use smol_agent_oci_fs.Csi.Records.Writes.{IsStamped, read_mount_record-write}
use smol_agent_oci_fs.Csi.Workers.{
  Thread, begin, start, finish, ended, stopped, reconcile, new_worker_manager, starts, finishes,
  Reach, here, next,
}
use smol_agent_oci_fs.Csi.Workers.Single.{Reach_single}
use smol_agent_oci_fs.Csi.Workers.Reconcile.{IsServed, IsStopped}
use smol_agent_oci_fs.Csi.Workers.Pass.{Rounds, reconcile_settles}
use smol_agent_oci_fs.Csi.Workers.Backoff.{
  wait, waits_from, waits, failed, taken, IsBounded, waits-IsBounded,
}
use smol_agent_oci_fs.Examples.Operator.{demo}

abbrev pub often : SnapshotPolicy
often = record {
  every = codes "5m";
  max_dirty_bytes = codes "64MiB";
  on_turn_boundary = true;
  push = false;
  compact_every = pos 12;
  squash_every = pos 0;
  checkpoint_tag_prefix = [];
  keep_snapshots = codes "base" ∷ [];
  preserve_signed = false;
  prune_local = true;
  prune_remote = false;
}

demo-AreTrimmed : AreTrimmed (normalize_file_system demo)
unfolding normalize_file_system trim_space trim_left eqb
demo-AreTrimmed = record {
  name = refl;
  namespace = refl;
  uid = refl;
  base_image = refl;
  state_ref = refl;
  branch = refl;
  source_ref = refl;
  mount_mode = refl;
  registry = refl;
  recipients = refl;
  signer = refl;
  attestation = refl;
}

often-PolicyTravels : PolicyTravels often
unfolding trim_space trim_left
often-PolicyTravels = record {
  every = refl;
  max_dirty = refl;
  prefix = refl;
  compact = omega arith;
  squash = omega arith;
}

demo_valid : is_valid_file_system (normalize_file_system demo) ≡ true
unfolding is_valid_file_system normalize_file_system trim_space trim_left eqb
demo_valid = refl

volume_context-csi_volume_context_example :
    (context : Context) × (csi_volume_context demo (some often) false ≡ some context)
    × (volume_context context
        ≡ some (sent_file_system (normalize_file_system demo), sent_policy often, true))
volume_context-csi_volume_context_example =
    volume_context-csi_volume_context demo often false demo-AreTrimmed often-PolicyTravels
      demo_valid

abbrev record_of : Bytes → MountRecord
record_of id = record {
  volume_id = id;
  target_path = codes "/mnt";
  workspace_path = codes "/ws";
  file_system = demo;
  policy = none;
  auto_snapshot = true;
  read_only = false;
  published_at = 0;
  updated_at = 0;
}

abbrev no_files : Files
no_files q = none

abbrev no_faults : Faults
no_faults = record {
  mkdir_fails = false;
  write_leaves = none;
  rename_fails = false;
  remove_fails = false;
}

MountRecord-discrete : Discrete MountRecord
MountRecord-discrete = hlevel (ℕ_discrete)

abbrev slashed : MountRecord
slashed = record_of (codes "a/b")

abbrev stored : MountRecord
stored = record slashed { published_at = 9; updated_at = 9 }

-- A form for one record.
abbrev slashed_form : (r : MountRecord) → Dec (r ≡ stored) → Option Bytes
slashed_form r (yes e) = some (codes "a/b at 9")
slashed_form r (no n) = none

abbrev form : MountRecord → Option Bytes
form r = slashed_form r (MountRecord-discrete r stored)

abbrev unform : Bytes → Option MountRecord
unform content = if eqb content (codes "a/b at 9") then some stored else none

unform-form : (r : MountRecord) (content : Bytes) → form r ≡ some content → unform content ≡ some r
unform-form r content h = go (MountRecord-discrete r stored) h
  where
    go : (d : Dec (r ≡ stored)) → slashed_form r d ≡ some content → unform content ≡ some r
    go (yes e) k =
        let same : codes "a/b at 9" ≡ content = ground (arith, k) in
        ap unform (sym same) ∙ (unfold eqb in ap some (sym e))
    go (no n) k = absurd (cc)

abbrev slashed_written : Files × Bool
slashed_written = write_mount_record form unform no_faults 9 no_files slashed

written_test : slashed_written.1 ≡ true
unfolding write_mount_record write_record_file eqb
written_test = go (MountRecord-discrete stored stored)
  where
    go :
        (d : Dec (stored ≡ stored))
        → (write_record_file no_faults no_files
            (record_path slashed.volume_id)
            (slashed_form stored d)).1
          ≡ true
    go (yes e) = refl
    go (no n) = absurd (n refl)

read_mount_record-write_example :
    ((slashed_written.1 ≡ false)
      × ((v : Bytes)
          → read_mount_record form unform slashed_written.0 v
            ≡ read_mount_record form unform no_files v))
    ⊎ ((slashed_written.1 ≡ true)
        × ((q : MountRecord) × (read_mount_record form unform
                (run_calls form unform slashed_written.0 ((no_faults, unpublish (codes "v2")) ∷ []))
                (codes "a/b")
              ≡ some q)
            × IsStamped form unform 9 slashed q))
unfolding record_path safe_file_name replace_separators trim_space trim_left eqb
read_mount_record-write_example =
    read_mount_record-write form unform unform-form no_faults 9 no_files slashed
      ((no_faults, unpublish (codes "v2")) ∷ []) (refl, tt)

unpublish_other_volume_example :
    read_mount_record form unform
      (run_call form unform slashed_written.0
        (no_faults, unpublish (with_colon (codes "a") (codes "b"))))
      (with_slash (codes "a") (codes "b"))
    ≡ none
unpublish_other_volume_example =
    unpublish_other_volume form unform no_faults slashed_written.0 (codes "a") (codes "b")
      (refl, tt) (refl, tt) refl

abbrev vol : Bytes
vol = codes "v1"

abbrev thread : Thread
thread = record { volume = vol; cancelled = false }

-- A worker is started, ends, and is started again.
abbrev one_run : Reach new_worker_manager (start new_worker_manager vol)
one_run = next here (starts new_worker_manager vol)

thread_there : (start new_worker_manager vol).threads 0 ≡ some thread
unfolding start begin
thread_there = refl

restarted : Reach new_worker_manager (start (finish (start new_worker_manager vol) vol 0) vol)
restarted =
    next (next one_run (finishes (start new_worker_manager vol) 0 thread thread_there))
      (starts (finish (start new_worker_manager vol) vol 0) vol)

second_there : (start (finish (start new_worker_manager vol) vol 0) vol).threads 1 ≡ some thread
unfolding start begin finish eqb
second_there = refl

abbrev second_handle : ℕ
second_handle = 1

Reach_single_example :
    (second_handle ≡ second_handle)
    × ((start (finish (start new_worker_manager vol) vol 0) vol).done second_handle ≡ false)
Reach_single_example =
    Reach_single restarted second_handle second_handle thread thread second_there second_there refl

-- While the records are read, the worker of another volume ends and a third is stopped.
abbrev rounds : Rounds
rounds = (ended (codes "v2") ∷ [], record_of vol) ∷ []

reconcile_settles_example :
    Reach
      (start new_worker_manager (codes "v2"))
      (reconcile (start new_worker_manager (codes "v2")) rounds (stopped (codes "v3") ∷ []))
    × IsServed
        (reconcile (start new_worker_manager (codes "v2")) rounds (stopped (codes "v3") ∷ []))
        vol
    × IsStopped
        (reconcile (start new_worker_manager (codes "v2")) rounds (stopped (codes "v3") ∷ []))
        (codes "v2")
unfolding eqb start begin
reconcile_settles_example =
    reconcile_settles (start new_worker_manager (codes "v2")) [] [] (ended (codes "v2") ∷ [])
      (stopped (codes "v3") ∷ []) (record_of vol) (codes "v2")
      (next here (starts new_worker_manager (codes "v2"))) refl refl (((refl, tt), inr refl), tt)
      (refl, tt) (inl refl) (refl, tt)

waits-IsBounded_example :
    All (IsBounded 10000000) (waits 10000000 (failed ∷ failed ∷ taken ∷ failed ∷ []))
waits-IsBounded_example = waits-IsBounded 10000000 (failed ∷ failed ∷ taken ∷ failed ∷ [])

-- After a snapshot the least backoff of a second is gone.
waits_test :
    waits 10000000 (failed ∷ failed ∷ taken ∷ failed ∷ [])
    ≡ 1000000000 ∷ 2000000000 ∷ 10000000 ∷ 10000000 ∷ []
unfolding waits waits_from wait
waits_test = refl
