-- ===== src/Csi/Workers.antt =====
-- The workers that take snapshots by themselves: `WorkerManager` of internal/csinode/worker.go.
-- Each part of a method that holds the lock of the manager is one step on the state; the loop of a
-- worker is its thread, which ends at any time by `finish`.
pub mod Single
pub mod Reconcile
pub mod Pass
pub mod Backoff
use smol_agent_oci_fs.Base.{
  ℕ, ◌+◌, Bytes, Bool, true, false, not, ◌&&◌, ◌||◌, ◌==◌, if◌then◌else◌, List, [], ◌∷◌, eqb, elem,
  Option, none, some, ◌≡◌,
}
use smol_agent_oci_fs.Csi.Records.{MountRecord}

-- The goroutine of a handle, while it runs: its volume and whether its context is cancelled.
pub record Thread : Type 0 where
  pub volume : Bytes
  pub cancelled : Bool

-- `workers` of the manager, the threads that run, the handles whose channel `done` is closed, and
-- the next new handle.
pub record Manager : Type 0 where
  pub workers : Bytes → Option ℕ
  pub threads : ℕ → Option Thread
  pub done : ℕ → Bool
  pub next : ℕ

-- The worker that `start` makes.
unfoldable pub begin : Manager → Bytes → Manager
begin m v = record m {
  workers = λ q. if eqb q v then some m.next else m.workers q;
  threads =
      λ h. if h == m.next then some (record { volume = v; cancelled = false }) else m.threads h;
  next = m.next + 1;
}

unfoldable pub start : Manager → Bytes → Manager
unfolding begin
start m v = elim (m.workers v) [ some h ↦ m | none ↦ begin m v ]

abbrev pub cancel : Option Thread → Option Thread
cancel none = none
cancel (some t) = some (record t { cancelled = true })

abbrev pub cancel_where : (Thread → Bool) → Option Thread → Option Thread
cancel_where test none = none
cancel_where test (some t) = if test t then cancel (some t) else some t

unfoldable pub stop : Manager → Bytes → Manager
stop m v = elim (m.workers v) [
  | none ↦ m
  | some w ↦ record m { threads = λ h. if h == w then cancel (m.threads h) else m.threads h }
]

-- `m.workers[volumeID] == worker`
abbrev pub is_worker : Option ℕ → ℕ → Bool
is_worker none h = false
is_worker (some w) h = w == h

unfoldable pub finish : Manager → Bytes → ℕ → Manager
finish m v h = record m {
  workers = λ q. if eqb q v && is_worker (m.workers v) h then none else m.workers q;
  threads = λ k. if k == h then none else m.threads k;
  done = λ k. if k == h then true else m.done k;
}

unfoldable pub stop_all : Manager → Manager
stop_all m = record m {
  threads = λ h. cancel_where (λ t. is_worker (m.workers t.volume) h) (m.threads h);
}

-- What happens to the manager between the parts of `reconcile` that hold the lock: the worker of a
-- volume ends, or the plugin stops it.
pub data Other : Type 0 where
  ended stopped : Bytes → Other

unfoldable pub run_other : Manager → Other → Manager
unfolding stop finish
run_other m (ended v) = elim (m.workers v) [ none ↦ m | some h ↦ finish m v h ]
run_other m (stopped v) = stop m v

unfoldable pub run_others : Manager → List Other → Manager
unfolding run_other
run_others m [] = m
run_others m (o ∷ os) = run_others (run_other m o) os

-- One round of the first loop of `reconcile`.
unfoldable pub reconcile_record : Manager → MountRecord → Manager
unfolding start stop
reconcile_record m r =
    if eqb r.volume_id []
    then m
    else if r.auto_snapshot
    then start m r.volume_id
    else stop m r.volume_id

-- The first loop, with what happens before each round.
unfoldable pub reconcile_records : Manager → List (List Other × MountRecord) → Manager
unfolding reconcile_record run_others
reconcile_records m [] = m
reconcile_records m ((os, r) ∷ rounds) =
    reconcile_records (reconcile_record (run_others m os) r) rounds

unfoldable pub seen_ids : List (List Other × MountRecord) → List Bytes
seen_ids [] = []
seen_ids ((os, r) ∷ rounds) =
    let rest = seen_ids rounds in if eqb r.volume_id [] then rest else r.volume_id ∷ rest

-- The second loop: the workers of volumes that have no record are cancelled.
unfoldable pub cancel_unseen : Manager → List Bytes → Manager
cancel_unseen m seen = record m {
  threads = λ h.
      cancel_where (λ t. is_worker (m.workers t.volume) h && not (elem t.volume seen))
        (m.threads h);
}

-- The rounds, what happens after the last of them, and the second loop.
unfoldable pub reconcile : Manager → List (List Other × MountRecord) → List Other → Manager
unfolding reconcile_records run_others cancel_unseen seen_ids
reconcile m rounds os = cancel_unseen (run_others (reconcile_records m rounds) os) (seen_ids rounds)

abbrev pub new_worker_manager : Manager
new_worker_manager = record {
  workers = λ v. none;
  threads = λ h. none;
  done = λ h. false;
  next = 0;
}

-- A thread finishes with its own volume and handle. `reconcile` is several steps.
pub data Step : Manager → Manager → Type 0 where
  cancels_unseen : (m : Manager) (seen : List Bytes) → Step m (cancel_unseen m seen)
  starts : (m : Manager) (v : Bytes) → Step m (start m v)
  stops : (m : Manager) (v : Bytes) → Step m (stop m v)
  stops_all : (m : Manager) → Step m (stop_all m)
  finishes :
      (m : Manager) (h : ℕ) (t : Thread) → m.threads h ≡ some t → Step m (finish m t.volume h)

pub data Reach (m : Manager) : Manager → Type 0 where
  here : Reach m m
  next : {n k : Manager} → Reach m n → Step n k → Reach m k
