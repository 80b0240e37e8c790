-- ===== src/Csi/Workers/Pass.antt =====
-- A whole pass of `reconcile` of internal/csinode/worker.go, with what happens between its parts.
use smol_agent_oci_fs.Base.{
  Bytes, true, false, List, [], ◌∷◌, ◌++◌, eqb, eqb→eq, eqb_refl, elem, any, some, Bool-cases,
  Option-cases, ◌≡◌, ◌⊎◌, refl, ap, inl, inr, arith, All,
}
use mathlib.Core.Path.{subst}
use smol_agent_oci_fs.Csi.Records.{MountRecord}
use smol_agent_oci_fs.Csi.Workers.{
  Manager, start, stop, is_worker, Other, run_other, run_others, reconcile_record,
  reconcile_records, seen_ids, cancel_unseen, reconcile, new_worker_manager, starts, stops,
  cancels_unseen, Reach, here, next,
}
use smol_agent_oci_fs.Csi.Workers.Single.{IsConsistent, new-IsConsistent, Reach-IsConsistent}
use smol_agent_oci_fs.Csi.Workers.Reconcile.{
  IsServed, IsReady, IsStopped, Keeps, Keeps-of, start_other, stop_other, start-none, stop-none,
  start_serves, volume_of, other-Keeps, other-Reach,
}

Reach-then : {m n k : Manager} → Reach m n → Reach n k → Reach m k
Reach-then r here = r
Reach-then r (next s t) = next (Reach-then r s) t

Keeps-then : (m n k : Manager) (v : Bytes) → Keeps m n v → Keeps n k v → Keeps m k v
Keeps-then m n k v f g = ((λ s. g.0 (f.0 s)), (λ s. g.1 (f.1 s)))

-- Nothing of what happens is about the volume.
abbrev pub AreElsewhere : Bytes → List Other → Type 0
AreElsewhere v = All (λ o. eqb v (volume_of o) ≡ false)

others-Reach : (m : Manager) (os : List Other) → IsConsistent m → Reach m (run_others m os)
unfolding run_others
others-Reach m [] c = here
others-Reach m (o ∷ os) c =
    let first = other-Reach m o c in
    Reach-then first (others-Reach (run_other m o) os (Reach-IsConsistent c first))

others-Keeps :
    (m : Manager) (v : Bytes) (os : List Other)
    → IsConsistent m
    → AreElsewhere v os
    → Keeps m (run_others m os) v
unfolding run_others
others-Keeps m v [] c h = ((λ s. s), (λ s. s))
others-Keeps m v (o ∷ os) c h =
    let after = Reach-IsConsistent c (other-Reach m o c) in
    Keeps-then m (run_other m o) (run_others (run_other m o) os) v (other-Keeps m v o c h.0)
      (others-Keeps (run_other m o) v os after h.1)

-- The record is of another volume, or wants snapshots.
abbrev pub IsFor : Bytes → MountRecord → Type 0
IsFor v r = (eqb v r.volume_id ≡ false) ⊎ (r.auto_snapshot ≡ true)

record-Reach : (m : Manager) (r : MountRecord) → Reach m (reconcile_record m r)
unfolding reconcile_record
record-Reach m r = elim (Bool-cases (eqb r.volume_id [])) [
  | inl nameless ↦ rw nameless here
  | inr named ↦ elim (Bool-cases r.auto_snapshot) [
    | inl auto ↦ rw (named, auto) (next here (starts m r.volume_id))
    | inr off ↦ rw (named, off) (next here (stops m r.volume_id))
  ]
]

record-Keeps :
    (m : Manager) (v : Bytes) (r : MountRecord)
    → IsConsistent m
    → IsFor v r
    → Keeps m (reconcile_record m r) v
unfolding reconcile_record
record-Keeps m v r c h = elim (Bool-cases (eqb r.volume_id [])) [
  | inl nameless ↦ rw nameless ((λ s. s), (λ s. s))
  | inr named ↦ elim (Bool-cases (eqb v r.volume_id)) [
    | inl same ↦
        let auto : r.auto_snapshot ≡ true = wants h same in
        let at : v ≡ r.volume_id = eqb→eq v r.volume_id same in
        rw (named, auto) (subst (λ z. Keeps m (start m z) v) at (own m v))
    | inr apart ↦ elim (Bool-cases r.auto_snapshot) [
      | inl auto ↦
          rw (named, auto)
            (Keeps-of m (start m r.volume_id) v (start_other m c v r.volume_id apart)
              (start-none m c v r.volume_id apart))
      | inr off ↦
          rw (named, off)
            (Keeps-of m (stop m r.volume_id) v (stop_other m c v r.volume_id apart)
              (stop-none m c v r.volume_id apart))
    ]
  ]
]
  where
    wants : IsFor v r → eqb v r.volume_id ≡ true → r.auto_snapshot ≡ true
    wants (inl n) y = absurd (ground (arith, n, y))
    wants (inr a) y = a

    own : (m : Manager) (v : Bytes) → Keeps m (start m v) v
    own m v = ((λ s. start_serves m v (inr s)), (λ s. inr (start_serves m v s)))

record-serves :
    (m : Manager) (r : MountRecord)
    → eqb r.volume_id [] ≡ false
    → r.auto_snapshot ≡ true
    → IsReady m r.volume_id
    → IsServed (reconcile_record m r) r.volume_id
unfolding reconcile_record
record-serves m r named auto s = rw (named, auto) (start_serves m r.volume_id s)

abbrev pub Rounds : Type 0
Rounds = List (List Other × MountRecord)

-- What happens in the rounds leaves the worker of the volume alone.
abbrev pub LeaveAlone : Bytes → Rounds → Type 0
LeaveAlone v = All (λ (q : List Other × MountRecord). AreElsewhere v q.0 × IsFor v q.1)

round-Reach :
    (m : Manager) (os : List Other) (r : MountRecord)
    → IsConsistent m
    → Reach m (reconcile_record (run_others m os) r)
round-Reach m os r c = Reach-then (others-Reach m os c) (record-Reach (run_others m os) r)

rounds-Reach :
    (m : Manager) (rounds : Rounds) → IsConsistent m → Reach m (reconcile_records m rounds)
unfolding reconcile_records
rounds-Reach m [] c = here
rounds-Reach m ((os, r) ∷ rounds) c =
    let first = round-Reach m os r c in
    Reach-then first
      (rounds-Reach (reconcile_record (run_others m os) r) rounds (Reach-IsConsistent c first))

round-Keeps :
    (m : Manager) (v : Bytes) (os : List Other) (r : MountRecord)
    → IsConsistent m
    → AreElsewhere v os
    → IsFor v r
    → Keeps m (reconcile_record (run_others m os) r) v
round-Keeps m v os r c h k =
    Keeps-then m (run_others m os) (reconcile_record (run_others m os) r) v
      (others-Keeps m v os c h)
      (record-Keeps (run_others m os) v r (Reach-IsConsistent c (others-Reach m os c)) k)

rounds-Keeps :
    (m : Manager) (v : Bytes) (rounds : Rounds)
    → IsConsistent m
    → LeaveAlone v rounds
    → Keeps m (reconcile_records m rounds) v
unfolding reconcile_records
rounds-Keeps m v [] c h = ((λ s. s), (λ s. s))
rounds-Keeps m v ((os, r) ∷ rounds) c h =
    let n = reconcile_record (run_others m os) r in
    Keeps-then m n (reconcile_records n rounds) v (round-Keeps m v os r c h.0.0 h.0.1)
      (rounds-Keeps n v rounds (Reach-IsConsistent c (round-Reach m os r c)) h.1)

rounds-serve :
    (m : Manager) (before after : Rounds) (os : List Other) (r : MountRecord)
    → IsConsistent m
    → eqb r.volume_id [] ≡ false
    → r.auto_snapshot ≡ true
    → LeaveAlone r.volume_id (before ++ ((os, r) ∷ after))
    → IsReady m r.volume_id
    → IsServed (reconcile_records m (before ++ ((os, r) ∷ after))) r.volume_id
unfolding reconcile_records
rounds-serve m [] after os r c named auto h s =
    let n = run_others m os in
    let first = (others-Keeps m r.volume_id os c h.0.0).1 s in
    (rounds-Keeps (reconcile_record n r) r.volume_id after
        (Reach-IsConsistent c (round-Reach m os r c)) h.1).0
      (record-serves n r named auto first)
rounds-serve m ((ps, q) ∷ before) after os r c named auto h s =
    rounds-serve (reconcile_record (run_others m ps) q) before after os r
      (Reach-IsConsistent c (round-Reach m ps q c)) named auto h.1
      ((round-Keeps m r.volume_id ps q c h.0.0 h.0.1).1 s)

seen_has :
    (before after : Rounds) (os : List Other) (r : MountRecord)
    → eqb r.volume_id [] ≡ false
    → elem r.volume_id (seen_ids (before ++ ((os, r) ∷ after))) ≡ true
unfolding seen_ids elem any
seen_has [] after os r named = ground (arith, named, eqb_refl r.volume_id)
seen_has ((ps, q) ∷ before) after os r named = ground (arith, seen_has before after os r named)

unseen :
    (u : Bytes) (rounds : Rounds)
    → All (λ (q : List Other × MountRecord). eqb u q.1.volume_id ≡ false) rounds
    → elem u (seen_ids rounds) ≡ false
unfolding seen_ids elem any
unseen u [] h = refl
unseen u ((os, r) ∷ rounds) h = ground (arith, h.0, unseen u rounds h.1)

cancel_unseen-IsServed :
    (m : Manager) (v : Bytes) (seen : List Bytes)
    → elem v seen ≡ true
    → IsServed m v
    → IsServed (cancel_unseen m seen) v
unfolding cancel_unseen
cancel_unseen-IsServed m v seen there (h, e, f) = (h, e, rw f (ground (arith, there)))

cancel_unseen-IsStopped :
    (m : Manager) (u : Bytes) (seen : List Bytes)
    → IsConsistent m
    → elem u seen ≡ false
    → IsStopped (cancel_unseen m seen) u
unfolding cancel_unseen
cancel_unseen-IsStopped m u seen c gone = elim (Option-cases (m.workers u)) [
  | inl free ↦ inl free
  | inr (h, there) ↦
      let (t, runs, named) = c.running u h there in
      let kept : is_worker (m.workers t.volume) h ≡ true = rw named (rw there (ground arith)) in
      let unwanted : elem t.volume seen ≡ false = rw named gone in
      inr (
        h,
        there,
        rw runs
            (rw (kept, unwanted) (ap (λ z. some (record { volume = z; cancelled = true })) named)),
      )
]

-- From every state that a new manager reaches, a pass of `reconcile` is a sequence of steps; a
-- volume that a record names and wants snapshots for, and no record switches off, has a worker that
-- runs and is not cancelled, if it had none or one that was not cancelled, and if no worker of it
-- ends and it is not stopped during the pass; and the worker of a volume that no record names is
-- cancelled, whatever ends or is stopped during the pass.
pub reconcile_settles :
    (m : Manager) (before after : Rounds) (os last : List Other) (r : MountRecord) (u : Bytes)
    → Reach new_worker_manager m
    → eqb r.volume_id [] ≡ false
    → r.auto_snapshot ≡ true
    → LeaveAlone r.volume_id (before ++ ((os, r) ∷ after))
    → AreElsewhere r.volume_id last
    → IsReady m r.volume_id
    → All
        (λ (q : List Other × MountRecord). eqb u q.1.volume_id ≡ false)
        (before ++ ((os, r) ∷ after))
    → Reach m (reconcile m (before ++ ((os, r) ∷ after)) last)
      × IsServed (reconcile m (before ++ ((os, r) ∷ after)) last) r.volume_id
      × IsStopped (reconcile m (before ++ ((os, r) ∷ after)) last) u
unfolding reconcile
reconcile_settles m before after os last r u reached named auto alone apart ready unnamed =
    let rounds = before ++ ((os, r) ∷ after) in
    let c = Reach-IsConsistent new-IsConsistent reached in
    let n = reconcile_records m rounds in
    let looped = rounds-Reach m rounds c in
    let nc = Reach-IsConsistent c looped in
    let k = run_others n last in
    let ended = Reach-then looped (others-Reach n last nc) in
    let served = rounds-serve m before after os r c named auto alone ready in
    (
      next ended (cancels_unseen k (seen_ids rounds)),
      cancel_unseen-IsServed k r.volume_id (seen_ids rounds) (seen_has before after os r named)
          ((others-Keeps n r.volume_id last nc apart).0 served),
      cancel_unseen-IsStopped k u (seen_ids rounds) (Reach-IsConsistent c ended)
          (unseen u rounds unnamed),
    )
