-- ===== src/Csi/Workers/Reconcile.antt =====
-- What `reconcile` of internal/csinode/worker.go leaves running.
use mathlib.Core.Path.{subst}
use smol_agent_oci_fs.Base.{
  ℕ, Bytes, true, false, ◌==◌, eqb, eqb_refl, none, some, Bool-cases, Option-cases, ◌≡◌, ◌⊎◌, sym,
  ap, ◌∙◌, inl, inr, arith,
}
use smol_agent_oci_fs.Csi.Workers.{
  Manager, begin, start, stop, finish, Other, ended, stopped, run_other, stops, finishes, Reach,
  here, next,
}
use smol_agent_oci_fs.Csi.Workers.Single.{IsConsistent}

-- The worker of the volume runs and is not cancelled.
abbrev pub IsServed : Manager → Bytes → Type 0
IsServed m v =
    (h : ℕ) × (m.workers v ≡ some h)
    × (m.threads h ≡ some (record { volume = v; cancelled = false }))

-- The volume has no worker, or one that is not cancelled.
abbrev pub IsReady : Manager → Bytes → Type 0
IsReady m v = (m.workers v ≡ none) ⊎ IsServed m v

-- The worker of the volume, if it has one, is cancelled.
abbrev pub IsStopped : Manager → Bytes → Type 0
IsStopped m v =
    (m.workers v ≡ none)
    ⊎ ((h : ℕ) × (m.workers v ≡ some h)
        × (m.threads h ≡ some (record { volume = v; cancelled = true })))

module _ (m : Manager) (c : IsConsistent m) (v w : Bytes) (apart : eqb v w ≡ false) where
  other_handle :
      (h k : ℕ)
      → m.threads h ≡ some (record { volume = v; cancelled = false })
      → m.workers w ≡ some k
      → (h == k) ≡ false
  other_handle h k e f = elim (Bool-cases (h == k)) [
    | inr n ↦ n
    | inl y ↦
        let same : h ≡ k = ground (arith, y) in
        let (t, there, named) = c.running w k f in
        let volumes : v ≡ t.volume = ground (arith, sym e ∙ ap m.threads same ∙ there) in
        absurd (ground (arith, apart, ap (λ z. eqb z w) (volumes ∙ named), eqb_refl w))
  ]

  pub start_other : IsServed m v → IsServed (start m w) v
  unfolding start begin
  start_other (h, e, f) = elim (Option-cases (m.workers w)) [
    | inr (k, there) ↦ (h, ground (arith, there, e), ground (arith, there, f))
    | inl free ↦
        let old : (h == m.next) ≡ false = ground (arith, c.fresh h, f) in
        (h, ground (arith, free, apart, e), ground (arith, free, old, f))
  ]

  pub stop_other : IsServed m v → IsServed (stop m w) v
  unfolding stop
  stop_other (h, e, f) = elim (Option-cases (m.workers w)) [
    | inl free ↦ (h, ground (arith, free, e), ground (arith, free, f))
    | inr (k, there) ↦
        let old = other_handle h k f there in
        (h, ground (arith, there, e), ground (arith, there, old, f))
  ]

  ended_other : IsServed m v → IsServed (run_other m (ended w)) v
  unfolding run_other finish
  ended_other (h, e, f) = elim (Option-cases (m.workers w)) [
    | inl free ↦ (h, ground (arith, free, e), ground (arith, free, f))
    | inr (k, there) ↦
        let old = other_handle h k f there in
        (h, ground (arith, there, apart, e), ground (arith, there, old, f))
  ]

  pub start-none : m.workers v ≡ none → (start m w).workers v ≡ none
  unfolding start begin
  start-none e = ground (arith, apart, e)

  pub stop-none : m.workers v ≡ none → (stop m w).workers v ≡ none
  unfolding stop
  stop-none e = ground (arith, e)

  ended-none : m.workers v ≡ none → (run_other m (ended w)).workers v ≡ none
  unfolding run_other finish
  ended-none e = ground (arith, apart, e)

-- Ready stays ready, and served stays served.
abbrev pub Keeps : Manager → Manager → Bytes → Type 0
Keeps m n v = (IsServed m v → IsServed n v) × (IsReady m v → IsReady n v)

pub Keeps-of :
    (m n : Manager) (v : Bytes)
    → (IsServed m v → IsServed n v)
    → (m.workers v ≡ none → n.workers v ≡ none)
    → Keeps m n v
Keeps-of m n v f g = (f, go)
  where
    go : IsReady m v → IsReady n v
    go (inl e) = inl (g e)
    go (inr s) = inr (f s)

pub start_serves : (m : Manager) (v : Bytes) → IsReady m v → IsServed (start m v) v
unfolding start begin
start_serves m v (inl free) = (m.next, ground (arith, free, eqb_refl v), ground (arith, free))
start_serves m v (inr (h, e, f)) = (h, ground (arith, e), ground (arith, e, f))

abbrev pub volume_of : Other → Bytes
volume_of (ended w) = w
volume_of (stopped w) = w

pub other-Keeps :
    (m : Manager) (v : Bytes) (o : Other)
    → IsConsistent m
    → eqb v (volume_of o) ≡ false
    → Keeps m (run_other m o) v
other-Keeps m v (ended w) c apart =
    Keeps-of m (run_other m (ended w)) v (ended_other m c v w apart) (ended-none m c v w apart)
other-Keeps m v (stopped w) c apart =
    unfold run_other in Keeps-of m (stop m w) v (stop_other m c v w apart) (stop-none m c v w apart)

pub other-Reach : (m : Manager) (o : Other) → IsConsistent m → Reach m (run_other m o)
unfolding run_other
other-Reach m (stopped w) c = next here (stops m w)
other-Reach m (ended w) c = elim (Option-cases (m.workers w)) [
  | inl free ↦
      let same : m ≡ run_other m (ended w) = ground (arith, free) in subst (Reach m) same here
  | inr (h, there) ↦
      let (t, runs, named) = c.running w h there in
      let same : finish m t.volume h ≡ run_other m (ended w) =
        ap (λ z. finish m z h) named ∙ ground (arith, there) in
      subst (Reach m) same (next here (finishes m h t runs))
]
