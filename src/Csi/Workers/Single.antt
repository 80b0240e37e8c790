-- ===== src/Csi/Workers/Single.antt =====
-- A volume has one worker at most: an invariant of internal/csinode/worker.go.
use mathlib.Core.Path.{subst}
use smol_agent_oci_fs.Base.{
  ℕ, ◌≤◌, Bytes, Bool, true, false, not, ◌&&◌, ◌==◌, if◌then◌else◌, List, eqb, eqb→eq, eqb_refl,
  elem, Option, none, some, Bool-cases, Option-cases, ◌≡◌, ◌⊎◌, inl, inr, refl, sym, ap, ◌∙◌, arith,
}
use smol_agent_oci_fs.Csi.Workers.{
  Thread, Manager, begin, start, cancel, cancel_where, stop, is_worker, finish, stop_all,
  cancel_unseen, new_worker_manager, Step, cancels_unseen, starts, stops, stops_all, finishes,
  Reach, here, next,
}

-- A running thread is the worker of its volume and its channel is open; new handles are unused.
pub record IsConsistent (m : Manager) : Type 0 where
  pub registered : (h : ℕ) (t : Thread) → m.threads h ≡ some t → m.workers t.volume ≡ some h
  pub running :
      (v : Bytes) (h : ℕ)
      → m.workers v ≡ some h
      → (t : Thread) × (m.threads h ≡ some t) × (t.volume ≡ v)
  pub open_done : (h : ℕ) (t : Thread) → m.threads h ≡ some t → m.done h ≡ false
  pub fresh : (h : ℕ) → m.next ≤ h → (m.threads h ≡ none) × (m.done h ≡ false)

module _ (m : Manager) (c : IsConsistent m) where
  begin_registered :
      (v : Bytes)
      → m.workers v ≡ none
      → (h : ℕ) (t : Thread) → (begin m v).threads h ≡ some t
      → (begin m v).workers t.volume ≡ some h
  unfolding begin
  begin_registered v free h t e = elim (Bool-cases (h == m.next)) [
    | inl new ↦
        let vol : t.volume ≡ v = ground (arith, new, e) in
        ground (arith, new, ap (λ x. eqb x v) vol, eqb_refl v)
    | inr old ↦
        let reg : m.workers t.volume ≡ some h = c.registered h t (ground (arith, old, e)) in
        elim (Bool-cases (eqb t.volume v)) [
          | inl same ↦ absurd (ground (arith, reg, ap m.workers (eqb→eq t.volume v same), free))
          | inr other ↦ ground (arith, other, reg)
        ]
  ]

  begin_running :
      (v : Bytes)
      → m.workers v ≡ none
      → (q : Bytes) (h : ℕ) → (begin m v).workers q ≡ some h
      → (t : Thread) × ((begin m v).threads h ≡ some t) × (t.volume ≡ q)
  unfolding begin
  begin_running v free q h e = elim (Bool-cases (eqb q v)) [
    | inl same ↦
        let is_next : h ≡ m.next = ground (arith, same, e) in
        (record { volume = v; cancelled = false }, ground (arith, is_next), sym (eqb→eq q v same))
    | inr other ↦
        let (t, there, named) = c.running q h (ground (arith, other, e)) in
        (t, ground (arith, c.fresh h, there), named)
  ]

  begin-IsConsistent : (v : Bytes) → m.workers v ≡ none → IsConsistent (begin m v)
  unfolding begin
  begin-IsConsistent v free = record {
    registered = λ h t e. begin_registered v free h t e;
    running = λ q h e. begin_running v free q h e;
    open_done = λ h t e. ground (arith, c.open_done h t, c.fresh h, e);
    fresh = λ h l. (ground (arith, c.fresh h), ground (arith, c.fresh h));
  }

  start-IsConsistent : (v : Bytes) → IsConsistent (start m v)
  unfolding start
  start-IsConsistent v = elim (Option-cases (m.workers v)) [
    | inr (h, there) ↦ let same : m ≡ start m v = ground (arith, there) in subst IsConsistent same c
    | inl free ↦
        let same : begin m v ≡ start m v = ground (arith, free) in
        subst IsConsistent same (begin-IsConsistent v free)
  ]

-- A state in which some threads are cancelled.
abbrev Cancels : Manager → (ℕ → Option Thread) → Type 0
Cancels m threads = (h : ℕ) → (threads h ≡ m.threads h) ⊎ (threads h ≡ cancel (m.threads h))

cancelled_was :
    (a b : Option Thread) (t : Thread)
    → (a ≡ b) ⊎ (a ≡ cancel b)
    → a ≡ some t
    → (u : Thread) × (b ≡ some u) × (u.volume ≡ t.volume)
cancelled_was a none t (inl e) h = absurd (cc)
cancelled_was a none t (inr e) h = absurd (cc)
cancelled_was a (some u) t (inl e) h = (u, refl, ground (arith, e, h))
cancelled_was a (some u) t (inr e) h = (u, refl, ground (arith, e, h))

cancelled_is :
    (a b : Option Thread) (u : Thread)
    → (a ≡ b) ⊎ (a ≡ cancel b)
    → b ≡ some u
    → (t : Thread) × (a ≡ some t) × (t.volume ≡ u.volume)
cancelled_is a none u e h = absurd (cc)
cancelled_is a (some w) u (inl e) h = (w, e, ground (arith, h))
cancelled_is a (some w) u (inr e) h = (record w { cancelled = true }, e, ground (arith, h))

cancelled_none : (a b : Option Thread) → (a ≡ b) ⊎ (a ≡ cancel b) → b ≡ none → a ≡ none
cancelled_none a b (inl e) h = e ∙ h
cancelled_none a none (inr e) h = e
cancelled_none a (some t) (inr e) h = cc

Cancels-IsConsistent :
    (m : Manager) (threads : ℕ → Option Thread)
    → Cancels m threads
    → IsConsistent m
    → IsConsistent (record m { threads = threads })
Cancels-IsConsistent m threads k c = record {
  registered = λ h t e.
      let (u, was, same) = cancelled_was (threads h) (m.threads h) t (k h) e in
      ap m.workers (sym same) ∙ c.registered h u was;
  running = λ v h e.
      let (u, was, named) = c.running v h e in
      let (t, is, same) = cancelled_is (threads h) (m.threads h) u (k h) was in
      (t, is, same ∙ named);
  open_done = λ h t e.
      let (u, was, same) = cancelled_was (threads h) (m.threads h) t (k h) e in c.open_done h u was;
  fresh = λ h l. (cancelled_none (threads h) (m.threads h) (k h) (c.fresh h l).0, (c.fresh h l).1);
}

cancel_if :
    (b : Bool) (o : Option Thread)
    → ((if b then cancel o else o) ≡ o) ⊎ ((if b then cancel o else o) ≡ cancel o)
cancel_if true o = inr refl
cancel_if false o = inl refl

cancel_where_if :
    (test : Thread → Bool) (o : Option Thread)
    → (cancel_where test o ≡ o) ⊎ (cancel_where test o ≡ cancel o)
cancel_where_if test none = inl refl
cancel_where_if test (some t) = cancel_if (test t) (some t)

stop-IsConsistent : (m : Manager) (v : Bytes) → IsConsistent m → IsConsistent (stop m v)
unfolding stop
stop-IsConsistent m v c = elim (Option-cases (m.workers v)) [
  | inl free ↦ let same : m ≡ stop m v = ground (arith, free) in subst IsConsistent same c
  | inr (w, there) ↦
      let threads : ℕ → Option Thread = λ h. if h == w then cancel (m.threads h) else m.threads h in
      let same : record m { threads = threads } ≡ stop m v = ground (arith, there) in
      subst IsConsistent same
        (Cancels-IsConsistent m threads (λ h. cancel_if (h == w) (m.threads h)) c)
]

stop_all-IsConsistent : (m : Manager) → IsConsistent m → IsConsistent (stop_all m)
unfolding stop_all
stop_all-IsConsistent m c =
    Cancels-IsConsistent m (stop_all m).threads
      (λ h. cancel_where_if (λ t. is_worker (m.workers t.volume) h) (m.threads h)) c

cancel_unseen-IsConsistent :
    (m : Manager) (seen : List Bytes) → IsConsistent m → IsConsistent (cancel_unseen m seen)
unfolding cancel_unseen
cancel_unseen-IsConsistent m seen c =
    Cancels-IsConsistent m (cancel_unseen m seen).threads
      (λ h.
        cancel_where_if (λ t. is_worker (m.workers t.volume) h && not (elem t.volume seen))
          (m.threads h))
      c

module _ (m : Manager) (c : IsConsistent m) (h : ℕ) (t : Thread)
    (there : m.threads h ≡ some t) where
  worker : m.workers t.volume ≡ some h
  worker = c.registered h t there

  finish_registered :
      (k : ℕ) (u : Thread)
      → (finish m t.volume h).threads k ≡ some u
      → (finish m t.volume h).workers u.volume ≡ some k
  unfolding finish
  finish_registered k u e =
      let reg : m.workers u.volume ≡ some k = c.registered k u (ground (arith, e)) in
      elim (Bool-cases (eqb u.volume t.volume)) [
        | inl same ↦
            absurd (ground (arith, e, reg, worker, ap m.workers (eqb→eq u.volume t.volume same)))
        | inr other ↦ ground (arith, other, reg)
      ]

  finish_running :
      (q : Bytes) (k : ℕ)
      → (finish m t.volume h).workers q ≡ some k
      → (u : Thread) × ((finish m t.volume h).threads k ≡ some u) × (u.volume ≡ q)
  unfolding finish
  finish_running q k e = elim (Bool-cases (eqb q t.volume)) [
    | inl same ↦ absurd (ground (arith, same, worker, e))
    | inr other ↦
        let (u, is, named) = c.running q k (ground (arith, other, e)) in
        elim (Bool-cases (k == h)) [
          | inl old ↦
              let same : k ≡ h = ground (arith, old) in
              let t_is_u : some t ≡ some u = sym there ∙ ap m.threads (sym same) ∙ is in
              let vol : t.volume ≡ u.volume = ground (arith, t_is_u) in
              absurd (ground (arith, eqb_refl q, ap (λ x. eqb q x) (vol ∙ named), other))
          | inr apart ↦ (u, ground (arith, apart, is), named)
        ]
  ]

  finish-IsConsistent : IsConsistent (finish m t.volume h)
  unfolding finish
  finish-IsConsistent = record {
    registered = finish_registered;
    running = finish_running;
    open_done = λ k u e. ground (arith, c.open_done k u, e);
    fresh = λ k l.
        (ground (arith, c.fresh k), ground (arith, c.fresh k, there, ap m.threads {x = h} {y = k}));
  }

Step-IsConsistent : {m n : Manager} → Step m n → IsConsistent m → IsConsistent n
Step-IsConsistent (cancels_unseen m seen) c = cancel_unseen-IsConsistent m seen c
Step-IsConsistent (starts m v) c = start-IsConsistent m c v
Step-IsConsistent (stops m v) c = stop-IsConsistent m v c
Step-IsConsistent (stops_all m) c = stop_all-IsConsistent m c
Step-IsConsistent (finishes m h t there) c = finish-IsConsistent m c h t there

pub Reach-IsConsistent : {m n : Manager} → IsConsistent m → Reach m n → IsConsistent n
Reach-IsConsistent c here = c
Reach-IsConsistent c (next r s) = Step-IsConsistent s (Reach-IsConsistent c r)

pub new-IsConsistent : IsConsistent new_worker_manager
new-IsConsistent = record {
  registered = λ h t e. absurd (cc);
  running = λ v h e. absurd (cc);
  open_done = λ h t e. refl;
  fresh = λ h l. (refl, refl);
}

-- In every state that a new manager reaches, by any order of its calls and of the ends of its
-- workers, two threads that run for one volume are the same, and no thread that runs has its
-- channel closed, so that `finish` closes no channel twice.
pub Reach_single :
    {m : Manager}
    → Reach new_worker_manager m
    → (h k : ℕ) (t u : Thread) → m.threads h ≡ some t
    → m.threads k ≡ some u
    → t.volume ≡ u.volume
    → (h ≡ k) × (m.done h ≡ false)
Reach_single {m} r h k t u e f same =
    let c = Reach-IsConsistent new-IsConsistent r in
    let a : m.workers t.volume ≡ some h = c.registered h t e in
    let b : m.workers u.volume ≡ some k = c.registered k u f in
    (ground (arith, a, b, ap m.workers same), c.open_done h t e)
