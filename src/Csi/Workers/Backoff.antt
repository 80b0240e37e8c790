-- ===== src/Csi/Workers/Backoff.antt =====
-- The waits of a worker's loop: `runWorker` of internal/csinode/worker.go. A duration is a number of
-- nanoseconds, and the interval of the worker, which is positive, is an argument.
use smol_agent_oci_fs.Base.{
  ℕ, ◌*◌, ◌≤◌, ◌<◌, ltb, if◌then◌else◌, List, [], ◌∷◌, All, Bool-cases, ◌≡◌, ◌⊎◌, inl, inr, refl,
  arith,
}

abbrev pub second : ℕ
second = 1000000000

-- How one pass of the loop ends, if the worker goes on.
pub data Outcome : Type 0 where
  idle : Outcome
  taken : Outcome
  failed : Outcome

-- The wait after a pass and the next backoff.
unfoldable pub wait : ℕ → ℕ → Outcome → ℕ × ℕ
wait interval backoff idle = (interval, interval)
wait interval backoff taken = (interval, interval)
wait interval backoff failed = (backoff, if ltb backoff (30 * second) then backoff * 2 else backoff)

unfoldable pub waits_from : ℕ → ℕ → List Outcome → List ℕ
waits_from interval backoff [] = []
waits_from interval backoff (o ∷ os) =
    (wait interval backoff o).0 ∷ waits_from interval (wait interval backoff o).1 os

unfoldable pub waits : ℕ → List Outcome → List ℕ
waits interval os = waits_from interval (if ltb interval second then second else interval) os

-- At least the interval, and below a minute unless the interval is above it.
abbrev pub IsBounded : ℕ → ℕ → Type 0
IsBounded interval w = (interval ≤ w) × ((w ≡ interval) ⊎ (w < 60 * second))

wait-IsBounded :
    (interval backoff : ℕ) (o : Outcome)
    → IsBounded interval backoff
    → IsBounded interval (wait interval backoff o).0
      × IsBounded interval (wait interval backoff o).1
unfolding wait
wait-IsBounded interval backoff idle h = ((omega arith, inl refl), (omega arith, inl refl))
wait-IsBounded interval backoff taken h = ((omega arith, inl refl), (omega arith, inl refl))
wait-IsBounded interval backoff failed h = elim (Bool-cases (ltb backoff (30 * second))) [
  | inl low ↦
      let below : backoff < 30 * second = ground (arith, low) in
      (h, rw low (omega (arith, h.0), inr (omega arith)))
  | inr high ↦ (h, rw high h)
]

waits_from-IsBounded :
    (interval backoff : ℕ) (os : List Outcome)
    → IsBounded interval backoff
    → All (IsBounded interval) (waits_from interval backoff os)
unfolding waits_from
waits_from-IsBounded interval backoff [] h = tt
waits_from-IsBounded interval backoff (o ∷ os) h =
    let step = wait-IsBounded interval backoff o h in
    (step.0, waits_from-IsBounded interval (wait interval backoff o).1 os step.1)

first_backoff :
    (interval : ℕ) → IsBounded interval (if ltb interval second then second else interval)
first_backoff interval = elim (Bool-cases (ltb interval second)) [
  | inl low ↦
      let below : interval < second = ground (arith, low) in rw low (omega arith, inr (omega arith))
  | inr high ↦ rw high (omega arith, inl refl)
]

-- However the passes of a worker end, each wait is at least the interval, and it is the interval
-- or shorter than a minute: the doubling stops.
pub waits-IsBounded :
    (interval : ℕ) (os : List Outcome) → All (IsBounded interval) (waits interval os)
unfolding waits
waits-IsBounded interval os =
    waits_from-IsBounded interval (if ltb interval second then second else interval) os
      (first_backoff interval)
