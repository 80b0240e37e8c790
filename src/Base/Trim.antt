-- ===== src/Base/Trim.antt =====
-- Texts that `strings.TrimSpace` leaves alone.
use mathlib.Core.Path.{◌≡◌, refl}
use mathlib.Core.List.{[], ◌∷◌, reverse, reverse-cons, reverse-reverse}
use native.Mathlib.Omega.{arith}
use Prim.Native.Nat.{ℕ, zero, suc, ◌+◌, ◌/◌, ◌%◌, ◌<◌}
use mathlib.Core.Bool.{false}
use mathlib.Core.Logic.{inl, inr}
use smol_agent_oci_fs.Base.Tests.{Bool-cases, ltb}
use smol_agent_oci_fs.Base.Lists.{All, All-append}
use smol_agent_oci_fs.Base.Strings.{Bytes, is_space, trim_left, trim_space}
use smol_agent_oci_fs.Base.Decimal.{decimal, decimal_onto}

abbrev pub IsVisible : ℕ → Type 0
IsVisible c = is_space c ≡ false

All-reverse : (s : Bytes) → All IsVisible s → All IsVisible (reverse s)
All-reverse [] h = tt
All-reverse (c ∷ s) h =
    rw (reverse-cons c s) (All-append IsVisible (reverse s) (c ∷ []) (All-reverse s h.1) (h.0, tt))

trim_left-All : (s : Bytes) → All IsVisible s → trim_left s ≡ s
unfolding trim_left
trim_left-All [] h = refl
trim_left-All (c ∷ s) h = rw (h.0)

pub trim_space-All : (s : Bytes) → All IsVisible s → trim_space s ≡ s
unfolding trim_space
trim_space-All s h =
    rw (trim_left-All s h) (rw (trim_left-All (reverse s) (All-reverse s h)) (reverse-reverse s))

pub decimal_onto-All :
    (fuel n : ℕ) (out : Bytes)
    → n < fuel
    → All IsVisible out
    → All IsVisible (decimal_onto fuel n out)
unfolding decimal_onto
decimal_onto-All zero n out h a = absurd (omega arith)
decimal_onto-All (suc fuel) n out h a = elim (Bool-cases (ltb n 10)) [
  | inl small ↦ rw small (ground (arith, small), a)
  | inr large ↦ rw large (
      decimal_onto-All fuel (n / 10) ((48 + n % 10) ∷ out) (ground (arith, large))
        (ground arith, a))
]

pub trim_space-decimal : (n : ℕ) → trim_space (decimal n) ≡ decimal n
unfolding decimal
trim_space-decimal n = trim_space-All (decimal n) (decimal_onto-All (suc n) n [] (omega arith) tt)
