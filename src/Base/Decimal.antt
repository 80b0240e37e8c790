-- ===== src/Base/Decimal.antt =====
-- Go's int as a signed integer, `fmt.Sprintf("%d", n)` and `strconv.Atoi`.
use Prim.Native.Nat.{ℕ, zero, suc, ◌+◌, ◌-◌, ◌*◌, ◌/◌, ◌%◌, ◌≤◌, ◌<◌}
use mathlib.Core.Path.{◌≡◌, refl}
use mathlib.Core.Logic.{inl, inr}
use mathlib.Core.Bool.{Bool, false, ◌&&◌}
use mathlib.Core.Option.{Option, none, some}
use mathlib.Core.List.{[], ◌∷◌}
use native.Mathlib.Omega.{arith}
use smol_agent_oci_fs.Base.Tests.{ltb, leb, ◌==◌, if◌then◌else◌, Bool-cases}
use smol_agent_oci_fs.Base.Strings.{Bytes, eqb}

-- `negsuc n` is -(n + 1).
pub data ℤ : Type 0 where
  pos : ℕ → ℤ
  negsuc : ℕ → ℤ

abbrev pub is_positive : ℤ → Bool
is_positive (pos n) = ltb 0 n
is_positive (negsuc n) = false

-- 2 ^ 63
abbrev pub int_end : ℕ
int_end = 9223372036854775808

-- The digits of a number, in front of a text. A number has no more digits than `n + 1`.
unfoldable pub decimal_onto : ℕ → ℕ → Bytes → Bytes
decimal_onto zero n out = out
decimal_onto (suc fuel) n out =
    let rest = decimal_onto fuel (n / 10) ((48 + n % 10) ∷ out) in
    if ltb n 10 then (48 + n) ∷ out else rest

unfoldable pub decimal : ℕ → Bytes
unfolding decimal_onto
decimal n = decimal_onto (suc n) n []

unfoldable pub sprint_int : ℤ → Bytes
sprint_int (pos n) = decimal n
sprint_int (negsuc n) = b'-' ∷ decimal (suc n)

unfoldable pub read_digits : ℕ → Bytes → Option ℕ
read_digits n [] = some n
read_digits n (c ∷ s) =
    let rest = read_digits (n * 10 + (c - 48)) s in if leb 48 c && leb c 57 then rest else none

-- One digit or more
unfoldable pub read_number : Bytes → Option ℕ
unfolding read_digits
read_number [] = none
read_number (c ∷ s) = read_digits 0 (c ∷ s)

abbrev clamp_pos : Option ℕ → ℤ
clamp_pos none = pos 0
clamp_pos (some n) = if ltb n int_end then pos n else pos (int_end - 1)

abbrev clamp_neg : Option ℕ → ℤ
clamp_neg none = pos 0
clamp_neg (some zero) = pos 0
clamp_neg (some (suc n)) = if ltb n int_end then negsuc n else negsuc (int_end - 1)

-- `n, _ := strconv.Atoi(s)`: 0 for what is no number, the nearest int for what is out of range
unfoldable pub atoi : Bytes → ℤ
unfolding read_number
atoi [] = pos 0
atoi (c ∷ s) =
    if c == b'-'
    then clamp_neg (read_number s)
    else if c == b'+'
    then clamp_pos (read_number s)
    else clamp_pos (read_number (c ∷ s))

pub read_digits-decimal_onto :
    (fuel n : ℕ) (out : Bytes)
    → n < fuel
    → read_digits 0 (decimal_onto fuel n out) ≡ read_digits n out
unfolding read_digits decimal_onto
read_digits-decimal_onto zero n out h = absurd (omega arith)
read_digits-decimal_onto (suc fuel) n out h = elim (Bool-cases (ltb n 10)) [
  | inl small ↦ ground (arith, small)
  | inr large ↦
      let again : read_digits 0 (decimal_onto fuel (n / 10) ((48 + n % 10) ∷ out))
          ≡ read_digits (n / 10) ((48 + n % 10) ∷ out) =
        read_digits-decimal_onto fuel (n / 10) ((48 + n % 10) ∷ out) (ground (arith, large)) in
      ground (arith, large, again)
]

-- The first digit is no sign.
pub data StartsWithDigit : Bytes → Type 0 where
  starts : (c : ℕ) (s : Bytes) → 48 ≤ c → c ≤ 57 → StartsWithDigit (c ∷ s)

decimal_onto-StartsWithDigit :
    (fuel n : ℕ) (out : Bytes) → n < fuel → StartsWithDigit (decimal_onto fuel n out)
unfolding decimal_onto
decimal_onto-StartsWithDigit zero n out h = absurd (omega arith)
decimal_onto-StartsWithDigit (suc fuel) n out h = elim (Bool-cases (ltb n 10)) [
  | inl small ↦ rw small (starts (48 + n) out (omega arith) (ground (arith, small)))
  | inr large ↦
      rw large
        (decimal_onto-StartsWithDigit fuel (n / 10) ((48 + n % 10) ∷ out) (ground (arith, large)))
]

pub decimal-StartsWithDigit : (n : ℕ) → StartsWithDigit (decimal n)
unfolding decimal
decimal-StartsWithDigit n = decimal_onto-StartsWithDigit (suc n) n [] (omega arith)

atoi_digits :
    (s : Bytes) (n : ℕ)
    → StartsWithDigit s
    → read_digits 0 s ≡ some n
    → n < int_end
    → atoi s ≡ pos n
unfolding atoi
atoi_digits s n (starts c t low high) h small = ground (arith, h)

-- A number that an int holds is read back from its text.
pub atoi-decimal : (n : ℕ) → n < int_end → atoi (decimal n) ≡ pos n
unfolding decimal read_digits
atoi-decimal n h =
    atoi_digits (decimal n) n (decimal-StartsWithDigit n)
      (read_digits-decimal_onto (suc n) n [] (omega arith)) h

starts_nonempty : (s : Bytes) → StartsWithDigit s → eqb s [] ≡ false
unfolding eqb
starts_nonempty s (starts c t low high) = refl

pub decimal_nonempty : (n : ℕ) → eqb (decimal n) [] ≡ false
decimal_nonempty n = starts_nonempty (decimal n) (decimal-StartsWithDigit n)
