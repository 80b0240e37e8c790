-- ===== src/Csi/Sizes/Units.antt =====
-- Sizes with a unit, and the changes that internal/csinode/node.go does not snapshot.
use mathlib.Core.List.{reverse-append, reverse-reverse}
use smol_agent_oci_fs.Base.{
  ℕ, suc, ◌*◌, ◌%◌, ◌<◌, ◌≤◌, ◌==◌, leb, not, ◌&&◌, if◌then◌else◌, Bytes, codes, false, ◌||◌, [],
  ◌∷◌, ◌++◌, eqb, has_prefix, has_suffix, trim_prefix, trim_suffix, trim_space, some, ◌≡◌, refl,
  arith, ap, ◌∙◌, All, All-append,
}
use smol_agent_oci_fs.Base.Decimal.{
  pos, int_end, decimal, read_digits, StartsWithDigit, starts, decimal-StartsWithDigit,
  read_digits-decimal_onto,
}
use smol_agent_oci_fs.Base.Trim.{IsVisible, trim_space-All, decimal_onto-All}
use smol_agent_oci_fs.Operator.Types.{SnapshotPolicy}
use smol_agent_oci_fs.Csi.Sizes.{
  suffixes, split_unit, parse_int, of_bits, int_values, parse_byte_size, TargetChangeSummary,
  needed_by, snapshot_needed,
}

-- The units of sizes.
pub data Suffix : Bytes → ℕ → Type 0 where
  kib : Suffix (codes "KiB") 1024
  mib : Suffix (codes "MiB") 1048576
  gib : Suffix (codes "GiB") 1073741824
  kb : Suffix (codes "KB") 1000
  mb : Suffix (codes "MB") 1000000
  gb : Suffix (codes "GB") 1000000000

split_unit-Suffix : (s u : Bytes) (k : ℕ) → Suffix u k → split_unit suffixes (s ++ u) ≡ (s, k)
unfolding split_unit has_suffix has_prefix trim_suffix trim_prefix
split_unit-Suffix s _ _ kib = rw (reverse-append s (codes "KiB"), reverse-reverse s) refl
split_unit-Suffix s _ _ mib = rw (reverse-append s (codes "MiB"), reverse-reverse s) refl
split_unit-Suffix s _ _ gib = rw (reverse-append s (codes "GiB"), reverse-reverse s) refl
split_unit-Suffix s _ _ kb = rw (reverse-append s (codes "KB"), reverse-reverse s) refl
split_unit-Suffix s _ _ mb = rw (reverse-append s (codes "MB"), reverse-reverse s) refl
split_unit-Suffix s _ _ gb = rw (reverse-append s (codes "GB"), reverse-reverse s) refl

Suffix-IsVisible : (u : Bytes) (k : ℕ) → Suffix u k → All IsVisible u
Suffix-IsVisible _ _ kib = (refl, (refl, (refl, tt)))
Suffix-IsVisible _ _ mib = (refl, (refl, (refl, tt)))
Suffix-IsVisible _ _ gib = (refl, (refl, (refl, tt)))
Suffix-IsVisible _ _ kb = (refl, (refl, tt))
Suffix-IsVisible _ _ mb = (refl, (refl, tt))
Suffix-IsVisible _ _ gb = (refl, (refl, tt))

Suffix-cons : (u : Bytes) (k : ℕ) → Suffix u k → (c : ℕ) × (t : Bytes) × (u ≡ c ∷ t)
Suffix-cons _ _ kib = (b'K', codes "iB", refl)
Suffix-cons _ _ mib = (b'M', codes "iB", refl)
Suffix-cons _ _ gib = (b'G', codes "iB", refl)
Suffix-cons _ _ kb = (b'K', codes "B", refl)
Suffix-cons _ _ mb = (b'M', codes "B", refl)
Suffix-cons _ _ gb = (b'G', codes "B", refl)

ends_nonempty : (s t : Bytes) (c : ℕ) → eqb (s ++ (c ∷ t)) [] ≡ false
unfolding eqb
ends_nonempty [] t c = refl
ends_nonempty (d ∷ s) t c = refl

not_zero_text :
    (s t : Bytes) (c : ℕ)
    → StartsWithDigit s
    → (eqb (s ++ (c ∷ t)) [] || eqb (s ++ (c ∷ t)) (codes "0")) ≡ false
unfolding eqb
not_zero_text s t c (starts d r low high) = ground (arith, ends_nonempty r t c)

parse_digits :
    (s : Bytes) (n : ℕ)
    → StartsWithDigit s
    → read_digits 0 s ≡ some n
    → n < int_end
    → parse_int s ≡ some (pos n)
unfolding parse_int
parse_digits s n (starts c t low high) h small = ground (arith, h)

parse_int-decimal : (n : ℕ) → n < int_end → parse_int (decimal n) ≡ some (pos n)
unfolding decimal read_digits
parse_int-decimal n h =
    parse_digits (decimal n) n (decimal-StartsWithDigit n)
      (read_digits-decimal_onto (suc n) n [] (omega arith)) h

decimal-IsVisible : (n : ℕ) → All IsVisible (decimal n)
unfolding decimal
decimal-IsVisible n = decimal_onto-All (suc n) n [] (omega arith) tt

-- A number that an int64 holds, with a unit, is read as the product in 64 bits: where the product
-- does not fit, the size is a smaller or a negative one, and no error.
pub parse_byte_size-decimal :
    (n k : ℕ) (u : Bytes)
    → Suffix u k
    → n < int_end
    → parse_byte_size (decimal n ++ u) ≡ some (of_bits ((n * k) % int_values))
unfolding parse_byte_size
parse_byte_size-decimal n k u unit small =
    let text = decimal n ++ u in
    let trimmed : trim_space text ≡ text =
      trim_space-All text
        (All-append IsVisible (decimal n) u (decimal-IsVisible n) (Suffix-IsVisible u k unit)) in
    let (c, t, cons) = Suffix-cons u k unit in
    let named : (eqb text [] || eqb text (codes "0")) ≡ false =
      rw cons (not_zero_text (decimal n) t c (decimal-StartsWithDigit n)) in
    rw (trimmed, named, split_unit-Suffix (decimal n) u k unit, parse_int-decimal n small) refl

Suffix-le : (n k : ℕ) (u : Bytes) → Suffix u k → n ≤ n * k
Suffix-le n _ _ kib = omega arith
Suffix-le n _ _ mib = omega arith
Suffix-le n _ _ gib = omega arith
Suffix-le n _ _ kb = omega arith
Suffix-le n _ _ mb = omega arith
Suffix-le n _ _ gb = omega arith

small_bits : (m : ℕ) → m < int_end → of_bits (m % int_values) ≡ pos m
small_bits m h = let same : m % int_values ≡ m = omega arith in rw same (ground (arith, h))

parse_byte_size-small :
    (n k : ℕ) (u : Bytes)
    → Suffix u k
    → n * k < int_end
    → parse_byte_size (decimal n ++ u) ≡ some (pos (n * k))
parse_byte_size-small n k u unit small =
    let below : n < int_end = le_lt n (n * k) int_end (Suffix-le n k u unit) small in
    parse_byte_size-decimal n k u unit below ∙ ap some (small_bits (n * k) small)
  where
    le_lt : (a b c : ℕ) → a ≤ b → b < c → a < c
    le_lt a b c h k = omega arith

-- Under a policy whose size is a number with a unit that fits in an int64, the decision is no error,
-- and a snapshot is needed exactly if the target changed and has no reference, or has no dirty byte,
-- or has as many dirty bytes as the size: a size of 0 lets every change through.
pub snapshot_needed-decimal :
    (summary : TargetChangeSummary) (policy : SnapshotPolicy) (n k : ℕ) (u : Bytes)
    → Suffix u k
    → n * k < int_end
    → policy.max_dirty_bytes ≡ decimal n ++ u
    → snapshot_needed summary (some policy)
      ≡ some (
          summary.changed
          && (summary.missing_reference
              || summary.dirty_bytes == 0
              || leb (n * k) summary.dirty_bytes))
unfolding snapshot_needed
snapshot_needed-decimal summary policy n k u unit small text =
    let limit : parse_byte_size policy.max_dirty_bytes ≡ some (pos (n * k)) =
      ap parse_byte_size text ∙ parse_byte_size-small n k u unit small in
    rw limit (decided summary (n * k))
  where
    decided :
        (summary : TargetChangeSummary) (m : ℕ)
        → (if not summary.changed || summary.missing_reference
            then some summary.changed
            else needed_by summary (some (pos m)))
          ≡ some (
              summary.changed
              && (summary.missing_reference
                  || summary.dirty_bytes == 0
                  || leb m summary.dirty_bytes))
    decided summary m = ground arith
