-- ===== src/Csi/Sizes.antt =====
-- `parseByteSize` of internal/csinode/parse.go and the decision of `SnapshotNeeded` of node.go, with
-- products in 64 bits.
pub mod Units
use smol_agent_oci_fs.Base.{
  ℕ, zero, suc, ◌+◌, ◌-◌, ◌*◌, ◌%◌, Bytes, codes, Bool, true, false, not, ◌&&◌, ◌||◌, ◌==◌, ltb,
  leb, if◌then◌else◌, List, [], ◌∷◌, eqb, has_suffix, trim_suffix, trim_space, Option, none, some,
}
use smol_agent_oci_fs.Base.Decimal.{ℤ, pos, negsuc, int_end, read_number}
use smol_agent_oci_fs.Operator.Types.{SnapshotPolicy}

-- The map of the suffixes, of which a text has one at most, so that the order does not matter.
abbrev pub suffixes : List (Bytes × ℕ)
suffixes =
    (codes "KiB", 1024)
    ∷ (codes "MiB", 1048576)
    ∷ (codes "GiB", 1073741824)
    ∷ (codes "KB", 1000)
    ∷ (codes "MB", 1000000)
    ∷ (codes "GB", 1000000000)
    ∷ []

-- The loop: what is left of the text, and the multiplier.
unfoldable pub split_unit : List (Bytes × ℕ) → Bytes → Bytes × ℕ
split_unit [] input = (input, 1)
split_unit ((suffix, value) ∷ units) input =
    let rest = split_unit units input in
    if has_suffix input suffix then (trim_suffix input suffix, value) else rest

abbrev pub positive_int : Option ℕ → Option ℤ
positive_int none = none
positive_int (some n) = if ltb n int_end then some (pos n) else none

abbrev pub negative_int : Option ℕ → Option ℤ
negative_int none = none
negative_int (some zero) = some (pos 0)
negative_int (some (suc n)) = if ltb n int_end then some (negsuc n) else none

-- strconv.ParseInt(input, 10, 64)
unfoldable pub parse_int : Bytes → Option ℤ
unfolding read_number
parse_int [] = none
parse_int (c ∷ s) =
    if c == b'-'
    then negative_int (read_number s)
    else if c == b'+'
    then positive_int (read_number s)
    else positive_int (read_number (c ∷ s))

-- 2 ^ 64
abbrev pub int_values : ℕ
int_values = 18446744073709551616

-- The int64 with the given bits.
abbrev pub of_bits : ℕ → ℤ
of_bits r = if ltb r int_end then pos r else negsuc (int_values - 1 - r)

-- `value * multiplier`
abbrev pub times : ℤ → ℕ → ℤ
times (pos n) k = of_bits ((n * k) % int_values)
times (negsuc n) k = of_bits ((int_values - ((n + 1) * k) % int_values) % int_values)

abbrev pub scaled : Option ℤ → ℕ → Option ℤ
scaled none k = none
scaled (some v) k = some (times v k)

unfoldable pub parse_byte_size : Bytes → Option ℤ
unfolding split_unit parse_int
parse_byte_size given =
    let input = trim_space given in
    let parts = split_unit suffixes input in
    if eqb input [] || eqb input (codes "0")
    then some (pos 0)
    else scaled (parse_int parts.0) parts.1

-- The fields of TargetChangeSummary that the decision reads; the sum of the sizes of files is a
-- natural number.
pub record TargetChangeSummary : Type 0 where
  pub missing_reference : Bool
  pub changed : Bool
  pub dirty_bytes : ℕ

-- `maxDirtyBytes > 0 && summary.DirtyBytes > 0 && summary.DirtyBytes < maxDirtyBytes`
abbrev pub is_below : ℕ → ℤ → Bool
is_below dirty (pos m) = ltb 0 m && ltb 0 dirty && ltb dirty m
is_below dirty (negsuc m) = false

abbrev pub needed_by : TargetChangeSummary → Option ℤ → Option Bool
needed_by summary none = none
needed_by summary (some max_dirty) = some (not (is_below summary.dirty_bytes max_dirty))

-- `Needed` of the decision, from the changes of the target; `none` is the error of a size.
unfoldable pub snapshot_needed : TargetChangeSummary → Option SnapshotPolicy → Option Bool
unfolding parse_byte_size
snapshot_needed summary none = some summary.changed
snapshot_needed summary (some policy) =
    if not summary.changed || summary.missing_reference
    then some summary.changed
    else needed_by summary (parse_byte_size policy.max_dirty_bytes)
