-- ===== src/Reads/Range.antt =====
-- `sliceRange` of internal/osix/lazy_read.go, with the sum of offset and length in 64 bits. The
-- callers have rejected a negative offset or length.
use smol_agent_oci_fs.Base.{
  ℕ, zero, suc, ◌+◌, ◌-◌, ◌%◌, ◌≤◌, ◌<◌, ◌==◌, leb, ltb, Bytes, ◌&&◌, ◌||◌, if◌then◌else◌, List, [],
  ◌∷◌, length, Option, none, some, ◌≡◌, ◌⊎◌, refl, ap, arith, Bool-cases, inl, inr,
}

unfoldable pub take {ℓ} : {A : Type ℓ} → ℕ → List A → List A
take zero xs = []
take (suc n) [] = []
take (suc n) (x ∷ xs) = x ∷ take n xs

unfoldable pub drop {ℓ} : {A : Type ℓ} → ℕ → List A → List A
drop zero xs = xs
drop (suc n) [] = []
drop (suc n) (x ∷ xs) = drop n xs

-- The first integer that an int64 does not hold, and the number of its values.
abbrev pub int64_end : ℕ
int64_end = 9223372036854775808

abbrev pub int64_values : ℕ
int64_values = 18446744073709551616

-- bs[offset:stop], where `none` is the panic of a slice out of range
unfoldable pub slice : Bytes → ℕ → ℕ → Option Bytes
unfolding take drop
slice bs offset stop =
    if leb offset stop && leb stop (length bs)
    then some (take (stop - offset) (drop offset bs))
    else none

-- A sum from `int64_end` on is negative: it is not above the length, and the slice panics.
unfoldable pub slice_range : Bytes → ℕ → ℕ → Option Bytes
slice_range bs offset n =
    let stop = (offset + n) % int64_values in
    if leb (length bs) offset || n == 0
    then some []
    else if leb int64_end stop
    then none
    else slice bs offset (if ltb (length bs) stop then length bs else stop)

take_all : (n : ℕ) (xs : Bytes) → length xs ≤ n → take n xs ≡ xs
unfolding take
take_all zero [] h = refl
take_all zero (x ∷ xs) h = absurd (omega arith)
take_all (suc n) [] h = refl
take_all (suc n) (x ∷ xs) h = ap (λ r. x ∷ r) (take_all n xs (omega (arith, h)))

drop_all : (n : ℕ) (xs : Bytes) → length xs ≤ n → drop n xs ≡ []
unfolding drop
drop_all zero [] h = refl
drop_all zero (x ∷ xs) h = absurd (omega arith)
drop_all (suc n) [] h = refl
drop_all (suc n) (x ∷ xs) h = drop_all n xs (omega (arith, h))

length-drop : (n : ℕ) (xs : Bytes) → length (drop n xs) ≡ length xs - n
unfolding drop
length-drop zero xs = omega arith
length-drop (suc n) [] = omega arith
length-drop (suc n) (x ∷ xs) = omega (arith, length-drop n xs)

take_none : (n : ℕ) → take {A = ℕ} n [] ≡ []
unfolding take
take_none zero = refl
take_none (suc n) = refl

slice-take :
    (bs : Bytes) (offset n stop : ℕ)
    → offset ≤ stop
    → stop ≤ length bs
    → (stop ≡ length bs) ⊎ (stop ≡ offset + n)
    → stop ≤ offset + n
    → slice bs offset stop ≡ some (take n (drop offset bs))
unfolding slice
slice-take bs offset n stop low high (inl e) within = ground (
  arith,
  low,
  high,
  e,
  within,
  take_all (stop - offset) (drop offset bs) (omega (arith, length-drop offset bs)),
  take_all n (drop offset bs) (omega (arith, length-drop offset bs)),
)
slice-take bs offset n stop low high (inr e) within =
    let same : stop - offset ≡ n = omega arith in
    ground (arith, low, high, ap (λ k. take k (drop offset bs)) same)

module _ (bs : Bytes) (offset n : ℕ) where
  no_bytes : (length bs ≤ offset) ⊎ (n ≡ 0) → some [] ≡ some (take n (drop offset bs))
  unfolding take
  no_bytes (inl past) = rw (drop_all offset bs past) (rw (take_none n))
  no_bytes (inr nothing) = rw nothing

  -- Where the end of the range fits in an int64, the range is what remains of the n bytes from
  -- the offset on, without a panic.
  pub slice_range-take :
      offset + n < int64_end → slice_range bs offset n ≡ some (take n (drop offset bs))
  unfolding slice_range
  slice_range-take fits = elim (Bool-cases (leb (length bs) offset || n == 0)) [
    | inl empty ↦
        let why : (length bs ≤ offset) ⊎ (n ≡ 0) = ground (arith, empty) in
        ground (arith, empty, no_bytes why)
    | inr some_bytes ↦ elim (Bool-cases (ltb (length bs) (offset + n))) [
      | inl long ↦
          let cut : slice bs offset (length bs) ≡ some (take n (drop offset bs)) =
            slice-take bs offset n (length bs) (ground (arith, some_bytes)) (omega arith) (inl refl)
              (ground (arith, long)) in
          ground (arith, fits, some_bytes, long, cut)
      | inr short ↦
          let whole : slice bs offset (offset + n) ≡ some (take n (drop offset bs)) =
            slice-take bs offset n (offset + n) (omega arith) (ground (arith, short)) (inr refl)
              (omega arith) in
          ground (arith, fits, some_bytes, short, whole)
    ]
  ]

  -- A range that starts in the file and whose end does not fit in an int64 is a panic, although
  -- neither the offset nor the length is negative.
  pub slice_range_panics :
      offset < length bs
      → n < int64_end
      → length bs < int64_end
      → int64_end ≤ offset + n
      → slice_range bs offset n ≡ none
  unfolding slice_range
  slice_range_panics inside small held over = ground arith
