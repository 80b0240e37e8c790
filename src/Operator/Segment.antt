-- ===== src/Operator/Segment.antt =====
-- `SafeVolumePathSegment` of internal/k8soperator/planner.go. The first 16 bytes of the SHA-256 sum of a
-- text, in hexadecimal digits, are the parameter `sum16`.
use smol_agent_oci_fs.Base.{
  ℕ, Bytes, codes, slash, Bool, true, false, not, ◌&&◌, ◌||◌, ◌==◌, leb, if◌then◌else◌, [], ◌∷◌,
  ◌++◌, length, eqb, ◌≡◌, ◌≢◌, refl, arith, Bool-cases, inl, inr, All, All-append,
}
use smol_agent_oci_fs.Paths.Components.{dot, dotdot}

abbrev pub is_alnum : ℕ → Bool
is_alnum c = (leb 48 c && leb c 57) || (leb 65 c && leb c 90) || (leb 97 c && leb c 122)

abbrev pub is_id_byte : ℕ → Bool
is_id_byte c = is_alnum c || c == b'_' || c == b'.' || c == b'-'

unfoldable pub all_id_bytes : Bytes → Bool
all_id_bytes [] = true
all_id_bytes (c ∷ s) = is_id_byte c && all_id_bytes s

-- ^[A-Za-z0-9][A-Za-z0-9_.-]{0,127}$
unfoldable pub is_safe_id : Bytes → Bool
is_safe_id [] = false
is_safe_id (c ∷ s) = is_alnum c && all_id_bytes s && leb (length s) 127

-- Whether a text is its own segment.
abbrev pub keeps : Bytes → Bool
keeps v = is_safe_id v && not (eqb v dot) && not (eqb v dotdot)

module _ (sum16 : Bytes → Bytes) where
  unfoldable pub safe_volume_path_segment : Bytes → Bytes
  safe_volume_path_segment v = if keeps v then v else codes "~volume-" ++ sum16 v

-- No byte of the text is a slash.
abbrev pub IsFlat : Bytes → Type 0
IsFlat s = All (λ c. c ≢ slash) s

-- The name of one file: not empty, not a dot or two, and without a slash.
abbrev pub IsSegment : Bytes → Type 0
IsSegment s = (s ≢ []) × (s ≢ dot) × (s ≢ dotdot) × IsFlat s

id_bytes-IsFlat : (s : Bytes) → all_id_bytes s ≡ true → IsFlat s
unfolding all_id_bytes
id_bytes-IsFlat [] h = tt
id_bytes-IsFlat (c ∷ s) h = (λ e. ground (arith, h, e), id_bytes-IsFlat s (ground (arith, h)))

safe_id-IsFlat : (v : Bytes) → is_safe_id v ≡ true → IsFlat v
unfolding is_safe_id
safe_id-IsFlat [] h = tt
safe_id-IsFlat (c ∷ s) h = (λ e. ground (arith, h, e), id_bytes-IsFlat s (ground (arith, h)))

-- A safe text starts with a letter or a digit.
safe_start :
    (v : Bytes) → is_safe_id v ≡ true → (c : ℕ) × (s : Bytes) × (v ≡ c ∷ s) × (is_alnum c ≡ true)
unfolding is_safe_id
safe_start [] h = absurd (cc)
safe_start (c ∷ s) h = (c, s, refl, ground (arith, h))

tilde-IsFlat : IsFlat (codes "~volume-")
tilde-IsFlat = (
  λ e. omega arith,
  (
    λ e. omega arith,
    (
      λ e. omega arith,
      (
        λ e. omega arith,
        (λ e. omega arith, (λ e. omega arith, (λ e. omega arith, (λ e. omega arith, tt)))),
      ),
    ),
  ),
)

tilde-IsSegment : (s : Bytes) → IsFlat s → IsSegment (codes "~volume-" ++ s)
tilde-IsSegment s flat = (
  λ e. cc,
  λ e. ground (arith, e),
  λ e. ground (arith, e),
  All-append (λ c. c ≢ slash) (codes "~volume-") s tilde-IsFlat flat,
)

starts_safe-IsSegment : (c : ℕ) (s : Bytes) → is_alnum c ≡ true → IsFlat (c ∷ s) → IsSegment (c ∷ s)
starts_safe-IsSegment c s h flat =
    (λ e. cc, λ e. ground (arith, h, e), λ e. ground (arith, h, e), flat)

safe-IsSegment :
    (v : Bytes) → is_safe_id v ≡ true → (eqb v dot ≡ false) × (eqb v dotdot ≡ false) → IsSegment v
unfolding is_safe_id
safe-IsSegment [] h n = absurd (cc)
safe-IsSegment (c ∷ s) h n =
    starts_safe-IsSegment c s (ground (arith, h)) (safe_id-IsFlat (c ∷ s) h)

-- A coded segment is no safe text.
coded_unsafe : (v s : Bytes) → is_safe_id v ≡ true → v ≢ codes "~volume-" ++ s
unfolding is_safe_id
coded_unsafe [] s h e = cc
coded_unsafe (c ∷ v) s h e = ground (arith, h, e)

same_tail : (a b : Bytes) → codes "~volume-" ++ a ≡ codes "~volume-" ++ b → a ≡ b
same_tail a b h = cc

module _ (sum16 : Bytes → Bytes) (flat : (v : Bytes) → IsFlat (sum16 v)) where
  -- Whatever a volume is called, its segment is the name of one file in the workspace root: it is
  -- not empty, no dot or two, and has no slash, given that the sums have none.
  pub safe_volume_path_segment-IsSegment :
      (v : Bytes) → IsSegment (safe_volume_path_segment sum16 v)
  unfolding safe_volume_path_segment
  safe_volume_path_segment-IsSegment v = elim (Bool-cases (keeps v)) [
    | inl safe ↦
        rw safe
          (safe-IsSegment v (ground (arith, safe)) (ground (arith, safe), ground (arith, safe)))
    | inr coded ↦ rw coded (tilde-IsSegment (sum16 v) (flat v))
  ]

module _ (sum16 : Bytes → Bytes) (v w : Bytes) (apart : sum16 v ≡ sum16 w → v ≡ w) where
  -- Two volumes have the same segment only if they are called the same, given that the sums of the
  -- two do not collide: a coded segment is never a safe name.
  pub safe_volume_path_segment_injective :
      safe_volume_path_segment sum16 v ≡ safe_volume_path_segment sum16 w → v ≡ w
  unfolding safe_volume_path_segment
  safe_volume_path_segment_injective h = elim (Bool-cases (keeps v)) [
    | inl a ↦ elim (Bool-cases (keeps w)) [
      | inl b ↦ ground (arith, a, b, h)
      | inr b ↦ absurd (coded_unsafe v (sum16 w) (ground (arith, a)) (ground (arith, a, b, h)))
    ]
    | inr a ↦ elim (Bool-cases (keeps w)) [
      | inl b ↦ absurd (coded_unsafe w (sum16 v) (ground (arith, b)) (ground (arith, a, b, h)))
      | inr b ↦ apart (same_tail (sum16 v) (sum16 w) (ground (arith, a, b, h)))
    ]
  ]
