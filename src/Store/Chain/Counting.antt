-- ===== src/Store/Chain/Counting.antt =====
-- Distinct keys of a store are at most as many as its files.
use smol_agent_oci_fs.Base.{
  ◌+◌, ◌≤◌, Bytes, Bool, true, false, not, List, [], ◌∷◌, length, keep, eqb, eqb→eq, eqb_comm, elem,
  any, lookup, Option, none, some, ◌≡◌, refl, arith, ap, ◌∙◌, sym, All, Bool-cases, inl, inr,
}

abbrev pub is_there {ℓ} : {A : Type ℓ} → Option A → Bool
is_there none = false
is_there (some a) = true

abbrev pub AreDistinct : List Bytes → Type 0
AreDistinct [] = Unit
AreDistinct (k ∷ ks) = (elem k ks ≡ false) × AreDistinct ks

abbrev pub AreThere : List (Bytes × Bytes) → List Bytes → Type 0
AreThere blobs ks = All (λ k. is_there (lookup k blobs) ≡ true) ks

abbrev others : Bytes → List Bytes → List Bytes
others a ks = keep (λ k. not (eqb k a)) ks

length-others : (a : Bytes) (ks : List Bytes) → length (others a ks) ≤ length ks
unfolding keep
length-others a [] = omega arith
length-others a (k ∷ ks) = ground (arith, length-others a ks)

others_absent : (a : Bytes) (ks : List Bytes) → elem a ks ≡ false → length (others a ks) ≡ length ks
unfolding keep elem any
others_absent a [] h = refl
others_absent a (k ∷ ks) h = ground (arith, others_absent a ks, h, eqb_comm a k)

length-others_distinct :
    (a : Bytes) (ks : List Bytes) → AreDistinct ks → length ks ≤ length (others a ks) + 1
unfolding keep
length-others_distinct a [] d = omega arith
length-others_distinct a (k ∷ ks) d = elim (Bool-cases (eqb k a)) [
  | inl y ↦
      let gone : elem a ks ≡ false = ap (λ x. elem x ks) (sym (eqb→eq k a y)) ∙ d.0 in
      rw y (omega (arith, others_absent a ks gone))
  | inr n ↦ rw n (omega (arith, length-others_distinct a ks d.1))
]

elem-others : (a k : Bytes) (ks : List Bytes) → elem k ks ≡ false → elem k (others a ks) ≡ false
unfolding keep elem any
elem-others a k [] h = refl
elem-others a k (j ∷ ks) h = ground (arith, elem-others a k ks, h)

others-AreDistinct : (a : Bytes) (ks : List Bytes) → AreDistinct ks → AreDistinct (others a ks)
unfolding keep
others-AreDistinct a [] d = tt
others-AreDistinct a (k ∷ ks) d = elim (Bool-cases (eqb k a)) [
  | inl y ↦ rw y (others-AreDistinct a ks d.1)
  | inr n ↦ rw n (elem-others a k ks d.0, others-AreDistinct a ks d.1)
]

others-AreThere :
    (a v : Bytes) (blobs : List (Bytes × Bytes)) (ks : List Bytes)
    → AreThere ((a, v) ∷ blobs) ks
    → AreThere blobs (others a ks)
unfolding keep lookup
others-AreThere a v blobs [] h = tt
others-AreThere a v blobs (k ∷ ks) h = elim (Bool-cases (eqb k a)) [
  | inl y ↦ rw y (others-AreThere a v blobs ks h.1)
  | inr n ↦ rw n (ground (arith, n, h.0), others-AreThere a v blobs ks h.1)
]

none_there : (ks : List Bytes) → AreThere [] ks → length ks ≡ 0
unfolding lookup
none_there [] h = refl
none_there (k ∷ ks) h = absurd (ground (arith, h.0))

pub length-AreThere :
    (blobs : List (Bytes × Bytes)) (ks : List Bytes)
    → AreDistinct ks
    → AreThere blobs ks
    → length ks ≤ length blobs
length-AreThere [] ks d h = omega (arith, none_there ks h)
length-AreThere ((a, v) ∷ blobs) ks d h = omega (
  arith,
  length-others_distinct a ks d,
  length-AreThere blobs (others a ks) (others-AreDistinct a ks d) (others-AreThere a v blobs ks h),
)
