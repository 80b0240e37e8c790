-- ===== src/Base/Lists.antt =====
-- Lists measured and searched by Boolean tests, predicates on all elements, and insertion sort:
-- the `sort.Slice` and `sort.Strings` of the sources, whose keys are compared by a total order.
use Prim.Native.Nat.{ℕ, suc, ◌+◌}
use mathlib.Core.Path.{◌≡◌, refl, ap, ◌∙◌}
use mathlib.Core.Logic.{inl, inr}
use mathlib.Core.Bool.{Bool, true, false, ◌||◌}
use mathlib.Core.List.{List, [], ◌∷◌, ◌++◌}
use native.Mathlib.Omega.{arith}
use smol_agent_oci_fs.Base.Tests.{if◌then◌else◌, Bool-cases}
use smol_agent_oci_fs.Base.Strings.{Bytes, eqb}

module _ {ℓ} {A : Type ℓ} where
  abbrev pub length : List A → ℕ
  length [] = 0
  length (x ∷ xs) = suc (length xs)

  -- `for … { if test(x) { return true } }`
  unfoldable pub any : (A → Bool) → List A → Bool
  any f [] = false
  any f (x ∷ xs) = f x || any f xs

  -- The elements that pass, in order: a loop of `if test(x) { out = append(out, x) }`.
  unfoldable pub keep : (A → Bool) → List A → List A
  keep f [] = []
  keep f (x ∷ xs) = let rest = keep f xs in if f x then x ∷ rest else rest

  abbrev pub All {κ} : (A → Type κ) → List A → Type κ
  All P [] = Unit
  All P (x ∷ xs) = P x × All P xs

  pub any-append : (f : A → Bool) (xs ys : List A) → any f (xs ++ ys) ≡ (any f xs || any f ys)
  unfolding any
  any-append f [] ys = refl
  any-append f (x ∷ xs) ys = ground (arith, any-append f xs ys)

  pub length-append : (xs ys : List A) → length (xs ++ ys) ≡ length xs + length ys
  length-append [] ys = omega arith
  length-append (x ∷ xs) ys = omega (arith, length-append xs ys)

module _ {ℓ κ} {A : Type ℓ} where
  pub All-append : (P : A → Type κ) (xs ys : List A) → All P xs → All P ys → All P (xs ++ ys)
  All-append P [] after first second = second
  All-append P (x ∷ before) after (px, first) second = (px, All-append P before after first second)

  pub All-keep : (P : A → Type κ) (f : A → Bool) (xs : List A) → All P xs → All P (keep f xs)
  unfolding keep
  All-keep P f [] h = tt
  All-keep P f (x ∷ xs) h = elim (Bool-cases (f x)) [
    | inl e ↦ rw e (h.0, All-keep P f xs h.1)
    | inr e ↦ rw e (All-keep P f xs h.1)
  ]

  pub All-map : (P Q : A → Type κ) (xs : List A) → ((x : A) → P x → Q x) → All P xs → All Q xs
  All-map P Q [] f h = tt
  All-map P Q (x ∷ xs) f h = (f x h.0, All-map P Q xs f h.1)

  -- What a test found, with the place where it was found.
  pub any_found :
      (P : A → Type κ) (f : A → Bool) (xs : List A)
      → All P xs
      → any f xs ≡ true
      → (x : A) × P x × (f x ≡ true)
  unfolding any
  any_found P f [] h e = absurd (cc)
  any_found P f (x ∷ xs) h e = elim (Bool-cases (f x)) [
    | inl here ↦ (x, h.0, here)
    | inr there ↦ any_found P f xs h.1 (rw there at e)
  ]

-- Membership of a string in a slice or a set.
unfoldable pub elem : Bytes → List Bytes → Bool
unfolding eqb any
elem s = any (eqb s)

-- Insertion sort by a Boolean order.
module _ {ℓ} {A : Type ℓ} (le : A → A → Bool) where
  unfoldable pub insert_sorted : A → List A → List A
  insert_sorted x [] = x ∷ []
  insert_sorted x (y ∷ ys) =
      let rest = insert_sorted x ys in if le x y then x ∷ y ∷ ys else y ∷ rest

  unfoldable pub sort : List A → List A
  unfolding insert_sorted
  sort [] = []
  sort (x ∷ xs) = insert_sorted x (sort xs)

  pub any-insert_sorted :
      (f : A → Bool) (x : A) (ys : List A) → any f (insert_sorted x ys) ≡ (f x || any f ys)
  unfolding any insert_sorted
  any-insert_sorted f x [] = refl
  any-insert_sorted f x (y ∷ ys) = ground (arith, any-insert_sorted f x ys)

  -- Sorting keeps what a search finds.
  pub any-sort : (f : A → Bool) (xs : List A) → any f (sort xs) ≡ any f xs
  unfolding any sort
  any-sort f [] = refl
  any-sort f (x ∷ xs) = rw any-insert_sorted (ground (arith, any-sort f xs))

  pub length-insert_sorted : (x : A) (ys : List A) → length (insert_sorted x ys) ≡ suc (length ys)
  unfolding insert_sorted
  length-insert_sorted x [] = refl
  length-insert_sorted x (y ∷ ys) = ground (arith, length-insert_sorted x ys)

  pub length-sort : (xs : List A) → length (sort xs) ≡ length xs
  unfolding sort
  length-sort [] = refl
  length-sort (x ∷ xs) = length-insert_sorted x (sort xs) ∙ ap suc (length-sort xs)

  abbrev pub IsSorted : List A → Type 0
  IsSorted [] = Unit
  IsSorted (x ∷ xs) = All (λ y. le x y ≡ true) xs × IsSorted xs

  module _ (total : (x y : A) → le x y ≡ false → le y x ≡ true)
      (trans : (x y z : A) → le x y ≡ true → le y z ≡ true → le x z ≡ true) where
    All-insert_sorted :
        (P : A → Type 0) (x : A) (ys : List A) → P x → All P ys → All P (insert_sorted x ys)
    unfolding insert_sorted
    All-insert_sorted P x [] px h = (px, tt)
    All-insert_sorted P x (y ∷ ys) px h = elim (Bool-cases (le x y)) [
      | inl e ↦ rw e (px, h)
      | inr e ↦ rw e (h.0, All-insert_sorted P x ys px h.1)
    ]

    insert_sorted-IsSorted : (x : A) (ys : List A) → IsSorted ys → IsSorted (insert_sorted x ys)
    unfolding insert_sorted
    insert_sorted-IsSorted x [] h = (tt, tt)
    insert_sorted-IsSorted x (y ∷ ys) h = elim (Bool-cases (le x y)) [
      | inl e ↦ rw e (
        (e, All-map (λ z. le y z ≡ true) (λ z. le x z ≡ true) ys (λ z k. trans x y z e k) h.0),
        h,
      )
      | inr e ↦ rw e (
        All-insert_sorted (λ z. le y z ≡ true) x ys (total x y e) h.0,
        insert_sorted-IsSorted x ys h.1,
      )
    ]

    pub sort-IsSorted : (xs : List A) → IsSorted (sort xs)
    unfolding sort
    sort-IsSorted [] = tt
    sort-IsSorted (x ∷ xs) = insert_sorted-IsSorted x (sort xs) (sort-IsSorted xs)
