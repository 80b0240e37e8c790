-- ===== src/Base/Dict.antt =====
-- Go's `map[string]V` as an association list with one entry for each key. The order in which a
-- `range` visits the entries is that of the list: every `range` of the sources sorts what it
-- collects, or does not depend on the order.
use mathlib.Core.Path.{◌≡◌, refl}
use mathlib.Core.Logic.{inl, inr}
use mathlib.Core.Bool.{Bool}
use mathlib.Core.Option.{Option, none, some}
use mathlib.Core.List.{List, [], ◌∷◌}
use native.Mathlib.Omega.{arith}
use smol_agent_oci_fs.Base.Tests.{if◌then◌else◌, Bool-cases}
use smol_agent_oci_fs.Base.Strings.{Bytes, eqb, eqb→eq, eqb_refl, eqb_iff}

module _ {ℓ} {V : Type ℓ} where
  -- m[k], with the `ok` of the comma-ok form as the Option
  unfoldable pub lookup : Bytes → List (Bytes × V) → Option V
  lookup k [] = none
  lookup k ((j, v) ∷ m) = if eqb k j then some v else lookup k m

  -- m[k] = v
  unfoldable pub insert : Bytes → V → List (Bytes × V) → List (Bytes × V)
  insert k v [] = (k, v) ∷ []
  insert k v ((j, w) ∷ m) = if eqb k j then (k, v) ∷ m else (j, w) ∷ insert k v m

  -- The entries whose key passes: `delete(m, k)` for each of the others.
  unfoldable pub keep_keys : (Bytes → Bool) → List (Bytes × V) → List (Bytes × V)
  keep_keys f [] = []
  keep_keys f ((j, w) ∷ m) = let rest = keep_keys f m in if f j then (j, w) ∷ rest else rest

  unfoldable pub values : List (Bytes × V) → List V
  values [] = []
  values ((j, w) ∷ m) = w ∷ values m

  pub lookup-insert :
      (j k : Bytes) (v : V) (m : List (Bytes × V))
      → lookup j (insert k v m) ≡ (if eqb j k then some v else lookup j m)
  unfolding lookup insert
  lookup-insert j k v [] = refl
  lookup-insert j k v ((i, w) ∷ m) =
      ground (arith, eqb_iff k i, eqb_iff j i, eqb_iff j k, lookup-insert j k v m)

  pub lookup-keep_keys :
      (f : Bytes → Bool) (k : Bytes) (m : List (Bytes × V))
      → lookup k (keep_keys f m) ≡ (if f k then lookup k m else none)
  unfolding lookup keep_keys
  lookup-keep_keys f k [] = ground arith
  lookup-keep_keys f k ((i, w) ∷ m) = elim (Bool-cases (eqb k i)) [
    | inl e ↦ rw (eqb→eq k i e) (ground (arith, eqb_refl i, lookup-keep_keys f i m))
    | inr e ↦ ground (arith, lookup-keep_keys f k m)
  ]
