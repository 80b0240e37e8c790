-- ===== src/Tree/Whiteout/Defs.antt =====
-- `mergeWhiteouts` of internal/osix/snapshot.go.
use smol_agent_oci_fs.Base.{
  Bytes, slash, if◌then◌else◌, Bool, true, false, ◌||◌, List, [], ◌∷◌, ◌++◌, eqb, has_prefix, any,
  elem, sort, str_leb, ◌≡◌, arith,
}
use mathlib.Core.List.{flatten}

-- The loop that fills `merged`, with the set `seen`: it skips the empty path and what it has seen.
unfoldable pub merge_unique : List Bytes → List Bytes → List Bytes
merge_unique seen [] = []
merge_unique seen (p ∷ ps) = elim (eqb p [] || elem p seen) [
  | true ↦ merge_unique seen ps
  | false ↦ p ∷ merge_unique (p ∷ seen) ps
]

module _ (seen : List Bytes) (p : Bytes) (ps : List Bytes) where
  pub merge_unique_skip :
      (eqb p [] || elem p seen) ≡ true → merge_unique seen (p ∷ ps) ≡ merge_unique seen ps
  unfolding merge_unique
  merge_unique_skip h = ground (arith, h)

  pub merge_unique_take :
      (eqb p [] || elem p seen) ≡ false
      → merge_unique seen (p ∷ ps) ≡ p ∷ merge_unique (p ∷ seen) ps
  unfolding merge_unique
  merge_unique_take h = ground (arith, h)

-- `for _, parent := range pruned`
unfoldable pub is_pruned : List Bytes → Bytes → Bool
is_pruned pruned path = any (λ parent. has_prefix path (parent ++ (slash ∷ []))) pruned

unfoldable pub prune : List Bytes → List Bytes → List Bytes
prune pruned [] = pruned
prune pruned (p ∷ ps) = prune (if is_pruned pruned p then pruned else pruned ++ (p ∷ [])) ps

unfoldable pub merge_whiteouts : List (List Bytes) → List Bytes
merge_whiteouts groups = prune [] (sort str_leb (merge_unique [] (flatten groups)))
