-- ===== src/Layer/Removal.antt =====
-- The whiteouts of a layer, all of them: what the first part of `extractLayer` of
-- internal/osix/snapshot.go leaves.
use mathlib.Core.List.{flatten}
use smol_agent_oci_fs.Base.{
  ℕ, Bytes, if◌then◌else◌, ◌||◌, List, [], ◌∷◌, ◌++◌, map, eqb, any, elem, sort, insert_sorted,
  str_leb, none, ◌≡◌, inl, inr, refl, ◌∙◌, arith, All, All-append, Bool-cases,
}
use smol_agent_oci_fs.Tree.Entry.{covers, is_covered}
use smol_agent_oci_fs.Tree.Whiteout.Defs.{
  merge_unique, merge_unique_skip, merge_unique_take, is_pruned, prune, merge_whiteouts,
}
use smol_agent_oci_fs.Layer.Disk.{Disk, ok, remove_all}
use smol_agent_oci_fs.Layer.Make.{Header, whiteout_header}
use smol_agent_oci_fs.Layer.Extract.{extract_header, extract_layer}
use smol_agent_oci_fs.Layer.Descent.{IsOpenAt, Inside}
use smol_agent_oci_fs.Layer.Whiteouts.{IsTarget, extract_header-whiteout}

-- Merged whiteouts are among the given ones.
module _ (P : Bytes → Type 0) where
  All-merge_unique : (seen ps : List Bytes) → All P ps → All P (merge_unique seen ps)
  All-merge_unique seen [] h = unfold merge_unique in tt
  All-merge_unique seen (p ∷ ps) h = elim (Bool-cases (eqb p [] || elem p seen)) [
    | inl y ↦ rw (merge_unique_skip seen p ps y) (All-merge_unique seen ps h.1)
    | inr n ↦ rw (merge_unique_take seen p ps n) (h.0, All-merge_unique (p ∷ seen) ps h.1)
  ]

  All-insert_sorted :
      (p : Bytes) (ps : List Bytes) → P p → All P ps → All P (insert_sorted str_leb p ps)
  unfolding insert_sorted
  All-insert_sorted p [] hp h = (hp, tt)
  All-insert_sorted p (q ∷ ps) hp h = elim (Bool-cases (str_leb p q)) [
    | inl y ↦ rw y (hp, h)
    | inr n ↦ rw n (h.0, All-insert_sorted p ps hp h.1)
  ]

  All-sort : (ps : List Bytes) → All P ps → All P (sort str_leb ps)
  unfolding sort
  All-sort [] h = tt
  All-sort (p ∷ ps) h = All-insert_sorted p (sort str_leb ps) h.0 (All-sort ps h.1)

  All-prune : (ts ps : List Bytes) → All P ts → All P ps → All P (prune ts ps)
  unfolding prune
  All-prune ts [] ht h = ht
  All-prune ts (p ∷ ps) ht h = elim (Bool-cases (is_pruned ts p)) [
    | inl y ↦ rw y (All-prune ts ps ht h.1)
    | inr n ↦ rw n (All-prune (ts ++ (p ∷ [])) ps (All-append P ts (p ∷ []) ht (h.0, tt)) h.1)
  ]

  pub All-merge_whiteouts :
      (groups : List (List Bytes)) → All P (flatten groups) → All P (merge_whiteouts groups)
  unfolding merge_whiteouts
  All-merge_whiteouts groups h =
      All-prune [] (sort str_leb (merge_unique [] (flatten groups))) tt
        (All-sort (merge_unique [] (flatten groups)) (All-merge_unique [] (flatten groups) h))

-- The disk without what the whiteouts cover.
unfoldable pub remove_each : Disk → List Bytes → Disk
remove_each fs [] = fs
remove_each fs (w ∷ ws) = remove_each (remove_all fs w) ws

pub remove_each_at :
    (fs : Disk) (ws : List Bytes) (q : Bytes)
    → remove_each fs ws q ≡ (if is_covered ws q then none else fs q)
unfolding remove_each remove_all is_covered any
remove_each_at fs [] q = refl
remove_each_at fs (w ∷ ws) q = ground (arith, remove_each_at (remove_all fs w) ws q)

-- A whiteout that may be written, where nothing but directories stands above it.
abbrev pub IsRemovable : Disk → Bytes → Type 0
IsRemovable fs w = IsTarget w × ((a : Bytes) → Inside a w → IsOpenAt fs a)

open-remove_all : (fs : Disk) (w a : Bytes) → IsOpenAt fs a → IsOpenAt (remove_all fs w) a
unfolding remove_all
open-remove_all fs w a o = elim (Bool-cases (covers w a)) [ inl y ↦ inl (rw y) | inr n ↦ rw n o ]

stays-IsRemovable :
    (fs : Disk) (w : Bytes) (ws : List Bytes)
    → All (IsRemovable fs) ws
    → All (IsRemovable (remove_all fs w)) ws
stays-IsRemovable fs w [] h = tt
stays-IsRemovable fs w (v ∷ ws) h =
    ((h.0.0, λ a i. open-remove_all fs w a (h.0.1 a i)), stays-IsRemovable fs w ws h.1)

pub extract_layer_cons :
    (masked : ℕ → ℕ) (fs fs' : Disk) (h : Header) (hs : List Header)
    → extract_header masked fs h ≡ ok fs'
    → extract_layer masked fs (h ∷ hs) ≡ extract_layer masked fs' hs
unfolding extract_layer
extract_layer_cons masked fs fs' h hs e = rw e

-- Extracting the whiteouts of a layer removes what they cover.
pub extract_layer-whiteouts :
    (masked : ℕ → ℕ) (fs : Disk) (ws : List Bytes) (hs : List Header)
    → All (IsRemovable fs) ws
    → extract_layer masked fs (map whiteout_header ws ++ hs)
      ≡ extract_layer masked (remove_each fs ws) hs
unfolding remove_each
extract_layer-whiteouts masked fs [] hs h = refl
extract_layer-whiteouts masked fs (w ∷ ws) hs h =
    extract_layer_cons masked fs (remove_all fs w) (whiteout_header w)
      (map whiteout_header ws ++ hs) (extract_header-whiteout masked fs w h.0.0 h.0.1)
    ∙ extract_layer-whiteouts masked (remove_all fs w) ws hs (stays-IsRemovable fs w ws h.1)
