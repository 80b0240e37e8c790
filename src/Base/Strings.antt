-- ===== src/Base/Strings.antt =====
-- Go strings as sequences of bytes: equality, `strings.HasPrefix`, `strings.HasSuffix`,
-- `strings.TrimPrefix`, `strings.TrimSpace`, `strings.ReplaceAll` of one byte, and the order of
-- `sort.Strings`.
use Prim.Native.Nat.{ℕ}
use Prim.Native.Char.{code}
use Prim.Native.String.{String}
use mathlib.Core.Path.{◌≡◌, refl, ap, ◌∙◌}
use mathlib.Core.Logic.{◌↔◌}
use mathlib.Core.Bool.{Bool, true, false, ◌&&◌, ◌||◌}
use mathlib.Core.List.{List, [], ◌∷◌, ◌++◌, reverse, append_assoc}
use native.Mathlib.Omega.{arith}
use smol_agent_oci_fs.Base.Tests.{ltb, ◌==◌, ==_iff, if◌then◌else◌, &&-eq-true}

abbrev pub Bytes : Type 0
Bytes = List ℕ

-- The bytes of an ASCII text.
abbrev pub codes : String → Bytes
codes String.[] = []
codes (String.◌∷◌ c s) = code c ∷ codes s

abbrev pub slash : ℕ
slash = b'/'

unfoldable pub eqb : Bytes → Bytes → Bool
eqb [] [] = true
eqb [] (y ∷ ys) = false
eqb (x ∷ xs) [] = false
eqb (x ∷ xs) (y ∷ ys) = x == y && eqb xs ys

pub eqb→eq : (s t : Bytes) → eqb s t ≡ true → s ≡ t
unfolding eqb
eqb→eq [] [] h = refl
eqb→eq [] (y ∷ ys) h = cc
eqb→eq (x ∷ xs) [] h = cc
eqb→eq (x ∷ xs) (y ∷ ys) h =
    let both = &&-eq-true (x == y) (eqb xs ys) h in
    let tails = eqb→eq xs ys both.1 in let heads = (==_iff x y).0 both.0 in cc

pub eqb_refl : (s : Bytes) → eqb s s ≡ true
unfolding eqb
eqb_refl [] = refl
eqb_refl (x ∷ xs) = ground (arith, eqb_refl xs)

pub eqb_iff : (s t : Bytes) → (eqb s t ≡ true) ↔ (s ≡ t)
eqb_iff s t = (eqb→eq s t, λ e. rw e (eqb_refl t))

pub eqb_comm : (s t : Bytes) → eqb s t ≡ eqb t s
unfolding eqb
eqb_comm [] [] = refl
eqb_comm [] (y ∷ ys) = refl
eqb_comm (x ∷ xs) [] = refl
eqb_comm (x ∷ xs) (y ∷ ys) = ground (arith, eqb_comm xs ys)

-- strings.HasPrefix(s, prefix)
unfoldable pub has_prefix : Bytes → Bytes → Bool
has_prefix s [] = true
has_prefix [] (p ∷ ps) = false
has_prefix (c ∷ s) (p ∷ ps) = c == p && has_prefix s ps

pub has_prefix-append : (p r : Bytes) → has_prefix (p ++ r) p ≡ true
unfolding has_prefix
has_prefix-append [] r = refl
has_prefix-append (c ∷ p) r = ground (arith, has_prefix-append p r)

pub has_prefix_split : (s p : Bytes) → has_prefix s p ≡ true → (r : Bytes) × (s ≡ p ++ r)
unfolding has_prefix
has_prefix_split s [] h = (s, refl)
has_prefix_split [] (p ∷ ps) h = cc
has_prefix_split (c ∷ s) (p ∷ ps) h =
    let both = &&-eq-true (c == p) (has_prefix s ps) h in
    let (r, e) = has_prefix_split s ps both.1 in let heads = (==_iff c p).0 both.0 in (r, cc)

pub has_prefix_iff : (s p : Bytes) → (has_prefix s p ≡ true) ↔ ((r : Bytes) × (s ≡ p ++ r))
has_prefix_iff s p = (has_prefix_split s p, λ (r, e). rw e (has_prefix-append p r))

pub has_prefix_trans :
    (a b c : Bytes) → has_prefix b a ≡ true → has_prefix c b ≡ true → has_prefix c a ≡ true
has_prefix_trans a b c h k =
    let (r, e) = has_prefix_split b a h in
    let (t, f) = has_prefix_split c b k in
    rw (f ∙ ap (λ (z : Bytes). z ++ t) e ∙ append_assoc a r t) (has_prefix-append a (r ++ t))

-- strings.TrimPrefix(s, prefix)
unfoldable pub trim_prefix : Bytes → Bytes → Bytes
unfolding has_prefix
trim_prefix s [] = s
trim_prefix [] (p ∷ ps) = []
trim_prefix (c ∷ s) (p ∷ ps) = if has_prefix (c ∷ s) (p ∷ ps) then trim_prefix s ps else c ∷ s

pub trim_prefix-append : (p r : Bytes) → trim_prefix (p ++ r) p ≡ r
unfolding trim_prefix
trim_prefix-append [] r = refl
trim_prefix-append (c ∷ p) r = rw (has_prefix-append (c ∷ p) r) (trim_prefix-append p r)

-- strings.HasSuffix(s, suffix), strings.TrimSuffix(s, suffix)
unfoldable pub has_suffix : Bytes → Bytes → Bool
unfolding has_prefix
has_suffix s t = has_prefix (reverse s) (reverse t)

unfoldable pub trim_suffix : Bytes → Bytes → Bytes
unfolding trim_prefix
trim_suffix s t = reverse (trim_prefix (reverse s) (reverse t))

-- strings.Contains(s, sub)
unfoldable pub contains : Bytes → Bytes → Bool
unfolding has_prefix
contains [] sub = has_prefix [] sub
contains (c ∷ s) sub = has_prefix (c ∷ s) sub || contains s sub

-- The ASCII part of unicode.IsSpace, by which strings.TrimSpace trims ASCII texts.
abbrev pub is_space : ℕ → Bool
is_space c = c == 32 || (ltb 8 c && ltb c 14)

unfoldable pub trim_left : Bytes → Bytes
trim_left [] = []
trim_left (c ∷ s) = let rest = trim_left s in if is_space c then rest else c ∷ s

-- strings.TrimSpace(s), for texts that neither start nor end in one of the spaces outside of ASCII
-- (U+0085, U+00A0, U+1680, U+2000 and more), which the function of the source takes away too.
unfoldable pub trim_space : Bytes → Bytes
unfolding trim_left
trim_space s = reverse (trim_left (reverse (trim_left s)))

-- The `<=` of Go strings, by bytes: the order in which `sort.Strings` puts them.
unfoldable pub str_leb : Bytes → Bytes → Bool
str_leb [] t = true
str_leb (c ∷ s) [] = false
str_leb (c ∷ s) (d ∷ t) = ltb c d || (c == d && str_leb s t)

pub str_leb_total : (s t : Bytes) → str_leb s t ≡ false → str_leb t s ≡ true
unfolding str_leb
str_leb_total [] t h = cc
str_leb_total (c ∷ s) [] h = refl
str_leb_total (c ∷ s) (d ∷ t) h = ground (arith, str_leb_total s t)

pub str_leb_trans : (a b c : Bytes) → str_leb a b ≡ true → str_leb b c ≡ true → str_leb a c ≡ true
unfolding str_leb
str_leb_trans [] b c h k = refl
str_leb_trans (x ∷ a) [] c h k = cc
str_leb_trans (x ∷ a) (y ∷ b) [] h k = cc
str_leb_trans (x ∷ a) (y ∷ b) (z ∷ c) h k = ground (arith, str_leb_trans a b c)

pub str_leb_antisymm : (a b : Bytes) → str_leb a b ≡ true → str_leb b a ≡ true → a ≡ b
unfolding str_leb
str_leb_antisymm [] [] h k = refl
str_leb_antisymm [] (y ∷ b) h k = cc
str_leb_antisymm (x ∷ a) [] h k = cc
str_leb_antisymm (x ∷ a) (y ∷ b) h k = ground (arith, str_leb_antisymm a b)

pub str_leb-append : (a r : Bytes) → str_leb a (a ++ r) ≡ true
unfolding str_leb
str_leb-append [] r = refl
str_leb-append (c ∷ a) r = ground (arith, str_leb-append a r)
