-- ===== src/Signing/Unambiguous.antt =====
-- The encoding of internal/osix/signing.go tells payloads and types apart.
use smol_agent_oci_fs.Base.{
  ℕ, suc, Bytes, [], ◌∷◌, ◌++◌, length, some, ◌≡◌, refl, arith, ap, ◌∙◌, sym, All,
}
use smol_agent_oci_fs.Base.Decimal.{decimal, read_digits, read_digits-decimal_onto}
use smol_agent_oci_fs.Base.Trim.{IsVisible, decimal_onto-All}
use smol_agent_oci_fs.Signing.{counted, dsse_pae}

abbrev IsWord : Bytes → Type 0
IsWord = All IsVisible

-- A word ends at the first space.
word_end :
    (a b x y : Bytes) → IsWord a → IsWord b → a ++ (b' ' ∷ x) ≡ b ++ (b' ' ∷ y) → (a ≡ b) × (x ≡ y)
word_end [] [] x y h k e = (refl, cc)
word_end [] (d ∷ b) x y h k e = let same : b' ' ≡ d = cc in absurd (ground (arith, k.0, same))
word_end (c ∷ a) [] x y h k e = let same : c ≡ b' ' = cc in absurd (ground (arith, h.0, same))
word_end (c ∷ a) (d ∷ b) x y h k e = let (same, rest) = word_end a b x y h.1 k.1 cc in (cc, rest)

same_length : (a b x y : Bytes) → length a ≡ length b → a ++ x ≡ b ++ y → (a ≡ b) × (x ≡ y)
same_length [] [] x y h e = (refl, e)
same_length [] (d ∷ b) x y h e = absurd (omega arith)
same_length (c ∷ a) [] x y h e = absurd (omega arith)
same_length (c ∷ a) (d ∷ b) x y h e =
    let (same, rest) = same_length a b x y (omega arith) cc in (cc, rest)

decimal-IsWord : (n : ℕ) → IsWord (decimal n)
unfolding decimal
decimal-IsWord n = decimal_onto-All (suc n) n [] (omega arith) tt

read_decimal : (n : ℕ) → read_digits 0 (decimal n) ≡ some n
unfolding decimal read_digits
read_decimal n = read_digits-decimal_onto (suc n) n [] (omega arith)

decimal_injective : (n m : ℕ) → decimal n ≡ decimal m → n ≡ m
decimal_injective n m e =
    let same : some n ≡ some m = sym (read_decimal n) ∙ ap (read_digits 0) e ∙ read_decimal m in cc

counted_injective : (a b x y : Bytes) → counted a x ≡ counted b y → (a ≡ b) × (x ≡ y)
counted_injective a b x y e =
    let (digits, rest) =
      word_end (decimal (length a)) (decimal (length b)) (a ++ x) (b ++ y)
        (decimal-IsWord (length a)) (decimal-IsWord (length b)) e in
    same_length a b x y (decimal_injective (length a) (length b) digits) rest

-- Two payloads with their types have the same encoding only if both are the same, so that a
-- signature of one is none of another.
pub dsse_pae_injective : (s t p q : Bytes) → dsse_pae s p ≡ dsse_pae t q → (s ≡ t) × (p ≡ q)
unfolding dsse_pae
dsse_pae_injective s t p q e =
    let (types, rest) = counted_injective s t (b' ' ∷ counted p []) (b' ' ∷ counted q []) cc in
    let (payloads, ends) = counted_injective p q [] [] cc in (types, payloads)
