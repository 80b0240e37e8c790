-- ===== src/Paths/Canonical.antt =====
-- Which names the guard `canonicalLayerPath` of internal/osix/snapshot.go accepts.
use mathlib.Core.List.{append-nil, reverse-append, reverse-cons}
use smol_agent_oci_fs.Base.{
  ℕ, Bytes, slash, ◌==◌, ==_iff, Bool, true, false, ◌||◌, some, List, [], ◌∷◌, ◌++◌, reverse,
  append_assoc, eqb, eqb→eq, eqb_refl, has_prefix, has_prefix_split, ◌≡◌, ◌≢◌, ◌↔◌, ◌⊎◌, inl, inr,
  refl, sym, ap, ◌∙◌, arith, All, All-append, All-map, Bool-cases,
}
use smol_agent_oci_fs.Paths.Components.{
  dot, dotdot, cons_head, components, join, clean_step, clean_loop, or_dot, clean,
  canonical_layer_path,
}

-- A component that names a child: not empty, not `.` and not `..`.
abbrev pub IsPlain : Bytes → Type 0
IsPlain c = (eqb c [] ≡ false) × (eqb c dot ≡ false) × (eqb c dotdot ≡ false)

abbrev pub HasNoSlash : Bytes → Type 0
HasNoSlash = All (λ c. (c == slash) ≡ false)

join-cons_head : (c : ℕ) (xs : List Bytes) → join (cons_head c xs) ≡ c ∷ join xs
unfolding join
join-cons_head c [] = refl
join-cons_head c (x ∷ []) = refl
join-cons_head c (x ∷ y ∷ r) = refl

join_nil :
    (xs : List Bytes) (c : Bytes) (cs : List Bytes) → xs ≡ c ∷ cs → join ([] ∷ xs) ≡ slash ∷ join xs
unfolding join
join_nil [] c cs e = cc
join_nil (x ∷ xs) c cs e = refl

pub components-cons : (s : Bytes) → (c : Bytes) × (cs : List Bytes) × (components s ≡ c ∷ cs)
unfolding components
components-cons [] = ([], [], refl)
components-cons (c ∷ s) =
    let (x, xs, e) = components-cons s in
    elim (Bool-cases (c == slash)) [
      | inl h ↦ ([], components s, rw h)
      | inr h ↦ (c ∷ x, xs, rw (h, e))
    ]

join_single : (x : Bytes) → join (x ∷ []) ≡ x
unfolding join
join_single x = refl

pub join-components : (s : Bytes) → join (components s) ≡ s
unfolding components
join-components [] = join_single []
join-components (c ∷ s) =
    let (x, xs, e) = components-cons s in
    elim (Bool-cases (c == slash)) [
      | inl h ↦
          rw h (
            join_nil (components s) x xs e
            ∙ ground (arith, join-components s, (==_iff c slash).0 h))
      | inr h ↦
          rw h (join-cons_head c (components s) ∙ ap (λ (t : Bytes). c ∷ t) (join-components s))
    ]

components-append : (x s : Bytes) → HasNoSlash x → components (x ++ (slash ∷ s)) ≡ x ∷ components s
unfolding components
components-append [] s h = refl
components-append (c ∷ x) s h = rw (h.0, components-append x s h.1)

pub components_single : (x : Bytes) → HasNoSlash x → components x ≡ x ∷ []
unfolding components
components_single [] h = refl
components_single (c ∷ x) h = rw (h.0, components_single x h.1)

components-join :
    (c : Bytes) (cs : List Bytes) → All HasNoSlash (c ∷ cs) → components (join (c ∷ cs)) ≡ c ∷ cs
unfolding join
components-join c [] h = components_single c h.0
components-join c (d ∷ r) h =
    components-append c (join (d ∷ r)) h.0
    ∙ ap (λ (t : List Bytes). c ∷ t) (components-join d r h.1)

pub components-HasNoSlash : (s : Bytes) → All HasNoSlash (components s)
unfolding components
components-HasNoSlash [] = (tt, tt)
components-HasNoSlash (c ∷ s) = elim (Bool-cases (c == slash)) [
  | inl h ↦ rw h (tt, components-HasNoSlash s)
  | inr h ↦ rw h (cons_head-HasNoSlash c (components s) h (components-HasNoSlash s))
]
  where
    cons_head-HasNoSlash :
        (c : ℕ) (xs : List Bytes)
        → (c == slash) ≡ false
        → All HasNoSlash xs
        → All HasNoSlash (cons_head c xs)
    cons_head-HasNoSlash c [] h k = ((h, tt), tt)
    cons_head-HasNoSlash c (x ∷ xs) h k = ((h, k.0), k.1)

-- The loop keeps plain components.
pub clean_loop_plain :
    (rooted : Bool) (out cs : List Bytes)
    → All IsPlain cs
    → clean_loop rooted out cs ≡ reverse out ++ cs
unfolding clean_loop clean_step
clean_loop_plain rooted out [] h = sym (append-nil (reverse out))
clean_loop_plain rooted out (c ∷ cs) h =
    rw (h.0.0, h.0.1, h.0.2)
      (clean_loop_plain rooted (c ∷ out) cs h.1
        ∙ ap (λ (t : List Bytes). t ++ cs) (reverse-cons c out)
        ∙ append_assoc (reverse out) (c ∷ []) cs)

pub false_of_not : (b : Bool) → (b ≡ true → ⊥) → b ≡ false
false_of_not true f = absurd (f refl)
false_of_not false f = refl

-- A plain first component rules out what the guard tests for.
module _ (n c : Bytes) (ds : List Bytes) (e : components n ≡ c ∷ ds) (plain : IsPlain c) where
  not_empty_head : (cs : List Bytes) → components n ≢ [] ∷ cs
  unfolding eqb
  not_empty_head cs f = ground (arith, f, e, plain.0)

  not_dot_head : (cs : List Bytes) → components n ≢ dot ∷ cs
  not_dot_head cs f = ground (arith, f, e, plain.1, eqb_refl dot)

  not_dotdot_head : (cs : List Bytes) → components n ≢ dotdot ∷ cs
  not_dotdot_head cs f = ground (arith, f, e, plain.2, eqb_refl dotdot)

  pub plain-not_rooted : has_prefix n (slash ∷ []) ≡ false
  unfolding components
  plain-not_rooted = false_of_not _ λ h.
      let (r, f) = has_prefix_split n (slash ∷ []) h in
      not_empty_head (components r) (ap components f)

  plain-not_dot : eqb n dot ≡ false
  unfolding components
  plain-not_dot = false_of_not _ λ h. not_dot_head [] (ap components (eqb→eq n dot h))

  pub plain-not_dotdot : eqb n dotdot ≡ false
  unfolding components
  plain-not_dotdot = false_of_not _ λ h. not_dotdot_head [] (ap components (eqb→eq n dotdot h))

  pub plain-not_up : has_prefix n (b'.' ∷ b'.' ∷ slash ∷ []) ≡ false
  unfolding components
  plain-not_up = false_of_not _ λ h.
      let (r, f) = has_prefix_split n (b'.' ∷ b'.' ∷ slash ∷ []) h in
      not_dotdot_head (components r) (ap components f)

-- A name of plain components is accepted as it is.
pub plain-clean : (n : Bytes) → All IsPlain (components n) → clean n ≡ n
unfolding clean or_dot
plain-clean n h =
    let (c, ds, e) = components-cons n in
    let h' : All IsPlain (c ∷ ds) = rw e at h in
    rw (plain-not_rooted n c ds e h'.0, clean_loop_plain false [] (components n) h)
      (rw e (ap join (sym e) ∙ join-components n))

pub accept_plain : (n : Bytes) → All IsPlain (components n) → canonical_layer_path n ≡ some n
unfolding canonical_layer_path
accept_plain n h =
    let (c, ds, e) = components-cons n in
    let h' : All IsPlain (c ∷ ds) = rw e at h in
    rw (plain-clean n h) (
      rw (
        plain-not_dot n c ds e h'.0,
        plain-not_up n c ds e h'.0,
        plain-not_dotdot n c ds e h'.0,
        plain-not_rooted n c ds e h'.0,
        eqb_refl n,
      ))

abbrev IsChild : Bytes → Type 0
IsChild c = IsPlain c × HasNoSlash c

abbrev IsUp : Bytes → Type 0
IsUp c = c ≡ dotdot

reverse-All {κ} : (P : Bytes → Type κ) (xs : List Bytes) → All P xs → All P (reverse xs)
reverse-All P [] h = tt
reverse-All P (x ∷ xs) h =
    rw (reverse-cons x xs) (All-append P (reverse xs) (x ∷ []) (reverse-All P xs h.1) (h.0, tt))

-- What the loop of `filepath.Clean` leaves of a relative path: some `..`, then plain components.
abbrev Cleaned : List Bytes → Type 0
Cleaned out =
    (ups : List Bytes) × (kids : List Bytes) × (out ≡ ups ++ kids) × All IsUp ups × All IsChild kids

-- The same of the output in the loop, which is reversed.
abbrev Cleaning : List Bytes → Type 0
Cleaning out =
    (kids : List Bytes) × (ups : List Bytes) × (out ≡ kids ++ ups) × All IsChild kids × All IsUp ups

clean_up :
    (kids ups : List Bytes)
    → All IsChild kids
    → All IsUp ups
    → Cleaning (clean_step false (kids ++ ups) dotdot)
unfolding clean_step
clean_up [] [] hk hu = ([], dotdot ∷ [], refl, tt, (refl, tt))
clean_up [] (u ∷ us) hk hu = ([], dotdot ∷ u ∷ us, rw hu.0 (unfold eqb in refl), tt, (refl, hu))
clean_up (k ∷ ks) ups hk hu = (ks, ups, rw hk.0.0.2 (unfold eqb in refl), hk.1, hu)

clean_step-Cleaning :
    (kids ups : List Bytes) (c : Bytes)
    → HasNoSlash c
    → All IsChild kids
    → All IsUp ups
    → Cleaning (clean_step false (kids ++ ups) c)
clean_step-Cleaning kids ups c hc hk hu = elim (Bool-cases (eqb c [] || eqb c dot)) [
  | inl skip ↦ unfold clean_step in rw skip (kids, ups, refl, hk, hu)
  | inr named ↦ elim (Bool-cases (eqb c dotdot)) [
    | inl up ↦ rw (eqb→eq c dotdot up) (clean_up kids ups hk hu)
    | inr plain ↦
        unfold clean_step in
        rw (named, plain)
          (
            c ∷ kids,
            ups,
            refl,
            (((ground (arith, named), ground (arith, named), plain), hc), hk),
            hu,
          )
  ]
]

clean_loop-Cleaned :
    (kids ups cs : List Bytes)
    → All IsChild kids
    → All IsUp ups
    → All HasNoSlash cs
    → Cleaned (clean_loop false (kids ++ ups) cs)
unfolding clean_loop
clean_loop-Cleaned kids ups [] hk hu hc = (
  reverse ups,
  reverse kids,
  reverse-append kids ups,
  reverse-All IsUp ups hu,
  reverse-All IsChild kids hk,
)
clean_loop-Cleaned kids ups (c ∷ cs) hk hu hc =
    let (ks, us, e, k, u) = clean_step-Cleaning kids ups c hc.0 hk hu in
    rw e (clean_loop-Cleaned ks us cs k u hc.1)

accepted_guard :
    (n p : Bytes)
    → canonical_layer_path n ≡ some p
    → (p ≡ clean n)
      × (has_prefix (clean n) (slash ∷ []) ≡ false)
      × (eqb (clean n) dot ≡ false)
      × (eqb (clean n) dotdot ≡ false)
      × (has_prefix (clean n) (b'.' ∷ b'.' ∷ slash ∷ []) ≡ false)
unfolding canonical_layer_path
accepted_guard n p h = ground arith

accepted_tests :
    (n p : Bytes)
    → canonical_layer_path n ≡ some p
    → (p ≡ n)
      × (clean n ≡ n)
      × (has_prefix n (slash ∷ []) ≡ false)
      × (eqb n dot ≡ false)
      × (eqb n dotdot ≡ false)
      × (has_prefix n (b'.' ∷ b'.' ∷ slash ∷ []) ≡ false)
unfolding canonical_layer_path
accepted_tests n p h =
    let same : clean n ≡ n = ground (arith, eqb→eq (clean n) n) in
    let (e, a, b, c, d) = accepted_guard n p h in
    (e ∙ same, same, rw same at a, rw same at b, rw same at c, rw same at d)

pub clean-or_dot :
    (n : Bytes)
    → has_prefix n (slash ∷ []) ≡ false
    → clean n ≡ or_dot (clean_loop false [] (components n))
unfolding clean
clean-or_dot n h = rw h

up-join :
    (us : List Bytes)
    → (eqb (or_dot (dotdot ∷ us)) dotdot ≡ true)
      ⊎ (has_prefix (or_dot (dotdot ∷ us)) (b'.' ∷ b'.' ∷ slash ∷ []) ≡ true)
unfolding or_dot join eqb has_prefix
up-join [] = inl refl
up-join (x ∷ xs) = inr refl

no_ups :
    (n : Bytes) (us ks : List Bytes)
    → All IsUp us
    → All IsChild ks
    → n ≡ or_dot (us ++ ks)
    → eqb n dot ≡ false
    → eqb n dotdot ≡ false
    → has_prefix n (b'.' ∷ b'.' ∷ slash ∷ []) ≡ false
    → All IsPlain (components n)
unfolding or_dot
no_ups n [] [] hu hk f a b c = cc (eqb_refl dot)
no_ups n [] (k ∷ ks) hu hk f a b c =
    rw
      (ap components f ∙ components-join k ks (All-map IsChild HasNoSlash (k ∷ ks) (λ x h. h.1) hk))
      (All-map IsChild IsPlain (k ∷ ks) (λ x h. h.0) hk)
no_ups n (u ∷ us) ks hu hk f a b c = absurd (
    unfold or_dot in
    clash (up-join (us ++ ks)) (f ∙ ap (λ (t : Bytes). or_dot (t ∷ (us ++ ks))) hu.0))
  where
    clash :
        ((eqb (or_dot (dotdot ∷ (us ++ ks))) dotdot ≡ true)
          ⊎ (has_prefix (or_dot (dotdot ∷ (us ++ ks))) (b'.' ∷ b'.' ∷ slash ∷ []) ≡ true))
        → n ≡ or_dot (dotdot ∷ (us ++ ks))
        → ⊥
    clash (inl e) g = ground (arith, g, e, b)
    clash (inr e) g = ground (arith, g, e, c)

-- The guard accepts exactly the names made of plain components, and accepts them as they are.
accepted-IsPlain :
    (n p : Bytes) → canonical_layer_path n ≡ some p → (p ≡ n) × All IsPlain (components n)
accepted-IsPlain n p h =
    let (e, same, root, is_dot, up, ups) = accepted_tests n p h in
    let (us, ks, shape, hu, hk) =
      clean_loop-Cleaned [] [] (components n) tt tt (components-HasNoSlash n) in
    (e, no_ups n us ks hu hk (sym same ∙ clean-or_dot n root ∙ ap or_dot shape) is_dot up ups)

-- The guard on layer names accepts a name p of a name n exactly when p is n and every component
-- of n between slashes is plain: not empty, not `.` and not `..`.
pub canonical_layer_path-IsPlain :
    (n p : Bytes) → (canonical_layer_path n ≡ some p) ↔ ((p ≡ n) × All IsPlain (components n))
canonical_layer_path-IsPlain n p =
    (accepted-IsPlain n p, λ (e, plain). accept_plain n plain ∙ ap some (sym e))
