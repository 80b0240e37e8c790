-- ===== src/Layer/Making.antt =====
-- `os.MkdirAll` as internal/osix/snapshot.go uses it for a directory of a layer: only the last
-- directory of the path may be missing.
use mathlib.Core.Path.{subst}
use smol_agent_oci_fs.Base.{
  ℕ, Bytes, slash, false, List, [], ◌∷◌, ◌++◌, append_assoc, eqb, none, ◌≡◌, refl, ap, ◌∙◌, sym,
  All, All-map,
}
use smol_agent_oci_fs.Paths.Components.{components, join}
use smol_agent_oci_fs.Paths.Canonical.{IsPlain, components-cons, join-components}
use smol_agent_oci_fs.Layer.Disk.{Disk, dir_node, ok, put, descend, mkdir_parts, mkdir_all}
use smol_agent_oci_fs.Layer.Descent.{
  IsDirAt, Inside, mkdir_parts_step, not_empty, descend_below, descend_root, plain-not_empty,
}

-- Where a walk ends, and the paths that it visits before.
end_of : Bytes → List Bytes → Bytes
end_of current [] = current
end_of current (c ∷ cs) = end_of (descend current c) cs

walk_above : Bytes → Bytes → List Bytes → List Bytes
walk_above current c [] = []
walk_above current c (d ∷ cs) = descend current c ∷ walk_above (descend current c) d cs

module _ (masked : ℕ → ℕ) (fs : Disk) (mode : ℕ) where
  mkdir_parts_new :
      (current c : Bytes)
      → fs (descend current c) ≡ none
      → mkdir_parts masked fs mode current (c ∷ [])
        ≡ ok (put fs (descend current c) (dir_node (masked mode)))
  unfolding mkdir_parts
  mkdir_parts_new current c e = rw (e, mkdir_parts)

  mkdir_parts_last :
      (current c : Bytes) (cs : List Bytes)
      → All (IsDirAt fs) (walk_above current c cs)
      → fs (end_of current (c ∷ cs)) ≡ none
      → mkdir_parts masked fs mode current (c ∷ cs)
        ≡ ok (put fs (end_of current (c ∷ cs)) (dir_node (masked mode)))
  unfolding walk_above end_of
  mkdir_parts_last current c [] h e = mkdir_parts_new current c e
  mkdir_parts_last current c (d ∷ cs) h e =
      mkdir_parts_step fs masked mode current c (d ∷ cs) h.0.0 h.0.1
      ∙ mkdir_parts_last (descend current c) d cs h.1 e

end_of-join :
    (current c : Bytes) (cs : List Bytes)
    → eqb current [] ≡ false
    → end_of current (c ∷ cs) ≡ current ++ (slash ∷ join (c ∷ cs))
unfolding end_of join
end_of-join current c [] h = descend_below current c h
end_of-join current c (d ∷ cs) h = rw (descend_below current c h) (
    end_of-join (current ++ (slash ∷ c)) d cs (not_empty current c)
    ∙ append_assoc current (slash ∷ c) (slash ∷ join (d ∷ cs)))

end_of_start : (c : Bytes) (cs : List Bytes) → eqb c [] ≡ false → end_of [] (c ∷ cs) ≡ join (c ∷ cs)
unfolding end_of join
end_of_start c [] h = descend_root c
end_of_start c (d ∷ cs) h = rw (descend_root c) (end_of-join c d cs h)

walk_above-Inside :
    (current c : Bytes) (cs : List Bytes)
    → eqb current [] ≡ false
    → All (λ a. Inside a (current ++ (slash ∷ join (c ∷ cs)))) (walk_above current c cs)
unfolding walk_above join
walk_above-Inside current c [] h = tt
walk_above-Inside current c (d ∷ cs) h =
    let target : (current ++ (slash ∷ c)) ++ (slash ∷ join (d ∷ cs))
        ≡ current ++ (slash ∷ (c ++ (slash ∷ join (d ∷ cs)))) =
      append_assoc current (slash ∷ c) (slash ∷ join (d ∷ cs)) in
    rw (descend_below current c h) (
      (join (d ∷ cs), sym target),
      All-map (λ a. Inside a ((current ++ (slash ∷ c)) ++ (slash ∷ join (d ∷ cs))))
          (λ a. Inside a (current ++ (slash ∷ (c ++ (slash ∷ join (d ∷ cs))))))
          (walk_above (current ++ (slash ∷ c)) d cs) (λ a b. subst (Inside a) target b)
          (walk_above-Inside (current ++ (slash ∷ c)) d cs (not_empty current c)),
    )

walk_above_start :
    (c : Bytes) (cs : List Bytes)
    → eqb c [] ≡ false
    → All (λ a. Inside a (join (c ∷ cs))) (walk_above [] c cs)
unfolding walk_above join
walk_above_start c [] h = tt
walk_above_start c (d ∷ cs) h =
    rw (descend_root c) ((join (d ∷ cs), refl), walk_above-Inside c d cs h)

module _ (fs : Disk) (p : Bytes) (plain : All IsPlain (components p)) where
  -- A missing directory whose parents are there is made.
  pub mkdir_all_new :
      (masked : ℕ → ℕ) (mode : ℕ)
      → ((a : Bytes) → Inside a p → IsDirAt fs a)
      → fs p ≡ none
      → mkdir_all masked fs p mode ≡ ok (put fs p (dir_node (masked mode)))
  unfolding mkdir_all
  mkdir_all_new masked mode dirs free =
      let (c, cs, e) = components-cons p in
      let plain' : All IsPlain (c ∷ cs) = rw e at plain in
      let whole : join (c ∷ cs) ≡ p = ap join (sym e) ∙ join-components p in
      let finish : end_of [] (c ∷ cs) ≡ p = end_of_start c cs plain'.0.0 ∙ whole in
      let above =
        All-map (λ a. Inside a (join (c ∷ cs))) (IsDirAt fs) (walk_above [] c cs)
          (λ a h. dirs a (subst (Inside a) whole h)) (walk_above_start c cs plain'.0.0) in
      rw (plain-not_empty p plain) (
        rw e (
          mkdir_parts_last masked fs mode [] c cs above (ap fs finish ∙ free)
          ∙ ap (λ (z : Bytes). ok (put fs z (dir_node (masked mode)))) finish))
