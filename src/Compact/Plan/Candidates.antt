-- ===== src/Compact/Plan/Candidates.antt =====
-- What the plan of internal/osix/compact.go may delete.
use mathlib.Core.Path.{subst}
use smol_agent_oci_fs.Base.{
  Bytes, Bool, true, false, not, ◌&&◌, ◌||◌, List, [], ◌∷◌, ◌++◌, eqb, eqb→eq, elem, any, Option,
  none, some, Bool-cases, Option-cases, eqb_refl, inl, inr, ◌≡◌, ◌≢◌, ◌⊎◌, refl, arith, ap, ◌∙◌,
  sym, All,
}
use smol_agent_oci_fs.Compact.Plan.{
  CompactPolicy, PlanItem, Reason, is_last, add_resolved, keep_set, reason_of, sort_out, plan_items,
  compact_plan,
}

module _ (resolve_ref : Bytes → Option Bytes) (has_signature : Bytes → Bool) where
  sorted_next :
      (o : Option Reason) (d : Bytes) (sorted : List Bytes × List Bytes)
      → o ≡ none
      → (sort_out resolve_ref has_signature o d sorted).1 ≡ d ∷ sorted.1
  sorted_next none d (keep, delete) h = refl
  sorted_next (some r) d (keep, delete) h = absurd (ground (arith, h))

  sorted_kept :
      (o : Option Reason) (d : Bytes) (sorted : List Bytes × List Bytes) (r : Reason)
      → o ≡ some r
      → (sort_out resolve_ref has_signature o d sorted).1 ≡ sorted.1
  sorted_kept none d (keep, delete) r h = absurd (ground (arith, h))
  sorted_kept (some q) d (keep, delete) r h = refl

  -- A name in the policy that is for another snapshot.
  abbrev pub IsApart : Bytes → PlanItem → Type 0
  IsApart keep item =
      (keep ≢ item.digest)
      × (keep ≢ item.id)
      × (resolve_ref keep ≢ some item.digest)
      × (resolve_ref keep ≢ some item.id)

  -- A place in the chain of a snapshot that no rule of the policy keeps.
  abbrev pub HasNoRule : CompactPolicy → List PlanItem → Bytes → Type 0
  HasNoRule policy chain digest =
      (before : List PlanItem) × (item : PlanItem) × (after : List PlanItem) × (chain
        ≡ before ++ (item ∷ after))
      × (item.digest ≡ digest)
      × All (λ keep. (keep ≡ []) ⊎ IsApart keep item) policy.keep_snapshots
      × ((policy.preserve_signed ≡ false) ⊎ (has_signature digest ≡ false))
      × ((after ≢ []) ⊎ (policy.prune_source ≡ true))

  abbrev HasNoReason : CompactPolicy → List Bytes → List PlanItem → Bytes → Type 0
  HasNoReason policy kept chain digest =
      (before : List PlanItem) × (item : PlanItem) × (after : List PlanItem) × (chain
        ≡ before ++ (item ∷ after))
      × (item.digest ≡ digest)
      × (elem item.digest kept || elem item.id kept ≡ false)
      × (policy.preserve_signed && has_signature item.digest ≡ false)
      × (is_last after && not policy.prune_source ≡ false)

  module _ (policy : CompactPolicy) (kept : List Bytes) where
    abbrev deleted : List PlanItem → List Bytes
    deleted chain = (plan_items resolve_ref has_signature policy kept chain).1

    no_reason :
        (item : PlanItem) (last : Bool)
        → reason_of resolve_ref has_signature policy kept item last ≡ none
        → (elem item.digest kept || elem item.id kept ≡ false)
          × (policy.preserve_signed && has_signature item.digest ≡ false)
          × (last && not policy.prune_source ≡ false)
    unfolding reason_of
    no_reason item last h = elim (Bool-cases (elem item.digest kept || elem item.id kept)) [
      | inl a ↦ absurd (ground (arith, a, h))
      | inr a ↦ elim (Bool-cases (policy.preserve_signed && has_signature item.digest)) [
        | inl b ↦ absurd (ground (arith, a, b, h))
        | inr b ↦ elim (Bool-cases (last && not policy.prune_source)) [
          | inl c ↦ absurd (ground (arith, a, b, c, h))
          | inr c ↦ (a, b, c)
        ]
      ]
    ]

    below :
        (item : PlanItem) (items : List PlanItem) (d : Bytes)
        → HasNoReason policy kept items d
        → HasNoReason policy kept (item ∷ items) d
    below item items d (before, found, after, at, named, a, b, c) =
        (item ∷ before, found, after, ap (λ z. item ∷ z) at, named, a, b, c)

    deleted_next :
        (item : PlanItem) (items : List PlanItem) (d : Bytes)
        → reason_of resolve_ref has_signature policy kept item (is_last items) ≡ none
        → eqb d item.digest ≡ false
        → elem d (deleted (item ∷ items)) ≡ true
        → elem d (deleted items) ≡ true
    unfolding plan_items elem any
    deleted_next item items d given other h =
        let next = ap (elem d) (
          sorted_next (reason_of resolve_ref has_signature policy kept item (is_last items))
            item.digest (plan_items resolve_ref has_signature policy kept items) given) in
        ground (arith, sym next ∙ h, other)

    deleted_kept :
        (r : Reason) (item : PlanItem) (items : List PlanItem) (d : Bytes)
        → reason_of resolve_ref has_signature policy kept item (is_last items) ≡ some r
        → elem d (deleted (item ∷ items)) ≡ true
        → elem d (deleted items) ≡ true
    unfolding plan_items elem any
    deleted_kept r item items d given h =
        let same = ap (elem d) (
          sorted_kept (reason_of resolve_ref has_signature policy kept item (is_last items))
            item.digest (plan_items resolve_ref has_signature policy kept items) r given) in
        sym same ∙ h

    deleted_unwanted :
        (chain : List PlanItem) (d : Bytes)
        → elem d (deleted chain) ≡ true
        → HasNoReason policy kept chain d
    unfolding plan_items elem any
    deleted_unwanted [] d h = absurd (ground (arith, h))
    deleted_unwanted (item ∷ items) d h =
        elim (Option-cases (reason_of resolve_ref has_signature policy kept item (is_last items))) [
          | inl none_given ↦ elim (Bool-cases (eqb d item.digest)) [
            | inl same ↦
                let (a, b, c) = no_reason item (is_last items) none_given in
                ([], item, items, refl, sym (eqb→eq d item.digest same), a, b, c)
            | inr other ↦
                below item items d
                  (deleted_unwanted items d (deleted_next item items d none_given other h))
          ]
          | inr (r, given) ↦
              below item items d (deleted_unwanted items d (deleted_kept r item items d given h))
        ]

  added_has :
      (o : Option Bytes) (k d : Bytes) (rest : List Bytes)
      → (k ≡ d) ⊎ (o ≡ some d)
      → elem d (add_resolved resolve_ref has_signature o k rest) ≡ true
  unfolding elem any
  added_has none k d rest (inl e) = ground (arith, ap (eqb d) e, eqb_refl d)
  added_has none k d rest (inr e) = absurd (cc)
  added_has (some r) k d rest (inl e) = ground (arith, ap (eqb d) e, eqb_refl d)
  added_has (some r) k d rest (inr e) =
      let same : r ≡ d = ground (arith, e) in ground (arith, ap (eqb d) same, eqb_refl d)

  added_keeps :
      (o : Option Bytes) (k d : Bytes) (rest : List Bytes)
      → elem d rest ≡ true
      → elem d (add_resolved resolve_ref has_signature o k rest) ≡ true
  unfolding elem any
  added_keeps none k d rest h = ground (arith, h)
  added_keeps (some r) k d rest h = ground (arith, h)

  keep_set_has :
      (keeps : List Bytes) (keep d : Bytes)
      → keep ≢ []
      → elem keep keeps ≡ true
      → (keep ≡ d) ⊎ (resolve_ref keep ≡ some d)
      → elem d (keep_set resolve_ref has_signature keeps) ≡ true
  unfolding keep_set elem any
  keep_set_has [] keep d n h w = absurd (ground (arith, h))
  keep_set_has (k ∷ keeps) keep d n h w = elim (Bool-cases (eqb keep k)) [
    | inl same ↦
        let named : keep ≡ k = eqb→eq keep k same in
        elim (Bool-cases (eqb k [])) [
          | inl empty ↦ absurd (n (named ∙ eqb→eq k [] empty))
          | inr there ↦ rw there (
              added_has (resolve_ref k) k d (keep_set resolve_ref has_signature keeps)
                (subst (λ z. (z ≡ d) ⊎ (resolve_ref z ≡ some d)) named w))
        ]
    | inr other ↦
        let below = keep_set_has keeps keep d n (ground (arith, other, h)) w in
        let added =
          added_keeps (resolve_ref k) k d (keep_set resolve_ref has_signature keeps) below in
        ground (arith, below, added)
  ]

  kept_elsewhere :
      (kept : List Bytes) (keeps : List Bytes) (item : PlanItem)
      → ((keep d : Bytes)
          → keep ≢ []
          → elem keep keeps ≡ true
          → (keep ≡ d) ⊎ (resolve_ref keep ≡ some d)
          → elem d kept ≡ true)
      → (elem item.digest kept || elem item.id kept ≡ false)
      → All (λ keep. (keep ≡ []) ⊎ IsApart keep item) keeps
  unfolding elem any
  kept_elsewhere kept [] item found unkept = tt
  kept_elsewhere kept (k ∷ keeps) item found unkept = (
    elim (Bool-cases (eqb k [])) [
      | inl empty ↦ inl (eqb→eq k [] empty)
      | inr there ↦
          let has : (d : Bytes) → (k ≡ d) ⊎ (resolve_ref k ≡ some d) → elem d kept ≡ true = λ d.
            found k d (λ e. ground (arith, there, ap (λ z. eqb z []) e, eqb_refl []))
              (ground (arith, eqb_refl k)) in
          inr (
            (λ e. ground (arith, unkept, has item.digest (inl e))),
            (λ e. ground (arith, unkept, has item.id (inl e))),
            (λ e. ground (arith, unkept, has item.digest (inr e))),
            (λ e. ground (arith, unkept, has item.id (inr e))),
          )
    ],
    kept_elsewhere kept keeps item (λ keep d n h. found keep d n (ground (arith, h))) unkept,
  )

  -- A digest that Compact may delete is that of a snapshot of the chain whose digest and id are
  -- neither a name that the policy keeps nor what such a name resolves to, that has no signature
  -- where the policy preserves signed snapshots, and that is not the last of the chain unless the
  -- policy prunes the source.
  pub delete_candidates_unwanted :
      (policy : CompactPolicy) (chain : List PlanItem) (d : Bytes)
      → elem d (compact_plan resolve_ref has_signature policy chain).delete_candidates ≡ true
      → HasNoRule policy chain d
  unfolding compact_plan
  delete_candidates_unwanted policy chain d h =
      let kept = keep_set resolve_ref has_signature policy.keep_snapshots in
      let (before, item, after, at, named, unkept, unsigned, not_head) =
        deleted_unwanted policy kept chain d h in
      (
        before,
        item,
        after,
        at,
        named,
        kept_elsewhere kept policy.keep_snapshots item
            (λ keep d n there w. keep_set_has policy.keep_snapshots keep d n there w) unkept,
        elim (Bool-cases policy.preserve_signed) [
          | inl on ↦ inr (ap has_signature (sym named) ∙ ground (arith, unsigned, on))
          | inr off ↦ inl off
        ],
        elim (Bool-cases policy.prune_source) [
          | inl on ↦ inr on
          | inr off ↦ inl (λ e. ground (arith, not_head, off, ap is_last e))
        ],
      )
