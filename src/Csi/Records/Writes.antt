-- ===== src/Csi/Records/Writes.antt =====
-- What a write of a mount record leaves: internal/csinode/records.go.
use mathlib.Core.List.{reverse, reverse-append}
use smol_agent_oci_fs.Base.{
  ℕ, Bytes, codes, Bool, true, false, ◌||◌, ◌==◌, List, [], ◌∷◌, ◌++◌, eqb, eqb→eq, eqb_refl,
  Option, none, some, Bool-cases, inl, inr, ◌≡◌, ◌≢◌, ◌⊎◌, refl, sym, ap, ◌∙◌, arith, All,
}
use smol_agent_oci_fs.Csi.Records.{
  MountRecord, Files, safe_file_name, record_path, stamped, Faults, temporary, write_record_file,
  remove_mount_record, RecordCall, publish, unpublish, path_of_call, write_mount_record, parsed,
  read_mount_record, run_call, run_calls,
}

abbrev first : Bytes → ℕ
first [] = 0
first (c ∷ s) = c

endings_apart : (x y : Bytes) → x ++ codes ".json" ≢ y ++ codes ".tmp"
endings_apart x y e =
    let same : reverse (codes ".json") ++ reverse x ≡ reverse (codes ".tmp") ++ reverse y =
      sym (reverse-append x (codes ".json")) ∙ ap reverse e ∙ reverse-append y (codes ".tmp") in
    heads same
  where
    heads : {s t : Bytes} → (b'n' ∷ s) ≡ (b'p' ∷ t) → ⊥
    heads e = ground (arith, ap (λ z. first z == b'p') e)

-- The name of a temporary file is not that of a record.
record_path-temporary : (v w : Bytes) → eqb (record_path v) (temporary (record_path w)) ≡ false
unfolding record_path
record_path-temporary v w = elim (Bool-cases (eqb (record_path v) (temporary (record_path w)))) [
  | inr n ↦ n
  | inl y ↦ absurd (
      endings_apart (safe_file_name v) (record_path w)
        (eqb→eq (record_path v) (temporary (record_path w)) y))
]

module _ (faults : Faults) (files : Files) (path : Bytes) where
  file_other :
      (o : Option Bytes) (q : Bytes)
      → eqb q path ≡ false
      → eqb q (temporary path) ≡ false
      → (write_record_file faults files path o).0 q ≡ files q
  unfolding write_record_file
  file_other none q h k = refl
  file_other (some content) q h k = ground (arith, h, k)

  file_failed :
      (o : Option Bytes) (q : Bytes)
      → eqb q (temporary path) ≡ false
      → (write_record_file faults files path o).1 ≡ false
      → (write_record_file faults files path o).0 q ≡ files q
  unfolding write_record_file
  file_failed none q k e = refl
  file_failed (some content) q k e = ground (arith, k, e)

  file_done :
      (o : Option Bytes)
      → (write_record_file faults files path o).1 ≡ true
      → (content : Bytes) × (o ≡ some content)
        × ((write_record_file faults files path o).0 path ≡ some content)
  unfolding write_record_file
  file_done none e = absurd (cc)
  file_done (some content) e = (content, refl, ground (arith, eqb_refl path, e))

module _ (marshal : MountRecord → Option Bytes) (unmarshal : Bytes → Option MountRecord) where
  abbrev written : Faults → ℕ → Files → MountRecord → Files × Bool
  written faults now files r = write_mount_record marshal unmarshal faults now files r

  abbrev read : Files → Bytes → Option MountRecord
  read files v = read_mount_record marshal unmarshal files v

  run_call_apart :
      (files : Files) (faults : Faults) (c : RecordCall) (v : Bytes)
      → eqb (record_path v) (path_of_call c) ≡ false
      → run_call marshal unmarshal files (faults, c) (record_path v) ≡ files (record_path v)
  unfolding run_call write_mount_record remove_mount_record
  run_call_apart files faults (publish now r) v h = ground (
    arith,
    file_other faults files (record_path r.volume_id) (marshal (stamped now r)) (record_path v) h
        (record_path-temporary v r.volume_id),
  )
  run_call_apart files faults (unpublish id) v h = ground (arith, h)

  run_calls_apart :
      (files : Files) (cs : List (Faults × RecordCall)) (v : Bytes)
      → All (λ c. eqb (record_path v) (path_of_call c.1) ≡ false) cs
      → run_calls marshal unmarshal files cs (record_path v) ≡ files (record_path v)
  unfolding run_calls
  run_calls_apart files [] v h = refl
  run_calls_apart files ((faults, c) ∷ cs) v h =
      run_calls_apart (run_call marshal unmarshal files (faults, c)) cs v h.1
      ∙ run_call_apart files faults c v h.0

  -- A record as it was given, with the times of a write.
  abbrev pub IsStamped : ℕ → MountRecord → MountRecord → Type 0
  IsStamped now r q =
      (record q { published_at = r.published_at; updated_at = r.updated_at } ≡ r)
      × (((r.published_at ≡ 0) × (q.published_at ≡ now))
          ⊎ ((r.published_at ≢ 0) × (q.published_at ≡ r.published_at)))
      × (q.updated_at ≡ now)

  stamped-IsStamped : (now : ℕ) (r : MountRecord) → IsStamped now r (stamped now r)
  stamped-IsStamped now r = elim (Bool-cases (r.published_at == 0)) [
    | inl y ↦ (refl, inl (ground (arith, y), ground (arith, y)), refl)
    | inr n ↦ (refl, inr ((λ e. ground (arith, e, n)), ground (arith, n)), refl)
  ]

  failed_keeps :
      (faults : Faults) (now : ℕ) (files : Files) (r : MountRecord) (v : Bytes)
      → (written faults now files r).1 ≡ false
      → (written faults now files r).0 (record_path v) ≡ files (record_path v)
  unfolding write_mount_record
  failed_keeps faults now files r v e =
      elim (Bool-cases (eqb r.volume_id [] || faults.mkdir_fails)) [
        | inl y ↦ ground (arith, y)
        | inr n ↦
            let kept =
              file_failed faults files (record_path r.volume_id) (marshal (stamped now r))
                (record_path v) (record_path-temporary v r.volume_id) (ground (arith, n, e)) in
            ground (arith, n, kept)
      ]

  done_stores :
      (faults : Faults) (now : ℕ) (files : Files) (r : MountRecord)
      → (written faults now files r).1 ≡ true
      → (content : Bytes) × (marshal (stamped now r) ≡ some content)
        × ((written faults now files r).0 (record_path r.volume_id) ≡ some content)
  unfolding write_mount_record
  done_stores faults now files r e = elim (Bool-cases (eqb r.volume_id [] || faults.mkdir_fails)) [
    | inl y ↦ absurd (ground (arith, y, e))
    | inr n ↦
        let (content, made, there) =
          file_done faults files (record_path r.volume_id) (marshal (stamped now r))
            (ground (arith, n, e)) in
        (content, made, ground (arith, n, there))
  ]

  -- Given that json.Unmarshal reads back what json.MarshalIndent made of a record: either a write
  -- gives an error and the records of all volumes are read as before, whichever call failed; or it
  -- gives none, and after any calls for volumes whose records have other file names, whichever of
  -- their calls fail, the record is read as it was given, with the time of the write as the time of
  -- the update, and as the time of the publication if it had none.
  pub read_mount_record-write :
      ((r : MountRecord) (content : Bytes) → marshal r ≡ some content → unmarshal content ≡ some r)
      → (faults : Faults) (now : ℕ) (files : Files) (r : MountRecord)
        (cs : List (Faults × RecordCall))
      → All (λ c. eqb (record_path r.volume_id) (path_of_call c.1) ≡ false) cs
      → (((write_mount_record marshal unmarshal faults now files r).1 ≡ false)
          × ((v : Bytes)
              → read_mount_record marshal unmarshal
                  (write_mount_record marshal unmarshal faults now files r).0
                  v
                ≡ read_mount_record marshal unmarshal files v))
        ⊎ (((write_mount_record marshal unmarshal faults now files r).1 ≡ true)
            × ((q : MountRecord) × (read_mount_record marshal unmarshal
                    (run_calls marshal unmarshal
                      (write_mount_record marshal unmarshal faults now files r).0
                      cs)
                    r.volume_id
                  ≡ some q)
                × IsStamped now r q))
  unfolding read_mount_record
  read_mount_record-write law faults now files r cs apart =
      elim (Bool-cases (written faults now files r).1) [
        | inr e ↦ inl (e, λ v. ap (parsed marshal unmarshal) (failed_keeps faults now files r v e))
        | inl e ↦
            let (content, made, there) = done_stores faults now files r e in
            inr (
              e,
              (
                stamped now r,
                ap (parsed marshal unmarshal)
                      (run_calls_apart (written faults now files r).0 cs r.volume_id apart ∙ there)
                    ∙ law (stamped now r) content made,
                stamped-IsStamped now r,
              ),
            )
      ]
