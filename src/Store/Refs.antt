-- ===== src/Store/Refs.antt =====
-- `writeRefsIfExpected`, `safeRefName` and `digestHex` of internal/osix/store.go. The lock lets one
-- transaction run at a time, so that a transaction is one function on the references.
use smol_agent_oci_fs.Base.{
  ℕ, suc, Bytes, codes, Bool, true, false, not, ◌&&◌, ◌||◌, ◌==◌, leb, if◌then◌else◌, List, [], ◌∷◌,
  ◌++◌, length, eqb, trim_space, trim_prefix, Option, none, some, lookup, insert, ◌⊎◌, inl, inr,
}

-- strings.ReplaceAll of a slash or a colon by two underscores
unfoldable pub replace_separators : Bytes → Bytes
replace_separators [] = []
replace_separators (c ∷ s) =
    let rest = replace_separators s in
    if c == b'/' || c == b':' then codes "__" ++ rest else c ∷ rest

unfoldable pub safe_ref_name : Bytes → Bytes
safe_ref_name name = replace_separators (trim_prefix (trim_space name) (codes ":"))

-- The digits that hex.DecodeString accepts
abbrev pub is_hex : ℕ → Bool
is_hex c = (leb 48 c && leb c 57) || (leb 97 c && leb c 102) || (leb 65 c && leb c 70)

unfoldable pub all_hex : Bytes → Bool
all_hex [] = true
all_hex (c ∷ s) = is_hex c && all_hex s

-- Whether `digestHex` gives no error.
unfoldable pub is_digest : Bytes → Bool
is_digest digest = let hex = trim_prefix digest (codes "sha256:") in length hex == 64 && all_hex hex

pub record RefUpdate : Type 0 where
  pub name : Bytes
  pub digest : Bytes
  pub expected : Bytes

-- The content of each file below the directory of the references.
abbrev pub Refs : Type 0
Refs = Bytes → Option Bytes

-- os.Rename over a file, os.WriteFile, os.Remove
unfoldable pub set_ref : Refs → Bytes → Option Bytes → Refs
set_ref refs path file = λ q. if eqb q path then file else refs q

-- `data` and `exists` are one Option; `next` is the content of the temporary file.
pub record SavedRef : Type 0 where
  pub path : Bytes
  pub saved : Option Bytes
  pub next : Bytes

pub data RefError : Type 0 where
  invalid_digest same_path branch_conflict io_error : RefError

-- `strings.TrimSpace(update.expected) != "" && exists`, and a different current digest
unfoldable pub is_conflict : Bytes → Option Bytes → Bool
is_conflict expected none = false
is_conflict expected (some file) =
    not (eqb (trim_space expected) []) && not (eqb (trim_space file) expected)

-- `previous, exists := paths[path]; exists && previous != update.name`
unfoldable pub is_taken : Option Bytes → Bytes → Bool
is_taken none name = false
is_taken (some previous) name = not (eqb previous name)

-- What the operating system does is a parameter: whether the calls of the k-th update succeed, the
-- one that reads the file and the ones that write the temporary file.
module _ (can_read can_stage : ℕ → Bool) where
  unfoldable pub prepare :
      ℕ → Refs → List (Bytes × Bytes) → List RefUpdate → RefError ⊎ List SavedRef
  prepare k refs paths [] = inr []
  prepare k refs paths (u ∷ us) =
      let path = safe_ref_name u.name in
      let skipped = prepare (suc k) refs paths us in
      let rest = prepare (suc k) refs (insert path u.name paths) us in
      if eqb (trim_space u.name) []
      then skipped
      else if not (is_digest u.digest)
      then inl invalid_digest
      else if is_taken (lookup path paths) u.name
      then inl same_path
      else if not (can_read k)
      then inl io_error
      else if is_conflict u.expected (refs path)
      then inl branch_conflict
      else if not (can_stage k)
      then inl io_error
      else elim rest [
        | inl e ↦ inl e
        | inr items ↦
            inr (record { path = path; saved = refs path; next = u.digest ++ codes "\n" } ∷ items)
      ]

pub data Outcome : Type 0 where
  written : Outcome
  rejected : RefError → Outcome
  -- A rename failed; the flag says whether every file was put back.
  rolled_back : Bool → Outcome

-- Whether a file can be put back, and what a failed attempt leaves.
module _ (can_restore : Bytes → Bool) (left : Bytes → Option Bytes) where
  unfoldable pub rollback : Refs → List SavedRef → Bool × Refs
  rollback refs [] = (true, refs)
  rollback refs (item ∷ done) =
      let file = if can_restore item.path then item.saved else left item.path in
      let (ok, last) = rollback (set_ref refs item.path file) done in
      (can_restore item.path && ok, last)

-- Whether the k-th rename succeeds.
module _ (can_rename : ℕ → Bool) (can_restore : Bytes → Bool) (left : Bytes → Option Bytes) where
  -- The second loop; `done` has the renamed items, the last one first.
  unfoldable pub commit : ℕ → Refs → List SavedRef → List SavedRef → Outcome × Refs
  commit k refs done [] = (written, refs)
  commit k refs done (item ∷ todo) =
      let next = commit (suc k) (set_ref refs item.path (some item.next)) (item ∷ done) todo in
      let (ok, last) = rollback can_restore left refs done in
      if can_rename k then next else (rolled_back ok, last)

  unfoldable pub write_refs_if_expected :
      (ℕ → Bool) → (ℕ → Bool) → Refs → List RefUpdate → Outcome × Refs
  write_refs_if_expected can_read can_stage refs updates =
      elim (prepare can_read can_stage 0 refs [] updates) [
        | inl e ↦ (rejected e, refs)
        | inr items ↦ commit 0 refs [] items
      ]
