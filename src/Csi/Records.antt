-- ===== src/Csi/Records.antt =====
-- The mount records of a node: internal/csinode/records.go. `marshal` and `unmarshal` are
-- json.MarshalIndent and json.Unmarshal, whose errors are `none`, and a time is a number of seconds,
-- 0 for none. Which calls on files fail is an argument.
pub mod Writes
use smol_agent_oci_fs.Base.{
  ℕ, Bytes, codes, slash, Bool, true, false, ◌==◌, ◌||◌, if◌then◌else◌, List, [], ◌∷◌, ◌++◌, eqb,
  eqb→eq, eqb_refl, trim_space, Option, none, some, ◌≡◌, ◌≢◌, refl, sym, ap, ◌∙◌, arith, All,
  All-append,
}
use smol_agent_oci_fs.Base.Trim.{IsVisible, trim_space-All}
use smol_agent_oci_fs.Operator.Types.{FileSystem, SnapshotPolicy, is_blank}

pub record MountRecord : Type 0 where
  pub volume_id : Bytes
  pub target_path : Bytes
  pub workspace_path : Bytes
  pub file_system : FileSystem
  pub policy : Option SnapshotPolicy
  pub auto_snapshot : Bool
  pub read_only : Bool
  pub published_at : ℕ
  pub updated_at : ℕ

-- The three calls of strings.ReplaceAll; the path separator is the slash.
unfoldable pub replace_separators : Bytes → Bytes
replace_separators [] = []
replace_separators (c ∷ s) = (if c == slash || c == b':' then b'-' else c) ∷ replace_separators s

unfoldable pub safe_file_name : Bytes → Bytes
safe_file_name value =
    let name = replace_separators (trim_space value) in if eqb name [] then codes "volume" else name

-- The files of the directory of records, by name.
abbrev pub Files : Type 0
Files = Bytes → Option Bytes

unfoldable pub record_path : Bytes → Bytes
unfolding safe_file_name
record_path volume_id = safe_file_name volume_id ++ codes ".json"

abbrev pub stamped : ℕ → MountRecord → MountRecord
stamped now r = record r {
  published_at = if r.published_at == 0 then now else r.published_at;
  updated_at = now;
}

-- The calls that fail: os.MkdirAll, os.WriteFile with what it leaves of the file, os.Rename, and
-- os.Remove with an error other than that the file does not exist.
pub record Faults : Type 0 where
  pub mkdir_fails : Bool
  pub write_leaves : Option (Option Bytes)
  pub rename_fails : Bool
  pub remove_fails : Bool

abbrev pub put : Files → Bytes → Option Bytes → Files
put files path content = λ q. if eqb q path then content else files q

abbrev pub temporary : Bytes → Bytes
temporary path = path ++ codes ".tmp"

abbrev pub rename : Files → Bytes → Bytes → Bytes → Files
rename files from path content = put (put files from none) path (some content)

-- The write to the temporary file and its renaming; the Boolean is that there is no error.
unfoldable pub write_record_file : Faults → Files → Bytes → Option Bytes → Files × Bool
write_record_file faults files path none = (files, false)
write_record_file faults files path (some content) = elim faults.write_leaves [
  | some left ↦ (put files (temporary path) left, false)
  | none ↦
      if faults.rename_fails
      then (put files (temporary path) (some content), false)
      else (rename files (temporary path) path content, true)
]

unfoldable pub remove_mount_record : Faults → Files → Bytes → Files × Bool
remove_mount_record faults files volume_id =
    if is_blank volume_id
    then (files, true)
    else if faults.remove_fails
    then (files, false)
    else (put files (record_path volume_id) none, true)

-- The calls of the plugin that change the records, at a time.
pub data RecordCall : Type 0 where
  publish : ℕ → MountRecord → RecordCall
  unpublish : Bytes → RecordCall

-- The name of the record that a call writes or removes.
abbrev pub path_of_call : RecordCall → Bytes
path_of_call (publish now r) = record_path r.volume_id
path_of_call (unpublish id) = record_path id

module _ (marshal : MountRecord → Option Bytes) (unmarshal : Bytes → Option MountRecord) where
  unfoldable pub write_mount_record : Faults → ℕ → Files → MountRecord → Files × Bool
  unfolding write_record_file
  write_mount_record faults now files r =
      if eqb r.volume_id [] || faults.mkdir_fails
      then (files, false)
      else write_record_file faults files (record_path r.volume_id) (marshal (stamped now r))

  abbrev pub parsed : Option Bytes → Option MountRecord
  parsed none = none
  parsed (some content) = unmarshal content

  -- `none` is an error.
  unfoldable pub read_mount_record : Files → Bytes → Option MountRecord
  read_mount_record files volume_id = parsed (files (record_path volume_id))

  unfoldable pub run_call : Files → Faults × RecordCall → Files
  unfolding write_mount_record remove_mount_record
  run_call files (faults, publish now r) = (write_mount_record faults now files r).0
  run_call files (faults, unpublish id) = (remove_mount_record faults files id).0

  unfoldable pub run_calls : Files → List (Faults × RecordCall) → Files
  unfolding run_call
  run_calls files [] = files
  run_calls files (c ∷ cs) = run_calls (run_call files c) cs

same_separators :
    (x y : Bytes) → replace_separators (x ++ (slash ∷ y)) ≡ replace_separators (x ++ (b':' ∷ y))
unfolding replace_separators
same_separators [] y = refl
same_separators (c ∷ x) y = ground (arith, same_separators x y)

abbrev pub with_slash : Bytes → Bytes → Bytes
with_slash x y = x ++ (slash ∷ y)

abbrev pub with_colon : Bytes → Bytes → Bytes
with_colon x y = x ++ (b':' ∷ y)

same_path :
    (x y : Bytes)
    → All IsVisible x
    → All IsVisible y
    → record_path (with_slash x y) ≡ record_path (with_colon x y)
unfolding record_path
same_path x y h k = ground (
  arith,
  trim_space-All (with_slash x y) (All-append IsVisible x (slash ∷ y) h (refl, k)),
  trim_space-All (with_colon x y) (All-append IsVisible x (b':' ∷ y) h (refl, k)),
  same_separators x y,
)

removed_at :
    (faults : Faults) (files : Files) (id path : Bytes)
    → is_blank id ≡ false
    → faults.remove_fails ≡ false
    → path ≡ record_path id
    → (remove_mount_record faults files id).0 path ≡ none
unfolding remove_mount_record
removed_at faults files id path n removes e =
    ground (arith, n, removes, ap (eqb path) (sym e), eqb_refl path)

colon_nonempty : (x y : Bytes) → eqb (with_colon x y) [] ≡ false
unfolding eqb
colon_nonempty [] y = refl
colon_nonempty (c ∷ x) y = refl

colon_not_blank :
    (x y : Bytes) → All IsVisible x → All IsVisible y → is_blank (with_colon x y) ≡ false
colon_not_blank x y h k =
    rw (trim_space-All (with_colon x y) (All-append IsVisible x (b':' ∷ y) h (refl, k)))
      (colon_nonempty x y)

-- Two volumes whose ids differ only in a slash for a colon share their record: after any calls,
-- unpublishing the second removes the record of the first, unless the file cannot be removed.
pub unpublish_other_volume :
    (marshal : MountRecord → Option Bytes) (unmarshal : Bytes → Option MountRecord)
    (faults : Faults) (files : Files) (x y : Bytes)
    → All IsVisible x
    → All IsVisible y
    → faults.remove_fails ≡ false
    → read_mount_record marshal unmarshal
        (run_call marshal unmarshal files (faults, unpublish (with_colon x y)))
        (with_slash x y)
      ≡ none
unfolding read_mount_record run_call
unpublish_other_volume marshal unmarshal faults files x y h k removes =
    ap (parsed marshal unmarshal) (
      removed_at faults files (with_colon x y) (record_path (with_slash x y))
        (colon_not_blank x y h k) removes (same_path x y h k))
