-- ===== src/Layer/Disk.antt =====
-- The part of Go's `os` package that internal/osix/snapshot.go uses on a directory: its files,
-- directories and links by their path from the directory, which itself is the empty path. The
-- process is one that permission bits do not stop.
use smol_agent_oci_fs.Base.{
  ℕ, Bytes, slash, if◌then◌else◌, ◌||◌, List, [], ◌∷◌, ◌++◌, eqb, has_prefix, codes, Option, none,
  some,
}
use smol_agent_oci_fs.Paths.Components.{components, dir_of, dot, dotdot}
use smol_agent_oci_fs.Tree.Entry.{covers}

pub data Node : Type 0 where
  dir_node : ℕ → Node
  file_node : ℕ → Bytes → Node
  link_node : Bytes → Node

abbrev pub Disk : Type 0
Disk = Bytes → Option Node

pub data Error : Type 0 where
  unsafe_tar_path invalid_whiteout unreadable_layer unsafe_read_path : Bytes → Error
  escapes_target through_symlink through_non_directory : Error
  overwrites_symlink unsupported_tar_entry not_found not_a_directory is_a_directory : Error
  not_a_file wrong_layer_count deleted_by_snapshot : Error

pub data Result {ℓ} (A : Type ℓ) : Type ℓ where
  ok : A → Result A
  err : Error → Result A

infixl 5 ◌>>=◌
-- The next statement of a function runs on what the one before it returned.
abbrev pub ◌>>=◌ {ℓ κ} : {A : Type ℓ} {B : Type κ} → Result A → (A → Result B) → Result B
ok value >>= continue = continue value
err failure >>= continue = err failure

infixl 5 ◌>>◌
-- `if err := check(); err != nil { return err }`
abbrev pub ◌>>◌ {ℓ} : {B : Type ℓ} → Result (Unit {0}) → Result B → Result B
ok value >> next = next
err failure >> next = err failure

unfoldable pub put : Disk → Bytes → Node → Disk
put fs p n = λ q. if eqb q p then some n else fs q

-- os.RemoveAll
unfoldable pub remove_all : Disk → Bytes → Disk
remove_all fs p = λ q. if covers p q then none else fs q

-- filepath.Join(current, part), relative to the directory
unfoldable pub descend : Bytes → Bytes → Bytes
descend current part = if eqb current [] then part else current ++ (slash ∷ part)

-- One directory of `os.MkdirAll`, which makes what is missing; `masked` is the process's umask.
unfoldable pub mkdir_parts : (ℕ → ℕ) → Disk → ℕ → Bytes → List Bytes → Result Disk
mkdir_parts masked fs mode current [] = ok fs
mkdir_parts masked fs mode current (c ∷ cs) = elim (fs (descend current c)) [
  | none ↦
      mkdir_parts masked (put fs (descend current c) (dir_node (masked mode))) mode
        (descend current c) cs
  | some (dir_node m) ↦ mkdir_parts masked fs mode (descend current c) cs
  | some (file_node m b) ↦ err not_a_directory
  | some (link_node l) ↦ err not_a_directory
]

-- os.MkdirAll. It would go through a link to a directory; its callers have refused links before.
unfoldable pub mkdir_all : (ℕ → ℕ) → Disk → Bytes → ℕ → Result Disk
mkdir_all masked fs p mode =
    if eqb p [] then ok fs else mkdir_parts masked fs mode [] (components p)

-- os.Chmod, on what is no link
unfoldable pub chmod : Disk → Bytes → ℕ → Result Disk
unfolding put
chmod fs p mode = elim (fs p) [
  | none ↦ err not_found
  | some (dir_node m) ↦ ok (put fs p (dir_node mode))
  | some (file_node m b) ↦ ok (put fs p (file_node mode b))
  | some (link_node l) ↦ ok fs
]

-- os.OpenFile with O_CREATE, O_TRUNC and O_WRONLY, then the copy of the content: a file that is
-- there keeps its mode. Its callers have refused links before.
unfoldable pub write_file : (ℕ → ℕ) → Disk → Bytes → ℕ → Bytes → Result Disk
unfolding put
write_file masked fs p mode body = elim (fs p) [
  | none ↦ ok (put fs p (file_node (masked mode) body))
  | some (dir_node m) ↦ err is_a_directory
  | some (file_node m b) ↦ ok (put fs p (file_node m body))
  | some (link_node l) ↦ err overwrites_symlink
]

-- The loop of `ensureNoSymlinkInPath`.
unfoldable pub ensure_parts : Disk → Bytes → List Bytes → Result (Unit {0})
ensure_parts fs current [] = ok tt
ensure_parts fs current (c ∷ cs) = elim (fs (descend current c)) [
  | none ↦ ok tt
  | some (dir_node m) ↦ ensure_parts fs (descend current c) cs
  | some (file_node m b) ↦ err through_non_directory
  | some (link_node l) ↦ err through_symlink
]

-- ensureNoSymlinkInPath; `rel` is the path from the root, empty for the root itself
unfoldable pub ensure_no_symlink_in_path : Disk → Bytes → Result (Unit {0})
ensure_no_symlink_in_path fs rel =
    if eqb rel []
    then ok tt
    else if has_prefix rel (codes "../") || eqb rel dotdot || has_prefix rel (slash ∷ [])
    then err escapes_target
    else ensure_parts fs [] (components rel)

-- ensureNotSymlink
unfoldable pub ensure_not_symlink : Disk → Bytes → Result (Unit {0})
ensure_not_symlink fs p = elim (fs p) [
  | none ↦ ok tt
  | some (dir_node m) ↦ ok tt
  | some (file_node m b) ↦ ok tt
  | some (link_node l) ↦ err overwrites_symlink
]

-- filepath.Dir of a path in the directory, from the directory
unfoldable pub parent_of : Bytes → Bytes
parent_of p = if eqb (dir_of p) dot then [] else dir_of p
