-- ===== src/Paths/Components.antt =====
-- The path functions of Go's path/filepath, and the guards of internal/osix that rest on them.
use smol_agent_oci_fs.Base.{
  ℕ, Bytes, codes, slash, ◌==◌, if◌then◌else◌, Bool, true, false, not, ◌||◌, Option, none, some,
  List, [], ◌∷◌, ◌++◌, reverse, eqb, has_prefix, trim_prefix, trim_suffix, trim_space,
}

abbrev pub dot : Bytes
dot = b'.' ∷ []

abbrev pub dotdot : Bytes
dotdot = b'.' ∷ b'.' ∷ []

abbrev pub cons_head : ℕ → List Bytes → List Bytes
cons_head c [] = (c ∷ []) ∷ []
cons_head c (x ∷ xs) = (c ∷ x) ∷ xs

-- strings.Split(s, "/")
unfoldable pub components : Bytes → List Bytes
components [] = [] ∷ []
components (c ∷ s) = let rest = components s in if c == slash then [] ∷ rest else cons_head c rest

-- strings.Join(parts, "/")
unfoldable pub join : List Bytes → Bytes
join [] = []
join (x ∷ []) = x
join (x ∷ y ∷ r) = x ++ (slash ∷ join (y ∷ r))

-- One component of the loop of `filepath.Clean`: the output so far, last component first.
unfoldable pub clean_step : Bool → List Bytes → Bytes → List Bytes
unfolding eqb
clean_step rooted out c =
    if eqb c [] || eqb c dot then out else if not (eqb c dotdot) then c ∷ out else elim out [
      | [] ↦ if rooted then [] else dotdot ∷ []
      | top ∷ below ↦ if eqb top dotdot then dotdot ∷ top ∷ below else below
    ]

unfoldable pub clean_loop : Bool → List Bytes → List Bytes → List Bytes
clean_loop rooted out [] = reverse out
clean_loop rooted out (c ∷ cs) = clean_loop rooted (clean_step rooted out c) cs

unfoldable pub or_dot : List Bytes → Bytes
unfolding join
or_dot [] = dot
or_dot (c ∷ cs) = join (c ∷ cs)

unfoldable pub clean : Bytes → Bytes
unfolding has_prefix components clean_step clean_loop join or_dot
clean path =
    if has_prefix path (slash ∷ [])
    then slash ∷ join (clean_loop true [] (components path))
    else or_dot (clean_loop false [] (components path))

-- filepath.Split: the directory with its slash, and the last component. One byte more in front
-- joins the directory, if there is one, or starts one, if it is the slash.
abbrev pub split_step : ℕ → Bytes × Bytes → Bytes × Bytes
split_step c ([], b) = if c == slash then (c ∷ [], b) else ([], c ∷ b)
split_step c (e ∷ ds, b) = (c ∷ e ∷ ds, b)

unfoldable pub split_path : Bytes → Bytes × Bytes
split_path [] = ([], [])
split_path (c ∷ s) = split_step c (split_path s)

-- filepath.Dir
unfoldable pub dir_of : Bytes → Bytes
unfolding split_path clean
dir_of path = clean (split_path path).0

-- filepath.Base of a path that ends in no slash: the last component. Its callers pass clean paths.
unfoldable pub base_of : Bytes → Bytes
unfolding split_path
base_of path = (split_path path).1

-- filepath.Join of a directory and a name
unfoldable pub join_path : Bytes → Bytes → Bytes
unfolding clean eqb
join_path dir name =
    if eqb dir []
    then (if eqb name [] then [] else clean name)
    else if eqb name []
    then clean dir
    else clean (dir ++ (slash ∷ name))

-- snapshot.go: the guard on each name of a layer; `none` is the error "unsafe tar path".
unfoldable pub canonical_layer_path : Bytes → Option Bytes
canonical_layer_path name =
    if eqb (clean name) dot
      || has_prefix (clean name) (codes "../")
      || eqb (clean name) dotdot
      || has_prefix (clean name) (slash ∷ [])
      || not (eqb (clean name) name)
    then none
    else some (clean name)

-- lazy_read.go
unfoldable pub canonical_read_path : Bytes → Option Bytes
unfolding canonical_layer_path trim_prefix trim_space eqb
canonical_read_path name =
    let trimmed = trim_prefix (trim_space name) (slash ∷ []) in
    if eqb trimmed [] then none else canonical_layer_path trimmed

-- lower_store.go: the root is the empty path.
unfoldable pub canonical_lower_store_path : Bytes → Option Bytes
unfolding canonical_layer_path trim_prefix trim_space eqb
canonical_lower_store_path name =
    let trimmed = trim_prefix (trim_space name) (slash ∷ []) in
    if eqb trimmed [] || eqb trimmed dot then some [] else canonical_layer_path trimmed

-- lower_store.go
unfoldable pub lower_store_parent : Bytes → Bytes × Bytes
unfolding split_path trim_suffix
lower_store_parent name = let (d, b) = split_path name in (trim_suffix d (slash ∷ []), b)
