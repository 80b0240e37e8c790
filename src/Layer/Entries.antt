-- ===== src/Layer/Entries.antt =====
-- One entry of a layer, extracted by internal/osix/snapshot.go where its parents are there and
-- nothing of another kind is in its place.
use smol_agent_oci_fs.Base.{
  ℕ, Bytes, if◌then◌else◌, false, eqb, eqb_refl, has_prefix, none, some, ◌≡◌, ◌⊎◌, inl, inr, refl,
  ap, ◌∙◌, sym, arith, All, Bool-cases,
}
use smol_agent_oci_fs.Paths.Components.{components, base_of}
use smol_agent_oci_fs.Paths.Canonical.{IsPlain, accept_plain}
use smol_agent_oci_fs.Tree.Entry.{covers, covers-Below, Below, at, under}
use smol_agent_oci_fs.Layer.Disk.{
  Disk, Node, dir_node, file_node, link_node, Result, ok, put, remove_all, chmod, write_file,
  ensure_not_symlink,
}
use smol_agent_oci_fs.Layer.Names.{wh}
use smol_agent_oci_fs.Layer.Make.{layer_body, node_header}
use smol_agent_oci_fs.Layer.Extract.{
  extract_dir, extract_file, extract_link, extract_typed, extract_header,
}
use smol_agent_oci_fs.Layer.Descent.{
  IsDirAt, IsOpenAt, Inside, ensure_ok, ensure_parent_ok, mkdir_all_same, mkdir_parent_same,
}
use smol_agent_oci_fs.Layer.Making.{mkdir_all_new}

-- A name that an entry of a layer may have: plain components, and no whiteout marker.
abbrev pub IsEntryPath : Bytes → Type 0
IsEntryPath p = All IsPlain (components p) × (has_prefix (base_of p) wh ≡ false)

-- What may be in the place of a node for its entry to replace it.
abbrev pub Gives : Disk → Bytes → Node → Type 0
Gives fs p (dir_node m) = IsOpenAt fs p
Gives fs p (file_node m b) =
    (fs p ≡ none) ⊎ ((k : ℕ) × (old : Bytes) × (fs p ≡ some (file_node k old)))
Gives fs p (link_node l) = (q : Bytes) → Inside p q → fs q ≡ none

-- The disk with one path set, by its paths.
abbrev pub IsSetAt : Disk → Bytes → Node → Disk → Type 0
IsSetAt fs p n fs' = (q : Bytes) → fs' q ≡ (if eqb q p then some n else fs q)

put_twice : (fs : Disk) (p : Bytes) (n k : Node) → IsSetAt fs p k (put (put fs p n) p k)
unfolding put
put_twice fs p n k q = ground arith

put_once : (fs : Disk) (p : Bytes) (n : Node) → IsSetAt fs p n (put fs p n)
unfolding put
put_once fs p n q = refl

put_at : (fs : Disk) (p : Bytes) (n : Node) → put fs p n p ≡ some n
unfolding put
put_at fs p n = rw (eqb_refl p)

chmod_dir :
    (fs : Disk) (p : Bytes) (k m : ℕ)
    → fs p ≡ some (dir_node k)
    → chmod fs p m ≡ ok (put fs p (dir_node m))
unfolding chmod
chmod_dir fs p k m e = rw (e, chmod)

chmod-put :
    (fs : Disk) (p : Bytes) (k m : ℕ)
    → chmod (put fs p (dir_node k)) p m ≡ ok (put (put fs p (dir_node k)) p (dir_node m))
chmod-put fs p k m = chmod_dir (put fs p (dir_node k)) p k m (put_at fs p (dir_node k))

module _ (masked : ℕ → ℕ) (fs : Disk) (p : Bytes) (name : IsEntryPath p)
    (dirs : (a : Bytes) → Inside a p → IsDirAt fs a) where
  abbrev Sets : Result Disk → Node → Type 0
  Sets r n = (fs' : Disk) × (r ≡ ok fs') × IsSetAt fs p n fs'

  open_above : IsOpenAt fs p → (a : Bytes) → Below a p → IsOpenAt fs a
  open_above o a (at e) = rw (sym e) o
  open_above o a (under r e) = inr (dirs a (r, e))

  extract_dir-Sets : (m : ℕ) → IsOpenAt fs p → Sets (extract_dir masked fs p m) (dir_node m)
  unfolding extract_dir
  extract_dir-Sets m (inl free) =
      let o : IsOpenAt fs p = inl free in
      rw (ensure_ok fs p name.0 (open_above o), mkdir_all_new fs p name.0 masked m dirs free)
        (
          put (put fs p (dir_node (masked m))) p (dir_node m),
          chmod-put fs p (masked m) m,
          put_twice fs p (dir_node (masked m)) (dir_node m),
        )
  extract_dir-Sets m (inr (k, there)) =
      let o : IsOpenAt fs p = inr (k, there) in
      rw
        (
          ensure_ok fs p name.0 (open_above o),
          mkdir_all_same fs p name.0 masked m (dir_above k there),
        )
        (put fs p (dir_node m), chmod_dir fs p k m there, put_once fs p (dir_node m))
    where
      dir_above : (k : ℕ) → fs p ≡ some (dir_node k) → (a : Bytes) → Below a p → IsDirAt fs a
      dir_above k there a (at e) = (k, ap fs (sym e) ∙ there)
      dir_above k there a (under r e) = dirs a (r, e)

  open-Inside : (a : Bytes) → Inside a p → IsOpenAt fs a
  open-Inside a h = inr (dirs a h)

  not_symlink : (m : ℕ) (b : Bytes) → Gives fs p (file_node m b) → ensure_not_symlink fs p ≡ ok tt
  unfolding ensure_not_symlink
  not_symlink m b (inl free) = rw (free, ensure_not_symlink)
  not_symlink m b (inr (k, old, there)) = rw (there, ensure_not_symlink)

  -- The mode that the file is opened with does not matter: it is set afterwards.
  written_mode : (m : ℕ) (b : Bytes) → Gives fs p (file_node m b) → ℕ
  written_mode m b (inl free) = masked m
  written_mode m b (inr (k, old, there)) = k

  write_file_sets :
      (m : ℕ) (b : Bytes) (g : Gives fs p (file_node m b))
      → write_file masked fs p m b ≡ ok (put fs p (file_node (written_mode m b g) b))
  unfolding write_file written_mode
  write_file_sets m b (inl free) = rw (free, write_file)
  write_file_sets m b (inr (k, old, there)) = rw (there, write_file)

  chmod_file :
      (k m : ℕ) (b : Bytes)
      → chmod (put fs p (file_node k b)) p m ≡ ok (put (put fs p (file_node k b)) p (file_node m b))
  unfolding chmod
  chmod_file k m b = rw (put_at fs p (file_node k b), chmod)

  extract_file-Sets :
      (m : ℕ) (b : Bytes)
      → Gives fs p (file_node m b)
      → Sets (extract_file masked fs p m b) (file_node m b)
  unfolding extract_file
  extract_file-Sets m b g =
      let k = written_mode m b g in
      rw (ensure_parent_ok fs p name.0 open-Inside, mkdir_parent_same fs p name.0 masked 493 dirs)
        (rw (not_symlink m b g, write_file_sets m b g)
          (
            put (put fs p (file_node k b)) p (file_node m b),
            chmod_file k m b,
            put_twice fs p (file_node k b) (file_node m b),
          ))

  link_alone :
      (l : Bytes)
      → Gives fs p (link_node l)
      → IsSetAt fs p (link_node l) (put (remove_all fs p) p (link_node l))
  unfolding put remove_all
  link_alone l g q = elim (Bool-cases (eqb q p)) [
    | inl e ↦ rw e
    | inr n ↦ rw n (elim (Bool-cases (covers p q)) [
      | inl c ↦ rw c (lower (covers-Below p q c) n)
      | inr c ↦ rw c
    ])
  ]
    where
      lower : Below p q → eqb q p ≡ false → none ≡ fs q
      lower (at e) n = absurd (ground (arith, e, n, eqb_refl p))
      lower (under r e) n = sym (g q (r, e))

  extract_link-Sets :
      (l : Bytes) → Gives fs p (link_node l) → Sets (extract_link masked fs p l) (link_node l)
  unfolding extract_link
  extract_link-Sets l g =
      rw (ensure_parent_ok fs p name.0 open-Inside, mkdir_parent_same fs p name.0 masked 493 dirs)
        (put (remove_all fs p) p (link_node l), refl, link_alone l g)

-- The node that a layer gives back for a node: a log comes back redacted.
abbrev pub redacted_node : (Bytes → Bytes) → Bytes → Node → Node
redacted_node redact p (dir_node m) = dir_node m
redacted_node redact p (file_node m b) = file_node m (layer_body redact p b)
redacted_node redact p (link_node l) = link_node l

-- An entry whose parents are directories and whose place is fit for it sets its path and
-- nothing else.
pub extract_header_sets :
    (masked : ℕ → ℕ) (redact : Bytes → Bytes) (fs : Disk) (p : Bytes)
    → IsEntryPath p
    → ((a : Bytes) → Inside a p → IsDirAt fs a)
    → (n : Node) → Gives fs p (redacted_node redact p n)
    → (fs' : Disk) × (extract_header masked fs (node_header redact p n) ≡ ok fs')
      × IsSetAt fs p (redacted_node redact p n) fs'
unfolding extract_header extract_typed node_header
extract_header_sets masked redact fs p name dirs (dir_node m) g =
    rw (accept_plain p name.0, extract_header)
      (rw name.1 (extract_dir-Sets masked fs p name dirs m g))
extract_header_sets masked redact fs p name dirs (file_node m b) g =
    rw (accept_plain p name.0, extract_header)
      (rw name.1 (extract_file-Sets masked fs p name dirs m (layer_body redact p b) g))
extract_header_sets masked redact fs p name dirs (link_node l) g =
    rw (accept_plain p name.0, extract_header)
      (rw name.1 (extract_link-Sets masked fs p name dirs l g))
