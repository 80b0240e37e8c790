-- ===== src/Reads/Lazy/Layer.antt =====
-- What `readFileFromLayer` of internal/osix/lazy_read.go finds in a layer that `makeLayer` made.
use smol_agent_oci_fs.Base.{
  Bytes, true, false, if◌then◌else◌, List, [], ◌∷◌, ◌++◌, map, eqb, eqb→eq, eqb_comm, elem, any,
  Option, none, some, Bool-cases, inl, inr, ◌≡◌, refl, ap, ◌∙◌, sym, arith, All,
}
use smol_agent_oci_fs.Paths.Canonical.{accept_plain}
use smol_agent_oci_fs.Tree.Entry.{TreeEntry}
use smol_agent_oci_fs.Tree.Diff.{paths}
use smol_agent_oci_fs.Layer.Disk.{
  Disk, Node, dir_node, file_node, link_node, Result, ok, err, not_a_file,
}
use smol_agent_oci_fs.Layer.Names.{whiteout_name}
use smol_agent_oci_fs.Layer.Make.{
  Header, whiteout_header, layer_body, node_header, make_entries, make_layer,
}
use smol_agent_oci_fs.Layer.Extract.{validate_whiteout_header}
use smol_agent_oci_fs.Layer.Entries.{IsEntryPath}
use smol_agent_oci_fs.Layer.Whiteouts.{IsTarget}
use smol_agent_oci_fs.Reads.Lazy.{
  Reading, absent, deleted, found, read_typed, read_header, read_file_from_layer,
}
use smol_agent_oci_fs.Reads.Lazy.Marker.{whiteout_target-whiteout_name}

-- What a read gives for a node of the directory that the layer was made of.
abbrev pub node_reading : (Bytes → Bytes) → Bytes → Option Node → Result Reading
node_reading redact p none = ok absent
node_reading redact p (some (file_node m b)) = ok (found (layer_body redact p b))
node_reading redact p (some (link_node l)) = ok (found l)
node_reading redact p (some (dir_node m)) = err not_a_file

read_whiteout :
    (t name : Bytes) (rest : Result Reading)
    → IsTarget t
    → read_header (whiteout_header t) name rest ≡ (if eqb t name then ok deleted else rest)
unfolding read_header validate_whiteout_header
read_whiteout t name rest h =
    let (target, marked, plain) = whiteout_target-whiteout_name t h in
    rw (accept_plain (whiteout_name t) plain, read_header) (rw (marked, target) refl)

read_whiteouts :
    (ws : List Bytes) (hs : List Header) (name : Bytes)
    → All IsTarget ws
    → read_file_from_layer (map whiteout_header ws ++ hs) name
      ≡ (if elem name ws then ok deleted else read_file_from_layer hs name)
unfolding read_file_from_layer elem any
read_whiteouts [] hs name h = refl
read_whiteouts (t ∷ ws) hs name h =
    read_whiteout t name (read_file_from_layer (map whiteout_header ws ++ hs) name) h.0
    ∙ ground (arith, read_whiteouts ws hs name h.1, eqb_comm name t)

module _ (redact : Bytes → Bytes) where
  read_typed_node :
      (p : Bytes) (n : Node) → read_typed (node_header redact p n) ≡ node_reading redact p (some n)
  unfolding read_typed node_header
  read_typed_node p (dir_node m) = refl
  read_typed_node p (file_node m b) = refl
  read_typed_node p (link_node l) = refl

  name-node_header : (p : Bytes) (n : Node) → (node_header redact p n).name ≡ p
  unfolding node_header
  name-node_header p (dir_node m) = refl
  name-node_header p (file_node m b) = refl
  name-node_header p (link_node l) = refl

  read_node :
      (p name : Bytes) (n : Node) (rest : Result Reading)
      → IsEntryPath p
      → read_header (node_header redact p n) name rest
        ≡ (if eqb p name then node_reading redact p (some n) else rest)
  unfolding read_header
  read_node p name n rest h =
      rw (name-node_header p n, accept_plain p h.0, read_header)
        (rw (h.1, read_typed_node p n) refl)

  module _ (root : Disk) where
    made_cons :
        (e : TreeEntry) (es : List TreeEntry) (hs : List Header)
        → make_entries redact root (e ∷ es) ≡ ok hs
        → (n : Node) × (rest : List Header) × (root e.path ≡ some n)
          × (make_entries redact root es ≡ ok rest)
          × (hs ≡ node_header redact e.path n ∷ rest)
    unfolding make_entries
    made_cons e es hs h = go (root e.path) (make_entries redact root es) refl refl
      where
        go :
            (o : Option Node) (r : Result (List Header))
            → root e.path ≡ o
            → make_entries redact root es ≡ r
            → (n : Node) × (rest : List Header) × (root e.path ≡ some n)
              × (make_entries redact root es ≡ ok rest)
              × (hs ≡ node_header redact e.path n ∷ rest)
        go none r there made = absurd (ground (arith, h, there))
        go (some n) (err f) there made = absurd (ground (arith, h, there, made))
        go (some n) (ok rest) there made = (n, rest, there, made, ground (arith, h, there, made))

    read_entries :
        (es : List TreeEntry) (hs : List Header) (name : Bytes)
        → make_entries redact root es ≡ ok hs
        → All (λ e. IsEntryPath e.path) es
        → read_file_from_layer hs name
          ≡ (if elem name (paths es) then node_reading redact name (root name) else ok absent)
    unfolding make_entries read_file_from_layer paths elem any
    read_entries [] hs name h k = let same : [] ≡ hs = ground (arith, h) in rw (sym same) refl
    read_entries (e ∷ es) hs name h k =
        let (n, rest, there, made, same) = made_cons e es hs h in
        rw same (
          read_node e.path name n (read_file_from_layer rest name) k.0
          ∙ elim (Bool-cases (eqb e.path name)) [
            | inl y ↦
                let at_name : root name ≡ some n = ap root (sym (eqb→eq e.path name y)) ∙ there in
                let here : eqb name e.path ≡ true = eqb_comm name e.path ∙ y in
                rw (y, here, at_name, eqb→eq e.path name y) refl
            | inr other ↦
                let not_here : eqb name e.path ≡ false = eqb_comm name e.path ∙ other in
                rw (other, not_here) (read_entries es rest name made k.1)
          ])

    -- A layer that was made of a directory, for entries and whiteouts with names that are fit for
    -- it, reads as deleted at each of its whiteouts, also where it has an entry with the same
    -- name; at any other entry it reads as the file or the link of the directory, redacted, or
    -- fails for a directory, and elsewhere the file is absent.
    pub read_file_from_layer-make_layer :
        (es : List TreeEntry) (ws : List Bytes) (layer : List Header) (name : Bytes)
        → make_layer redact root es ws ≡ ok layer
        → All (λ e. IsEntryPath e.path) es
        → All IsTarget ws
        → read_file_from_layer layer name ≡ (
            if elem name ws
            then ok deleted
            else if elem name (paths es)
            then node_reading redact name (root name)
            else ok absent)
    unfolding make_layer
    read_file_from_layer-make_layer es ws layer name h k t = go (make_entries redact root es) refl
      where
        go :
            (r : Result (List Header))
            → make_entries redact root es ≡ r
            → read_file_from_layer layer name ≡ (
                if elem name ws
                then ok deleted
                else if elem name (paths es)
                then node_reading redact name (root name)
                else ok absent)
        go (err f) made = absurd (ground (arith, h, made))
        go (ok hs) made =
            let same : map whiteout_header ws ++ hs ≡ layer = ground (arith, h, made) in
            rw (sym same) (rw (← read_entries es hs name made k) (read_whiteouts ws hs name t))
