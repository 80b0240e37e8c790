-- ===== src/Layer/Make.antt =====
-- `makeLayer` of internal/osix/snapshot.go. A layer is the sequence of its tar headers, each with
-- its content; the tar and zstd encodings are not modelled. The regular expressions of `redactLog`
-- are the parameter `redact`.
use smol_agent_oci_fs.Base.{ℕ, Bytes, if◌then◌else◌, List, [], ◌∷◌, ◌++◌, map, length, none, some}
use smol_agent_oci_fs.Policy.PathRules.{should_redact}
use smol_agent_oci_fs.Tree.Entry.{TreeEntry}
use smol_agent_oci_fs.Layer.Disk.{
  Node, dir_node, file_node, link_node, Disk, Result, ok, err, not_found, ◌>>=◌,
}
use smol_agent_oci_fs.Layer.Names.{whiteout_name}

-- tar.TypeReg and tar.TypeRegA, tar.TypeDir, tar.TypeSymlink, and the rest
pub data Typeflag : Type 0 where
  type_reg type_dir type_symlink : Typeflag
  type_other : ℕ → Typeflag

pub record Header : Type 0 where
  pub name : Bytes
  pub typeflag : Typeflag
  pub mode : ℕ
  pub size : ℕ
  pub linkname : Bytes
  pub body : Bytes

abbrev pub whiteout_header : Bytes → Header
whiteout_header target = record {
  name = whiteout_name target;
  typeflag = type_reg;
  mode = 0;
  size = 0;
  linkname = [];
  body = [];
}

module _ (redact : Bytes → Bytes) where
  -- The content that a layer holds for a file.
  abbrev pub layer_body : Bytes → Bytes → Bytes
  layer_body path b = if should_redact path then redact b else b

  -- tar.FileInfoHeader, with the fields that the loop sets afterwards
  unfoldable pub node_header : Bytes → Node → Header
  node_header path (dir_node m) = record {
    name = path;
    typeflag = type_dir;
    mode = m;
    size = 0;
    linkname = [];
    body = [];
  }
  node_header path (file_node m b) = record {
    name = path;
    typeflag = type_reg;
    mode = m;
    size = length (layer_body path b);
    linkname = [];
    body = layer_body path b;
  }
  node_header path (link_node l) = record {
    name = path;
    typeflag = type_symlink;
    mode = 511;
    size = 0;
    linkname = l;
    body = [];
  }

  unfoldable pub make_entries : Disk → List TreeEntry → Result (List Header)
  unfolding node_header
  make_entries root [] = ok []
  make_entries root (e ∷ es) =
      let rest = make_entries root es in
      elim (root e.path) [
        | none ↦ err not_found
        | some n ↦ rest >>= (λ hs. ok (node_header e.path n ∷ hs))
      ]

  unfoldable pub make_layer : Disk → List TreeEntry → List Bytes → Result (List Header)
  unfolding make_entries
  make_layer root tree whiteouts =
      make_entries root tree >>= (λ hs. ok (map whiteout_header whiteouts ++ hs))
