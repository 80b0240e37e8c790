-- ===== src/Layer/Scan.antt =====
-- The entry that `scanTree` of internal/osix/snapshot.go makes for a file, a directory or a link.
use smol_agent_oci_fs.Base.{Bytes, List, [], length, Option, none, some, ◌≡◌}
use smol_agent_oci_fs.Tree.Entry.{TreeEntry, file, dir, symlink, entry_at}
use smol_agent_oci_fs.Layer.Disk.{Disk, Node, dir_node, file_node, link_node}

module _ (digest : Bytes → Bytes) where
  -- The body of the walk, with `digestBytes` as the parameter; a link's permissions are 0777.
  abbrev pub scan_entry : Bytes → Node → TreeEntry
  scan_entry path (dir_node m) = record {
    path = path;
    kind = dir;
    mode = m;
    size = 0;
    digest = [];
    linkname = [];
  }
  scan_entry path (file_node m b) = record {
    path = path;
    kind = file;
    mode = m;
    size = length b;
    digest = digest b;
    linkname = [];
  }
  scan_entry path (link_node l) = record {
    path = path;
    kind = symlink;
    mode = 511;
    size = 0;
    digest = digest l;
    linkname = l;
  }

  abbrev pub scan_at : Bytes → Option Node → Option TreeEntry
  scan_at path none = none
  scan_at path (some n) = some (scan_entry path n)

  -- The tree has at each path what the walk makes of the disk there.
  abbrev pub Scanned : Disk → List TreeEntry → Type 0
  Scanned fs t = (q : Bytes) → scan_at q (fs q) ≡ entry_at t q
