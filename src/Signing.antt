-- ===== src/Signing.antt =====
-- What internal/osix/signing.go signs: `dssePAE`, the encoding of a payload with its type.
pub mod Unambiguous
use smol_agent_oci_fs.Base.{ℕ, Bytes, codes, List, [], ◌∷◌, ◌++◌, length}
use smol_agent_oci_fs.Base.Decimal.{decimal}

-- A number and a text, each after a space.
abbrev pub counted : Bytes → Bytes → Bytes
counted text rest = decimal (length text) ++ (b' ' ∷ (text ++ rest))

-- fmt.Sprintf("DSSEv1 %d %s %d %s", ...)
unfoldable pub dsse_pae : Bytes → Bytes → Bytes
dsse_pae payload_type payload = codes "DSSEv1 " ++ counted payload_type (b' ' ∷ counted payload [])
