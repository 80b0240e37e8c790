-- ===== src/Paths.antt =====
-- Slash-separated paths: `filepath.Split`, `filepath.Clean`, `filepath.Dir`, `filepath.Base` and
-- `filepath.Join` as the sources use them on Unix, where `filepath.ToSlash` changes nothing, and
-- `canonicalLayerPath`, `canonicalReadPath`, `canonicalLowerStorePath`, `lowerStoreParent` of
-- internal/osix (snapshot.go, lazy_read.go, lower_store.go).
pub mod Components
pub mod Canonical
pub mod Parent
