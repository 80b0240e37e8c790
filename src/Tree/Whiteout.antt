-- ===== src/Tree/Whiteout.antt =====
-- `mergeWhiteouts` of internal/osix/snapshot.go: the deleted paths of a layer, without repetition,
-- sorted, and without what lies below another of them.
pub mod Covering
pub mod Minimal
pub mod Defs
