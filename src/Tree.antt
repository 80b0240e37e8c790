-- ===== src/Tree.antt =====
-- The tree that a snapshot records (internal/osix/types.go) and the functions of
-- internal/osix/snapshot.go that compare and merge trees.
pub mod Entry
pub mod Whiteout
pub mod Diff
pub mod Overlay
pub mod Changes
