-- ===== src/Store.antt =====
-- The references of a workspace: internal/osix/store.go.
pub mod Refs
pub mod Atomic
pub mod Chain
