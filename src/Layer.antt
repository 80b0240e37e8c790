-- ===== src/Layer.antt =====
-- The layers of internal/osix/snapshot.go: what a layer holds, how `makeLayer` writes it from a
-- directory, and how `extractLayer` applies it to a directory.
pub mod Disk
pub mod Names
pub mod Make
pub mod Extract
pub mod Descent
pub mod Making
pub mod Entries
pub mod Whiteouts
pub mod Removal
pub mod Scan
pub mod Writing
pub mod Restore
