-- ===== src/Reads.antt =====
-- Reading one file of a snapshot: internal/osix/lazy_read.go, and the source of an entry.
pub mod Range
pub mod Source
pub mod Lazy
