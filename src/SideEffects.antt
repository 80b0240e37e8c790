-- ===== src/SideEffects.antt =====
-- The replay of side effects after a restore: internal/osix/side_effect_adapter.go.
pub mod Ledger
pub mod Decision
pub mod Replay
