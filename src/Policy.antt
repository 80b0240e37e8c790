-- ===== src/Policy.antt =====
-- Rules on paths and side effects: internal/osix/snapshot.go, policy.go, side_effect_adapter.go.
pub mod PathRules
