-- ===== src/Operator.antt =====
-- The Kubernetes operator: internal/k8soperator.
pub mod Types
pub mod Status
pub mod Conditions
pub mod Context
pub mod Segment
pub mod Plan
pub mod LocalMounts
