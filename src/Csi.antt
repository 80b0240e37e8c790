-- ===== src/Csi.antt =====
-- The CSI node plugin: internal/csinode.
pub mod Volume
pub mod RoundTrip
pub mod Sent
pub mod Records
pub mod Sizes
pub mod Workers
