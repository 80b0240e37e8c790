-- ===== src/Examples.antt =====
-- Tests of the definitions, and each theorem with hypotheses at an input that meets them.
mod Trees
mod Overlay
mod Guards
mod Replay
mod Reads
mod Store
mod Operator
mod Csi
mod Lazy
mod Restore
mod Compact
mod Sizes
mod Registry
mod Lower
mod Plan
