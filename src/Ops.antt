-- ===== src/Ops.antt =====
-- ops/: the operator's surface.
pub mod StatusReport
pub mod ControlPlane
