-- ===== src/Agents.antt =====
-- agents/: what an agent may hold, name and read.
pub mod Permissions
pub mod Roles
pub mod Paths
pub mod Grants
pub mod WriteGuard
