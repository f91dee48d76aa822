-- ===== src/Project.antt =====
-- internal/project: projects, their settings and their members.
pub mod Members
pub mod Settings
pub mod Slug
pub mod Create
pub mod Owners
pub mod Keeps
pub mod Revoke
