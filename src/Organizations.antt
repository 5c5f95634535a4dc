-- ===== src/Organizations.antt =====
-- Organizations (src/organizations): what a member may do.
pub mod Permissions
