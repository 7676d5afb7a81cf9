-- ===== src/Rbac.antt =====
-- pkg/rbac/parser.go: RBAC markers become the rules of Roles and ClusterRoles.
pub mod Rule
pub mod Normalize
pub mod Permissions
pub mod Keys
pub mod Merge
pub mod Stage
pub mod Bucket
pub mod Sound
pub mod Roles
pub mod Split
pub mod Scope
pub mod Distinct
pub mod Output
mod Tests
mod RoleTests
