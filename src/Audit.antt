-- ===== src/Audit.antt =====
-- hardhat/tasks/audit: the AccessManager audits.
pub mod Env
pub mod Logs
pub mod Fetch
pub mod DeployBlock
pub mod StartBlock
pub mod Nodes
pub mod Replay
pub mod Relayers
pub mod ExpectedRoles
pub mod Cts
pub mod Expected
pub mod OwnRoles
pub mod Parents
pub mod MigrationFile
pub mod Migration
pub mod AbiFiles
pub mod SelectorIndex
pub mod Selectors
pub mod RegistryNames
pub mod SelectorsTask
pub mod RolesTasks
pub mod Syntax
pub mod Scopes
pub mod Bindings
pub mod Lint
mod Tests
mod TaskTests
mod SelectorTests
mod RoleTests
mod LintTests
