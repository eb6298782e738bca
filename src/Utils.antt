-- ===== src/Utils.antt =====
-- hardhat/utils.
pub mod TokenStandards
pub mod EnvFile
mod Tests
