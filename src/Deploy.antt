-- ===== src/Deploy.antt =====
-- hardhat/tasks/deploy: nonces, retries, batches of transactions, and manifests.
pub mod Nonces
pub mod Retry
pub mod Artifacts
pub mod Config
pub mod Deployment
pub mod Proxies
pub mod Phases
pub mod Batch
pub mod Validation
pub mod ManifestFile
pub mod Manifest
mod Tests
mod ManifestTests
mod BatchTests
mod ValidationTests
