-- ===== src/Lib.antt =====
-- rayls-sovereign-contracts: the TypeScript tooling that deploys and audits the Rayls contracts.
--
-- The tooling has two halves, which share how they talk to a chain. The deploy tasks allocate nonces,
-- send batches of transactions and record what they deployed; the audit tasks scan a chain's
-- AccessManager events and compare what they leave with what is expected.
--
--   Send            hardhat/tasks/utils/sendWithAllocatedNonces.ts: sendWithAllocatedNonces
--   Deploy/Nonces   hardhat/tasks/deploy/batch-helpers.ts: NonceManager
--   Deploy/Retry    the same file: retryOnTransientError
--   Deploy/Artifacts  the same file: getExplicitArtifact and what it calls
--   Deploy/Config   the same file: executeConfigWithNonce, executeBatchConfig, which use the three above
--   Deploy/Deployment  the same file: getFactoryForTask, deployWithNonce
--   Deploy/Proxies  the same file: deployProxyWithoutNonce, deployManualProxy
--   Deploy/Phases   the same file: deployProxiesInParallel, the implementations before their proxies
--   Deploy/Batch    the same file: deployBatch, deployBatchWithRetry, which use Deployment and Phases
--   Deploy/Validation  hardhat/tasks/deploy/validation-helpers.ts: validateImplementation, validateUpgrade
--   Deploy/ManifestFile  hardhat/tasks/deploy/manifest-manager.ts: the records of a manifest
--   Deploy/Manifest the same file: ManifestManager
--   Audit/Env       hardhat/tasks/audit/utils.ts: resolveRpcUrlByChain, resolveRegistryAddress
--   Audit/Logs      the same file: fetchLogsChunked
--   Audit/Fetch     the same file: fetchInBatches
--   Audit/DeployBlock  the same file: binarySearchDeployBlock
--   Audit/StartBlock   the same file: resolveStartingBlock, which falls back on the search
--   Audit/AbiFiles  the same file: findArtifactJson, loadAbi
--   Audit/Cts       the same file: fetchCtsAddresses and its fetcher
--   Audit/Nodes     parsePnList of hardhat/tasks/audit/parents.ts, parsePrivacyNodes of check-roles.ts
--   Audit/Replay    hardhat/tasks/audit/check-roles.ts: the order of the events and their decoding
--   Audit/Relayers  the same file: runRelayerRolesAudit, which uses StartBlock, Logs and Replay
--   Audit/ExpectedRoles  hardhat/tasks/audit/expected-roles: the grants that each chain should have
--   Audit/Expected  hardhat/tasks/audit/check-roles.ts: expectedRelayerAddresses, which uses Cts
--   Audit/OwnRoles  the same file: runOwnRolesAudit, which compares a chain with ExpectedRoles
--   Audit/RolesTasks  the same file: the tasks that run the two role audits
--   Audit/RegistryNames  hardhat/tasks/audit/check-onchain-selectors.ts: the artifact of a registry name
--   Audit/SelectorIndex  the same file: which artifacts have which selectors
--   Audit/Selectors the same file: the replay of the mapping events; below it Resolve gives each address
--                   an artifact and Findings gives each mapping a status
--   Audit/SelectorsTask  the same file: runOnchainSelectorsAudit and its task, which use the four above
--   Audit/Syntax    the TypeScript trees that hardhat/tasks/audit/check-deploy-selectors.ts reads
--   Audit/Scopes    the same file: the resolution of an identifier to a literal
--   Audit/Bindings  the same file: collectBindings
--   Audit/Lint      the same file: collectGetFunctionCalls and its task, which use the three above
--   Audit/Parents   hardhat/tasks/audit/parents.ts: audit:pnh, audit:pn, audit:pc, audit:all
--   Audit/MigrationFile  hardhat/tasks/audit/generate-migration.ts: the text that is written
--   Audit/Migration the same file: runGenerateMigration and its tasks
--   Utils/TokenStandards  hardhat/utils/tokenStandards.ts
--   Utils/EnvFile   hardhat/utils/envFile.ts
--
-- Base holds what they share: lists over the native numbers, JavaScript's strings, Map and Set, BigInt,
-- and asynchronous code. An async function that returns an A is an `Exec W A`: a function from the state
-- of the world W to an `Outcome A` (a value, or the error thrown) and the world that it leaves. What an
-- action did before it threw stays done. Each component is a definition under the source's name in snake
-- case; the module below it holds its lemmas and theorems, and the modules named Tests, or with a name that ends in it,
-- hold runs and the theorems at concrete inputs.
--
-- What the source only calls is a parameter: ethers and its providers, Hardhat's `hre.run`, the
-- environment, the file system (or a map from paths to contents where the source's own reads and writes
-- matter), JSON and sha256. A theorem that relies on their behaviour names it as a hypothesis.
--
-- Fuel. `search_loop` is given the head block, and each round halves a range no longer than that;
-- `fetch_windows` is given the number of blocks, and each window takes at least one; `slices` in
-- Base/Chunks is given the length of the list; so none of them runs out. A count of attempts or retries
-- is the source's own.
--
-- Not modelled: console output; delays; the interleaving of promises that are awaited together, which are
-- run in the order of the list; `toLowerCase` and white space outside ASCII; numbers beyond exact doubles.
-- The Solidity contracts, the deploy scripts themselves and the command-line tasks
-- that call one contract are not modelled.
pub mod Base
pub mod Send
pub mod Deploy
pub mod Audit
pub mod Utils
