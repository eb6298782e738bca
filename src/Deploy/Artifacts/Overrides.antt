-- ===== src/Deploy/Artifacts/Overrides.antt =====
-- The bytecode of the artifacts in hardhat/tasks/deploy/batch-helpers.ts.
use rayls_sovereign_contract.Base.{◌≡◌, true, arith}
use rayls_sovereign_contract.Base.Text.{codes, starts_with}
use rayls_sovereign_contract.Deploy.Artifacts.{RawBytecode, normalize_bytecode}

-- Whatever the file holds, normalized bytecode begins with "0x".
pub starts_with-normalize_bytecode :
    {Links : Type 0} (raw : RawBytecode Links)
    → starts_with (normalize_bytecode raw) (codes "0x") ≡ true
unfolding normalize_bytecode
starts_with-normalize_bytecode raw = ground arith
