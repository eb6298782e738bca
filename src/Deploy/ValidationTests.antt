-- ===== src/Deploy/ValidationTests.antt =====
-- hardhat/tasks/deploy/validation-helpers.ts: layouts that are compared, and the theorem at them.
use rayls_sovereign_contract.Base.{ℕ, ◌≡◌, ◌↔◌, ◌⊎◌, refl, true, false, [], ◌∷◌}
use rayls_sovereign_contract.Base.Text.{codes}
use rayls_sovereign_contract.Deploy.Validation.{StorageLayoutEntry, compare_storage}
use rayls_sovereign_contract.Deploy.Validation.Layouts.{Extends, compare_storage-Extends}

abbrev owner : ℕ → StorageLayoutEntry
owner offset = record {
  label = codes "owner";
  offset = offset;
  slot = codes "0";
  type_name = codes "t_address";
}

moved_test : compare_storage (owner 0 ∷ []) (owner 12 ∷ []) ≡ false
unfolding compare_storage
moved_test = refl

removed_test : compare_storage (owner 0 ∷ owner 0 ∷ []) (owner 0 ∷ []) ≡ false
unfolding compare_storage
removed_test = refl

compare_storage-Extends_example :
    (compare_storage (owner 0 ∷ []) (owner 0 ∷ owner 20 ∷ []) ≡ true) ↔ (
      (owner 0 ∷ [] ≡ [])
      ⊎ ((owner 0 ∷ owner 20 ∷ [] ≡ []) ⊎ Extends (owner 0 ∷ []) (owner 0 ∷ owner 20 ∷ [])))
compare_storage-Extends_example = compare_storage-Extends (owner 0 ∷ []) (owner 0 ∷ owner 20 ∷ [])
