-- ===== src/Base/Dict.antt =====
-- JavaScript's `Map` (keys keep the place of their first insertion) and `Set`.
use mathlib.Core.Path.{◌≡◌, refl}
use mathlib.Core.Bool.{Bool, true, false, not}
use mathlib.Core.List.{List, [], ◌∷◌}
use mathlib.Core.Option.{Option, none, some}
use native.Mathlib.Omega.{arith}
use rayls_sovereign_contract.Base.Tests.{if◌then◌else◌, StrictEq, ◌===◌}
use rayls_sovereign_contract.Base.Lists.{contains, keep_if}

abbrev pub Dict {ℓ} : Type ℓ → Type ℓ → Type ℓ
Dict K V = List (K × V)

abbrev pub is_some {ℓ} : {A : Type ℓ} → Option A → Bool
is_some none = false
is_some (some a) = true

module _ {ℓ} {K V : Type ℓ} ⦃e : StrictEq K⦄ where
  unfoldable pub get : Dict K V → K → Option V
  get [] k = none
  get ((j, v) ∷ d) k = if j === k then some v else get d k

  unfoldable pub put : Dict K V → K → V → Dict K V
  put [] k v = (k, v) ∷ []
  put ((j, w) ∷ d) k v = let rest = put d k v in if j === k then (j, v) ∷ d else (j, w) ∷ rest

  unfoldable pub remove : Dict K V → K → Dict K V
  remove [] k = []
  remove ((j, w) ∷ d) k = let rest = remove d k in if j === k then rest else (j, w) ∷ rest

  abbrev pub has : Dict K V → K → Bool
  has d k = is_some (get d k)

  pub get-put :
      (d : Dict K V) (k j : K) (v : V) → get (put d k v) j ≡ (if k === j then some v else get d j)
  unfolding get put
  get-put [] k j v = refl
  get-put ((i, w) ∷ d) k j v =
      ground (arith, get-put d k j v, e.same_iff i k, e.same_iff i j, e.same_iff k j)

  pub get-remove :
      (d : Dict K V) (k j : K) → get (remove d k) j ≡ (if k === j then none else get d j)
  unfolding get remove
  get-remove [] k j = ground arith
  get-remove ((i, w) ∷ d) k j =
      ground (arith, get-remove d k j, e.same_iff i k, e.same_iff i j, e.same_iff k j)

-- `Set.add`, `Set.delete`
module _ {ℓ} {K : Type ℓ} ⦃e : StrictEq K⦄ where
  unfoldable pub add : List K → K → List K
  add [] k = k ∷ []
  add (j ∷ s) k = let rest = add s k in if j === k then j ∷ s else j ∷ rest

  unfoldable pub delete : List K → K → List K
  delete [] k = []
  delete (j ∷ s) k = let rest = delete s k in if j === k then rest else j ∷ rest

  -- `Array.from(new Set(ks))`
  unfoldable pub unique : List K → List K
  unique [] = []
  unique (k ∷ ks) = k ∷ keep_if (λ j. not (k === j)) (unique ks)

  pub contains-add :
      (s : List K) (k j : K) → contains (add s k) j ≡ (if k === j then true else contains s j)
  unfolding add
  contains-add [] k j = refl
  contains-add (i ∷ s) k j =
      ground (arith, contains-add s k j, e.same_iff i k, e.same_iff i j, e.same_iff k j)

  pub contains-delete :
      (s : List K) (k j : K) → contains (delete s k) j ≡ (if k === j then false else contains s j)
  unfolding delete
  contains-delete [] k j = ground arith
  contains-delete (i ∷ s) k j =
      ground (arith, contains-delete s k j, e.same_iff i k, e.same_iff i j, e.same_iff k j)
