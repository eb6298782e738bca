-- ===== src/Deploy/Batch/Places.antt =====
-- The map of results by place in `deployBatch` of hardhat/tasks/deploy/batch-helpers.ts.
use rayls_sovereign_contract.Base.{
  ℕ, suc, ◌≡◌, ◌∙◌, inl, inr, refl, sym, ap, subst, Bool, true, false, not, Option, some, List, [],
  ◌∷◌, ◌++◌, map, keep_if, All, Bool-cases, Option-cases, arith, length, length-append, get_elem?,
  nat_beq_iff, nat_eq, append_assoc, if◌then◌else◌, ◌===◌,
}
use rayls_sovereign_contract.Base.Text.{Text}
use rayls_sovereign_contract.Base.Dict.{Dict, get, put, has, is_some, get-put}
use rayls_sovereign_contract.Base.Chunks.{Pairwise}
use rayls_sovereign_contract.Deploy.Deployment.{DeploymentTask, DeploymentResult}
use rayls_sovereign_contract.Deploy.Phases.{Placed}
use rayls_sovereign_contract.Deploy.Phases.Keys.{Key, placed_key}
use rayls_sovereign_contract.Deploy.Batch.{with_index, PlacedResult, set_results, in_order}

abbrev pub result_key : PlacedResult → Key
result_key r = (r.1, r.0.name)

-- The result of a task: there is one, and it bears the task's name.
abbrev pub Answers : {Value : Type 0} → DeploymentTask Value → Option DeploymentResult → Type 0
Answers task o = (r : DeploymentResult) × (o ≡ some r) × (r.name ≡ task.name)

some-injective : {a b : Text} → some a ≡ some b → a ≡ b
some-injective e = cc

-- The name that belongs to each place.
module _ (names : ℕ → Option Text) where
  abbrev pub IsValid : Key → Type 0
  IsValid k = names k.0 ≡ some k.1

  abbrev IsNamed : Dict ℕ DeploymentResult → Type 0
  IsNamed d = (i : ℕ) (r : DeploymentResult) → get d i ≡ some r → names i ≡ some r.name

  put-IsNamed :
      (d : Dict ℕ DeploymentResult) (r : DeploymentResult) (i : ℕ)
      → names i ≡ some r.name
      → IsNamed d
      → IsNamed (put d i r)
  put-IsNamed d r i v h j s e = elim (Bool-cases (i === j)) [
    | inl c ↦
        let same : i ≡ j = (nat_beq_iff i j).0 c in
        let e' : some r ≡ some s = rw (get-put d i j r, c) at e in
        let own : r ≡ s = cc in
        subst (λ x. names j ≡ some x.name) own (subst (λ k. names k ≡ some r.name) same v)
    | inr c ↦ h j s (rw (get-put d i j r, c) at e)
  ]

  pub set_results-IsNamed :
      (rs : List PlacedResult) (d : Dict ℕ DeploymentResult)
      → All IsValid (map result_key rs)
      → IsNamed d
      → IsNamed (set_results rs d)
  unfolding set_results
  set_results-IsNamed [] d v h = h
  set_results-IsNamed ((r, i) ∷ rs) d v h =
      set_results-IsNamed rs (put d i r) v.1 (put-IsNamed d r i v.0 h)

  pub in_order-Answers :
      {Value : Type 0} (i : ℕ) (tasks : List (DeploymentTask Value)) (d : Dict ℕ DeploymentResult)
      → All (λ k. has d k.0 ≡ true) (map placed_key (with_index i tasks))
      → All IsValid (map placed_key (with_index i tasks))
      → IsNamed d
      → Pairwise Answers tasks (in_order i tasks d)
  unfolding in_order
  in_order-Answers i [] d there v h = tt
  in_order-Answers i (t ∷ tasks) d there v h =
      (first, in_order-Answers (suc i) tasks d there.1 v.1 h)
    where
      first : Answers t (get d i)
      first = elim (Option-cases (get d i)) [
        | inl e ↦ let no : false ≡ true = rw e at there.0 in cc
        | inr (r, e) ↦
            let own : names i ≡ some r.name = h i r e in (r, e, some-injective (sym own ∙ v.0))
      ]

pub has-set_results :
    (rs : List PlacedResult) (d : Dict ℕ DeploymentResult) (j : ℕ)
    → has d j ≡ true
    → has (set_results rs d) j ≡ true
unfolding set_results
has-set_results [] d j h = h
has-set_results ((r, i) ∷ rs) d j h =
    has-set_results rs (put d i r) j (ap is_some (get-put d i j r) ∙ kept (i === j) (get d j) h)
  where
    kept :
        (b : Bool) (o : Option DeploymentResult)
        → is_some o ≡ true
        → is_some (if b then some r else o) ≡ true
    kept true o h = refl
    kept false o h = h

-- Each place that is set has a result.
pub set_results-has :
    (rs : List PlacedResult) (d : Dict ℕ DeploymentResult)
    → All (λ k. has (set_results rs d) k.0 ≡ true) (map result_key rs)
unfolding set_results
set_results-has [] d = tt
set_results-has ((r, i) ∷ rs) d = (
  has-set_results rs (put d i r) i
      (ap is_some (get-put d i i r) ∙ rw ((nat_beq_iff i i).1 refl) refl),
  set_results-has rs (put d i r),
)

-- What holds of the tasks that pass a test and of the others holds of all, and the other way round.
module _ {Value : Type 0} (P : Key → Type 0) (test : Placed Value → Bool) where
  pub All-keep_if :
      (ps : List (Placed Value))
      → All P (map placed_key ps)
      → All P (map placed_key (keep_if test ps))
  All-keep_if [] h = tt
  All-keep_if (p ∷ ps) h = elim (Bool-cases (test p)) [
    | inl c ↦ rw c (h.0, All-keep_if ps h.1)
    | inr c ↦ rw c (All-keep_if ps h.1)
  ]

  pub keep_if-All :
      (ps : List (Placed Value))
      → All P (map placed_key (keep_if test ps))
      → All P (map placed_key (keep_if (λ p. not (test p)) ps))
      → All P (map placed_key ps)
  keep_if-All [] h k = tt
  keep_if-All (p ∷ ps) h k = elim (Bool-cases (test p)) [
    | inl c ↦
        let h' : P (placed_key p) × All P (map placed_key (keep_if test ps)) = rw c at h in
        (h'.0, keep_if-All ps h'.1 (rw c at k))
    | inr c ↦
        let k' : P (placed_key p) × All P (map placed_key (keep_if (λ q. not (test q)) ps)) =
          rw c at k in
        (k'.0, keep_if-All ps (rw c at h) k'.1)
  ]

get_elem?-append : (xs ys : List Text) (y : Text) → get_elem? (xs ++ (y ∷ ys)) (length xs) ≡ some y
get_elem?-append [] ys y = refl
get_elem?-append (x ∷ xs) ys y = get_elem?-append xs ys y

with_index-IsValid :
    {Value : Type 0} (before : List Text) (tasks : List (DeploymentTask Value))
    → All
        (IsValid (get_elem? (before ++ map (λ t. t.name) tasks)))
        (map placed_key (with_index (length before) tasks))
with_index-IsValid before [] = tt
with_index-IsValid before (t ∷ tasks) = (
  get_elem?-append before (map (λ t. t.name) tasks) t.name,
  rw (append_assoc before (t.name ∷ []) (map (λ t. t.name) tasks), longer) at
      (with_index-IsValid (before ++ (t.name ∷ [])) tasks),
)
  where
    longer : length (before ++ (t.name ∷ [])) ≡ suc (length before)
    longer = omega (arith, length-append before (t.name ∷ []))

-- Each task of a batch bears the name of its place.
pub tasks-IsValid :
    {Value : Type 0} (tasks : List (DeploymentTask Value))
    → All (IsValid (get_elem? (map (λ t. t.name) tasks))) (map placed_key (with_index 0 tasks))
tasks-IsValid tasks = with_index-IsValid [] tasks
