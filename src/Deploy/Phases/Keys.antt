-- ===== src/Deploy/Phases/Keys.antt =====
-- Which results the parallel deployment of proxies in hardhat/tasks/deploy/batch-helpers.ts comes to.
use rayls_sovereign_contract.Base.{
  ℕ, ◌≡◌, refl, ap, subst, Bool, true, false, Option, none, List, [], ◌∷◌, ◌++◌, map, keep_if,
}
use rayls_sovereign_contract.Base.Text.{Text, codes}
use rayls_sovereign_contract.Base.Outcome.{
  Outcome, ok, err, Exec, pure, ◌>>=◌, each, promise_all, handle, Ensures, Ensures-continue, Always,
  Always-bind, Always-then,
}
use rayls_sovereign_contract.Base.Chunks.{each-keys, promise_all-keys}
use rayls_sovereign_contract.Deploy.Nonces.{NonceManager}
use rayls_sovereign_contract.Deploy.Artifacts.{Artifact, ForgeJson}
use rayls_sovereign_contract.Deploy.Deployment.{Deployer, by_name}
use rayls_sovereign_contract.Deploy.Proxies.{
  ProxyCalls, of_outcome, factory_for, validate, wants_validation, proxy_contract,
}
use rayls_sovereign_contract.Deploy.Phases.{
  Placed, Plan, ImplDeployment, Impl, ProxyDeployment, Final, with_timeout, plan_for, submit_impls,
  await_impl, submit_proxies, await_proxy, on_world, submit, record_final, record_all, finish,
  deploy_for_impls, await_impls, deploy_plans, phases, parallel_failed, deploy_proxies_in_parallel,
  raced, init_data_of,
}

-- The place of a task, and its name.
abbrev pub Key : Type 0
Key = ℕ × Text

abbrev pub placed_key : {Value : Type 0} → Placed Value → Key
placed_key p = (p.1, p.0.name)

abbrev pub final_key : Final → Key
final_key f = (f.index, f.result.name)

-- Results that have the keys of one list have those of one with the same keys.
Always-≡ :
    {W : Type 0} {ks js : List Key} (m : Exec W (List Final))
    → ks ≡ js
    → Always (λ finals. map final_key finals ≡ ks) m
    → Always (λ finals. map final_key finals ≡ js) m
Always-≡ m e h = subst (λ ls. Always (λ finals. map final_key finals ≡ ls) m) e h

module _ {W Value Abi Links : Type 0} (no_links : Links) (is_no_links : Links → Bool)
    (read_artifact : Text → Exec W (Artifact Abi Links))
    (read_json : Text → Exec W (ForgeJson Abi Links)) (deployer : Deployer W Value Abi Links)
    (calls : ProxyCalls deployer) where
  open deployer use {Factory, Contract, wait_for_deployment, get_address}

  abbrev plan_key : Plan Value Factory → Key
  plan_key p = placed_key p.placed

  abbrev impl_key : Impl Value Factory → Key
  impl_key d = plan_key d.plan

  abbrev submitted_key : ImplDeployment Value Factory Contract → Key
  submitted_key d = plan_key d.plan

  abbrev proxy_key : ProxyDeployment Value Factory Contract → Key
  proxy_key d = impl_key d.impl

  abbrev finished_key : Final × Option Text → Key
  finished_key f = final_key f.0

  timed-Ensures :
      {A : Type 0} (P : A → Type 0) (label : Text) (ms : ℕ) (m : Exec W A) (w : W)
      → Ensures P (m w).0
      → Ensures P
          (with_timeout no_links is_no_links read_artifact read_json deployer calls label ms m w).0
  timed-Ensures P label ms m w h = by_timer (calls.exceeded label ms (m w).1)
    where
      by_timer :
          (late : Bool × W)
          → Ensures P
              (raced no_links is_no_links read_artifact read_json deployer calls label ms
                (m w).0
                late).0
      by_timer (true, w') = tt
      by_timer (false, w') = h

  plan_for-key :
      (p : Placed Value)
      → Always
          (λ x. plan_key x ≡ placed_key p)
          (plan_for no_links is_no_links read_artifact read_json deployer calls p)
  plan_for-key p =
      Always-then (λ x. plan_key x ≡ placed_key p)
        (with_timeout no_links is_no_links read_artifact read_json deployer calls
          (codes "getContractFactory(" ++ (p.0.artifact.contract_name ++ codes ")")) 60000
          (factory_for no_links is_no_links read_artifact read_json deployer calls p.0))
        _ (λ factory w. refl)

  submit_impls-keys :
      (ps : List (Plan Value Factory)) (s : NonceManager × W)
      → map submitted_key
          (submit_impls no_links is_no_links read_artifact read_json deployer calls ps s).0
        ≡ map plan_key ps
  unfolding submit_impls
  submit_impls-keys [] s = refl
  submit_impls-keys (p ∷ ps) (m, w) = ap (◌∷◌ (plan_key p)) (submit_impls-keys ps _)

  await_impl-key :
      (d : ImplDeployment Value Factory Contract)
      → Always
          (λ x. impl_key x ≡ submitted_key d)
          (await_impl no_links is_no_links read_artifact read_json deployer calls d)
  await_impl-key d =
      let P = λ (x : Impl Value Factory). impl_key x ≡ submitted_key d in
      Always-then P (of_outcome d.promise) _ (λ contract.
        Always-then P (wait_for_deployment contract) _
          (λ u. Always-then P (get_address contract) _ (λ address w. refl)))

  submit_proxies-keys :
      (proxy_factory : Factory) (ds : List (Impl Value Factory))
      → Always
          (λ out. map proxy_key out ≡ map impl_key ds)
          (submit_proxies no_links is_no_links read_artifact read_json deployer calls proxy_factory
            ds)
  unfolding submit_proxies
  submit_proxies-keys proxy_factory [] s = refl
  submit_proxies-keys proxy_factory (d ∷ ds) (m, w) =
      let P = λ (out : List (ProxyDeployment Value Factory Contract)).
        map proxy_key out ≡ map impl_key (d ∷ ds) in
      Ensures-continue P
        (init_data_of no_links is_no_links read_artifact read_json deployer calls d) _ _
        (λ init_data e.
          Always-bind (λ out. map proxy_key out ≡ map impl_key ds) P
            (submit_proxies no_links is_no_links read_artifact read_json deployer calls
              proxy_factory ds)
            _ (submit_proxies-keys proxy_factory ds) (λ rest keys s. ap (◌∷◌ (impl_key d)) keys) _)

  await_proxy-key :
      (d : ProxyDeployment Value Factory Contract)
      → Always
          (λ x. finished_key x ≡ proxy_key d)
          (await_proxy no_links is_no_links read_artifact read_json deployer calls d)
  await_proxy-key d =
      let P = λ (x : Final × Option Text). finished_key x ≡ proxy_key d in
      Always-then P (of_outcome d.promise) _ (λ contract.
        Always-then P (wait_for_deployment contract) _
          (λ u. Always-then P (get_address contract) _ (λ address w. refl)))

  abbrev plan_each : Placed Value → Exec W (Plan Value Factory)
  plan_each = plan_for no_links is_no_links read_artifact read_json deployer calls

  abbrev await_each : ImplDeployment Value Factory Contract → Exec W (Impl Value Factory)
  await_each = await_impl no_links is_no_links read_artifact read_json deployer calls

  abbrev finish_each : ProxyDeployment Value Factory Contract → Exec W (Final × Option Text)
  finish_each = await_proxy no_links is_no_links read_artifact read_json deployer calls

  abbrev timed : {A : Type 0} → Text → ℕ → Exec W A → Exec W A
  timed = with_timeout no_links is_no_links read_artifact read_json deployer calls

  -- What is awaited together, with a timer.
  timed-keys :
      {A B : Type 0} (f : A → Key) (g : B → Key) (label : Text) (step : A → Exec W B)
      → ((a : A) → Always (λ b. g b ≡ f a) (step a))
      → (as' : List A)
      → Always (λ bs. map g bs ≡ map f as') (timed label 60000 (promise_all step as'))
  timed-keys f g label step keeps as' w =
      timed-Ensures (λ bs. map g bs ≡ map f as') label 60000 (promise_all step as') w
        (promise_all-keys f g step keeps as' w)

  firsts-keys :
      (fs : List (Final × Option Text)) → map final_key (map (λ f. f.0) fs) ≡ map finished_key fs
  firsts-keys [] = refl
  firsts-keys (f ∷ fs) = ap (◌∷◌ (finished_key f)) (firsts-keys fs)

  record_all-keys :
      (impls : List (Impl Value Factory)) (fs : List (Final × Option Text))
      → Always
          (λ finals. map final_key finals ≡ map finished_key fs)
          (record_all no_links is_no_links read_artifact read_json deployer calls impls fs)
  record_all-keys impls fs =
      Always-then (λ finals. map final_key finals ≡ map finished_key fs)
        (each (record_final no_links is_no_links read_artifact read_json deployer calls impls) fs)
        (λ recorded. pure (map (λ f. f.0) fs)) (λ recorded w. firsts-keys fs)

  finish-keys :
      (impls : List (Impl Value Factory)) (out : List (ProxyDeployment Value Factory Contract))
      → Always
          (λ finals. map final_key finals ≡ map proxy_key out)
          (finish no_links is_no_links read_artifact read_json deployer calls impls out)
  finish-keys impls out =
      let P = λ (finals : List Final). map final_key finals ≡ map proxy_key out in
      let label = codes "wait for all proxies" in
      Always-bind (λ fs. map finished_key fs ≡ map proxy_key out) P
        (timed label 60000 (promise_all finish_each out))
        (record_all no_links is_no_links read_artifact read_json deployer calls impls)
        (timed-keys proxy_key finished_key label finish_each await_proxy-key out)
        (λ fs finished.
          Always-≡ (record_all no_links is_no_links read_artifact read_json deployer calls impls fs)
            finished (record_all-keys impls fs))

  deploy_for_impls-keys :
      (proxy_factory : Factory) (impls : List (Impl Value Factory))
      → Always
          (λ finals. map final_key finals ≡ map impl_key impls)
          (deploy_for_impls no_links is_no_links read_artifact read_json deployer calls
            proxy_factory impls)
  deploy_for_impls-keys proxy_factory impls =
      Always-bind (λ out. map proxy_key out ≡ map impl_key impls)
        (λ finals. map final_key finals ≡ map impl_key impls)
        (submit_proxies no_links is_no_links read_artifact read_json deployer calls proxy_factory
          impls)
        (λ ds.
          on_world (finish no_links is_no_links read_artifact read_json deployer calls impls ds))
        (submit_proxies-keys proxy_factory impls)
        (λ out sent s.
          Always-≡ (finish no_links is_no_links read_artifact read_json deployer calls impls out)
            sent (finish-keys impls out) s.1)

  await_impls-keys :
      (proxy_factory : Factory) (ds : List (ImplDeployment Value Factory Contract))
      → Always
          (λ finals. map final_key finals ≡ map submitted_key ds)
          (await_impls no_links is_no_links read_artifact read_json deployer calls proxy_factory ds)
  await_impls-keys proxy_factory ds =
      let label = codes "wait for all impls" in
      Always-bind (λ impls. map impl_key impls ≡ map submitted_key ds)
        (λ finals. map final_key finals ≡ map submitted_key ds)
        (on_world (timed label 60000 (promise_all await_each ds)))
        (deploy_for_impls no_links is_no_links read_artifact read_json deployer calls proxy_factory)
        (λ s. timed-keys submitted_key impl_key label await_each await_impl-key ds s.1)
        (λ impls mined.
          Always-≡
            (deploy_for_impls no_links is_no_links read_artifact read_json deployer calls
              proxy_factory impls)
            mined (deploy_for_impls-keys proxy_factory impls))

  deploy_plans-keys :
      (plans : List (Plan Value Factory))
      → Always
          (λ finals. map final_key finals ≡ map plan_key plans)
          (deploy_plans no_links is_no_links read_artifact read_json deployer calls plans)
  deploy_plans-keys plans =
      let P = λ (finals : List Final). map final_key finals ≡ map plan_key plans in
      Always-then P
        (on_world (
          timed (codes "getContractFactory(RaylsERC1967Proxy)") 60000
            (deployer.make_factory (by_name proxy_contract) none)))
        (λ proxy_factory.
          submit no_links is_no_links read_artifact read_json deployer calls plans
          >>= await_impls no_links is_no_links read_artifact read_json deployer calls proxy_factory)
        (λ proxy_factory.
          Always-bind (λ ds. map submitted_key ds ≡ map plan_key plans) P
            (submit no_links is_no_links read_artifact read_json deployer calls plans)
            (await_impls no_links is_no_links read_artifact read_json deployer calls proxy_factory)
            (submit_impls-keys plans)
            (λ ds submitted.
              Always-≡
                (await_impls no_links is_no_links read_artifact read_json deployer calls
                  proxy_factory ds)
                submitted (await_impls-keys proxy_factory ds)))

  phases-keys :
      (proxies : List (Placed Value))
      → Always
          (λ finals. map final_key finals ≡ map placed_key proxies)
          (phases no_links is_no_links read_artifact read_json deployer calls proxies)
  phases-keys proxies =
      let P = λ (finals : List Final). map final_key finals ≡ map placed_key proxies in
      Always-then P
        (on_world (
          promise_all
            (λ p. validate no_links is_no_links read_artifact read_json deployer calls p.0)
            (keep_if (λ p. wants_validation p.0) proxies)))
        (λ validated.
          on_world (each plan_each proxies)
          >>= deploy_plans no_links is_no_links read_artifact read_json deployer calls)
        (λ validated.
          Always-bind (λ plans. map plan_key plans ≡ map placed_key proxies) P
            (on_world (each plan_each proxies))
            (deploy_plans no_links is_no_links read_artifact read_json deployer calls)
            (λ s. each-keys placed_key plan_key plan_each plan_for-key proxies s.1)
            (λ plans planned.
              Always-≡
                (deploy_plans no_links is_no_links read_artifact read_json deployer calls plans)
                planned (deploy_plans-keys plans)))

  -- What the parallel deployment of proxies answers with has the places and the names of the tasks, in
  -- their order.
  pub deploy_proxies_in_parallel-keys :
      (proxies : List (Placed Value))
      → Always
          (λ finals. map final_key finals ≡ map placed_key proxies)
          (deploy_proxies_in_parallel no_links is_no_links read_artifact read_json deployer calls
            proxies)
  unfolding deploy_proxies_in_parallel
  deploy_proxies_in_parallel-keys proxies s =
      handled (phases no_links is_no_links read_artifact read_json deployer calls proxies s)
        (phases-keys proxies s)
    where
      handled :
          (r : Outcome (List Final) × (NonceManager × W))
          → Ensures (λ finals. map final_key finals ≡ map placed_key proxies) r.0
          → Ensures
              (λ finals. map final_key finals ≡ map placed_key proxies)
              (handle
                (parallel_failed no_links is_no_links read_artifact read_json deployer calls)
                r).0
      handled (ok fs, s') h = h
      handled (err e, s') h = tt
