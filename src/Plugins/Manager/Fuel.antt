-- ===== src/Plugins/Manager/Fuel.antt =====
-- A plugin that runs out of fuel, and the circuit breaker (core/plugin-host/src/manager.rs).
use pdf_platform.Plugins.Runtime.{PluginInstanceState, consume_fuel}
use pdf_platform.Plugins.Manager.{
  call_instance, LoadedPlugin, PluginManager, WasmAnswers, circuit_breaker_open, invoke_action,
  load, running, with_plugin, ActionReply, invoke_plugin, load_module, load_plugin,
  circuit_breaker_threshold,
}
use pdf_platform.Common.{
  ◌+◌, leb, ℕ, ◌<◌, List, arith, err, ok, refl, some, ◌∙◌, ◌≡◌, ◌≤◌, false, lt→ltb, none, ap,
  le→leb,
}
use pdf_platform.Common.Keys.{bytes_eq}
use pdf_platform.Common.Map.{lookup}
use pdf_platform.Plugins.Manager.Breaker.{
  check_untimed, load_checked, lookup-insert_self, with_plugin_at,
}

untimed_load :
    (i : List ℕ) (now : ℕ) (wasm : WasmAnswers) (p : LoadedPlugin)
    → circuit_breaker_threshold ≤ p.failure_count
    → p.circuit_breaker_tripped_at ≡ none
    → wasm.compile ≡ ok tt
    → wasm.link ≡ ok tt
    → wasm.instantiate ≡ ok tt
    → ((load_plugin i now wasm p).1 ≡ ok tt)
      × ((load_plugin i now wasm p).0.state ≡ running)
      × ((load_plugin i now wasm p).0.failure_count ≡ p.failure_count)
unfolding load_module
untimed_load i now wasm p many untimed compiled linked made =
    rw
      (
        load_checked i now wasm p,
        check_untimed i now p many untimed,
        load_module,
        compiled,
        linked,
        made,
      )
      (refl, refl, refl)

over_invoke :
    (i : List ℕ) (r : ActionReply) (p : LoadedPlugin)
    → p.state ≡ running
    → circuit_breaker_threshold ≤ p.failure_count
    → (invoke_plugin i r p).1 ≡ err (circuit_breaker_open i 0)
unfolding invoke_plugin
over_invoke i r p runs many =
    rw (invoke_plugin, runs, le→leb circuit_breaker_threshold p.failure_count many) refl

-- A plugin over the threshold without a trip time loads, and is refused all the same.
untimed_stuck :
    (m : PluginManager) (i : List ℕ) (p : LoadedPlugin) (now : ℕ) (wasm : WasmAnswers)
    (action args : List ℕ)
    → lookup i m ≡ some p
    → circuit_breaker_threshold ≤ p.failure_count
    → p.circuit_breaker_tripped_at ≡ none
    → wasm.compile ≡ ok tt
    → wasm.link ≡ ok tt
    → wasm.instantiate ≡ ok tt
    → ((load m i now wasm).1 ≡ ok tt)
      × ((invoke_action (load m i now wasm).0 i action args).1 ≡ err (circuit_breaker_open i 0))
untimed_stuck m i p now wasm action args found many untimed compiled linked made =
    let loaded = with_plugin_at m i (load_plugin i now wasm) p found in
    let same = untimed_load i now wasm p many untimed compiled linked made in
    let q = (load_plugin i now wasm p).0 in
    let reply : ActionReply = record { plugin = i; action = action; args_json = args } in
    (
      (unfold load in ap (λ r. r.1) loaded ∙ same.0),
      (unfold load invoke_action in
          ap (λ r. (with_plugin r.0 i (invoke_plugin i reply)).1) loaded
          ∙ ap (λ r. r.1) (with_plugin_at _ i (invoke_plugin i reply) q (lookup-insert_self i q m))
          ∙ over_invoke i reply q same.1 (omega (arith, same.2))),
    )

-- A running plugin with `n` failures, no trip time and less fuel than a call takes.
pub record IsDry (n : ℕ) (p : LoadedPlugin) : Type 0 where
  pub runs : p.state ≡ running
  pub failed : p.failure_count ≡ n
  pub untimed : p.circuit_breaker_tripped_at ≡ none
  pub dry : (s : PluginInstanceState) × (p.store ≡ some s) × (s.fuel_remaining < 1000)

IsDry-invoke_plugin :
    (i : List ℕ) (r : ActionReply) (p : LoadedPlugin) (n : ℕ)
    → n < 3
    → IsDry n p
    → IsDry (n + 1) (invoke_plugin i r p).0
unfolding invoke_plugin call_instance consume_fuel
IsDry-invoke_plugin i r p n few h =
    let (s, stored, low) = h.dry in
    let closed : leb circuit_breaker_threshold p.failure_count ≡ false = ground (arith, h.failed) in
    rw
      (
        invoke_plugin,
        h.runs,
        closed,
        call_instance,
        stored,
        consume_fuel,
        lt→ltb s.fuel_remaining 1000 low,
      )
      (record {
        runs = h.runs;
        failed = omega (arith, h.failed, few);
        untimed = h.untimed;
        dry = (
          (consume_fuel s 1000).0,
          refl,
          rw (consume_fuel, lt→ltb s.fuel_remaining 1000 low) (omega arith),
        );
      })

-- One more call that runs out of fuel.
IsDry-invoke_action :
    (m : PluginManager) (i : List ℕ) (action args : List ℕ) (n : ℕ)
    → n < 3
    → ((p : LoadedPlugin) × (lookup i m ≡ some p) × IsDry n p)
    → (p : LoadedPlugin) × (lookup i (invoke_action m i action args).0 ≡ some p) × IsDry (n + 1) p
unfolding invoke_action
IsDry-invoke_action m i action args n few (p, found, h) =
    let reply : ActionReply = record { plugin = i; action = action; args_json = args } in
    let called = with_plugin_at m i (invoke_plugin i reply) p found in
    (
      (invoke_plugin i reply p).0,
      ap (λ q. lookup i q.0) called ∙ lookup-insert_self i (invoke_plugin i reply p).0 m,
      IsDry-invoke_plugin i reply p n few h,
    )

-- Three calls, one after another.
abbrev pub three_calls : PluginManager → List ℕ → List ℕ → List ℕ → PluginManager
three_calls m i action args =
    (invoke_action (invoke_action (invoke_action m i action args).0 i action args).0 i action
      args).0

-- A running plugin with no failure counted, no trip time and less fuel than a call takes is called
-- three times: it runs out of fuel each time. Loading it again, when wasmtime accepts it, then succeeds
-- at any time, yet invoking it is refused by the breaker.
pub fuel_breaker_stuck :
    (m : PluginManager) (i : List ℕ) (p : LoadedPlugin) (now : ℕ) (wasm : WasmAnswers)
    (action args : List ℕ)
    → lookup i m ≡ some p
    → IsDry 0 p
    → wasm.compile ≡ ok tt
    → wasm.link ≡ ok tt
    → wasm.instantiate ≡ ok tt
    → ((load (three_calls m i action args) i now wasm).1 ≡ ok tt)
      × ((invoke_action (load (three_calls m i action args) i now wasm).0 i action args).1
          ≡ err (circuit_breaker_open i 0))
fuel_breaker_stuck m i p now wasm action args found h compiled linked made =
    let first = IsDry-invoke_action m i action args 0 (omega arith) (p, found, h) in
    let second = IsDry-invoke_action _ i action args 1 (omega arith) first in
    let (q, here, third) = IsDry-invoke_action _ i action args 2 (omega arith) second in
    untimed_stuck (three_calls m i action args) i q now wasm action args here
      (omega (arith, third.failed)) third.untimed compiled linked made
