-- ===== src/Plugins/Manager/Breaker.antt =====
-- The circuit breaker (core/plugin-host/src/manager.rs).

use pdf_platform.Plugins.Manager.{
  LoadedPlugin, PluginError, PluginManager, WasmAnswers, change_plugin, circuit_breaker_cooldown,
  circuit_breaker_open, fail_plugin, invoke_action, load, plugin_state, record_failure, running,
  with_plugin, ActionReply, check_breaker, invoke_plugin, load_module, load_plugin,
  circuit_breaker_threshold,
}
use pdf_platform.Common.{
  ℕ, ◌-◌, ◌<◌, List, Result, arith, err, ok, refl, some, ◌∙◌, ◌≡◌, ◌≤◌, false, ltb, lt→ltb,
  Result-cases, inl, inr, none, ap, le→leb,
}
use pdf_platform.Common.Keys.{==_refl, bytes_eq}
use pdf_platform.Common.Map.{insert, lookup, lookup-insert}

pub lookup-insert_self :
    (i : List ℕ) (p : LoadedPlugin) (m : PluginManager) → lookup i (insert i p m) ≡ some p
lookup-insert_self i p m = ground (arith, lookup-insert i i p m, ==_refl i)

record_failure_at :
    (m : PluginManager) (i : List ℕ) (p : LoadedPlugin) (now : ℕ)
    → lookup i m ≡ some p
    → lookup i (record_failure m i now) ≡ some (fail_plugin now p)
unfolding record_failure change_plugin
record_failure_at m i p now found =
    rw (record_failure, change_plugin, found) (lookup-insert_self i (fail_plugin now p) m)

plugin_state_at :
    (m : PluginManager) (i : List ℕ) (p : LoadedPlugin)
    → lookup i m ≡ some p
    → plugin_state m i ≡ some p.state
unfolding plugin_state
plugin_state_at m i p found = rw (plugin_state, found) refl

pub with_plugin_at :
    {A : Type 0} (m : PluginManager) (i : List ℕ)
    (f : LoadedPlugin → LoadedPlugin × Result PluginError A) (p : LoadedPlugin)
    → lookup i m ≡ some p
    → with_plugin m i f ≡ (insert i (f p).0 m, (f p).1)
unfolding with_plugin
with_plugin_at m i f p found = rw (with_plugin, found) refl

-- `load` after its breaker check.
abbrev pub load_after :
    ℕ
    → WasmAnswers
    → LoadedPlugin × Result PluginError (Unit {0})
    → LoadedPlugin × Result PluginError (Unit {0})
load_after now wasm (p, err e) = (p, err e)
load_after now wasm (p, ok _) = load_module now wasm p

pub load_checked :
    (i : List ℕ) (now : ℕ) (wasm : WasmAnswers) (p : LoadedPlugin)
    → load_plugin i now wasm p ≡ load_after now wasm (check_breaker i now p)
unfolding load_plugin
load_checked i now wasm p = elim (Result-cases (check_breaker i now p).1) [
  | inl (_, passed) ↦ rw (load_plugin, load_after, passed) refl
  | inr (e, refused) ↦ rw (load_plugin, load_after, refused) refl
]

pub check_untimed :
    (i : List ℕ) (now : ℕ) (p : LoadedPlugin)
    → circuit_breaker_threshold ≤ p.failure_count
    → p.circuit_breaker_tripped_at ≡ none
    → check_breaker i now p ≡ (p, ok tt)
unfolding check_breaker
check_untimed i now p many untimed =
    rw (check_breaker, le→leb circuit_breaker_threshold p.failure_count many, untimed)
      (ap (λ t. (record p { circuit_breaker_tripped_at = t }, ok tt)) untimed)

-- Three failures in a row, at the given times.
abbrev pub three_failures : PluginManager → List ℕ → ℕ → ℕ → ℕ → PluginManager
three_failures m i t1 t2 t3 = record_failure (record_failure (record_failure m i t1) i t2) i t3

module _ (m : PluginManager) (i : List ℕ) (p : LoadedPlugin) (found : lookup i m ≡ some p)
    (t1 t2 t3 : ℕ) where
  abbrev tripped : LoadedPlugin
  tripped = record p { failure_count = 3; circuit_breaker_tripped_at = some t3 }

  lookup-three_failures :
      p.failure_count ≡ 0 → lookup i (three_failures m i t1 t2 t3) ≡ some tripped
  unfolding fail_plugin
  lookup-three_failures none_yet =
      record_failure_at _ i _ t3 (record_failure_at _ i _ t2 (record_failure_at m i p t1 found))
      ∙ rw (fail_plugin, none_yet) refl

  tripped_invoke :
      (r : ActionReply)
      → p.state ≡ running
      → invoke_plugin i r tripped ≡ (tripped, err (circuit_breaker_open i 0))
  unfolding invoke_plugin
  tripped_invoke r runs = rw (invoke_plugin, runs) refl

  check_open :
      (now : ℕ)
      → now - t3 < circuit_breaker_cooldown
      → check_breaker i now tripped
        ≡ (tripped, err (circuit_breaker_open i (circuit_breaker_cooldown - (now - t3))))
  unfolding check_breaker
  check_open now h = rw (check_breaker, lt→ltb (now - t3) circuit_breaker_cooldown h) refl

  abbrev reset : LoadedPlugin
  reset = record p { failure_count = 0; circuit_breaker_tripped_at = none }

  check_reset :
      (now : ℕ) → circuit_breaker_cooldown ≤ now - t3 → check_breaker i now tripped ≡ (reset, ok tt)
  unfolding check_breaker
  check_reset now h =
      let past : ltb (now - t3) circuit_breaker_cooldown ≡ false = ground arith in
      rw (check_breaker, past) refl

  tripped_load :
      (now : ℕ) (wasm : WasmAnswers)
      → now - t3 < circuit_breaker_cooldown
      → (load_plugin i now wasm tripped).1
        ≡ err (circuit_breaker_open i (circuit_breaker_cooldown - (now - t3)))
  tripped_load now wasm h = rw (load_checked i now wasm tripped, check_open now h) refl

  reset_load :
      (now : ℕ) (wasm : WasmAnswers)
      → circuit_breaker_cooldown ≤ now - t3
      → wasm.compile ≡ ok tt
      → wasm.link ≡ ok tt
      → wasm.instantiate ≡ ok tt
      → ((load_plugin i now wasm tripped).1 ≡ ok tt)
        × ((load_plugin i now wasm tripped).0.state ≡ running)
        × ((load_plugin i now wasm tripped).0.failure_count ≡ 0)
  unfolding load_module
  reset_load now wasm h compiled linked made =
      rw (load_checked i now wasm tripped, check_reset now h, load_module, compiled, linked, made)
        (refl, refl, refl)

  -- Three failures of a running plugin without a failure open the breaker: invoking it is refused, with
  -- a remaining time of 0, loading it is refused for the rest of the cooldown, and loading it later, when
  -- wasmtime accepts it, makes it run with no failure counted.
  pub three_failures_lem :
      (action args : List ℕ) (now : ℕ) (wasm : WasmAnswers)
      → p.failure_count ≡ 0
      → p.state ≡ running
      → wasm.compile ≡ ok tt
      → wasm.link ≡ ok tt
      → wasm.instantiate ≡ ok tt
      → ((invoke_action (three_failures m i t1 t2 t3) i action args).1
          ≡ err (circuit_breaker_open i 0))
        × (now - t3 < circuit_breaker_cooldown
            → (load (three_failures m i t1 t2 t3) i now wasm).1
              ≡ err (circuit_breaker_open i (circuit_breaker_cooldown - (now - t3))))
        × (circuit_breaker_cooldown ≤ now - t3
            → ((load (three_failures m i t1 t2 t3) i now wasm).1 ≡ ok tt)
              × (plugin_state (load (three_failures m i t1 t2 t3) i now wasm).0 i ≡ some running))
  three_failures_lem action args now wasm none_yet runs compiled linked made =
      let failing = three_failures m i t1 t2 t3 in
      let at = lookup-three_failures none_yet in
      let reply : ActionReply = record { plugin = i; action = action; args_json = args } in
      let loaded = with_plugin_at failing i (load_plugin i now wasm) tripped at in
      (
        unfold invoke_action in
            ap (λ q. q.1) (with_plugin_at failing i (invoke_plugin i reply) tripped at)
            ∙ ap (λ q. q.1) (tripped_invoke reply runs),
        λ h. unfold load in ap (λ q. q.1) loaded ∙ tripped_load now wasm h,
        λ h.
            let (fine, up, _) = reset_load now wasm h compiled linked made in
            (
              (unfold load in ap (λ q. q.1) loaded ∙ fine),
              (unfold load in
                  ap (λ q. plugin_state q.0 i) loaded
                  ∙ plugin_state_at _ i _
                      (lookup-insert_self i (load_plugin i now wasm tripped).0 failing)
                  ∙ ap some up),
            ),
      )
