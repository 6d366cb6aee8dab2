-- ===== src/Plugins/Manager.antt =====
-- core/plugin-host/src/manager.rs: the plugin manager. Durations and clock readings are nanoseconds;
-- `now` is the reading of the clock, and what wasmtime answers while a plugin loads is an argument.
-- Failure counts are u32. The runtime is stateless, so the manager is its map of plugins.
pub mod Guarded
pub mod Reachable
pub mod Breaker
pub mod Fuel
use pdf_platform.Plugins.Capability.{Capability, capability_eq}
use pdf_platform.Plugins.Grants.{CapabilityGrant, GrantStore, is_granted, grants_for}
use pdf_platform.Plugins.Runtime.{
  PluginManifest, PluginInstanceState, create_store, consume_fuel, default_fuel_limit,
}
use pdf_platform.Common.{
  ℕ, ◌%◌, ◌&&◌, ◌*◌, ◌+◌, ◌-◌, Bool, List, Option, Result, [], ◌^◌, if◌then◌else◌, err, false, leb,
  ltb, none, not, ok, some, true, ◌∷◌,
}
use pdf_platform.Common.Keys.{bytes_eq, contains}
use pdf_platform.Common.Map.{insert, lookup, remove}

abbrev pub circuit_breaker_threshold : ℕ
circuit_breaker_threshold = 3

abbrev pub circuit_breaker_cooldown : ℕ
circuit_breaker_cooldown = 60 * 10 ^ 9

pub data PluginState : Type 0 where
  discovered : PluginState
  enabled : PluginState
  running : PluginState
  failed : List ℕ → PluginState
  disabled : PluginState

pub record PluginUi : Type 0 where
  pub panels_json : List ℕ
  pub tools_json : List ℕ

abbrev pub default_ui : PluginUi
default_ui = record { panels_json = []; tools_json = [] }

-- The compiled module is kept by wasmtime and not modelled.
pub record LoadedPlugin : Type 0 where
  pub manifest : PluginManifest
  pub state : PluginState
  pub grants : GrantStore
  pub ui : PluginUi
  pub failure_count : ℕ
  pub circuit_breaker_tripped_at : Option ℕ
  pub store : Option PluginInstanceState

pub data RuntimeError : Type 0 where
  engine_init : List ℕ → RuntimeError
  compile_error : List ℕ → RuntimeError
  instantiate_error : List ℕ → RuntimeError
  host_call_error : List ℕ → RuntimeError
  preempted : RuntimeError
  memory_exceeded : RuntimeError

-- The manifest error is its text.
pub data PluginError : Type 0 where
  not_found : List ℕ → PluginError
  invalid_manifest : List ℕ → PluginError
  not_running : List ℕ → PluginError
  undeclared_capability : List ℕ → Capability → PluginError
  circuit_breaker_open : List ℕ → ℕ → PluginError
  runtime_error : RuntimeError → PluginError

abbrev pub PluginManager : Type 0
PluginManager = List (List ℕ × LoadedPlugin)

-- The check of `enable`: the first active grant of an undeclared capability.
unfoldable pub undeclared_grant : List Capability → List CapabilityGrant → Option Capability
undeclared_grant declared [] = none
undeclared_grant declared (g ∷ gs) =
    if g.granted && not (contains g.capability declared)
    then some g.capability
    else undeclared_grant declared gs

abbrev pub enabled_plugin : PluginManifest → GrantStore → LoadedPlugin
enabled_plugin manifest grants = record {
  manifest = manifest;
  state = enabled;
  grants = grants;
  ui = default_ui;
  failure_count = 0;
  circuit_breaker_tripped_at = none;
  store = none;
}

unfoldable pub enable :
    PluginManager → PluginManifest → GrantStore → PluginManager × Result PluginError (Unit {0})
enable m manifest grants =
    elim (undeclared_grant manifest.capabilities (grants_for grants manifest.id)) [
      | some c ↦ (m, err (undeclared_capability manifest.id c))
      | none ↦ (insert manifest.id (enabled_plugin manifest grants) m, ok tt)
    ]

-- `self.plugins.get_mut(plugin_id).ok_or_else(NotFound)?` and the change of that plugin.
unfoldable pub with_plugin :
    {A : Type 0}
    → PluginManager
    → List ℕ
    → (LoadedPlugin → LoadedPlugin × Result PluginError A)
    → PluginManager × Result PluginError A
with_plugin m plugin_id f = elim (lookup plugin_id m) [
  | none ↦ (m, err (not_found plugin_id))
  | some plugin ↦ (insert plugin_id (f plugin).0 m, (f plugin).1)
]

-- The breaker in `load`: refused for the rest of the cooldown, reset when it has run out.
unfoldable pub check_breaker :
    List ℕ → ℕ → LoadedPlugin → LoadedPlugin × Result PluginError (Unit {0})
check_breaker plugin_id now p =
    if leb circuit_breaker_threshold p.failure_count
    then elim p.circuit_breaker_tripped_at [
      | none ↦ (p, ok tt)
      | some tripped_at ↦
          if ltb (now - tripped_at) circuit_breaker_cooldown
          then (
            p,
            err (circuit_breaker_open plugin_id (circuit_breaker_cooldown - (now - tripped_at))),
          )
          else (record p { failure_count = 0; circuit_breaker_tripped_at = none }, ok tt)
    ]
    else (p, ok tt)

-- What wasmtime answers to `load`: compiling the module, linking the host functions, instantiating.
pub record WasmAnswers : Type 0 where
  pub compile : Result (List ℕ) (Unit {0})
  pub link : Result (List ℕ) (Unit {0})
  pub instantiate : Result (List ℕ) (Unit {0})

-- `failure_count += 1` and the trip time.
unfoldable pub trip : ℕ → LoadedPlugin → LoadedPlugin
trip now p = record p {
  failure_count = (p.failure_count + 1) % 2 ^ 32;
  circuit_breaker_tripped_at = some now;
}

unfoldable pub load_module :
    ℕ → WasmAnswers → LoadedPlugin → LoadedPlugin × Result PluginError (Unit {0})
load_module now wasm p = elim wasm.compile [
  | err e ↦ (trip now p, err (runtime_error (compile_error e)))
  | ok _ ↦ elim wasm.link [
    | err e ↦ (p, err (runtime_error (host_call_error e)))
    | ok _ ↦ elim wasm.instantiate [
      | err e ↦ (trip now p, err (runtime_error (instantiate_error e)))
      | ok _ ↦ (
        record p {
          store = some (create_store p.manifest p.grants default_fuel_limit);
          state = running;
        },
        ok tt,
      )
    ]
  ]
]

unfoldable pub load_plugin :
    List ℕ → ℕ → WasmAnswers → LoadedPlugin → LoadedPlugin × Result PluginError (Unit {0})
load_plugin plugin_id now wasm p =
    let checked = check_breaker plugin_id now p in
    elim checked.1 [ err e ↦ (checked.0, err e) | ok _ ↦ load_module now wasm checked.0 ]

unfoldable pub load :
    PluginManager → List ℕ → ℕ → WasmAnswers → PluginManager × Result PluginError (Unit {0})
load m plugin_id now wasm = with_plugin m plugin_id (load_plugin plugin_id now wasm)

-- The reply of `invoke_action`, which the source formats as JSON text.
pub record ActionReply : Type 0 where
  pub plugin : List ℕ
  pub action : List ℕ
  pub args_json : List ℕ

abbrev pub is_running : PluginState → Bool
is_running discovered = false
is_running enabled = false
is_running running = true
is_running (failed reason) = false
is_running disabled = false

-- The call into the instance: 1000 units of fuel.
unfoldable pub call_instance :
    List ℕ → ActionReply → LoadedPlugin → LoadedPlugin × Result PluginError ActionReply
call_instance plugin_id reply p = elim p.store [
  | none ↦ (p, err (not_running plugin_id))
  | some store ↦
      let consumed = consume_fuel store 1000 in
      let called = record p { store = some consumed.0 } in
      elim consumed.1 [
        | some _ ↦ (called, ok reply)
        | none ↦ (
          record called { failure_count = (p.failure_count + 1) % 2 ^ 32 },
          err (circuit_breaker_open plugin_id circuit_breaker_cooldown),
        )
      ]
]

unfoldable pub invoke_plugin :
    List ℕ → ActionReply → LoadedPlugin → LoadedPlugin × Result PluginError ActionReply
invoke_plugin plugin_id reply p =
    let called = call_instance plugin_id reply p in
    if not (is_running p.state)
    then (p, err (not_running plugin_id))
    else if leb circuit_breaker_threshold p.failure_count
    then (p, err (circuit_breaker_open plugin_id 0))
    else called

unfoldable pub invoke_action :
    PluginManager → List ℕ → List ℕ → List ℕ → PluginManager × Result PluginError ActionReply
invoke_action m plugin_id action_id args_json = with_plugin m plugin_id (
    invoke_plugin plugin_id
      (record { plugin = plugin_id; action = action_id; args_json = args_json }))

unfoldable pub unload : PluginManager → List ℕ → PluginManager × Result PluginError (Unit {0})
unload m plugin_id =
    with_plugin m plugin_id (λ p. (record p { state = disabled; ui = default_ui }, ok tt))

unfoldable pub fail_plugin : ℕ → LoadedPlugin → LoadedPlugin
fail_plugin now p =
    let count = (p.failure_count + 1) % 2 ^ 32 in
    record p {
      failure_count = count;
      circuit_breaker_tripped_at =
          if leb circuit_breaker_threshold count then some now else p.circuit_breaker_tripped_at;
    }

-- `if let Some(plugin) = self.plugins.get_mut(plugin_id)`
unfoldable pub change_plugin :
    PluginManager → List ℕ → (LoadedPlugin → LoadedPlugin) → PluginManager
change_plugin m plugin_id f = elim (lookup plugin_id m) [
  | none ↦ m
  | some plugin ↦ insert plugin_id (f plugin) m
]

unfoldable pub record_failure : PluginManager → List ℕ → ℕ → PluginManager
record_failure m plugin_id now = change_plugin m plugin_id (fail_plugin now)

unfoldable pub record_success : PluginManager → List ℕ → PluginManager
record_success m plugin_id =
    change_plugin m plugin_id
      (λ p. record p { failure_count = 0; circuit_breaker_tripped_at = none })

unfoldable pub has_capability : PluginManager → List ℕ → Capability → Bool
has_capability m plugin_id capability = elim (lookup plugin_id m) [
  | none ↦ false
  | some p ↦ is_granted p.grants plugin_id capability
]

-- `PluginManager::state`
unfoldable pub plugin_state : PluginManager → List ℕ → Option PluginState
plugin_state m plugin_id = elim (lookup plugin_id m) [ none ↦ none | some p ↦ some p.state ]

-- `PluginManager::remove`
unfoldable pub remove_plugin : PluginManager → List ℕ → PluginManager × Bool
remove_plugin m plugin_id =
    (remove plugin_id m, elim (lookup plugin_id m) [ none ↦ false | some _ ↦ true ])
