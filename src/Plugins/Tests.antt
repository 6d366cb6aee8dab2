-- ===== src/Plugins/Tests.antt =====
-- Runs of the plugin host, and its theorems at concrete plugins.
use pdf_platform.Plugins.Capability.{
  read_text, annotate, network, capability_eq, capability_beq, variant,
}
use pdf_platform.Plugins.Grants.{
  GrantStore, empty_grants, grant, revoke, is_granted, remove_grants, grants_for, grant_in,
  find_grant, active,
}
use pdf_platform.Plugins.Grants.Answers.{is_granted_lem}
use pdf_platform.Plugins.Runtime.{PluginManifest, create_store}
use pdf_platform.Plugins.Manager.{
  PluginManager, LoadedPlugin, running, default_ui, enable, WasmAnswers, load, invoke_action,
  has_capability, undeclared_capability, plugin_state, circuit_breaker_cooldown,
  circuit_breaker_open, undeclared_grant,
}
use pdf_platform.Plugins.Manager.Reachable.{initial, step, enables, has_capability_declared}
use pdf_platform.Plugins.Manager.Breaker.{three_failures, three_failures_lem}
use pdf_platform.Plugins.Manager.Fuel.{IsDry, three_calls, fuel_breaker_stuck}
use pdf_platform.Common.{
  ℕ, ◌&&◌, ◌-◌, ◌<◌, List, [], ◌^◌, arith, err, none, not, ok, refl, some, true, ◌||◌, ◌∷◌, ◌≡◌,
  ◌≤◌,
}
use pdf_platform.Common.Keys.{◌==◌, bytes_eq, bytes_beq, contains}
use pdf_platform.Common.Map.{insert, lookup}

abbrev word_counter : List ℕ
word_counter = 119 ∷ 99 ∷ []

abbrev word_grants : GrantStore
word_grants = grant empty_grants word_counter read_text 5

is_granted_lem_example :
    (is_granted (grant word_grants word_counter annotate 6) word_counter read_text ≡ (
      (word_counter == word_counter && annotate == read_text)
      || is_granted word_grants word_counter read_text))
    × (is_granted (revoke word_grants word_counter annotate) word_counter read_text ≡ (
        not (word_counter == word_counter && annotate == read_text)
        && is_granted word_grants word_counter read_text))
    × (is_granted (remove_grants word_grants word_counter) word_counter read_text
        ≡ (not (word_counter == word_counter) && is_granted word_grants word_counter read_text))
unfolding grant empty_grants insert contains
is_granted_lem_example =
    is_granted_lem word_grants word_counter word_counter annotate read_text 6 (refl, tt)

abbrev word_manifest : PluginManifest
word_manifest = record { id = word_counter; capabilities = read_text ∷ annotate ∷ [] }

-- A grant that the manifest does not declare is refused.
undeclared_is_refused :
    (enable [] word_manifest (grant word_grants word_counter network 7)).1
    ≡ err (undeclared_capability word_counter network)
unfolding enable undeclared_grant grants_for grant grant_in empty_grants lookup insert
    capability_beq variant contains bytes_beq
undeclared_is_refused = refl

enabled_manager_granted :
    has_capability (enable [] word_manifest word_grants).0 word_counter read_text ≡ true
unfolding enable undeclared_grant grants_for grant grant_in empty_grants lookup insert
    capability_beq variant contains bytes_beq has_capability is_granted find_grant active
enabled_manager_granted = refl

has_capability_declared_example :
    (p : LoadedPlugin) × (lookup word_counter (enable [] word_manifest word_grants).0 ≡ some p)
    × (contains read_text p.manifest.capabilities ≡ true)
has_capability_declared_example =
    has_capability_declared (enable [] word_manifest word_grants).0 word_counter read_text
      (step initial (enables word_manifest word_grants)) enabled_manager_granted

abbrev running_plugin : LoadedPlugin
running_plugin = record {
  manifest = word_manifest;
  state = running;
  grants = word_grants;
  ui = default_ui;
  failure_count = 0;
  circuit_breaker_tripped_at = none;
  store = some (create_store word_manifest word_grants 1000000);
}

abbrev good_wasm : WasmAnswers
good_wasm = record { compile = ok tt; link = ok tt; instantiate = ok tt }

abbrev one_plugin : PluginManager
one_plugin = (word_counter, running_plugin) ∷ []

one_plugin_found : lookup word_counter one_plugin ≡ some running_plugin
unfolding lookup bytes_beq
one_plugin_found = refl

three_failures_lem_example :
    ((invoke_action (three_failures one_plugin word_counter 1 2 3) word_counter [] []).1
      ≡ err (circuit_breaker_open word_counter 0))
    × (9 - 3 < circuit_breaker_cooldown
        → (load (three_failures one_plugin word_counter 1 2 3) word_counter 9 good_wasm).1
          ≡ err (circuit_breaker_open word_counter (circuit_breaker_cooldown - (9 - 3))))
    × (circuit_breaker_cooldown ≤ 9 - 3
        → ((load (three_failures one_plugin word_counter 1 2 3) word_counter 9 good_wasm).1 ≡ ok tt)
          × (plugin_state
                (load (three_failures one_plugin word_counter 1 2 3) word_counter 9 good_wasm).0
                word_counter
              ≡ some running))
three_failures_lem_example =
    three_failures_lem one_plugin word_counter running_plugin one_plugin_found 1 2 3 [] [] 9
      good_wasm refl refl refl refl refl

-- A plugin with fuel for less than one call.
abbrev dry_plugin : LoadedPlugin
dry_plugin = record running_plugin { store = some (create_store word_manifest word_grants 999) }

abbrev dry_manager : PluginManager
dry_manager = (word_counter, dry_plugin) ∷ []

dry_found : lookup word_counter dry_manager ≡ some dry_plugin
unfolding lookup bytes_beq
dry_found = refl

dry_plugin-IsDry : IsDry 0 dry_plugin
unfolding create_store
dry_plugin-IsDry = record {
  runs = refl;
  failed = refl;
  untimed = refl;
  dry = (create_store word_manifest word_grants 999, refl, omega arith);
}

fuel_breaker_stuck_example :
    ((load (three_calls dry_manager word_counter [] []) word_counter (10 ^ 12) good_wasm).1 ≡ ok tt)
    × ((invoke_action
          (load (three_calls dry_manager word_counter [] []) word_counter (10 ^ 12) good_wasm).0
          word_counter
          []
          []).1
        ≡ err (circuit_breaker_open word_counter 0))
fuel_breaker_stuck_example =
    fuel_breaker_stuck dry_manager word_counter dry_plugin (10 ^ 12) good_wasm [] [] dry_found
      dry_plugin-IsDry refl refl refl
