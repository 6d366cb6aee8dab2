-- ===== src/Plugins/Manager/Reachable.antt =====
-- The states that a plugin manager reaches, and what holds in all of them
-- (core/plugin-host/src/manager.rs).
use pdf_platform.Plugins.Manager.{
  LoadedPlugin, PluginManager, WasmAnswers, enable, fail_plugin, has_capability, invoke_action,
  load, record_failure, record_success, remove_plugin, unload,
}
use pdf_platform.Plugins.Manager.Guarded.{
  IsGuarded, with_plugin-IsGuarded, change_plugin-IsGuarded, load_plugin-Keeps, invoke_plugin-Keeps,
  enable-IsGuarded,
}
use pdf_platform.Plugins.Capability.{Capability, capability_eq}
use pdf_platform.Plugins.Grants.{GrantStore}
use pdf_platform.Plugins.Runtime.{PluginManifest}
use pdf_platform.Common.{ℕ, List, Option-cases, [], inl, inr, refl, some, true, ◌≡◌, arith}
use pdf_platform.Common.Keys.{bytes_eq, contains, retain_ne-Distinct}
use pdf_platform.Common.Map.{lookup, keys, keys-remove, lookup-remove}

-- One call of the manager.
pub data Step : PluginManager → PluginManager → Type 0 where
  enables :
      {m : PluginManager} (manifest : PluginManifest) (grants : GrantStore)
      → Step m (enable m manifest grants).0
  loads :
      {m : PluginManager} (i : List ℕ) (now : ℕ) (wasm : WasmAnswers) → Step m (load m i now wasm).0
  invokes : {m : PluginManager} (i action args : List ℕ) → Step m (invoke_action m i action args).0
  unloads : {m : PluginManager} (i : List ℕ) → Step m (unload m i).0
  fails : {m : PluginManager} (i : List ℕ) (now : ℕ) → Step m (record_failure m i now)
  succeeds : {m : PluginManager} (i : List ℕ) → Step m (record_success m i)
  removes : {m : PluginManager} (i : List ℕ) → Step m (remove_plugin m i).0

pub data Reached : PluginManager → Type 0 where
  initial : Reached []
  step : {m n : PluginManager} → Reached m → Step m n → Reached n

Step-IsGuarded : {m n : PluginManager} → Step m n → IsGuarded m → IsGuarded n
Step-IsGuarded (enables {m} manifest grants) v = enable-IsGuarded m manifest grants v
Step-IsGuarded (loads {m} i now wasm) v =
    unfold load in with_plugin-IsGuarded m i _ v (load_plugin-Keeps i now wasm)
Step-IsGuarded (invokes {m} i action args) v =
    unfold invoke_action in with_plugin-IsGuarded m i _ v (invoke_plugin-Keeps i _)
Step-IsGuarded (unloads {m} i) v =
    unfold unload in with_plugin-IsGuarded m i _ v (λ p. (refl, refl))
Step-IsGuarded (fails {m} i now) v =
    unfold record_failure fail_plugin in change_plugin-IsGuarded m i _ v (λ p. (refl, refl))
Step-IsGuarded (succeeds {m} i) v =
    unfold record_success in change_plugin-IsGuarded m i _ v (λ p. (refl, refl))
Step-IsGuarded (removes {m} i) v = record {
  filed =
      unfold remove_plugin in rw (keys-remove i m v.filed) (retain_ne-Distinct i (keys m) v.filed);
  declared = λ j q found.
      unfold remove_plugin in v.declared j q (ground (arith, lookup-remove i j m v.filed));
}

Reached-IsGuarded : {m : PluginManager} → Reached m → IsGuarded m
unfolding lookup
Reached-IsGuarded initial = record { filed = tt; declared = λ i p found. cc }
Reached-IsGuarded (step r s) = Step-IsGuarded s (Reached-IsGuarded r)

-- Whatever calls were made, a capability that the manager says a plugin has is declared in the
-- manifest of that plugin.
pub has_capability_declared :
    (m : PluginManager) (i : List ℕ) (c : Capability)
    → Reached m
    → has_capability m i c ≡ true
    → (p : LoadedPlugin) × (lookup i m ≡ some p) × (contains c p.manifest.capabilities ≡ true)
unfolding has_capability
has_capability_declared m i c r h = elim (Option-cases (lookup i m)) [
  | inl absent ↦ ground arith
  | inr (p, found) ↦ (p, found, (Reached-IsGuarded r).declared i p found c (ground arith))
]
