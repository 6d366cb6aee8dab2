-- ===== src/Plugins/Manager/Guarded.antt =====
-- No enabled plugin ever holds a capability that its manifest does not declare
-- (core/plugin-host/src/manager.rs).
use pdf_platform.Plugins.Manager.{
  ActionReply, LoadedPlugin, PluginError, PluginManager, WasmAnswers, call_instance, change_plugin,
  check_breaker, enable, enabled_plugin, invoke_plugin, load_module, load_plugin, trip,
  undeclared_grant, with_plugin,
}
use pdf_platform.Plugins.Capability.{Capability, capability_eq}
use pdf_platform.Plugins.Grants.{
  CapabilityGrant, GrantStore, is_granted, grants_for, find_grant, active,
}
use pdf_platform.Plugins.Grants.Answers.{granted-entry}
use pdf_platform.Plugins.Runtime.{PluginManifest, consume_fuel}
use pdf_platform.Common.{
  ℕ, Bool-cases, List, Option-cases, Result, Result-cases, [], arith, inl, inr, none, refl, some,
  sym, true, ◌∙◌, ◌∷◌, ◌≡◌, subst,
}
use pdf_platform.Common.Keys.{◌==◌, bytes_eq, Distinct, contains}
use pdf_platform.Common.Map.{insert, insert-Distinct, keys, lookup, lookup-insert}

abbrev pub IsGuardedPlugin : List ℕ → LoadedPlugin → Type 0
IsGuardedPlugin i p =
    (c : Capability) → is_granted p.grants i c ≡ true → contains c p.manifest.capabilities ≡ true

-- The plugins are filed once each, and each declares what it is granted.
pub record IsGuarded (m : PluginManager) : Type 0 where
  pub filed : Distinct (keys m)
  pub declared : (i : List ℕ) (p : LoadedPlugin) → lookup i m ≡ some p → IsGuardedPlugin i p

-- A change of a plugin that keeps its manifest and its grants.
abbrev pub Keeps : (LoadedPlugin → LoadedPlugin) → Type 0
Keeps f = (p : LoadedPlugin) → ((f p).manifest ≡ p.manifest) × ((f p).grants ≡ p.grants)

all_declared :
    (caps : List Capability) (c : Capability) (gs : List CapabilityGrant)
    → undeclared_grant caps gs ≡ none
    → active (find_grant c gs) ≡ true
    → contains c caps ≡ true
unfolding undeclared_grant find_grant active
all_declared caps c [] h a = cc
all_declared caps c (g ∷ gs) h a =
    ground (arith, all_declared caps c gs, capability_eq.eqb_iff g.capability c)

insert-IsGuarded :
    (m : PluginManager) (i : List ℕ) (p : LoadedPlugin)
    → IsGuarded m
    → IsGuardedPlugin i p
    → IsGuarded (insert i p m)
insert-IsGuarded m i p v h = record {
  filed = insert-Distinct i p m v.filed;
  declared = λ j q found. elim (Bool-cases (i == j)) [
    | inl same ↦
        let here : i ≡ j = (bytes_eq.eqb_iff i j).0 same in
        let stored : p ≡ q = ground (arith, lookup-insert i j p m) in
        subst (λ k. IsGuardedPlugin k q) here (subst (λ r. IsGuardedPlugin i r) stored h)
    | inr other ↦ v.declared j q (ground (arith, lookup-insert i j p m))
  ];
}

change-IsGuarded :
    (m : PluginManager) (i : List ℕ) (p q : LoadedPlugin)
    → IsGuarded m
    → lookup i m ≡ some p
    → q.manifest ≡ p.manifest
    → q.grants ≡ p.grants
    → IsGuarded (insert i q m)
change-IsGuarded m i p q v found same_manifest same_grants =
    insert-IsGuarded m i q v
      (λ c h. rw same_manifest (v.declared i p found c (rw (sym same_grants) h)))

pub with_plugin-IsGuarded :
    {A : Type 0} (m : PluginManager) (i : List ℕ)
    (f : LoadedPlugin → LoadedPlugin × Result PluginError A)
    → IsGuarded m
    → Keeps (λ p. (f p).0)
    → IsGuarded (with_plugin m i f).0
unfolding with_plugin
with_plugin-IsGuarded m i f v k = elim (Option-cases (lookup i m)) [
  | inl absent ↦ rw (with_plugin, absent) v
  | inr (p, found) ↦
      rw (with_plugin, found) (change-IsGuarded m i p (f p).0 v found (k p).0 (k p).1)
]

pub change_plugin-IsGuarded :
    (m : PluginManager) (i : List ℕ) (f : LoadedPlugin → LoadedPlugin)
    → IsGuarded m
    → Keeps f
    → IsGuarded (change_plugin m i f)
unfolding change_plugin
change_plugin-IsGuarded m i f v k = elim (Option-cases (lookup i m)) [
  | inl absent ↦ rw (change_plugin, absent) v
  | inr (p, found) ↦
      rw (change_plugin, found) (change-IsGuarded m i p (f p) v found (k p).0 (k p).1)
]

check_breaker-Keeps : (i : List ℕ) (now : ℕ) → Keeps (λ p. (check_breaker i now p).0)
unfolding check_breaker
check_breaker-Keeps i now p = elim (Option-cases p.circuit_breaker_tripped_at) [
  | inl e ↦ ground arith
  | inr (t, e) ↦ ground arith
]

load_module-Keeps : (now : ℕ) (wasm : WasmAnswers) → Keeps (λ p. (load_module now wasm p).0)
unfolding load_module trip
load_module-Keeps now wasm p = elim (Result-cases wasm.compile) [
  | inl (_, compiled) ↦ elim (Result-cases wasm.link) [
    | inl (_, linked) ↦ elim (Result-cases wasm.instantiate) [
      | inl (_, made) ↦ rw (load_module, compiled, linked, made) (refl, refl)
      | inr (e, h) ↦ rw (load_module, compiled, linked, h) (refl, refl)
    ]
    | inr (e, h) ↦ rw (load_module, compiled, h) (refl, refl)
  ]
  | inr (e, h) ↦ rw (load_module, h) (refl, refl)
]

pub load_plugin-Keeps :
    (i : List ℕ) (now : ℕ) (wasm : WasmAnswers) → Keeps (λ p. (load_plugin i now wasm p).0)
unfolding load_plugin
load_plugin-Keeps i now wasm p =
    let q = (check_breaker i now p).0 in
    let kept = check_breaker-Keeps i now p in
    let loaded = load_module-Keeps now wasm q in
    elim (Result-cases (check_breaker i now p).1) [
      | inl (_, closed) ↦ rw (load_plugin, closed) (loaded.0 ∙ kept.0, loaded.1 ∙ kept.1)
      | inr (e, h) ↦ rw (load_plugin, h) kept
    ]

pub invoke_plugin-Keeps : (i : List ℕ) (r : ActionReply) → Keeps (λ p. (invoke_plugin i r p).0)
unfolding invoke_plugin call_instance consume_fuel
invoke_plugin-Keeps i r p = elim (Option-cases p.store) [
  | inl e ↦ ground arith
  | inr (s, e) ↦ ground arith
]

pub enable-IsGuarded :
    (m : PluginManager) (manifest : PluginManifest) (grants : GrantStore)
    → IsGuarded m
    → IsGuarded (enable m manifest grants).0
unfolding enable
enable-IsGuarded m manifest grants v =
    let found = undeclared_grant manifest.capabilities (grants_for grants manifest.id) in
    elim (Option-cases found) [
      | inl fine ↦
          rw (enable, fine)
            (insert-IsGuarded m manifest.id (enabled_plugin manifest grants) v (λ c h.
              all_declared manifest.capabilities c (grants_for grants manifest.id) fine
                (sym (granted-entry grants manifest.id c) ∙ h)))
      | inr (c, h) ↦ rw (enable, h) v
    ]
