-- ===== src/Plugins/Runtime.antt =====
-- core/plugin-host/src/runtime.rs: a plugin instance's state and its fuel; manifest.rs: of a manifest,
-- what the host reads; host_calls.rs: the capability gate. Fuel is u64.
use pdf_platform.Plugins.Capability.{Capability}
use pdf_platform.Plugins.Grants.{GrantStore, is_granted}
use pdf_platform.Common.{
  ℕ, ◌%◌, ◌+◌, ◌-◌, Bool, List, Option, ◌^◌, if◌then◌else◌, false, ltb, none, some, ◌==◌, ◌<◌,
  Bool-cases, arith, inl, inr, ◌↔◌, ◌≡◌,
}

pub record PluginManifest : Type 0 where
  pub id : List ℕ
  pub capabilities : List Capability

-- The fields that the coordinator fills for the host functions are left out.
pub record PluginInstanceState : Type 0 where
  pub manifest : PluginManifest
  pub grants : GrantStore
  pub fuel_remaining : ℕ
  pub fuel_consumed : ℕ
  pub initialized : Bool
  pub shut_down : Bool

-- `InstanceConfig::default().fuel_limit`
abbrev pub default_fuel_limit : ℕ
default_fuel_limit = 1000000

unfoldable pub create_store : PluginManifest → GrantStore → ℕ → PluginInstanceState
create_store manifest grants fuel_limit = record {
  manifest = manifest;
  grants = grants;
  fuel_remaining = fuel_limit;
  fuel_consumed = 0;
  initialized = false;
  shut_down = false;
}

-- Preempted when it would exceed the budget, which is then used up.
unfoldable pub consume_fuel : PluginInstanceState → ℕ → PluginInstanceState × Option ℕ
consume_fuel s amount =
    if ltb s.fuel_remaining amount
    then (
      record s {
        fuel_consumed = (s.fuel_consumed + s.fuel_remaining) % 2 ^ 64;
        fuel_remaining = 0;
      },
      none,
    )
    else (
      record s {
        fuel_remaining = s.fuel_remaining - amount;
        fuel_consumed = (s.fuel_consumed + amount) % 2 ^ 64;
      },
      some amount,
    )

unfoldable pub is_preempted : PluginInstanceState → Bool
is_preempted s = s.fuel_remaining == 0

unfoldable pub check_capability : PluginManifest → GrantStore → Capability → Bool
check_capability manifest grants capability = is_granted grants manifest.id capability

-- Fuel is neither made nor lost, and a call is refused exactly when it would exceed what remains.
pub consume_fuel_lem :
    (s : PluginInstanceState) (amount : ℕ)
    → s.fuel_remaining + s.fuel_consumed < 2 ^ 64
    → ((consume_fuel s amount).0.fuel_remaining + (consume_fuel s amount).0.fuel_consumed
        ≡ s.fuel_remaining + s.fuel_consumed)
      × (((consume_fuel s amount).1 ≡ none) ↔ (s.fuel_remaining < amount))
unfolding consume_fuel
consume_fuel_lem s amount h = elim (Bool-cases (ltb s.fuel_remaining amount)) [
  | inl over ↦ rw over (omega arith, ground arith)
  | inr within ↦ rw within (ground arith, ground arith)
]
