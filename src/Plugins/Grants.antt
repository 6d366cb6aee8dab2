-- ===== src/Plugins/Grants.antt =====
-- core/plugin-host/src/grant.rs: the grant store. Plugin ids are lists of bytes; the time of a grant is
-- an argument, read from the clock by the source.
pub mod Answers
use pdf_platform.Plugins.Capability.{Capability, capability_eq}
use pdf_platform.Common.{
  ℕ, Bool, List, Option, [], if◌then◌else◌, false, length, none, some, true, ◌∷◌,
}
use pdf_platform.Common.Keys.{◌==◌, bytes_eq}
use pdf_platform.Common.Map.{insert, lookup, remove}

pub record CapabilityGrant : Type 0 where
  pub plugin_id : List ℕ
  pub capability : Capability
  pub granted : Bool
  pub granted_at : Option ℕ

pub record GrantStore : Type 0 where
  pub grants : List (List ℕ × List CapabilityGrant)

unfoldable pub empty_grants : GrantStore
empty_grants = record { grants = [] }

-- `iter().find(|g| g.capability == capability)`
unfoldable pub find_grant : Capability → List CapabilityGrant → Option CapabilityGrant
find_grant capability [] = none
find_grant capability (g ∷ gs) =
    if g.capability == capability then some g else find_grant capability gs

-- `grant`, on the entry of the plugin: the first grant of the capability is renewed, or one is pushed.
unfoldable pub grant_in : List ℕ → Capability → ℕ → List CapabilityGrant → List CapabilityGrant
grant_in plugin_id capability now [] =
    record { plugin_id = plugin_id; capability = capability; granted = true; granted_at = some now }
    ∷ []
grant_in plugin_id capability now (g ∷ gs) =
    if g.capability == capability
    then record g { granted = true; granted_at = some now } ∷ gs
    else g ∷ grant_in plugin_id capability now gs

unfoldable pub grants_for : GrantStore → List ℕ → List CapabilityGrant
grants_for s plugin_id = elim (lookup plugin_id s.grants) [ none ↦ [] | some entry ↦ entry ]

unfoldable pub grant : GrantStore → List ℕ → Capability → ℕ → GrantStore
grant s plugin_id capability now = record {
  grants = insert plugin_id (grant_in plugin_id capability now (grants_for s plugin_id)) s.grants;
}

unfoldable pub revoke_in : Capability → List CapabilityGrant → List CapabilityGrant
revoke_in capability [] = []
revoke_in capability (g ∷ gs) =
    if g.capability == capability
    then record g { granted = false; granted_at = none } ∷ gs
    else g ∷ revoke_in capability gs

unfoldable pub revoke : GrantStore → List ℕ → Capability → GrantStore
revoke s plugin_id capability = elim (lookup plugin_id s.grants) [
  | none ↦ s
  | some entry ↦ record { grants = insert plugin_id (revoke_in capability entry) s.grants }
]

-- `is_some_and(|g| g.granted)`
unfoldable pub active : Option CapabilityGrant → Bool
active none = false
active (some g) = g.granted

unfoldable pub is_granted : GrantStore → List ℕ → Capability → Bool
is_granted s plugin_id capability = elim (lookup plugin_id s.grants) [
  | none ↦ false
  | some entry ↦ active (find_grant capability entry)
]

-- `GrantStore::remove_all`
unfoldable pub remove_grants : GrantStore → List ℕ → GrantStore
remove_grants s plugin_id = record { grants = remove plugin_id s.grants }

unfoldable pub plugin_count : GrantStore → ℕ
plugin_count s = length s.grants
