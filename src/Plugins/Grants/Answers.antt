-- ===== src/Plugins/Grants/Answers.antt =====
-- What `is_granted` answers after each operation (core/plugin-host/src/grant.rs).
use pdf_platform.Plugins.Grants.{
  CapabilityGrant, GrantStore, active, find_grant, grant, grant_in, grants_for, is_granted,
  remove_grants, revoke, revoke_in,
}
use pdf_platform.Plugins.Capability.{Capability, capability_eq}
use pdf_platform.Common.{
  ℕ, ◌&&◌, List, Option-cases, [], arith, inl, inr, not, refl, ◌||◌, ◌∷◌, ◌≡◌, if◌then◌else◌,
}
use pdf_platform.Common.Keys.{◌==◌, bytes_eq, Distinct}
use pdf_platform.Common.Map.{keys, lookup, lookup-remove, lookup-insert}

granted-grant_in :
    (p : List ℕ) (c d : Capability) (now : ℕ) (gs : List CapabilityGrant)
    → active (find_grant d (grant_in p c now gs)) ≡ (c == d || active (find_grant d gs))
unfolding active find_grant grant_in
granted-grant_in p c d now [] = ground arith
granted-grant_in p c d now (g ∷ gs) = ground (
  arith,
  granted-grant_in p c d now gs,
  capability_eq.eqb_iff c d,
  capability_eq.eqb_iff g.capability c,
  capability_eq.eqb_iff g.capability d,
)

granted-revoke_in :
    (c d : Capability) (gs : List CapabilityGrant)
    → active (find_grant d (revoke_in c gs)) ≡ (not (c == d) && active (find_grant d gs))
unfolding active find_grant revoke_in
granted-revoke_in c d [] = ground arith
granted-revoke_in c d (g ∷ gs) = ground (
  arith,
  granted-revoke_in c d gs,
  capability_eq.eqb_iff c d,
  capability_eq.eqb_iff g.capability c,
  capability_eq.eqb_iff g.capability d,
)

-- What is asked of the plugin's entry.
pub granted-entry :
    (s : GrantStore) (q : List ℕ) (d : Capability)
    → is_granted s q d ≡ active (find_grant d (grants_for s q))
unfolding is_granted grants_for find_grant active
granted-entry s q d = elim (Option-cases (lookup q s.grants)) [
  | inl absent ↦ rw (is_granted, grants_for, absent) refl
  | inr (entry, found) ↦ rw (is_granted, grants_for, found) refl
]

grants_for-grant :
    (s : GrantStore) (p q : List ℕ) (c : Capability) (now : ℕ)
    → grants_for (grant s p c now) q
      ≡ (if p == q then grant_in p c now (grants_for s p) else grants_for s q)
unfolding grants_for grant
grants_for-grant s p q c now =
    ground (arith, lookup-insert p q (grant_in p c now (grants_for s p)) s.grants)

grants_for-revoke :
    (s : GrantStore) (p q : List ℕ) (c : Capability)
    → grants_for (revoke s p c) q
      ≡ (if p == q then revoke_in c (grants_for s p) else grants_for s q)
unfolding grants_for revoke revoke_in
grants_for-revoke s p q c = elim (Option-cases (lookup p s.grants)) [
  | inl absent ↦ ground (arith, bytes_eq.eqb_iff p q)
  | inr (entry, found) ↦ ground (arith, lookup-insert p q (revoke_in c entry) s.grants)
]

-- After `grant`, that plugin has that capability, and every other answer is as before.
is_granted-grant :
    (s : GrantStore) (p q : List ℕ) (c d : Capability) (now : ℕ)
    → is_granted (grant s p c now) q d ≡ ((p == q && c == d) || is_granted s q d)
is_granted-grant s p q c d now =
    rw (granted-entry s q d, granted-entry (grant s p c now) q d, grants_for-grant s p q c now)
      (ground (arith, granted-grant_in p c d now (grants_for s p), bytes_eq.eqb_iff p q))

-- After `revoke`, that plugin lacks that capability, and every other answer is as before.
is_granted-revoke :
    (s : GrantStore) (p q : List ℕ) (c d : Capability)
    → is_granted (revoke s p c) q d ≡ (not (p == q && c == d) && is_granted s q d)
is_granted-revoke s p q c d =
    rw (granted-entry s q d, granted-entry (revoke s p c) q d, grants_for-revoke s p q c)
      (ground (arith, granted-revoke_in c d (grants_for s p), bytes_eq.eqb_iff p q))

-- After `remove_all`, that plugin has no capability, and every other answer is as before.
is_granted-remove_grants :
    (s : GrantStore) (p q : List ℕ) (d : Capability)
    → Distinct (keys s.grants)
    → is_granted (remove_grants s p) q d ≡ (not (p == q) && is_granted s q d)
unfolding is_granted remove_grants
is_granted-remove_grants s p q d v = ground (arith, lookup-remove p q s.grants v)

-- On a store with one entry for each plugin: after `grant` that plugin has that capability, after
-- `revoke` it lacks it, after `remove_all` it has none, and every other answer is as before.
pub is_granted_lem :
    (s : GrantStore) (p q : List ℕ) (c d : Capability) (now : ℕ)
    → Distinct (keys s.grants)
    → (is_granted (grant s p c now) q d ≡ ((p == q && c == d) || is_granted s q d))
      × (is_granted (revoke s p c) q d ≡ (not (p == q && c == d) && is_granted s q d))
      × (is_granted (remove_grants s p) q d ≡ (not (p == q) && is_granted s q d))
is_granted_lem s p q c d now distinct = (
  is_granted-grant s p q c d now,
  is_granted-revoke s p q c d,
  is_granted-remove_grants s p q d distinct,
)
