-- ===== src/Document/Overlay.antt =====
-- core/pdf-model/src/overlay.rs: the copy-on-write overlay. An object's serialized bytes are a list
-- of numbers; `versions` is the HashMap keyed by (object number, revision); revisions are u64.
pub mod Reads
use pdf_platform.Common.Map.{insert}
use mathlib.Core.Option
use pdf_platform.Common.{
  ℕ, ◌%◌, ◌&&◌, ◌+◌, ◌++◌, Bool, List, Option, [], ◌^◌, arith, if◌then◌else◌, leb, ltb, map, none,
  some, true, ◌↔◌, ◌∷◌, ◌≡◌,
}
use pdf_platform.Common.Keys.{◌==◌, Eq, nat_eq}

abbrev pub version_key_beq : ℕ × ℕ → ℕ × ℕ → Bool
version_key_beq (a, r) (b, s) = a == b && r == s

pub version_key_beq_iff : (a b : ℕ × ℕ) → (version_key_beq a b ≡ true) ↔ (a ≡ b)
version_key_beq_iff (a, r) (b, s) = ground arith

instance abbrev pub version_key_eq : Eq (ℕ × ℕ)
version_key_eq = record { eqb = version_key_beq; eqb_iff = version_key_beq_iff }

pub record ObjectVersion : Type 0 where
  pub bytes : List ℕ
  pub revision : ℕ

pub record CowOverlay : Type 0 where
  pub versions : List ((ℕ × ℕ) × ObjectVersion)
  pub current_revision : ℕ
  pub dirty_objects : List ℕ

unfoldable pub empty_overlay : CowOverlay
empty_overlay = record { versions = []; current_revision = 0; dirty_objects = [] }

unfoldable pub bump_revision : CowOverlay → CowOverlay × ℕ
bump_revision o =
    let next = (o.current_revision + 1) % 2 ^ 64 in
    (record o { current_revision = next; dirty_objects = [] }, next)

unfoldable pub set_object : CowOverlay → ℕ → List ℕ → CowOverlay
set_object o obj_num bytes = record o {
  versions =
      insert (obj_num, o.current_revision) (record { bytes = bytes; revision = o.current_revision })
        o.versions;
  dirty_objects = o.dirty_objects ++ obj_num ∷ [];
}

-- `if let Some(b) = best { if ver.revision > b.revision { .. } } else { .. }`
unfoldable pub newer : Option ObjectVersion → ObjectVersion → Option ObjectVersion
newer none ver = some ver
newer (some b) ver = if ltb b.revision ver.revision then some ver else some b

-- The loop of `get_object` over the map's entries, in whatever order they come.
unfoldable pub best_version :
    ℕ → Option ObjectVersion → List ((ℕ × ℕ) × ObjectVersion) → Option ObjectVersion
best_version obj_num best [] = best
best_version obj_num best ((key, ver) ∷ m) =
    best_version obj_num (if key.0 == obj_num then newer best ver else best) m

unfoldable pub get_object : CowOverlay → ℕ → Option (List ℕ)
get_object o obj_num = Option.map (λ v. v.bytes) (best_version obj_num none o.versions)

-- The loop of `get_object_at_revision`.
unfoldable pub best_version_at :
    ℕ → ℕ → Option ObjectVersion → List ((ℕ × ℕ) × ObjectVersion) → Option ObjectVersion
best_version_at obj_num revision best [] = best
best_version_at obj_num revision best ((key, ver) ∷ m) =
    best_version_at obj_num revision
      (if key.0 == obj_num && leb ver.revision revision then newer best ver else best) m

unfoldable pub get_object_at_revision : CowOverlay → ℕ → ℕ → Option (List ℕ)
get_object_at_revision o obj_num revision =
    Option.map (λ v. v.bytes) (best_version_at obj_num revision none o.versions)

unfoldable pub clear_overlay : CowOverlay → CowOverlay
clear_overlay o = record o { versions = []; dirty_objects = [] }

unfoldable pub dirty_pairs : CowOverlay → List ℕ → List (ℕ × List ℕ)
dirty_pairs o [] = []
dirty_pairs o (n ∷ ns) = elim (get_object o n) [
  | none ↦ dirty_pairs o ns
  | some bytes ↦ (n, bytes) ∷ dirty_pairs o ns
]

unfoldable pub snapshot_dirty : CowOverlay → List (ℕ × List ℕ)
snapshot_dirty o = dirty_pairs o o.dirty_objects

unfoldable pub restore_snapshot : CowOverlay → List (ℕ × List ℕ) → ℕ → CowOverlay
restore_snapshot o [] revision = o
restore_snapshot o ((n, bytes) ∷ rest) revision =
    restore_snapshot
      (record o {
        versions = insert (n, revision) (record { bytes = bytes; revision = revision }) o.versions;
      })
      rest revision
