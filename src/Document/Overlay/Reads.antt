-- ===== src/Document/Overlay/Reads.antt =====
-- What reads of the overlay see after writes (core/pdf-model/src/overlay.rs).
use mathlib.Core.Option
use pdf_platform.Document.Overlay.{
  version_key_eq, best_version_at, bump_revision, get_object, get_object_at_revision,
  version_key_beq,
}
use pdf_platform.Common.Map.{insert}
use pdf_platform.Document.Overlay.{CowOverlay, ObjectVersion, best_version, newer, set_object}
use pdf_platform.Common.{
  ℕ, List, Option, [], arith, refl, some, ◌∷◌, ◌≡◌, ◌≤◌, ◌+◌, ◌<◌, Bool-cases, ◌^◌, if◌then◌else◌,
  false, inl, inr, none, ◌&&◌, ap, leb, leb→le, ◌∙◌,
}
use pdf_platform.Common.Keys.{◌==◌, nat_eq}

-- Every version lies at its own revision, no later than the current one.
abbrev pub VersionsIn : ℕ → List ((ℕ × ℕ) × ObjectVersion) → Type 0
VersionsIn limit [] = Unit {0}
VersionsIn limit ((key, ver) ∷ m) =
    (key.1 ≡ ver.revision) × (ver.revision ≤ limit) × VersionsIn limit m

pub record IsOverlay (o : CowOverlay) : Type 0 where
  pub at_revision : VersionsIn o.current_revision o.versions

insert-VersionsIn :
    (n r : ℕ) (b : List ℕ) (m : List ((ℕ × ℕ) × ObjectVersion))
    → VersionsIn r m
    → VersionsIn r (insert (n, r) (record { bytes = b; revision = r }) m)
unfolding insert
insert-VersionsIn n r b [] v = (refl, omega arith, tt)
insert-VersionsIn n r b ((key, ver) ∷ m) v = ground (arith, insert-VersionsIn n r b m)

pub set_object-IsOverlay :
    (o : CowOverlay) (n : ℕ) (b : List ℕ) → IsOverlay o → IsOverlay (set_object o n b)
unfolding set_object
set_object-IsOverlay o n b v = record {
  at_revision = insert-VersionsIn n o.current_revision b o.versions v.at_revision;
}

VersionsIn-mono :
    (r s : ℕ) (m : List ((ℕ × ℕ) × ObjectVersion)) → r ≤ s → VersionsIn r m → VersionsIn s m
VersionsIn-mono r s [] h v = tt
VersionsIn-mono r s ((key, ver) ∷ m) h v = (v.0, omega arith, VersionsIn-mono r s m h v.2)

-- The best version among entries that are all no newer than the best so far, which is at `r`.
best_settled :
    (n r : ℕ) (b : List ℕ) (m : List ((ℕ × ℕ) × ObjectVersion))
    → VersionsIn r m
    → best_version n (some (record { bytes = b; revision = r })) m
      ≡ some (record { bytes = b; revision = r })
unfolding best_version newer
best_settled n r b [] v = refl
best_settled n r b ((key, ver) ∷ m) v = ground (arith, best_settled n r b m)

abbrev IsOlder : ℕ → Option ObjectVersion → Type 0
IsOlder r none = Unit {0}
IsOlder r (some ver) = ver.revision < r

-- After a write at the latest revision, that version is the best one.
best_written :
    (n r : ℕ) (b : List ℕ) (m : List ((ℕ × ℕ) × ObjectVersion)) (best : Option ObjectVersion)
    → VersionsIn r m
    → IsOlder r best
    → best_version n best (insert (n, r) (record { bytes = b; revision = r }) m)
      ≡ some (record { bytes = b; revision = r })
unfolding best_version insert newer
best_written n r b [] best v old = ground arith
best_written n r b ((key, ver) ∷ m) best v old = elim (Bool-cases (version_key_beq key (n, r))) [
  | inl same ↦ rw same (ground (arith, best_settled n r b m v.2))
  | inr differs ↦
      rw differs
        (ground (arith, best_written n r b m best v.2, best_written n r b m (some ver) v.2))
]

best_other :
    (n j r : ℕ) (w : ObjectVersion) (m : List ((ℕ × ℕ) × ObjectVersion))
    (best : Option ObjectVersion)
    → (n == j) ≡ false
    → best_version j best (insert (n, r) w m) ≡ best_version j best m
unfolding best_version insert
best_other n j r w [] best h = ground arith
best_other n j r w ((key, ver) ∷ m) best h = elim (Bool-cases (version_key_beq key (n, r))) [
  | inl same ↦ rw same (ground arith)
  | inr differs ↦ rw differs (best_other n j r w m _ h)
]

-- The overlay reads as a map: a write is seen at its object and nowhere else.
pub get_object-set_object :
    (o : CowOverlay) (n j : ℕ) (b : List ℕ)
    → IsOverlay o
    → get_object (set_object o n b) j ≡ (if n == j then some b else get_object o j)
unfolding get_object set_object
get_object-set_object o n j b v = elim (Bool-cases (n == j)) [
  | inl same ↦
      rw same (ground (arith, best_written n o.current_revision b o.versions none v.at_revision tt))
  | inr differs ↦
      rw
        (
          differs,
          best_other n j o.current_revision (record { bytes = b; revision = o.current_revision })
              o.versions none differs,
        )
        refl
]

best_at_past :
    (n j r s : ℕ) (b : List ℕ) (m : List ((ℕ × ℕ) × ObjectVersion)) (best : Option ObjectVersion)
    → s < r
    → VersionsIn r m
    → best_version_at j s best (insert (n, r) (record { bytes = b; revision = r }) m)
      ≡ best_version_at j s best m
unfolding best_version_at insert
best_at_past n j r s b [] best h v = ground arith
best_at_past n j r s b ((key, ver) ∷ m) best h v = elim (Bool-cases (version_key_beq key (n, r))) [
  | inl same ↦ rw same (ground arith)
  | inr differs ↦ rw differs (best_at_past n j r s b m _ h v.2)
]

-- History is kept: a write at the current revision changes no read at an earlier revision.
get_object_at_revision-set_object :
    (o : CowOverlay) (n j s : ℕ) (b : List ℕ)
    → IsOverlay o
    → s < o.current_revision
    → get_object_at_revision (set_object o n b) j s ≡ get_object_at_revision o j s
unfolding get_object_at_revision set_object
get_object_at_revision-set_object o n j s b v h =
    rw (best_at_past n j o.current_revision s b o.versions none h v.at_revision) refl

best_version_at_present :
    (j r s : ℕ) (m : List ((ℕ × ℕ) × ObjectVersion)) (best : Option ObjectVersion)
    → r ≤ s
    → VersionsIn r m
    → best_version_at j s best m ≡ best_version j best m
unfolding best_version_at best_version
best_version_at_present j r s [] best h v = refl
best_version_at_present j r s ((key, ver) ∷ m) best h v = ground (
  arith,
  best_version_at_present j r s m best h v.2,
  best_version_at_present j r s m (newer best ver) h v.2,
)

get_object_at_revision_present :
    (o : CowOverlay) (j s : ℕ)
    → IsOverlay o
    → o.current_revision ≤ s
    → get_object_at_revision o j s ≡ get_object o j
unfolding get_object_at_revision get_object
get_object_at_revision_present o j s v h =
    ap (Option.map (λ ver. ver.bytes))
      (best_version_at_present j o.current_revision s o.versions none h v.at_revision)

written_present :
    (o : CowOverlay) (n j s : ℕ) (b : List ℕ)
    → IsOverlay o
    → o.current_revision ≤ s
    → get_object_at_revision (set_object o n b) j s
      ≡ (if n == j then some b else get_object_at_revision o j s)
unfolding set_object
written_present o n j s b v h =
    get_object_at_revision_present (set_object o n b) j s (set_object-IsOverlay o n b v) h
    ∙ rw (get_object_at_revision_present o j s v h) (get_object-set_object o n j b v)

-- On a well-formed overlay, at any revision, a write is seen at its object and nowhere else, by
-- `get_object` and by reads at the current revision or a later one; a read at an earlier revision sees
-- no change.
pub reads_after_write :
    (o : CowOverlay) (n j s : ℕ) (b : List ℕ)
    → IsOverlay o
    → (get_object (set_object o n b) j ≡ (if n == j then some b else get_object o j))
      × (get_object_at_revision (set_object o n b) j s
          ≡ (if leb o.current_revision s && n == j then some b else get_object_at_revision o j s))
reads_after_write o n j s b v = (
  get_object-set_object o n j b v,
  elim (Bool-cases (leb o.current_revision s)) [
    | inl present ↦ rw present (written_present o n j s b v (leb→le o.current_revision s present))
    | inr past ↦ rw past (get_object_at_revision-set_object o n j s b v (ground arith))
  ],
)

-- A new revision changes no read, and from then on writes leave the reads of the old one alone.
pub bump_revision-IsOverlay :
    (o : CowOverlay)
    → IsOverlay o
    → o.current_revision + 1 < 2 ^ 64
    → IsOverlay (bump_revision o).0 × (o.current_revision < (bump_revision o).0.current_revision)
unfolding bump_revision
bump_revision-IsOverlay o v h = (
  record {
    at_revision = VersionsIn-mono o.current_revision _ o.versions (omega arith) v.at_revision;
  },
  omega arith,
)
