-- ===== src/Render/Scheduler/Admission.antt =====
-- The tiles that a viewport puts in flight (core/render-pipeline/src/scheduler.rs).
use pdf_platform.Render.Cache.{new}
use pdf_platform.Render.Scheduler.{
  TileKey, TileRequest, admit, key_of, keys_of, grid_key_eq, grid_key_beq_iff,
}
use pdf_platform.Common.Keys.{◌==◌, Distinct, contains, contains-append, ==_refl}
use pdf_platform.Common.{
  List, ◌&&◌, Bool-cases, [], arith, inl, inr, not, true, ◌||◌, ◌∷◌, ◌≡◌, ◌++◌, ap, refl, sym,
}

contains-same :
    (a k : TileKey) (flying : List TileKey)
    → (a == k) ≡ true
    → contains k flying ≡ contains a flying
contains-same a k flying h = ap (λ x. contains x flying) (sym ((grid_key_beq_iff a k).0 h))

module _ {F32 : Type 0} where
  pub admitted-contains :
      (k : TileKey) (in_flight : List TileKey) (rs : List (TileRequest F32))
      → contains k (admit in_flight rs).0 ≡ (contains k in_flight || contains k (keys_of rs))
  unfolding admit contains
  admitted-contains k in_flight [] = ground arith
  admitted-contains k in_flight (r ∷ rs) = elim (Bool-cases (contains (key_of r) in_flight)) [
    | inl known ↦
        rw (admit, known)
          (ground (arith, admitted-contains k in_flight rs, contains-same (key_of r) k in_flight))
    | inr new ↦
        rw (admit, new)
          (ground (
            arith,
            admitted-contains k (in_flight ++ key_of r ∷ []) rs,
            contains-append k in_flight (key_of r ∷ []),
          ))
  ]

  pub fresh-contains :
      (k : TileKey) (in_flight : List TileKey) (rs : List (TileRequest F32))
      → contains k (keys_of (admit in_flight rs).1)
        ≡ (contains k (keys_of rs) && not (contains k in_flight))
  unfolding admit contains
  fresh-contains k in_flight [] = ground arith
  fresh-contains k in_flight (r ∷ rs) = elim (Bool-cases (contains (key_of r) in_flight)) [
    | inl known ↦
        rw (admit, known)
          (ground (arith, fresh-contains k in_flight rs, contains-same (key_of r) k in_flight))
    | inr new ↦
        rw (admit, new)
          (ground (
            arith,
            fresh-contains k (in_flight ++ key_of r ∷ []) rs,
            contains-append k in_flight (key_of r ∷ []),
            contains-same (key_of r) k in_flight,
          ))
  ]

  pub fresh-Distinct :
      (in_flight : List TileKey) (rs : List (TileRequest F32))
      → Distinct (keys_of (admit in_flight rs).1)
  unfolding admit contains
  fresh-Distinct in_flight [] = tt
  fresh-Distinct in_flight (r ∷ rs) = elim (Bool-cases (contains (key_of r) in_flight)) [
    | inl known ↦ rw (admit, known) (fresh-Distinct in_flight rs)
    | inr new ↦
        rw (admit, new)
          (
            ground (
              arith,
              fresh-contains (key_of r) (in_flight ++ key_of r ∷ []) rs,
              contains-append (key_of r) in_flight (key_of r ∷ []),
              ==_refl (key_of r),
            ),
            fresh-Distinct (in_flight ++ key_of r ∷ []) rs,
          )
  ]

  -- What is in flight is not requested again.
  pub admit_again :
      (in_flight : List TileKey) (rs : List (TileRequest F32))
      → ((k : TileKey) → contains k (keys_of rs) ≡ true → contains k in_flight ≡ true)
      → admit in_flight rs ≡ (in_flight, [])
  unfolding admit contains
  admit_again in_flight [] h = refl
  admit_again in_flight (r ∷ rs) h =
      let known : contains (key_of r) in_flight ≡ true =
        h (key_of r) (ground (arith, ==_refl (key_of r))) in
      rw (admit, known) (admit_again in_flight rs (λ k m. h k (ground (arith, m))))
