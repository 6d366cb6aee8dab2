-- ===== src/Text/Service.antt =====
-- The text service keeps its cache, its queue and its bound, and never serves a stale page
-- (core/text-extract/src/lib.rs).
use pdf_platform.Common.Map.{lookup, remove, insert, lookup-insert, lookup_missing}
use pdf_platform.Text.{
  CacheKey, TextExtractionService, evict_pages, invalidate_text, max_cached_pages, page_key,
  cache_key_eq, extract_error, get_cached, get_page, store, unwrap_panic,
}
use pdf_platform.Common.Keys.{==_refl, contains, contains-append}
use pdf_platform.Common.{
  ℕ, ◌++◌, Bool-cases, List, [], ap, arith, inl, inr, length, ltb, map, refl, true, ◌∷◌, ◌≡◌, ◌≤◌,
  Option-cases, Result, err, none, ok, some, ◌∙◌, Result-cases, ok_or,
}
use pdf_platform.Common.KeyQueue.{InStep, empty-InStep, push-InStep, pop-InStep, lookup-pop}

map-snoc :
    (r p : ℕ) (order : List ℕ)
    → map (page_key r) (order ++ p ∷ []) ≡ map (page_key r) order ++ page_key r p ∷ []
map-snoc r p [] = refl
map-snoc r p (q ∷ order) = ap (◌∷◌ (page_key r q)) (map-snoc r p order)

contains-snoc : (k : CacheKey) (ks : List CacheKey) → contains k (ks ++ k ∷ []) ≡ true
unfolding contains
contains-snoc k ks = ground (arith, contains-append k ks (k ∷ []), ==_refl k)

module _ {Model : Type 0} where
  -- Every cached page is of the current revision and queued once, and the bound is kept.
  pub record IsService (s : TextExtractionService Model) : Type 0 where
    pub queued : InStep (map (page_key s.current_revision) s.order) s.cache
    pub bounded : length s.cache ≤ max_cached_pages

  pub invalidate_text-IsService : (s : TextExtractionService Model) → IsService (invalidate_text s)
  unfolding invalidate_text
  invalidate_text-IsService s = record { queued = empty-InStep; bounded = omega arith }

  evict_pages-InStep :
      (r : ℕ) (cache : List (CacheKey × Model)) (order : List ℕ)
      → InStep (map (page_key r) order) cache
      → InStep (map (page_key r) (evict_pages r cache order).1) (evict_pages r cache order).0
        × (length (evict_pages r cache order).0 ≤ max_cached_pages)
  unfolding evict_pages
  evict_pages-InStep r cache [] s = (s, omega (arith, s.same_length))
  evict_pages-InStep r cache (p ∷ order) s =
      let rest = evict_pages-InStep r (remove (page_key r p) cache) order (pop-InStep _ _ _ s) in
      elim (Bool-cases (ltb max_cached_pages (length cache))) [
        | inl over ↦ rw over rest
        | inr within ↦ rw within (s, ground arith)
      ]

  -- The page just queued survives the eviction.
  lookup-evict_pages :
      (r p : ℕ) (cache : List (CacheKey × Model)) (order : List ℕ)
      → InStep (map (page_key r) (order ++ p ∷ [])) cache
      → lookup (page_key r p) (evict_pages r cache (order ++ p ∷ [])).0
        ≡ lookup (page_key r p) cache
  unfolding evict_pages
  lookup-evict_pages r p cache [] s = ground (arith, s.same_length)
  lookup-evict_pages r p cache (q ∷ order) s =
      let rest = lookup-evict_pages r p (remove (page_key r q) cache) order (pop-InStep _ _ _ s) in
      let kept =
        lookup-pop (page_key r q) (map (page_key r) (order ++ p ∷ [])) cache s (page_key r p) in
      ground (
        arith,
        rest,
        kept,
        map-snoc r p order,
        contains-snoc (page_key r p) (map (page_key r) order),
      )

  evict_pages_within :
      (r : ℕ) (cache : List (CacheKey × Model)) (order : List ℕ)
      → length cache ≤ max_cached_pages
      → evict_pages r cache order ≡ (cache, order)
  unfolding evict_pages
  evict_pages_within r cache [] h = refl
  evict_pages_within r cache (p ∷ order) h = ground arith

  queue_new :
      (s : TextExtractionService Model) (p : ℕ) (m : Model)
      → IsService s
      → get_cached s p ≡ none
      → InStep
          (map (page_key s.current_revision) (s.order ++ p ∷ []))
          (insert (page_key s.current_revision p) m s.cache)
  unfolding get_cached
  queue_new s p m v absent =
      let k = page_key s.current_revision p in
      rw (map-snoc s.current_revision p s.order)
        (push-InStep _ s.cache v.queued k m (lookup_missing k s.cache absent))

  -- Storing a page that is not cached: the invariant, and the page is found.
  store_new :
      (s : TextExtractionService Model) (p : ℕ) (m : Model)
      → IsService s
      → get_cached s p ≡ none
      → IsService (store s (page_key s.current_revision p) m)
        × (get_cached (store s (page_key s.current_revision p) m) p ≡ some m)
  unfolding store get_cached
  store_new s p m v absent =
      let r = s.current_revision in
      let k = page_key r p in
      let fresh = lookup_missing k s.cache absent in
      let queued = queue_new s p m v absent in
      let kept = evict_pages-InStep r (insert k m s.cache) (s.order ++ p ∷ []) queued in
      rw fresh (
        record { queued = kept.0; bounded = kept.1 },
        lookup-evict_pages r p (insert k m s.cache) s.order queued
            ∙ ground (arith, lookup-insert k k m s.cache, ==_refl k),
      )

  get_page_new :
      {E : Type 0} (s : TextExtractionService Model) (p : ℕ) (engine : ℕ → Result E Model)
      (m : Model)
      → get_cached s p ≡ none
      → engine p ≡ ok m
      → get_cached (store s (page_key s.current_revision p) m) p ≡ some m
      → get_page s p engine ≡ (store s (page_key s.current_revision p) m, ok m)
  unfolding get_page
  get_page_new s p engine m absent extracted stored =
      rw (get_page, absent, extracted)
        (ap (λ o. (store s (page_key s.current_revision p) m, ok_or o unwrap_panic)) stored)

  get_page_failed :
      {E : Type 0} (s : TextExtractionService Model) (p : ℕ) (engine : ℕ → Result E Model) (e : E)
      → get_cached s p ≡ none
      → engine p ≡ err e
      → get_page s p engine ≡ (s, err (extract_error e))
  unfolding get_page
  get_page_failed s p engine e absent failed = rw (get_page, absent, failed) refl

  get_page_cached :
      {E : Type 0} (s : TextExtractionService Model) (p : ℕ) (engine : ℕ → Result E Model)
      (m : Model)
      → get_cached s p ≡ some m
      → get_page s p engine ≡ (s, ok m)
  unfolding get_page
  get_page_cached s p engine m found = rw (get_page, found) refl

  -- `get_page` keeps the service well formed, never panics, and answers with the cached model or,
  -- if there is none, with what the engine extracts, which is cached from then on.
  pub get_page_lem :
      {E : Type 0} (s : TextExtractionService Model) (p : ℕ) (engine : ℕ → Result E Model)
      → IsService s
      → IsService (get_page s p engine).0
        × ((get_page s p engine).1 ≡ elim (get_cached s p) [
          | some m ↦ ok m
          | none ↦ elim (engine p) [ ok m ↦ ok m | err e ↦ err (extract_error e) ]
        ])
        × ((m : Model)
            → (get_page s p engine).1 ≡ ok m
            → get_cached (get_page s p engine).0 p ≡ some m)
  get_page_lem s p engine v = elim (Option-cases (get_cached s p)) [
    | inl absent ↦ elim (Result-cases (engine p)) [
      | inl (m, extracted) ↦
          let stored = store_new s p m v absent in
          rw (get_page_new s p engine m absent extracted stored.1, absent, extracted)
            (stored.0, refl, λ m' h. stored.1 ∙ cc)
      | inr (e, failed) ↦
          rw (get_page_failed s p engine e absent failed, absent, failed) (v, refl, λ m' h. cc)
    ]
    | inr (m, found) ↦ rw (get_page_cached s p engine m found, found) (v, refl, λ m' h. cc)
  ]
