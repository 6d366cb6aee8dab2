-- ===== src/Text.antt =====
-- text-extract/src/lib.rs (under core/): the per-page text model cache. The page models are any
-- type; the engine is a function from a page to its model or an error. Revisions are u64.
pub mod Service
pub mod Compare
mod Tests
use pdf_platform.Common.Map.{insert, has, lookup, remove}
use pdf_platform.Common.{
  ℕ, ◌%◌, ◌&&◌, ◌+◌, ◌++◌, Bool, List, Option, Result, [], ◌^◌, arith, if◌then◌else◌, err, length,
  ltb, none, ok, ok_or, some, true, ◌↔◌, ◌∷◌, ◌≡◌,
}
use pdf_platform.Common.Keys.{◌==◌, Eq, nat_eq}

-- `CacheKey`: page_index and revision.
pub record CacheKey : Type 0 where
  pub page_index : ℕ
  pub revision : ℕ

abbrev pub cache_key_beq : CacheKey → CacheKey → Bool
cache_key_beq a b = a.page_index == b.page_index && a.revision == b.revision

pub cache_key_beq_iff : (a b : CacheKey) → (cache_key_beq a b ≡ true) ↔ (a ≡ b)
cache_key_beq_iff a b = ground arith

instance abbrev pub cache_key_eq : Eq CacheKey
cache_key_eq = record { eqb = cache_key_beq; eqb_iff = cache_key_beq_iff }

abbrev pub max_cached_pages : ℕ
max_cached_pages = 512

pub record TextExtractionService (Model : Type 0) : Type 0 where
  pub cache : List (CacheKey × Model)
  pub order : List ℕ
  pub current_revision : ℕ

-- What `get_page` returns when it does not return a model.
pub data GetPageError (E : Type 0) : Type 0 where
  extract_error : E → GetPageError E
  unwrap_panic : GetPageError E

abbrev pub page_key : ℕ → ℕ → CacheKey
page_key revision page_index = record { page_index = page_index; revision = revision }

module _ {Model : Type 0} where
  unfoldable pub new_service : TextExtractionService Model
  new_service = record { cache = []; order = []; current_revision = 0 }

  -- `TextExtractionService::invalidate`
  unfoldable pub invalidate_text : TextExtractionService Model → TextExtractionService Model
  invalidate_text s = record {
    cache = [];
    order = [];
    current_revision = (s.current_revision + 1) % 2 ^ 64;
  }

  -- `TextExtractionService::clear`
  unfoldable pub clear_text : TextExtractionService Model → TextExtractionService Model
  clear_text s = record s { cache = []; order = [] }

  unfoldable pub get_cached : TextExtractionService Model → ℕ → Option Model
  get_cached s page_index = lookup (page_key s.current_revision page_index) s.cache

  -- The loop of `store`, each round of which pops the oldest page.
  unfoldable pub evict_pages :
      ℕ → List (CacheKey × Model) → List ℕ → List (CacheKey × Model) × List ℕ
  evict_pages revision cache [] = (cache, [])
  evict_pages revision cache (oldest ∷ order) =
      let rest = evict_pages revision (remove (page_key revision oldest) cache) order in
      if ltb max_cached_pages (length cache) then rest else (cache, oldest ∷ order)

  unfoldable pub store :
      TextExtractionService Model → CacheKey → Model → TextExtractionService Model
  store s key model =
      let order = if has key s.cache then s.order else s.order ++ key.page_index ∷ [] in
      let kept = evict_pages s.current_revision (insert key model s.cache) order in
      record s { cache = kept.0; order = kept.1 }

  -- `insert_model`, of a model whose `page_index` is the given one.
  unfoldable pub insert_model :
      TextExtractionService Model → ℕ → Model → TextExtractionService Model
  insert_model s page_index model = store s (page_key s.current_revision page_index) model

  unfoldable pub get_page :
      {E : Type 0}
      → TextExtractionService Model
      → ℕ
      → (ℕ → Result E Model)
      → TextExtractionService Model × Result (GetPageError E) Model
  get_page s page_index engine = elim (get_cached s page_index) [
    | some model ↦ (s, ok model)
    | none ↦ elim (engine page_index) [
      | err e ↦ (s, err (extract_error e))
      | ok model ↦
          let stored = store s (page_key s.current_revision page_index) model in
          (stored, ok_or (get_cached stored page_index) unwrap_panic)
    ]
  ]
