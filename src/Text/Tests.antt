-- ===== src/Text/Tests.antt =====
-- Runs of the text service, and its theorem at a concrete service.
use pdf_platform.Common.Map.{insert, lookup}
use pdf_platform.Common.Keys.{contains}
use pdf_platform.Text.{
  TextExtractionService, evict_pages, extract_error, get_cached, get_page, invalidate_text,
  new_service, store,
}
use pdf_platform.Text.Service.{IsService, get_page_lem, invalidate_text-IsService}
use pdf_platform.Common.{ℕ, Result, if◌then◌else◌, err, ltb, none, ok, refl, some, ◌≡◌}

-- Extracts the page number itself, and fails beyond page 9.
abbrev number_engine : ℕ → Result ℕ ℕ
number_engine p = if ltb 9 p then err p else ok p

abbrev after_page : TextExtractionService ℕ
after_page = (get_page new_service 4 number_engine).0

get_page_serves : (get_page after_page 4 (λ p. err p)).1 ≡ ok 4
unfolding get_page get_cached store evict_pages insert lookup new_service contains
get_page_serves = refl

get_page_fails : (get_page new_service 12 number_engine).1 ≡ err (extract_error 12)
unfolding get_page get_cached lookup new_service
get_page_fails = refl

get_page_lem_example :
    IsService (get_page (invalidate_text after_page) 4 number_engine).0
    × ((get_page (invalidate_text after_page) 4 number_engine).1
        ≡ elim (get_cached (invalidate_text after_page) 4) [
          | some m ↦ ok m
          | none ↦ elim (number_engine 4) [ ok m ↦ ok m | err e ↦ err (extract_error e) ]
        ])
    × ((m : ℕ)
        → (get_page (invalidate_text after_page) 4 number_engine).1 ≡ ok m
        → get_cached (get_page (invalidate_text after_page) 4 number_engine).0 4 ≡ some m)
get_page_lem_example =
    get_page_lem (invalidate_text after_page) 4 number_engine (invalidate_text-IsService after_page)
