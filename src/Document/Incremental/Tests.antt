-- ===== src/Document/Incremental/Tests.antt =====
-- A save of one object (core/pdf-write/src/lib.rs).
use pdf_platform.Common.Keys.{nat_eq}
use pdf_platform.Document.Incremental.Whole.{TableGives, write_incremental_lem}
use pdf_platform.Document.Incremental.Layout.{listed}
use pdf_platform.Common.Decimal.{codes, decimal, decimal_on}
use pdf_platform.Document.Incremental.{
  TrailerInfo, write_incremental, add_originals, bool_number, collect_objects, entries_text,
  insert_buffer, max_object, max_of, needs_separator, object_text, optional_entry, place_objects,
  run_behind, section_text, sort_buffers, startxref_text, subsections, table_insert, table_of,
  table_or_insert, ten_digits, trailer_text, write_objects, xref_table, padding,
}
use pdf_platform.Common.{◌∷◌, ℕ, List, [], arith, none, take, ◌≡◌, ◌<◌, ◌^◌, drop, length}
use pdf_platform.Document.Overlay.{
  set_object, empty_overlay, CowOverlay, best_version, get_object, newer,
}
use pdf_platform.Common.Map.{insert}

abbrev overlay : CowOverlay
overlay = set_object empty_overlay 2 (codes "2 0 obj x endobj")

abbrev original : List ℕ
original = codes "%PDF-1.7"

abbrev trailer : TrailerInfo
trailer = record { root_obj_num = 1; info_obj_num = none; encrypt_obj_num = none; id = none }

abbrev file : List ℕ
file = (write_incremental original overlay 0 3 ((3, 9) ∷ []) 8 trailer).0

file_small : length file < 2 ^ 32
unfolding write_incremental collect_objects sort_buffers insert_buffer place_objects needs_separator
    bool_number xref_table table_of table_insert add_originals table_or_insert section_text
    subsections run_behind entries_text ten_digits padding decimal decimal_on trailer_text
    optional_entry max_object max_of startxref_text write_objects object_text set_object
    empty_overlay get_object best_version newer insert
file_small = omega arith

-- Object 2 is in the overlay, and the source has 3 at 9.
write_incremental_lem_example :
    (take 8 file ≡ original)
    × (take
          (length (section_text (listed overlay 8 0 3 ((3, 9) ∷ []))))
          (drop (write_incremental original overlay 0 3 ((3, 9) ∷ []) 8 trailer).1.xref_offset file)
        ≡ section_text (listed overlay 8 0 3 ((3, 9) ∷ [])))
    × ((write_incremental original overlay 0 3 ((3, 9) ∷ []) 8 trailer).1.bytes_appended
        ≡ length file)
    × TableGives file (listed overlay 8 0 3 ((3, 9) ∷ [])) overlay 0 3 ((3, 9) ∷ []) 2
write_incremental_lem_example =
    write_incremental_lem original overlay 0 3 ((3, 9) ∷ []) trailer 2 file_small
