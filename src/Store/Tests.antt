-- ===== src/Store/Tests.antt =====
-- A page written to a file and read again.
use fiddlers_db.Prelude.{◌∷◌, ◌++◌}
use fiddlers_db.Prelude.Bytes.{slice, i32_from_be}
use fiddlers_db.Page.Metadata.{deserialize_metadata}
use fiddlers_db.Store.FileStore.{read_at, read_metadata, allocate_page}
use fiddlers_db.Store.Allocate.{next_metadata, allocate_page_correct}
use fiddlers_db.Prelude.{
  ℕ, suc, ◌+◌, ◌^◌, ◌≤◌, ◌<◌, ◌≡◌, ◌≢◌, refl, List, [], length, arith, none, some, replicate,
}
use fiddlers_db.Prelude.Int.{pos}
use fiddlers_db.Prelude.Outcome.{ok}
use fiddlers_db.Page.{Page, read_slot, new_page}
use fiddlers_db.Page.Layout.{PageDataLayout}
use fiddlers_db.Page.Valid.{IsValid, new_page-IsValid}
use fiddlers_db.Store.{table_file, fsm_file}
use fiddlers_db.Store.FileStore.{Files, read_page, write_page}
use fiddlers_db.Store.WriteRead.{place, read_page-write_page}

abbrev layout_64 : PageDataLayout
layout_64 = record { page_size = 64 }

-- The files of a table of two pages.
abbrev two_pages : List ℕ
two_pages = replicate 136 0

abbrev files : Files
files (table_file _) = some two_pages
files (fsm_file _) = none

abbrev second_page : Page
second_page = record {
  data_ = replicate 50 0;
  slots = [];
  layout = layout_64;
  number_of_records = 0;
  data_offset = 50;
  slots_offset = 0;
  page_id = pos 2;
}

second_page-IsValid : IsValid second_page
unfolding new_page
second_page-IsValid =
    let v = new_page-IsValid layout_64 (record { at_least = omega arith; at_most = omega arith }) in
    record {
      layout_ok = v.layout_ok;
      data_size = v.data_size;
      slots_below = v.slots_below;
      offset_in = v.offset_in;
      count_u16 = v.count_u16;
      id_i32 = (omega arith, omega arith);
      in_rows = λ i s e. absurd (ground arith);
      apart = v.apart;
    }

read_page-write_page_example :
    (files' : Files) × (p' : Page) × (write_page files layout_64 second_page (table_file (pos 1))
      ≡ ok files')
    × (read_page files' layout_64 (pos 2) (table_file (pos 1)) ≡ ok p')
    × (p'.slots ≡ [])
    × (p'.page_id ≡ pos 2)
    × (p'.data_offset ≡ 50)
    × (p'.number_of_records ≡ 0)
    × ((i : ℕ) → read_slot p' i ≡ read_slot second_page i)
    × ((m : ℕ)
        → m ≢ 1
        → suc m < 2 ^ 31
        → place layout_64 m + 64 ≤ length two_pages
        → read_page files' layout_64 (pos (suc m)) (table_file (pos 1))
          ≡ read_page files layout_64 (pos (suc m)) (table_file (pos 1)))
read_page-write_page_example =
    read_page-write_page files second_page 1 (table_file (pos 1)) two_pages second_page-IsValid refl
      (omega arith) refl

-- A table of one page: its metadata, and the bytes of the page.
abbrev one_page : List ℕ
one_page = (0 ∷ 0 ∷ 0 ∷ 2 ∷ 0 ∷ 0 ∷ 0 ∷ 1 ∷ []) ++ replicate 64 0

abbrev one_page_files : Files
one_page_files (table_file _) = some one_page
one_page_files (fsm_file _) = none

one_page_metadata :
    read_metadata one_page_files (table_file (pos 1))
    ≡ ok (record { next_id = pos 2; number_of_pages = pos 1 })
unfolding read_metadata read_at deserialize_metadata slice i32_from_be
one_page_metadata = refl

allocate_page_correct_example :
    (files' : Files) × (p p' : Page) × (allocate_page one_page_files layout_64 (table_file (pos 1))
      ≡ ok (p, files'))
    × (p.page_id ≡ pos 2)
    × (p.slots ≡ [])
    × (read_page files' layout_64 (pos 2) (table_file (pos 1)) ≡ ok p')
    × (p'.page_id ≡ pos 2)
    × (p'.slots ≡ [])
    × (read_metadata files' (table_file (pos 1)) ≡ ok (next_metadata 1 1))
allocate_page_correct_example =
    allocate_page_correct one_page_files layout_64 (table_file (pos 1)) one_page
      (record { next_id = pos 2; number_of_pages = pos 1 }) 1 1
      (record { at_least = omega arith; at_most = omega arith }) refl one_page_metadata refl refl
      (omega arith) (omega arith)
