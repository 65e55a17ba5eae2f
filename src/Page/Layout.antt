-- ===== src/Page/Layout.antt =====
-- src/data/page.rs: `PageDataLayout`, the sizes that a page size determines.
use fiddlers_db.Prelude.{ℕ, zero, suc, ◌-◌, ◌^◌, Bool, false, not, ltb, ◌==◌, ◌||◌, if◌then◌else◌}
use fiddlers_db.Prelude.Outcome.{Outcome, ok, err}

-- `struct PageDataLayout`; the page size is a `u16`.
pub record PageDataLayout : Type 0 where
  pub page_size : ℕ

pub data PageDataLayoutError : Type 0 where
  invalid_page_size : PageDataLayoutError

abbrev pub index_row_offset : ℕ
index_row_offset = 2

abbrev pub index_page_id : ℕ
index_page_id = 6

abbrev pub index_free_slots_offset : ℕ
index_free_slots_offset = 10

abbrev pub index_free_slots_start : ℕ
index_free_slots_start = 14

abbrev pub meta_data_size : ℕ
meta_data_size = 8

abbrev pub page_header_size : ℕ
page_header_size = 14

abbrev pub min_page_size : ℕ
min_page_size = 32

abbrev pub slot_size : ℕ
slot_size = 7

abbrev pub slot_record_length_index : ℕ
slot_record_length_index = 5

-- `PageDataLayout::page_data_size`; no page size is below the header's.
abbrev pub page_data_size : PageDataLayout → ℕ
page_data_size layout = layout.page_size - page_header_size

-- `PageDataLayout::max_tupel_size`
abbrev pub max_tupel_size : PageDataLayout → ℕ
max_tupel_size layout = page_data_size layout - slot_size

-- `n` is one of the first `k` powers of two.
abbrev pub power_of_two_below : ℕ → ℕ → Bool
power_of_two_below zero n = false
power_of_two_below (suc k) n = n == 2 ^ k || power_of_two_below k n

-- `PageDataLayout::new`; a `u16` has 16 powers of two.
unfoldable pub new_layout : ℕ → Outcome PageDataLayoutError PageDataLayout
new_layout page_size =
    if ltb page_size min_page_size
    then err invalid_page_size
    else if not (power_of_two_below 16 page_size)
    then err invalid_page_size
    else ok (record { page_size = page_size })
