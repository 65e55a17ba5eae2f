-- ===== src/Page/Valid.antt =====
-- The representation invariant of a page.
use fiddlers_db.Prelude.{ℕ, ◌+◌, ◌^◌, ◌≤◌, ◌<◌, ◌≡◌, ◌≢◌, ◌⊎◌, some, length, get_elem?}
use fiddlers_db.Prelude.{arith, length-replicate}
use fiddlers_db.Prelude.Int.{IsI32}
use fiddlers_db.Page.{Page, Slot, slots_size, new_page}
use fiddlers_db.Page.Layout.{PageDataLayout, page_data_size}

-- The page sizes of `PageDataLayout::new` lie in this range.
pub record IsLayout (layout : PageDataLayout) : Type 0 where
  pub at_least : 32 ≤ layout.page_size
  pub at_most : layout.page_size ≤ 2 ^ 15

-- The bytes of a slot lie among the rows.
pub record InRows (p : Page) (s : Slot) : Type 0 where
  pub above : p.data_offset ≤ s.page_offset
  pub below : s.page_offset + s.record_length ≤ page_data_size p.layout

-- Two slots share no byte.
abbrev pub Apart : Slot → Slot → Type 0
Apart s t =
    (s.page_offset + s.record_length ≤ t.page_offset)
    ⊎ (t.page_offset + t.record_length ≤ s.page_offset)

pub record IsValid (p : Page) : Type 0 where
  pub layout_ok : IsLayout p.layout
  pub data_size : length p.data_ ≡ page_data_size p.layout
  -- the slot array ends below the rows
  pub slots_below : slots_size p ≤ p.data_offset
  pub offset_in : p.data_offset ≤ page_data_size p.layout
  pub count_u16 : p.number_of_records < 2 ^ 16
  pub id_i32 : IsI32 p.page_id
  pub in_rows : (i : ℕ) (s : Slot) → get_elem? p.slots i ≡ some s → InRows p s
  pub apart :
      (i j : ℕ) (s t : Slot)
      → i ≢ j
      → get_elem? p.slots i ≡ some s
      → get_elem? p.slots j ≡ some t
      → Apart s t

-- A new page is valid.
pub new_page-IsValid : (layout : PageDataLayout) → IsLayout layout → IsValid (new_page layout)
unfolding new_page
new_page-IsValid layout h = record {
  layout_ok = h;
  data_size = length-replicate (page_data_size layout) 0;
  slots_below = omega arith;
  offset_in = omega arith;
  count_u16 = omega arith;
  id_i32 = omega arith;
  in_rows = λ i s e. absurd (ground arith);
  apart = λ i j s t n e f. absurd (ground arith);
}
