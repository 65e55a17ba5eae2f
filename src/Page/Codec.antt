-- ===== src/Page/Codec.antt =====
-- src/data/page.rs: `Page::serialize` and `Page::deserialize`.
use fiddlers_db.Prelude.{ℕ, ◌+◌, ◌*◌, Option, none, some, List, [], ◌∷◌, replicate, ◌==◌}
use fiddlers_db.Prelude.{if◌then◌else◌, length}
use fiddlers_db.Prelude.Int.{as_i32, i32_as_usize}
use fiddlers_db.Prelude.Bytes.{
  slice, copy_at, u16_to_be, u32_to_be, i32_to_be, u16_from_be, u32_from_be, i32_from_be,
}
use fiddlers_db.Prelude.Outcome.{Outcome, ok, ◌>>=◌, ◌>>◌, or_panic, ok_or, assert}
use fiddlers_db.Page.{Page, Slot, PageError, deserialization_error, slots_size}
use fiddlers_db.Page.Layout.{
  PageDataLayout, slot_size, index_row_offset, index_page_id, index_free_slots_offset,
  index_free_slots_start, slot_record_length_index,
}

-- One pass of the loop over the slots: the flag, the offset and the length of slot `i`.
unfoldable pub write_slot : List ℕ → ℕ → Slot → Outcome PageError (List ℕ)
write_slot buf i slot = do
  let deleted_flag = index_free_slots_start + i * slot_size
  flagged ← or_panic (copy_at buf deleted_flag ((if slot.deleted then 1 else 0) ∷ []))
  placed ← or_panic (copy_at flagged (deleted_flag + 1) (u32_to_be slot.page_offset))
  or_panic (copy_at placed (deleted_flag + slot_record_length_index) (u16_to_be slot.record_length))

unfoldable pub write_slots : List ℕ → ℕ → List Slot → Outcome PageError (List ℕ)
write_slots buf i [] = ok buf
write_slots buf i (slot ∷ slots) = do buf' ← write_slot buf i slot; write_slots buf' (i + 1) slots

-- `Page::serialize`. `u32_to_be` keeps the low 32 bits, as the casts do.
unfoldable pub serialize : Page → Outcome PageError (List ℕ)
unfolding write_slots write_slot
serialize p = do
  b0 ← or_panic (copy_at (replicate p.layout.page_size 0) 0 (u16_to_be p.number_of_records))
  b1 ← or_panic (copy_at b0 index_row_offset (u32_to_be p.data_offset))
  b2 ← or_panic (copy_at b1 index_page_id (i32_to_be p.page_id))
  b3 ← or_panic (copy_at b2 index_free_slots_offset (i32_to_be (as_i32 (slots_size p))))
  assert (index_free_slots_offset + 4 + length p.data_ == p.layout.page_size)
  b4 ← or_panic (copy_at b3 (index_free_slots_offset + 4) p.data_)
  write_slots b4 0 p.slots

abbrev pub make_slot : ℕ → Option ℕ → Option ℕ → Option Slot
make_slot flag (some offset) (some len) =
    some (record { record_length = len; page_offset = offset; deleted = flag == 1 })
make_slot flag _ _ = none

-- One chunk of seven bytes as a slot.
unfoldable pub parse_slot : ℕ → List ℕ → List ℕ → Option Slot
parse_slot flag offset_bytes length_bytes =
    make_slot flag (u32_from_be offset_bytes) (u16_from_be length_bytes)

abbrev pub cons_slot : Option Slot → Option (List Slot) → Option (List Slot)
cons_slot (some s) (some ss) = some (s ∷ ss)
cons_slot _ _ = none

-- The loop over `chunks_exact(7)`: an incomplete last chunk is left out.
unfoldable pub parse_slots : List ℕ → Option (List Slot)
parse_slots (a ∷ b ∷ c ∷ d ∷ e ∷ f ∷ g ∷ rest) =
    cons_slot (parse_slot a (b ∷ c ∷ d ∷ e ∷ []) (f ∷ g ∷ [])) (parse_slots rest)
parse_slots _ = some []

-- `Page::deserialize`
unfoldable pub deserialize : List ℕ → PageDataLayout → Outcome PageError Page
unfolding parse_slots parse_slot
deserialize buf layout = do
  b0 ← or_panic (slice buf 0 index_row_offset)
  num_rows ← ok_or deserialization_error (u16_from_be b0)
  b1 ← or_panic (slice buf index_row_offset index_page_id)
  offset ← ok_or deserialization_error (i32_from_be b1)
  b2 ← or_panic (slice buf index_page_id index_free_slots_offset)
  page_id ← ok_or deserialization_error (i32_from_be b2)
  b3 ← or_panic (slice buf index_free_slots_offset (index_free_slots_offset + 4))
  free_slots ← ok_or deserialization_error (i32_from_be b3)
  let free_slots_offset = i32_as_usize free_slots
  d ← or_panic (slice buf (index_free_slots_offset + 4) layout.page_size)
  slot_bytes ← or_panic (slice d 0 free_slots_offset)
  slots ← ok_or deserialization_error (parse_slots slot_bytes)
  ok (record {
    data_ = d;
    slots = slots;
    layout = layout;
    number_of_records = num_rows;
    data_offset = i32_as_usize offset;
    slots_offset = free_slots_offset;
    page_id = page_id;
  })
