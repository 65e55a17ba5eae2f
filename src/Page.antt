-- ===== src/Page.antt =====
-- src/data/page.rs: the slotted page of a heap file. Arithmetic on `usize` and `u16` is that of a
-- build with overflow checks: a subtraction below zero, or a sum that leaves its type, is a panic.
pub mod Layout
pub mod Metadata
pub mod Codec
pub mod Valid
pub mod Keeps
pub mod Search
pub mod Inserted
pub mod InsertBelow
pub mod InsertInto
pub mod Insert
pub mod Placed
pub mod Overlap
pub mod Delete
pub mod SlotBytes
pub mod RoundTrip
pub mod Iterator
pub mod Records
mod Tests
use fiddlers_db.Prelude.{
  ℕ, zero, suc, ◌+◌, ◌-◌, ◌*◌, ◌%◌, ◌^◌, ◌<◌, Bool, true, false, not, Option, none, some,
}
use fiddlers_db.Prelude.{
  List, [], ◌∷◌, ◌++◌, length, get_elem?, set, replicate, max, ltb, leb, ◌==◌, ◌&&◌,
}
use fiddlers_db.Prelude.{if◌then◌else◌}
use fiddlers_db.Prelude.Int.{ℤ, pos}
use fiddlers_db.Prelude.Bytes.{slice, copy_at}
use fiddlers_db.Prelude.Outcome.{
  Outcome, ok, err, panic, ◌>>=◌, ◌>>◌, or_panic, ensure, checked_sub, checked_add,
}
use fiddlers_db.Page.Layout.{PageDataLayout, slot_size, page_data_size}

-- `struct Slot`
pub record Slot : Type 0 where
  pub record_length : ℕ
  pub page_offset : ℕ
  pub deleted : Bool

-- `struct Page`
pub record Page : Type 0 where
  pub data_ : List ℕ
  pub slots : List Slot
  pub layout : PageDataLayout
  pub number_of_records : ℕ
  pub data_offset : ℕ
  pub slots_offset : ℕ
  pub page_id : ℤ

pub data PageError : Type 0 where
  insert_record_error : PageError
  update_record_error : PageError
  deserialization_error : PageError

-- `Page::new`
unfoldable pub new_page : PageDataLayout → Page
new_page layout = record {
  data_ = replicate (page_data_size layout) 0;
  slots = [];
  layout = layout;
  number_of_records = 0;
  data_offset = page_data_size layout;
  slots_offset = 0;
  page_id = pos 0;
}

-- `Page::set_page_id`
abbrev pub set_page_id : Page → ℤ → Page
set_page_id p page_id = record p { page_id = page_id }

-- `Page::row_data_size`
unfoldable pub row_data_size : Page → Outcome PageError ℕ
row_data_size p = checked_sub (page_data_size p.layout) p.data_offset

-- `Page::slot_size`
abbrev pub slots_size : Page → ℕ
slots_size p = length p.slots * slot_size

-- `Page::read_data`
unfoldable pub read_data : Page → Slot → Outcome PageError (List ℕ)
read_data p slot = or_panic (slice p.data_ slot.page_offset (slot.page_offset + slot.record_length))

-- `Page::read_slot`, from the slot that is found.
abbrev pub read_found : Page → Option Slot → Outcome PageError (Option (List ℕ))
read_found p none = ok none
read_found p (some slot) =
    if slot.deleted then ok none else (read_data p slot >>= λ bytes. ok (some bytes))

-- `Page::read_slot`
unfoldable pub read_slot : Page → ℕ → Outcome PageError (Option (List ℕ))
unfolding read_data
read_slot p slot_id = read_found p (get_elem? p.slots slot_id)

-- The largest length of a deleted slot, 0 if there is none.
abbrev pub max_deleted : List Slot → ℕ
max_deleted [] = 0
max_deleted (s ∷ ss) = max (if s.deleted then s.record_length else 0) (max_deleted ss)

-- `Page::max_fragmented_free_space`
unfoldable pub max_fragmented_free_space : Page → ℕ
max_fragmented_free_space p = max_deleted p.slots

-- `Page::max_available_space`
unfoldable pub max_available_space : Page → Outcome PageError ℕ
unfolding row_data_size max_fragmented_free_space
max_available_space p = do
  row_data ← row_data_size p
  above_rows ← checked_sub (page_data_size p.layout) row_data
  allocated_space ← checked_sub above_rows (slots_size p)
  ok (max allocated_space (max_fragmented_free_space p))

abbrev pub is_none {ℓ} : {A : Type ℓ} → Option A → Bool
is_none none = true
is_none (some _) = false

-- The loop of `Page::find_free_slot_index`: `wanted` is the length as a `u16`.
unfoldable pub find_free : ℕ → List Slot → ℕ → Option ℕ → Option ℕ
find_free wanted [] index fallback = fallback
find_free wanted (s ∷ ss) index fallback =
    let usable = s.deleted && (leb wanted s.record_length && is_none fallback) in
    let rest = find_free wanted ss (index + 1) (if usable then some index else fallback) in
    if s.deleted && s.record_length == wanted then some index else rest

-- `Page::find_free_slot_index`
unfoldable pub find_free_slot_index : Page → List ℕ → Option ℕ
unfolding find_free
find_free_slot_index p row_bytes = find_free (length row_bytes % 2 ^ 16) p.slots 0 none

-- Whether the slot that was found has the length of the bytes.
abbrev pub is_perfect_fit : Page → List ℕ → Option ℕ → Bool
is_perfect_fit p row_bytes none = false
is_perfect_fit p row_bytes (some slot) = elim (get_elem? p.slots slot) [
  | none ↦ false
  | some s ↦ s.record_length == length row_bytes
]

-- `Page::can_insert`
unfoldable pub can_insert : Page → List ℕ → Outcome PageError Bool
unfolding find_free_slot_index max_available_space
can_insert p row_bytes =
    let enough : Outcome PageError Bool = do
      available ← max_available_space p
      ok (leb (length row_bytes + slot_size) available)
    in if is_perfect_fit p row_bytes (find_free_slot_index p row_bytes) then ok true else enough

-- `Page::write_record`, with the slot that is found.
abbrev pub write_found : Page → List ℕ → Option Slot → Outcome PageError Page
write_found p row_bytes none = err update_record_error
write_found p row_bytes (some slot) =
    if not (slot.record_length == length row_bytes % 2 ^ 16)
    then err update_record_error
    else (or_panic (copy_at p.data_ slot.page_offset row_bytes) >>= λ d.
        ok (record p { data_ = d }))

-- `Page::write_record`
unfoldable pub write_record : Page → ℕ → List ℕ → Outcome PageError Page
write_record p record_index row_bytes = write_found p row_bytes (get_elem? p.slots record_index)

-- `Page::allocate_slot`
abbrev pub allocate_slot : Page → ℕ → ℕ → Bool → Page
allocate_slot p page_offset record_length deleted = record p {
  slots =
      p.slots
      ++ record { record_length = record_length; page_offset = page_offset; deleted = deleted }
        ∷ [];
}

-- The end of `Page::insert_record`: a slot for what is left, and the count.
unfoldable pub finish_insert : Page → ℕ → ℕ → ℕ → Bool → Outcome PageError (ℕ × Page)
finish_insert p slot_index page_offset new_slot_len slot_deleted = do
  count ← checked_add (2 ^ 16) p.number_of_records 1
  let p' = if ltb 0 new_slot_len then allocate_slot p page_offset new_slot_len slot_deleted else p
  ok (slot_index, record p' { number_of_records = count })

-- `Page::insert_record` into a deleted slot.
unfoldable pub insert_into : Page → ℕ → Slot → List ℕ → Outcome PageError (ℕ × Page)
unfolding finish_insert
insert_into p index slot row_bytes = do
  let new_record_len = length row_bytes % 2 ^ 16
  d ← or_panic (copy_at p.data_ slot.page_offset row_bytes)
  remaining ← checked_sub slot.record_length new_record_len
  let slot' = record slot {
    record_length = if ltb 0 remaining then new_record_len else slot.record_length;
    deleted = false;
  }
  finish_insert (record p { data_ = d; slots = set p.slots index slot' }) index
      (slot.page_offset + length row_bytes) remaining true

-- `Page::insert_record` into the free space below the rows.
unfoldable pub insert_below : Page → List ℕ → Outcome PageError (ℕ × Page)
unfolding finish_insert
insert_below p row_bytes = do
  start_of_data ← checked_sub p.data_offset (length row_bytes)
  d ← or_panic (copy_at p.data_ start_of_data row_bytes)
  finish_insert (record p { data_ = d; data_offset = start_of_data }) (length p.slots) start_of_data
      (length row_bytes % 2 ^ 16) false

-- The deleted slot to insert into, with its index.
abbrev pub find_deleted_slot : Page → List ℕ → Option (ℕ × Slot)
find_deleted_slot p row_bytes = elim (find_free_slot_index p row_bytes) [
  | none ↦ none
  | some index ↦ elim (get_elem? p.slots index) [ none ↦ none | some slot ↦ some (index, slot) ]
]

-- `Page::insert_record`, with the deleted slot that is found.
abbrev pub insert_found : Page → List ℕ → Option (ℕ × Slot) → Outcome PageError (ℕ × Page)
insert_found p row_bytes none = insert_below p row_bytes
insert_found p row_bytes (some (index, slot)) = insert_into p index slot row_bytes

-- `Page::insert_record`: the index of the record's slot, and the page.
unfoldable pub insert_record : Page → List ℕ → Outcome PageError (ℕ × Page)
insert_record p row_bytes = do
  fits ← can_insert p row_bytes
  ensure fits insert_record_error
  insert_found p row_bytes (find_deleted_slot p row_bytes)

-- `Page::delete_record`
unfoldable pub delete_record : Page → ℕ → Page × Bool
delete_record p record_index = elim (get_elem? p.slots record_index) [
  | none ↦ (p, false)
  | some slot ↦
      (record p { slots = set p.slots record_index (record slot { deleted = true }) }, true)
]
