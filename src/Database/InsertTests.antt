-- ===== src/Database/InsertTests.antt =====
-- src/database/table_access.rs: a row inserted into an empty table of pages of 256 bytes.
use fiddlers_db.Prelude.{ℕ, ◌≡◌, refl, arith, Option, none, some, List, [], ◌∷◌, replicate, inr}
use fiddlers_db.Prelude.Int.{ℤ, pos}
use fiddlers_db.Prelude.Outcome.{Outcome, ok, err, panic}
use fiddlers_db.Prelude.Bytes.{
  slice, i32_from_be, copy_at, i32_to_be, u16_from_be, u16_to_be, u32_from_be, u32_to_be,
}
use fiddlers_db.Page.{
  Page, new_page, can_insert, find_free, find_free_slot_index, finish_insert, insert_below,
  insert_into, insert_record, max_available_space, max_fragmented_free_space, read_data, read_slot,
  row_data_size, write_record,
}
use fiddlers_db.Page.Codec.{
  deserialize, parse_slot, parse_slots, serialize, write_slot, write_slots,
}
use fiddlers_db.Page.Metadata.{deserialize_metadata, allocate_next_page_id, serialize_metadata}
use fiddlers_db.Page.Valid.{IsValid, new_page-IsValid}
use fiddlers_db.Schema.{int}
use fiddlers_db.Store.{table_file, fsm_file}
use fiddlers_db.Store.FileStore.{
  Files, file_store, read_metadata, read_at, allocate_page, write_metadata, write_page,
  page_position, read_page, set_file, write_at,
}
use fiddlers_db.FreeSpace.BinaryTree.{
  find_available, new, node_structure, walk, set_available_space, bubble,
}
use fiddlers_db.FreeSpace.BinaryTree
use fiddlers_db.FreeSpace.Fsm.{
  Fsm, FsmError, new_fsm, find_available_page, allocate_pages, allocate_new_fsm_and_init,
  addr_slot_to_heap_page_id, child, parent, count_pages, descend, first_leaf,
  logical_addr_to_fms_page_id, page_of, read_tree, space_needed_to_category, update_page,
  update_levels, update, page_space_to_category, heap_page_id_to_addr,
}
use fiddlers_db.Database.{TableAccessError, Index, UpdateIndexCommand, new_command, push_insert}
use fiddlers_db.Database.TableAccess.{TableAccess, State, Order, table_fsm, storage}
use fiddlers_db.Database.TableAccess.Changes.{raw_insert, insert_on_page, update_index_cells}
use fiddlers_db.Database.TableAccess.Stored.{Suitable, IsStored, raw_insert-IsStored}

-- The two files, with the metadata of no page.
abbrev no_pages : List ℕ
no_pages = 0 ∷ 0 ∷ 0 ∷ 1 ∷ 0 ∷ 0 ∷ 0 ∷ 0 ∷ []

abbrev files : Files
files (table_file _) = some no_pages
files (fsm_file _) = some no_pages

abbrev table : TableAccess
table = record {
  table_id = pos 1;
  schema = record { columns = record { id = pos 1; name = 97 ∷ []; col_type = int } ∷ [] };
  layout = record { page_size = 256 };
}

abbrev map_256 : Fsm
map_256 = record {
  table_id = pos 1;
  page_layout = record { page_size = 256 };
  root_level = 3;
  fsm_category_step = 1;
  depth = 4;
  slots = 108;
}

-- An index that is a list of its entries.
abbrev Entries : Type 0
Entries = List (ℤ × ℤ × ℤ)

abbrev entries_index : Index Entries
entries_index = record {
  find = λ entries key. ok (none, entries);
  insert = λ entries key value. ok ((key, value.0, value.1) ∷ entries);
  delete = λ entries key. ok (none, entries);
}

abbrev same_order : Order
same_order A l = l

-- The only column is indexed.
abbrev start : State Files Entries
start = record { store_state = files; indexed_columns = (pos 1, []) ∷ [] }

-- The bytes of a row, and the entry of its index.
abbrev row_bytes : List ℕ
row_bytes = 0 ∷ 0 ∷ 0 ∷ 5 ∷ []

abbrev command : UpdateIndexCommand
command = push_insert new_command 0 (pos 5)

abbrev page_or : Page → Outcome FsmError (Page × Files) → Page × Files
page_or p (ok r) = r
page_or p (err e) = (p, files)
page_or p panic = (p, files)

-- The first page of the table, as the free space map allocates it.
abbrev first_page : Page
first_page = record {
  data_ = replicate 242 0;
  slots = [];
  layout = record { page_size = 256 };
  number_of_records = 0;
  data_offset = 242;
  slots_offset = 0;
  page_id = pos 1;
}

abbrev found_files : Files
found_files = (page_or first_page (find_available_page file_store map_256 files 4)).1

abbrev content_or : Option (List ℕ) → List ℕ
content_or none = []
content_or (some content) = content

abbrev state_or : Outcome TableAccessError ((ℤ × ℕ) × State Files Entries) → State Files Entries
state_or (ok r) = r.1
state_or (err e) = start
state_or panic = start

abbrev inserted : State Files Entries
inserted = state_or (raw_insert file_store entries_index same_order table start row_bytes command)

table_fsm-table : table_fsm table ≡ ok map_256
unfolding new_fsm node_structure
table_fsm-table = refl

find_available_page-first_page :
    find_available_page file_store map_256 files 4 ≡ ok (first_page, found_files)
unfolding find_available_page read_metadata read_at deserialize_metadata slice i32_from_be
    allocate_pages allocate_new_fsm_and_init allocate_page allocate_next_page_id write_metadata
    serialize_metadata copy_at i32_to_be write_page BinaryTree.deserialize find_available new
    node_structure walk addr_slot_to_heap_page_id child count_pages descend first_leaf
    logical_addr_to_fms_page_id page_of read_tree space_needed_to_category deserialize parse_slot
    parse_slots serialize write_slot write_slots can_insert find_free find_free_slot_index
    finish_insert insert_below insert_into insert_record max_available_space
    max_fragmented_free_space new_page read_data read_slot row_data_size u16_from_be u16_to_be
    u32_from_be u32_to_be page_position read_page set_file write_at
find_available_page-first_page = refl

first_page-IsValid : IsValid first_page
unfolding new_page
first_page-IsValid =
    let v =
      new_page-IsValid (record { page_size = 256 })
        (record { at_least = omega arith; at_most = omega arith }) in
    record {
      layout_ok = v.layout_ok;
      data_size = v.data_size;
      slots_below = v.slots_below;
      offset_in = v.offset_in;
      count_u16 = v.count_u16;
      id_i32 = (omega arith, omega arith);
      in_rows = λ i s e. absurd (ground arith);
      apart = v.apart;
    }

first_page-Suitable : Suitable table row_bytes first_page found_files
unfolding find_available_page read_metadata read_at deserialize_metadata slice i32_from_be
    allocate_pages allocate_new_fsm_and_init allocate_page allocate_next_page_id write_metadata
    serialize_metadata copy_at i32_to_be write_page BinaryTree.deserialize find_available new
    node_structure walk addr_slot_to_heap_page_id child count_pages descend first_leaf
    logical_addr_to_fms_page_id page_of read_tree space_needed_to_category deserialize parse_slot
    parse_slots serialize write_slot write_slots can_insert find_free find_free_slot_index
    finish_insert insert_below insert_into insert_record max_available_space
    max_fragmented_free_space new_page read_data read_slot row_data_size u16_from_be u16_to_be
    u32_from_be u32_to_be page_position read_page set_file write_at
first_page-Suitable = record {
  valid = first_page-IsValid;
  same_layout = refl;
  number = 0;
  numbered = refl;
  small = omega arith;
  count_u16 = omega arith;
  room = inr (omega arith);
  content = content_or (found_files (storage table));
  exists = refl;
}

raw_insert-inserted :
    raw_insert file_store entries_index same_order table start row_bytes command
    ≡ ok ((pos 1, 0), inserted)
unfolding find_available_page read_metadata read_at deserialize_metadata slice i32_from_be
    allocate_pages allocate_new_fsm_and_init allocate_page allocate_next_page_id write_metadata
    serialize_metadata copy_at i32_to_be write_page BinaryTree.deserialize find_available new
    node_structure walk addr_slot_to_heap_page_id child count_pages descend first_leaf
    logical_addr_to_fms_page_id page_of read_tree space_needed_to_category deserialize parse_slot
    parse_slots serialize write_slot write_slots can_insert find_free find_free_slot_index
    finish_insert insert_below insert_into insert_record max_available_space
    max_fragmented_free_space new_page read_data read_slot row_data_size u16_from_be u16_to_be
    u32_from_be u32_to_be page_position read_page set_file write_at raw_insert insert_on_page
    update_index_cells new_fsm parent update_page update_levels update page_space_to_category
    heap_page_id_to_addr set_available_space bubble write_record
raw_insert-inserted = refl

raw_insert-IsStored_example : IsStored table row_bytes first_page (pos 1, 0) inserted.store_state
raw_insert-IsStored_example =
    raw_insert-IsStored entries_index same_order table start row_bytes command map_256 first_page
      found_files table_fsm-table find_available_page-first_page first_page-Suitable (omega arith)
      (pos 1, 0) inserted raw_insert-inserted
