-- ===== src/Database/CatalogTests.antt =====
-- src/database/mod.rs: the catalog is created in files, and its tables are read from it.
use fiddlers_db.Prelude.{[], ℕ, ◌≡◌, refl, sym, ap, ◌∙◌, none, List}
use fiddlers_db.Prelude.Int.{ℤ, pos}
use fiddlers_db.Prelude.Outcome.{Outcome, ok, err, panic, ok_inj}
use fiddlers_db.Prelude.Bytes.{
  slice, i32_from_be, copy_at, i32_to_be, u16_from_be, u16_to_be, u32_from_be, u32_to_be,
}
use fiddlers_db.Page.{
  Page, new_page, can_insert, find_free, find_free_slot_index, finish_insert, insert_below,
  insert_into, insert_record, max_available_space, max_fragmented_free_space, read_data, read_slot,
  row_data_size, write_record,
}
use fiddlers_db.Page.Codec.{
  deserialize, parse_slot, parse_slots, serialize, write_slot, write_slots,
}
use fiddlers_db.Page.Metadata.{deserialize_metadata, allocate_next_page_id, serialize_metadata}
use fiddlers_db.Schema.{int}
use fiddlers_db.Store.{table_file, fsm_file}
use fiddlers_db.Store.FileStore.{
  Files, file_store, read_metadata, read_at, allocate_page, write_metadata, write_page,
  page_position, read_page, set_file, write_at,
}
use fiddlers_db.FreeSpace.BinaryTree.{
  find_available, new, node_structure, walk, set_available_space, bubble,
}
use fiddlers_db.FreeSpace.BinaryTree
use fiddlers_db.FreeSpace.Fsm.{
  new_fsm, find_available_page, allocate_pages, allocate_new_fsm_and_init,
  addr_slot_to_heap_page_id, child, parent, count_pages, descend, first_leaf,
  logical_addr_to_fms_page_id, page_of, read_tree, space_needed_to_category, update_page,
  update_levels, update, page_space_to_category, heap_page_id_to_addr,
}
use fiddlers_db.Database.{Index}
use fiddlers_db.Database.TableAccess.{TableAccess, Order, State}
use fiddlers_db.Database.TableAccess.Changes.{
  raw_insert, insert_on_page, update_index_cells, insert, find, find_through, find_all,
}
use fiddlers_db.Page.Layout.{PageDataLayout}
use fiddlers_db.Store.FileStore.{create, read_pages, seq_page_iterator}
use fiddlers_db.Store.{StoreError, io}
use fiddlers_db.Database.Catalog.Opened.{
  table_access_of, direct_access, table_access_of_enough, indexed_access, indexed_columns,
}
use fiddlers_db.Prelude.Int.{ℤ, pos}
use fiddlers_db.Database.Query.{
  collect, filter_items, pages_items, new_query, find_column_for_query,
  find_column_for_query_by_cell, Trim,
}
use fiddlers_db.Database.TableAccess.{pointer_map, insert_command}
use fiddlers_db.Schema.Row.{validate, serialize_row, deserialize_row, is_of_type}
use fiddlers_db.Schema.{find_index_by_name, find_index_by_id, raw_type, new_schema}
use fiddlers_db.Database.Catalog.{
  DatabaseError, Table, table_instance, read_table, column_indexes, column_of_row, columns_of_rows,
}
use fiddlers_db.Database.Catalog.Init.{init, insert_all, create_files, init_with_rows, idx_table}
use fiddlers_db.Database.Catalog.Names.{indexes_name}

abbrev no_files : Files
no_files _ = none

abbrev no_index : Index (List ℕ)
no_index = record { find = λ i key. panic; insert = λ i key value. panic; delete = λ i key. panic }

abbrev same_order : Order
same_order A l = l

abbrev layout_512 : PageDataLayout
layout_512 = record { page_size = 512 }

abbrev files_or : Outcome DatabaseError Files → Files
files_or (ok files) = files
files_or (err e) = no_files
files_or panic = no_files

abbrev as_is : Trim
as_is name = name

-- The files of a new database.
abbrev catalog : Files
catalog = files_or (init file_store no_index same_order layout_512 create no_files)

abbrev no_btree : Files → ℤ → Outcome StoreError (List ℕ)
no_btree _ _ = err io

abbrev opened : Outcome DatabaseError (TableAccess × State Files (List ℕ))
opened =
    direct_access file_store no_index same_order layout_512 no_btree as_is catalog table_instance

-- In a new database, `indexes` is read with the identifier 4, and `tables` is opened without indexes.
catalog_run :
    (read_table file_store no_index same_order layout_512 as_is catalog indexes_name ≡ ok idx_table)
    × (opened
        ≡ ok (
          record { table_id = pos 1; schema = table_instance.schema; layout = layout_512 },
          record { store_state = catalog; indexed_columns = [] },
        ))
unfolding find_available_page read_metadata read_at deserialize_metadata slice i32_from_be
    allocate_pages allocate_new_fsm_and_init allocate_page allocate_next_page_id write_metadata
    serialize_metadata copy_at i32_to_be write_page BinaryTree.deserialize find_available new
    node_structure walk addr_slot_to_heap_page_id child count_pages descend first_leaf
    logical_addr_to_fms_page_id page_of read_tree space_needed_to_category deserialize parse_slot
    parse_slots serialize write_slot write_slots can_insert find_free find_free_slot_index
    finish_insert insert_below insert_into insert_record max_available_space
    max_fragmented_free_space new_page read_data read_slot row_data_size u16_from_be u16_to_be
    u32_from_be u32_to_be page_position read_page set_file write_at raw_insert insert_on_page
    update_index_cells new_fsm parent update_page update_levels update page_space_to_category
    heap_page_id_to_addr set_available_space bubble write_record create seq_page_iterator read_pages
    insert find find_through find_all collect filter_items pages_items new_query
    find_column_for_query find_column_for_query_by_cell pointer_map insert_command validate
    serialize_row deserialize_row is_of_type find_index_by_name raw_type new_schema read_table
    column_indexes column_of_row columns_of_rows insert_all init create_files init_with_rows
    fiddlers_db.Page.Metadata.new_metadata fiddlers_db.Schema.Row.validate_cells
    fiddlers_db.Schema.Row.validate_cell fiddlers_db.Page.Iterator.from_slots
    fiddlers_db.Page.Iterator.new_iterator fiddlers_db.Page.Iterator.next
    fiddlers_db.Page.Iterator.next_loop fiddlers_db.Page.Iterator.select
    fiddlers_db.Schema.Row.deserialize_cell fiddlers_db.Schema.Row.deserialize_cells
    fiddlers_db.Schema.Row.expect_int fiddlers_db.Schema.Row.serialize_cell
    fiddlers_db.Schema.Row.serialize_cells fiddlers_db.Schema.Utf8.is_utf8 find_index_by_id
    fiddlers_db.Store.Rows.group_slots fiddlers_db.Store.Rows.indexed_rows
    fiddlers_db.Store.Rows.page_rows fiddlers_db.Store.Rows.pages_rows
    fiddlers_db.Store.Rows.read_row fiddlers_db.Store.Rows.rows_of indexed_access indexed_columns
catalog_run = (refl, refl)

table_access_of_enough_example :
    table_access_of file_store no_index same_order layout_512 no_btree 2 as_is catalog
      table_instance
    ≡ direct_access file_store no_index same_order layout_512 no_btree as_is catalog table_instance
table_access_of_enough_example =
    table_access_of_enough file_store no_index same_order layout_512 no_btree 0 as_is catalog
      table_instance
      (λ t read. sym (ap (λ (table : Table). table.id) (ok_inj (sym catalog_run.0 ∙ read))))
