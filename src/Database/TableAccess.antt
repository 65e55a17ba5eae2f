-- ===== src/Database/TableAccess.antt =====
-- src/database/table_access.rs: `TableAccess`, the rows of a table. A change goes to the indexes, to
-- the page and to the free space map, in this order.
pub mod Changes
pub mod Stored
use fiddlers_db.Prelude.{
  ℕ, zero, suc, ◌+◌, Bool, true, false, not, ◌||◌, Option, none, some, List, [], ◌∷◌, ◌++◌, length,
  get_elem?, set,
}
use fiddlers_db.Prelude.{◌==◌, if◌then◌else◌}
use fiddlers_db.Prelude.Int.{ℤ, ◌==ℤ◌, as_i32}
use fiddlers_db.Prelude.Outcome.{Outcome, ok, err, ◌>>=◌, ◌>>◌, or_panic, ok_or, map_err, ensure}
use fiddlers_db.Prelude.HashMap.{insert_entry, get_entry, push_entry}
use fiddlers_db.Page.{Page, can_insert, insert_record, write_record, delete_record}
use fiddlers_db.Page.Layout.{PageDataLayout}
use fiddlers_db.Page.Iterator.{Record}
use fiddlers_db.Schema.{TableSchema, schema_eq, find_index_by_id, is_var_size}
use fiddlers_db.Schema.Row.{Cell, Row, cell_eq, column_type, expect_int, validate, serialize_row}
use fiddlers_db.Store.{PageStorage, table_file, Store}
use fiddlers_db.Store.Rows.{indexed_rows}
use fiddlers_db.FreeSpace.Fsm.{Fsm, new_fsm, find_available_page}
use fiddlers_db.FreeSpace.Fsm
use fiddlers_db.Database.{
  TableAccessError, insert_row_error, load_rows_error, update_rows_error, delete_rows_error, store,
  fsm, page, Index, UpdateIndexCommand, new_command, push_update, push_insert, push_delete,
}
use fiddlers_db.Database.Query.{
  QueryResult, rows, filter, new_query, from_indexes, Trim, find_column_for_query_by_cell,
}

-- `struct TableAccess`, its table and layout. The store and the indexes are the state.
pub record TableAccess : Type 0 where
  pub table_id : ℤ
  pub schema : TableSchema
  pub layout : PageDataLayout

-- The store, and the indexed columns by their identifiers.
pub record State (S I : Type 0) : Type 0 where
  pub store_state : S
  pub indexed_columns : List (ℤ × I)

-- The order in which a hash map is iterated.
abbrev pub Order : Type 1
Order = (A : Type 0) → List A → List A

abbrev pub storage : TableAccess → PageStorage
storage t = table_file t.table_id

-- `TableAccess::fsm`
abbrev pub table_fsm : TableAccess → Outcome TableAccessError Fsm
table_fsm t = map_err fsm (new_fsm t.layout t.table_id)

-- The loop of `column_index_to_btree_pointer_map`: the index of a column, and the place of its
-- B+ tree.
unfoldable pub pointer_map :
    {I : Type 0}
    → TableSchema
    → List (ℤ × I)
    → ℕ
    → List (ℕ × ℕ)
    → Outcome TableAccessError (List (ℕ × ℕ))
pointer_map schema [] pointer entries = ok entries
pointer_map schema ((col_id, i) ∷ columns) pointer entries = do
  col_idx ← ok_or update_rows_error (find_index_by_id schema col_id)
  pointer_map schema columns (pointer + 1) (insert_entry ◌==◌ col_idx pointer entries)

-- `column_index_to_btree_pointer_map`
abbrev pub column_index_to_btree_pointer_map :
    {I : Type 0} → TableSchema → List (ℤ × I) → Outcome TableAccessError (List (ℕ × ℕ))
column_index_to_btree_pointer_map schema indexed_columns = pointer_map schema indexed_columns 0 []

-- The number of an indexed cell.
abbrev pub indexed_value : TableAccessError → Row → ℕ → Outcome TableAccessError ℤ
indexed_value e row col_idx = do
  cell ← or_panic (get_elem? row.cells col_idx)
  map_err (λ _. e) (expect_int cell "Indexed value must be of type Int")

-- The loops of `insert` and `delete` over the indexed columns.
unfoldable pub insert_command :
    Row → List (ℕ × ℕ) → UpdateIndexCommand → Outcome TableAccessError UpdateIndexCommand
insert_command row [] uic = ok uic
insert_command row ((col_idx, btree_idx) ∷ entries) uic = do
  val ← indexed_value insert_row_error row col_idx
  insert_command row entries (push_insert uic btree_idx val)

unfoldable pub delete_command :
    Row → List (ℕ × ℕ) → UpdateIndexCommand → Outcome TableAccessError UpdateIndexCommand
delete_command row [] uic = ok uic
delete_command row ((col_idx, btree_idx) ∷ entries) uic = do
  val ← indexed_value delete_rows_error row col_idx
  delete_command row entries (push_delete uic btree_idx val)

-- The command for a cell that is updated, if its column is indexed.
abbrev pub update_pointer :
    Option ℕ → Cell → Cell → UpdateIndexCommand → Outcome TableAccessError UpdateIndexCommand
update_pointer none old_cell updated_cell uic = ok uic
update_pointer (some btree_pointer) old_cell updated_cell uic = do
  old_value ←
      map_err (λ _. update_rows_error) (expect_int old_cell "Int expected for indexed values")
  new_value ←
      map_err (λ _. update_rows_error) (expect_int updated_cell "Int expected for indexed values")
  ok (push_update uic btree_pointer old_value new_value)

abbrev pub update_cell :
    Option Cell
    → Option ℕ
    → Cell
    → UpdateIndexCommand
    → Outcome TableAccessError (Cell × UpdateIndexCommand)
update_cell none pointer old_cell uic = ok (old_cell, uic)
update_cell (some updated_cell) pointer old_cell uic = do
  uic' ← update_pointer pointer old_cell updated_cell uic
  ok (updated_cell, uic')

-- The loop of `update` over the cells of a row, from the index `i` on.
unfoldable pub update_cells :
    List (ℕ × Cell)
    → List (ℕ × ℕ)
    → ℕ
    → List Cell
    → UpdateIndexCommand
    → Outcome TableAccessError (List Cell × UpdateIndexCommand)
update_cells new_values pointers i [] uic = ok ([], uic)
update_cells new_values pointers i (old_cell ∷ cells) uic = do
  (cell, uic1) ← update_cell (get_entry ◌==◌ i new_values) (get_entry ◌==◌ i pointers) old_cell uic
  (rest, uic2) ← update_cells new_values pointers (i + 1) cells uic1
  ok (cell ∷ rest, uic2)

-- The new cells by the index of their column.
unfoldable pub new_values :
    Trim
    → TableSchema
    → List (List ℕ × Cell)
    → List (ℕ × Cell)
    → Outcome TableAccessError (List (ℕ × Cell))
new_values trim schema [] entries = ok entries
new_values trim schema ((col_name, cell) ∷ updates) entries = do
  index ← find_column_for_query_by_cell trim schema col_name cell
  new_values trim schema updates (insert_entry ◌==◌ index cell entries)

-- Whether a new cell has no fixed size.
abbrev pub any_var_size : List (List ℕ × Cell) → Bool
any_var_size [] = false
any_var_size ((col_name, cell) ∷ updates) = is_var_size (column_type cell) || any_var_size updates

-- The rows to delete by their pages, with the commands for the indexes.
unfoldable pub deletes_by_page :
    List (ℕ × ℕ)
    → List (Record × Row)
    → List (ℤ × List (Record × UpdateIndexCommand))
    → Outcome TableAccessError (List (ℤ × List (Record × UpdateIndexCommand)))
deletes_by_page pointers [] entries = ok entries
deletes_by_page pointers ((r, row) ∷ items) entries = do
  uic ← delete_command row pointers new_command
  deletes_by_page pointers items (push_entry ◌==ℤ◌ r.page_id (r, uic) entries)

-- The updated rows by the pages of the old ones.
abbrev pub Updates : Type 0
Updates = List (Record × (Row × UpdateIndexCommand))

unfoldable pub updates_by_page :
    List (ℕ × Cell)
    → List (ℕ × ℕ)
    → List (Record × Row)
    → List (ℤ × Updates)
    → Outcome TableAccessError (List (ℤ × Updates))
updates_by_page values pointers [] entries = ok entries
updates_by_page values pointers ((r, row) ∷ items) entries = do
  (cells, uic) ← update_cells values pointers 0 row.cells new_command
  updates_by_page values pointers items
      (push_entry ◌==ℤ◌ r.page_id (r, (record { cells = cells }, uic)) entries)
