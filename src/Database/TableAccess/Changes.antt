-- ===== src/Database/TableAccess/Changes.antt =====
-- src/database/table_access.rs: queries, insertion, deletion and updates of rows. `order` is the
-- order in which hash maps are iterated.
use fiddlers_db.Prelude.{ℕ, Bool, Option, none, some, List, [], ◌∷◌, ◌++◌, length, get_elem?, set}
use fiddlers_db.Prelude.{◌==◌, if◌then◌else◌}
use fiddlers_db.Prelude.Int.{ℤ, as_i32}
use fiddlers_db.Prelude.Outcome.{Outcome, ok, ◌>>=◌, ◌>>◌, or_panic, map_err, ensure}
use fiddlers_db.Prelude.HashMap.{get_entry}
use fiddlers_db.Page.{Page, can_insert, insert_record, write_record, delete_record}
use fiddlers_db.Page.Iterator.{Record}
use fiddlers_db.Schema.{schema_eq}
use fiddlers_db.Schema.Row.{Cell, Row, cell_eq, expect_int, validate, serialize_row}
use fiddlers_db.Store.{Store}
use fiddlers_db.Store.Rows.{indexed_rows}
use fiddlers_db.FreeSpace.Fsm.{Fsm, find_available_page}
use fiddlers_db.FreeSpace.Fsm
use fiddlers_db.Database.{
  TableAccessError, insert_row_error, load_rows_error, update_rows_error, delete_rows_error, store,
  fsm, page, Index, UpdateIndexCommand, new_command,
}
use fiddlers_db.Database.Query.{
  QueryResult, rows, filter, new_query, from_indexes, Trim, find_column_for_query_by_cell,
}
use fiddlers_db.Database.TableAccess.{
  TableAccess, State, Order, storage, table_fsm, column_index_to_btree_pointer_map, insert_command,
  deletes_by_page, Updates, updates_by_page, new_values, any_var_size,
}

module _ {S I : Type 0} (st : Store S) (index : Index I) (order : Order) (t : TableAccess) where
  abbrev pub Db : Type 0
  Db = State S I

  abbrev pub with_store : Db → S → Db
  with_store s store_state = record s { store_state = store_state }

  abbrev pub set_index : Db → ℕ → ℤ → I → Db
  set_index s idx col_id i = record s { indexed_columns = set s.indexed_columns idx (col_id, i) }

  -- The two parts of a command of `update_index`.
  abbrev pub delete_old : Db → ℕ → Option ℤ → Outcome TableAccessError Db
  delete_old s idx none = ok s
  delete_old s idx (some old_val) = do
    (col_id, i) ← or_panic (get_elem? s.indexed_columns idx)
    (value, i') ← map_err (λ _. update_rows_error) (index.delete i old_val)
    ok (set_index s idx col_id i')

  abbrev pub insert_new : Db → ℕ → Option ℤ → ℤ → ℕ → Outcome TableAccessError Db
  insert_new s idx none page_id slot_id = ok s
  insert_new s idx (some new_val) page_id slot_id = do
    (col_id, i) ← or_panic (get_elem? s.indexed_columns idx)
    i' ← map_err (λ _. update_rows_error) (index.insert i new_val (page_id, as_i32 slot_id))
    ok (set_index s idx col_id i')

  -- The loop of `update_index`.
  unfoldable pub update_index_cells :
      Db → ℤ → ℕ → List (ℕ × Option ℤ × Option ℤ) → Outcome TableAccessError Db
  update_index_cells s page_id slot_id [] = ok s
  update_index_cells s page_id slot_id ((idx, old_val, new_val) ∷ cells) = do
    s1 ← delete_old s idx old_val
    s2 ← insert_new s1 idx new_val page_id slot_id
    update_index_cells s2 page_id slot_id cells

  -- `TableAccess::update_index`
  abbrev pub update_index : Db → ℤ → ℕ → UpdateIndexCommand → Outcome TableAccessError Db
  update_index s page_id slot_id uic = update_index_cells s page_id slot_id uic.update_cells

  -- `fsm.update(&page)`
  abbrev pub update_fsm : Db → Page → Outcome TableAccessError Db
  update_fsm s p = do
    f ← table_fsm t
    s' ← map_err fsm (Fsm.update st f s.store_state p)
    ok (with_store s s')

  -- `store.write_page`, with the operation's error.
  abbrev pub write_page : TableAccessError → Db → Page → Outcome TableAccessError Db
  write_page e s p = do
    s' ← map_err (λ _. e) (st.write_page s.store_state t.layout p (storage t))
    ok (with_store s s')

  -- `TableAccess::find_all`
  unfoldable pub find_all : Db → Outcome TableAccessError (QueryResult (Record × Row))
  find_all s = do
    pages ← map_err store (st.seq_page_iterator s.store_state t.layout (storage t))
    ok (new_query pages t.schema)

  -- The test of a scan for a cell.
  abbrev pub has_cell : ℕ → Cell → Record × Row → Outcome TableAccessError Bool
  has_cell col_index cell (r, row) = do
    c ← or_panic (get_elem? row.cells col_index)
    ok (cell_eq c cell)

  abbrev pub to_list : Option (ℤ × ℤ) → List (ℤ × ℤ)
  to_list none = []
  to_list (some v) = v ∷ []

  -- The two ways of `TableAccess::find`: through the index, or by a scan.
  unfoldable pub find_through :
      Db → ℕ → Cell → Option ℕ → Outcome TableAccessError (QueryResult (Record × Row) × Db)
  find_through s col_index cell none = do q ← find_all s; ok (filter (has_cell col_index cell) q, s)
  find_through s col_index cell (some btree_pointer) = do
    val ← map_err (λ _. load_rows_error) (expect_int cell "Indexed values need to be of type Int")
    (col_id, i) ← or_panic (get_elem? s.indexed_columns btree_pointer)
    (res, i') ← map_err (λ _. load_rows_error) (index.find i val)
    let items =
        indexed_rows st (order (ℤ × List ℕ)) s.store_state t.layout (storage t) t.schema
          (to_list res)
    ok (from_indexes items t.schema, set_index s btree_pointer col_id i')

  -- `TableAccess::find`
  unfoldable pub find :
      Trim → Db → List ℕ → Cell → Outcome TableAccessError (QueryResult (Record × Row) × Db)
  find trim s col_name cell = do
    col_index ← find_column_for_query_by_cell trim t.schema col_name cell
    pointers ← column_index_to_btree_pointer_map t.schema s.indexed_columns
    find_through s col_index cell (get_entry ◌==◌ col_index pointers)

  -- A record that `TableAccess::delete` deletes.
  unfoldable pub delete_one : Db → ℤ → Record × UpdateIndexCommand → Outcome TableAccessError Db
  delete_one s page_id (r, uic) = do
    p ← map_err (λ _. delete_rows_error) (st.read_page s.store_state t.layout page_id (storage t))
    let p' = (delete_record p r.record_index).0
    s1 ← update_index s page_id r.record_index uic
    s2 ← write_page delete_rows_error s1 p'
    update_fsm s2 p'

  unfoldable pub delete_records :
      Db → ℤ → List (Record × UpdateIndexCommand) → Outcome TableAccessError Db
  delete_records s page_id [] = ok s
  delete_records s page_id (item ∷ items) = do
    s' ← delete_one s page_id item
    delete_records s' page_id items

  unfoldable pub delete_pages :
      Db → List (ℤ × List (Record × UpdateIndexCommand)) → Outcome TableAccessError Db
  delete_pages s [] = ok s
  delete_pages s ((page_id, items) ∷ entries) = do
    s' ← delete_records s page_id items
    delete_pages s' entries

  -- `TableAccess::delete`
  unfoldable pub delete : Db → QueryResult (Record × Row) → Outcome TableAccessError Db
  delete s query_result = do
    f ← table_fsm t
    pointers ← column_index_to_btree_pointer_map t.schema s.indexed_columns
    items ← rows query_result
    entries ← deletes_by_page (order (ℕ × ℕ) pointers) items []
    delete_pages s (order (ℤ × List (Record × UpdateIndexCommand)) entries)

  -- `TableAccess::raw_insert` on the page that the free space map found, with the command that its hook
  -- passes to `update_index`.
  unfoldable pub insert_on_page :
      Db → Page → List ℕ → UpdateIndexCommand → Outcome TableAccessError ((ℤ × ℕ) × Db)
  insert_on_page s p row_data uic = do
    fits ← map_err page (can_insert p row_data)
    ensure fits insert_row_error
    (slot_id, p') ← map_err page (insert_record p row_data)
    s1 ← update_index s p'.page_id slot_id uic
    s2 ← write_page insert_row_error s1 p'
    s3 ← update_fsm s2 p'
    ok ((p'.page_id, slot_id), s3)

  -- `TableAccess::raw_insert`
  unfoldable pub raw_insert :
      Db → List ℕ → UpdateIndexCommand → Outcome TableAccessError ((ℤ × ℕ) × Db)
  raw_insert s row_data uic = do
    f ← table_fsm t
    (p, s0) ← map_err fsm (find_available_page st f s.store_state (length row_data))
    insert_on_page (with_store s s0) p row_data uic

  -- `TableAccess::insert`
  unfoldable pub insert : Db → Row → Outcome TableAccessError Db
  insert s row = do
    map_err (λ _. insert_row_error) (validate row t.schema)
    pointers ← column_index_to_btree_pointer_map t.schema s.indexed_columns
    uic ← insert_command row (order (ℕ × ℕ) pointers) new_command
    (place, s') ← raw_insert s (serialize_row row) uic
    ok s'

  -- The rows that need another page, with their commands.
  abbrev pub Pending : Type 0
  Pending = List (List ℕ × UpdateIndexCommand)

  -- An updated row that goes to the same page, if it fits.
  unfoldable pub reinsert :
      Db
      → Page
      → List ℕ
      → UpdateIndexCommand
      → Pending
      → Outcome TableAccessError (Db × Page × Pending)
  reinsert s p row_data uic pending = do
    fits ← map_err page (can_insert p row_data)
    let same_page = do
      (slot_id, p') ← map_err page (insert_record p row_data)
      s' ← update_index s p'.page_id slot_id uic
      ok (s', p', pending)
    if fits then same_page else ok (s, p, pending ++ (row_data, uic) ∷ [])

  -- The loop of `update` that deletes and inserts again, on one page.
  unfoldable pub reinsert_rows :
      Db → Page → Updates → Pending → Outcome TableAccessError (Db × Pending)
  reinsert_rows s p [] pending = ok (s, pending)
  reinsert_rows s p ((r, (updated_row, uic)) ∷ updates) pending = do
    let deleted = (delete_record p r.record_index).0
    (s1, p', pending') ← reinsert s deleted (serialize_row updated_row) uic pending
    s2 ← write_page update_rows_error s1 p'
    s3 ← update_fsm s2 p'
    reinsert_rows s3 p' updates pending'

  -- The loop that updates in place.
  unfoldable pub rewrite_rows : Db → Page → Updates → Outcome TableAccessError Db
  rewrite_rows s p [] = ok s
  rewrite_rows s p ((r, (updated_row, uic)) ∷ updates) = do
    p' ← map_err page (write_record p r.record_index (serialize_row updated_row))
    s1 ← update_index s p'.page_id r.record_index uic
    s2 ← write_page update_rows_error s1 p'
    rewrite_rows s2 p' updates

  -- The loop over the pages.
  unfoldable pub update_pages :
      Db → Bool → List (ℤ × Updates) → Pending → Outcome TableAccessError (Db × Pending)
  update_pages s not_in_place [] pending = ok (s, pending)
  update_pages s not_in_place ((page_id, updates) ∷ entries) pending = do
    p ← map_err (λ _. update_rows_error) (st.read_page s.store_state t.layout page_id (storage t))
    let in_place = do s' ← rewrite_rows s p updates; ok (s', pending)
    (s1, pending') ← (if not_in_place then reinsert_rows s p updates pending else in_place)
    update_pages s1 not_in_place entries pending'

  -- The last loop, over the rows that need another page.
  unfoldable pub insert_pending : Db → Pending → Outcome TableAccessError Db
  insert_pending s [] = ok s
  insert_pending s ((row_data, uic) ∷ pending) = do
    (place, s') ← raw_insert s row_data uic
    insert_pending s' pending

  -- `TableAccess::update`
  unfoldable pub update :
      Trim → Db → QueryResult (Record × Row) → List (List ℕ × Cell) → Outcome TableAccessError Db
  update trim s query_result updates = do
    ensure (schema_eq query_result.schema t.schema) update_rows_error
    f ← table_fsm t
    pointers ← column_index_to_btree_pointer_map t.schema s.indexed_columns
    values ← new_values trim t.schema updates []
    items ← rows query_result
    entries ← updates_by_page values pointers items []
    (s1, pending) ← update_pages s (any_var_size updates) (order (ℤ × Updates) entries) []
    insert_pending s1 pending
