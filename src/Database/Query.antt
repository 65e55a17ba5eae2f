-- ===== src/Database/Query.antt =====
-- src/database/table_access.rs: results of queries, and what is done with them. An iterator is the
-- list of what it returns.
pub mod Join
use fiddlers_db.Prelude.{
  ℕ, zero, suc, Bool, true, false, not, Option, none, some, List, [], ◌∷◌, ◌++◌, map, get_elem?,
}
use fiddlers_db.Prelude.{if◌then◌else◌}
use fiddlers_db.Prelude.Outcome.{
  Outcome, ok, err, panic, ◌>>=◌, ◌>>◌, or_panic, ok_or, map_err, ensure,
}
use fiddlers_db.Prelude.HashMap.{push_entry, get_entry}
use fiddlers_db.Page.{Page}
use fiddlers_db.Page.Iterator.{Record}
use fiddlers_db.Schema.{
  Column, ColumnType, TableSchema, new_schema, position, text_eq, column_type_eq, raw_type,
}
use fiddlers_db.Schema.Row.{Cell, Row, cell_eq, is_of_type}
use fiddlers_db.Store.{StoreError}
use fiddlers_db.Store.Rows.{RowResult, page_rows}
use fiddlers_db.Database.{TableAccessError, load_rows_error, store}

-- `struct QueryResult`
pub record QueryResult (R : Type 0) : Type 0 where
  pub row_iter : List (Outcome TableAccessError R)
  pub schema : TableSchema

-- `collect` into a `Result`: the items up to the first error.
unfoldable pub collect :
    {R : Type 0} → List (Outcome TableAccessError R) → Outcome TableAccessError (List R)
collect [] = ok []
collect (item ∷ items) = do row ← item; rows ← collect items; ok (row ∷ rows)

-- `QueryResult::rows`
abbrev pub rows : {R : Type 0} → QueryResult R → Outcome TableAccessError (List R)
rows q = collect q.row_iter

-- An item of `QueryResult::filter`, before the others: an error stays.
abbrev pub keep_if :
    {R : Type 0}
    → (R → Outcome TableAccessError Bool)
    → Outcome TableAccessError R
    → List (Outcome TableAccessError R)
    → List (Outcome TableAccessError R)
keep_if f (ok r) rest = elim (f r) [
  | ok true ↦ ok r ∷ rest
  | ok false ↦ rest
  | err e ↦ err e ∷ rest
  | panic ↦ panic ∷ rest
]
keep_if f (err e) rest = err e ∷ rest
keep_if f panic rest = panic ∷ rest

unfoldable pub filter_items :
    {R : Type 0}
    → (R → Outcome TableAccessError Bool)
    → List (Outcome TableAccessError R)
    → List (Outcome TableAccessError R)
filter_items f [] = []
filter_items f (item ∷ items) = keep_if f item (filter_items f items)

-- `QueryResult::filter`. A test may panic.
abbrev pub filter :
    {R : Type 0} → (R → Outcome TableAccessError Bool) → QueryResult R → QueryResult R
filter f q = record q { row_iter = filter_items f q.row_iter }

-- An item of an iterator over rows, with the error of the table.
abbrev pub table_item : RowResult → Outcome TableAccessError (Record × Row)
table_item item = map_err store item

-- `PageResultIterator`: the rows of a page, or the error it was read with.
abbrev pub page_items : TableSchema → Outcome StoreError Page → List RowResult
page_items schema (ok page) = page_rows page schema
page_items schema (err e) = err e ∷ []
page_items schema panic = panic ∷ []

unfoldable pub pages_items : TableSchema → List (Outcome StoreError Page) → List RowResult
pages_items schema [] = []
pages_items schema (page ∷ pages) = page_items schema page ++ pages_items schema pages

-- `QueryResult::new`
unfoldable pub new_query : List (Outcome StoreError Page) → TableSchema → QueryResult (Record × Row)
new_query pages schema = record {
  row_iter = map table_item (pages_items schema pages);
  schema = schema;
}

-- `QueryResult::from_indexes`
abbrev pub from_indexes : List RowResult → TableSchema → QueryResult (Record × Row)
from_indexes items schema = record { row_iter = map table_item items; schema = schema }

-- `str::trim` of the standard library, by its function.
abbrev pub Trim : Type 0
Trim = List ℕ → List ℕ

-- `find_column_for_query`
unfoldable pub find_column_for_query : Trim → TableSchema → List ℕ → Outcome TableAccessError ℕ
find_column_for_query trim schema col_name =
    ok_or load_rows_error (position (λ c. text_eq c.name (trim col_name)) schema.columns)

-- `find_column_for_query_by_cell`
unfoldable pub find_column_for_query_by_cell :
    Trim → TableSchema → List ℕ → Cell → Outcome TableAccessError ℕ
find_column_for_query_by_cell trim schema col_name cell = do
  col_index ← find_column_for_query trim schema col_name
  column ← or_panic (get_elem? schema.columns col_index)
  ensure (is_of_type cell column.col_type) load_rows_error
  ok col_index

-- The loop of `QueryResult::hash_join` over the rows of the inner query.
unfoldable pub hash_rows :
    ℕ
    → List (Record × Row)
    → List (Cell × List Row)
    → Outcome TableAccessError (List (Cell × List Row))
hash_rows that_col_index [] hashes = ok hashes
hash_rows that_col_index ((r, row) ∷ items) hashes = do
  join_key ← or_panic (get_elem? row.cells that_col_index)
  hash_rows that_col_index items (push_entry cell_eq join_key row hashes)

-- A joined row.
abbrev pub join_rows : Row → Row → Row
join_rows row inner_row = record { cells = row.cells ++ inner_row.cells }

-- What the join makes of the rows with the same key.
abbrev pub joined : Row → Option (List Row) → List (Outcome TableAccessError Row)
joined row none = []
joined row (some join_tuples) = map (λ inner_row. ok (join_rows row inner_row)) join_tuples

abbrev pub join_key_rows :
    Row → List (Cell × List Row) → Option Cell → List (Outcome TableAccessError Row)
join_key_rows row hashes none = panic ∷ []
join_key_rows row hashes (some key) = joined row (get_entry cell_eq key hashes)

-- An item of the outer query, joined.
abbrev pub join_item :
    ℕ
    → List (Cell × List Row)
    → Outcome TableAccessError (Record × Row)
    → List (Outcome TableAccessError Row)
join_item this_col_index hashes (ok (r, row)) =
    join_key_rows row hashes (get_elem? row.cells this_col_index)
join_item this_col_index hashes (err e) = err e ∷ []
join_item this_col_index hashes panic = panic ∷ []

unfoldable pub join_items :
    ℕ
    → List (Cell × List Row)
    → List (Outcome TableAccessError (Record × Row))
    → List (Outcome TableAccessError Row)
join_items this_col_index hashes [] = []
join_items this_col_index hashes (item ∷ items) =
    join_item this_col_index hashes item ++ join_items this_col_index hashes items

-- `QueryResult::hash_join`
unfoldable pub hash_join :
    Trim
    → QueryResult (Record × Row)
    → QueryResult (Record × Row)
    → List ℕ
    → List ℕ
    → Outcome TableAccessError (QueryResult Row)
hash_join trim this inner_query this_join_column that_join_column = do
  that_col_index ← find_column_for_query trim inner_query.schema that_join_column
  this_col_index ← find_column_for_query trim this.schema this_join_column
  this_col ← or_panic (get_elem? this.schema.columns this_col_index)
  that_col ← or_panic (get_elem? inner_query.schema.columns that_col_index)
  ensure (column_type_eq (raw_type this_col.col_type) (raw_type that_col.col_type)) load_rows_error
  inner_rows ← rows inner_query
  hashes ← hash_rows that_col_index inner_rows []
  joined_schema ← new_schema (this.schema.columns ++ inner_query.schema.columns)
  ok (record { row_iter = join_items this_col_index hashes this.row_iter; schema = joined_schema })
