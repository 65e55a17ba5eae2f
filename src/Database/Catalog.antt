-- ===== src/Database/Catalog.antt =====
-- src/database/mod.rs: the names of databases, and the catalog. The tables `tables` and `columns` hold
-- the tables and their columns, `sequences` and `indexes` what belongs to columns.
pub mod Names
pub mod Init
pub mod ColumnRows
pub mod Opened
use fiddlers_db.Prelude.{
  ℕ, zero, suc, ◌%◌, ◌^◌, Bool, true, false, ◌||◌, ◌&&◌, List, [], ◌∷◌, leb, ◌==◌, get_elem?,
  if◌then◌else◌,
}
use fiddlers_db.Prelude.Int.{ℤ, pos, word32}
use fiddlers_db.Prelude.Outcome.{Outcome, ok, err, ◌>>=◌, or_panic, ok_or, map_err}
use fiddlers_db.Page.Iterator.{Record}
use fiddlers_db.Page.Layout.{PageDataLayout}
use fiddlers_db.Schema.{
  ColumnType, int, varchar, byte, Column, TableSchema, new_schema, find_index_by_name,
}
use fiddlers_db.Schema.Row.{Cell, int_cell, varchar_cell, byte_cell, Row}
use fiddlers_db.Store.{Store, StoreError}
use fiddlers_db.Database.{TableAccessError, Index}
use fiddlers_db.Database.Query.{rows, Trim}
use fiddlers_db.Database.TableAccess.{TableAccess, State, Order}
use fiddlers_db.Database.TableAccess.Changes
use fiddlers_db.Database.Catalog.Names.{
  tables_name, columns_name, id_name, name_name, t_id_name, type_name, length_name,
}

-- `enum DatabaseError`, without the texts.
pub data DatabaseError : Type 0 where
  invalid_name : DatabaseError
  table_not_found : List ℕ → DatabaseError
  corrupted_database : DatabaseError
  store : StoreError → DatabaseError
  table_access : TableAccessError → DatabaseError

-- `struct Table`
pub record Table : Type 0 where
  pub id : ℤ
  pub name : List ℕ
  pub schema : TableSchema

abbrev pub between : ℕ → ℕ → ℕ → Bool
between low high b = leb low b && leb b high

-- A byte of a letter, a digit, `_` or `-`. The bytes of other characters are above 127.
abbrev pub is_safe_byte : ℕ → Bool
is_safe_byte b = between 48 57 b || (between 65 90 b || (between 97 122 b || (b == 95 || b == 45)))

abbrev pub all_safe : List ℕ → Bool
all_safe [] = true
all_safe (b ∷ bs) = is_safe_byte b && all_safe bs

-- `is_safe_dir_name`
abbrev pub is_safe_dir_name : List ℕ → Bool
is_safe_dir_name [] = false
is_safe_dir_name (b ∷ bs) = all_safe (b ∷ bs)

-- `Column::new`
abbrev pub column : ℕ → List ℕ → ColumnType → Column
column id name col_type = record { id = pos id; name = name; col_type = col_type }

-- `Database::table_instance`
abbrev pub table_instance : Table
table_instance = record {
  id = pos 1;
  name = tables_name;
  schema = record { columns = column 10 id_name int ∷ column 20 name_name (varchar 512) ∷ [] };
}

-- `Database::col_table_instance`
abbrev pub col_table_instance : Table
col_table_instance = record {
  id = pos 2;
  name = columns_name;
  schema = record {
    columns =
        column 30 id_name int
        ∷ column 40 t_id_name int
        ∷ column 50 name_name (varchar 512)
        ∷ column 60 type_name byte
        ∷ column 70 length_name int
        ∷ [];
  };
}

-- The matches of `read_table` on a cell.
abbrev pub int_of : Cell → Outcome DatabaseError ℤ
int_of (int_cell val) = ok val
int_of (varchar_cell _) = err corrupted_database
int_of (byte_cell _) = err corrupted_database

abbrev pub varchar_of : Cell → Outcome DatabaseError (List ℕ)
varchar_of (int_cell _) = err corrupted_database
varchar_of (varchar_cell val) = ok val
varchar_of (byte_cell _) = err corrupted_database

abbrev pub type_of_byte : ℕ → ℤ → Outcome DatabaseError ColumnType
type_of_byte zero len = ok int
type_of_byte (suc zero) len = ok (varchar (word32 len % 2 ^ 16))
type_of_byte (suc (suc zero)) len = ok byte
type_of_byte (suc (suc (suc _))) len = err corrupted_database

abbrev pub type_of : Cell → ℤ → Outcome DatabaseError ColumnType
type_of (int_cell _) len = err corrupted_database
type_of (varchar_cell _) len = err corrupted_database
type_of (byte_cell val) len = type_of_byte val len

-- The indexes of the columns of `columns`.
pub record ColumnIndexes : Type 0 where
  pub id_index : ℕ
  pub name_index : ℕ
  pub type_index : ℕ
  pub length_index : ℕ

-- The lookups of these indexes in `read_table`.
unfoldable pub column_indexes : TableSchema → Outcome DatabaseError ColumnIndexes
column_indexes col_schema = do
  id_index ← ok_or corrupted_database (find_index_by_name col_schema id_name)
  name_index ← ok_or corrupted_database (find_index_by_name col_schema name_name)
  type_index ← ok_or corrupted_database (find_index_by_name col_schema type_name)
  length_index ← ok_or corrupted_database (find_index_by_name col_schema length_name)
  ok (record {
    id_index = id_index;
    name_index = name_index;
    type_index = type_index;
    length_index = length_index;
  })

-- The column of a row of `columns`.
unfoldable pub column_of_row : ColumnIndexes → Row → Outcome DatabaseError Column
column_of_row at row = do
  id ← or_panic (get_elem? row.cells at.id_index) >>= int_of
  name ← or_panic (get_elem? row.cells at.name_index) >>= varchar_of
  length ← or_panic (get_elem? row.cells at.length_index) >>= int_of
  type_cell ← or_panic (get_elem? row.cells at.type_index)
  col_type ← type_of type_cell length
  ok (record { id = id; name = name; col_type = col_type })

-- The type and the length of a column in its row of `columns`.
abbrev pub byte_of_type : ColumnType → ℕ
byte_of_type int = 0
byte_of_type (varchar len) = 1
byte_of_type byte = 2

abbrev pub length_of_type : ColumnType → ℤ
length_of_type int = pos 0
length_of_type (varchar len) = pos len
length_of_type byte = pos 0

-- The row that `create_table` inserts for a column of a table.
abbrev pub row_of_column : ℤ → Column → Row
row_of_column tbl_id c = record {
  cells =
      int_cell c.id
      ∷ int_cell tbl_id
      ∷ varchar_cell c.name
      ∷ byte_cell (byte_of_type c.col_type)
      ∷ int_cell (length_of_type c.col_type)
      ∷ [];
}

-- The columns, up to the first error.
unfoldable pub columns_of_rows :
    ColumnIndexes → List (Record × Row) → Outcome DatabaseError (List Column)
columns_of_rows at [] = ok []
columns_of_rows at ((r, row) ∷ items) = do
  c ← column_of_row at row
  cs ← columns_of_rows at items
  ok (c ∷ cs)

-- The one row of a table in `tables`.
abbrev pub only_table_row : List ℕ → List (Record × Row) → Outcome DatabaseError Row
only_table_row table_name [] = err (table_not_found table_name)
only_table_row table_name ((r, row) ∷ []) = ok row
only_table_row table_name (a ∷ b ∷ items) = err corrupted_database

module _ {S I : Type 0} (st : Store S) (index : Index I) (order : Order)
    (layout : PageDataLayout) where
  -- `TableAccess::new` of a table, and its state without indexes.
  abbrev pub new_access : Table → TableAccess
  new_access table = record { table_id = table.id; schema = table.schema; layout = layout }

  abbrev pub unindexed : S → State S I
  unindexed s = record { store_state = s; indexed_columns = [] }

  -- `Database::read_table`
  unfoldable pub read_table : Trim → S → List ℕ → Outcome DatabaseError Table
  read_table trim s table_name = do
    (table_query, s1) ← map_err table_access (
        Changes.find st index order (new_access table_instance) trim (unindexed s) name_name
          (varchar_cell table_name))
    table_id_index ← ok_or corrupted_database (find_index_by_name table_query.schema id_name)
    items ← map_err table_access (rows table_query)
    row ← only_table_row table_name items
    table_id ← or_panic (get_elem? row.cells table_id_index) >>= int_of
    (col_query, s2) ← map_err table_access (
        Changes.find st index order (new_access col_table_instance) trim (unindexed s) t_id_name
          (int_cell table_id))
    at ← column_indexes col_query.schema
    col_items ← map_err table_access (rows col_query)
    col_rows ← columns_of_rows at col_items
    schema ← new_schema col_rows
    ok (record { id = table_id; name = table_name; schema = schema })
