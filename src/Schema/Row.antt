-- ===== src/Schema/Row.antt =====
-- src/schema/table.rs: cells, rows, their validation and their binary form.
use Prim.Native.String.{String}
use fiddlers_db.Prelude.{ℕ, ◌+◌, ◌%◌, ◌^◌, Bool, false, not, List, [], ◌∷◌, ◌++◌}
use fiddlers_db.Prelude.{ltb, leb, ◌==◌, length, if◌then◌else◌}
use fiddlers_db.Prelude.Int.{ℤ, ◌==ℤ◌}
use fiddlers_db.Prelude.Bytes.{slice, u16_to_be, u16_from_be, i32_to_be, i32_from_be}
use fiddlers_db.Prelude.Outcome.{Outcome, ok, err, ◌>>=◌, ◌>>◌, or_panic, ok_or, map_err, ensure}
use fiddlers_db.Schema.{ColumnType, int, varchar, byte, Column, TableSchema}
use fiddlers_db.Schema.{column_type_text, column_type_eq, raw_type, text_eq}
use fiddlers_db.Schema.Utf8.{from_utf8}

-- `enum Cell`
pub data Cell : Type 0 where
  int_cell : ℤ → Cell
  varchar_cell : List ℕ → Cell
  byte_cell : ℕ → Cell

-- `struct Row`
pub record Row : Type 0 where
  pub cells : List Cell

-- The derived equality of `Cell`.
abbrev pub cell_eq : Cell → Cell → Bool
cell_eq (int_cell a) (int_cell b) = a ==ℤ b
cell_eq (varchar_cell a) (varchar_cell b) = text_eq a b
cell_eq (byte_cell a) (byte_cell b) = a == b
cell_eq _ _ = false

pub data RowValidationError : Type 0 where
  length_mismatch : RowValidationError
  type_mismatch : List ℕ → String → String → RowValidationError
  varchar_too_long : ℕ → List ℕ → RowValidationError

pub data CellDeserializationError : Type 0 where
  invalid_data : CellDeserializationError

pub data RowDeserializationError : Type 0 where
  cell_error : List ℕ → CellDeserializationError → RowDeserializationError

pub data CellError : Type 0 where
  expected_int : String → CellError

-- `Cell::expect_int`
unfoldable pub expect_int : Cell → String → Outcome CellError ℤ
expect_int (int_cell v) error_msg = ok v
expect_int _ error_msg = err (expected_int error_msg)

-- `Cell::column_type`
abbrev pub column_type : Cell → ColumnType
column_type (int_cell _) = int
column_type (varchar_cell _) = varchar 0
column_type (byte_cell _) = byte

-- `Cell::is_of_type`
unfoldable pub is_of_type : Cell → ColumnType → Bool
unfolding raw_type
is_of_type cell col_type = column_type_eq (column_type cell) (raw_type col_type)

-- One pass of the loop of `Row::validate`: `name` and `col_type` are those of the column.
unfoldable pub validate_cell : List ℕ → Cell → ColumnType → Outcome RowValidationError (Unit {0})
validate_cell name (int_cell _) int = ok tt
validate_cell name (varchar_cell input) (varchar max_len) =
    if ltb max_len (length input) then err (varchar_too_long max_len name) else ok tt
validate_cell name (byte_cell _) byte = ok tt
validate_cell name cell col_type =
    err (type_mismatch name (column_type_text col_type) (column_type_text (column_type cell)))

-- The loop over the zipped cells and columns.
unfoldable pub validate_cells : List Cell → List Column → Outcome RowValidationError (Unit {0})
validate_cells [] columns = ok tt
validate_cells (cell ∷ cells) [] = ok tt
validate_cells (cell ∷ cells) (column ∷ columns) =
    validate_cell column.name cell column.col_type >> validate_cells cells columns

-- `Row::validate`
unfoldable pub validate : Row → TableSchema → Outcome RowValidationError (Unit {0})
validate row schema =
    if not (length row.cells == length schema.columns)
    then err length_mismatch
    else validate_cells row.cells schema.columns

-- `Cell::serialize`. The length of a text is cut to 16 bits.
unfoldable pub serialize_cell : Cell → List ℕ
serialize_cell (int_cell i) = i32_to_be i
serialize_cell (varchar_cell s) = u16_to_be (length s % 2 ^ 16) ++ s
serialize_cell (byte_cell b) = b ∷ []

unfoldable pub serialize_cells : List Cell → List ℕ
serialize_cells [] = []
serialize_cells (c ∷ cs) = serialize_cell c ++ serialize_cells cs

-- `Row::serialize`
unfoldable pub serialize_row : Row → List ℕ
unfolding serialize_cells serialize_cell
serialize_row row = serialize_cells row.cells

-- `Cell::deserialize`: the cell, and the number of bytes read.
unfoldable pub deserialize_cell : List ℕ → ColumnType → Outcome CellDeserializationError (Cell × ℕ)
deserialize_cell row_data int = if ltb (length row_data) 4 then err invalid_data else do
  int_bytes ← or_panic (slice row_data 0 4)
  int_value ← ok_or invalid_data (i32_from_be int_bytes)
  ok (int_cell int_value, 4)
deserialize_cell row_data (varchar len) = if ltb (length row_data) 2 then err invalid_data else do
  len_bytes ← or_panic (slice row_data 0 2)
  str_len ← ok_or invalid_data (u16_from_be len_bytes)
  ensure (leb (2 + str_len) (length row_data)) invalid_data
  ensure (leb str_len len) invalid_data
  str_bytes ← or_panic (slice row_data 2 (2 + str_len))
  str_value ← ok_or invalid_data (from_utf8 str_bytes)
  ok (varchar_cell str_value, 2 + str_len)
deserialize_cell [] byte = err invalid_data
deserialize_cell (byte_value ∷ rest) byte = ok (byte_cell byte_value, 1)

-- The loop of `Row::deserialize`, from the byte `offset` on.
unfoldable pub deserialize_cells :
    List ℕ → ℕ → List Column → Outcome RowDeserializationError (List Cell)
deserialize_cells row_data offset [] = ok []
deserialize_cells row_data offset (col ∷ columns) = do
  row_rest ← or_panic (slice row_data offset (length row_data))
  (cell, bytes_read) ← map_err (cell_error col.name) (deserialize_cell row_rest col.col_type)
  cells ← deserialize_cells row_data (offset + bytes_read) columns
  ok (cell ∷ cells)

-- `Row::deserialize`
unfoldable pub deserialize_row : List ℕ → TableSchema → Outcome RowDeserializationError Row
unfolding deserialize_cells deserialize_cell
deserialize_row row_data schema = do
  cells ← deserialize_cells row_data 0 schema.columns
  ok (record { cells = cells })
