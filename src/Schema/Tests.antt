-- ===== src/Schema/Tests.antt =====
-- Runs of the schema's definitions, and uses of its theorems.
use fiddlers_db.Prelude.{ℕ, ◌≡◌, ◌↔◌, ◌++◌, refl, List, [], ◌∷◌, arith}
use fiddlers_db.Prelude.Int.{pos, negsuc}
use fiddlers_db.Prelude.Bytes.{slice, i32_to_be, u16_to_be, i32_from_be, u16_from_be}
use fiddlers_db.Schema.Utf8.{is_utf8}
use fiddlers_db.Prelude.Outcome.{ok, err}
use fiddlers_db.Schema.{Column, TableSchema, int, varchar, byte}
use fiddlers_db.Schema.Row.{
  Row, int_cell, varchar_cell, byte_cell, cell_error, invalid_data, validate, serialize_row,
  deserialize_row,
}
use fiddlers_db.Schema.Fits.{CellsFit, validate_iff}
use fiddlers_db.Schema.RoundTrip.{IsCells, deserialize_row-serialize_row}
use fiddlers_db.Schema.Reads.{deserialize_row-CellsFit, deserialize_row_too_long}

abbrev id_column : Column
id_column = record { id = pos 1; name = 105 ∷ 100 ∷ []; col_type = int }

abbrev name_column : Column
name_column = record { id = pos 2; name = 110 ∷ []; col_type = varchar 3 }

abbrev flag_column : Column
flag_column = record { id = pos 3; name = 102 ∷ []; col_type = byte }

abbrev people : TableSchema
people = record { columns = id_column ∷ name_column ∷ flag_column ∷ [] }

abbrev ann : Row
ann = record { cells = int_cell (negsuc 4) ∷ varchar_cell (65 ∷ 110 ∷ []) ∷ byte_cell 7 ∷ [] }

abbrev ann_bytes : List ℕ
ann_bytes = 255 ∷ 255 ∷ 255 ∷ 251 ∷ 0 ∷ 2 ∷ 65 ∷ 110 ∷ 7 ∷ []

serialize_ann : serialize_row ann ≡ ann_bytes
unfolding serialize_row i32_to_be u16_to_be
serialize_ann = refl

deserialize_ann : deserialize_row (ann_bytes ++ 9 ∷ []) people ≡ ok ann
unfolding deserialize_row slice i32_from_be u16_from_be is_utf8
deserialize_ann = refl

validate_iff_example : (validate ann people ≡ ok tt) ↔ CellsFit ann.cells people.columns
validate_iff_example = validate_iff ann people

ann-IsCells : IsCells ann.cells
unfolding is_utf8
ann-IsCells = ground arith

deserialize_row-serialize_row_example :
    deserialize_row (serialize_row ann ++ 9 ∷ []) people ≡ ok ann
deserialize_row-serialize_row_example =
    deserialize_row-serialize_row ann people (9 ∷ []) ann-IsCells (ground arith) (ground arith)

deserialize_row-CellsFit_example : CellsFit ann.cells people.columns
deserialize_row-CellsFit_example =
    deserialize_row-CellsFit (ann_bytes ++ 9 ∷ []) people ann deserialize_ann

-- Four bytes in a column of at most three.
deserialize_row_too_long_example :
    deserialize_row
      (serialize_row (record {
        cells = int_cell (pos 1) ∷ varchar_cell (65 ∷ 66 ∷ 67 ∷ 68 ∷ []) ∷ byte_cell 0 ∷ [];
      })
        ++ [])
      people
    ≡ err (cell_error name_column.name invalid_data)
deserialize_row_too_long_example =
    deserialize_row_too_long name_column 3 (65 ∷ 66 ∷ 67 ∷ 68 ∷ []) [] (int_cell (pos 1) ∷ [])
      (byte_cell 0 ∷ []) (id_column ∷ []) (flag_column ∷ []) refl (omega arith) (omega arith)
      (ground arith) (ground arith) (ground arith)
