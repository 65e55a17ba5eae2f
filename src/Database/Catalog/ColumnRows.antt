-- ===== src/Database/Catalog/ColumnRows.antt =====
-- src/database/mod.rs: `read_table` reads the columns that `create_table` writes.
use fiddlers_db.Prelude.{◌<◌, ◌%◌, ◌^◌, ◌≡◌, refl, ap, arith, All, map, List, [], ◌∷◌}
use fiddlers_db.Prelude.Int.{ℤ}
use fiddlers_db.Prelude.Outcome.{ok}
use fiddlers_db.Page.Iterator.{Record}
use fiddlers_db.Schema.{ColumnType, int, varchar, byte, Column, find_index_by_name}
use fiddlers_db.Database.Catalog.{
  col_table_instance, ColumnIndexes, column_indexes, type_of_byte, byte_of_type, length_of_type,
  row_of_column, column_of_row, columns_of_rows,
}

-- The length of a text is a `u16`.
abbrev pub HasU16Length : ColumnType → Type 0
HasU16Length int = Unit
HasU16Length (varchar len) = len < 2 ^ 16
HasU16Length byte = Unit

-- The places of the columns in the rows of `columns`.
abbrev places : ColumnIndexes
places = record { id_index = 0; name_index = 2; type_index = 3; length_index = 4 }

column_indexes-places : column_indexes col_table_instance.schema ≡ ok places
unfolding column_indexes find_index_by_name
column_indexes-places = refl

type_of_byte-byte_of_type :
    (col_type : ColumnType)
    → HasU16Length col_type
    → type_of_byte (byte_of_type col_type) (length_of_type col_type) ≡ ok col_type
type_of_byte-byte_of_type int h = refl
type_of_byte-byte_of_type (varchar len) h =
    let same : len % 2 ^ 32 % 2 ^ 16 ≡ len = omega (arith, h) in ap (λ n. ok (varchar n)) same
type_of_byte-byte_of_type byte h = refl

column_of_row-row_of_column :
    (tbl_id : ℤ) (c : Column)
    → HasU16Length c.col_type
    → column_of_row places (row_of_column tbl_id c) ≡ ok c
unfolding column_of_row
column_of_row-row_of_column tbl_id c h = rw (type_of_byte-byte_of_type c.col_type h) refl

read_columns :
    (tbl_id : ℤ) (items : List (Record × Column))
    → All (λ item. HasU16Length item.1.col_type) items
    → columns_of_rows places (map (λ item. (item.0, row_of_column tbl_id item.1)) items)
      ≡ ok (map (λ item. item.1) items)
unfolding columns_of_rows
read_columns tbl_id [] h = refl
read_columns tbl_id (item ∷ items) h =
    rw (
      columns_of_rows,
      column_of_row-row_of_column tbl_id item.1 h.0,
      read_columns tbl_id items h.1,
    )

-- The columns of `columns` are found in its schema. From the rows that `create_table` inserts for
-- columns whose text lengths are below 65536, read in any pages and slots, `read_table` makes the same
-- columns in the same order, with their identifiers, names, types and lengths.
pub columns_of_rows-row_of_column :
    (tbl_id : ℤ) (items : List (Record × Column))
    → All (λ item. HasU16Length item.1.col_type) items
    → (at : ColumnIndexes) × (column_indexes col_table_instance.schema ≡ ok at)
      × (columns_of_rows at (map (λ item. (item.0, row_of_column tbl_id item.1)) items)
          ≡ ok (map (λ item. item.1) items))
columns_of_rows-row_of_column tbl_id items h =
    (places, column_indexes-places, read_columns tbl_id items h)
