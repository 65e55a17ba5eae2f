-- ===== src/Schema/RoundTrip.antt =====
-- The binary form of rows: what is written reads back, and what reads back fits the schema.
use fiddlers_db.Prelude.{ℕ, ◌+◌, ◌%◌, ◌^◌, ◌≤◌, ◌<◌, ◌≡◌, refl, ◌∙◌, ap, true}
use fiddlers_db.Prelude.{
  List, [], ◌∷◌, ◌++◌, arith, length, drop, append_assoc, length-append, some,
}
use fiddlers_db.Prelude.{length-drop, le→ltb, le→leb}
use fiddlers_db.Prelude.Int.{IsI32}
use fiddlers_db.Prelude.Bytes.{
  u16_to_be, i32_to_be, i32_from_be-i32_to_be, length-i32_to_be, length-u16_to_be,
  u16_from_be-u16_to_be,
}
use fiddlers_db.Prelude.Bytes.{u16_from_be}
use fiddlers_db.Prelude.Slices.{slice_lem, slice_rest, drop_step}
use fiddlers_db.Prelude.Outcome.{ok, err}
use fiddlers_db.Prelude.{lt→leb}
use fiddlers_db.Schema.{ColumnType, int, varchar, byte, Column, TableSchema}
use fiddlers_db.Schema.Utf8.{is_utf8}
use fiddlers_db.Schema.Row.{Cell, int_cell, varchar_cell, byte_cell, Row, invalid_data}
use fiddlers_db.Schema.Row.{serialize_cell, serialize_cells, serialize_row}
use fiddlers_db.Schema.Row.{deserialize_cell, deserialize_cells, deserialize_row}
use fiddlers_db.Schema.Fits.{CellFits, CellsFit}

-- What Rust's types guarantee of a cell: an `i32`, or a well-formed text.
abbrev pub IsCell : Cell → Type 0
IsCell (int_cell i) = IsI32 i
IsCell (varchar_cell s) = is_utf8 s ≡ true
IsCell (byte_cell b) = b < 256

abbrev pub IsCells : List Cell → Type 0
IsCells [] = Unit
IsCells (c ∷ cs) = IsCell c × IsCells cs

-- A column's maximal length is a `u16`.
abbrev pub IsColumnType : ColumnType → Type 0
IsColumnType (varchar max_len) = max_len < 2 ^ 16
IsColumnType _ = Unit

abbrev pub AreColumns : List Column → Type 0
AreColumns [] = Unit
AreColumns (c ∷ cs) = IsColumnType c.col_type × AreColumns cs

-- The branch of texts, on a buffer cut at the length prefix and at the end of the text.
module _ (prefix s rest : List ℕ) (m : ℕ) (two : length prefix ≡ 2) where
  size : length (prefix ++ (s ++ rest)) ≡ 2 + length s + length rest
  size = omega (arith, length-append prefix (s ++ rest), length-append s rest)

  deserialize_varchar :
      u16_from_be prefix ≡ some (length s)
      → length s ≤ m
      → is_utf8 s ≡ true
      → deserialize_cell (prefix ++ (s ++ rest)) (varchar m) ≡ ok (varchar_cell s, 2 + length s)
  unfolding deserialize_cell
  deserialize_varchar n fits good = rw (
    le→ltb (length (prefix ++ (s ++ rest))) 2 (omega (arith, size)),
    slice_lem [] prefix (s ++ rest) 0 2 refl (omega arith),
    n,
    le→leb (2 + length s) (length (prefix ++ (s ++ rest))) (omega (arith, size)),
    le→leb (length s) m fits,
    slice_lem prefix s rest 2 (2 + length s) two refl,
    good,
  )

  -- A text that is longer than the column allows is refused.
  pub deserialize_too_long :
      u16_from_be prefix ≡ some (length s)
      → m < length s
      → deserialize_cell (prefix ++ (s ++ rest)) (varchar m) ≡ err invalid_data
  unfolding deserialize_cell
  deserialize_too_long n long = rw (
    le→ltb (length (prefix ++ (s ++ rest))) 2 (omega (arith, size)),
    slice_lem [] prefix (s ++ rest) 0 2 refl (omega arith),
    n,
    le→leb (2 + length s) (length (prefix ++ (s ++ rest))) (omega (arith, size)),
    lt→leb (length s) m long,
  )

pub u16_length :
    (s : List ℕ) → length s < 2 ^ 16 → u16_from_be (u16_to_be (length s % 2 ^ 16)) ≡ some (length s)
u16_length s h = u16_from_be-u16_to_be (length s % 2 ^ 16) (omega arith) ∙ ap some (omega arith)

pub deserialize_cell-serialize_cell :
    (cell : Cell) (t : ColumnType) (rest : List ℕ)
    → IsCell cell
    → IsColumnType t
    → CellFits cell t
    → deserialize_cell (serialize_cell cell ++ rest) t ≡ ok (cell, length (serialize_cell cell))
unfolding deserialize_cell serialize_cell
deserialize_cell-serialize_cell (int_cell i) int rest c w f = rw (
  le→ltb (length (i32_to_be i ++ rest)) 4
      (omega (arith, length-append (i32_to_be i) rest, length-i32_to_be i)),
  slice_lem [] (i32_to_be i) rest 0 4 refl (omega (arith, length-i32_to_be i)),
  i32_from_be-i32_to_be i c,
  length-i32_to_be i,
)
deserialize_cell-serialize_cell (varchar_cell s) (varchar m) rest c w f =
    let prefix = u16_to_be (length s % 2 ^ 16) in
    rw (append_assoc prefix s rest) (
      deserialize_varchar prefix s rest m (length-u16_to_be _) (u16_length s (omega arith)) f c
      ∙ ap (λ k. ok (varchar_cell s, k))
          (omega (arith, length-append prefix s, length-u16_to_be (length s % 2 ^ 16))))
deserialize_cell-serialize_cell (byte_cell b) byte rest c w f = refl
deserialize_cell-serialize_cell (int_cell i) (varchar m) rest c w f = absurd f
deserialize_cell-serialize_cell (int_cell i) byte rest c w f = absurd f
deserialize_cell-serialize_cell (varchar_cell i) int rest c w f = absurd f
deserialize_cell-serialize_cell (varchar_cell i) byte rest c w f = absurd f
deserialize_cell-serialize_cell (byte_cell i) int rest c w f = absurd f
deserialize_cell-serialize_cell (byte_cell i) (varchar m) rest c w f = absurd f

deserialize_cells-serialize_cells :
    (cells : List Cell) (columns : List Column) (row_data rest : List ℕ) (offset : ℕ)
    → IsCells cells
    → AreColumns columns
    → CellsFit cells columns
    → offset ≤ length row_data
    → drop offset row_data ≡ serialize_cells cells ++ rest
    → deserialize_cells row_data offset columns ≡ ok cells
unfolding deserialize_cells serialize_cells
deserialize_cells-serialize_cells [] [] row_data rest offset c w f inside h = refl
deserialize_cells-serialize_cells [] (t ∷ ts) row_data rest offset c w f inside h = absurd f
deserialize_cells-serialize_cells (x ∷ xs) [] row_data rest offset c w f inside h = absurd f
deserialize_cells-serialize_cells (x ∷ xs) (t ∷ ts) row_data rest offset c w f inside h =
    let a = serialize_cell x in
    let b = serialize_cells xs ++ rest in
    let cut : drop offset row_data ≡ a ++ b = h ∙ append_assoc a (serialize_cells xs) rest in
    let room : offset + length a ≤ length row_data =
      omega (arith, ap length cut, length-append a b, length-drop offset row_data) in
    rw (
      slice_rest row_data offset inside,
      cut,
      deserialize_cell-serialize_cell x t.col_type b c.0 w.0 f.0,
      deserialize_cells-serialize_cells xs ts row_data rest (offset + length a) c.1 w.1 f.1 room
          (drop_step row_data a b offset cut),
    )

-- A row that fits a schema, written and read back, is the same row, whatever bytes follow it. Its
-- cells are `i32` values, well-formed texts and bytes, and the schema's
-- maximal lengths are `u16` values.
pub deserialize_row-serialize_row :
    (row : Row) (schema : TableSchema) (rest : List ℕ)
    → IsCells row.cells
    → AreColumns schema.columns
    → CellsFit row.cells schema.columns
    → deserialize_row (serialize_row row ++ rest) schema ≡ ok row
unfolding deserialize_row serialize_row
deserialize_row-serialize_row row schema rest c w f = rw (
    deserialize_cells-serialize_cells row.cells schema.columns (serialize_cells row.cells ++ rest)
      rest 0 c w f (omega arith) refl)
