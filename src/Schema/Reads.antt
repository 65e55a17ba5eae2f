-- ===== src/Schema/Reads.antt =====
-- What `Row::deserialize` accepts and refuses.
use mathlib.Core.Path.{subst}
use fiddlers_db.Prelude.{ℕ, ◌+◌, ◌%◌, ◌^◌, ◌≤◌, ◌<◌, ◌≡◌, refl, ◌∙◌, ap}
use fiddlers_db.Prelude.{List, [], ◌∷◌, ◌++◌, arith, length, drop, append_assoc}
use fiddlers_db.Prelude.{length-append, length-drop, leb, leb→le, ltb, Bool-cases, inl, inr}
use fiddlers_db.Prelude.Bytes.{u16_to_be, length-u16_to_be, slice, u16_from_be}
use fiddlers_db.Prelude.Slices.{length-slice, slice_rest, drop_step}
use fiddlers_db.Prelude.Outcome.{Outcome, ok, err, >>=-eq-ok, or_panic, ok_or, ensure}
use fiddlers_db.Prelude.Outcome.{map_err, or_panic-eq-ok, ok_or-eq-ok, ensure-eq-ok, map_err-eq-ok}
use fiddlers_db.Schema.{ColumnType, int, varchar, byte, Column, TableSchema}
use fiddlers_db.Schema.Utf8.{from_utf8, from_utf8-eq-some}
use fiddlers_db.Schema.Row.{Cell, int_cell, varchar_cell, byte_cell, Row, invalid_data}
use fiddlers_db.Schema.Row.{CellDeserializationError, cell_error}
use fiddlers_db.Schema.Row.{serialize_cell, serialize_cells, serialize_row}
use fiddlers_db.Schema.Row.{deserialize_cell, deserialize_cells, deserialize_row}
use fiddlers_db.Schema.Fits.{CellFits, CellsFit}
use fiddlers_db.Schema.RoundTrip.{
  IsCells, AreColumns, deserialize_cell-serialize_cell, deserialize_too_long, u16_length,
}

abbrev text_of : Outcome CellDeserializationError (Cell × ℕ) → List ℕ
text_of (ok (varchar_cell s, n)) = s
text_of _ = []

-- Every length that the branch of texts returns has passed the test against the column's maximum.
deserialize_varchar-fits :
    (row_data s : List ℕ) (m n : ℕ)
    → deserialize_cell row_data (varchar m) ≡ ok (varchar_cell s, n)
    → length s ≤ m
unfolding deserialize_cell
deserialize_varchar-fits row_data s m n h = elim (Bool-cases (ltb (length row_data) 2)) [
  | inl short ↦ absurd (ground arith)
  | inr enough ↦
      let h' = rw enough at h in
      let (a, ea, ha) = >>=-eq-ok (or_panic (slice row_data 0 2)) _ h' in
      let (k, ek, hk) = >>=-eq-ok (ok_or invalid_data (u16_from_be a)) _ ha in
      let (u, eu, hu) = >>=-eq-ok (ensure (leb (2 + k) (length row_data)) invalid_data) _ hk in
      let (v, ev, hv) = >>=-eq-ok (ensure (leb k m) invalid_data) _ hu in
      let (b, eb, hb) = >>=-eq-ok (or_panic (slice row_data 2 (2 + k))) _ hv in
      let (t, et, ht) = >>=-eq-ok (ok_or invalid_data (from_utf8 b)) _ hb in
      let size = length-slice row_data 2 (2 + k) (or_panic-eq-ok _ eb) in
      let same = from_utf8-eq-some b (ok_or-eq-ok _ _ et) in
      let limit = leb→le k m (ensure-eq-ok _ _ ev) in
      let out : t ≡ s = ap text_of ht in omega (arith, size, limit, ap length same, ap length out)
]

deserialize_cell-CellFits :
    (row_data : List ℕ) (t : ColumnType) (cell : Cell) (n : ℕ)
    → deserialize_cell row_data t ≡ ok (cell, n)
    → CellFits cell t
deserialize_cell-CellFits row_data int (int_cell i) n h = tt
deserialize_cell-CellFits row_data int (varchar_cell s) n h =
    unfold deserialize_cell in absurd (ground arith)
deserialize_cell-CellFits row_data int (byte_cell b) n h =
    unfold deserialize_cell in absurd (ground arith)
deserialize_cell-CellFits row_data (varchar m) (int_cell i) n h =
    unfold deserialize_cell in absurd (ground arith)
deserialize_cell-CellFits row_data (varchar m) (varchar_cell s) n h =
    deserialize_varchar-fits row_data s m n h
deserialize_cell-CellFits row_data (varchar m) (byte_cell b) n h =
    unfold deserialize_cell in absurd (ground arith)
deserialize_cell-CellFits [] byte cell n h = unfold deserialize_cell in absurd (ground arith)
deserialize_cell-CellFits (b ∷ rest) byte (int_cell i) n h =
    unfold deserialize_cell in absurd (ground arith)
deserialize_cell-CellFits (b ∷ rest) byte (varchar_cell s) n h =
    unfold deserialize_cell in absurd (ground arith)
deserialize_cell-CellFits (b ∷ rest) byte (byte_cell c) n h = tt

deserialize_cells-CellsFit :
    (row_data : List ℕ) (columns : List Column) (cells : List Cell) (offset : ℕ)
    → deserialize_cells row_data offset columns ≡ ok cells
    → CellsFit cells columns
unfolding deserialize_cells
deserialize_cells-CellsFit row_data [] [] offset h = tt
deserialize_cells-CellsFit row_data [] (x ∷ xs) offset h = cc
deserialize_cells-CellsFit row_data (t ∷ ts) cells offset h =
    let (r, er, hr) = >>=-eq-ok (or_panic (slice row_data offset (length row_data))) _ h in
    let (read, ec, hc) =
      >>=-eq-ok (map_err (cell_error t.name) (deserialize_cell r t.col_type)) _ hr in
    let (rest, ed, hd) = >>=-eq-ok (deserialize_cells row_data (offset + read.1) ts) _ hc in
    let first = deserialize_cell-CellFits r t.col_type read.0 read.1 (map_err-eq-ok _ _ ec) in
    let later = deserialize_cells-CellsFit row_data ts rest (offset + read.1) ed in
    let all : read.0 ∷ rest ≡ cells = cc in subst (λ l. CellsFit l (t ∷ ts)) all (first, later)

-- Whatever bytes a row is read from, the row fits the schema that it was read with.
pub deserialize_row-CellsFit :
    (row_data : List ℕ) (schema : TableSchema) (row : Row)
    → deserialize_row row_data schema ≡ ok row
    → CellsFit row.cells schema.columns
unfolding deserialize_row
deserialize_row-CellsFit row_data schema row h =
    let (cells, e, last) = >>=-eq-ok (deserialize_cells row_data 0 schema.columns) _ h in
    let same : cells ≡ row.cells = cc in
    subst (λ l. CellsFit l schema.columns) same
      (deserialize_cells-CellsFit row_data schema.columns cells 0 e)

module _ (col : Column) (max_len : ℕ) (type : col.col_type ≡ varchar max_len) (s : List ℕ)
    (long : max_len < length s) (sixteen : length s < 2 ^ 16) (more : List Column)
    (post : List Cell) where
  deserialize_cells_too_long :
      (cells : List Cell) (columns : List Column) (row_data rest : List ℕ) (offset : ℕ)
      → IsCells cells
      → AreColumns columns
      → CellsFit cells columns
      → offset ≤ length row_data
      → drop offset row_data ≡ serialize_cells (cells ++ varchar_cell s ∷ post) ++ rest
      → deserialize_cells row_data offset (columns ++ col ∷ more)
        ≡ err (cell_error col.name invalid_data)
  unfolding deserialize_cells serialize_cells
  deserialize_cells_too_long [] [] row_data rest offset c w f inside h =
      let prefix = u16_to_be (length s % 2 ^ 16) in
      let cut : drop offset row_data ≡ prefix ++ (s ++ (serialize_cells post ++ rest)) =
        unfold serialize_cell in
        (h ∙ append_assoc (prefix ++ s) (serialize_cells post) rest ∙ append_assoc prefix s _) in
      rw (
        slice_rest row_data offset inside,
        cut,
        type,
        deserialize_too_long prefix s _ max_len (length-u16_to_be _) (u16_length s sixteen) long,
      )
  deserialize_cells_too_long [] (t ∷ ts) row_data rest offset c w f inside h = absurd f
  deserialize_cells_too_long (x ∷ xs) [] row_data rest offset c w f inside h = absurd f
  deserialize_cells_too_long (x ∷ xs) (t ∷ ts) row_data rest offset c w f inside h =
      let a = serialize_cell x in
      let b = serialize_cells (xs ++ varchar_cell s ∷ post) ++ rest in
      let cut : drop offset row_data ≡ a ++ b = h ∙ append_assoc a _ rest in
      let room : offset + length a ≤ length row_data =
        omega (arith, ap length cut, length-append a b, length-drop offset row_data) in
      rw (
        slice_rest row_data offset inside,
        cut,
        deserialize_cell-serialize_cell x t.col_type b c.0 w.0 f.0,
        deserialize_cells_too_long xs ts row_data rest (offset + length a) c.1 w.1 f.1 room
            (drop_step row_data a b offset cut),
      )

-- A row whose first misfit is a text that is longer than its column allows, of fewer than 2^16
-- bytes, is written without complaint, and reading it back fails with an error on that column.
pub deserialize_row_too_long :
    (col : Column) (max_len : ℕ) (s rest : List ℕ) (cells post : List Cell)
    (columns more : List Column)
    → col.col_type ≡ varchar max_len
    → max_len < length s
    → length s < 2 ^ 16
    → IsCells cells
    → AreColumns columns
    → CellsFit cells columns
    → deserialize_row
        (serialize_row (record { cells = cells ++ varchar_cell s ∷ post }) ++ rest)
        (record { columns = columns ++ col ∷ more })
      ≡ err (cell_error col.name invalid_data)
unfolding deserialize_row serialize_row
deserialize_row_too_long col max_len s rest cells post columns more type long sixteen c w f = rw (
    deserialize_cells_too_long col max_len type s long sixteen more post cells columns
      (serialize_cells (cells ++ varchar_cell s ∷ post) ++ rest) rest 0 c w f (omega arith) refl)
