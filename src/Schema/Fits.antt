-- ===== src/Schema/Fits.antt =====
-- Which rows a schema admits, as a relation, and that `validate` decides it.
use fiddlers_db.Prelude.{ℕ, ◌≤◌, ◌≡◌, refl, ◌↔◌, List, [], ◌∷◌, arith, length, ◌==◌}
use fiddlers_db.Prelude.{Bool-cases, inl, inr}
use fiddlers_db.Prelude.Outcome.{ok, >>=-eq-ok}
use fiddlers_db.Schema.{ColumnType, int, varchar, byte, Column, TableSchema}
use fiddlers_db.Schema.Row.{Cell, int_cell, varchar_cell, byte_cell, Row}
use fiddlers_db.Schema.Row.{validate_cell, validate_cells, validate}

-- The cell has the type of the column, and a text is no longer than the column allows.
abbrev pub CellFits : Cell → ColumnType → Type 0
CellFits (int_cell _) int = Unit
CellFits (varchar_cell s) (varchar max_len) = length s ≤ max_len
CellFits (byte_cell _) byte = Unit
CellFits _ _ = ⊥

-- As many cells as columns, each fitting its column.
abbrev pub CellsFit : List Cell → List Column → Type 0
CellsFit [] [] = Unit
CellsFit (cell ∷ cells) (column ∷ columns) = CellFits cell column.col_type × CellsFit cells columns
CellsFit _ _ = ⊥

pub validate_cell_iff :
    (name : List ℕ) (cell : Cell) (t : ColumnType)
    → (validate_cell name cell t ≡ ok tt) ↔ CellFits cell t
unfolding validate_cell
validate_cell_iff name (int_cell _) int = (λ _. tt, λ _. refl)
validate_cell_iff name (int_cell _) (varchar _) = (λ e. cc, λ f. absurd f)
validate_cell_iff name (int_cell _) byte = (λ e. cc, λ f. absurd f)
validate_cell_iff name (varchar_cell s) int = (λ e. cc, λ f. absurd f)
validate_cell_iff name (varchar_cell s) (varchar m) = (λ e. ground arith, λ f. ground arith)
validate_cell_iff name (varchar_cell s) byte = (λ e. cc, λ f. absurd f)
validate_cell_iff name (byte_cell _) int = (λ e. cc, λ f. absurd f)
validate_cell_iff name (byte_cell _) (varchar _) = (λ e. cc, λ f. absurd f)
validate_cell_iff name (byte_cell _) byte = (λ _. tt, λ _. refl)

module _ (cell : Cell) (cells : List Cell) (column : Column) (columns : List Column) where
  -- The recursive call is handed in as `rest`.
  validate_cells-cons :
      (validate_cells cells columns ≡ ok tt) ↔ CellsFit cells columns
      → (validate_cells (cell ∷ cells) (column ∷ columns) ≡ ok tt)
        ↔ CellsFit (cell ∷ cells) (column ∷ columns)
  unfolding validate_cells
  validate_cells-cons rest =
      let head = validate_cell_iff column.name cell column.col_type in
      (
        λ e.
            let (u, first, later) =
              >>=-eq-ok (validate_cell column.name cell column.col_type)
                (λ _. validate_cells cells columns) e in
            (head.0 first, rest.0 later),
        λ f. rw (head.1 f.0) (rest.1 f.1),
      )

validate_cells_iff :
    (cells : List Cell) (columns : List Column)
    → length cells ≡ length columns
    → (validate_cells cells columns ≡ ok tt) ↔ CellsFit cells columns
unfolding validate_cells
validate_cells_iff [] [] h = (λ _. tt, λ _. refl)
validate_cells_iff [] (c ∷ cs) h = absurd (omega arith)
validate_cells_iff (x ∷ xs) [] h = absurd (omega arith)
validate_cells_iff (x ∷ xs) (c ∷ cs) h =
    validate_cells-cons x xs c cs (validate_cells_iff xs cs (omega arith))

pub length-CellsFit :
    (cells : List Cell) (columns : List Column)
    → CellsFit cells columns
    → length cells ≡ length columns
length-CellsFit [] [] f = refl
length-CellsFit [] (c ∷ cs) f = absurd f
length-CellsFit (x ∷ xs) [] f = absurd f
length-CellsFit (x ∷ xs) (c ∷ cs) f = omega (arith, length-CellsFit xs cs f.1)

-- Validation accepts a row exactly when it has one cell for each column, every cell has the type
-- of its column, and no text is longer than its column allows.
pub validate_iff :
    (row : Row) (schema : TableSchema)
    → (validate row schema ≡ ok tt) ↔ CellsFit row.cells schema.columns
unfolding validate
validate_iff row schema = elim (Bool-cases (length row.cells == length schema.columns)) [
  | inl same ↦ rw same (validate_cells_iff row.cells schema.columns (ground arith))
  | inr other ↦
      rw other (λ e. cc, λ f. absurd (ground (arith, length-CellsFit row.cells schema.columns f)))
]
