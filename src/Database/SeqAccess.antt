-- ===== src/Database/SeqAccess.antt =====
-- src/database/seq_access.rs: sequences, kept as rows of a table with the columns `col_id` and
-- `current`.
use fiddlers_db.Prelude.{ℕ, List, [], ◌∷◌, get_elem?}
use fiddlers_db.Prelude.Int.{ℤ, i32_succ}
use fiddlers_db.Prelude.Outcome.{Outcome, ok, err, ◌>>=◌, or_panic, ok_or, map_err}
use fiddlers_db.Page.Iterator.{Record}
use fiddlers_db.Schema.{int, varchar, byte, Column, TableSchema, find_index_by_name}
use fiddlers_db.Schema.Row.{Cell, int_cell, varchar_cell, byte_cell, Row}
use fiddlers_db.Store.{Store}
use fiddlers_db.Database.{TableAccessError, Index}
use fiddlers_db.Database.Query.{rows, Trim}
use fiddlers_db.Database.TableAccess.{TableAccess, State, Order}
use fiddlers_db.Database.TableAccess.Changes

-- `enum SeqAccessError`, without the texts.
pub data SeqAccessError : Type 0 where
  not_a_sequence_column : SeqAccessError
  column_not_found : SeqAccessError
  not_a_sequence : SeqAccessError
  sequence_not_found : SeqAccessError
  sequence_corrupted : SeqAccessError
  unknown_error : SeqAccessError

-- "col_id"
abbrev pub col_id_name : List ℕ
col_id_name = 99 ∷ 111 ∷ 108 ∷ 95 ∷ 105 ∷ 100 ∷ []

-- "current"
abbrev pub current_name : List ℕ
current_name = 99 ∷ 117 ∷ 114 ∷ 114 ∷ 101 ∷ 110 ∷ 116 ∷ []

-- The identifier of a column with a sequence.
abbrev pub sequence_id : Column → Outcome SeqAccessError ℤ
sequence_id column = elim column.col_type [
  | int ↦ ok column.id
  | varchar _ ↦ err not_a_sequence_column
  | byte ↦ err not_a_sequence_column
]

-- The one row of a sequence.
abbrev pub only_row : List (Record × Row) → Outcome SeqAccessError Row
only_row [] = err sequence_not_found
only_row ((r, row) ∷ []) = ok row
only_row (a ∷ b ∷ items) = err sequence_corrupted

-- The value after the one in a cell.
abbrev pub next_of : Cell → Outcome SeqAccessError ℤ
next_of (int_cell val) = or_panic (i32_succ val)
next_of (varchar_cell _) = err sequence_corrupted
next_of (byte_cell _) = err sequence_corrupted

-- `impl From<TableAccessError> for SeqAccessError`
abbrev pub from_table : TableAccessError → SeqAccessError
from_table _ = unknown_error

module _ {S I : Type 0} (st : Store S) (index : Index I) (order : Order)
    (sequence_acc : TableAccess) where
  -- `SeqAccess::next_val`, of a column of the table with the schema `schema`.
  unfoldable pub next_val :
      Trim → TableSchema → State S I → List ℕ → Outcome SeqAccessError (ℤ × State S I)
  next_val trim schema s column = do
    col_idx ← ok_or column_not_found (find_index_by_name schema column)
    col ← or_panic (get_elem? schema.columns col_idx)
    col_id ← sequence_id col
    (seq_query, s1) ←
        map_err from_table
          (Changes.find st index order sequence_acc trim s col_id_name (int_cell col_id))
    current_idx ← ok_or not_a_sequence (find_index_by_name seq_query.schema current_name)
    seq ← map_err from_table (rows seq_query)
    row ← only_row seq
    current ← or_panic (get_elem? row.cells current_idx)
    val ← next_of current
    (found, s2) ←
        map_err from_table
          (Changes.find st index order sequence_acc trim s1 col_id_name (int_cell col_id))
    s3 ← map_err from_table (
        Changes.update st index order sequence_acc trim s2 found
          ((current_name, int_cell val) ∷ []))
    ok (val, s3)
