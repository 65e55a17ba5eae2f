-- ===== src/Database/Catalog/Init.antt =====
-- src/database/mod.rs: the creation of the catalog. `create_file` is `create` of the store.
use fiddlers_db.Prelude.{ℕ, List, [], ◌∷◌}
use fiddlers_db.Prelude.Int.{pos}
use fiddlers_db.Prelude.Outcome.{Outcome, ok, ◌>>=◌, map_err}
use fiddlers_db.Page.Layout.{PageDataLayout}
use fiddlers_db.Schema.{int, varchar}
use fiddlers_db.Schema.Row.{int_cell, varchar_cell, byte_cell, Row}
use fiddlers_db.Store.{Store, StoreError, PageStorage, table_file, fsm_file}
use fiddlers_db.Database.{Index}
use fiddlers_db.Database.TableAccess.{TableAccess, State, Order}
use fiddlers_db.Database.TableAccess.Changes
use fiddlers_db.Database.SeqAccess.{col_id_name, current_name}
use fiddlers_db.Database.Catalog.{
  DatabaseError, store, table_access, Table, column, table_instance, col_table_instance, new_access,
  unindexed,
}
use fiddlers_db.Database.Catalog.Names.{
  tables_name, columns_name, sequences_name, indexes_name, id_name, name_name, t_id_name, type_name,
  length_name, col_ids_name,
}

-- A row of `tables`.
abbrev pub table_row : ℕ → List ℕ → Row
table_row id name = record { cells = int_cell (pos id) ∷ varchar_cell name ∷ [] }

-- A row of `columns`: the column, its table, its name, its type and its length.
abbrev pub column_row : ℕ → ℕ → List ℕ → ℕ → ℕ → Row
column_row id table name col_type len = record {
  cells =
      int_cell (pos id)
      ∷ int_cell (pos table)
      ∷ varchar_cell name
      ∷ byte_cell col_type
      ∷ int_cell (pos len)
      ∷ [];
}

-- A row of `sequences`.
abbrev pub sequence_row : ℕ → ℕ → ℕ → Row
sequence_row id col_id current = record {
  cells = int_cell (pos id) ∷ int_cell (pos col_id) ∷ int_cell (pos current) ∷ [];
}

-- The rows that `init_table_table` inserts.
abbrev pub table_rows : List Row
table_rows =
    table_row 1 tables_name
    ∷ table_row 2 columns_name
    ∷ table_row 3 sequences_name
    ∷ table_row 4 indexes_name
    ∷ []

-- The rows that `init_column_table` inserts.
abbrev pub column_rows : List Row
column_rows =
    column_row 10 1 id_name 0 0
    ∷ column_row 20 1 name_name 1 512
    ∷ column_row 30 2 id_name 0 0
    ∷ column_row 40 2 t_id_name 0 0
    ∷ column_row 50 2 name_name 1 512
    ∷ column_row 60 2 type_name 2 0
    ∷ column_row 70 2 length_name 0 0
    ∷ column_row 80 3 id_name 0 0
    ∷ column_row 85 3 col_id_name 0 0
    ∷ column_row 90 3 current_name 0 0
    ∷ column_row 100 4 id_name 0 0
    ∷ column_row 110 4 t_id_name 0 0
    ∷ column_row 120 4 col_ids_name 1 512
    ∷ []

-- The rows that `init_sequences_table` inserts.
abbrev pub sequence_rows : List Row
sequence_rows =
    sequence_row 1 10 4 ∷ sequence_row 2 30 120 ∷ sequence_row 4 80 4 ∷ sequence_row 3 100 0 ∷ []

-- The table of `init_sequences_table`.
abbrev pub seq_table : Table
seq_table = record {
  id = pos 3;
  name = sequences_name;
  schema = record {
    columns = column 80 id_name int ∷ column 85 col_id_name int ∷ column 90 current_name int ∷ [];
  };
}

-- The table of `init_indexes_table`.
abbrev pub idx_table : Table
idx_table = record {
  id = pos 4;
  name = indexes_name;
  schema = record {
    columns =
        column 100 id_name int
        ∷ column 110 t_id_name int
        ∷ column 120 col_ids_name (varchar 512)
        ∷ [];
  };
}

module _ {S I : Type 0} (st : Store S) (index : Index I) (order : Order) (layout : PageDataLayout)
    (create_file : S → PageStorage → Outcome StoreError S) where
  -- `access.insert` of rows, one after the other.
  unfoldable pub insert_all : TableAccess → State S I → List Row → Outcome DatabaseError (State S I)
  insert_all t s [] = ok s
  insert_all t s (row ∷ rows) = do
    s' ← map_err table_access (Changes.insert st index order t s row)
    insert_all t s' rows

  -- The two files of a table.
  unfoldable pub create_files : S → Table → Outcome DatabaseError S
  create_files s table = do
    s1 ← map_err store (create_file s (table_file table.id))
    map_err store (create_file s1 (fsm_file table.id))

  -- A table of the catalog with its first rows.
  unfoldable pub init_with_rows : Table → List Row → S → Outcome DatabaseError S
  init_with_rows table first_rows s = do
    s1 ← create_files s table
    s2 ←
        insert_all (new_access st index order layout table) (unindexed st index order layout s1)
          first_rows
    ok s2.store_state

  -- `Database::init_table_table`
  abbrev pub init_table_table : S → Outcome DatabaseError S
  init_table_table = init_with_rows table_instance table_rows

  -- `Database::init_column_table`
  abbrev pub init_column_table : S → Outcome DatabaseError S
  init_column_table = init_with_rows col_table_instance column_rows

  -- `Database::init_sequences_table`
  abbrev pub init_sequences_table : S → Outcome DatabaseError S
  init_sequences_table = init_with_rows seq_table sequence_rows

  -- `Database::init_indexes_table`
  abbrev pub init_indexes_table : S → Outcome DatabaseError S
  init_indexes_table s = create_files s idx_table

  -- `Database::init`
  unfoldable pub init : S → Outcome DatabaseError S
  init s = do
    s1 ← init_table_table s
    s2 ← init_column_table s1
    s3 ← init_sequences_table s2
    init_indexes_table s3
