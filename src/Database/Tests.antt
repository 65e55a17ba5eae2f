-- ===== src/Database/Tests.antt =====
-- A join of two tables of one column, the columns of a table, and uses of the theorems on them.
use fiddlers_db.Prelude.{ℕ, ◌≡◌, refl, arith, List, [], ◌∷◌, map}
use fiddlers_db.Prelude.Int.{pos}
use fiddlers_db.Prelude.Outcome.{Outcome, ok, err}
use fiddlers_db.Page.Iterator.{Record}
use fiddlers_db.Schema.{Column, TableSchema, int, varchar, new_schema, raw_type}
use fiddlers_db.Schema.Row.{Row, int_cell}
use fiddlers_db.Database.{TableAccessError, load_rows_error}
use fiddlers_db.Database.Query.{
  QueryResult, Trim, rows, collect, find_column_for_query, hash_join, hash_rows, join_items,
}
use fiddlers_db.Database.Catalog.{
  ColumnIndexes, column_indexes, col_table_instance, row_of_column, columns_of_rows,
}
use fiddlers_db.Database.Catalog.ColumnRows.{columns_of_rows-row_of_column}
use fiddlers_db.Database.Query.Join.{nested_loop, hash_join-nested_loop}

abbrev untrimmed : Trim
untrimmed name = name

-- The columns `a` and `b`.
abbrev column_a : Column
column_a = record { id = pos 1; name = 97 ∷ []; col_type = int }

abbrev column_b : Column
column_b = record { id = pos 1; name = 98 ∷ []; col_type = int }

abbrev row_of : ℕ → ℕ → Record × Row
row_of index n = (
  record {
    page_id = pos 1;
    record_index = index;
    contents = record { bytes = []; slice_from = 0; slice_to = 0 };
  },
  record { cells = int_cell (pos n) ∷ [] },
)

-- The outer query has an error between its rows.
abbrev outer : QueryResult (Record × Row)
outer = record {
  row_iter = ok (row_of 0 5) ∷ err load_rows_error ∷ ok (row_of 1 7) ∷ ok (row_of 2 9) ∷ [];
  schema = record { columns = column_a ∷ [] };
}

-- The rows of the inner query.
abbrev inner_rows : List (Record × Row)
inner_rows = row_of 0 7 ∷ row_of 1 5 ∷ row_of 2 7 ∷ []

abbrev inner : QueryResult (Record × Row)
inner = record {
  row_iter = ok (row_of 0 7) ∷ ok (row_of 1 5) ∷ ok (row_of 2 7) ∷ [];
  schema = record { columns = column_b ∷ [] };
}

abbrev both_columns : TableSchema
both_columns = record { columns = column_a ∷ column_b ∷ [] }

abbrev joined_row : ℕ → Outcome TableAccessError Row
joined_row n = ok (record { cells = int_cell (pos n) ∷ int_cell (pos n) ∷ [] })

hash_join_run :
    hash_join untrimmed outer inner (97 ∷ []) (98 ∷ [])
    ≡ ok (record {
      row_iter = joined_row 5 ∷ err load_rows_error ∷ joined_row 7 ∷ joined_row 7 ∷ [];
      schema = both_columns;
    })
unfolding hash_join hash_rows join_items find_column_for_query collect new_schema raw_type
hash_join_run = refl

column_b-found : find_column_for_query untrimmed inner.schema (98 ∷ []) ≡ ok 0
unfolding find_column_for_query
column_b-found = refl

column_a-found : find_column_for_query untrimmed outer.schema (97 ∷ []) ≡ ok 0
unfolding find_column_for_query
column_a-found = refl

rows-inner : rows inner ≡ ok inner_rows
unfolding collect
rows-inner = refl

new_schema-both_columns :
    new_schema {E = TableAccessError} (column_a ∷ column_b ∷ []) ≡ ok both_columns
unfolding new_schema
new_schema-both_columns = refl

hash_join-nested_loop_example :
    hash_join untrimmed outer inner (97 ∷ []) (98 ∷ [])
    ≡ ok (record { row_iter = nested_loop 0 0 inner_rows outer.row_iter; schema = both_columns })
unfolding raw_type
hash_join-nested_loop_example =
    hash_join-nested_loop untrimmed outer inner (97 ∷ []) (98 ∷ []) 0 0 column_a column_b inner_rows
      both_columns column_b-found column_a-found refl refl refl rows-inner
      (omega arith, (omega arith, (omega arith, tt))) new_schema-both_columns

-- An integer column and a text column.
abbrev two_columns : List (Record × Column)
two_columns =
    ((row_of 0 0).0, column_a)
    ∷ ((row_of 1 0).0, record { id = pos 2; name = 98 ∷ []; col_type = varchar 20 })
    ∷ []

columns_of_rows-row_of_column_example :
    (at : ColumnIndexes) × (column_indexes col_table_instance.schema ≡ ok at)
    × (columns_of_rows at (map (λ item. (item.0, row_of_column (pos 5) item.1)) two_columns)
        ≡ ok (map (λ item. item.1) two_columns))
columns_of_rows-row_of_column_example =
    columns_of_rows-row_of_column (pos 5) two_columns (tt, (omega arith, tt))
