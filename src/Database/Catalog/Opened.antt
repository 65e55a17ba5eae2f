-- ===== src/Database/Catalog/Opened.antt =====
-- src/database/mod.rs: the access to a table with its indexes, as the catalog lists them.
use fiddlers_db.Prelude.{
  ℕ, zero, suc, ◌+◌, ◌-◌, ◌*◌, ◌^◌, true, false, Option, none, some, List, [], ◌∷◌, ltb, ◌==◌,
  get_elem?, if◌then◌else◌, ◌≡◌, refl, ap, inl, inr, Bool-cases,
}
use fiddlers_db.Prelude.Int.{ℤ, pos, negsuc, ◌==ℤ◌}
use fiddlers_db.Prelude.Outcome.{
  Outcome, ok, err, panic, ◌>>=◌, or_panic, ok_or, map_err, >>=_ext_of,
}
use fiddlers_db.Page.Iterator.{Record}
use fiddlers_db.Page.Layout.{PageDataLayout}
use fiddlers_db.Schema.{find_index_by_name}
use fiddlers_db.Schema.Row.{Row, int_cell}
use fiddlers_db.Store.{Store, StoreError}
use fiddlers_db.Database.{Index}
use fiddlers_db.Database.Query.{rows, Trim}
use fiddlers_db.Database.TableAccess.{TableAccess, State, Order}
use fiddlers_db.Database.TableAccess.Changes
use fiddlers_db.Database.Catalog.{
  DatabaseError, store, table_access, corrupted_database, Table, int_of, varchar_of, between,
  new_access, unindexed, read_table,
}
use fiddlers_db.Database.Catalog.Names.{
  sequences_name, indexes_name, id_name, t_id_name, col_ids_name,
}

-- A byte before the first part.
abbrev pub into_first : ℕ → List (List ℕ) → List (List ℕ)
into_first b [] = (b ∷ []) ∷ []
into_first b (part ∷ parts) = (b ∷ part) ∷ parts

-- `split(' ')`: the parts between spaces, at least one.
unfoldable pub split_spaces : List ℕ → List (List ℕ)
split_spaces [] = [] ∷ []
split_spaces (b ∷ bs) =
    let parts = split_spaces bs in if b == 32 then [] ∷ parts else into_first b parts

-- The number of decimal digits, after those that are read.
unfoldable pub read_digits : ℕ → List ℕ → Option ℕ
read_digits n [] = some n
read_digits n (b ∷ bs) =
    let rest = read_digits (n * 10 + (b - 48)) bs in if between 48 57 b then rest else none

abbrev pub positive_i32 : Option ℕ → Option ℤ
positive_i32 none = none
positive_i32 (some n) = if ltb n (2 ^ 31) then some (pos n) else none

abbrev pub negative_i32 : Option ℕ → Option ℤ
negative_i32 none = none
negative_i32 (some zero) = some (pos 0)
negative_i32 (some (suc n)) = if ltb n (2 ^ 31) then some (negsuc n) else none

-- `parse::<i32>` of a text after its sign: at least one digit.
abbrev pub unsigned : (Option ℕ → Option ℤ) → List ℕ → Option ℤ
unsigned to_i32 [] = none
unsigned to_i32 (b ∷ bs) = to_i32 (read_digits 0 (b ∷ bs))

-- `parse::<i32>`, of the bytes of `+`, `-` and digits.
unfoldable pub parse_i32 : List ℕ → Option ℤ
parse_i32 [] = none
parse_i32 (b ∷ bs) =
    if b == 43
    then unsigned positive_i32 bs
    else if b == 45
    then unsigned negative_i32 bs
    else unsigned positive_i32 (b ∷ bs)

-- The parsed parts, if all of them are numbers.
unfoldable pub parse_all : List (List ℕ) → Option (List ℤ)
parse_all [] = some []
parse_all (part ∷ parts) = elim (parse_i32 part) [
  | none ↦ none
  | some z ↦ elim (parse_all parts) [ none ↦ none | some zs ↦ some (z ∷ zs) ]
]

-- One index has one column.
abbrev pub only_column : List ℤ → Outcome DatabaseError ℤ
only_column [] = panic
only_column (z ∷ []) = ok z
only_column (a ∷ b ∷ zs) = err corrupted_database

module _ {S I : Type 0} (st : Store S) (index : Index I) (order : Order) (layout : PageDataLayout)
    (read_btree : S → ℤ → Outcome StoreError I) where
  -- An indexed column, from a row of `indexes`.
  unfoldable pub indexed_column : S → ℕ → ℕ → Row → Outcome DatabaseError (ℤ × I)
  indexed_column s id_idx col_ids_idx row = do
    btree_id ← or_panic (get_elem? row.cells id_idx) >>= int_of
    text ← or_panic (get_elem? row.cells col_ids_idx) >>= varchar_of
    col_ids ← ok_or corrupted_database (parse_all (split_spaces text))
    col_id ← only_column col_ids
    btree ← map_err store (read_btree s btree_id)
    ok (col_id, btree)

  -- The indexed columns, up to the first error.
  unfoldable pub indexed_columns :
      S → ℕ → ℕ → List (Record × Row) → Outcome DatabaseError (List (ℤ × I))
  indexed_columns s id_idx col_ids_idx [] = ok []
  indexed_columns s id_idx col_ids_idx ((r, row) ∷ items) = do
    c ← indexed_column s id_idx col_ids_idx row
    cs ← indexed_columns s id_idx col_ids_idx items
    ok (c ∷ cs)

  -- `Database::table_access` of a table with other identifiers than 4, once `indexes` is opened.
  unfoldable pub indexed_access :
      Trim → S → Table → TableAccess × State S I → Outcome DatabaseError (TableAccess × State S I)
  indexed_access trim s table (idx_acc, idx_state) = do
    (query, idx_state') ←
        map_err table_access
          (Changes.find st index order idx_acc trim idx_state t_id_name (int_cell table.id))
    id_idx ← ok_or corrupted_database (find_index_by_name query.schema id_name)
    col_ids_idx ← ok_or corrupted_database (find_index_by_name query.schema col_ids_name)
    items ← map_err table_access (rows query)
    columns ← indexed_columns s id_idx col_ids_idx items
    ok (
      new_access st index order layout table,
      record { store_state = s; indexed_columns = columns },
    )

  -- `Database::table_access`, which opens the table `indexes` on the way.
  unfoldable pub table_access_of :
      ℕ → Trim → S → Table → Outcome DatabaseError (TableAccess × State S I)
  table_access_of zero trim s table = panic
  table_access_of (suc n) trim s table = elim (table.id ==ℤ pos 4) [
    | true ↦ ok (new_access st index order layout table, unindexed st index order layout s)
    | false ↦ do
      indexes ← read_table st index order layout trim s indexes_name
      opened ← table_access_of n trim s indexes
      indexed_access trim s table opened
  ]

  -- `Database::seq_access_for_table`: the access to `sequences`, and the table it is for.
  unfoldable pub seq_access_for_table :
      Trim → S → Table → Outcome DatabaseError (TableAccess × Table)
  seq_access_for_table trim s table = do
    seq_table ← read_table st index order layout trim s sequences_name
    ok (new_access st index order layout seq_table, table)

  -- The access without a recursion: `indexes` itself is opened without indexes.
  abbrev pub direct_access : Trim → S → Table → Outcome DatabaseError (TableAccess × State S I)
  direct_access trim s table =
      let bare = ok (new_access st index order layout table, unindexed st index order layout s) in
      let indexed = do
        indexes ← read_table st index order layout trim s indexes_name
        indexed_access trim s table
            (new_access st index order layout indexes, unindexed st index order layout s)
      in if table.id ==ℤ pos 4 then bare else indexed

  -- Every access to the table with the identifier 4 has no index.
  table_access_of-indexes :
      (n : ℕ) (trim : Trim) (s : S) (table : Table)
      → table.id ≡ pos 4
      → table_access_of (suc n) trim s table
        ≡ ok (new_access st index order layout table, unindexed st index order layout s)
  unfolding table_access_of
  table_access_of-indexes n trim s table id =
      let same : (table.id ==ℤ pos 4) ≡ true = ap (λ (z : ℤ). z ==ℤ pos 4) id in
      rw (table_access_of, same) refl

  -- Where the catalog gives `indexes` the identifier 4, or cannot be read, the recursion of
  -- `table_access` ends within two units of fuel: with two or more of them, the access to a table is
  -- the one without a recursion. It opens the table with the identifier 4 without indexes, and every
  -- other one with the indexes found through an access to `indexes` that has none.
  pub table_access_of_enough :
      (n : ℕ) (trim : Trim) (s : S) (table : Table)
      → ((t : Table) → read_table st index order layout trim s indexes_name ≡ ok t → t.id ≡ pos 4)
      → table_access_of (suc (suc n)) trim s table ≡ direct_access trim s table
  unfolding table_access_of
  table_access_of_enough n trim s table four = elim (Bool-cases (table.id ==ℤ pos 4)) [
    | inl same ↦ rw (table_access_of, same) refl
    | inr differ ↦
        rw (table_access_of, differ)
          (>>=_ext_of (read_table st index order layout trim s indexes_name)
            (λ t read. rw (table_access_of-indexes n trim s t (four t read)) refl))
  ]
