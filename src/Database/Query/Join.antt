-- ===== src/Database/Query/Join.antt =====
-- src/database/table_access.rs: a hash join finds the rows that a nested loop finds.
use fiddlers_db.Prelude.{
  ℕ, ◌<◌, ◌≡◌, refl, sym, ap, ◌∙◌, arith, Bool, true, false, Option, none, some, List, [], ◌∷◌,
  ◌++◌, append-nil, append_assoc, map, All, length, get_elem?, get_elem?_of_lt, ◌==◌, ◌&&◌,
  if◌then◌else◌, Bool-cases, inl, inr, ==_iff,
}
use fiddlers_db.Prelude.Int.{eq_of_==ℤ}
use fiddlers_db.Prelude.Outcome.{Outcome, ok, err, panic}
use fiddlers_db.Prelude.HashMap.{
  push_entry, get_entry, pushed, IsEquality, pushed-push_entry_self, pushed-push_entry_ne,
}
use fiddlers_db.Page.Iterator.{Record}
use fiddlers_db.Schema.{TableSchema, text_eq, new_schema, column_type_eq, raw_type, Column}
use fiddlers_db.Schema.Row.{Cell, int_cell, varchar_cell, byte_cell, Row, cell_eq}
use fiddlers_db.Database.{TableAccessError}
use fiddlers_db.Database.Query.{
  QueryResult, Trim, rows, find_column_for_query, hash_rows, join_rows, joined, join_key_rows,
  join_item, join_items, hash_join,
}

and_true : (a b : Bool) → (a && b) ≡ true → (a ≡ true) × (b ≡ true)
and_true true b h = (refl, h)
and_true false b h = cc

text_eq_refl : (a : List ℕ) → text_eq a a ≡ true
text_eq_refl [] = refl
text_eq_refl (x ∷ xs) = rw ((==_iff x x).1 refl) (text_eq_refl xs)

text_eq_path : (a b : List ℕ) → text_eq a b ≡ true → a ≡ b
text_eq_path [] [] h = refl
text_eq_path [] (y ∷ ys) h = cc
text_eq_path (x ∷ xs) [] h = cc
text_eq_path (x ∷ xs) (y ∷ ys) h =
    let (first, rest) = and_true (x == y) (text_eq xs ys) h in
    ap (λ (z : ℕ). z ∷ xs) ((==_iff x y).0 first) ∙ ap (λ l. y ∷ l) (text_eq_path xs ys rest)

cell_eq_refl : (a : Cell) → cell_eq a a ≡ true
cell_eq_refl (int_cell z) = ground arith
cell_eq_refl (varchar_cell s) = text_eq_refl s
cell_eq_refl (byte_cell b) = (==_iff b b).1 refl

cell_eq_path : (a b : Cell) → cell_eq a b ≡ true → a ≡ b
cell_eq_path (int_cell a) (int_cell b) h = ap int_cell (eq_of_==ℤ a b h)
cell_eq_path (varchar_cell a) (varchar_cell b) h = ap varchar_cell (text_eq_path a b h)
cell_eq_path (byte_cell a) (byte_cell b) h = ap byte_cell ((==_iff a b).0 h)
cell_eq_path (int_cell a) (varchar_cell b) h = cc
cell_eq_path (int_cell a) (byte_cell b) h = cc
cell_eq_path (varchar_cell a) (int_cell b) h = cc
cell_eq_path (varchar_cell a) (byte_cell b) h = cc
cell_eq_path (byte_cell a) (int_cell b) h = cc
cell_eq_path (byte_cell a) (varchar_cell b) h = cc

pub cell_eq-IsEquality : IsEquality cell_eq
cell_eq-IsEquality = record { eq_refl = cell_eq_refl; to_path = cell_eq_path }

-- The rows whose cell at a column is the key, in their order.
abbrev pub has_key : ℕ → Cell → Row → List Row → List Row
has_key col_index key row rest = elim (get_elem? row.cells col_index) [
  | none ↦ rest
  | some cell ↦ if cell_eq cell key then row ∷ rest else rest
]

abbrev pub matches : ℕ → Cell → List (Record × Row) → List Row
matches col_index key [] = []
matches col_index key ((r, row) ∷ items) = has_key col_index key row (matches col_index key items)

-- The nested loop: every row of the outer query with every row of the inner one that has its key.
abbrev pub nested_row :
    ℕ → List (Record × Row) → Row → Option Cell → List (Outcome TableAccessError Row)
nested_row that_col_index inner_rows row none = panic ∷ []
nested_row that_col_index inner_rows row (some key) =
    map (λ inner_row. ok (join_rows row inner_row)) (matches that_col_index key inner_rows)

abbrev pub nested_item :
    ℕ
    → ℕ
    → List (Record × Row)
    → Outcome TableAccessError (Record × Row)
    → List (Outcome TableAccessError Row)
nested_item this_col_index that_col_index inner_rows (ok (r, row)) =
    nested_row that_col_index inner_rows row (get_elem? row.cells this_col_index)
nested_item this_col_index that_col_index inner_rows (err e) = err e ∷ []
nested_item this_col_index that_col_index inner_rows panic = panic ∷ []

abbrev pub nested_loop :
    ℕ
    → ℕ
    → List (Record × Row)
    → List (Outcome TableAccessError (Record × Row))
    → List (Outcome TableAccessError Row)
nested_loop this_col_index that_col_index inner_rows [] = []
nested_loop this_col_index that_col_index inner_rows (item ∷ items) =
    nested_item this_col_index that_col_index inner_rows item
    ++ nested_loop this_col_index that_col_index inner_rows items

pushed-get_entry :
    (row : Row) (key : Cell) (hashes : List (Cell × List Row))
    → joined row (get_entry cell_eq key hashes)
      ≡ map (λ inner_row. ok (join_rows row inner_row)) (pushed cell_eq key hashes)
pushed-get_entry row key [] = refl
pushed-get_entry row key ((k, rows) ∷ hashes) = elim (Bool-cases (cell_eq k key)) [
  | inl same ↦ rw (get_entry, pushed, same)
  | inr differ ↦ rw (get_entry, pushed, differ) (pushed-get_entry row key hashes)
]

has_key_hit :
    (that : ℕ) (key : Cell) (row : Row) (rest : List Row) (cell : Cell)
    → get_elem? row.cells that ≡ some cell
    → cell_eq cell key ≡ true
    → has_key that key row rest ≡ row ∷ rest
has_key_hit that key row rest cell at same = rw (has_key, at, same)

has_key_miss :
    (that : ℕ) (key : Cell) (row : Row) (rest : List Row) (cell : Cell)
    → get_elem? row.cells that ≡ some cell
    → cell_eq cell key ≡ false
    → has_key that key row rest ≡ rest
has_key_miss that key row rest cell at differ = rw (has_key, at, differ)

-- The hash map has under a key the rows with that key.
hash_rows-matches :
    (that : ℕ) (items : List (Record × Row)) (hashes : List (Cell × List Row))
    → All (λ item. that < length item.1.cells) items
    → (out : List (Cell × List Row)) × (hash_rows that items hashes ≡ ok out)
      × ((key : Cell)
          → pushed cell_eq key out ≡ pushed cell_eq key hashes ++ matches that key items)
unfolding hash_rows
hash_rows-matches that [] hashes all =
    (hashes, refl, λ key. sym (append-nil (pushed cell_eq key hashes)))
hash_rows-matches that ((r, row) ∷ items) hashes (inside, all) =
    let (cell, at) = get_elem?_of_lt row.cells that inside in
    let (out, run, found) = hash_rows-matches that items (push_entry cell_eq cell row hashes) all in
    (out, rw (hash_rows, at) run, λ key. found key ∙ step cell at key)
  where
    step :
        (cell : Cell)
        → get_elem? row.cells that ≡ some cell
        → (key : Cell)
        → pushed cell_eq key (push_entry cell_eq cell row hashes) ++ matches that key items
          ≡ pushed cell_eq key hashes ++ matches that key ((r, row) ∷ items)
    step cell at key = elim (Bool-cases (cell_eq cell key)) [
      | inl same ↦
          let e : cell ≡ key = cell_eq_path cell key same in
          let pushed_here =
            ap (λ c. pushed cell_eq key (push_entry cell_eq c row hashes)) e
            ∙ pushed-push_entry_self cell_eq cell_eq-IsEquality key row hashes in
          ap (λ l. l ++ matches that key items) pushed_here
          ∙ append_assoc (pushed cell_eq key hashes) (row ∷ []) (matches that key items)
          ∙ ap (λ l. pushed cell_eq key hashes ++ l)
              (sym (has_key_hit that key row (matches that key items) cell at same))
      | inr differ ↦
          ap (λ l. l ++ matches that key items)
            (pushed-push_entry_ne cell_eq cell_eq-IsEquality cell key row hashes differ)
          ∙ ap (λ l. pushed cell_eq key hashes ++ l)
              (sym (has_key_miss that key row (matches that key items) cell at differ))
    ]

join_items-nested_loop :
    (this that : ℕ) (inner_rows : List (Record × Row)) (hashes : List (Cell × List Row))
    (items : List (Outcome TableAccessError (Record × Row)))
    → ((key : Cell) → pushed cell_eq key hashes ≡ matches that key inner_rows)
    → join_items this hashes items ≡ nested_loop this that inner_rows items
unfolding join_items
join_items-nested_loop this that inner_rows hashes [] found = refl
join_items-nested_loop this that inner_rows hashes (item ∷ items) found =
    ap (λ l. l ++ join_items this hashes items) (one item)
    ∙ ap (λ l. nested_item this that inner_rows item ++ l)
        (join_items-nested_loop this that inner_rows hashes items found)
  where
    at_key :
        (row : Row) (key : Option Cell)
        → join_key_rows row hashes key ≡ nested_row that inner_rows row key
    at_key row none = refl
    at_key row (some key) =
        pushed-get_entry row key hashes
        ∙ ap (map (λ inner_row. ok (join_rows row inner_row))) (found key)

    one :
        (i : Outcome TableAccessError (Record × Row))
        → join_item this hashes i ≡ nested_item this that inner_rows i
    one (ok (r, row)) = at_key row (get_elem? row.cells this)
    one (err e) = refl
    one panic = refl

-- Two queries whose join columns exist and have types of one kind, with inner rows that are all read
-- and all have the join column, are joined without an error. The result has the columns of both, and
-- its items are those of a nested loop: in the order of the outer query, each row with every inner
-- row whose cell is equal, in the order of the inner query; errors of the outer query stay in their
-- places.
pub hash_join-nested_loop :
    (trim : Trim) (this inner_query : QueryResult (Record × Row))
    (this_join_column that_join_column : List ℕ) (this_index that_index : ℕ)
    (this_col that_col : Column) (inner_rows : List (Record × Row)) (schema : TableSchema)
    → find_column_for_query trim inner_query.schema that_join_column ≡ ok that_index
    → find_column_for_query trim this.schema this_join_column ≡ ok this_index
    → get_elem? this.schema.columns this_index ≡ some this_col
    → get_elem? inner_query.schema.columns that_index ≡ some that_col
    → column_type_eq (raw_type this_col.col_type) (raw_type that_col.col_type) ≡ true
    → rows inner_query ≡ ok inner_rows
    → All (λ item. that_index < length item.1.cells) inner_rows
    → new_schema {E = TableAccessError} (this.schema.columns ++ inner_query.schema.columns)
      ≡ ok schema
    → hash_join trim this inner_query this_join_column that_join_column
      ≡ ok (record {
        row_iter = nested_loop this_index that_index inner_rows this.row_iter;
        schema = schema;
      })
unfolding hash_join
hash_join-nested_loop trim this inner_query this_join_column that_join_column this_index that_index
      this_col that_col inner_rows schema that_found this_found this_at that_at same_type read
      inside made =
    let (hashes, run, found) = hash_rows-matches that_index inner_rows [] inside in
    rw (
      hash_join,
      that_found,
      this_found,
      this_at,
      that_at,
      same_type,
      read,
      run,
      made,
      join_items-nested_loop this_index that_index inner_rows hashes this.row_iter found,
    )
