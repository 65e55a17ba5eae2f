-- ===== src/Database/Catalog/Names.antt =====
-- src/database/mod.rs: the names of the tables of the catalog and of their columns, as bytes.
use fiddlers_db.Prelude.{ℕ, List, [], ◌∷◌}

-- "tables"
abbrev pub tables_name : List ℕ
tables_name = 116 ∷ 97 ∷ 98 ∷ 108 ∷ 101 ∷ 115 ∷ []

-- "columns"
abbrev pub columns_name : List ℕ
columns_name = 99 ∷ 111 ∷ 108 ∷ 117 ∷ 109 ∷ 110 ∷ 115 ∷ []

-- "sequences"
abbrev pub sequences_name : List ℕ
sequences_name = 115 ∷ 101 ∷ 113 ∷ 117 ∷ 101 ∷ 110 ∷ 99 ∷ 101 ∷ 115 ∷ []

-- "indexes"
abbrev pub indexes_name : List ℕ
indexes_name = 105 ∷ 110 ∷ 100 ∷ 101 ∷ 120 ∷ 101 ∷ 115 ∷ []

-- "id"
abbrev pub id_name : List ℕ
id_name = 105 ∷ 100 ∷ []

-- "name"
abbrev pub name_name : List ℕ
name_name = 110 ∷ 97 ∷ 109 ∷ 101 ∷ []

-- "t_id"
abbrev pub t_id_name : List ℕ
t_id_name = 116 ∷ 95 ∷ 105 ∷ 100 ∷ []

-- "type"
abbrev pub type_name : List ℕ
type_name = 116 ∷ 121 ∷ 112 ∷ 101 ∷ []

-- "length"
abbrev pub length_name : List ℕ
length_name = 108 ∷ 101 ∷ 110 ∷ 103 ∷ 116 ∷ 104 ∷ []

-- "col_ids"
abbrev pub col_ids_name : List ℕ
col_ids_name = 99 ∷ 111 ∷ 108 ∷ 95 ∷ 105 ∷ 100 ∷ 115 ∷ []
