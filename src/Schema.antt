-- ===== src/Schema.antt =====
-- src/schema/mod.rs: column types, columns and table schemas. A Rust `String` is the list of its
-- UTF-8 bytes, and an `i32` an integer of the range `IsI32`.
pub mod Utf8
pub mod Row
pub mod Fits
pub mod RoundTrip
pub mod Reads
mod Tests
use Prim.Native.String.{String}
use fiddlers_db.Prelude.{ℕ, zero, suc, Bool, true, false, Option, none, some, List, [], ◌∷◌}
use fiddlers_db.Prelude.{◌&&◌, ◌==◌, if◌then◌else◌}
use fiddlers_db.Prelude.Int.{ℤ, ◌==ℤ◌}
use fiddlers_db.Prelude.Outcome.{Outcome, ok, panic}

-- `enum ColumnType`
pub data ColumnType : Type 0 where
  int : ColumnType
  varchar : ℕ → ColumnType
  byte : ColumnType

-- `struct ColumnInner`
pub record Column : Type 0 where
  pub id : ℤ
  pub name : List ℕ
  pub col_type : ColumnType

-- `struct TableSchemaInner`
pub record TableSchema : Type 0 where
  pub columns : List Column

-- Equality of two texts, byte by byte.
abbrev pub text_eq : List ℕ → List ℕ → Bool
text_eq [] [] = true
text_eq (x ∷ xs) (y ∷ ys) = (x == y) && text_eq xs ys
text_eq _ _ = false

-- The derived equality of `ColumnType`.
abbrev pub column_type_eq : ColumnType → ColumnType → Bool
column_type_eq int int = true
column_type_eq (varchar m) (varchar n) = m == n
column_type_eq byte byte = true
column_type_eq _ _ = false

-- `impl PartialEq for Column`
unfoldable pub column_eq : Column → Column → Bool
column_eq a b = (a.id ==ℤ b.id) && (text_eq a.name b.name && column_type_eq a.col_type b.col_type)

columns_eq : List Column → List Column → Bool
columns_eq [] [] = true
columns_eq (x ∷ xs) (y ∷ ys) = column_eq x y && columns_eq xs ys
columns_eq _ _ = false

-- `impl PartialEq for TableSchema`
unfoldable pub schema_eq : TableSchema → TableSchema → Bool
unfolding columns_eq column_eq
schema_eq a b = columns_eq a.columns b.columns

-- `TableSchema::new`
unfoldable pub new_schema {ℓ} : {E : Type ℓ} → List Column → Outcome E TableSchema
new_schema [] = panic
new_schema (c ∷ cs) = ok (record { columns = c ∷ cs })

-- `iter().position(test)`
abbrev pub position : (Column → Bool) → List Column → Option ℕ
position test [] = none
position test (c ∷ cs) =
    let later = position test cs in
    if test c then some zero else elim later [ none ↦ none | some i ↦ some (suc i) ]

-- `TableSchema::find_index_by_id`
unfoldable pub find_index_by_id : TableSchema → ℤ → Option ℕ
find_index_by_id schema column_id = position (λ c. c.id ==ℤ column_id) schema.columns

-- `TableSchema::find_index_by_name`
unfoldable pub find_index_by_name : TableSchema → List ℕ → Option ℕ
find_index_by_name schema column_name = position (λ c. text_eq c.name column_name) schema.columns

-- `impl Display for ColumnType`
abbrev pub column_type_text : ColumnType → String
column_type_text int = "Int"
column_type_text (varchar _) = "Varchar"
column_type_text byte = "Byte"

-- `ColumnType::is_var_size`
unfoldable pub is_var_size : ColumnType → Bool
is_var_size int = false
is_var_size (varchar _) = true
is_var_size byte = false

-- `ColumnType::raw_type`
unfoldable pub raw_type : ColumnType → ColumnType
raw_type int = int
raw_type (varchar _) = varchar 0
raw_type byte = byte
