-- ===== src/Database.antt =====
-- src/database: queries and changes of tables, over a page store, the free space map and the indexes.
-- This module has the errors, and what tables use of an index.
pub mod Query
pub mod TableAccess
pub mod SeqAccess
pub mod Catalog
mod Tests
mod InsertTests
mod CatalogTests
use fiddlers_db.Prelude.{ℕ, Option, List, [], ◌∷◌, ◌++◌, some, none}
use fiddlers_db.Prelude.Int.{ℤ}
use fiddlers_db.Prelude.Outcome.{Outcome, ok, ◌>>=◌, map_err}
use fiddlers_db.Page.{PageError}
use fiddlers_db.Schema.Row.{RowDeserializationError}
use fiddlers_db.Store.{StoreError}
use fiddlers_db.FreeSpace.Fsm.{FsmError}
use fiddlers_db.Tree.MetaData.{BTreeStoreError}
use fiddlers_db.Tree.Pager.{Cache, PagerState}
use fiddlers_db.Tree.BTree

-- `enum TableAccessError`, without the texts.
pub data TableAccessError : Type 0 where
  insert_row_error : TableAccessError
  load_rows_error : TableAccessError
  update_rows_error : TableAccessError
  delete_rows_error : TableAccessError
  store : StoreError → TableAccessError
  fsm : FsmError → TableAccessError
  row_deserialization : RowDeserializationError → TableAccessError
  btree : BTreeStoreError → TableAccessError
  page : PageError → TableAccessError

-- What a table uses of a `BTreeStore` of state `I`. Nothing is said of the state after an error.
pub record Index (I : Type 0) : Type 0 where
  pub find : I → ℤ → Outcome BTreeStoreError (Option (ℤ × ℤ) × I)
  pub insert : I → ℤ → ℤ × ℤ → Outcome BTreeStoreError I
  pub delete : I → ℤ → Outcome BTreeStoreError (Option (ℤ × ℤ) × I)

-- The error of a failure with a state.
abbrev pub error_of {ℓ κ} : {E : Type ℓ} {S : Type κ} → E × S → E
error_of (e, s) = e

-- The B+ trees as indexes, with the fuel that their operations take.
abbrev pub btree_index : {C : Type 0} → Cache C → ℕ → Index (PagerState C)
btree_index cached fuel = record {
  find = λ s key. map_err error_of (BTree.find cached fuel s key);
  insert = λ s key value. map_err error_of (BTree.insert cached fuel s key value);
  delete = λ s key. map_err error_of (BTree.delete cached fuel s key);
}

-- `struct UpdateIndexCommand`: the place of an index, an old value and a new one.
pub record UpdateIndexCommand : Type 0 where
  pub update_cells : List (ℕ × Option ℤ × Option ℤ)

-- `UpdateIndexCommand::new`
abbrev pub new_command : UpdateIndexCommand
new_command = record { update_cells = [] }

-- `UpdateIndexCommand::push_update`
abbrev pub push_update : UpdateIndexCommand → ℕ → ℤ → ℤ → UpdateIndexCommand
push_update c pointer old_value new_value = record {
  update_cells = c.update_cells ++ (pointer, some old_value, some new_value) ∷ [];
}

-- `UpdateIndexCommand::push_insert`
abbrev pub push_insert : UpdateIndexCommand → ℕ → ℤ → UpdateIndexCommand
push_insert c pointer value = record {
  update_cells = c.update_cells ++ (pointer, none, some value) ∷ [];
}

-- `UpdateIndexCommand::push_delete`
abbrev pub push_delete : UpdateIndexCommand → ℕ → ℤ → UpdateIndexCommand
push_delete c pointer value = record {
  update_cells = c.update_cells ++ (pointer, some value, none) ∷ [];
}
