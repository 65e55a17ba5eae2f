-- ===== src/Store.antt =====
-- src/store: what a store of pages offers, and the store over files.
pub mod FileStore
pub mod Ranges
pub mod WriteRead
pub mod Allocate
pub mod Rows
mod Tests
use fiddlers_db.Prelude.{Bool, false, List}
use fiddlers_db.Prelude.Int.{ℤ, ◌==ℤ◌}
use fiddlers_db.Prelude.Outcome.{Outcome}
use fiddlers_db.Schema.Row.{RowDeserializationError}
use fiddlers_db.Page.{Page, PageError}
use fiddlers_db.Page.Layout.{PageDataLayout}
use fiddlers_db.Page.Metadata.{PageFileMetadata, ReadMetadataError}

-- `PageStorage`: the file that holds the pages. A table's is `table_<id>.dat`, that of its free
-- space map `fsm_<id>.dat`.
pub data PageStorage : Type 0 where
  table_file : ℤ → PageStorage
  fsm_file : ℤ → PageStorage

-- Whether two storages have the same path.
abbrev pub same_path : PageStorage → PageStorage → Bool
same_path (table_file a) (table_file b) = a ==ℤ b
same_path (fsm_file a) (fsm_file b) = a ==ℤ b
same_path _ _ = false

-- `enum StoreError`, of the operations that are modelled.
pub data StoreError : Type 0 where
  io : StoreError
  page : PageError → StoreError
  metadata : ReadMetadataError → StoreError
  invalid_base_path : StoreError
  row_deserialization : RowDeserializationError → StoreError
  invalid_state : StoreError

-- The page operations of the trait `Store`, over a state `S`. An operation that writes returns the
-- new state; nothing is said about the state after an error. The iterator over pages is the list of
-- what it returns while nothing is written.
pub record Store (S : Type 0) : Type 0 where
  pub read_metadata : S → PageDataLayout → PageStorage → Outcome StoreError PageFileMetadata
  pub read_page : S → PageDataLayout → ℤ → PageStorage → Outcome StoreError Page
  pub write_page : S → PageDataLayout → Page → PageStorage → Outcome StoreError S
  pub allocate_page : S → PageDataLayout → PageStorage → Outcome StoreError (Page × S)
  pub seq_page_iterator :
      S → PageDataLayout → PageStorage → Outcome StoreError (List (Outcome StoreError Page))
