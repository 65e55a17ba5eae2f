-- ===== src/Tree/MetaData.antt =====
-- src/tree/store.rs: the metadata of a B+ tree's file, and its header.
use fiddlers_db.Prelude.{ℕ, ◌+◌, ◌^◌, Bool, true, false, Option, List, replicate}
use fiddlers_db.Prelude.Int.{ℤ}
use fiddlers_db.Prelude.Bytes.{
  slice, copy_at, u16_to_be, u16_from_be, u32_to_be, u32_from_be, i32_to_be, i32_from_be,
}
use fiddlers_db.Prelude.Outcome.{Outcome, ok, ◌>>=◌, or_panic, ok_or, checked_add}
use fiddlers_db.Tree.{NodePagerError, NodeOperationError, read_i32_with_null}
use fiddlers_db.Tree.Codec.{or_null, meta_data_header_size}

-- `struct StoreMetaData`; the degree is a `u16`, the number of pages a `u32`.
pub record StoreMetaData : Type 0 where
  pub max_degree : ℕ
  pub number_of_pages : ℕ
  pub first_deleted_page : Option ℤ
  pub root : Option ℤ
  pub changed : Bool
  pub unique_index : Bool

-- `enum BTreeStoreError`
pub data BTreeStoreError : Type 0 where
  invalid_configuration : BTreeStoreError
  corrupted_metadata : BTreeStoreError
  node_pager : NodePagerError → BTreeStoreError
  node_operation : NodeOperationError → BTreeStoreError

-- `StoreMetaData::inc_number_of_pages`
abbrev pub inc_number_of_pages {ℓ} : {E : Type ℓ} → StoreMetaData → Outcome E StoreMetaData
inc_number_of_pages m = do
  number_of_pages ← checked_add (2 ^ 32) m.number_of_pages 1
  ok (record m { number_of_pages = number_of_pages; changed = true })

-- `StoreMetaData::set_first_deleted_page`
abbrev pub set_first_deleted_page : StoreMetaData → Option ℤ → StoreMetaData
set_first_deleted_page m page = record m { first_deleted_page = page; changed = true }

-- `meta_data_to_bytes`
unfoldable pub meta_data_to_bytes {ℓ} : {E : Type ℓ} → StoreMetaData → Outcome E (List ℕ)
meta_data_to_bytes m = do
  bytes1 ← or_panic (copy_at (replicate meta_data_header_size 0) 0 (u16_to_be m.max_degree))
  bytes2 ← or_panic (copy_at bytes1 2 (u32_to_be m.number_of_pages))
  bytes3 ← or_panic (copy_at bytes2 6 (i32_to_be (or_null m.first_deleted_page)))
  or_panic (copy_at bytes3 10 (i32_to_be (or_null m.root)))

-- `read_meta_u16`
unfoldable pub read_meta_u16 : List ℕ → ℕ → Outcome BTreeStoreError ℕ
read_meta_u16 metadata_bytes start = do
  bytes ← ok_or corrupted_metadata (slice metadata_bytes start (start + 2))
  ok_or corrupted_metadata (u16_from_be bytes)

-- `read_meta_u32`
unfoldable pub read_meta_u32 : List ℕ → ℕ → Outcome BTreeStoreError ℕ
read_meta_u32 metadata_bytes start = do
  bytes ← ok_or corrupted_metadata (slice metadata_bytes start (start + 4))
  ok_or corrupted_metadata (u32_from_be bytes)

-- `read_meta_i32`
unfoldable pub read_meta_i32 : List ℕ → ℕ → Outcome BTreeStoreError ℤ
read_meta_i32 metadata_bytes start = do
  bytes ← ok_or corrupted_metadata (slice metadata_bytes start (start + 4))
  ok_or corrupted_metadata (i32_from_be bytes)

-- The part of `BTreeStore::new` that reads the header.
unfoldable pub meta_data_from_bytes : List ℕ → Outcome BTreeStoreError StoreMetaData
meta_data_from_bytes metadata_bytes = do
  max_degree ← read_meta_u16 metadata_bytes 0
  number_of_pages ← read_meta_u32 metadata_bytes 2
  first_deleted_page ← read_meta_i32 metadata_bytes 6
  root ← read_meta_i32 metadata_bytes 10
  ok (record {
    max_degree = max_degree;
    number_of_pages = number_of_pages;
    first_deleted_page = read_i32_with_null first_deleted_page;
    root = read_i32_with_null root;
    changed = false;
    unique_index = true;
  })
