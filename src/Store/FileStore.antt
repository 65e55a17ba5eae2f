-- ===== src/Store/FileStore.antt =====
-- src/store/file_store.rs: pages in files. A file is its bytes; the files of the base path are a
-- function from storages, with `none` where there is no file.
use fiddlers_db.Prelude.{
  ℕ, zero, suc, ◌+◌, ◌-◌, ◌*◌, ◌^◌, Option, none, some, List, [], ◌∷◌, ◌++◌, length, take, drop,
  replicate,
}
use fiddlers_db.Prelude.{leb, ltb, if◌then◌else◌}
use fiddlers_db.Prelude.Int.{ℤ, pos, pos_part, ltb_ℤ, i32_pred, i32_as_usize}
use fiddlers_db.Prelude.Outcome.{
  Outcome, ok, err, ◌>>=◌, ◌>>◌, or_panic, ok_or, map_err, ensure, assert,
}
use fiddlers_db.Page.{Page, new_page, set_page_id}
use fiddlers_db.Page.Codec.{serialize, deserialize}
use fiddlers_db.Page.Layout.{PageDataLayout, meta_data_size}
use fiddlers_db.Page.Metadata.{
  PageFileMetadata, new_metadata, serialize_metadata, deserialize_metadata, allocate_next_page_id,
}
use fiddlers_db.Store.{
  PageStorage, same_path, StoreError, io, page, metadata, invalid_base_path, invalid_state, Store,
}

abbrev pub Files : Type 0
Files = PageStorage → Option (List ℕ)

-- The files with another content of one of them.
unfoldable pub set_file : Files → PageStorage → Option (List ℕ) → Files
set_file files storage content other = if same_path storage other then content else files other

-- `seek` and `write_all`: a gap before the offset is filled with zeros.
unfoldable pub write_at : List ℕ → ℕ → List ℕ → List ℕ
write_at content offset bytes =
    take offset (content ++ replicate (offset - length content) 0)
    ++ (bytes ++ drop (offset + length bytes) content)

-- `seek` and `read_exact`: an error if the file ends too early.
unfoldable pub read_at : List ℕ → ℕ → ℕ → Option (List ℕ)
read_at content offset len =
    if leb (offset + len) (length content) then some (take len (drop offset content)) else none

-- The offset of the page `page_id` in its file, with overflow checks.
unfoldable pub page_position {ℓ} : {E : Type ℓ} → PageDataLayout → ℤ → Outcome E ℕ
page_position layout page_id = do
  page_pos ← or_panic (i32_pred page_id)
  let offset = meta_data_size + i32_as_usize page_pos * layout.page_size
  assert (ltb offset (2 ^ 64))
  ok offset

-- `FileStore::write_metadata`
unfoldable pub write_metadata : Files → PageStorage → PageFileMetadata → Outcome StoreError Files
write_metadata files storage m = do
  content ← ok_or io (files storage)
  bytes ← map_err metadata (serialize_metadata m)
  ok (set_file files storage (some (write_at content 0 bytes)))

-- `FileStore::init`
abbrev pub init : Files → PageStorage → Outcome StoreError Files
init files storage = write_metadata files storage new_metadata

-- `FileStore::create`
unfoldable pub create : Files → PageStorage → Outcome StoreError Files
create files storage = elim (files storage) [
  | some _ ↦ err invalid_state
  | none ↦ init (set_file files storage (some [])) storage
]

-- `FileStore::delete` and `delete_file`
unfoldable pub delete : Files → PageStorage → Outcome StoreError Files
delete files storage = do content ← ok_or io (files storage); ok (set_file files storage none)

-- `FileStore::read_metadata`
unfoldable pub read_metadata : Files → PageStorage → Outcome StoreError PageFileMetadata
read_metadata files storage = do
  content ← ok_or invalid_state (files storage)
  ensure (leb meta_data_size (length content)) invalid_base_path
  buf ← ok_or io (read_at content 0 meta_data_size)
  map_err metadata (deserialize_metadata buf)

-- `FileStore::read_page`
unfoldable pub read_page : Files → PageDataLayout → ℤ → PageStorage → Outcome StoreError Page
read_page files layout page_id storage = do
  ensure (ltb_ℤ (pos 0) page_id) invalid_state
  content ← ok_or io (files storage)
  offset ← page_position layout page_id
  page_data ← ok_or io (read_at content offset layout.page_size)
  map_err page (deserialize page_data layout)

-- `FileStore::write_page`
unfoldable pub write_page : Files → PageDataLayout → Page → PageStorage → Outcome StoreError Files
write_page files layout p storage = do
  bytes ← map_err page (serialize p)
  content ← ok_or io (files storage)
  offset ← page_position layout p.page_id
  ok (set_file files storage (some (write_at content offset bytes)))

-- `FileStore::allocate_page`
unfoldable pub allocate_page :
    Files → PageDataLayout → PageStorage → Outcome StoreError (Page × Files)
allocate_page files layout storage = do
  m ← read_metadata files storage
  (page_id, m') ← allocate_next_page_id m
  let p = set_page_id (new_page layout) page_id
  files1 ← write_metadata files storage m'
  files2 ← write_page files1 layout p storage
  ok (p, files2)

-- What `FilePageIterator::next` returns, page by page. The reader goes on where the page before
-- ended.
unfoldable pub read_pages : PageDataLayout → List ℕ → ℕ → ℕ → List (Outcome StoreError Page)
read_pages layout content zero offset = []
read_pages layout content (suc count) offset =
    (ok_or io (read_at content offset layout.page_size) >>= λ buf.
    map_err page (deserialize buf layout))
    ∷ read_pages layout content count (offset + layout.page_size)

-- `FileStore::seq_page_iterator`
unfoldable pub seq_page_iterator :
    Files → PageDataLayout → PageStorage → Outcome StoreError (List (Outcome StoreError Page))
seq_page_iterator files layout storage = do
  content ← ok_or io (files storage)
  m ← read_metadata files storage
  ok (read_pages layout content (pos_part m.number_of_pages) meta_data_size)

-- The store over files, as a `Store`.
abbrev pub file_store : Store Files
file_store = record {
  read_metadata = λ files layout storage. read_metadata files storage;
  read_page = read_page;
  write_page = write_page;
  allocate_page = allocate_page;
  seq_page_iterator = seq_page_iterator;
}
