-- ===== src/Tree/Pager.antt =====
-- src/tree/store.rs: the pager, which keeps the nodes in one file, behind a cache. The cache is a
-- `TtlCache` of the crate ttl_cache, and a parameter.
pub mod Coherent
pub mod Reuse
use fiddlers_db.Prelude.{ℕ, ◌+◌, ◌-◌, ◌*◌, ◌^◌, Bool, true, false, not, Option, none, some, List}
use fiddlers_db.Prelude.{ltb, if◌then◌else◌}
use fiddlers_db.Prelude.Int.{ℤ, pos, i32_min, ltb_ℤ, ◌==ℤ◌, i32_as_usize}
use fiddlers_db.Prelude.Outcome.{Outcome, ok, err, panic, ◌>>=◌, ◌>>◌, ok_or, map_err, ensure}
use fiddlers_db.Store.FileStore.{read_at, write_at}
use fiddlers_db.Tree.{
  NodePage, NodePager, NodePagerError, io, invalid_node_page, corrupted_page, invalid_page_id,
  new_node, delete_node, reallocate,
}
use fiddlers_db.Tree.Codec.{meta_data_header_size, page_size, serialize_node, deserialize_node}
use fiddlers_db.Tree.MetaData.{StoreMetaData, inc_number_of_pages, set_first_deleted_page}

-- What the pager uses of the cache. Reading may drop entries whose time is over.
pub record Cache (C : Type 0) : Type 0 where
  pub new_cache : C
  pub get : C → ℤ → Option NodePage × C
  pub insert : C → ℤ → NodePage → C

-- The state of a pager: the bytes of its file, the cache, the metadata.
pub record PagerState (C : Type 0) : Type 0 where
  pub file : List ℕ
  pub cache : C
  pub meta_data : StoreMetaData

-- `NodePager::page_offset`. The page size is below 2 ^ 18 and the identifier below 2 ^ 31.
unfoldable pub page_offset : ℕ → ℤ → Outcome NodePagerError ℕ
page_offset max_degree page_id = do
  ensure (not (ltb_ℤ page_id (pos 0))) invalid_page_id
  size ← page_size max_degree
  ok (meta_data_header_size + size * i32_as_usize page_id)

-- An error of a state that is left as it is.
abbrev pub failed_in {ℓ κ} : {E : Type ℓ} {S : Type κ} → S → E → E × S
failed_in s e = (e, s)

module _ {C : Type 0} (cached : Cache C) where
  abbrev pub State : Type 0
  State = PagerState C

  abbrev pub with_meta_data : State → StoreMetaData → State
  with_meta_data s m = record s { meta_data = m }

  -- `NodePager::write_page`, of a node that is changed.
  unfoldable pub write_changed : State → NodePage → Outcome NodePagerError State
  write_changed s node = do
    ensure (not (node.id ==ℤ i32_min)) invalid_node_page
    ensure (not node.deleted) invalid_node_page
    bytes ← serialize_node s.meta_data.max_degree node
    offset ← page_offset s.meta_data.max_degree node.id
    ok (record s {
      file = write_at s.file offset bytes;
      cache = cached.insert s.cache node.id (record node { changed = false });
    })

  -- `NodePager::write_page`
  abbrev pub write_page : State → NodePage → Outcome (NodePagerError × State) State
  write_page s node = if node.changed then map_err (failed_in s) (write_changed s node) else ok s

  -- The part of `NodePager::read_page` that reads the file.
  unfoldable pub read_file : ℕ → List ℕ → ℤ → Outcome NodePagerError NodePage
  read_file max_degree file page_id = do
    size ← page_size max_degree
    offset ← page_offset max_degree page_id
    bytes ← ok_or io (read_at file offset size)
    deserialize_node bytes max_degree

  -- What `NodePager::read_page` does with the answer of the cache.
  abbrev pub or_read_file :
      State → ℤ → Option NodePage → Outcome (NodePagerError × State) (NodePage × State)
  or_read_file s page_id (some node) = ok (node, s)
  or_read_file s page_id none =
      map_err (failed_in s) (read_file s.meta_data.max_degree s.file page_id) >>= λ node.
      ok (node, s)

  -- `NodePager::read_page`
  unfoldable pub read_page : State → ℤ → Outcome (NodePagerError × State) (NodePage × State)
  read_page s page_id =
      let (answer, cache) = cached.get s.cache page_id in
      or_read_file (record s { cache = cache }) page_id answer

  -- `NodePager::delete_page`. The deleted node is a copy, and is not written.
  unfoldable pub delete_page : State → ℤ → Outcome (NodePagerError × State) State
  delete_page s page_id = do
    map_err (failed_in s) (ensure (not (page_id ==ℤ i32_min)) invalid_page_id)
    let first_deleted_page = s.meta_data.first_deleted_page
    (node, s1) ← read_page s page_id
    let node' = delete_node node first_deleted_page
    ok (with_meta_data s1 (set_first_deleted_page s1.meta_data (some node'.id)))

  -- The part of `NodePager::allocate_new_page` that uses a deleted page again.
  unfoldable pub allocate_deleted :
      Outcome (NodePagerError × State) (NodePage × State)
      → Outcome (NodePagerError × State) (NodePage × State)
  allocate_deleted (err (e, s1)) = err (corrupted_page, s1)
  allocate_deleted panic = panic
  allocate_deleted (ok (allocated, s1)) = do
    let s2 = with_meta_data s1 (set_first_deleted_page s1.meta_data allocated.next_deleted_page)
    let allocated' = reallocate allocated
    s3 ← write_page s2 allocated'
    ok (record allocated' { changed = false }, s3)

  -- The part that adds a page to the file.
  unfoldable pub allocate_next : State → Outcome (NodePagerError × State) (NodePage × State)
  allocate_next s = do
    m ← inc_number_of_pages s.meta_data
    let s1 = with_meta_data s m
    let next_id = m.number_of_pages - 1
    map_err (failed_in s1) (ensure (ltb next_id (2 ^ 31)) invalid_page_id)
    node ← new_node m.max_degree (pos next_id)
    s2 ← write_page s1 node
    ok (record node { changed = true }, s2)

  -- `NodePager::allocate_new_page`
  unfoldable pub allocate_new_page : State → Outcome (NodePagerError × State) (NodePage × State)
  allocate_new_page s = elim s.meta_data.first_deleted_page [
    | some first_deleted ↦ allocate_deleted (read_page s first_deleted)
    | none ↦ allocate_next s
  ]

  -- The pager as the nodes use it.
  abbrev pub node_pager : NodePager State
  node_pager = record {
    read_page = read_page;
    write_page = write_page;
    allocate_new_page = allocate_new_page;
    delete_page = delete_page;
  }
