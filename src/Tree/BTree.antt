-- ===== src/Tree/BTree.antt =====
-- src/tree/store.rs: `BTreeStore`, the B+ tree in a file. The nodes' operations take fuel; more fuel
-- than the tree has levels is enough, and for the range queries more than it has leaves.
pub mod Found
pub mod Reopen
pub mod TooLarge
use fiddlers_db.Prelude.{
  ℕ, zero, suc, ◌+◌, ◌%◌, Bool, true, false, not, ◌&&◌, ◌||◌, Option, none, some, List, [], ◌∷◌,
  ◌++◌, length, get_elem?,
}
use fiddlers_db.Prelude.{ltb, leb, ◌==◌, if◌then◌else◌}
use fiddlers_db.Prelude.Int.{ℤ, ltb_ℤ, ◌==ℤ◌}
use fiddlers_db.Prelude.Outcome.{
  Outcome, ok, err, panic, ◌>>=◌, ◌>>◌, or_panic, ok_or, map_err, ensure, assert,
}
use fiddlers_db.Store.FileStore.{read_at, write_at}
use fiddlers_db.Tree.{NodePage, NodePagerError, NodeOperationError, io, is_full, is_leaf}
use fiddlers_db.Tree.Codec.{meta_data_header_size}
use fiddlers_db.Tree.MetaData.{
  StoreMetaData, BTreeStoreError, invalid_configuration, corrupted_metadata, node_pager,
  node_operation, meta_data_to_bytes, meta_data_from_bytes,
}
use fiddlers_db.Tree.Pager.{Cache, PagerState}
use fiddlers_db.Tree.Vec.{remove_at}
use fiddlers_db.Tree.Node
use fiddlers_db.Tree.Deletion
use fiddlers_db.Tree.Pager

-- The values of the keys that pass a test: a loop over the indices of the keys.
unfoldable pub values_where {ℓ} :
    {E : Type ℓ} → (ℤ → Bool) → List ℤ → List (ℤ × ℤ) → Outcome E (List (ℤ × ℤ))
values_where test [] values = ok []
values_where test (k ∷ keys) [] =
    let rest = values_where test keys [] in if test k then panic else rest
values_where {E} test (k ∷ keys) (v ∷ values) = do
  rest ← values_where {E = E} test keys values
  if test k then ok (v ∷ rest) else ok rest

-- The tests of the two range queries.
abbrev pub is_smaller : ℤ → Bool → ℤ → Bool
is_smaller key with_equal k = ltb_ℤ k key || (with_equal && k ==ℤ key)

abbrev pub is_greater : ℤ → Bool → ℤ → Bool
is_greater key with_equal k = ltb_ℤ key k || (with_equal && k ==ℤ key)

-- The metadata of a new file.
abbrev pub new_meta_data : ℕ → StoreMetaData
new_meta_data max_degree = record {
  max_degree = max_degree;
  number_of_pages = 0;
  first_deleted_page = none;
  root = none;
  changed = false;
  unique_index = true;
}

module _ {C : Type 0} (cached : Cache C) where
  abbrev pub State : Type 0
  State = PagerState C

  abbrev pub Failure : Type 0
  Failure = BTreeStoreError × State

  abbrev pub pager_failure : NodePagerError × State → Failure
  pager_failure (e, s) = (node_pager e, s)

  abbrev pub node_failure : NodeOperationError × State → Failure
  node_failure (e, s) = (node_operation e, s)

  abbrev pub change_failure : NodeOperationError × NodePage × State → Failure
  change_failure (e, node, s) = (node_operation e, s)

  -- A file that is not there, or has no header, is made anew.
  unfoldable pub open_new : ℕ → Outcome BTreeStoreError State
  open_new max_degree = do
    let m = new_meta_data max_degree
    bytes ← meta_data_to_bytes m
    ok (record { file = bytes; cache = cached.new_cache; meta_data = m })

  -- The header of a file that has one.
  unfoldable pub open_file : List ℕ → Outcome BTreeStoreError State
  open_file file = do
    bytes ← ok_or (node_pager io) (read_at file 0 meta_data_header_size)
    m ← meta_data_from_bytes bytes
    ok (record { file = file; cache = cached.new_cache; meta_data = m })

  abbrev pub open_or_create : ℕ → Option (List ℕ) → Outcome BTreeStoreError State
  open_or_create max_degree none = open_new max_degree
  open_or_create max_degree (some file) =
      if leb meta_data_header_size (length file) then open_file file else open_new max_degree

  -- `BTreeStore::new`, on the file at the path, if there is one.
  unfoldable pub new_store : Option (List ℕ) → ℕ → Outcome BTreeStoreError State
  new_store found max_degree = do
    ensure (not (ltb max_degree 4)) invalid_configuration
    ensure (max_degree % 2 == 0) invalid_configuration
    open_or_create max_degree found

  -- `BTreeStore::save_metadata`
  unfoldable pub save_metadata : State → Outcome Failure State
  save_metadata s =
      let save = do
        bytes ← meta_data_to_bytes s.meta_data
        ok (record s { file = write_at s.file 0 bytes })
      in if s.meta_data.changed then save else ok s

  abbrev pub set_root : State → ℤ → State
  set_root s id = record s { meta_data = record s.meta_data { root = some id } }

  abbrev pub read : State → ℤ → Outcome Failure (NodePage × State)
  read s id = map_err pager_failure (Pager.read_page cached s id)

  -- `BTreeStore::root`
  unfoldable pub root : State → Outcome Failure (NodePage × State)
  root s = elim s.meta_data.root [
    | some root_id ↦ read s root_id
    | none ↦ do
      (new_root, s1) ← map_err pager_failure (Pager.allocate_new_page cached s)
      s2 ← save_metadata (set_root s1 new_root.id)
      ok (new_root, s2)
  ]

  -- A page whose identifier was found.
  abbrev pub read_found : State → Option ℤ → Outcome Failure (Option NodePage × State)
  read_found s none = ok (none, s)
  read_found s (some page_id) = read s page_id >>= λ r. ok (some r.0, r.1)

  -- `BTreeStore::next_node`
  abbrev pub next_node : State → NodePage → Outcome Failure (Option NodePage × State)
  next_node s node = read_found s node.next_leaf

  -- `BTreeStore::find_left_most_node`
  unfoldable pub find_left_most_node : ℕ → State → Outcome Failure (Option NodePage × State)
  find_left_most_node fuel s = do
    (node, s1) ← root s
    (found, s2) ←
        map_err node_failure (Node.find_left_most_node (Pager.node_pager cached) fuel s1 node)
    read_found s2 found

  -- `BTreeStore::find_node`
  unfoldable pub find_node : ℕ → State → ℤ → Outcome Failure (Option NodePage × State)
  find_node fuel s key = do
    (node, s1) ← root s
    (found, s2) ← map_err node_failure (Node.find_node (Pager.node_pager cached) fuel s1 node key)
    read_found s2 found

  -- `BTreeStore::find`
  unfoldable pub find : ℕ → State → ℤ → Outcome Failure (Option (ℤ × ℤ) × State)
  find fuel s key = do
    (node, s1) ← root s
    map_err node_failure (Node.find_value (Pager.node_pager cached) fuel s1 node key)

  -- The loop of `BTreeStore::find_smaller_than`, over the leaves up to the target.
  unfoldable pub smaller_loop :
      ℕ
      → State
      → ℤ
      → Bool
      → ℤ
      → List (ℤ × ℤ)
      → Option NodePage
      → Outcome Failure (List (ℤ × ℤ) × State)
  smaller_loop zero s key with_equal target_id result current = panic
  smaller_loop (suc fuel) s key with_equal target_id result none = ok (result, s)
  smaller_loop (suc fuel) s key with_equal target_id result (some next) =
      let last = do
        values ← values_where (is_smaller key with_equal) next.keys next.values
        ok (result ++ values, s)
      in let go_on = do
        (node, s1) ← next_node s next
        smaller_loop fuel s1 key with_equal target_id (result ++ next.values) node
        in if target_id ==ℤ next.id then last else go_on

  -- `BTreeStore::find_smaller_than`
  unfoldable pub find_smaller_than : ℕ → State → ℤ → Bool → Outcome Failure (List (ℤ × ℤ) × State)
  find_smaller_than fuel s key with_equal = do
    (node, s1) ← find_left_most_node fuel s
    (target, s2) ← find_node fuel s1 key
    elim target [
      | none ↦ ok ([], s2)
      | some target_node ↦ smaller_loop fuel s2 key with_equal target_node.id [] node
    ]

  -- The loop of `BTreeStore::find_greater_than`.
  unfoldable pub greater_loop :
      ℕ
      → State
      → ℤ
      → Bool
      → Bool
      → List (ℤ × ℤ)
      → Option NodePage
      → Outcome Failure (List (ℤ × ℤ) × State)
  greater_loop zero s key with_equal start_node result current = panic
  greater_loop (suc fuel) s key with_equal start_node result none = ok (result, s)
  greater_loop (suc fuel) s key with_equal start_node result (some next) = do
    values ←
        (if start_node
          then values_where (is_greater key with_equal) next.keys next.values
          else ok next.values)
    (node, s1) ← next_node s next
    greater_loop fuel s1 key with_equal false (result ++ values) node

  -- `BTreeStore::find_greater_than`
  unfoldable pub find_greater_than : ℕ → State → ℤ → Bool → Outcome Failure (List (ℤ × ℤ) × State)
  find_greater_than fuel s key with_equal = do
    (node, s1) ← find_node fuel s key
    greater_loop fuel s1 key with_equal true [] node

  -- The part of `BTreeStore::insert` that splits a full root: the new root.
  unfoldable pub grow : State → NodePage → Outcome Failure (NodePage × State)
  grow s node = do
    (left, right, root_key, s1) ← map_err node_failure (Node.split (Pager.node_pager cached) s node)
    (new_root, s2) ← map_err pager_failure (Pager.allocate_new_page cached s1)
    ok (
      record new_root {
        keys = new_root.keys ++ (root_key ∷ []);
        children = new_root.children ++ (left.id ∷ right.id ∷ []);
        changed = true;
      },
      set_root s2 new_root.id,
    )

  -- `BTreeStore::insert`
  unfoldable pub insert : ℕ → State → ℤ → ℤ × ℤ → Outcome Failure State
  insert fuel s key value = do
    (node, s1) ← root s
    (node', s2) ← (if is_full node then grow s1 node else ok (node, s1))
    let unique = s2.meta_data.unique_index
    (node'', s3) ←
        map_err change_failure
          (Node.insert (Pager.node_pager cached) fuel s2 node' key value unique)
    s4 ← map_err pager_failure (Pager.write_page cached s3 node'')
    save_metadata s4

  -- The part of `BTreeStore::delete` that makes the only child of a root without keys the root.
  unfoldable pub shrink : State → NodePage → Outcome Failure (NodePage × State)
  shrink s node = do
    assert (length node.children == 1)
    (new_root, children) ← or_panic (remove_at node.children 0)
    s1 ← map_err pager_failure (Pager.delete_page cached s node.id)
    (node', s2) ← read s1 new_root
    ok (node', set_root s2 new_root)

  -- `BTreeStore::delete`
  unfoldable pub delete : ℕ → State → ℤ → Outcome Failure (Option (ℤ × ℤ) × State)
  delete fuel s key = do
    (node, s1) ← root s
    (value, node1, s2) ←
        map_err change_failure (Deletion.delete (Pager.node_pager cached) fuel s1 node key)
    (node2, s3) ←
        (if leb (length node1.keys) 0 && not (is_leaf node1)
          then shrink s2 node1
          else ok (node1, s2))
    s4 ← map_err pager_failure (Pager.write_page cached s3 node2)
    s5 ← save_metadata s4
    ok (value, s5)
