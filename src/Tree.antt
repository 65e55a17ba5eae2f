-- ===== src/Tree.antt =====
-- src/tree: the B+ tree over pages of nodes. This module has the node, its errors, and what the
-- operations on nodes use of the pager.
pub mod Search
pub mod Found
pub mod Shape
pub mod Lookup
pub mod Vec
pub mod Node
pub mod Halving
pub mod Inserted
pub mod InsertKey
pub mod ChildIndex
pub mod Duplicates
pub mod Lending
pub mod Deletion
pub mod Codec
pub mod MetaData
pub mod Pager
pub mod BTree
mod Tests
mod LookupTests
mod StoreTests
mod ReuseTests
use fiddlers_db.Prelude.{
  ℕ, ◌-◌, ◌/◌, Bool, true, false, Option, none, some, List, [], length, leb, ltb,
}
use fiddlers_db.Prelude.Int.{ℤ, i32_min, ◌==ℤ◌}
use fiddlers_db.Prelude.Outcome.{Outcome, ok, panic}

-- `struct NodePage`. The flag `changed` is a part of the node: that a copy of a node shares it with
-- the node in the pager's cache is not modelled.
pub record NodePage : Type 0 where
  pub id : ℤ
  pub deleted : Bool
  pub next_deleted_page : Option ℤ
  pub keys : List ℤ
  pub children : List ℤ
  pub values : List (ℤ × ℤ)
  pub next_leaf : Option ℤ
  pub max_degree : ℕ
  pub changed : Bool

-- `enum NodePagerError`
pub data NodePagerError : Type 0 where
  io : NodePagerError
  invalid_node_page : NodePagerError
  corrupted_page : NodePagerError
  invalid_page_id : NodePagerError

-- `enum NodeOperationError`
pub data NodeOperationError : Type 0 where
  try_insert_duplicate : NodeOperationError
  page_io_error : NodeOperationError
  try_update_non_existing_key : NodeOperationError
  corrupted_node : NodeOperationError

-- `impl From<NodePagerError> for NodeOperationError`
abbrev pub from_pager : NodePagerError → NodeOperationError
from_pager _ = page_io_error

-- What the nodes use of a `NodePager` of state `S`: a failed operation ends in a state, too.
pub record NodePager (S : Type 0) : Type 0 where
  pub read_page : S → ℤ → Outcome (NodePagerError × S) (NodePage × S)
  pub write_page : S → NodePage → Outcome (NodePagerError × S) S
  pub allocate_new_page : S → Outcome (NodePagerError × S) (NodePage × S)
  pub delete_page : S → ℤ → Outcome (NodePagerError × S) S

-- `read_i32_with_null`
unfoldable pub read_i32_with_null : ℤ → Option ℤ
read_i32_with_null raw_value = elim (raw_value ==ℤ i32_min) [ true ↦ none | false ↦ some raw_value ]

-- `NodePage::delete_page`
unfoldable pub delete_node : NodePage → Option ℤ → NodePage
delete_node node next_deleted = record node {
  deleted = true;
  changed = true;
  keys = [];
  children = [];
  values = [];
  next_deleted_page = next_deleted;
}

-- `NodePage::reallocate`
unfoldable pub reallocate : NodePage → NodePage
reallocate node = record node {
  deleted = false;
  changed = true;
  keys = [];
  children = [];
  values = [];
  next_deleted_page = none;
}

-- `NodePage::new`
unfoldable pub new_node {ℓ} : {E : Type ℓ} → ℕ → ℤ → Outcome E NodePage
new_node max_degree id = elim (id ==ℤ i32_min) [
  | true ↦ panic
  | false ↦ ok (record {
    id = id;
    deleted = false;
    next_deleted_page = none;
    keys = [];
    children = [];
    values = [];
    next_leaf = none;
    max_degree = max_degree;
    changed = true;
  })
]

-- `NodePage::min_keys`; the store's degrees are at least 4.
abbrev pub min_keys : NodePage → ℕ
min_keys node = node.max_degree / 2 - 1

-- `NodePage::max_keys`
abbrev pub max_keys : NodePage → ℕ
max_keys node = node.max_degree - 1

-- `NodePage::is_leaf`
abbrev pub is_leaf : NodePage → Bool
is_leaf node = leb (length node.children) 0

-- `NodePage::is_full`
abbrev pub is_full : NodePage → Bool
is_full node = leb (max_keys node) (length node.keys)

-- `NodePage::can_lend_keys`
abbrev pub can_lend_keys : NodePage → Bool
can_lend_keys node = ltb (min_keys node) (length node.keys)

-- `NodePage::is_less_than_minimal`
abbrev pub is_less_than_minimal : NodePage → Bool
is_less_than_minimal node = ltb (length node.keys) (min_keys node)
