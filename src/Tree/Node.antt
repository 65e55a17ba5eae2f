-- ===== src/Tree/Node.antt =====
-- src/tree/node.rs: inserting into a node and searching below it. The recursion goes down the tree
-- on fuel, so more fuel than the tree has levels is enough. A failed operation returns its error
-- with the node and the pager as it left them.
use fiddlers_db.Prelude.{
  ℕ, zero, suc, ◌+◌, ◌-◌, ◌/◌, Bool, true, false, not, Option, none, some, List, [], ◌∷◌, ◌++◌,
  length, get_elem?,
}
use fiddlers_db.Prelude.{◌==◌, if◌then◌else◌}
use fiddlers_db.Prelude.Int.{ℤ, ltb_ℤ, ◌==ℤ◌}
use fiddlers_db.Prelude.Outcome.{Outcome, ok, err, panic, ◌>>=◌, or_panic, map_err}
use fiddlers_db.Tree.{
  NodePage, NodePager, NodePagerError, NodeOperationError, try_insert_duplicate, corrupted_node,
  from_pager, is_leaf, is_full,
}
use fiddlers_db.Tree.Vec.{insert_at, remove_at, split_off}
use fiddlers_db.Tree.Search.{
  FindKeyResponse, greater_than_the_last, equal, less_than, binary_search,
}

-- `NodePage::find_key_index`
abbrev pub find_key_index {ℓ} : {E : Type ℓ} → NodePage → ℤ → Outcome E FindKeyResponse
find_key_index node key = binary_search key node.keys

-- A key and its value at an index, by `keys.insert` and `values.insert`.
abbrev pub insert_both {ℓ} : {E : Type ℓ} → NodePage → ℕ → ℤ → ℤ × ℤ → Outcome E NodePage
insert_both node i key v = do
  keys ← or_panic (insert_at node.keys i key)
  values ← or_panic (insert_at node.values i v)
  ok (record node { keys = keys; values = values; changed = true })

-- `NodePage::insert_key_value`, from the answer of the search.
abbrev pub insert_found :
    NodePage → ℤ → ℤ × ℤ → FindKeyResponse → Outcome NodeOperationError NodePage
insert_found node key v (less_than i) = insert_both node i key v
insert_found node key v (greater_than_the_last _) = ok (record node {
  keys = node.keys ++ (key ∷ []);
  values = node.values ++ (v ∷ []);
  changed = true;
})
insert_found node key v (equal _) = err try_insert_duplicate

-- `NodePage::insert_key_value`
unfoldable pub insert_key_value : NodePage → ℤ → ℤ × ℤ → Outcome NodeOperationError NodePage
insert_key_value node key v = find_key_index node key >>= insert_found node key v

-- `keys.iter().enumerate().find(|(_, k)| key < **k)`, or the default index.
unfoldable pub first_larger : ℤ → List ℤ → ℕ → ℕ → ℕ
first_larger key [] i default_index = default_index
first_larger key (k ∷ keys) i default_index =
    let rest = first_larger key keys (i + 1) default_index in if ltb_ℤ key k then i else rest

-- The index of the child for a key.
unfoldable pub child_index : NodePage → ℤ → ℕ
unfolding first_larger
child_index node key = first_larger key node.keys 0 (length node.children - 1)

-- The two halves of a node, and the key for the parent.
pub record Halves : Type 0 where
  pub left : NodePage
  pub right_keys : List ℤ
  pub right_children : List ℤ
  pub right_values : List (ℤ × ℤ)
  pub promoted_key : ℤ

-- The first part of `NodePage::split`. The promoted key of a leaf stays in the right node.
unfoldable pub halve {ℓ} : {E : Type ℓ} → NodePage → Outcome E Halves
halve node = do
  let middle = length node.keys / 2
  (left_keys, right_keys) ← or_panic (split_off node.keys middle)
  let inner = do
    (left_children, right_children) ← or_panic (split_off node.children (middle + 1))
    (promoted_key, others) ← or_panic (remove_at right_keys 0)
    ok (record {
      left = record node { keys = left_keys; children = left_children };
      right_keys = others;
      right_children = right_children;
      right_values = [];
      promoted_key = promoted_key;
    })
  let leaf = do
    (left_values, right_values) ← or_panic (split_off node.values middle)
    promoted_key ← or_panic (get_elem? right_keys 0)
    ok (record {
      left = record node { keys = left_keys; values = left_values };
      right_keys = right_keys;
      right_children = [];
      right_values = right_values;
      promoted_key = promoted_key;
    })
  if not (is_leaf node) then inner else leaf

-- The nodes that `NodePage::split` writes: the left one, and the one that was allocated, linked.
unfoldable pub link : Halves → NodePage → NodePage × NodePage
link halves allocated =
    let right = record allocated {
      values = halves.right_values;
      keys = halves.right_keys;
      children = halves.right_children;
      max_degree = halves.left.max_degree;
    } in
    if is_leaf halves.left
    then (
      record halves.left { next_leaf = some right.id; changed = true },
      record right { next_leaf = halves.left.next_leaf },
    )
    else (record halves.left { changed = true }, right)

-- The answers of the search that lead to a child: its index.
abbrev pub next_index : FindKeyResponse → ℕ
next_index (greater_than_the_last i) = i + 1
next_index (equal i) = i + 1
next_index (less_than i) = i

-- What `NodePage::find_node` answers on a leaf.
abbrev pub leaf_answer : NodePage → FindKeyResponse → Option ℤ
leaf_answer node (equal _) = some node.id
leaf_answer node _ = none

-- The loop of `NodePage::find_value`, over keys and values.
unfoldable pub value_of {ℓ} : {E : Type ℓ} → ℤ → List ℤ → List (ℤ × ℤ) → Option (Outcome E (ℤ × ℤ))
value_of key [] values = none
value_of key (k ∷ keys) [] = elim (k ==ℤ key) [ true ↦ some panic | false ↦ value_of key keys [] ]
value_of key (k ∷ keys) (v ∷ values) = elim (k ==ℤ key) [
  | true ↦ some (ok v)
  | false ↦ value_of key keys values
]

-- The operations on a pager. `Failure` is the error of one that changes no node.
module _ {S : Type 0} (pager : NodePager S) where
  abbrev pub Failure : Type 0
  Failure = NodeOperationError × S

  abbrev pub pager_failure : NodePagerError × S → Failure
  pager_failure (e, s) = (from_pager e, s)

  -- A page that is read, as an operation on nodes.
  abbrev pub read : S → ℤ → Outcome Failure (NodePage × S)
  read s page_id = map_err pager_failure (pager.read_page s page_id)

  -- A node that is written is not changed any more.
  abbrev pub write : S → NodePage → Outcome Failure (NodePage × S)
  write s node = map_err pager_failure (pager.write_page s node) >>= λ s'.
      ok (record node { changed = false }, s')

  -- `NodePage::split`: the left node, the right one, the promoted key.
  unfoldable pub split : S → NodePage → Outcome Failure (NodePage × NodePage × ℤ × S)
  split s node = do
    halves ← halve node
    (allocated, s1) ← map_err pager_failure (pager.allocate_new_page s)
    let (left, right) = link halves allocated
    (right', s2) ← write s1 right
    (left', s3) ← write s2 left
    ok (left', right', halves.promoted_key, s3)

  -- `NodePage::find_left_most_node`
  unfoldable pub find_left_most_node : ℕ → S → NodePage → Outcome Failure (Option ℤ × S)
  find_left_most_node zero s node = panic
  find_left_most_node (suc fuel) s node =
      let down = do
        page_id ← or_panic (get_elem? node.children 0)
        (child, s') ← read s page_id
        find_left_most_node fuel s' child
      in if is_leaf node then ok (some node.id, s) else down

  -- `NodePage::find_node`
  unfoldable pub find_node : ℕ → S → NodePage → ℤ → Outcome Failure (Option ℤ × S)
  find_node zero s node key = panic
  find_node (suc fuel) s node key = do
    response ← find_key_index node key
    let down = do
      page_id ← or_panic (get_elem? node.children (next_index response))
      (child, s') ← read s page_id
      find_node fuel s' child key
    if is_leaf node then ok (leaf_answer node response, s) else down

  -- `NodePage::find_value`
  unfoldable pub find_value : ℕ → S → NodePage → ℤ → Outcome Failure (Option (ℤ × ℤ) × S)
  find_value fuel s node key = do
    (found, s1) ← find_node fuel s node key
    elim found [
      | none ↦ ok (none, s1)
      | some page_id ↦ do
        (leaf, s2) ← read s1 page_id
        elim (value_of {E = Failure} key leaf.keys leaf.values) [
          | none ↦ err (corrupted_node, s2)
          | some v ↦ v >>= λ w. ok (some w, s2)
        ]
    ]

  -- The error of an operation that changes its node, with the node.
  abbrev pub NodeFailure : Type 0
  NodeFailure = NodeOperationError × NodePage × S

  abbrev pub failed_at : NodePage → Failure → NodeFailure
  failed_at node (e, s) = (e, node, s)

  -- The node after the split of its child, and the index of the child to insert into.
  abbrev pub add_child {ℓ} : {E : Type ℓ} → NodePage → ℕ → ℤ → ℤ → ℤ → Outcome E (NodePage × ℕ)
  add_child node index promoted_key right_id key =
      let append = ok (
        record node {
          keys = node.keys ++ (promoted_key ∷ []);
          children = node.children ++ (right_id ∷ []);
          changed = true;
        },
        (if ltb_ℤ promoted_key key then index + 1 else index),
      ) in
      let between = do
        keys ← or_panic (insert_at node.keys index promoted_key)
        children ← or_panic (insert_at node.children (index + 1) right_id)
        ok (
          record node { keys = keys; children = children; changed = true },
          (if not (ltb_ℤ key promoted_key) then index + 1 else index),
        )
      in if length node.keys == index then append else between

  -- Step 2 of `NodePage::insert`: the node, and the child to insert into.
  unfoldable pub make_room : S → NodePage → ℕ → ℤ → Outcome NodeFailure (NodePage × NodePage × S)
  make_room s node index key = do
    page_id ← or_panic (get_elem? node.children index)
    (child, s1) ← map_err (failed_at node) (read s page_id)
    let full = do
      (left, right, promoted_key, s2) ← map_err (failed_at node) (split s1 child)
      (node', index') ← add_child node index promoted_key right.id key
      page_id' ← or_panic (get_elem? node'.children index')
      (child', s3) ← map_err (failed_at node') (read s2 page_id')
      ok (node', child', s3)
    if is_full child then full else ok (node, child, s1)

  -- The child and the pager after an insertion whose result is ignored.
  abbrev pub ignore_result : Outcome NodeFailure (NodePage × S) → Outcome NodeFailure (NodePage × S)
  ignore_result (ok r) = ok r
  ignore_result (err (e, child, s)) = ok (child, s)
  ignore_result panic = panic

  -- `NodePage::insert`. The result of the insertion into the child is ignored, as the code does.
  unfoldable pub insert : ℕ → S → NodePage → ℤ → ℤ × ℤ → Bool → Outcome NodeFailure (NodePage × S)
  insert zero s node key v unique = panic
  insert (suc fuel) s node key v unique =
      let leaf =
        map_err (λ e. (e, node, s)) (insert_key_value node key v) >>= λ node'. ok (node', s) in
      let inner = do
        (node', child, s1) ← make_room s node (child_index node key) key
        (child', s2) ← ignore_result (insert fuel s1 child key v unique)
        (child'', s3) ← map_err (failed_at node') (write s2 child')
        ok (node', s3)
      in if not unique then panic else if is_leaf node then leaf else inner
