-- ===== src/Tree/Deletion.antt =====
-- src/tree/node.rs: `NodePage::delete`, which fills or merges the next node before it goes down.
use fiddlers_db.Prelude.{
  ℕ, zero, suc, ◌+◌, ◌-◌, Bool, true, Option, none, some, List, [], ◌∷◌, ◌++◌, length, get_elem?,
  set,
}
use fiddlers_db.Prelude.{ltb, if◌then◌else◌}
use fiddlers_db.Prelude.Int.{ℤ}
use fiddlers_db.Prelude.Outcome.{Outcome, ok, err, panic, ◌>>=◌, or_panic, ok_or, map_err}
use fiddlers_db.Tree.{
  NodePage, NodePager, NodeOperationError, corrupted_node, is_leaf, can_lend_keys,
  is_less_than_minimal,
}
use fiddlers_db.Tree.Vec.{remove_at, pop}
use fiddlers_db.Tree.Search.{FindKeyResponse, equal}
use fiddlers_db.Tree.Node.{
  find_key_index, child_index, NodeFailure, failed_at, pager_failure, read, write,
}

-- `vec[i] = v`
abbrev pub assign {ℓ} : {E : Type ℓ} → List ℤ → ℕ → ℤ → Outcome E (List ℤ)
assign keys i k = if ltb i (length keys) then ok (set keys i k) else panic

-- The parent, the node that the deletion goes on to, and the neighbour.
pub record Trio : Type 0 where
  pub parent : NodePage
  pub target : NodePage
  pub neighbour : NodePage

abbrev pub all_changed : NodePage → NodePage → NodePage → Trio
all_changed parent target neighbour = record {
  parent = record parent { changed = true };
  target = record target { changed = true };
  neighbour = record neighbour { changed = true };
}

-- The left neighbour lends its last entry to the target with index `i`.
unfoldable pub lend_left : NodePage → ℕ → NodePage → NodePage → Outcome NodeOperationError Trio
lend_left parent i target left =
    let leaf = do
      (k, left_keys) ← ok_or corrupted_node (pop left.keys)
      (v, left_values) ← ok_or corrupted_node (pop left.values)
      separators ← assign parent.keys (i - 1) k
      ok (
          all_changed (record parent { keys = separators })
            (record target { keys = k ∷ target.keys; values = v ∷ target.values })
            (record left { keys = left_keys; values = left_values }))
    in let inner = do
      (left_key, left_keys) ← ok_or corrupted_node (pop left.keys)
      (left_child, left_children) ← ok_or corrupted_node (pop left.children)
      parent_key ← or_panic (get_elem? parent.keys (i - 1))
      separators ← assign parent.keys (i - 1) left_key
      ok (
          all_changed (record parent { keys = separators })
            (record target {
              keys = parent_key ∷ target.keys;
              children = left_child ∷ target.children;
            })
            (record left { keys = left_keys; children = left_children }))
      in if is_leaf target then leaf else inner

-- The right neighbour lends its first entry to the target with index `i`.
unfoldable pub lend_right : NodePage → ℕ → NodePage → NodePage → Outcome NodeOperationError Trio
lend_right parent i target right =
    let leaf = do
      (k, right_keys) ← or_panic (remove_at right.keys 0)
      (v, right_values) ← or_panic (remove_at right.values 0)
      first ← or_panic (get_elem? right_keys 0)
      separators ← assign parent.keys i first
      ok (
          all_changed (record parent { keys = separators })
            (record target { keys = target.keys ++ (k ∷ []); values = target.values ++ (v ∷ []) })
            (record right { keys = right_keys; values = right_values }))
    in let inner = do
      (right_key, right_keys) ← or_panic (remove_at right.keys 0)
      (right_child, right_children) ← or_panic (remove_at right.children 0)
      parent_key ← or_panic (get_elem? parent.keys i)
      separators ← assign parent.keys i right_key
      ok (
          all_changed (record parent { keys = separators })
            (record target {
              keys = target.keys ++ (parent_key ∷ []);
              children = target.children ++ (right_child ∷ []);
            })
            (record right { keys = right_keys; children = right_children }))
      in if is_leaf target then leaf else inner

-- The entries of the right one of two neighbours go to the left one.
unfoldable pub merge_into : ℤ → NodePage → NodePage → NodePage
merge_into separator left right =
    if is_leaf left
    then record left {
      keys = left.keys ++ right.keys;
      values = left.values ++ right.values;
      next_leaf = right.next_leaf;
      changed = true;
    }
    else record left {
      keys = left.keys ++ (separator ∷ right.keys);
      children = left.children ++ right.children;
      changed = true;
    }

-- The parent without the child `i + 1` and the separator `i`, and that separator.
unfoldable pub drop_child {ℓ} : {E : Type ℓ} → NodePage → ℕ → Outcome E (ℤ × NodePage)
drop_child parent i = do
  (dropped, children) ← or_panic (remove_at parent.children (i + 1))
  (separator, keys) ← or_panic (remove_at parent.keys i)
  ok (separator, record parent { keys = keys; children = children; changed = true })

-- A leaf without a key, and the value that it had.
abbrev pub remove_found {ℓ} :
    {E : Type ℓ} → NodePage → FindKeyResponse → Outcome E (Option (ℤ × ℤ) × NodePage)
remove_found node (equal pos) = do
  (k, keys) ← or_panic (remove_at node.keys pos)
  (v, values) ← or_panic (remove_at node.values pos)
  ok (some v, record node { keys = keys; values = values; changed = true })
remove_found node _ = ok (none, node)

-- `NodePage::delete` on a leaf.
unfoldable pub delete_key {ℓ} : {E : Type ℓ} → NodePage → ℤ → Outcome E (Option (ℤ × ℤ) × NodePage)
delete_key node key = find_key_index node key >>= remove_found node

module _ {S : Type 0} (pager : NodePager S) where
  -- The target and its neighbour are written, in this order.
  abbrev write_trio : S → Trio → Outcome (NodeFailure pager) (NodePage × NodePage × S)
  write_trio s trio = do
    (target', s1) ← map_err (failed_at pager trio.parent) (write pager s trio.target)
    (neighbour', s2) ← map_err (failed_at pager trio.parent) (write pager s1 trio.neighbour)
    ok (trio.parent, target', s2)

  -- The merge of the target `i + 1` into its left neighbour `i`, or of the right neighbour `i + 1`
  -- into the target `i`: the node that is left, and the page that is deleted.
  unfoldable pub merge :
      S → NodePage → ℕ → NodePage → NodePage → Outcome (NodeFailure pager) (NodePage × NodePage × S)
  merge s parent i left right = do
    (separator, parent') ← drop_child parent i
    (left', s1) ←
        map_err (failed_at pager parent') (write pager s (merge_into separator left right))
    s2 ←
        map_err (λ f. failed_at pager parent' (pager_failure pager f))
          (pager.delete_page s1 right.id)
    ok (parent', left', s2)

  -- A neighbour at an index, where there is one.
  abbrev neighbour : S → NodePage → Bool → ℕ → Outcome (NodeFailure pager) (Option NodePage × S)
  neighbour s parent exists i =
      let there = do
        page_id ← or_panic (get_elem? parent.children i)
        (node, s') ← map_err (failed_at pager parent) (read pager s page_id)
        ok (some node, s')
      in if exists then there else ok (none, s)

  -- What is done with the neighbours that were found: the parent, and the node to delete from.
  abbrev refill :
      S
      → NodePage
      → ℕ
      → NodePage
      → Option NodePage
      → Option NodePage
      → Outcome (NodeFailure pager) (NodePage × NodePage × S)
  refill s parent i target none none = ok (parent, target, s)
  refill s parent i target (some left) none =
      if can_lend_keys left
      then (map_err (λ e. (e, parent, s)) (lend_left parent i target left) >>= write_trio s)
      else merge s parent (i - 1) left target
  refill s parent i target none (some right) =
      if can_lend_keys right
      then (map_err (λ e. (e, parent, s)) (lend_right parent i target right) >>= write_trio s)
      else merge s parent i target right
  refill s parent i target (some left) (some right) =
      if can_lend_keys left
      then (map_err (λ e. (e, parent, s)) (lend_left parent i target left) >>= write_trio s)
      else if can_lend_keys right
      then (map_err (λ e. (e, parent, s)) (lend_right parent i target right) >>= write_trio s)
      else merge s parent (i - 1) left target

  -- The part of `NodePage::delete` that prepares the target with index `i`.
  unfoldable pub prepare :
      S → NodePage → ℕ → NodePage → Outcome (NodeFailure pager) (NodePage × NodePage × S)
  prepare s parent i target =
      let short = do
        (left, s1) ← neighbour s parent (ltb 0 i) (i - 1)
        (right, s2) ← neighbour s1 parent (ltb (i + 1) (length parent.children)) (i + 1)
        refill s2 parent i target left right
      in if is_less_than_minimal target then short else ok (parent, target, s)

  -- What a deletion below answers, after the target is written.
  abbrev write_target :
      NodePage
      → Outcome (NodeFailure pager) (Option (ℤ × ℤ) × NodePage × S)
      → Outcome (NodeFailure pager) (Option (ℤ × ℤ) × NodePage × S)
  write_target parent (ok (v, target, s)) = do
    (target', s') ← map_err (failed_at pager parent) (write pager s target)
    ok (v, parent, s')
  write_target parent (err (e, target, s)) = do
    (target', s') ← map_err (failed_at pager parent) (write pager s target)
    err (e, parent, s')
  write_target parent panic = panic

  -- `NodePage::delete`: the value that the key had, the node and the pager.
  unfoldable pub delete :
      ℕ → S → NodePage → ℤ → Outcome (NodeFailure pager) (Option (ℤ × ℤ) × NodePage × S)
  delete zero s node key = panic
  delete (suc fuel) s node key =
      let leaf = delete_key node key >>= λ r. ok (r.0, r.1, s) in
      let inner = do
        let i = child_index node key
        page_id ← or_panic (get_elem? node.children i)
        (target, s1) ← map_err (failed_at pager node) (read pager s page_id)
        (node', target', s2) ← prepare s1 node i target
        write_target node' (delete fuel s2 target' key)
      in if is_leaf node then leaf else inner
