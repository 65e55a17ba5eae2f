-- ===== src/FreeSpace/BinaryTree.antt =====
-- src/freespace/binary_tree.rs: a tree of maxima in an array, over one category byte for each slot.
pub mod Heap
pub mod Initial
pub mod Update
pub mod Walk
pub mod Find
use fiddlers_db.Prelude.{
  ℕ, zero, suc, ◌+◌, ◌-◌, ◌*◌, ◌/◌, Bool, true, false, Option, none, some, List, length, get_elem?,
  set,
}
use fiddlers_db.Prelude.{replicate, max, ltb, leb, ◌==◌, ◌&&◌, if◌then◌else◌}
use fiddlers_db.Prelude.Outcome.{Outcome, ok, panic, ◌>>=◌, ◌>>◌, or_panic, checked_sub, assert}
use fiddlers_db.Page.Layout.{PageDataLayout, page_data_size, slot_size}

-- `struct BinaryTree`
pub record BinaryTree : Type 0 where
  pub arr : List ℕ
  pub non_leaf_nodes : ℕ
  pub leaf_nodes : ℕ

-- `struct NodeStructure`
pub record NodeStructure : Type 0 where
  pub leaf_nodes : ℕ
  pub non_leaf_nodes : ℕ
  pub nodes : ℕ

-- `struct FsmSlot`
pub record FsmSlot : Type 0 where
  pub slot_index : ℕ
  pub available_space : ℕ

abbrev pub left_child : ℕ → ℕ
left_child x = 2 * x + 1

abbrev pub right_child : ℕ → ℕ
right_child x = 2 * x + 2

-- `parent`; the root has none, and asking for it is a panic.
abbrev pub parent {ℓ} : {E : Type ℓ} → ℕ → Outcome E ℕ
parent x = checked_sub x 1 >>= λ y. ok (y / 2)

-- `BinaryTree::node_structure`
unfoldable pub node_structure {ℓ} : {E : Type ℓ} → PageDataLayout → Outcome E NodeStructure
node_structure page_layout = do
  assert (leb 64 page_layout.page_size)
  nodes ← checked_sub (page_data_size page_layout) slot_size
  non_leaf_nodes ← checked_sub (page_layout.page_size / 2) 1
  leaf_nodes ← checked_sub nodes non_leaf_nodes
  ok (record { leaf_nodes = leaf_nodes; non_leaf_nodes = non_leaf_nodes; nodes = nodes })

-- `BinaryTree::new`
unfoldable pub new {ℓ} : {E : Type ℓ} → PageDataLayout → Outcome E BinaryTree
unfolding node_structure
new page_layout = do
  structure ← node_structure page_layout
  ok (record {
    arr = replicate structure.nodes 0;
    non_leaf_nodes = structure.non_leaf_nodes;
    leaf_nodes = structure.leaf_nodes;
  })

-- `BinaryTree::deserialize`
unfoldable pub deserialize {ℓ} : {E : Type ℓ} → List ℕ → PageDataLayout → Outcome E BinaryTree
unfolding new
deserialize bytes page_layout = do
  tree ← new page_layout
  assert (length tree.arr == length bytes)
  ok (record tree { arr = bytes })

-- `BinaryTree::serialize`
abbrev pub serialize : BinaryTree → List ℕ
serialize t = t.arr

-- `BinaryTree::is_leaf_node`
abbrev pub is_leaf_node : BinaryTree → ℕ → Bool
is_leaf_node t index = leb t.non_leaf_nodes index

-- The value of the right child, 0 where there is none.
abbrev pub right_value {ℓ} : {E : Type ℓ} → List ℕ → ℕ → Outcome E ℕ
right_value arr index = if ltb index (length arr) then or_panic (get_elem? arr index) else ok 0

-- The child that the search goes on to.
abbrev pub next_child : ℕ → ℕ → ℕ → ℕ → Option ℕ
next_child current left_value right_val min_space_needed =
    if leb min_space_needed left_value
    then some (left_child current)
    else if leb min_space_needed right_val
    then some (right_child current)
    else none

-- The loop of `BinaryTree::find_available`, on fuel: the leaf that it ends at.
unfoldable pub walk {ℓ} : {E : Type ℓ} → ℕ → BinaryTree → ℕ → ℕ → Outcome E (Option ℕ)
walk zero t min_space_needed current = panic
walk (suc fuel) t min_space_needed current = elim (is_leaf_node t current) [
  | true ↦ ok (some current)
  | false ↦ do
    left_value ← or_panic (get_elem? t.arr (left_child current))
    right_val ← right_value t.arr (right_child current)
    elim (next_child current left_value right_val min_space_needed) [
      | none ↦ ok none
      | some child ↦ walk fuel t min_space_needed child
    ]
]

-- The result of `BinaryTree::find_available`, from the leaf where the loop ended. The space is
-- read at the index of the slot among the slots, as the code does.
abbrev pub found_slot {ℓ} : {E : Type ℓ} → BinaryTree → Option ℕ → Outcome E (Option FsmSlot)
found_slot t none = ok none
found_slot t (some current) = do
  slot ← checked_sub current t.non_leaf_nodes
  space ← or_panic (get_elem? t.arr slot)
  ok (some (record { slot_index = slot; available_space = space }))

-- `BinaryTree::find_available`. Each round goes down a level, so one round for each inner node,
-- and one for the leaf, are enough.
unfoldable pub find_available {ℓ} : {E : Type ℓ} → BinaryTree → ℕ → Outcome E (Option FsmSlot)
find_available t min_space_needed = do
  root ← or_panic (get_elem? t.arr 0)
  if ltb root min_space_needed
      then ok none
      else (walk (t.non_leaf_nodes + 1) t min_space_needed 0 >>= found_slot t)

-- The loop of `BinaryTree::set_available_space`, on fuel: every parent takes the larger child's
-- value, up to the first one that has it already.
unfoldable pub bubble {ℓ} : {E : Type ℓ} → ℕ → List ℕ → ℕ → Outcome E (List ℕ)
bubble zero arr node_number = panic
bubble (suc fuel) arr node_number = do
  up ← parent node_number
  left_value ← or_panic (get_elem? arr (left_child up))
  right_val ← right_value arr (right_child up)
  old_value ← or_panic (get_elem? arr up)
  let new_value = max left_value right_val
  let arr' = set arr up new_value
  let rest = bubble fuel arr' up
  if old_value == new_value then ok arr else if up == 0 then ok arr' else rest

-- `BinaryTree::set_available_space`
unfoldable pub set_available_space {ℓ} : {E : Type ℓ} → BinaryTree → ℕ → ℕ → Outcome E BinaryTree
set_available_space t slot available_space = do
  assert (ltb slot t.leaf_nodes)
  let node_number = t.non_leaf_nodes + slot
  let write = do
    value ← or_panic (get_elem? t.arr node_number)
    root ← or_panic (get_elem? t.arr 0)
    if value == available_space && leb available_space root
        then ok t
        else (bubble (node_number + 1) (set t.arr node_number available_space) node_number
            >>= λ arr. ok (record t { arr = arr }))
  if leb (length t.arr) node_number then ok t else write
