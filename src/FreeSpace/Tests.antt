-- ===== src/FreeSpace/Tests.antt =====
-- Runs of the free space map's definitions, and uses of its theorems.
use fiddlers_db.Prelude.{◌/◌, ◌+◌, ◌↔◌}
use fiddlers_db.FreeSpace.Fsm.{new_fsm}
use fiddlers_db.FreeSpace.Fsm.Addressable.{AddressesAll, new_fsm-AddressesAll_iff}
use fiddlers_db.FreeSpace.BinaryTree.{new}
use fiddlers_db.FreeSpace.BinaryTree.Initial.{new_correct}
use fiddlers_db.Prelude.{
  ℕ, zero, suc, ◌+◌, ◌*◌, ◌^◌, ◌≤◌, ◌<◌, ◌≡◌, ◌≢◌, ◌⊎◌, refl, [], ◌∷◌, arith, none, some,
}
use fiddlers_db.Prelude.Int.{pos}
use fiddlers_db.Prelude.Outcome.{ok, ◌>>=◌}
use fiddlers_db.FreeSpace.BinaryTree.{BinaryTree, FsmSlot, find_available, set_available_space}
use fiddlers_db.FreeSpace.BinaryTree.Heap.{IsHeap, IsMax, leaf}
use fiddlers_db.FreeSpace.BinaryTree.Update.{set_available_space_correct}
use fiddlers_db.FreeSpace.BinaryTree.Find.{find_available_correct}
use fiddlers_db.FreeSpace.Fsm.{
  Fsm, FsmAddress, FsmError, child, heap_page_id_to_addr, addr_slot_to_heap_page_id, first_leaf,
  count_pages, logical_addr_to_fms_page_id, page_space_to_category, space_needed_to_category,
}
use fiddlers_db.FreeSpace.Fsm.Address.{addr_slot_to_heap_page_id-heap_page_id_to_addr}
use fiddlers_db.FreeSpace.Fsm.Category.{category_enough, category_overlooks_slot}
use fiddlers_db.Prelude.{replicate}
use fiddlers_db.Prelude.Outcome.{err}
use fiddlers_db.Page.{
  Page, insert_record, insert_record_error, max_available_space, row_data_size,
  max_fragmented_free_space, find_free_slot_index, find_free,
}
use fiddlers_db.Page.Valid.{IsValid}
use fiddlers_db.FreeSpace.Fsm.Numbering.{
  logical_addr_to_fms_page_id-child, page_number, subtree_pages,
}

-- A tree of three inner nodes and three leaves.
abbrev small_tree : BinaryTree
small_tree = record { arr = 9 ∷ 5 ∷ 9 ∷ 2 ∷ 5 ∷ 9 ∷ []; non_leaf_nodes = 3; leaf_nodes = 3 }

small_tree-maxima : (i : ℕ) → i < 3 → IsMax small_tree.arr i
small_tree-maxima zero h = omega arith
small_tree-maxima (suc zero) h = omega arith
small_tree-maxima (suc (suc zero)) h = omega arith
small_tree-maxima (suc (suc (suc i))) h = absurd (omega arith)

small_tree-IsHeap : IsHeap small_tree
small_tree-IsHeap = record {
  shape = record {
    levels = 1;
    full = refl;
    counted = refl;
    leaves = omega arith;
    some_leaf = omega arith;
  };
  maxima = small_tree-maxima;
}

set_available_space_correct_example :
    (t' : BinaryTree) × (set_available_space {E = FsmError} small_tree 2 1 ≡ ok t')
    × IsHeap t'
    × (t'.non_leaf_nodes ≡ 3)
    × (t'.leaf_nodes ≡ 3)
    × (leaf t' 2 ≡ 1)
    × ((s : ℕ) → s ≢ 2 → leaf t' s ≡ leaf small_tree s)
set_available_space_correct_example =
    set_available_space_correct small_tree 2 1 small_tree-IsHeap (omega arith)

find_available_correct_example :
    ((find_available {E = FsmError} small_tree 4 ≡ ok none)
      × ((s : ℕ) → s < 3 → leaf small_tree s < 4))
    ⊎ ((r : FsmSlot) × (find_available {E = FsmError} small_tree 4 ≡ ok (some r))
        × (r.slot_index < 3)
        × (4 ≤ leaf small_tree r.slot_index)
        × ((s : ℕ) → s < r.slot_index → leaf small_tree s < 4))
find_available_correct_example = find_available_correct small_tree 4 small_tree-IsHeap (omega arith)

-- The map of pages of 4096 bytes.
abbrev map_4096 : Fsm
map_4096 = record {
  table_id = pos 1;
  page_layout = record { page_size = 4096 };
  root_level = 2;
  fsm_category_step = 16;
  depth = 3;
  slots = 2028;
}

abbrev root_addr : FsmAddress
root_addr = record { node_number = 0; level = 2 }

addr_slot_to_heap_page_id-heap_page_id_to_addr_example :
    (addr : FsmAddress) × (slot : ℕ) × (heap_page_id_to_addr map_4096 (pos 3000) ≡ ok (addr, slot))
    × (addr.level ≡ 0)
    × (slot < 2028)
    × (addr_slot_to_heap_page_id map_4096 addr slot ≡ ok (pos 3000))
addr_slot_to_heap_page_id-heap_page_id_to_addr_example =
    addr_slot_to_heap_page_id-heap_page_id_to_addr map_4096 2999 (omega arith) (omega arith)

root_bound : page_number map_4096 root_addr + 1 + 1 * subtree_pages 2028 1 < 2 ^ 31
unfolding first_leaf count_pages
root_bound = omega arith

-- The second child of the root follows the 2028 leaves of the first.
logical_addr_to_fms_page_id-child_example :
    (logical_addr_to_fms_page_id map_4096 root_addr ≡ ok (pos (page_number map_4096 root_addr)))
    × ((child map_4096 root_addr 1 >>= logical_addr_to_fms_page_id map_4096)
        ≡ ok (pos (page_number map_4096 root_addr + 1 + 1 * subtree_pages 2028 1)))
logical_addr_to_fms_page_id-child_example =
    logical_addr_to_fms_page_id-child map_4096 root_addr 1 (omega arith) (omega arith) (omega arith)
      (omega arith) (omega arith) root_bound

categories : space_needed_to_category map_4096 100 ≤ page_space_to_category map_4096 130
unfolding space_needed_to_category page_space_to_category
categories = omega arith

category_enough_example : 100 ≤ 130
category_enough_example = category_enough map_4096 100 130 (omega arith) (omega arith) categories

-- A page of 256 bytes with 12 bytes free, for a record of 12 bytes.
abbrev map_256 : Fsm
map_256 = record {
  table_id = pos 1;
  page_layout = record { page_size = 256 };
  root_level = 3;
  fsm_category_step = 1;
  depth = 4;
  slots = 108;
}

abbrev twelve_left : Page
twelve_left = record {
  data_ = replicate 242 0;
  slots = [];
  layout = record { page_size = 256 };
  number_of_records = 0;
  data_offset = 12;
  slots_offset = 0;
  page_id = pos 1;
}

twelve_left-IsValid : IsValid twelve_left
twelve_left-IsValid = record {
  layout_ok = record { at_least = omega arith; at_most = omega arith };
  data_size = refl;
  slots_below = omega arith;
  offset_in = omega arith;
  count_u16 = omega arith;
  id_i32 = (omega arith, omega arith);
  in_rows = λ i s e. absurd (ground arith);
  apart = λ i j s t ne e f. absurd (ground arith);
}

twelve_available : max_available_space twelve_left ≡ ok 12
unfolding max_available_space row_data_size max_fragmented_free_space
twelve_available = refl

no_slot : find_free_slot_index twelve_left (replicate 12 1) ≡ none
unfolding find_free_slot_index find_free
no_slot = refl

category_overlooks_slot_example :
    (space_needed_to_category map_256 12 ≤ page_space_to_category map_256 12)
    × (insert_record twelve_left (replicate 12 1) ≡ err insert_record_error)
category_overlooks_slot_example =
    category_overlooks_slot map_256 twelve_left (replicate 12 1) 12 twelve_left-IsValid
      (omega arith) (omega arith) (omega arith) refl (omega arith) twelve_available no_slot

new_correct_example :
    (t : BinaryTree) × (new {E = FsmError} (record { page_size = 4096 }) ≡ ok t)
    × IsHeap t
    × (t.leaf_nodes + 20 ≡ 4096 / 2)
    × ((s : ℕ) → leaf t s ≡ 0)
new_correct_example = new_correct (record { page_size = 4096 }) 10 refl (omega arith)

new_fsm-AddressesAll_iff_example :
    (fsm : Fsm) × (new_fsm (record { page_size = 2 ^ 12 }) (pos 1) ≡ ok fsm)
    × (AddressesAll fsm ↔ (512 ≤ 2 ^ 12))
new_fsm-AddressesAll_iff_example = new_fsm-AddressesAll_iff (pos 1) 12 (omega arith) (omega arith)
