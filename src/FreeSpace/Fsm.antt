-- ===== src/FreeSpace/Fsm.antt =====
-- src/freespace/fsm.rs: the tree of pages that finds a heap page with enough free space. Every page
-- of the map holds a `BinaryTree` in its slot 0, whose slots stand for the pages one level below,
-- and on level 0 for the heap pages.
pub mod Address
pub mod Category
pub mod Numbering
pub mod Addressable
pub mod Keeps
use fiddlers_db.Prelude.{
  ℕ, zero, suc, ◌+◌, ◌-◌, ◌*◌, ◌/◌, ◌%◌, ◌^◌, Bool, true, false, Option, none, some, List, length,
}
use fiddlers_db.Prelude.{ltb, leb, not, ◌==◌, ◌&&◌, if◌then◌else◌}
use fiddlers_db.Prelude.Int.{
  ℤ, pos, ltb_ℤ, ◌==ℤ◌, pos_part, neg_part, i32_pred, i32_succ, i32_as_usize, as_i32,
}
use fiddlers_db.Prelude.Outcome.{
  Outcome, ok, err, panic, ◌>>=◌, ◌>>◌, or_panic, map_err, ensure, assert, checked_sub,
}
use fiddlers_db.Page.{Page, PageError, read_slot, write_record, insert_record, max_available_space}
use fiddlers_db.Page.Layout.{PageDataLayout, max_tupel_size}
use fiddlers_db.FreeSpace.BinaryTree.{
  BinaryTree, FsmSlot, NodeStructure, node_structure, new, serialize, deserialize, find_available,
  set_available_space,
}
use fiddlers_db.Store.{PageStorage, table_file, fsm_file, StoreError, Store}

-- `struct FsmAddress`
pub record FsmAddress : Type 0 where
  pub node_number : ℕ
  pub level : ℕ

-- `enum FsmError`
pub data FsmError : Type 0 where
  invalid_page_layout : FsmError
  missing_root_slot_data : ℤ → FsmError
  corrupt_root_slot_data : ℤ → ℕ → ℕ → FsmError
  invalid_parent_traversal : FsmError
  invalid_child_traversal : FsmError
  corrupted_state : FsmError
  store : StoreError → FsmError
  page : PageError → FsmError

-- `struct Fsm`; the table by its identifier.
pub record Fsm : Type 0 where
  pub table_id : ℤ
  pub page_layout : PageDataLayout
  pub root_level : ℕ
  pub fsm_category_step : ℕ
  pub depth : ℕ
  pub slots : ℕ

-- `Fsm::new`
unfoldable pub new_fsm : PageDataLayout → ℤ → Outcome FsmError Fsm
new_fsm page_layout table_id = do
  ensure (leb 256 page_layout.page_size) invalid_page_layout
  let depth = if leb 4096 page_layout.page_size then 3 else 4
  structure ← node_structure page_layout
  ok (record {
    table_id = table_id;
    page_layout = page_layout;
    root_level = depth - 1;
    fsm_category_step = page_layout.page_size / 256;
    depth = depth;
    slots = structure.leaf_nodes;
  })

-- `Fsm::root`
abbrev pub root : Fsm → FsmAddress
root fsm = record { node_number = 0; level = fsm.depth - 1 }

-- `Fsm::parent`: the address, and the slot in it. There is at least one slot to divide by.
unfoldable pub parent : Fsm → FsmAddress → Outcome FsmError (FsmAddress × ℕ)
parent fsm child_addr = do
  ensure (not (child_addr.level == fsm.root_level)) invalid_parent_traversal
  assert (ltb 0 fsm.slots)
  ok (
    record { node_number = child_addr.node_number / fsm.slots; level = child_addr.level + 1 },
    child_addr.node_number % fsm.slots,
  )

-- `Fsm::child`
unfoldable pub child : Fsm → FsmAddress → ℕ → Outcome FsmError FsmAddress
child fsm parent_addr slot = do
  ensure (not (parent_addr.level == 0)) invalid_child_traversal
  let node_number = parent_addr.node_number * fsm.slots + slot
  assert (ltb node_number (2 ^ 64))
  ok (record { node_number = node_number; level = parent_addr.level - 1 })

-- `Fsm::page_space_to_category`
unfoldable pub page_space_to_category : Fsm → ℕ → ℕ
page_space_to_category fsm available =
    let cat = available / fsm.fsm_category_step in
    if leb (max_tupel_size fsm.page_layout) available then 255 else if ltb 254 cat then 254 else cat

-- `Fsm::space_needed_to_category`. The step is a power of two, up to 2 ^ 7, so the quotient of
-- the `f32` numbers is exact below 2 ^ 24 bytes, and from there on it is above 255.
unfoldable pub space_needed_to_category : Fsm → ℕ → ℕ
space_needed_to_category fsm needed =
    let cat = (needed + (fsm.fsm_category_step - 1)) / fsm.fsm_category_step in
    if needed == 0 then 1 else if ltb 255 cat then 255 else cat

-- `Fsm::heap_page_id_to_addr`: the address on level 0, and the slot in it.
unfoldable pub heap_page_id_to_addr : Fsm → ℤ → Outcome FsmError (FsmAddress × ℕ)
heap_page_id_to_addr fsm page_id = do
  slot_index_globally ← or_panic (i32_pred page_id)
  ensure (not (ltb_ℤ slot_index_globally (pos 0))) corrupted_state
  assert (ltb 0 fsm.slots)
  let logical_fsm_page = i32_as_usize slot_index_globally / fsm.slots
  ok (
    record { node_number = logical_fsm_page; level = 0 },
    i32_as_usize slot_index_globally - logical_fsm_page * fsm.slots,
  )

-- `Fsm::addr_slot_to_heap_page_id`
unfoldable pub addr_slot_to_heap_page_id : Fsm → FsmAddress → ℕ → Outcome FsmError ℤ
addr_slot_to_heap_page_id fsm addr slot_index = do
  ensure (leb addr.level 0) corrupted_state
  let slot_index_globally = addr.node_number * fsm.slots + slot_index
  assert (ltb slot_index_globally (2 ^ 64))
  or_panic (i32_succ (as_i32 slot_index_globally))

-- The first loop of `Fsm::logical_addr_to_fms_page_id`: the first leaf below a node.
unfoldable pub first_leaf : ℕ → ℕ → ℕ → ℕ
first_leaf slots zero leaf_number = leaf_number
first_leaf slots (suc level) leaf_number = first_leaf slots level (leaf_number * slots)

-- The second loop: the pages up to a leaf, on `depth` levels.
unfoldable pub count_pages : ℕ → ℕ → ℕ → ℕ
count_pages slots zero leaf_number = 0
count_pages slots (suc depth) leaf_number =
    leaf_number + 1 + count_pages slots depth (leaf_number / slots)

-- `Fsm::logical_addr_to_fms_page_id`. The numbers only grow in the loops, so that one of them
-- leaves its type if and only if the last one does.
unfoldable pub logical_addr_to_fms_page_id : Fsm → FsmAddress → Outcome FsmError ℤ
unfolding first_leaf count_pages
logical_addr_to_fms_page_id fsm addr = do
  let leaf_number = first_leaf fsm.slots addr.level addr.node_number
  assert (ltb leaf_number (2 ^ 64))
  assert (ltb 0 fsm.slots)
  let pages = count_pages fsm.slots fsm.depth leaf_number
  assert (ltb pages (2 ^ 64))
  page_id ← checked_sub pages addr.level
  ok (as_i32 page_id)

-- `Fsm::read_tree`, from the bytes of slot 0.
abbrev pub tree_of_bytes : Fsm → ℤ → Option (List ℕ) → Outcome FsmError BinaryTree
tree_of_bytes fsm page_id none = err (missing_root_slot_data page_id)
tree_of_bytes fsm page_id (some bytes) = do
  structure ← node_structure fsm.page_layout
  ensure (length bytes == structure.nodes)
      (corrupt_root_slot_data page_id structure.nodes (length bytes))
  deserialize bytes fsm.page_layout

-- `Fsm::read_tree`
unfoldable pub read_tree : Fsm → Page → Outcome FsmError BinaryTree
read_tree fsm p = do bytes ← map_err page (read_slot p 0); tree_of_bytes fsm p.page_id bytes

-- The number of rounds of `for _ in a..b`.
abbrev pub rounds : ℤ → ℤ → ℕ
rounds a b = (pos_part b + neg_part a) - (pos_part a + neg_part b)

-- The operations on the pages of a store.
module _ {S : Type 0} (st : Store S) (fsm : Fsm) where
  abbrev pub access : PageStorage
  access = fsm_file fsm.table_id

  -- `Fsm::allocate_new_fsm_and_init`
  unfoldable pub allocate_new_fsm_and_init : S → Outcome FsmError S
  allocate_new_fsm_and_init s = do
    (new_page, s1) ← map_err store (st.allocate_page s fsm.page_layout access)
    binary_tree ← new fsm.page_layout
    (slot, inited) ← map_err page (insert_record new_page (serialize binary_tree))
    map_err store (st.write_page s1 fsm.page_layout inited access)

  -- `allocate_new_fsm_and_init`, `n` times.
  unfoldable pub allocate_pages : ℕ → S → Outcome FsmError S
  allocate_pages zero s = ok s
  allocate_pages (suc n) s = allocate_new_fsm_and_init s >>= allocate_pages n

  -- One round of the loop of `Fsm::update`, before it goes to the parent.
  unfoldable pub update_page : S → ℤ → ℕ → ℕ → Outcome FsmError S
  update_page s fsm_page_id slot free_space_cat = do
    fsm_page ← map_err store (st.read_page s fsm.page_layout fsm_page_id access)
    fsm_tree ← read_tree fsm fsm_page
    fsm_tree' ← set_available_space fsm_tree slot free_space_cat
    fsm_page' ← map_err page (write_record fsm_page 0 (serialize fsm_tree'))
    map_err store (st.write_page s fsm.page_layout fsm_page' access)

  -- The loop of `Fsm::update`, from level `level` on.
  unfoldable pub update_levels : ℕ → ℕ → S → FsmAddress → ℤ → ℕ → ℕ → Outcome FsmError S
  update_levels zero level s addr fsm_page_id slot free_space_cat = ok s
  update_levels (suc n) level s addr fsm_page_id slot free_space_cat = do
    s' ← update_page s fsm_page_id slot free_space_cat
    let up = do
      (addr', slot') ← parent fsm addr
      fsm_page_id' ← logical_addr_to_fms_page_id fsm addr'
      update_levels n (level + 1) s' addr' fsm_page_id' slot' free_space_cat
    let stay = update_levels n (level + 1) s' addr fsm_page_id slot free_space_cat
    if ltb level (fsm.depth - 1) then up else stay

  -- `Fsm::update`
  unfoldable pub update : S → Page → Outcome FsmError S
  update s heap_page = do
    free_space ← map_err page (max_available_space heap_page)
    let free_space_cat = page_space_to_category fsm free_space
    (addr, slot) ← heap_page_id_to_addr fsm heap_page.page_id
    fsm_page_id ← logical_addr_to_fms_page_id fsm addr
    meta ← map_err store (st.read_metadata s fsm.page_layout access)
    end ←
        (if ltb_ℤ fsm_page_id meta.next_id
          then ok meta.next_id
          else or_panic (i32_succ fsm_page_id))
    s1 ← allocate_pages (rounds meta.next_id end) s
    update_levels fsm.depth 0 s1 addr fsm_page_id slot free_space_cat

  -- The loop of `Fsm::find_available_page`: `none` where a new heap page is needed.
  unfoldable pub descend : ℕ → S → FsmAddress → ℕ → Bool → ℤ → Outcome FsmError (Option ℤ)
  descend zero s addr cat should_never_fail heap_page_id = ok (some heap_page_id)
  descend (suc n) s addr cat should_never_fail heap_page_id = do
    page_id ← logical_addr_to_fms_page_id fsm addr
    fsm_page ← map_err store (st.read_page s fsm.page_layout page_id access)
    fsm_tree ← read_tree fsm fsm_page
    slot ← find_available fsm_tree cat
    elim slot [
      | none ↦ if should_never_fail then err corrupted_state else ok none
      | some found ↦
          let heap = do
            heap_page_id' ← addr_slot_to_heap_page_id fsm addr found.slot_index
            descend n s addr cat should_never_fail heap_page_id'
          in let down = do
            addr' ← child fsm addr found.slot_index
            descend n s addr' cat true heap_page_id
            in if addr.level == 0 then heap else down
    ]

  -- The end of `Fsm::find_available_page`, from the heap page that was found.
  unfoldable pub page_of : S → Option ℤ → Outcome FsmError (Page × S)
  page_of s none = map_err store (st.allocate_page s fsm.page_layout (table_file fsm.table_id))
  page_of s (some heap_page_id) = do
    ensure (ltb_ℤ (pos 0) heap_page_id) corrupted_state
    heap_page ←
        map_err store (st.read_page s fsm.page_layout heap_page_id (table_file fsm.table_id))
    ok (heap_page, s)

  -- `Fsm::find_available_page`
  unfoldable pub find_available_page : S → ℕ → Outcome FsmError (Page × S)
  find_available_page s bytes = do
    meta ← map_err store (st.read_metadata s fsm.page_layout access)
    s1 ← allocate_pages (fsm.root_level + 1 - i32_as_usize meta.number_of_pages) s
    found ← descend fsm.depth s1 (root fsm) (space_needed_to_category fsm bytes) false (pos 0)
    page_of s1 found
