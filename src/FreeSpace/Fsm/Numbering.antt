-- ===== src/FreeSpace/Fsm/Numbering.antt =====
-- The identifiers of the map's pages number the tree depth first.
use fiddlers_db.Prelude.{
  ℕ, zero, suc, ◌+◌, ◌-◌, ◌*◌, ◌/◌, ◌^◌, ◌≤◌, ◌<◌, ◌≡◌, ap, ◌∙◌, arith, lt→ltb, le→leb,
}
use fiddlers_db.Prelude.Int.{pos}
use fiddlers_db.Prelude.Bytes.{as_i32-eq}
use fiddlers_db.Prelude.Outcome.{ok, ◌>>=◌}
use native.Mathlib.Nat.{div-eq_of_lt-le}
use fiddlers_db.FreeSpace.Fsm.{
  Fsm, FsmAddress, child, first_leaf, count_pages, logical_addr_to_fms_page_id,
}
use fiddlers_db.FreeSpace.Fsm.Address.{not_eq, child_div}

-- The number of pages of the tree below a node of a level, the node included.
abbrev pub subtree_pages : ℕ → ℕ → ℕ
subtree_pages slots zero = 1
subtree_pages slots (suc level) = 1 + slots * subtree_pages slots level

-- The identifier of the page of an address, as a number without bounds.
abbrev pub page_number : Fsm → FsmAddress → ℕ
page_number fsm addr =
    count_pages fsm.slots fsm.depth (first_leaf fsm.slots addr.level addr.node_number) - addr.level

-- The pages that `count_pages` counts below a level.
abbrev below : ℕ → ℕ → ℕ → ℕ
below slots zero node = 0
below slots (suc level) node = below slots level (node * slots) + node * slots + 1

mul_div : (node slots : ℕ) → 0 < slots → (node * slots) / slots ≡ node
mul_div node slots h = div-eq_of_lt-le slots (omega arith) (grind arith)

count_pages-first_leaf :
    (slots level depth node : ℕ)
    → 0 < slots
    → count_pages slots (level + depth) (first_leaf slots level node)
      ≡ below slots level node + count_pages slots depth node
unfolding first_leaf count_pages
count_pages-first_leaf slots zero depth node h =
    ap (λ (n : ℕ). count_pages slots n node) {x = 0 + depth} {y = depth} (omega arith) ∙ omega arith
count_pages-first_leaf slots (suc level) depth node h =
    let step = count_pages-first_leaf slots level (suc depth) (node * slots) h in
    let same =
      ap (λ (n : ℕ). count_pages slots n (first_leaf slots level (node * slots)))
        {x = suc level + depth} {y = level + suc depth} (omega arith) in
    let up = ap (count_pages slots depth) (mul_div node slots h) in omega (arith, same, step, up)

below_add :
    (slots level node slot : ℕ)
    → below slots level (node + slot) + slot
      ≡ below slots level node + slot * subtree_pages slots level
below_add slots zero node slot = omega arith
below_add slots (suc level) node slot =
    let step = below_add slots level (node * slots) (slot * slots) in
    let same =
      ap (below slots level) {x = (node + slot) * slots} {y = node * slots + slot * slots}
        (grind arith) in
    let a : (node + slot) * slots ≡ node * slots + slot * slots = grind arith in
    let b : slot * (1 + slots * subtree_pages slots level)
        ≡ slot + slot * slots * subtree_pages slots level =
      grind arith in
    omega (arith, step, same, a, b)

le-count_pages : (slots depth leaf : ℕ) → depth ≤ count_pages slots depth leaf
unfolding count_pages
le-count_pages slots zero leaf = omega arith
le-count_pages slots (suc depth) leaf = omega (arith, le-count_pages slots depth (leaf / slots))

module _ (fsm : Fsm) (addr : FsmAddress) (slot level rest : ℕ) (inner : addr.level ≡ suc level)
    (deep : fsm.depth ≡ suc level + rest) (inside : slot < fsm.slots) where
  abbrev down : FsmAddress
  down = record { node_number = addr.node_number * fsm.slots + slot; level = level }

  -- The pages counted for the child, and for the node.
  child_pages :
      count_pages fsm.slots fsm.depth (first_leaf fsm.slots level down.node_number)
      ≡ below fsm.slots level down.node_number
        + down.node_number
        + 1
        + count_pages fsm.slots rest addr.node_number
  unfolding count_pages
  child_pages =
      let some_slot : 0 < fsm.slots = omega arith in
      let same =
        ap (λ (n : ℕ). count_pages fsm.slots n (first_leaf fsm.slots level down.node_number))
          {x = fsm.depth} {y = level + suc rest} (omega arith) in
      let step = count_pages-first_leaf fsm.slots level (suc rest) down.node_number some_slot in
      let up = ap (count_pages fsm.slots rest) (child_div addr.node_number fsm.slots slot inside) in
      omega (arith, same, step, up)

  node_pages :
      count_pages fsm.slots fsm.depth (first_leaf fsm.slots addr.level addr.node_number)
      ≡ below fsm.slots (suc level) addr.node_number + count_pages fsm.slots rest addr.node_number
  node_pages = rw (
    inner,
    deep,
    count_pages-first_leaf fsm.slots (suc level) rest addr.node_number (omega arith),
  )

  child_number :
      page_number fsm down ≡ page_number fsm addr + 1 + slot * subtree_pages fsm.slots level
  child_number = omega (
    arith,
    child_pages,
    node_pages,
    below_add fsm.slots level (addr.node_number * fsm.slots) slot,
    inner,
    le-count_pages fsm.slots fsm.depth (first_leaf fsm.slots addr.level addr.node_number),
    le-count_pages fsm.slots fsm.depth (first_leaf fsm.slots level down.node_number),
  )

lt-count_pages : (slots depth leaf : ℕ) → 0 < depth → leaf < count_pages slots depth leaf
unfolding count_pages
lt-count_pages slots zero leaf h = absurd (omega arith)
lt-count_pages slots (suc depth) leaf h = omega arith

logical_addr-eq :
    (fsm : Fsm) (addr : FsmAddress)
    → 0 < fsm.slots
    → addr.level < fsm.depth
    → fsm.depth ≤ 4
    → page_number fsm addr < 2 ^ 31
    → logical_addr_to_fms_page_id fsm addr ≡ ok (pos (page_number fsm addr))
unfolding logical_addr_to_fms_page_id
logical_addr-eq fsm addr some_slot below deep bound =
    let leaf = first_leaf fsm.slots addr.level addr.node_number in
    let pages = count_pages fsm.slots fsm.depth leaf in
    let l = lt-count_pages fsm.slots fsm.depth leaf (omega arith) in
    let d = le-count_pages fsm.slots fsm.depth leaf in
    rw (
      lt→ltb leaf (2 ^ 64) (omega arith),
      lt→ltb 0 fsm.slots some_slot,
      lt→ltb pages (2 ^ 64) (omega arith),
      le→leb addr.level pages (omega arith),
      as_i32-eq (pages - addr.level) bound,
    )

-- The pages of the map are numbered depth first. Where the numbers of a node above the leaves and
-- of the child in one of its slots fit an `i32`, the identifier of the child's page is that of the
-- node's page, plus one, plus the pages of the subtrees of all slots before.
pub logical_addr_to_fms_page_id-child :
    (fsm : Fsm) (addr : FsmAddress) (slot : ℕ)
    → fsm.depth ≤ 4
    → 0 < addr.level
    → addr.level < fsm.depth
    → slot < fsm.slots
    → addr.node_number * fsm.slots + slot < 2 ^ 64
    → page_number fsm addr + 1 + slot * subtree_pages fsm.slots (addr.level - 1) < 2 ^ 31
    → (logical_addr_to_fms_page_id fsm addr ≡ ok (pos (page_number fsm addr)))
      × ((child fsm addr slot >>= logical_addr_to_fms_page_id fsm)
          ≡ ok (pos (page_number fsm addr + 1 + slot * subtree_pages fsm.slots (addr.level - 1))))
unfolding child
logical_addr_to_fms_page_id-child fsm addr slot deep inner below inside word bound =
    let level = addr.level - 1 in
    let rest = fsm.depth - addr.level in
    let number = child_number fsm addr slot level rest (omega arith) (omega arith) inside in
    (
      logical_addr-eq fsm addr (omega arith) below deep (omega arith),
      rw (
        not_eq addr.level 0 (omega arith),
        lt→ltb (addr.node_number * fsm.slots + slot) (2 ^ 64) word,
        logical_addr-eq fsm (down fsm addr slot level rest (omega arith) (omega arith) inside)
            (omega arith) (omega arith) deep (omega (arith, number)),
        number,
      ),
    )
