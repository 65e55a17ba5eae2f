-- ===== src/FreeSpace/Fsm/Address.antt =====
-- The addresses of the map: parents and children, heap pages and slots.
use fiddlers_db.Prelude.{
  ℕ, suc, ◌+◌, ◌-◌, ◌*◌, ◌/◌, ◌%◌, ◌^◌, ◌≤◌, ◌<◌, ◌≡◌, ◌≢◌, refl, ap, arith, lt→ltb, false, ◌==◌,
}
use fiddlers_db.Prelude.Int.{pos, ltb_ℤ}
use fiddlers_db.Prelude.Bytes.{as_i32-eq}
use fiddlers_db.Prelude.Outcome.{ok, ◌>>=◌}
use native.Mathlib.Nat.{div-eq_of_lt-le, div-add-mod', mod-lt, div-mul-le_self}
use fiddlers_db.FreeSpace.Fsm.{
  Fsm, FsmAddress, parent, child, heap_page_id_to_addr, addr_slot_to_heap_page_id,
}

pub not_eq : (a b : ℕ) → a ≢ b → (a == b) ≡ false
not_eq a b h = ground arith

-- The node and the slot, from the number of a child.
pub child_div : (node slots slot : ℕ) → slot < slots → (node * slots + slot) / slots ≡ node
child_div node slots slot h = div-eq_of_lt-le slots (omega arith) (grind arith)

pub child_mod : (node slots slot : ℕ) → slot < slots → (node * slots + slot) % slots ≡ slot
child_mod node slots slot h =
    let d = div-add-mod' (node * slots + slot) slots in
    let e = ap (λ (x : ℕ). x * slots) (child_div node slots slot h) in omega (arith, d, e)

-- The parent of a child of an inner node is that node, with the child's slot.
pub child-parent :
    (fsm : Fsm) (addr : FsmAddress) (slot : ℕ)
    → 0 < addr.level
    → addr.level ≤ fsm.root_level
    → slot < fsm.slots
    → addr.node_number * fsm.slots + slot < 2 ^ 64
    → (child fsm addr slot >>= parent fsm) ≡ ok (addr, slot)
unfolding child parent
child-parent fsm addr slot inner below inside bound =
    rw
      (
        not_eq addr.level 0 (omega arith),
        lt→ltb (addr.node_number * fsm.slots + slot) (2 ^ 64) bound,
        not_eq (addr.level - 1) fsm.root_level (omega arith),
        lt→ltb 0 fsm.slots (omega arith),
        child_div addr.node_number fsm.slots slot inside,
        child_mod addr.node_number fsm.slots slot inside,
      )
      (ap (λ (l : ℕ). ok (record { node_number = addr.node_number; level = l }, slot))
        {x = addr.level - 1 + 1} (omega arith))

not_negative : (n : ℕ) → ltb_ℤ (pos n) (pos 0) ≡ false
not_negative n = ground arith

-- Every heap page has a slot of its own on level 0: its address and slot lead back to the page, and
-- the slot is one of the page of the map.
pub addr_slot_to_heap_page_id-heap_page_id_to_addr :
    (fsm : Fsm) (n : ℕ)
    → 0 < fsm.slots
    → suc n < 2 ^ 31
    → (addr : FsmAddress) × (slot : ℕ) × (heap_page_id_to_addr fsm (pos (suc n)) ≡ ok (addr, slot))
      × (addr.level ≡ 0)
      × (slot < fsm.slots)
      × (addr_slot_to_heap_page_id fsm addr slot ≡ ok (pos (suc n)))
unfolding heap_page_id_to_addr addr_slot_to_heap_page_id
addr_slot_to_heap_page_id-heap_page_id_to_addr fsm n some_slot bound =
    let node = n / fsm.slots in
    let back : node * fsm.slots + (n - node * fsm.slots) ≡ n =
      omega (arith, div-mul-le_self n fsm.slots) in
    let split = div-add-mod' n fsm.slots in
    (
      record { node_number = node; level = 0 },
      n - node * fsm.slots,
      rw (not_negative n, lt→ltb 0 fsm.slots some_slot),
      refl,
      omega (arith, split, mod-lt n some_slot),
      rw
          (
            back,
            lt→ltb n (2 ^ 64) (omega arith),
            as_i32-eq n (omega arith),
            lt→ltb (n + 1) (2 ^ 31) (omega arith),
          )
          (ap (λ (m : ℕ). ok (pos m)) {x = n + 1} (omega arith)),
    )
