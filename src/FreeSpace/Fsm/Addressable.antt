-- ===== src/FreeSpace/Fsm/Addressable.antt =====
-- src/freespace/fsm.rs: how many heap pages the levels of the map address.
use fiddlers_db.Prelude.{ℕ, zero, suc, ◌+◌, ◌-◌, ◌^◌, ◌≤◌, ◌≡◌, ◌↔◌, refl, arith}
use fiddlers_db.Prelude.Int.{ℤ}
use fiddlers_db.Prelude.Outcome.{ok}
use fiddlers_db.FreeSpace.BinaryTree.{node_structure}
use fiddlers_db.FreeSpace.Fsm.{Fsm, new_fsm}

-- The heap pages have the identifiers from 1 to the largest `i32`.
abbrev pub AddressesAll : Fsm → Type 0
AddressesAll fsm = 2 ^ 31 - 1 ≤ fsm.slots ^ fsm.depth

-- The map of a page size, and when it addresses all pages.
abbrev pub Addressing : ℤ → ℕ → Type 0
Addressing id k =
    (fsm : Fsm) × (new_fsm (record { page_size = 2 ^ k }) id ≡ ok fsm)
    × (AddressesAll fsm ↔ (512 ≤ 2 ^ k))

-- The page sizes from 2 ^ 8 on.
at_size : (id : ℤ) (j : ℕ) → j ≤ 7 → Addressing id (j + 8)
unfolding new_fsm node_structure
at_size id zero most = (_, refl, (λ h. omega arith, λ h. omega arith))
at_size id (suc zero) most = (_, refl, (λ h. omega arith, λ h. omega arith))
at_size id (suc (suc zero)) most = (_, refl, (λ h. omega arith, λ h. omega arith))
at_size id (suc (suc (suc zero))) most = (_, refl, (λ h. omega arith, λ h. omega arith))
at_size id (suc (suc (suc (suc zero)))) most = (_, refl, (λ h. omega arith, λ h. omega arith))
at_size id (suc (suc (suc (suc (suc zero))))) most = (_, refl, (λ h. omega arith, λ h. omega arith))
at_size id (suc (suc (suc (suc (suc (suc zero)))))) most =
    (_, refl, (λ h. omega arith, λ h. omega arith))
at_size id (suc (suc (suc (suc (suc (suc (suc zero))))))) most =
    (_, refl, (λ h. omega arith, λ h. omega arith))
at_size id (suc (suc (suc (suc (suc (suc (suc (suc j)))))))) most = absurd (omega arith)

-- On every page size from 256 to 2 ^ 15 that is a power of two, the map is made, and its levels
-- address as many heap pages as there are identifiers, if and only if a page has at least 512
-- bytes.
pub new_fsm-AddressesAll_iff :
    (id : ℤ) (k : ℕ)
    → 8 ≤ k
    → k ≤ 15
    → (fsm : Fsm) × (new_fsm (record { page_size = 2 ^ k }) id ≡ ok fsm)
      × (AddressesAll fsm ↔ (512 ≤ 2 ^ k))
new_fsm-AddressesAll_iff id k least most =
    let same : k ≡ (k - 8) + 8 = omega arith in rw same (at_size id (k - 8) (omega arith))
