-- ===== src/FreeSpace/BinaryTree/Initial.antt =====
-- The tree of a new page of the free space map.
use fiddlers_db.Prelude.{
  ℕ, zero, suc, ◌+◌, ◌-◌, ◌/◌, ◌^◌, ◌≤◌, ◌≡◌, refl, arith, replicate, length-replicate,
}
use fiddlers_db.Prelude.Outcome.{ok}
use native.Mathlib.Nat.{pow-suc}
use fiddlers_db.Page.Layout.{PageDataLayout}
use fiddlers_db.FreeSpace.BinaryTree.{BinaryTree, new, node_structure, left_child, right_child}
use fiddlers_db.FreeSpace.BinaryTree.Heap.{value, IsHeap, leaf}

value-replicate : (n i : ℕ) → value (replicate n 0) i ≡ 0
value-replicate zero i = refl
value-replicate (suc n) zero = refl
value-replicate (suc n) (suc i) = value-replicate n i

abbrev initial : ℕ → BinaryTree
initial size = record {
  arr = replicate (size - 21) 0;
  non_leaf_nodes = size / 2 - 1;
  leaf_nodes = size - 21 - (size / 2 - 1);
}

new-eq {ℓ} :
    {E : Type ℓ} (layout : PageDataLayout)
    → 64 ≤ layout.page_size
    → new {E = E} layout ≡ ok (initial layout.page_size)
unfolding new node_structure
new-eq {E} layout h = ground arith

-- For pages whose size is a power of two of at least 64, the tree of a new page is a tree of maxima
-- with half as many slots as the page has bytes, less 20, and every slot is empty.
pub new_correct {ℓ} :
    {E : Type ℓ} (layout : PageDataLayout) (levels : ℕ)
    → layout.page_size ≡ 2 ^ suc (suc levels)
    → 64 ≤ layout.page_size
    → (t : BinaryTree) × (new {E = E} layout ≡ ok t)
      × IsHeap t
      × (t.leaf_nodes + 20 ≡ layout.page_size / 2)
      × ((s : ℕ) → leaf t s ≡ 0)
new_correct {E} layout levels e h =
    let p = pow-suc 2 (suc levels) in
    let size = length-replicate {A = ℕ} (layout.page_size - 21) 0 in
    (
      initial layout.page_size,
      new-eq layout h,
      record {
        shape = record {
          levels = levels;
          full = omega (arith, e, p);
          counted = omega (arith, size);
          leaves = omega arith;
          some_leaf = omega arith;
        };
        maxima = λ i below. omega (
          arith,
          value-replicate (layout.page_size - 21) i,
          value-replicate (layout.page_size - 21) (left_child i),
          value-replicate (layout.page_size - 21) (right_child i),
        );
      },
      omega (arith, e, p),
      λ s. value-replicate (layout.page_size - 21) (layout.page_size / 2 - 1 + s),
    )
