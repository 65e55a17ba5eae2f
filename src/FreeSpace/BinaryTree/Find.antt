-- ===== src/FreeSpace/BinaryTree/Find.antt =====
-- `find_available` on a tree of maxima: the leftmost slot with enough space.
use fiddlers_db.Prelude.{
  ℕ, zero, suc, ◌+◌, ◌-◌, ◌^◌, ◌≤◌, ◌<◌, ◌≡◌, ◌⊎◌, ◌∙◌, length, arith, inl, inr,
}
use fiddlers_db.Prelude.{none, some, le→leb, le→ltb, lt→ltb}
use fiddlers_db.Prelude.Outcome.{ok, ◌>>=◌}
use native.Mathlib.Decide.{dec_lt}
use native.Mathlib.Nat.{pow-suc}
use fiddlers_db.FreeSpace.BinaryTree.{BinaryTree, FsmSlot, walk, found_slot, find_available}
use fiddlers_db.FreeSpace.BinaryTree.Heap.{value, IsHeap, leaf, get_value}
use fiddlers_db.FreeSpace.BinaryTree.Walk.{under-le, First, walk_lem}

lt-pow : (k : ℕ) → k < 2 ^ k
lt-pow zero = omega arith
lt-pow (suc k) = omega (arith, lt-pow k, pow-suc 2 k)

module _ (t : BinaryTree) (m : ℕ) (h : IsHeap t) where
  root-inside : 0 < length t.arr
  root-inside = omega (arith, h.shape.counted, h.shape.some_leaf)

  find_none {ℓ} : {E : Type ℓ} → value t.arr 0 < m → find_available {E = E} t m ≡ ok none
  unfolding find_available
  find_none {E} less = rw (get_value {E = E} t.arr 0 root-inside, lt→ltb (value t.arr 0) m less)

  find_walk {ℓ} :
      {E : Type ℓ}
      → m ≤ value t.arr 0
      → find_available {E = E} t m ≡ (walk (t.non_leaf_nodes + 1) t m 0 >>= found_slot t)
  unfolding find_available
  find_walk {E} enough = rw (get_value {E = E} t.arr 0 root-inside, le→ltb (value t.arr 0) m enough)

  found_slot-eq {ℓ} :
      {E : Type ℓ} (l : ℕ)
      → First t h m l
      → found_slot {E = E} t (some l)
        ≡ ok (
            some (record {
              slot_index = l - t.non_leaf_nodes;
              available_space = value t.arr (l - t.non_leaf_nodes);
            }))
  found_slot-eq {E} l found = rw (
    le→leb t.non_leaf_nodes l found.above,
    get_value {E = E} t.arr (l - t.non_leaf_nodes) (omega (arith, found.inside)),
  )

  all_less : value t.arr 0 < m → (s : ℕ) → s < t.leaf_nodes → leaf t s < m
  all_less less s inside =
      let most =
        under-le t h (suc h.shape.levels) 0 (t.non_leaf_nodes + s) (omega (arith, h.shape.full))
          (omega (arith, h.shape.full)) (omega (arith, h.shape.full, h.shape.leaves)) in
      omega arith

  find_walk_lem {ℓ} :
      {E : Type ℓ}
      → 1 ≤ m
      → m ≤ value t.arr 0
      → (l : ℕ) × (walk {E = E} (t.non_leaf_nodes + 1) t m 0 ≡ ok (some l)) × First t h m l
  find_walk_lem {E} pos enough =
      walk_lem t h {E = E} m (suc h.shape.levels) 0 (t.non_leaf_nodes + 1) pos
        (omega (arith, h.shape.full, lt-pow (suc h.shape.levels))) (omega (arith, h.shape.full))
        (omega (arith, h.shape.full)) enough (λ s above j. absurd (omega (arith, h.shape.full)))

-- A search for at least one unit of space in a tree of maxima ends without a panic, within the
-- loop's fuel. It returns no slot only if every slot has less than was asked for. A slot that it
-- returns has enough, and every slot before it has less.
pub find_available_correct {ℓ} :
    {E : Type ℓ} (t : BinaryTree) (m : ℕ)
    → IsHeap t
    → 1 ≤ m
    → ((find_available {E = E} t m ≡ ok none) × ((s : ℕ) → s < t.leaf_nodes → leaf t s < m))
      ⊎ ((r : FsmSlot) × (find_available {E = E} t m ≡ ok (some r))
          × (r.slot_index < t.leaf_nodes)
          × (m ≤ leaf t r.slot_index)
          × ((s : ℕ) → s < r.slot_index → leaf t s < m))
find_available_correct {E} t m h pos = elim (dec_lt (value t.arr 0) m) [
  | yes less ↦ inl (find_none t m h less, all_less t m h less)
  | no enough ↦
      let (l, run, found) = find_walk_lem t m h {E = E} pos (omega arith) in
      let same : t.non_leaf_nodes + (l - t.non_leaf_nodes) ≡ l = omega (arith, found.above) in
      inr (
        record {
          slot_index = l - t.non_leaf_nodes;
          available_space = value t.arr (l - t.non_leaf_nodes);
        },
        find_walk t m h (omega arith) ∙ rw run (found_slot-eq t m h l found),
        omega (arith, found.above, found.inside, h.shape.counted),
        rw same found.enough,
        λ s before. found.first (t.non_leaf_nodes + s) (omega arith) (omega (arith, found.above)),
      )
]
