-- ===== src/FreeSpace/BinaryTree/Heap.antt =====
-- The invariant of the tree: every inner node has the larger value of its two children, where a
-- child beyond the array counts as 0.
use fiddlers_db.Prelude.{ℕ, zero, suc, ◌+◌, ◌^◌, ◌≤◌, ◌<◌, ◌≡◌, List, length, arith, max}
use fiddlers_db.Prelude.{
  get_or, get_elem?, get_or_beyond, get_elem?-eq-get_or, ltb, Bool-cases, inl, inr,
}
use native.Mathlib.Nat.{pow-suc}
use fiddlers_db.Prelude.Outcome.{ok, or_panic}
use fiddlers_db.FreeSpace.BinaryTree.{BinaryTree, left_child, right_child, right_value}

abbrev pub value : List ℕ → ℕ → ℕ
value arr i = get_or arr i 0

-- Node `i` has the larger value of its children.
abbrev pub IsMax : List ℕ → ℕ → Type 0
IsMax arr i = value arr i ≡ max (value arr (left_child i)) (value arr (right_child i))

-- The shape that `node_structure` gives: the inner nodes form the full levels of a tree, and the
-- leaves the beginning of the next level.
pub record HasShape (t : BinaryTree) : Type 0 where
  pub levels : ℕ
  pub full : t.non_leaf_nodes + 1 ≡ 2 ^ suc levels
  pub counted : length t.arr ≡ t.non_leaf_nodes + t.leaf_nodes
  pub leaves : t.leaf_nodes ≤ t.non_leaf_nodes + 1
  pub some_leaf : 0 < t.leaf_nodes

pub record IsHeap (t : BinaryTree) : Type 0 where
  pub shape : HasShape t
  pub maxima : (i : ℕ) → i < t.non_leaf_nodes → IsMax t.arr i

-- The value of slot `s`.
abbrev pub leaf : BinaryTree → ℕ → ℕ
leaf t s = value t.arr (t.non_leaf_nodes + s)

pub get_value {ℓ} :
    {E : Type ℓ} (arr : List ℕ) (i : ℕ)
    → i < length arr
    → or_panic {E = E} (get_elem? arr i) ≡ ok (value arr i)
get_value arr i h = rw (get_elem?-eq-get_or arr i 0 h)

pub right_value-eq {ℓ} :
    {E : Type ℓ} (arr : List ℕ) (i : ℕ) → right_value {E = E} arr i ≡ ok (value arr i)
right_value-eq {E} arr i = elim (Bool-cases (ltb i (length arr))) [
  | inl inside ↦ rw inside (get_value arr i (ground arith))
  | inr beyond ↦ rw (beyond, get_or_beyond arr i 0 (ground arith))
]

pub pow-pos : (k : ℕ) → 0 < 2 ^ k
pow-pos zero = omega arith
pow-pos (suc k) = omega (arith, pow-pos k, pow-suc 2 k)

pub inner_pos : (t : BinaryTree) → HasShape t → 0 < t.non_leaf_nodes
inner_pos t h = omega (arith, h.full, pow-suc 2 h.levels, pow-pos h.levels)
