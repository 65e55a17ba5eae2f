-- ===== src/FreeSpace/BinaryTree/Walk.antt =====
-- The loop of `find_available` on a tree of maxima: it ends at the first leaf with enough space.
use fiddlers_db.Prelude.{ℕ, zero, suc, ◌+◌, ◌*◌, ◌^◌, ◌≤◌, ◌<◌, ◌≡◌, ◌∙◌, ap, length, arith}
use fiddlers_db.Prelude.{some, le→leb, lt→leb}
use fiddlers_db.Prelude.{get_or_beyond}
use fiddlers_db.Prelude.Outcome.{ok, ◌>>=◌}
use native.Mathlib.Decide.{dec_lt, dec_le}
use native.Mathlib.Nat.{pow-suc}
use fiddlers_db.FreeSpace.BinaryTree.{BinaryTree, left_child, right_child, next_child, walk}
use fiddlers_db.FreeSpace.BinaryTree.Heap.{value, IsHeap, get_value, right_value-eq, pow-pos}

le-mul : (a q : ℕ) → 1 ≤ q → a ≤ a * q
le-mul a q h = grind arith

double : (c r : ℕ) → c * 2 ^ suc r ≡ 2 * (c * 2 ^ r)
double c r = omega (arith, ap (λ (x : ℕ). c * x) (pow-suc 2 r))

-- The bounds of a node's leaves, one level down.
double_bounds :
    (c r : ℕ)
    → (2 ^ suc r ≡ 2 * 2 ^ r) × (c * 2 ^ suc r ≡ 2 * (c * 2 ^ r)) × (0 < 2 ^ r) × (c ≤ c * 2 ^ r)
double_bounds c r =
    (omega (arith, pow-suc 2 r), double c r, pow-pos r, le-mul c (2 ^ r) (pow-pos r))

next_child_right :
    (c left_value right_val m : ℕ)
    → left_value < m
    → m ≤ right_val
    → next_child c left_value right_val m ≡ some (right_child c)
next_child_right c left_value right_val m less enough =
    rw (lt→leb m left_value less, le→leb m right_val enough)

-- The leaves under node `c`, `r` levels down, are those from `(c + 1) * 2 ^ r - 1` up to
-- `(c + 2) * 2 ^ r - 1`.
module _ (t : BinaryTree) (h : IsHeap t) where
  -- A node whose leaves are in range is an inner node, if it is above the leaves.
  inner :
      (r c : ℕ) → c * 2 ^ suc r + 2 * 2 ^ suc r ≤ 2 * (t.non_leaf_nodes + 1) → c < t.non_leaf_nodes
  inner r c k = omega (arith, double_bounds c r)

  -- No leaf under a node has a larger value than the node.
  pub under-le :
      (r c l : ℕ)
      → c * 2 ^ r + 2 * 2 ^ r ≤ 2 * (t.non_leaf_nodes + 1)
      → c * 2 ^ r + 2 ^ r ≤ l + 1
      → l + 1 < c * 2 ^ r + 2 * 2 ^ r
      → value t.arr l ≤ value t.arr c
  under-le zero c l k low high = let same : l ≡ c = omega arith in rw same (omega arith)
  under-le (suc r) c l k low high =
      let top = h.maxima c (inner r c k) in
      let b = double_bounds c r in
      elim (dec_lt (l + 1) (2 * (c * 2 ^ r) + 3 * 2 ^ r)) [
        | yes left ↦ omega (
          arith,
          top,
          under-le r (left_child c) l (omega (arith, b)) (omega (arith, b)) (omega arith),
        )
        | no right ↦ omega (
          arith,
          top,
          under-le r (right_child c) l (omega (arith, b)) (omega arith) (omega (arith, b)),
        )
      ]

  -- A child is in the array, if its parent has a value.
  left_inside : (c : ℕ) → c < t.non_leaf_nodes → 1 ≤ value t.arr c → left_child c < length t.arr
  left_inside c k some_value = elim (dec_lt (left_child c) (length t.arr)) [
    | yes inside ↦ inside
    | no beyond ↦ absurd (
        omega (
          arith,
          h.maxima c k,
          get_or_beyond t.arr (left_child c) 0 (omega arith),
          get_or_beyond t.arr (right_child c) 0 (omega arith),
        ))
  ]

  node_inside : (c : ℕ) → 1 ≤ value t.arr c → c < length t.arr
  node_inside c some_value = elim (dec_lt c (length t.arr)) [
    | yes inside ↦ inside
    | no beyond ↦ absurd (omega (arith, get_or_beyond t.arr c 0 (omega arith)))
  ]

  -- What the loop returns: the first leaf with the value.
  pub record First (min_space_needed l : ℕ) : Type 0 where
    pub above : t.non_leaf_nodes ≤ l
    pub inside : l < length t.arr
    pub enough : min_space_needed ≤ value t.arr l
    pub first : (s : ℕ) → t.non_leaf_nodes ≤ s → s < l → value t.arr s < min_space_needed

  walk_leaf {ℓ} :
      {E : Type ℓ} (fuel m c : ℕ)
      → t.non_leaf_nodes ≤ c
      → walk {E = E} (suc fuel) t m c ≡ ok (some c)
  unfolding walk
  walk_leaf fuel m c k = rw (walk, le→leb t.non_leaf_nodes c k)

  walk_left {ℓ} :
      {E : Type ℓ} (fuel m c : ℕ)
      → c < t.non_leaf_nodes
      → left_child c < length t.arr
      → m ≤ value t.arr (left_child c)
      → walk {E = E} (suc fuel) t m c ≡ walk fuel t m (left_child c)
  unfolding walk
  walk_left {E} fuel m c k inside enough = rw (
    walk,
    lt→leb t.non_leaf_nodes c k,
    get_value {E = E} t.arr (left_child c) inside,
    right_value-eq {E = E} t.arr (right_child c),
    le→leb m (value t.arr (left_child c)) enough,
  )

  walk_right {ℓ} :
      {E : Type ℓ} (fuel m c : ℕ)
      → c < t.non_leaf_nodes
      → left_child c < length t.arr
      → value t.arr (left_child c) < m
      → m ≤ value t.arr (right_child c)
      → walk {E = E} (suc fuel) t m c ≡ walk fuel t m (right_child c)
  unfolding walk
  walk_right {E} fuel m c k inside less enough = rw (
    walk,
    lt→leb t.non_leaf_nodes c k,
    get_value {E = E} t.arr (left_child c) inside,
    right_value-eq {E = E} t.arr (right_child c),
    ◌>>=◌,
    next_child_right c (value t.arr (left_child c)) (value t.arr (right_child c)) m less enough,
  )

  pub walk_lem {ℓ} :
      {E : Type ℓ} (m r c fuel : ℕ)
      → 1 ≤ m
      → r < fuel
      → c * 2 ^ r + 2 * 2 ^ r ≤ 2 * (t.non_leaf_nodes + 1)
      → t.non_leaf_nodes + 1 ≤ c * 2 ^ r + 2 ^ r
      → m ≤ value t.arr c
      → ((s : ℕ) → t.non_leaf_nodes ≤ s → s + 1 < c * 2 ^ r + 2 ^ r → value t.arr s < m)
      → (l : ℕ) × (walk {E = E} fuel t m c ≡ ok (some l)) × First m l
  walk_lem m r c zero pos f k low enough before = absurd (omega arith)
  walk_lem {E} m zero c (suc fuel) pos f k low enough before = (
    c,
    walk_leaf fuel m c (omega arith),
    record {
      above = omega arith;
      inside = node_inside c (omega arith);
      enough = enough;
      first = λ s above below. before s above (omega arith);
    },
  )
  walk_lem {E} m (suc r) c (suc fuel) pos f k low enough before =
      let b = double_bounds c r in
      let below = inner r c k in
      let inside = left_inside c below (omega arith) in
      elim (dec_le m (value t.arr (left_child c))) [
        | yes here ↦
            let (l, run, is_first) =
              walk_lem {E = E} m r (left_child c) fuel pos (omega arith) (omega (arith, b))
                (omega (arith, b)) here (λ s above j. before s above (omega (arith, b))) in
            (l, walk_left fuel m c below inside here ∙ run, is_first)
        | no less ↦
            let there : m ≤ value t.arr (right_child c) = omega (arith, h.maxima c below) in
            let (l, run, is_first) =
              walk_lem {E = E} m r (right_child c) fuel pos (omega arith) (omega (arith, b))
                (omega (arith, b)) there
                (λ s above j. elim (dec_lt (s + 1) (c * 2 ^ suc r + 2 ^ suc r)) [
                  | yes early ↦ before s above early
                  | no late ↦
                      let most =
                        under-le r (left_child c) s (omega (arith, b)) (omega (arith, b))
                          (omega (arith, b)) in
                      omega arith
                ]) in
            (l, walk_right fuel m c below inside (omega arith) there ∙ run, is_first)
      ]
