-- ===== src/FreeSpace/BinaryTree/Update.antt =====
-- `set_available_space` on a tree of maxima.
use fiddlers_db.Prelude.{
  ℕ, zero, suc, ◌+◌, ◌-◌, ◌*◌, ◌/◌, ◌≤◌, ◌<◌, ◌≡◌, ◌≢◌, refl, List, length, arith, max, set, inl,
  inr, sym, ◌∙◌, false, ==_iff, if◌then◌else◌,
}
use fiddlers_db.Prelude.{
  get_or-set_self, get_or-set_ne, length-set, Bool-cases, ◌==◌, leb, le→leb, lt→ltb, lt→leb, ◌&&◌,
}
use fiddlers_db.Prelude.Outcome.{ok, ◌>>=◌}
use native.Mathlib.Decide.{ℕ_discrete}
use fiddlers_db.FreeSpace.BinaryTree.{
  BinaryTree, left_child, right_child, bubble, set_available_space,
}
use fiddlers_db.FreeSpace.BinaryTree.Heap.{
  value, IsMax, HasShape, IsHeap, leaf, get_value, right_value-eq, inner_pos,
}

-- Every inner node but `q` has the larger value of its children.
abbrev MaxBut : ℕ → List ℕ → ℕ → Type 0
MaxBut n arr q = (i : ℕ) → i < n → i ≢ q → IsMax arr i

-- What the loop does to an array of `n` inner nodes.
record Bubbled (n : ℕ) (arr arr' : List ℕ) : Type 0 where
  maxima : (i : ℕ) → i < n → IsMax arr' i
  leaves : (i : ℕ) → n ≤ i → value arr' i ≡ value arr i
  size : length arr' ≡ length arr

-- A write at an inner node of the maximum of its children.
module _ (n : ℕ) (arr : List ℕ) (q : ℕ) (inside : q < length arr) (but : MaxBut n arr q) where
  abbrev fixed : List ℕ
  fixed = set arr q (max (value arr (left_child q)) (value arr (right_child q)))

  value-fixed_ne : (i : ℕ) → q ≢ i → value fixed i ≡ value arr i
  value-fixed_ne i ne = get_or-set_ne arr q i _ 0 ne

  fixed_self : IsMax fixed q
  fixed_self =
      let at =
        get_or-set_self arr q (max (value arr (left_child q)) (value arr (right_child q))) 0
          inside in
      omega (
        arith,
        at,
        value-fixed_ne (left_child q) (omega arith),
        value-fixed_ne (right_child q) (omega arith),
      )

  -- Now only the parent of `q` may be wrong.
  fixed_other : (i : ℕ) → i < n → i ≢ q → i ≢ (q - 1) / 2 → IsMax fixed i
  fixed_other i h other ne =
      let at = value-fixed_ne i (λ e. other (sym e)) in
      let left = value-fixed_ne (left_child i) (omega arith) in
      let right = value-fixed_ne (right_child i) (omega arith) in
      omega (arith, at, left, right, but i h other)

  fixed-MaxBut : MaxBut n fixed ((q - 1) / 2)
  fixed-MaxBut i h ne = elim (ℕ_discrete i q) [
    | yes same ↦ rw same fixed_self
    | no other ↦ fixed_other i h other ne
  ]

  fixed_root : q ≡ 0 → (i : ℕ) → i < n → IsMax fixed i
  fixed_root top i h = elim (ℕ_discrete i q) [
    | yes same ↦ rw same fixed_self
    | no other ↦ fixed_other i h other (omega arith)
  ]

  -- No parent had to change.
  unchanged :
      value arr q ≡ max (value arr (left_child q)) (value arr (right_child q))
      → (i : ℕ) → i < n
      → IsMax arr i
  unchanged e i h = elim (ℕ_discrete i q) [ yes same ↦ rw same e | no other ↦ but i h other ]

bubble_step {ℓ} :
    {E : Type ℓ} (fuel : ℕ) (arr : List ℕ) (node q : ℕ)
    → q ≡ (node - 1) / 2
    → 0 < node
    → node < length arr
    → let m = max (value arr (left_child q)) (value arr (right_child q)) in
      bubble {E = E} (suc fuel) arr node ≡ (
        if value arr q == m
        then ok arr
        else if q == 0
        then ok (set arr q m)
        else bubble fuel (set arr q m) q)
unfolding bubble
bubble_step fuel arr node q e pos inside = rw (
  le→leb 1 node pos,
  sym e,
  get_value arr (left_child q) (omega arith),
  right_value-eq arr (right_child q),
  get_value arr q (omega arith),
)

bubble_lem {ℓ} :
    {E : Type ℓ} (n fuel : ℕ) (arr : List ℕ) (node : ℕ)
    → node < fuel
    → 0 < node
    → node < length arr
    → length arr ≤ 2 * n + 1
    → MaxBut n arr ((node - 1) / 2)
    → (arr' : List ℕ) × (bubble {E = E} fuel arr node ≡ ok arr') × Bubbled n arr arr'
bubble_lem n zero arr node f pos inside size but = absurd (omega arith)
bubble_lem {E} n (suc fuel) arr node f pos inside size but =
    let q = (node - 1) / 2 in
    let m = max (value arr (left_child q)) (value arr (right_child q)) in
    let step = bubble_step {E = E} fuel arr node q refl pos inside in
    let in_arr : q < length arr = omega arith in
    elim (ℕ_discrete (value arr q) m) [
      | yes same ↦ (
        arr,
        step ∙ rw ((==_iff (value arr q) m).1 same),
        record { maxima = unchanged n arr q in_arr but same; leaves = λ i h. refl; size = refl },
      )
      | no differ ↦
          let test : (value arr q == m) ≡ false = ground arith in
          elim (ℕ_discrete q 0) [
            | yes top ↦ (
              fixed n arr q in_arr but,
              step ∙ rw (test, (==_iff q 0).1 top),
              record {
                maxima = fixed_root n arr q in_arr but top;
                leaves = λ i h. value-fixed_ne n arr q in_arr but i (omega arith);
                size = length-set arr q m;
              },
            )
            | no below ↦
                let top : (q == 0) ≡ false = ground arith in
                let (arr', run, after) =
                  bubble_lem {E = E} n fuel (fixed n arr q in_arr but) q (omega arith) (omega arith)
                    (omega (arith, length-set arr q m)) (omega (arith, length-set arr q m))
                    (fixed-MaxBut n arr q in_arr but) in
                (
                  arr',
                  step ∙ rw (test, top) run,
                  record {
                    maxima = after.maxima;
                    leaves =
                        λ i h. after.leaves i h ∙ value-fixed_ne n arr q in_arr but i (omega arith);
                    size = after.size ∙ length-set arr q m;
                  },
                )
          ]
    ]

module _ (t : BinaryTree) (slot v : ℕ) (h : IsHeap t) (inside : slot < t.leaf_nodes) where
  abbrev node : ℕ
  node = t.non_leaf_nodes + slot

  abbrev written : List ℕ
  written = set t.arr node v

  node-lt : node < length t.arr
  node-lt = omega (arith, h.shape.counted)

  set_step {ℓ} :
      (E : Type ℓ)
      → set_available_space {E = E} t slot v ≡ (
          if value t.arr node == v && leb v (value t.arr 0)
          then ok t
          else (bubble (node + 1) written node >>= λ arr. ok (record t { arr = arr })))
  unfolding set_available_space
  set_step E = rw (
    lt→ltb slot t.leaf_nodes inside,
    lt→leb (length t.arr) node node-lt,
    get_value t.arr node node-lt,
    get_value t.arr 0 (omega (arith, node-lt)),
  )

  written-MaxBut : MaxBut t.non_leaf_nodes written ((node - 1) / 2)
  written-MaxBut i below ne =
      let at = get_or-set_ne t.arr node i v 0 (omega arith) in
      let left = get_or-set_ne t.arr node (left_child i) v 0 (omega arith) in
      let right = get_or-set_ne t.arr node (right_child i) v 0 (omega arith) in
      omega (arith, at, left, right, h.maxima i below)

  bubbled {ℓ} :
      (E : Type ℓ)
      → (arr' : List ℕ) × (bubble {E = E} (node + 1) written node ≡ ok arr')
        × Bubbled t.non_leaf_nodes written arr'
  bubbled E =
      bubble_lem t.non_leaf_nodes (node + 1) written node (omega arith)
        (omega (arith, inner_pos t h.shape)) (omega (arith, node-lt, length-set t.arr node v))
        (omega (arith, length-set t.arr node v, h.shape.counted, h.shape.leaves)) written-MaxBut

  shape_of : (arr' : List ℕ) → length arr' ≡ length t.arr → HasShape (record t { arr = arr' })
  shape_of arr' e = record {
    levels = h.shape.levels;
    full = h.shape.full;
    counted = e ∙ h.shape.counted;
    leaves = h.shape.leaves;
    some_leaf = h.shape.some_leaf;
  }

-- Setting the value of a slot of a tree of maxima ends without a panic, within the loop's fuel. The
-- tree stays a tree of maxima of the same shape, the slot has the new value, and every other slot
-- keeps its value.
pub set_available_space_correct {ℓ} :
    {E : Type ℓ} (t : BinaryTree) (slot v : ℕ)
    → IsHeap t
    → slot < t.leaf_nodes
    → (t' : BinaryTree) × (set_available_space {E = E} t slot v ≡ ok t')
      × IsHeap t'
      × (t'.non_leaf_nodes ≡ t.non_leaf_nodes)
      × (t'.leaf_nodes ≡ t.leaf_nodes)
      × (leaf t' slot ≡ v)
      × ((s : ℕ) → s ≢ slot → leaf t' s ≡ leaf t s)
set_available_space_correct {E} t slot v h inside =
    let node = t.non_leaf_nodes + slot in
    elim (Bool-cases (value t.arr node == v && leb v (value t.arr 0))) [
      | inl same ↦
          (t, set_step t slot v h inside E ∙ rw same, h, refl, refl, ground arith, λ s ne. refl)
      | inr differ ↦
          let (arr', run, after) = bubbled t slot v h inside E in
          (
            record t { arr = arr' },
            set_step t slot v h inside E ∙ rw (differ, run),
            record {
              shape = shape_of t slot v h inside arr' (after.size ∙ length-set t.arr node v);
              maxima = after.maxima;
            },
            refl,
            refl,
            after.leaves node (omega arith)
                ∙ get_or-set_self t.arr node v 0 (omega (arith, h.shape.counted)),
            λ s ne.
                after.leaves (t.non_leaf_nodes + s) (omega arith)
                ∙ get_or-set_ne t.arr node (t.non_leaf_nodes + s) v 0 (omega arith),
          )
    ]
