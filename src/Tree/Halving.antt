-- ===== src/Tree/Halving.antt =====
-- The halves of a node that is split.
use fiddlers_db.Prelude.{◌∙◌, sym, some, lt→leb}
use fiddlers_db.Tree.Vec.{remove_at}
use fiddlers_db.Prelude.{◌+◌, ◌-◌}
use fiddlers_db.Prelude.{
  ℕ, ◌-◌, ◌/◌, ◌≤◌, ◌<◌, ◌≡◌, refl, ap, arith, List, [], ◌∷◌, ◌++◌, length, take, drop, get_elem?,
  take-append-drop, length-take, length-drop, some,
}
use fiddlers_db.Prelude.{le→leb, true}
use fiddlers_db.Prelude.Int.{ℤ}
use fiddlers_db.Prelude.Outcome.{ok}
use fiddlers_db.Tree.{NodePage, is_full, min_keys}
use fiddlers_db.Tree.Node.{Halves, halve}

first_of {ℓ} : {A : Type ℓ} (xs : List A) → 0 < length xs → (x : A) × (ys : List A) × (xs ≡ x ∷ ys)
first_of [] h = absurd (omega arith)
first_of (x ∷ xs) h = (x, xs, refl)

abbrev middle : NodePage → ℕ
middle node = length node.keys / 2

-- The leaf's halves, where the right one begins with the key `k`.
abbrev leaf_halves : NodePage → ℤ → Halves
leaf_halves node k = record {
  left = record node {
    keys = take (middle node) node.keys;
    values = take (middle node) node.values;
  };
  right_keys = drop (middle node) node.keys;
  right_children = [];
  right_values = drop (middle node) node.values;
  promoted_key = k;
}

halve_leaf-eq {ℓ} :
    {E : Type ℓ} (node : NodePage) (k : ℤ) (ks : List ℤ)
    → node.children ≡ []
    → length node.values ≡ length node.keys
    → drop (middle node) node.keys ≡ k ∷ ks
    → halve {E = E} node ≡ ok (leaf_halves node k)
unfolding halve
halve_leaf-eq {E} node k ks no_child counted e =
    let first : get_elem? (drop (middle node) node.keys) 0 ≡ some k = ap (λ l. get_elem? l 0) e in
    rw (
      le→leb (middle node) (length node.keys) (omega arith),
      no_child,
      le→leb (middle node) (length node.values) (omega arith),
      first,
    )

-- A full leaf with a value for each key is cut into two leaves that hold its entries in the same
-- order, neither of them short of keys. The promoted key is the first key of the right leaf.
pub halve_leaf {ℓ} :
    {E : Type ℓ} (node : NodePage)
    → node.children ≡ []
    → length node.values ≡ length node.keys
    → 4 ≤ node.max_degree
    → is_full node ≡ true
    → (h : Halves) × (halve {E = E} node ≡ ok h)
      × (h.left.keys ++ h.right_keys ≡ node.keys)
      × (h.left.values ++ h.right_values ≡ node.values)
      × (length h.left.values ≡ length h.left.keys)
      × (h.left.children ≡ [])
      × (h.right_children ≡ [])
      × (get_elem? h.right_keys 0 ≡ some h.promoted_key)
      × (min_keys node ≤ length h.left.keys)
      × (min_keys node ≤ length h.right_keys)
halve_leaf {E} node no_child counted degree full =
    let m = middle node in
    let many : node.max_degree - 1 ≤ length node.keys = ground arith in
    let (k, ks, e) = first_of (drop m node.keys) (omega (arith, length-drop m node.keys)) in
    (
      leaf_halves node k,
      halve_leaf-eq node k ks no_child counted e,
      take-append-drop m node.keys,
      take-append-drop m node.values,
      omega (arith, length-take m node.keys, length-take m node.values),
      no_child,
      refl,
      ap (λ l. get_elem? l 0) e,
      omega (arith, length-take m node.keys),
      omega (arith, length-drop m node.keys),
    )

-- The inner node's halves, where the tail of its keys is `k ∷ ks`.
abbrev inner_halves : NodePage → ℤ → List ℤ → Halves
inner_halves node k ks = record {
  left = record node {
    keys = take (middle node) node.keys;
    children = take (middle node + 1) node.children;
  };
  right_keys = ks;
  right_children = drop (middle node + 1) node.children;
  right_values = [];
  promoted_key = k;
}

halve_inner-eq {ℓ} :
    {E : Type ℓ} (node : NodePage) (k : ℤ) (ks : List ℤ)
    → length node.children ≡ length node.keys + 1
    → drop (middle node) node.keys ≡ k ∷ ks
    → halve {E = E} node ≡ ok (inner_halves node k ks)
unfolding halve
halve_inner-eq {E} node k ks counted e =
    let first : remove_at (drop (middle node) node.keys) 0 ≡ some (k, ks) =
      ap (λ l. remove_at l 0) e in
    rw (
      le→leb (middle node) (length node.keys) (omega arith),
      lt→leb (length node.children) 0 (omega arith),
      le→leb (middle node + 1) (length node.children) (omega arith),
      first,
    )

-- A full inner node with one child more than keys is cut into two such nodes that hold its children
-- in the same order, neither of them short of keys. The promoted key is the one between them, and
-- stays in neither.
pub halve_inner {ℓ} :
    {E : Type ℓ} (node : NodePage)
    → length node.children ≡ length node.keys + 1
    → 4 ≤ node.max_degree
    → is_full node ≡ true
    → (h : Halves) × (halve {E = E} node ≡ ok h)
      × (h.left.keys ++ h.promoted_key ∷ h.right_keys ≡ node.keys)
      × (h.left.children ++ h.right_children ≡ node.children)
      × (length h.left.children ≡ length h.left.keys + 1)
      × (length h.right_children ≡ length h.right_keys + 1)
      × (h.right_values ≡ [])
      × (min_keys node ≤ length h.left.keys)
      × (min_keys node ≤ length h.right_keys)
halve_inner {E} node counted degree full =
    let m = middle node in
    let many : node.max_degree - 1 ≤ length node.keys = ground arith in
    let (k, ks, e) = first_of (drop m node.keys) (omega (arith, length-drop m node.keys)) in
    let size : length (drop m node.keys) ≡ length ks + 1 = ap length e ∙ omega arith in
    (
      inner_halves node k ks,
      halve_inner-eq node k ks counted e,
      ap (λ l. take m node.keys ++ l) (sym e) ∙ take-append-drop m node.keys,
      take-append-drop (m + 1) node.children,
      omega (arith, length-take m node.keys, length-take (m + 1) node.children),
      omega (arith, size, length-drop m node.keys, length-drop (m + 1) node.children),
      refl,
      omega (arith, length-take m node.keys),
      omega (arith, size, length-drop m node.keys),
    )
