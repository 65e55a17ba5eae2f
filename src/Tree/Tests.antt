-- ===== src/Tree/Tests.antt =====
-- Runs of the node operations, and uses of their theorems.
use fiddlers_db.Tree.Deletion.{Trio, lend_left, lend_right}
use fiddlers_db.Tree.Lending.{Lent, lend_left_correct, lend_right_correct}
use fiddlers_db.Prelude.{Option, set}
use fiddlers_db.Prelude.Int.{i32_as_usize}
use fiddlers_db.Tree.{NodePager, NodePagerError, io}
use fiddlers_db.Prelude.{
  zero, suc, ◌≡◌, ◌++◌, ◌≤◌, refl, List, [], ◌∷◌, length, arith, none, some, get_elem?, false,
}
use fiddlers_db.Prelude.Int.{ℤ, pos, negsuc}
use fiddlers_db.Prelude.{true}
use fiddlers_db.Prelude.Outcome.{Outcome, ok}
use fiddlers_db.Tree.{NodePage, NodeOperationError, min_keys}
use fiddlers_db.Tree.Search.{
  FindKeyResponse, equal, less_than, greater_than_the_last, binary_search, narrow, after_narrow,
  scan,
}
use fiddlers_db.Tree.Found.{IsSorted, Answers, binary_search_correct}
use fiddlers_db.Tree.Node.{Halves, halve}
use fiddlers_db.Tree.Halving.{halve_leaf, halve_inner}
use fiddlers_db.Tree.InsertKey.{HasEntry, insert_key_value_correct}
use fiddlers_db.Prelude.{ℕ, ◌+◌, ◌⊎◌, ◌<◌}
use fiddlers_db.Prelude.Outcome.{err}
use fiddlers_db.Tree.{try_insert_duplicate}
use fiddlers_db.Tree.Node.{insert_key_value}
use fiddlers_db.Tree.Found.{key_at}

abbrev twelve : List ℤ
twelve =
    negsuc 6
    ∷ negsuc 0
    ∷ pos 2
    ∷ pos 3
    ∷ pos 5
    ∷ pos 8
    ∷ pos 9
    ∷ pos 10
    ∷ pos 14
    ∷ pos 20
    ∷ pos 21
    ∷ pos 30
    ∷ []

find_14 : binary_search {E = NodeOperationError} (pos 14) twelve ≡ ok (equal 8)
unfolding binary_search narrow after_narrow scan
find_14 = refl

find_4 : binary_search {E = NodeOperationError} (pos 4) twelve ≡ ok (less_than 4)
unfolding binary_search narrow after_narrow scan
find_4 = refl

find_31 : binary_search {E = NodeOperationError} (pos 31) twelve ≡ ok (greater_than_the_last 11)
unfolding binary_search narrow after_narrow scan
find_31 = refl

abbrev three : List ℤ
three = negsuc 6 ∷ pos 2 ∷ pos 14 ∷ []

three-IsSorted : IsSorted three
three-IsSorted zero zero h k = omega arith
three-IsSorted zero (suc zero) h k = omega arith
three-IsSorted zero (suc (suc zero)) h k = omega arith
three-IsSorted zero (suc (suc (suc j))) h k = absurd (omega arith)
three-IsSorted (suc zero) zero h k = absurd (omega arith)
three-IsSorted (suc zero) (suc zero) h k = absurd (omega arith)
three-IsSorted (suc zero) (suc (suc zero)) h k = omega arith
three-IsSorted (suc zero) (suc (suc (suc j))) h k = absurd (omega arith)
three-IsSorted (suc (suc i)) zero h k = absurd (omega arith)
three-IsSorted (suc (suc i)) (suc zero) h k = absurd (omega arith)
three-IsSorted (suc (suc i)) (suc (suc zero)) h k = absurd (omega arith)
three-IsSorted (suc (suc i)) (suc (suc (suc j))) h k = absurd (omega arith)

binary_search_correct_example :
    (r : FindKeyResponse) × (binary_search {E = NodeOperationError} (pos 2) three ≡ ok r)
    × Answers (pos 2) three r
binary_search_correct_example = binary_search_correct (pos 2) three three-IsSorted

abbrev pub full_leaf : NodePage
full_leaf = record {
  id = pos 0;
  deleted = false;
  next_deleted_page = none;
  keys = three;
  children = [];
  values = (pos 1, pos 0) ∷ (pos 1, pos 1) ∷ (pos 2, pos 0) ∷ [];
  next_leaf = none;
  max_degree = 4;
  changed = false;
}

halve_leaf_example :
    (h : Halves) × (halve {E = NodeOperationError} full_leaf ≡ ok h)
    × (h.left.keys ++ h.right_keys ≡ three)
    × (h.left.values ++ h.right_values ≡ full_leaf.values)
    × (length h.left.values ≡ length h.left.keys)
    × (h.left.children ≡ [])
    × (h.right_children ≡ [])
    × (get_elem? h.right_keys 0 ≡ some h.promoted_key)
    × (min_keys full_leaf ≤ length h.left.keys)
    × (min_keys full_leaf ≤ length h.right_keys)
halve_leaf_example = halve_leaf full_leaf refl refl (omega arith) refl

-- A node with three keys and four children.
abbrev full_inner : NodePage
full_inner = record full_leaf { children = pos 1 ∷ pos 2 ∷ pos 3 ∷ pos 4 ∷ []; values = [] }

halve_inner_example :
    (h : Halves) × (halve {E = NodeOperationError} full_inner ≡ ok h)
    × (h.left.keys ++ h.promoted_key ∷ h.right_keys ≡ three)
    × (h.left.children ++ h.right_children ≡ full_inner.children)
    × (length h.left.children ≡ length h.left.keys + 1)
    × (length h.right_children ≡ length h.right_keys + 1)
    × (h.right_values ≡ [])
    × (min_keys full_inner ≤ length h.left.keys)
    × (min_keys full_inner ≤ length h.right_keys)
halve_inner_example = halve_inner full_inner refl (omega arith) refl

insert_key_value_correct_example :
    ((i : ℕ) × (i < 3)
      × (key_at three i ≡ pos 7)
      × (insert_key_value full_leaf (pos 7) (pos 9, pos 1) ≡ err try_insert_duplicate))
    ⊎ ((node' : NodePage) × (insert_key_value full_leaf (pos 7) (pos 9, pos 1) ≡ ok node')
        × HasEntry full_leaf (pos 7) (pos 9, pos 1) node')
insert_key_value_correct_example =
    insert_key_value_correct full_leaf (pos 7) (pos 9, pos 1) three-IsSorted refl

-- A pager over a list of pages, at the indices of their identifiers.
abbrev pub page_or_io :
    List NodePage
    → Option NodePage
    → Outcome (NodePagerError × List NodePage) (NodePage × List NodePage)
page_or_io pages none = err (io, pages)
page_or_io pages (some node) = ok (node, pages)

abbrev pub list_pager : NodePager (List NodePage)
list_pager = record {
  read_page = λ pages id. page_or_io pages (get_elem? pages (i32_as_usize id));
  write_page = λ pages node. ok (set pages (i32_as_usize node.id) node);
  allocate_new_page = λ pages.
      let node = record full_leaf {
        id = pos (length pages);
        keys = [];
        values = [];
        changed = true;
      } in
      ok (node, pages ++ node ∷ []);
  delete_page = λ pages id. ok pages;
}

abbrev pub left_leaf : NodePage
left_leaf = record full_leaf {
  keys = pos 1 ∷ pos 3 ∷ [];
  values = (pos 1, pos 0) ∷ (pos 1, pos 1) ∷ [];
}

abbrev pub right_leaf : NodePage
right_leaf = record full_leaf { id = pos 1; keys = pos 5 ∷ []; values = (pos 2, pos 0) ∷ [] }

abbrev pub parent : NodePage
parent = record full_leaf {
  id = pos 2;
  keys = pos 5 ∷ [];
  children = pos 0 ∷ pos 1 ∷ [];
  values = [];
}

abbrev pub pages : List NodePage
pages = left_leaf ∷ right_leaf ∷ parent ∷ []

lend_left_correct_example :
    (t : Trio) × (lend_left parent 1 right_leaf left_leaf ≡ ok t)
    × (length t.target.keys ≡ 2)
    × Lent parent 0 t.parent
        (left_leaf.keys ++ right_leaf.keys)
        (left_leaf.values ++ right_leaf.values)
        t.neighbour
        t.target
lend_left_correct_example =
    lend_left_correct parent 0 right_leaf left_leaf refl refl refl (omega arith) (omega arith)

-- The same two leaves, in the other order.
lend_right_correct_example :
    (t : Trio) × (lend_right parent 0 right_leaf left_leaf ≡ ok t)
    × (length t.target.keys ≡ 2)
    × Lent parent 0 t.parent
        (right_leaf.keys ++ left_leaf.keys)
        (right_leaf.values ++ left_leaf.values)
        t.target
        t.neighbour
lend_right_correct_example =
    lend_right_correct parent 0 right_leaf left_leaf refl refl refl (omega arith) (omega arith)
