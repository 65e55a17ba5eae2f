-- ===== src/Tree/ReuseTests.antt =====
-- A split that uses a deleted page again.
use fiddlers_db.Prelude.{◌≡◌, refl, arith, Option, some, [], ◌∷◌}
use fiddlers_db.Prelude.Int.{ℤ, pos}
use fiddlers_db.Prelude.Outcome.{ok}
use fiddlers_db.Tree.{NodePage, reallocate}
use fiddlers_db.Tree.Pager.{PagerState, read_file, node_pager}
use fiddlers_db.Tree.Pager.Reuse.{split_loses_right, left_of}
use fiddlers_db.Tree.Node.{Failure, Halves, halve, split}
use fiddlers_db.Tree.Pager.Coherent.{IsWritable}
use fiddlers_db.Tree.Tests.{full_leaf, left_leaf}
use fiddlers_db.Tree.StoreTests.{
  one_node, one_node_laws, tree_meta_data, tree_state, left_read, four-IsDegree, small,
}

-- The page 0 is deleted, and the leaf on page 1 is full.
abbrev reuse_state : PagerState (Option (ℤ × NodePage))
reuse_state = record tree_state {
  meta_data = record tree_meta_data { first_deleted_page = some (pos 0) };
}

abbrev split_leaf : NodePage
split_leaf = record full_leaf { id = pos 1; keys = pos 5 ∷ pos 6 ∷ pos 7 ∷ [] }

abbrev split_halves : Halves
split_halves = record {
  left = record split_leaf { keys = pos 5 ∷ []; values = (pos 1, pos 0) ∷ [] };
  right_keys = pos 6 ∷ pos 7 ∷ [];
  right_children = [];
  right_values = (pos 1, pos 1) ∷ (pos 2, pos 0) ∷ [];
  promoted_key = pos 6;
}

split_halved : halve {E = Failure (node_pager one_node)} split_leaf ≡ ok split_halves
unfolding halve
split_halved = refl

reallocated-IsWritable : IsWritable 4 (reallocate left_leaf)
unfolding reallocate
reallocated-IsWritable = record {
  fits = record { keys_fit = omega arith; children_fit = omega arith; values_fit = omega arith };
  storable = record {
    id_ok = small 0 (omega arith);
    next_deleted_ok = tt;
    children_ok = tt;
    values_ok = tt;
    next_leaf_ok = tt;
  };
  keys_storable = tt;
  same_degree = refl;
  not_deleted = refl;
}

reallocated_id : (reallocate left_leaf).id ≡ pos 0
unfolding reallocate
reallocated_id = refl

left_half-IsWritable : IsWritable 4 (left_of split_halves (reallocate left_leaf))
unfolding reallocate
left_half-IsWritable = record {
  fits = record { keys_fit = omega arith; children_fit = omega arith; values_fit = omega arith };
  storable = record {
    id_ok = small 1 (omega arith);
    next_deleted_ok = tt;
    children_ok = tt;
    values_ok = ((small 1 (omega arith), small 0 (omega arith)), tt);
    next_leaf_ok = small 0 (omega arith);
  };
  keys_storable = (small 5 (omega arith), tt);
  same_degree = refl;
  not_deleted = refl;
}

split_loses_right_example :
    (left : NodePage) × (right : NodePage) × (s' : PagerState (Option (ℤ × NodePage))) × (split
        (node_pager one_node)
        reuse_state
        split_leaf
      ≡ ok (left, right, pos 6, s'))
    × (right.id ≡ pos 0)
    × (right.keys ≡ pos 6 ∷ pos 7 ∷ [])
    × (right.values ≡ split_halves.right_values)
    × (page : NodePage) × (read_file one_node 4 s'.file (pos 0) ≡ ok page)
    × (page.keys ≡ [])
    × (page.values ≡ [])
split_loses_right_example =
    split_loses_right one_node one_node_laws reuse_state 0 1 left_leaf split_leaf split_halves
      four-IsDegree (λ id node has. absurd (one_node_laws.new_has id node has)) refl left_read
      reallocated_id reallocated-IsWritable split_halved refl refl (λ e. absurd (omega (arith, e)))
      left_half-IsWritable
