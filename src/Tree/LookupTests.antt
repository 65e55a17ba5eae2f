-- ===== src/Tree/LookupTests.antt =====
-- A search and a repeated insertion in a tree of two leaves, and uses of their theorems.
use fiddlers_db.Prelude.{
  some_inj, true, ℕ, zero, suc, Option, some, none, false, get_elem?, set, ◌≡◌, refl, List, [], ◌∷◌,
  ◌++◌, arith,
}
use fiddlers_db.Prelude.Int.{ℤ, pos, i32_as_usize}
use fiddlers_db.Prelude.Outcome.{ok}
use fiddlers_db.Tree.{NodePage, is_full}
use fiddlers_db.Tree.Found.{IsSorted}
use fiddlers_db.Tree.Node.{find_value, insert}
use fiddlers_db.Tree.Duplicates.{AreWritable, insert_duplicate_below}
use fiddlers_db.Tree.Shape.{Entries, lookup, Reads, last_child, more_children, IsTree}
use fiddlers_db.Tree.Lookup.{find_value_correct}
use fiddlers_db.Tree.Tests.{list_pager, page_or_io, left_leaf, right_leaf, parent, pages}

-- The pages stay as they are.
abbrev Same : List NodePage → Type 0
Same s = s ≡ pages

pub two-IsSorted : IsSorted (pos 1 ∷ pos 3 ∷ [])
two-IsSorted zero zero h k = absurd (omega arith)
two-IsSorted zero (suc zero) h k = omega arith
two-IsSorted zero (suc (suc j)) h k = absurd (omega arith)
two-IsSorted (suc i) zero h k = absurd (omega arith)
two-IsSorted (suc i) (suc zero) h k = absurd (omega arith)
two-IsSorted (suc i) (suc (suc j)) h k = absurd (omega arith)

pub one-IsSorted : IsSorted (pos 5 ∷ [])
one-IsSorted i j h k = absurd (omega arith)

abbrev pub left_entries : Entries
left_entries = (pos 1, (pos 1, pos 0)) ∷ (pos 3, (pos 1, pos 1)) ∷ []

abbrev pub right_entries : Entries
right_entries = (pos 5, (pos 2, pos 0)) ∷ []

left-IsTree : IsTree list_pager Same 0 left_leaf left_entries
left-IsTree = (
  record { no_children = refl; sorted = two-IsSorted; as_many = refl; all = refl },
  λ s e. (s, rw e refl, e),
)

right-IsTree : IsTree list_pager Same 0 right_leaf right_entries
right-IsTree = (
  record { no_children = refl; sorted = one-IsSorted; as_many = refl; all = refl },
  λ s e. (s, rw e refl, e),
)

parent-IsTree : IsTree list_pager Same 1 parent (left_entries ++ right_entries)
parent-IsTree = record {
  some_keys = omega arith;
  sorted = one-IsSorted;
  forest =
      more_children (pos 5) (pos 0) [] (pos 1 ∷ []) left_leaf left_entries right_entries
        left-IsTree.1 left-IsTree (omega arith, (omega arith, tt)) (omega arith, tt)
        (last_child (pos 1) right_leaf right_entries right-IsTree.1 right-IsTree);
}

find_value_correct_example :
    (s' : List NodePage) × (find_value list_pager 2 pages parent (pos 3)
      ≡ ok (lookup (pos 3) (left_entries ++ right_entries), s'))
    × Same s'
find_value_correct_example =
    find_value_correct list_pager Same 1 2 pages parent (left_entries ++ right_entries) (pos 3)
      parent-IsTree (omega arith) refl

-- The three pages are not full, and writing one back changes nothing.
page-IsSame :
    (k : ℕ) (node : NodePage)
    → get_elem? pages k ≡ some node
    → (is_full node ≡ false) × (set pages (i32_as_usize node.id) node ≡ pages)
page-IsSame zero node h = let e : left_leaf ≡ node = some_inj h in rw (← e) (refl, refl)
page-IsSame (suc zero) node h = let e : right_leaf ≡ node = some_inj h in rw (← e) (refl, refl)
page-IsSame (suc (suc zero)) node h = let e : parent ≡ node = some_inj h in rw (← e) (refl, refl)
page-IsSame (suc (suc (suc k))) node h = cc

page_of :
    (found : Option NodePage) (node : NodePage) (s' : List NodePage)
    → page_or_io pages found ≡ ok (node, s')
    → found ≡ some node
page_of none node s' h = cc
page_of (some n) node s' h = cc

pages-AreWritable : AreWritable list_pager Same
pages-AreWritable = record {
  not_full = λ id node reads. (page-IsSame (i32_as_usize id) node (page_at id node reads)).0;
  written = λ id node s reads same.
      (pages, rw (same, (page-IsSame (i32_as_usize id) node (page_at id node reads)).1), refl);
}
  where
    page_at :
        (id : ℤ) (node : NodePage)
        → Reads list_pager Same id node
        → get_elem? pages (i32_as_usize id) ≡ some node
    page_at id node reads =
        let (s', run, same) = reads pages refl in
        page_of (get_elem? pages (i32_as_usize id)) node s' run

insert_duplicate_below_example :
    (s' s'' : List NodePage) × (insert list_pager 2 pages parent (pos 3) (pos 7, pos 7) true
      ≡ ok (parent, s'))
    × Same s'
    × (find_value list_pager 2 s' parent (pos 3) ≡ ok (some (pos 1, pos 1), s''))
insert_duplicate_below_example =
    insert_duplicate_below list_pager Same 0 2 pages parent (left_entries ++ right_entries) (pos 3)
      (pos 7, pos 7) (pos 1, pos 1) pages-AreWritable parent-IsTree refl (omega arith) refl
