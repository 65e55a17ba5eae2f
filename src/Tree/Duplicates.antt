-- ===== src/Tree/Duplicates.antt =====
-- src/tree/node.rs: what becomes of the insertion of a key that the tree has.
use fiddlers_db.Prelude.{
  ℕ, zero, suc, ◌<◌, ◌≡◌, refl, sym, ap, ◌∙◌, arith, true, false, none, some, length,
  lt_of_get_elem?, lt→leb,
}
use fiddlers_db.Prelude.Int.{ℤ}
use fiddlers_db.Prelude.Outcome.{ok, err, ◌>>=◌}
use fiddlers_db.Tree.{
  NodePage, NodePager, NodeOperationError, try_insert_duplicate, is_leaf, is_full,
}
use fiddlers_db.Tree.Search.{FindKeyResponse, greater_than_the_last, equal, less_than}
use fiddlers_db.Tree.Found.{Answers, binary_search_correct}
use fiddlers_db.Tree.Node.{
  insert_key_value, insert_found, child_index, make_room, insert, ignore_result, find_value,
}
use fiddlers_db.Tree.Shape.{Entries, lookup, zip, IsLeaf, Reads, IsTree}
use fiddlers_db.Tree.ChildIndex.{child_index-Splits}
use fiddlers_db.Tree.Lookup.{
  Located, missing, leaf_answer-Located, choose, read-ok, find_value_correct,
}

module _ {S : Type 0} (pager : NodePager S) (Holds : S → Type 0) where
  -- Pages that are read are not full, and writing one back succeeds and leaves the tree as it is.
  pub record AreWritable : Type 0 where
    pub not_full : (id : ℤ) (node : NodePage) → Reads pager Holds id node → is_full node ≡ false
    pub written :
        (id : ℤ) (node : NodePage) (s : S)
        → Reads pager Holds id node
        → Holds s
        → (s' : S) × (pager.write_page s node ≡ ok s') × Holds s'

  missing_of :
      (key : ℤ) (entries : Entries)
      → Located pager Holds key entries none
      → lookup key entries ≡ none
  missing_of key entries (missing h) = h

  -- A leaf whose entries have the key refuses it.
  refused :
      (key : ℤ) (v w : ℤ × ℤ) (node : NodePage) (r : FindKeyResponse)
      → IsLeaf node (zip node.keys node.values)
      → Reads pager Holds node.id node
      → Answers key node.keys r
      → lookup key (zip node.keys node.values) ≡ some w
      → insert_found node key v r ≡ err try_insert_duplicate
  refused key v w node (equal i) leaf reads answers has = refl
  refused key v w node (less_than i) leaf reads answers has =
      let no =
        missing_of key _
          (leaf_answer-Located pager Holds key node (less_than i) leaf reads answers) in
      cc
  refused key v w node (greater_than_the_last i) leaf reads answers has =
      let no =
        missing_of key _
          (leaf_answer-Located pager Holds key node (greater_than_the_last i) leaf reads answers) in
      cc

  module _ (writable : AreWritable) (key : ℤ) (v w : ℤ × ℤ) where
    -- The insertion below ends with the node it is given, in a state with the same tree.
    abbrev Ignored : ℕ → S → NodePage → Type 0
    Ignored fuel s node =
        (s' : S) × (ignore_result pager (insert pager fuel s node key v true) ≡ ok (node, s'))
        × Holds s'

    abbrev Accepted : ℕ → S → NodePage → Type 0
    Accepted fuel s node =
        (s' : S) × (insert pager fuel s node key v true ≡ ok (node, s')) × Holds s'

    insert-Accepted :
        (h fuel : ℕ) (s : S) (node : NodePage) (entries : Entries)
        → IsTree pager Holds (suc h) node entries
        → lookup key entries ≡ some w
        → Holds s
        → ((s1 : S) (child : NodePage) (below : Entries)
            → IsTree pager Holds h child below
            → lookup key below ≡ some w
            → Holds s1
            → Ignored fuel s1 child)
        → Accepted (suc fuel) s node
    unfolding insert make_room
    insert-Accepted h fuel s node entries inner has holds below =
        let splits =
          child_index-Splits pager Holds (IsTree pager Holds h) key node entries inner.sorted
            inner.forest in
        let chosen =
          choose pager Holds (IsTree pager Holds h) key node.keys node.children
            (child_index node key) entries inner.forest splits in
        let (s1, got, holds1) = read-ok pager Holds s chosen.id chosen.node chosen.reads holds in
        let (s2, ignored, holds2) =
          below s1 chosen.node chosen.below chosen.tree (sym chosen.same ∙ has) holds1 in
        let (s3, wrote, holds3) = writable.written chosen.id chosen.node s2 chosen.reads holds2 in
        let test : is_leaf node ≡ false =
          lt→leb (length node.children) 0
            (omega (arith, lt_of_get_elem? node.children (child_index node key) chosen.at)) in
        let room = writable.not_full chosen.id chosen.node chosen.reads in
        (s3, rw (insert, test, make_room, chosen.at, got, room, ◌>>=◌, ignored, wrote), holds3)

    insert-Ignored :
        (h fuel : ℕ) (s : S) (node : NodePage) (entries : Entries)
        → IsTree pager Holds h node entries
        → lookup key entries ≡ some w
        → h < fuel
        → Holds s
        → Ignored fuel s node
    unfolding insert insert_key_value
    insert-Ignored h zero s node entries tree has enough holds = absurd (omega arith)
    insert-Ignored zero (suc fuel) s node entries (leaf, reads) has enough holds =
        let (r, run, answers) =
          binary_search_correct {E = NodeOperationError} key node.keys leaf.sorted in
        let of_zip : IsLeaf node (zip node.keys node.values) = record {
          no_children = leaf.no_children;
          sorted = leaf.sorted;
          as_many = leaf.as_many;
          all = refl;
        } in
        let twice =
          refused key v w node r of_zip reads answers (ap (lookup key) (sym leaf.all) ∙ has) in
        let test : is_leaf node ≡ true = rw leaf.no_children in
        (s, rw (insert, test, insert_key_value, run, ◌>>=◌, twice), holds)
    insert-Ignored (suc h) (suc fuel) s node entries inner has enough holds =
        let (s', run, holds') =
          insert-Accepted h fuel s node entries inner has holds (λ s1 child below tree has1 holds1.
            insert-Ignored h fuel s1 child below tree has1 (omega arith) holds1) in
        (s', ap (ignore_result pager) run, holds')

-- In a B+ tree of at least two levels whose pages are not full and can be written back, inserting a
-- key that the tree has already, with more fuel than the height, is reported as a success: it returns
-- the root as it was and no error. The new pointer is lost, since a search for the key in the state
-- after it still ends with the old one.
pub insert_duplicate_below :
    {S : Type 0} (pager : NodePager S) (Holds : S → Type 0) (h fuel : ℕ) (s : S) (node : NodePage)
    (entries : Entries) (key : ℤ) (v w : ℤ × ℤ)
    → AreWritable pager Holds
    → IsTree pager Holds (suc h) node entries
    → lookup key entries ≡ some w
    → suc h < fuel
    → Holds s
    → (s' s'' : S) × (insert pager fuel s node key v true ≡ ok (node, s'))
      × Holds s'
      × (find_value pager fuel s' node key ≡ ok (some w, s''))
insert_duplicate_below pager Holds h zero s node entries key v w writable tree has enough holds =
    absurd (omega arith)
insert_duplicate_below pager Holds h (suc fuel) s node entries key v w writable tree has enough
      holds =
    let (s', run, holds') =
      insert-Accepted pager Holds writable key v w h fuel s node entries tree has holds
        (λ s1 child below subtree has1 holds1.
          insert-Ignored pager Holds writable key v w h fuel s1 child below subtree has1
            (omega arith) holds1) in
    let (s'', found, holds'') =
      find_value_correct pager Holds (suc h) (suc fuel) s' node entries key tree enough holds' in
    (s', s'', run, holds', found ∙ ap (λ o. ok (o, s'')) has)
