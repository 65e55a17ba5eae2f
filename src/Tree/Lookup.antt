-- ===== src/Tree/Lookup.antt =====
-- src/tree/node.rs: searching for a key in a B+ tree.
use fiddlers_db.Prelude.{
  ℕ, zero, suc, ◌<◌, ◌≤◌, ◌≡◌, refl, ap, ◌∙◌, List, [], ◌∷◌, length, arith, Option, none, some,
  get_elem?, true, false, Bool-cases, inl, inr, lt→leb, lt_of_get_elem?,
}
use fiddlers_db.Prelude.Int.{ℤ, ◌<ℤ◌, ◌≤ℤ◌, ◌==ℤ◌, pos_part, neg_part}
use fiddlers_db.Prelude.Outcome.{ok, map_err, ◌>>=◌}
use native.Mathlib.Decide.{dec_lt}
use fiddlers_db.Tree.{NodePage, NodePager, is_leaf}
use fiddlers_db.Tree.Search.{FindKeyResponse, greater_than_the_last, equal, less_than}
use fiddlers_db.Tree.Found.{IsSorted, key_at, Answers, binary_search_correct}
use fiddlers_db.Tree.Node.{
  Failure, pager_failure, read, next_index, leaf_answer, find_node, find_value, value_of,
}
use fiddlers_db.Tree.Shape.{
  Entries, lookup, zip, IsLeaf, Reads, Forest, last_child, more_children, IsTree, lookup-append,
  lookup-append_left, lookup_below, lookup_from, lookup-zip_ne,
}

-- The first `n` keys are at most `key`, and the others are larger.
pub record Splits (key : ℤ) (keys : List ℤ) (n : ℕ) : Type 0 where
  pub inside : n ≤ length keys
  pub before : (j : ℕ) → j < n → key_at keys j ≤ℤ key
  pub after : (j : ℕ) → n ≤ j → j < length keys → key <ℤ key_at keys j

-- The child that the search goes to stands after the keys that are at most the one searched.
pub next_index-Splits :
    (key : ℤ) (keys : List ℤ) (r : FindKeyResponse)
    → 0 < length keys
    → IsSorted keys
    → Answers key keys r
    → Splits key keys (next_index r)
next_index-Splits key keys (greater_than_the_last i) some_keys sorted (at, below) = record {
  inside = omega arith;
  before = λ j h. omega (arith, below j (omega arith));
  after = λ j h k. absurd (omega arith);
}
next_index-Splits key keys (equal i) some_keys sorted (inside, here) = record {
  inside = omega arith;
  before = λ j h. elim (dec_lt j i) [
    | yes less ↦
        let step = sorted j i less inside in omega (arith, step, ap pos_part here, ap neg_part here)
    | no last ↦
        let same : j ≡ i = omega arith in
        rw same (omega (arith, ap pos_part here, ap neg_part here))
  ];
  after = λ j h k.
      let step = sorted i j (omega arith) k in
      omega (arith, step, ap pos_part here, ap neg_part here);
}
next_index-Splits key keys (less_than i) some_keys sorted (inside, less, below) = record {
  inside = omega arith;
  before = λ j h. omega (arith, below j h);
  after = λ j h k. elim (dec_lt i j) [
    | yes later ↦ let step = sorted i j later k in omega (arith, step)
    | no last ↦ let same : j ≡ i = omega arith in rw same less
  ];
}

ne_of_lt : (a b : ℤ) → a <ℤ b → (a ==ℤ b) ≡ false
ne_of_lt a b h = ground arith

ne_of_gt : (a b : ℤ) → b <ℤ a → (a ==ℤ b) ≡ false
ne_of_gt a b h = ground arith

-- A key that stands at an index of the leaf has its pointer in both searches.
value_of_here {ℓ} :
    {E : Type ℓ} (key : ℤ) (keys : List ℤ) (values : List (ℤ × ℤ)) (i : ℕ)
    → length values ≡ length keys
    → i < length keys
    → key_at keys i ≡ key
    → (v : ℤ × ℤ) × (value_of {E = E} key keys values ≡ some (ok v))
      × (lookup key (zip keys values) ≡ some v)
unfolding value_of
value_of_here key [] values i same h here = absurd (omega arith)
value_of_here key (k ∷ keys) [] i same h here = absurd (omega arith)
value_of_here {E} key (k ∷ keys) (v ∷ values) zero same h here =
    let test : (k ==ℤ key) ≡ true = ground (arith, ap pos_part here, ap neg_part here) in
    (v, rw (value_of, test), rw (lookup, test))
value_of_here {E} key (k ∷ keys) (v ∷ values) (suc i) same h here = elim (Bool-cases (k ==ℤ key)) [
  | inl test ↦ (v, rw (value_of, test), rw (lookup, test))
  | inr test ↦
      let (w, run, found) =
        value_of_here {E = E} key keys values i (omega arith) (omega arith) here in
      (w, rw (value_of, test) run, rw (lookup, test) found)
]

module _ {S : Type 0} (pager : NodePager S) (Holds : S → Type 0) where
  -- What `find_node` finds: no page where the key is missing, or the leaf that has it.
  pub data Located (key : ℤ) (entries : Entries) : Option ℤ → Type 0 where
    missing : lookup key entries ≡ none → Located key entries none
    located :
        (id : ℤ) (leaf : NodePage) (v : ℤ × ℤ)
        → Reads pager Holds id leaf
        → value_of {E = Failure pager} key leaf.keys leaf.values ≡ some (ok v)
        → lookup key entries ≡ some v
        → Located key entries (some id)

  pub leaf_answer-Located :
      (key : ℤ) (node : NodePage) (r : FindKeyResponse)
      → IsLeaf node (zip node.keys node.values)
      → Reads pager Holds node.id node
      → Answers key node.keys r
      → Located key (zip node.keys node.values) (leaf_answer node r)
  leaf_answer-Located key node (greater_than_the_last i) h reads (at, below) = missing (
      lookup-zip_ne key node.keys node.values
        (λ j less. ne_of_lt (key_at node.keys j) key (below j less)))
  leaf_answer-Located key node (equal i) h reads (inside, here) =
      let (v, run, found) =
        value_of_here {E = Failure pager} key node.keys node.values i h.as_many inside here in
      located node.id node v reads run found
  leaf_answer-Located key node (less_than i) h reads (inside, first, below) = missing (
      lookup-zip_ne key node.keys node.values (λ j less. elim (dec_lt j i) [
        | yes before ↦ ne_of_lt (key_at node.keys j) key (below j before)
        | no other ↦
            let bound : i ≤ j = omega arith in
            let larger =
              (next_index-Splits key node.keys (less_than i) (omega arith) h.sorted
                  (inside, first, below)).after
                j bound less in
            ne_of_gt (key_at node.keys j) key larger
      ]))

  -- The child that a search goes to has the key's pointer, if the tree has one.
  pub record Chosen (Tree : NodePage → Entries → Type 0) (key : ℤ) (children : List ℤ) (n : ℕ)
      (entries : Entries) : Type 0 where
    pub id : ℤ
    pub node : NodePage
    pub below : Entries
    pub at : get_elem? children n ≡ some id
    pub reads : Reads pager Holds id node
    pub tree : Tree node below
    pub same : lookup key entries ≡ lookup key below

  pub choose :
      (Tree : NodePage → Entries → Type 0) (key : ℤ) (keys children : List ℤ) (n : ℕ)
      (entries : Entries)
      → Forest pager Holds Tree keys children entries
      → Splits key keys n
      → Chosen Tree key children n entries
  choose Tree key [] _ zero _ (last_child id child entries reads tree) splits = record {
    id = id;
    node = child;
    below = entries;
    at = refl;
    reads = reads;
    tree = tree;
    same = refl;
  }
  choose Tree key [] _ (suc n) _ (last_child id child entries reads tree) splits =
      absurd (omega (arith, splits.inside))
  choose Tree key _ _ zero _
        (more_children k id keys children child left right reads tree below from rest) splits =
      record {
        id = id;
        node = child;
        below = left;
        at = refl;
        reads = reads;
        tree = tree;
        same =
            lookup-append_left key left right
              (lookup_from key k right (splits.after 0 (omega arith) (omega arith)) from);
      }
  choose Tree key _ _ (suc n) _
        (more_children k id keys children child left right reads tree below from rest) splits =
      let chosen = choose Tree key keys children n right rest (record {
        inside = omega (arith, splits.inside);
        before = λ j h. splits.before (suc j) (omega arith);
        after = λ j h less. splits.after (suc j) (omega arith) (omega arith);
      }) in
      record {
        id = chosen.id;
        node = chosen.node;
        below = chosen.below;
        at = chosen.at;
        reads = chosen.reads;
        tree = chosen.tree;
        same =
            lookup-append key left right
              (lookup_below key k left (splits.before 0 (omega arith)) below)
            ∙ chosen.same;
      }

  pub read-ok :
      (s : S) (id : ℤ) (node : NodePage)
      → Reads pager Holds id node
      → Holds s
      → (s' : S) × (read pager s id ≡ ok (node, s')) × Holds s'
  read-ok s id node reads h =
      let (s', run, h') = reads s h in (s', ap (map_err (pager_failure pager)) run, h')

  Located-same :
      (key : ℤ) {entries below : Entries} {found : Option ℤ}
      → lookup key entries ≡ lookup key below
      → Located key below found
      → Located key entries found
  Located-same key same (missing none_here) = missing (same ∙ none_here)
  Located-same key same (located id leaf v reads run found) =
      located id leaf v reads run (same ∙ found)

  find_node-Located :
      (h fuel : ℕ) (s : S) (node : NodePage) (entries : Entries) (key : ℤ)
      → IsTree pager Holds h node entries
      → h < fuel
      → Holds s
      → (found : Option ℤ) × (s' : S) × (find_node pager fuel s node key ≡ ok (found, s'))
        × Holds s'
        × Located key entries found
  unfolding find_node
  find_node-Located h zero s node entries key tree enough holds = absurd (omega arith)
  find_node-Located zero (suc fuel) s node entries key (leaf, reads) enough holds =
      let (r, run, answers) = binary_search_correct {E = Failure pager} key node.keys leaf.sorted in
      let test : is_leaf node ≡ true = rw leaf.no_children in
      let of_zip : IsLeaf node (zip node.keys node.values) = record {
        no_children = leaf.no_children;
        sorted = leaf.sorted;
        as_many = leaf.as_many;
        all = refl;
      } in
      (
        leaf_answer node r,
        s,
        rw (find_node, run, test),
        holds,
        rw leaf.all (leaf_answer-Located key node r of_zip reads answers),
      )
  find_node-Located (suc h) (suc fuel) s node entries key inner enough holds =
      let (r, run, answers) =
        binary_search_correct {E = Failure pager} key node.keys inner.sorted in
      let splits = next_index-Splits key node.keys r inner.some_keys inner.sorted answers in
      let chosen =
        choose (IsTree pager Holds h) key node.keys node.children (next_index r) entries
          inner.forest splits in
      let (s1, got, holds1) = read-ok s chosen.id chosen.node chosen.reads holds in
      let (found, s2, rest, holds2, where_) =
        find_node-Located h fuel s1 chosen.node chosen.below key chosen.tree (omega arith) holds1 in
      let test : is_leaf node ≡ false =
        lt→leb (length node.children) 0
          (omega (arith, lt_of_get_elem? node.children (next_index r) chosen.at)) in
      (
        found,
        s2,
        rw (find_node, run, test, chosen.at, got) rest,
        holds2,
        Located-same key chosen.same where_,
      )

  -- The value, once the page is found.
  value_at :
      (fuel : ℕ) (s s1 : S) (node : NodePage) (entries : Entries) (key : ℤ) (found : Option ℤ)
      → find_node pager fuel s node key ≡ ok (found, s1)
      → Holds s1
      → Located key entries found
      → (s' : S) × (find_value pager fuel s node key ≡ ok (lookup key entries, s')) × Holds s'
  unfolding find_value
  value_at fuel s s1 node entries key _ run holds (missing none_here) =
      (s1, rw (find_value, run, none_here), holds)
  value_at fuel s s1 node entries key _ run holds (located id leaf v reads value same) =
      let (s2, got, holds2) = read-ok s1 id leaf reads holds in
      (s2, rw (find_value, run, got, ◌>>=◌, value, same), holds2)

-- On a B+ tree of height `h` that the pager reads page by page, the search for a key, with more fuel
-- than the height, ends without an error or a panic. Its answer is the pointer that the tree's
-- entries have for the key, or nothing where they do not have the key. What holds of the pager's
-- state while it reads pages holds of the state that the search ends in.
pub find_value_correct :
    {S : Type 0} (pager : NodePager S) (Holds : S → Type 0) (h fuel : ℕ) (s : S) (node : NodePage)
    (entries : Entries) (key : ℤ)
    → IsTree pager Holds h node entries
    → h < fuel
    → Holds s
    → (s' : S) × (find_value pager fuel s node key ≡ ok (lookup key entries, s')) × Holds s'
find_value_correct pager Holds h fuel s node entries key tree enough holds =
    let (found, s1, run, holds1, at) =
      find_node-Located pager Holds h fuel s node entries key tree enough holds in
    value_at pager Holds fuel s s1 node entries key found run holds1 at
