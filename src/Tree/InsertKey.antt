-- ===== src/Tree/InsertKey.antt =====
-- `insert_key_value`, as an insertion into an association of keys and values.
use fiddlers_db.Prelude.{ℕ, ◌+◌, ◌≤◌, ◌<◌, ◌≡◌, ◌≢◌, ◌⊎◌, inl, inr, refl, arith, length, some, true}
use fiddlers_db.Prelude.Int.{ℤ, ◌<ℤ◌}
use fiddlers_db.Prelude.Outcome.{ok, err}
use native.Mathlib.Decide.{ℕ_discrete}
use fiddlers_db.Tree.{NodePage, NodeOperationError, try_insert_duplicate}
use fiddlers_db.Tree.Search.{FindKeyResponse, equal, less_than, greater_than_the_last}
use fiddlers_db.Tree.Found.{key_at, IsSorted, AllBelow, Answers, binary_search_correct}
use fiddlers_db.Tree.Node.{insert_key_value, insert_found, value_of}
use fiddlers_db.Tree.Inserted.{
  inserted, insert_at-eq, inserted_last, length-inserted, inserted-IsSorted, value_of-inserted,
  value_of-inserted_other,
}

-- The node with one more entry.
abbrev with_entry : NodePage → ℕ → ℤ → ℤ × ℤ → NodePage
with_entry node i key v = record node {
  keys = inserted node.keys i key;
  values = inserted node.values i v;
  changed = true;
}

-- What an insertion that succeeds has done.
pub record HasEntry (node : NodePage) (key : ℤ) (v : ℤ × ℤ) (node' : NodePage) : Type 0 where
  pub sorted : IsSorted node'.keys
  pub counted : length node'.values ≡ length node'.keys
  pub one_more : length node'.keys ≡ length node.keys + 1
  pub flagged : node'.changed ≡ true
  pub here : value_of {E = NodeOperationError} key node'.keys node'.values ≡ some (ok v)
  pub others :
      (k : ℤ)
      → key ≢ k
      → value_of {E = NodeOperationError} k node'.keys node'.values
        ≡ value_of k node.keys node.values

module _ (node : NodePage) (key : ℤ) (v : ℤ × ℤ) (sorted : IsSorted node.keys)
    (counted : length node.values ≡ length node.keys) where
  with_entry-HasEntry :
      (i : ℕ)
      → i ≤ length node.keys
      → AllBelow key node.keys i
      → ((j : ℕ) → i ≤ j → j < length node.keys → key <ℤ key_at node.keys j)
      → HasEntry node key v (with_entry node i key v)
  with_entry-HasEntry i inside before after = record {
    sorted = inserted-IsSorted node.keys i key sorted inside before after;
    counted = omega (arith, length-inserted node.keys i key, length-inserted node.values i v);
    one_more = length-inserted node.keys i key;
    flagged = refl;
    here =
        value_of-inserted key v node.keys node.values i counted inside
          (λ j h. let b = before j h in ground arith);
    others = λ k ne. value_of-inserted_other key k v node.keys node.values i counted inside ne;
  }

  -- The keys from the first larger one on are larger.
  all_after :
      (i : ℕ)
      → key <ℤ key_at node.keys i
      → (j : ℕ) → i ≤ j
      → j < length node.keys
      → key <ℤ key_at node.keys j
  all_after i here j h k = elim (ℕ_discrete j i) [
    | yes same ↦ rw same here
    | no more ↦ omega (arith, sorted i j (omega arith) k)
  ]

  insert_found-less_than :
      (i : ℕ)
      → i ≤ length node.keys
      → insert_found node key v (less_than i) ≡ ok (with_entry node i key v)
  insert_found-less_than i inside =
      rw (insert_at-eq node.keys i key inside, insert_at-eq node.values i v (omega arith))

  insert_found-greater :
      (i : ℕ)
      → insert_found node key v (greater_than_the_last i)
        ≡ ok (with_entry node (length node.keys) key v)
  insert_found-greater i = rw (inserted_last node.keys key, inserted_last node.values v, counted)

  -- From the answer of the search.
  insert_found_lem :
      (r : FindKeyResponse)
      → Answers key node.keys r
      → ((i : ℕ) × (i < length node.keys)
          × (key_at node.keys i ≡ key)
          × (insert_found node key v r ≡ err try_insert_duplicate))
        ⊎ ((node' : NodePage) × (insert_found node key v r ≡ ok node') × HasEntry node key v node')
  insert_found_lem (equal i) (inside, same) = inl (i, inside, same, refl)
  insert_found_lem (less_than i) (inside, here, before) = inr (
    with_entry node i key v,
    insert_found-less_than i (omega arith),
    with_entry-HasEntry i (omega arith) before (all_after i here),
  )
  insert_found_lem (greater_than_the_last i) (last, before) = inr (
    with_entry node (length node.keys) key v,
    insert_found-greater i,
    with_entry-HasEntry (length node.keys) (omega arith) before (λ j h k. absurd (omega arith)),
  )

-- On a leaf with keys in strictly ascending order and one value for each key, an insertion never
-- panics. It is refused as a duplicate only if the key is there already. Otherwise the keys stay in
-- ascending order with one value each, there is one entry more, the node counts as changed, the new
-- key has the new value, and every other key has the value that it had.
pub insert_key_value_correct :
    (node : NodePage) (key : ℤ) (v : ℤ × ℤ)
    → IsSorted node.keys
    → length node.values ≡ length node.keys
    → ((i : ℕ) × (i < length node.keys)
        × (key_at node.keys i ≡ key)
        × (insert_key_value node key v ≡ err try_insert_duplicate))
      ⊎ ((node' : NodePage) × (insert_key_value node key v ≡ ok node') × HasEntry node key v node')
unfolding insert_key_value
insert_key_value_correct node key v sorted counted =
    let (r, run, answers) = binary_search_correct {E = NodeOperationError} key node.keys sorted in
    elim (insert_found_lem node key v sorted counted r answers) [
      | inl (i, inside, same, refused) ↦ inl (i, inside, same, rw run refused)
      | inr (node', done, entry) ↦ inr (node', rw run done, entry)
    ]
