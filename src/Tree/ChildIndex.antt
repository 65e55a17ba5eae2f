-- ===== src/Tree/ChildIndex.antt =====
-- src/tree/node.rs: the child that `insert` chooses for a key.
use fiddlers_db.Prelude.{
  ℕ, zero, suc, ◌+◌, ◌-◌, ◌≤◌, ◌<◌, ◌≡◌, refl, ap, ◌∙◌, arith, List, [], ◌∷◌, length, Bool-cases,
  inl, inr,
}
use fiddlers_db.Prelude.Int.{ℤ, ◌<ℤ◌, ◌≤ℤ◌, ltb_ℤ}
use fiddlers_db.Tree.{NodePage, NodePager}
use fiddlers_db.Tree.Found.{IsSorted, key_at}
use fiddlers_db.Tree.Node.{first_larger, child_index}
use fiddlers_db.Tree.Shape.{Entries, Forest, last_child, more_children}
use fiddlers_db.Tree.Lookup.{Splits}

-- The first key above the one to insert ends the keys that are at most that one.
first_larger-Splits :
    (key : ℤ) (keys : List ℤ) (i : ℕ)
    → IsSorted keys
    → (n : ℕ) × (first_larger key keys i (i + length keys) ≡ i + n) × Splits key keys n
unfolding first_larger
first_larger-Splits key [] i sorted = (
  0,
  refl,
  record {
    inside = omega arith;
    before = λ j h. absurd (omega arith);
    after = λ j h less. absurd (omega arith);
  },
)
first_larger-Splits key (k ∷ keys) i sorted = elim (Bool-cases (ltb_ℤ key k)) [
  | inl less ↦ (
    0,
    rw (first_larger, less) (omega arith),
    record {
      inside = omega arith;
      before = λ j h. absurd (omega arith);
      after = all_after (ground arith);
    },
  )
  | inr more ↦
      let (n, run, splits) =
        first_larger-Splits key keys (i + 1)
          (λ a b h inside. sorted (suc a) (suc b) (omega arith) (omega arith)) in
      let bound : i + suc (length keys) ≡ i + 1 + length keys = omega arith in
      (
        suc n,
        rw (first_larger, more, bound, run) (omega arith),
        record {
          inside = omega (arith, splits.inside);
          before = first_before n (ground arith) splits;
          after = later_after n splits;
        },
      )
]
  where
    all_after : key <ℤ k → (j : ℕ) → 0 ≤ j → j < suc (length keys) → key <ℤ key_at (k ∷ keys) j
    all_after less zero h inside = less
    all_after less (suc j) h inside =
        let step = sorted 0 (suc j) (omega arith) inside in omega (arith, step)

    first_before :
        (n : ℕ) → k ≤ℤ key → Splits key keys n → (j : ℕ) → j < suc n → key_at (k ∷ keys) j ≤ℤ key
    first_before n most splits zero h = most
    first_before n most splits (suc j) h = splits.before j (omega arith)

    later_after :
        (n : ℕ)
        → Splits key keys n
        → (j : ℕ) → suc n ≤ j
        → j < suc (length keys)
        → key <ℤ key_at (k ∷ keys) j
    later_after n splits zero h inside = absurd (omega arith)
    later_after n splits (suc j) h inside = splits.after j (omega arith) (omega arith)

module _ {S : Type 0} (pager : NodePager S) (Holds : S → Type 0) where
  length-Forest :
      (Tree : NodePage → Entries → Type 0) (keys children : List ℤ) (entries : Entries)
      → Forest pager Holds Tree keys children entries
      → length children ≡ length keys + 1
  length-Forest Tree _ _ _ (last_child id child entries reads tree) = refl
  length-Forest Tree _ _ _
        (more_children k id keys children child left right reads tree below from rest) =
      let others = length-Forest Tree keys children right rest in omega (arith, others)

  -- The child that `insert` goes to stands after the keys that are at most the one inserted.
  pub child_index-Splits :
      (Tree : NodePage → Entries → Type 0) (key : ℤ) (node : NodePage) (entries : Entries)
      → IsSorted node.keys
      → Forest pager Holds Tree node.keys node.children entries
      → Splits key node.keys (child_index node key)
  unfolding child_index
  child_index-Splits Tree key node entries sorted forest =
      let count = length-Forest Tree node.keys node.children entries forest in
      let (n, run, splits) = first_larger-Splits key node.keys 0 sorted in
      let last_index : length node.children - 1 ≡ 0 + length node.keys = omega (arith, count) in
      let at : child_index node key ≡ n =
        ap (first_larger key node.keys 0) last_index ∙ run ∙ omega arith in
      rw at splits
