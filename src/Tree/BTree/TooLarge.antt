-- ===== src/Tree/BTree/TooLarge.antt =====
-- src/tree/store.rs: degrees that are accepted, and whose pages are too large.
use fiddlers_db.Prelude.{
  ℕ, ◌-◌, ◌*◌, ◌%◌, ◌^◌, ◌≤◌, ◌≡◌, arith, none, ltb, le→ltb, le→leb, ==_iff, Bool-cases, inl, inr,
}
use fiddlers_db.Prelude.Outcome.{ok, panic}
use fiddlers_db.Tree.{NodePagerError, new_node}
use fiddlers_db.Tree.Codec.{key_array_size, values_array_size, page_size, serialize_node}
use fiddlers_db.Tree.Pager.{Cache, PagerState, write_changed, allocate_next, allocate_new_page}
use fiddlers_db.Tree.BTree.{new_store, open_new, root, new_meta_data}
use fiddlers_db.Tree.BTree.Reopen.{header, meta_data_to_bytes_lem}

values_array_size_panics {ℓ} :
    {E : Type ℓ} (max_degree : ℕ) → 8193 ≤ max_degree → values_array_size {E = E} max_degree ≡ panic
unfolding values_array_size
values_array_size_panics {E} max_degree h =
    rw (le→leb 1 max_degree (omega arith), le→ltb ((max_degree - 1) * 8) (2 ^ 16) (omega arith))

page_size_panics {ℓ} :
    {E : Type ℓ} (max_degree : ℕ) → 8193 ≤ max_degree → page_size {E = E} max_degree ≡ panic
unfolding page_size key_array_size
page_size_panics {E} max_degree h = elim (Bool-cases (ltb (max_degree * 4) (2 ^ 16))) [
  | inr children ↦ rw (page_size, children)
  | inl children ↦ elim (Bool-cases (ltb ((max_degree - 1) * 4) (2 ^ 16))) [
    | inr keys ↦ rw (page_size, children, key_array_size, le→leb 1 max_degree (omega arith), keys)
    | inl keys ↦ rw (
      page_size,
      children,
      key_array_size,
      le→leb 1 max_degree (omega arith),
      keys,
      values_array_size_panics {E = E} max_degree h,
    )
  ]
]

-- A new store is made with every even degree from 8194 on, and its first use, which makes a root,
-- panics in a build with overflow checks: the size of the values does not fit a `u16`.
pub root_panics :
    {C : Type 0} (cached : Cache C) (max_degree : ℕ)
    → 8194 ≤ max_degree
    → max_degree % 2 ≡ 0
    → (s : PagerState C) × (new_store cached none max_degree ≡ ok s) × (root cached s ≡ panic)
unfolding new_store open_new root allocate_new_page allocate_next new_node write_changed
    serialize_node
root_panics cached max_degree least even =
    let m = new_meta_data max_degree in
    (
      record { file = header m; cache = cached.new_cache; meta_data = m },
      rw (
        new_store,
        le→ltb max_degree 4 (omega arith),
        (==_iff (max_degree % 2) 0).1 even,
        open_new,
        meta_data_to_bytes_lem m,
      ),
      rw (
        root,
        allocate_new_page,
        allocate_next,
        write_changed,
        serialize_node,
        page_size_panics {E = NodePagerError} max_degree (omega arith),
      ),
    )
