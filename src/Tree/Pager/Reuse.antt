-- ===== src/Tree/Pager/Reuse.antt =====
-- src/tree/store.rs, src/tree/node.rs: pages that were deleted and are used again.
use fiddlers_db.Prelude.{◌≡◌, ◌≢◌, refl, sym, ap, ◌∙◌, ℕ, true, false, some, []}
use fiddlers_db.Prelude.Int.{pos, pos_part}
use fiddlers_db.Prelude.Outcome.{ok}
use fiddlers_db.Tree.{NodePage, reallocate, is_leaf}
use fiddlers_db.Tree.Node.{Failure, Halves, halve, link, split}
use fiddlers_db.Tree.Codec.Format.{IsDegree}
use fiddlers_db.Tree.MetaData.{set_first_deleted_page}
use fiddlers_db.Tree.Pager.{
  Cache, PagerState, read_file, allocate_deleted, allocate_new_page, with_meta_data, node_pager,
}
use fiddlers_db.Tree.Pager.Coherent.{
  CacheLaws, IsCoherent, IsWritable, after_read, after_read-IsCoherent, read_page_lem, after,
  write_page_lem, read_back, after-IsCoherent, read_file_kept, page_bytes, length-page_bytes,
}

reallocate-changed : (old : NodePage) → (reallocate old).changed ≡ true
unfolding reallocate
reallocate-changed old = refl

reallocate-keys : (old : NodePage) → (reallocate old).keys ≡ []
unfolding reallocate
reallocate-keys old = refl

reallocate-values : (old : NodePage) → (reallocate old).values ≡ []
unfolding reallocate
reallocate-values old = refl

module _ {C : Type 0} (cached : Cache C) (laws : CacheLaws cached) (s : PagerState C) (d : ℕ)
    (old : NodePage) (degree : IsDegree s.meta_data.max_degree)
    (coherent : IsCoherent cached laws s) (is_first : s.meta_data.first_deleted_page ≡ some (pos d))
    (stored : read_file cached s.meta_data.max_degree s.file (pos d) ≡ ok old)
    (at : (reallocate old).id ≡ pos d)
    (writable : IsWritable s.meta_data.max_degree (reallocate old)) where
  -- The deleted page, as it is handed out: it does not count as changed.
  abbrev pub reused : NodePage
  reused = record (reallocate old) { changed = false }

  abbrev pub before_write : PagerState C
  before_write =
      with_meta_data cached (after_read cached laws s (pos d))
        (set_first_deleted_page s.meta_data old.next_deleted_page)

  abbrev pub after_write : PagerState C
  after_write = after cached laws before_write (reallocate old) d degree writable at

  pub after_write-IsCoherent : IsCoherent cached laws after_write
  after_write-IsCoherent =
      after-IsCoherent cached laws before_write (reallocate old) d degree writable at
        (after_read-IsCoherent cached laws s (pos d) coherent)

  pub reused_stored : read_file cached s.meta_data.max_degree after_write.file (pos d) ≡ ok reused
  reused_stored =
      ap (read_file cached s.meta_data.max_degree after_write.file) (sym at)
      ∙ read_back cached laws before_write (reallocate old) d degree writable at

  pub allocate_reused : allocate_new_page cached s ≡ ok (reused, after_write)
  unfolding allocate_new_page allocate_deleted
  allocate_reused = rw (
    allocate_new_page,
    is_first,
    read_page_lem cached laws s (pos d) old coherent stored,
    allocate_deleted,
    write_page_lem cached laws before_write (reallocate old) d degree writable at
        (reallocate-changed old),
  )

-- The nodes that the split of a leaf leaves.
abbrev pub left_of : Halves → NodePage → NodePage
left_of halves allocated = record halves.left { next_leaf = some allocated.id; changed = true }

abbrev pub right_of : Halves → NodePage → NodePage
right_of halves allocated = record allocated {
  values = halves.right_values;
  keys = halves.right_keys;
  children = halves.right_children;
  max_degree = halves.left.max_degree;
  next_leaf = halves.left.next_leaf;
}

link_leaf :
    (halves : Halves) (allocated : NodePage)
    → is_leaf halves.left ≡ true
    → link halves allocated ≡ (left_of halves allocated, right_of halves allocated)
unfolding link
link_leaf halves allocated leaf = rw (link, leaf)

-- A full leaf is split, and the first deleted page is used again for its right half. The deleted
-- page and the leaf are other pages, can be written, and the cache answers as the file does. Then
-- the split succeeds and returns a right node that has the keys and values of the right half, but
-- the page of that node in the file has no keys and no values: the write of the right node is
-- skipped, since the page was handed out as not changed.
pub split_loses_right :
    {C : Type 0} (cached : Cache C) (laws : CacheLaws cached) (s : PagerState C) (d n : ℕ)
    (old node : NodePage) (halves : Halves)
    → IsDegree s.meta_data.max_degree
    → IsCoherent cached laws s
    → s.meta_data.first_deleted_page ≡ some (pos d)
    → read_file cached s.meta_data.max_degree s.file (pos d) ≡ ok old
    → (reallocate old).id ≡ pos d
    → IsWritable s.meta_data.max_degree (reallocate old)
    → halve {E = Failure (node_pager cached)} node ≡ ok halves
    → is_leaf halves.left ≡ true
    → halves.left.id ≡ pos n
    → n ≢ d
    → IsWritable s.meta_data.max_degree (left_of halves (reallocate old))
    → (left : NodePage) × (right : NodePage) × (s' : PagerState C) × (split
          (node_pager cached)
          s
          node
        ≡ ok (left, right, halves.promoted_key, s'))
      × (right.id ≡ pos d)
      × (right.keys ≡ halves.right_keys)
      × (right.values ≡ halves.right_values)
      × (page : NodePage) × (read_file cached s.meta_data.max_degree s'.file (pos d) ≡ ok page)
      × (page.keys ≡ [])
      × (page.values ≡ [])
unfolding split
split_loses_right cached laws s d n old node halves degree coherent is_first stored at writable
      halved leaf left_at apart left_writable =
    let new = reused cached laws s d old degree coherent is_first stored at writable in
    let s1 = after_write cached laws s d old degree coherent is_first stored at writable in
    let left = left_of halves new in
    let s2 = after cached laws s1 left n degree left_writable left_at in
    (
      record left { changed = false },
      right_of halves new,
      s2,
      rw (
        split,
        halved,
        allocate_reused cached laws s d old degree coherent is_first stored at writable,
        link_leaf halves new leaf,
        write_page_lem cached laws s1 left n degree left_writable left_at refl,
      ),
      at,
      refl,
      refl,
      new,
      read_file_kept cached laws s.meta_data.max_degree n s1.file
          (page_bytes cached laws s1 left n degree left_writable left_at) (pos d) new degree
          (length-page_bytes cached laws s1 left n degree left_writable left_at)
          (λ e. apart (ap pos_part e))
          (reused_stored cached laws s d old degree coherent is_first stored at writable),
      reallocate-keys old,
      reallocate-values old,
    )
