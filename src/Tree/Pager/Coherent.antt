-- ===== src/Tree/Pager/Coherent.antt =====
-- src/tree/store.rs: reading and writing pages behind a cache, which answers as the file does.
use fiddlers_db.Prelude.{
  ℕ, ◌+◌, ◌*◌, ◌≤◌, ◌<◌, ◌≡◌, ◌≢◌, ◌⊎◌, inl, inr, refl, sym, ap, ◌∙◌, arith, true, false, not,
  if◌then◌else◌, some, List, ◌++◌, length, length-append, All, leb, leb→le, Bool-cases,
  Option-cases,
}
use fiddlers_db.Prelude.Int.{ℤ, pos, negsuc, ltb_ℤ}
use fiddlers_db.Prelude.Outcome.{
  ok, err, ok_or, ◌>>=◌, map_err, ok_inj, >>=-eq-ok, ok_or-eq-ok, ensure,
}
use native.Mathlib.Decide.{dec_lt}
use native.Mathlib.Nat.{mul_comm}
use fiddlers_db.Store.FileStore.{read_at, write_at}
use fiddlers_db.Store.Ranges.{read_at-write_at_self, read_at-write_at_apart}
use fiddlers_db.Store.WriteRead.{before_place}
use fiddlers_db.Tree.{NodePage, NodePagerError, io, invalid_page_id, invalid_node_page}
use fiddlers_db.Tree.Codec.{deserialize_node}
use fiddlers_db.Tree.Codec.Words.{IsStorable}
use fiddlers_db.Tree.Codec.Format.{
  IsDegree, Fits, place_count, page_size_lem, serialize_node_correct, header_bytes, payload_bytes,
  length-header_bytes, length-payload_bytes,
}
use fiddlers_db.Tree.Codec.RoundTrip.{HoldsStorable, deserialize_node-serialize_node}
use fiddlers_db.Tree.Pager.{
  Cache, PagerState, page_offset, read_file, write_changed, write_page, read_page, failed_in,
}

-- What the documentation of the cache promises: it has what was inserted last under an identifier,
-- or nothing, and an answer is what it has.
pub record CacheLaws {C : Type 0} (cached : Cache C) : Type 1 where
  pub Has : C → ℤ → NodePage → Type 0
  pub get_has : (c : C) (id : ℤ) (node : NodePage) → (cached.get c id).0 ≡ some node → Has c id node
  pub get_keeps :
      (c : C) (id other : ℤ) (node : NodePage)
      → Has (cached.get c id).1 other node
      → Has c other node
  pub insert_has :
      (c : C) (id other : ℤ) (new node : NodePage)
      → Has (cached.insert c id new) other node
      → ((id ≡ other) × (new ≡ node)) ⊎ ((id ≢ other) × Has c other node)
  pub new_has : (id : ℤ) (node : NodePage) → Has cached.new_cache id node → ⊥

-- The number of bytes of a page, and where page `n` begins.
abbrev pub size_of : ℕ → ℕ
size_of max_degree = 9 + 4 * place_count max_degree

abbrev pub start_of : ℕ → ℕ → ℕ
start_of max_degree n = 14 + size_of max_degree * n

not_negative : (n : ℕ) → ltb_ℤ (pos n) (pos 0) ≡ false
not_negative n = ground arith

negative : (n : ℕ) → ltb_ℤ (negsuc n) (pos 0) ≡ true
negative n = ground arith

pub page_offset-eq :
    (max_degree n : ℕ)
    → IsDegree max_degree
    → page_offset max_degree (pos n) ≡ ok (start_of max_degree n)
unfolding page_offset
page_offset-eq max_degree n degree =
    rw (page_offset, not_negative n, page_size_lem {E = NodePagerError} max_degree degree)

module _ {C : Type 0} (cached : Cache C) where
  pub read_file-eq :
      (max_degree n : ℕ) (file : List ℕ)
      → IsDegree max_degree
      → read_file cached max_degree file (pos n) ≡ (
          ok_or io (read_at file (start_of max_degree n) (size_of max_degree)) >>= λ bytes.
          deserialize_node bytes max_degree)
  unfolding read_file
  read_file-eq max_degree n file degree = rw (
    read_file,
    page_size_lem {E = NodePagerError} max_degree degree,
    page_offset-eq max_degree n degree,
  )

  read_file_negative :
      (max_degree n : ℕ) (file : List ℕ)
      → IsDegree max_degree
      → read_file cached max_degree file (negsuc n) ≡ err invalid_page_id
  unfolding read_file page_offset
  read_file_negative max_degree n file degree =
      rw (read_file, page_size_lem {E = NodePagerError} max_degree degree, negative n)

starts_apart :
    (max_degree m n : ℕ)
    → m ≢ n
    → (start_of max_degree m + size_of max_degree ≤ start_of max_degree n)
      ⊎ (start_of max_degree n + size_of max_degree ≤ start_of max_degree m)
starts_apart max_degree m n ne =
    let size = size_of max_degree in
    elim (dec_lt m n) [
      | yes less ↦ inl (omega (arith, before_place m n size less, mul_comm size m, mul_comm size n))
      | no other ↦
          let less : n < m = omega arith in
          inr (omega (arith, before_place n m size less, mul_comm size m, mul_comm size n))
    ]

-- Bytes that are read before and after a write beside them.
read_kept :
    (file : List ℕ) (offset : ℕ) (bytes : List ℕ) (i n : ℕ) {got : List ℕ}
    → (i + n ≤ offset) ⊎ (offset + length bytes ≤ i)
    → read_at file i n ≡ some got
    → read_at (write_at file offset bytes) i n ≡ some got
unfolding read_at
read_kept file offset bytes i n apart run = elim (Bool-cases (leb (i + n) (length file))) [
  | inl inside ↦
      read_at-write_at_apart file offset bytes i n (leb→le (i + n) (length file) inside) apart ∙ run
  | inr outside ↦ absurd (ground arith)
]

-- A node that a page can hold: it is written as it is.
pub record IsWritable (max_degree : ℕ) (node : NodePage) : Type 0 where
  pub fits : Fits max_degree node
  pub storable : HoldsStorable node
  pub keys_storable : All IsStorable node.keys
  pub same_degree : node.max_degree ≡ max_degree
  pub not_deleted : node.deleted ≡ false

module _ {C : Type 0} (cached : Cache C) (laws : CacheLaws cached) where
  -- Every page that the cache has is the one in the file.
  abbrev pub IsCoherent : PagerState C → Type 0
  IsCoherent s =
      (id : ℤ) (node : NodePage)
      → laws.Has s.cache id node
      → read_file cached s.meta_data.max_degree s.file id ≡ ok node

  -- The state after a page was read.
  abbrev pub after_read : PagerState C → ℤ → PagerState C
  after_read s id = record s { cache = (cached.get s.cache id).1 }

  pub after_read-IsCoherent :
      (s : PagerState C) (id : ℤ) → IsCoherent s → IsCoherent (after_read s id)
  after_read-IsCoherent s id coherent other n has =
      coherent other n (laws.get_keeps s.cache id other n has)

  -- With a coherent cache, a page that can be read from the file is read, whether the cache has it
  -- or not.
  pub read_page_lem :
      (s : PagerState C) (id : ℤ) (node : NodePage)
      → IsCoherent s
      → read_file cached s.meta_data.max_degree s.file id ≡ ok node
      → read_page cached s id ≡ ok (node, after_read s id)
  unfolding read_page
  read_page_lem s id node coherent run = elim (Option-cases (cached.get s.cache id).0) [
    | inl missing ↦ rw (read_page, missing, run)
    | inr (found, hit) ↦
        let same : found ≡ node =
          ok_inj (sym (coherent id found (laws.get_has s.cache id found hit)) ∙ run) in
        rw (read_page, hit, same)
  ]

  -- Other pages of a file are read as before a page was written.
  pub read_file_kept :
      (max_degree n : ℕ) (file bytes : List ℕ) (other : ℤ) (node : NodePage)
      → IsDegree max_degree
      → length bytes ≡ size_of max_degree
      → pos n ≢ other
      → read_file cached max_degree file other ≡ ok node
      → read_file cached max_degree (write_at file (start_of max_degree n) bytes) other ≡ ok node
  read_file_kept max_degree n file bytes (pos m) node degree len ne run =
      let start = start_of max_degree m in
      let size = size_of max_degree in
      let (got, found, decoded) =
        >>=-eq-ok (ok_or io (read_at file start size)) (λ b. deserialize_node b max_degree)
          (sym (read_file-eq cached max_degree m file degree) ∙ run) in
      let kept =
        read_kept file (start_of max_degree n) bytes start size
          (rw len (starts_apart max_degree m n (λ e. ne (ap pos (sym e)))))
          (ok_or-eq-ok io (read_at file start size) found) in
      read_file-eq cached max_degree m (write_at file (start_of max_degree n) bytes) degree
      ∙ rw kept decoded
  read_file_kept max_degree n file bytes (negsuc m) node degree len ne run =
      let refused = read_file_negative cached max_degree m file degree in cc

  module _ (s : PagerState C) (node : NodePage) (n : ℕ) (degree : IsDegree s.meta_data.max_degree)
      (writable : IsWritable s.meta_data.max_degree node) (at : node.id ≡ pos n) where
    -- The bytes that a page is written as.
    abbrev pub page_bytes : List ℕ
    page_bytes = header_bytes node ++ payload_bytes s.meta_data.max_degree node

    abbrev pub after : PagerState C
    after = record s {
      file = write_at s.file (start_of s.meta_data.max_degree n) page_bytes;
      cache = cached.insert s.cache node.id (record node { changed = false });
    }

    allowed : ensure (not node.deleted) invalid_node_page ≡ ok tt
    allowed = rw writable.not_deleted

    write_changed_lem : write_changed cached s node ≡ ok after
    unfolding write_changed
    write_changed_lem = rw (
      write_changed,
      writable.storable.id_ok.1,
      allowed,
      serialize_node_correct {E = NodePagerError} s.meta_data.max_degree node degree writable.fits,
      ap (page_offset s.meta_data.max_degree) at ∙ page_offset-eq s.meta_data.max_degree n degree,
    )

    pub length-page_bytes : length page_bytes ≡ size_of s.meta_data.max_degree
    length-page_bytes = omega (
      arith,
      length-append (header_bytes node) (payload_bytes s.meta_data.max_degree node),
      length-header_bytes node,
      length-payload_bytes s.meta_data.max_degree node writable.fits,
    )

    pub write_page_lem : node.changed ≡ true → write_page cached s node ≡ ok after
    write_page_lem changed =
        ap (λ b. if b then map_err (failed_in s) (write_changed cached s node) else ok s) changed
        ∙ ap (map_err (failed_in s)) write_changed_lem

    pub read_back :
        read_file cached s.meta_data.max_degree after.file node.id
        ≡ ok (record node { changed = false })
    read_back =
        let m = s.meta_data.max_degree in
        let got =
          ap (read_at after.file (start_of m n)) (sym length-page_bytes)
          ∙ read_at-write_at_self s.file (start_of m n) page_bytes in
        let decoded : deserialize_node page_bytes m ≡ ok (record node { changed = false }) =
          ap (λ o. o >>= λ bytes. deserialize_node bytes m)
            (sym (serialize_node_correct {E = NodePagerError} m node degree writable.fits))
          ∙ deserialize_node-serialize_node m node degree writable.fits writable.storable
              writable.keys_storable
          ∙ ap (λ (d : ℕ). ok (record node { max_degree = d; changed = false }))
              (sym writable.same_degree) in
        ap (read_file cached m after.file) at
        ∙ read_file-eq cached m n after.file degree
        ∙ ap (λ o. ok_or io o >>= λ bytes. deserialize_node bytes m) got
        ∙ decoded

    pub after-IsCoherent : IsCoherent s → IsCoherent after
    after-IsCoherent coherent other found has =
        elim (laws.insert_has s.cache node.id other (record node { changed = false }) found has) [
          | inl (same, new) ↦
              ap (read_file cached s.meta_data.max_degree after.file) (sym same)
              ∙ read_back
              ∙ ap ok new
          | inr (differ, old) ↦
              read_file_kept s.meta_data.max_degree n s.file page_bytes other found degree
                length-page_bytes (λ e. differ (at ∙ e)) (coherent other found old)
        ]

-- A page that can be read.
abbrev pub ReadsAs : {C : Type 0} → Cache C → PagerState C → ℤ → NodePage → Type 0
ReadsAs {C} cached s id node = (s' : PagerState C) × (read_page cached s id ≡ ok (node, s'))

-- With a cache that keeps its laws and answers as the file does, a changed node that a page can
-- hold, with an identifier that is not negative, is written without an error. Then it is read as it
-- was, with the flag `changed` unset, every other page that the file had is read as before, and the
-- cache still answers as the file does.
pub read_page-write_changed :
    {C : Type 0} (cached : Cache C) (laws : CacheLaws cached) (s : PagerState C) (node : NodePage)
    (n : ℕ)
    → IsDegree s.meta_data.max_degree
    → IsWritable s.meta_data.max_degree node
    → node.id ≡ pos n
    → node.changed ≡ true
    → IsCoherent cached laws s
    → (s' : PagerState C) × (write_page cached s node ≡ ok s')
      × IsCoherent cached laws s'
      × (s'.meta_data ≡ s.meta_data)
      × ReadsAs cached s' node.id (record node { changed = false })
      × ((other : ℤ) (found : NodePage)
          → pos n ≢ other
          → read_file cached s.meta_data.max_degree s.file other ≡ ok found
          → ReadsAs cached s' other found)
read_page-write_changed cached laws s node n degree writable at changed coherent =
    let s' = after cached laws s node n degree writable at in
    let coherent' = after-IsCoherent cached laws s node n degree writable at coherent in
    let reads : (id : ℤ) (m : NodePage)
        → read_file cached s.meta_data.max_degree s'.file id ≡ ok m
        → ReadsAs cached s' id m =
      λ id m run. (after_read cached laws s' id, read_page_lem cached laws s' id m coherent' run) in
    (
      s',
      write_page_lem cached laws s node n degree writable at changed,
      coherent',
      refl,
      reads node.id (record node { changed = false })
          (read_back cached laws s node n degree writable at),
      λ other found ne run. reads other found (
          read_file_kept cached laws s.meta_data.max_degree n s.file
            (page_bytes cached laws s node n degree writable at) other found degree
            (length-page_bytes cached laws s node n degree writable at) ne run),
    )
