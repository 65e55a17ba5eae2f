-- ===== src/Store/Allocate.antt =====
-- `FileStore::allocate_page`: the new page and the new metadata.
use fiddlers_db.Prelude.{
  ℕ, suc, ◌+◌, ◌^◌, ◌≤◌, ◌<◌, ◌≡◌, refl, sym, ◌∙◌, ap, arith, inl, some, List, [], length,
  replicate,
}
use fiddlers_db.Prelude.{le→leb, lt→ltb}
use fiddlers_db.Prelude.Int.{ℤ, pos}
use fiddlers_db.Prelude.Bytes.{copy_at, i32_to_be}
use fiddlers_db.Prelude.Slices.{copy_at-eq-some, length-copied}
use fiddlers_db.Prelude.Outcome.{ok, >>=-eq-ok, or_panic, or_panic-eq-ok, map_err}
use fiddlers_db.Page.{Page, new_page, set_page_id}
use fiddlers_db.Page.Layout.{PageDataLayout, meta_data_size}
use fiddlers_db.Page.Metadata.{
  PageFileMetadata, allocate_next_page_id, serialize_metadata, deserialize_metadata,
  deserialize_metadata-serialize_metadata,
}
use fiddlers_db.Page.Valid.{IsLayout, IsValid, new_page-IsValid}
use fiddlers_db.Page.RoundTrip.{deserialize-serialize}
use fiddlers_db.Store.{PageStorage, StoreError, page, metadata}
use fiddlers_db.Store.FileStore.{
  Files, set_file, write_at, read_at, read_metadata, write_metadata, read_page, allocate_page,
}
use fiddlers_db.Store.Ranges.{length-write_at, read_at-write_at_self, read_at-write_at_apart}
use fiddlers_db.Store.WriteRead.{place, set_file_self, read_page-eq, write_page-eq}

length-serialize_metadata :
    (m : PageFileMetadata) {bytes : List ℕ} → serialize_metadata m ≡ ok bytes → length bytes ≡ 8
unfolding serialize_metadata
length-serialize_metadata m {bytes} h =
    let (b1, e1, h1) =
      >>=-eq-ok (or_panic (copy_at (replicate meta_data_size 0) 0 (i32_to_be m.next_id))) _ h in
    let first =
      copy_at-eq-some (replicate meta_data_size 0) 0 (i32_to_be m.next_id) (or_panic-eq-ok _ e1) in
    let second = copy_at-eq-some b1 4 (i32_to_be m.number_of_pages) (or_panic-eq-ok _ h1) in
    ap length second.1
    ∙ length-copied b1 4 (i32_to_be m.number_of_pages) second.0
    ∙ ap length first.1
    ∙ length-copied (replicate meta_data_size 0) 0 (i32_to_be m.next_id) first.0

-- A new page with an identifier is valid.
abbrev page_with : PageDataLayout → ℤ → Page
page_with layout id = set_page_id (new_page layout) id

page_with-IsValid :
    (layout : PageDataLayout) (n : ℕ)
    → IsLayout layout
    → suc n < 2 ^ 31
    → IsValid (page_with layout (pos (suc n)))
unfolding new_page
page_with-IsValid layout n h small =
    let v = new_page-IsValid layout h in
    record {
      layout_ok = v.layout_ok;
      data_size = v.data_size;
      slots_below = v.slots_below;
      offset_in = v.offset_in;
      count_u16 = v.count_u16;
      id_i32 = (omega arith, omega arith);
      in_rows = λ i s e. absurd (ground arith);
      apart = v.apart;
    }

abbrev pub next_metadata : ℕ → ℕ → PageFileMetadata
next_metadata n k = record { next_id = pos (suc n + 1); number_of_pages = pos (k + 1) }

read_metadata-eq :
    (files : Files) (storage : PageStorage) (content bytes : List ℕ)
    → files storage ≡ some content
    → meta_data_size ≤ length content
    → read_at content 0 meta_data_size ≡ some bytes
    → read_metadata files storage ≡ map_err metadata (deserialize_metadata bytes)
unfolding read_metadata
read_metadata-eq files storage content bytes e size r =
    rw (e, le→leb meta_data_size (length content) size, r)

write_metadata-eq :
    (files : Files) (storage : PageStorage) (content bytes : List ℕ) (m : PageFileMetadata)
    → files storage ≡ some content
    → serialize_metadata m ≡ ok bytes
    → write_metadata files storage m ≡ ok (set_file files storage (some (write_at content 0 bytes)))
unfolding write_metadata
write_metadata-eq files storage content bytes m e s = rw (e, s)

allocate_next-eq :
    (m : PageFileMetadata) (n k : ℕ)
    → m.next_id ≡ pos (suc n)
    → m.number_of_pages ≡ pos k
    → suc n + 1 < 2 ^ 31
    → k + 1 < 2 ^ 31
    → allocate_next_page_id {E = StoreError} m ≡ ok (pos (suc n), next_metadata n k)
unfolding allocate_next_page_id
allocate_next-eq m n k e f a b = rw (e, f, lt→ltb (suc n + 1) (2 ^ 31) a, lt→ltb (k + 1) (2 ^ 31) b)

-- Allocating a page in a file with metadata succeeds, as long as the numbers fit: the page has the
-- next identifier and no slots, it can be read from the file, and the metadata in the file count
-- one page more and name the following identifier.
pub allocate_page_correct :
    (files : Files) (layout : PageDataLayout) (storage : PageStorage) (content : List ℕ)
    (m : PageFileMetadata) (n k : ℕ)
    → IsLayout layout
    → files storage ≡ some content
    → read_metadata files storage ≡ ok m
    → m.next_id ≡ pos (suc n)
    → m.number_of_pages ≡ pos k
    → suc n + 1 < 2 ^ 31
    → k + 1 < 2 ^ 31
    → (files' : Files) × (p p' : Page) × (allocate_page files layout storage ≡ ok (p, files'))
      × (p.page_id ≡ pos (suc n))
      × (p.slots ≡ [])
      × (read_page files' layout (pos (suc n)) storage ≡ ok p')
      × (p'.page_id ≡ pos (suc n))
      × (p'.slots ≡ [])
      × (read_metadata files' storage ≡ ok (next_metadata n k))
unfolding allocate_page new_page
allocate_page_correct files layout storage content m n k h e read next count a b =
    let p = page_with layout (pos (suc n)) in
    let v = page_with-IsValid layout n h (omega arith) in
    let (header, wrote, back) =
      >>=-eq-ok (serialize_metadata (next_metadata n k)) deserialize_metadata (
        deserialize_metadata-serialize_metadata (next_metadata n k) (omega arith, omega arith)
          (omega arith, omega arith)) in
    let eight = length-serialize_metadata (next_metadata n k) wrote in
    let content1 = write_at content 0 header in
    let files1 = set_file files storage (some content1) in
    let exists1 : files1 storage ≡ some content1 = set_file_self files storage (some content1) in
    let (bytes, p', wrote2, len, back2, slots, same_id, offset, counted, reads) =
      deserialize-serialize p v in
    let content2 = write_at content1 (place layout n) bytes in
    let files2 = set_file files1 storage (some content2) in
    let exists2 : files2 storage ≡ some content2 = set_file_self files1 storage (some content2) in
    let size1 : meta_data_size ≤ length content1 =
      omega (arith, eight, length-write_at content 0 header) in
    let size2 : meta_data_size ≤ length content2 =
      omega (arith, size1, length-write_at content1 (place layout n) bytes) in
    let got : read_at content1 0 meta_data_size ≡ some header =
      ap (read_at content1 0) {x = meta_data_size} {y = length header} (omega (arith, eight))
      ∙ read_at-write_at_self content 0 header in
    let kept =
      read_at-write_at_apart content1 (place layout n) bytes 0 meta_data_size size1
        (inl (omega arith)) in
    let got2 : read_at content2 (place layout n) layout.page_size ≡ some bytes =
      ap (read_at content2 (place layout n)) (sym len)
      ∙ read_at-write_at_self content1 (place layout n) bytes in
    (
      files2,
      p,
      p',
      rw (
        read,
        allocate_next-eq m n k next count a b,
        write_metadata-eq files storage content header (next_metadata n k) e wrote,
        write_page-eq files1 p n storage content1 v refl (omega arith) exists1 bytes wrote2,
      ),
      refl,
      refl,
      read_page-eq files2 layout n storage content2 bytes h (omega arith) exists2 got2
          ∙ ap (map_err page) back2,
      same_id,
      slots,
      read_metadata-eq files2 storage content2 header exists2 size2 (kept ∙ got)
          ∙ ap (map_err metadata) back,
    )
