-- ===== src/Tree/BTree/Reopen.antt =====
-- src/tree/store.rs: the metadata of a B+ tree that is saved and opened again.
use fiddlers_db.Prelude.{
  ℕ, ◌%◌, ◌^◌, ◌<◌, ◌≤◌, ◌≡◌, refl, sym, ap, ◌∙◌, arith, true, false, List, [], ◌++◌, append-nil,
  length, replicate, drop, some, if◌then◌else◌, le→leb, le→ltb, ==_iff,
}
use fiddlers_db.Prelude.Bytes.{
  copy_at, u16_to_be, u32_to_be, i32_to_be, length-u16_to_be, length-u32_to_be, length-i32_to_be,
  u16_from_be-u16_to_be, u32_from_be-u32_to_be, i32_from_be-i32_to_be,
}
use fiddlers_db.Prelude.Slices.{copy_at_lem, copy_at_lem2, copy_at_lem3, slice_at}
use fiddlers_db.Prelude.Outcome.{ok}
use fiddlers_db.Store.FileStore.{read_at, write_at}
use fiddlers_db.Store.Ranges.{length-write_at, read_at-write_at_self}
use fiddlers_db.Tree.Codec.{or_null}
use fiddlers_db.Tree.Codec.RoundTrip.{IsStorableOption, or_null-IsI32, read_or_null, after_part}
use fiddlers_db.Tree.MetaData.{
  StoreMetaData, meta_data_to_bytes, meta_data_from_bytes, read_meta_u16, read_meta_u32,
  read_meta_i32,
}
use fiddlers_db.Tree.Pager.{Cache, PagerState}
use fiddlers_db.Tree.BTree.{Failure, save_metadata, new_store, open_file}

-- Metadata that the header can hold.
pub record IsSavable (m : StoreMetaData) : Type 0 where
  pub degree_u16 : m.max_degree < 2 ^ 16
  pub pages_u32 : m.number_of_pages < 2 ^ 32
  pub deleted_ok : IsStorableOption m.first_deleted_page
  pub root_ok : IsStorableOption m.root

module _ (m : StoreMetaData) where
  abbrev pub header : List ℕ
  header =
      u16_to_be m.max_degree
      ++ (u32_to_be m.number_of_pages
          ++ (i32_to_be (or_null m.first_deleted_page) ++ i32_to_be (or_null m.root)))

  pub length-header : length header ≡ 14
  unfolding u16_to_be u32_to_be i32_to_be
  length-header = refl

  pub meta_data_to_bytes_lem {ℓ} : {E : Type ℓ} → meta_data_to_bytes {E = E} m ≡ ok header
  unfolding meta_data_to_bytes
  meta_data_to_bytes_lem {E} =
      let a = u16_to_be m.max_degree in
      let b = u32_to_be m.number_of_pages in
      let c = i32_to_be (or_null m.first_deleted_page) in
      let d = i32_to_be (or_null m.root) in
      let four : List ℕ = replicate 4 0 in
      rw (
        meta_data_to_bytes,
        copy_at_lem [] (replicate 2 0) (four ++ (four ++ four)) a 0 refl
            (sym (length-u16_to_be m.max_degree)),
        copy_at_lem a four (four ++ four) b 2 (length-u16_to_be m.max_degree)
            (sym (length-u32_to_be m.number_of_pages)),
        copy_at_lem2 a b four four c 6
            (omega (arith, length-u16_to_be m.max_degree, length-u32_to_be m.number_of_pages))
            (sym (length-i32_to_be (or_null m.first_deleted_page))),
        ap (λ l. copy_at (a ++ (b ++ (c ++ l))) 10 d) (sym (append-nil four)),
        copy_at_lem3 a b c four [] d 10
            (omega (
              arith,
              length-u16_to_be m.max_degree,
              length-u32_to_be m.number_of_pages,
              length-i32_to_be (or_null m.first_deleted_page),
            ))
            (sym (length-i32_to_be (or_null m.root))),
        append-nil d,
      )

  module _ (savable : IsSavable m) where
    degree_read : read_meta_u16 header 0 ≡ ok m.max_degree
    unfolding read_meta_u16
    degree_read = rw (
      read_meta_u16,
      slice_at header (u16_to_be m.max_degree) _ 0 2 refl (omega arith)
          (omega (arith, length-u16_to_be m.max_degree)),
      u16_from_be-u16_to_be m.max_degree savable.degree_u16,
    )

    at_pages :
        drop 2 header
        ≡ u32_to_be m.number_of_pages
          ++ (i32_to_be (or_null m.first_deleted_page) ++ i32_to_be (or_null m.root))
    at_pages =
        after_part header (u16_to_be m.max_degree) _ 0 2 2 refl (length-u16_to_be m.max_degree) refl

    pages_read : read_meta_u32 header 2 ≡ ok m.number_of_pages
    unfolding read_meta_u32
    pages_read = rw (
      read_meta_u32,
      slice_at header (u32_to_be m.number_of_pages) _ 2 6 at_pages (omega (arith, length-header))
          (omega (arith, length-u32_to_be m.number_of_pages)),
      u32_from_be-u32_to_be m.number_of_pages savable.pages_u32,
    )

    at_deleted :
        drop 6 header ≡ i32_to_be (or_null m.first_deleted_page) ++ i32_to_be (or_null m.root)
    at_deleted =
        after_part header (u32_to_be m.number_of_pages) _ 2 4 6 at_pages
          (length-u32_to_be m.number_of_pages) refl

    deleted_read : read_meta_i32 header 6 ≡ ok (or_null m.first_deleted_page)
    unfolding read_meta_i32
    deleted_read = rw (
      read_meta_i32,
      slice_at header (i32_to_be (or_null m.first_deleted_page)) _ 6 10 at_deleted
          (omega (arith, length-header))
          (omega (arith, length-i32_to_be (or_null m.first_deleted_page))),
      i32_from_be-i32_to_be (or_null m.first_deleted_page)
          (or_null-IsI32 m.first_deleted_page savable.deleted_ok),
    )

    at_root : drop 10 header ≡ i32_to_be (or_null m.root) ++ []
    at_root =
        after_part header (i32_to_be (or_null m.first_deleted_page)) _ 6 4 10 at_deleted
          (length-i32_to_be (or_null m.first_deleted_page)) refl
        ∙ sym (append-nil (i32_to_be (or_null m.root)))

    root_read : read_meta_i32 header 10 ≡ ok (or_null m.root)
    unfolding read_meta_i32
    root_read = rw (
      read_meta_i32,
      slice_at header (i32_to_be (or_null m.root)) [] 10 14 at_root (omega (arith, length-header))
          (omega (arith, length-i32_to_be (or_null m.root))),
      i32_from_be-i32_to_be (or_null m.root) (or_null-IsI32 m.root savable.root_ok),
    )

    pub meta_data_from_bytes_lem :
        meta_data_from_bytes header ≡ ok (record m { changed = false; unique_index = true })
    unfolding meta_data_from_bytes
    meta_data_from_bytes_lem = rw (
      meta_data_from_bytes,
      degree_read,
      pages_read,
      deleted_read,
      root_read,
      read_or_null m.first_deleted_page savable.deleted_ok,
      read_or_null m.root savable.root_ok,
    )

-- Metadata that was changed and that the header can hold is saved without an error. A store that is
-- opened on the file, with any degree that is accepted, has the metadata that was saved, with the
-- flag `changed` unset, and the same file, whatever its own degree is.
pub new_store-save_metadata :
    {C : Type 0} (cached : Cache C) (s : PagerState C) (max_degree : ℕ)
    → IsSavable s.meta_data
    → s.meta_data.changed ≡ true
    → 4 ≤ max_degree
    → max_degree % 2 ≡ 0
    → (s' : PagerState C) × (save_metadata cached s ≡ ok s')
      × (new_store cached (some s'.file) max_degree
          ≡ ok (record {
            file = s'.file;
            cache = cached.new_cache;
            meta_data = record s.meta_data { changed = false; unique_index = true };
          }))
unfolding save_metadata new_store open_file
new_store-save_metadata cached s max_degree savable changed least even =
    let m = s.meta_data in
    let file = write_at s.file 0 (header m) in
    let long : 14 ≤ length file =
      omega (arith, length-write_at s.file 0 (header m), length-header m) in
    let got : read_at file 0 14 ≡ some (header m) =
      ap (read_at file 0) (sym (length-header m)) ∙ read_at-write_at_self s.file 0 (header m) in
    (
      record s { file = file },
      rw (save_metadata, meta_data_to_bytes_lem m {E = Failure cached})
          (ap (λ b. if b then ok (record s { file = file }) else ok s) changed),
      rw (
        new_store,
        le→ltb max_degree 4 least,
        (==_iff (max_degree % 2) 0).1 even,
        le→leb 14 (length file) long,
        open_file,
        got,
        meta_data_from_bytes_lem m savable,
      ),
    )
