-- ===== src/Page/Metadata.antt =====
-- src/data/page.rs: `PageFileMetadata`, the 8 bytes at the head of a heap file.
use fiddlers_db.Prelude.{ℕ, ◌≡◌, refl, sym, List, [], ◌++◌, replicate, arith}
use fiddlers_db.Prelude.Int.{ℤ, pos, IsI32, i32_succ}
use fiddlers_db.Prelude.Bytes.{
  slice, copy_at, i32_to_be, i32_from_be, i32_from_be-i32_to_be, length-i32_to_be,
}
use fiddlers_db.Prelude.Slices.{slice_lem, copy_at_lem}
use fiddlers_db.Prelude.Outcome.{Outcome, ok, ◌>>=◌, or_panic, ok_or}
use fiddlers_db.Page.Layout.{meta_data_size}

-- `struct PageFileMetadata`
pub record PageFileMetadata : Type 0 where
  pub next_id : ℤ
  pub number_of_pages : ℤ

pub data ReadMetadataError : Type 0 where
  metadata_deserialization_error : ReadMetadataError

-- `PageFileMetadata::new`
unfoldable pub new_metadata : PageFileMetadata
new_metadata = record { next_id = pos 1; number_of_pages = pos 0 }

-- `PageFileMetadata::deserialize`
unfoldable pub deserialize_metadata : List ℕ → Outcome ReadMetadataError PageFileMetadata
deserialize_metadata buf = do
  b0 ← or_panic (slice buf 0 4)
  next_id ← ok_or metadata_deserialization_error (i32_from_be b0)
  b4 ← or_panic (slice buf 4 8)
  number_of_pages ← ok_or metadata_deserialization_error (i32_from_be b4)
  ok (record { next_id = next_id; number_of_pages = number_of_pages })

-- `PageFileMetadata::serialize`
unfoldable pub serialize_metadata : PageFileMetadata → Outcome ReadMetadataError (List ℕ)
serialize_metadata m = do
  buf ← or_panic (copy_at (replicate meta_data_size 0) 0 (i32_to_be m.next_id))
  or_panic (copy_at buf 4 (i32_to_be m.number_of_pages))

-- `PageFileMetadata::allocate_next_page_id`: the identifier, and the new metadata.
unfoldable pub allocate_next_page_id {ℓ} :
    {E : Type ℓ} → PageFileMetadata → Outcome E (ℤ × PageFileMetadata)
allocate_next_page_id m = do
  next ← or_panic (i32_succ m.next_id)
  count ← or_panic (i32_succ m.number_of_pages)
  ok (m.next_id, record { next_id = next; number_of_pages = count })

-- The metadata that is written is the metadata that is read.
pub deserialize_metadata-serialize_metadata :
    (m : PageFileMetadata)
    → IsI32 m.next_id
    → IsI32 m.number_of_pages
    → (serialize_metadata m >>= deserialize_metadata) ≡ ok m
unfolding serialize_metadata deserialize_metadata
deserialize_metadata-serialize_metadata m h k =
    let a = i32_to_be m.next_id in
    let b = i32_to_be m.number_of_pages in
    rw (
      copy_at_lem [] (replicate 4 0) (replicate 4 0) a 0 refl (sym (length-i32_to_be m.next_id)),
      copy_at_lem a (replicate 4 0) [] b 4 (length-i32_to_be m.next_id)
          (sym (length-i32_to_be m.number_of_pages)),
      slice_lem [] a (b ++ []) 0 4 refl (omega (arith, length-i32_to_be m.next_id)),
      i32_from_be-i32_to_be m.next_id h,
      slice_lem a b [] 4 8 (length-i32_to_be m.next_id)
          (omega (arith, length-i32_to_be m.number_of_pages)),
      i32_from_be-i32_to_be m.number_of_pages k,
    )
