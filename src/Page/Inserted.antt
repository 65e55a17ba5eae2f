-- ===== src/Page/Inserted.antt =====
-- What `Page::insert_record` has to establish, and what a copy into a page leaves as it was.
use fiddlers_db.Prelude.{ℕ, ◌+◌, ◌-◌, ◌≤◌, ◌<◌, ◌≡◌, ◌≢◌, ◌⊎◌}
use fiddlers_db.Prelude.{none, some, List, length, arith, max}
use fiddlers_db.Prelude.{le→leb}
use fiddlers_db.Prelude.Slices.{copied, slice-copied_apart}
use fiddlers_db.Prelude.Outcome.{ok}
use fiddlers_db.Page.{Page, Slot, slots_size}
use fiddlers_db.Page.{
  row_data_size, max_fragmented_free_space, max_available_space, read_slot, read_data, read_found,
}
use fiddlers_db.Page.Layout.{page_data_size}
use fiddlers_db.Page.Search.{max_deleted-le}
use fiddlers_db.Page.Valid.{IsValid}

-- What the page is after the record went to slot `i`.
pub record Inserted (p : Page) (bytes : List ℕ) (i : ℕ) (p' : Page) : Type 0 where
  pub valid : IsValid p'
  -- the record is there, where no live record was
  pub stored : read_slot p' i ≡ ok (some bytes)
  pub vacant : read_slot p i ≡ ok none
  pub kept : (j : ℕ) → j < length p.slots → j ≢ i → read_slot p' j ≡ read_slot p j
  pub counted : p'.number_of_records ≡ p.number_of_records + 1

module _ {p : Page} (v : IsValid p) where
  -- On a valid page the free space is computed without a panic.
  pub max_available_space-eq :
      max_available_space p ≡ ok (max (p.data_offset - slots_size p) (max_fragmented_free_space p))
  unfolding max_available_space row_data_size
  max_available_space-eq =
      let above : page_data_size p.layout - (page_data_size p.layout - p.data_offset)
          ≡ p.data_offset =
        omega (arith, v.offset_in) in
      rw (
        le→leb p.data_offset (page_data_size p.layout) v.offset_in,
        le→leb (page_data_size p.layout - p.data_offset) (page_data_size p.layout) (omega arith),
        above,
        le→leb (slots_size p) p.data_offset v.slots_below,
      )

  pub fragmented-le : max_fragmented_free_space p ≤ page_data_size p.layout
  unfolding max_fragmented_free_space
  fragmented-le = max_deleted-le p.slots _ (λ i s e. omega (arith, (v.in_rows i s e).below))

module _ (p : Page) (bytes : List ℕ) where
  -- A copy leaves the records beside it as they were.
  pub read_kept :
      (start : ℕ) (p' : Page)
      → start + length bytes ≤ length p.data_
      → p'.data_ ≡ copied p.data_ start bytes
      → (s : Slot)
      → (s.page_offset + s.record_length ≤ start) ⊎ (start + length bytes ≤ s.page_offset)
      → read_found p' (some s) ≡ read_found p (some s)
  unfolding read_data
  read_kept start p' fits e s h = rw (
    e,
    slice-copied_apart p.data_ start bytes fits s.page_offset (s.page_offset + s.record_length) h,
  )
