-- ===== src/Page/Overlap.antt =====
-- `Page::insert_record` into a longer deleted slot, where the slot array has no room for the entry
-- of the bytes that are left over.
use fiddlers_db.Prelude.{
  ℕ, ◌+◌, ◌-◌, ◌^◌, ◌≤◌, ◌<◌, ◌≡◌, ◌≢◌, ◌∙◌, true, some, set, List, length, get_elem?, arith,
}
use fiddlers_db.Prelude.{le→leb, lt→leb, length-set, length-append, [], ◌∷◌}
use fiddlers_db.Prelude.Outcome.{ok, panic}
use fiddlers_db.Page.{
  Page, Slot, slots_size, find_free_slot_index, max_available_space, row_data_size, can_insert,
  insert_record,
}
use fiddlers_db.Page.Layout.{page_data_size}
use fiddlers_db.Page.Valid.{IsValid}
use fiddlers_db.Page.InsertInto.{page_split, rest_slot, filled, insert_into_split}
use fiddlers_db.Page.Insert.{found_slot, small_of_fits, insert_record-some}

max_available_space_panics :
    (q : Page)
    → q.data_offset ≤ page_data_size q.layout
    → q.data_offset < slots_size q
    → max_available_space q ≡ panic
unfolding max_available_space row_data_size
max_available_space_panics q h over =
    let above : page_data_size q.layout - (page_data_size q.layout - q.data_offset)
        ≡ q.data_offset =
      omega arith in
    rw (
      le→leb q.data_offset (page_data_size q.layout) h,
      le→leb (page_data_size q.layout - q.data_offset) (page_data_size q.layout) (omega arith),
      above,
      lt→leb (slots_size q) q.data_offset over,
    )

-- On a valid page whose slot array has no room for one more entry, a record that `can_insert`
-- accepts and that goes to a longer deleted slot is reported as inserted. The slot array of the
-- page then reaches into the rows, so the page is not valid, and asking for its free space panics.
pub insert_record_overlap :
    (p : Page) (bytes : List ℕ) (k : ℕ) (s : Slot)
    → IsValid p
    → p.number_of_records + 1 < 2 ^ 16
    → can_insert p bytes ≡ ok true
    → find_free_slot_index p bytes ≡ some k
    → get_elem? p.slots k ≡ some s
    → s.record_length ≢ length bytes
    → p.data_offset < slots_size p + 7
    → (p' : Page) × (insert_record p bytes ≡ ok (k, p'))
      × (p'.data_offset < slots_size p')
      × (¬ IsValid p')
      × (max_available_space p' ≡ panic)
insert_record_overlap p bytes k s v count h found at longer full =
    let small = small_of_fits v bytes h in
    let (t, at', d, w) = found_slot v bytes k found in
    let long : length bytes ≤ t.record_length = omega arith in
    let same : s.record_length ≡ t.record_length = ground arith in
    let q = page_split v bytes small count k t at' d long in
    let over : q.data_offset < slots_size q = omega (
      arith,
      length-append (set p.slots k (filled v bytes small count k t at' d long))
          (rest_slot v bytes small count k t at' d long ∷ []),
      length-set p.slots k (filled v bytes small count k t at' d long),
    ) in
    (
      q,
      insert_record-some v bytes k t h found at'
          ∙ insert_into_split v bytes small count k t at' d long (omega arith),
      over,
      λ w'. absurd (omega (arith, over, w'.slots_below)),
      max_available_space_panics q (omega (arith, v.offset_in)) over,
    )
