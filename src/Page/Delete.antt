-- ===== src/Page/Delete.antt =====
-- `Page::delete_record` and `Page::write_record` on a valid page.
use fiddlers_db.Prelude.{
  ℕ, ◌+◌, ◌%◌, ◌^◌, ◌==◌, lt→leb, ◌≤◌, ◌<◌, ◌≡◌, ◌≢◌, ◌⊎◌, inl, inr, refl, sym, true, false, none,
  some, set, List, length, get_elem?, arith,
}
use fiddlers_db.Prelude.{get_elem?-set_self, get_elem?-set_ne, get_elem?_of_lt}
use fiddlers_db.Prelude.Bytes.{copy_at}
use fiddlers_db.Prelude.Slices.{copied, length-copied, slice-copied_self, copy_at_total}
use fiddlers_db.Prelude.Outcome.{ok, err, panic}
use fiddlers_db.Page.{
  Page, Slot, read_slot, read_data, delete_record, write_record, update_record_error,
}
use fiddlers_db.Page.Valid.{IsValid, Apart}
use fiddlers_db.Page.Keeps.{set_slot-IsValid, data-IsValid}
use fiddlers_db.Page.Inserted.{read_kept}

-- What a deletion does to a page.
pub record Deleted (p : Page) (i : ℕ) (p' : Page) : Type 0 where
  pub valid : IsValid p'
  pub gone : read_slot p' i ≡ ok none
  pub kept : (j : ℕ) → j ≢ i → read_slot p' j ≡ read_slot p j

delete_record-eq :
    (p : Page) (i : ℕ) (s : Slot)
    → get_elem? p.slots i ≡ some s
    → delete_record p i ≡ (record p { slots = set p.slots i (record s { deleted = true }) }, true)
unfolding delete_record
delete_record-eq p i s at = ground arith

-- Deleting an existing slot of a valid page is reported as done, makes the slot unreadable, leaves
-- every other slot as it was, and keeps the page valid.
pub delete_record_correct :
    (p : Page) (i : ℕ)
    → IsValid p
    → i < length p.slots
    → ((delete_record p i).1 ≡ true) × Deleted p i (delete_record p i).0
unfolding read_slot read_data
delete_record_correct p i v h =
    let (s, at) = get_elem?_of_lt p.slots i h in
    rw (delete_record-eq p i s at) (
      refl,
      record {
        valid = set_slot-IsValid v i s (record s { deleted = true }) at (omega arith);
        gone = rw (get_elem?-set_self p.slots i (record s { deleted = true }) h);
        kept = λ j ne.
            rw (get_elem?-set_ne p.slots i j (record s { deleted = true }) (λ e. ne (sym e)));
      },
    )

-- The page with the record of slot `i` overwritten.
abbrev pub overwritten : Page → Slot → List ℕ → Page
overwritten p s bytes = record p { data_ = copied p.data_ s.page_offset bytes }

-- More bytes than the page has are not copied.
copy_at_beyond :
    (buf : List ℕ) (start : ℕ) (bytes : List ℕ)
    → length buf < start + length bytes
    → copy_at buf start bytes ≡ none
unfolding copy_at
copy_at_beyond buf start bytes h = rw (lt→leb (start + length bytes) (length buf) h)

-- Writing bytes over a live record of a valid page. Bytes of the record's length are written: they
-- read back, every other slot reads as before, and the page stays valid. Bytes whose length differs
-- in its low 16 bits are refused. Bytes of another length with the same low 16 bits pass the
-- comparison, and copying them panics.
pub write_record_correct :
    (p : Page) (i : ℕ) (s : Slot) (bytes : List ℕ)
    → IsValid p
    → get_elem? p.slots i ≡ some s
    → s.deleted ≡ false
    → (s.record_length ≢ length bytes % 2 ^ 16 → write_record p i bytes ≡ err update_record_error)
      × (s.record_length ≡ length bytes % 2 ^ 16
          → s.record_length ≢ length bytes
          → write_record p i bytes ≡ panic)
      × (s.record_length ≡ length bytes
          → (write_record p i bytes ≡ ok (overwritten p s bytes))
            × IsValid (overwritten p s bytes)
            × (read_slot (overwritten p s bytes) i ≡ ok (some bytes))
            × ((j : ℕ)
                → j < length p.slots
                → j ≢ i
                → read_slot (overwritten p s bytes) j ≡ read_slot p j))
unfolding write_record read_slot read_data
write_record_correct p i s bytes v at live = (
  λ ne. rw at (ground arith),
  λ low ne.
      let longer : length p.data_ < s.page_offset + length bytes =
        omega (arith, v.data_size, v.layout_ok.at_most, low, ne) in
      let test : (s.record_length == length bytes % 2 ^ 16) ≡ true = ground arith in
      rw (at, test, copy_at_beyond p.data_ s.page_offset bytes longer),
  λ same.
      let fits : s.page_offset + length bytes ≤ length p.data_ =
        omega (arith, v.data_size, (v.in_rows i s at).below) in
      let low : s.record_length ≡ length bytes % 2 ^ 16 =
        omega (arith, v.layout_ok.at_most, (v.in_rows i s at).below) in
      let test : (s.record_length == length bytes % 2 ^ 16) ≡ true = ground arith in
      (
        rw (at, test, copy_at_total p.data_ s.page_offset bytes fits),
        data-IsValid v (copied p.data_ s.page_offset bytes)
            (length-copied p.data_ s.page_offset bytes fits),
        rw (at, live, same, slice-copied_self p.data_ s.page_offset bytes fits),
        λ j h ne.
            let (t, e) = get_elem?_of_lt p.slots j h in
            rw e (
              unfold read_data in
              read_kept p bytes s.page_offset (overwritten p s bytes) fits refl t
                (beside t (v.apart j i t s ne e at) same)),
      ),
)
  where
    beside :
        (t : Slot)
        → Apart t s
        → s.record_length ≡ length bytes
        → (t.page_offset + t.record_length ≤ s.page_offset)
          ⊎ (s.page_offset + length bytes ≤ t.page_offset)
    beside t (inl a) same = inl a
    beside t (inr a) same = inr (omega arith)
