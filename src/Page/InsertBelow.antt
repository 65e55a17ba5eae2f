-- ===== src/Page/InsertBelow.antt =====
-- `Page::insert_record` into the free space below the rows.
use fiddlers_db.Prelude.{ℕ, ◌+◌, ◌-◌, ◌%◌, ◌^◌, ◌≤◌, ◌<◌, ◌≡◌, inr, refl}
use fiddlers_db.Prelude.{false, List, [], ◌∷◌, ◌++◌, length, arith}
use fiddlers_db.Prelude.{le→leb, lt→ltb}
use fiddlers_db.Prelude.{
  get_elem?-append_left, get_elem?-append_at, get_elem?_beyond, get_elem?_of_lt,
}
use fiddlers_db.Prelude.Slices.{copied, length-copied, slice-copied_self, copy_at_total}
use fiddlers_db.Prelude.Outcome.{ok}
use fiddlers_db.Page.{Page, Slot, slots_size}
use fiddlers_db.Page.{insert_below, read_slot}
use fiddlers_db.Page.Keeps.{append_slot-IsValid, data-IsValid, lower-IsValid, count-IsValid}
use fiddlers_db.Page.Valid.{IsValid}
use fiddlers_db.Page.Inserted.{Inserted, read_kept}

module _ {p : Page} (v : IsValid p) (bytes : List ℕ) (pos : 0 < length bytes)
    (small : length bytes < 2 ^ 16) (count : p.number_of_records + 1 < 2 ^ 16) where
  abbrev pub below_start : ℕ
  below_start = p.data_offset - length bytes

  abbrev pub new_slot : Slot
  new_slot = record {
    record_length = length bytes % 2 ^ 16;
    page_offset = below_start;
    deleted = false;
  }

  abbrev pub page_below : Page
  page_below = record p {
    data_ = copied p.data_ below_start bytes;
    slots = p.slots ++ new_slot ∷ [];
    data_offset = below_start;
    number_of_records = p.number_of_records + 1;
  }

  module _ (room : length bytes + 7 + slots_size p ≤ p.data_offset) where
    fits_below : below_start + length bytes ≤ length p.data_
    fits_below = omega (arith, v.data_size, v.offset_in)

    pub insert_below-eq : insert_below p bytes ≡ ok (length p.slots, page_below)
    unfolding insert_below
    insert_below-eq = rw (
      le→leb (length bytes) p.data_offset (omega arith),
      copy_at_total p.data_ below_start bytes fits_below,
      lt→ltb (p.number_of_records + 1) (2 ^ 16) count,
      lt→ltb 0 (length bytes % 2 ^ 16) (omega arith),
    )

    page_below-IsValid : IsValid page_below
    page_below-IsValid =
        count-IsValid
          (append_slot-IsValid
            (lower-IsValid
              (data-IsValid v (copied p.data_ below_start bytes)
                (length-copied p.data_ below_start bytes fits_below))
              below_start (omega arith) (omega arith))
            new_slot (record { above = omega arith; below = omega (arith, v.offset_in) })
            (λ i s e. inr (omega (arith, (v.in_rows i s e).above))) (omega arith))
          (p.number_of_records + 1) count

    pub page_below-Inserted : Inserted p bytes (length p.slots) page_below
    unfolding read_slot
    page_below-Inserted = record {
      valid = page_below-IsValid;
      stored =
          let n : length bytes % 2 ^ 16 ≡ length bytes = omega arith in
          rw (
            get_elem?-append_at p.slots [] new_slot (length p.slots) refl,
            n,
            slice-copied_self p.data_ below_start bytes fits_below,
          );
      vacant = rw (get_elem?_beyond p.slots (length p.slots) (omega arith));
      kept = λ j h ne.
          let (s, e) = get_elem?_of_lt p.slots j h in
          rw (get_elem?-append_left p.slots (new_slot ∷ []) j h, e)
            (read_kept p bytes below_start page_below fits_below refl s
              (inr (omega (arith, (v.in_rows j s e).above))));
      counted = refl;
    }
