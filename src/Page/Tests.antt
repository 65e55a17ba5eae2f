-- ===== src/Page/Tests.antt =====
-- Pages with and without a record, and uses of the theorems on them.
use fiddlers_db.Page.Iterator.{new_iterator, from_slots, next, record_from_slot}
use fiddlers_db.Page.Records.{Advances, next_correct, from_slots_misnumbers}
use fiddlers_db.Prelude.{
  ℕ, zero, suc, ◌+◌, ◌≤◌, ◌<◌, ◌≡◌, ◌≢◌, inr, refl, List, [], ◌∷◌, length, arith, some, get_elem?,
  true, false, Bool, replicate,
}
use fiddlers_db.Prelude.Int.{pos}
use fiddlers_db.Prelude.Outcome.{ok, err, panic}
use fiddlers_db.Page.{
  Page, Slot, update_record_error, new_page, can_insert, insert_record, find_free_slot_index,
  find_free, max_available_space, row_data_size, max_fragmented_free_space, delete_record,
  write_record, read_slot, slots_size,
}
use fiddlers_db.Page.Layout.{PageDataLayout}
use fiddlers_db.Page.Codec.{serialize, deserialize}
use fiddlers_db.Page.Valid.{IsLayout, InRows, Apart, IsValid, new_page-IsValid}
use fiddlers_db.Page.Inserted.{Inserted}
use fiddlers_db.Page.Insert.{insert_record_correct}
use fiddlers_db.Page.Overlap.{insert_record_overlap}
use fiddlers_db.Page.Delete.{Deleted, delete_record_correct, overwritten, write_record_correct}
use fiddlers_db.Page.RoundTrip.{deserialize-serialize}

abbrev layout_32 : PageDataLayout
layout_32 = record { page_size = 32 }

layout_32-IsLayout : IsLayout layout_32
layout_32-IsLayout = record { at_least = omega arith; at_most = omega arith }

-- A page without a record.
abbrev fresh : Page
fresh = record {
  data_ = replicate 18 0;
  slots = [];
  layout = layout_32;
  number_of_records = 0;
  data_offset = 18;
  slots_offset = 0;
  page_id = pos 0;
}

fresh-IsValid : IsValid fresh
unfolding new_page
fresh-IsValid = new_page-IsValid layout_32 layout_32-IsLayout

-- A page with one slot.
abbrev with_slot : ℕ → ℕ → Bool → Page
with_slot offset len deleted = record {
  data_ = replicate 18 5;
  slots = record { record_length = len; page_offset = offset; deleted = deleted } ∷ [];
  layout = layout_32;
  number_of_records = 1;
  data_offset = offset;
  slots_offset = 0;
  page_id = pos 1;
}

with_slot-InRows :
    (offset len : ℕ) (deleted : Bool)
    → offset + len ≤ 18
    → (i : ℕ) (s : Slot) → get_elem? (with_slot offset len deleted).slots i ≡ some s
    → InRows (with_slot offset len deleted) s
with_slot-InRows offset len deleted h zero s e = record {
  above = ground arith;
  below = ground arith;
}
with_slot-InRows offset len deleted h (suc i) s e = cc

with_slot-IsValid :
    (offset len : ℕ) (deleted : Bool)
    → 7 ≤ offset
    → offset + len ≤ 18
    → IsValid (with_slot offset len deleted)
with_slot-IsValid offset len deleted low high = record {
  layout_ok = layout_32-IsLayout;
  data_size = refl;
  slots_below = low;
  offset_in = omega arith;
  count_u16 = omega arith;
  id_i32 = (omega arith, omega arith);
  in_rows = with_slot-InRows offset len deleted high;
  apart = alone;
}
  where
    alone :
        (i j : ℕ) (s t : Slot)
        → i ≢ j
        → get_elem? (with_slot offset len deleted).slots i ≡ some s
        → get_elem? (with_slot offset len deleted).slots j ≡ some t
        → Apart s t
    alone zero zero s t ne e f = absurd (ne refl)
    alone zero (suc j) s t ne e f = cc
    alone (suc i) j s t ne e f = cc

abbrev live : Page
live = with_slot 15 3 false

live-IsValid : IsValid live
live-IsValid = with_slot-IsValid 15 3 false (omega arith) (omega arith)

-- One deleted slot of 11 bytes, and no room for another slot.
abbrev tight : Page
tight = with_slot 7 11 true

tight-IsValid : IsValid tight
tight-IsValid = with_slot-IsValid 7 11 true (omega arith) (omega arith)

fresh-accepts : can_insert fresh (7 ∷ 8 ∷ []) ≡ ok true
unfolding can_insert find_free_slot_index max_available_space row_data_size
    max_fragmented_free_space find_free
fresh-accepts = refl

tight-accepts : can_insert tight (7 ∷ []) ≡ ok true
unfolding can_insert find_free_slot_index max_available_space row_data_size
    max_fragmented_free_space find_free
tight-accepts = refl

tight_found : find_free_slot_index tight (7 ∷ []) ≡ some 0
unfolding find_free_slot_index find_free
tight_found = refl

insert_record_correct_example :
    (i : ℕ) × (p' : Page) × (insert_record fresh (7 ∷ 8 ∷ []) ≡ ok (i, p'))
    × Inserted fresh (7 ∷ 8 ∷ []) i p'
insert_record_correct_example =
    insert_record_correct fresh (7 ∷ 8 ∷ []) fresh-IsValid (omega arith) (omega arith)
      (inr (omega arith)) fresh-accepts

insert_record_overlap_example :
    (p' : Page) × (insert_record tight (7 ∷ []) ≡ ok (0, p'))
    × (p'.data_offset < slots_size p')
    × (¬ IsValid p')
    × (max_available_space p' ≡ panic)
insert_record_overlap_example =
    insert_record_overlap tight (7 ∷ []) 0
      (record { record_length = 11; page_offset = 7; deleted = true }) tight-IsValid (omega arith)
      tight-accepts tight_found refl (omega arith) (omega arith)

delete_record_correct_example :
    ((delete_record live 0).1 ≡ true) × Deleted live 0 (delete_record live 0).0
delete_record_correct_example = delete_record_correct live 0 live-IsValid (omega arith)

abbrev live_slot : Slot
live_slot = record { record_length = 3; page_offset = 15; deleted = false }

write_record_correct_example :
    (live_slot.record_length ≢ 3 → write_record live 0 (1 ∷ 2 ∷ 3 ∷ []) ≡ err update_record_error)
    × (live_slot.record_length ≡ 3
        → live_slot.record_length ≢ 3
        → write_record live 0 (1 ∷ 2 ∷ 3 ∷ []) ≡ panic)
    × (live_slot.record_length ≡ 3
        → (write_record live 0 (1 ∷ 2 ∷ 3 ∷ []) ≡ ok (overwritten live live_slot (1 ∷ 2 ∷ 3 ∷ [])))
          × IsValid (overwritten live live_slot (1 ∷ 2 ∷ 3 ∷ []))
          × (read_slot (overwritten live live_slot (1 ∷ 2 ∷ 3 ∷ [])) 0 ≡ ok (some (1 ∷ 2 ∷ 3 ∷ [])))
          × ((j : ℕ)
              → j < 1
              → j ≢ 0
              → read_slot (overwritten live live_slot (1 ∷ 2 ∷ 3 ∷ [])) j ≡ read_slot live j))
write_record_correct_example =
    write_record_correct live 0 live_slot (1 ∷ 2 ∷ 3 ∷ []) live-IsValid refl refl

deserialize-serialize_example :
    (buf : List ℕ) × (p' : Page) × (serialize live ≡ ok buf)
    × (length buf ≡ 32)
    × (deserialize buf layout_32 ≡ ok p')
    × (p'.slots ≡ live.slots)
    × (p'.page_id ≡ live.page_id)
    × (p'.data_offset ≡ live.data_offset)
    × (p'.number_of_records ≡ live.number_of_records)
    × ((i : ℕ) → read_slot p' i ≡ read_slot live i)
deserialize-serialize_example = deserialize-serialize live live-IsValid

next_correct_example : Advances (new_iterator live)
unfolding new_iterator
next_correct_example = next_correct (new_iterator live) (omega arith)

-- A page with two slots.
abbrev two_slots : Page
two_slots = record live {
  slots = live_slot ∷ record { record_length = 2; page_offset = 14; deleted = false } ∷ [];
}

from_slots_misnumbers_example :
    (next (from_slots two_slots (1 ∷ []))).0
    ≡ some (
        record_from_slot
          (pos 1)
          two_slots.data_
          0
          (record { record_length = 2; page_offset = 14; deleted = false }))
from_slots_misnumbers_example =
    from_slots_misnumbers two_slots 1
      (record { record_length = 2; page_offset = 14; deleted = false }) refl refl
