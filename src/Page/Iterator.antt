-- ===== src/Page/Iterator.antt =====
-- src/data/page.rs: the iterator over the live records of a page.
use fiddlers_db.Prelude.{
  ℕ, zero, suc, ◌+◌, ◌-◌, Bool, false, Option, none, some, List, [], ◌∷◌, length, get_elem?,
}
use fiddlers_db.Prelude.{◌==◌, ◌||◌, if◌then◌else◌}
use fiddlers_db.Prelude.Int.{ℤ}
use fiddlers_db.Prelude.Bytes.{slice}
use fiddlers_db.Prelude.Outcome.{Outcome, or_panic}
use fiddlers_db.Page.{Page, Slot, PageError}

-- `struct RecordData`
pub record RecordData : Type 0 where
  pub bytes : List ℕ
  pub slice_from : ℕ
  pub slice_to : ℕ

-- `RecordData::data`
abbrev pub record_data : RecordData → Outcome PageError (List ℕ)
record_data d = or_panic (slice d.bytes d.slice_from d.slice_to)

-- `struct Record`
pub record Record : Type 0 where
  pub page_id : ℤ
  pub record_index : ℕ
  pub contents : RecordData

-- `struct RecordIterator`
pub record RecordIterator : Type 0 where
  pub page_id : ℤ
  pub bytes : List ℕ
  pub slots : List Slot
  pub next_slot : ℕ

abbrev pub contains : List ℕ → ℕ → Bool
contains [] index = false
contains (i ∷ ids) index = i == index || contains ids index

-- The slots whose indices, from `index` on, are wanted.
unfoldable pub select : List ℕ → List Slot → ℕ → List Slot
select slot_ids [] index = []
select slot_ids (s ∷ slots) index =
    let rest = select slot_ids slots (index + 1) in
    if contains slot_ids index then s ∷ rest else rest

-- `RecordIterator::from_slots`
unfoldable pub from_slots : Page → List ℕ → RecordIterator
from_slots p slot_ids = record {
  page_id = p.page_id;
  bytes = p.data_;
  slots = select slot_ids p.slots 0;
  next_slot = 0;
}

-- `RecordIterator::new`
unfoldable pub new_iterator : Page → RecordIterator
new_iterator p = record { page_id = p.page_id; bytes = p.data_; slots = p.slots; next_slot = 0 }

-- `record_from_slot`
abbrev pub record_from_slot : ℤ → List ℕ → ℕ → Slot → Record
record_from_slot page_id bytes slot_index slot = record {
  page_id = page_id;
  record_index = slot_index;
  contents = record {
    bytes = bytes;
    slice_from = slot.page_offset;
    slice_to = slot.page_offset + slot.record_length;
  };
}

-- A round of the loop at a slot; `rest` is what the later rounds return.
abbrev pub at_slot :
    RecordIterator → Option Slot → Option Record × RecordIterator → Option Record × RecordIterator
at_slot it none rest = (none, it)
at_slot it (some slot) rest = if slot.deleted then rest else (
  some (record_from_slot it.page_id it.bytes it.next_slot slot),
  record it { next_slot = it.next_slot + 1 },
)

-- The loop of `RecordIterator::next`, of `count` slots at most.
unfoldable pub next_loop : ℕ → RecordIterator → Option Record × RecordIterator
next_loop zero it = (none, it)
next_loop (suc count) it =
    at_slot it (get_elem? it.slots it.next_slot)
      (next_loop count (record it { next_slot = it.next_slot + 1 }))

-- `RecordIterator::next`
unfoldable pub next : RecordIterator → Option Record × RecordIterator
unfolding next_loop
next it = next_loop (length it.slots - it.next_slot) it
