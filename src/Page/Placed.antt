-- ===== src/Page/Placed.antt =====
-- src/data/page.rs: an insertion leaves the layout and the identifier of a page.
use fiddlers_db.Prelude.{
  ℕ, ◌+◌, ◌^◌, ◌%◌, ◌≡◌, refl, Bool, true, false, Option, none, some, List, length, ltb,
  if◌then◌else◌,
}
use fiddlers_db.Prelude.Bytes.{copy_at}
use fiddlers_db.Prelude.Outcome.{
  or_panic, checked_add, checked_sub, ensure, Ensures, Ensures->>=, Ensures-ok,
}
use fiddlers_db.Page.{
  Page, Slot, insert_record_error, can_insert, allocate_slot, finish_insert, insert_into,
  insert_below, insert_found, find_deleted_slot, insert_record,
}

abbrev pub SamePlace : Page → Page → Type 0
SamePlace p p' = (p'.layout ≡ p.layout) × (p'.page_id ≡ p.page_id)

allocated-SamePlace :
    (p : Page) (b : Bool) (offset len : ℕ) (d : Bool)
    → SamePlace p (if b then allocate_slot p offset len d else p)
allocated-SamePlace p true offset len d = (refl, refl)
allocated-SamePlace p false offset len d = (refl, refl)

finish_insert-SamePlace :
    (p : Page) (i offset len : ℕ) (d : Bool)
    → Ensures (λ r. SamePlace p r.1) (finish_insert p i offset len d)
unfolding finish_insert
finish_insert-SamePlace p i offset len d =
    Ensures->>= (checked_add (2 ^ 16) p.number_of_records 1)
      (λ count. Ensures-ok _ (allocated-SamePlace p (ltb 0 len) offset len d))

insert_into-SamePlace :
    (p : Page) (i : ℕ) (slot : Slot) (row_bytes : List ℕ)
    → Ensures (λ r. SamePlace p r.1) (insert_into p i slot row_bytes)
unfolding insert_into
insert_into-SamePlace p i slot row_bytes =
    Ensures->>= (or_panic (copy_at p.data_ slot.page_offset row_bytes)) (λ d.
      Ensures->>= (checked_sub slot.record_length (length row_bytes % 2 ^ 16)) (λ remaining.
        finish_insert-SamePlace _ i (slot.page_offset + length row_bytes) remaining true))

insert_below-SamePlace :
    (p : Page) (row_bytes : List ℕ) → Ensures (λ r. SamePlace p r.1) (insert_below p row_bytes)
unfolding insert_below
insert_below-SamePlace p row_bytes =
    Ensures->>= (checked_sub p.data_offset (length row_bytes)) (λ start.
      Ensures->>= (or_panic (copy_at p.data_ start row_bytes))
        (λ d. finish_insert-SamePlace _ (length p.slots) start (length row_bytes % 2 ^ 16) false))

insert_found-SamePlace :
    (p : Page) (row_bytes : List ℕ) (found : Option (ℕ × Slot))
    → Ensures (λ r. SamePlace p r.1) (insert_found p row_bytes found)
insert_found-SamePlace p row_bytes none = insert_below-SamePlace p row_bytes
insert_found-SamePlace p row_bytes (some (i, slot)) = insert_into-SamePlace p i slot row_bytes

pub insert_record-SamePlace :
    (p : Page) (row_bytes : List ℕ) → Ensures (λ r. SamePlace p r.1) (insert_record p row_bytes)
unfolding insert_record
insert_record-SamePlace p row_bytes = Ensures->>= (can_insert p row_bytes) (λ fits.
    Ensures->>= (ensure fits insert_record_error)
      (λ u. insert_found-SamePlace p row_bytes (find_deleted_slot p row_bytes)))
