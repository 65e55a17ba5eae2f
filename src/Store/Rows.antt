-- ===== src/Store/Rows.antt =====
-- src/store/mod.rs: the iterators over the rows of a page, and over the rows that an index points to.
-- An iterator is the list of what it returns.
use fiddlers_db.Prelude.{ℕ, zero, suc, Option, none, some, List, [], ◌∷◌, ◌++◌, length}
use fiddlers_db.Prelude.Int.{ℤ, ◌==ℤ◌, i32_as_usize}
use fiddlers_db.Prelude.Outcome.{Outcome, ok, err, panic, ◌>>=◌, map_err}
use fiddlers_db.Prelude.HashMap.{push_entry}
use fiddlers_db.Page.{Page}
use fiddlers_db.Page.Layout.{PageDataLayout}
use fiddlers_db.Page.Iterator.{Record, RecordIterator, record_data, next, new_iterator, from_slots}
use fiddlers_db.Schema.{TableSchema}
use fiddlers_db.Schema.Row.{Row, deserialize_row}
use fiddlers_db.Store.{PageStorage, StoreError, Store, page, row_deserialization}

-- What an iterator over rows returns.
abbrev pub RowResult : Type 0
RowResult = Outcome StoreError (Record × Row)

-- A record with its row.
unfoldable pub read_row : TableSchema → Record → RowResult
read_row schema r = do
  bytes ← map_err page (record_data r.contents)
  row ← map_err row_deserialization (deserialize_row bytes schema)
  ok (r, row)

-- What the record iterator returned; `rest` is what the later calls return.
abbrev pub cons_row : TableSchema → Option Record → List RowResult → List RowResult
cons_row schema none rest = []
cons_row schema (some r) rest = read_row schema r ∷ rest

-- The rows of a record iterator, on fuel: there are no more than slots.
unfoldable pub rows_of : ℕ → TableSchema → RecordIterator → List RowResult
rows_of zero schema it = []
rows_of (suc fuel) schema it =
    let (found, it') = next it in cons_row schema found (rows_of fuel schema it')

-- `PageRowIterator`
unfoldable pub page_rows : Page → TableSchema → List RowResult
page_rows p schema = rows_of (length p.slots) schema (new_iterator p)

-- The loop of `IndexedRowIterator::new`.
unfoldable pub group_slots : List (ℤ × ℤ) → List (ℤ × List ℕ) → List (ℤ × List ℕ)
group_slots [] entries = entries
group_slots ((page_id, slot_id) ∷ indexes) entries =
    group_slots indexes (push_entry ◌==ℤ◌ page_id (i32_as_usize slot_id) entries)

-- The rows of a page that was read, at some slots.
abbrev pub slot_rows : TableSchema → List ℕ → Outcome StoreError Page → List RowResult
slot_rows schema slots (ok p) = rows_of (length p.slots) schema (from_slots p slots)
slot_rows schema slots (err e) = err e ∷ []
slot_rows schema slots panic = panic ∷ []

module _ {S : Type 0} (st : Store S) where
  -- `IndexedRowIterator::next`, over pages and their slots.
  unfoldable pub pages_rows :
      S → PageDataLayout → PageStorage → TableSchema → List (ℤ × List ℕ) → List RowResult
  pages_rows s layout storage schema [] = []
  pages_rows s layout storage schema ((page_id, slots) ∷ entries) =
      slot_rows schema slots (st.read_page s layout page_id storage)
      ++ pages_rows s layout storage schema entries

  -- `IndexedRowIterator::new` and its rows. `order` is the order in which the pages of the hash map
  -- come up.
  unfoldable pub indexed_rows :
      (List (ℤ × List ℕ) → List (ℤ × List ℕ))
      → S
      → PageDataLayout
      → PageStorage
      → TableSchema
      → List (ℤ × ℤ)
      → List RowResult
  indexed_rows order s layout storage schema indexes =
      pages_rows s layout storage schema (order (group_slots indexes []))
