-- ===== src/Database/TableAccess/Stored.antt =====
-- src/database/table_access.rs: what an inserted row leaves in the file of its table.
use fiddlers_db.Prelude.{
  ℕ, suc, ◌+◌, ◌^◌, ◌<◌, ◌≤◌, ◌≡◌, ◌≢◌, ◌⊎◌, refl, sym, ap, ◌∙◌, Bool, true, List, [], ◌∷◌, length,
  some, none, Option, get_elem?,
}
use fiddlers_db.Prelude.Int.{ℤ, pos, as_i32}
use fiddlers_db.Prelude.Outcome.{
  ok, ◌>>=◌, or_panic, map_err, map_err-eq-ok, ensure-eq-ok, ok_inj, ensure, Ensures, Ensures->>=,
  Ensures->>=_of, Ensures-ok, Ensures-map_err, Ensures-self,
}
use fiddlers_db.Page.{
  Page, can_insert, insert_record, read_slot, slots_size, is_perfect_fit, find_free_slot_index,
}
use fiddlers_db.Page.Layout.{PageDataLayout}
use fiddlers_db.Page.Valid.{IsValid}
use fiddlers_db.Page.Inserted.{Inserted}
use fiddlers_db.Page.Insert.{insert_record_correct}
use fiddlers_db.Page.Placed.{SamePlace, insert_record-SamePlace}
use fiddlers_db.Store.{PageStorage}
use fiddlers_db.Store.FileStore.{Files, file_store, read_page, write_page}
use fiddlers_db.Store.WriteRead.{read_page-write_page}
use fiddlers_db.FreeSpace.Fsm.{Fsm, find_available_page}
use fiddlers_db.FreeSpace.Fsm.Keeps.{KeepsTables, update-KeepsTables}
use fiddlers_db.FreeSpace.Fsm
use fiddlers_db.Database.{TableAccessError, Index, UpdateIndexCommand, insert_row_error, fsm, page}
use fiddlers_db.Database.TableAccess.{TableAccess, State, Order, storage, table_fsm}
use fiddlers_db.Database.TableAccess.Changes
use fiddlers_db.Database

module _ {I : Type 0} (index : Index I) (order : Order) (t : TableAccess) where
  -- The indexes change, and the files do not.
  abbrev SameFiles : State Files I → State Files I → Type 0
  SameFiles s s' = s'.store_state ≡ s.store_state

  delete_old-SameFiles :
      (s : State Files I) (idx : ℕ) (v : Option ℤ)
      → Ensures (SameFiles s) (Changes.delete_old file_store index order t s idx v)
  delete_old-SameFiles s idx none = Ensures-ok s refl
  delete_old-SameFiles s idx (some old_val) =
      Ensures->>= (or_panic (get_elem? s.indexed_columns idx)) (λ c.
        Ensures->>= (map_err (λ _. Database.update_rows_error) (index.delete c.1 old_val))
          (λ r. Ensures-ok _ refl))

  insert_new-SameFiles :
      (s : State Files I) (idx : ℕ) (v : Option ℤ) (page_id : ℤ) (slot_id : ℕ)
      → Ensures (SameFiles s) (Changes.insert_new file_store index order t s idx v page_id slot_id)
  insert_new-SameFiles s idx none page_id slot_id = Ensures-ok s refl
  insert_new-SameFiles s idx (some new_val) page_id slot_id =
      Ensures->>= (or_panic (get_elem? s.indexed_columns idx)) (λ c.
        Ensures->>=
          (map_err (λ _. Database.update_rows_error)
            (index.insert c.1 new_val (page_id, as_i32 slot_id)))
          (λ i. Ensures-ok _ refl))

  update_index-SameFiles :
      (s : State Files I) (page_id : ℤ) (slot_id : ℕ) (cells : List (ℕ × Option ℤ × Option ℤ))
      → Ensures
          (SameFiles s)
          (Changes.update_index_cells file_store index order t s page_id slot_id cells)
  unfolding Changes.update_index_cells
  update_index-SameFiles s page_id slot_id [] = Ensures-ok s refl
  update_index-SameFiles s page_id slot_id ((idx, old_val, new_val) ∷ cells) =
      Ensures->>=_of (Changes.delete_old file_store index order t s idx old_val)
        (delete_old-SameFiles s idx old_val)
        (λ s1 same1.
          Ensures->>=_of
            (Changes.insert_new file_store index order t s1 idx new_val page_id slot_id)
            (insert_new-SameFiles s1 idx new_val page_id slot_id)
            (λ s2 same2. record {
              holds = λ s3 run.
                  (update_index-SameFiles s2 page_id slot_id cells).holds s3 run ∙ same2 ∙ same1;
            }))

  write_page-Ensures :
      (e : TableAccessError) (s : State Files I) (p : Page)
      → Ensures
          (λ s'.
            (files : Files) × (write_page s.store_state t.layout p (storage t) ≡ ok files)
            × (s'.store_state ≡ files))
          (Changes.write_page file_store index order t e s p)
  write_page-Ensures e s p =
      let call = write_page s.store_state t.layout p (storage t) in
      Ensures->>=_of (map_err (λ _. e) call) (Ensures-self (map_err (λ _. e) call))
        (λ files run. Ensures-ok _ (files, map_err-eq-ok (λ _. e) call run, refl))

  update_fsm-Ensures :
      (s : State Files I) (p : Page)
      → Ensures
          (λ s'. KeepsTables s.store_state s'.store_state)
          (Changes.update_fsm file_store index order t s p)
  update_fsm-Ensures s p = Ensures->>= (table_fsm t) (λ f.
      Ensures->>=_of (map_err fsm (Fsm.update file_store f s.store_state p))
        (Ensures-map_err fsm _ (update-KeepsTables f s.store_state p))
        (λ files kept. Ensures-ok _ kept))

-- Reading depends on the file of the storage only.
read_page_same :
    (files files' : Files) (layout : PageDataLayout) (id : ℤ) (storage : PageStorage)
    → files' storage ≡ files storage
    → read_page files' layout id storage ≡ read_page files layout id storage
unfolding read_page
read_page_same files files' layout id storage same = rw (read_page, same)

-- A page with room for a row, in the file of its table.
pub record Suitable (t : TableAccess) (row_data : List ℕ) (p : Page) (files : Files) : Type 0 where
  pub valid : IsValid p
  pub same_layout : p.layout ≡ t.layout
  pub number : ℕ
  pub numbered : p.page_id ≡ pos (suc number)
  pub small : suc number < 2 ^ 31
  pub count_u16 : p.number_of_records + 1 < 2 ^ 16
  pub room :
      (is_perfect_fit p row_data (find_free_slot_index p row_data) ≡ true)
      ⊎ (slots_size p + 7 ≤ p.data_offset)
  pub content : List ℕ
  pub exists : files (storage t) ≡ some content

-- What an insertion at a place leaves of the page `p` in the files.
pub record IsStored (t : TableAccess) (row_data : List ℕ) (p : Page) (place : ℤ × ℕ) (files : Files)
    : Type 0 where
  pub same_page : place.0 ≡ p.page_id
  pub after : Page
  pub reads : read_page files t.layout p.page_id (storage t) ≡ ok after
  pub stored : read_slot after place.1 ≡ ok (some row_data)
  pub vacant : read_slot p place.1 ≡ ok none
  pub kept : (j : ℕ) → j < length p.slots → j ≢ place.1 → read_slot after j ≡ read_slot p j

insert_record-Inserted :
    (p : Page) (bytes : List ℕ) (r : ℕ × Page)
    → IsValid p
    → 0 < length bytes
    → p.number_of_records + 1 < 2 ^ 16
    → (is_perfect_fit p bytes (find_free_slot_index p bytes) ≡ true)
      ⊎ (slots_size p + 7 ≤ p.data_offset)
    → can_insert p bytes ≡ ok true
    → insert_record p bytes ≡ ok r
    → Inserted p bytes r.0 r.1
insert_record-Inserted p bytes r v some_bytes count room fits run =
    let (i, p', done, inserted) = insert_record_correct p bytes v some_bytes count room fits in
    let same : r ≡ (i, p') = ok_inj (sym run ∙ done) in rw same inserted

module _ (t : TableAccess) (row_data : List ℕ) (p : Page) (i : ℕ) (p' : Page)
    (files files2 files3 : Files) where
  -- The page after the insertion, written, and the free space map updated.
  write_page-IsStored :
      Suitable t row_data p files
      → Inserted p row_data i p'
      → SamePlace p p'
      → write_page files t.layout p' (storage t) ≡ ok files2
      → KeepsTables files2 files3
      → IsStored t row_data p (p'.page_id, i) files3
  write_page-IsStored suitable inserted same wrote kept =
      let layout' : p'.layout ≡ t.layout = same.0 ∙ suitable.same_layout in
      let (written, after, run, reads, slots, id, offset, count, slots_read, others) =
        read_page-write_page files p' suitable.number (storage t) suitable.content inserted.valid
          (same.1 ∙ suitable.numbered) suitable.small suitable.exists in
      let files_same : written ≡ files2 =
        ok_inj (sym run ∙ ap (λ l. write_page files l p' (storage t)) layout' ∙ wrote) in
      record {
        same_page = same.1;
        after = after;
        reads =
            read_page_same files2 files3 t.layout p.page_id (storage t) (kept t.table_id)
            ∙ ap (λ fs. read_page fs t.layout p.page_id (storage t)) (sym files_same)
            ∙ ap (λ l. read_page written l p.page_id (storage t)) (sym layout')
            ∙ ap (λ (z : ℤ). read_page written p'.layout z (storage t)) (sym same.1)
            ∙ reads;
        stored = slots_read i ∙ inserted.stored;
        vacant = inserted.vacant;
        kept = λ j inside ne. slots_read j ∙ inserted.kept j inside ne;
      }

module _ {I : Type 0} (index : Index I) (order : Order) (t : TableAccess) where
  insert_on_page-IsStored :
      (s : State Files I) (p : Page) (row_data : List ℕ) (uic : UpdateIndexCommand)
      → Suitable t row_data p s.store_state
      → 0 < length row_data
      → Ensures
          (λ r. IsStored t row_data p r.0 r.1.store_state)
          (Changes.insert_on_page file_store index order t s p row_data uic)
  unfolding Changes.insert_on_page
  insert_on_page-IsStored s p row_data uic suitable some_bytes =
      Ensures->>=_of (map_err page (can_insert p row_data)) (Ensures-self _) (λ fits checked.
        Ensures->>=_of (ensure fits insert_row_error) (Ensures-self _) (λ u fits_true.
          Ensures->>=_of (map_err page (insert_record p row_data)) (Ensures-self _) (λ r inserted.
            Ensures->>=_of (Changes.update_index file_store index order t s r.1.page_id r.0 uic)
              (update_index-SameFiles index order t s r.1.page_id r.0 uic.update_cells)
              (λ s1 same1.
                Ensures->>=_of (Changes.write_page file_store index order t insert_row_error s1 r.1)
                  (write_page-Ensures index order t insert_row_error s1 r.1)
                  (λ s2 wrote.
                    Ensures->>=_of (Changes.update_fsm file_store index order t s2 r.1)
                      (update_fsm-Ensures index order t s2 r.1)
                      (λ s3 kept. Ensures-ok _ (
                        stored_at fits r checked fits_true inserted s1 same1 s2 wrote s3 kept)))))))
    where
      stored_at :
          (fits : Bool) (r : ℕ × Page)
          → map_err page (can_insert p row_data) ≡ ok fits
          → ensure {E = TableAccessError} fits insert_row_error ≡ ok tt
          → map_err page (insert_record p row_data) ≡ ok r
          → (s1 : State Files I) → s1.store_state ≡ s.store_state
          → (s2 : State Files I)
          → (files : Files) × (write_page s1.store_state t.layout r.1 (storage t) ≡ ok files)
            × (s2.store_state ≡ files)
          → (s3 : State Files I) → KeepsTables s2.store_state s3.store_state
          → IsStored t row_data p (r.1.page_id, r.0) s3.store_state
      stored_at fits r checked fits_true inserted s1 same1 s2 (files, wrote, same2) s3 kept =
          let room : can_insert p row_data ≡ ok true =
            map_err-eq-ok page _ checked ∙ ap ok (ensure-eq-ok fits insert_row_error fits_true) in
          let run = map_err-eq-ok page (insert_record p row_data) inserted in
          write_page-IsStored t row_data p r.0 r.1 s.store_state s2.store_state s3.store_state
            suitable
            (insert_record-Inserted p row_data r suitable.valid some_bytes suitable.count_u16
              suitable.room room run)
            ((insert_record-SamePlace p row_data).holds r run)
            (ap (λ fs. write_page fs t.layout r.1 (storage t)) (sym same1)
              ∙ wrote
              ∙ ap ok (sym same2))
            kept

-- A row of at least one byte, for which the free space map finds a valid page of the table with an
-- identifier above 0 in an existing file, with fewer than 65535 records, and with the bytes of one
-- slot before the rows or a deleted slot of exactly that length. Whenever the insertion succeeds, the
-- page of the returned identifier can be read from the file, the returned slot holds the row, that
-- slot held no row before, and every other slot reads as before. The changes of the indexes and of
-- the free space map do not disturb it.
pub raw_insert-IsStored :
    {I : Type 0} (index : Index I) (order : Order) (t : TableAccess) (s : State Files I)
    (row_data : List ℕ) (uic : UpdateIndexCommand) (f : Fsm) (p : Page) (s0 : Files)
    → table_fsm t ≡ ok f
    → find_available_page file_store f s.store_state (length row_data) ≡ ok (p, s0)
    → Suitable t row_data p s0
    → 0 < length row_data
    → (place : ℤ × ℕ) (s' : State Files I)
    → Changes.raw_insert file_store index order t s row_data uic ≡ ok (place, s')
    → IsStored t row_data p place s'.store_state
unfolding Changes.raw_insert
raw_insert-IsStored index order t s row_data uic f p s0 has_fsm available suitable some_bytes place
      s' run =
    let on_page : Changes.raw_insert file_store index order t s row_data uic
        ≡ Changes.insert_on_page file_store index order t
            (Changes.with_store file_store index order t s s0) p row_data uic =
      rw (Changes.raw_insert, has_fsm, available, ◌>>=◌) in
    (insert_on_page-IsStored index order t (Changes.with_store file_store index order t s s0) p
        row_data uic suitable some_bytes).holds
      (place, s') (sym on_page ∙ run)
