-- ===== src/FreeSpace/Fsm/Keeps.antt =====
-- src/freespace/fsm.rs, src/store/file_store.rs: the free space map writes its own file only.
use fiddlers_db.Prelude.{ℕ, zero, suc, ◌+◌, ◌-◌, ◌≡◌, refl, ◌∙◌, ltb, if◌then◌else◌}
use fiddlers_db.Prelude.Int.{ℤ, ltb_ℤ, i32_succ}
use fiddlers_db.Prelude.Outcome.{
  Outcome, ok, or_panic, map_err, ok_or, Ensures, Ensures->>=, Ensures->>=_of, Ensures-ok,
  Ensures-if, Ensures-map_err,
}
use fiddlers_db.Page.{Page, insert_record, write_record, max_available_space}
use fiddlers_db.Page.Codec.{serialize}
use fiddlers_db.Page.Layout.{PageDataLayout}
use fiddlers_db.Page.Metadata.{PageFileMetadata, serialize_metadata, allocate_next_page_id}
use fiddlers_db.Store.{table_file, fsm_file, io, page, metadata}
use fiddlers_db.Store.FileStore.{
  Files, set_file, page_position, write_metadata, write_page, read_metadata, read_page,
  allocate_page, file_store,
}
use fiddlers_db.FreeSpace.Fsm
use fiddlers_db.FreeSpace.BinaryTree.{new, set_available_space}
use fiddlers_db.FreeSpace.BinaryTree
use fiddlers_db.FreeSpace.Fsm.{
  Fsm, FsmAddress, FsmError, store, parent, heap_page_id_to_addr, logical_addr_to_fms_page_id,
  read_tree, rounds, page_space_to_category, allocate_new_fsm_and_init, allocate_pages, update_page,
  update_levels, update,
}

-- The first identifier after the pages that an update needs.
abbrev end_of : ℤ → PageFileMetadata → Outcome FsmError ℤ
end_of id' m = if ltb_ℤ id' m.next_id then ok m.next_id else or_panic (i32_succ id')

-- The files of the tables are as they were.
abbrev pub KeepsTables : Files → Files → Type 0
KeepsTables files files' = (id : ℤ) → files' (table_file id) ≡ files (table_file id)

after_KeepsTables :
    (files files1 : Files) {m : Outcome FsmError Files}
    → KeepsTables files files1
    → Ensures (KeepsTables files1) m
    → Ensures (KeepsTables files) m
after_KeepsTables files files1 kept1 h = record {
  holds = λ files2 run id. h.holds files2 run id ∙ kept1 id;
}

module _ (k : ℤ) where
  write_page-KeepsTables :
      (files : Files) (layout : PageDataLayout) (p : Page)
      → Ensures (KeepsTables files) (write_page files layout p (fsm_file k))
  unfolding write_page set_file
  write_page-KeepsTables files layout p = Ensures->>= (map_err page (serialize p)) (λ bytes.
      Ensures->>= (ok_or io (files (fsm_file k))) (λ content.
        Ensures->>= (page_position layout p.page_id) (λ offset. Ensures-ok _ (λ id. refl))))

  write_metadata-KeepsTables :
      (files : Files) (m : PageFileMetadata)
      → Ensures (KeepsTables files) (write_metadata files (fsm_file k) m)
  unfolding write_metadata set_file
  write_metadata-KeepsTables files m = Ensures->>= (ok_or io (files (fsm_file k))) (λ content.
      Ensures->>= (map_err metadata (serialize_metadata m)) (λ bytes. Ensures-ok _ (λ id. refl)))

  allocate_page-KeepsTables :
      (files : Files) (layout : PageDataLayout)
      → Ensures (λ r. KeepsTables files r.1) (allocate_page files layout (fsm_file k))
  unfolding allocate_page
  allocate_page-KeepsTables files layout = Ensures->>= (read_metadata files (fsm_file k)) (λ m.
      Ensures->>= (allocate_next_page_id m) (λ r.
        Ensures->>=_of (write_metadata files (fsm_file k) r.1)
          (write_metadata-KeepsTables files r.1)
          (λ files1 kept1.
            Ensures->>=_of (write_page files1 layout _ (fsm_file k))
              (write_page-KeepsTables files1 layout _)
              (λ files2 kept2. Ensures-ok _ (λ id. kept2 id ∙ kept1 id)))))

module _ (fsm : Fsm) where
  allocate_new_fsm_and_init-KeepsTables :
      (files : Files) → Ensures (KeepsTables files) (allocate_new_fsm_and_init file_store fsm files)
  unfolding allocate_new_fsm_and_init
  allocate_new_fsm_and_init-KeepsTables files =
      Ensures->>=_of (map_err store (allocate_page files fsm.page_layout (fsm_file fsm.table_id)))
        (Ensures-map_err store _ (allocate_page-KeepsTables fsm.table_id files fsm.page_layout))
        (λ r kept1. Ensures->>= (new fsm.page_layout) (λ tree.
          Ensures->>= (map_err Fsm.page (insert_record r.0 (BinaryTree.serialize tree))) (λ i.
            after_KeepsTables files r.1 kept1 (
              Ensures-map_err store _
                (write_page-KeepsTables fsm.table_id r.1 fsm.page_layout i.1)))))

  allocate_pages-KeepsTables :
      (n : ℕ) (files : Files) → Ensures (KeepsTables files) (allocate_pages file_store fsm n files)
  unfolding allocate_pages
  allocate_pages-KeepsTables zero files = Ensures-ok files (λ id. refl)
  allocate_pages-KeepsTables (suc n) files =
      Ensures->>=_of (allocate_new_fsm_and_init file_store fsm files)
        (allocate_new_fsm_and_init-KeepsTables files)
        (λ files1 kept1. after_KeepsTables files files1 kept1 (allocate_pages-KeepsTables n files1))

  update_page-KeepsTables :
      (files : Files) (page_id : ℤ) (slot cat : ℕ)
      → Ensures (KeepsTables files) (update_page file_store fsm files page_id slot cat)
  unfolding update_page
  update_page-KeepsTables files page_id slot cat =
      let access = fsm_file fsm.table_id in
      Ensures->>= (map_err store (read_page files fsm.page_layout page_id access)) (λ p.
        Ensures->>= (read_tree fsm p) (λ tree.
          Ensures->>= (set_available_space tree slot cat) (λ tree'.
            Ensures->>= (map_err Fsm.page (write_record p 0 (BinaryTree.serialize tree'))) (λ p'.
              Ensures-map_err store _
                (write_page-KeepsTables fsm.table_id files fsm.page_layout p')))))

  update_levels-KeepsTables :
      (n level : ℕ) (files : Files) (addr : FsmAddress) (page_id : ℤ) (slot cat : ℕ)
      → Ensures
          (KeepsTables files)
          (update_levels file_store fsm n level files addr page_id slot cat)
  unfolding update_levels
  update_levels-KeepsTables zero level files addr page_id slot cat = Ensures-ok files (λ id. refl)
  update_levels-KeepsTables (suc n) level files addr page_id slot cat =
      Ensures->>=_of (update_page file_store fsm files page_id slot cat)
        (update_page-KeepsTables files page_id slot cat)
        (λ files1 kept1.
          Ensures-if (ltb level (fsm.depth - 1))
            (Ensures->>= (parent fsm addr) (λ a.
              Ensures->>= (logical_addr_to_fms_page_id fsm a.0) (λ id'.
                after_KeepsTables files files1 kept1
                  (update_levels-KeepsTables n (level + 1) files1 a.0 id' a.1 cat))))
            (after_KeepsTables files files1 kept1
              (update_levels-KeepsTables n (level + 1) files1 addr page_id slot cat)))

  -- An update of the map leaves the files of the tables as they are.
  pub update-KeepsTables :
      (files : Files) (p : Page) → Ensures (KeepsTables files) (update file_store fsm files p)
  unfolding update
  update-KeepsTables files p = Ensures->>= (map_err Fsm.page (max_available_space p)) (λ free.
      Ensures->>= (heap_page_id_to_addr fsm p.page_id) (λ a.
        Ensures->>= (logical_addr_to_fms_page_id fsm a.0) (λ id'.
          Ensures->>= (map_err store (read_metadata files (fsm_file fsm.table_id))) (λ meta.
            Ensures->>= (end_of id' meta) (λ end.
              Ensures->>=_of (allocate_pages file_store fsm (rounds meta.next_id end) files)
                (allocate_pages-KeepsTables (rounds meta.next_id end) files)
                (λ files1 kept1. after_KeepsTables files files1 kept1 (
                  update_levels-KeepsTables fsm.depth 0 files1 a.0 id' a.1
                    (page_space_to_category fsm free))))))))
