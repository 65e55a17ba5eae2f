-- ===== src/Store/WriteRead.antt =====
-- Pages that are written to a file are read from it.
use fiddlers_db.Prelude.{
  ℕ, suc, ◌+◌, ◌*◌, ◌^◌, ◌≤◌, ◌<◌, ◌≡◌, ◌≢◌, ◌⊎◌, inl, inr, sym, ap, ◌∙◌, arith, true, Option, some,
}
use fiddlers_db.Prelude.{List, length, take, drop}
use fiddlers_db.Prelude.{le→leb, lt→ltb}
use fiddlers_db.Prelude.Int.{ℤ, pos, ltb_ℤ}
use fiddlers_db.Prelude.Outcome.{ok, map_err}
use fiddlers_db.Page.{Page, read_slot}
use fiddlers_db.Page.Codec.{serialize, deserialize}
use fiddlers_db.Page.Layout.{PageDataLayout, meta_data_size}
use fiddlers_db.Page.Valid.{IsLayout, IsValid}
use fiddlers_db.Page.RoundTrip.{deserialize-serialize}
use native.Mathlib.Decide.{dec_lt}
use fiddlers_db.Store.{PageStorage, table_file, fsm_file, same_path, page}
use fiddlers_db.Store.FileStore.{
  Files, set_file, write_at, read_at, page_position, read_page, write_page,
}
use fiddlers_db.Store.Ranges.{read_at-write_at_self, read_at-write_at_apart}

same_path_refl : (storage : PageStorage) → same_path storage storage ≡ true
same_path_refl (table_file a) = ground arith
same_path_refl (fsm_file a) = ground arith

pub set_file_self :
    (files : Files) (storage : PageStorage) (content : Option (List ℕ))
    → set_file files storage content storage ≡ content
unfolding set_file
set_file_self files storage content = rw (same_path_refl storage)

-- The place of page `n + 1`.
abbrev pub place : PageDataLayout → ℕ → ℕ
place layout n = meta_data_size + n * layout.page_size

place_bound :
    (layout : PageDataLayout) (n : ℕ) → IsLayout layout → suc n < 2 ^ 31 → place layout n < 2 ^ 64
place_bound layout n h small =
    let a : n * layout.page_size ≤ 2 ^ 31 * 2 ^ 15 =
      mul_le n (2 ^ 31) layout.page_size (2 ^ 15) (omega arith) h.at_most in
    omega (arith, a)
  where
    mul_le : (a b c d : ℕ) → a ≤ b → c ≤ d → a * c ≤ b * d
    mul_le a b c d k l = grind arith

page_position-eq {ℓ} :
    {E : Type ℓ} (layout : PageDataLayout) (n : ℕ)
    → IsLayout layout
    → suc n < 2 ^ 31
    → page_position {E = E} layout (pos (suc n)) ≡ ok (place layout n)
unfolding page_position
page_position-eq {E} layout n h small =
    rw (lt→ltb (place layout n) (2 ^ 64) (place_bound layout n h small))

pub before_place : (m n c : ℕ) → m < n → m * c + c ≤ n * c
before_place m n c h = omega (arith, mul_mono (m + 1) n c (omega arith), step)
  where
    mul_mono : (a b d : ℕ) → a ≤ b → a * d ≤ b * d
    mul_mono a b d k = grind arith

    step : (m + 1) * c ≡ m * c + c
    step = grind arith

places_apart :
    (layout : PageDataLayout) (m n : ℕ)
    → m ≢ n
    → (place layout m + layout.page_size ≤ place layout n)
      ⊎ (place layout n + layout.page_size ≤ place layout m)
places_apart layout m n ne = elim (dec_lt m n) [
  | yes less ↦ inl (omega (arith, before_place m n layout.page_size less))
  | no more ↦ inr (omega (arith, before_place n m layout.page_size (omega arith)))
]

-- Reading page `n + 1` of a file that holds the bytes of its place.
pub read_page-eq :
    (files : Files) (layout : PageDataLayout) (n : ℕ) (storage : PageStorage)
    (content bytes : List ℕ)
    → IsLayout layout
    → suc n < 2 ^ 31
    → files storage ≡ some content
    → read_at content (place layout n) layout.page_size ≡ some bytes
    → read_page files layout (pos (suc n)) storage ≡ map_err page (deserialize bytes layout)
unfolding read_page
read_page-eq files layout n storage content bytes h small e r =
    rw (positive n, e, page_position-eq layout n h small, r)
  where
    positive : (k : ℕ) → ltb_ℤ (pos 0) (pos (suc k)) ≡ true
    positive k = ground arith

module _ (files : Files) (p : Page) (n : ℕ) (storage : PageStorage) (content : List ℕ)
    (v : IsValid p) (id : p.page_id ≡ pos (suc n)) (small : suc n < 2 ^ 31)
    (exists : files storage ≡ some content) where
  pub write_page-eq :
      (bytes : List ℕ)
      → serialize p ≡ ok bytes
      → write_page files p.layout p storage
        ≡ ok (set_file files storage (some (write_at content (place p.layout n) bytes)))
  unfolding write_page
  write_page-eq bytes e = rw (e, exists, id, page_position-eq p.layout n v.layout_ok small)

  -- The other pages of the file.
  kept :
      (bytes : List ℕ) (m : ℕ)
      → length bytes ≡ p.layout.page_size
      → m ≢ n
      → suc m < 2 ^ 31
      → place p.layout m + p.layout.page_size ≤ length content
      → read_page
          (set_file files storage (some (write_at content (place p.layout n) bytes)))
          p.layout
          (pos (suc m))
          storage
        ≡ read_page files p.layout (pos (suc m)) storage
  unfolding read_at
  kept bytes m len ne bound inside =
      let content' = write_at content (place p.layout n) bytes in
      let got : read_at content (place p.layout m) p.layout.page_size
          ≡ some (take p.layout.page_size (drop (place p.layout m) content)) =
        rw (read_at, le→leb (place p.layout m + p.layout.page_size) (length content) inside) in
      let same =
        read_at-write_at_apart content (place p.layout n) bytes (place p.layout m)
          p.layout.page_size inside (rw len (places_apart p.layout m n ne)) in
      read_page-eq (set_file files storage (some content')) p.layout m storage content' _
        v.layout_ok bound (set_file_self files storage (some content')) (same ∙ got)
      ∙ sym (read_page-eq files p.layout m storage content _ v.layout_ok bound exists got)

-- A valid page with an identifier above 0 is written into an existing file without an error.
-- Reading it back gives a page on which every slot reads as before, with the same slots, identifier,
-- record count and data offset. Every other page that the file has is read as before.
pub read_page-write_page :
    (files : Files) (p : Page) (n : ℕ) (storage : PageStorage) (content : List ℕ)
    → IsValid p
    → p.page_id ≡ pos (suc n)
    → suc n < 2 ^ 31
    → files storage ≡ some content
    → (files' : Files) × (p' : Page) × (write_page files p.layout p storage ≡ ok files')
      × (read_page files' p.layout p.page_id storage ≡ ok p')
      × (p'.slots ≡ p.slots)
      × (p'.page_id ≡ p.page_id)
      × (p'.data_offset ≡ p.data_offset)
      × (p'.number_of_records ≡ p.number_of_records)
      × ((i : ℕ) → read_slot p' i ≡ read_slot p i)
      × ((m : ℕ)
          → m ≢ n
          → suc m < 2 ^ 31
          → place p.layout m + p.layout.page_size ≤ length content
          → read_page files' p.layout (pos (suc m)) storage
            ≡ read_page files p.layout (pos (suc m)) storage)
read_page-write_page files p n storage content v id small exists =
    let (bytes, p', wrote, len, back, slots, same_id, offset, count, reads) =
      deserialize-serialize p v in
    let content' = write_at content (place p.layout n) bytes in
    let files' = set_file files storage (some content') in
    let got : read_at content' (place p.layout n) p.layout.page_size ≡ some bytes =
      ap (read_at content' (place p.layout n)) (sym len)
      ∙ read_at-write_at_self content (place p.layout n) bytes in
    (
      files',
      p',
      write_page-eq files p n storage content v id small exists bytes wrote,
      ap (λ (i : ℤ). read_page files' p.layout i storage) id
          ∙ read_page-eq files' p.layout n storage content' bytes v.layout_ok small
              (set_file_self files storage (some content')) got
          ∙ ap (map_err page) back,
      slots,
      same_id,
      offset,
      count,
      reads,
      λ m ne bound inside.
          kept files p n storage content v id small exists bytes m len ne bound inside,
    )
