-- ===== src/Page/RoundTrip.antt =====
-- The binary form of a page: a valid page, written and read, has the same slots and records.
use fiddlers_db.Prelude.{ℕ, ◌+◌, ◌-◌, ◌^◌, ◌≤◌, ◌<◌, ◌≡◌, refl, sym, ◌∙◌, ap, true, some, inl, inr}
use fiddlers_db.Prelude.{
  List, [], ◌++◌, length, get_elem?, take, drop, replicate, arith, append_assoc,
}
use fiddlers_db.Prelude.{length-append, length-take, length-drop, length-replicate, replicate_add}
use fiddlers_db.Prelude.{
  take-append-drop, drop-drop, ◌==◌, ==_iff, append-nil, drop-append_beyond, Option-cases,
}
use fiddlers_db.Prelude.Int.{pos, as_i32}
use fiddlers_db.Prelude.Bytes.{copy_at, u16_to_be, u32_to_be, i32_to_be, i32_from_be}
use fiddlers_db.Prelude.Bytes.{length-u16_to_be, length-u32_to_be, length-i32_to_be}
use fiddlers_db.Prelude.Bytes.{
  u16_from_be-u16_to_be, i32_from_be-i32_to_be, i32_from_be-u32_to_be, as_i32-eq,
}
use fiddlers_db.Prelude.Slices.{
  slice_lem, slice_at, copy_at_lem, copy_at_lem2, copy_at_lem3, copy_at_end, slice_eq,
}
use fiddlers_db.Prelude.Outcome.{ok}
use fiddlers_db.Page.{Page, Slot, slots_size, read_slot, read_data}
use fiddlers_db.Page.Layout.{page_data_size}
use fiddlers_db.Page.Codec.{write_slots, serialize, deserialize}
use fiddlers_db.Page.Valid.{IsValid, InRows}
use fiddlers_db.Page.SlotBytes.{
  slots_bytes, length-slots_bytes, write_slots_lem, parse_slots-slots_bytes,
}

abbrev zeros : ℕ → List ℕ
zeros k = replicate k 0

module _ {p : Page} (v : IsValid p) where
  abbrev n : ℕ
  n = slots_size p

  abbrev header : List ℕ
  header =
      u16_to_be p.number_of_records
      ++ (u32_to_be p.data_offset ++ (i32_to_be p.page_id ++ i32_to_be (as_i32 n)))

  -- What is left of the data behind the slots.
  abbrev tail : List ℕ
  tail = drop n p.data_

  abbrev image : List ℕ
  image = header ++ (slots_bytes p.slots ++ tail)

  length-header : length header ≡ 14
  unfolding u16_to_be u32_to_be i32_to_be
  length-header = refl

  blank :
      zeros p.layout.page_size
      ≡ zeros 2 ++ (zeros 4 ++ (zeros 4 ++ (zeros 4 ++ zeros (page_data_size p.layout))))
  blank =
      replicate_add 14 (page_data_size p.layout) p.layout.page_size 0
        (omega (arith, v.layout_ok.at_least))

  -- The data goes in behind the header, and the slots over the start of the data.
  data_copied :
      copy_at (header ++ zeros (page_data_size p.layout)) 14 p.data_ ≡ some (header ++ p.data_)
  data_copied =
      copy_at_end header (zeros (page_data_size p.layout)) p.data_ 14 length-header
        (omega (arith, length-replicate {A = ℕ} (page_data_size p.layout) 0, v.data_size))

  slots_written : write_slots (header ++ p.data_) 0 p.slots ≡ ok image
  slots_written =
      ap (λ l. write_slots (header ++ l) 0 p.slots) (sym (take-append-drop n p.data_))
      ∙ write_slots_lem p.slots header (take n p.data_) tail 0 length-header
          (omega (arith, length-take n p.data_, v.data_size, v.slots_below, v.offset_in))

  data_written :
      copy_at
        (u16_to_be p.number_of_records
          ++ (u32_to_be p.data_offset
              ++ (i32_to_be p.page_id
                  ++ (i32_to_be (as_i32 n) ++ zeros (page_data_size p.layout)))))
        14
        p.data_
      ≡ some (header ++ p.data_)
  unfolding u16_to_be u32_to_be i32_to_be
  data_written = simp append_assoc at data_copied

  filled : (14 + length p.data_ == p.layout.page_size) ≡ true
  filled = (==_iff _ _).1 (omega (arith, v.data_size, v.layout_ok.at_least))

  serialize-eq : serialize p ≡ ok image
  unfolding serialize
  serialize-eq =
      let a = u16_to_be p.number_of_records in
      let b = u32_to_be p.data_offset in
      let c = i32_to_be p.page_id in
      let d = i32_to_be (as_i32 n) in
      let zs = zeros (page_data_size p.layout) in
      let ea = length-u16_to_be p.number_of_records in
      let eb = length-u32_to_be p.data_offset in
      let ec = length-i32_to_be p.page_id in
      let ed = length-i32_to_be (as_i32 n) in
      rw (
        blank,
        copy_at_lem [] (zeros 2) (zeros 4 ++ (zeros 4 ++ (zeros 4 ++ zs))) a 0 refl (sym ea),
        copy_at_lem a (zeros 4) (zeros 4 ++ (zeros 4 ++ zs)) b 2 ea (sym eb),
        copy_at_lem2 a b (zeros 4) (zeros 4 ++ zs) c 6 (omega arith) (sym ec),
        copy_at_lem3 a b c (zeros 4) zs d 10 (omega arith) (sym ed),
        filled,
        data_written,
        slots_written,
      )

  -- The page that is read: the data now begins with the slot array.
  abbrev pub reread : Page
  reread = record p { data_ = slots_bytes p.slots ++ tail; slots_offset = n }

  abbrev body : List ℕ
  body = slots_bytes p.slots ++ tail

  length-body : length body ≡ page_data_size p.layout
  length-body = omega (
    arith,
    length-append (slots_bytes p.slots) tail,
    length-slots_bytes p.slots,
    length-drop n p.data_,
    v.data_size,
    v.slots_below,
    v.offset_in,
  )

  length-image : length image ≡ p.layout.page_size
  length-image =
      omega (arith, length-append header body, length-header, length-body, v.layout_ok.at_least)

  drop-0 :
      image
      ≡ u16_to_be p.number_of_records
        ++ (u32_to_be p.data_offset ++ (i32_to_be p.page_id ++ (i32_to_be (as_i32 n) ++ body)))
  unfolding u16_to_be u32_to_be i32_to_be
  drop-0 = refl

  drop-2 :
      drop 2 image
      ≡ u32_to_be p.data_offset ++ (i32_to_be p.page_id ++ (i32_to_be (as_i32 n) ++ body))
  unfolding u16_to_be u32_to_be i32_to_be
  drop-2 = refl

  drop-6 : drop 6 image ≡ i32_to_be p.page_id ++ (i32_to_be (as_i32 n) ++ body)
  unfolding u16_to_be u32_to_be i32_to_be
  drop-6 = refl

  drop-10 : drop 10 image ≡ i32_to_be (as_i32 n) ++ body
  unfolding u16_to_be u32_to_be i32_to_be
  drop-10 = refl

  drop-14 : drop 14 image ≡ body ++ []
  unfolding u16_to_be u32_to_be i32_to_be
  drop-14 = sym (append-nil body)

  count_read : n < 2 ^ 31 → i32_from_be (i32_to_be (as_i32 n)) ≡ some (pos n)
  count_read few =
      i32_from_be-i32_to_be (as_i32 n) (rw (as_i32-eq n few) (omega arith, omega arith))
      ∙ ap some (as_i32-eq n few)

  in_words :
      (i : ℕ) (s : Slot)
      → get_elem? p.slots i ≡ some s
      → (s.page_offset < 2 ^ 32) × (s.record_length < 2 ^ 16)
  in_words i s e =
      let r = (v.in_rows i s e).below in let m = v.layout_ok.at_most in (omega arith, omega arith)

  deserialize-image : deserialize image p.layout ≡ ok reread
  unfolding deserialize
  deserialize-image =
      let len = length-image in
      let few : n < 2 ^ 31 = omega (arith, v.slots_below, v.offset_in, v.layout_ok.at_most) in
      let low : p.data_offset < 2 ^ 31 = omega (arith, v.offset_in, v.layout_ok.at_most) in
      rw (
        slice_at image (u16_to_be p.number_of_records) _ 0 2 drop-0 (omega arith)
            (omega (arith, length-u16_to_be p.number_of_records)),
        u16_from_be-u16_to_be p.number_of_records v.count_u16,
        slice_at image (u32_to_be p.data_offset) _ 2 6 drop-2
            (omega (arith, len, v.layout_ok.at_least))
            (omega (arith, length-u32_to_be p.data_offset)),
        i32_from_be-u32_to_be p.data_offset low,
        slice_at image (i32_to_be p.page_id) _ 6 10 drop-6
            (omega (arith, len, v.layout_ok.at_least)) (omega (arith, length-i32_to_be p.page_id)),
        i32_from_be-i32_to_be p.page_id v.id_i32,
        slice_at image (i32_to_be (as_i32 n)) _ 10 14 drop-10
            (omega (arith, len, v.layout_ok.at_least)) (omega (arith, length-i32_to_be (as_i32 n))),
        count_read few,
        slice_at image body [] 14 p.layout.page_size drop-14
            (omega (arith, len, v.layout_ok.at_least))
            (omega (arith, length-body, v.layout_ok.at_least)),
        slice_lem [] (slots_bytes p.slots) tail 0 n refl
            (omega (arith, length-slots_bytes p.slots)),
        parse_slots-slots_bytes p.slots in_words,
      )

  -- A record lies behind the slot array, so the bytes that were overwritten are not its own.
  read_data-reread : (s : Slot) → InRows p s → read_data reread s ≡ read_data p s
  unfolding read_data
  read_data-reread s r =
      let i = s.page_offset in
      let j = s.page_offset + s.record_length in
      let low : n ≤ i = omega (arith, r.above, v.slots_below) in
      let left : drop i body ≡ drop i p.data_ =
        drop-append_beyond i (slots_bytes p.slots) tail (omega (arith, length-slots_bytes p.slots))
        ∙ drop-drop (i - length (slots_bytes p.slots)) n i p.data_
            (omega (arith, length-slots_bytes p.slots)) in
      rw (slice_eq body p.data_ i j (length-body ∙ sym v.data_size) left)

-- A valid page is written as a buffer of the page size. Reading that buffer gives a page with the
-- same slots, identifier, data offset and record count, on which every slot reads as before.
pub deserialize-serialize :
    (p : Page)
    → IsValid p
    → (buf : List ℕ) × (p' : Page) × (serialize p ≡ ok buf)
      × (length buf ≡ p.layout.page_size)
      × (deserialize buf p.layout ≡ ok p')
      × (p'.slots ≡ p.slots)
      × (p'.page_id ≡ p.page_id)
      × (p'.data_offset ≡ p.data_offset)
      × (p'.number_of_records ≡ p.number_of_records)
      × ((i : ℕ) → read_slot p' i ≡ read_slot p i)
unfolding read_slot
deserialize-serialize p v = (
  image v,
  reread v,
  serialize-eq v,
  length-image v,
  deserialize-image v,
  refl,
  refl,
  refl,
  refl,
  λ i. elim (Option-cases (get_elem? p.slots i)) [
    | inl nothing ↦ rw nothing
    | inr (s, e) ↦ rw (e, read_data-reread v s (v.in_rows i s e))
  ],
)
