-- ===== src/Page/InsertInto.antt =====
-- `Page::insert_record` into a deleted slot.
use native.Mathlib.Decide.{ℕ_discrete}
use fiddlers_db.Prelude.{
  ℕ, ◌+◌, ◌-◌, ◌%◌, ◌^◌, ◌≤◌, ◌<◌, ◌≡◌, ◌≢◌, ◌⊎◌, inl, inr, refl, sym, ◌∙◌, ap,
}
use fiddlers_db.Prelude.{
  true, false, none, some, List, [], ◌∷◌, ◌++◌, length, get_elem?, set, arith,
}
use fiddlers_db.Prelude.{if◌then◌else◌, le→ltb, ltb, le→leb, lt→ltb, length-set, some_inj}
use fiddlers_db.Prelude.{
  get_elem?-set_self, get_elem?-set_ne, get_elem?-append_left, lt_of_get_elem?, get_elem?_of_lt,
}
use fiddlers_db.Prelude.Slices.{copied, length-copied, slice-copied_self, copy_at_total}
use fiddlers_db.Prelude.Outcome.{ok}
use fiddlers_db.Page.{Page, Slot, slots_size}
use fiddlers_db.Page.{insert_into, read_slot}
use fiddlers_db.Page.Keeps.{
  Within, Apart-Within, set_slot-IsValid, append_slot-IsValid, data-IsValid, count-IsValid,
}
use fiddlers_db.Page.Valid.{IsValid, Apart}
use fiddlers_db.Page.Inserted.{Inserted, read_kept}

module _ {p : Page} (v : IsValid p) (bytes : List ℕ) (small : length bytes < 2 ^ 16)
    (count : p.number_of_records + 1 < 2 ^ 16) (k : ℕ) (s : Slot)
    (at : get_elem? p.slots k ≡ some s) (free : s.deleted ≡ true)
    (long : length bytes ≤ s.record_length) where
  abbrev pub remaining : ℕ
  remaining = s.record_length - length bytes % 2 ^ 16

  -- The slot that now holds the record, and the one for the bytes behind it.
  abbrev pub filled : Slot
  filled = record s {
    record_length = if ltb 0 remaining then length bytes % 2 ^ 16 else s.record_length;
    deleted = false;
  }

  abbrev pub rest_slot : Slot
  rest_slot = record {
    record_length = remaining;
    page_offset = s.page_offset + length bytes;
    deleted = true;
  }

  abbrev pub page_perfect : Page
  page_perfect = record p {
    data_ = copied p.data_ s.page_offset bytes;
    slots = set p.slots k filled;
    number_of_records = p.number_of_records + 1;
  }

  abbrev pub page_split : Page
  page_split = record page_perfect { slots = set p.slots k filled ++ rest_slot ∷ [] }

  length-filled : filled.record_length ≡ length bytes
  length-filled = ground arith

  filled-Within : Within filled s
  filled-Within = record { from = omega arith; to = omega (arith, length-filled) }

  fits : s.page_offset + length bytes ≤ length p.data_
  fits = omega (arith, v.data_size, (v.in_rows k s at).below)

  k-lt : k < length p.slots
  k-lt = lt_of_get_elem? p.slots k at

  pub insert_into_perfect :
      s.record_length ≡ length bytes → insert_into p k s bytes ≡ ok (k, page_perfect)
  unfolding insert_into
  insert_into_perfect e = rw (
    copy_at_total p.data_ s.page_offset bytes fits,
    le→leb (length bytes % 2 ^ 16) s.record_length (omega arith),
    lt→ltb (p.number_of_records + 1) (2 ^ 16) count,
    le→ltb 0 remaining (omega arith),
  )

  pub insert_into_split :
      length bytes < s.record_length → insert_into p k s bytes ≡ ok (k, page_split)
  unfolding insert_into
  insert_into_split e = rw (
    copy_at_total p.data_ s.page_offset bytes fits,
    le→leb (length bytes % 2 ^ 16) s.record_length (omega arith),
    lt→ltb (p.number_of_records + 1) (2 ^ 16) count,
    lt→ltb 0 remaining (omega arith),
  )

  page_perfect-IsValid : IsValid page_perfect
  page_perfect-IsValid =
      count-IsValid
        (set_slot-IsValid
          (data-IsValid v (copied p.data_ s.page_offset bytes)
            (length-copied p.data_ s.page_offset bytes fits))
          k s filled at filled-Within)
        (p.number_of_records + 1) count

  rest_slot-Within : Within rest_slot s
  rest_slot-Within = record { from = omega arith; to = omega arith }

  rest_slot-Apart :
      (i : ℕ) (t : Slot) → get_elem? (set p.slots k filled) i ≡ some t → Apart t rest_slot
  rest_slot-Apart i t e = elim (ℕ_discrete k i) [
    | yes same ↦
        let new : some filled ≡ some t =
          sym (get_elem?-set_self p.slots k filled k-lt)
          ∙ ap (get_elem? (set p.slots k filled)) same
          ∙ e in
        rw (← some_inj new) (inl (omega (arith, length-filled)))
    | no other ↦
        let old = sym (get_elem?-set_ne p.slots k i filled other) ∙ e in
        Apart-Within t t s rest_slot (omega arith) rest_slot-Within
          (v.apart i k t s (λ e'. other (sym e')) old at)
  ]

  page_split-IsValid : slots_size p + 7 ≤ p.data_offset → IsValid page_split
  page_split-IsValid room =
      append_slot-IsValid page_perfect-IsValid rest_slot
        (record {
          above = omega (arith, (v.in_rows k s at).above);
          below = omega (arith, (v.in_rows k s at).below);
        })
        rest_slot-Apart (omega (arith, length-set p.slots k filled))

  -- Reading from a page whose slots are those of `page_perfect`, and perhaps more.
  module _ (p' : Page) (d : p'.data_ ≡ copied p.data_ s.page_offset bytes)
      (same : (j : ℕ)
        → j < length p.slots
        → get_elem? p'.slots j ≡ get_elem? (set p.slots k filled) j) where
    stored-filled : read_slot p' k ≡ ok (some bytes)
    unfolding read_slot
    stored-filled = rw (
      same k k-lt,
      get_elem?-set_self p.slots k filled k-lt,
      length-filled,
      d,
      slice-copied_self p.data_ s.page_offset bytes fits,
    )

    kept-filled : (j : ℕ) → j < length p.slots → j ≢ k → read_slot p' j ≡ read_slot p j
    unfolding read_slot
    kept-filled j h ne =
        let (t, e) = get_elem?_of_lt p.slots j h in
        rw (same j h, get_elem?-set_ne p.slots k j filled (λ e'. ne (sym e')), e)
          (read_kept p bytes s.page_offset p' fits d t (Apart-range t (v.apart j k t s ne e at)))
      where
        Apart-range :
            (t : Slot)
            → Apart t s
            → (t.page_offset + t.record_length ≤ s.page_offset)
              ⊎ (s.page_offset + length bytes ≤ t.page_offset)
        Apart-range t (inl a) = inl a
        Apart-range t (inr a) = inr (omega arith)

  vacant-filled : read_slot p k ≡ ok none
  unfolding read_slot
  vacant-filled = rw (at, free)

  pub page_perfect-Inserted : Inserted p bytes k page_perfect
  page_perfect-Inserted = record {
    valid = page_perfect-IsValid;
    stored = stored-filled page_perfect refl (λ j h. refl);
    vacant = vacant-filled;
    kept = kept-filled page_perfect refl (λ j h. refl);
    counted = refl;
  }

  pub page_split-Inserted : slots_size p + 7 ≤ p.data_offset → Inserted p bytes k page_split
  page_split-Inserted room = record {
    valid = page_split-IsValid room;
    stored = stored-filled page_split refl found;
    vacant = vacant-filled;
    kept = kept-filled page_split refl found;
    counted = refl;
  }
    where
      found :
          (j : ℕ)
          → j < length p.slots
          → get_elem? page_split.slots j ≡ get_elem? (set p.slots k filled) j
      found j h =
          get_elem?-append_left (set p.slots k filled) (rest_slot ∷ []) j
            (omega (arith, length-set p.slots k filled))
