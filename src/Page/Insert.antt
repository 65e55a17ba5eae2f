-- ===== src/Page/Insert.antt =====
-- `Page::insert_record` on a valid page: the record can be read back, every other record stays as
-- it was, and the page stays valid.
use native.Mathlib.Decide.{ℕ_discrete}
use fiddlers_db.Prelude.{ℕ, ◌+◌, ◌-◌, ◌%◌, ◌^◌, ◌≤◌, ◌<◌, ◌≡◌, ◌≢◌, ◌⊎◌, inl, inr, ◌∙◌, ap}
use fiddlers_db.Prelude.{
  Bool, true, none, some, List, length, get_elem?, arith, max, leb, Bool-cases, Option-cases, ◌||◌,
}
use fiddlers_db.Prelude.Outcome.{ok, err}
use fiddlers_db.Page.{Page, Slot, insert_record_error, slots_size, find_free_slot_index}
use fiddlers_db.Page.{
  max_fragmented_free_space, can_insert, insert_record, insert_below, insert_into, is_perfect_fit,
}
use fiddlers_db.Page.Search.{find_free-some, find_free-none}
use fiddlers_db.Page.Valid.{IsValid}
use fiddlers_db.Page.Inserted.{Inserted, max_available_space-eq, fragmented-le}
use fiddlers_db.Page.InsertBelow.{page_below, insert_below-eq, page_below-Inserted}
use fiddlers_db.Page.InsertInto.{
  page_perfect, page_split, insert_into_perfect, insert_into_split, page_perfect-Inserted,
  page_split-Inserted,
}

module _ {p : Page} (v : IsValid p) (bytes : List ℕ) where
  -- On a valid page `can_insert` answers, by a perfect fit or by the space for record and slot.
  pub can_insert-eq :
      can_insert p bytes
      ≡ ok (
          is_perfect_fit p bytes (find_free_slot_index p bytes)
          || leb
              (length bytes + 7)
              (max (p.data_offset - slots_size p) (max_fragmented_free_space p)))
  unfolding can_insert
  can_insert-eq = elim (Bool-cases (is_perfect_fit p bytes (find_free_slot_index p bytes))) [
    | inl perfect ↦ rw (perfect)
    | inr other ↦ rw (other, max_available_space-eq v)
  ]

  -- A found slot: deleted, and at least as long as the record, cut to 16 bits.
  pub found_slot :
      (k : ℕ)
      → find_free_slot_index p bytes ≡ some k
      → (s : Slot) × (get_elem? p.slots k ≡ some s)
        × (s.deleted ≡ true)
        × (length bytes % 2 ^ 16 ≤ s.record_length)
  unfolding find_free_slot_index
  found_slot k h = elim (find_free-some (length bytes % 2 ^ 16) p.slots 0 none k h) [
    | inl impossible ↦ absurd (ground arith)
    | inr (j, s, at, e, d, w) ↦ (s, ap (get_elem? p.slots) {x = k} {y = j} (omega arith) ∙ e, d, w)
  ]

  not_found :
      find_free_slot_index p bytes ≡ none
      → 0 < length bytes % 2 ^ 16
      → max_fragmented_free_space p < length bytes % 2 ^ 16
  unfolding find_free_slot_index max_fragmented_free_space
  not_found h pos = find_free-none (length bytes % 2 ^ 16) p.slots 0 pos h

  answer :
      can_insert p bytes ≡ ok true
      → (is_perfect_fit p bytes (find_free_slot_index p bytes) ≡ true)
        ⊎ (length bytes + 7 ≤ max (p.data_offset - slots_size p) (max_fragmented_free_space p))
  answer h = ground (arith, can_insert-eq)

  -- A slot that fits perfectly was found, and is among the slots.
  perfect_slot :
      is_perfect_fit p bytes (find_free_slot_index p bytes) ≡ true
      → (k : ℕ) × (s : Slot) × (find_free_slot_index p bytes ≡ some k)
        × (get_elem? p.slots k ≡ some s)
        × (s.record_length ≡ length bytes)
  perfect_slot h = elim (Option-cases (find_free_slot_index p bytes)) [
    | inl nothing ↦ absurd (ground arith)
    | inr (k, found) ↦ elim (Option-cases (get_elem? p.slots k)) [
      | inl missing ↦ absurd (ground arith)
      | inr (s, at) ↦ (k, s, found, at, ground arith)
    ]
  ]

  -- A record that can be inserted has a length of 16 bits.
  pub small_of_fits : can_insert p bytes ≡ ok true → length bytes < 2 ^ 16
  small_of_fits h = elim (answer h) [
    | inl perfect ↦
        let (k, s, found, at, same) = perfect_slot perfect in
        omega (arith, (v.in_rows k s at).below, v.layout_ok.at_most)
    | inr space ↦ omega (arith, fragmented-le v, v.layout_ok.at_most, v.offset_in)
  ]

  -- `insert_record` after the test, at the slot that is found.
  insert_record-none :
      can_insert p bytes ≡ ok true
      → find_free_slot_index p bytes ≡ none
      → insert_record p bytes ≡ insert_below p bytes
  unfolding insert_record
  insert_record-none h e = ground arith

  pub insert_record-some :
      (k : ℕ) (s : Slot)
      → can_insert p bytes ≡ ok true
      → find_free_slot_index p bytes ≡ some k
      → get_elem? p.slots k ≡ some s
      → insert_record p bytes ≡ insert_into p k s bytes
  unfolding insert_record
  insert_record-some k s h e at = ground arith

-- On a valid page, a record of at least one byte that `can_insert` accepts is inserted: it reads
-- back from the slot that is returned, which held no live record; every other record stays as it
-- was; and the page stays valid. The record must fit its deleted slot exactly, or the slot array
-- must have room for one more entry, and the count must not be at its maximum.
pub insert_record_correct :
    (p : Page) (bytes : List ℕ)
    → IsValid p
    → 0 < length bytes
    → p.number_of_records + 1 < 2 ^ 16
    → (is_perfect_fit p bytes (find_free_slot_index p bytes) ≡ true)
      ⊎ (slots_size p + 7 ≤ p.data_offset)
    → can_insert p bytes ≡ ok true
    → (i : ℕ) × (p' : Page) × (insert_record p bytes ≡ ok (i, p')) × Inserted p bytes i p'
insert_record_correct p bytes v pos count room h =
    let small = small_of_fits v bytes h in
    elim (Option-cases (find_free_slot_index p bytes)) [
      | inl nothing ↦
          let space : length bytes + 7 + slots_size p ≤ p.data_offset = below_room nothing small in
          (
            length p.slots,
            page_below v bytes pos small count,
            insert_record-none v bytes h nothing ∙ insert_below-eq v bytes pos small count space,
            page_below-Inserted v bytes pos small count space,
          )
      | inr (k, found) ↦
          let (s, at, d, w) = found_slot v bytes k found in
          let long : length bytes ≤ s.record_length = omega arith in
          elim (ℕ_discrete s.record_length (length bytes)) [
            | yes same ↦ (
              k,
              page_perfect v bytes small count k s at d long,
              insert_record-some v bytes k s h found at
                  ∙ insert_into_perfect v bytes small count k s at d long same,
              page_perfect-Inserted v bytes small count k s at d long,
            )
            | no other ↦
                let extra : slots_size p + 7 ≤ p.data_offset = split_room k s found at other in
                (
                  k,
                  page_split v bytes small count k s at d long,
                  insert_record-some v bytes k s h found at
                      ∙ insert_into_split v bytes small count k s at d long (omega arith),
                  page_split-Inserted v bytes small count k s at d long extra,
                )
          ]
    ]
  where
    below_room :
        find_free_slot_index p bytes ≡ none
        → length bytes < 2 ^ 16
        → length bytes + 7 + slots_size p ≤ p.data_offset
    below_room nothing small = elim (answer v bytes h) [
      | inl perfect ↦ absurd (ground arith)
      | inr space ↦ omega (arith, not_found v bytes nothing (omega arith), v.slots_below)
    ]

    split_room :
        (k : ℕ) (s : Slot)
        → find_free_slot_index p bytes ≡ some k
        → get_elem? p.slots k ≡ some s
        → s.record_length ≢ length bytes
        → slots_size p + 7 ≤ p.data_offset
    split_room k s found at other = elim room [
      | inl perfect ↦ absurd (ground arith)
      | inr enough ↦ enough
    ]

-- A record that `can_insert` refuses is not inserted, and a valid page always answers.
pub insert_record_refused :
    (p : Page) (bytes : List ℕ)
    → IsValid p
    → (can_insert p bytes ≡ ok true) ⊎ (insert_record p bytes ≡ err insert_record_error)
unfolding insert_record
insert_record_refused p bytes v = elim (Bool-cases fits) [
  | inl yes_ ↦ inl (can_insert-eq v bytes ∙ ap ok yes_)
  | inr no_ ↦ inr (rw (can_insert-eq v bytes, no_))
]
  where
    fits : Bool
    fits =
        is_perfect_fit p bytes (find_free_slot_index p bytes)
        || leb (length bytes + 7) (max (p.data_offset - slots_size p) (max_fragmented_free_space p))
