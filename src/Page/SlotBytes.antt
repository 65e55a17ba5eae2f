-- ===== src/Page/SlotBytes.antt =====
-- src/data/page.rs: the seven bytes of each slot, written and read.
use fiddlers_db.Prelude.{ℕ, ◌+◌, ◌*◌, ◌^◌, ◌≤◌, ◌<◌, ◌≡◌, refl, sym, ◌∙◌, ap, true, false, some}
use fiddlers_db.Prelude.{
  Bool, suc, List, [], ◌∷◌, ◌++◌, length, get_elem?, take, drop, arith, append_assoc,
}
use fiddlers_db.Prelude.{length-append, length-take, length-drop, if◌then◌else◌}
use fiddlers_db.Prelude.{◌==◌}
use fiddlers_db.Prelude.Bytes.{u16_to_be, u32_to_be}
use fiddlers_db.Prelude.Bytes.{length-u16_to_be, length-u32_to_be}
use fiddlers_db.Prelude.Bytes.{u16_from_be-u16_to_be, u32_from_be-u32_to_be}
use fiddlers_db.Prelude.Slices.{copy_at_lem, copy_at_lem2, copy_at_lem3}
use fiddlers_db.Prelude.Outcome.{ok}
use fiddlers_db.Page.{Slot}
use fiddlers_db.Page.Codec.{write_slot, write_slots, parse_slot, parse_slots}

-- The seven bytes of a slot.
pub slot_bytes : Slot → List ℕ
slot_bytes s =
    ((if s.deleted then 1 else 0) ∷ []) ++ (u32_to_be s.page_offset ++ u16_to_be s.record_length)

abbrev pub slots_bytes : List Slot → List ℕ
slots_bytes [] = []
slots_bytes (s ∷ ss) = slot_bytes s ++ slots_bytes ss

length-slot_bytes : (s : Slot) → length (slot_bytes s) ≡ 7
unfolding slot_bytes u32_to_be u16_to_be
length-slot_bytes s = refl

pub length-slots_bytes : (ss : List Slot) → length (slots_bytes ss) ≡ length ss * 7
length-slots_bytes [] = refl
length-slots_bytes (s ∷ ss) = omega (
  arith,
  length-append (slot_bytes s) (slots_bytes ss),
  length-slot_bytes s,
  length-slots_bytes ss,
)

module _ (pre o1 o2 o3 post : List ℕ) (i : ℕ) (s : Slot) (h : length pre ≡ 14 + i * 7)
    (h1 : length o1 ≡ 1) (h2 : length o2 ≡ 4) (h3 : length o3 ≡ 2) where
  abbrev flag : List ℕ
  flag = (if s.deleted then 1 else 0) ∷ []

  -- Three copies write one slot over seven bytes.
  write_slot_parts :
      write_slot (pre ++ (o1 ++ (o2 ++ (o3 ++ post)))) i s ≡ ok (pre ++ (slot_bytes s ++ post))
  unfolding write_slot slot_bytes
  write_slot_parts =
      let place = u32_to_be s.page_offset in
      let size = u16_to_be s.record_length in
      rw
        (
          copy_at_lem pre o1 (o2 ++ (o3 ++ post)) flag (14 + i * 7) h h1,
          copy_at_lem2 pre flag o2 (o3 ++ post) place (14 + i * 7 + 1) (omega arith)
              (h2 ∙ sym (length-u32_to_be s.page_offset)),
          copy_at_lem3 pre flag place o3 post size (14 + i * 7 + 5)
              (omega (arith, length-u32_to_be s.page_offset))
              (h3 ∙ sym (length-u16_to_be s.record_length)),
        )
        (ap ok (ap (λ l. pre ++ l) (ap (λ l. flag ++ l) (sym (append_assoc place size post)))))

-- Seven bytes, cut as a slot is.
cut_slot :
    (old : List ℕ)
    → 7 ≤ length old
    → old ≡ take 1 old ++ (take 4 (drop 1 old) ++ (take 2 (drop 5 old) ++ drop 7 old))
cut_slot (a ∷ b ∷ c ∷ d ∷ e ∷ f ∷ g ∷ rest) h = refl
cut_slot _ h = absurd (omega arith)

pub write_slots_lem :
    (ss : List Slot) (pre old post : List ℕ) (i : ℕ)
    → length pre ≡ 14 + i * 7
    → length old ≡ length ss * 7
    → write_slots (pre ++ (old ++ post)) i ss ≡ ok (pre ++ (slots_bytes ss ++ post))
unfolding write_slots slot_bytes u32_to_be u16_to_be
write_slots_lem [] pre [] post i h k = refl
write_slots_lem [] pre (o ∷ old) post i h k = absurd (omega arith)
write_slots_lem (s ∷ ss) pre old post i h k =
    let o1 = take 1 old in
    let o2 = take 4 (drop 1 old) in
    let o3 = take 2 (drop 5 old) in
    let rest = drop 7 old in
    let cut : pre ++ (old ++ post) ≡ pre ++ (o1 ++ (o2 ++ (o3 ++ (rest ++ post)))) =
      simp append_assoc at (ap (λ l. pre ++ (l ++ post)) (cut_slot old (omega arith))) in
    let ih =
      write_slots_lem ss (pre ++ slot_bytes s) rest post (i + 1)
        (omega (arith, length-append pre (slot_bytes s), length-slot_bytes s))
        (omega (arith, length-drop 7 old)) in
    rw
      (
        cut,
        write_slot_parts pre o1 o2 o3 (rest ++ post) i s h (omega (arith, length-take 1 old))
            (omega (arith, length-take 4 (drop 1 old), length-drop 1 old))
            (omega (arith, length-take 2 (drop 5 old), length-drop 5 old)),
      )
      (simp append_assoc at ih)

flag-eq : (b : Bool) → ((if b then 1 else 0) == 1) ≡ b
flag-eq true = refl
flag-eq false = refl

-- Reading the slots back.
parse_slot_lem :
    (s : Slot)
    → s.page_offset < 2 ^ 32
    → s.record_length < 2 ^ 16
    → parse_slot (if s.deleted then 1 else 0) (u32_to_be s.page_offset) (u16_to_be s.record_length)
      ≡ some s
unfolding parse_slot
parse_slot_lem s h k = rw (
  u32_from_be-u32_to_be s.page_offset h,
  u16_from_be-u16_to_be s.record_length k,
  flag-eq s.deleted,
)

pub parse_slots-slots_bytes :
    (ss : List Slot)
    → ((i : ℕ) (s : Slot)
        → get_elem? ss i ≡ some s
        → (s.page_offset < 2 ^ 32) × (s.record_length < 2 ^ 16))
    → parse_slots (slots_bytes ss) ≡ some ss
unfolding parse_slots slot_bytes u32_to_be u16_to_be
parse_slots-slots_bytes [] small = refl
parse_slots-slots_bytes (s ∷ ss) small = rw (
  parse_slot_lem s (small 0 s refl).0 (small 0 s refl).1,
  parse_slots-slots_bytes ss (λ i t e. small (suc i) t e),
)
