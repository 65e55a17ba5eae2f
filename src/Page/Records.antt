-- ===== src/Page/Records.antt =====
-- What the iterator over records returns.
use fiddlers_db.Prelude.{
  ℕ, zero, suc, ◌+◌, ◌-◌, ◌≤◌, ◌<◌, ◌≡◌, ◌⊎◌, inl, inr, refl, ap, arith, true, false, none, some,
  List, [], ◌∷◌, length, get_elem?, get_elem?-eq-get_or, Bool-cases, Option-cases,
}
use fiddlers_db.Prelude.{◌==◌}
use native.Mathlib.Decide.{ℕ_discrete}
use fiddlers_db.Page.{Page, Slot}
use fiddlers_db.Page.Iterator.{
  RecordIterator, record_from_slot, select, from_slots, next_loop, next,
}

-- The slots from `a` up to `b` are deleted.
abbrev pub AllDeleted : List Slot → ℕ → ℕ → Type 0
AllDeleted slots a b =
    (j : ℕ) (s : Slot) → a ≤ j → j < b → get_elem? slots j ≡ some s → s.deleted ≡ true

-- What a call of the iterator returns: nothing, if all slots that are left are deleted, and else the
-- record of the next live slot, numbered by its place.
abbrev pub Advances : RecordIterator → Type 0
Advances it =
    ((next it ≡ (none, record it { next_slot = length it.slots }))
      × AllDeleted it.slots it.next_slot (length it.slots))
    ⊎ ((i : ℕ) × (s : Slot) × (next it
          ≡ (some (record_from_slot it.page_id it.bytes i s), record it { next_slot = i + 1 }))
        × (it.next_slot ≤ i)
        × (get_elem? it.slots i ≡ some s)
        × (s.deleted ≡ false)
        × AllDeleted it.slots it.next_slot i)

next_loop_lem :
    (count : ℕ) (it : RecordIterator)
    → it.next_slot + count ≡ length it.slots
    → ((next_loop count it ≡ (none, record it { next_slot = length it.slots }))
        × AllDeleted it.slots it.next_slot (length it.slots))
      ⊎ ((i : ℕ) × (s : Slot) × (next_loop count it
            ≡ (some (record_from_slot it.page_id it.bytes i s), record it { next_slot = i + 1 }))
          × (it.next_slot ≤ i)
          × (get_elem? it.slots i ≡ some s)
          × (s.deleted ≡ false)
          × AllDeleted it.slots it.next_slot i)
unfolding next_loop
next_loop_lem zero it e = inl (
  ap (λ (n : ℕ). (none, record it { next_slot = n })) {x = it.next_slot} {y = length it.slots}
      (omega arith),
  λ j s low high g. absurd (omega arith),
)
next_loop_lem (suc count) it e = elim (Option-cases (get_elem? it.slots it.next_slot)) [
  | inl nothing ↦
      absurd (ground (arith, get_elem?-eq-get_or it.slots it.next_slot no_slot (omega arith)))
  | inr (s, found) ↦ elim (Bool-cases s.deleted) [
    | inr live ↦ inr (
      it.next_slot,
      s,
      rw (found, live),
      omega arith,
      found,
      live,
      λ j t low high g. absurd (omega arith),
    )
    | inl dead ↦
        let later =
          next_loop_lem count (record it { next_slot = it.next_slot + 1 }) (omega arith) in
        elim later [
          | inl (run, all) ↦
              inl (rw (found, dead) run, deleted_from it s found dead (length it.slots) all)
          | inr (i, t, run, low, at, live, all) ↦ inr (
            i,
            t,
            rw (found, dead) run,
            omega arith,
            at,
            live,
            deleted_from it s found dead i all,
          )
        ]
  ]
]
  where
    no_slot : Slot
    no_slot = record { record_length = 0; page_offset = 0; deleted = true }

    deleted_from :
        (it : RecordIterator) (s : Slot)
        → get_elem? it.slots it.next_slot ≡ some s
        → s.deleted ≡ true
        → (b : ℕ) → AllDeleted it.slots (it.next_slot + 1) b
        → AllDeleted it.slots it.next_slot b
    deleted_from it s found dead b all j t low high g = elim (ℕ_discrete j it.next_slot) [
      | no more ↦ all j t (omega arith) high g
      | yes same ↦
          let here : get_elem? it.slots it.next_slot ≡ some t = rw same at g in
          ground (arith, found, dead, here)
    ]

-- A call of an iterator that is not past its slots returns nothing exactly when all slots that are
-- left are deleted, and otherwise the record of the first live slot among them, numbered by its
-- place in the iterator's slots; the next call goes on behind it.
pub next_correct : (it : RecordIterator) → it.next_slot ≤ length it.slots → Advances it
unfolding next
next_correct it h = next_loop_lem (length it.slots - it.next_slot) it (omega arith)

select_past :
    (slots : List Slot) (wanted base : ℕ) → wanted < base → select (wanted ∷ []) slots base ≡ []
unfolding select
select_past [] wanted base h = refl
select_past (s ∷ slots) wanted base h =
    let differ : (wanted == base) ≡ false = ground arith in
    rw (differ, select_past slots wanted (base + 1) (omega arith))

select_one :
    (slots : List Slot) (i base wanted : ℕ) (s : Slot)
    → base + i ≡ wanted
    → get_elem? slots i ≡ some s
    → select (wanted ∷ []) slots base ≡ s ∷ []
unfolding select
select_one [] i base wanted s e h = cc
select_one (x ∷ slots) zero base wanted s e h =
    let same : (wanted == base) ≡ true = ground arith in
    let first : x ≡ s = cc in
    rw (same, select_past slots wanted (base + 1) (omega arith)) (ap (λ y. y ∷ []) first)
select_one (x ∷ slots) (suc i) base wanted s e h =
    let differ : (wanted == base) ≡ false = ground arith in
    rw differ (select_one slots i (base + 1) wanted s (omega arith) h)

-- An iterator over one chosen live slot returns that slot's bytes, but as the record with index 0,
-- whatever the index of the slot on the page is.
pub from_slots_misnumbers :
    (p : Page) (i : ℕ) (s : Slot)
    → get_elem? p.slots i ≡ some s
    → s.deleted ≡ false
    → (next (from_slots p (i ∷ []))).0 ≡ some (record_from_slot p.page_id p.data_ 0 s)
unfolding next next_loop from_slots
from_slots_misnumbers p i s found live = rw (select_one p.slots i 0 i s (omega arith) found, live)
