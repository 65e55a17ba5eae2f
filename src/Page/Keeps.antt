-- ===== src/Page/Keeps.antt =====
-- The elementary changes of a page that keep it valid.
use native.Mathlib.Decide.{ℕ_discrete}
use fiddlers_db.Prelude.{
  ℕ, ◌+◌, ◌^◌, ◌≤◌, ◌<◌, ◌≡◌, ◌≢◌, ◌⊎◌, inl, inr, sym, ◌∙◌, some, List, [], ◌∷◌, ◌++◌,
}
use fiddlers_db.Prelude.{length, get_elem?, set, arith, length-set, length-append, some_inj}
use fiddlers_db.Prelude.{get_elem?-set_self, get_elem?-set_ne, get_elem?-snoc, lt_of_get_elem?}
use fiddlers_db.Page.{Page, Slot, slots_size}
use fiddlers_db.Page.Valid.{IsValid, InRows, Apart}

-- A slot that keeps within the bytes of another.
pub record Within (s' s : Slot) : Type 0 where
  pub from : s.page_offset ≤ s'.page_offset
  pub to : s'.page_offset + s'.record_length ≤ s.page_offset + s.record_length

Within-refl : (s : Slot) → Within s s
Within-refl s = omega arith

-- The slot at `i` after a write at `k`: it keeps within the slot that stood there.
pub set-Within :
    (slots : List Slot) (k : ℕ) (s s' : Slot)
    → get_elem? slots k ≡ some s
    → Within s' s
    → (i : ℕ) (t' : Slot) → get_elem? (set slots k s') i ≡ some t'
    → (t : Slot) × (get_elem? slots i ≡ some t) × Within t' t
set-Within slots k s s' at within i t' e = elim (ℕ_discrete k i) [
  | yes same ↦
      let found : get_elem? (set slots k s') i ≡ some s' =
        rw (← same) (get_elem?-set_self slots k s' (lt_of_get_elem? slots k at)) in
      let is : s' ≡ t' = some_inj (sym found ∙ e) in (s, rw (← same) at, rw is at within)
  | no other ↦ (t', sym (get_elem?-set_ne slots k i s' other) ∙ e, Within-refl t')
]

pub Apart-Within : (s s' t t' : Slot) → Within s' s → Within t' t → Apart s t → Apart s' t'
Apart-Within s s' t t' h k (inl a) = inl (omega arith)
Apart-Within s s' t t' h k (inr a) = inr (omega arith)

Apart-sym : (s t : Slot) → Apart s t → Apart t s
Apart-sym s t (inl a) = inr a
Apart-sym s t (inr a) = inl a

module _ {p : Page} (v : IsValid p) where
  -- A slot may shrink, and its deleted flag may change.
  pub set_slot-IsValid :
      (k : ℕ) (s s' : Slot)
      → get_elem? p.slots k ≡ some s
      → Within s' s
      → IsValid (record p { slots = set p.slots k s' })
  set_slot-IsValid k s s' at within = record {
    layout_ok = v.layout_ok;
    data_size = v.data_size;
    slots_below = omega (arith, v.slots_below, length-set p.slots k s');
    offset_in = v.offset_in;
    count_u16 = v.count_u16;
    id_i32 = v.id_i32;
    in_rows = λ i t' e.
        let (t, old, w) = set-Within p.slots k s s' at within i t' e in
        let r = v.in_rows i t old in record { above = omega arith; below = omega arith };
    apart = λ i j a' b' ne ea eb.
        let (a, olda, wa) = set-Within p.slots k s s' at within i a' ea in
        let (b, oldb, wb) = set-Within p.slots k s s' at within j b' eb in
        Apart-Within a a' b b' wa wb (v.apart i j a b ne olda oldb);
  }

  -- A slot among the rows, apart from all others, may be added where there is room for its entry.
  pub append_slot-IsValid :
      (r : Slot)
      → InRows p r
      → ((i : ℕ) (s : Slot) → get_elem? p.slots i ≡ some s → Apart s r)
      → slots_size p + 7 ≤ p.data_offset
      → IsValid (record p { slots = p.slots ++ r ∷ [] })
  append_slot-IsValid r rows free room = record {
    layout_ok = v.layout_ok;
    data_size = v.data_size;
    slots_below = omega (arith, length-append p.slots (r ∷ []));
    offset_in = v.offset_in;
    count_u16 = v.count_u16;
    id_i32 = v.id_i32;
    in_rows = λ i t e. elim (appended i t e) [
      | inl old ↦ let h = v.in_rows i t old in record { above = h.above; below = h.below }
      | inr (at, new) ↦ rw (← new) (record { above = rows.above; below = rows.below })
    ];
    apart = λ i j a b ne ea eb. both i j a b ne (appended i a ea) (appended j b eb);
  }
    where
      appended :
          (i : ℕ) (t : Slot)
          → get_elem? (p.slots ++ r ∷ []) i ≡ some t
          → (get_elem? p.slots i ≡ some t) ⊎ ((i ≡ length p.slots) × (r ≡ t))
      appended i t e = get_elem?-snoc p.slots r i e

      both :
          (i j : ℕ) (a b : Slot)
          → i ≢ j
          → (get_elem? p.slots i ≡ some a) ⊎ ((i ≡ length p.slots) × (r ≡ a))
          → (get_elem? p.slots j ≡ some b) ⊎ ((j ≡ length p.slots) × (r ≡ b))
          → Apart a b
      both i j a b ne (inl ea) (inl eb) = v.apart i j a b ne ea eb
      both i j a b ne (inl ea) (inr eb) = rw (← eb.1) (free i a ea)
      both i j a b ne (inr ea) (inl eb) = rw (← ea.1) (Apart-sym b r (free j b eb))
      both i j a b ne (inr ea) (inr eb) = absurd (ne (ea.0 ∙ sym eb.0))

  pub data-IsValid : (d : List ℕ) → length d ≡ length p.data_ → IsValid (record p { data_ = d })
  data-IsValid d h = record {
    layout_ok = v.layout_ok;
    data_size = h ∙ v.data_size;
    slots_below = v.slots_below;
    offset_in = v.offset_in;
    count_u16 = v.count_u16;
    id_i32 = v.id_i32;
    in_rows = λ i t e. let h = v.in_rows i t e in record { above = h.above; below = h.below };
    apart = v.apart;
  }

  -- The rows may grow downwards, as far as the slot array.
  pub lower-IsValid :
      (o : ℕ) → slots_size p ≤ o → o ≤ p.data_offset → IsValid (record p { data_offset = o })
  lower-IsValid o h k = record {
    layout_ok = v.layout_ok;
    data_size = v.data_size;
    slots_below = h;
    offset_in = omega (arith, v.offset_in);
    count_u16 = v.count_u16;
    id_i32 = v.id_i32;
    in_rows = λ i t e.
        let h = v.in_rows i t e in record { above = omega (arith, h.above); below = h.below };
    apart = v.apart;
  }

  pub count-IsValid : (n : ℕ) → n < 2 ^ 16 → IsValid (record p { number_of_records = n })
  count-IsValid n h = record {
    layout_ok = v.layout_ok;
    data_size = v.data_size;
    slots_below = v.slots_below;
    offset_in = v.offset_in;
    count_u16 = h;
    id_i32 = v.id_i32;
    in_rows = λ i t e. let h = v.in_rows i t e in record { above = h.above; below = h.below };
    apart = v.apart;
  }
