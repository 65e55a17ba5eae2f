-- ===== src/Page/Search.antt =====
-- The search for a deleted slot, and the largest deleted slot.
use fiddlers_db.Prelude.{
  ℕ, zero, suc, ◌+◌, ◌≤◌, ◌<◌, ◌≡◌, ◌≢◌, ◌⊎◌, inl, inr, refl, true, Option, none, some,
}
use fiddlers_db.Prelude.{List, [], ◌∷◌, get_elem?, arith, leb, ◌==◌, ◌&&◌, some_inj, Bool-cases}
use fiddlers_db.Page.{Slot, max_deleted, find_free, is_none}

-- What the search may have found, from `index` on.
abbrev pub Found : ℕ → List Slot → ℕ → ℕ → Type 0
Found wanted slots index i =
    (k : ℕ) × (s : Slot) × (i ≡ index + k)
    × (get_elem? slots k ≡ some s)
    × (s.deleted ≡ true)
    × (wanted ≤ s.record_length)

Found-cons :
    (wanted : ℕ) (s : Slot) (ss : List Slot) (index i : ℕ)
    → Found wanted ss (index + 1) i
    → Found wanted (s ∷ ss) index i
Found-cons wanted s ss index i (k, t, at, e, d, w) = (suc k, t, omega arith, e, d, w)

Found-here :
    (wanted : ℕ) (s : Slot) (ss : List Slot) (index i : ℕ)
    → index ≡ i
    → s.deleted ≡ true
    → wanted ≤ s.record_length
    → Found wanted (s ∷ ss) index i
Found-here wanted s ss index i at d w = (zero, s, omega arith, refl, d, w)

-- What the search has found: an index that was given, or a deleted slot that is large enough.
pub find_free-some :
    (wanted : ℕ) (slots : List Slot) (index : ℕ) (fallback : Option ℕ) (i : ℕ)
    → find_free wanted slots index fallback ≡ some i
    → (fallback ≡ some i) ⊎ Found wanted slots index i
unfolding find_free
find_free-some wanted [] index fallback i h = inl h
find_free-some wanted (s ∷ ss) index fallback i h =
    elim (Bool-cases (s.deleted && s.record_length == wanted)) [
      | inl hit ↦
          inr
            (Found-here wanted s ss index i (some_inj (rw hit at h)) (ground arith) (ground arith))
      | inr miss ↦
          elim (Bool-cases (s.deleted && (leb wanted s.record_length && is_none fallback))) [
            | inl usable ↦
                elim (find_free-some wanted ss (index + 1) (some index) i
                  (rw (miss, usable) at h)) [
                    | inl here ↦ inr (
                        Found-here wanted s ss index i (some_inj here) (ground arith)
                          (ground arith))
                    | inr later ↦ inr (Found-cons wanted s ss index i later)
                  ]
            | inr other ↦
                elim (find_free-some wanted ss (index + 1) fallback i (rw (miss, other) at h)) [
                  | inl given ↦ inl given
                  | inr later ↦ inr (Found-cons wanted s ss index i later)
                ]
          ]
    ]

find_free-fallback :
    (wanted : ℕ) (slots : List Slot) (index f : ℕ) → find_free wanted slots index (some f) ≢ none
unfolding find_free
find_free-fallback wanted [] index f h = cc
find_free-fallback wanted (s ∷ ss) index f h =
    ground (arith, find_free-fallback wanted ss (index + 1) f)

pub find_free-none :
    (wanted : ℕ) (slots : List Slot) (index : ℕ)
    → 0 < wanted
    → find_free wanted slots index none ≡ none
    → max_deleted slots < wanted
unfolding find_free
find_free-none wanted [] index pos h = pos
find_free-none wanted (s ∷ ss) index pos h = ground (
  arith,
  find_free-none wanted ss (index + 1) pos,
  find_free-fallback wanted ss (index + 1) index,
)

pub max_deleted-le :
    (slots : List Slot) (n : ℕ)
    → ((i : ℕ) (s : Slot) → get_elem? slots i ≡ some s → s.record_length ≤ n)
    → max_deleted slots ≤ n
max_deleted-le [] n h = omega arith
max_deleted-le (s ∷ ss) n h =
    ground (arith, h 0 s refl, max_deleted-le ss n (λ i t e. h (suc i) t e))
