-- ===== src/Tree/Search.antt =====
-- src/tree/node.rs: `binary_search` over the keys of a node.
use fiddlers_db.Prelude.{ℕ, zero, suc, ◌+◌, ◌-◌, ◌/◌, Option, none, some, List, length, get_elem?}
use fiddlers_db.Prelude.{ltb, ◌==◌, if◌then◌else◌}
use fiddlers_db.Prelude.Int.{ℤ, ltb_ℤ, ◌==ℤ◌}
use fiddlers_db.Prelude.Outcome.{Outcome, ok, panic, ◌>>=◌, or_panic, checked_sub}

-- `enum FindKeyResponse`
pub data FindKeyResponse : Type 0 where
  greater_than_the_last : ℕ → FindKeyResponse
  equal : ℕ → FindKeyResponse
  less_than : ℕ → FindKeyResponse

-- What the halving loop ends with: the key's index, or a short range.
pub data Narrowed : Type 0 where
  found_at : ℕ → Narrowed
  in_range : ℕ → ℕ → Narrowed

-- The halving loop, on fuel. The range becomes shorter in every round, so the number of keys is
-- enough.
unfoldable pub narrow {ℓ} : {E : Type ℓ} → ℕ → ℤ → List ℤ → ℕ → ℕ → Outcome E Narrowed
narrow zero key keys low high = panic
narrow (suc fuel) key keys low high = do
  size ← checked_sub high low
  let mid = (low + high) / 2
  let left = narrow fuel key keys low mid
  let right = narrow fuel key keys (mid + 1) high
  let round = or_panic (get_elem? keys mid) >>= λ k.
      if key ==ℤ k then ok (found_at mid) else if ltb_ℤ key k then left else right
  if ltb 8 size then round else ok (in_range low high)

-- What one key says in the last loop; `rest` is what the later keys say.
abbrev pub scan_key : ℤ → ℤ → ℕ → Option FindKeyResponse → Option FindKeyResponse
scan_key key k i rest =
    if ltb_ℤ key k then some (less_than i) else if key ==ℤ k then some (equal i) else rest

-- The last loop: `count` keys from the index `i` on.
unfoldable pub scan : ℕ → ℤ → List ℤ → ℕ → Option FindKeyResponse
scan zero key keys i = none
scan (suc count) key keys i = elim (get_elem? keys i) [
  | none ↦ none
  | some k ↦ scan_key key k i (scan count key keys (i + 1))
]

-- What follows the halving loop.
unfoldable pub after_narrow : ℤ → List ℤ → Narrowed → FindKeyResponse
after_narrow key keys (found_at mid) = equal mid
after_narrow key keys (in_range low high) = elim (scan (high + 1 - low) key keys low) [
  | none ↦ greater_than_the_last (length keys - 1)
  | some response ↦ response
]

-- `binary_search`
unfoldable pub binary_search {ℓ} : {E : Type ℓ} → ℤ → List ℤ → Outcome E FindKeyResponse
binary_search key keys =
    let last_element = length keys - 1 in
    let search = do
      last ← or_panic (get_elem? keys last_element)
      if ltb_ℤ last key
          then ok (greater_than_the_last last_element)
          else (narrow (length keys) key keys 0 last_element >>= λ n. ok (after_narrow key keys n))
    in if length keys == 0 then ok (greater_than_the_last last_element) else search
