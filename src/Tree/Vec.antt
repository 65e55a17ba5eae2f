-- ===== src/Tree/Vec.antt =====
-- The operations of Rust's `Vec` that the nodes use; `none` where they panic.
use fiddlers_db.Prelude.{
  ℕ, zero, suc, Option, none, some, List, [], ◌∷◌, length, take, drop, leb, if◌then◌else◌,
}

module _ {ℓ} {A : Type ℓ} where
  abbrev cons_some : A → Option (List A) → Option (List A)
  cons_some x none = none
  cons_some x (some xs) = some (x ∷ xs)

  abbrev cons_rest : A → Option (A × List A) → Option (A × List A)
  cons_rest x none = none
  cons_rest x (some (y, xs)) = some (y, x ∷ xs)

  -- `insert`
  abbrev pub insert_at : List A → ℕ → A → Option (List A)
  insert_at xs zero v = some (v ∷ xs)
  insert_at [] (suc i) v = none
  insert_at (x ∷ xs) (suc i) v = cons_some x (insert_at xs i v)

  -- `remove`: the element, and the others.
  abbrev pub remove_at : List A → ℕ → Option (A × List A)
  remove_at [] i = none
  remove_at (x ∷ xs) zero = some (x, xs)
  remove_at (x ∷ xs) (suc i) = cons_rest x (remove_at xs i)

  -- `pop`: the last element, and the others.
  abbrev pub pop : List A → Option (A × List A)
  pop [] = none
  pop (x ∷ []) = some (x, [])
  pop (x ∷ y ∷ ys) = cons_rest x (pop (y ∷ ys))

  -- `split_off`: what stays, and the tail.
  abbrev pub split_off : List A → ℕ → Option (List A × List A)
  split_off xs n = if leb n (length xs) then some (take n xs, drop n xs) else none
