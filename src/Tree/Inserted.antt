-- ===== src/Tree/Inserted.antt =====
-- A list with one more element, and an association of keys and values with one more entry.
use fiddlers_db.Prelude.{
  ℕ, zero, suc, ◌+◌, ◌-◌, ◌≤◌, ◌<◌, ◌≡◌, ◌≢◌, refl, ◌∙◌, ap, arith, List, [], ◌∷◌, ◌++◌, length,
  get_or, some, true, false, Bool-cases, inl, inr,
}
use fiddlers_db.Prelude.Int.{ℤ, pos, ◌<ℤ◌, ◌==ℤ◌, eq_of_==ℤ}
use fiddlers_db.Prelude.Outcome.{ok}
use native.Mathlib.Decide.{dec_lt, ℕ_discrete}
use fiddlers_db.Tree.Vec.{insert_at}
use fiddlers_db.Tree.Node.{value_of}
use fiddlers_db.Tree.Found.{key_at, IsSorted, AllBelow}

module _ {ℓ} {A : Type ℓ} where
  abbrev pub inserted : List A → ℕ → A → List A
  inserted xs zero v = v ∷ xs
  inserted [] (suc i) v = v ∷ []
  inserted (x ∷ xs) (suc i) v = x ∷ inserted xs i v

  pub insert_at-eq :
      (xs : List A) (i : ℕ) (v : A) → i ≤ length xs → insert_at xs i v ≡ some (inserted xs i v)
  insert_at-eq xs zero v h = refl
  insert_at-eq [] (suc i) v h = absurd (omega arith)
  insert_at-eq (x ∷ xs) (suc i) v h = rw (insert_at-eq xs i v (omega arith))

  pub inserted_last : (xs : List A) (v : A) → xs ++ (v ∷ []) ≡ inserted xs (length xs) v
  inserted_last [] v = refl
  inserted_last (x ∷ xs) v = ap (λ l. x ∷ l) (inserted_last xs v)

  pub length-inserted : (xs : List A) (i : ℕ) (v : A) → length (inserted xs i v) ≡ length xs + 1
  length-inserted xs zero v = omega arith
  length-inserted [] (suc i) v = omega arith
  length-inserted (x ∷ xs) (suc i) v = omega (arith, length-inserted xs i v)

  pub get_before :
      (xs : List A) (i j : ℕ) (v d : A)
      → i ≤ length xs
      → j < i
      → get_or (inserted xs i v) j d ≡ get_or xs j d
  get_before xs zero j v d h k = absurd (omega arith)
  get_before [] (suc i) j v d h k = absurd (omega arith)
  get_before (x ∷ xs) (suc i) zero v d h k = refl
  get_before (x ∷ xs) (suc i) (suc j) v d h k = get_before xs i j v d (omega arith) (omega arith)

  pub get_at : (xs : List A) (i : ℕ) (v d : A) → i ≤ length xs → get_or (inserted xs i v) i d ≡ v
  get_at xs zero v d h = refl
  get_at [] (suc i) v d h = absurd (omega arith)
  get_at (x ∷ xs) (suc i) v d h = get_at xs i v d (omega arith)

  pub get_after :
      (xs : List A) (i j : ℕ) (v d : A)
      → i ≤ length xs
      → i ≤ j
      → get_or (inserted xs i v) (suc j) d ≡ get_or xs j d
  get_after xs zero j v d h k = refl
  get_after [] (suc i) j v d h k = absurd (omega arith)
  get_after (x ∷ xs) (suc i) zero v d h k = absurd (omega arith)
  get_after (x ∷ xs) (suc i) (suc j) v d h k = get_after xs i j v d (omega arith) (omega arith)

-- A key at the first place where no smaller key follows keeps the order.
module _ (keys : List ℤ) (i : ℕ) (key : ℤ) (sorted : IsSorted keys) (inside : i ≤ length keys)
    (before : AllBelow key keys i)
    (after : (j : ℕ) → i ≤ j → j < length keys → key <ℤ key_at keys j) where
  new_at : (j : ℕ) → j < i → key_at (inserted keys i key) j ≡ key_at keys j
  new_at j h = get_before keys i j key (pos 0) inside h

  new_suc : (j : ℕ) → i < j → key_at (inserted keys i key) j ≡ key_at keys (j - 1)
  new_suc j h =
      ap (key_at (inserted keys i key)) {x = j} {y = suc (j - 1)} (omega arith)
      ∙ get_after keys i (j - 1) key (pos 0) inside (omega arith)

  new_key : key_at (inserted keys i key) i ≡ key
  new_key = get_at keys i key (pos 0) inside

  pub inserted-IsSorted : IsSorted (inserted keys i key)
  inserted-IsSorted a b h k =
      let size = length-inserted keys i key in
      elim (dec_lt b i) [
        | yes low ↦ rw (new_at a (omega arith), new_at b low) (sorted a b h (omega arith))
        | no high ↦ elim (ℕ_discrete b i) [
          | yes same ↦ rw (same, new_key, new_at a (omega arith)) (before a (omega arith))
          | no above ↦ elim (dec_lt a i) [
            | yes low ↦
                rw (new_at a low, new_suc b (omega arith))
                  (elim (dec_lt a (b - 1)) [
                    | yes less ↦ sorted a (b - 1) less (omega arith)
                    | no more ↦ absurd (omega arith)
                  ])
            | no not_low ↦ elim (ℕ_discrete a i) [
              | yes same ↦
                  rw (same, new_key, new_suc b (omega arith))
                    (after (b - 1) (omega arith) (omega arith))
              | no past ↦
                  rw (new_suc a (omega arith), new_suc b (omega arith))
                    (sorted (a - 1) (b - 1) (omega arith) (omega arith))
            ]
          ]
        ]
      ]

eq_refl : (a : ℤ) → (a ==ℤ a) ≡ true
eq_refl a = ground arith

pub eq_false : (a b : ℤ) → a ≢ b → (a ==ℤ b) ≡ false
eq_false a b ne = elim (Bool-cases (a ==ℤ b)) [
  | inl same ↦ absurd (ne (eq_of_==ℤ a b same))
  | inr differ ↦ differ
]

pub value_of-inserted {ℓ} :
    {E : Type ℓ} (key : ℤ) (v : ℤ × ℤ) (keys : List ℤ) (vs : List (ℤ × ℤ)) (i : ℕ)
    → length vs ≡ length keys
    → i ≤ length keys
    → ((j : ℕ) → j < i → (key_at keys j ==ℤ key) ≡ false)
    → value_of {E = E} key (inserted keys i key) (inserted vs i v) ≡ some (ok v)
unfolding value_of
value_of-inserted {E} key v keys vs zero h k ne = rw (value_of, eq_refl key)
value_of-inserted {E} key v [] vs (suc i) h k ne = absurd (omega arith)
value_of-inserted {E} key v (x ∷ keys) [] (suc i) h k ne = absurd (omega arith)
value_of-inserted {E} key v (x ∷ keys) (w ∷ vs) (suc i) h k ne =
    rw (value_of, ne 0 (omega arith))
      (value_of-inserted key v keys vs i (omega arith) (omega arith)
        (λ j l. ne (suc j) (omega arith)))

pub value_of-inserted_other {ℓ} :
    {E : Type ℓ} (key other : ℤ) (v : ℤ × ℤ) (keys : List ℤ) (vs : List (ℤ × ℤ)) (i : ℕ)
    → length vs ≡ length keys
    → i ≤ length keys
    → key ≢ other
    → value_of {E = E} other (inserted keys i key) (inserted vs i v) ≡ value_of other keys vs
unfolding value_of
value_of-inserted_other {E} key other v keys vs zero h k ne = rw (value_of, eq_false key other ne)
value_of-inserted_other {E} key other v [] vs (suc i) h k ne = absurd (omega arith)
value_of-inserted_other {E} key other v (x ∷ keys) [] (suc i) h k ne = absurd (omega arith)
value_of-inserted_other {E} key other v (x ∷ keys) (w ∷ vs) (suc i) h k ne =
    elim (Bool-cases (x ==ℤ other)) [
      | inl same ↦ rw (value_of, same)
      | inr differ ↦
          rw (value_of, differ)
            (value_of-inserted_other key other v keys vs i (omega arith) (omega arith) ne)
    ]
