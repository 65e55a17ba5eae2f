-- ===== src/Prelude/HashMap.antt =====
-- What is used of `HashMap`, as a list of entries with different keys. The order in which a map is
-- iterated is not the list's: where it matters, it is an argument.
use mathlib.Core.Path.{◌≡◌, ap, ◌∙◌}
use mathlib.Core.Bool.{Bool, true, false}
use mathlib.Core.Option.{Option, none, some}
use mathlib.Core.List.{List, [], ◌∷◌, ◌++◌}
use mathlib.Core.Logic.{inl, inr}
use fiddlers_db.Prelude.Tests.{if◌then◌else◌, Bool-cases}

module _ {ℓ κ} {K : Type ℓ} {V : Type κ} (eq : K → K → Bool) where
  -- `map.insert(key, value)`
  abbrev pub insert_entry : K → V → List (K × V) → List (K × V)
  insert_entry key value [] = (key, value) ∷ []
  insert_entry key value ((k, v) ∷ entries) =
      let rest = insert_entry key value entries in
      if eq k key then (k, value) ∷ entries else (k, v) ∷ rest

  -- `map.get(key)`
  abbrev pub get_entry : K → List (K × V) → Option V
  get_entry key [] = none
  get_entry key ((k, v) ∷ entries) =
      let rest = get_entry key entries in if eq k key then some v else rest

module _ {ℓ κ} {K : Type ℓ} {V : Type κ} (eq : K → K → Bool) where
  -- `map.entry(key).or_default().push(value)`
  abbrev pub push_entry : K → V → List (K × List V) → List (K × List V)
  push_entry key value [] = (key, value ∷ []) ∷ []
  push_entry key value ((k, vs) ∷ entries) =
      let rest = push_entry key value entries in
      if eq k key then (k, vs ++ value ∷ []) ∷ entries else (k, vs) ∷ rest

  -- What was pushed under a key.
  abbrev pub pushed : K → List (K × List V) → List V
  pushed key [] = []
  pushed key ((k, vs) ∷ entries) = let rest = pushed key entries in if eq k key then vs else rest

-- A test that decides equality.
pub record IsEquality {ℓ} {K : Type ℓ} (eq : K → K → Bool) : Type ℓ where
  pub eq_refl : (a : K) → eq a a ≡ true
  pub to_path : (a b : K) → eq a b ≡ true → a ≡ b

module _ {ℓ κ} {K : Type ℓ} {V : Type κ} (eq : K → K → Bool) (law : IsEquality eq) where
  pub pushed-push_entry_self :
      (key : K) (value : V) (entries : List (K × List V))
      → pushed eq key (push_entry eq key value entries) ≡ pushed eq key entries ++ value ∷ []
  pushed-push_entry_self key value [] = rw (law.eq_refl key)
  pushed-push_entry_self key value ((k, vs) ∷ entries) = elim (Bool-cases (eq k key)) [
    | inl same ↦ rw (push_entry, same, pushed, same)
    | inr differ ↦
        rw (push_entry, differ, pushed, differ) (pushed-push_entry_self key value entries)
  ]

  pub pushed-push_entry_ne :
      (key other : K) (value : V) (entries : List (K × List V))
      → eq key other ≡ false
      → pushed eq other (push_entry eq key value entries) ≡ pushed eq other entries
  pushed-push_entry_ne key other value [] h = rw h
  pushed-push_entry_ne key other value ((k, vs) ∷ entries) h = elim (Bool-cases (eq k key)) [
    | inl same ↦
        let e : eq k other ≡ false = ap (λ a. eq a other) (law.to_path k key same) ∙ h in
        rw (push_entry, same, pushed, e)
    | inr differ ↦ elim (Bool-cases (eq k other)) [
      | inl hit ↦ rw (push_entry, differ, pushed, hit)
      | inr miss ↦
          rw (push_entry, differ, pushed, miss) (pushed-push_entry_ne key other value entries h)
    ]
  ]
