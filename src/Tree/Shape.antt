-- ===== src/Tree/Shape.antt =====
-- src/tree/node.rs: what a B+ tree below a node is, over a pager that reads pages, and the entries
-- that it holds.
use fiddlers_db.Prelude.{
  ℕ, zero, suc, ◌<◌, ◌≡◌, refl, sym, ◌∙◌, List, [], ◌∷◌, ◌++◌, length, All, arith, Option, none,
  some, true, false, Bool-cases, inl, inr,
}
use fiddlers_db.Prelude.Int.{ℤ, ◌<ℤ◌, ◌≤ℤ◌, ◌==ℤ◌}
use fiddlers_db.Prelude.Outcome.{ok}
use fiddlers_db.Tree.{NodePage, NodePager}
use fiddlers_db.Tree.Found.{IsSorted, key_at}

-- Keys with the pointers that stand for rows, in the order of the leaves.
abbrev pub Entries : Type 0
Entries = List (ℤ × (ℤ × ℤ))

-- The abstract tree: the pointer of a key.
abbrev pub lookup : ℤ → Entries → Option (ℤ × ℤ)
lookup key [] = none
lookup key ((k, v) ∷ entries) = elim (k ==ℤ key) [ true ↦ some v | false ↦ lookup key entries ]

abbrev pub zip : List ℤ → List (ℤ × ℤ) → Entries
zip [] values = []
zip (k ∷ keys) [] = []
zip (k ∷ keys) (v ∷ values) = (k, v) ∷ zip keys values

-- The entries below a separator, and those from it on.
abbrev pub AreBelow : ℤ → Entries → Type 0
AreBelow key entries = All (λ e. e.0 <ℤ key) entries

abbrev pub AreFrom : ℤ → Entries → Type 0
AreFrom key entries = All (λ e. key ≤ℤ e.0) entries

-- A leaf and its entries.
pub record IsLeaf (node : NodePage) (entries : Entries) : Type 0 where
  pub no_children : node.children ≡ []
  pub sorted : IsSorted node.keys
  pub as_many : length node.values ≡ length node.keys
  pub all : entries ≡ zip node.keys node.values

-- `Holds` is what stays true of the pager's state while pages are read.
module _ {S : Type 0} (pager : NodePager S) (Holds : S → Type 0) where
  -- A page reads as a node, and the tree stays as it is.
  abbrev pub Reads : ℤ → NodePage → Type 0
  Reads id node = (s : S) → Holds s → (s' : S) × (pager.read_page s id ≡ ok (node, s')) × Holds s'

  -- The children of an inner node, whose keys separate their entries.
  pub data Forest (Tree : NodePage → Entries → Type 0) : List ℤ → List ℤ → Entries → Type 0 where
    last_child :
        (id : ℤ) (child : NodePage) (entries : Entries)
        → Reads id child
        → Tree child entries
        → Forest Tree [] (id ∷ []) entries
    more_children :
        (key id : ℤ) (keys children : List ℤ) (child : NodePage) (left right : Entries)
        → Reads id child
        → Tree child left
        → AreBelow key left
        → AreFrom key right
        → Forest Tree keys children right
        → Forest Tree (key ∷ keys) (id ∷ children) (left ++ right)

  -- An inner node and the entries below it.
  pub record IsInner (Tree : NodePage → Entries → Type 0) (node : NodePage) (entries : Entries)
      : Type 0 where
    pub some_keys : 0 < length node.keys
    pub sorted : IsSorted node.keys
    pub forest : Forest Tree node.keys node.children entries

  -- The tree of a height below a node. All leaves are at the same depth.
  abbrev pub IsTree : ℕ → NodePage → Entries → Type 0
  IsTree zero node entries = IsLeaf node entries × Reads node.id node
  IsTree (suc h) node entries = IsInner (IsTree h) node entries

pub lookup-append :
    (key : ℤ) (xs ys : Entries) → lookup key xs ≡ none → lookup key (xs ++ ys) ≡ lookup key ys
lookup-append key [] ys h = refl
lookup-append key ((k, v) ∷ xs) ys h = elim (Bool-cases (k ==ℤ key)) [
  | inl same ↦ let here : lookup key ((k, v) ∷ xs) ≡ some v = rw (lookup, same) in cc
  | inr differ ↦
      let step : lookup key ((k, v) ∷ xs) ≡ lookup key xs = rw (lookup, differ) in
      rw (lookup, differ) (lookup-append key xs ys (sym step ∙ h))
]

pub lookup-append_left :
    (key : ℤ) (xs ys : Entries) → lookup key ys ≡ none → lookup key (xs ++ ys) ≡ lookup key xs
lookup-append_left key [] ys h = h
lookup-append_left key ((k, v) ∷ xs) ys h = elim (Bool-cases (k ==ℤ key)) [
  | inl same ↦ rw (lookup, same)
  | inr differ ↦ rw (lookup, differ) (lookup-append_left key xs ys h)
]

pub lookup_below :
    (key bound : ℤ) (entries : Entries)
    → bound ≤ℤ key
    → AreBelow bound entries
    → lookup key entries ≡ none
lookup_below key bound [] h all = refl
lookup_below key bound ((k, v) ∷ entries) h (less, all) =
    let differ : (k ==ℤ key) ≡ false = ground arith in
    rw (lookup, differ) (lookup_below key bound entries h all)

pub lookup_from :
    (key bound : ℤ) (entries : Entries)
    → key <ℤ bound
    → AreFrom bound entries
    → lookup key entries ≡ none
lookup_from key bound [] h all = refl
lookup_from key bound ((k, v) ∷ entries) h (first, all) =
    let differ : (k ==ℤ key) ≡ false = ground arith in
    rw (lookup, differ) (lookup_from key bound entries h all)

pub lookup-zip_ne :
    (key : ℤ) (keys : List ℤ) (values : List (ℤ × ℤ))
    → ((j : ℕ) → j < length keys → (key_at keys j ==ℤ key) ≡ false)
    → lookup key (zip keys values) ≡ none
lookup-zip_ne key [] values h = refl
lookup-zip_ne key (k ∷ keys) [] h = refl
lookup-zip_ne key (k ∷ keys) (v ∷ values) h =
    rw (lookup, h 0 (omega arith))
      (lookup-zip_ne key keys values (λ j less. h (suc j) (omega arith)))
