-- ===== src/Tree/Found.antt =====
-- What `binary_search` answers on sorted keys.
use fiddlers_db.Prelude.{
  ℕ, zero, suc, ◌+◌, ◌-◌, ◌/◌, ◌≤◌, ◌<◌, ◌≡◌, refl, sym, ◌∙◌, arith, List, length, get_or,
  get_elem?-eq-get_or, some,
}
use fiddlers_db.Prelude.{
  ◌==◌, lt→ltb, le→ltb, le→leb, true, false, if◌then◌else◌, Bool-cases, ==_iff, inl, inr,
}
use fiddlers_db.Prelude.Int.{ℤ, pos, ltb_ℤ, ◌==ℤ◌, ◌<ℤ◌, ◌≤ℤ◌, eq_of_==ℤ}
use fiddlers_db.Prelude.Outcome.{ok}
use native.Mathlib.Decide.{dec_lt, ℕ_discrete}
use fiddlers_db.Tree.Search.{
  FindKeyResponse, greater_than_the_last, equal, less_than, Narrowed, found_at, in_range, narrow,
  scan, scan_key, after_narrow, binary_search,
}

abbrev pub key_at : List ℤ → ℕ → ℤ
key_at keys i = get_or keys i (pos 0)

-- The keys of a node in strictly ascending order.
abbrev pub IsSorted : List ℤ → Type 0
IsSorted keys = (i j : ℕ) → i < j → j < length keys → key_at keys i <ℤ key_at keys j

-- The first `n` keys are below `key`.
abbrev pub AllBelow : ℤ → List ℤ → ℕ → Type 0
AllBelow key keys n = (j : ℕ) → j < n → key_at keys j <ℤ key

-- What a response says of the keys.
abbrev pub Answers : ℤ → List ℤ → FindKeyResponse → Type 0
Answers key keys (greater_than_the_last i) = (i ≡ length keys - 1) × AllBelow key keys (length keys)
Answers key keys (equal i) = (i < length keys) × (key_at keys i ≡ key)
Answers key keys (less_than i) = (i < length keys) × (key <ℤ key_at keys i) × AllBelow key keys i

data Order (a b : ℤ) : Type 0 where
  lt : (ltb_ℤ a b ≡ true) → a <ℤ b → Order a b
  eq : (ltb_ℤ a b ≡ false) → ((a ==ℤ b) ≡ true) → a ≡ b → Order a b
  gt : (ltb_ℤ a b ≡ false) → ((a ==ℤ b) ≡ false) → b <ℤ a → Order a b

order : (a b : ℤ) → Order a b
order a b = elim (Bool-cases (ltb_ℤ a b)) [
  | inl less ↦ Order.lt less (ground arith)
  | inr more ↦ elim (Bool-cases (a ==ℤ b)) [
    | inl same ↦ Order.eq more same (eq_of_==ℤ a b same)
    | inr differ ↦ Order.gt more differ (ground arith)
  ]
]

module _ (key : ℤ) (keys : List ℤ) (sorted : IsSorted keys) where
  below_step : (i : ℕ) → AllBelow key keys i → key_at keys i <ℤ key → AllBelow key keys (i + 1)
  below_step i before here j h = elim (dec_lt j i) [
    | yes less ↦ before j less
    | no more ↦ let same : j ≡ i = omega arith in rw same here
  ]

  scan_some :
      (count i : ℕ)
      → i < length keys
      → scan (suc count) key keys i ≡ scan_key key (key_at keys i) i (scan count key keys (i + 1))
  unfolding scan
  scan_some count i h = rw (scan, get_elem?-eq-get_or keys i (pos 0) h)

  scan_lem :
      (count i high : ℕ)
      → count + i ≡ high + 1
      → high < length keys
      → key ≤ℤ key_at keys high
      → AllBelow key keys i
      → (r : FindKeyResponse) × (scan count key keys i ≡ some r) × Answers key keys r
  scan_lem zero i high e inside most before = absurd (omega (arith, before high (omega arith)))
  scan_lem (suc count) i high e inside most before = elim (order key (key_at keys i)) [
    | lt test less ↦
        (less_than i, scan_some count i (omega arith) ∙ rw test, (omega arith, less, before))
    | eq test same e' ↦
        (equal i, scan_some count i (omega arith) ∙ rw (test, same), (omega arith, sym e'))
    | gt test differ more ↦
        let (r, run, answers) =
          scan_lem count (i + 1) high (omega arith) inside most (below_step i before more) in
        (r, scan_some count i (omega arith) ∙ rw (test, differ) run, answers)
  ]

  -- What the halving loop keeps: the key is not below the range, and not above its end.
  record InRange (low high : ℕ) : Type 0 where
    ordered : low ≤ high
    inside : high < length keys
    before : AllBelow key keys low
    most : key ≤ℤ key_at keys high

  narrow_short {ℓ} :
      {E : Type ℓ} (fuel low high : ℕ)
      → low ≤ high
      → high - low ≤ 8
      → narrow {E = E} (suc fuel) key keys low high ≡ ok (in_range low high)
  unfolding narrow
  narrow_short {E} fuel low high ordered short =
      rw (narrow, le→leb low high ordered, le→ltb 8 (high - low) short)

  narrow_long {ℓ} :
      {E : Type ℓ} (fuel low high : ℕ)
      → low ≤ high
      → 8 < high - low
      → high < length keys
      → let mid = (low + high) / 2 in
        narrow {E = E} (suc fuel) key keys low high ≡ (
          if key ==ℤ key_at keys mid
          then ok (found_at mid)
          else if ltb_ℤ key (key_at keys mid)
          then narrow fuel key keys low mid
          else narrow fuel key keys (mid + 1) high)
  unfolding narrow
  narrow_long {E} fuel low high ordered long inside = rw (
    narrow,
    le→leb low high ordered,
    lt→ltb 8 (high - low) long,
    get_elem?-eq-get_or keys ((low + high) / 2) (pos 0) (omega arith),
  )

  all_before : (mid : ℕ) → mid < length keys → key_at keys mid <ℤ key → AllBelow key keys (mid + 1)
  all_before mid inside here j h = elim (dec_lt j mid) [
    | yes less ↦ omega (arith, sorted j mid less inside)
    | no more ↦ let same : j ≡ mid = omega arith in rw same here
  ]

  not_eq_of_lt : (a b : ℤ) → a <ℤ b → (a ==ℤ b) ≡ false
  not_eq_of_lt a b h = ground arith

  narrow_lem {ℓ} :
      {E : Type ℓ} (fuel low high : ℕ)
      → high - low < fuel
      → InRange low high
      → (n : Narrowed) × (narrow {E = E} fuel key keys low high ≡ ok n)
        × Answers key keys (after_narrow key keys n)
  unfolding after_narrow
  narrow_lem zero low high f h = absurd (omega arith)
  narrow_lem {E} (suc fuel) low high f h = elim (dec_lt 8 (high - low)) [
    | no short ↦
        let (r, run, answers) =
          scan_lem (high + 1 - low) low high (omega (arith, h.ordered)) h.inside h.most h.before in
        (
          in_range low high,
          narrow_short {E = E} fuel low high h.ordered (omega arith),
          rw (after_narrow, run) answers,
        )
    | yes long ↦
        let mid = (low + high) / 2 in
        let step = narrow_long {E = E} fuel low high h.ordered long h.inside in
        let mid_in : mid < length keys = omega (arith, h.inside) in
        elim (order key (key_at keys mid)) [
          | eq test same e ↦ (found_at mid, step ∙ rw same, (mid_in, sym e))
          | lt test less ↦
              let (n, run, answers) = narrow_lem {E = E} fuel low mid (omega arith) (record {
                ordered = omega arith;
                inside = mid_in;
                before = h.before;
                most = omega arith;
              }) in
              (n, step ∙ rw (not_eq_of_lt key (key_at keys mid) less, test) run, answers)
          | gt test differ more ↦
              let (n, run, answers) = narrow_lem {E = E} fuel (mid + 1) high (omega arith) (record {
                ordered = omega arith;
                inside = h.inside;
                before = all_before mid mid_in more;
                most = h.most;
              }) in
              (n, step ∙ rw (differ, test) run, answers)
        ]
  ]

  -- The last key is below the key that is searched.
  all_below :
      0 < length keys → key_at keys (length keys - 1) <ℤ key → AllBelow key keys (length keys)
  all_below some_key last j h = all_before (length keys - 1) (omega arith) last j (omega arith)

-- On keys in strictly ascending order, the search for a key ends without a panic, within the loop's
-- fuel. The answer is the index of the key; or the index of the first larger key, where the keys
-- before are smaller; or the last index, where all keys are smaller.
pub binary_search_correct {ℓ} :
    {E : Type ℓ} (key : ℤ) (keys : List ℤ)
    → IsSorted keys
    → (r : FindKeyResponse) × (binary_search {E = E} key keys ≡ ok r) × Answers key keys r
unfolding binary_search
binary_search_correct {E} key keys sorted = elim (ℕ_discrete (length keys) 0) [
  | yes empty ↦ (
    greater_than_the_last (length keys - 1),
    rw ((==_iff (length keys) 0).1 empty),
    (refl, λ j h. absurd (omega arith)),
  )
  | no some_key ↦
      let last = length keys - 1 in
      let empty : (length keys == 0) ≡ false = ground arith in
      let got = get_elem?-eq-get_or keys last (pos 0) (omega arith) in
      elim (Bool-cases (ltb_ℤ (key_at keys last) key)) [
        | inl above ↦ (
          greater_than_the_last last,
          rw (empty, got, above),
          (refl, all_below key keys sorted (omega arith) (ground arith)),
        )
        | inr inside ↦
            let (n, run, answers) =
              narrow_lem key keys sorted {E = E} (length keys) 0 last (omega arith) (record {
                ordered = omega arith;
                inside = omega arith;
                before = λ j h. absurd (omega arith);
                most = ground arith;
              }) in
            (after_narrow key keys n, rw (empty, got, inside, run), answers)
      ]
]
