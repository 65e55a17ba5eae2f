-- ===== src/Tree/Lending.antt =====
-- An entry that goes from a leaf to its neighbour before a deletion.
use fiddlers_db.Prelude.{
  ℕ, suc, ◌+◌, ◌-◌, ◌≤◌, ◌<◌, ◌≡◌, ◌≢◌, refl, sym, ◌∙◌, ap, arith, List, [], ◌∷◌, ◌++◌,
  append_assoc, length, length-append, get_elem?, get_elem?-set_self, get_elem?-set_ne, set, some,
  true,
}
use fiddlers_db.Prelude.{lt→ltb}
use fiddlers_db.Prelude.Int.{ℤ}
use fiddlers_db.Prelude.Outcome.{ok}
use fiddlers_db.Tree.{NodePage, NodeOperationError, is_leaf}
use fiddlers_db.Tree.Vec.{pop, remove_at}
use fiddlers_db.Tree.Deletion.{Trio, all_changed, assign, lend_left, lend_right}

module _ {ℓ} {A : Type ℓ} where
  pop-eq-some :
      (xs : List A)
      → 0 < length xs
      → (y : A) × (ys : List A) × (pop xs ≡ some (y, ys)) × (xs ≡ ys ++ y ∷ [])
  pop-eq-some [] h = absurd (omega arith)
  pop-eq-some (x ∷ []) h = (x, [], refl, refl)
  pop-eq-some (x ∷ z ∷ zs) h =
      let (y, ys, e, f) = pop-eq-some (z ∷ zs) (omega arith) in (y, x ∷ ys, rw e, ap (λ l. x ∷ l) f)

remove_at-eq-some {ℓ} :
    {A : Type ℓ} (xs : List A)
    → 0 < length xs
    → (y : A) × (ys : List A) × (xs ≡ y ∷ ys) × (remove_at xs 0 ≡ some (y, ys))
remove_at-eq-some [] h = absurd (omega arith)
remove_at-eq-some (x ∷ xs) h = (x, xs, refl, refl)

-- What lending does: the entries of the two leaves stay in order, the left one of them has the keys
-- `left_keys` and values `left_values`, the right one `right_keys` and `right_values`, and the
-- separator at `i` is the first key of the right one.
pub record Lent (parent : NodePage) (i : ℕ) (parent' : NodePage) (keys : List ℤ)
    (values : List (ℤ × ℤ)) (left right : NodePage) : Type 0 where
  pub keys_kept : left.keys ++ right.keys ≡ keys
  pub values_kept : left.values ++ right.values ≡ values
  pub left_counted : length left.values ≡ length left.keys
  pub right_counted : length right.values ≡ length right.keys
  pub separator : get_elem? parent'.keys i ≡ get_elem? right.keys 0
  pub others : (j : ℕ) → i ≢ j → get_elem? parent'.keys j ≡ get_elem? parent.keys j
  pub children : parent'.children ≡ parent.children

assign-eq {ℓ} :
    {E : Type ℓ} (keys : List ℤ) (i : ℕ) (k : ℤ)
    → i < length keys
    → assign {E = E} keys i k ≡ ok (set keys i k)
assign-eq {E} keys i k h = rw (lt→ltb i (length keys) h)

length-end {ℓ} :
    {A : Type ℓ} (xs ys : List A) (y : A) → xs ≡ ys ++ y ∷ [] → length xs ≡ length ys + 1
length-end xs ys y e = ap length e ∙ length-append ys (y ∷ [])

-- Of two neighbouring leaves with one value for each key, the left one lends its last entry to the
-- right one, if it has an entry and there is a separator between them. The two leaves then have the
-- same entries in the same order, the right one has one more, and its first key is the separator in
-- the parent, of which no other key and no child changes.
pub lend_left_correct :
    (parent : NodePage) (i : ℕ) (target left : NodePage)
    → is_leaf target ≡ true
    → length target.values ≡ length target.keys
    → length left.values ≡ length left.keys
    → 0 < length left.keys
    → i < length parent.keys
    → (t : Trio) × (lend_left parent (i + 1) target left ≡ ok t)
      × (length t.target.keys ≡ length target.keys + 1)
      × Lent parent i t.parent
          (left.keys ++ target.keys)
          (left.values ++ target.values)
          t.neighbour
          t.target
unfolding lend_left
lend_left_correct parent i target left leaf counted left_counted some_key inside =
    let (k, ks, popped, keys) = pop-eq-some left.keys some_key in
    let (v, vs, popped_v, values) = pop-eq-some left.values (omega arith) in
    let same : i + 1 - 1 ≡ i = omega arith in
    (
      all_changed (record parent { keys = set parent.keys i k })
          (record target { keys = k ∷ target.keys; values = v ∷ target.values })
          (record left { keys = ks; values = vs }),
      rw (leaf, popped, popped_v, same, assign-eq {E = NodeOperationError} parent.keys i k inside),
      omega arith,
      record {
        keys_kept =
            sym (append_assoc ks (k ∷ []) target.keys) ∙ ap (λ l. l ++ target.keys) (sym keys);
        values_kept =
            sym (append_assoc vs (v ∷ []) target.values)
            ∙ ap (λ l. l ++ target.values) (sym values);
        left_counted =
            omega (arith, length-end left.keys ks k keys, length-end left.values vs v values);
        right_counted = omega arith;
        separator = get_elem?-set_self parent.keys i k inside;
        others = λ j ne. get_elem?-set_ne parent.keys i j k ne;
        children = refl;
      },
    )

-- Of two neighbouring leaves with one value for each key, the right one lends its first entry to the
-- left one, if it has two entries and there is a separator between them. The two leaves then have
-- the same entries in the same order, the left one has one more, and the first key of the right one
-- is the separator in the parent, of which no other key and no child changes.
pub lend_right_correct :
    (parent : NodePage) (i : ℕ) (target right : NodePage)
    → is_leaf target ≡ true
    → length target.values ≡ length target.keys
    → length right.values ≡ length right.keys
    → 2 ≤ length right.keys
    → i < length parent.keys
    → (t : Trio) × (lend_right parent i target right ≡ ok t)
      × (length t.target.keys ≡ length target.keys + 1)
      × Lent parent i t.parent
          (target.keys ++ right.keys)
          (target.values ++ right.values)
          t.target
          t.neighbour
unfolding lend_right
lend_right_correct parent i target right leaf counted right_counted two_keys inside =
    let (k, ks, keys, removed) = remove_at-eq-some right.keys (omega arith) in
    let (v, vs, values, removed_v) = remove_at-eq-some right.values (omega arith) in
    let size : length right.keys ≡ suc (length ks) = ap length keys in
    let size_v : length right.values ≡ suc (length vs) = ap length values in
    let (first, rest, e, f) = remove_at-eq-some ks (omega arith) in
    let got : get_elem? ks 0 ≡ some first = ap (λ l. get_elem? l 0) e in
    (
      all_changed (record parent { keys = set parent.keys i first })
          (record target { keys = target.keys ++ k ∷ []; values = target.values ++ v ∷ [] })
          (record right { keys = ks; values = vs }),
      rw (
        leaf,
        removed,
        removed_v,
        got,
        assign-eq {E = NodeOperationError} parent.keys i first inside,
      ),
      length-append target.keys (k ∷ []),
      record {
        keys_kept = append_assoc target.keys (k ∷ []) ks ∙ ap (λ l. target.keys ++ l) (sym keys);
        values_kept =
            append_assoc target.values (v ∷ []) vs ∙ ap (λ l. target.values ++ l) (sym values);
        left_counted =
            omega (arith, length-append target.keys (k ∷ []), length-append target.values (v ∷ []));
        right_counted = omega arith;
        separator = get_elem?-set_self parent.keys i first inside ∙ sym got;
        others = λ j ne. get_elem?-set_ne parent.keys i j first ne;
        children = refl;
      },
    )
