-- ===== src/Tree/Codec/RoundTrip.antt =====
-- src/tree/store.rs: a node is read from the bytes that were written.
use fiddlers_db.Prelude.{
  ℕ, ◌+◌, ◌-◌, ◌*◌, ◌≡◌, refl, sym, ap, ◌∙◌, arith, Bool, true, false, not, ◌==◌, if◌then◌else◌,
  Option, none, some, List, [], ◌∷◌, suc, ◌++◌, append-nil, append_assoc, length, drop, get_elem?,
  All, le→leb,
}
use fiddlers_db.Prelude.Int.{ℤ, i32_min, IsI32}
use fiddlers_db.Prelude.Bytes.{i32_to_be}
use fiddlers_db.Prelude.Slices.{drop_step}
use fiddlers_db.Prelude.Outcome.{ok, ◌>>=◌}
use fiddlers_db.Tree.{NodePage, NodePagerError, read_i32_with_null}
use fiddlers_db.Tree.Codec.{
  or_null, serialize_node, deserialize_node, read_node_i32, read_i32s, read_values,
}
use fiddlers_db.Tree.Codec.Words.{
  words, flat, padded, length-flat, IsStorable, read_node_i32-at, read_i32s-padded, read_i32s_null,
  read_values-padded, read_i32_with_null_storable, read_i32_with_null_min,
}
use fiddlers_db.Tree.Codec.Format.{
  IsDegree, Fits, header_bytes, payload_bytes, children_offset_lem, values_offset_lem,
  next_leaf_offset_lem, serialize_node_correct, length-padded,
}

-- An optional number that a place can hold.
abbrev pub IsStorableOption : Option ℤ → Type 0
IsStorableOption none = Unit
IsStorableOption (some z) = IsStorable z

-- A node whose numbers, its keys aside, are all stored as such.
pub record HoldsStorable (node : NodePage) : Type 0 where
  pub id_ok : IsStorable node.id
  pub next_deleted_ok : IsStorableOption node.next_deleted_page
  pub children_ok : All IsStorable node.children
  pub values_ok : All (λ v. IsStorable v.0 × IsStorable v.1) node.values
  pub next_leaf_ok : IsStorableOption node.next_leaf

flag : (b : Bool) → not ((if b then 1 else 0) == 0) ≡ b
flag true = refl
flag false = refl

pub or_null-IsI32 : (o : Option ℤ) → IsStorableOption o → IsI32 (or_null o)
or_null-IsI32 none h = (omega arith, omega arith)
or_null-IsI32 (some z) h = h.0

pub read_or_null : (o : Option ℤ) → IsStorableOption o → read_i32_with_null (or_null o) ≡ o
read_or_null none h = read_i32_with_null_min
read_or_null (some z) h = read_i32_with_null_storable z h.1

-- What follows a part of known length.
pub after_part :
    (buf a b : List ℕ) (offset l next : ℕ)
    → drop offset buf ≡ a ++ b
    → length a ≡ l
    → offset + l ≡ next
    → drop next buf ≡ b
after_part buf a b offset l next h len at =
    ap (λ (k : ℕ). drop k buf) {x = next} {y = offset + length a} (omega arith)
    ∙ drop_step buf a b offset h

module _ (max_degree : ℕ) (node : NodePage) (degree : IsDegree max_degree)
    (fits : Fits max_degree node) (good : HoldsStorable node) where
  abbrev page_bytes : List ℕ
  page_bytes = header_bytes node ++ payload_bytes max_degree node

  id_read : read_node_i32 page_bytes 0 ≡ ok node.id
  id_read =
      read_node_i32-at page_bytes 0 node.id _ (append_assoc (i32_to_be node.id) _ _) good.id_ok.0

  deleted_read : get_elem? page_bytes 4 ≡ some (if node.deleted then 1 else 0)
  unfolding i32_to_be
  deleted_read = refl

  next_deleted_read : read_node_i32 page_bytes 5 ≡ ok (or_null node.next_deleted_page)
  unfolding i32_to_be
  next_deleted_read =
      read_node_i32-at page_bytes 5 (or_null node.next_deleted_page) (payload_bytes max_degree node)
        refl (or_null-IsI32 node.next_deleted_page good.next_deleted_ok)

  at_payload : drop 9 page_bytes ≡ payload_bytes max_degree node
  unfolding i32_to_be
  at_payload = refl

  keys_read : All IsStorable node.keys → read_i32s (max_degree - 1) page_bytes 9 ≡ ok node.keys
  keys_read keys_ok =
      read_i32s-padded (max_degree - 1) page_bytes 9 node.keys _ fits.keys_fit keys_ok at_payload

  no_keys_read :
      (keys : List ℤ) → node.keys ≡ i32_min ∷ keys → read_i32s (max_degree - 1) page_bytes 9 ≡ ok []
  no_keys_read keys e =
      let some_place : max_degree - 1 ≡ suc (max_degree - 2) =
        omega (arith, ap length e, fits.keys_fit) in
      let places : padded node.keys (max_degree - 1) ≡ i32_min ∷ padded keys (max_degree - 2) =
        rw (e, some_place) in
      let first =
        at_payload
        ∙ ap
            (λ l.
              words l
              ++ (words (padded node.children max_degree)
                  ++ (words (padded (flat node.values) (2 * (max_degree - 1)))
                      ++ i32_to_be (or_null node.next_leaf))))
            places in
      ap (λ (k : ℕ). read_i32s k page_bytes 9) some_place
      ∙ read_i32s_null (max_degree - 2) page_bytes 9 _
          (first ∙ append_assoc (i32_to_be i32_min) (words (padded keys (max_degree - 2))) _)

  at_children :
      drop (9 + 4 * (max_degree - 1)) page_bytes
      ≡ words (padded node.children max_degree)
        ++ (words (padded (flat node.values) (2 * (max_degree - 1)))
            ++ i32_to_be (or_null node.next_leaf))
  at_children =
      after_part page_bytes (words (padded node.keys (max_degree - 1))) _ 9 (4 * (max_degree - 1))
        (9 + 4 * (max_degree - 1)) at_payload
        (length-padded node.keys (max_degree - 1) fits.keys_fit) refl

  children_read : read_i32s max_degree page_bytes (9 + 4 * (max_degree - 1)) ≡ ok node.children
  children_read =
      read_i32s-padded max_degree page_bytes (9 + 4 * (max_degree - 1)) node.children _
        fits.children_fit good.children_ok at_children

  at_values :
      drop (9 + 4 * (max_degree - 1) + 4 * max_degree) page_bytes
      ≡ words (padded (flat node.values) (2 * (max_degree - 1)))
        ++ i32_to_be (or_null node.next_leaf)
  at_values =
      after_part page_bytes (words (padded node.children max_degree)) _ (9 + 4 * (max_degree - 1))
        (4 * max_degree) (9 + 4 * (max_degree - 1) + 4 * max_degree) at_children
        (length-padded node.children max_degree fits.children_fit) refl

  values_read :
      read_values (max_degree - 1) page_bytes (9 + 4 * (max_degree - 1) + 4 * max_degree)
      ≡ ok node.values
  values_read =
      read_values-padded (max_degree - 1) (2 * (max_degree - 1)) page_bytes
        (9 + 4 * (max_degree - 1) + 4 * max_degree) node.values _ refl fits.values_fit
        good.values_ok at_values

  next_leaf_read :
      read_node_i32 page_bytes
        (9 + 4 * (max_degree - 1) + 4 * max_degree + 4 * (2 * (max_degree - 1)))
      ≡ ok (or_null node.next_leaf)
  next_leaf_read =
      let offset = 9 + 4 * (max_degree - 1) + 4 * max_degree in
      let values = padded (flat node.values) (2 * (max_degree - 1)) in
      let at =
        after_part page_bytes (words values) (i32_to_be (or_null node.next_leaf)) offset
          (4 * (2 * (max_degree - 1))) (offset + 4 * (2 * (max_degree - 1))) at_values
          (length-padded (flat node.values) (2 * (max_degree - 1))
            (omega (arith, length-flat node.values, fits.values_fit)))
          refl in
      read_node_i32-at page_bytes (offset + 4 * (2 * (max_degree - 1))) (or_null node.next_leaf) []
        (at ∙ sym (append-nil (i32_to_be (or_null node.next_leaf))))
        (or_null-IsI32 node.next_leaf good.next_leaf_ok)

  deserialize_node_lem :
      (keys : List ℤ)
      → read_i32s (max_degree - 1) page_bytes 9 ≡ ok keys
      → deserialize_node page_bytes max_degree
        ≡ ok (record node { keys = keys; max_degree = max_degree; changed = false })
  unfolding deserialize_node
  deserialize_node_lem keys read = rw (
    deserialize_node,
    id_read,
    good.id_ok.1,
    deleted_read,
    next_deleted_read,
    le→leb 1 max_degree degree.at_least,
    read,
    children_offset_lem {E = NodePagerError} max_degree degree,
    children_read,
    values_offset_lem {E = NodePagerError} max_degree degree,
    values_read,
    next_leaf_offset_lem {E = NodePagerError} max_degree degree,
    next_leaf_read,
    flag node.deleted,
    read_or_null node.next_deleted_page good.next_deleted_ok,
    read_or_null node.next_leaf good.next_leaf_ok,
  )

-- On a degree whose array sizes are `u16` numbers, a node is read from the bytes it is written as,
-- with the flag `changed` unset, if it has places for all that it holds, and none of its numbers is
-- `i32::MIN`.
pub deserialize_node-serialize_node :
    (max_degree : ℕ) (node : NodePage)
    → IsDegree max_degree
    → Fits max_degree node
    → HoldsStorable node
    → All IsStorable node.keys
    → (serialize_node max_degree node >>= λ bytes. deserialize_node bytes max_degree)
      ≡ ok (record node { max_degree = max_degree; changed = false })
deserialize_node-serialize_node max_degree node degree fits good keys_ok =
    rw (serialize_node_correct {E = NodePagerError} max_degree node degree fits) (
      deserialize_node_lem max_degree node degree fits good node.keys
        (keys_read max_degree node degree fits good keys_ok))

-- A node whose first key is `i32::MIN` is written without an error, and is read without its keys,
-- though with its children and values.
pub deserialize_node_loses_keys :
    (max_degree : ℕ) (node : NodePage) (keys : List ℤ)
    → IsDegree max_degree
    → Fits max_degree node
    → HoldsStorable node
    → node.keys ≡ i32_min ∷ keys
    → (serialize_node max_degree node >>= λ bytes. deserialize_node bytes max_degree)
      ≡ ok (record node { keys = []; max_degree = max_degree; changed = false })
deserialize_node_loses_keys max_degree node keys degree fits good e =
    rw (serialize_node_correct {E = NodePagerError} max_degree node degree fits) (
      deserialize_node_lem max_degree node degree fits good []
        (no_keys_read max_degree node degree fits good keys e))
