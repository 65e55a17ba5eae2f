-- ===== src/Tree/Codec.antt =====
-- src/tree/store.rs: the bytes of a node's page and of the metadata header. A node of degree `m`
-- has at most `m - 1` keys and values, and `m` children; unused places have the value `i32::MIN`.
pub mod Words
pub mod Format
pub mod RoundTrip
use fiddlers_db.Prelude.{
  ℕ, zero, suc, ◌+◌, ◌-◌, ◌*◌, ◌^◌, Bool, true, false, not, ◌&&◌, Option, none, some, List, [], ◌∷◌,
  length, replicate, get_elem?, ltb, ◌==◌, if◌then◌else◌,
}
use fiddlers_db.Prelude.Int.{ℤ, pos, i32_min, ◌==ℤ◌}
use fiddlers_db.Prelude.Bytes.{
  slice, copy_at, u16_to_be, u16_from_be, u32_to_be, u32_from_be, i32_to_be, i32_from_be,
}
use fiddlers_db.Prelude.Outcome.{
  Outcome, ok, err, panic, ◌>>=◌, ◌>>◌, or_panic, ok_or, ensure, checked_sub, checked_mul,
}
use fiddlers_db.Tree.{
  NodePage, NodePagerError, invalid_node_page, corrupted_page, read_i32_with_null,
}

-- `get_i32_be_bytes_from_option`: the value, or `i32::MIN`.
abbrev pub or_null : Option ℤ → ℤ
or_null none = i32_min
or_null (some z) = z

abbrev pub pos_page_id : ℕ
pos_page_id = 0

abbrev pub pos_deleted : ℕ
pos_deleted = 4

abbrev pub pos_next_deleted_page : ℕ
pos_next_deleted_page = 5

abbrev pub next_leaf_size : ℕ
next_leaf_size = 4

abbrev pub page_header_size : ℕ
page_header_size = 9

abbrev pub meta_data_header_size : ℕ
meta_data_header_size = 14

abbrev pub key_offset : ℕ
key_offset = 9

-- The sizes of the arrays of a node; the degree is a `u16`, and so are two of the products.
module _ {ℓ} {E : Type ℓ} where
  -- `key_array_size`
  unfoldable pub key_array_size : ℕ → Outcome E ℕ
  key_array_size max_degree = checked_sub max_degree 1 >>= λ n. checked_mul (2 ^ 16) n 4

  -- `children_offset`
  unfoldable pub children_offset : ℕ → Outcome E ℕ
  children_offset max_degree = key_array_size max_degree >>= λ n. ok (key_offset + n)

  -- `values_offset`
  unfoldable pub values_offset : ℕ → Outcome E ℕ
  values_offset max_degree = children_offset max_degree >>= λ n. ok (n + max_degree * 4)

  -- `values_array_size`
  unfoldable pub values_array_size : ℕ → Outcome E ℕ
  values_array_size max_degree = checked_sub max_degree 1 >>= λ n. checked_mul (2 ^ 16) n 8

  -- `next_leaf_offset`
  unfoldable pub next_leaf_offset : ℕ → Outcome E ℕ
  next_leaf_offset max_degree = do
    offset ← values_offset max_degree
    size ← values_array_size max_degree
    ok (offset + size)

  -- `NodePager::page_size`
  unfoldable pub page_size : ℕ → Outcome E ℕ
  page_size max_degree = do
    children ← checked_mul (2 ^ 16) max_degree 4
    keys ← key_array_size max_degree
    values ← values_array_size max_degree
    ok (children + keys + values + next_leaf_size + page_header_size)

  -- The loop that fills the places of the page with `i32::MIN`, from an offset on.
  unfoldable pub prefill : ℕ → List ℕ → ℕ → Outcome E (List ℕ)
  prefill zero data_ offset = ok data_
  prefill (suc rounds) data_ offset =
      let fill = do
        data' ← or_panic (copy_at data_ offset (i32_to_be i32_min))
        prefill rounds data' (offset + 4)
      in if ltb offset (length data_) then fill else ok data_

  -- The loops that write keys and children: consecutive numbers.
  unfoldable pub write_i32s : List ℕ → ℕ → List ℤ → Outcome E (List ℕ)
  write_i32s data_ offset [] = ok data_
  write_i32s data_ offset (z ∷ zs) = do
    data' ← or_panic (copy_at data_ offset (i32_to_be z))
    write_i32s data' (offset + 4) zs

  -- The loop that writes values.
  unfoldable pub write_values : List ℕ → ℕ → List (ℤ × ℤ) → Outcome E (List ℕ)
  write_values data_ offset [] = ok data_
  write_values data_ offset ((a, b) ∷ values) = do
    data1 ← or_panic (copy_at data_ offset (i32_to_be a))
    data2 ← or_panic (copy_at data1 (offset + 4) (i32_to_be b))
    write_values data2 (offset + 8) values

  -- The bytes of a page, as `NodePager::write_page` builds them.
  unfoldable pub serialize_node : ℕ → NodePage → Outcome E (List ℕ)
  serialize_node max_degree node = do
    size ← page_size max_degree
    filled ← prefill size (replicate size 0) key_offset
    data1 ← or_panic (copy_at filled pos_page_id (i32_to_be node.id))
    data2 ← or_panic (copy_at data1 pos_deleted ((if node.deleted then 1 else 0) ∷ []))
    data3 ←
        or_panic (copy_at data2 pos_next_deleted_page (i32_to_be (or_null node.next_deleted_page)))
    data4 ← write_i32s data3 key_offset node.keys
    child_offset ← children_offset max_degree
    data5 ← write_i32s data4 child_offset node.children
    value_offset ← values_offset max_degree
    data6 ← write_values data5 value_offset node.values
    leaf_offset ← next_leaf_offset max_degree
    or_panic (copy_at data6 leaf_offset (i32_to_be (or_null node.next_leaf)))

-- `read_node_i32`
unfoldable pub read_node_i32 : List ℕ → ℕ → Outcome NodePagerError ℤ
read_node_i32 page_bytes start = do
  bytes ← ok_or corrupted_page (slice page_bytes start (start + 4))
  ok_or corrupted_page (i32_from_be bytes)

-- The loops of `NodePage::try_from` over keys and children: at most `count` numbers, up to the
-- first `i32::MIN`.
unfoldable pub read_i32s : ℕ → List ℕ → ℕ → Outcome NodePagerError (List ℤ)
read_i32s zero page_bytes offset = ok []
read_i32s (suc count) page_bytes offset = do
  raw_value ← read_node_i32 page_bytes offset
  elim (read_i32_with_null raw_value) [
    | none ↦ ok []
    | some z ↦ read_i32s count page_bytes (offset + 4) >>= λ zs. ok (z ∷ zs)
  ]

-- The loop over values.
unfoldable pub read_values : ℕ → List ℕ → ℕ → Outcome NodePagerError (List (ℤ × ℤ))
read_values zero page_bytes offset = ok []
read_values (suc count) page_bytes offset = do
  val1 ← read_node_i32 page_bytes offset
  val2 ← read_node_i32 page_bytes (offset + 4)
  let more = read_values count page_bytes (offset + 8) >>= λ vs. ok ((val1, val2) ∷ vs)
  if not (val1 ==ℤ i32_min) && not (val2 ==ℤ i32_min) then more else ok []

-- `TryFrom<(Vec<u8>, u16)> for NodePage`, with `NodePage::new_from_store`
unfoldable pub deserialize_node : List ℕ → ℕ → Outcome NodePagerError NodePage
deserialize_node page_bytes max_degree = do
  page_id ← read_node_i32 page_bytes pos_page_id
  ensure (not (page_id ==ℤ i32_min)) invalid_node_page
  deleted ← or_panic (get_elem? page_bytes pos_deleted)
  next_deleted_page ← read_node_i32 page_bytes pos_next_deleted_page
  key_count ← checked_sub max_degree 1
  keys ← read_i32s key_count page_bytes key_offset
  child_offset ← children_offset max_degree
  children ← read_i32s max_degree page_bytes child_offset
  value_offset ← values_offset max_degree
  values ← read_values key_count page_bytes value_offset
  leaf_offset ← next_leaf_offset max_degree
  next_leaf ← read_node_i32 page_bytes leaf_offset
  ok (record {
    id = page_id;
    deleted = not (deleted == 0);
    next_deleted_page = read_i32_with_null next_deleted_page;
    keys = keys;
    children = children;
    values = values;
    next_leaf = read_i32_with_null next_leaf;
    max_degree = max_degree;
    changed = false;
  })
