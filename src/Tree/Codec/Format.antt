-- ===== src/Tree/Codec/Format.antt =====
-- src/tree/store.rs: the bytes of a node's page, part by part.
use fiddlers_db.Prelude.{
  ℕ, ◌+◌, ◌-◌, ◌*◌, ◌^◌, ◌≤◌, ◌≡◌, refl, sym, ap, ◌∙◌, arith, List, [], ◌∷◌, ◌++◌, append_assoc,
  length, length-append, length-replicate, replicate, replicate_add, if◌then◌else◌, le→leb, lt→ltb,
  some,
}
use fiddlers_db.Prelude.Int.{ℤ, pos, i32_min}
use fiddlers_db.Prelude.Bytes.{copy_at, i32_to_be, length-i32_to_be}
use fiddlers_db.Prelude.Slices.{copy_at_lem, copy_at_lem2, copy_at_end}
use fiddlers_db.Prelude.Outcome.{ok}
use fiddlers_db.Tree.{NodePage}
use fiddlers_db.Tree.Codec.{
  or_null, key_array_size, children_offset, values_offset, values_array_size, next_leaf_offset,
  page_size, prefill, write_i32s, serialize_node,
}
use fiddlers_db.Tree.Codec.Words.{
  words, flat, padded, length-words, length-flat, words-append, write_i32s-words, write_values-flat,
  words-replicate_zero, prefill-words, padded-replicate,
}

-- The degrees whose arrays have sizes of type `u16`.
pub record IsDegree (max_degree : ℕ) : Type 0 where
  pub at_least : 1 ≤ max_degree
  pub at_most : max_degree ≤ 8192

-- The numbers of a page, without its header.
abbrev pub place_count : ℕ → ℕ
place_count max_degree = (max_degree - 1) + (max_degree + (2 * (max_degree - 1) + 1))

module _ {ℓ} {E : Type ℓ} (max_degree : ℕ) (h : IsDegree max_degree) where
  key_array_size_lem : key_array_size {E = E} max_degree ≡ ok ((max_degree - 1) * 4)
  unfolding key_array_size
  key_array_size_lem = rw (
    le→leb 1 max_degree h.at_least,
    lt→ltb ((max_degree - 1) * 4) (2 ^ 16) (omega (arith, h.at_most)),
  )

  values_array_size_lem : values_array_size {E = E} max_degree ≡ ok ((max_degree - 1) * 8)
  unfolding values_array_size
  values_array_size_lem = rw (
    le→leb 1 max_degree h.at_least,
    lt→ltb ((max_degree - 1) * 8) (2 ^ 16) (omega (arith, h.at_most)),
  )

  pub children_offset_lem : children_offset {E = E} max_degree ≡ ok (9 + 4 * (max_degree - 1))
  unfolding children_offset
  children_offset_lem = rw (children_offset, key_array_size_lem) (ap ok (omega arith))

  pub values_offset_lem :
      values_offset {E = E} max_degree ≡ ok (9 + 4 * (max_degree - 1) + 4 * max_degree)
  unfolding values_offset
  values_offset_lem = rw (values_offset, children_offset_lem) (ap ok (omega arith))

  pub next_leaf_offset_lem :
      next_leaf_offset {E = E} max_degree
      ≡ ok (9 + 4 * (max_degree - 1) + 4 * max_degree + 4 * (2 * (max_degree - 1)))
  unfolding next_leaf_offset
  next_leaf_offset_lem =
      rw (next_leaf_offset, values_offset_lem, values_array_size_lem) (ap ok (omega arith))

  pub page_size_lem : page_size {E = E} max_degree ≡ ok (9 + 4 * place_count max_degree)
  unfolding page_size
  page_size_lem =
      rw
        (
          page_size,
          lt→ltb (max_degree * 4) (2 ^ 16) (omega (arith, h.at_most)),
          key_array_size_lem,
          values_array_size_lem,
        )
        (ap ok (omega (arith, h.at_least)))

-- Unused places.
abbrev pub unused : ℕ → List ℕ
unused k = words (replicate k i32_min)

unused-split : (i j k : ℕ) → i + j ≡ k → unused k ≡ unused i ++ unused j
unused-split i j k h =
    ap words (replicate_add i j k i32_min h)
    ∙ words-append (replicate i i32_min) (replicate j i32_min)

-- Numbers that are written into unused places.
write_region {ℓ} :
    {E : Type ℓ} (a : List ℕ) (k : ℕ) (zs : List ℤ) (c : List ℕ) (offset : ℕ)
    → length zs ≤ k
    → length a ≡ offset
    → write_i32s {E = E} (a ++ (unused k ++ c)) offset zs ≡ ok (a ++ (words (padded zs k) ++ c))
write_region {E} a k zs c offset fits at =
    let rest = k - length zs in
    let cut : unused k ++ c ≡ unused (length zs) ++ (unused rest ++ c) =
      ap (λ l. l ++ c) (unused-split (length zs) rest k (omega arith))
      ∙ append_assoc (unused (length zs)) (unused rest) c in
    let back : words zs ++ (unused rest ++ c) ≡ words (padded zs k) ++ c =
      sym (append_assoc (words zs) (unused rest) c)
      ∙ ap (λ l. l ++ c)
          (sym (words-append zs (replicate rest i32_min))
            ∙ ap words (sym (padded-replicate zs k fits))) in
    ap (λ l. write_i32s {E = E} (a ++ l) offset zs) cut
    ∙ write_i32s-words {E = E} a (replicate (length zs) i32_min) zs (unused rest ++ c) offset
        (length-replicate (length zs) i32_min) at
    ∙ ap (λ l. ok (a ++ l)) back

write_region2 {ℓ} :
    {E : Type ℓ} (a1 a2 : List ℕ) (k : ℕ) (zs : List ℤ) (c : List ℕ) (offset : ℕ)
    → length zs ≤ k
    → length a1 + length a2 ≡ offset
    → write_i32s {E = E} (a1 ++ (a2 ++ (unused k ++ c))) offset zs
      ≡ ok (a1 ++ (a2 ++ (words (padded zs k) ++ c)))
write_region2 {E} a1 a2 k zs c offset fits at =
    simp append_assoc at
      (write_region {E = E} (a1 ++ a2) k zs c offset fits (length-append a1 a2 ∙ at))

write_region3 {ℓ} :
    {E : Type ℓ} (a1 a2 a3 : List ℕ) (k : ℕ) (zs : List ℤ) (c : List ℕ) (offset : ℕ)
    → length zs ≤ k
    → length a1 + length a2 + length a3 ≡ offset
    → write_i32s {E = E} (a1 ++ (a2 ++ (a3 ++ (unused k ++ c)))) offset zs
      ≡ ok (a1 ++ (a2 ++ (a3 ++ (words (padded zs k) ++ c))))
write_region3 {E} a1 a2 a3 k zs c offset fits at =
    simp append_assoc at
      (write_region2 {E = E} a1 (a2 ++ a3) k zs c offset fits (omega (arith, length-append a2 a3)))

-- A node with places for all that it has.
pub record Fits (max_degree : ℕ) (node : NodePage) : Type 0 where
  pub keys_fit : length node.keys ≤ max_degree - 1
  pub children_fit : length node.children ≤ max_degree
  pub values_fit : length node.values ≤ max_degree - 1

-- The bytes of a page.
abbrev pub header_bytes : NodePage → List ℕ
header_bytes node =
    i32_to_be node.id
    ++ ((if node.deleted then 1 else 0) ∷ i32_to_be (or_null node.next_deleted_page))

abbrev pub payload_bytes : ℕ → NodePage → List ℕ
payload_bytes max_degree node =
    words (padded node.keys (max_degree - 1))
    ++ (words (padded node.children max_degree)
        ++ (words (padded (flat node.values) (2 * (max_degree - 1)))
            ++ i32_to_be (or_null node.next_leaf)))

pub length-header_bytes : (node : NodePage) → length (header_bytes node) ≡ 9
unfolding i32_to_be
length-header_bytes node = refl

-- The page before the header is written: its nine bytes, and the places.
empty_page :
    (size places : ℕ)
    → size ≡ 9 + 4 * places
    → replicate size 0 ≡ replicate 9 0 ++ words (replicate places (pos 0))
empty_page size places h =
    replicate_add 9 (4 * places) size 0 (sym h)
    ∙ ap (λ l. replicate 9 0 ++ l) (words-replicate_zero places)

filled_page {ℓ} :
    {E : Type ℓ} (size places : ℕ)
    → size ≡ 9 + 4 * places
    → prefill {E = E} size (replicate size 0) 9 ≡ ok (replicate 9 0 ++ unused places)
filled_page {E} size places h =
    let len = length-replicate places (pos 0) in
    ap (λ l. prefill {E = E} size l 9) (empty_page size places h)
    ∙ prefill-words {E = E} size (replicate 9 0) (replicate places (pos 0)) 9 (omega (arith, len))
        refl
    ∙ ap (λ (k : ℕ). ok (replicate 9 0 ++ unused k)) len

places_lem :
    (max_degree : ℕ)
    → unused (place_count max_degree)
      ≡ unused (max_degree - 1)
        ++ (unused max_degree ++ (unused (2 * (max_degree - 1)) ++ unused 1))
places_lem max_degree =
    let v = 2 * (max_degree - 1) in
    unused-split (max_degree - 1) (max_degree + (v + 1)) (place_count max_degree) refl
    ∙ ap (λ l. unused (max_degree - 1) ++ l)
        (unused-split max_degree (v + 1) (max_degree + (v + 1)) refl
          ∙ ap (λ l. unused max_degree ++ l) (unused-split v 1 (v + 1) refl))

module _ (node : NodePage) (w : List ℕ) where
  header1 :
      copy_at (replicate 9 0 ++ w) 0 (i32_to_be node.id)
      ≡ some (i32_to_be node.id ++ ((0 ∷ []) ++ (replicate 4 0 ++ w)))
  header1 =
      copy_at_lem [] (replicate 4 0) ((0 ∷ []) ++ (replicate 4 0 ++ w)) (i32_to_be node.id) 0 refl
        (sym (length-i32_to_be node.id))

  header2 :
      (deleted : List ℕ)
      → length deleted ≡ 1
      → copy_at (i32_to_be node.id ++ ((0 ∷ []) ++ (replicate 4 0 ++ w))) 4 deleted
        ≡ some (i32_to_be node.id ++ (deleted ++ (replicate 4 0 ++ w)))
  header2 deleted one =
      copy_at_lem (i32_to_be node.id) (0 ∷ []) (replicate 4 0 ++ w) deleted 4
        (length-i32_to_be node.id) (sym one)

  header3 :
      (deleted : ℕ) (z : ℤ)
      → copy_at (i32_to_be node.id ++ ((deleted ∷ []) ++ (replicate 4 0 ++ w))) 5 (i32_to_be z)
        ≡ some ((i32_to_be node.id ++ (deleted ∷ i32_to_be z)) ++ w)
  header3 deleted z =
      copy_at_lem2 (i32_to_be node.id) (deleted ∷ []) (replicate 4 0) w (i32_to_be z) 5
        (omega (arith, length-i32_to_be node.id)) (sym (length-i32_to_be z))
      ∙ ap some (sym (append_assoc (i32_to_be node.id) (deleted ∷ i32_to_be z) w))

-- The last place of a page.
next_leaf_written :
    (h k c v : List ℕ) (z : ℤ) (offset : ℕ)
    → length h + length k + length c + length v ≡ offset
    → copy_at (h ++ (k ++ (c ++ (v ++ unused 1)))) offset (i32_to_be z)
      ≡ some (h ++ (k ++ (c ++ (v ++ i32_to_be z))))
next_leaf_written h k c v z offset at = simp append_assoc at (
    copy_at_end (h ++ (k ++ (c ++ v))) (unused 1) (i32_to_be z) offset
      (omega (arith, length-append h (k ++ (c ++ v)), length-append k (c ++ v), length-append c v))
      (length-words (i32_min ∷ []) ∙ sym (length-i32_to_be z)))

pub length-padded : (zs : List ℤ) (n : ℕ) → length zs ≤ n → length (words (padded zs n)) ≡ 4 * n
length-padded zs n fits =
    let rest = replicate (n - length zs) i32_min in
    omega (
      arith,
      ap length (ap words (padded-replicate zs n fits)),
      length-words (zs ++ rest),
      length-append zs rest,
      length-replicate (n - length zs) i32_min,
    )

pub length-payload_bytes :
    (max_degree : ℕ) (node : NodePage)
    → Fits max_degree node
    → length (payload_bytes max_degree node) ≡ 4 * place_count max_degree
length-payload_bytes max_degree node fits =
    let k = words (padded node.keys (max_degree - 1)) in
    let c = words (padded node.children max_degree) in
    let v = words (padded (flat node.values) (2 * (max_degree - 1))) in
    let l = i32_to_be (or_null node.next_leaf) in
    omega (
      arith,
      length-append k (c ++ (v ++ l)),
      length-append c (v ++ l),
      length-append v l,
      length-padded node.keys (max_degree - 1) fits.keys_fit,
      length-padded node.children max_degree fits.children_fit,
      length-padded (flat node.values) (2 * (max_degree - 1))
          (omega (arith, length-flat node.values, fits.values_fit)),
      length-i32_to_be (or_null node.next_leaf),
    )

-- On a degree whose array sizes are `u16` numbers, a node that has places for its keys, children
-- and values is written without a panic, as its header and its numbers, one after the other, with
-- `i32::MIN` in every place that is left.
pub serialize_node_correct {ℓ} :
    {E : Type ℓ} (max_degree : ℕ) (node : NodePage)
    → IsDegree max_degree
    → Fits max_degree node
    → serialize_node {E = E} max_degree node
      ≡ ok (header_bytes node ++ payload_bytes max_degree node)
unfolding serialize_node
serialize_node_correct {E} max_degree node h fits =
    let n = max_degree - 1 in
    let deleted : List ℕ = (if node.deleted then 1 else 0) ∷ [] in
    let hd = header_bytes node in
    let k = words (padded node.keys n) in
    let c = words (padded node.children max_degree) in
    let v = words (padded (flat node.values) (2 * n)) in
    let values_fit : length (flat node.values) ≤ 2 * n =
      omega (arith, length-flat node.values, fits.values_fit) in
    let len_h = length-header_bytes node in
    let len_k = length-padded node.keys n fits.keys_fit in
    let len_c = length-padded node.children max_degree fits.children_fit in
    let len_v = length-padded (flat node.values) (2 * n) values_fit in
    let at_children : length hd + length k ≡ 9 + 4 * n = omega (arith, len_h, len_k) in
    let at_values : length hd + length k + length c ≡ 9 + 4 * n + 4 * max_degree =
      omega (arith, len_h, len_k, len_c) in
    let at_leaf : length hd + length k + length c + length v
        ≡ 9 + 4 * n + 4 * max_degree + 4 * (2 * n) =
      omega (arith, len_h, len_k, len_c, len_v) in
    let w = unused n ++ (unused max_degree ++ (unused (2 * n) ++ unused 1)) in
    rw (
      serialize_node,
      page_size_lem {E = E} max_degree h,
      filled_page {E = E} (9 + 4 * place_count max_degree) (place_count max_degree) refl,
      places_lem max_degree,
      header1 node w,
      header2 node w deleted refl,
      header3 node w (if node.deleted then 1 else 0) (or_null node.next_deleted_page),
      write_region {E = E} hd n node.keys (unused max_degree ++ (unused (2 * n) ++ unused 1)) 9
          fits.keys_fit len_h,
      children_offset_lem {E = E} max_degree h,
      write_region2 {E = E} hd k max_degree node.children (unused (2 * n) ++ unused 1) (9 + 4 * n)
          fits.children_fit at_children,
      values_offset_lem {E = E} max_degree h,
      write_values-flat {E = E} (hd ++ (k ++ (c ++ (unused (2 * n) ++ unused 1))))
          (9 + 4 * n + 4 * max_degree) node.values,
      write_region3 {E = E} hd k c (2 * n) (flat node.values) (unused 1)
          (9 + 4 * n + 4 * max_degree) values_fit at_values,
      next_leaf_offset_lem {E = E} max_degree h,
      next_leaf_written hd k c v (or_null node.next_leaf) (9 + 4 * n + 4 * max_degree + 4 * (2 * n))
          at_leaf,
    )
