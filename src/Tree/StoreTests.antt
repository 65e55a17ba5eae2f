-- ===== src/Tree/StoreTests.antt =====
-- A B+ tree in a file, with a cache of one node, and uses of the theorems on the pager and the
-- store.
use fiddlers_db.Prelude.{
  ℕ, ◌≡◌, ◌≢◌, ◌<◌, refl, sym, ap, All, ◌∙◌, inl, inr, arith, true, false, Option, none, some, List,
  [], ◌∷◌, ◌++◌, replicate, if◌then◌else◌, Bool-cases,
}
use fiddlers_db.Prelude.Int.{ℤ, pos, i32_min, ◌==ℤ◌, eq_of_==ℤ}
use fiddlers_db.Prelude.Bytes.{i32_to_be, u32_to_be, u32_from_be, i32_from_be, slice}
use fiddlers_db.Prelude.Outcome.{ok, panic, ◌>>=◌}
use fiddlers_db.Store.FileStore.{read_at}
use fiddlers_db.Tree.{NodePage, read_i32_with_null}
use fiddlers_db.Tree.Codec.{
  serialize_node, deserialize_node, page_size, key_array_size, values_array_size, children_offset,
  values_offset, next_leaf_offset, read_node_i32, read_i32s, read_values,
}
use fiddlers_db.Tree.Codec.Format.{IsDegree, Fits, header_bytes, payload_bytes}
use fiddlers_db.Tree.Codec.RoundTrip.{
  HoldsStorable, deserialize_node-serialize_node, deserialize_node_loses_keys,
}
use fiddlers_db.Tree.Pager.{Cache, PagerState, read_file, page_offset, write_page, node_pager}
use fiddlers_db.Tree.MetaData.{StoreMetaData}
use fiddlers_db.Tree.Shape.{IsTree, Reads, lookup, more_children, last_child}
use fiddlers_db.Tree.BTree.{find, save_metadata, new_store, root}
use fiddlers_db.Tree.BTree.Reopen.{new_store-save_metadata}
use fiddlers_db.Tree.BTree.TooLarge.{root_panics}
use fiddlers_db.Tree.BTree.Found.{Stored, read_file-Reads, find_correct}
use fiddlers_db.Tree.Codec.Words.{IsStorable}
use fiddlers_db.Tree.LookupTests.{left_entries, right_entries, one-IsSorted, two-IsSorted}
use fiddlers_db.Tree.Pager.Coherent.{
  CacheLaws, IsCoherent, IsWritable, ReadsAs, read_page-write_changed,
}
use fiddlers_db.Tree.Tests.{left_leaf, right_leaf, parent}

-- A cache of the node that was inserted last.
abbrev get_one : Option (ℤ × NodePage) → ℤ → Option NodePage × Option (ℤ × NodePage)
get_one none id = (none, none)
get_one (some (k, node)) id = ((if k ==ℤ id then some node else none), some (k, node))

abbrev pub one_node : Cache (Option (ℤ × NodePage))
one_node = record { new_cache = none; get = get_one; insert = λ c id node. some (id, node) }

get_one_has :
    (c : Option (ℤ × NodePage)) (id : ℤ) (node : NodePage)
    → (get_one c id).0 ≡ some node
    → c ≡ some (id, node)
get_one_has none id node h = cc
get_one_has (some (k, n)) id node h = elim (Bool-cases (k ==ℤ id)) [
  | inl same ↦
      let e : k ≡ id = eq_of_==ℤ k id same in
      let f : some n ≡ some node =
        ap (λ b. if b then some n else none) {x = true} {y = k ==ℤ id} (ground arith) ∙ h in
      cc
  | inr differ ↦
      let f : none ≡ some node =
        ap (λ b. if b then some n else none) {x = false} {y = k ==ℤ id} (ground arith) ∙ h in
      cc
]

get_one_keeps : (c : Option (ℤ × NodePage)) (id : ℤ) → (get_one c id).1 ≡ c
get_one_keeps none id = refl
get_one_keeps (some (k, n)) id = refl

pub one_node_laws : CacheLaws one_node
one_node_laws = record {
  Has = λ c id node. c ≡ some (id, node);
  get_has = get_one_has;
  get_keeps = λ c id other node h. sym (get_one_keeps c id) ∙ h;
  insert_has = λ c id other new node h. inl (cc, cc);
  new_has = λ id node h. cc;
}

abbrev pub tree_file : List ℕ
tree_file =
    replicate 14 0
    ++ ((header_bytes left_leaf ++ payload_bytes 4 left_leaf)
        ++ ((header_bytes right_leaf ++ payload_bytes 4 right_leaf)
            ++ (header_bytes parent ++ payload_bytes 4 parent)))

pub left_read : read_file one_node 4 tree_file (pos 0) ≡ ok left_leaf
unfolding read_file page_size key_array_size values_array_size page_offset read_at deserialize_node
    children_offset values_offset next_leaf_offset read_node_i32 read_i32s read_values
    read_i32_with_null i32_to_be u32_to_be u32_from_be i32_from_be slice
left_read = refl

right_read : read_file one_node 4 tree_file (pos 1) ≡ ok right_leaf
unfolding read_file page_size key_array_size values_array_size page_offset read_at deserialize_node
    children_offset values_offset next_leaf_offset read_node_i32 read_i32s read_values
    read_i32_with_null i32_to_be u32_to_be u32_from_be i32_from_be slice
right_read = refl

parent_read : read_file one_node 4 tree_file (pos 2) ≡ ok parent
unfolding read_file page_size key_array_size values_array_size page_offset read_at deserialize_node
    children_offset values_offset next_leaf_offset read_node_i32 read_i32s read_values
    read_i32_with_null i32_to_be u32_to_be u32_from_be i32_from_be slice
parent_read = refl

pub four-IsDegree : IsDegree 4
four-IsDegree = record { at_least = omega arith; at_most = omega arith }

left-Fits : Fits 4 left_leaf
left-Fits = record { keys_fit = omega arith; children_fit = omega arith; values_fit = omega arith }

pub small : (n : ℕ) → n < 100 → IsStorable (pos n)
small n h = ((omega arith, omega arith), ground arith)

left_storable : HoldsStorable left_leaf
left_storable = record {
  id_ok = small 0 (omega arith);
  next_deleted_ok = tt;
  children_ok = tt;
  values_ok = (
    (small 1 (omega arith), small 0 (omega arith)),
    ((small 1 (omega arith), small 1 (omega arith)), tt),
  );
  next_leaf_ok = tt;
}

left_keys : All IsStorable left_leaf.keys
left_keys = (small 1 (omega arith), (small 3 (omega arith), tt))

deserialize_node-serialize_node_example :
    (serialize_node 4 left_leaf >>= λ bytes. deserialize_node bytes 4)
    ≡ ok (record left_leaf { max_degree = 4; changed = false })
deserialize_node-serialize_node_example =
    deserialize_node-serialize_node 4 left_leaf four-IsDegree left-Fits left_storable left_keys

-- The leaf with a smallest number as its first key.
abbrev least_leaf : NodePage
least_leaf = record left_leaf { keys = i32_min ∷ pos 3 ∷ [] }

deserialize_node_loses_keys_example :
    (serialize_node 4 least_leaf >>= λ bytes. deserialize_node bytes 4)
    ≡ ok (record least_leaf { keys = []; max_degree = 4; changed = false })
deserialize_node_loses_keys_example =
    deserialize_node_loses_keys 4 least_leaf (pos 3 ∷ []) four-IsDegree
      (record { keys_fit = omega arith; children_fit = omega arith; values_fit = omega arith })
      (record {
        id_ok = left_storable.id_ok;
        next_deleted_ok = tt;
        children_ok = tt;
        values_ok = left_storable.values_ok;
        next_leaf_ok = tt;
      })
      refl

abbrev pub tree_meta_data : StoreMetaData
tree_meta_data = record {
  max_degree = 4;
  number_of_pages = 3;
  first_deleted_page = none;
  root = some (pos 2);
  changed = false;
  unique_index = true;
}

abbrev pub tree_state : PagerState (Option (ℤ × NodePage))
tree_state = record { file = tree_file; cache = none; meta_data = tree_meta_data }

empty-IsCoherent : IsCoherent one_node one_node_laws tree_state
empty-IsCoherent id node has = absurd (one_node_laws.new_has id node has)

-- The leaf with a third key.
abbrev new_leaf : NodePage
new_leaf = record left_leaf { changed = true }

new_leaf-IsWritable : IsWritable 4 new_leaf
new_leaf-IsWritable = record {
  fits = record { keys_fit = omega arith; children_fit = omega arith; values_fit = omega arith };
  storable = record {
    id_ok = left_storable.id_ok;
    next_deleted_ok = tt;
    children_ok = tt;
    values_ok = left_storable.values_ok;
    next_leaf_ok = tt;
  };
  keys_storable = left_keys;
  same_degree = refl;
  not_deleted = refl;
}

read_page-write_changed_example :
    (s' : PagerState (Option (ℤ × NodePage))) × (write_page one_node tree_state new_leaf ≡ ok s')
    × IsCoherent one_node one_node_laws s'
    × (s'.meta_data ≡ tree_meta_data)
    × ReadsAs one_node s' (pos 0) (record new_leaf { changed = false })
    × ((other : ℤ) (found : NodePage)
        → pos 0 ≢ other
        → read_file one_node 4 tree_file other ≡ ok found
        → ReadsAs one_node s' other found)
read_page-write_changed_example =
    read_page-write_changed one_node one_node_laws tree_state new_leaf 0 four-IsDegree
      new_leaf-IsWritable refl refl empty-IsCoherent

abbrev TreeHolds : PagerState (Option (ℤ × NodePage)) → Type 0
TreeHolds = Stored one_node one_node_laws tree_file tree_meta_data

left-Reads : Reads (node_pager one_node) TreeHolds (pos 0) left_leaf
left-Reads =
    read_file-Reads one_node one_node_laws tree_file tree_meta_data (pos 0) left_leaf left_read

right-Reads : Reads (node_pager one_node) TreeHolds (pos 1) right_leaf
right-Reads =
    read_file-Reads one_node one_node_laws tree_file tree_meta_data (pos 1) right_leaf right_read

-- The tree of the parent and its leaves.
parent_stored-IsTree :
    IsTree (node_pager one_node) TreeHolds 1 parent (left_entries ++ right_entries)
parent_stored-IsTree = record {
  some_keys = omega arith;
  sorted = one-IsSorted;
  forest =
      more_children (pos 5) (pos 0) [] (pos 1 ∷ []) left_leaf left_entries right_entries left-Reads
        (
          record { no_children = refl; sorted = two-IsSorted; as_many = refl; all = refl },
          left-Reads,
        )
        (omega arith, (omega arith, tt)) (omega arith, tt)
        (last_child (pos 1) right_leaf right_entries right-Reads (
          record { no_children = refl; sorted = one-IsSorted; as_many = refl; all = refl },
          right-Reads,
        ));
}

find_correct_example :
    (s' : PagerState (Option (ℤ × NodePage))) × (find one_node 2 tree_state (pos 3)
      ≡ ok (lookup (pos 3) (left_entries ++ right_entries), s'))
    × Stored one_node one_node_laws tree_file tree_meta_data s'
find_correct_example =
    find_correct one_node one_node_laws tree_file tree_meta_data tree_state (pos 2) parent 1 2
      (left_entries ++ right_entries) (pos 3)
      (record { coherent = empty-IsCoherent; same_file = refl; same_meta_data = refl }) refl
      parent_read parent_stored-IsTree (omega arith)

abbrev changed_state : PagerState (Option (ℤ × NodePage))
changed_state = record tree_state { meta_data = record tree_meta_data { changed = true } }

new_store-save_metadata_example :
    (s' : PagerState (Option (ℤ × NodePage))) × (save_metadata one_node changed_state ≡ ok s')
    × (new_store one_node (some s'.file) 6
        ≡ ok (record {
          file = s'.file;
          cache = none;
          meta_data = record tree_meta_data { changed = false; unique_index = true };
        }))
new_store-save_metadata_example =
    new_store-save_metadata one_node changed_state 6
      (record {
        degree_u16 = omega arith;
        pages_u32 = omega arith;
        deleted_ok = tt;
        root_ok = small 2 (omega arith);
      })
      refl (omega arith) (omega arith)

root_panics_example :
    (s : PagerState (Option (ℤ × NodePage))) × (new_store one_node none 10000 ≡ ok s)
    × (root one_node s ≡ panic)
root_panics_example = root_panics one_node 10000 (omega arith) (omega arith)
