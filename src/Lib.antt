-- ===== src/Lib.antt =====
-- fiddlers-db: a small relational database. Rows are stored in slotted pages of heap files, a free
-- space map finds a page with room for a row, and B+ trees index integer columns.
--
-- The parts, and the modules that model them:
-- - Prelude: lists, integers and bytes over the native numbers, and `Outcome`, what a call ends
--   with: a value, an error value, or a panic.
-- - Schema (src/schema/mod.rs) and Schema.Row (src/schema/table.rs): columns, rows, their
--   validation and their bytes. A Rust `String` is the list of its UTF-8 bytes (Schema.Utf8).
-- - Page (src/data/page.rs): the slotted page. `insert_record`, `write_record`, `delete_record` and
--   `read_slot` have the names of the methods; Page.Codec has `serialize` and `deserialize`,
--   Page.Metadata the metadata of a file, Page.Valid the invariant `IsValid` of a page,
--   Page.Iterator the iterator over records.
-- - Store (src/store/mod.rs) is the interface of a page store, and Store.FileStore
--   (src/store/file_store.rs) the store over files, where a file is a list of bytes. The interface is
--   the parameter of the free space map, and `file_store` fills it. Store.Rows has the iterators over
--   the rows of pages.
-- - FreeSpace.BinaryTree (src/freespace/binary_tree.rs): one page of the free space map.
--   FreeSpace.Fsm (src/freespace/fsm.rs): the tree of these pages, over a `Store`. A heap page
--   belongs to the slot that `heap_page_id_to_addr` gives.
-- - Tree (src/tree/node.rs, src/tree/mod.rs): the nodes of the B+ tree. Tree.Search is
--   `binary_search`, Tree.Node `split`, `insert` and the searches, Tree.Deletion `delete`. The
--   operations take a `NodePager`, the interface of the pager. Tree.Shape says what a tree below a
--   node is and which entries it has.
-- - Tree.Codec, Tree.MetaData, Tree.Pager, Tree.BTree (src/tree/store.rs): the bytes of nodes and of
--   the metadata, `NodePager`, which fills the interface over one file, and `BTreeStore`. The cache
--   is a `TtlCache` of the crate ttl_cache: a parameter `Cache`, with its documented behaviour as
--   `CacheLaws`.
-- - Database (src/database/table_access.rs, src/database/seq_access.rs): the errors of a table, and
--   `Index`, what a table uses of a `BTreeStore`; Database.Query the results of queries with their
--   joins, Database.TableAccess the commands for the indexes, Database.TableAccess.Changes the
--   operations on a table, from `find` to `update`, Database.SeqAccess `next_val`. They take a
--   `Store`, an `Index`, the order in which hash maps are iterated, and `str::trim`; a hash map is
--   an association list (Prelude.HashMap), and an iterator the list of what it returns.
-- - Database.Catalog (src/database/mod.rs): `read_table` and the tables of the catalog;
--   Database.Catalog.Init is `Database::init`, Database.Catalog.Opened `table_access`, where
--   `read_btree` of the store is a parameter.
--
-- Integers: `usize`, `u16` and `i32` arithmetic is that of a build with overflow checks. Where a
-- subtraction goes below zero, or a sum leaves its type, the model panics. Sums and products of
-- `usize` that the size of a page or a file bounds are taken exactly. Casts with `as` keep the low
-- bits, as in Rust.
--
-- Loops that are not over a list take fuel, and a call without fuel is a panic. The search in a
-- `BinaryTree` has one unit for each inner node and one more, the update one for each node, the
-- halving of `binary_search` one for each key: the theorems on them say that a result is returned.
-- The recursion of the B+ tree takes its fuel as an argument, one unit for each level. That of
-- `table_access` takes two units, where the table `indexes` has the identifier 4.
--
-- An operation over a store or a pager passes the state explicitly. After an error of a page store
-- nothing is said of the state; the operations on nodes return the state with the error, since
-- `insert` goes on after an error below. That copies of a node share the flag `changed` with the
-- pager's cache is not modelled.
--
-- Not modelled: in src/database/mod.rs the directory of a database, `create_table` and `drop_table`; `delete_all` and `read_btree` of the file store, the printing of trees, and the
-- demonstration in src/main.rs.
pub mod Prelude
pub mod Schema
pub mod Page
pub mod Store
pub mod FreeSpace
pub mod Tree
pub mod Database
