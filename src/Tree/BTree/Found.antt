-- ===== src/Tree/BTree/Found.antt =====
-- src/tree/store.rs: looking up a key in the B+ tree of a file, behind a cache.
use fiddlers_db.Prelude.{ℕ, ◌<◌, ◌≡◌, ap, ◌∙◌, List, some}
use fiddlers_db.Prelude.Int.{ℤ}
use fiddlers_db.Prelude.Outcome.{ok, ◌>>=◌}
use fiddlers_db.Tree.{NodePage}
use fiddlers_db.Tree.Shape.{Entries, lookup, Reads, IsTree}
use fiddlers_db.Tree.Lookup.{find_value_correct}
use fiddlers_db.Tree.MetaData.{StoreMetaData}
use fiddlers_db.Tree.Pager.{Cache, PagerState, read_file, node_pager}
use fiddlers_db.Tree.Pager.Coherent.{
  CacheLaws, IsCoherent, after_read, after_read-IsCoherent, read_page_lem,
}
use fiddlers_db.Tree.BTree.{root, find}

-- States of one file: the cache answers as the file does.
pub record Stored {C : Type 0} (cached : Cache C) (laws : CacheLaws cached) (file : List ℕ)
    (m : StoreMetaData) (s : PagerState C) : Type 0 where
  pub coherent : IsCoherent cached laws s
  pub same_file : s.file ≡ file
  pub same_meta_data : s.meta_data ≡ m

-- A page of the file is read in every state of the file.
pub read_file-Reads :
    {C : Type 0} (cached : Cache C) (laws : CacheLaws cached) (file : List ℕ) (m : StoreMetaData)
    (id : ℤ) (node : NodePage)
    → read_file cached m.max_degree file id ≡ ok node
    → Reads (node_pager cached) (Stored cached laws file m) id node
read_file-Reads cached laws file m id node run s h = (
  after_read cached laws s id,
  read_page_lem cached laws s id node h.coherent (
      ap (λ (x : StoreMetaData). read_file cached x.max_degree s.file id) h.same_meta_data
      ∙ ap (λ f. read_file cached m.max_degree f id) h.same_file
      ∙ run),
  record {
    coherent = after_read-IsCoherent cached laws s id h.coherent;
    same_file = h.same_file;
    same_meta_data = h.same_meta_data;
  },
)

-- In a store whose file has the pages of a B+ tree of height `h`, with the root of the metadata, and
-- whose cache keeps its laws and answers as the file does, looking up a key, with more fuel than the
-- height, ends without an error. The answer is the pointer that the tree's entries have for the key,
-- or nothing where they do not have the key. The file and the metadata stay, and the cache still
-- answers as the file does.
pub find_correct :
    {C : Type 0} (cached : Cache C) (laws : CacheLaws cached) (file : List ℕ) (m : StoreMetaData)
    (s : PagerState C) (root_id : ℤ) (node : NodePage) (h fuel : ℕ) (entries : Entries) (key : ℤ)
    → Stored cached laws file m s
    → m.root ≡ some root_id
    → read_file cached m.max_degree file root_id ≡ ok node
    → IsTree (node_pager cached) (Stored cached laws file m) h node entries
    → h < fuel
    → (s' : PagerState C) × (find cached fuel s key ≡ ok (lookup key entries, s'))
      × Stored cached laws file m s'
unfolding find root
find_correct cached laws file m s root_id node h fuel entries key stored has_root run tree enough =
    let (s1, got, stored1) = read_file-Reads cached laws file m root_id node run s stored in
    let (s2, found, stored2) =
      find_value_correct (node_pager cached) (Stored cached laws file m) h fuel s1 node entries key
        tree enough stored1 in
    let at_root = ap (λ (x : StoreMetaData). x.root) stored.same_meta_data ∙ has_root in
    (s2, rw (find, root, at_root, got, ◌>>=◌, found), stored2)
