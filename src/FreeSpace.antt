-- ===== src/FreeSpace.antt =====
-- src/freespace: the free space map. `BinaryTree` is one page of it, `Fsm` the tree of pages.
pub mod BinaryTree
pub mod Fsm
mod Tests
