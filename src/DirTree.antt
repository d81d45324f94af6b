-- ===== src/DirTree.antt =====
-- The directory tree of src/dirtree.cpp, and the proofs about it in the modules below.
pub mod Tokens
pub mod Node
pub mod Tree
mod Tests
