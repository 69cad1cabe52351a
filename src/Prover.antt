-- ===== src/Prover.antt =====
-- cmd/storage-proved/main.go: the storage prover. The hash is BLAKE2b-256, which the program only
-- calls; the tree, the challenges and the three handlers are in the modules below.
pub mod Merkle
pub mod Server
pub mod Proofs
pub mod Soundness
pub mod Chunks
pub mod Program
pub mod Tests
