-- ===== src/Tests.antt =====
-- Concrete runs of the program, on which each theorem with hypotheses is applied.
pub mod Toy
pub mod Commitments
pub mod Relations
pub mod Gateway
pub mod CuPow
pub mod Verifier
pub mod Auditor
pub mod Soundness
pub mod Matrix
pub mod Execute
pub mod Runner
pub mod Cli
pub mod Sp1
pub mod Committer
pub mod Poseidon
