-- ===== src/Lib.antt =====
-- A model of the monitoring protocol's tooling and the theorems that make it correct.
--
-- The program records the traffic of a compute pod, seals it under a Merkle root, and checks from
-- that record that a policy held. A gateway (crates/pocomp-gateway/src/main.rs) journals one ingress
-- and one egress message for each task and signs the root of an epoch. The relations
-- (crates/pocomp-protocol/src/relation.rs) decide from the leaves whether the Pod and Task policies
-- held; a verifier (crates/pocomp-verifier/src/lib.rs) accepts a bundle of signatures and proofs of
-- them. The gateway-free cuPOW profile (crates/pocomp-protocol/src/cupow.rs) checks signed work
-- against a certified capacity, with challenges from an auditor
-- (crates/pocomp-cupow-auditor/src/main.rs).
--
-- The modules:
--   * Prelude: numbers, texts as lists of bytes, lists, `Result` with `?` as a bind, checked
--     arithmetic. BTreeMap, BTreeSet: the ordered collections as lists in key order.
--   * Types: the records and enums of crates/pocomp-protocol/src/types.rs, field by field.
--   * Primitives: SHA-256, SHAKE-256, postcard and Ed25519, which are parameters.
--   * Commitment, Crypto, Sampling: the files of the same names in crates/pocomp-protocol/src
--     (`domain_hash`, `gateway_root`, the `sign_` and `verify_` functions, `is_sampled`).
--   * Relation: `validate_policy`, with Relation.Gateway (`validate_gateway`), Relation.Pod
--     (`evaluate_pod_relation`) and Relation.Task (`evaluate_task_relation`,
--     `sampled_zktorch_statements`). The body of each loop is a definition of its own.
--   * CuPow.Relation: `evaluate_cupow_relation`, one definition for each guard. CuPow.Matrix,
--     CuPow.Product, CuPow.Field and CuPow.Rank: `F251Matrix` with `add`, `subtract`, `matmul_f251`,
--     `stripe_product`, `inverse_f251` and `matrix_rank`. CuPow.Noise: `derive_cupow_noise`.
--     CuPow.Execute: `execute_cupow`. CuPow.Sums: sums modulo 251.
--   * Verifier: `validate_task_proof_set`, `verify_audit_bundle`, `verify_cupow_bundle` and the
--     external verifier, whose process is a parameter that tells how a run ended.
--   * Gateway: the ledger with `reserve_task`, `append_leaf`, `abort_epoch` and `seal`; Gateway.Steps
--     has what each handler does under one lock as a step, and the steps interleave freely.
--     Gateway.Store: `persist_body` and the checks of `main`.
--   * Auditor: `issue_challenge_at` and `accept_completion`, served in any order.
--   * Runner: the cuPOW runner (crates/pocomp-cupow-runner/src/main.rs) with its reference and CUDA
--     commands.
--   * Cli: the commands of crates/pocomp-cli/src/main.rs. Sp1: the programs of proofs/sp1 and their
--     host. Committer: proofs/zktorch-committer/src/main.rs.
--   * Poseidon: crates/pocomp-protocol/src/poseidon2.rs, over a scalar field as a parameter.
--   * Tests: concrete runs with small stand-ins for the primitives.
--
-- An error is a constructor of the component's error type, and the guards stand in the order of the
-- source. A machine integer is a number, with the checked and truncating operations of the source
-- written out. The Merkle loop runs on fuel, one round for each leaf, and a round about halves the
-- level; so does the loop of Poseidon2. The power loop of the inverse has one round for each bit of a
-- `u16`. The sampling of a noise matrix runs on fuel, one unit for each byte it reads: any fuel is
-- enough within which the stream has as many residues as the matrix has values, and the four labels
-- and 65536 retries of an operation are finitely many streams. Clock readings, random seeds, file
-- writes and replies of other services are arguments.
--
-- Not modelled: the parsing of arguments, HTTP routing, and the vendored libraries under third_party.
-- Proof backends are parameters, too: Verifier.Soundness and Sp1.Laws state what a sound one is.
pub mod Prelude
pub mod BTreeMap
pub mod BTreeSet
pub mod Types
pub mod Primitives
pub mod Commitment
pub mod Crypto
pub mod Sampling
pub mod Relation
pub mod CuPow
pub mod Verifier
pub mod Gateway
pub mod Auditor
pub mod Runner
pub mod Cli
pub mod Sp1
pub mod Committer
pub mod Poseidon
pub mod Tests
