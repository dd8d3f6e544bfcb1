-- ===== src/Sp1.antt =====
-- proofs/sp1/pod-program/src/main.rs, proofs/sp1/task-program/src/main.rs and proofs/sp1/host/src/main.rs: the
-- programs of the zero-knowledge machine and the host that proves and verifies them.
pub mod Laws
use verification_tooling.Prelude.{
  ℕ, Bool, true, false, ◌||◌, not, Bytes, Text, ◌≠◌, bytes_eq, ◌≡◌, Option, none, some, Result, ok,
  err, ◌>>=◌, ◌>>◌, reject_if, ok_or,
}
use verification_tooling.Types.Records.{Hash32, hash32_eq}
use verification_tooling.Types.Audit.{
  PodRelationInput, TaskRelationInput, PodPublicStatement, TaskPublicStatement,
  RelationPublicValues, ProofArtifact,
}
use verification_tooling.Primitives.{Primitives}
use verification_tooling.Commitment.{commitment}
use verification_tooling.Relation.{RelationError}
use verification_tooling.Relation.Pod.{pod_public_statement, evaluate_pod_relation}
use verification_tooling.Relation.Task.{task_public_statement, evaluate_task_relation}
use verification_tooling.Verifier.{
  Json, VerifyRequest, Exchange, finished, sp1_backend, sp1_version,
}

pub data Program : Type 0 where
  pod_program task_program : Program

-- A decoded proof is its bytes. `prove` is the prover on what it was given, `public_values` reads
-- the committed values (`none` is a panic), and `verify` has the verifying key of the program, where
-- the setup of the program succeeds.
pub record Zkvm : Type 0 where
  pub decode : Bytes → Option Bytes
  pub serialize : Bytes → Option Bytes
  pub setup : Program → Bool
  pub prove_pod : PodRelationInput → Option Bytes
  pub prove_task : TaskRelationInput → Option Bytes
  pub public_values : Bytes → Option RelationPublicValues
  pub verify : Program → Bytes → Bool

-- What the host reads of a JSON value.
pub record StatementJson : Type 0 where
  pub has_erasure : Json → Bool
  pub pod_statement : Json → Option PodPublicStatement
  pub task_statement : Json → Option TaskPublicStatement

pub data HostError : Type 0 where
  setup_failed proving_failed not_self_verified other_statement not_serialized : HostError
  unsupported_pin undecodable values_not_bound digest_mismatch rejected : HostError

-- The `main` of the two programs; a failed relation panics.
unfoldable pub pod_guest : Primitives → PodRelationInput → Result RelationError RelationPublicValues
pod_guest x input = do
  outcome ← evaluate_pod_relation x input
  ok (record {
    statement_digest = commitment x x.postcard.pod_statement (pod_public_statement input);
    outcome = outcome;
  })

unfoldable pub task_guest :
    Primitives → TaskRelationInput → Result RelationError RelationPublicValues
task_guest x input = do
  outcome ← evaluate_task_relation x input
  ok (record {
    statement_digest = commitment x x.postcard.task_statement (task_public_statement input);
    outcome = outcome;
  })

module _ (x : Primitives) (z : Zkvm) (json : StatementJson) where
  -- `prove`, after the prover's answer.
  unfoldable pub prove : Program → Option Bytes → Hash32 → Result HostError ProofArtifact
  prove program proved statement_digest = do
    reject_if (not (z.setup program)) setup_failed
    proof ← ok_or proved proving_failed
    reject_if (not (z.verify program proof)) not_self_verified
    public ← ok_or (z.public_values proof) undecodable
    reject_if (public.statement_digest ≠ statement_digest) other_statement
    proof_bytes ← ok_or (z.serialize proof) not_serialized
    ok (record {
      backend = sp1_backend;
      backend_version = sp1_version;
      statement_digest = statement_digest;
      proof_bytes = proof_bytes;
    })

  -- The arms `prove-pod` and `prove-task` of `main`, without the files.
  unfoldable pub run_prove_pod : PodRelationInput → Result HostError ProofArtifact
  run_prove_pod input =
      prove pod_program (z.prove_pod input)
        (commitment x x.postcard.pod_statement (pod_public_statement input))

  unfoldable pub run_prove_task : TaskRelationInput → Result HostError ProofArtifact
  run_prove_task input =
      prove task_program (z.prove_task input)
        (commitment x x.postcard.task_statement (task_public_statement input))

  -- The branches of `verify_json` on the statement: whether the proof verifies.
  unfoldable pub verify_statement : VerifyRequest → Bytes → Bool → Result HostError Bool
  verify_statement request proof true = do
    statement ← ok_or (json.pod_statement request.public_statement) undecodable
    reject_if (commitment x x.postcard.pod_statement statement ≠ request.statement_digest)
        digest_mismatch
    reject_if (not (z.setup pod_program)) setup_failed
    ok (z.verify pod_program proof)
  verify_statement request proof false = do
    statement ← ok_or (json.task_statement request.public_statement) undecodable
    reject_if (commitment x x.postcard.task_statement statement ≠ request.statement_digest)
        digest_mismatch
    reject_if (not (z.setup task_program)) setup_failed
    ok (z.verify task_program proof)

  -- `verify_json` up to the line it prints: the `verified` field.
  unfoldable pub verify_json : VerifyRequest → Result HostError Bool
  verify_json request = do
    reject_if (request.backend ≠ sp1_backend || request.backend_version ≠ sp1_version)
        unsupported_pin
    proof ← ok_or (z.decode request.proof_bytes) undecodable
    public ← ok_or (z.public_values proof) undecodable
    reject_if
        (not public.outcome.relation_satisfied
          || public.statement_digest ≠ request.statement_digest)
        values_not_bound
    verify_statement request proof (json.has_erasure request.public_statement)

  -- How a run of the host with `verify-json` ends: a proof that does not verify is printed as such
  -- before the host fails.
  unfoldable pub host_exchange : VerifyRequest → Exchange
  host_exchange request = elim (verify_json request) [
    | ok verified ↦ finished verified (some verified)
    | err _ ↦ finished false none
  ]
