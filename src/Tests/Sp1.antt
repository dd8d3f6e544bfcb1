-- ===== src/Tests/Sp1.antt =====
-- An external verifier whose backend is the SP1 host, with a machine that accepts one Pod proof.
use verification_tooling.Prelude.{
  Bool, [], ◌∷◌, true, false, Bytes, Text, ◌≡◌, refl, arith, some, none, ok,
}
use verification_tooling.Types.Records.{hash32_eq}
use verification_tooling.Types.Audit.{RelationPublicValues, ProofArtifact}
use verification_tooling.Commitment.{commitment}
use verification_tooling.Relation.Pod.{pod_public_statement}
use verification_tooling.Relation.Pod.Laws.{pod_outcome}
use verification_tooling.Verifier.{
  VerifyRequest, Exchange, sp1_backend, sp1_version, production, command_for, validate_artifact,
  invoke, external_verify,
}
use verification_tooling.Sp1.{
  Program, pod_program, task_program, Zkvm, StatementJson, pod_guest, verify_statement, verify_json,
  host_exchange,
}
use verification_tooling.Sp1.Laws.{IsSoundZkvm, Proven, external_verify-Proven}
use verification_tooling.Tests.Toy.{toy}
use verification_tooling.Tests.Relations.{pod_input, pod_accepted}

-- The values that the Pod program commits for the input of the tests.
abbrev values : RelationPublicValues
values = record {
  statement_digest = commitment toy toy.postcard.pod_statement (pod_public_statement pod_input);
  outcome = pod_outcome pod_input;
}

abbrev accepts : Program → Bytes → Bool
accepts pod_program proof = true
accepts task_program proof = false

abbrev machine : Zkvm
machine = record {
  decode = λ b. some b;
  serialize = λ b. some b;
  setup = λ p. true;
  prove_pod = λ i. none;
  prove_task = λ i. none;
  public_values = λ b. some values;
  verify = accepts;
}

guest_run : pod_guest toy pod_input ≡ ok values
unfolding pod_guest
guest_run = ground (arith, pod_accepted)

machine-IsSoundZkvm : IsSoundZkvm toy machine
machine-IsSoundZkvm = record {
  pod_run = λ proof v h e. (pod_input, ground (arith, guest_run, e));
  task_run = λ proof v h e. absurd (ground arith);
}

abbrev statement_json : StatementJson
statement_json = record {
  has_erasure = λ v. true;
  pod_statement = λ v. some (pod_public_statement pod_input);
  task_statement = λ v. none;
}

abbrev host : Text
host = 1 ∷ []

abbrev run : Text → VerifyRequest → Exchange
run path request = host_exchange toy machine statement_json request

abbrev artifact : ProofArtifact
artifact = record {
  backend = sp1_backend;
  backend_version = sp1_version;
  statement_digest = values.statement_digest;
  proof_bytes = 5 ∷ [];
}

host_found : command_for (production host (2 ∷ [])) sp1_backend sp1_version ≡ some host
unfolding command_for production
host_found = ground arith

json_verified :
    verify_json toy machine statement_json (record {
      backend = sp1_backend;
      backend_version = sp1_version;
      statement_digest = values.statement_digest;
      public_statement = 3 ∷ [];
      proof_bytes = 5 ∷ [];
    })
    ≡ ok true
unfolding verify_json verify_statement
json_verified = ground arith

artifact_valid : validate_artifact artifact sp1_backend sp1_version values.statement_digest ≡ ok tt
unfolding validate_artifact
artifact_valid = ground arith

proof_accepted :
    external_verify run
      (production host (2 ∷ []))
      artifact
      sp1_backend
      sp1_version
      values.statement_digest
      (3 ∷ [])
    ≡ ok tt
unfolding external_verify invoke host_exchange
proof_accepted = ground (arith, host_found, json_verified, artifact_valid)

external_verify-Proven_example : Proven toy statement_json (3 ∷ [])
external_verify-Proven_example =
    external_verify-Proven toy machine statement_json machine-IsSoundZkvm (λ s. omega arith)
      (λ s. omega arith) run (production host (2 ∷ [])) host host_found (λ request. refl) artifact
      values.statement_digest (3 ∷ []) proof_accepted
