-- ===== src/Sp1/Laws.antt =====
-- About the SP1 host of proofs/sp1/host/src/main.rs as the backend of the external verifier.
use verification_tooling.Prelude.{
  ◌<◌, ◌^◌, true, false, Bool-cases, Bytes, Text, length, ◌≡◌, ◌⊎◌, inl, inr, arith, some, ok,
  result_cases, Option-cases,
}
use verification_tooling.Types.Records.{Hash32}
use verification_tooling.Types.Audit.{
  PodRelationInput, TaskRelationInput, PodPublicStatement, TaskPublicStatement,
  RelationPublicValues, RelationOutcome, ProofArtifact,
}
use verification_tooling.Primitives.{Primitives}
use verification_tooling.Commitment.Separation.{Collision, commitment-injective}
use verification_tooling.Relation.Pod.{pod_public_statement, evaluate_pod_relation}
use verification_tooling.Relation.Task.{task_public_statement, evaluate_task_relation}
use verification_tooling.Verifier.{
  Json, VerifyRequest, Exchange, sp1_backend, sp1_version, Commands, external_verify, invoke,
  command_for,
}
use verification_tooling.Sp1.{
  pod_program, task_program, Zkvm, StatementJson, pod_guest, task_guest, verify_statement,
  verify_json, host_exchange,
}

-- What the machine documents: values with a verified proof were committed by a run of the program.
pub record IsSoundZkvm (x : Primitives) (z : Zkvm) : Type 0 where
  pub pod_run :
      (proof : Bytes) (v : RelationPublicValues)
      → z.verify pod_program proof ≡ true
      → z.public_values proof ≡ some v
      → (input : PodRelationInput) × (pod_guest x input ≡ ok v)
  pub task_run :
      (proof : Bytes) (v : RelationPublicValues)
      → z.verify task_program proof ≡ true
      → z.public_values proof ≡ some v
      → (input : TaskRelationInput) × (task_guest x input ≡ ok v)

-- Each encoding has a 64-bit length.
abbrev pub Short : {T : Type 0} → (T → Bytes) → Type 0
Short {T} encode = (s : T) → length (encode s) < 2 ^ 64

-- An input of a relation program for which the relation is satisfied, and whose statement has the
-- encoding of the stated one, or a hash collision.
pub data Proven (x : Primitives) (json : StatementJson) (v : Json) : Type 0 where
  proven_pod :
      (s : PodPublicStatement) (input : PodRelationInput) (o : RelationOutcome)
      → json.pod_statement v ≡ some s
      → evaluate_pod_relation x input ≡ ok o
      → o.relation_satisfied ≡ true
      → (x.postcard.pod_statement (pod_public_statement input) ≡ x.postcard.pod_statement s)
        ⊎ Collision x
      → Proven x json v
  proven_task :
      (s : TaskPublicStatement) (input : TaskRelationInput) (o : RelationOutcome)
      → json.task_statement v ≡ some s
      → evaluate_task_relation x input ≡ ok o
      → o.relation_satisfied ≡ true
      → (x.postcard.task_statement (task_public_statement input) ≡ x.postcard.task_statement s)
        ⊎ Collision x
      → Proven x json v

module _ (x : Primitives) (z : Zkvm) (json : StatementJson) where
  pod_case :
      IsSoundZkvm x z
      → Short x.postcard.pod_statement
      → (request : VerifyRequest) (proof : Bytes) (public : RelationPublicValues)
      → z.public_values proof ≡ some public
      → public.outcome.relation_satisfied ≡ true
      → public.statement_digest ≡ request.statement_digest
      → verify_statement x z json request proof true ≡ ok true
      → Proven x json request.public_statement
  unfolding verify_statement pod_guest
  pod_case sound enc request proof public hv hs hd h =
      elim (Option-cases (json.pod_statement request.public_statement)) [
        | inl e ↦ absurd (ground arith)
        | inr (s, e) ↦
            let (input, run) = sound.pod_run proof public (ground arith) hv in
            elim (result_cases (evaluate_pod_relation x input)) [
              | inr (bad, failed) ↦ absurd (ground arith)
              | inl (o, evaluated) ↦ proven_pod s input o e evaluated (ground arith) (
                  commitment-injective x x.postcard.pod_statement (pod_public_statement input) s
                    (enc (pod_public_statement input)) (enc s) (ground arith))
            ]
      ]

  task_case :
      IsSoundZkvm x z
      → Short x.postcard.task_statement
      → (request : VerifyRequest) (proof : Bytes) (public : RelationPublicValues)
      → z.public_values proof ≡ some public
      → public.outcome.relation_satisfied ≡ true
      → public.statement_digest ≡ request.statement_digest
      → verify_statement x z json request proof false ≡ ok true
      → Proven x json request.public_statement
  unfolding verify_statement task_guest
  task_case sound enc request proof public hv hs hd h =
      elim (Option-cases (json.task_statement request.public_statement)) [
        | inl e ↦ absurd (ground arith)
        | inr (s, e) ↦
            let (input, run) = sound.task_run proof public (ground arith) hv in
            elim (result_cases (evaluate_task_relation x input)) [
              | inr (bad, failed) ↦ absurd (ground arith)
              | inl (o, evaluated) ↦ proven_task s input o e evaluated (ground arith) (
                  commitment-injective x x.postcard.task_statement (task_public_statement input) s
                    (enc (task_public_statement input)) (enc s) (ground arith))
            ]
      ]

  verify_json-Proven :
      IsSoundZkvm x z
      → Short x.postcard.pod_statement
      → Short x.postcard.task_statement
      → (request : VerifyRequest) → verify_json x z json request ≡ ok true
      → Proven x json request.public_statement
  unfolding verify_json
  verify_json-Proven sound pods tasks request h =
      elim (Option-cases (z.decode request.proof_bytes)) [
        | inl e ↦ absurd (ground arith)
        | inr (proof, e) ↦ elim (Option-cases (z.public_values proof)) [
          | inl f ↦ absurd (ground arith)
          | inr (public, f) ↦ elim (Bool-cases (json.has_erasure request.public_statement)) [
            | inl g ↦
                pod_case sound pods request proof public f (ground arith) (ground arith)
                  (ground arith)
            | inr g ↦
                task_case sound tasks request proof public f (ground arith) (ground arith)
                  (ground arith)
          ]
        ]
      ]

  -- If values with a verified proof were committed by a run of the program, encoded statements
  -- have a 64-bit length, and the executable that is configured for SP1 behaves as the host, then
  -- what the external verifier accepts was evaluated: there is an input for which the Pod or the
  -- Task relation succeeds and is satisfied, and whose statement has the encoding of the stated
  -- one, or two different messages with one hash exist.
  pub external_verify-Proven :
      IsSoundZkvm x z
      → Short x.postcard.pod_statement
      → Short x.postcard.task_statement
      → (run : Text → VerifyRequest → Exchange) (commands : Commands) (host : Text)
      → command_for commands sp1_backend sp1_version ≡ some host
      → ((request : VerifyRequest) → run host request ≡ host_exchange x z json request)
      → (artifact : ProofArtifact) (statement : Hash32) (value : Json)
      → external_verify run commands artifact sp1_backend sp1_version statement value ≡ ok tt
      → Proven x json value
  unfolding external_verify invoke host_exchange
  external_verify-Proven sound pods tasks run commands host found same artifact statement value h =
      let request : VerifyRequest = record {
        backend = artifact.backend;
        backend_version = artifact.backend_version;
        statement_digest = artifact.statement_digest;
        public_statement = value;
        proof_bytes = artifact.proof_bytes;
      } in
      let answered = same request in
      elim (result_cases (verify_json x z json request)) [
        | inl (verified, e) ↦ verify_json-Proven sound pods tasks request (ground arith)
        | inr (bad, e) ↦ absurd (ground arith)
      ]
