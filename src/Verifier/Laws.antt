-- ===== src/Verifier/Laws.antt =====
-- What the verifier accepts, from a single artifact up to the bundles.
use verification_tooling.Prelude.{
  List, [], ◌∷◌, true, Bytes, Text, nat_eq, bytes_eq, ◌≡◌, ◌≢◌, ◌↔◌, inl, inr, arith, Option, some,
  is_some, All, ok, result_cases, Option-cases,
}
use verification_tooling.BTreeMap
use verification_tooling.BTreeMap.{BTreeMap}
use verification_tooling.Types.{zktorch_version}
use verification_tooling.Types.Records.{Hash32}
use verification_tooling.Types.Audit.{
  ProofArtifact, TaskProof, AuditBundle, Assurance, paper_compliant, audited_physical_erasure,
}
use verification_tooling.Types.CuPow.{CuPowBundle, CuPowAssurance, CuPowOutcome}
use verification_tooling.Primitives.{Primitives}
use verification_tooling.Commitment.{commitment}
use verification_tooling.Crypto.{
  verify_audit_contract_signature, verify_gateway_root_signature,
  verify_erasure_certificate_signature, verify_cupow_capacity_signature,
  verify_cupow_contract_signature, verify_cupow_challenge_signature,
  verify_cupow_completion_signature,
}
use verification_tooling.CuPow.Relation.{evaluate_cupow_relation}
use verification_tooling.Verifier.{
  Json, VerifyRequest, ProofVerifier, SerdeJson, Exchange, finished, Commands, validate_artifact,
  invoke, command_for, external_verify, sp1_backend, sp1_version, zktorch_backend,
  cupow_zktorch_backend, cupow_zktorch_version, verify_task_proofs, verify_audit_bundle,
  verify_cupow_bundle,
}
use verification_tooling.Verifier.Proofs.{
  statements_of, to_list, validate_task_proof_set-statements_of,
}

-- The artifact names the expected backend, version and statement, and is not empty.
pub record Bound (artifact : ProofArtifact) (backend version : Text) (statement : Hash32)
    : Type 0 where
  pub backend_matches : artifact.backend ≡ backend
  pub version_matches : artifact.backend_version ≡ version
  pub statement_matches : artifact.statement_digest ≡ statement
  pub proof_present : artifact.proof_bytes ≢ []

abbrev pub request_for : ProofArtifact → Json → VerifyRequest
request_for artifact public_statement = record {
  backend = artifact.backend;
  backend_version = artifact.backend_version;
  statement_digest = artifact.statement_digest;
  public_statement = public_statement;
  proof_bytes = artifact.proof_bytes;
}

validate_artifact_iff :
    (artifact : ProofArtifact) (backend version : Text) (statement : Hash32)
    → (validate_artifact artifact backend version statement ≡ ok tt)
      ↔ Bound artifact backend version statement
unfolding validate_artifact
validate_artifact_iff artifact backend version statement = (λ h. ground arith, λ b. ground arith)

-- The external verifier accepts exactly when the artifact names the expected backend, version and
-- statement and is not empty, an executable is configured for that backend and version, and this
-- executable ends with success and answers that the proof is verified: it fails closed.
pub external_verify_iff :
    (run : Text → VerifyRequest → Exchange) (commands : Commands) (artifact : ProofArtifact)
    (backend version : Text) (statement : Hash32) (value : Json)
    → (external_verify run commands artifact backend version statement value ≡ ok tt) ↔ (
        Bound artifact backend version statement
        × ((path : Text) × (command_for commands backend version ≡ some path)
            × (run path (request_for artifact value) ≡ finished true (some true))))
unfolding external_verify invoke
external_verify_iff run commands artifact backend version statement value =
    let valid = validate_artifact_iff artifact backend version statement in
    (
      λ h. elim (Option-cases (command_for commands backend version)) [
        | inl missing ↦ absurd (ground arith)
        | inr (path, found) ↦ (ground (arith, valid.0), (path, found, ground arith))
      ],
      λ (b, (path, found, answer)). ground (arith, valid.1 b),
    )

-- The verifier was asked for this statement and backend, and accepted.
abbrev pub Verified : ProofVerifier → ProofArtifact → Text → Text → Hash32 → Option Json → Type 0
Verified verifier artifact backend version statement value =
    (v : Json) × (value ≡ some v) × (verifier.verify artifact backend version statement v ≡ ok tt)

module _ (x : Primitives) (json : SerdeJson) (verifier : ProofVerifier) where
  -- The proof of a sampled task was accepted for its statement.
  abbrev pub TaskProved : TaskProof → Type 0
  TaskProved p =
      Verified verifier p.proof zktorch_backend zktorch_version
        (commitment x x.postcard.zktorch_statement p.statement) (json.zktorch_statement p.statement)

  verify_task_proofs_sound :
      (proofs : List TaskProof)
      → verify_task_proofs x json verifier proofs ≡ ok tt
      → All TaskProved proofs
  unfolding verify_task_proofs
  verify_task_proofs_sound [] h = tt
  verify_task_proofs_sound (p ∷ proofs) h =
      elim (Option-cases (json.zktorch_statement p.statement)) [
        | inl failed ↦ absurd (ground arith)
        | inr (v, found) ↦
            ((v, found, ground arith), verify_task_proofs_sound proofs (ground arith))
      ]

-- All that an accepted audit bundle has passed.
pub record AuditAccepted (x : Primitives) (json : SerdeJson) (verifier : ProofVerifier)
    (bundle : AuditBundle) (auditor_key gateway_key : Bytes) : Type 0 where
  pub contract_signed : verify_audit_contract_signature x bundle.audit_contract auditor_key ≡ true
  pub root_signed :
      verify_gateway_root_signature x bundle.pod_statement.gateway_root gateway_key ≡ true
  pub erasure_signed :
      verify_erasure_certificate_signature x bundle.pod_statement.erasure auditor_key ≡ true
  pub contract_policy : bundle.audit_contract.contract.policy ≡ bundle.pod_statement.policy
  pub contract_epoch : bundle.audit_contract.contract.epoch ≡ bundle.pod_statement.epoch
  pub same_policy : bundle.pod_statement.policy ≡ bundle.task_statement.policy
  pub same_epoch : bundle.pod_statement.epoch ≡ bundle.task_statement.epoch
  pub same_root : bundle.pod_statement.gateway_root ≡ bundle.task_statement.gateway_root
  pub pod_proved :
      Verified verifier bundle.pod_relation_proof sp1_backend sp1_version
        (commitment x x.postcard.pod_statement bundle.pod_statement)
        (json.pod_statement bundle.pod_statement)
  pub task_proved :
      Verified verifier bundle.task_relation_proof sp1_backend sp1_version
        (commitment x x.postcard.task_statement bundle.task_statement)
        (json.task_statement bundle.task_statement)
  pub one_proof_each :
      (t : Text)
      → statements_of t bundle.task_proofs
        ≡ to_list (BTreeMap.get bundle.task_statement.sampled_statements t)
  pub tasks_proved : All (TaskProved x json verifier) bundle.task_proofs

module _ (x : Primitives) (json : SerdeJson) (verifier : ProofVerifier) (bundle : AuditBundle)
    (auditor_key gateway_key : Bytes) (assurance : Assurance) where
  open bundle use {pod_statement, task_statement}

  -- An accepted audit bundle has valid signatures of the contract, the gateway root and the
  -- erasure under the keys of the caller, the contract's policy and epoch in the Pod statement,
  -- one policy, epoch and root in both statements, accepted SP1 proofs of both statements, for
  -- each task the statements that the sampled map holds for it and no other, and an accepted
  -- zkTorch proof of each.
  pub verify_audit_bundle-AuditAccepted :
      verify_audit_bundle x json verifier bundle auditor_key gateway_key ≡ ok assurance
      → AuditAccepted x json verifier bundle auditor_key gateway_key
  unfolding verify_audit_bundle
  verify_audit_bundle-AuditAccepted h = elim (Option-cases (json.pod_statement pod_statement)) [
    | inl p ↦ absurd (ground arith)
    | inr (v, p) ↦ elim (Option-cases (json.task_statement task_statement)) [
      | inl q ↦ absurd (ground arith)
      | inr (w, q) ↦ record {
        contract_signed = ground arith;
        root_signed = ground arith;
        erasure_signed = ground arith;
        contract_policy = ground arith;
        contract_epoch = ground arith;
        same_policy = ground arith;
        same_epoch = ground arith;
        same_root = ground arith;
        pod_proved = (v, p, ground arith);
        task_proved = (w, q, ground arith);
        one_proof_each = λ t.
            validate_task_proof_set-statements_of task_statement.sampled_statements
              bundle.task_proofs t (ground arith);
        tasks_proved = verify_task_proofs_sound x json verifier bundle.task_proofs (ground arith);
      }
    ]
  ]

  -- The assurance of an accepted audit bundle is paper compliance exactly when its erasure was
  -- audited physically and its policy bounds both the unrecorded channel and the residual state.
  pub verify_audit_bundle-paper_compliant :
      verify_audit_bundle x json verifier bundle auditor_key gateway_key ≡ ok assurance
      → (assurance ≡ paper_compliant) ↔ (
          (pod_statement.erasure.certificate.kind ≡ audited_physical_erasure)
          × (is_some pod_statement.policy.pod.unrecorded_channel_bound_bits ≡ true)
          × (is_some pod_statement.policy.pod.residual_state_bound_bits ≡ true))
  unfolding verify_audit_bundle
  verify_audit_bundle-paper_compliant h = (λ e. ground arith, λ e. ground arith)

module _ (x : Primitives) (json : SerdeJson) (verifier : ProofVerifier) (bundle : CuPowBundle)
    (auditor_key : Bytes) (assurance : CuPowAssurance) where
  open bundle use {statement}

  -- An accepted cuPOW bundle has five valid signatures under the auditor's key, a statement that
  -- the cuPOW relation accepts with the returned assurance, and an accepted proof of that
  -- statement.
  pub verify_cupow_bundle-evaluate_cupow_relation :
      verify_cupow_bundle x json verifier bundle auditor_key ≡ ok assurance
      → (verify_cupow_capacity_signature x statement.contract.contract.capacity auditor_key ≡ true)
        × (verify_cupow_contract_signature x statement.contract auditor_key ≡ true)
        × (verify_cupow_challenge_signature x statement.challenge auditor_key ≡ true)
        × (verify_cupow_completion_signature x statement.completion auditor_key ≡ true)
        × (verify_erasure_certificate_signature x statement.erasure auditor_key ≡ true)
        × ((o : CuPowOutcome) × (evaluate_cupow_relation x statement ≡ ok o)
            × (assurance ≡ o.assurance))
        × Verified verifier bundle.proof cupow_zktorch_backend cupow_zktorch_version
            (commitment x x.postcard.cupow_statement statement)
            (json.cupow_statement statement)
  unfolding verify_cupow_bundle
  verify_cupow_bundle-evaluate_cupow_relation h =
      elim (result_cases (evaluate_cupow_relation x statement)) [
        | inr (e, p) ↦ absurd (ground arith)
        | inl (o, p) ↦ elim (Option-cases (json.cupow_statement statement)) [
          | inl q ↦ absurd (ground arith)
          | inr (v, q) ↦ (
            ground arith,
            ground arith,
            ground arith,
            ground arith,
            ground arith,
            (o, p, ground arith),
            (v, q, ground arith),
          )
        ]
      ]
