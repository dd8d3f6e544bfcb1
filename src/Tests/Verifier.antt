-- ===== src/Tests/Verifier.antt =====
-- Bundles for the epochs of the other tests, through a verifier that accepts every bound artifact.
use verification_tooling.Prelude.{
  List, [], ◌∷◌, true, Text, ◌≡◌, ◌↔◌, arith, some, ok, is_some, ℕ_discrete,
}
use verification_tooling.BTreeMap
use verification_tooling.BTreeSet
use verification_tooling.Types.{protocol_version, cupow_protocol_version, zktorch_version}
use verification_tooling.Types.Records.{Hash32}
use verification_tooling.Types.Audit.{
  ProofArtifact, TaskProof, AuditBundle, PodPublicStatement, TaskPublicStatement, paper_compliant,
  audited_physical_erasure,
}
use verification_tooling.Types.CuPow.{CuPowBundle, CuPowOutcome, calibrated_gpu_saturation}
use verification_tooling.Commitment.{commitment}
use verification_tooling.Crypto.{
  sign_audit_contract, sign_cupow_capacity, sign_cupow_challenge, sign_cupow_completion,
  sign_erasure_certificate, sign_gateway_root, verify_erasure_certificate_signature,
  verify_cupow_capacity_signature, verify_cupow_contract_signature,
  verify_cupow_challenge_signature, verify_cupow_completion_signature, sign_cupow_contract,
}
use verification_tooling.Crypto.Laws.{verify-sign_records}
use verification_tooling.CuPow.Relation.{evaluate_cupow_relation}
use verification_tooling.Relation.Pod.{pod_public_statement}
use verification_tooling.Relation.Task.{task_public_statement, zktorch_statement}
use verification_tooling.Gateway.{next_leaf}
use verification_tooling.Verifier.{
  ProofVerifier, SerdeJson, Exchange, finished, production, command_for, validate_artifact,
  external_verify, VerifyRequest, sp1_backend, sp1_version, zktorch_backend, cupow_zktorch_backend,
  cupow_zktorch_version, check_task_proofs, validate_task_proof_set, verify_task_proofs,
  verify_audit_bundle, verify_cupow_bundle,
}
use verification_tooling.Verifier.Proofs.{
  statements_of, to_list, validate_task_proof_set-statements_of,
}
use verification_tooling.Verifier.Laws.{
  Bound, request_for, external_verify_iff, Verified, AuditAccepted,
  verify_audit_bundle-AuditAccepted, verify_audit_bundle-paper_compliant,
  verify_cupow_bundle-evaluate_cupow_relation,
}
use verification_tooling.Tests.Toy.{toy, toy-IsSignatureScheme, key, policy, epoch}
use verification_tooling.Tests.Gateway.{task_id}
use verification_tooling.Tests.Relations
use verification_tooling.Tests.Relations.{pod_input, task_input}
use verification_tooling.Tests.CuPow

abbrev json : SerdeJson
json = record {
  pod_statement = λ s. some (1 ∷ []);
  task_statement = λ s. some (2 ∷ []);
  zktorch_statement = λ s. some s.task_id;
  cupow_statement = λ s. some (4 ∷ []);
}

-- Accepts what is bound to the statement.
abbrev pub verifier : ProofVerifier
verifier = record {
  verify = λ artifact backend version statement value.
      validate_artifact artifact backend version statement;
}

abbrev pub artifact : Text → Text → Hash32 → ProofArtifact
artifact backend version statement = record {
  backend = backend;
  backend_version = version;
  statement_digest = statement;
  proof_bytes = 1 ∷ [];
}

abbrev pub task_proofs : List TaskProof
task_proofs =
    record {
      statement = Relations.statement;
      proof =
          artifact zktorch_backend zktorch_version
            (commitment toy toy.postcard.zktorch_statement Relations.statement);
    }
    ∷ []

pub proofs_complete : validate_task_proof_set task_input.sampled_statements task_proofs ≡ ok tt
unfolding validate_task_proof_set check_task_proofs BTreeMap.get BTreeSet.contains zktorch_statement
    next_leaf ℕ_discrete
proofs_complete = ground arith

validate_task_proof_set-statements_of_example :
    statements_of task_id task_proofs ≡ to_list (BTreeMap.get task_input.sampled_statements task_id)
validate_task_proof_set-statements_of_example =
    validate_task_proof_set-statements_of task_input.sampled_statements task_proofs task_id
      proofs_complete

abbrev pub pod : PodPublicStatement
pod = pod_public_statement pod_input

abbrev pub task : TaskPublicStatement
task = task_public_statement task_input

abbrev pub bundle : AuditBundle
bundle = record {
  protocol_version = protocol_version;
  audit_contract =
      sign_audit_contract toy
        (record { protocol_version = protocol_version; policy = policy; epoch = epoch }) key;
  pod_statement = pod;
  task_statement = task;
  pod_relation_proof =
      artifact sp1_backend sp1_version (commitment toy toy.postcard.pod_statement pod);
  task_relation_proof =
      artifact sp1_backend sp1_version (commitment toy toy.postcard.task_statement task);
  task_proofs = task_proofs;
}

bundle_accepted : verify_audit_bundle toy json verifier bundle key key ≡ ok paper_compliant
unfolding verify_audit_bundle verify_task_proofs validate_artifact pod_public_statement
    task_public_statement sign_audit_contract sign_erasure_certificate sign_gateway_root
bundle_accepted =
    let signed = verify-sign_records toy toy-IsSignatureScheme key in
    ground (
      arith,
      proofs_complete,
      signed.0 pod.gateway_root.statement,
      signed.1 bundle.audit_contract.contract,
      signed.2 pod.erasure.certificate,
    )

verify_audit_bundle-AuditAccepted_example : AuditAccepted toy json verifier bundle key key
verify_audit_bundle-AuditAccepted_example =
    verify_audit_bundle-AuditAccepted toy json verifier bundle key key paper_compliant
      bundle_accepted

verify_audit_bundle-paper_compliant_example : (paper_compliant ≡ paper_compliant) ↔ (
    (bundle.pod_statement.erasure.certificate.kind ≡ audited_physical_erasure)
    × (is_some bundle.pod_statement.policy.pod.unrecorded_channel_bound_bits ≡ true)
    × (is_some bundle.pod_statement.policy.pod.residual_state_bound_bits ≡ true))
verify_audit_bundle-paper_compliant_example =
    verify_audit_bundle-paper_compliant toy json verifier bundle key key paper_compliant
      bundle_accepted

abbrev cupow_bundle : CuPowBundle
cupow_bundle = record {
  protocol_version = cupow_protocol_version;
  statement = CuPow.statement;
  proof =
      artifact cupow_zktorch_backend cupow_zktorch_version
        (commitment toy toy.postcard.cupow_statement CuPow.statement);
}

cupow_bundle_accepted :
    verify_cupow_bundle toy json verifier cupow_bundle key ≡ ok calibrated_gpu_saturation
unfolding verify_cupow_bundle validate_artifact sign_cupow_contract sign_cupow_capacity
    sign_cupow_challenge sign_cupow_completion sign_erasure_certificate
cupow_bundle_accepted =
    let signed = verify-sign_records toy toy-IsSignatureScheme key in
    ground (
      arith,
      CuPow.accepted,
      signed.2 CuPow.handover.certificate,
      signed.3 CuPow.certificate,
      signed.4 CuPow.contract,
      signed.5 CuPow.fresh,
      signed.6 CuPow.done,
    )

verify_cupow_bundle-evaluate_cupow_relation_example :
    (verify_cupow_capacity_signature toy CuPow.statement.contract.contract.capacity key ≡ true)
    × (verify_cupow_contract_signature toy CuPow.signed_contract key ≡ true)
    × (verify_cupow_challenge_signature toy CuPow.challenge key ≡ true)
    × (verify_cupow_completion_signature toy CuPow.completion key ≡ true)
    × (verify_erasure_certificate_signature toy CuPow.handover key ≡ true)
    × ((o : CuPowOutcome) × (evaluate_cupow_relation toy CuPow.statement ≡ ok o)
        × (calibrated_gpu_saturation ≡ o.assurance))
    × Verified verifier cupow_bundle.proof cupow_zktorch_backend cupow_zktorch_version
        (commitment toy toy.postcard.cupow_statement CuPow.statement)
        (json.cupow_statement CuPow.statement)
verify_cupow_bundle-evaluate_cupow_relation_example =
    verify_cupow_bundle-evaluate_cupow_relation toy json verifier cupow_bundle key
      calibrated_gpu_saturation cupow_bundle_accepted

-- An executable that verifies everything.
abbrev agreeing : Text → VerifyRequest → Exchange
agreeing path request = finished true (some true)

external_verify_iff_example :
    (external_verify agreeing
        (production (1 ∷ []) (2 ∷ []))
        bundle.pod_relation_proof
        sp1_backend
        sp1_version
        bundle.pod_relation_proof.statement_digest
        (3 ∷ [])
      ≡ ok tt)
    ↔ (Bound bundle.pod_relation_proof sp1_backend sp1_version
          bundle.pod_relation_proof.statement_digest
        × ((path : Text) × (command_for (production (1 ∷ []) (2 ∷ [])) sp1_backend sp1_version
              ≡ some path)
            × (agreeing path (request_for bundle.pod_relation_proof (3 ∷ []))
                ≡ finished true (some true))))
external_verify_iff_example =
    external_verify_iff agreeing (production (1 ∷ []) (2 ∷ [])) bundle.pod_relation_proof
      sp1_backend sp1_version bundle.pod_relation_proof.statement_digest (3 ∷ [])
