-- ===== src/Verifier.antt =====
-- crates/pocomp-verifier/src/lib.rs: fail-closed verification of proof artifacts and bundles.
pub mod Proofs
pub mod Laws
pub mod Soundness
use verification_tooling.Prelude.{
  ℕ, List, [], ◌∷◌, Bool, true, false, ◌&&◌, ◌||◌, not, Bytes, Text, utf8, ◌==◌, ◌≠◌, nat_eq,
  bytes_eq, length, is_empty, is_some, if◌then◌else◌, Option, none, some, option_dec, Eq, ite,
  Result, ok, err, ◌>>=◌, ◌>>◌, reject_if, ok_or,
}
use verification_tooling.BTreeMap
use verification_tooling.BTreeMap.{BTreeMap}
use verification_tooling.BTreeSet
use verification_tooling.Types.{protocol_version, cupow_protocol_version, zktorch_version}
use verification_tooling.Types.Records.{Hash32, hash32_eq, signed_gateway_root_eq}
use verification_tooling.Types.Audit.{
  PodPublicStatement, TaskPublicStatement, ZkTorchStatement, ProofArtifact, TaskProof, AuditBundle,
  Assurance, experimental, paper_compliant, audited_physical_erasure, erasure_kind_eq,
  monitoring_policy_eq, epoch_statement_eq, ZkTorchStatement-discrete, zktorch_statement_eq,
}
use verification_tooling.Types.CuPow.{CuPowPublicStatement, CuPowBundle, CuPowAssurance}
use verification_tooling.Primitives.{Primitives}
use verification_tooling.Commitment.{commitment}
use verification_tooling.Crypto.{
  verify_audit_contract_signature, verify_gateway_root_signature,
  verify_erasure_certificate_signature, verify_cupow_capacity_signature,
  verify_cupow_contract_signature, verify_cupow_challenge_signature,
  verify_cupow_completion_signature,
}
use verification_tooling.CuPow.Relation.{evaluate_cupow_relation}

abbrev pub sp1_backend : Text
unfolding utf8
sp1_backend = utf8 "sp1"

abbrev pub sp1_version : Text
unfolding utf8
sp1_version = utf8 "v6.2.2+150e6294959f40dbc3ba42eb21c8eccc14c95bc5"

abbrev pub zktorch_backend : Text
unfolding utf8
zktorch_backend = utf8 "zk-torch"

abbrev pub cupow_zktorch_backend : Text
unfolding utf8
cupow_zktorch_backend = utf8 "zk-torch-cupow"

abbrev pub cupow_zktorch_version : Text
unfolding utf8
cupow_zktorch_version = utf8 "63b9c68960f3ca84026d89428dd6d8129e930d53+cupow-v1"

-- A JSON value is its text.
abbrev pub Json : Type 0
Json = Bytes

pub record VerifyRequest : Type 0 where
  pub backend : Text
  pub backend_version : Text
  pub statement_digest : Hash32
  pub public_statement : Json
  pub proof_bytes : Bytes

-- Without the source of an I/O error.
pub data VerifyError : Type 0 where
  protocol_version_error statement_mismatch gateway_signature audit_contract_signature : VerifyError
  erasure_signature unsupported_backend artifact_binding : VerifyError
  backend_unavailable : Text → VerifyError
  backend_protocol proof_rejected task_proof_set cupow_relation cupow_capacity_signature :
      VerifyError
  cupow_contract_signature cupow_challenge_signature cupow_completion_signature : VerifyError

-- `trait ProofVerifier`
pub record ProofVerifier : Type 0 where
  pub verify : ProofArtifact → Text → Text → Hash32 → Json → Result VerifyError (Unit {0})

-- `serde_json::to_value` at the four public statements; `none` is its error.
pub record SerdeJson : Type 0 where
  pub pod_statement : PodPublicStatement → Option Json
  pub task_statement : TaskPublicStatement → Option Json
  pub zktorch_statement : ZkTorchStatement → Option Json
  pub cupow_statement : CuPowPublicStatement → Option Json

unfoldable pub validate_artifact :
    ProofArtifact → Text → Text → Hash32 → Result VerifyError (Unit {0})
validate_artifact artifact backend version statement = do
  reject_if (artifact.backend ≠ backend || artifact.backend_version ≠ version) unsupported_backend
  reject_if (is_empty artifact.proof_bytes || artifact.statement_digest ≠ statement)
      artifact_binding

-- What a run of a verifier executable comes to: it does not start, a pipe fails, or it ends with
-- its status and the `verified` field that its output parses to.
pub data Exchange : Type 0 where
  spawn_failed pipe_failed : Exchange
  finished : Bool → Option Bool → Exchange

unfoldable pub invoke :
    (Text → VerifyRequest → Exchange) → Text → VerifyRequest → Result VerifyError Bool
invoke run path request = elim (run path request) [
  | spawn_failed ↦ err (backend_unavailable path)
  | pipe_failed ↦ err backend_protocol
  | finished success response ↦
      if success then ok_or response backend_protocol else err proof_rejected
]

-- The `commands` of an `ExternalProofVerifier`: executables by backend and version.
abbrev pub Commands : Type 0
Commands = List (Text × Text × Text)

unfoldable pub command_for : Commands → Text → Text → Option Text
command_for [] backend version = none
command_for ((b, v, path) ∷ commands) backend version =
    if b == backend && v == version then some path else command_for commands backend version

unfoldable pub production : Text → Text → Commands
production sp1 zktorch =
    (sp1_backend, sp1_version, sp1) ∷ (zktorch_backend, zktorch_version, zktorch) ∷ []

unfoldable pub cupow : Text → Commands
cupow zktorch = (cupow_zktorch_backend, cupow_zktorch_version, zktorch) ∷ []

-- `impl ProofVerifier for ExternalProofVerifier`
unfoldable pub external_verify :
    (Text → VerifyRequest → Exchange)
    → Commands
    → ProofArtifact
    → Text
    → Text
    → Hash32
    → Json
    → Result VerifyError (Unit {0})
unfolding validate_artifact invoke
external_verify run commands artifact backend version statement public_statement = do
  validate_artifact artifact backend version statement
  path ← ok_or (command_for commands backend version) unsupported_backend
  verified ← invoke run path (record {
    backend = artifact.backend;
    backend_version = artifact.backend_version;
    statement_digest = artifact.statement_digest;
    public_statement = public_statement;
    proof_bytes = artifact.proof_bytes;
  })
  reject_if (not verified) proof_rejected

abbrev pub external_verifier : (Text → VerifyRequest → Exchange) → Commands → ProofVerifier
external_verifier run commands = record { verify = external_verify run commands }

-- The loop over the proofs, with the identifiers seen so far.
unfoldable pub check_task_proofs :
    BTreeMap ZkTorchStatement → List Text → List TaskProof → Result VerifyError (Unit {0})
check_task_proofs expected seen [] = ok tt
check_task_proofs expected seen (task_proof ∷ proofs) = do
  reject_if
      (BTreeSet.contains seen task_proof.statement.task_id
        || ite
            (option_dec ZkTorchStatement-discrete
              (BTreeMap.get expected task_proof.statement.task_id) (some task_proof.statement))
            false true)
      task_proof_set
  check_task_proofs expected (BTreeSet.insert task_proof.statement.task_id seen) proofs

unfoldable pub validate_task_proof_set :
    BTreeMap ZkTorchStatement → List TaskProof → Result VerifyError (Unit {0})
validate_task_proof_set expected proofs = do
  reject_if (length proofs ≠ length expected) task_proof_set
  check_task_proofs expected [] proofs

module _ (x : Primitives) (json : SerdeJson) (verifier : ProofVerifier) where
  -- The loop that verifies each proof of a sampled task.
  unfoldable pub verify_task_proofs : List TaskProof → Result VerifyError (Unit {0})
  verify_task_proofs [] = ok tt
  verify_task_proofs (task_proof ∷ proofs) = do
    value ← ok_or (json.zktorch_statement task_proof.statement) backend_protocol
    verifier.verify task_proof.proof zktorch_backend zktorch_version
        (commitment x x.postcard.zktorch_statement task_proof.statement) value
    verify_task_proofs proofs

  unfoldable pub verify_audit_bundle : AuditBundle → Bytes → Bytes → Result VerifyError Assurance
  verify_audit_bundle bundle auditor_public_key gateway_public_key = do
    let pod = bundle.pod_statement
    let task = bundle.task_statement
    let contract = bundle.audit_contract.contract
    reject_if (bundle.protocol_version ≠ protocol_version) protocol_version_error
    reject_if (not (verify_audit_contract_signature x bundle.audit_contract auditor_public_key))
        audit_contract_signature
    reject_if
        (contract.protocol_version ≠ protocol_version
          || contract.policy ≠ pod.policy
          || contract.epoch ≠ pod.epoch)
        statement_mismatch
    reject_if
        (pod.epoch ≠ task.epoch || pod.gateway_root ≠ task.gateway_root || pod.policy ≠ task.policy)
        statement_mismatch
    reject_if (not (verify_gateway_root_signature x pod.gateway_root gateway_public_key))
        gateway_signature
    reject_if (not (verify_erasure_certificate_signature x pod.erasure auditor_public_key))
        erasure_signature
    pod_value ← ok_or (json.pod_statement pod) backend_protocol
    verifier.verify bundle.pod_relation_proof sp1_backend sp1_version
        (commitment x x.postcard.pod_statement pod) pod_value
    task_value ← ok_or (json.task_statement task) backend_protocol
    verifier.verify bundle.task_relation_proof sp1_backend sp1_version
        (commitment x x.postcard.task_statement task) task_value
    validate_task_proof_set task.sampled_statements bundle.task_proofs
    verify_task_proofs bundle.task_proofs
    ok (
        if pod.erasure.certificate.kind == audited_physical_erasure
          && is_some pod.policy.pod.unrecorded_channel_bound_bits
          && is_some pod.policy.pod.residual_state_bound_bits
        then paper_compliant
        else experimental)

  unfoldable pub verify_cupow_bundle : CuPowBundle → Bytes → Result VerifyError CuPowAssurance
  verify_cupow_bundle bundle auditor_public_key = do
    let statement = bundle.statement
    reject_if
        (bundle.protocol_version ≠ cupow_protocol_version
          || statement.protocol_version ≠ cupow_protocol_version)
        protocol_version_error
    reject_if
        (not (
          verify_cupow_capacity_signature x statement.contract.contract.capacity
            auditor_public_key))
        cupow_capacity_signature
    reject_if (not (verify_cupow_contract_signature x statement.contract auditor_public_key))
        cupow_contract_signature
    reject_if (not (verify_cupow_challenge_signature x statement.challenge auditor_public_key))
        cupow_challenge_signature
    reject_if (not (verify_cupow_completion_signature x statement.completion auditor_public_key))
        cupow_completion_signature
    reject_if (not (verify_erasure_certificate_signature x statement.erasure auditor_public_key))
        erasure_signature
    outcome ← elim (evaluate_cupow_relation x statement) [
      | ok o ↦ ok o
      | err _ ↦ err cupow_relation
    ]
    value ← ok_or (json.cupow_statement statement) backend_protocol
    verifier.verify bundle.proof cupow_zktorch_backend cupow_zktorch_version
        (commitment x x.postcard.cupow_statement statement) value
    ok outcome.assurance
