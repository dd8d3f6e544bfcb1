-- ===== src/Cli.antt =====
-- crates/pocomp-cli/src/main.rs: the commands of the `pocomp` tool. A file enters as what it reads as, a key
-- file as its trimmed text, and what a command prints or writes is its result.
pub mod Main
pub mod Prepared
pub mod Epoch
use verification_tooling.Prelude.{
  ℕ, List, [], ◌∷◌, Bool, true, false, ◌||◌, not, Bytes, Text, utf8, ltb, leb, ◌==◌, ◌≠◌, nat_eq,
  bytes_eq, length, drop, is_empty, Option, none, some, Result, ok, err, ◌>>=◌, ◌>>◌, reject_if,
  ok_or, if◌then◌else◌,
}
use verification_tooling.Types.{cupow_protocol_version}
use verification_tooling.Types.Records.{Hash32, hash32_eq, zero_hash, Direction, ingress, egress}
use verification_tooling.Types.Audit.{
  PodRelationInput, TaskRelationInput, RelationOutcome, ZkTorchStatement, TaskProgram,
  AuditContract, SignedAuditContract, ErasureCertificate, SignedErasureCertificate, AuditBundle,
  Assurance,
}
use verification_tooling.Types.CuPow.{
  CuPowCapacityCertificate, SignedCuPowCapacityCertificate, CuPowContract, SignedCuPowContract,
  CuPowWorkloadManifest, CuPowChallenge, SignedCuPowChallenge, CuPowCompletion,
  SignedCuPowCompletion, CuPowPublicStatement, CuPowOutcome, CuPowBundle, CuPowAssurance,
}
use verification_tooling.Primitives.{Primitives}
use verification_tooling.Commitment.{
  commitment, hash_bytes, task_artifact_id, task_program_commitment, cupow_workload_commitment,
  empty_aux_commitment, cupow_contract_digest, cupow_challenge_digest,
}
use verification_tooling.Crypto.{
  sign_audit_contract, sign_erasure_certificate, sign_cupow_capacity, sign_cupow_contract,
  sign_cupow_challenge, sign_cupow_completion, verify_cupow_contract_signature,
  verify_cupow_challenge_signature,
}
use verification_tooling.Relation.{RelationError}
use verification_tooling.Relation.Pod.{evaluate_pod_relation}
use verification_tooling.Relation.Task.{sampled_zktorch_statements, evaluate_task_relation}
use verification_tooling.CuPow.{CuPowError}
use verification_tooling.CuPow.Relation.{evaluate_cupow_relation, starts_with}
use verification_tooling.Verifier.{
  VerifyError, VerifyRequest, Exchange, SerdeJson, external_verifier, production, cupow,
  verify_audit_bundle, verify_cupow_bundle,
}

pub data CliError : Type 0 where
  unreadable not_hex wrong_length unwritable : CliError
  statements_present unknown_direction wrong_version : CliError
  not_signed outside_epoch zero_seed completion_mismatch : CliError
  relation_error : RelationError → CliError
  cupow_error : CuPowError → CliError
  verify_error : VerifyError → CliError

-- `?` on a result of another crate, by the constructor for its errors.
abbrev pub lift {ℓ κ} : {E : Type ℓ} {A : Type κ} → (E → CliError) → Result E A → Result CliError A
lift wrap (ok a) = ok a
lift wrap (err e) = err (wrap e)

-- The commands, with what their files read as.
pub data Command : Type 0 where
  verify_pod : Option PodRelationInput → Command
  verify_task : Option TaskRelationInput → Command
  verify_cupow : Option CuPowPublicStatement → Command
  prepare_task : Option TaskRelationInput → Command
  digest_zktorch : Option ZkTorchStatement → Command
  digest_file : Option Bytes → Command
  artifact_id : Text → Text → Text → Command
  program_commitment : Option TaskProgram → Command
  workload_commitment : Option CuPowWorkloadManifest → Command
  empty_aux : Command
  public_key : Option Text → Command
  verify_bundle : Option AuditBundle → Option Text → Option Text → Text → Text → Command
  sign_contract : Option AuditContract → Option Text → Command
  sign_erasure : Option ErasureCertificate → Option SignedErasureCertificate → Option Text → Command
  sign_capacity : Option CuPowCapacityCertificate → Option Text → Command
  sign_work_contract : Option CuPowContract → Option Text → Command
  issue_challenge : Option SignedCuPowContract → Text → ℕ → Option Text → Command
  sign_completion :
      Option SignedCuPowContract
      → Option SignedCuPowChallenge
      → Option CuPowCompletion
      → Option Text
      → Command
  verify_work_bundle : Option CuPowBundle → Option Text → Text → Command

-- What a command prints or writes.
pub data Output : Type 0 where
  relation_outcome : RelationOutcome → Output
  cupow_outcome : CuPowOutcome → Output
  task_input : TaskRelationInput → Output
  digest : Hash32 → Output
  key_bytes : Bytes → Output
  assurance : Assurance → Output
  cupow_assurance : CuPowAssurance → Output
  signed_contract : SignedAuditContract → Output
  signed_erasure : SignedErasureCertificate → Output
  signed_capacity : SignedCuPowCapacityCertificate → Output
  signed_work_contract : SignedCuPowContract → Output
  signed_challenge : SignedCuPowChallenge → Output
  signed_completion : SignedCuPowCompletion → Output

-- `encoded.strip_prefix("sha256:").unwrap_or(encoded)`
unfoldable pub strip_sha256 : Text → Text
unfolding utf8
strip_sha256 encoded = if starts_with (utf8 "sha256:") encoded then drop 7 encoded else encoded

-- `hex::decode`, and a conversion to 32 bytes.
unfoldable pub thirty_two : (Text → Option Bytes) → Text → Result CliError Bytes
thirty_two decode encoded = do
  bytes ← ok_or (decode encoded) not_hex
  reject_if (length bytes ≠ 32) wrong_length
  ok bytes

unfoldable pub parse_hash : (Text → Option Bytes) → Text → Result CliError Hash32
parse_hash decode encoded = do
  bytes ← thirty_two decode (strip_sha256 encoded)
  ok (record { bytes = bytes })

-- `read_signing_key` and `read_public_key`.
unfoldable pub read_key : (Text → Option Bytes) → Option Text → Result CliError Bytes
read_key decode file = do encoded ← ok_or file unreadable; thirty_two decode encoded

unfoldable pub parse_direction : Text → Result CliError Direction
unfolding utf8
parse_direction direction =
    if direction == utf8 "ingress"
    then ok ingress
    else (if direction == utf8 "egress" then ok egress else err unknown_direction)

-- `write_json` and `write_json_new`, where the write succeeds or not.
abbrev pub write : Bool → Output → Result CliError Output
write true output = ok output
write false output = err unwritable
