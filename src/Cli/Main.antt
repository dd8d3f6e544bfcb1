-- ===== src/Cli/Main.antt =====
-- The handlers of the commands of crates/pocomp-cli/src/main.rs.
use verification_tooling.Prelude.{
  ℕ, Bool, ◌||◌, not, Bytes, Text, ltb, leb, ◌==◌, ◌≠◌, nat_eq, bytes_eq, is_empty, Option, none,
  some, Result, ok, ◌>>=◌, ◌>>◌, reject_if, ok_or,
}
use verification_tooling.Types.{cupow_protocol_version}
use verification_tooling.Types.Records.{hash32_eq, zero_hash}
use verification_tooling.Types.Audit.{
  TaskRelationInput, ErasureCertificate, SignedErasureCertificate, AuditBundle, Assurance,
}
use verification_tooling.Types.CuPow.{
  CuPowCapacityCertificate, SignedCuPowCapacityCertificate, CuPowContract, SignedCuPowContract,
  CuPowChallenge, SignedCuPowChallenge, CuPowCompletion, SignedCuPowCompletion, CuPowBundle,
  CuPowAssurance,
}
use verification_tooling.Primitives.{Primitives}
use verification_tooling.Commitment.{
  commitment, hash_bytes, task_artifact_id, task_program_commitment, cupow_workload_commitment,
  empty_aux_commitment, cupow_contract_digest, cupow_challenge_digest,
}
use verification_tooling.Crypto.{
  sign_audit_contract, sign_erasure_certificate, sign_cupow_capacity, sign_cupow_contract,
  sign_cupow_challenge, sign_cupow_completion, verify_cupow_contract_signature,
  verify_cupow_challenge_signature,
}
use verification_tooling.Relation.Pod.{evaluate_pod_relation}
use verification_tooling.Relation.Task.{sampled_zktorch_statements, evaluate_task_relation}
use verification_tooling.CuPow.Relation.{evaluate_cupow_relation}
use verification_tooling.Verifier.{
  VerifyRequest, Exchange, SerdeJson, external_verifier, production, cupow, verify_audit_bundle,
  verify_cupow_bundle,
}
use verification_tooling.Cli.{
  CliError, unreadable, statements_present, wrong_version, not_signed, outside_epoch, zero_seed,
  completion_mismatch, relation_error, cupow_error, verify_error, lift, Command, verify_pod,
  verify_task, verify_cupow, prepare_task, digest_zktorch, digest_file, artifact_id,
  program_commitment, workload_commitment, empty_aux, public_key, verify_bundle, sign_contract,
  sign_erasure, sign_capacity, sign_work_contract, issue_challenge, sign_completion,
  verify_work_bundle, Output, relation_outcome, cupow_outcome, task_input, digest, key_bytes,
  assurance, cupow_assurance, signed_contract, signed_erasure, signed_capacity,
  signed_work_contract, signed_challenge, signed_completion, parse_hash, read_key, parse_direction,
  write,
}

-- `decode` is `hex::decode`, and `writable` tells whether the output can be written.
module _ (x : Primitives) (decode : Text → Option Bytes) (writable : Bool) where
  unfoldable pub run_prepare_task : Option TaskRelationInput → Result CliError TaskRelationInput
  run_prepare_task file = do
    input ← ok_or file unreadable
    reject_if (not (is_empty input.sampled_statements)) statements_present
    statements ←
        lift relation_error
          (sampled_zktorch_statements x input.policy input.epoch input.program input.leaves)
    let relation : TaskRelationInput = record input { sampled_statements = statements }
    outcome ← lift relation_error (evaluate_task_relation x relation)
    ok relation

  unfoldable pub run_sign_erasure :
      Option ErasureCertificate
      → Option SignedErasureCertificate
      → Option Text
      → Result CliError SignedErasureCertificate
  run_sign_erasure (some certificate) draft key_file = do
    key ← read_key decode key_file
    ok (sign_erasure_certificate x certificate key)
  run_sign_erasure none draft key_file = do
    signed ← ok_or draft unreadable
    key ← read_key decode key_file
    ok (sign_erasure_certificate x signed.certificate key)

  unfoldable pub run_sign_capacity :
      Option CuPowCapacityCertificate → Option Text → Result CliError SignedCuPowCapacityCertificate
  run_sign_capacity file key_file = do
    certificate ← ok_or file unreadable
    reject_if (certificate.protocol_version ≠ cupow_protocol_version) wrong_version
    key ← read_key decode key_file
    ok (sign_cupow_capacity x certificate key)

  unfoldable pub run_sign_work_contract :
      Option CuPowContract → Option Text → Result CliError SignedCuPowContract
  run_sign_work_contract file key_file = do
    contract ← ok_or file unreadable
    reject_if (contract.protocol_version ≠ cupow_protocol_version) wrong_version
    key ← read_key decode key_file
    ok (sign_cupow_contract x contract key)

  unfoldable pub run_issue_challenge :
      Option SignedCuPowContract → Text → ℕ → Option Text → Result CliError SignedCuPowChallenge
  run_issue_challenge file seed_hex issued_at_ns key_file = do
    signed ← ok_or file unreadable
    key ← read_key decode key_file
    reject_if (not (verify_cupow_contract_signature x signed (x.ed25519.verifying_key key)))
        not_signed
    let contract = signed.contract
    reject_if
        (ltb issued_at_ns contract.epoch.opened_at_ns
          || leb contract.epoch.closed_at_ns issued_at_ns)
        outside_epoch
    seed ← parse_hash decode seed_hex
    reject_if (seed == zero_hash) zero_seed
    let fresh : CuPowChallenge = record {
      protocol_version = cupow_protocol_version;
      epoch_id = contract.epoch.epoch_id;
      contract_digest = cupow_contract_digest x contract;
      seed = seed;
      issued_at_ns = issued_at_ns;
      deadline_ns = contract.epoch.closed_at_ns;
    }
    ok (sign_cupow_challenge x fresh key)

  unfoldable pub mismatched : CuPowContract → CuPowChallenge → CuPowCompletion → Bool
  mismatched contract challenge completion =
      completion.protocol_version ≠ cupow_protocol_version
      || completion.epoch_id ≠ contract.epoch.epoch_id
      || completion.challenge_digest ≠ cupow_challenge_digest x challenge
      || completion.security_work_f251_macs ≠ contract.manifest.security_work_f251_macs
      || ltb completion.completed_at_ns challenge.issued_at_ns
      || ltb challenge.deadline_ns completion.completed_at_ns
      || completion.transcript_root == zero_hash
      || completion.output_root == zero_hash

  unfoldable pub run_sign_completion :
      Option SignedCuPowContract
      → Option SignedCuPowChallenge
      → Option CuPowCompletion
      → Option Text
      → Result CliError SignedCuPowCompletion
  run_sign_completion contract_file challenge_file completion_file key_file = do
    contract ← ok_or contract_file unreadable
    challenge ← ok_or challenge_file unreadable
    completion ← ok_or completion_file unreadable
    key ← read_key decode key_file
    reject_if
        (not (verify_cupow_contract_signature x contract (x.ed25519.verifying_key key))
          || not (verify_cupow_challenge_signature x challenge (x.ed25519.verifying_key key)))
        not_signed
    reject_if (mismatched contract.contract challenge.challenge completion) completion_mismatch
    ok (sign_cupow_completion x completion key)

  module _ (json : SerdeJson) (exchange : Text → VerifyRequest → Exchange) where
    unfoldable pub run_verify_bundle :
        Option AuditBundle → Option Text → Option Text → Text → Text → Result CliError Assurance
    run_verify_bundle file gateway_file auditor_file sp1_verifier zktorch_verifier = do
      gateway_key ← read_key decode gateway_file
      auditor_key ← read_key decode auditor_file
      bundle ← ok_or file unreadable
      lift verify_error (
          verify_audit_bundle x json
            (external_verifier exchange (production sp1_verifier zktorch_verifier)) bundle
            auditor_key gateway_key)

    unfoldable pub run_verify_work_bundle :
        Option CuPowBundle → Option Text → Text → Result CliError CuPowAssurance
    run_verify_work_bundle file auditor_file zktorch_verifier = do
      auditor_key ← read_key decode auditor_file
      bundle ← ok_or file unreadable
      lift verify_error (
          verify_cupow_bundle x json (external_verifier exchange (cupow zktorch_verifier)) bundle
            auditor_key)

    -- `main`, by the command.
    unfoldable pub cli_main : Command → Result CliError Output
    cli_main (verify_pod file) = do
      input ← ok_or file unreadable
      outcome ← lift relation_error (evaluate_pod_relation x input)
      ok (relation_outcome outcome)
    cli_main (verify_task file) = do
      input ← ok_or file unreadable
      outcome ← lift relation_error (evaluate_task_relation x input)
      ok (relation_outcome outcome)
    cli_main (verify_cupow file) = do
      statement ← ok_or file unreadable
      outcome ← lift cupow_error (evaluate_cupow_relation x statement)
      ok (cupow_outcome outcome)
    cli_main (prepare_task file) = do
      relation ← run_prepare_task file
      write writable (task_input relation)
    cli_main (digest_zktorch file) = do
      statement ← ok_or file unreadable
      ok (digest (commitment x x.postcard.zktorch_statement statement))
    cli_main (digest_file file) = do bytes ← ok_or file unreadable; ok (digest (hash_bytes x bytes))
    cli_main (artifact_id epoch_id task_id name) = do
      direction ← parse_direction name
      ok (digest (task_artifact_id x epoch_id task_id direction))
    cli_main (program_commitment file) = do
      program ← ok_or file unreadable
      ok (digest (task_program_commitment x program))
    cli_main (workload_commitment file) = do
      manifest ← ok_or file unreadable
      ok (digest (cupow_workload_commitment x manifest))
    cli_main empty_aux = ok (digest (empty_aux_commitment x))
    cli_main (public_key key_file) = do
      key ← read_key decode key_file
      ok (key_bytes (x.ed25519.verifying_key key))
    cli_main (verify_bundle file gateway_file auditor_file sp1_verifier zktorch_verifier) = do
      found ← run_verify_bundle file gateway_file auditor_file sp1_verifier zktorch_verifier
      ok (assurance found)
    cli_main (sign_contract file key_file) = do
      contract ← ok_or file unreadable
      key ← read_key decode key_file
      write writable (signed_contract (sign_audit_contract x contract key))
    cli_main (sign_erasure file draft key_file) = do
      signed ← run_sign_erasure file draft key_file
      write writable (signed_erasure signed)
    cli_main (sign_capacity file key_file) = do
      signed ← run_sign_capacity file key_file
      write writable (signed_capacity signed)
    cli_main (sign_work_contract file key_file) = do
      signed ← run_sign_work_contract file key_file
      write writable (signed_work_contract signed)
    cli_main (issue_challenge file seed_hex issued_at_ns key_file) = do
      signed ← run_issue_challenge file seed_hex issued_at_ns key_file
      write writable (signed_challenge signed)
    cli_main (sign_completion contract_file challenge_file completion_file key_file) = do
      signed ← run_sign_completion contract_file challenge_file completion_file key_file
      write writable (signed_completion signed)
    cli_main (verify_work_bundle file auditor_file zktorch_verifier) = do
      found ← run_verify_work_bundle file auditor_file zktorch_verifier
      ok (cupow_assurance found)
