-- ===== src/Runner/Stages.antt =====
-- What the CUDA path of crates/pocomp-cupow-runner/src/main.rs has found out at each stage.
use verification_tooling.Prelude.{
  ◌↔◌, ℕ, length, Option-cases, some, true, false, ◌≡◌, ◌≢◌, inl, inr, arith, Bytes, ok, ok_or-some,
}
use verification_tooling.Types.{cupow_protocol_version}
use verification_tooling.Types.Records.{zero_hash}
use verification_tooling.Types.CuPow.{SignedCuPowContract, SignedCuPowChallenge}
use verification_tooling.Primitives.{Primitives}
use verification_tooling.Commitment.{cupow_challenge_digest, hash_bytes}
use verification_tooling.Crypto.{
  verify_cupow_capacity_signature, verify_cupow_contract_signature,
  verify_cupow_challenge_signature,
}
use verification_tooling.Runner.{
  PrivateWorkload, ExecutorResult, CudaExecutorResult, unreadable, CudaCall, cuda, RunnerFiles,
  WitnessEncoding, write_json_new, validate_inputs, check_transcripts, validate_result,
  validate_cuda_result, run_cuda, execute_command, runner_main,
}

-- What `main` has found out when it writes a result of the CUDA call.
pub record Passed (x : Primitives) (encoding : WitnessEncoding) (fuel : ℕ) (files : RunnerFiles)
    (call : CudaCall) (result : ExecutorResult) : Type 0 where
  pub contract : SignedCuPowContract
  pub challenge : SignedCuPowChallenge
  pub workload : PrivateWorkload
  pub key : Bytes
  pub contract_read : files.contract ≡ some contract
  pub challenge_read : files.challenge ≡ some challenge
  pub workload_read : files.workload ≡ some workload
  pub key_read : files.auditor_public_key ≡ some key
  pub capacity_signed : verify_cupow_capacity_signature x contract.contract.capacity key ≡ true
  pub contract_signed : verify_cupow_contract_signature x contract key ≡ true
  pub challenge_signed : verify_cupow_challenge_signature x challenge key ≡ true
  pub inputs_valid : validate_inputs x encoding fuel contract challenge workload ≡ ok tt
  pub executed : run_cuda x encoding fuel call contract challenge ≡ ok result
  pub witnessed : result.witness_digest ≢ zero_hash
  pub saved : write_json_new files ≡ ok tt

pub record Called (x : Primitives) (encoding : WitnessEncoding) (fuel : ℕ) (call : CudaCall)
    (contract : SignedCuPowContract) (challenge : SignedCuPowChallenge) (result : ExecutorResult)
    : Type 0 where
  pub binary : Bytes
  pub raw : CudaExecutorResult
  pub binary_read : call.binary ≡ some binary
  pub pinned : hash_bytes x binary ≡ contract.contract.capacity.certificate.runner_binary_digest
  pub temporary_free : call.temporary_present ≡ false
  pub ended : call.status ≡ some true
  pub raw_read : call.raw ≡ some raw
  pub validated : validate_cuda_result x encoding fuel raw contract challenge ≡ ok result
  pub witness_free : call.witness_output ≢ some true
  pub moved : call.moved ≡ true

pub record Validated (x : Primitives) (encoding : WitnessEncoding) (raw : CudaExecutorResult)
    (contract : SignedCuPowContract) (challenge : SignedCuPowChallenge) (result : ExecutorResult)
    : Type 0 where
  pub version : raw.protocol_version ≡ cupow_protocol_version
  pub challenged : raw.challenge_digest ≡ cupow_challenge_digest x challenge.challenge
  pub transcripts_counted :
      length raw.operation_transcripts ≡ length contract.contract.manifest.items
  pub outputs_counted : length raw.decoded_outputs ≡ length contract.contract.manifest.items
  pub work_same : raw.security_work_f251_macs ≡ contract.contract.manifest.security_work_f251_macs
  pub checked :
      check_transcripts contract.contract.policy.tile_size raw.operation_transcripts
        raw.decoded_outputs contract.contract.manifest.items
      ≡ ok tt
  pub reported : result ≡ record {
    protocol_version = cupow_protocol_version;
    challenge_digest = cupow_challenge_digest x challenge.challenge;
    witness_digest = hash_bytes x (encoding.cuda_result raw);
    security_work_f251_macs = contract.contract.manifest.security_work_f251_macs;
  }

module _ (x : Primitives) (encoding : WitnessEncoding) (fuel : ℕ) (files : RunnerFiles)
    (call : CudaCall) (result : ExecutorResult) where
  pub runner_main-Passed :
      runner_main x encoding fuel files (cuda call) ≡ ok result
      → Passed x encoding fuel files call result
  unfolding runner_main execute_command validate_result
  runner_main-Passed h =
      let (contract, e1, h1) = ok_or-some files.contract unreadable _ result h in
      let (challenge, e2, h2) = ok_or-some files.challenge unreadable _ result h1 in
      let (workload, e3, h3) = ok_or-some files.workload unreadable _ result h2 in
      let (key, e4, h4) = ok_or-some files.auditor_public_key unreadable _ result h3 in
      record {
        contract = contract;
        challenge = challenge;
        workload = workload;
        key = key;
        contract_read = e1;
        challenge_read = e2;
        workload_read = e3;
        key_read = e4;
        capacity_signed = ground arith;
        contract_signed = ground arith;
        challenge_signed = ground arith;
        inputs_valid = ground arith;
        executed = ground arith;
        witnessed = ground arith;
        saved = ground arith;
      }

  pub run_cuda-Called :
      (contract : SignedCuPowContract) (challenge : SignedCuPowChallenge)
      → run_cuda x encoding fuel call contract challenge ≡ ok result
      → Called x encoding fuel call contract challenge result
  unfolding run_cuda
  run_cuda-Called contract challenge h =
      let (binary, e, h1) = ok_or-some call.binary unreadable _ result h in
      let read : (b : CudaExecutorResult) × (call.raw ≡ some b) = elim (Option-cases call.raw) [
        | inl e ↦ absurd (ground arith)
        | inr r ↦ r
      ] in
      let raw_read = read.1 in
      record {
        binary = binary;
        raw = read.0;
        binary_read = e;
        pinned = ground arith;
        temporary_free = ground arith;
        ended = ground arith;
        raw_read = read.1;
        validated = ground (arith, raw_read);
        witness_free = ground arith;
        moved = ground arith;
      }

  pub validate_cuda_result_lem :
      (raw : CudaExecutorResult) (contract : SignedCuPowContract) (challenge : SignedCuPowChallenge)
      → validate_cuda_result x encoding fuel raw contract challenge ≡ ok result
      → Validated x encoding raw contract challenge result
  unfolding validate_cuda_result
  validate_cuda_result_lem raw contract challenge h = record {
    version = ground arith;
    challenged = ground arith;
    transcripts_counted = ground arith;
    outputs_counted = ground arith;
    work_same = ground arith;
    checked = ground arith;
    reported = ground arith;
  }

  pub write_json_new_iff :
      (write_json_new files ≡ ok tt)
      ↔ ((files.output_present ≡ false) × (files.output_written ≡ true))
  unfolding write_json_new
  write_json_new_iff = (λ h. (ground arith, ground arith), λ h. ground (arith, h.0, h.1))
