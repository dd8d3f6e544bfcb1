-- ===== src/Runner/Cuda.antt =====
-- About the CUDA path of crates/pocomp-cupow-runner/src/main.rs.
use verification_tooling.Prelude.{ℕ, length, some, true, false, ◌≡◌, ◌≢◌, ◌↔◌, arith, Bytes, ok}
use verification_tooling.Types.{cupow_protocol_version}
use verification_tooling.Types.Records.{zero_hash}
use verification_tooling.Types.CuPow.{SignedCuPowContract, SignedCuPowChallenge}
use verification_tooling.Primitives.{Primitives}
use verification_tooling.Commitment.{cupow_challenge_digest, hash_bytes}
use verification_tooling.Crypto.{
  verify_cupow_capacity_signature, verify_cupow_contract_signature,
  verify_cupow_challenge_signature,
}
use verification_tooling.Runner.{
  PrivateWorkload, ExecutorResult, CudaExecutorResult, CudaCall, cuda, RunnerFiles, WitnessEncoding,
  validate_result, validate_cuda_result, run_cuda, execute_command, runner_main,
}
use verification_tooling.Runner.Inputs.{
  InputsBound, validate_inputs_iff, TranscriptsShaped, check_transcripts_iff,
}
use verification_tooling.Runner.Stages.{
  runner_main-Passed, write_json_new_iff, run_cuda-Called, validate_cuda_result_lem,
}

-- What stands behind a result that the runner writes on its CUDA path.
pub record CudaAccepted (x : Primitives) (encoding : WitnessEncoding) (files : RunnerFiles)
    (call : CudaCall) (result : ExecutorResult) : Type 0 where
  pub contract : SignedCuPowContract
  pub challenge : SignedCuPowChallenge
  pub workload : PrivateWorkload
  pub key : Bytes
  pub binary : Bytes
  pub raw : CudaExecutorResult
  pub contract_read : files.contract ≡ some contract
  pub challenge_read : files.challenge ≡ some challenge
  pub workload_read : files.workload ≡ some workload
  pub key_read : files.auditor_public_key ≡ some key
  pub capacity_signed : verify_cupow_capacity_signature x contract.contract.capacity key ≡ true
  pub contract_signed : verify_cupow_contract_signature x contract key ≡ true
  pub challenge_signed : verify_cupow_challenge_signature x challenge key ≡ true
  pub inputs : InputsBound x contract challenge workload
  pub binary_read : call.binary ≡ some binary
  pub pinned : hash_bytes x binary ≡ contract.contract.capacity.certificate.runner_binary_digest
  pub temporary_free : call.temporary_present ≡ false
  pub ended : call.status ≡ some true
  pub raw_read : call.raw ≡ some raw
  pub version : raw.protocol_version ≡ cupow_protocol_version
  pub challenged : raw.challenge_digest ≡ cupow_challenge_digest x challenge.challenge
  pub transcripts_counted :
      length raw.operation_transcripts ≡ length contract.contract.manifest.items
  pub outputs_counted : length raw.decoded_outputs ≡ length contract.contract.manifest.items
  pub work_same : raw.security_work_f251_macs ≡ contract.contract.manifest.security_work_f251_macs
  pub shaped :
      TranscriptsShaped contract.contract.policy.tile_size raw.operation_transcripts
        raw.decoded_outputs contract.contract.manifest.items
  pub witness_free : call.witness_output ≢ some true
  pub moved : call.moved ≡ true
  pub output_free : files.output_present ≡ false
  pub output_written : files.output_written ≡ true
  pub witnessed : result.witness_digest ≢ zero_hash
  pub reported : result ≡ record {
    protocol_version = cupow_protocol_version;
    challenge_digest = cupow_challenge_digest x challenge.challenge;
    witness_digest = hash_bytes x (encoding.cuda_result raw);
    security_work_f251_macs = contract.contract.manifest.security_work_f251_macs;
  }

module _ (x : Primitives) (encoding : WitnessEncoding) (fuel : ℕ) (files : RunnerFiles)
    (call : CudaCall) (result : ExecutorResult) where
  accepted_back :
      CudaAccepted x encoding files call result
      → runner_main x encoding fuel files (cuda call) ≡ ok result
  unfolding runner_main execute_command run_cuda validate_cuda_result validate_result
  accepted_back a =
      let inputs =
        (validate_inputs_iff x encoding fuel a.contract a.challenge a.workload).1 a.inputs in
      let shapes =
        (check_transcripts_iff a.contract.contract.policy.tile_size a.raw.operation_transcripts
            a.raw.decoded_outputs a.contract.contract.manifest.items).1
          a.shaped in
      let saved =
        (write_json_new_iff x encoding fuel files call result).1
          (a.output_free, a.output_written) in
      ground (
        arith, inputs, shapes, a.contract_read, a.challenge_read, a.workload_read, a.key_read,
        a.capacity_signed, a.contract_signed, a.challenge_signed, a.binary_read, a.pinned,
        a.temporary_free, a.ended, a.raw_read, a.version, a.challenged, a.transcripts_counted,
        a.outputs_counted, a.work_same, a.witness_free, a.moved, saved, a.witnessed, a.reported,
      )

  accepted :
      runner_main x encoding fuel files (cuda call) ≡ ok result
      → CudaAccepted x encoding files call result
  unfolding execute_command
  accepted h =
      let p = runner_main-Passed x encoding fuel files call result h in
      let saved = (write_json_new_iff x encoding fuel files call result).0 p.saved in
      let c = run_cuda-Called x encoding fuel files call result p.contract p.challenge p.executed in
      let v =
        validate_cuda_result_lem x encoding fuel files call result c.raw p.contract p.challenge
          c.validated in
      record {
        contract = p.contract;
        challenge = p.challenge;
        workload = p.workload;
        key = p.key;
        binary = c.binary;
        raw = c.raw;
        contract_read = p.contract_read;
        challenge_read = p.challenge_read;
        workload_read = p.workload_read;
        key_read = p.key_read;
        capacity_signed = p.capacity_signed;
        contract_signed = p.contract_signed;
        challenge_signed = p.challenge_signed;
        inputs =
            (validate_inputs_iff x encoding fuel p.contract p.challenge p.workload).0
              p.inputs_valid;
        binary_read = c.binary_read;
        pinned = c.pinned;
        temporary_free = c.temporary_free;
        ended = c.ended;
        raw_read = c.raw_read;
        version = v.version;
        challenged = v.challenged;
        transcripts_counted = v.transcripts_counted;
        outputs_counted = v.outputs_counted;
        work_same = v.work_same;
        shaped =
            (check_transcripts_iff p.contract.contract.policy.tile_size c.raw.operation_transcripts
                c.raw.decoded_outputs p.contract.contract.manifest.items).0
              v.checked;
        witness_free = c.witness_free;
        moved = c.moved;
        output_free = saved.0;
        output_written = saved.1;
        witnessed = p.witnessed;
        reported = v.reported;
      }

  -- The runner writes a result on its CUDA path exactly when the auditor's key signed capacity,
  -- contract and challenge, the workload agrees with them, the executable has the certified
  -- digest, no file is overwritten, the process succeeds, its transcripts have the shape and
  -- number that the contract's items ask for, the output can be created, written and synced, and
  -- the result is the one that reports the digest of what the process wrote: there is no other
  -- way to a result.
  pub runner_main_iff :
      (runner_main x encoding fuel files (cuda call) ≡ ok result)
      ↔ CudaAccepted x encoding files call result
  runner_main_iff = (accepted, accepted_back)
