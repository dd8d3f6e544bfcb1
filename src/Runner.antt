-- ===== src/Runner.antt =====
-- crates/pocomp-cupow-runner/src/main.rs: the cuPOW runner. Files, the CUDA process and the encodings of its
-- private witnesses enter as arguments.
pub mod Execution
pub mod Inputs
pub mod Stages
pub mod Cuda
use verification_tooling.Prelude.{
  ℕ, zero, suc, ◌-◌, ◌/◌, List, [], ◌∷◌, Bool, true, false, ◌||◌, not, ◌==◌, ◌≠◌, nat_eq, bytes_eq,
  ltb, length, Bytes, Text, Option, none, some, Result, ok, err, ◌>>=◌, ◌>>◌, reject_if, ok_or,
  if◌then◌else◌,
}
use verification_tooling.Types.{cupow_protocol_version}
use verification_tooling.Types.Records.{Hash32, zero_hash, hash32_eq}
use verification_tooling.Types.CuPow.{
  CuPowChallenge, CuPowWorkItem, SignedCuPowContract, SignedCuPowChallenge,
}
use verification_tooling.Primitives.{Primitives}
use verification_tooling.Commitment.{cupow_contract_digest, cupow_challenge_digest, hash_bytes}
use verification_tooling.Crypto.{
  verify_cupow_capacity_signature, verify_cupow_contract_signature,
  verify_cupow_challenge_signature,
}
use verification_tooling.CuPow.{cupow_production_noise_rank}
use verification_tooling.CuPow.Matrix.{F251Matrix}
use verification_tooling.CuPow.Product.{Fault, panicked}
use verification_tooling.CuPow.Execute.{execute_cupow}
use verification_tooling.CuPow.Noise.{derive_cupow_noise}

pub record PrivateWorkItem : Type 0 where
  pub operation_id : Text
  pub left : F251Matrix
  pub right : F251Matrix

pub record PrivateWorkload : Type 0 where
  pub workload_id : Text
  pub items : List PrivateWorkItem

pub record ExecutorResult : Type 0 where
  pub protocol_version : Text
  pub challenge_digest : Hash32
  pub witness_digest : Hash32
  pub security_work_f251_macs : ℕ

pub record CudaExecutorResult : Type 0 where
  pub protocol_version : Text
  pub challenge_digest : Hash32
  pub operation_transcripts : List (List F251Matrix)
  pub decoded_outputs : List F251Matrix
  pub security_work_f251_macs : ℕ

-- The messages of the `bail!`s and of the contexts, and the faults of the protocol crate.
pub data RunnerError : Type 0 where
  unreadable not_signed bindings_disagree shape_mismatch oracle_limit : RunnerError
  result_mismatch witness_mismatch invalid_transcript_shape : RunnerError
  executor_digest_mismatch temporary_exists not_started executor_failed : RunnerError
  witness_exists file_system_error output_exists output_not_written : RunnerError
  protocol_fault : Fault → RunnerError

-- `?` on a result of the protocol crate.
abbrev pub run {ℓ} : {A : Type ℓ} → Result Fault A → Result RunnerError A
run (ok a) = ok a
run (err e) = err (protocol_fault e)

-- `a.min(b)`
unfoldable pub smaller : ℕ → ℕ → ℕ
smaller a b = if ltb b a then b else a

-- `items.iter().zip(&manifest.items)`, up to the end of the shorter list.
unfoldable pub any_shape_mismatch : List PrivateWorkItem → List CuPowWorkItem → Bool
any_shape_mismatch [] publics = false
any_shape_mismatch (private ∷ privates) [] = false
any_shape_mismatch (private ∷ privates) (item ∷ items) =
    private.operation_id ≠ item.operation_id
    || private.left.rows ≠ item.n
    || private.left.columns ≠ item.n
    || private.right.rows ≠ item.n
    || private.right.columns ≠ item.n
    || any_shape_mismatch privates items

-- Whether some matrix of a transcript has another shape.
unfoldable pub any_other_shape : ℕ → List F251Matrix → Bool
any_other_shape n [] = false
any_other_shape n (matrix ∷ matrices) =
    matrix.rows ≠ n || matrix.columns ≠ n || any_other_shape n matrices

-- The loop of `validate_cuda_result`; the division panics for a tile size of 0.
unfoldable pub check_transcripts :
    ℕ
    → List (List F251Matrix)
    → List F251Matrix
    → List CuPowWorkItem
    → Result RunnerError (Unit {0})
check_transcripts tile_size [] outputs items = ok tt
check_transcripts tile_size (transcript ∷ transcripts) [] items = ok tt
check_transcripts tile_size (transcript ∷ transcripts) (output ∷ outputs) [] = ok tt
check_transcripts tile_size (transcript ∷ transcripts) (output ∷ outputs) (item ∷ items) = do
  reject_if (tile_size == 0) (protocol_fault panicked)
  reject_if
      (length transcript ≠ item.n / tile_size
        || any_other_shape item.n transcript
        || output.rows ≠ item.n
        || output.columns ≠ item.n)
      invalid_transcript_shape
  check_transcripts tile_size transcripts outputs items

-- What a call of the CUDA executor meets: the bytes of the executable, whether the temporary result
-- exists, how the process ended (`none` where it did not start, as with a path that is not UTF-8),
-- the result it wrote, whether a witness is to be kept at a path and exists there, and whether
-- moving or removing the temporary result succeeds.
pub record CudaCall : Type 0 where
  pub binary : Option Bytes
  pub temporary_present : Bool
  pub status : Option Bool
  pub raw : Option CudaExecutorResult
  pub witness_output : Option Bool
  pub moved : Bool

pub data RunnerCommand : Type 0 where
  cuda : CudaCall → RunnerCommand
  reference_test_only : RunnerCommand

-- The files that `main` reads, whether the output exists already, and whether creating, writing and
-- syncing it succeed otherwise.
pub record RunnerFiles : Type 0 where
  pub contract : Option SignedCuPowContract
  pub challenge : Option SignedCuPowChallenge
  pub workload : Option PrivateWorkload
  pub auditor_public_key : Option Bytes
  pub output_present : Bool
  pub output_written : Bool

-- The output is created anew, written and synced.
unfoldable pub write_json_new : RunnerFiles → Result RunnerError (Unit {0})
write_json_new files = do
  reject_if files.output_present output_exists
  reject_if (not files.output_written) output_not_written

-- Whether a path is given and exists.
abbrev if_present : Option Bool → Bool
if_present none = false
if_present (some present) = present

-- `canonical_bytes` of the executions and of the raw result.
pub record WitnessEncoding : Type 0 where
  pub executions : List (List F251Matrix × F251Matrix) → Bytes
  pub cuda_result : CudaExecutorResult → Bytes

module _ (x : Primitives) (encoding : WitnessEncoding) (fuel : ℕ) where
  unfoldable pub validate_inputs :
      SignedCuPowContract → SignedCuPowChallenge → PrivateWorkload → Result RunnerError (Unit {0})
  validate_inputs contract challenge workload = do
    reject_if
        (contract.contract.protocol_version ≠ cupow_protocol_version
          || challenge.challenge.protocol_version ≠ cupow_protocol_version
          || challenge.challenge.contract_digest ≠ cupow_contract_digest x contract.contract
          || challenge.challenge.epoch_id ≠ contract.contract.epoch.epoch_id
          || challenge.challenge.seed == zero_hash
          || workload.workload_id ≠ contract.contract.manifest.workload_id
          || length workload.items ≠ length contract.contract.manifest.items)
        bindings_disagree
    reject_if (any_shape_mismatch workload.items contract.contract.manifest.items) shape_mismatch

  -- The loop of `run_reference`. With no rows the subtraction `rows - 1` overflows `u32`, a panic.
  unfoldable pub run_items :
      SignedCuPowContract
      → CuPowChallenge
      → List PrivateWorkItem
      → Result RunnerError (List (List F251Matrix × F251Matrix))
  run_items contract challenge [] = ok []
  run_items contract challenge (item ∷ items) = do
    reject_if (ltb 64 item.left.rows) oracle_limit
    reject_if (item.left.rows == 0) (protocol_fault panicked)
    noise ← run (
        derive_cupow_noise x fuel challenge.seed contract.contract.epoch.workload_commitment
          item.operation_id item.left.rows
          (smaller cupow_production_noise_rank (item.left.rows - 1)))
    execution ← run (
        execute_cupow item.left item.right noise
          (smaller contract.contract.policy.tile_size item.left.rows))
    rest ← run_items contract challenge items
    ok ((execution.transcript, execution.decoded_output) ∷ rest)

  unfoldable pub run_reference :
      SignedCuPowContract → CuPowChallenge → PrivateWorkload → Result RunnerError ExecutorResult
  run_reference contract challenge workload = do
    executions ← run_items contract challenge workload.items
    ok (record {
      protocol_version = cupow_protocol_version;
      challenge_digest = cupow_challenge_digest x challenge;
      witness_digest = hash_bytes x (encoding.executions executions);
      security_work_f251_macs = contract.contract.manifest.security_work_f251_macs;
    })

  unfoldable pub validate_result :
      ExecutorResult → SignedCuPowContract → SignedCuPowChallenge → Result RunnerError (Unit {0})
  validate_result result contract challenge =
      reject_if
        (result.protocol_version ≠ cupow_protocol_version
          || result.challenge_digest ≠ cupow_challenge_digest x challenge.challenge
          || result.witness_digest == zero_hash
          || result.security_work_f251_macs ≠ contract.contract.manifest.security_work_f251_macs)
        result_mismatch

  unfoldable pub validate_cuda_result :
      CudaExecutorResult
      → SignedCuPowContract
      → SignedCuPowChallenge
      → Result RunnerError ExecutorResult
  validate_cuda_result raw contract challenge = do
    reject_if
        (raw.protocol_version ≠ cupow_protocol_version
          || raw.challenge_digest ≠ cupow_challenge_digest x challenge.challenge
          || length raw.operation_transcripts ≠ length contract.contract.manifest.items
          || length raw.decoded_outputs ≠ length contract.contract.manifest.items
          || raw.security_work_f251_macs ≠ contract.contract.manifest.security_work_f251_macs)
        witness_mismatch
    check_transcripts contract.contract.policy.tile_size raw.operation_transcripts
        raw.decoded_outputs contract.contract.manifest.items
    ok (record {
      protocol_version = raw.protocol_version;
      challenge_digest = raw.challenge_digest;
      witness_digest = hash_bytes x (encoding.cuda_result raw);
      security_work_f251_macs = raw.security_work_f251_macs;
    })

  -- The arm of the `cuda` command.
  unfoldable pub run_cuda :
      CudaCall → SignedCuPowContract → SignedCuPowChallenge → Result RunnerError ExecutorResult
  run_cuda call contract challenge = do
    binary ← ok_or call.binary unreadable
    reject_if (hash_bytes x binary ≠ contract.contract.capacity.certificate.runner_binary_digest)
        executor_digest_mismatch
    reject_if call.temporary_present temporary_exists
    success ← ok_or call.status not_started
    reject_if (not success) executor_failed
    raw ← ok_or call.raw unreadable
    result ← validate_cuda_result raw contract challenge
    reject_if (if_present call.witness_output) witness_exists
    reject_if (not call.moved) file_system_error
    ok result

  unfoldable pub execute_command :
      RunnerCommand
      → SignedCuPowContract
      → SignedCuPowChallenge
      → PrivateWorkload
      → Result RunnerError ExecutorResult
  execute_command (cuda call) contract challenge workload = run_cuda call contract challenge
  execute_command reference_test_only contract challenge workload =
      run_reference contract challenge.challenge workload

  -- The result that `main` writes to the new output file.
  unfoldable pub runner_main : RunnerFiles → RunnerCommand → Result RunnerError ExecutorResult
  runner_main files command = do
    contract ← ok_or files.contract unreadable
    challenge ← ok_or files.challenge unreadable
    workload ← ok_or files.workload unreadable
    auditor_public_key ← ok_or files.auditor_public_key unreadable
    reject_if
        (not (verify_cupow_capacity_signature x contract.contract.capacity auditor_public_key)
          || not (verify_cupow_contract_signature x contract auditor_public_key)
          || not (verify_cupow_challenge_signature x challenge auditor_public_key))
        not_signed
    validate_inputs contract challenge workload
    result ← execute_command command contract challenge workload
    validate_result result contract challenge
    write_json_new files
    ok result
