-- ===== src/Tests/Runner.antt =====
-- A derivation of noise and runs of the cuPOW runner on small matrices, with a stream that counts.
use verification_tooling.Prelude.{
  ℕ, ◌+◌, ◌^◌, ◌<◌, List, [], ◌∷◌, replicate, true, false, some, ◌==◌, AllPairs, ◌≡◌, ◌↔◌, ◌⊎◌,
  refl, arith, ok, err, reject_if,
}
use verification_tooling.Types.{cupow_protocol_version}
use verification_tooling.Types.Records.{zero_hash, hash32_eq}
use verification_tooling.Primitives.{Primitives}
use verification_tooling.Commitment.{cupow_challenge_digest, hash_bytes}
use verification_tooling.Crypto.{sign_cupow_contract}
use verification_tooling.CuPow.{noise_derivation}
use verification_tooling.CuPow.Matrix.{F251Matrix}
use verification_tooling.CuPow.Product.{failed}
use verification_tooling.CuPow.Execute.{CuPowNoise}
use verification_tooling.CuPow.Noise.{derive_cupow_noise}
use verification_tooling.CuPow.Noise.Laws.{Enough}
use verification_tooling.CuPow.Noise.Retry.{FirstFull, Deficient, derive_cupow_noise-FirstFull}
use verification_tooling.Runner.{
  PrivateWorkItem, PrivateWorkload, ExecutorResult, CudaExecutorResult, CudaCall, cuda, RunnerFiles,
  protocol_fault, result_mismatch, WitnessEncoding, smaller, run_reference, validate_result,
  runner_main,
}
use verification_tooling.Runner.Execution.{Ready, ItemDecoded, run_reference-Decoded}
use verification_tooling.Runner.Cuda.{CudaAccepted, runner_main_iff}
use verification_tooling.Tests.Toy.{toy, hash_of, key}
use verification_tooling.Tests.CuPow.{signed_contract, challenge}
use verification_tooling.Tests.Execute.{square, square-HasShape}

abbrev counting : Primitives
counting = record toy { shake256 = λ m i. i + 1 }

counting-Enough : Enough counting 2 (hash_of 9) (hash_of 7) (1 ∷ []) 2
counting-Enough retry early = (omega arith, omega arith, omega arith, omega arith)

derive_cupow_noise-FirstFull_example :
    ((noise : CuPowNoise) × (derive_cupow_noise counting 2 (hash_of 9) (hash_of 7) (1 ∷ []) 2 1
        ≡ ok noise)
      × FirstFull counting 2 (hash_of 9) (hash_of 7) (1 ∷ []) 2 1 0 (2 ^ 16) noise)
    ⊎ ((derive_cupow_noise counting 2 (hash_of 9) (hash_of 7) (1 ∷ []) 2 1
          ≡ err (failed noise_derivation))
        × ((retry : ℕ)
            → retry < 2 ^ 16
            → Deficient counting 2 (hash_of 9) (hash_of 7) (1 ∷ []) 2 1 retry))
derive_cupow_noise-FirstFull_example =
    derive_cupow_noise-FirstFull counting 2 (hash_of 9) (hash_of 7) (1 ∷ []) 2 1 counting-Enough
      (omega arith) (omega arith) refl (omega arith)

abbrev item : PrivateWorkItem
item = record { operation_id = 1 ∷ []; left = square 1 2 3 4; right = square 250 6 7 8 }

abbrev workload : PrivateWorkload
workload = record { workload_id = 8 ∷ []; items = item ∷ [] }

abbrev encoding : WitnessEncoding
encoding = record { executions = λ es. 1 ∷ []; cuda_result = λ r. r.protocol_version }

item-Ready : Ready counting 2 signed_contract challenge.challenge item
unfolding smaller sign_cupow_contract
item-Ready = record {
  left_shape = square-HasShape 1 2 3 4 (omega arith) (omega arith) (omega arith) (omega arith);
  right_shape = square-HasShape 250 6 7 8 (omega arith) (omega arith) (omega arith) (omega arith);
  two_rows = omega arith;
  small = omega arith;
  named = refl;
  tile_pos = omega arith;
  divides = refl;
  enough = λ retry early. (omega arith, omega arith, omega arith, omega arith);
}

run_reference-Decoded_example :
    ((result : ExecutorResult) × (executions : List (List F251Matrix × F251Matrix)) × (run_reference
          counting encoding 2 signed_contract challenge.challenge workload
        ≡ ok result)
      × AllPairs (ItemDecoded signed_contract) workload.items executions
      × (result.witness_digest ≡ hash_bytes counting (encoding.executions executions))
      × (validate_result counting encoding 2 result signed_contract challenge
          ≡ reject_if (result.witness_digest == zero_hash) result_mismatch))
    ⊎ (run_reference counting encoding 2 signed_contract challenge.challenge workload
        ≡ err (protocol_fault (failed noise_derivation)))
run_reference-Decoded_example =
    run_reference-Decoded counting encoding 2 signed_contract challenge workload (item-Ready, tt)

abbrev big : F251Matrix
big = record { rows = 1024; columns = 1024; values = [] }

abbrev big_workload : PrivateWorkload
big_workload = record {
  workload_id = 8 ∷ [];
  items = record { operation_id = 1 ∷ []; left = big; right = big } ∷ [];
}

abbrev files : RunnerFiles
files = record {
  contract = some signed_contract;
  challenge = some challenge;
  workload = some big_workload;
  auditor_public_key = some key;
  output_present = false;
  output_written = true;
}

abbrev raw : CudaExecutorResult
raw = record {
  protocol_version = cupow_protocol_version;
  challenge_digest = cupow_challenge_digest toy challenge.challenge;
  operation_transcripts = replicate 8 big ∷ [];
  decoded_outputs = big ∷ [];
  security_work_f251_macs = 1_073_741_824;
}

abbrev call : CudaCall
call = record {
  binary = some (6 ∷ []);
  temporary_present = false;
  status = some true;
  raw = some raw;
  witness_output = some false;
  moved = true;
}

abbrev reported : ExecutorResult
reported = record {
  protocol_version = cupow_protocol_version;
  challenge_digest = cupow_challenge_digest toy challenge.challenge;
  witness_digest = hash_bytes toy (encoding.cuda_result raw);
  security_work_f251_macs = 1_073_741_824;
}

runner_main_iff_example :
    (runner_main toy encoding 2 files (cuda call) ≡ ok reported)
    ↔ CudaAccepted toy encoding files call reported
runner_main_iff_example = runner_main_iff toy encoding 2 files call reported
