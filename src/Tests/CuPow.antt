-- ===== src/Tests/CuPow.antt =====
-- A cuPOW epoch of one multiplication of size 1024, at half of the certified capacity or more.
use verification_tooling.Prelude.{
  ◌*◌, ◌≤◌, [], ◌∷◌, true, false, Text, ◌≡◌, refl, arith, ok, utf8, bytes_dec, ℕ_discrete,
}
use verification_tooling.BTreeSet
use verification_tooling.Types.{
  cupow_protocol_version, cupow_arithmetic_profile, cupow_transcript_profile,
}
use verification_tooling.Types.Records.{Hash32-discrete}
use verification_tooling.Types.Audit.{SignedErasureCertificate}
use verification_tooling.Types.CuPow.{
  CuPowCapacityCertificate, CuPowPolicy, CuPowWorkloadManifest, CuPowContract, SignedCuPowContract,
  CuPowChallenge, SignedCuPowChallenge, CuPowCompletion, SignedCuPowCompletion,
  CuPowPublicStatement, CuPowOutcome, calibrated_gpu_saturation,
}
use verification_tooling.Commitment.{
  cupow_workload_commitment, cupow_contract_digest, cupow_challenge_digest,
}
use verification_tooling.Crypto.{
  sign_cupow_capacity, sign_cupow_contract, sign_cupow_challenge, sign_cupow_completion,
  sign_erasure_certificate,
}
use verification_tooling.CuPow.Relation.{
  profile_invalid, policy_invalid, epoch_invalid, total_work, validate_item, is_power_of_two,
  is_sha256_image_digest, challenge_invalid, completion_invalid, erasure_invalid, evaluate_capacity,
  certified_capacity, c_capacity, div_ceil, saturate_u32, evaluate_cupow_relation,
}
use verification_tooling.CuPow.Relation.Laws.{ItemsValid, Distinct, macs}
use verification_tooling.CuPow.Relation.Guarantees.{
  Chained, evaluate_cupow_relation-macs, evaluate_cupow_relation-saturation,
  evaluate_cupow_relation-Chained,
}
use verification_tooling.Tests.Toy.{toy, hash_of, key, erasure}

abbrev pub image : Text
unfolding utf8
image = utf8 "pod@sha256:00112233445566778899aabbccddeeff00112233445566778899aabbccddeeff"

abbrev pub certificate : CuPowCapacityCertificate
certificate = record {
  protocol_version = cupow_protocol_version;
  pod_id = 2 ∷ [];
  incarnation_id = 3 ∷ [];
  gpu_model = 6 ∷ [];
  gpu_count = 1;
  runner_image_digest = image;
  runner_binary_digest = hash_of 6;
  max_f251_macs_per_second = 2_000_000_000;
  h100e_f251_macs_per_hour = 4_000_000_000;
  valid_from_ns = 1;
  valid_until_ns = 3_000_000_000;
}

abbrev pub cupow_policy : CuPowPolicy
cupow_policy = record {
  protocol_version = cupow_protocol_version;
  arithmetic_profile = cupow_arithmetic_profile;
  transcript_profile = cupow_transcript_profile;
  c_micro_h100_hours = 1_000_000;
  min_saturation_ppm = 500_000;
  matrix_min_n = 1024;
  matrix_max_n = 16_384;
  tile_size = 128;
}

abbrev pub manifest : CuPowWorkloadManifest
manifest = record {
  protocol_version = cupow_protocol_version;
  workload_id = 8 ∷ [];
  items =
      record {
        operation_id = 1 ∷ [];
        n = 1024;
        left_commitment = hash_of 1;
        right_commitment = hash_of 2;
        purpose_digest = hash_of 3;
      }
      ∷ [];
  security_work_f251_macs = 1_073_741_824;
}

abbrev pub contract : CuPowContract
contract = record {
  protocol_version = cupow_protocol_version;
  policy = cupow_policy;
  epoch = record {
    protocol_version = cupow_protocol_version;
    epoch_id = 4 ∷ [];
    pod_id = 2 ∷ [];
    incarnation_id = 3 ∷ [];
    opened_at_ns = 10;
    closed_at_ns = 1_000_000_010;
    initial_commitment = hash_of 7;
    workload_commitment = cupow_workload_commitment toy manifest;
  };
  capacity = sign_cupow_capacity toy certificate key;
  manifest = manifest;
}

abbrev pub signed_contract : SignedCuPowContract
signed_contract = sign_cupow_contract toy contract key

abbrev pub fresh : CuPowChallenge
fresh = record {
  protocol_version = cupow_protocol_version;
  epoch_id = 4 ∷ [];
  contract_digest = cupow_contract_digest toy contract;
  seed = hash_of 9;
  issued_at_ns = 20;
  deadline_ns = 1_000_000_010;
}

abbrev pub challenge : SignedCuPowChallenge
challenge = sign_cupow_challenge toy fresh key

abbrev pub done : CuPowCompletion
done = record {
  protocol_version = cupow_protocol_version;
  epoch_id = 4 ∷ [];
  challenge_digest = cupow_challenge_digest toy fresh;
  transcript_root = hash_of 4;
  output_root = hash_of 5;
  security_work_f251_macs = 1_073_741_824;
  completed_at_ns = 900_000_000;
}

abbrev pub completion : SignedCuPowCompletion
completion = sign_cupow_completion toy done key

abbrev pub handover : SignedErasureCertificate
handover =
    sign_erasure_certificate toy
      (record erasure.certificate {
        boundary_at_ns = 1_000_000_010;
        old_destroyed_at_ns = 1_000_000_011;
        new_started_at_ns = 1_000_000_012;
        old_image_digest = image;
      })
      key

abbrev pub statement : CuPowPublicStatement
statement = record {
  protocol_version = cupow_protocol_version;
  contract = signed_contract;
  challenge = challenge;
  completion = completion;
  erasure = handover;
}

abbrev pub outcome : CuPowOutcome
outcome = record {
  relation_satisfied = true;
  assurance = calibrated_gpu_saturation;
  security_work_f251_macs = 1_073_741_824;
  certified_capacity_f251_macs = 2_000_000_000;
  saturation_ppm = 536_870;
}

pub profile_accepted : profile_invalid contract ≡ false
unfolding profile_invalid sign_cupow_capacity
profile_accepted = ground arith

pub policy_accepted : policy_invalid cupow_policy ≡ false
unfolding policy_invalid ℕ_discrete
policy_accepted = refl

image_accepted : is_sha256_image_digest image ≡ true
unfolding is_sha256_image_digest utf8 ℕ_discrete
image_accepted = refl

pub epoch_accepted : epoch_invalid toy contract ≡ false
unfolding epoch_invalid sign_cupow_capacity ℕ_discrete bytes_dec Hash32-discrete
epoch_accepted = ground (arith, image_accepted)

pub work_counted : total_work cupow_policy 0 [] manifest.items ≡ ok 1_073_741_824
unfolding total_work validate_item is_power_of_two BTreeSet.contains ℕ_discrete
work_counted = ground arith

challenge_accepted : challenge_invalid toy contract fresh ≡ false
unfolding challenge_invalid
challenge_accepted = ground arith

completion_accepted : completion_invalid toy contract fresh 1_073_741_824 done ≡ false
unfolding completion_invalid
completion_accepted = ground arith

pub capacity_reached : evaluate_capacity contract handover.certificate 1_073_741_824 ≡ ok outcome
unfolding evaluate_capacity erasure_invalid certified_capacity c_capacity div_ceil saturate_u32
    sign_erasure_certificate sign_cupow_capacity
capacity_reached = ground arith

pub accepted : evaluate_cupow_relation toy statement ≡ ok outcome
unfolding evaluate_cupow_relation sign_cupow_contract sign_cupow_challenge sign_cupow_completion
accepted = ground (
  arith, profile_accepted, policy_accepted, epoch_accepted, work_counted, challenge_accepted,
  completion_accepted, capacity_reached,
)

evaluate_cupow_relation-macs_example :
    (1_073_741_824 ≡ macs manifest.items)
    × ItemsValid cupow_policy manifest.items
    × Distinct manifest.items
unfolding sign_cupow_contract
evaluate_cupow_relation-macs_example = evaluate_cupow_relation-macs toy statement outcome accepted

evaluate_cupow_relation-saturation_example :
    (2_000_000_000 * 1_000_000_000 ≤ 2_000_000_000 * 1_000_000_000)
    × (2_000_000_000 * 500_000 ≤ 1_073_741_824 * 1_000_000)
    × (500_000 ≤ 536_870)
unfolding sign_cupow_contract sign_cupow_capacity
evaluate_cupow_relation-saturation_example =
    evaluate_cupow_relation-saturation toy statement outcome accepted

evaluate_cupow_relation-Chained_example : Chained toy statement
evaluate_cupow_relation-Chained_example =
    evaluate_cupow_relation-Chained toy statement outcome accepted
