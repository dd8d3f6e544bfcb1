-- ===== src/CuPow/Relation.antt =====
-- `evaluate_cupow_relation` of crates/pocomp-protocol/src/cupow.rs.
pub mod Laws
pub mod Guarantees
pub mod Capacity
use verification_tooling.Prelude.{
  ℕ, zero, suc, ◌+◌, ◌-◌, ◌*◌, ◌/◌, ◌%◌, ◌^◌, List, [], ◌∷◌, Bool, true, false, ◌&&◌, ◌||◌, not,
  Bytes, Text, utf8, ltb, leb, ◌==◌, ◌≠◌, nat_eq, bytes_eq, length, is_empty, drop, if◌then◌else◌,
  Option, none, some, Result, ok, err, ◌>>=◌, ◌>>◌, reject_if, ok_or, checked_add, checked_mul,
}
use verification_tooling.BTreeSet
use verification_tooling.Types.{
  protocol_version, cupow_protocol_version, cupow_arithmetic_profile, cupow_transcript_profile,
}
use verification_tooling.Types.Records.{Hash32, hash32_eq, zero_hash}
use verification_tooling.Types.Audit.{ErasureCertificate}
use verification_tooling.Types.CuPow.{
  CuPowWorkItem, CuPowPolicy, CuPowEpoch, CuPowCapacityCertificate, CuPowContract, CuPowChallenge,
  CuPowCompletion, CuPowPublicStatement, CuPowOutcome, calibrated_gpu_saturation,
}
use verification_tooling.Primitives.{Primitives}
use verification_tooling.Commitment.{
  cupow_workload_commitment, cupow_contract_digest, cupow_challenge_digest,
}
use verification_tooling.CuPow.{
  CuPowError, profile_error, policy_error, epoch_error, manifest_error, challenge_error,
  completion_error, capacity_error, erasure_error, cupow_production_tile_size,
  cupow_production_min_n, cupow_production_max_n,
}

-- `u32::is_power_of_two`: at most 32 halvings lead to 1.
unfoldable pub is_power_of_two : ℕ → ℕ → Bool
is_power_of_two zero n = false
is_power_of_two (suc w) n = elim (n == 1) [
  | true ↦ true
  | false ↦ n % 2 == 0 && is_power_of_two w (n / 2)
]

unfoldable pub validate_item : CuPowWorkItem → ℕ → ℕ → ℕ → Result CuPowError ℕ
validate_item item min_n max_n tile_size = do
  reject_if
      (is_empty item.operation_id
        || ltb item.n min_n
        || ltb max_n item.n
        || not (is_power_of_two 32 item.n)
        || not (item.n % tile_size == 0)
        || item.left_commitment == zero_hash
        || item.right_commitment == zero_hash
        || item.purpose_digest == zero_hash)
      manifest_error
  ok (item.n ^ 3)

-- Whether `s` begins with `p`.
unfoldable pub starts_with : Bytes → Bytes → Bool
starts_with [] s = true
starts_with (b ∷ p) [] = false
starts_with (b ∷ p) (c ∷ s) = b == c && starts_with p s

-- `rsplit_once(separator)`, its second part: what follows the last occurrence.
unfoldable pub after_last : Bytes → Bytes → Option Bytes
unfolding starts_with
after_last separator [] = none
after_last separator (c ∷ s) = elim (after_last separator s) [
  | some digest ↦ some digest
  | none ↦ if starts_with separator (c ∷ s) then some (drop (length separator) (c ∷ s)) else none
]

unfoldable pub is_ascii_hexdigit : ℕ → Bool
is_ascii_hexdigit b =
    leb b'0' b && leb b b'9' || leb b'a' b && leb b b'f' || leb b'A' b && leb b b'F'

unfoldable pub all_hexdigits : Bytes → Bool
unfolding is_ascii_hexdigit
all_hexdigits [] = true
all_hexdigits (b ∷ bs) = is_ascii_hexdigit b && all_hexdigits bs

unfoldable pub is_sha256_image_digest : Text → Bool
unfolding after_last all_hexdigits utf8
is_sha256_image_digest value = elim (after_last (utf8 "@sha256:") value) [
  | none ↦ false
  | some digest ↦ length digest == 64 && all_hexdigits digest
]

unfoldable pub profile_invalid : CuPowContract → Bool
profile_invalid contract =
    contract.protocol_version ≠ cupow_protocol_version
    || contract.policy.protocol_version ≠ cupow_protocol_version
    || contract.epoch.protocol_version ≠ cupow_protocol_version
    || contract.capacity.certificate.protocol_version ≠ cupow_protocol_version
    || contract.manifest.protocol_version ≠ cupow_protocol_version
    || contract.policy.arithmetic_profile ≠ cupow_arithmetic_profile
    || contract.policy.transcript_profile ≠ cupow_transcript_profile

unfoldable pub policy_invalid : CuPowPolicy → Bool
policy_invalid policy =
    policy.c_micro_h100_hours == 0
    || policy.min_saturation_ppm == 0
    || ltb 1_000_000 policy.min_saturation_ppm
    || policy.tile_size ≠ cupow_production_tile_size
    || policy.matrix_min_n ≠ cupow_production_min_n
    || policy.matrix_max_n ≠ cupow_production_max_n

-- The loop over the manifest's items, with the total and the identifiers met so far.
unfoldable pub total_work : CuPowPolicy → ℕ → List Text → List CuPowWorkItem → Result CuPowError ℕ
total_work policy total operation_ids [] = ok total
total_work policy total operation_ids (item ∷ items) = do
  reject_if (BTreeSet.contains operation_ids item.operation_id) manifest_error
  macs ← validate_item item policy.matrix_min_n policy.matrix_max_n policy.tile_size
  total' ← ok_or (checked_add 128 total macs) manifest_error
  total_work policy total' (BTreeSet.insert item.operation_id operation_ids) items

-- `u128::div_ceil`
unfoldable pub div_ceil : ℕ → ℕ → ℕ
div_ceil a b = if a % b == 0 then a / b else a / b + 1

-- The capacity that the certificate grants over the epoch, and the one that `C` stands for.
unfoldable pub certified_capacity : CuPowEpoch → CuPowCapacityCertificate → Option ℕ
certified_capacity epoch capacity =
    elim (checked_mul 128 capacity.max_f251_macs_per_second
      (epoch.closed_at_ns - epoch.opened_at_ns)) [
        | none ↦ none
        | some macs ↦ some (macs / 1_000_000_000)
      ]

unfoldable pub c_capacity : CuPowPolicy → CuPowCapacityCertificate → Option ℕ
c_capacity policy capacity =
    elim (checked_mul 128 policy.c_micro_h100_hours capacity.h100e_f251_macs_per_hour) [
      | none ↦ none
      | some macs ↦ some (macs / 1_000_000)
    ]

unfoldable pub erasure_invalid : CuPowEpoch → CuPowCapacityCertificate → ErasureCertificate → Bool
erasure_invalid epoch capacity erasure =
    erasure.protocol_version ≠ protocol_version
    || erasure.logical_pod_id ≠ epoch.pod_id
    || erasure.old_incarnation_id ≠ epoch.incarnation_id
    || ltb erasure.boundary_at_ns epoch.closed_at_ns
    || ltb erasure.old_destroyed_at_ns erasure.boundary_at_ns
    || ltb erasure.new_started_at_ns erasure.old_destroyed_at_ns
    || erasure.old_incarnation_id == erasure.new_incarnation_id
    || erasure.old_image_digest ≠ capacity.runner_image_digest
    || is_empty erasure.new_image_digest
    || erasure.evidence_digest == zero_hash

-- `u32::try_from(n).unwrap_or(u32::MAX)`
unfoldable pub saturate_u32 : ℕ → ℕ
saturate_u32 n = if ltb n (2 ^ 32) then n else 2 ^ 32 - 1

-- The capacity checks, the erasure check and the outcome.
unfoldable pub evaluate_capacity :
    CuPowContract → ErasureCertificate → ℕ → Result CuPowError CuPowOutcome
evaluate_capacity contract erasure work = do
  certified ← ok_or (certified_capacity contract.epoch contract.capacity.certificate) capacity_error
  c ← ok_or (c_capacity contract.policy contract.capacity.certificate) capacity_error
  reject_if (certified == 0 || c == 0) capacity_error
  scaled ← ok_or (checked_mul 128 certified contract.policy.min_saturation_ppm) capacity_error
  reject_if (ltb c certified || ltb work (div_ceil scaled 1_000_000) || ltb c work) capacity_error
  reject_if (erasure_invalid contract.epoch contract.capacity.certificate erasure) erasure_error
  ppm ← ok_or (checked_mul 128 work 1_000_000) capacity_error
  ok (record {
    relation_satisfied = true;
    assurance = calibrated_gpu_saturation;
    security_work_f251_macs = work;
    certified_capacity_f251_macs = certified;
    saturation_ppm = saturate_u32 (ppm / certified);
  })

module _ (x : Primitives) where
  unfoldable pub epoch_invalid : CuPowContract → Bool
  epoch_invalid contract =
      leb contract.epoch.closed_at_ns contract.epoch.opened_at_ns
      || is_empty contract.epoch.epoch_id
      || is_empty contract.epoch.pod_id
      || is_empty contract.epoch.incarnation_id
      || contract.epoch.initial_commitment == zero_hash
      || contract.epoch.pod_id ≠ contract.capacity.certificate.pod_id
      || contract.epoch.incarnation_id ≠ contract.capacity.certificate.incarnation_id
      || ltb contract.epoch.opened_at_ns contract.capacity.certificate.valid_from_ns
      || ltb contract.capacity.certificate.valid_until_ns contract.epoch.closed_at_ns
      || contract.capacity.certificate.gpu_count == 0
      || is_empty contract.capacity.certificate.gpu_model
      || not (is_sha256_image_digest contract.capacity.certificate.runner_image_digest)
      || contract.capacity.certificate.runner_binary_digest == zero_hash
      || contract.capacity.certificate.max_f251_macs_per_second == 0
      || contract.capacity.certificate.h100e_f251_macs_per_hour == 0
      || leb contract.capacity.certificate.valid_until_ns
          contract.capacity.certificate.valid_from_ns
      || contract.epoch.workload_commitment ≠ cupow_workload_commitment x contract.manifest

  unfoldable pub challenge_invalid : CuPowContract → CuPowChallenge → Bool
  challenge_invalid contract challenge =
      challenge.protocol_version ≠ cupow_protocol_version
      || challenge.epoch_id ≠ contract.epoch.epoch_id
      || challenge.contract_digest ≠ cupow_contract_digest x contract
      || ltb challenge.issued_at_ns contract.epoch.opened_at_ns
      || leb contract.epoch.closed_at_ns challenge.issued_at_ns
      || challenge.deadline_ns ≠ contract.epoch.closed_at_ns
      || challenge.seed == zero_hash

  unfoldable pub completion_invalid : CuPowContract → CuPowChallenge → ℕ → CuPowCompletion → Bool
  completion_invalid contract challenge work completion =
      completion.protocol_version ≠ cupow_protocol_version
      || completion.epoch_id ≠ contract.epoch.epoch_id
      || completion.challenge_digest ≠ cupow_challenge_digest x challenge
      || ltb completion.completed_at_ns challenge.issued_at_ns
      || ltb challenge.deadline_ns completion.completed_at_ns
      || completion.transcript_root == zero_hash
      || completion.output_root == zero_hash
      || completion.security_work_f251_macs ≠ work

  unfoldable pub evaluate_cupow_relation : CuPowPublicStatement → Result CuPowError CuPowOutcome
  evaluate_cupow_relation statement = do
    let contract = statement.contract.contract
    let challenge = statement.challenge.challenge
    reject_if (statement.protocol_version ≠ cupow_protocol_version) profile_error
    reject_if (profile_invalid contract) profile_error
    reject_if (policy_invalid contract.policy) policy_error
    reject_if (epoch_invalid contract) epoch_error
    work ← total_work contract.policy 0 [] contract.manifest.items
    reject_if
        (is_empty contract.manifest.workload_id
          || is_empty contract.manifest.items
          || work ≠ contract.manifest.security_work_f251_macs)
        manifest_error
    reject_if (challenge_invalid contract challenge) challenge_error
    reject_if (completion_invalid contract challenge work statement.completion.completion)
        completion_error
    evaluate_capacity contract statement.erasure.certificate work
