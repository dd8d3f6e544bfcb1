-- ===== src/Relation/Pod.antt =====
-- `evaluate_pod_relation` of crates/pocomp-protocol/src/relation.rs.
pub mod Laws
use verification_tooling.Prelude.{
  ℕ, ◌-◌, ◌*◌, ◌/◌, [], Bool, true, false, ◌&&◌, ◌||◌, ltb, ◌==◌, ◌≠◌, bytes_eq, is_empty, is_some,
  if◌then◌else◌, Result, ok, err, ◌>>=◌, ◌>>◌, reject_if,
}
use verification_tooling.Types.{protocol_version}
use verification_tooling.Types.Audit.{
  PodRelationInput, RelationOutcome, PodPublicStatement, ErasureCertificate, EpochStatement,
  MonitoringPolicy, Assurance, experimental, paper_compliant, audited_physical_erasure,
  erasure_kind_eq,
}
use verification_tooling.Primitives.{Primitives}
use verification_tooling.Relation.{
  RelationError, pod_ingress, pod_egress, erasure_schedule, pod_compute, erasure_certificate_error,
}
use verification_tooling.Relation.Gateway.{validate_gateway}

-- `impl From<&PodRelationInput> for PodPublicStatement`
unfoldable pub pod_public_statement : PodRelationInput → PodPublicStatement
pod_public_statement input = record {
  policy = input.policy;
  epoch = input.epoch;
  gateway_root = input.gateway_root;
  erasure = input.erasure;
}

-- Micro H100-hours over the epoch, in 128 bits: two 64-bit factors cannot overflow.
unfoldable pub pod_compute_used : MonitoringPolicy → EpochStatement → ℕ
pod_compute_used policy epoch =
    policy.pod.pod_capacity_micro_h100_hours_per_hour
    * (epoch.closed_at_ns - epoch.opened_at_ns)
    / 3_600_000_000_000

unfoldable pub erasure_invalid : EpochStatement → ErasureCertificate → Bool
erasure_invalid epoch erasure =
    erasure.protocol_version ≠ protocol_version
    || erasure.logical_pod_id ≠ epoch.pod_id
    || erasure.old_incarnation_id ≠ epoch.incarnation_id
    || ltb erasure.boundary_at_ns epoch.closed_at_ns
    || ltb erasure.old_destroyed_at_ns erasure.boundary_at_ns
    || ltb erasure.new_started_at_ns erasure.old_destroyed_at_ns
    || erasure.old_incarnation_id == erasure.new_incarnation_id
    || is_empty erasure.old_image_digest
    || is_empty erasure.new_image_digest

unfoldable pub pod_assurance : MonitoringPolicy → ErasureCertificate → Assurance
pod_assurance policy erasure =
    if erasure.kind == audited_physical_erasure
      && is_some policy.pod.unrecorded_channel_bound_bits
      && is_some policy.pod.residual_state_bound_bits
    then paper_compliant
    else experimental

module _ (x : Primitives) where
  unfoldable pub evaluate_pod_relation : PodRelationInput → Result RelationError RelationOutcome
  evaluate_pod_relation input = do
    (ingress_bits, egress_bits) ←
        validate_gateway x input.policy input.epoch input.gateway_root input.gateway_public_key
          input.leaves
    reject_if (ltb input.policy.pod.max_ingress_bits ingress_bits) pod_ingress
    reject_if (ltb input.policy.pod.max_egress_bits egress_bits) pod_egress
    reject_if
        (ltb input.policy.pod.erase_interval_ns
          (input.epoch.closed_at_ns - input.epoch.opened_at_ns))
        erasure_schedule
    reject_if
        (ltb input.policy.pod.max_compute_micro_h100_hours
          (pod_compute_used input.policy input.epoch))
        pod_compute
    reject_if (erasure_invalid input.epoch input.erasure.certificate) erasure_certificate_error
    ok (record {
      relation_satisfied = true;
      assurance = pod_assurance input.policy input.erasure.certificate;
      ingress_bits = ingress_bits;
      egress_bits = egress_bits;
      task_count = 0;
      sampled_task_ids = [];
    })
