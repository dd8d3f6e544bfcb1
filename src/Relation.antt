-- ===== src/Relation.antt =====
-- crates/pocomp-protocol/src/relation.rs: the errors and the policy check of both relations.
pub mod Gateway
pub mod Pod
pub mod Task
use Prim.Native.String.{String}
use verification_tooling.Prelude.{
  ℕ, Bool, ◌||◌, ltb, ◌==◌, ◌≠◌, nat_eq, bytes_eq, Result, ok, err, ◌>>◌, reject_if,
}
use verification_tooling.Types.{protocol_version}
use verification_tooling.Types.Audit.{MonitoringPolicy}

pub data RelationError : Type 0 where
  protocol_version_error : RelationError
  policy_error : String → RelationError
  epoch_error gateway_signature gateway_statement gateway_root_error : RelationError
  descriptor_error sequence_error accounting_overflow : RelationError
  pod_ingress pod_egress erasure_schedule pod_compute erasure_certificate_error : RelationError
  task_program_commitment_error task_program_error auxiliary_input : RelationError
  task_completeness task_order task_count_error : RelationError
  task_ingress task_egress task_compute sample_set zktorch_binding : RelationError

unfoldable pub validate_policy : MonitoringPolicy → Result RelationError (Unit {0})
validate_policy policy = do
  reject_if (policy.protocol_version ≠ protocol_version) protocol_version_error
  reject_if (policy.pod.erase_interval_ns == 0) (policy_error "Terase must be positive")
  reject_if
      (policy.task.sample_denominator == 0
        || ltb policy.task.sample_denominator policy.task.sample_numerator)
      (policy_error "sampling probability must be in [0,1]")
