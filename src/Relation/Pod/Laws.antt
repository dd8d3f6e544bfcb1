-- ===== src/Relation/Pod/Laws.antt =====
-- What `evaluate_pod_relation` accepts.
use verification_tooling.Prelude.{
  ◌-◌, ◌*◌, ◌/◌, ◌≤◌, [], true, false, ◌≡◌, ◌≢◌, ◌↔◌, arith, ok, result_cases, inl, inr,
}
use verification_tooling.Types.{protocol_version}
use verification_tooling.Types.Records.{ingress, egress}
use verification_tooling.Types.Audit.{
  PodRelationInput, RelationOutcome, ErasureCertificate, EpochStatement,
}
use verification_tooling.Primitives.{Primitives}
use verification_tooling.Relation.Gateway.{validate_gateway}
use verification_tooling.Relation.Gateway.Laws.{GatewayValid, total_bits, validate_gateway_iff}
use verification_tooling.Relation.Pod.{
  pod_compute_used, erasure_invalid, pod_assurance, evaluate_pod_relation,
}

-- A certificate that hands the pod over to a new incarnation after the epoch.
pub record ErasureValid (epoch : EpochStatement) (c : ErasureCertificate) : Type 0 where
  pub version : c.protocol_version ≡ protocol_version
  pub same_pod : c.logical_pod_id ≡ epoch.pod_id
  pub same_incarnation : c.old_incarnation_id ≡ epoch.incarnation_id
  pub after_epoch : epoch.closed_at_ns ≤ c.boundary_at_ns
  pub destroyed : c.boundary_at_ns ≤ c.old_destroyed_at_ns
  pub replaced : c.old_destroyed_at_ns ≤ c.new_started_at_ns
  pub fresh : c.new_incarnation_id ≢ epoch.incarnation_id
  pub old_image : c.old_image_digest ≢ []
  pub new_image : c.new_image_digest ≢ []

pub erasure_invalid_iff :
    (epoch : EpochStatement) (c : ErasureCertificate)
    → (erasure_invalid epoch c ≡ false) ↔ ErasureValid epoch c
unfolding erasure_invalid
erasure_invalid_iff epoch c = (λ h. ground arith, λ v. ground arith)

-- The paper's Pod relation: the gateway's record is valid, the pod's bounds X, Y, Terase and C hold,
-- and the pod was erased.
pub record PodCompliant (x : Primitives) (input : PodRelationInput) : Type 0 where
  pub gateway :
      GatewayValid x input.policy input.epoch input.gateway_root input.gateway_public_key
        input.leaves
  pub ingress_bounded : total_bits ingress input.leaves ≤ input.policy.pod.max_ingress_bits
  pub egress_bounded : total_bits egress input.leaves ≤ input.policy.pod.max_egress_bits
  pub on_schedule :
      input.epoch.closed_at_ns - input.epoch.opened_at_ns ≤ input.policy.pod.erase_interval_ns
  pub compute_bounded :
      input.policy.pod.pod_capacity_micro_h100_hours_per_hour
        * (input.epoch.closed_at_ns - input.epoch.opened_at_ns)
        / 3_600_000_000_000
      ≤ input.policy.pod.max_compute_micro_h100_hours
  pub erased : ErasureValid input.epoch input.erasure.certificate

abbrev pub pod_outcome : PodRelationInput → RelationOutcome
pod_outcome input = record {
  relation_satisfied = true;
  assurance = pod_assurance input.policy input.erasure.certificate;
  ingress_bits = total_bits ingress input.leaves;
  egress_bits = total_bits egress input.leaves;
  task_count = 0;
  sampled_task_ids = [];
}

module _ (x : Primitives) (input : PodRelationInput) where
  open input use {policy, epoch, gateway_root, gateway_public_key, leaves}

  evaluate_pod_relation_sound :
      (o : RelationOutcome)
      → evaluate_pod_relation x input ≡ ok o
      → PodCompliant x input × (o ≡ pod_outcome input)
  unfolding evaluate_pod_relation pod_compute_used
  evaluate_pod_relation_sound o h =
      elim (result_cases (validate_gateway x policy epoch gateway_root gateway_public_key leaves)) [
        | inl ((i, e), p) ↦
            let v =
              (validate_gateway_iff x policy epoch gateway_root gateway_public_key leaves i e).0
                p in
            ground (arith, (erasure_invalid_iff epoch input.erasure.certificate).0)
        | inr (r, p) ↦ ground arith
      ]

  evaluate_pod_relation_complete :
      PodCompliant x input → evaluate_pod_relation x input ≡ ok (pod_outcome input)
  unfolding evaluate_pod_relation pod_compute_used
  evaluate_pod_relation_complete c = ground (
    arith,
    (validate_gateway_iff x policy epoch gateway_root gateway_public_key leaves
        (total_bits ingress leaves) (total_bits egress leaves)).1,
    (erasure_invalid_iff epoch input.erasure.certificate).1,
  )

  -- The Pod relation evaluates to an outcome exactly when the gateway's record is valid, the bits
  -- of both directions, the duration and the compute are within the policy and the erasure
  -- certificate is valid, and when that outcome is the one that reports the exact bits of both
  -- directions and the derived assurance.
  pub evaluate_pod_relation_iff :
      (o : RelationOutcome)
      → (evaluate_pod_relation x input ≡ ok o) ↔ (PodCompliant x input × (o ≡ pod_outcome input))
  evaluate_pod_relation_iff o =
      (evaluate_pod_relation_sound o, λ (c, e). rw e (evaluate_pod_relation_complete c))
