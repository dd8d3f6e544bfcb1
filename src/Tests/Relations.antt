-- ===== src/Tests/Relations.antt =====
-- The sealed epoch of the gateway's test through the Pod and Task relations.
use verification_tooling.Prelude.{
  [], ◌∷◌, true, ◌≡◌, ◌↔◌, refl, arith, ok, bytes_dec, ℕ_discrete, some, bytes_eq, ◌≠◌,
}
use verification_tooling.BTreeMap
use verification_tooling.BTreeMap.{BTreeMap}
use verification_tooling.Sampling.{is_sampled, sampled_task_ids}
use verification_tooling.BTreeSet
use verification_tooling.Types.Records.{GatewayLeaf, ingress, egress}
use verification_tooling.Types.Audit.{
  ZkTorchStatement, PodRelationInput, TaskRelationInput, RelationOutcome, paper_compliant,
}
use verification_tooling.Relation.Gateway.{validate_gateway}
use verification_tooling.Relation.Gateway.Laws.{GatewayValid, total_bits, validate_gateway_iff}
use verification_tooling.Crypto.{sign_erasure_certificate}
use verification_tooling.Relation.Pod.{
  evaluate_pod_relation, pod_compute_used, erasure_invalid, pod_assurance,
}
use verification_tooling.Relation.Pod.Laws.{PodCompliant, pod_outcome, evaluate_pod_relation_iff}
use verification_tooling.Relation.Task.{
  Slots, entry, place, group_leaves, any_incomplete, program_invalid, check_pair, both, check_pairs,
  check_bindings, binding_invalid, task_assurance, evaluate_tasks, zktorch_statement,
  evaluate_task_relation, sampled_zktorch_statements,
}
use verification_tooling.Relation.Task.Laws.{
  TaskPaired, evaluate_task_relation-TaskPaired, sampled_zktorch_statements-evaluate_task_relation,
}
use verification_tooling.Gateway.{next_leaf}
use verification_tooling.Tests.Toy.{toy, content_of, key, policy, program, epoch, erasure}
use verification_tooling.Tests.Gateway.{
  config, task_id, l₁, l₂, leaves, sealed_epoch, gateway_validated,
}

abbrev pub pod_input : PodRelationInput
pod_input = record {
  policy = policy;
  epoch = epoch;
  gateway_root = sealed_epoch.signed_root;
  gateway_public_key = key;
  leaves = leaves;
  erasure = erasure;
}

abbrev ingress_leaf : GatewayLeaf
ingress_leaf = next_leaf config l₁ task_id ingress 11 12 3 (content_of 21)

abbrev egress_leaf : GatewayLeaf
egress_leaf = next_leaf config l₂ task_id egress 13 14 4 (content_of 22)

abbrev pub statement : ZkTorchStatement
statement = zktorch_statement epoch program task_id ingress_leaf egress_leaf

abbrev pub task_input : TaskRelationInput
task_input = record {
  policy = policy;
  epoch = epoch;
  gateway_root = sealed_epoch.signed_root;
  gateway_public_key = key;
  leaves = leaves;
  program = program;
  aux = [];
  sampled_statements = (task_id, statement) ∷ [];
}

abbrev pub task_outcome : RelationOutcome
task_outcome = record {
  relation_satisfied = true;
  assurance = paper_compliant;
  ingress_bits = 24;
  egress_bits = 32;
  task_count = 1;
  sampled_task_ids = task_id ∷ [];
}

abbrev grouped : BTreeMap Slots
grouped = (task_id, (some ingress_leaf, some egress_leaf)) ∷ []

leaves_grouped :
    group_leaves (λ leaf. leaf.descriptor.program_id ≠ program.program_id) [] leaves ≡ ok grouped
unfolding group_leaves place entry BTreeMap.get BTreeMap.insert next_leaf bytes_dec ℕ_discrete
leaves_grouped = refl

pairs_checked : check_pairs policy grouped ≡ ok tt
unfolding check_pairs check_pair both next_leaf
pairs_checked = refl

all_sampled :
    sampled_task_ids toy epoch.sampling_seed epoch.epoch_id (BTreeMap.keys grouped) policy.task
    ≡ task_id ∷ []
unfolding sampled_task_ids is_sampled ℕ_discrete
all_sampled = refl

bound_to_leaves :
    check_bindings epoch program grouped task_input.sampled_statements (task_id ∷ []) ≡ ok tt
unfolding check_bindings binding_invalid both entry BTreeMap.get zktorch_statement bytes_dec
    ℕ_discrete
bound_to_leaves = ground arith

pub accepted : evaluate_task_relation toy task_input ≡ ok task_outcome
unfolding evaluate_task_relation evaluate_tasks program_invalid any_incomplete BTreeSet.of_list
    BTreeSet.insert task_assurance
accepted =
    ground (arith, gateway_validated, leaves_grouped, pairs_checked, all_sampled, bound_to_leaves)

evaluate_task_relation-TaskPaired_example : TaskPaired policy leaves task_id
evaluate_task_relation-TaskPaired_example =
    evaluate_task_relation-TaskPaired toy task_input task_outcome accepted task_id

sampled_zktorch_statements-evaluate_task_relation_example :
    sampled_zktorch_statements toy policy epoch program leaves ≡ ok task_input.sampled_statements
sampled_zktorch_statements-evaluate_task_relation_example =
    sampled_zktorch_statements-evaluate_task_relation toy task_input task_outcome (tt, tt) accepted

pub pod_accepted : evaluate_pod_relation toy pod_input ≡ ok (pod_outcome pod_input)
unfolding evaluate_pod_relation pod_compute_used erasure_invalid pod_assurance
    sign_erasure_certificate next_leaf
pod_accepted = ground (arith, gateway_validated)

evaluate_pod_relation_iff_example :
    (evaluate_pod_relation toy pod_input ≡ ok (pod_outcome pod_input))
    ↔ (PodCompliant toy pod_input × (pod_outcome pod_input ≡ pod_outcome pod_input))
evaluate_pod_relation_iff_example = evaluate_pod_relation_iff toy pod_input (pod_outcome pod_input)

validate_gateway_iff_example :
    (validate_gateway toy policy epoch sealed_epoch.signed_root key leaves ≡ ok (24, 32)) ↔ (
      GatewayValid toy policy epoch sealed_epoch.signed_root key leaves
      × (24 ≡ total_bits ingress leaves)
      × (32 ≡ total_bits egress leaves))
validate_gateway_iff_example =
    validate_gateway_iff toy policy epoch sealed_epoch.signed_root key leaves 24 32
