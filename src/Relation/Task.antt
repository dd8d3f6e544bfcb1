-- ===== src/Relation/Task.antt =====
-- `evaluate_task_relation` and `sampled_zktorch_statements` of
-- crates/pocomp-protocol/src/relation.rs. Both group the leaves by task in the same loop.
pub mod Grouping
pub mod Statements
pub mod Laws
use verification_tooling.Prelude.{
  ℕ, List, [], ◌∷◌, Bool, true, false, ◌&&◌, ◌||◌, not, Text, ltb, ◌==◌, ◌≠◌, nat_eq, bytes_eq,
  texts_eq, length, is_empty, is_some, is_none, if◌then◌else◌, Option, none, some, Result, ok, err,
  ◌>>=◌, ◌>>◌, reject_if, ok_or, checked_mul,
}
use verification_tooling.BTreeMap
use verification_tooling.BTreeMap.{BTreeMap}
use verification_tooling.BTreeSet
use verification_tooling.Types.{protocol_version, exact_pairing_program, zktorch_version}
use verification_tooling.Types.Records.{hash32_eq, GatewayLeaf, Direction, ingress, egress}
use verification_tooling.Types.Audit.{
  TaskRelationInput, RelationOutcome, TaskPublicStatement, EpochStatement, MonitoringPolicy,
  TaskProgram, ZkTorchStatement, zktorch_parameters_eq, Assurance, experimental, paper_compliant,
}
use verification_tooling.Primitives.{Primitives}
use verification_tooling.Commitment.{task_program_commitment, empty_aux_commitment}
use verification_tooling.Sampling.{sampled_task_ids}
use verification_tooling.Relation.{
  RelationError, descriptor_error, accounting_overflow, task_program_commitment_error,
  task_program_error, auxiliary_input, task_completeness, task_order, task_count_error,
  task_ingress, task_egress, task_compute, sample_set, zktorch_binding, validate_policy,
}
use verification_tooling.Relation.Gateway.{validate_gateway}

-- `(Option<&GatewayLeaf>, Option<&GatewayLeaf>)`: the ingress and the egress of a task.
abbrev pub Slots : Type 0
Slots = Option GatewayLeaf × Option GatewayLeaf

-- `grouped.entry(task_id).or_insert((None, None))`
unfoldable pub entry : BTreeMap Slots → Text → Slots
entry grouped task_id = elim (BTreeMap.get grouped task_id) [ none ↦ (none, none) | some s ↦ s ]

-- `slot.replace(leaf).is_some()` is an error; otherwise the slot holds the leaf.
unfoldable pub place : Direction → GatewayLeaf → Slots → Result RelationError Slots
place ingress leaf (none, e) = ok (some leaf, e)
place ingress leaf (some _, e) = err task_completeness
place egress leaf (i, none) = ok (i, some leaf)
place egress leaf (i, some _) = err task_completeness

-- The loop over the leaves; `foreign` is the test at its head.
unfoldable pub group_leaves :
    (GatewayLeaf → Bool) → BTreeMap Slots → List GatewayLeaf → Result RelationError (BTreeMap Slots)
group_leaves foreign grouped [] = ok grouped
group_leaves foreign grouped (leaf ∷ leaves) = do
  reject_if (foreign leaf) descriptor_error
  slots ← place leaf.descriptor.direction leaf (entry grouped leaf.descriptor.task_id)
  group_leaves foreign (BTreeMap.insert leaf.descriptor.task_id slots grouped) leaves

-- `grouped.values().any(|(ingress, egress)| ingress.is_none() || egress.is_none())`
unfoldable pub any_incomplete : BTreeMap Slots → Bool
any_incomplete [] = false
any_incomplete ((_, (i, e)) ∷ grouped) = is_none i || is_none e || any_incomplete grouped

unfoldable pub program_invalid : TaskProgram → Bool
program_invalid program =
    program.protocol_version ≠ protocol_version || program.task_list_program ≠ exact_pairing_program

-- One round of the loop over the pairs.
unfoldable pub check_pair :
    MonitoringPolicy → GatewayLeaf → GatewayLeaf → Result RelationError (Unit {0})
check_pair policy i e = do
  reject_if
      (not (ltb i.descriptor.sequence e.descriptor.sequence)
        || ltb e.descriptor.started_at_ns i.descriptor.ended_at_ns)
      task_order
  ingress_bits ← ok_or (checked_mul 64 i.descriptor.encoded_len_bytes 8) accounting_overflow
  egress_bits ← ok_or (checked_mul 64 e.descriptor.encoded_len_bytes 8) accounting_overflow
  reject_if (ltb policy.task.max_ingress_bits ingress_bits) task_ingress
  reject_if (ltb policy.task.max_egress_bits egress_bits) task_egress

-- `let (Some(ingress), Some(egress)) = .. else`
unfoldable pub both : Slots → Option (GatewayLeaf × GatewayLeaf)
both (some i, some e) = some (i, e)
both (some i, none) = none
both (none, e) = none

-- The loop over `grouped.values()`.
unfoldable pub check_pairs : MonitoringPolicy → BTreeMap Slots → Result RelationError (Unit {0})
check_pairs policy [] = ok tt
check_pairs policy ((_, slots) ∷ grouped) = do
  (i, e) ← ok_or (both slots) task_completeness
  check_pair policy i e
  check_pairs policy grouped

-- The statement of a sampled task.
unfoldable pub zktorch_statement :
    EpochStatement → TaskProgram → Text → GatewayLeaf → GatewayLeaf → ZkTorchStatement
zktorch_statement epoch program task_id i e = record {
  protocol_version = protocol_version;
  proof_system_version = zktorch_version;
  epoch_id = epoch.epoch_id;
  task_id = task_id;
  program_id = program.program_id;
  architecture_digest = program.architecture_digest;
  tensor_spec_digest = program.tensor_spec_digest;
  model_commitment = program.model_commitment;
  setup_digest = program.setup_digest;
  parameters = program.zktorch_parameters;
  input_commitment = i.content.digest;
  output_commitment = e.content.digest;
}

-- `sampled.into_iter().map(..).collect()`, which inserts the pairs in turn. An index of a missing
-- key would panic, and every sampled identifier is a key.
unfoldable pub collect_statements :
    EpochStatement
    → TaskProgram
    → BTreeMap Slots
    → BTreeMap ZkTorchStatement
    → List Text
    → Result RelationError (BTreeMap ZkTorchStatement)
collect_statements epoch program grouped collected [] = ok collected
collect_statements epoch program grouped collected (task_id ∷ sampled) = do
  (i, e) ← ok_or (both (entry grouped task_id)) task_completeness
  collect_statements epoch program grouped
      (BTreeMap.insert task_id (zktorch_statement epoch program task_id i e) collected) sampled

unfoldable pub binding_invalid :
    EpochStatement → TaskProgram → Text → GatewayLeaf → GatewayLeaf → ZkTorchStatement → Bool
binding_invalid epoch program task_id i e statement =
    statement.protocol_version ≠ protocol_version
    || statement.epoch_id ≠ epoch.epoch_id
    || statement.task_id ≠ task_id
    || statement.program_id ≠ program.program_id
    || statement.architecture_digest ≠ program.architecture_digest
    || statement.tensor_spec_digest ≠ program.tensor_spec_digest
    || statement.model_commitment ≠ program.model_commitment
    || statement.setup_digest ≠ program.setup_digest
    || statement.parameters ≠ program.zktorch_parameters
    || statement.proof_system_version ≠ zktorch_version
    || statement.input_commitment ≠ i.content.digest
    || statement.output_commitment ≠ e.content.digest

-- The loop over the sampled tasks.
unfoldable pub check_bindings :
    EpochStatement
    → TaskProgram
    → BTreeMap Slots
    → BTreeMap ZkTorchStatement
    → List Text
    → Result RelationError (Unit {0})
check_bindings epoch program grouped statements [] = ok tt
check_bindings epoch program grouped statements (task_id ∷ sampled) = do
  statement ← ok_or (BTreeMap.get statements task_id) sample_set
  (i, e) ← ok_or (both (entry grouped task_id)) task_completeness
  reject_if (binding_invalid epoch program task_id i e statement) zktorch_binding
  check_bindings epoch program grouped statements sampled

unfoldable pub task_assurance : MonitoringPolicy → Assurance
task_assurance policy =
    if is_some policy.pod.unrecorded_channel_bound_bits
      && is_some policy.pod.residual_state_bound_bits
    then paper_compliant
    else experimental

-- `impl From<&TaskRelationInput> for TaskPublicStatement`
unfoldable pub task_public_statement : TaskRelationInput → TaskPublicStatement
task_public_statement input = record {
  policy = input.policy;
  epoch = input.epoch;
  gateway_root = input.gateway_root;
  program = input.program;
  sampled_statements = input.sampled_statements;
}

module _ (x : Primitives) where
  unfoldable pub sampled_zktorch_statements :
      MonitoringPolicy
      → EpochStatement
      → TaskProgram
      → List GatewayLeaf
      → Result RelationError (BTreeMap ZkTorchStatement)
  sampled_zktorch_statements policy epoch program leaves = do
    validate_policy policy
    reject_if (program_invalid program) task_program_error
    grouped ←
        group_leaves
          (λ leaf.
            leaf.descriptor.epoch_id ≠ epoch.epoch_id
            || leaf.descriptor.program_id ≠ program.program_id)
          [] leaves
    reject_if (any_incomplete grouped) task_completeness
    collect_statements epoch program grouped []
        (sampled_task_ids x epoch.sampling_seed epoch.epoch_id (BTreeMap.keys grouped) policy.task)

  -- What follows the grouping: the loops over pairs and samples, and the outcome.
  unfoldable pub evaluate_tasks :
      TaskRelationInput → ℕ → ℕ → BTreeMap Slots → Result RelationError RelationOutcome
  evaluate_tasks input ingress_bits egress_bits grouped = do
    reject_if (any_incomplete grouped) task_completeness
    reject_if (ltb input.policy.task.max_tasks (length grouped)) task_count_error
    check_pairs input.policy grouped
    let sampled =
        sampled_task_ids x input.epoch.sampling_seed input.epoch.epoch_id (BTreeMap.keys grouped)
          input.policy.task
    reject_if (BTreeSet.of_list (BTreeMap.keys input.sampled_statements) ≠ BTreeSet.of_list sampled)
        sample_set
    check_bindings input.epoch input.program grouped input.sampled_statements sampled
    ok (record {
      relation_satisfied = true;
      assurance = task_assurance input.policy;
      ingress_bits = ingress_bits;
      egress_bits = egress_bits;
      task_count = length grouped;
      sampled_task_ids = sampled;
    })

  unfoldable pub evaluate_task_relation : TaskRelationInput → Result RelationError RelationOutcome
  evaluate_task_relation input = do
    (ingress_bits, egress_bits) ←
        validate_gateway x input.policy input.epoch input.gateway_root input.gateway_public_key
          input.leaves
    reject_if (task_program_commitment x input.program ≠ input.epoch.task_program_commitment)
        task_program_commitment_error
    reject_if (program_invalid input.program) task_program_error
    reject_if
        (not (input.policy.task.aux_max_bits == 0)
          || not (is_empty input.aux)
          || input.epoch.aux_commitment ≠ empty_aux_commitment x)
        auxiliary_input
    reject_if
        (ltb input.policy.task.max_compute_micro_h100_hours
          input.program.max_compute_micro_h100_hours)
        task_compute
    grouped ←
        group_leaves (λ leaf. leaf.descriptor.program_id ≠ input.program.program_id) [] input.leaves
    evaluate_tasks input ingress_bits egress_bits grouped
