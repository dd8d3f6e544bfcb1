-- ===== src/Relation/Task/Laws.antt =====
-- What `evaluate_task_relation` accepts, and its agreement with `sampled_zktorch_statements`.
use verification_tooling.Prelude.{
  ℕ, ◌≤◌, ◌<◌, ◌*◌, List, [], ◌∷◌, false, ◌||◌, ◌≠◌, Text, bytes_eq, ◌≡◌, refl, sym, ap, ◌∙◌, ◌⊎◌,
  inl, inr, arith, none, some, ok, result_cases, Option-cases, All, length, suc, is_some,
  if◌then◌else◌,
}
use verification_tooling.BTreeMap
use verification_tooling.BTreeMap.{BTreeMap}
use verification_tooling.BTreeMap.Laws.{eq_of_get, IsSorted}
use verification_tooling.BTreeSet
use verification_tooling.BTreeSet.{contains}
use verification_tooling.Types.Records.{GatewayRoot, GatewayLeaf, ingress, egress}
use verification_tooling.Types.Audit.{
  EpochStatement, TaskProgram, TaskRelationInput, RelationOutcome, MonitoringPolicy,
}
use verification_tooling.Primitives.{Primitives}
use verification_tooling.Sampling.{sampled_task_ids}
use verification_tooling.Sampling.Laws.{sampled-IsSorted}
use verification_tooling.BTreeSet.Laws.{of_list_sorted, contains-keys}
use verification_tooling.Relation.Task.Statements.{
  statement_of, HasBoth-of_contains, check_bindings_sound, collect_statements_lem,
}
use verification_tooling.Relation.Gateway.{validate_gateway}
use verification_tooling.Relation.Gateway.Laws.{
  GatewayValid, Numbered, validate_gateway_iff, validate_policy_iff,
}
use verification_tooling.Relation.Task.{
  Slots, entry, both, group_leaves, any_incomplete, check_pair, check_pairs, check_bindings,
  evaluate_tasks, evaluate_task_relation, sampled_zktorch_statements, program_invalid,
}
use verification_tooling.Relation.Task.Grouping.{
  of_task, group_leaves-of_task, group_leaves-congr, group_leaves-IsSorted, both_of_complete,
}

-- The ingress comes first, and both messages are within the bounds of a task.
pub record PairValid (policy : MonitoringPolicy) (i e : GatewayLeaf) : Type 0 where
  pub numbered : i.descriptor.sequence < e.descriptor.sequence
  pub timed : i.descriptor.ended_at_ns ≤ e.descriptor.started_at_ns
  pub ingress_bounded : 8 * i.descriptor.encoded_len_bytes ≤ policy.task.max_ingress_bits
  pub egress_bounded : 8 * e.descriptor.encoded_len_bytes ≤ policy.task.max_egress_bits

check_pair_sound :
    (policy : MonitoringPolicy) (i e : GatewayLeaf)
    → check_pair policy i e ≡ ok tt
    → PairValid policy i e
unfolding check_pair
check_pair_sound policy i e h = ground arith

check_pairs_sound :
    (policy : MonitoringPolicy) (g : BTreeMap Slots) (t : Text) (i e : GatewayLeaf)
    → check_pairs policy g ≡ ok tt
    → BTreeMap.get g t ≡ some (some i, some e)
    → PairValid policy i e
unfolding check_pairs BTreeMap.get both
check_pairs_sound policy [] t i e h q = ground arith
check_pairs_sound policy ((k, (some i', some e')) ∷ g) t i e h q =
    ground (arith, check_pair_sound policy i' e', check_pairs_sound policy g t i e)
check_pairs_sound policy ((k, (some i', none)) ∷ g) t i e h q = ground arith
check_pairs_sound policy ((k, (none, e')) ∷ g) t i e h q = ground arith

-- The grouping of the leaves that an accepted input has, with what the later loops found of it.
record TasksAccepted (x : Primitives) (input : TaskRelationInput) (g : BTreeMap Slots)
    (o : RelationOutcome) : Type 0 where
  complete : any_incomplete g ≡ false
  counted : length g ≤ input.policy.task.max_tasks
  paired : check_pairs input.policy g ≡ ok tt
  same_set :
      BTreeSet.of_list (BTreeMap.keys input.sampled_statements)
      ≡ BTreeSet.of_list (
          sampled_task_ids x input.epoch.sampling_seed input.epoch.epoch_id
            (BTreeMap.keys g)
            input.policy.task)
  bound :
      check_bindings input.epoch input.program g input.sampled_statements (
        sampled_task_ids x input.epoch.sampling_seed input.epoch.epoch_id
          (BTreeMap.keys g)
          input.policy.task)
      ≡ ok tt

module _ (x : Primitives) (input : TaskRelationInput) (o : RelationOutcome) where
  open input use {policy, epoch, program, leaves}

  evaluate_tasks_sound :
      (i e : ℕ) (g : BTreeMap Slots)
      → evaluate_tasks x input i e g ≡ ok o
      → TasksAccepted x input g o
  unfolding evaluate_tasks
  evaluate_tasks_sound i e g h = ground arith

  -- What an accepted input went through.
  evaluate_task_relation_sound :
      evaluate_task_relation x input ≡ ok o
      → (g : BTreeMap Slots) × GatewayValid x policy epoch input.gateway_root
          input.gateway_public_key leaves
        × (program_invalid program ≡ false)
        × (group_leaves (λ leaf. leaf.descriptor.program_id ≠ program.program_id) [] leaves ≡ ok g)
        × TasksAccepted x input g o
  unfolding evaluate_task_relation
  evaluate_task_relation_sound h =
      elim (result_cases
        (validate_gateway x policy epoch input.gateway_root input.gateway_public_key leaves)) [
          | inr (r, p) ↦ absurd (ground arith)
          | inl ((i, e), p) ↦
              elim (result_cases (
                group_leaves (λ leaf. leaf.descriptor.program_id ≠ program.program_id) [] leaves)) [
                  | inr (r, q) ↦ absurd (ground arith)
                  | inl (g, q) ↦ (
                    g,
                    ((validate_gateway_iff x policy epoch input.gateway_root
                          input.gateway_public_key leaves i e).0
                        p).0,
                    ground arith,
                    q,
                    evaluate_tasks_sound i e g (ground arith),
                  )
                ]
        ]

pub evaluate_task_relation-GatewayValid :
    (x : Primitives) (input : TaskRelationInput) (o : RelationOutcome)
    → evaluate_task_relation x input ≡ ok o
    → GatewayValid x input.policy input.epoch input.gateway_root input.gateway_public_key
        input.leaves
evaluate_task_relation-GatewayValid x input o h =
    let (g, v, p, q, a) = evaluate_task_relation_sound x input o h in v

-- No message of the task, or exactly one ingress and one egress that form a valid pair.
abbrev pub TaskPaired : MonitoringPolicy → List GatewayLeaf → Text → Type 0
TaskPaired policy leaves t =
    ((of_task ingress t leaves ≡ []) × (of_task egress t leaves ≡ []))
    ⊎ ((i : GatewayLeaf) × (e : GatewayLeaf) × (of_task ingress t leaves ≡ i ∷ [])
        × (of_task egress t leaves ≡ e ∷ [])
        × PairValid policy i e)

module _ (x : Primitives) (input : TaskRelationInput) (o : RelationOutcome) where
  open input use {policy, epoch, program, leaves}

  -- In an epoch that the Task relation accepts, each task either has no message, or has exactly
  -- one ingress and one egress message, the ingress numbered before the egress and ended before
  -- the egress starts, both within the bit bounds of the task policy.
  pub evaluate_task_relation-TaskPaired :
      evaluate_task_relation x input ≡ ok o → (t : Text) → TaskPaired policy leaves t
  unfolding entry both
  evaluate_task_relation-TaskPaired h t =
      let (g, v, p, q, a) = evaluate_task_relation_sound x input o h in
      let foreign = λ (leaf : GatewayLeaf). leaf.descriptor.program_id ≠ program.program_id in
      let ins = group_leaves-of_task foreign g leaves q ingress t in
      let outs = group_leaves-of_task foreign g leaves q egress t in
      elim (Option-cases (BTreeMap.get g t)) [
        | inl missing ↦ inl (ground arith)
        | inr ((some i, some e), found) ↦
            inr (i, e, ground arith, ground arith, check_pairs_sound policy g t i e a.paired found)
        | inr ((some i, none), found) ↦
            absurd (both_of_complete g t (some i, none) a.complete found refl)
        | inr ((none, e), found) ↦ absurd (both_of_complete g t (none, e) a.complete found refl)
      ]

-- A foreign leaf is foreign in the other loop too, once its epoch has been checked.
same_tests :
    (epoch : EpochStatement) (statement : GatewayRoot) (program : TaskProgram) (index : ℕ)
    (leaves : List GatewayLeaf)
    → Numbered epoch statement index leaves
    → All
        (λ leaf.
          (leaf.descriptor.epoch_id ≠ epoch.epoch_id
            || leaf.descriptor.program_id ≠ program.program_id)
          ≡ (leaf.descriptor.program_id ≠ program.program_id))
        leaves
same_tests epoch statement program index [] n = tt
same_tests epoch statement program index (leaf ∷ leaves) n =
    (ground arith, same_tests epoch statement program (suc index) leaves n.2)

module _ (x : Primitives) (input : TaskRelationInput) (o : RelationOutcome) where
  open input use {policy, epoch, program, leaves, sampled_statements}

  -- The supplied statements are those that the leaves determine, for the sampled tasks alone.
  supplied_get :
      (g : BTreeMap Slots)
      → IsSorted (BTreeMap.keys g)
      → IsSorted (BTreeMap.keys sampled_statements)
      → TasksAccepted x input g o
      → let sampled =
          sampled_task_ids x epoch.sampling_seed epoch.epoch_id (BTreeMap.keys g) policy.task in
        (t : Text)
        → BTreeMap.get sampled_statements t
          ≡ (if contains sampled t then statement_of epoch program g t else none)
  supplied_get g sg ss a t =
      let sampled =
        sampled_task_ids x epoch.sampling_seed epoch.epoch_id (BTreeMap.keys g) policy.task in
      let sorted =
        sampled-IsSorted x epoch.sampling_seed epoch.epoch_id (BTreeMap.keys g) policy.task sg in
      let supplied : BTreeMap.keys sampled_statements ≡ sampled =
        sym (of_list_sorted _ ss) ∙ a.same_set ∙ of_list_sorted sampled sorted in
      let domain : contains sampled t ≡ is_some (BTreeMap.get sampled_statements t) =
        rw supplied at (contains-keys sampled_statements t) in
      ground (arith, check_bindings_sound epoch program g sampled_statements sampled t a.bound)

  -- For a Task input that the relation accepts, and whose supplied statements are a map in key
  -- order, deriving the sampled statements from the policy, epoch, program and leaves succeeds
  -- and gives exactly the supplied map: the prover that derives its statements and the evaluator
  -- that checks them agree.
  pub sampled_zktorch_statements-evaluate_task_relation :
      IsSorted (BTreeMap.keys sampled_statements)
      → evaluate_task_relation x input ≡ ok o
      → sampled_zktorch_statements x policy epoch program leaves ≡ ok sampled_statements
  unfolding sampled_zktorch_statements BTreeMap.get
  sampled_zktorch_statements-evaluate_task_relation ss h =
      let (g, v, p, q, a) = evaluate_task_relation_sound x input o h in
      let foreign = λ (leaf : GatewayLeaf). leaf.descriptor.program_id ≠ program.program_id in
      let sg = group_leaves-IsSorted foreign [] g leaves q tt in
      let sampled =
        sampled_task_ids x epoch.sampling_seed epoch.epoch_id (BTreeMap.keys g) policy.task in
      let all_both =
        HasBoth-of_contains epoch program g sampled (λ t c.
          (check_bindings_sound epoch program g sampled_statements sampled t a.bound c).1) in
      let (m, c, sm, look) = collect_statements_lem epoch program g [] sampled all_both tt in
      let same : m ≡ sampled_statements =
        eq_of_get m sampled_statements sm ss (λ t. look t ∙ sym (supplied_get g sg ss a t)) in
      let regrouped =
        group_leaves-congr _ foreign [] leaves
          (same_tests epoch input.gateway_root.statement program 0 leaves v.numbered)
        ∙ q in
      rw ((validate_policy_iff policy).1 v.policy_valid, p, regrouped, a.complete) (c ∙ ap ok same)
