-- ===== src/Cli/Prepared.antt =====
-- About `prepare-task` and `verify-task` of crates/pocomp-cli/src/main.rs.
use verification_tooling.Prelude.{
  [], true, Bytes, Text, Option, some, ◌≡◌, ◌↔◌, arith, ok, result_cases, inl, inr,
}
use verification_tooling.BTreeMap
use verification_tooling.BTreeMap.Laws.{IsSorted}
use verification_tooling.Types.Audit.{TaskRelationInput, RelationOutcome}
use verification_tooling.Primitives.{Primitives}
use verification_tooling.Relation.Task.{sampled_zktorch_statements, evaluate_task_relation}
use verification_tooling.Relation.Task.Laws.{sampled_zktorch_statements-evaluate_task_relation}
use verification_tooling.Verifier.{SerdeJson, VerifyRequest, Exchange}
use verification_tooling.Cli.{prepare_task, verify_task, task_input, relation_outcome}
use verification_tooling.Cli.Main.{run_prepare_task, cli_main}

module _ (x : Primitives) (decode : Text → Option Bytes) (json : SerdeJson)
    (exchange : Text → VerifyRequest → Exchange) where
  -- For a Task input whose sampled statements are a map in key order, and where the output can be
  -- written, preparing the input without its statements gives exactly this input if and only if
  -- verifying this input succeeds: the command prepare-task prepares exactly the inputs that the
  -- command verify-task accepts.
  pub prepare_task_iff :
      (t : TaskRelationInput)
      → IsSorted (BTreeMap.keys t.sampled_statements)
      → (cli_main x decode true json exchange
            (prepare_task (some (record t { sampled_statements = [] })))
          ≡ ok (task_input t))
        ↔ ((o : RelationOutcome) × (cli_main x decode true json exchange (verify_task (some t))
              ≡ ok (relation_outcome o)))
  unfolding cli_main run_prepare_task
  prepare_task_iff t sorted = (forward, backward)
    where
      forward :
          cli_main x decode true json exchange
              (prepare_task (some (record t { sampled_statements = [] })))
            ≡ ok (task_input t)
          → (o : RelationOutcome) × (cli_main x decode true json exchange (verify_task (some t))
              ≡ ok (relation_outcome o))
      forward h =
          elim (result_cases (sampled_zktorch_statements x t.policy t.epoch t.program t.leaves)) [
            | inr (e, failed) ↦ absurd (ground arith)
            | inl (statements, derived) ↦
                elim (result_cases
                  (evaluate_task_relation x (record t { sampled_statements = statements }))) [
                    | inr (e, failed) ↦ absurd (ground arith)
                    | inl (o, accepted) ↦ (o, ground (arith, h, derived, accepted))
                  ]
          ]

      backward :
          ((o : RelationOutcome) × (cli_main x decode true json exchange (verify_task (some t))
              ≡ ok (relation_outcome o)))
          → cli_main x decode true json exchange
              (prepare_task (some (record t { sampled_statements = [] })))
            ≡ ok (task_input t)
      backward (o, h) = elim (result_cases (evaluate_task_relation x t)) [
        | inr (e, failed) ↦ absurd (ground arith)
        | inl (found, accepted) ↦ ground (
          arith,
          sampled_zktorch_statements-evaluate_task_relation x t found sorted accepted,
          accepted,
        )
      ]
