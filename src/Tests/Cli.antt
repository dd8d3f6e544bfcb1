-- ===== src/Tests/Cli.antt =====
-- A challenge and a completion that the command line issues, and a prepared Task input.
use verification_tooling.Prelude.{
  [], replicate, true, false, Bytes, Text, Option, some, none, ◌≡◌, ◌≢◌, ◌↔◌, refl, arith, ok, err,
  ℕ_discrete,
}
use verification_tooling.Types.Records.{hash32_eq}
use verification_tooling.Types.Audit.{RelationOutcome}
use verification_tooling.Types.CuPow.{
  SignedCuPowContract, SignedCuPowChallenge, SignedCuPowCompletion, CuPowPublicStatement,
}
use verification_tooling.Crypto.{
  sign_cupow_contract, sign_cupow_challenge, sign_cupow_completion, verify_cupow_contract_signature,
  verify_cupow_challenge_signature,
}
use verification_tooling.Crypto.Laws.{verify-sign_records}
use verification_tooling.CuPow.{challenge_error, completion_error}
use verification_tooling.CuPow.Relation.{starts_with, evaluate_capacity, evaluate_cupow_relation}
use verification_tooling.Verifier.{SerdeJson, VerifyRequest, Exchange, spawn_failed}
use verification_tooling.Cli.{
  prepare_task, verify_task, task_input, relation_outcome, strip_sha256, thirty_two, parse_hash,
  read_key,
}
use verification_tooling.Cli.Main.{run_issue_challenge, mismatched, run_sign_completion, cli_main}
use verification_tooling.Cli.Epoch.{run_sign_completion-evaluate_cupow_relation}
use verification_tooling.Cli.Prepared.{prepare_task_iff}
use verification_tooling.Tests.Toy.{toy, toy-IsSignatureScheme, hash_of}
use verification_tooling.Tests.CuPow.{
  contract, fresh, done, handover, statement, profile_accepted, policy_accepted, epoch_accepted,
  work_counted,
}
use verification_tooling.Tests.Relations

-- Stands for `hex::decode`: the texts of the tests are their own bytes.
abbrev decode : Text → Option Bytes
decode t = some t

abbrev long_key : Bytes
long_key = replicate 32 9

abbrev signed : SignedCuPowContract
signed = sign_cupow_contract toy contract long_key

abbrev issued : SignedCuPowChallenge
issued = sign_cupow_challenge toy fresh long_key

abbrev completed : SignedCuPowCompletion
completed = sign_cupow_completion toy done long_key

key_read : read_key decode (some long_key) ≡ ok long_key
unfolding read_key thirty_two ℕ_discrete
key_read = refl

seed_read : parse_hash decode (replicate 32 9) ≡ ok (hash_of 9)
unfolding parse_hash thirty_two strip_sha256 starts_with ℕ_discrete
seed_read = refl

contract_verifies : verify_cupow_contract_signature toy signed long_key ≡ true
contract_verifies = (verify-sign_records toy toy-IsSignatureScheme long_key).4 contract

challenge_verifies : verify_cupow_challenge_signature toy issued long_key ≡ true
challenge_verifies = (verify-sign_records toy toy-IsSignatureScheme long_key).5 fresh

issuing :
    run_issue_challenge toy decode true (some signed) (replicate 32 9) 20 (some long_key)
    ≡ ok issued
unfolding run_issue_challenge sign_cupow_contract
issuing = ground (arith, key_read, seed_read, contract_verifies)

not_mismatched : mismatched toy decode true contract fresh done ≡ false
unfolding mismatched
not_mismatched = ground arith

completing :
    run_sign_completion toy decode true (some signed) (some issued) (some done) (some long_key)
    ≡ ok completed
unfolding run_sign_completion sign_cupow_contract sign_cupow_challenge
completing = ground (arith, key_read, contract_verifies, challenge_verifies, not_mismatched)

abbrev issued_statement : CuPowPublicStatement
issued_statement = record statement {
  contract = signed;
  challenge = issued;
  completion = completed;
}

run_sign_completion-evaluate_cupow_relation_example :
    (evaluate_cupow_relation toy issued_statement
      ≡ evaluate_capacity contract handover.certificate 1_073_741_824)
    × (evaluate_cupow_relation toy issued_statement ≢ err challenge_error)
    × (evaluate_cupow_relation toy issued_statement ≢ err completion_error)
unfolding sign_cupow_contract
run_sign_completion-evaluate_cupow_relation_example =
    run_sign_completion-evaluate_cupow_relation toy decode signed (replicate 32 9) 20
      (some long_key) issued done issued_statement issuing completing refl refl refl
      profile_accepted policy_accepted epoch_accepted work_counted (λ e. cc) (λ e. cc)

abbrev json : SerdeJson
json = record {
  pod_statement = λ s. none;
  task_statement = λ s. none;
  zktorch_statement = λ s. none;
  cupow_statement = λ s. none;
}

abbrev exchange : Text → VerifyRequest → Exchange
exchange path request = spawn_failed

prepare_task_iff_example :
    (cli_main toy decode true json exchange
        (prepare_task (some (record Relations.task_input { sampled_statements = [] })))
      ≡ ok (task_input Relations.task_input))
    ↔ ((o : RelationOutcome) × (cli_main toy decode true json exchange
            (verify_task (some Relations.task_input))
          ≡ ok (relation_outcome o)))
prepare_task_iff_example = prepare_task_iff toy decode json exchange Relations.task_input (tt, tt)
