-- ===== src/Tests/Auditor.antt =====
-- The auditor of the cuPOW epoch issues its challenge, refuses another, and accepts its completion.
use verification_tooling.Prelude.{List, [], ◌∷◌, true, ◌≡◌, ◌≢◌, refl, arith, some, none, ok, err}
use verification_tooling.Crypto.{
  sign_cupow_contract, sign_cupow_challenge, verify_cupow_challenge_signature,
  verify_cupow_completion_signature,
}
use verification_tooling.CuPow.{challenge_error, completion_error}
use verification_tooling.CuPow.Relation.{evaluate_capacity, evaluate_cupow_relation}
use verification_tooling.Auditor.{
  AuditorState, challenge_already_issued, issue_challenge_at, accept_completion, Request,
  request_challenge, request_complete, handle, serve, startup,
}
use verification_tooling.Auditor.Laws.{
  issue_challenge_at-once, serve-signed, serve-evaluate_cupow_relation,
}
use verification_tooling.Tests.Toy.{toy, toy-IsSignatureScheme, hash_of, key}
use verification_tooling.Tests.CuPow.{
  signed_contract, contract, handover, challenge, done, completion, statement, profile_accepted,
  policy_accepted, epoch_accepted, work_counted,
}

abbrev start : AuditorState
start = startup signed_contract key

abbrev issued : AuditorState
issued = record start { challenge = some challenge }

abbrev finished : AuditorState
finished = record issued { completion = some completion }

issuing : issue_challenge_at toy true start 20 (hash_of 9) ≡ ok (issued, challenge)
unfolding issue_challenge_at sign_cupow_contract
issuing = ground arith

accepting : accept_completion toy true issued done 900_000_000 ≡ ok (finished, completion)
unfolding accept_completion sign_cupow_contract sign_cupow_challenge
accepting = ground arith

abbrev requests : List Request
requests =
    request_challenge (some 20) (hash_of 9) true
    ∷ request_complete done none true
    ∷ request_complete done (some 900_000_000) true
    ∷ []

served : serve toy start requests ≡ finished
unfolding serve handle
served = ground (arith, issuing, accepting)

issue_challenge_at-once_example :
    ((serve toy issued requests).challenge ≡ some challenge)
    × (issue_challenge_at toy true (serve toy issued requests) 30 (hash_of 8)
        ≡ err challenge_already_issued)
issue_challenge_at-once_example =
    issue_challenge_at-once toy true start issued 20 (hash_of 9) challenge requests true 30
      (hash_of 8) issuing

held_challenge : (serve toy start requests).challenge ≡ some challenge
held_challenge = ground (arith, served)

held_completion : (serve toy start requests).completion ≡ some completion
held_completion = ground (arith, served)

serve-signed_example :
    (verify_cupow_challenge_signature toy challenge key ≡ true)
    × (verify_cupow_completion_signature toy completion key ≡ true)
serve-signed_example =
    serve-signed toy signed_contract key requests challenge completion toy-IsSignatureScheme
      held_challenge held_completion

serve-evaluate_cupow_relation_example :
    (evaluate_cupow_relation toy statement
      ≡ evaluate_capacity contract handover.certificate 1_073_741_824)
    × (evaluate_cupow_relation toy statement ≢ err challenge_error)
    × (evaluate_cupow_relation toy statement ≢ err completion_error)
unfolding sign_cupow_contract
serve-evaluate_cupow_relation_example =
    serve-evaluate_cupow_relation toy signed_contract key requests challenge completion statement
      refl refl refl refl profile_accepted policy_accepted epoch_accepted work_counted (λ e. cc)
      (λ e. cc) held_challenge held_completion
