-- ===== src/Cli/Epoch.antt =====
-- About `issue-cupow-challenge` and `sign-cupow-completion` of crates/pocomp-cli/src/main.rs.
use verification_tooling.Prelude.{
  ℕ, [], true, false, Bytes, Text, Option, some, ◌≡◌, ◌≢◌, arith, ok, err,
}
use verification_tooling.Types.{cupow_protocol_version}
use verification_tooling.Types.CuPow.{
  CuPowCompletion, CuPowPublicStatement, SignedCuPowChallenge, SignedCuPowCompletion,
  SignedCuPowContract,
}
use verification_tooling.Primitives.{Primitives}
use verification_tooling.Crypto.{sign_cupow_challenge, sign_cupow_completion}
use verification_tooling.CuPow.Relation.{
  profile_invalid, policy_invalid, epoch_invalid, total_work, challenge_invalid, completion_invalid,
  evaluate_capacity, evaluate_cupow_relation,
}
use verification_tooling.CuPow.{challenge_error, completion_error}
use verification_tooling.CuPow.Relation.Capacity.{agreed}
use verification_tooling.Cli.Main.{run_issue_challenge, mismatched, run_sign_completion}

module _ (x : Primitives) (decode : Text → Option Bytes) (contract : SignedCuPowContract)
    (seed_hex : Text) (issued_at_ns : ℕ) (key_file : Option Text) (c : SignedCuPowChallenge) where
  issued_challenge_invalid :
      run_issue_challenge x decode true (some contract) seed_hex issued_at_ns key_file ≡ ok c
      → challenge_invalid x contract.contract c.challenge ≡ false
  unfolding run_issue_challenge challenge_invalid sign_cupow_challenge
  issued_challenge_invalid h = ground arith

  signed_completion_invalid :
      (completion : CuPowCompletion) (d : SignedCuPowCompletion)
      → run_sign_completion x decode true (some contract) (some c) (some completion) key_file ≡ ok d
      → completion_invalid x contract.contract c.challenge
          contract.contract.manifest.security_work_f251_macs d.completion
        ≡ false
  unfolding run_sign_completion mismatched completion_invalid sign_cupow_completion
  signed_completion_invalid completion d h = ground arith

  -- For a statement of the current version with a contract, a challenge that the tool issued for
  -- it and a completion that the tool signed for both, over a contract with valid profile,
  -- policy, epoch, counted work, a named workload and at least one item, the cuPOW relation gives
  -- what its capacity and erasure checks give, whether they accept or refuse, and so never the
  -- error of the challenge or the error of the completion.
  pub run_sign_completion-evaluate_cupow_relation :
      (completion : CuPowCompletion) (s : CuPowPublicStatement)
      → run_issue_challenge x decode true (some contract) seed_hex issued_at_ns key_file ≡ ok c
      → run_sign_completion x decode true (some contract) (some c) (some completion) key_file
        ≡ ok s.completion
      → s.protocol_version ≡ cupow_protocol_version
      → s.contract ≡ contract
      → s.challenge ≡ c
      → profile_invalid contract.contract ≡ false
      → policy_invalid contract.contract.policy ≡ false
      → epoch_invalid x contract.contract ≡ false
      → total_work contract.contract.policy 0 [] contract.contract.manifest.items
        ≡ ok contract.contract.manifest.security_work_f251_macs
      → contract.contract.manifest.workload_id ≢ []
      → contract.contract.manifest.items ≢ []
      → (evaluate_cupow_relation x s
          ≡ evaluate_capacity contract.contract s.erasure.certificate
              contract.contract.manifest.security_work_f251_macs)
        × (evaluate_cupow_relation x s ≢ err challenge_error)
        × (evaluate_cupow_relation x s ≢ err completion_error)
  unfolding evaluate_cupow_relation
  run_sign_completion-evaluate_cupow_relation completion s hi hc pv ec eh pro pol epo work wid
        items =
      let challenge_ok = issued_challenge_invalid hi in
      let completion_ok = signed_completion_invalid completion s.completion hc in
      agreed contract.contract s.erasure.certificate
        contract.contract.manifest.security_work_f251_macs (evaluate_cupow_relation x s)
        (ground (arith, pro, pol, epo, work))
