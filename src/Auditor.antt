-- ===== src/Auditor.antt =====
-- crates/pocomp-cupow-auditor/src/main.rs: the challenge and the completion of one epoch. Clock
-- readings, random seeds and outcomes of journal writes are arguments.
pub mod Laws
use verification_tooling.Prelude.{
  ℕ, List, [], ◌∷◌, Bool, ◌||◌, not, Bytes, ltb, leb, ◌==◌, ◌≠◌, nat_eq, bytes_eq, is_some, Option,
  none, some, Result, ok, err, ◌>>=◌, ◌>>◌, reject_if, ok_or,
}
use verification_tooling.Types.{cupow_protocol_version}
use verification_tooling.Types.Records.{Hash32, hash32_eq, zero_hash}
use verification_tooling.Types.CuPow.{
  CuPowChallenge, CuPowCompletion, SignedCuPowChallenge, SignedCuPowCompletion, SignedCuPowContract,
}
use verification_tooling.Primitives.{Primitives}
use verification_tooling.Commitment.{cupow_contract_digest, cupow_challenge_digest}
use verification_tooling.Crypto.{sign_cupow_challenge, sign_cupow_completion}

-- Without the journal file.
pub record AuditorState : Type 0 where
  pub contract : SignedCuPowContract
  pub signing_key : Bytes
  pub challenge : Option SignedCuPowChallenge
  pub completion : Option SignedCuPowCompletion

-- The messages of `bail!` and of the failed journal.
pub data AuditorError : Type 0 where
  challenge_already_issued outside_epoch zero_seed journal_failed : AuditorError
  completion_already_accepted challenge_not_issued outside_challenge mismatch : AuditorError

-- A request with what the handler reads: the clock, which can fail, a seed, the journal's outcome.
pub data Request : Type 0 where
  request_challenge : Option ℕ → Hash32 → Bool → Request
  request_complete : CuPowCompletion → Option ℕ → Bool → Request

module _ (x : Primitives) where
  unfoldable pub issue_challenge_at :
      Bool → AuditorState → ℕ → Hash32 → Result AuditorError (AuditorState × SignedCuPowChallenge)
  issue_challenge_at journaled state issued_at_ns seed = do
    let contract = state.contract.contract
    reject_if (is_some state.challenge) challenge_already_issued
    reject_if
        (ltb issued_at_ns contract.epoch.opened_at_ns
          || leb contract.epoch.closed_at_ns issued_at_ns)
        outside_epoch
    reject_if (seed == zero_hash) zero_seed
    let fresh : CuPowChallenge = record {
      protocol_version = cupow_protocol_version;
      epoch_id = contract.epoch.epoch_id;
      contract_digest = cupow_contract_digest x contract;
      seed = seed;
      issued_at_ns = issued_at_ns;
      deadline_ns = contract.epoch.closed_at_ns;
    }
    let signed = sign_cupow_challenge x fresh state.signing_key
    reject_if (not journaled) journal_failed
    ok (record state { challenge = some signed }, signed)

  unfoldable pub accept_completion :
      Bool
      → AuditorState
      → CuPowCompletion
      → ℕ
      → Result AuditorError (AuditorState × SignedCuPowCompletion)
  accept_completion journaled state completion received_at_ns = do
    reject_if (is_some state.completion) completion_already_accepted
    challenge ← ok_or state.challenge challenge_not_issued
    let contract = state.contract.contract
    reject_if
        (ltb received_at_ns challenge.challenge.issued_at_ns
          || ltb challenge.challenge.deadline_ns received_at_ns)
        outside_challenge
    reject_if
        (completion.protocol_version ≠ cupow_protocol_version
          || completion.epoch_id ≠ contract.epoch.epoch_id
          || completion.challenge_digest ≠ cupow_challenge_digest x challenge.challenge
          || completion.security_work_f251_macs ≠ contract.manifest.security_work_f251_macs
          || completion.transcript_root == zero_hash
          || completion.output_root == zero_hash)
        mismatch
    let signed =
        sign_cupow_completion x (record completion { completed_at_ns = received_at_ns })
          state.signing_key
    reject_if (not journaled) journal_failed
    ok (record state { completion = some signed }, signed)

  -- The handlers `challenge` and `complete`, one at a time under the lock. An error leaves the state.
  unfoldable pub handle : AuditorState → Request → AuditorState
  handle state (request_challenge none seed journaled) = state
  handle state (request_challenge (some now) seed journaled) =
      elim (issue_challenge_at journaled state now seed) [ ok (s, _) ↦ s | err _ ↦ state ]
  handle state (request_complete completion none journaled) = state
  handle state (request_complete completion (some now) journaled) =
      elim (accept_completion journaled state completion now) [ ok (s, _) ↦ s | err _ ↦ state ]

  unfoldable pub serve : AuditorState → List Request → AuditorState
  serve state [] = state
  serve state (request ∷ requests) = serve (handle state request) requests

-- The state at startup.
abbrev pub startup : SignedCuPowContract → Bytes → AuditorState
startup contract signing_key = record {
  contract = contract;
  signing_key = signing_key;
  challenge = none;
  completion = none;
}
