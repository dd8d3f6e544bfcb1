-- ===== src/CuPow/Relation/Capacity.antt =====
-- About `evaluate_capacity` of crates/pocomp-protocol/src/cupow.rs: the errors it can give.
use verification_tooling.Prelude.{ℕ, Result, err, ◌≡◌, ◌≢◌, arith}
use verification_tooling.Types.Audit.{ErasureCertificate}
use verification_tooling.Types.CuPow.{CuPowContract, CuPowOutcome}
use verification_tooling.CuPow.{CuPowError, challenge_error, completion_error}
use verification_tooling.CuPow.Relation.{evaluate_capacity}

module _ (contract : CuPowContract) (erasure : ErasureCertificate) (work : ℕ) where
  -- The capacity and erasure checks never blame the challenge or the completion.
  evaluate_capacity_errors :
      (evaluate_capacity contract erasure work ≢ err challenge_error)
      × (evaluate_capacity contract erasure work ≢ err completion_error)
  unfolding evaluate_capacity
  evaluate_capacity_errors = (λ e. ground arith, λ e. ground arith)

  -- Nor does a result that is theirs.
  pub agreed :
      (r : Result CuPowError CuPowOutcome)
      → r ≡ evaluate_capacity contract erasure work
      → (r ≡ evaluate_capacity contract erasure work)
        × (r ≢ err challenge_error)
        × (r ≢ err completion_error)
  agreed r e = (e, rw e evaluate_capacity_errors.0, rw e evaluate_capacity_errors.1)
