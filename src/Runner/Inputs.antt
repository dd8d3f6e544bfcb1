-- ===== src/Runner/Inputs.antt =====
-- About the validation of inputs and CUDA results in crates/pocomp-cupow-runner/src/main.rs.
use verification_tooling.Prelude.{
  ℕ, ◌/◌, ◌<◌, List, [], ◌∷◌, length, All, AllPairs, ◌≡◌, ◌≢◌, ◌↔◌, false, refl, arith, ok,
}
use verification_tooling.Types.{cupow_protocol_version}
use verification_tooling.Types.Records.{zero_hash}
use verification_tooling.Types.CuPow.{CuPowWorkItem, SignedCuPowContract, SignedCuPowChallenge}
use verification_tooling.Primitives.{Primitives}
use verification_tooling.Commitment.{cupow_contract_digest}
use verification_tooling.CuPow.Matrix.{F251Matrix}
use verification_tooling.Runner.{
  PrivateWorkItem, PrivateWorkload, WitnessEncoding, any_shape_mismatch, any_other_shape,
  check_transcripts, validate_inputs,
}

-- A matrix with `n` rows and `n` columns.
abbrev pub Square : ℕ → F251Matrix → Type 0
Square n m = (m.rows ≡ n) × (m.columns ≡ n)

abbrev pub SameItem : PrivateWorkItem → CuPowWorkItem → Type 0
SameItem private item =
    (private.operation_id ≡ item.operation_id)
    × Square item.n private.left
    × Square item.n private.right

any_shape_mismatch_iff :
    (privates : List PrivateWorkItem) (items : List CuPowWorkItem)
    → length privates ≡ length items
    → (any_shape_mismatch privates items ≡ false) ↔ AllPairs SameItem privates items
unfolding any_shape_mismatch
any_shape_mismatch_iff [] [] h = (λ e. tt, λ a. refl)
any_shape_mismatch_iff [] (item ∷ items) h = absurd (omega arith)
any_shape_mismatch_iff (private ∷ privates) [] h = absurd (omega arith)
any_shape_mismatch_iff (private ∷ privates) (item ∷ items) h =
    let rest = any_shape_mismatch_iff privates items (omega arith) in
    (
      λ e. (
        (ground arith, (ground arith, ground arith), (ground arith, ground arith)),
        rest.0 (ground arith),
      ),
      λ ((i, (a, b), (c, d)), all). ground (arith, rest.1 all, i, a, b, c, d),
    )

-- What the private workload must agree with.
pub record InputsBound (x : Primitives) (contract : SignedCuPowContract)
    (challenge : SignedCuPowChallenge) (workload : PrivateWorkload) : Type 0 where
  pub contract_version : contract.contract.protocol_version ≡ cupow_protocol_version
  pub challenge_version : challenge.challenge.protocol_version ≡ cupow_protocol_version
  pub contract_bound :
      challenge.challenge.contract_digest ≡ cupow_contract_digest x contract.contract
  pub epoch_bound : challenge.challenge.epoch_id ≡ contract.contract.epoch.epoch_id
  pub seeded : challenge.challenge.seed ≢ zero_hash
  pub workload_named : workload.workload_id ≡ contract.contract.manifest.workload_id
  pub counted : length workload.items ≡ length contract.contract.manifest.items
  pub shaped : AllPairs SameItem workload.items contract.contract.manifest.items

pub validate_inputs_iff :
    (x : Primitives) (encoding : WitnessEncoding) (fuel : ℕ) (contract : SignedCuPowContract)
    (challenge : SignedCuPowChallenge) (workload : PrivateWorkload)
    → (validate_inputs x encoding fuel contract challenge workload ≡ ok tt)
      ↔ InputsBound x contract challenge workload
unfolding validate_inputs
validate_inputs_iff x encoding fuel contract challenge workload =
    let shapes = any_shape_mismatch_iff workload.items contract.contract.manifest.items in
    (
      λ e. record {
        contract_version = ground arith;
        challenge_version = ground arith;
        contract_bound = ground arith;
        epoch_bound = ground arith;
        seeded = ground arith;
        workload_named = ground arith;
        counted = ground arith;
        shaped = (shapes (ground arith)).0 (ground arith);
      },
      λ b. ground (arith, (shapes b.counted).1 b.shaped),
    )

any_other_shape_iff :
    (n : ℕ) (ms : List F251Matrix) → (any_other_shape n ms ≡ false) ↔ All (Square n) ms
unfolding any_other_shape
any_other_shape_iff n [] = (λ e. tt, λ a. refl)
any_other_shape_iff n (m ∷ ms) = (
  λ e. ((ground arith, ground arith), (any_other_shape_iff n ms).0 (ground arith)),
  λ ((a, b), all). ground (arith, (any_other_shape_iff n ms).1 all, a, b),
)

-- For each item a transcript with one square matrix for each stripe, and a square output.
abbrev pub TranscriptsShaped :
    ℕ → List (List F251Matrix) → List F251Matrix → List CuPowWorkItem → Type 0
TranscriptsShaped tile (t ∷ ts) (o ∷ os) (i ∷ is) =
    (0 < tile)
    × (length t ≡ i.n / tile)
    × All (Square i.n) t
    × Square i.n o
    × TranscriptsShaped tile ts os is
TranscriptsShaped tile ts os is = Unit

pub check_transcripts_iff :
    (tile : ℕ) (ts : List (List F251Matrix)) (os : List F251Matrix) (is : List CuPowWorkItem)
    → (check_transcripts tile ts os is ≡ ok tt) ↔ TranscriptsShaped tile ts os is
unfolding check_transcripts
check_transcripts_iff tile [] os is = (λ e. tt, λ a. refl)
check_transcripts_iff tile (t ∷ ts) [] is = (λ e. tt, λ a. refl)
check_transcripts_iff tile (t ∷ ts) (o ∷ os) [] = (λ e. tt, λ a. refl)
check_transcripts_iff tile (t ∷ ts) (o ∷ os) (i ∷ is) =
    let rest = check_transcripts_iff tile ts os is in
    let squares = any_other_shape_iff i.n t in
    (
      λ e. (
        ground arith,
        ground arith,
        squares.0 (ground arith),
        (ground arith, ground arith),
        rest.0 (ground arith),
      ),
      λ (pos, long, all, (a, b), more). ground (arith, rest.1 more, squares.1 all, a, b, long, pos),
    )
