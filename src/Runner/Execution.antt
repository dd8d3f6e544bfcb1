-- ===== src/Runner/Execution.antt =====
-- About `run_reference` of crates/pocomp-cupow-runner/src/main.rs.
use verification_tooling.Prelude.{
  ℕ, ◌-◌, ◌*◌, ◌/◌, ◌%◌, ◌<◌, ◌≤◌, List, [], ◌∷◌, length, is_empty, false, ◌==◌, All, AllPairs, ◌≡◌,
  ◌⊎◌, inl, inr, refl, arith, ok, err, reject_if,
}
use verification_tooling.Types.{cupow_protocol_version}
use verification_tooling.Types.Records.{zero_hash, hash32_eq}
use verification_tooling.Types.CuPow.{CuPowChallenge, SignedCuPowContract, SignedCuPowChallenge}
use verification_tooling.Primitives.{Primitives}
use verification_tooling.Commitment.{cupow_challenge_digest, hash_bytes}
use verification_tooling.CuPow.{noise_derivation}
use verification_tooling.CuPow.Matrix.{F251Matrix}
use verification_tooling.CuPow.Product.{failed, matmul_f251}
use verification_tooling.CuPow.Execute.Decoded.{HasShape, execute_cupow-matmul_f251}
use verification_tooling.CuPow.Noise.Laws.{Enough}
use verification_tooling.CuPow.Noise.Retry.{derive_cupow_noise-FirstFull}
use verification_tooling.Runner.{
  PrivateWorkItem, PrivateWorkload, ExecutorResult, protocol_fault, result_mismatch,
  WitnessEncoding, smaller, run_items, run_reference, validate_result,
}

-- What an execution shows of an item: the output is the product of its matrices, and the transcript
-- has an entry for each stripe.
abbrev pub ItemDecoded :
    SignedCuPowContract → PrivateWorkItem → List F251Matrix × F251Matrix → Type 0
ItemDecoded contract item (transcript, output) =
    (matmul_f251 item.left item.right ≡ ok output)
    × (length transcript
        ≡ item.left.rows / smaller contract.contract.policy.tile_size item.left.rows)

-- An item that the oracle can execute: valid square matrices of one size from 2 to 64 that the tile
-- size divides, a named operation, and enough residues for the noise in the streams of the four
-- labels and the 65536 retries.
pub record Ready (x : Primitives) (fuel : ℕ) (contract : SignedCuPowContract)
    (challenge : CuPowChallenge) (item : PrivateWorkItem) : Type 0 where
  pub left_shape : HasShape item.left.rows item.left.rows item.left
  pub right_shape : HasShape item.left.rows item.left.rows item.right
  pub two_rows : 2 ≤ item.left.rows
  pub small : item.left.rows ≤ 64
  pub named : is_empty item.operation_id ≡ false
  pub tile_pos : 0 < contract.contract.policy.tile_size
  pub divides : item.left.rows % smaller contract.contract.policy.tile_size item.left.rows ≡ 0
  pub enough :
      Enough x fuel challenge.seed contract.contract.epoch.workload_commitment item.operation_id
        (item.left.rows * (item.left.rows - 1))

smaller_pos : (a b : ℕ) → 0 < a → 0 < b → 0 < smaller a b
unfolding smaller
smaller_pos a b ha hb = ground arith

smaller_rank : (n : ℕ) → n ≤ 64 → smaller 128 (n - 1) ≡ n - 1
unfolding smaller
smaller_rank n h = ground arith

module _ (x : Primitives) (encoding : WitnessEncoding) (fuel : ℕ)
    (contract : SignedCuPowContract) where
  run_items_lem :
      (challenge : CuPowChallenge) (items : List PrivateWorkItem)
      → All (Ready x fuel contract challenge) items
      → ((executions : List (List F251Matrix × F251Matrix)) × (run_items x encoding fuel contract
              challenge items
            ≡ ok executions)
          × AllPairs (ItemDecoded contract) items executions)
        ⊎ (run_items x encoding fuel contract challenge items
            ≡ err (protocol_fault (failed noise_derivation)))
  unfolding run_items
  run_items_lem challenge [] h = inl ([], refl, tt)
  run_items_lem challenge (item ∷ items) (ready, h) =
      let n = item.left.rows in
      let rank = smaller_rank n ready.small in
      let tile = smaller contract.contract.policy.tile_size n in
      let tile_pos : 0 < tile =
        smaller_pos contract.contract.policy.tile_size n ready.tile_pos
          (omega (arith, ready.two_rows)) in
      elim (derive_cupow_noise-FirstFull x fuel challenge.seed
        contract.contract.epoch.workload_commitment item.operation_id n (n - 1) ready.enough
        (omega (arith, ready.two_rows)) (omega (arith, ready.two_rows)) ready.named
        (omega (arith, ready.two_rows))) [
          | inr (e, none_full) ↦ inr (ground (arith, rank, e, ready.small, ready.two_rows))
          | inl (noise, e, found) ↦
              let (execution, runs, decodes) =
                execute_cupow-matmul_f251 n (n - 1) tile item.left item.right noise ready.left_shape
                  ready.right_shape found.shapes tile_pos ready.divides in
              elim (run_items_lem challenge items h) [
                | inl (executions, r, all) ↦ inl (
                  (execution.transcript, execution.decoded_output) ∷ executions,
                  ground (arith, rank, e, runs, r, ready.small, ready.two_rows),
                  ((decodes.product, decodes.entries), all),
                )
                | inr r ↦ inr (ground (arith, rank, e, runs, r, ready.small, ready.two_rows))
              ]
        ]

  -- For a workload of valid square matrices of 2 to 64 rows that the tile size divides, with
  -- named operations, and a fuel such that for each item, each of the four labels and each of the
  -- 65536 retries at least n times n - 1 of the first bytes of the stream, as many as the fuel,
  -- are residues, the reference run ends with the error of the noise derivation, or with a result
  -- whose digest is that of executions whose outputs are the products of the items and whose
  -- transcripts have an entry for each stripe, and which passes the check of results unless that
  -- digest is zero.
  pub run_reference-Decoded :
      (challenge : SignedCuPowChallenge) (workload : PrivateWorkload)
      → All (Ready x fuel contract challenge.challenge) workload.items
      → ((result : ExecutorResult) × (executions : List (List F251Matrix × F251Matrix))
          × (run_reference x encoding fuel contract challenge.challenge workload ≡ ok result)
          × AllPairs (ItemDecoded contract) workload.items executions
          × (result.witness_digest ≡ hash_bytes x (encoding.executions executions))
          × (validate_result x encoding fuel result contract challenge
              ≡ reject_if (result.witness_digest == zero_hash) result_mismatch))
        ⊎ (run_reference x encoding fuel contract challenge.challenge workload
            ≡ err (protocol_fault (failed noise_derivation)))
  unfolding run_reference validate_result
  run_reference-Decoded challenge workload h =
      elim (run_items_lem challenge.challenge workload.items h) [
        | inl (executions, r, all) ↦ inl (
          record {
            protocol_version = cupow_protocol_version;
            challenge_digest = cupow_challenge_digest x challenge.challenge;
            witness_digest = hash_bytes x (encoding.executions executions);
            security_work_f251_macs = contract.contract.manifest.security_work_f251_macs;
          },
          executions,
          ground (arith, r),
          all,
          refl,
          ground arith,
        )
        | inr r ↦ inr (ground (arith, r))
      ]
