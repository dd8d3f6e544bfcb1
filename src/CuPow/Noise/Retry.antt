-- ===== src/CuPow/Noise/Retry.antt =====
-- About the retry loop of `derive_cupow_noise` of crates/pocomp-protocol/src/cupow.rs.
use verification_tooling.Prelude.{
  ℕ, zero, suc, ◌+◌, ◌*◌, ◌<◌, ◌≤◌, ◌^◌, [], ◌∷◌, is_empty, false, nat_eq, ℕ_discrete, All, Text,
  ◌≡◌, ◌⊎◌, inl, inr, refl, arith, subst, Result, ok, err,
}
use verification_tooling.Types.Records.{Hash32}
use verification_tooling.Primitives.{Primitives}
use verification_tooling.CuPow.{noise_derivation}
use verification_tooling.CuPow.Matrix.Laws.{IsMatrix}
use verification_tooling.CuPow.Product.{Fault, failed}
use verification_tooling.CuPow.Rank.{matrix_rank}
use verification_tooling.CuPow.Execute.{CuPowNoise}
use verification_tooling.CuPow.Execute.Decoded.{IsNoise}
use verification_tooling.CuPow.Noise.{attempts, derive_cupow_noise}
use verification_tooling.CuPow.Noise.Laws.{all_rank_lem, factors_at, Enough, derive_factors-IsNoise}

-- Each of the four factors has the computed rank.
abbrev pub FullRank : ℕ → CuPowNoise → Type 0
FullRank rank noise =
    All (λ m. matrix_rank m ≡ ok rank)
      (noise.e_left ∷ noise.e_right ∷ noise.f_left ∷ noise.f_right ∷ [])

module _ (x : Primitives) (fuel : ℕ) (seed workload_commitment : Hash32) (operation_id : Text)
    (n rank : ℕ) where
  abbrev at_retry : ℕ → Result Fault CuPowNoise
  at_retry = factors_at x fuel seed workload_commitment operation_id n rank

  abbrev pub Deficient : ℕ → Type 0
  Deficient retry = (noise : CuPowNoise) × (at_retry retry ≡ ok noise) × ¬ (FullRank rank noise)

  -- The factors of the first retry, from `start` and before `stop`, that all have full rank.
  pub record FirstFull (start stop : ℕ) (noise : CuPowNoise) : Type 0 where
    pub used : ℕ
    pub derived : at_retry used ≡ ok noise
    pub shapes : IsNoise n rank noise
    pub full : FullRank rank noise
    pub started : start ≤ used
    pub stopped : used < stop
    pub earlier : (k : ℕ) → start ≤ k → k < used → Deficient k

  valid_factors :
      (noise : CuPowNoise)
      → IsNoise n rank noise
      → All IsMatrix (noise.e_left ∷ noise.e_right ∷ noise.f_left ∷ noise.f_right ∷ [])
  valid_factors noise s = (
    s.e_left_shape.valid,
    (s.e_right_shape.valid, (s.f_left_shape.valid, (s.f_right_shape.valid, tt))),
  )

  abbrev Tried : ℕ → ℕ → Result Fault CuPowNoise → Type 0
  Tried start stop r =
      ((noise : CuPowNoise) × (r ≡ ok noise) × FirstFull start stop noise)
      ⊎ ((r ≡ err (failed noise_derivation)) × ((k : ℕ) → start ≤ k → k < stop → Deficient k))

  module _ (enough : Enough x fuel seed workload_commitment operation_id (n * rank)) (n_pos : 0 < n)
      (rank_pos : 0 < rank) where
    attempts_lem :
        (count retry : ℕ)
        → retry + count ≤ 2 ^ 16
        → Tried retry
            (retry + count)
            (attempts x fuel seed workload_commitment operation_id n rank count retry)
    unfolding attempts
    attempts_lem zero retry bounded = inr (refl, λ k a b. absurd (omega arith))
    attempts_lem (suc count) retry bounded =
        let (noise, e, shapes) =
          derive_factors-IsNoise x fuel seed workload_commitment operation_id n rank enough n_pos
            rank_pos retry (omega arith) in
        elim (all_rank_lem (noise.e_left ∷ noise.e_right ∷ noise.f_left ∷ noise.f_right ∷ []) rank
          (valid_factors noise shapes)) [
            | inl (t, full) ↦ inl (
              noise,
              ground (arith, e, t),
              record {
                used = retry;
                derived = e;
                shapes = shapes;
                full = full;
                started = omega arith;
                stopped = omega arith;
                earlier = λ k a b. absurd (omega arith);
              },
            )
            | inr (f, lacking) ↦
                let first : Deficient retry = (noise, e, lacking) in
                elim (attempts_lem count (suc retry) (omega arith)) [
                  | inl (later, r, found) ↦ inl (
                    later,
                    ground (arith, e, f, r),
                    record {
                      used = found.used;
                      derived = found.derived;
                      shapes = found.shapes;
                      full = found.full;
                      started = omega (arith, found.started);
                      stopped = omega (arith, found.stopped);
                      earlier = λ k a b. before retry found.used first found.earlier k a b;
                    },
                  )
                  | inr (r, none_full) ↦ inr (
                    ground (arith, e, f, r),
                    λ k a b.
                        before retry (retry + suc count) first
                          (λ j c d. none_full j c (omega arith)) k a b,
                  )
                ]
          ]
      where
        before :
            (start stop : ℕ)
            → Deficient start
            → ((k : ℕ) → suc start ≤ k → k < stop → Deficient k)
            → (k : ℕ) → start ≤ k
            → k < stop
            → Deficient k
        before start stop first rest k a b = elim (ℕ_discrete start k) [
          | yes e ↦ subst Deficient e first
          | no ne ↦ rest k (omega (arith, ne)) b
        ]

    -- For a named operation, a rank from 1 to n - 1, and a fuel such that for each of the four
    -- labels and each of the 65536 retries at least n times rank of the first bytes of the
    -- stream, as many as the fuel, are residues, the derivation ends: with the valid factors of
    -- the first of the 65536 retries at which all four have the computed rank, or with the error
    -- of the derivation when there is no such retry.
    pub derive_cupow_noise-FirstFull :
        is_empty operation_id ≡ false
        → rank < n
        → ((noise : CuPowNoise) × (derive_cupow_noise x fuel seed workload_commitment operation_id n
                rank
              ≡ ok noise)
            × FirstFull 0 (2 ^ 16) noise)
          ⊎ ((derive_cupow_noise x fuel seed workload_commitment operation_id n rank
                ≡ err (failed noise_derivation))
              × ((retry : ℕ) → retry < 2 ^ 16 → Deficient retry))
    unfolding derive_cupow_noise
    derive_cupow_noise-FirstFull named less = elim (attempts_lem (2 ^ 16) 0 (omega arith)) [
      | inl (noise, r, found) ↦ inl (noise, ground (arith, r), found)
      | inr (r, none_full) ↦
          inr (ground (arith, r), λ k b. none_full k (omega arith) (omega (arith, b)))
    ]
