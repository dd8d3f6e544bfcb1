-- ===== src/CuPow/Noise/Laws.antt =====
-- About `derive_matrix` and `derive_cupow_noise` of crates/pocomp-protocol/src/cupow.rs.
use verification_tooling.Prelude.{
  ℕ, zero, suc, ◌*◌, ◌^◌, ◌<◌, ◌≤◌, List, [], ◌∷◌, length, Bool-cases, true, false, ltb, ◌==◌,
  nat_eq, All, Bytes, Text, ◌≡◌, ◌⊎◌, inl, inr, refl, ap, arith, Result, ok,
}
use verification_tooling.Types.Records.{Hash32}
use verification_tooling.Primitives.{Primitives}
use verification_tooling.CuPow.Matrix.{F251Matrix}
use verification_tooling.CuPow.Matrix.Laws.{Residues, IsMatrix, IsMatrix-new}
use verification_tooling.CuPow.Product.{Fault}
use verification_tooling.CuPow.Rank.{matrix_rank}
use verification_tooling.CuPow.Rank.Laws.{matrix_rank-bounded}
use verification_tooling.CuPow.Execute.{CuPowNoise}
use verification_tooling.CuPow.Execute.Decoded.{HasShape, IsNoise}
use verification_tooling.CuPow.Noise.{
  noise_message, sample, all_rank, derive_matrix, derive_factors, e_left_label, e_right_label,
  f_left_label, f_right_label,
}

-- How many of the `fuel` bytes from `position` are residues.
abbrev pub accepted : (ℕ → ℕ) → ℕ → ℕ → ℕ
accepted stream position zero = 0
accepted stream position (suc fuel) = elim (ltb (stream position) 251) [
  | true ↦ suc (accepted stream (suc position) fuel)
  | false ↦ accepted stream (suc position) fuel
]

sample-Residues :
    (stream : ℕ → ℕ) (fuel position count : ℕ)
    → count ≤ accepted stream position fuel
    → (vs : List ℕ) × (sample stream fuel position count ≡ ok vs)
      × (length vs ≡ count)
      × Residues vs
unfolding sample
sample-Residues stream fuel position zero h = ([], refl, refl, tt)
sample-Residues stream zero position (suc count) h = absurd (omega arith)
sample-Residues stream (suc fuel) position (suc count) h =
    elim (Bool-cases (ltb (stream position) 251)) [
      | inl low ↦
          let (vs, e, l, r) =
            sample-Residues stream fuel (suc position) count (ground (arith, low)) in
          (stream position ∷ vs, ground (arith, low, e), ap suc l, (ground (arith, low), r))
      | inr high ↦
          let (vs, e, l, r) =
            sample-Residues stream fuel (suc position) (suc count) (ground (arith, high)) in
          (vs, ground (arith, high, e), l, r)
    ]

pub all_rank_lem :
    (ms : List F251Matrix) (rank : ℕ)
    → All IsMatrix ms
    → ((all_rank ms rank ≡ ok true) × All (λ m. matrix_rank m ≡ ok rank) ms)
      ⊎ ((all_rank ms rank ≡ ok false) × ¬ (All (λ m. matrix_rank m ≡ ok rank) ms))
unfolding all_rank
all_rank_lem [] rank h = inl (refl, tt)
all_rank_lem (m ∷ ms) rank h =
    let (k, e, b, c) = matrix_rank-bounded m h.0 in
    elim (Bool-cases (k == rank)) [
      | inl same ↦ elim (all_rank_lem ms rank h.1) [
        | inl (t, all) ↦ inl (ground (arith, e, same, t), (ground (arith, e, same), all))
        | inr (f, some_not) ↦ inr (ground (arith, e, same, f), λ all. some_not all.1)
      ]
      | inr differs ↦ inr (ground (arith, e, differs), λ all. ground (arith, e, differs, all.0))
    ]

module _ (x : Primitives) (fuel : ℕ) (seed workload_commitment : Hash32) (operation_id : Text) where
  abbrev matrix_at : Bytes → ℕ → ℕ → ℕ → Result Fault F251Matrix
  matrix_at = derive_matrix x fuel seed workload_commitment operation_id

  abbrev pub factors_at : ℕ → ℕ → ℕ → Result Fault CuPowNoise
  factors_at = derive_factors x fuel seed workload_commitment operation_id

  -- At least `count` of the first `fuel` bytes of the stream for a label and a retry are residues.
  abbrev pub Ample : ℕ → Bytes → ℕ → Type 0
  Ample count label retry =
      count
      ≤ accepted (x.shake256 (noise_message seed workload_commitment operation_id label retry)) 0
          fuel

  -- The same for the four labels and each of the retries.
  abbrev pub Enough : ℕ → Type 0
  Enough count =
      (retry : ℕ)
      → retry < 2 ^ 16
      → Ample count e_left_label retry
        × Ample count e_right_label retry
        × Ample count f_left_label retry
        × Ample count f_right_label retry

  derive_matrix-HasShape :
      (label : Bytes) (rows columns retry : ℕ)
      → Ample (rows * columns) label retry
      → 0 < rows
      → 0 < columns
      → (m : F251Matrix) × (matrix_at label rows columns retry ≡ ok m) × HasShape rows columns m
  unfolding derive_matrix
  derive_matrix-HasShape label rows columns retry h hr hc =
      let (vs, e, l, r) =
        sample-Residues
          (x.shake256 (noise_message seed workload_commitment operation_id label retry)) fuel 0
          (rows * columns) h in
      let m : F251Matrix = record { rows = rows; columns = columns; values = vs } in
      let v : IsMatrix m = record { rows_pos = hr; columns_pos = hc; filled = l; residues = r } in
      (
        m,
        ground (arith, e, IsMatrix-new m v),
        record { valid = v; rows_same = refl; columns_same = refl },
      )

  module _ (n rank : ℕ) (enough : Enough (n * rank)) (n_pos : 0 < n) (rank_pos : 0 < rank) where
    pub derive_factors-IsNoise :
        (retry : ℕ)
        → retry < 2 ^ 16
        → (noise : CuPowNoise) × (factors_at n rank retry ≡ ok noise) × IsNoise n rank noise
    unfolding derive_factors
    derive_factors-IsNoise retry early =
        let (a, b, c, d) = enough retry early in
        let b' : Ample (rank * n) e_right_label retry = omega (arith, b) in
        let d' : Ample (rank * n) f_right_label retry = omega (arith, d) in
        let (el, e1, s1) = derive_matrix-HasShape e_left_label n rank retry a n_pos rank_pos in
        let (er, e2, s2) = derive_matrix-HasShape e_right_label rank n retry b' rank_pos n_pos in
        let (fl, e3, s3) = derive_matrix-HasShape f_left_label n rank retry c n_pos rank_pos in
        let (fr, e4, s4) = derive_matrix-HasShape f_right_label rank n retry d' rank_pos n_pos in
        (
          record { e_left = el; e_right = er; f_left = fl; f_right = fr },
          ground (arith, e1, e2, e3, e4),
          record { e_left_shape = s1; e_right_shape = s2; f_left_shape = s3; f_right_shape = s4 },
        )
