-- ===== src/CuPow/Execute.antt =====
-- `CuPowNoise`, `CuPowExecution` and `execute_cupow` of crates/pocomp-protocol/src/cupow.rs.
pub mod Decode
pub mod Laws
pub mod Decoded
use verification_tooling.Prelude.{
  ℕ, zero, suc, ◌+◌, ◌*◌, ◌/◌, ◌%◌, List, [], ◌∷◌, Bool, ◌||◌, ◌==◌, ◌≠◌, nat_eq, replicate, Option,
  none, some, Result, ok, err, ◌>>=◌, ◌>>◌, reject_if, ok_or,
}
use verification_tooling.CuPow.{matrix_operation}
use verification_tooling.CuPow.Matrix.{F251Matrix, new, add, subtract}
use verification_tooling.CuPow.Product.{Fault, failed, try, matmul_f251, stripe_product}

pub record CuPowNoise : Type 0 where
  pub e_left : F251Matrix
  pub e_right : F251Matrix
  pub f_left : F251Matrix
  pub f_right : F251Matrix

pub record CuPowExecution : Type 0 where
  pub noisy_left : F251Matrix
  pub noisy_right : F251Matrix
  pub transcript : List F251Matrix
  pub decoded_output : F251Matrix

-- `count` passes of the loop over the stripes, from the stripe at `start` and the sum `partial` of
-- the earlier ones: the transcript entries they push.
unfoldable pub stripes :
    F251Matrix → F251Matrix → ℕ → ℕ → ℕ → F251Matrix → Result Fault (List F251Matrix)
stripes left right tile zero start partial = ok []
stripes left right tile (suc count) start partial = do
  product ← stripe_product left right start tile
  sum ← try (add partial product)
  rest ← stripes left right tile count (start + tile) sum
  ok (sum ∷ rest)

-- `transcript.last()`
unfoldable pub last : List F251Matrix → Option F251Matrix
last [] = none
last (m ∷ []) = some m
last (m ∷ k ∷ ms) = last (k ∷ ms)

-- The tile size divides the rows where the loop runs, so that `0..rows` in steps of the tile size
-- has `rows / tile_size` members.
unfoldable pub execute_cupow :
    F251Matrix → F251Matrix → CuPowNoise → ℕ → Result Fault CuPowExecution
execute_cupow left right noise tile_size = do
  reject_if
      (left.rows ≠ left.columns
        || right.rows ≠ right.columns
        || left.rows ≠ right.rows
        || tile_size == 0
        || left.rows % tile_size ≠ 0)
      (failed matrix_operation)
  e ← matmul_f251 noise.e_left noise.e_right
  f ← matmul_f251 noise.f_left noise.f_right
  noisy_left ← try (add left e)
  noisy_right ← try (add right f)
  partial ← try (new left.rows left.rows (replicate (left.rows * left.rows) 0))
  transcript ← stripes noisy_left noisy_right tile_size (left.rows / tile_size) 0 partial
  a_f_left ← matmul_f251 left noise.f_left
  a_f ← matmul_f251 a_f_left noise.f_right
  b_plus_f ← try (add right f)
  e_right_b ← matmul_f251 noise.e_right b_plus_f
  e_b_plus_f ← matmul_f251 noise.e_left e_right_b
  output ← ok_or (last transcript) (failed matrix_operation)
  correction ← try (add a_f e_b_plus_f)
  decoded_output ← try (subtract output correction)
  ok (record {
    noisy_left = noisy_left;
    noisy_right = noisy_right;
    transcript = transcript;
    decoded_output = decoded_output;
  })
