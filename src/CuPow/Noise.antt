-- ===== src/CuPow/Noise.antt =====
-- `derive_matrix` and `derive_cupow_noise` of crates/pocomp-protocol/src/cupow.rs. The bytes come from the
-- SHAKE-256 stream of the message.
pub mod Laws
pub mod Retry
pub mod Separation
use verification_tooling.Prelude.{
  ℕ, zero, suc, ◌*◌, ◌^◌, List, [], ◌∷◌, ◌++◌, Bool, true, false, ◌||◌, ◌==◌, nat_eq, leb, ltb,
  is_empty, length, Bytes, Text, utf8, Result, ok, err, ◌>>=◌, ◌>>◌, reject_if,
}
use verification_tooling.Types.Records.{Hash32}
use verification_tooling.Primitives.{Primitives}
use verification_tooling.Commitment.Encoding.{be_bytes}
use verification_tooling.CuPow.{f251_modulus, matrix_shape, noise_derivation}
use verification_tooling.CuPow.Matrix.{F251Matrix, new}
use verification_tooling.CuPow.Product.{Fault, running, failed, try}
use verification_tooling.CuPow.Rank.{matrix_rank}
use verification_tooling.CuPow.Execute.{CuPowNoise}

abbrev pub noise_domain : Bytes
unfolding utf8
noise_domain = utf8 "pocomp/cupow/noise/f251/v1"

abbrev pub e_left_label : Bytes
unfolding utf8
e_left_label = utf8 "e-left"

abbrev pub e_right_label : Bytes
unfolding utf8
e_right_label = utf8 "e-right"

abbrev pub f_left_label : Bytes
unfolding utf8
f_left_label = utf8 "f-left"

abbrev pub f_right_label : Bytes
unfolding utf8
f_right_label = utf8 "f-right"

-- What the hash absorbs, in order.
unfoldable pub noise_message : Hash32 → Hash32 → Text → Bytes → ℕ → Bytes
noise_message seed workload_commitment operation_id label retry =
    noise_domain
    ++ (seed.bytes
        ++ (workload_commitment.bytes
            ++ (be_bytes 8 (length operation_id)
                ++ (operation_id ++ (be_bytes 8 (length label) ++ (label ++ be_bytes 4 retry))))))

-- The loop reads a byte in each round, and keeps it when it is a residue, until `count` more are
-- there.
unfoldable pub sample : (ℕ → ℕ) → ℕ → ℕ → ℕ → Result Fault (List ℕ)
sample stream fuel position zero = ok []
sample stream zero position (suc count) = err running
sample stream (suc fuel) position (suc count) = elim (ltb (stream position) f251_modulus) [
  | true ↦ do rest ← sample stream fuel (suc position) count; ok (stream position ∷ rest)
  | false ↦ sample stream fuel (suc position) (suc count)
]

-- The four rank tests, each run only when those before it passed.
unfoldable pub all_rank : List F251Matrix → ℕ → Result Fault Bool
all_rank [] rank = ok true
all_rank (m ∷ ms) rank = do
  k ← matrix_rank m
  elim (k == rank) [ true ↦ all_rank ms rank | false ↦ ok false ]

module _ (x : Primitives) (fuel : ℕ) (seed workload_commitment : Hash32) (operation_id : Text) where
  unfoldable pub derive_matrix : Bytes → ℕ → ℕ → ℕ → Result Fault F251Matrix
  derive_matrix label rows columns retry = do
    values ←
        sample (x.shake256 (noise_message seed workload_commitment operation_id label retry)) fuel 0
          (rows * columns)
    try (new rows columns values)

  -- The factors of one retry.
  unfoldable pub derive_factors : ℕ → ℕ → ℕ → Result Fault CuPowNoise
  derive_factors n rank retry = do
    e_left ← derive_matrix e_left_label n rank retry
    e_right ← derive_matrix e_right_label rank n retry
    f_left ← derive_matrix f_left_label n rank retry
    f_right ← derive_matrix f_right_label rank n retry
    ok (record { e_left = e_left; e_right = e_right; f_left = f_left; f_right = f_right })

  -- `count` passes of the loop from `retry`.
  unfoldable pub attempts : ℕ → ℕ → ℕ → ℕ → Result Fault CuPowNoise
  attempts n rank zero retry = err (failed noise_derivation)
  attempts n rank (suc count) retry = do
    noise ← derive_factors n rank retry
    full ← all_rank (noise.e_left ∷ noise.e_right ∷ noise.f_left ∷ noise.f_right ∷ []) rank
    elim full [ true ↦ ok noise | false ↦ attempts n rank count (suc retry) ]

  -- `0..=u16::MAX`
  unfoldable pub derive_cupow_noise : ℕ → ℕ → Result Fault CuPowNoise
  derive_cupow_noise n rank = do
    reject_if (is_empty operation_id || rank == 0 || leb n rank) (failed matrix_shape)
    attempts n rank (2 ^ 16) 0
