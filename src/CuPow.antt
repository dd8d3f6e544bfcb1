-- ===== src/CuPow.antt =====
-- crates/pocomp-protocol/src/cupow.rs: the gateway-free cuPOW profile, its errors and constants.
pub mod Relation
pub mod Matrix
pub mod Field
pub mod Sums
pub mod Product
pub mod Execute
pub mod Rank
pub mod Noise
use verification_tooling.Prelude.{ℕ}

abbrev pub f251_modulus : ℕ
f251_modulus = 251

abbrev pub cupow_production_tile_size : ℕ
cupow_production_tile_size = 128

abbrev pub cupow_production_min_n : ℕ
cupow_production_min_n = 1024

abbrev pub cupow_production_max_n : ℕ
cupow_production_max_n = 16_384

abbrev pub cupow_production_noise_rank : ℕ
cupow_production_noise_rank = 128

pub data CuPowError : Type 0 where
  profile_error policy_error epoch_error manifest_error challenge_error completion_error :
      CuPowError
  capacity_error erasure_error matrix_shape matrix_operation noise_derivation : CuPowError
