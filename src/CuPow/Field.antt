-- ===== src/CuPow/Field.antt =====
-- `inverse_f251` of crates/pocomp-protocol/src/cupow.rs: exponentiation by squaring in F251.
use verification_tooling.Prelude.{
  ℕ, zero, suc, ◌*◌, ◌/◌, ◌%◌, ◌<◌, Bool, true, false, ◌&&◌, ◌||◌, ◌==◌, nat_eq, ℕ_discrete, ◌≡◌,
  refl, arith,
}
use verification_tooling.CuPow.{f251_modulus}

-- The loop, with the bits of the exponent as fuel; a round halves it. Each product of two residues
-- fits in `u16`.
unfoldable pub power_loop : ℕ → ℕ → ℕ → ℕ → ℕ
power_loop zero result base exponent = result
power_loop (suc fuel) result base exponent = elim (exponent == 0) [
  | true ↦ result
  | false ↦ elim (exponent % 2 == 1) [
    | true ↦
        power_loop fuel (result * base % f251_modulus) (base * base % f251_modulus) (exponent / 2)
    | false ↦ power_loop fuel result (base * base % f251_modulus) (exponent / 2)
  ]
]

unfoldable pub inverse_f251 : ℕ → ℕ
inverse_f251 value = power_loop 16 1 value 249

-- Whether each positive number below `n` times its inverse is 1.
inverses_below : ℕ → Bool
inverses_below zero = true
inverses_below (suc n) = (n == 0 || n * inverse_f251 n % 251 == 1) && inverses_below n

inverses_checked : inverses_below 251 ≡ true
unfolding inverses_below inverse_f251 power_loop ℕ_discrete
inverses_checked = refl

inverses_below_lem :
    (n v : ℕ) → inverses_below n ≡ true → v < n → 0 < v → v * inverse_f251 v % 251 ≡ 1
unfolding inverses_below
inverses_below_lem zero v h lt pos = absurd (omega arith)
inverses_below_lem (suc n) v h lt pos = elim (ℕ_discrete v n) [
  | yes e ↦ rw e (ground arith)
  | no ne ↦ inverses_below_lem n v (ground arith) (omega (arith, ne)) pos
]

-- For each positive number below 251, the product of the number and its computed inverse is 1
-- modulo 251: the loop over the bits of the exponent ends with the inverse in the field.
pub inverse_f251_lem : (v : ℕ) → 0 < v → v < 251 → v * inverse_f251 v % 251 ≡ 1
inverse_f251_lem v pos small = inverses_below_lem 251 v inverses_checked small pos
