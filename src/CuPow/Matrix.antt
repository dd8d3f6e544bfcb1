-- ===== src/CuPow/Matrix.antt =====
-- `F251Matrix`, `add` and `subtract` of crates/pocomp-protocol/src/cupow.rs.
pub mod Laws
use verification_tooling.Prelude.{
  ℕ, ◌+◌, ◌-◌, ◌*◌, ◌%◌, ◌^◌, List, [], ◌∷◌, Bool, true, false, ◌||◌, ◌==◌, ◌≠◌, nat_eq, leb,
  length, Result, ok, err, ◌>>=◌, ◌>>◌, reject_if,
}
use verification_tooling.CuPow.{CuPowError, matrix_shape, matrix_operation, f251_modulus}

pub record F251Matrix : Type 0 where
  pub rows : ℕ
  pub columns : ℕ
  pub values : List ℕ

-- `values.iter().any(|value| u16::from(*value) >= F251_MODULUS)`
unfoldable pub any_outside : List ℕ → Bool
any_outside [] = false
any_outside (v ∷ vs) = leb f251_modulus v || any_outside vs

-- `F251Matrix::new`. A product of two `u32` does not leave `u64`.
unfoldable pub new : ℕ → ℕ → List ℕ → Result CuPowError F251Matrix
new rows columns values = do
  reject_if (rows == 0 || columns == 0 || length values ≠ rows * columns || any_outside values)
      matrix_shape
  ok (record { rows = rows; columns = columns; values = values })

-- `left.iter().zip(right).map(f).collect()`
unfoldable pub zip_map : (ℕ → ℕ → ℕ) → List ℕ → List ℕ → List ℕ
zip_map f [] ys = []
zip_map f (a ∷ xs) [] = []
zip_map f (a ∷ xs) (b ∷ ys) = f a b ∷ zip_map f xs ys

-- Both closures end in `as u8`. The subtraction of the second is one of `u16`: for two residues it
-- does not leave it, and for other bytes it wraps where overflow is not checked.
unfoldable pub add_f251 : ℕ → ℕ → ℕ
add_f251 a b = (a + b) % f251_modulus % 2 ^ 8

unfoldable pub subtract_f251 : ℕ → ℕ → ℕ
subtract_f251 a b = (a + f251_modulus + 2 ^ 16 - b) % 2 ^ 16 % f251_modulus % 2 ^ 8

unfoldable pub add : F251Matrix → F251Matrix → Result CuPowError F251Matrix
add left right = do
  reject_if (left.rows ≠ right.rows || left.columns ≠ right.columns) matrix_operation
  new left.rows left.columns (zip_map add_f251 left.values right.values)

unfoldable pub subtract : F251Matrix → F251Matrix → Result CuPowError F251Matrix
subtract left right = do
  reject_if (left.rows ≠ right.rows || left.columns ≠ right.columns) matrix_operation
  new left.rows left.columns (zip_map subtract_f251 left.values right.values)
