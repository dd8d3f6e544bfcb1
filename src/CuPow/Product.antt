-- ===== src/CuPow/Product.antt =====
-- `F251Matrix::index`, `matmul_f251` and `stripe_product` of crates/pocomp-protocol/src/cupow.rs.
pub mod Tables
pub mod Entries
pub mod Whole
pub mod Laws
use verification_tooling.Prelude.{
  ℕ, zero, suc, ◌+◌, ◌*◌, ◌%◌, ◌^◌, List, [], ◌∷◌, ◌++◌, Bool, ◌≠◌, nat_eq, leb, get_elem?, Result,
  ok, err, ◌>>=◌, ◌>>◌, reject_if, ok_or,
}
use verification_tooling.CuPow.{CuPowError, matrix_operation, f251_modulus}
use verification_tooling.CuPow.Matrix.{F251Matrix, new}

-- How a computation on matrices can end without a result: an index outside the values panics, and a
-- loop without a bound of its own can still be running when the fuel of the model is spent.
pub data Fault : Type 0 where
  panicked running : Fault
  failed : CuPowError → Fault

-- `?` on a result whose error is not a panic.
abbrev pub try {ℓ} : {A : Type ℓ} → Result CuPowError A → Result Fault A
try (ok a) = ok a
try (err e) = err (failed e)

unfoldable pub index : F251Matrix → ℕ → ℕ → Result Fault ℕ
index m row column = ok_or (get_elem? m.values (row * m.columns + column)) panicked

module _ (left right : F251Matrix) where
  -- The fold over `start..start + width`, with the sum so far. A product of two bytes and a residue
  -- do not leave `u32`.
  unfoldable pub dot : ℕ → ℕ → ℕ → ℕ → ℕ → Result Fault ℕ
  dot row column start zero sum = ok sum
  dot row column start (suc width) sum = do
    a ← index left row start
    b ← index right start column
    dot row column (suc start) width ((sum + a * b) % f251_modulus)

  -- The value of one cell, by `u8::try_from`.
  unfoldable pub cell : ℕ → ℕ → ℕ → ℕ → Result Fault ℕ
  cell start width row column = do
    value ← dot row column start width 0
    reject_if (leb (2 ^ 8) value) (failed matrix_operation)
    ok value

  -- The loops write the cells of the output once each, row by row: `count` columns from `column`,
  -- and `rows` rows from `row`.
  unfoldable pub fill_row : ℕ → ℕ → ℕ → ℕ → ℕ → Result Fault (List ℕ)
  fill_row start width row column zero = ok []
  fill_row start width row column (suc count) = do
    value ← cell start width row column
    rest ← fill_row start width row (suc column) count
    ok (value ∷ rest)

  unfoldable pub fill : ℕ → ℕ → ℕ → ℕ → ℕ → Result Fault (List ℕ)
  fill start width columns row zero = ok []
  fill start width columns row (suc rows) = do
    values ← fill_row start width row 0 columns
    rest ← fill start width columns (suc row) rows
    ok (values ++ rest)

  unfoldable pub matmul_f251 : Result Fault F251Matrix
  matmul_f251 = do
    reject_if (left.columns ≠ right.rows) (failed matrix_operation)
    output ← fill 0 left.columns right.columns 0 left.rows
    try (new left.rows right.columns output)

  unfoldable pub stripe_product : ℕ → ℕ → Result Fault F251Matrix
  stripe_product start width = do
    output ← fill start width left.rows 0 left.rows
    try (new left.rows right.columns output)
