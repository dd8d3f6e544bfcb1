-- ===== src/CuPow/Rank.antt =====
-- `matrix_rank` of crates/pocomp-protocol/src/cupow.rs: Gauss-Jordan elimination over F251, in place on the
-- row-major values. The values are residues where it is called, so that no product leaves `u16`.
pub mod Laws
use verification_tooling.Prelude.{
  ℕ, zero, suc, ◌+◌, ◌-◌, ◌*◌, ◌%◌, List, [], ◌∷◌, Bool, true, false, ◌==◌, ◌≠◌, nat_eq, take, drop,
  get_elem?, Option, none, some, Result, ok, err, ◌>>=◌, ◌>>◌, ok_or,
}
use verification_tooling.CuPow.{f251_modulus}
use verification_tooling.CuPow.Field.{inverse_f251}
use verification_tooling.CuPow.Matrix.{F251Matrix}
use verification_tooling.CuPow.Product.{Fault, panicked}

-- `values[i]`, and the assignment to it.
unfoldable pub at : List ℕ → ℕ → Result Fault ℕ
at values i = ok_or (get_elem? values i) panicked

unfoldable pub set : List ℕ → ℕ → ℕ → Result Fault (List ℕ)
set [] i a = err panicked
set (v ∷ vs) zero a = ok (a ∷ vs)
set (v ∷ vs) (suc i) a = do rest ← set vs i a; ok (v ∷ rest)

-- `values.swap(i, j)`
unfoldable pub swap : List ℕ → ℕ → ℕ → Result Fault (List ℕ)
swap values i j = do a ← at values i; b ← at values j; half ← set values i b; set half j a

-- The first of the `count` rows from `row` with a value other than 0 in the column.
unfoldable pub find_pivot : List ℕ → ℕ → ℕ → ℕ → ℕ → Result Fault (Option ℕ)
find_pivot values columns column row zero = ok none
find_pivot values columns column row (suc count) = do
  value ← at values (row * columns + column)
  elim (value == 0) [
    | true ↦ find_pivot values columns column (suc row) count
    | false ↦ ok (some row)
  ]

-- The swaps of `count` columns from the positions `i` and `j`.
unfoldable pub swap_rows : List ℕ → ℕ → ℕ → ℕ → Result Fault (List ℕ)
swap_rows values i j zero = ok values
swap_rows values i j (suc count) = do
  swapped ← swap values i j
  swap_rows swapped (suc i) (suc j) count

-- `count` values from position `i` times the inverse.
unfoldable pub scale : List ℕ → ℕ → ℕ → ℕ → Result Fault (List ℕ)
scale values inverse i zero = ok values
scale values inverse i (suc count) = do
  value ← at values i
  scaled ← set values i (value * inverse % f251_modulus)
  scale scaled inverse (suc i) count

-- The factor times the pivot row, subtracted from the values from position `i` on.
unfoldable pub subtract_row : List ℕ → ℕ → ℕ → List ℕ → Result Fault (List ℕ)
subtract_row values factor i [] = ok values
subtract_row values factor i (source ∷ sources) = do
  target ← at values i
  reduced ← set values i ((target + f251_modulus - factor * source % f251_modulus) % f251_modulus)
  subtract_row reduced factor (suc i) sources

-- The loop over the rows, `count` of them from `row`: all but the pivot's own are cleared.
unfoldable pub clear_column : List ℕ → ℕ → ℕ → ℕ → List ℕ → ℕ → ℕ → Result Fault (List ℕ)
clear_column values columns column rank pivot_row row zero = ok values
clear_column values columns column rank pivot_row row (suc count) = do
  cleared ← elim (row == rank) [
    | true ↦ ok values
    | false ↦
        at values (row * columns + column)
        >>= (λ factor. subtract_row values factor (row * columns) pivot_row)
  ]
  clear_column cleared columns column rank pivot_row (suc row) count

-- One column with a pivot: the values after it.
unfoldable pub reduce : List ℕ → ℕ → ℕ → ℕ → ℕ → ℕ → Result Fault (List ℕ)
reduce values rows columns column rank pivot = do
  swapped ← swap_rows values (pivot * columns) (rank * columns) columns
  leading ← at swapped (rank * columns + column)
  scaled ← scale swapped (inverse_f251 leading) (rank * columns) columns
  clear_column scaled columns column rank (take columns (drop (rank * columns) scaled)) 0 rows

-- The loop over the columns, `count` of them from `column`; it breaks when each row has a pivot.
unfoldable pub rank_loop : ℕ → ℕ → List ℕ → ℕ → ℕ → ℕ → Result Fault ℕ
rank_loop rows columns values rank column zero = ok rank
rank_loop rows columns values rank column (suc count) = do
  found ← find_pivot values columns column rank (rows - rank)
  elim found [
    | none ↦ rank_loop rows columns values rank (suc column) count
    | some pivot ↦ do
      reduced ← reduce values rows columns column rank pivot
      elim (suc rank == rows) [
        | true ↦ ok (suc rank)
        | false ↦ rank_loop rows columns reduced (suc rank) (suc column) count
      ]
  ]

unfoldable pub matrix_rank : F251Matrix → Result Fault ℕ
matrix_rank matrix = rank_loop matrix.rows matrix.columns matrix.values 0 0 matrix.columns
