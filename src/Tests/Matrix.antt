-- ===== src/Tests/Matrix.antt =====
-- Two matrices over F251, and an inverse.
use verification_tooling.Prelude.{◌*◌, ◌%◌, [], ◌∷◌, ◌≡◌, refl, arith, ok}
use verification_tooling.CuPow.Matrix.{F251Matrix, add, subtract}
use verification_tooling.CuPow.Matrix.Laws.{IsMatrix, add-subtract}
use verification_tooling.CuPow.Field.{inverse_f251, inverse_f251_lem}

abbrev left : F251Matrix
left = record { rows = 1; columns = 2; values = 250 ∷ 3 ∷ [] }

abbrev right : F251Matrix
right = record { rows = 1; columns = 2; values = 5 ∷ 249 ∷ [] }

left-IsMatrix : IsMatrix left
left-IsMatrix = record {
  rows_pos = omega arith;
  columns_pos = omega arith;
  filled = refl;
  residues = (omega arith, (omega arith, tt));
}

right-IsMatrix : IsMatrix right
right-IsMatrix = record {
  rows_pos = omega arith;
  columns_pos = omega arith;
  filled = refl;
  residues = (omega arith, (omega arith, tt));
}

add-subtract_example :
    (c : F251Matrix) × (add left right ≡ ok c) × IsMatrix c × (subtract c right ≡ ok left)
add-subtract_example = add-subtract left right left-IsMatrix right-IsMatrix refl refl

inverse_f251_lem_example : 100 * inverse_f251 100 % 251 ≡ 1
inverse_f251_lem_example = inverse_f251_lem 100 (omega arith) (omega arith)
