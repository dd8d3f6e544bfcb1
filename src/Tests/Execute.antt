-- ===== src/Tests/Execute.antt =====
-- An execution of two small matrices with noise of rank 1.
use verification_tooling.Prelude.{ℕ, ◌<◌, [], ◌∷◌, refl, arith}
use verification_tooling.CuPow.Matrix.{F251Matrix}
use verification_tooling.CuPow.Execute.{CuPowNoise}
use verification_tooling.CuPow.Execute.Decoded.{HasShape, IsNoise, Runs, execute_cupow-matmul_f251}

abbrev pub square : ℕ → ℕ → ℕ → ℕ → F251Matrix
square a b c d = record { rows = 2; columns = 2; values = a ∷ b ∷ c ∷ d ∷ [] }

abbrev tall : ℕ → ℕ → F251Matrix
tall a b = record { rows = 2; columns = 1; values = a ∷ b ∷ [] }

abbrev wide : ℕ → ℕ → F251Matrix
wide a b = record { rows = 1; columns = 2; values = a ∷ b ∷ [] }

pub square-HasShape :
    (a b c d : ℕ) → a < 251 → b < 251 → c < 251 → d < 251 → HasShape 2 2 (square a b c d)
square-HasShape a b c d ha hb hc hd = record {
  valid = record {
    rows_pos = omega arith;
    columns_pos = omega arith;
    filled = refl;
    residues = (ha, (hb, (hc, (hd, tt))));
  };
  rows_same = refl;
  columns_same = refl;
}

tall-HasShape : (a b : ℕ) → a < 251 → b < 251 → HasShape 2 1 (tall a b)
tall-HasShape a b ha hb = record {
  valid = record {
    rows_pos = omega arith;
    columns_pos = omega arith;
    filled = refl;
    residues = (ha, (hb, tt));
  };
  rows_same = refl;
  columns_same = refl;
}

wide-HasShape : (a b : ℕ) → a < 251 → b < 251 → HasShape 1 2 (wide a b)
wide-HasShape a b ha hb = record {
  valid = record {
    rows_pos = omega arith;
    columns_pos = omega arith;
    filled = refl;
    residues = (ha, (hb, tt));
  };
  rows_same = refl;
  columns_same = refl;
}

abbrev factors : CuPowNoise
factors = record {
  e_left = tall 1 250;
  e_right = wide 7 9;
  f_left = tall 100 2;
  f_right = wide 3 200;
}

factors-IsNoise : IsNoise 2 1 factors
factors-IsNoise = record {
  e_left_shape = tall-HasShape 1 250 (omega arith) (omega arith);
  e_right_shape = wide-HasShape 7 9 (omega arith) (omega arith);
  f_left_shape = tall-HasShape 100 2 (omega arith) (omega arith);
  f_right_shape = wide-HasShape 3 200 (omega arith) (omega arith);
}

execute_cupow-matmul_f251_example : Runs 2 1 (square 1 2 3 4) (square 250 6 7 8) factors
execute_cupow-matmul_f251_example =
    execute_cupow-matmul_f251 2 1 1 (square 1 2 3 4) (square 250 6 7 8) factors
      (square-HasShape 1 2 3 4 (omega arith) (omega arith) (omega arith) (omega arith))
      (square-HasShape 250 6 7 8 (omega arith) (omega arith) (omega arith) (omega arith))
      factors-IsNoise (omega arith) refl
