-- ===== src/CuPow/Product/Laws.antt =====
-- The matrix operations of crates/pocomp-protocol/src/cupow.rs on matrices that are given by functions.
use verification_tooling.Prelude.{
  ℕ, zero, suc, ◌+◌, ◌*◌, ◌%◌, ◌<◌, ◌≤◌, List, [], ◌∷◌, ◌++◌, length, ◌≡◌, refl, sym, ◌∙◌, ap, ap₂,
  arith, ok,
}
use verification_tooling.CuPow.Matrix.{F251Matrix, zip_map, add_f251, subtract_f251, add, subtract}
use verification_tooling.CuPow.Matrix.Laws.{IsMatrix, IsMatrix-new}
use verification_tooling.CuPow.Sums.{sum, Cong, Cong-mul}
use verification_tooling.CuPow.Product.{index, dot, cell, fill_row, fill}
use verification_tooling.CuPow.Product.Tables.{
  row_of, table, length-row_of, length-table, table_congr, table-All, get-table,
}

-- The matrix of a function's residues.
abbrev pub matrix : ℕ → ℕ → (ℕ → ℕ → ℕ) → F251Matrix
matrix rows columns f = record {
  rows = rows;
  columns = columns;
  values = table columns (λ i j. f i j % 251) 0 rows;
}

pub matrix-IsMatrix : (r c : ℕ) (f : ℕ → ℕ → ℕ) → 0 < r → 0 < c → IsMatrix (matrix r c f)
matrix-IsMatrix r c f hr hc = record {
  rows_pos = hr;
  columns_pos = hc;
  filled = length-table c (λ i j. f i j % 251) 0 r;
  residues = table-All (λ v. v < 251) c (λ i j. f i j % 251) 0 r (λ i j. omega arith);
}

pub matrix_congr :
    (r c : ℕ) (f g : ℕ → ℕ → ℕ)
    → ((i j : ℕ) → i < r → j < c → Cong (f i j) (g i j))
    → matrix r c f ≡ matrix r c g
matrix_congr r c f g h =
    ap (λ vs. record { rows = r; columns = c; values = vs })
      (table_congr c (λ i j. f i j % 251) (λ i j. g i j % 251) 0 r
        (λ i j hi hj. h i j (omega arith) hj))

zip_map-append :
    (h : ℕ → ℕ → ℕ) (xs us ys vs : List ℕ)
    → length xs ≡ length us
    → zip_map h (xs ++ ys) (us ++ vs) ≡ zip_map h xs us ++ zip_map h ys vs
unfolding zip_map
zip_map-append h [] [] ys vs e = refl
zip_map-append h [] (u ∷ us) ys vs e = absurd (omega arith)
zip_map-append h (x ∷ xs) [] ys vs e = absurd (omega arith)
zip_map-append h (x ∷ xs) (u ∷ us) ys vs e =
    ap (λ r. h x u ∷ r) (zip_map-append h xs us ys vs (omega arith))

zip_map-row_of :
    (h : ℕ → ℕ → ℕ) (f g : ℕ → ℕ) (column count : ℕ)
    → zip_map h (row_of f column count) (row_of g column count)
      ≡ row_of (λ j. h (f j) (g j)) column count
unfolding zip_map
zip_map-row_of h f g column zero = refl
zip_map-row_of h f g column (suc count) =
    ap (λ r. h (f column) (g column) ∷ r) (zip_map-row_of h f g (suc column) count)

zip_map-table :
    (h : ℕ → ℕ → ℕ) (c : ℕ) (f g : ℕ → ℕ → ℕ) (row rows : ℕ)
    → zip_map h (table c f row rows) (table c g row rows)
      ≡ table c (λ i j. h (f i j) (g i j)) row rows
unfolding zip_map
zip_map-table h c f g row zero = refl
zip_map-table h c f g row (suc rows) =
    zip_map-append h (row_of (f row) 0 c) (row_of (g row) 0 c) (table c f (suc row) rows)
      (table c g (suc row) rows) (length-row_of (f row) 0 c ∙ sym (length-row_of (g row) 0 c))
    ∙ ap₂ (λ a b. a ++ b) (zip_map-row_of h (f row) (g row) 0 c)
        (zip_map-table h c f g (suc row) rows)

add_residues : (a b : ℕ) → add_f251 (a % 251) (b % 251) ≡ (a + b) % 251
unfolding add_f251
add_residues a b = omega arith

subtract_residues : (a b : ℕ) → subtract_f251 (a % 251) (b % 251) ≡ (a + 250 * b) % 251
unfolding subtract_f251
subtract_residues a b = omega arith

module _ (r c : ℕ) (f g : ℕ → ℕ → ℕ) where
  pub add-matrix :
      0 < r → 0 < c → add (matrix r c f) (matrix r c g) ≡ ok (matrix r c (λ i j. f i j + g i j))
  unfolding add
  add-matrix hr hc =
      let values =
        zip_map-table add_f251 c (λ i j. f i j % 251) (λ i j. g i j % 251) 0 r
        ∙ table_congr c _ (λ i j. (f i j + g i j) % 251) 0 r
            (λ i j hi hj. add_residues (f i j) (g i j)) in
      let sum = matrix r c (λ i j. f i j + g i j) in
      ground (arith, values, IsMatrix-new sum (matrix-IsMatrix r c (λ i j. f i j + g i j) hr hc))

  -- Subtracting is adding 250 times the other matrix.
  pub subtract-matrix :
      0 < r
      → 0 < c
      → subtract (matrix r c f) (matrix r c g) ≡ ok (matrix r c (λ i j. f i j + 250 * g i j))
  unfolding subtract
  subtract-matrix hr hc =
      let values =
        zip_map-table subtract_f251 c (λ i j. f i j % 251) (λ i j. g i j % 251) 0 r
        ∙ table_congr c _ (λ i j. (f i j + 250 * g i j) % 251) 0 r
            (λ i j hi hj. subtract_residues (f i j) (g i j)) in
      let difference = matrix r c (λ i j. f i j + 250 * g i j) in
      ground (
        arith,
        values,
        IsMatrix-new difference (matrix-IsMatrix r c (λ i j. f i j + 250 * g i j) hr hc),
      )

pub index-matrix :
    (r c : ℕ) (f : ℕ → ℕ → ℕ) (i j : ℕ)
    → i < r
    → j < c
    → index (matrix r c f) i j ≡ ok (f i j % 251)
unfolding index
index-matrix r c f i j hi hj =
    ground (arith, get-table c (λ i j. f i j % 251) 0 r i j hi hj, ap (λ k. f k j) (zero_plus i))
  where
    zero_plus : (n : ℕ) → 0 + n ≡ n
    zero_plus n = omega arith

module _ (r n c : ℕ) (f g : ℕ → ℕ → ℕ) where
  abbrev left : F251Matrix
  left = matrix r n f

  abbrev right : F251Matrix
  right = matrix n c g

  abbrev inner : ℕ → ℕ → ℕ → ℕ → ℕ
  inner start width i j = sum start width (λ k. f i k * g k j)

  dot-matrix :
      (i j start width s : ℕ)
      → i < r
      → j < c
      → start + width ≤ n
      → s < 251
      → dot left right i j start width s ≡ ok ((s + inner start width i j) % 251)
  unfolding dot
  dot-matrix i j start zero s hi hj hw hs = ap ok (omega arith)
  dot-matrix i j start (suc width) s hi hj hw hs =
      let a = f i start % 251 in
      let b = g start j % 251 in
      let step : (s + a * b) % 251 < 251 = omega arith in
      let rest = dot-matrix i j (suc start) width ((s + a * b) % 251) hi hj (omega arith) step in
      let product : Cong (a * b) (f i start * g start j) =
        Cong-mul a (f i start) b (g start j) (omega arith) (omega arith) in
      rw (index-matrix r n f i start hi (omega arith), index-matrix n c g start j (omega arith) hj)
        (rest ∙ ap ok (omega (arith, product)))

  cell-matrix :
      (i j start width : ℕ)
      → i < r
      → j < c
      → start + width ≤ n
      → cell left right start width i j ≡ ok (inner start width i j % 251)
  unfolding cell
  cell-matrix i j start width hi hj hw = ground (
    arith,
    dot-matrix i j start width 0 hi hj hw,
    ap (λ k. k % 251) (zero_plus (inner start width i j)),
  )
    where
      zero_plus : (n : ℕ) → 0 + n ≡ n
      zero_plus n = omega arith

  fill_row-matrix :
      (i start width column count : ℕ)
      → i < r
      → column + count ≤ c
      → start + width ≤ n
      → fill_row left right start width i column count
        ≡ ok (row_of (λ j. inner start width i j % 251) column count)
  unfolding fill_row
  fill_row-matrix i start width column zero hi hc hw = refl
  fill_row-matrix i start width column (suc count) hi hc hw =
      rw
        (
          cell-matrix i column start width hi (omega arith) hw,
          fill_row-matrix i start width (suc column) count hi (omega arith) hw,
        )
        refl

  pub fill-matrix :
      (start width row rows : ℕ)
      → row + rows ≤ r
      → start + width ≤ n
      → fill left right start width c row rows
        ≡ ok (table c (λ i j. inner start width i j % 251) row rows)
  unfolding fill
  fill-matrix start width row zero hr hw = refl
  fill-matrix start width row (suc rows) hr hw =
      rw
        (
          fill_row-matrix row start width 0 c (omega arith) (omega arith) hw,
          fill-matrix start width (suc row) rows (omega arith) hw,
        )
        refl
