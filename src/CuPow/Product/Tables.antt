-- ===== src/CuPow/Product/Tables.antt =====
-- Row-major lists of the values of a function, and lookups in them.
use verification_tooling.Prelude.{
  ℕ, zero, suc, ◌+◌, ◌*◌, ◌<◌, List, [], ◌∷◌, ◌++◌, length, length-append, replicate, ◌≡◌, refl,
  ◌∙◌, ap, ap₂, arith, some, get_elem?, All,
}

-- The values of columns `column` to `column + count - 1`.
abbrev pub row_of : (ℕ → ℕ) → ℕ → ℕ → List ℕ
row_of f column zero = []
row_of f column (suc count) = f column ∷ row_of f (suc column) count

-- The rows `row` to `row + rows - 1`, one after the other.
abbrev pub table : ℕ → (ℕ → ℕ → ℕ) → ℕ → ℕ → List ℕ
table columns f row zero = []
table columns f row (suc rows) = row_of (f row) 0 columns ++ table columns f (suc row) rows

pub length-row_of : (f : ℕ → ℕ) (column count : ℕ) → length (row_of f column count) ≡ count
length-row_of f column zero = refl
length-row_of f column (suc count) = ap suc (length-row_of f (suc column) count)

pub length-table :
    (columns : ℕ) (f : ℕ → ℕ → ℕ) (row rows : ℕ)
    → length (table columns f row rows) ≡ rows * columns
length-table columns f row zero = omega arith
length-table columns f row (suc rows) = omega (
  arith,
  length-append (row_of (f row) 0 columns) (table columns f (suc row) rows),
  length-row_of (f row) 0 columns,
  length-table columns f (suc row) rows,
)

pub row_of_congr :
    (f g : ℕ → ℕ) (column count : ℕ)
    → ((j : ℕ) → j < column + count → f j ≡ g j)
    → row_of f column count ≡ row_of g column count
row_of_congr f g column zero h = refl
row_of_congr f g column (suc count) h =
    ap₂ (λ v vs. v ∷ vs) (h column (omega arith))
      (row_of_congr f g (suc column) count (λ j b. h j (omega arith)))

pub table_congr :
    (columns : ℕ) (f g : ℕ → ℕ → ℕ) (row rows : ℕ)
    → ((i j : ℕ) → i < row + rows → j < columns → f i j ≡ g i j)
    → table columns f row rows ≡ table columns g row rows
table_congr columns f g row zero h = refl
table_congr columns f g row (suc rows) h =
    ap₂ (λ v vs. v ++ vs)
      (row_of_congr (f row) (g row) 0 columns (λ j b. h row j (omega arith) (omega (arith, b))))
      (table_congr columns f g (suc row) rows (λ i j b c. h i j (omega arith) c))

pub row_of-All :
    (P : ℕ → Type 0) (f : ℕ → ℕ) (column count : ℕ)
    → ((j : ℕ) → P (f j))
    → All P (row_of f column count)
row_of-All P f column zero h = tt
row_of-All P f column (suc count) h = (h column, row_of-All P f (suc column) count h)

All-append : (P : ℕ → Type 0) (xs ys : List ℕ) → All P xs → All P ys → All P (xs ++ ys)
All-append P [] ys a b = b
All-append P (x ∷ xs) ys a b = (a.0, All-append P xs ys a.1 b)

pub table-All :
    (P : ℕ → Type 0) (columns : ℕ) (f : ℕ → ℕ → ℕ) (row rows : ℕ)
    → ((i j : ℕ) → P (f i j))
    → All P (table columns f row rows)
table-All P columns f row zero h = tt
table-All P columns f row (suc rows) h =
    All-append P (row_of (f row) 0 columns) (table columns f (suc row) rows)
      (row_of-All P (f row) 0 columns (h row)) (table-All P columns f (suc row) rows h)

get-append_left : (xs ys : List ℕ) (k : ℕ) → k < length xs → get_elem? (xs ++ ys) k ≡ get_elem? xs k
get-append_left [] ys k h = absurd (omega arith)
get-append_left (x ∷ xs) ys zero h = refl
get-append_left (x ∷ xs) ys (suc k) h = get-append_left xs ys k (omega arith)

get-append_right : (xs ys : List ℕ) (k : ℕ) → get_elem? (xs ++ ys) (length xs + k) ≡ get_elem? ys k
get-append_right [] ys k = ap (get_elem? ys) (zero_plus k)
  where
    zero_plus : (n : ℕ) → 0 + n ≡ n
    zero_plus n = omega arith
get-append_right (x ∷ xs) ys k =
    ap (get_elem? (x ∷ xs ++ ys)) (suc_plus (length xs) k) ∙ get-append_right xs ys k
  where
    suc_plus : (m n : ℕ) → suc m + n ≡ suc (m + n)
    suc_plus m n = omega arith

get-row_of :
    (f : ℕ → ℕ) (column count k : ℕ)
    → k < count
    → get_elem? (row_of f column count) k ≡ some (f (column + k))
get-row_of f column zero k h = absurd (omega arith)
get-row_of f column (suc count) zero h = ap (λ j. some (f j)) (omega arith)
get-row_of f column (suc count) (suc k) h =
    get-row_of f (suc column) count k (omega arith) ∙ ap (λ j. some (f j)) (omega arith)

-- A lookup in row `i` and column `j` of a table.
pub get-table :
    (columns : ℕ) (f : ℕ → ℕ → ℕ) (row rows i j : ℕ)
    → i < rows
    → j < columns
    → get_elem? (table columns f row rows) (i * columns + j) ≡ some (f (row + i) j)
get-table columns f row zero i j hi hj = absurd (omega arith)
get-table columns f row (suc rows) zero j hi hj =
    let here = row_of (f row) 0 columns in
    ap (get_elem? (here ++ table columns f (suc row) rows)) (omega arith)
    ∙ get-append_left here (table columns f (suc row) rows) j
        (omega (arith, length-row_of (f row) 0 columns))
    ∙ get-row_of (f row) 0 columns j hj
    ∙ ap₂ (λ a b. some (f a b)) (omega arith) (omega arith)
get-table columns f row (suc rows) (suc i) j hi hj =
    let here = row_of (f row) 0 columns in
    ap (get_elem? (here ++ table columns f (suc row) rows))
      (omega (arith, length-row_of (f row) 0 columns))
    ∙ get-append_right here (table columns f (suc row) rows) (i * columns + j)
    ∙ get-table columns f (suc row) rows i j (omega arith) hj
    ∙ ap (λ a. some (f a j)) (omega arith)

replicate-row_of :
    (column count m : ℕ) → replicate (count + m) 0 ≡ row_of (λ j. 0) column count ++ replicate m 0
replicate-row_of column zero m = ap (λ k. replicate k 0) (omega arith)
replicate-row_of column (suc count) m =
    ap (λ k. replicate k 0) (suc_plus count m)
    ∙ ap (λ r. 0 ∷ r) (replicate-row_of (suc column) count m)
  where
    suc_plus : (a b : ℕ) → suc a + b ≡ suc (a + b)
    suc_plus a b = omega arith

-- A list of zeros.
pub replicate-table : (c row rows : ℕ) → replicate (rows * c) 0 ≡ table c (λ i j. 0) row rows
replicate-table c row zero = ap (λ k. replicate k 0) (zero_times c)
  where
    zero_times : (k : ℕ) → 0 * k ≡ 0
    zero_times k = omega arith
replicate-table c row (suc rows) =
    ap (λ k. replicate k 0) (suc_times rows c)
    ∙ replicate-row_of 0 c (rows * c)
    ∙ ap (λ r. row_of (λ j. 0) 0 c ++ r) (replicate-table c (suc row) rows)
  where
    suc_times : (a b : ℕ) → suc a * b ≡ b + a * b
    suc_times a b = omega arith
