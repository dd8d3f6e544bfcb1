-- ===== src/CuPow/Rank/Laws.antt =====
-- About `matrix_rank` of crates/pocomp-protocol/src/cupow.rs.
use verification_tooling.Prelude.{
  Bool-cases, ℕ, zero, suc, ◌+◌, ◌-◌, ◌*◌, ◌%◌, ◌<◌, ◌≤◌, List, [], ◌∷◌, length, ◌==◌, nat_eq, take,
  drop, ◌≡◌, ◌⊎◌, inl, inr, refl, ◌∙◌, ap, arith, none, some, Result, ok,
}
use verification_tooling.CuPow.Field.{inverse_f251}
use verification_tooling.CuPow.Matrix.{F251Matrix}
use verification_tooling.CuPow.Matrix.Laws.{IsMatrix}
use verification_tooling.CuPow.Product.{Fault}
use verification_tooling.CuPow.Rank.{
  at, set, swap, find_pivot, swap_rows, scale, subtract_row, clear_column, reduce, rank_loop,
  matrix_rank,
}

-- A computation that ends with a list of the given length.
abbrev Keeps : ℕ → Result Fault (List ℕ) → Type 0
Keeps n r = (vs : List ℕ) × (r ≡ ok vs) × (length vs ≡ n)

at_inside : (vs : List ℕ) (i : ℕ) → i < length vs → (v : ℕ) × (at vs i ≡ ok v)
unfolding at
at_inside [] i h = absurd (omega arith)
at_inside (v ∷ vs) zero h = (v, refl)
at_inside (v ∷ vs) (suc i) h = at_inside vs i (omega arith)

set-Keeps : (vs : List ℕ) (i a : ℕ) → i < length vs → Keeps (length vs) (set vs i a)
unfolding set
set-Keeps [] i a h = absurd (omega arith)
set-Keeps (v ∷ vs) zero a h = (a ∷ vs, refl, refl)
set-Keeps (v ∷ vs) (suc i) a h =
    let (rest, e, l) = set-Keeps vs i a (omega arith) in (v ∷ rest, rw e refl, ap suc l)

swap-Keeps :
    (vs : List ℕ) (i j : ℕ) → i < length vs → j < length vs → Keeps (length vs) (swap vs i j)
unfolding swap
swap-Keeps vs i j hi hj =
    let (a, ea) = at_inside vs i hi in
    let (b, eb) = at_inside vs j hj in
    let (half, eh, lh) = set-Keeps vs i b hi in
    let (whole, ew, lw) = set-Keeps half j a (omega arith) in (whole, rw (ea, eb, eh) ew, lw ∙ lh)

swap_rows-Keeps :
    (vs : List ℕ) (i j count : ℕ)
    → i + count ≤ length vs
    → j + count ≤ length vs
    → Keeps (length vs) (swap_rows vs i j count)
unfolding swap_rows
swap_rows-Keeps vs i j zero hi hj = (vs, refl, refl)
swap_rows-Keeps vs i j (suc count) hi hj =
    let (ws, e, l) = swap-Keeps vs i j (omega arith) (omega arith) in
    let (us, eu, lu) = swap_rows-Keeps ws (suc i) (suc j) count (omega arith) (omega arith) in
    (us, rw e eu, lu ∙ l)

scale-Keeps :
    (vs : List ℕ) (inverse i count : ℕ)
    → i + count ≤ length vs
    → Keeps (length vs) (scale vs inverse i count)
unfolding scale
scale-Keeps vs inverse i zero h = (vs, refl, refl)
scale-Keeps vs inverse i (suc count) h =
    let (v, ev) = at_inside vs i (omega arith) in
    let (ws, e, l) = set-Keeps vs i (v * inverse % 251) (omega arith) in
    let (us, eu, lu) = scale-Keeps ws inverse (suc i) count (omega arith) in
    (us, rw (ev, e) eu, lu ∙ l)

subtract_row-Keeps :
    (vs : List ℕ) (factor i : ℕ) (sources : List ℕ)
    → i + length sources ≤ length vs
    → Keeps (length vs) (subtract_row vs factor i sources)
unfolding subtract_row
subtract_row-Keeps vs factor i [] h = (vs, refl, refl)
subtract_row-Keeps vs factor i (source ∷ sources) h =
    let (v, ev) = at_inside vs i (omega arith) in
    let (ws, e, l) = set-Keeps vs i ((v + 251 - factor * source % 251) % 251) (omega arith) in
    let (us, eu, lu) = subtract_row-Keeps ws factor (suc i) sources (omega arith) in
    (us, rw (ev, e) eu, lu ∙ l)

row_inside : (row rows c : ℕ) → row < rows → row * c + c ≤ rows * c
row_inside row zero c h = absurd (omega arith)
row_inside zero (suc rows) c h = omega arith
row_inside (suc row) (suc rows) c h = omega (arith, row_inside row rows c (omega arith))

length-slice : (start count : ℕ) (vs : List ℕ) → length (take count (drop start vs)) ≤ count
length-slice zero zero vs = omega arith
length-slice zero (suc count) [] = omega arith
length-slice zero (suc count) (v ∷ vs) = omega (arith, length-slice 0 count vs)
length-slice (suc start) zero [] = omega arith
length-slice (suc start) (suc count) [] = omega arith
length-slice (suc start) count (v ∷ vs) = length-slice start count vs

module _ (rows columns : ℕ) where
  clear_column-Keeps :
      (vs : List ℕ) (column rank : ℕ) (pivot_row : List ℕ) (row count : ℕ)
      → length vs ≡ rows * columns
      → column < columns
      → length pivot_row ≤ columns
      → row + count ≤ rows
      → Keeps (length vs) (clear_column vs columns column rank pivot_row row count)
  unfolding clear_column
  clear_column-Keeps vs column rank pivot_row row zero hv hc hp h = (vs, refl, refl)
  clear_column-Keeps vs column rank pivot_row row (suc count) hv hc hp h =
      let inside = row_inside row rows columns (omega arith) in
      elim (Bool-cases (row == rank)) [
        | inl same ↦
            let (us, eu, lu) =
              clear_column-Keeps vs column rank pivot_row (suc row) count hv hc hp (omega arith) in
            (us, rw same eu, lu)
        | inr same ↦
            let (f, ef) = at_inside vs (row * columns + column) (omega arith) in
            let (ws, e, l) = subtract_row-Keeps vs f (row * columns) pivot_row (omega arith) in
            let (us, eu, lu) =
              clear_column-Keeps ws column rank pivot_row (suc row) count (l ∙ hv) hc hp
                (omega arith) in
            (us, rw (same, ef, e) eu, lu ∙ l)
      ]

  reduce-Keeps :
      (vs : List ℕ) (column rank pivot : ℕ)
      → length vs ≡ rows * columns
      → column < columns
      → rank < rows
      → pivot < rows
      → Keeps (rows * columns) (reduce vs rows columns column rank pivot)
  unfolding reduce
  reduce-Keeps vs column rank pivot hv hc hr hp =
      let at_pivot = row_inside pivot rows columns hp in
      let at_rank = row_inside rank rows columns hr in
      let (swapped, es, ls) =
        swap_rows-Keeps vs (pivot * columns) (rank * columns) columns (omega arith) (omega arith) in
      let (leading, el) = at_inside swapped (rank * columns + column) (omega arith) in
      let (scaled, ec, lc) =
        scale-Keeps swapped (inverse_f251 leading) (rank * columns) columns (omega arith) in
      let source = take columns (drop (rank * columns) scaled) in
      let (cleared, ed, ld) =
        clear_column-Keeps scaled column rank source 0 rows (lc ∙ ls ∙ hv) hc
          (length-slice (rank * columns) columns scaled) (omega arith) in
      (cleared, rw (es, el, ec) ed, ld ∙ lc ∙ ls ∙ hv)

  find_pivot_lem :
      (vs : List ℕ) (column row count : ℕ)
      → length vs ≡ rows * columns
      → column < columns
      → row + count ≤ rows
      → (find_pivot vs columns column row count ≡ ok none)
        ⊎ ((p : ℕ) × (find_pivot vs columns column row count ≡ ok (some p)) × (p < row + count))
  unfolding find_pivot
  find_pivot_lem vs column row zero hv hc h = inl refl
  find_pivot_lem vs column row (suc count) hv hc h =
      let inside = row_inside row rows columns (omega arith) in
      let (v, ev) = at_inside vs (row * columns + column) (omega arith) in
      elim (Bool-cases (v == 0)) [
        | inl same ↦ elim (find_pivot_lem vs column (suc row) count hv hc (omega arith)) [
          | inl e ↦ inl (ground (arith, ev, same, e))
          | inr (p, e, b) ↦ inr (p, ground (arith, ev, same, e), omega arith)
        ]
        | inr same ↦ inr (row, ground (arith, ev, same), omega arith)
      ]

  rank_loop_lem :
      (vs : List ℕ) (rank column count : ℕ)
      → length vs ≡ rows * columns
      → column + count ≤ columns
      → rank < rows
      → rank ≤ column
      → (k : ℕ) × (rank_loop rows columns vs rank column count ≡ ok k)
        × (k ≤ rows)
        × (k ≤ column + count)
  unfolding rank_loop
  rank_loop_lem vs rank column zero hv hc hr hk = (rank, refl, omega arith, omega arith)
  rank_loop_lem vs rank column (suc count) hv hc hr hk =
      elim (find_pivot_lem vs column rank (rows - rank) hv (omega arith) (omega arith)) [
        | inl e ↦
            let (k, ek, bk, ck) =
              rank_loop_lem vs rank (suc column) count hv (omega arith) hr (omega arith) in
            (k, rw e ek, bk, omega arith)
        | inr (p, e, b) ↦
            let (ws, ew, lw) = reduce-Keeps vs column rank p hv (omega arith) hr (omega arith) in
            elim (Bool-cases (suc rank == rows)) [
              | inl full ↦ (suc rank, rw (e, ew, full) refl, omega arith, omega arith)
              | inr full ↦
                  let (k, ek, bk, ck) =
                    rank_loop_lem ws (suc rank) (suc column) count lw (omega arith) (ground arith)
                      (omega arith) in
                  (k, rw (e, ew, full) ek, bk, omega arith)
            ]
      ]

-- For a valid matrix the elimination ends without an access outside the values, with a rank of at
-- most its rows and of at most its columns.
pub matrix_rank-bounded :
    (m : F251Matrix)
    → IsMatrix m
    → (k : ℕ) × (matrix_rank m ≡ ok k) × (k ≤ m.rows) × (k ≤ m.columns)
unfolding matrix_rank
matrix_rank-bounded m v =
    let (k, e, rows, columns) =
      rank_loop_lem m.rows m.columns m.values 0 0 m.columns v.filled (omega arith) v.rows_pos
        (omega arith) in
    (k, e, rows, omega arith)
