-- ===== src/CuPow/Execute/Laws.antt =====
-- About `execute_cupow` of crates/pocomp-protocol/src/cupow.rs.
use native.Mathlib.Nat.{div-add-mod'}
use verification_tooling.Prelude.{
  ℕ, zero, suc, ◌+◌, ◌*◌, ◌/◌, ◌%◌, ◌<◌, ◌≤◌, List, [], ◌∷◌, length, replicate, ◌≡◌, refl, sym, ◌∙◌,
  ap, ap₂, arith, some, ok,
}
use verification_tooling.CuPow.Matrix.{F251Matrix, new, add, subtract}
use verification_tooling.CuPow.Matrix.Laws.{IsMatrix-new}
use verification_tooling.CuPow.Sums.{sum, Cong}
use verification_tooling.CuPow.Product.Tables.{replicate-table}
use verification_tooling.CuPow.Product.Laws.{
  matrix, matrix-IsMatrix, matrix_congr, add-matrix, subtract-matrix,
}
use verification_tooling.CuPow.Product.Whole.{matmul-matrix, stripe_product-matrix}
use verification_tooling.CuPow.Execute.{CuPowNoise, CuPowExecution, stripes, last, execute_cupow}
use verification_tooling.CuPow.Execute.Decode.{sum_assoc, sum_stripe, decode-Cong}

module _ (n tile : ℕ) (f g : ℕ → ℕ → ℕ) where
  abbrev pub up_to : ℕ → F251Matrix
  up_to stop = matrix n n (λ i j. sum 0 stop (λ k. f i k * g k j))

  abbrev pub prefixes : ℕ → ℕ → List F251Matrix
  prefixes zero start = []
  prefixes (suc count) start = up_to (start + tile) ∷ prefixes count (start + tile)

  pub length-prefixes : (count start : ℕ) → length (prefixes count start) ≡ count
  length-prefixes zero start = refl
  length-prefixes (suc count) start = ap suc (length-prefixes count (start + tile))

  last-prefixes :
      (count start : ℕ)
      → last (prefixes (suc count) start) ≡ some (up_to (start + suc count * tile))
  unfolding last
  last-prefixes zero start = ap (λ k. some (up_to k)) (omega arith)
  last-prefixes (suc count) start =
      last-prefixes count (start + tile) ∙ ap (λ k. some (up_to k)) (omega arith)

  stripe_step :
      (start : ℕ)
      → 0 < n
      → add (up_to start) (matrix n n (λ i j. sum start tile (λ k. f i k * g k j)))
        ≡ ok (up_to (start + tile))
  stripe_step start hn =
      add-matrix n n (λ i j. sum 0 start (λ k. f i k * g k j))
        (λ i j. sum start tile (λ k. f i k * g k j)) hn hn
      ∙ ap ok (
          matrix_congr n n _ (λ i j. sum 0 (start + tile) (λ k. f i k * g k j))
            (λ i j hi hj. ap (λ k. k % 251) (sum_stripe start tile (λ k. f i k * g k j))))

  stripes-matrix :
      (count start : ℕ)
      → 0 < n
      → start + count * tile ≤ n
      → stripes (matrix n n f) (matrix n n g) tile count start (up_to start)
        ≡ ok (prefixes count start)
  unfolding stripes
  stripes-matrix zero start hn h = refl
  stripes-matrix (suc count) start hn h = ground (
    arith,
    stripe_product-matrix n f g start tile hn (omega arith),
    stripe_step start hn,
    stripes-matrix count (start + tile) hn (omega arith),
  )

zero_matrix : (n : ℕ) → 0 < n → new n n (replicate (n * n) 0) ≡ ok (matrix n n (λ i j. 0))
zero_matrix n hn =
    ap (new n n) (replicate-table n 0 n)
    ∙ IsMatrix-new (matrix n n (λ i j. 0)) (matrix-IsMatrix n n (λ i j. 0) hn hn)

module _ (n r tile : ℕ) (a b el er fl fr : ℕ → ℕ → ℕ) where
  abbrev pub e : ℕ → ℕ → ℕ
  e i j = sum 0 r (λ k. el i k * er k j)

  abbrev pub f : ℕ → ℕ → ℕ
  f i j = sum 0 r (λ k. fl i k * fr k j)

  abbrev pub noisy_a : ℕ → ℕ → ℕ
  noisy_a i j = a i j + e i j

  abbrev pub noisy_b : ℕ → ℕ → ℕ
  noisy_b i j = b i j + f i j

  abbrev pub noisy_product : ℕ → ℕ → ℕ
  noisy_product i j = sum 0 n (λ k. noisy_a i k * noisy_b k j)

  abbrev correction : ℕ → ℕ → ℕ
  correction i j =
      sum 0 r (λ k. sum 0 n (λ l. a i l * fl l k) * fr k j)
      + sum 0 r (λ k. el i k * sum 0 n (λ l. er k l * noisy_b l j))

  abbrev pub useful : ℕ → ℕ → ℕ
  useful i j = sum 0 n (λ k. a i k * b k j)

  decoded : (i j : ℕ) → Cong (noisy_product i j + 250 * correction i j) (useful i j)
  decoded i j =
      let left = sum_assoc r n (a i) fl (λ k. fr k j) in
      let right = sum_assoc n r (el i) (λ k l. er k l) (λ l. noisy_b l j) in
      ap (λ c. (noisy_product i j + 250 * c) % 251) (ap₂ (λ x y. x + y) left (sym right))
      ∙ decode-Cong n (a i) (e i) (λ k. b k j) (λ k. f k j)

  abbrev pub noise : CuPowNoise
  noise = record {
    e_left = matrix n r el;
    e_right = matrix r n er;
    f_left = matrix n r fl;
    f_right = matrix r n fr;
  }

  abbrev pub execution : CuPowExecution
  execution = record {
    noisy_left = matrix n n noisy_a;
    noisy_right = matrix n n noisy_b;
    transcript = prefixes n tile noisy_a noisy_b (n / tile) 0;
    decoded_output = matrix n n useful;
  }

  pub all_stripes : 0 < tile → n % tile ≡ 0 → n / tile * tile ≡ n
  all_stripes ht hd = omega (arith, div-add-mod' n tile, hd)

  pub last_stripe :
      0 < n
      → n / tile * tile ≡ n
      → last (prefixes n tile noisy_a noisy_b (n / tile) 0) ≡ some (matrix n n noisy_product)
  last_stripe hn hs = go (n / tile) hs
    where
      go :
          (count : ℕ)
          → count * tile ≡ n
          → last (prefixes n tile noisy_a noisy_b count 0) ≡ some (matrix n n noisy_product)
      go zero h = absurd (omega (arith, hn))
      go (suc count) h =
          last-prefixes n tile noisy_a noisy_b count 0
          ∙ ap (λ k. some (up_to n tile noisy_a noisy_b k)) (omega arith)

  decode :
      0 < n → subtract (matrix n n noisy_product) (matrix n n correction) ≡ ok (matrix n n useful)
  decode hn =
      subtract-matrix n n noisy_product correction hn hn
      ∙ ap ok (matrix_congr n n _ useful (λ i j hi hj. decoded i j))

  pub execute-matrix :
      0 < n
      → 0 < r
      → 0 < tile
      → n % tile ≡ 0
      → execute_cupow (matrix n n a) (matrix n n b) noise tile ≡ ok execution
  unfolding execute_cupow
  execute-matrix hn hr ht hd =
      let af : ℕ → ℕ → ℕ = λ i k. sum 0 n (λ l. a i l * fl l k) in
      let eb : ℕ → ℕ → ℕ = λ k j. sum 0 n (λ l. er k l * noisy_b l j) in
      let whole = all_stripes ht hd in
      ground (
        arith,
        matmul-matrix n r n el er hn hn,
        matmul-matrix n r n fl fr hn hn,
        add-matrix n n a e hn hn,
        add-matrix n n b f hn hn,
        zero_matrix n hn,
        stripes-matrix n tile noisy_a noisy_b (n / tile) 0 hn (omega (arith, whole)),
        matmul-matrix n n r a fl hn hr,
        matmul-matrix n r n af fr hn hn,
        matmul-matrix r n n er noisy_b hr hn,
        matmul-matrix n r n el eb hn hn,
        last_stripe hn whole,
        add-matrix n n (λ i j. sum 0 r (λ k. af i k * fr k j))
            (λ i j. sum 0 r (λ k. el i k * eb k j)) hn hn,
        decode hn,
      )
