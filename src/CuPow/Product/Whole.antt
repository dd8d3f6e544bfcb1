-- ===== src/CuPow/Product/Whole.antt =====
-- `matmul_f251` and `stripe_product` of crates/pocomp-protocol/src/cupow.rs on matrices that are given by
-- functions, and on valid matrices.
use verification_tooling.Prelude.{ℕ, ◌+◌, ◌*◌, ◌<◌, ◌≤◌, ◌≡◌, arith, ok}
use verification_tooling.CuPow.Matrix.Laws.{IsMatrix-new}
use verification_tooling.CuPow.Sums.{sum}
use verification_tooling.CuPow.Product.{matmul_f251, stripe_product}
use verification_tooling.CuPow.Product.Laws.{matrix, matrix-IsMatrix, fill-matrix}

pub matmul-matrix :
    (r n c : ℕ) (f g : ℕ → ℕ → ℕ)
    → 0 < r
    → 0 < c
    → matmul_f251 (matrix r n f) (matrix n c g)
      ≡ ok (matrix r c (λ i j. sum 0 n (λ k. f i k * g k j)))
unfolding matmul_f251
matmul-matrix r n c f g hr hc =
    let product : ℕ → ℕ → ℕ = λ i j. sum 0 n (λ k. f i k * g k j) in
    ground (
      arith,
      fill-matrix r n c f g 0 n 0 r (omega arith) (omega arith),
      IsMatrix-new (matrix r c product) (matrix-IsMatrix r c product hr hc),
    )

pub stripe_product-matrix :
    (n : ℕ) (f g : ℕ → ℕ → ℕ) (start width : ℕ)
    → 0 < n
    → start + width ≤ n
    → stripe_product (matrix n n f) (matrix n n g) start width
      ≡ ok (matrix n n (λ i j. sum start width (λ k. f i k * g k j)))
unfolding stripe_product
stripe_product-matrix n f g start width hn hw =
    let product : ℕ → ℕ → ℕ = λ i j. sum start width (λ k. f i k * g k j) in
    ground (
      arith,
      fill-matrix n n n f g start width 0 n (omega arith) hw,
      IsMatrix-new (matrix n n product) (matrix-IsMatrix n n product hn hn),
    )
