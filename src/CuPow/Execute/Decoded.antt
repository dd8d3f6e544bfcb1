-- ===== src/CuPow/Execute/Decoded.antt =====
-- About `execute_cupow` of crates/pocomp-protocol/src/cupow.rs on valid matrices.
use verification_tooling.Prelude.{
  ℕ, ◌/◌, ◌%◌, ◌<◌, length, ◌≡◌, sym, ◌∙◌, ap, arith, some, ok, subst,
}
use verification_tooling.CuPow.Matrix.{F251Matrix}
use verification_tooling.CuPow.Matrix.Laws.{IsMatrix}
use verification_tooling.CuPow.Product.{matmul_f251}
use verification_tooling.CuPow.Product.Laws.{matrix}
use verification_tooling.CuPow.Product.Whole.{matmul-matrix}
use verification_tooling.CuPow.Product.Entries.{value_at, IsMatrix-value_at}
use verification_tooling.CuPow.Execute.{CuPowNoise, CuPowExecution, last, execute_cupow}
use verification_tooling.CuPow.Execute.Laws.{
  noisy_a, noisy_b, noise, execution, noisy_product, length-prefixes, all_stripes, last_stripe,
  execute-matrix,
}

-- A valid matrix of the given dimensions.
pub record HasShape (rows columns : ℕ) (m : F251Matrix) : Type 0 where
  pub valid : IsMatrix m
  pub rows_same : m.rows ≡ rows
  pub columns_same : m.columns ≡ columns

shape-value_at : (r c : ℕ) (m : F251Matrix) → HasShape r c m → m ≡ matrix r c (value_at m)
shape-value_at r c m h =
    IsMatrix-value_at m h.valid
    ∙ ap (λ k. matrix k m.columns (value_at m)) h.rows_same
    ∙ ap (λ k. matrix r k (value_at m)) h.columns_same

-- Four valid factors, of `n` by `rank` and `rank` by `n`.
pub record IsNoise (n rank : ℕ) (factors : CuPowNoise) : Type 0 where
  pub e_left_shape : HasShape n rank factors.e_left
  pub e_right_shape : HasShape rank n factors.e_right
  pub f_left_shape : HasShape n rank factors.f_left
  pub f_right_shape : HasShape rank n factors.f_right

-- What an execution shows of its inputs: the decoded output is their product, the last entry of the
-- transcript the product of the noisy matrices, and there is an entry for each stripe.
pub record Decodes (left right : F251Matrix) (n tile : ℕ) (result : CuPowExecution) : Type 0 where
  pub product : matmul_f251 left right ≡ ok result.decoded_output
  pub noisy :
      (m : F251Matrix) × (last result.transcript ≡ some m)
      × (matmul_f251 result.noisy_left result.noisy_right ≡ ok m)
  pub entries : length result.transcript ≡ n / tile

module _ (n r tile : ℕ) (a b el er fl fr : ℕ → ℕ → ℕ) (hn : 0 < n) (ht : 0 < tile)
    (hd : n % tile ≡ 0) where
  execution-Decodes :
      Decodes (matrix n n a) (matrix n n b) n tile (execution n r tile a b el er fl fr)
  execution-Decodes =
      let L = noisy_a n r tile a b el er fl fr in
      let R = noisy_b n r tile a b el er fl fr in
      record {
        product = matmul-matrix n n n a b hn hn;
        noisy = (
          matrix n n (noisy_product n r tile a b el er fl fr),
          last_stripe n r tile a b el er fl fr hn (all_stripes n r tile a b el er fl fr ht hd),
          matmul-matrix n n n L R hn hn,
        );
        entries = length-prefixes n tile L R (n / tile) 0;
      }

abbrev pub Runs : ℕ → ℕ → F251Matrix → F251Matrix → CuPowNoise → Type 0
Runs n tile left right factors =
    (result : CuPowExecution) × (execute_cupow left right factors tile ≡ ok result)
    × Decodes left right n tile result

noise-value_at :
    (n rank : ℕ) (factors : CuPowNoise)
    → IsNoise n rank factors
    → factors ≡ record {
      e_left = matrix n rank (value_at factors.e_left);
      e_right = matrix rank n (value_at factors.e_right);
      f_left = matrix n rank (value_at factors.f_left);
      f_right = matrix rank n (value_at factors.f_right);
    }
noise-value_at n rank factors h = cc (
  shape-value_at n rank factors.e_left h.e_left_shape,
  shape-value_at rank n factors.e_right h.e_right_shape,
  shape-value_at n rank factors.f_left h.f_left_shape,
  shape-value_at rank n factors.f_right h.f_right_shape,
)

-- For two valid n by n matrices, valid noise factors of n by rank and rank by n, and a positive
-- tile size that divides n, the execution succeeds, its decoded output is the product of the two
-- matrices, the last entry of its transcript is the product of the two noisy matrices, and the
-- transcript has an entry for each stripe.
pub execute_cupow-matmul_f251 :
    (n rank tile_size : ℕ) (left right : F251Matrix) (factors : CuPowNoise)
    → HasShape n n left
    → HasShape n n right
    → IsNoise n rank factors
    → 0 < tile_size
    → n % tile_size ≡ 0
    → (result : CuPowExecution) × (execute_cupow left right factors tile_size ≡ ok result)
      × Decodes left right n tile_size result
execute_cupow-matmul_f251 n rank tile_size left right factors hl hr hf ht hd =
    let n_pos : 0 < n = omega (arith, hl.valid.rows_pos, hl.rows_same) in
    let rank_pos : 0 < rank =
      omega (arith, hf.e_right_shape.valid.rows_pos, hf.e_right_shape.rows_same) in
    let el = value_at factors.e_left in
    let er = value_at factors.e_right in
    let fl = value_at factors.f_left in
    let fr = value_at factors.f_right in
    let at_left = λ (l : F251Matrix). Runs n tile_size l right factors in
    let at_right = λ (m : F251Matrix). Runs n tile_size (matrix n n (value_at left)) m factors in
    let at_factors = Runs n tile_size (matrix n n (value_at left)) (matrix n n (value_at right)) in
    let runs : at_factors (noise n rank tile_size (value_at left) (value_at right) el er fl fr) = (
      execution n rank tile_size (value_at left) (value_at right) el er fl fr,
      execute-matrix n rank tile_size (value_at left) (value_at right) el er fl fr n_pos rank_pos ht
          hd,
      execution-Decodes n rank tile_size (value_at left) (value_at right) el er fl fr n_pos ht hd,
    ) in
    subst at_left (sym (shape-value_at n n left hl)) (
      subst at_right (sym (shape-value_at n n right hr))
        (subst at_factors (sym (noise-value_at n rank factors hf)) runs))
