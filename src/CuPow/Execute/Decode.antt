-- ===== src/CuPow/Execute/Decode.antt =====
-- The algebra by which `execute_cupow` of crates/pocomp-protocol/src/cupow.rs decodes its product.
use verification_tooling.Prelude.{ℕ, ◌+◌, ◌*◌, ◌≡◌, sym, ◌∙◌, ap, arith}
use verification_tooling.CuPow.Sums.{
  sum, Cong, sum_congr, sum-add, sum-mul, mul-sum, sum_comm, sum-append,
}

-- Products of three factors, summed in either order.
pub sum_assoc :
    (m n : ℕ) (a : ℕ → ℕ) (g : ℕ → ℕ → ℕ) (h : ℕ → ℕ)
    → sum 0 m (λ k. sum 0 n (λ l. a l * g l k) * h k)
      ≡ sum 0 n (λ l. a l * sum 0 m (λ k. g l k * h k))
sum_assoc m n a g h =
    sum_congr 0 m (λ k. sum 0 n (λ l. a l * g l k) * h k) (λ k. sum 0 n (λ l. a l * g l k * h k))
      (λ k. sum-mul 0 n (λ l. a l * g l k) (h k))
    ∙ sum_comm 0 m 0 n (λ k l. a l * g l k * h k)
    ∙ sum_congr 0 n (λ l. sum 0 m (λ k. a l * g l k * h k)) (λ l. a l * sum 0 m (λ k. g l k * h k))
        (λ l. regroup l)
  where
    assoc : (x y z : ℕ) → x * y * z ≡ x * (y * z)
    assoc x y z = omega arith

    regroup : (l : ℕ) → sum 0 m (λ k. a l * g l k * h k) ≡ a l * sum 0 m (λ k. g l k * h k)
    regroup l =
        sum_congr 0 m (λ k. a l * g l k * h k) (λ k. a l * (g l k * h k))
          (λ k. assoc (a l) (g l k) (h k))
        ∙ sym (mul-sum 0 m (a l) (λ k. g l k * h k))

-- The sum up to `start + width` is the sum up to `start` and the stripe of that width.
pub sum_stripe :
    (start width : ℕ) (f : ℕ → ℕ) → sum 0 start f + sum start width f ≡ sum 0 (start + width) f
sum_stripe start width f =
    ap (λ s. sum 0 start f + sum s width f) (zero_plus start) ∙ sym (sum-append 0 start width f)
  where
    zero_plus : (k : ℕ) → k ≡ 0 + k
    zero_plus k = omega arith

distribute : (a e b f : ℕ) → (a + e) * (b + f) ≡ a * b + (a * f + e * (b + f))
distribute a e b f = omega arith

-- The product of the noisy matrices, less the two corrections, is the product of the inputs.
pub decode-Cong :
    (n : ℕ) (a e b f : ℕ → ℕ)
    → Cong
        (sum 0 n (λ k. (a k + e k) * (b k + f k))
          + 250 * (sum 0 n (λ k. a k * f k) + sum 0 n (λ k. e k * (b k + f k))))
        (sum 0 n (λ k. a k * b k))
decode-Cong n a e b f =
    let split =
      sum_congr 0 n (λ k. (a k + e k) * (b k + f k))
        (λ k. a k * b k + (a k * f k + e k * (b k + f k))) (λ k. distribute (a k) (e k) (b k) (f k))
      ∙ sum-add 0 n (λ k. a k * b k) (λ k. a k * f k + e k * (b k + f k)) in
    let corrections = sum-add 0 n (λ k. a k * f k) (λ k. e k * (b k + f k)) in
    omega (arith, split, corrections)
