-- ===== src/CuPow/Sums.antt =====
-- Finite sums of numbers, and congruence modulo 251, for the matrix products of
-- crates/pocomp-protocol/src/cupow.rs.
use verification_tooling.Prelude.{
  ℕ, zero, suc, ◌+◌, ◌*◌, ◌/◌, ◌%◌, ◌<◌, ◌≡◌, refl, sym, ◌∙◌, ap, ap₂, arith,
}

-- `f start + .. + f (start + width - 1)`
abbrev pub sum : ℕ → ℕ → (ℕ → ℕ) → ℕ
sum start zero f = 0
sum start (suc width) f = f start + sum (suc start) width f

abbrev pub Cong : ℕ → ℕ → Type 0
Cong a b = a % 251 ≡ b % 251

mul_multiple : (q r b : ℕ) → (q * 251 + r) * b % 251 ≡ r * b % 251
mul_multiple q r b = omega arith

mod_mul : (a b : ℕ) → Cong (a % 251 * b) (a * b)
mod_mul a b =
    let split : a ≡ a / 251 * 251 + a % 251 = omega arith in
    sym (ap (λ k. k * b % 251) split ∙ mul_multiple (a / 251) (a % 251) b)

mul_comm : (a b : ℕ) → a * b ≡ b * a
mul_comm a b = omega arith

mul_left : (a c b : ℕ) → Cong a c → Cong (a * b) (c * b)
mul_left a c b h = sym (mod_mul a b) ∙ ap (λ k. k * b % 251) h ∙ mod_mul c b

pub Cong-mul : (a c b d : ℕ) → Cong a c → Cong b d → Cong (a * b) (c * d)
Cong-mul a c b d h k =
    mul_left a c b h
    ∙ ap (λ n. n % 251) (mul_comm c b)
    ∙ mul_left b d c k
    ∙ ap (λ n. n % 251) (mul_comm d c)

pub Cong-add : (a c b d : ℕ) → Cong a c → Cong b d → Cong (a + b) (c + d)
Cong-add a c b d h k = omega (arith, h, k)

pub Cong-sum :
    (start width : ℕ) (f g : ℕ → ℕ)
    → ((k : ℕ) → k < start + width → Cong (f k) (g k))
    → Cong (sum start width f) (sum start width g)
Cong-sum start zero f g h = refl
Cong-sum start (suc width) f g h =
    Cong-add (f start) (g start) (sum (suc start) width f) (sum (suc start) width g)
      (h start (omega arith)) (Cong-sum (suc start) width f g (λ k b. h k (omega arith)))

pub sum_congr :
    (start width : ℕ) (f g : ℕ → ℕ) → ((k : ℕ) → f k ≡ g k) → sum start width f ≡ sum start width g
sum_congr start zero f g h = refl
sum_congr start (suc width) f g h = ap₂ (λ a b. a + b) (h start) (sum_congr (suc start) width f g h)

pub sum-add :
    (start width : ℕ) (f g : ℕ → ℕ)
    → sum start width (λ k. f k + g k) ≡ sum start width f + sum start width g
sum-add start zero f g = refl
sum-add start (suc width) f g = omega (arith, sum-add (suc start) width f g)

pub sum-mul :
    (start width : ℕ) (f : ℕ → ℕ) (a : ℕ) → sum start width f * a ≡ sum start width (λ k. f k * a)
sum-mul start zero f a = omega arith
sum-mul start (suc width) f a = omega (arith, sum-mul (suc start) width f a)

pub mul-sum :
    (start width : ℕ) (a : ℕ) (f : ℕ → ℕ) → a * sum start width f ≡ sum start width (λ k. a * f k)
mul-sum start zero a f = omega arith
mul-sum start (suc width) a f = omega (arith, mul-sum (suc start) width a f)

sum-zero : (start width : ℕ) → sum start width (λ k. 0) ≡ 0
sum-zero start zero = refl
sum-zero start (suc width) = omega (arith, sum-zero (suc start) width)

pub sum_comm :
    (s m t n : ℕ) (f : ℕ → ℕ → ℕ)
    → sum s m (λ i. sum t n (λ j. f i j)) ≡ sum t n (λ j. sum s m (λ i. f i j))
sum_comm s zero t n f = sym (sum-zero t n)
sum_comm s (suc m) t n f =
    ap (λ r. sum t n (f s) + r) (sum_comm (suc s) m t n f)
    ∙ sym (sum-add t n (f s) (λ j. sum (suc s) m (λ i. f i j)))

sum_range : (f : ℕ → ℕ) (s t m n : ℕ) → s ≡ t → m ≡ n → sum s m f ≡ sum t n f
sum_range f s t m n p q = ap₂ (λ a b. sum a b f) p q

-- The stripes of a range add up to it.
pub sum-append :
    (start m n : ℕ) (f : ℕ → ℕ) → sum start (m + n) f ≡ sum start m f + sum (start + m) n f
sum-append start zero n f = omega (
  arith,
  sum_range f start start (0 + n) n refl (omega arith),
  sum_range f start (start + 0) n n (omega arith) refl,
)
sum-append start (suc m) n f =
    let longer : sum start (suc m + n) f ≡ f start + sum (suc start) (m + n) f =
      sum_range f start start (suc m + n) (suc (m + n)) refl (omega arith) in
    omega (
      arith,
      longer,
      sum-append (suc start) m n f,
      sum_range f (suc start + m) (start + suc m) n n (omega arith) refl,
    )
