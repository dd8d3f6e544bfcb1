-- ===== src/Poseidon/Sizes.antt =====
-- The widths of the levels in crates/pocomp-protocol/src/poseidon2.rs: powers of two, and parts of lists.
use verification_tooling.Prelude.{
  ℕ, zero, suc, ◌+◌, ◌*◌, ◌≤◌, ◌<◌, List, [], ◌∷◌, Bool-cases, leb, length, take, drop, replicate,
  ◌≡◌, inl, inr, refl, ap, arith,
}
use verification_tooling.Poseidon.{power_from, next_power_of_two}

-- The powers of two.
abbrev pub power : ℕ → ℕ
power zero = 1
power (suc k) = 2 * power k

pub power_pos : (k : ℕ) → 0 < power k
power_pos zero = omega arith
power_pos (suc k) = omega (arith, power_pos k)

power_from_lem :
    (fuel k n : ℕ)
    → n ≤ power k * power fuel
    → (j : ℕ) × (power_from fuel (power k) n ≡ power j) × (n ≤ power j)
unfolding power_from
power_from_lem zero k n h = (k, refl, omega (arith, h))
power_from_lem (suc fuel) k n h = elim (Bool-cases (leb n (power k))) [
  | inl low ↦ (k, ground (arith, low), ground (arith, low))
  | inr high ↦
      let (j, e, b) = power_from_lem fuel (suc k) n (omega (arith, h)) in
      (j, ground (arith, high, e), b)
]

pub below_power : (n : ℕ) → n ≤ power n
below_power zero = omega arith
below_power (suc n) = omega (arith, below_power n, power_pos n)

pub next_power_of_two_lem : (n : ℕ) → (j : ℕ) × (next_power_of_two n ≡ power j) × (n ≤ power j)
unfolding next_power_of_two
next_power_of_two_lem n = power_from_lem n 0 n (omega (arith, below_power n))

pub length-replicate : {F : Type 0} (n : ℕ) (a : F) → length (replicate n a) ≡ n
length-replicate zero a = refl
length-replicate (suc n) a = ap suc (length-replicate n a)

pub length-take : {F : Type 0} (n m : ℕ) (xs : List F) → length xs ≡ n + m → length (take n xs) ≡ n
length-take zero m xs h = refl
length-take (suc n) m [] h = absurd (omega arith)
length-take (suc n) m (x ∷ xs) h = ap suc (length-take n m xs (omega arith))

pub length-drop : {F : Type 0} (n m : ℕ) (xs : List F) → length xs ≡ n + m → length (drop n xs) ≡ m
length-drop zero m xs h = omega arith
length-drop (suc n) m [] h = absurd (omega arith)
length-drop (suc n) m (x ∷ xs) h = length-drop n m xs (omega arith)
