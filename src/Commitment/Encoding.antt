-- ===== src/Commitment/Encoding.antt =====
-- `u64::to_be_bytes` and the like: the big-endian bytes of a machine integer.
use verification_tooling.Prelude.{
  ℕ, zero, suc, ◌+◌, ◌*◌, ◌/◌, ◌%◌, ◌^◌, ◌<◌, ◌≡◌, refl, ap, sym, ◌∙◌, [], ◌∷◌, ◌++◌, arith, Bytes,
  length, length-append,
}
use native.Mathlib.Nat.{pow-suc}

-- The low `w` bytes of `n`, the most significant first.
unfoldable pub be_bytes : ℕ → ℕ → Bytes
be_bytes zero n = []
be_bytes (suc w) n = be_bytes w (n / 256) ++ (n % 256 ∷ [])

-- `u64::from_be_bytes` over the bytes read so far.
unfoldable pub from_be_bytes : ℕ → Bytes → ℕ
from_be_bytes acc [] = acc
from_be_bytes acc (b ∷ bs) = from_be_bytes (acc * 256 + b) bs

pub length-be_bytes : (w n : ℕ) → length (be_bytes w n) ≡ w
unfolding be_bytes
length-be_bytes zero n = refl
length-be_bytes (suc w) n =
    omega (arith, length-append (be_bytes w (n / 256)) (n % 256 ∷ []), length-be_bytes w (n / 256))

from_be_bytes-append :
    (acc : ℕ) (xs ys : Bytes)
    → from_be_bytes acc (xs ++ ys) ≡ from_be_bytes (from_be_bytes acc xs) ys
unfolding from_be_bytes
from_be_bytes-append acc [] ys = refl
from_be_bytes-append acc (x ∷ xs) ys = from_be_bytes-append (acc * 256 + x) xs ys

below-div : (w n : ℕ) → n < 256 ^ suc w → n / 256 < 256 ^ w
below-div w n h = let h' : n < 256 ^ w * 256 = rw (pow-suc 256 w) at h in omega arith

-- Reading the big-endian bytes that were written for a number gives the number back, for every
-- number that fits the width.
pub from_be_bytes-be_bytes : (w n : ℕ) → n < 256 ^ w → from_be_bytes 0 (be_bytes w n) ≡ n
unfolding be_bytes from_be_bytes
from_be_bytes-be_bytes zero n h = omega arith
from_be_bytes-be_bytes (suc w) n h =
    let ih = from_be_bytes-be_bytes w (n / 256) (below-div w n h) in
    rw (from_be_bytes-append 0 (be_bytes w (n / 256)) (n % 256 ∷ []), ih) (omega arith)

pub be_bytes-injective :
    (w m n : ℕ) → m < 256 ^ w → n < 256 ^ w → be_bytes w m ≡ be_bytes w n → m ≡ n
be_bytes-injective w m n hm hn e =
    sym (from_be_bytes-be_bytes w m hm) ∙ ap (from_be_bytes 0) e ∙ from_be_bytes-be_bytes w n hn
