-- ===== src/Prelude/Fallible.antt =====
-- Rust's `Result`, its `?` as a bind, and the checked arithmetic of machine integers.
use Prim.Native.Nat.{ℕ, ◌+◌, ◌*◌, ◌^◌}
use mathlib.Core.Path.{◌≡◌, refl}
use mathlib.Core.Logic.{◌⊎◌, inl, inr}
use mathlib.Core.Bool.{Bool, true, false}
use native.Mathlib.Omega.{arith}
use mathlib.Core.Option.{Option, none, some}
use verification_tooling.Prelude.Tests.{ltb, if◌then◌else◌}

pub data Result {ℓ κ} (E : Type ℓ) (A : Type κ) : Type (ℓ ⊔ κ) where
  ok : A → Result E A
  err : E → Result E A

module _ {ℓ} {E : Type ℓ} where
  infixl 5 ◌>>=◌ ◌>>◌
  abbrev pub ◌>>=◌ {κ μ} : {A : Type κ} {B : Type μ} → Result E A → (A → Result E B) → Result E B
  ok a >>= f = f a
  err e >>= f = err e

  abbrev pub ◌>>◌ {κ} : {B : Type κ} → Result E (Unit {0}) → Result E B → Result E B
  ok _ >> k = k
  err e >> k = err e

  -- `if condition { return Err(e) }`
  abbrev pub reject_if : Bool → E → Result E (Unit {0})
  reject_if true e = err e
  reject_if false e = ok tt

  -- `Option::ok_or`
  abbrev pub ok_or {κ} : {A : Type κ} → Option A → E → Result E A
  ok_or none e = err e
  ok_or (some a) e = ok a

pub result_cases {ℓ κ} :
    {E : Type ℓ} {A : Type κ} (r : Result E A) → ((a : A) × (r ≡ ok a)) ⊎ ((e : E) × (r ≡ err e))
result_cases (ok a) = inl (a, refl)
result_cases (err e) = inr (e, refl)

-- `checked_add`, `checked_mul` on an unsigned integer of `w` bits.
abbrev pub checked_add : ℕ → ℕ → ℕ → Option ℕ
checked_add w a b = if ltb (a + b) (2 ^ w) then some (a + b) else none

abbrev pub checked_mul : ℕ → ℕ → ℕ → Option ℕ
checked_mul w a b = if ltb (a * b) (2 ^ w) then some (a * b) else none

-- A computation that goes on with an optional value, and succeeds, has the value.
pub ok_or-some {ℓ κ μ} :
    {E : Type ℓ} {A : Type κ} {B : Type μ} (o : Option A) (e : E) (k : A → Result E B) (b : B)
    → (ok_or o e >>= k) ≡ ok b
    → (a : A) × (o ≡ some a) × (k a ≡ ok b)
ok_or-some none e k b h = absurd (ground (arith, h))
ok_or-some (some a) e k b h = (a, refl, h)
