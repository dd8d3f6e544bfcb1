-- ===== src/BTreeMap/Order.antt =====
-- The byte order of texts, `str::cmp`.
use Prim.Native.Nat.{Ordering}
use verification_tooling.Prelude.{Text, [], ◌∷◌, ◌≡◌, refl, ◌≢◌, arith}
use verification_tooling.BTreeMap.{text_cmp}

pub text_cmp_refl : (a : Text) → text_cmp a a ≡ Ordering.eq
unfolding text_cmp
text_cmp_refl [] = refl
text_cmp_refl (x ∷ xs) = ground (arith, text_cmp_refl xs)

pub eq_of_text_cmp : (a b : Text) → text_cmp a b ≡ Ordering.eq → a ≡ b
unfolding text_cmp
eq_of_text_cmp [] [] h = refl
eq_of_text_cmp [] (y ∷ ys) h = cc
eq_of_text_cmp (x ∷ xs) [] h = cc
eq_of_text_cmp (x ∷ xs) (y ∷ ys) h = ground (arith, eq_of_text_cmp xs ys)

pub text_cmp_swap : (a b : Text) → text_cmp a b ≡ Ordering.gt → text_cmp b a ≡ Ordering.lt
unfolding text_cmp
text_cmp_swap [] [] h = cc
text_cmp_swap [] (y ∷ ys) h = cc
text_cmp_swap (x ∷ xs) [] h = refl
text_cmp_swap (x ∷ xs) (y ∷ ys) h = ground (arith, text_cmp_swap xs ys)

pub text_cmp_trans :
    (a b c : Text)
    → text_cmp a b ≡ Ordering.lt
    → text_cmp b c ≡ Ordering.lt
    → text_cmp a c ≡ Ordering.lt
unfolding text_cmp
text_cmp_trans [] [] c h k = cc
text_cmp_trans [] (y ∷ ys) [] h k = cc
text_cmp_trans [] (y ∷ ys) (z ∷ zs) h k = refl
text_cmp_trans (x ∷ xs) [] c h k = cc
text_cmp_trans (x ∷ xs) (y ∷ ys) [] h k = cc
text_cmp_trans (x ∷ xs) (y ∷ ys) (z ∷ zs) h k = ground (arith, text_cmp_trans xs ys zs)

pub ne_of_text_cmp : (a b : Text) → text_cmp a b ≡ Ordering.lt → a ≢ b
ne_of_text_cmp a b h e =
    let h' : text_cmp b b ≡ Ordering.lt = rw e at h in ground (arith, text_cmp_refl b)
