-- ===== src/BTreeMap/Laws.antt =====
-- Maps in key order: lookups after an insertion, and equality of maps from equality of lookups.
use Prim.Native.Nat.{Ordering}
use verification_tooling.Prelude.{Text, List, [], ◌∷◌, ◌≡◌, refl, arith, none, some, ite, bytes_dec}
use verification_tooling.BTreeMap.{BTreeMap, text_cmp, get, insert, keys}
use verification_tooling.BTreeMap.Order.{
  text_cmp_refl, eq_of_text_cmp, text_cmp_swap, text_cmp_trans, ne_of_text_cmp,
}

-- Each text of the list comes after `k`.
abbrev pub Above : Text → List Text → Type 0
Above k [] = Unit
Above k (j ∷ ks) = (text_cmp k j ≡ Ordering.lt) × Above k ks

-- A strictly increasing list of texts.
abbrev pub IsSorted : List Text → Type 0
IsSorted [] = Unit
IsSorted (k ∷ ks) = Above k ks × IsSorted ks

pub Above-trans :
    (k j : Text) (ks : List Text) → text_cmp k j ≡ Ordering.lt → Above j ks → Above k ks
Above-trans k j [] h a = tt
Above-trans k j (i ∷ ks) h a = (text_cmp_trans k j i h a.0, Above-trans k j ks h a.1)

module _ {ℓ} {V : Type ℓ} where
  pub get-insert :
      (k j : Text) (v : V) (m : BTreeMap V)
      → get (insert k v m) j ≡ ite (bytes_dec k j) (some v) (get m j)
  unfolding get insert
  get-insert k j v [] = refl
  get-insert k j v ((i, w) ∷ m) =
      ground (arith, eq_of_text_cmp k i, text_cmp_refl k, get-insert k j v m)

  insert-Above :
      (i k : Text) (v : V) (m : BTreeMap V)
      → text_cmp i k ≡ Ordering.lt
      → Above i (keys m)
      → Above i (keys (insert k v m))
  unfolding insert
  insert-Above i k v [] h a = (h, tt)
  insert-Above i k v ((j, w) ∷ m) h a = ground (arith, insert-Above i k v m h a.1)

  pub insert-IsSorted :
      (k : Text) (v : V) (m : BTreeMap V) → IsSorted (keys m) → IsSorted (keys (insert k v m))
  unfolding insert
  insert-IsSorted k v [] s = (tt, tt)
  insert-IsSorted k v ((j, w) ∷ m) s = ground (
    arith,
    eq_of_text_cmp k j,
    Above-trans k j (keys m),
    text_cmp_swap k j,
    insert-Above j k v m,
    insert-IsSorted k v m s.1,
  )

  pub get-Above : (k : Text) (m : BTreeMap V) → Above k (keys m) → get m k ≡ none
  unfolding get
  get-Above k [] a = refl
  get-Above k ((j, v) ∷ m) a = ground (arith, ne_of_text_cmp k j, get-Above k m a.1)

  heads_eq :
      (k j : Text) (v w : V) (m n : BTreeMap V)
      → Above k (keys m)
      → Above j (keys n)
      → get ((k, v) ∷ m) k ≡ get ((j, w) ∷ n) k
      → get ((k, v) ∷ m) j ≡ get ((j, w) ∷ n) j
      → (k ≡ j) × (v ≡ w)
  unfolding get
  heads_eq k j v w m n a b hk hj = ground (
    arith,
    eq_of_text_cmp k j,
    text_cmp_swap k j,
    ne_of_text_cmp k j,
    Above-trans k j (keys n),
    Above-trans j k (keys m),
    get-Above k n,
    get-Above j m,
  )

  tails_eq :
      (k : Text) (v w : V) (m n : BTreeMap V)
      → Above k (keys m)
      → Above k (keys n)
      → (q : Text) → get ((k, v) ∷ m) q ≡ get ((k, w) ∷ n) q
      → get m q ≡ get n q
  unfolding get
  tails_eq k v w m n a b q h = ground (arith, get-Above k m a, get-Above k n b)

  -- Maps in key order with the same lookups are equal.
  pub eq_of_get :
      (m n : BTreeMap V)
      → IsSorted (keys m)
      → IsSorted (keys n)
      → ((k : Text) → get m k ≡ get n k)
      → m ≡ n
  unfolding get
  eq_of_get [] [] s t h = refl
  eq_of_get [] ((k, v) ∷ n) s t h = ground (arith, h k)
  eq_of_get ((k, v) ∷ m) [] s t h = ground (arith, h k)
  eq_of_get ((k, v) ∷ m) ((j, w) ∷ n) s t h =
      let heads = heads_eq k j v w m n s.0 t.0 (h k) (h j) in
      let same =
        eq_of_get m n s.1 t.1
          (λ q. tails_eq k v w m n s.0 (rw heads.0 t.0) q (rw (← heads.0) at (h q))) in
      ground arith
