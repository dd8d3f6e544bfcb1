-- ===== src/BTreeMap.antt =====
-- `BTreeMap<String, V>` as an association list in the order of its keys: the byte order of texts.
pub mod Order
pub mod Laws
use Prim.Native.Nat.{compare, Ordering}
use verification_tooling.Prelude.{Text, List, [], ◌∷◌, map, Option, none, some, ite, bytes_dec}

-- `str::cmp`
pub text_cmp : Text → Text → Ordering
text_cmp [] [] = Ordering.eq
text_cmp [] (y ∷ ys) = Ordering.lt
text_cmp (x ∷ xs) [] = Ordering.gt
text_cmp (x ∷ xs) (y ∷ ys) = elim (compare x y) [
  | Ordering.lt ↦ Ordering.lt
  | Ordering.eq ↦ text_cmp xs ys
  | Ordering.gt ↦ Ordering.gt
]

abbrev pub BTreeMap {ℓ} : Type ℓ → Type ℓ
BTreeMap V = List (Text × V)

module _ {ℓ} {V : Type ℓ} where
  unfoldable pub get : BTreeMap V → Text → Option V
  get [] k = none
  get ((j, v) ∷ m) k = ite (bytes_dec j k) (some v) (get m k)

  -- Adds the key, or replaces its value.
  unfoldable pub insert : Text → V → BTreeMap V → BTreeMap V
  unfolding text_cmp
  insert k v [] = (k, v) ∷ []
  insert k v ((j, w) ∷ m) = elim (text_cmp k j) [
    | Ordering.lt ↦ (k, v) ∷ (j, w) ∷ m
    | Ordering.eq ↦ (k, v) ∷ m
    | Ordering.gt ↦ (j, w) ∷ insert k v m
  ]

  abbrev pub keys : BTreeMap V → List Text
  keys = map (λ (k, _). k)

  abbrev pub values : BTreeMap V → List V
  values = map (λ (_, v). v)
