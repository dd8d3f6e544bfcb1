-- ===== src/BTreeSet.antt =====
-- `BTreeSet<String>` as the list of its members in byte order.
pub mod Laws
use Prim.Native.Nat.{Ordering}
use verification_tooling.Prelude.{
  Text, List, [], ◌∷◌, Bool, true, false, ◌||◌, ◌==◌, bytes_eq, if◌then◌else◌,
}
use verification_tooling.BTreeMap.{text_cmp}

unfoldable pub contains : List Text → Text → Bool
contains [] k = false
contains (j ∷ s) k = j == k || contains s k

unfoldable pub insert : Text → List Text → List Text
insert k [] = k ∷ []
insert k (j ∷ s) = elim (text_cmp k j) [
  | Ordering.lt ↦ k ∷ j ∷ s
  | Ordering.eq ↦ j ∷ s
  | Ordering.gt ↦ j ∷ insert k s
]

unfoldable pub remove : Text → List Text → List Text
remove k [] = []
remove k (j ∷ s) = if j == k then remove k s else j ∷ remove k s

-- `collect()`
unfoldable pub of_list : List Text → List Text
unfolding insert
of_list [] = []
of_list (k ∷ ks) = insert k (of_list ks)
