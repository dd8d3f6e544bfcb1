-- ===== src/BTreeSet/Laws.antt =====
-- Sets of texts: a list in order is its own set, and the keys of a map are its domain.
use verification_tooling.Prelude.{
  Text, List, [], ◌∷◌, ◌≡◌, refl, arith, is_some, bytes_eq, ◌||◌, ◌==◌, true, false, if◌then◌else◌,
  is_empty,
}
use verification_tooling.BTreeMap
use verification_tooling.BTreeMap.{BTreeMap, text_cmp}
use verification_tooling.BTreeMap.Order.{eq_of_text_cmp}
use verification_tooling.BTreeMap.Laws.{Above, IsSorted}
use verification_tooling.BTreeSet.{contains, insert, remove, of_list}

insert-Above : (k : Text) (ks : List Text) → Above k ks → insert k ks ≡ k ∷ ks
unfolding insert
insert-Above k [] a = refl
insert-Above k (j ∷ ks) a = ground arith

pub of_list_sorted : (ks : List Text) → IsSorted ks → of_list ks ≡ ks
unfolding of_list
of_list_sorted [] s = refl
of_list_sorted (k ∷ ks) s = rw (of_list_sorted ks s.1) (insert-Above k ks s.0)

pub contains-keys {ℓ} :
    {V : Type ℓ} (m : BTreeMap V) (k : Text)
    → contains (BTreeMap.keys m) k ≡ is_some (BTreeMap.get m k)
unfolding contains BTreeMap.get
contains-keys [] k = refl
contains-keys ((j, v) ∷ m) k = ground (arith, contains-keys m k)

pub contains-insert :
    (k j : Text) (ks : List Text) → contains (insert k ks) j ≡ (k == j || contains ks j)
unfolding contains insert
contains-insert k j [] = refl
contains-insert k j (i ∷ ks) = ground (arith, eq_of_text_cmp k i, contains-insert k j ks)

pub contains-remove :
    (k j : Text) (ks : List Text)
    → contains (remove k ks) j ≡ (if k == j then false else contains ks j)
unfolding contains remove
contains-remove k j [] = ground arith
contains-remove k j (i ∷ ks) = ground (arith, contains-remove k j ks)

pub contains-empty : (ks : List Text) → is_empty ks ≡ true → (k : Text) → contains ks k ≡ false
unfolding contains
contains-empty [] h k = refl
contains-empty (j ∷ ks) h k = ground arith
