-- ===== src/Relation/Task/Grouping.antt =====
-- What the grouping loop of crates/pocomp-protocol/src/relation.rs collects.
use verification_tooling.Prelude.{
  List, [], ◌∷◌, ◌++◌, Bool, true, false, Text, ◌≡◌, refl, ◌≢◌, inl, inr, arith, ite, bytes_dec,
  Option, none, some, ok, All, result_cases,
}
use mathlib.Core.List.{append-nil, append_assoc}
use verification_tooling.BTreeMap
use verification_tooling.BTreeMap.{BTreeMap}
use verification_tooling.BTreeMap.Laws.{IsSorted, get-insert, insert-IsSorted}
use verification_tooling.Types.Records.{GatewayLeaf, Direction, ingress, egress}
use verification_tooling.Relation.Task.{Slots, entry, place, group_leaves, any_incomplete, both}

abbrev pub slot : Direction → Slots → Option GatewayLeaf
slot ingress (i, e) = i
slot egress (i, e) = e

abbrev pub to_list : Option GatewayLeaf → List GatewayLeaf
to_list none = []
to_list (some leaf) = leaf ∷ []

abbrev has_direction : Direction → GatewayLeaf → Bool
has_direction ingress leaf = elim leaf.descriptor.direction [ ingress ↦ true | egress ↦ false ]
has_direction egress leaf = elim leaf.descriptor.direction [ ingress ↦ false | egress ↦ true ]

-- The leaves of one task in one direction, in the order of the gateway.
abbrev pub of_task : Direction → Text → List GatewayLeaf → List GatewayLeaf
of_task way t [] = []
of_task way t (leaf ∷ leaves) =
    let rest = of_task way t leaves in
    ite (bytes_dec leaf.descriptor.task_id t)
      (elim (has_direction way leaf) [ true ↦ leaf ∷ rest | false ↦ rest ]) rest

entry-insert :
    (k t : Text) (s : Slots) (g : BTreeMap Slots)
    → entry (BTreeMap.insert k s g) t ≡ ite (bytes_dec k t) s (entry g t)
unfolding entry
entry-insert k t s g = ground (arith, get-insert k t s g)

place-slot :
    (leaf : GatewayLeaf) (s s' : Slots) (way : Direction)
    → place leaf.descriptor.direction leaf s ≡ ok s'
    → to_list (slot way s')
      ≡ to_list (slot way s) ++ elim (has_direction way leaf) [ true ↦ leaf ∷ [] | false ↦ [] ]
unfolding place
place-slot leaf (i, e) (i', e') ingress h = ground arith
place-slot leaf (i, e) (i', e') egress h = ground arith

-- One round of the loop that does not fail.
group_step :
    (foreign : GatewayLeaf → Bool) (g g' : BTreeMap Slots) (leaf : GatewayLeaf)
    (leaves : List GatewayLeaf)
    → group_leaves foreign g (leaf ∷ leaves) ≡ ok g'
    → (s : Slots) × (foreign leaf ≡ false)
      × (place leaf.descriptor.direction leaf (entry g leaf.descriptor.task_id) ≡ ok s)
      × (group_leaves foreign (BTreeMap.insert leaf.descriptor.task_id s g) leaves ≡ ok g')
unfolding group_leaves
group_step foreign g g' leaf leaves h =
    elim (result_cases (place leaf.descriptor.direction leaf (entry g leaf.descriptor.task_id))) [
      | inl (s, p) ↦ (s, ground arith, p, ground arith)
      | inr (e, p) ↦ absurd (ground arith)
    ]

-- A slot gains the leaves of its task and direction.
group_leaves_slots :
    (foreign : GatewayLeaf → Bool) (g g' : BTreeMap Slots) (leaves : List GatewayLeaf)
    → group_leaves foreign g leaves ≡ ok g'
    → (way : Direction) (t : Text)
    → to_list (slot way (entry g' t)) ≡ to_list (slot way (entry g t)) ++ of_task way t leaves
unfolding group_leaves
group_leaves_slots foreign g g' [] h way t = let e : g ≡ g' = ground arith in rw (e, append-nil)
group_leaves_slots foreign g g' (leaf ∷ leaves) h way t =
    let (s, _, p, rest) = group_step foreign g g' leaf leaves h in
    let k = leaf.descriptor.task_id in
    ground (
      arith,
      group_leaves_slots foreign (BTreeMap.insert k s g) g' leaves rest way t,
      entry-insert k t s g,
      place-slot leaf (entry g k) s way p,
      append_assoc (to_list (slot way (entry g k))) (leaf ∷ []) (of_task way t leaves),
      append-nil (to_list (slot way (entry g k))),
    )

-- After the loop a slot holds the leaves of its task and direction, of which there is one at most.
pub group_leaves-of_task :
    (foreign : GatewayLeaf → Bool) (g : BTreeMap Slots) (leaves : List GatewayLeaf)
    → group_leaves foreign [] leaves ≡ ok g
    → (way : Direction) (t : Text) → to_list (slot way (entry g t)) ≡ of_task way t leaves
unfolding entry BTreeMap.get
group_leaves-of_task foreign g leaves h ingress t =
    group_leaves_slots foreign [] g leaves h ingress t
group_leaves-of_task foreign g leaves h egress t = group_leaves_slots foreign [] g leaves h egress t

pub group_leaves-IsSorted :
    (foreign : GatewayLeaf → Bool) (g g' : BTreeMap Slots) (leaves : List GatewayLeaf)
    → group_leaves foreign g leaves ≡ ok g'
    → IsSorted (BTreeMap.keys g)
    → IsSorted (BTreeMap.keys g')
unfolding group_leaves
group_leaves-IsSorted foreign g g' [] h s = let e : g ≡ g' = ground arith in rw e at s
group_leaves-IsSorted foreign g g' (leaf ∷ leaves) h sorted =
    let (s, _, _, rest) = group_step foreign g g' leaf leaves h in
    group_leaves-IsSorted foreign (BTreeMap.insert leaf.descriptor.task_id s g) g' leaves rest
      (insert-IsSorted leaf.descriptor.task_id s g sorted)

-- No leaf that the loop accepts is foreign.
pub group_leaves-All :
    (foreign : GatewayLeaf → Bool) (g g' : BTreeMap Slots) (leaves : List GatewayLeaf)
    → group_leaves foreign g leaves ≡ ok g'
    → All (λ leaf. foreign leaf ≡ false) leaves
group_leaves-All foreign g g' [] h = tt
group_leaves-All foreign g g' (leaf ∷ leaves) h =
    let (s, f, _, rest) = group_step foreign g g' leaf leaves h in
    (f, group_leaves-All foreign (BTreeMap.insert leaf.descriptor.task_id s g) g' leaves rest)

-- The loop depends on its test only at the leaves.
pub group_leaves-congr :
    (f h : GatewayLeaf → Bool) (g : BTreeMap Slots) (leaves : List GatewayLeaf)
    → All (λ leaf. f leaf ≡ h leaf) leaves
    → group_leaves f g leaves ≡ group_leaves h g leaves
unfolding group_leaves
group_leaves-congr f h g [] same = refl
group_leaves-congr f h g (leaf ∷ leaves) same =
    elim (result_cases (place leaf.descriptor.direction leaf (entry g leaf.descriptor.task_id))) [
      | inl (s, p) ↦
          rw (p, same.0)
            (ground (
              arith,
              group_leaves-congr f h (BTreeMap.insert leaf.descriptor.task_id s g) leaves same.1,
            ))
      | inr (e, p) ↦ rw (p, same.0)
    ]

-- A map with no incomplete task has both leaves of every task.
pub both_of_complete :
    (g : BTreeMap Slots) (t : Text) (s : Slots)
    → any_incomplete g ≡ false
    → BTreeMap.get g t ≡ some s
    → both s ≢ none
unfolding any_incomplete BTreeMap.get both
both_of_complete [] t s h e = ground arith
both_of_complete ((k, (i, e)) ∷ g) t s h q = ground (arith, both_of_complete g t s)
