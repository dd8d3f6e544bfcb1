-- ===== src/CuPow/Relation/Laws.antt =====
-- What `evaluate_cupow_relation` of crates/pocomp-protocol/src/cupow.rs checks, as records.
use native.Mathlib.Nat.{le_trans, div-add-mod', mod-lt, mul-le-mul_right}
use verification_tooling.Prelude.{
  ℕ, ◌+◌, ◌*◌, ◌/◌, ◌%◌, ◌^◌, ◌≤◌, ◌<◌, List, [], ◌∷◌, map, true, false, Text, ◌≡◌, refl, ◌≢◌, inl,
  inr, arith, ok, some, result_cases, Option-cases, bytes_eq, ℕ_discrete,
}
use verification_tooling.BTreeSet
use verification_tooling.BTreeSet.{contains}
use verification_tooling.BTreeSet.Laws.{contains-insert}
use verification_tooling.Types.Audit.{ErasureCertificate}
use verification_tooling.Types.CuPow.{
  CuPowWorkItem, CuPowPolicy, CuPowContract, CuPowPublicStatement, CuPowOutcome,
}
use verification_tooling.Primitives.{Primitives}
use verification_tooling.CuPow.Relation.{
  is_power_of_two, validate_item, profile_invalid, policy_invalid, total_work, div_ceil,
  certified_capacity, c_capacity, erasure_invalid, saturate_u32, epoch_invalid, challenge_invalid,
  completion_invalid, evaluate_capacity, evaluate_cupow_relation,
}

-- The multiply-accumulates of all items.
abbrev pub macs : List CuPowWorkItem → ℕ
macs [] = 0
macs (item ∷ items) = item.n ^ 3 + macs items

-- No two items share an identifier.
abbrev pub Distinct : List CuPowWorkItem → Type 0
Distinct [] = Unit
Distinct (item ∷ items) =
    (contains (map (λ i. i.operation_id) items) item.operation_id ≡ false) × Distinct items

-- A matrix size that the policy allows: a power of two within its bounds, made of whole tiles.
pub record ItemValid (policy : CuPowPolicy) (item : CuPowWorkItem) : Type 0 where
  pub named : item.operation_id ≢ []
  pub above : policy.matrix_min_n ≤ item.n
  pub below : item.n ≤ policy.matrix_max_n
  pub power : is_power_of_two 32 item.n ≡ true
  pub tiled : item.n % policy.tile_size ≡ 0

abbrev pub ItemsValid : CuPowPolicy → List CuPowWorkItem → Type 0
ItemsValid policy [] = Unit
ItemsValid policy (item ∷ items) = ItemValid policy item × ItemsValid policy items

-- The identifiers met before do not come again.
abbrev Unseen : List Text → List CuPowWorkItem → Type 0
Unseen ids items =
    (t : Text) → contains ids t ≡ true → contains (map (λ i. i.operation_id) items) t ≡ false

validate_item_sound :
    (policy : CuPowPolicy) (item : CuPowWorkItem) (w : ℕ)
    → validate_item item policy.matrix_min_n policy.matrix_max_n policy.tile_size ≡ ok w
    → ItemValid policy item × (w ≡ item.n ^ 3)
unfolding validate_item
validate_item_sound policy item w h = ground arith

total_work_step :
    (policy : CuPowPolicy) (total : ℕ) (ids : List Text) (item : CuPowWorkItem)
    (items : List CuPowWorkItem) (w : ℕ)
    → total_work policy total ids (item ∷ items) ≡ ok w
    → (contains ids item.operation_id ≡ false)
      × ItemValid policy item
      × (total_work policy (total + item.n ^ 3) (BTreeSet.insert item.operation_id ids) items
          ≡ ok w)
unfolding total_work
total_work_step policy total ids item items w h =
    elim (result_cases
      (validate_item item policy.matrix_min_n policy.matrix_max_n policy.tile_size)) [
        | inr (e, p) ↦ absurd (ground arith)
        | inl (v, p) ↦ ground (arith, validate_item_sound policy item v p)
      ]

pub total_work_sound :
    (policy : CuPowPolicy) (total : ℕ) (ids : List Text) (items : List CuPowWorkItem) (w : ℕ)
    → total_work policy total ids items ≡ ok w
    → (w ≡ total + macs items) × ItemsValid policy items × Distinct items × Unseen ids items
unfolding total_work contains
total_work_sound policy total ids [] w h = (ground arith, tt, tt, λ t c. refl)
total_work_sound policy total ids (item ∷ items) w h =
    let (fresh, v, rest) = total_work_step policy total ids item items w h in
    let seen = BTreeSet.insert item.operation_id ids in
    let (sum, valid, distinct, unseen) =
      total_work_sound policy (total + item.n ^ 3) seen items w rest in
    (
      omega (arith, sum),
      (v, valid),
      (
        unseen item.operation_id
            (ground (arith, contains-insert item.operation_id item.operation_id ids)),
        distinct,
      ),
      λ t c. ground (arith, contains-insert item.operation_id t ids, unseen t),
    )

-- Rounding up: the quotient covers the dividend.
le-div_ceil : (a b : ℕ) → 0 < b → a ≤ div_ceil a b * b
unfolding div_ceil
le-div_ceil a b pos = elim (ℕ_discrete (a % b) 0) [
  | yes p ↦ let e : div_ceil a b ≡ a / b = ground arith in rw e (omega (arith, div-add-mod' a b))
  | no n ↦
      let e : div_ceil a b ≡ a / b + 1 = ground arith in
      rw e (omega (arith, div-add-mod' a b, mod-lt a pos))
]

div_ceil_covers : (a b w : ℕ) → 0 < b → div_ceil a b ≤ w → a ≤ w * b
div_ceil_covers a b w pos h = le_trans (le-div_ceil a b pos) (mul-le-mul_right b h)

module _ (contract : CuPowContract) (erasure : ErasureCertificate) (work : ℕ)
    (o : CuPowOutcome) where
  open contract use {policy, epoch}

  -- What the capacity check leaves: the work is what the policy requires of the certified capacity.
  pub record CapacityMet : Type 0 where
    pub work_reported : o.security_work_f251_macs ≡ work
    pub certified :
        certified_capacity epoch contract.capacity.certificate ≡ some o.certified_capacity_f251_macs
    pub positive : 0 < o.certified_capacity_f251_macs
    pub saturated : o.certified_capacity_f251_macs * policy.min_saturation_ppm ≤ work * 1_000_000
    pub ppm : o.saturation_ppm ≡ saturate_u32 (work * 1_000_000 / o.certified_capacity_f251_macs)
    pub erased : erasure_invalid epoch contract.capacity.certificate erasure ≡ false

  evaluate_capacity_sound : evaluate_capacity contract erasure work ≡ ok o → CapacityMet
  unfolding evaluate_capacity
  evaluate_capacity_sound h =
      elim (Option-cases (certified_capacity epoch contract.capacity.certificate)) [
        | inl e ↦ absurd (ground arith)
        | inr (n, p) ↦ elim (Option-cases (c_capacity policy contract.capacity.certificate)) [
          | inl e ↦ absurd (ground arith)
          | inr (c, q) ↦
              ground (arith, div_ceil_covers (n * policy.min_saturation_ppm) 1_000_000 work)
        ]
      ]

-- The parts of an accepted statement and the time line of its records.
pub record CuPowAccepted (x : Primitives) (s : CuPowPublicStatement) (o : CuPowOutcome)
    : Type 0 where
  pub profile : profile_invalid s.contract.contract ≡ false
  pub policy : policy_invalid s.contract.contract.policy ≡ false
  pub epoch : epoch_invalid x s.contract.contract ≡ false
  pub work :
      total_work s.contract.contract.policy 0 [] s.contract.contract.manifest.items
      ≡ ok s.contract.contract.manifest.security_work_f251_macs
  pub challenge : challenge_invalid x s.contract.contract s.challenge.challenge ≡ false
  pub completion :
      completion_invalid x s.contract.contract s.challenge.challenge
        s.contract.contract.manifest.security_work_f251_macs s.completion.completion
      ≡ false
  pub capacity :
      CapacityMet s.contract.contract s.erasure.certificate
        s.contract.contract.manifest.security_work_f251_macs o

module _ (x : Primitives) (s : CuPowPublicStatement) (o : CuPowOutcome) where
  pub evaluate_cupow_relation-CuPowAccepted :
      evaluate_cupow_relation x s ≡ ok o → CuPowAccepted x s o
  unfolding evaluate_cupow_relation
  evaluate_cupow_relation-CuPowAccepted h =
      let contract = s.contract.contract in
      elim (result_cases (total_work contract.policy 0 [] contract.manifest.items)) [
        | inr (e, p) ↦ absurd (ground arith)
        | inl (w, p) ↦ ground (arith, evaluate_capacity_sound contract s.erasure.certificate w o)
      ]
