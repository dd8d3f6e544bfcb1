-- ===== src/Relation/Task/Statements.antt =====
-- The derived zkTorch statements, and the supplied ones that the Task relation accepts.
use verification_tooling.Prelude.{
  List, [], ◌∷◌, true, false, Text, ◌≡◌, refl, ◌≢◌, inl, inr, arith, Option, none, some, ok,
  Option-cases, if◌then◌else◌,
}
use verification_tooling.BTreeMap
use verification_tooling.BTreeMap.{BTreeMap}
use verification_tooling.BTreeMap.Laws.{IsSorted, get-insert, insert-IsSorted}
use verification_tooling.BTreeSet.{contains}
use verification_tooling.Types.Records.{GatewayLeaf}
use verification_tooling.Types.Audit.{EpochStatement, TaskProgram, ZkTorchStatement}
use verification_tooling.Relation.Task.{
  Slots, entry, both, zktorch_statement, collect_statements, binding_invalid, check_bindings,
}

module _ (epoch : EpochStatement) (program : TaskProgram) (g : BTreeMap Slots) where
  -- The statement that the leaves of a task determine.
  abbrev pub statement_of : Text → Option ZkTorchStatement
  statement_of t = elim (both (entry g t)) [
    | none ↦ none
    | some (i, e) ↦ some (zktorch_statement epoch program t i e)
  ]

  abbrev pub HasBoth : List Text → Type 0
  HasBoth [] = Unit
  HasBoth (t ∷ ts) = (both (entry g t) ≢ none) × HasBoth ts

  -- The derived map: the statements of the listed tasks, over what was collected before.
  pub collect_statements_lem :
      (acc : BTreeMap ZkTorchStatement) (ts : List Text)
      → HasBoth ts
      → IsSorted (BTreeMap.keys acc)
      → (m : BTreeMap ZkTorchStatement) × (collect_statements epoch program g acc ts ≡ ok m)
        × IsSorted (BTreeMap.keys m)
        × ((t : Text)
            → BTreeMap.get m t ≡ (if contains ts t then statement_of t else BTreeMap.get acc t))
  unfolding collect_statements contains
  collect_statements_lem acc [] h s = (acc, refl, s, λ t. refl)
  collect_statements_lem acc (t ∷ ts) h s = elim (Option-cases (both (entry g t))) [
    | inl e ↦ absurd (h.0 e)
    | inr ((i, e), p) ↦
        let st = zktorch_statement epoch program t i e in
        let (m, q, s', look) =
          collect_statements_lem (BTreeMap.insert t st acc) ts h.1 (insert-IsSorted t st acc s) in
        (m, rw p q, s', λ k. ground (arith, look k, get-insert t k st acc))
  ]

  pub HasBoth-of_contains :
      (ts : List Text) → ((t : Text) → contains ts t ≡ true → both (entry g t) ≢ none) → HasBoth ts
  unfolding contains
  HasBoth-of_contains [] h = tt
  HasBoth-of_contains (t ∷ ts) h =
      (h t (ground arith), HasBoth-of_contains ts (λ u c. h u (ground arith)))

  binding_valid :
      (t : Text) (i e : GatewayLeaf) (st : ZkTorchStatement)
      → binding_invalid epoch program t i e st ≡ false
      → st ≡ zktorch_statement epoch program t i e
  unfolding binding_invalid zktorch_statement
  binding_valid t i e st h = ground arith

  binding_invalid_self :
      (t : Text) (i e : GatewayLeaf)
      → binding_invalid epoch program t i e (zktorch_statement epoch program t i e) ≡ false
  unfolding binding_invalid zktorch_statement
  binding_invalid_self t i e = ground arith

  -- An accepted set holds for each sampled task the statement that its leaves determine.
  pub check_bindings_sound :
      (ss : BTreeMap ZkTorchStatement) (ts : List Text) (t : Text)
      → check_bindings epoch program g ss ts ≡ ok tt
      → contains ts t ≡ true
      → (BTreeMap.get ss t ≡ statement_of t) × (both (entry g t) ≢ none)
  unfolding check_bindings contains
  check_bindings_sound ss [] t h c = cc
  check_bindings_sound ss (u ∷ ts) t h c = elim (Option-cases (BTreeMap.get ss u)) [
    | inl missing ↦ ground arith
    | inr (st, found) ↦ elim (Option-cases (both (entry g u))) [
      | inl none_both ↦ ground arith
      | inr ((i, e), p) ↦ ground (arith, binding_valid u i e st, check_bindings_sound ss ts t)
    ]
  ]

  pub check_bindings_complete :
      (ss : BTreeMap ZkTorchStatement) (ts : List Text)
      → HasBoth ts
      → ((t : Text) → contains ts t ≡ true → BTreeMap.get ss t ≡ statement_of t)
      → check_bindings epoch program g ss ts ≡ ok tt
  unfolding check_bindings contains
  check_bindings_complete ss [] h all = refl
  check_bindings_complete ss (u ∷ ts) h all = elim (Option-cases (both (entry g u))) [
    | inl e ↦ absurd (h.0 e)
    | inr ((i, e), p) ↦ ground (
      arith,
      all u,
      binding_invalid_self u i e,
      check_bindings_complete ss ts h.1 (λ t c. all t (ground arith)),
    )
  ]
