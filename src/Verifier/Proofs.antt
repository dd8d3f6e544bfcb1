-- ===== src/Verifier/Proofs.antt =====
-- About `validate_task_proof_set` of crates/pocomp-verifier/src/lib.rs.
use verification_tooling.Prelude.{
  suc, List, [], ◌∷◌, map, true, false, Text, ◌==◌, nat_eq, bytes_eq, length, length-map, ◌≡◌, refl,
  arith, Option, none, some, if◌then◌else◌, ok,
}
use verification_tooling.BTreeMap
use verification_tooling.BTreeMap.{BTreeMap}
use verification_tooling.BTreeSet
use verification_tooling.BTreeSet.{contains}
use verification_tooling.BTreeSet.Laws.{contains-keys, contains-insert}
use verification_tooling.Types.Audit.{ZkTorchStatement, TaskProof}
use verification_tooling.Verifier.{check_task_proofs, validate_task_proof_set}

erase : Text → List Text → List Text
erase k [] = []
erase k (j ∷ ks) = if j == k then ks else j ∷ erase k ks

length-erase :
    (k : Text) (ks : List Text) → contains ks k ≡ true → suc (length (erase k ks)) ≡ length ks
unfolding erase contains
length-erase k [] h = ground arith
length-erase k (j ∷ ks) h = ground (arith, length-erase k ks)

contains-erase :
    (k j : Text) (ks : List Text)
    → contains ks j ≡ true
    → (j == k) ≡ false
    → contains (erase k ks) j ≡ true
unfolding erase contains
contains-erase k j [] h n = ground arith
contains-erase k j (i ∷ ks) h n = ground (arith, contains-erase k j ks)

-- No text occurs twice.
abbrev Distinct : List Text → Type 0
Distinct [] = Unit
Distinct (k ∷ ks) = (contains ks k ≡ false) × Distinct ks

abbrev Within : List Text → List Text → Type 0
Within ks [] = Unit
Within ks (j ∷ js) = (contains ks j ≡ true) × Within ks js

Within-erase :
    (k : Text) (ks js : List Text) → Within ks js → contains js k ≡ false → Within (erase k ks) js
unfolding contains
Within-erase k ks [] w h = tt
Within-erase k ks (j ∷ js) w h =
    (contains-erase k j ks w.0 (ground arith), Within-erase k ks js w.1 (ground arith))

-- Distinct members, as many as the whole list has, are all of it.
pigeonhole :
    (ks js : List Text) (t : Text)
    → Distinct js
    → Within ks js
    → length ks ≡ length js
    → contains ks t ≡ true
    → contains js t ≡ true
unfolding contains
pigeonhole [] [] t d w n h = h
pigeonhole (k ∷ ks) [] t d w n h = absurd (omega arith)
pigeonhole ks (j ∷ js) t d w n h = ground (
  arith,
  length-erase j ks,
  contains-erase j t ks,
  Within-erase j ks js,
  pigeonhole (erase j ks) js t,
)

abbrev ids : List TaskProof → List Text
ids = map (λ p. p.statement.task_id)

-- The statements that the proofs of a task carry.
unfoldable pub statements_of : Text → List TaskProof → List ZkTorchStatement
statements_of t [] = []
statements_of t (p ∷ proofs) =
    if p.statement.task_id == t
    then p.statement ∷ statements_of t proofs
    else statements_of t proofs

abbrev pub to_list {ℓ} : {A : Type ℓ} → Option A → List A
to_list none = []
to_list (some a) = a ∷ []

module _ (expected : BTreeMap ZkTorchStatement) where
  unseen :
      (seen : List Text) (proofs : List TaskProof) (t : Text)
      → check_task_proofs expected seen proofs ≡ ok tt
      → contains seen t ≡ true
      → (contains (ids proofs) t ≡ false) × (statements_of t proofs ≡ [])
  unfolding check_task_proofs contains statements_of
  unseen seen [] t h c = (refl, refl)
  unseen seen (p ∷ proofs) t h c = ground (
    arith,
    contains-insert p.statement.task_id t seen,
    unseen (BTreeSet.insert p.statement.task_id seen) proofs t,
  )

  ids-Distinct :
      (seen : List Text) (proofs : List TaskProof)
      → check_task_proofs expected seen proofs ≡ ok tt
      → Distinct (ids proofs) × Within (BTreeMap.keys expected) (ids proofs)
  unfolding check_task_proofs
  ids-Distinct seen [] h = (tt, tt)
  ids-Distinct seen (p ∷ proofs) h =
      let t = p.statement.task_id in
      ground (
        arith,
        contains-insert t t seen,
        unseen (BTreeSet.insert t seen) proofs t,
        contains-keys expected t,
        ids-Distinct (BTreeSet.insert t seen) proofs,
      )

  statements_expected :
      (seen : List Text) (proofs : List TaskProof) (t : Text)
      → check_task_proofs expected seen proofs ≡ ok tt
      → statements_of t proofs
        ≡ (if contains (ids proofs) t then to_list (BTreeMap.get expected t) else [])
  unfolding check_task_proofs contains statements_of
  statements_expected seen [] t h = refl
  statements_expected seen (p ∷ proofs) t h =
      let i = p.statement.task_id in
      ground (
        arith,
        contains-insert i t seen,
        unseen (BTreeSet.insert i seen) proofs t,
        statements_expected (BTreeSet.insert i seen) proofs t,
      )

  -- In an accepted set of task proofs, the statements of the proofs of a task are the one
  -- statement that the expected map has for it, or none where the map has none: each expected
  -- task has exactly one proof, and no other task has any.
  pub validate_task_proof_set-statements_of :
      (proofs : List TaskProof) (t : Text)
      → validate_task_proof_set expected proofs ≡ ok tt
      → statements_of t proofs ≡ to_list (BTreeMap.get expected t)
  unfolding validate_task_proof_set
  validate_task_proof_set-statements_of proofs t h = ground (
    arith,
    ids-Distinct [] proofs,
    statements_expected [] proofs t,
    contains-keys expected t,
    length-map (λ e. e.0) expected,
    length-map (λ p. p.statement.task_id) proofs,
    pigeonhole (BTreeMap.keys expected) (ids proofs) t,
  )
