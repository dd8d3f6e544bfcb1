-- ===== src/Committer/Laws.antt =====
-- About the commitment service of proofs/zktorch-committer/src/main.rs.
use verification_tooling.Prelude.{
  ℕ, ◌*◌, List, [], ◌∷◌, Bytes, Text, length, Option-cases, some, ok, result_cases, ◌≡◌, inl, inr,
  refl, ◌∙◌, arith, ok_or-some,
}
use verification_tooling.Types.Records.{Hash32, hash32_eq, Hash32-discrete, Direction}
use verification_tooling.Types.Audit.{QuantizedTensor}
use verification_tooling.Primitives.{Primitives}
use verification_tooling.Commitment.{task_artifact_id}
use verification_tooling.Committer.{
  ShapeSpec, TensorSpec, missing_header, TensorLibrary, CommitterState, CommitRequest, opening_of,
  exists, count_elements, validate_tensor, direction_of, spec_for, Prepared, prepare, store,
  commit_inner, commit_all,
}

abbrev pub product : List ℕ → ℕ
product [] = 1
product (d ∷ ds) = d * product ds

count_elements_lem :
    (total n : ℕ) (ds : List ℕ) → count_elements total ds ≡ ok n → n ≡ total * product ds
unfolding count_elements
count_elements_lem total n [] h = ground arith
count_elements_lem total n (d ∷ ds) h =
    let rest = count_elements_lem (total * d) n ds (ground arith) in omega (arith, rest)

validate_tensor_lem :
    (tensor : QuantizedTensor) (spec : ShapeSpec)
    → validate_tensor tensor spec ≡ ok tt
    → (tensor.shape ≡ spec.shape)
      × (tensor.scale_log2 ≡ spec.scale_log2)
      × (product tensor.shape ≡ length tensor.values)
unfolding validate_tensor
validate_tensor_lem tensor spec h = elim (result_cases (count_elements 1 tensor.shape)) [
  | inr (e, failed) ↦ absurd (ground arith)
  | inl (n, counted) ↦
      let whole = count_elements_lem 1 n tensor.shape counted in
      (ground arith, ground arith, ground (arith, whole, counted))
]

-- What stands behind a prepared commitment: the identity of the headers, and a tensor of the specified
-- shape in its canonical encoding.
pub record Canonical (x : Primitives) (library : TensorLibrary) (spec : TensorSpec)
    (request : CommitRequest) (p : Prepared) : Type 0 where
  pub epoch : Text
  pub task : Text
  pub name : Text
  pub direction : Direction
  pub tensor : QuantizedTensor
  pub epoch_given : request.headers.epoch ≡ some epoch
  pub task_given : request.headers.task ≡ some task
  pub direction_given : request.headers.direction ≡ some name
  pub direction_known : direction_of name ≡ some direction
  pub identified : p.identity ≡ task_artifact_id x epoch task direction
  pub parsed : library.parse request.body ≡ some tensor
  pub printed : library.print tensor ≡ some request.body
  pub shaped : tensor.shape ≡ (spec_for spec direction).shape
  pub scaled : tensor.scale_log2 ≡ (spec_for spec direction).scale_log2
  pub full : product tensor.shape ≡ length tensor.values
  pub committed : library.data_of tensor.shape tensor.values ≡ some (p.opening, p.encoded)

module _ (x : Primitives) (library : TensorLibrary) where
  pub prepare-Canonical :
      (spec : TensorSpec) (r : CommitRequest) (p : Prepared)
      → prepare x library spec r ≡ ok p
      → Canonical x library spec r p
  unfolding prepare
  prepare-Canonical spec r p h =
      let (epoch, e1, h1) = ok_or-some r.headers.epoch missing_header _ p h in
      let (task, e2, h2) = ok_or-some r.headers.task missing_header _ p h1 in
      let (name, e3, h3) = ok_or-some r.headers.direction missing_header _ p h2 in
      elim (Option-cases (direction_of name)) [
        | inl e ↦ absurd (ground arith)
        | inr (direction, e4) ↦ elim (Option-cases (library.parse r.body)) [
          | inl e ↦ absurd (ground arith)
          | inr (tensor, e5) ↦ elim (Option-cases (library.print tensor)) [
            | inl e ↦ absurd (ground arith)
            | inr (canonical, e6) ↦
                let valid = validate_tensor_lem tensor (spec_for spec direction) (ground arith) in
                elim (Option-cases (library.data_of tensor.shape tensor.values)) [
                  | inl e ↦ absurd (ground arith)
                  | inr (found, e7) ↦ record {
                    epoch = epoch;
                    task = task;
                    name = name;
                    direction = direction;
                    tensor = tensor;
                    epoch_given = e1;
                    task_given = e2;
                    direction_given = e3;
                    direction_known = e4;
                    identified = ground arith;
                    parsed = e5;
                    printed = ground arith;
                    shaped = valid.0;
                    scaled = valid.1;
                    full = valid.2;
                    committed = ground arith;
                  }
                ]
          ]
        ]
      ]

  store_keeps :
      (s : CommitterState) (r : CommitRequest) (p : Prepared) (id : Hash32) (o : Bytes)
      → opening_of s.openings id ≡ some o
      → opening_of (store x library s r p).1.openings id ≡ some o
  unfolding store opening_of exists
  store_keeps s r p id o h = elim (Hash32-discrete p.identity id) [
    | yes e ↦ ground (arith, e)
    | no ne ↦ ground (arith, ne)
  ]

  commit_inner_keeps :
      (s : CommitterState) (r : CommitRequest) (id : Hash32) (o : Bytes)
      → opening_of s.openings id ≡ some o
      → opening_of (commit_inner x library s r).1.openings id ≡ some o
  unfolding commit_inner
  commit_inner_keeps s r id o h = elim (result_cases (prepare x library s.spec r)) [
    | inr (e, failed) ↦ ground arith
    | inl (p, prepared) ↦ ground (arith, store_keeps s r p id o h)
  ]

  pub commit_all_keeps :
      (s : CommitterState) (rs : List CommitRequest) (id : Hash32) (o : Bytes)
      → opening_of s.openings id ≡ some o
      → opening_of (commit_all x library s rs).openings id ≡ some o
  unfolding commit_all
  commit_all_keeps s [] id o h = h
  commit_all_keeps s (r ∷ rs) id o h =
      commit_all_keeps (commit_inner x library s r).1 rs id o (commit_inner_keeps s r id o h)

  pub same_identity :
      (spec : TensorSpec) (r q : CommitRequest) (p : Prepared) (o : Prepared)
      → q.headers ≡ r.headers
      → prepare x library spec r ≡ ok p
      → prepare x library spec q ≡ ok o
      → o.identity ≡ p.identity
  same_identity spec r q p o e hr hq =
      let a = prepare-Canonical spec r p hr in
      let b = prepare-Canonical spec q o hq in
      let ea = a.identified in
      let eb = b.identified in
      let epochs : a.epoch ≡ b.epoch = ground (arith, a.epoch_given, b.epoch_given, e) in
      let tasks : a.task ≡ b.task = ground (arith, a.task_given, b.task_given, e) in
      let names : a.name ≡ b.name = ground (arith, a.direction_given, b.direction_given, e) in
      let directions : a.direction ≡ b.direction =
        ground (arith, a.direction_known, b.direction_known, names) in
      cc (ea, eb, epochs, tasks, directions)

  pub kept_spec :
      (s : CommitterState) (rs : List CommitRequest) → (commit_all x library s rs).spec ≡ s.spec
  unfolding commit_all commit_inner store
  kept_spec s [] = refl
  kept_spec s (r ∷ rs) = kept_spec (commit_inner x library s r).1 rs ∙ step
    where
      step : (commit_inner x library s r).1.spec ≡ s.spec
      step = ground arith
