-- ===== src/Committer/Once.antt =====
-- About the identities that the service of proofs/zktorch-committer/src/main.rs has used.
use verification_tooling.Prelude.{
  List, [], ◌∷◌, Bool-cases, Bytes, some, ok, err, result_cases, ◌≡◌, inl, inr, ◌∙◌, arith,
}
use verification_tooling.Types.Records.{hash32_eq, ContentCommitment, zktorch_kzg_bn254_v1}
use verification_tooling.Primitives.{Primitives}
use verification_tooling.Commitment.{hash_bytes}
use verification_tooling.Committer.{
  CommitError, identity_used, no_directory, TensorLibrary, CommitterState, CommitRequest,
  opening_of, exists, Prepared, prepare, store, commit_inner, commit_all,
}
use verification_tooling.Committer.Laws.{
  Canonical, prepare-Canonical, same_identity, kept_spec, commit_all_keeps,
}

module _ (x : Primitives) (library : TensorLibrary) where
  -- What a successful commitment leaves behind.
  pub record CommittedOnce (s : CommitterState) (r : CommitRequest) (c : ContentCommitment)
      (rs : List CommitRequest) (q : CommitRequest) : Type 0 where
    pub prepared : Prepared
    pub canonical : Canonical x library s.spec r prepared
    pub commitment_same :
        c ≡ record { scheme = zktorch_kzg_bn254_v1; digest = hash_bytes x prepared.encoded }
    pub opening_kept :
        opening_of
          (commit_all x library (commit_inner x library s r).1 rs).openings
          prepared.identity
        ≡ some prepared.opening
    pub refused : CommitError
    pub refuses :
        (commit_inner x library (commit_all x library (commit_inner x library s r).1 rs) q).0
        ≡ err refused

  stored :
      (s : CommitterState) (r : CommitRequest) (p : Prepared) (c : ContentCommitment)
      → (store x library s r p).0 ≡ ok c
      → (c ≡ record { scheme = zktorch_kzg_bn254_v1; digest = hash_bytes x p.encoded })
        × (opening_of (store x library s r p).1.openings p.identity ≡ some p.opening)
  unfolding store opening_of
  stored s r p c h = (ground arith, ground arith)

  refused_again :
      (s : CommitterState) (q : CommitRequest) (p : Prepared) (o : Bytes)
      → opening_of s.openings p.identity ≡ some o
      → (e : CommitError) × ((store x library s q p).0 ≡ err e)
  unfolding store exists
  refused_again s q p o h = elim (Bool-cases q.directory) [
    | inl there ↦ (identity_used, ground (arith, there, h))
    | inr missing ↦ (no_directory, ground (arith, missing))
  ]

  one_spec : (s : CommitterState) (r : CommitRequest) → (commit_inner x library s r).1.spec ≡ s.spec
  unfolding commit_inner commit_all
  one_spec s r = kept_spec x library s (r ∷ [])

  again :
      (s : CommitterState) (r q : CommitRequest) (p : Prepared) (after : CommitterState)
      (rs : List CommitRequest)
      → prepare x library s.spec r ≡ ok p
      → q.headers ≡ r.headers
      → after.spec ≡ s.spec
      → opening_of (commit_all x library after rs).openings p.identity ≡ some p.opening
      → (e : CommitError) × ((commit_inner x library (commit_all x library after rs) q).0 ≡ err e)
  unfolding commit_inner
  again s r q p after rs hp same fixed kept =
      let now = commit_all x library after rs in
      let spec : now.spec ≡ s.spec = kept_spec x library after rs ∙ fixed in
      elim (result_cases (prepare x library now.spec q)) [
        | inr (e, failed) ↦ (e, ground (arith, failed))
        | inl (o, ho) ↦
            let identity : o.identity ≡ p.identity =
              same_identity x library s.spec r q p o same hp (ground (arith, ho, spec)) in
            let (e, refusal) = refused_again now q o p.opening (ground (arith, kept, identity)) in
            (e, ground (arith, ho, refusal))
      ]

  -- A successful commitment is to a tensor in its canonical encoding, with the specified shape
  -- and as many values as the product of its dimensions, and reports the digest of its data;
  -- after any further requests its opening is unchanged, and each request with the same headers
  -- fails.
  pub commit_inner-once :
      (s : CommitterState) (r : CommitRequest) (c : ContentCommitment) (rs : List CommitRequest)
      (q : CommitRequest)
      → (commit_inner x library s r).0 ≡ ok c
      → q.headers ≡ r.headers
      → CommittedOnce s r c rs q
  unfolding commit_inner
  commit_inner-once s r c rs q h same = elim (result_cases (prepare x library s.spec r)) [
    | inr (e, failed) ↦ absurd (ground arith)
    | inl (p, hp) ↦
        let first = stored s r p c (ground arith) in
        let after = (commit_inner x library s r).1 in
        let there : opening_of after.openings p.identity ≡ some p.opening =
          ground (arith, hp, first.1) in
        let kept = commit_all_keeps x library after rs p.identity p.opening there in
        let (e, refusal) = again s r q p after rs hp same (one_spec s r) kept in
        record {
          prepared = p;
          canonical = prepare-Canonical x library s.spec r p hp;
          commitment_same = first.0;
          opening_kept = kept;
          refused = e;
          refuses = refusal;
        }
  ]
