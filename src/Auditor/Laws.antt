-- ===== src/Auditor/Laws.antt =====
-- About the auditor of crates/pocomp-cupow-auditor/src/main.rs: its state after any requests.
use verification_tooling.Prelude.{
  ℕ, List, [], ◌∷◌, Bool, true, false, Bytes, nat_eq, bytes_eq, none, some, ok, err, result_cases,
  Option-cases, inl, inr, ◌≡◌, ◌≢◌, refl, arith,
}
use verification_tooling.Types.{cupow_protocol_version}
use verification_tooling.Types.Records.{Hash32, hash32_eq}
use verification_tooling.Types.CuPow.{
  CuPowCompletion, CuPowPublicStatement, SignedCuPowChallenge, SignedCuPowCompletion,
  SignedCuPowContract,
}
use verification_tooling.Primitives.{Primitives, IsSignatureScheme}
use verification_tooling.Crypto.{
  sign_cupow_challenge, sign_cupow_completion, verify_cupow_challenge_signature,
  verify_cupow_completion_signature,
}
use verification_tooling.Crypto.Laws.{verify-sign_records}
use verification_tooling.CuPow.Relation.{
  profile_invalid, policy_invalid, epoch_invalid, total_work, challenge_invalid, completion_invalid,
  evaluate_capacity, evaluate_cupow_relation,
}
use verification_tooling.CuPow.{challenge_error, completion_error}
use verification_tooling.CuPow.Relation.Capacity.{agreed}
use verification_tooling.Auditor.{
  AuditorState, challenge_already_issued, issue_challenge_at, accept_completion, Request,
  request_challenge, request_complete, handle, serve, startup,
}

-- What the stored records of the auditor satisfy.
record Sound (x : Primitives) (s : AuditorState) : Type 0 where
  issued :
      (c : SignedCuPowChallenge)
      → s.challenge ≡ some c
      → (c ≡ sign_cupow_challenge x c.challenge s.signing_key)
        × (challenge_invalid x s.contract.contract c.challenge ≡ false)
  accepted :
      (c : SignedCuPowChallenge) (d : SignedCuPowCompletion)
      → s.challenge ≡ some c
      → s.completion ≡ some d
      → (d ≡ sign_cupow_completion x d.completion s.signing_key)
        × (completion_invalid x s.contract.contract c.challenge
              s.contract.contract.manifest.security_work_f251_macs d.completion
            ≡ false)
  ordered : s.challenge ≡ none → s.completion ≡ none

module _ (x : Primitives) where
  issue_challenge_at-Sound :
      (journaled : Bool) (s s' : AuditorState) (now : ℕ) (seed : Hash32) (c : SignedCuPowChallenge)
      → issue_challenge_at x journaled s now seed ≡ ok (s', c)
      → Sound x s
      → Sound x s'
  unfolding issue_challenge_at challenge_invalid sign_cupow_challenge
  issue_challenge_at-Sound journaled s s' now seed c h v = record {
    issued = λ c' e. ground arith;
    accepted = λ c' d e f. ground (arith, v.ordered);
    ordered = λ e. ground arith;
  }

  accept_completion-Sound :
      (journaled : Bool) (s s' : AuditorState) (completion : CuPowCompletion) (now : ℕ)
      (d : SignedCuPowCompletion)
      → accept_completion x journaled s completion now ≡ ok (s', d)
      → Sound x s
      → Sound x s'
  unfolding accept_completion completion_invalid sign_cupow_completion
  accept_completion-Sound journaled s s' completion now d h v = elim (Option-cases s.challenge) [
    | inl missing ↦ absurd (ground arith)
    | inr (c, found) ↦ record {
      issued = λ c' e. ground (arith, v.issued c');
      accepted = λ c' d' e f. ground arith;
      ordered = λ e. ground arith;
    }
  ]

  handle-Sound : (s : AuditorState) (r : Request) → Sound x s → Sound x (handle x s r)
  unfolding handle
  handle-Sound s (request_challenge none seed journaled) v = v
  handle-Sound s (request_challenge (some now) seed journaled) v =
      elim (result_cases (issue_challenge_at x journaled s now seed)) [
        | inl ((s', c), p) ↦ rw (handle, p) (issue_challenge_at-Sound journaled s s' now seed c p v)
        | inr (e, p) ↦ rw (handle, p) v
      ]
  handle-Sound s (request_complete completion none journaled) v = v
  handle-Sound s (request_complete completion (some now) journaled) v =
      elim (result_cases (accept_completion x journaled s completion now)) [
        | inl ((s', d), p) ↦
            rw (handle, p) (accept_completion-Sound journaled s s' completion now d p v)
        | inr (e, p) ↦ rw (handle, p) v
      ]

  serve-Sound : (s : AuditorState) (rs : List Request) → Sound x s → Sound x (serve x s rs)
  unfolding serve
  serve-Sound s [] v = v
  serve-Sound s (r ∷ rs) v = serve-Sound (handle x s r) rs (handle-Sound s r v)

  handle_fixed :
      (s : AuditorState) (r : Request)
      → ((handle x s r).contract ≡ s.contract) × ((handle x s r).signing_key ≡ s.signing_key)
  unfolding handle issue_challenge_at accept_completion
  handle_fixed s (request_challenge none seed journaled) = (refl, refl)
  handle_fixed s (request_challenge (some now) seed journaled) = ground arith
  handle_fixed s (request_complete completion none journaled) = (refl, refl)
  handle_fixed s (request_complete completion (some now) journaled) = ground arith

  serve_fixed :
      (s : AuditorState) (rs : List Request)
      → ((serve x s rs).contract ≡ s.contract) × ((serve x s rs).signing_key ≡ s.signing_key)
  unfolding serve
  serve_fixed s [] = (refl, refl)
  serve_fixed s (r ∷ rs) = ground (arith, serve_fixed (handle x s r) rs, handle_fixed s r)

  handle_kept :
      (s : AuditorState) (r : Request) (c : SignedCuPowChallenge)
      → s.challenge ≡ some c
      → (handle x s r).challenge ≡ some c
  unfolding handle issue_challenge_at accept_completion
  handle_kept s (request_challenge none seed journaled) c h = h
  handle_kept s (request_challenge (some now) seed journaled) c h = ground arith
  handle_kept s (request_complete completion none journaled) c h = h
  handle_kept s (request_complete completion (some now) journaled) c h = ground arith

  serve_kept :
      (s : AuditorState) (rs : List Request) (c : SignedCuPowChallenge)
      → s.challenge ≡ some c
      → (serve x s rs).challenge ≡ some c
  unfolding serve
  serve_kept s [] c h = h
  serve_kept s (r ∷ rs) c h = serve_kept (handle x s r) rs c (handle_kept s r c h)

  -- After a challenge has been issued and any further requests, the auditor holds the same
  -- challenge and refuses to issue another.
  pub issue_challenge_at-once :
      (journaled : Bool) (s s' : AuditorState) (now : ℕ) (seed : Hash32) (c : SignedCuPowChallenge)
      (rs : List Request) (journaled' : Bool) (now' : ℕ) (seed' : Hash32)
      → issue_challenge_at x journaled s now seed ≡ ok (s', c)
      → ((serve x s' rs).challenge ≡ some c)
        × (issue_challenge_at x journaled' (serve x s' rs) now' seed'
            ≡ err challenge_already_issued)
  unfolding issue_challenge_at
  issue_challenge_at-once journaled s s' now seed c rs journaled' now' seed' h =
      let kept = serve_kept s' rs c (ground arith) in (kept, rw kept refl)

  serve-Sound-startup :
      (contract : SignedCuPowContract) (key : Bytes) (rs : List Request)
      → Sound x (serve x (startup contract key) rs)
  serve-Sound-startup contract key rs = serve-Sound (startup contract key) rs (record {
    issued = λ c e. ground arith;
    accepted = λ c d e f. ground arith;
    ordered = λ e. refl;
  })

module _ (x : Primitives) (contract : SignedCuPowContract) (key : Bytes) (rs : List Request)
    (c : SignedCuPowChallenge) (d : SignedCuPowCompletion) where
  -- For a signature scheme whose signatures verify, the challenge and the completion that an
  -- auditor holds after any requests since its start verify under its public key.
  pub serve-signed :
      IsSignatureScheme x.ed25519
      → (serve x (startup contract key) rs).challenge ≡ some c
      → (serve x (startup contract key) rs).completion ≡ some d
      → (verify_cupow_challenge_signature x c (x.ed25519.verifying_key key) ≡ true)
        × (verify_cupow_completion_signature x d (x.ed25519.verifying_key key) ≡ true)
  serve-signed scheme hc hd =
      let v = serve-Sound-startup x contract key rs in
      let fixed = serve_fixed x (startup contract key) rs in
      let laws = verify-sign_records x scheme key in
      let sc = (v.issued c hc).0 in
      let sd = (v.accepted c d hc hd).0 in
      let ec : c ≡ sign_cupow_challenge x c.challenge key = ground arith in
      let ed : d ≡ sign_cupow_completion x d.completion key = ground arith in
      (rw ec (laws.5 c.challenge), rw ed (laws.6 d.completion))

  -- For a statement of the current version with the contract, challenge and completion that an
  -- auditor holds after any requests since its start, over a contract with valid profile, policy,
  -- epoch, counted work, a named workload and at least one item, the cuPOW relation gives what
  -- its capacity and erasure checks give, whether they accept or refuse, and so never the error
  -- of the challenge or the error of the completion.
  pub serve-evaluate_cupow_relation :
      (s : CuPowPublicStatement)
      → s.protocol_version ≡ cupow_protocol_version
      → s.contract ≡ contract
      → s.challenge ≡ c
      → s.completion ≡ d
      → profile_invalid contract.contract ≡ false
      → policy_invalid contract.contract.policy ≡ false
      → epoch_invalid x contract.contract ≡ false
      → total_work contract.contract.policy 0 [] contract.contract.manifest.items
        ≡ ok contract.contract.manifest.security_work_f251_macs
      → contract.contract.manifest.workload_id ≢ []
      → contract.contract.manifest.items ≢ []
      → (serve x (startup contract key) rs).challenge ≡ some c
      → (serve x (startup contract key) rs).completion ≡ some d
      → (evaluate_cupow_relation x s
          ≡ evaluate_capacity contract.contract s.erasure.certificate
              contract.contract.manifest.security_work_f251_macs)
        × (evaluate_cupow_relation x s ≢ err challenge_error)
        × (evaluate_cupow_relation x s ≢ err completion_error)
  unfolding evaluate_cupow_relation
  serve-evaluate_cupow_relation s pv ec eh ed prof pol epo work wid items hc hd =
      let v = serve-Sound-startup x contract key rs in
      let fixed = serve_fixed x (startup contract key) rs in
      let challenge_ok = (v.issued c hc).1 in
      let completion_ok = (v.accepted c d hc hd).1 in
      agreed contract.contract s.erasure.certificate
        contract.contract.manifest.security_work_f251_macs (evaluate_cupow_relation x s)
        (ground arith)
