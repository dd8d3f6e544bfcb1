-- ===== src/Tests/Soundness.antt =====
-- The audit bundle of the other tests through a verifier that proves these two statements alone.
use verification_tooling.Prelude.{[], ◌∷◌, ◌≡◌, refl, arith, some, none, ite, ok, ℕ_discrete}
use verification_tooling.Types.Audit.{PodPublicStatement, TaskPublicStatement, paper_compliant}
use verification_tooling.Crypto.{sign_audit_contract, sign_erasure_certificate, sign_gateway_root}
use verification_tooling.Crypto.Laws.{verify-sign_records}
use verification_tooling.Relation.Pod.{pod_public_statement}
use verification_tooling.Relation.Pod.Laws.{pod_outcome}
use verification_tooling.Relation.Task.{task_public_statement}
use verification_tooling.Verifier.{
  Json, SerdeJson, validate_artifact, verify_task_proofs, verify_audit_bundle,
}
use verification_tooling.Verifier.Soundness.{IsSound, Monitored, verify_audit_bundle-Monitored}
use verification_tooling.Tests.Toy.{toy, toy-IsSignatureScheme, key}
use verification_tooling.Tests.Relations.{
  pod_input, task_input, task_outcome, accepted, pod_accepted,
}
use verification_tooling.Tests.Verifier.{verifier, pod, task, bundle, proofs_complete}

pod_discrete : Discrete PodPublicStatement
pod_discrete = hlevel ℕ_discrete

task_discrete : Discrete TaskPublicStatement
task_discrete = hlevel ℕ_discrete

abbrev json : SerdeJson
json = record {
  pod_statement = λ s. ite (pod_discrete s pod) (some (1 ∷ [])) none;
  task_statement = λ s. ite (task_discrete s task) (some (2 ∷ [])) none;
  zktorch_statement = λ s. some s.task_id;
  cupow_statement = λ s. none;
}

pod_written : json.pod_statement pod ≡ some (1 ∷ [])
pod_written = ground arith

task_written : json.task_statement task ≡ some (2 ∷ [])
task_written = ground arith

only_pod : (s : PodPublicStatement) (v : Json) → json.pod_statement s ≡ some v → pod ≡ s
only_pod s v e = ground arith

only_task : (s : TaskPublicStatement) (v : Json) → json.task_statement s ≡ some v → task ≡ s
only_task s v e = ground arith

verifier-IsSound : IsSound toy json verifier
unfolding pod_public_statement task_public_statement
verifier-IsSound = record {
  pod_sound = λ a s v e q. (pod_input, pod_outcome pod_input, only_pod s v e, pod_accepted);
  task_sound = λ a s v e q. (task_input, task_outcome, only_task s v e, accepted);
}

bundle_accepted : verify_audit_bundle toy json verifier bundle key key ≡ ok paper_compliant
unfolding verify_audit_bundle verify_task_proofs validate_artifact pod_public_statement
    task_public_statement sign_audit_contract sign_erasure_certificate sign_gateway_root
bundle_accepted =
    let signed = verify-sign_records toy toy-IsSignatureScheme key in
    ground (
      arith,
      pod_written,
      task_written,
      proofs_complete,
      signed.0 pod.gateway_root.statement,
      signed.1 bundle.audit_contract.contract,
      signed.2 pod.erasure.certificate,
    )

verify_audit_bundle-Monitored_example : Monitored toy bundle
unfolding task_public_statement
verify_audit_bundle-Monitored_example =
    verify_audit_bundle-Monitored toy json verifier bundle key key paper_compliant (λ m. refl)
      (λ leaf. omega arith) verifier-IsSound (tt, tt) bundle_accepted
