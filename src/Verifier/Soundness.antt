-- ===== src/Verifier/Soundness.antt =====
-- About `verify_audit_bundle` and the relations behind its statements, for a sound proof system.
use verification_tooling.Prelude.{
  ◌<◌, ◌^◌, List, [], ◌∷◌, map, Bytes, Text, length, ◌≡◌, ◌⊎◌, sym, ◌∙◌, ap, some, ok,
}
use verification_tooling.BTreeMap
use verification_tooling.BTreeMap.Laws.{IsSorted}
use verification_tooling.Types.Records.{GatewayLeaf}
use verification_tooling.Types.Audit.{
  PodPublicStatement, TaskPublicStatement, ProofArtifact, AuditBundle, Assurance, PodRelationInput,
  TaskRelationInput, RelationOutcome,
}
use verification_tooling.Primitives.{Primitives}
use verification_tooling.Commitment.{commitment}
use verification_tooling.Commitment.Separation.{Collision}
use verification_tooling.Commitment.Binding.{HasDigests, Encodable, gateway_root-injective}
use verification_tooling.Relation.Pod.{pod_public_statement, evaluate_pod_relation}
use verification_tooling.Relation.Pod.Laws.{PodCompliant, evaluate_pod_relation_iff}
use verification_tooling.Relation.Task.{
  task_public_statement, evaluate_task_relation, sampled_zktorch_statements,
}
use verification_tooling.Relation.Task.Laws.{
  TaskPaired, evaluate_task_relation-GatewayValid, evaluate_task_relation-TaskPaired,
  sampled_zktorch_statements-evaluate_task_relation,
}
use verification_tooling.Verifier.{
  Json, ProofVerifier, SerdeJson, sp1_backend, sp1_version, verify_audit_bundle,
}
use verification_tooling.Verifier.Laws.{verify_audit_bundle-AuditAccepted}

-- Soundness of the proofs of both relation programs: an accepted proof of a public statement has a
-- private input with that statement on which the program succeeds.
pub record IsSound (x : Primitives) (json : SerdeJson) (verifier : ProofVerifier) : Type 0 where
  pub pod_sound :
      (artifact : ProofArtifact) (s : PodPublicStatement) (v : Json)
      → json.pod_statement s ≡ some v
      → verifier.verify artifact sp1_backend sp1_version (commitment x x.postcard.pod_statement s) v
        ≡ ok tt
      → (input : PodRelationInput) × (o : RelationOutcome) × (pod_public_statement input ≡ s)
        × (evaluate_pod_relation x input ≡ ok o)
  pub task_sound :
      (artifact : ProofArtifact) (s : TaskPublicStatement) (v : Json)
      → json.task_statement s ≡ some v
      → verifier.verify artifact sp1_backend sp1_version
          (commitment x x.postcard.task_statement s)
          v
        ≡ ok tt
      → (input : TaskRelationInput) × (o : RelationOutcome) × (task_public_statement input ≡ s)
        × (evaluate_task_relation x input ≡ ok o)

-- A record of the epoch behind the bundle's statements for which both relations hold.
pub record Monitored (x : Primitives) (bundle : AuditBundle) : Type 0 where
  pub pod : PodRelationInput
  pub task : TaskRelationInput
  pub pod_stated : pod_public_statement pod ≡ bundle.pod_statement
  pub task_stated : task_public_statement task ≡ bundle.task_statement
  pub compliant : PodCompliant x pod
  pub paired : (t : Text) → TaskPaired task.policy task.leaves t
  pub sampled :
      sampled_zktorch_statements x task.policy task.epoch task.program task.leaves
      ≡ ok bundle.task_statement.sampled_statements
  pub one_record :
      (map x.postcard.gateway_leaf pod.leaves ≡ map x.postcard.gateway_leaf task.leaves)
      ⊎ Collision x

all-Encodable :
    (x : Primitives) (digests : HasDigests x)
    → ((leaf : GatewayLeaf) → length (x.postcard.gateway_leaf leaf) < 2 ^ 64)
    → (leaves : List GatewayLeaf) → Encodable x digests leaves
all-Encodable x digests h [] = tt
all-Encodable x digests h (leaf ∷ leaves) = (h leaf, all-Encodable x digests h leaves)

module _ (x : Primitives) (json : SerdeJson) (verifier : ProofVerifier) (bundle : AuditBundle)
    (auditor_key gateway_key : Bytes) (assurance : Assurance) where
  -- If SHA-256 has digests of 32 bytes, encoded leaves have a 64-bit length, the proofs of both
  -- relation programs are sound and the sampled statements are a map in key order, then behind an
  -- accepted audit bundle stand a Pod input and a Task input with the bundle's statements: the
  -- Pod relation's conditions hold, each task is paired within its bounds, the sampled statements
  -- of the bundle are those that the leaves determine, and both inputs have the same encoded
  -- leaves or two different messages with one hash exist.
  pub verify_audit_bundle-Monitored :
      HasDigests x
      → ((leaf : GatewayLeaf) → length (x.postcard.gateway_leaf leaf) < 2 ^ 64)
      → IsSound x json verifier
      → IsSorted (BTreeMap.keys bundle.task_statement.sampled_statements)
      → verify_audit_bundle x json verifier bundle auditor_key gateway_key ≡ ok assurance
      → Monitored x bundle
  unfolding pod_public_statement task_public_statement
  verify_audit_bundle-Monitored digests short sound sorted h =
      let a =
        verify_audit_bundle-AuditAccepted x json verifier bundle auditor_key gateway_key assurance
          h in
      let (v, p, q) = a.pod_proved in
      let (w, r, s) = a.task_proved in
      let (pod, o, ps, pe) = sound.pod_sound bundle.pod_relation_proof bundle.pod_statement v p q in
      let (task, u, ts, te) =
        sound.task_sound bundle.task_relation_proof bundle.task_statement w r s in
      let compliant = ((evaluate_pod_relation_iff x pod o).0 pe).0 in
      let valid = evaluate_task_relation-GatewayValid x task u te in
      let one_root : pod.gateway_root ≡ task.gateway_root =
        ap (λ (k : PodPublicStatement). k.gateway_root) ps
        ∙ a.same_root
        ∙ sym (ap (λ (k : TaskPublicStatement). k.gateway_root) ts) in
      let statements = ap (λ (k : TaskPublicStatement). k.sampled_statements) ts in
      record {
        pod = pod;
        task = task;
        pod_stated = ps;
        task_stated = ts;
        compliant = compliant;
        paired = evaluate_task_relation-TaskPaired x task u te;
        sampled =
            sampled_zktorch_statements-evaluate_task_relation x task u (rw statements sorted) te
            ∙ ap ok statements;
        one_record =
            gateway_root-injective x digests pod.leaves task.leaves
              (all-Encodable x digests short pod.leaves) (all-Encodable x digests short task.leaves)
              (sym compliant.gateway.leaf_count
                ∙ ap (λ k. k.statement.leaf_count) one_root
                ∙ valid.leaf_count)
              (sym compliant.gateway.root ∙ ap (λ k. k.statement.root) one_root ∙ valid.root);
      }
