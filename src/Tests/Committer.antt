-- ===== src/Tests/Committer.antt =====
-- A commitment to a tensor of four values, another request, and the first identity again.
use verification_tooling.Prelude.{
  [], ◌∷◌, true, Bytes, utf8, some, ◌≡◌, refl, arith, ok, bytes_dec, ℕ_discrete,
}
use verification_tooling.Types.Records.{hash32_eq, ingress, ContentCommitment, zktorch_kzg_bn254_v1}
use verification_tooling.Types.Audit.{QuantizedTensor}
use verification_tooling.Commitment.{hash_bytes, task_artifact_id}
use verification_tooling.Committer.{
  ShapeSpec, TensorLibrary, CommitterState, CommitRequest, opening_of, exists, count_elements,
  validate_tensor, direction_of, prepare, store, commit_inner,
}
use verification_tooling.Committer.Once.{CommittedOnce, commit_inner-once}
use verification_tooling.Tests.Toy.{toy}

abbrev tensor : QuantizedTensor
tensor = record { shape = 2 ∷ 2 ∷ []; scale_log2 = 8; values = 1 ∷ 2 ∷ 3 ∷ 4 ∷ [] }

abbrev library : TensorLibrary
library = record {
  parse = λ b. some tensor;
  print = λ t. some (1 ∷ []);
  data_of = λ s v. some (7 ∷ [], 8 ∷ []);
}

abbrev four : ShapeSpec
four = record { shape = 2 ∷ 2 ∷ []; scale_log2 = 8 }

abbrev empty : CommitterState
empty = record { spec = record { ingress_spec = four; egress_spec = four }; openings = [] }

abbrev name : Bytes
unfolding utf8
name = utf8 "ingress"

abbrev first : CommitRequest
first = record {
  headers = record { epoch = some (4 ∷ []); task = some (5 ∷ []); direction = some name };
  body = 1 ∷ [];
  directory = true;
  written = true;
  partial = [];
}

abbrev other : CommitRequest
other = record first { body = 2 ∷ [] }

abbrev commitment : ContentCommitment
commitment = record { scheme = zktorch_kzg_bn254_v1; digest = hash_bytes toy (8 ∷ []) }

prepared :
    prepare toy library empty.spec first
    ≡ ok (record {
      identity = task_artifact_id toy (4 ∷ []) (5 ∷ []) ingress;
      opening = 7 ∷ [];
      encoded = 8 ∷ [];
    })
unfolding prepare validate_tensor count_elements direction_of bytes_dec ℕ_discrete
prepared = refl

committed : (commit_inner toy library empty first).0 ≡ ok commitment
unfolding commit_inner store exists opening_of
committed = ground (arith, prepared)

commit_inner-once_example :
    CommittedOnce toy library empty first commitment (other ∷ first ∷ []) first
commit_inner-once_example =
    commit_inner-once toy library empty first commitment (other ∷ first ∷ []) first committed refl
