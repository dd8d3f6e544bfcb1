-- ===== src/Tests/Toy.antt =====
-- Concrete dependencies for the tests: a checksum for the hash, and short encodings.
use verification_tooling.Prelude.{
  ℕ, ◌+◌, ◌%◌, [], ◌∷◌, ◌++◌, true, false, Bytes, bytes_dec, replicate, ite, refl, arith, some,
}
use verification_tooling.Types.{protocol_version, exact_pairing_program}
use verification_tooling.Types.Records.{Hash32, ContentCommitment, zktorch_kzg_bn254_v1}
use verification_tooling.Types.Audit.{
  MonitoringPolicy, TaskProgram, EpochStatement, SignedErasureCertificate, audited_physical_erasure,
  fixed_shape_quantized_onnx_v1,
}
use verification_tooling.Primitives.{Primitives, Postcard, Ed25519, IsSignatureScheme}
use verification_tooling.Commitment.{task_program_commitment, empty_aux_commitment}
use verification_tooling.Crypto.{sign_erasure_certificate}

abbrev checksum : Bytes → ℕ
checksum [] = 7
checksum (b ∷ bs) = (b + 3 + checksum bs) % 251

abbrev digest : Bytes → Bytes
digest m = replicate 32 (checksum m)

abbrev postcard : Postcard
postcard = record {
  gateway_leaf = λ l. l.descriptor.sequence ∷ l.descriptor.encoded_len_bytes ∷ [];
  gateway_root = λ r. r.root.bytes ++ (r.leaf_count ∷ []);
  artifact_key = λ (e, t, d). e ++ t;
  task_program = λ p. p.program_id;
  erasure_certificate = λ c. c.logical_pod_id;
  audit_contract = λ c. c.epoch.epoch_id;
  pod_statement = λ s. s.gateway_root.statement.leaf_count ∷ [];
  task_statement = λ s. s.gateway_root.statement.leaf_count ∷ [];
  zktorch_statement = λ s. s.task_id;
  workload_manifest = λ m. m.workload_id;
  capacity_certificate = λ c. c.pod_id;
  cupow_contract = λ c. c.epoch.epoch_id;
  cupow_challenge = λ c. c.seed.bytes;
  cupow_completion = λ c. c.output_root.bytes;
  cupow_statement = λ s. s.protocol_version;
}

abbrev tag : Bytes → Bytes → Bytes
tag k m = replicate 64 (checksum (k ++ m))

abbrev ed25519 : Ed25519
ed25519 = record {
  verifying_key = λ k. k;
  sign = tag;
  is_key = λ k. true;
  verify = λ k m s. ite (bytes_dec s (tag k m)) true false;
}

abbrev pub toy : Primitives
toy = record {
  sha256 = digest;
  shake256 = λ m i. (checksum m + i) % 256;
  postcard = postcard;
  ed25519 = ed25519;
}

pub toy-IsSignatureScheme : IsSignatureScheme toy.ed25519
toy-IsSignatureScheme = record {
  key_valid = λ k. refl;
  length-sign = λ k m. refl;
  verify-sign = λ k m. ground arith;
}

abbrev pub hash_of : ℕ → Hash32
hash_of b = record { bytes = replicate 32 b }

abbrev pub content_of : ℕ → ContentCommitment
content_of b = record { scheme = zktorch_kzg_bn254_v1; digest = hash_of b }

abbrev pub key : Bytes
key = 9 ∷ []

-- The policy of the tests samples every task.
abbrev pub policy : MonitoringPolicy
policy = record {
  protocol_version = protocol_version;
  pod = record {
    erase_interval_ns = 100;
    pod_capacity_micro_h100_hours_per_hour = 1_000_000;
    max_compute_micro_h100_hours = 10;
    max_ingress_bits = 100;
    max_egress_bits = 100;
    unrecorded_channel_bound_bits = some 1;
    residual_state_bound_bits = some 1;
  };
  task = record {
    max_compute_micro_h100_hours = 10;
    max_ingress_bits = 50;
    max_egress_bits = 50;
    max_tasks = 4;
    sample_numerator = 1;
    sample_denominator = 1;
    aux_max_bits = 0;
  };
}

abbrev pub program : TaskProgram
program = record {
  protocol_version = protocol_version;
  program_id = 5 ∷ [];
  task_list_program = exact_pairing_program;
  model_format = fixed_shape_quantized_onnx_v1;
  architecture_digest = hash_of 11;
  tensor_spec_digest = hash_of 12;
  model_commitment = hash_of 13;
  setup_digest = hash_of 14;
  zktorch_parameters = record {
    pow_len_log = 1;
    loaded_pow_len_log = 2;
    scale_factor_log = 3;
    cq_range_log = 4;
    cq_range_lower_log = 5;
  };
  max_compute_micro_h100_hours = 10;
}

abbrev pub epoch : EpochStatement
epoch = record {
  protocol_version = protocol_version;
  epoch_id = 4 ∷ [];
  pod_id = 2 ∷ [];
  incarnation_id = 3 ∷ [];
  opened_at_ns = 10;
  closed_at_ns = 90;
  initial_commitment = hash_of 1;
  task_program_commitment = task_program_commitment toy program;
  aux_commitment = empty_aux_commitment toy;
  sampling_seed = hash_of 2;
}

abbrev pub erasure : SignedErasureCertificate
erasure =
    sign_erasure_certificate toy
      (record {
        protocol_version = protocol_version;
        kind = audited_physical_erasure;
        logical_pod_id = 2 ∷ [];
        old_incarnation_id = 3 ∷ [];
        new_incarnation_id = 33 ∷ [];
        boundary_at_ns = 90;
        old_destroyed_at_ns = 91;
        new_started_at_ns = 92;
        old_image_digest = 1 ∷ [];
        new_image_digest = 2 ∷ [];
        evidence_digest = hash_of 3;
      })
      key
