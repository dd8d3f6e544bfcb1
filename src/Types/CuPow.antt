-- ===== src/Types/CuPow.antt =====
-- The records of the gateway-free cuPOW profile, from crates/pocomp-protocol/src/types.rs.
use verification_tooling.Prelude.{ℕ, Bool, List, Bytes, Text}
use verification_tooling.Types.Records.{Hash32}
use verification_tooling.Types.Audit.{SignedErasureCertificate, ProofArtifact}

pub record CuPowCapacityCertificate : Type 0 where
  pub protocol_version : Text
  pub pod_id : Text
  pub incarnation_id : Text
  pub gpu_model : Text
  pub gpu_count : ℕ
  pub runner_image_digest : Text
  pub runner_binary_digest : Hash32
  pub max_f251_macs_per_second : ℕ
  pub h100e_f251_macs_per_hour : ℕ
  pub valid_from_ns : ℕ
  pub valid_until_ns : ℕ

pub record SignedCuPowCapacityCertificate : Type 0 where
  pub certificate : CuPowCapacityCertificate
  pub signature : Bytes

pub record CuPowPolicy : Type 0 where
  pub protocol_version : Text
  pub arithmetic_profile : Text
  pub transcript_profile : Text
  pub c_micro_h100_hours : ℕ
  pub min_saturation_ppm : ℕ
  pub matrix_min_n : ℕ
  pub matrix_max_n : ℕ
  pub tile_size : ℕ

pub record CuPowWorkItem : Type 0 where
  pub operation_id : Text
  pub n : ℕ
  pub left_commitment : Hash32
  pub right_commitment : Hash32
  pub purpose_digest : Hash32

pub record CuPowWorkloadManifest : Type 0 where
  pub protocol_version : Text
  pub workload_id : Text
  pub items : List CuPowWorkItem
  pub security_work_f251_macs : ℕ

pub record CuPowEpoch : Type 0 where
  pub protocol_version : Text
  pub epoch_id : Text
  pub pod_id : Text
  pub incarnation_id : Text
  pub opened_at_ns : ℕ
  pub closed_at_ns : ℕ
  pub initial_commitment : Hash32
  pub workload_commitment : Hash32

pub record CuPowContract : Type 0 where
  pub protocol_version : Text
  pub policy : CuPowPolicy
  pub epoch : CuPowEpoch
  pub capacity : SignedCuPowCapacityCertificate
  pub manifest : CuPowWorkloadManifest

pub record SignedCuPowContract : Type 0 where
  pub contract : CuPowContract
  pub signature : Bytes

pub record CuPowChallenge : Type 0 where
  pub protocol_version : Text
  pub epoch_id : Text
  pub contract_digest : Hash32
  pub seed : Hash32
  pub issued_at_ns : ℕ
  pub deadline_ns : ℕ

pub record SignedCuPowChallenge : Type 0 where
  pub challenge : CuPowChallenge
  pub signature : Bytes

pub record CuPowCompletion : Type 0 where
  pub protocol_version : Text
  pub epoch_id : Text
  pub challenge_digest : Hash32
  pub transcript_root : Hash32
  pub output_root : Hash32
  pub security_work_f251_macs : ℕ
  pub completed_at_ns : ℕ

pub record SignedCuPowCompletion : Type 0 where
  pub completion : CuPowCompletion
  pub signature : Bytes

pub record CuPowPublicStatement : Type 0 where
  pub protocol_version : Text
  pub contract : SignedCuPowContract
  pub challenge : SignedCuPowChallenge
  pub completion : SignedCuPowCompletion
  pub erasure : SignedErasureCertificate

pub data CuPowAssurance : Type 0 where
  calibrated_gpu_saturation : CuPowAssurance

pub record CuPowOutcome : Type 0 where
  pub relation_satisfied : Bool
  pub assurance : CuPowAssurance
  pub security_work_f251_macs : ℕ
  pub certified_capacity_f251_macs : ℕ
  pub saturation_ppm : ℕ

pub record CuPowBundle : Type 0 where
  pub protocol_version : Text
  pub statement : CuPowPublicStatement
  pub proof : ProofArtifact
