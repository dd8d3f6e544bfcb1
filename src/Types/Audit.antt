-- ===== src/Types/Audit.antt =====
-- The policies, certificates, contracts, relation inputs and bundles of the gateway profile, from
-- crates/pocomp-protocol/src/types.rs.
use verification_tooling.Prelude.{ℕ, Bool, List, Option, Bytes, Text, ℕ_discrete, Eq}
use verification_tooling.BTreeMap.{BTreeMap}
use verification_tooling.Types.Records.{Hash32, GatewayLeaf, SignedGatewayRoot}

pub record PodPolicy : Type 0 where
  pub erase_interval_ns : ℕ
  pub pod_capacity_micro_h100_hours_per_hour : ℕ
  pub max_compute_micro_h100_hours : ℕ
  pub max_ingress_bits : ℕ
  pub max_egress_bits : ℕ
  pub unrecorded_channel_bound_bits : Option ℕ
  pub residual_state_bound_bits : Option ℕ

pub record TaskPolicy : Type 0 where
  pub max_compute_micro_h100_hours : ℕ
  pub max_ingress_bits : ℕ
  pub max_egress_bits : ℕ
  pub max_tasks : ℕ
  pub sample_numerator : ℕ
  pub sample_denominator : ℕ
  pub aux_max_bits : ℕ

pub record MonitoringPolicy : Type 0 where
  pub protocol_version : Text
  pub pod : PodPolicy
  pub task : TaskPolicy

pub data ErasureKind : Type 0 where
  vast_destroy_replace audited_physical_erasure : ErasureKind

pub record ErasureCertificate : Type 0 where
  pub protocol_version : Text
  pub kind : ErasureKind
  pub logical_pod_id : Text
  pub old_incarnation_id : Text
  pub new_incarnation_id : Text
  pub boundary_at_ns : ℕ
  pub old_destroyed_at_ns : ℕ
  pub new_started_at_ns : ℕ
  pub old_image_digest : Text
  pub new_image_digest : Text
  pub evidence_digest : Hash32

pub record SignedErasureCertificate : Type 0 where
  pub certificate : ErasureCertificate
  pub signature : Bytes

pub record EpochStatement : Type 0 where
  pub protocol_version : Text
  pub epoch_id : Text
  pub pod_id : Text
  pub incarnation_id : Text
  pub opened_at_ns : ℕ
  pub closed_at_ns : ℕ
  pub initial_commitment : Hash32
  pub task_program_commitment : Hash32
  pub aux_commitment : Hash32
  pub sampling_seed : Hash32

pub record AuditContract : Type 0 where
  pub protocol_version : Text
  pub policy : MonitoringPolicy
  pub epoch : EpochStatement

pub record SignedAuditContract : Type 0 where
  pub contract : AuditContract
  pub signature : Bytes

pub data ModelFormat : Type 0 where
  fixed_shape_quantized_onnx_v1 : ModelFormat

pub record ZkTorchParameters : Type 0 where
  pub pow_len_log : ℕ
  pub loaded_pow_len_log : ℕ
  pub scale_factor_log : ℕ
  pub cq_range_log : ℕ
  pub cq_range_lower_log : ℕ

pub record TaskProgram : Type 0 where
  pub protocol_version : Text
  pub program_id : Text
  pub task_list_program : Text
  pub model_format : ModelFormat
  pub architecture_digest : Hash32
  pub tensor_spec_digest : Hash32
  pub model_commitment : Hash32
  pub setup_digest : Hash32
  pub zktorch_parameters : ZkTorchParameters
  pub max_compute_micro_h100_hours : ℕ

pub record ZkTorchStatement : Type 0 where
  pub protocol_version : Text
  pub proof_system_version : Text
  pub epoch_id : Text
  pub task_id : Text
  pub program_id : Text
  pub architecture_digest : Hash32
  pub tensor_spec_digest : Hash32
  pub model_commitment : Hash32
  pub setup_digest : Hash32
  pub parameters : ZkTorchParameters
  pub input_commitment : Hash32
  pub output_commitment : Hash32

pub record PodRelationInput : Type 0 where
  pub policy : MonitoringPolicy
  pub epoch : EpochStatement
  pub gateway_root : SignedGatewayRoot
  pub gateway_public_key : Bytes
  pub leaves : List GatewayLeaf
  pub erasure : SignedErasureCertificate

pub record TaskRelationInput : Type 0 where
  pub policy : MonitoringPolicy
  pub epoch : EpochStatement
  pub gateway_root : SignedGatewayRoot
  pub gateway_public_key : Bytes
  pub leaves : List GatewayLeaf
  pub program : TaskProgram
  pub aux : Bytes
  pub sampled_statements : BTreeMap ZkTorchStatement

pub record PodPublicStatement : Type 0 where
  pub policy : MonitoringPolicy
  pub epoch : EpochStatement
  pub gateway_root : SignedGatewayRoot
  pub erasure : SignedErasureCertificate

pub record TaskPublicStatement : Type 0 where
  pub policy : MonitoringPolicy
  pub epoch : EpochStatement
  pub gateway_root : SignedGatewayRoot
  pub program : TaskProgram
  pub sampled_statements : BTreeMap ZkTorchStatement

pub data Assurance : Type 0 where
  experimental paper_compliant : Assurance

pub record RelationOutcome : Type 0 where
  pub relation_satisfied : Bool
  pub assurance : Assurance
  pub ingress_bits : ℕ
  pub egress_bits : ℕ
  pub task_count : ℕ
  pub sampled_task_ids : List Text

pub record RelationPublicValues : Type 0 where
  pub statement_digest : Hash32
  pub outcome : RelationOutcome

pub record ProofArtifact : Type 0 where
  pub backend : Text
  pub backend_version : Text
  pub statement_digest : Hash32
  pub proof_bytes : Bytes

pub record TaskProof : Type 0 where
  pub statement : ZkTorchStatement
  pub proof : ProofArtifact

pub record AuditBundle : Type 0 where
  pub protocol_version : Text
  pub audit_contract : SignedAuditContract
  pub pod_statement : PodPublicStatement
  pub task_statement : TaskPublicStatement
  pub pod_relation_proof : ProofArtifact
  pub task_relation_proof : ProofArtifact
  pub task_proofs : List TaskProof

unfoldable pub MonitoringPolicy-discrete : Discrete MonitoringPolicy
MonitoringPolicy-discrete = hlevel ℕ_discrete

instance abbrev pub monitoring_policy_eq : Eq MonitoringPolicy
monitoring_policy_eq = record { dec = MonitoringPolicy-discrete }

unfoldable pub EpochStatement-discrete : Discrete EpochStatement
EpochStatement-discrete = hlevel ℕ_discrete

instance abbrev pub epoch_statement_eq : Eq EpochStatement
epoch_statement_eq = record { dec = EpochStatement-discrete }

unfoldable pub ErasureKind-discrete : Discrete ErasureKind
ErasureKind-discrete = hlevel

instance abbrev pub erasure_kind_eq : Eq ErasureKind
erasure_kind_eq = record { dec = ErasureKind-discrete }

unfoldable pub ZkTorchParameters-discrete : Discrete ZkTorchParameters
ZkTorchParameters-discrete = hlevel ℕ_discrete

instance abbrev pub zktorch_parameters_eq : Eq ZkTorchParameters
zktorch_parameters_eq = record { dec = ZkTorchParameters-discrete }

unfoldable pub ZkTorchStatement-discrete : Discrete ZkTorchStatement
ZkTorchStatement-discrete = hlevel ℕ_discrete

instance abbrev pub zktorch_statement_eq : Eq ZkTorchStatement
zktorch_statement_eq = record { dec = ZkTorchStatement-discrete }

-- An `i64` is its two's complement pattern.
pub record QuantizedTensor : Type 0 where
  pub shape : List ℕ
  pub scale_log2 : ℕ
  pub values : List ℕ
