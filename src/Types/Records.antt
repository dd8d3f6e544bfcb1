-- ===== src/Types/Records.antt =====
-- The gateway's records, from crates/pocomp-protocol/src/types.rs. A `[u8; 32]` or a `Vec<u8>` is a
-- list of bytes, a `String` the list of its UTF-8 bytes, and an unsigned integer a number.
use verification_tooling.Prelude.{ℕ, replicate, Bytes, Text, bytes_eq, nat_eq, ℕ_discrete, Eq}

pub record Hash32 : Type 0 where
  pub bytes : Bytes

-- `Hash32::default()`
abbrev pub zero_hash : Hash32
zero_hash = record { bytes = replicate 32 0 }

unfoldable pub Hash32-discrete : Discrete Hash32
Hash32-discrete = hlevel ℕ_discrete

instance abbrev pub hash32_eq : Eq Hash32
hash32_eq = record { dec = Hash32-discrete }

pub data Direction : Type 0 where
  ingress egress : Direction

pub data CommitmentScheme : Type 0 where
  zktorch_kzg_bn254_v1 : CommitmentScheme

pub record ContentCommitment : Type 0 where
  pub scheme : CommitmentScheme
  pub digest : Hash32

pub record MessageDescriptor : Type 0 where
  pub protocol_version : Text
  pub gateway_id : Text
  pub pod_id : Text
  pub incarnation_id : Text
  pub epoch_id : Text
  pub direction : Direction
  pub sequence : ℕ
  pub task_id : Text
  pub program_id : Text
  pub started_at_ns : ℕ
  pub ended_at_ns : ℕ
  pub encoded_len_bytes : ℕ

pub record GatewayLeaf : Type 0 where
  pub descriptor : MessageDescriptor
  pub content : ContentCommitment

pub record GatewayRoot : Type 0 where
  pub protocol_version : Text
  pub gateway_id : Text
  pub pod_id : Text
  pub incarnation_id : Text
  pub epoch_id : Text
  pub root : Hash32
  pub leaf_count : ℕ

pub record SignedGatewayRoot : Type 0 where
  pub statement : GatewayRoot
  pub signature : Bytes

unfoldable pub SignedGatewayRoot-discrete : Discrete SignedGatewayRoot
SignedGatewayRoot-discrete = hlevel ℕ_discrete

instance abbrev pub signed_gateway_root_eq : Eq SignedGatewayRoot
signed_gateway_root_eq = record { dec = SignedGatewayRoot-discrete }
