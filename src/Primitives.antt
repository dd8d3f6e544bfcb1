-- ===== src/Primitives.antt =====
-- What the protocol takes from its dependencies: SHA-256 and SHAKE-256, the postcard encoding of
-- each type that is hashed or signed, and Ed25519. All are parameters of the model.
use verification_tooling.Prelude.{ℕ, ◌≡◌, Bool, true, Bytes, Text, length}
use verification_tooling.Types.Records.{GatewayLeaf, GatewayRoot, Direction}
use verification_tooling.Types.Audit.{
  TaskProgram, ErasureCertificate, AuditContract, PodPublicStatement, TaskPublicStatement,
  ZkTorchStatement,
}
use verification_tooling.Types.CuPow.{
  CuPowCapacityCertificate, CuPowChallenge, CuPowCompletion, CuPowContract, CuPowPublicStatement,
  CuPowWorkloadManifest,
}

-- `postcard::to_allocvec` at each type.
pub record Postcard : Type 0 where
  pub gateway_leaf : GatewayLeaf → Bytes
  pub gateway_root : GatewayRoot → Bytes
  pub artifact_key : Text × Text × Direction → Bytes
  pub task_program : TaskProgram → Bytes
  pub erasure_certificate : ErasureCertificate → Bytes
  pub audit_contract : AuditContract → Bytes
  pub pod_statement : PodPublicStatement → Bytes
  pub task_statement : TaskPublicStatement → Bytes
  pub zktorch_statement : ZkTorchStatement → Bytes
  pub workload_manifest : CuPowWorkloadManifest → Bytes
  pub capacity_certificate : CuPowCapacityCertificate → Bytes
  pub cupow_contract : CuPowContract → Bytes
  pub cupow_challenge : CuPowChallenge → Bytes
  pub cupow_completion : CuPowCompletion → Bytes
  pub cupow_statement : CuPowPublicStatement → Bytes

-- Keys and signatures are their bytes. `is_key` is the success of `VerifyingKey::from_bytes`.
pub record Ed25519 : Type 0 where
  pub verifying_key : Bytes → Bytes
  pub sign : Bytes → Bytes → Bytes
  pub is_key : Bytes → Bool
  pub verify : Bytes → Bytes → Bytes → Bool

-- `shake256 message i` is the byte `i` of the output stream.
pub record Primitives : Type 0 where
  pub sha256 : Bytes → Bytes
  pub shake256 : Bytes → ℕ → ℕ
  pub postcard : Postcard
  pub ed25519 : Ed25519

-- What the signature scheme documents: an honest signature has 64 bytes and verifies.
pub record IsSignatureScheme (s : Ed25519) : Type 0 where
  pub key_valid : (k : Bytes) → s.is_key (s.verifying_key k) ≡ true
  pub length-sign : (k m : Bytes) → length (s.sign k m) ≡ 64
  pub verify-sign : (k m : Bytes) → s.verify (s.verifying_key k) m (s.sign k m) ≡ true
