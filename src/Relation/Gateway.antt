-- ===== src/Relation/Gateway.antt =====
-- `validate_gateway` of crates/pocomp-protocol/src/relation.rs: the signed root against the epoch
-- and the leaves, and the bits that the leaves account for.
pub mod Laws
use verification_tooling.Prelude.{
  ℕ, suc, ◌+◌, List, [], ◌∷◌, Bool, ◌||◌, not, Bytes, ltb, leb, ◌==◌, ◌≠◌, nat_eq, bytes_eq, length,
  is_empty, Result, ok, err, ◌>>=◌, ◌>>◌, reject_if, ok_or, checked_add, checked_mul,
}
use verification_tooling.Types.{protocol_version}
use verification_tooling.Types.Records.{
  hash32_eq, Direction, ingress, egress, MessageDescriptor, GatewayLeaf, GatewayRoot,
  SignedGatewayRoot,
}
use verification_tooling.Types.Audit.{MonitoringPolicy, EpochStatement}
use verification_tooling.Primitives.{Primitives}
use verification_tooling.Commitment.{gateway_root}
use verification_tooling.Crypto.{verify_gateway_root_signature}
use verification_tooling.Relation.{
  RelationError, epoch_error, gateway_signature, gateway_statement, gateway_root_error,
  descriptor_error, sequence_error, accounting_overflow, validate_policy,
}

-- The test of one descriptor in the loop.
unfoldable pub descriptor_invalid : EpochStatement → GatewayRoot → MessageDescriptor → Bool
descriptor_invalid epoch statement d =
    d.protocol_version ≠ protocol_version
    || d.gateway_id ≠ statement.gateway_id
    || d.pod_id ≠ epoch.pod_id
    || d.incarnation_id ≠ epoch.incarnation_id
    || d.epoch_id ≠ epoch.epoch_id
    || ltb d.started_at_ns epoch.opened_at_ns
    || ltb epoch.closed_at_ns d.ended_at_ns
    || ltb d.ended_at_ns d.started_at_ns
    || is_empty d.task_id
    || is_empty d.program_id

-- The counter of the direction grows by the bits of the message.
unfoldable pub add_bits : Direction → ℕ → ℕ → ℕ → Result RelationError (ℕ × ℕ)
add_bits ingress bits i e = do i' ← ok_or (checked_add 64 i bits) accounting_overflow; ok (i', e)
add_bits egress bits i e = do e' ← ok_or (checked_add 64 e bits) accounting_overflow; ok (i, e')

-- The loop over `leaves.iter().enumerate()`, with both counters.
unfoldable pub account_leaves :
    EpochStatement → GatewayRoot → ℕ → ℕ → ℕ → List GatewayLeaf → Result RelationError (ℕ × ℕ)
account_leaves epoch statement index i e [] = ok (i, e)
account_leaves epoch statement index i e (leaf ∷ leaves) = do
  reject_if (descriptor_invalid epoch statement leaf.descriptor) descriptor_error
  reject_if (leaf.descriptor.sequence ≠ index) sequence_error
  bits ← ok_or (checked_mul 64 leaf.descriptor.encoded_len_bytes 8) accounting_overflow
  (i', e') ← add_bits leaf.descriptor.direction bits i e
  account_leaves epoch statement (suc index) i' e' leaves

module _ (x : Primitives) where
  unfoldable pub validate_gateway :
      MonitoringPolicy
      → EpochStatement
      → SignedGatewayRoot
      → Bytes
      → List GatewayLeaf
      → Result RelationError (ℕ × ℕ)
  validate_gateway policy epoch signed public_key leaves = do
    validate_policy policy
    reject_if
        (epoch.protocol_version ≠ protocol_version || leb epoch.closed_at_ns epoch.opened_at_ns)
        epoch_error
    reject_if (not (verify_gateway_root_signature x signed public_key)) gateway_signature
    reject_if
        (signed.statement.protocol_version ≠ protocol_version
          || signed.statement.pod_id ≠ epoch.pod_id
          || signed.statement.incarnation_id ≠ epoch.incarnation_id
          || signed.statement.epoch_id ≠ epoch.epoch_id)
        gateway_statement
    reject_if
        (signed.statement.leaf_count ≠ length leaves
          || signed.statement.root ≠ gateway_root x leaves)
        gateway_root_error
    account_leaves epoch signed.statement 0 0 0 leaves
