-- ===== src/Relation/Gateway/Laws.antt =====
-- What `validate_gateway` accepts, and the exact bits that it accounts for.
use verification_tooling.Prelude.{
  ℕ, suc, ◌+◌, ◌*◌, ◌^◌, ◌≤◌, ◌<◌, List, [], ◌∷◌, true, false, Bytes, length, ◌≡◌, ◌≢◌, ◌↔◌, arith,
  ok,
}
use verification_tooling.Types.{protocol_version}
use verification_tooling.Types.Records.{
  Direction, ingress, egress, MessageDescriptor, GatewayLeaf, GatewayRoot, SignedGatewayRoot,
}
use verification_tooling.Types.Audit.{MonitoringPolicy, EpochStatement}
use verification_tooling.Primitives.{Primitives}
use verification_tooling.Commitment.{gateway_root}
use verification_tooling.Crypto.{verify_gateway_root_signature}
use verification_tooling.Relation.{validate_policy}
use verification_tooling.Relation.Gateway.{
  descriptor_invalid, add_bits, account_leaves, validate_gateway,
}

-- A policy that the relations accept.
pub record PolicyValid (policy : MonitoringPolicy) : Type 0 where
  pub version : policy.protocol_version ≡ protocol_version
  pub erases : 0 < policy.pod.erase_interval_ns
  pub denominator_pos : 0 < policy.task.sample_denominator
  pub probability : policy.task.sample_numerator ≤ policy.task.sample_denominator

pub validate_policy_iff :
    (policy : MonitoringPolicy) → (validate_policy policy ≡ ok tt) ↔ PolicyValid policy
unfolding validate_policy
validate_policy_iff policy = (λ h. ground arith, λ v. ground arith)

-- A message of the epoch, recorded by the gateway of the statement.
pub record DescriptorValid (epoch : EpochStatement) (statement : GatewayRoot)
    (d : MessageDescriptor) : Type 0 where
  pub version : d.protocol_version ≡ protocol_version
  pub same_gateway : d.gateway_id ≡ statement.gateway_id
  pub same_pod : d.pod_id ≡ epoch.pod_id
  pub same_incarnation : d.incarnation_id ≡ epoch.incarnation_id
  pub same_epoch : d.epoch_id ≡ epoch.epoch_id
  pub after_opening : epoch.opened_at_ns ≤ d.started_at_ns
  pub before_closing : d.ended_at_ns ≤ epoch.closed_at_ns
  pub in_order : d.started_at_ns ≤ d.ended_at_ns
  pub task_named : d.task_id ≢ []
  pub program_named : d.program_id ≢ []

descriptor_invalid_iff :
    (epoch : EpochStatement) (statement : GatewayRoot) (d : MessageDescriptor)
    → (descriptor_invalid epoch statement d ≡ false) ↔ DescriptorValid epoch statement d
unfolding descriptor_invalid
descriptor_invalid_iff epoch statement d = (λ h. ground arith, λ v. ground arith)

-- Valid descriptors whose sequence numbers count up from `index`.
abbrev pub Numbered : EpochStatement → GatewayRoot → ℕ → List GatewayLeaf → Type 0
Numbered epoch statement index [] = Unit
Numbered epoch statement index (leaf ∷ leaves) =
    DescriptorValid epoch statement leaf.descriptor
    × (leaf.descriptor.sequence ≡ index)
    × Numbered epoch statement (suc index) leaves

abbrev counts : Direction → MessageDescriptor → ℕ
counts ingress d = elim d.direction [ ingress ↦ 8 * d.encoded_len_bytes | egress ↦ 0 ]
counts egress d = elim d.direction [ ingress ↦ 0 | egress ↦ 8 * d.encoded_len_bytes ]

-- The bits of all messages in one direction.
abbrev pub total_bits : Direction → List GatewayLeaf → ℕ
total_bits way [] = 0
total_bits way (leaf ∷ leaves) = counts way leaf.descriptor + total_bits way leaves

account_leaves_sound :
    (epoch : EpochStatement) (statement : GatewayRoot) (index i e : ℕ) (leaves : List GatewayLeaf)
    (i' e' : ℕ)
    → account_leaves epoch statement index i e leaves ≡ ok (i', e')
    → i < 2 ^ 64
    → e < 2 ^ 64
    → Numbered epoch statement index leaves
      × (i' ≡ i + total_bits ingress leaves)
      × (e' ≡ e + total_bits egress leaves)
      × (i' < 2 ^ 64)
      × (e' < 2 ^ 64)
unfolding account_leaves add_bits
account_leaves_sound epoch statement index i e [] i' e' h hi he = ground arith
account_leaves_sound epoch statement index i e (leaf ∷ leaves) i' e' h hi he =
    let n = leaf.descriptor.encoded_len_bytes * 8 in
    ground (
      arith,
      (descriptor_invalid_iff epoch statement leaf.descriptor).0,
      account_leaves_sound epoch statement (suc index) (i + n) e leaves i' e',
      account_leaves_sound epoch statement (suc index) i (e + n) leaves i' e',
    )

account_leaves_complete :
    (epoch : EpochStatement) (statement : GatewayRoot) (index i e : ℕ) (leaves : List GatewayLeaf)
    → Numbered epoch statement index leaves
    → i + total_bits ingress leaves < 2 ^ 64
    → e + total_bits egress leaves < 2 ^ 64
    → account_leaves epoch statement index i e leaves
      ≡ ok (i + total_bits ingress leaves, e + total_bits egress leaves)
unfolding account_leaves add_bits
account_leaves_complete epoch statement index i e [] v hi he = ground arith
account_leaves_complete epoch statement index i e (leaf ∷ leaves) v hi he =
    let n = leaf.descriptor.encoded_len_bytes * 8 in
    ground (
      arith,
      (descriptor_invalid_iff epoch statement leaf.descriptor).1,
      account_leaves_complete epoch statement (suc index) (i + n) e leaves,
      account_leaves_complete epoch statement (suc index) i (e + n) leaves,
    )

-- All that `validate_gateway` checks, with the totals in 64 bits.
pub record GatewayValid (x : Primitives) (policy : MonitoringPolicy) (epoch : EpochStatement)
    (signed : SignedGatewayRoot) (key : Bytes) (leaves : List GatewayLeaf) : Type 0 where
  pub policy_valid : PolicyValid policy
  pub version : epoch.protocol_version ≡ protocol_version
  pub opens_first : epoch.opened_at_ns < epoch.closed_at_ns
  pub signature_valid : verify_gateway_root_signature x signed key ≡ true
  pub statement_version : signed.statement.protocol_version ≡ protocol_version
  pub same_pod : signed.statement.pod_id ≡ epoch.pod_id
  pub same_incarnation : signed.statement.incarnation_id ≡ epoch.incarnation_id
  pub same_epoch : signed.statement.epoch_id ≡ epoch.epoch_id
  pub leaf_count : signed.statement.leaf_count ≡ length leaves
  pub root : signed.statement.root ≡ gateway_root x leaves
  pub numbered : Numbered epoch signed.statement 0 leaves
  pub ingress_fits : total_bits ingress leaves < 2 ^ 64
  pub egress_fits : total_bits egress leaves < 2 ^ 64

module _ (x : Primitives) (policy : MonitoringPolicy) (epoch : EpochStatement)
    (signed : SignedGatewayRoot) (key : Bytes) (leaves : List GatewayLeaf) where
  validate_gateway_sound :
      (i e : ℕ)
      → validate_gateway x policy epoch signed key leaves ≡ ok (i, e)
      → GatewayValid x policy epoch signed key leaves
        × (i ≡ total_bits ingress leaves)
        × (e ≡ total_bits egress leaves)
  unfolding validate_gateway
  validate_gateway_sound i e h = ground (
    arith,
    (validate_policy_iff policy).0,
    account_leaves_sound epoch signed.statement 0 0 0 leaves i e,
  )

  validate_gateway_complete :
      GatewayValid x policy epoch signed key leaves
      → validate_gateway x policy epoch signed key leaves
        ≡ ok (total_bits ingress leaves, total_bits egress leaves)
  unfolding validate_gateway
  validate_gateway_complete v = ground (
    arith,
    (validate_policy_iff policy).1,
    account_leaves_complete epoch signed.statement 0 0 0 leaves,
  )

  -- `validate_gateway` returns a pair of numbers exactly when the policy, the epoch, the signed
  -- root and each leaf are valid, the leaves are numbered in order from 0 and the totals of both
  -- directions have 64 bits, and when the pair is these totals: no counter wraps.
  pub validate_gateway_iff :
      (i e : ℕ)
      → (validate_gateway x policy epoch signed key leaves ≡ ok (i, e)) ↔ (
          GatewayValid x policy epoch signed key leaves
          × (i ≡ total_bits ingress leaves)
          × (e ≡ total_bits egress leaves))
  validate_gateway_iff i e =
      (validate_gateway_sound i e, λ (v, p, q). rw (p, q) (validate_gateway_complete v))
