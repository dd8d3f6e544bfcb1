-- ===== src/Tests/Gateway.antt =====
-- One task through the gateway: reserved, both messages recorded, finished, and the epoch sealed.
use verification_tooling.Prelude.{
  length, List, [], ◌∷◌, true, false, Text, bytes_dec, ◌≡◌, ◌⊎◌, refl, arith, some, ok, option_dec,
  ℕ_discrete,
}
use verification_tooling.BTreeSet
use verification_tooling.Types.Records.{ingress, egress, GatewayLeaf, GatewayRoot}
use verification_tooling.Types.{protocol_version}
use verification_tooling.Commitment.{gateway_root}
use verification_tooling.Crypto.{sign_gateway_root}
use verification_tooling.Relation.Gateway.{validate_gateway}
use verification_tooling.Relation.Gateway.Laws.{PolicyValid, total_bits}
use verification_tooling.Gateway.{
  EpochConfig, Ledger, SealedEpoch, empty_ledger, used, reserve_task, next_leaf, append_leaf,
  finish_task, seal,
}
use verification_tooling.Gateway.Steps.{
  Phase, idle, reserved, ingress_recorded, egress_recorded, World, at, start, begins,
  records_ingress, records_egress, finishes, Reaches, stop, next,
}
use verification_tooling.Gateway.Invariant.{NoMessages, Paired, Invariant}
use verification_tooling.Gateway.Preservation.{Reaches-Invariant}
use verification_tooling.Gateway.Seal.{Describes, seal-Paired, seal-validate_gateway, seal_final}
use verification_tooling.Gateway.Progress.{listed, seal_reachable}
use verification_tooling.Tests.Toy.{toy, toy-IsSignatureScheme, content_of, key, policy, epoch}

abbrev pub config : EpochConfig
config = record {
  gateway_id = 1 ∷ [];
  pod_id = 2 ∷ [];
  incarnation_id = 3 ∷ [];
  epoch_id = 4 ∷ [];
  program_id = 5 ∷ [];
  opened_at_ns = 10;
  closed_at_ns = 90;
}

abbrev pub task_id : Text
task_id = 7 ∷ []

abbrev token : Text
token = 8 ∷ []

abbrev pub l₁ : Ledger
l₁ = record { sealed = false; aborted = false; leaves = []; active_tasks = task_id ∷ [] }

abbrev pub l₂ : Ledger
l₂ = record l₁ { leaves = next_leaf config l₁ task_id ingress 11 12 3 (content_of 21) ∷ [] }

abbrev l₃ : Ledger
l₃ = record l₁ {
  leaves =
      next_leaf config l₁ task_id ingress 11 12 3 (content_of 21)
      ∷ next_leaf config l₂ task_id egress 13 14 4 (content_of 22)
      ∷ [];
}

abbrev pub l₄ : Ledger
l₄ = record l₃ { active_tasks = [] }

abbrev p₁ : Text → Phase
p₁ = at (λ t. idle) task_id reserved

abbrev p₂ : Text → Phase
p₂ = at p₁ task_id ingress_recorded

abbrev p₃ : Text → Phase
p₃ = at p₂ task_id egress_recorded

abbrev w₄ : World
w₄ = record { ledger = l₄; phase = at p₃ task_id idle }

run : Reaches toy config token key start w₄
unfolding reserve_task append_leaf finish_task bytes_dec ℕ_discrete BTreeSet.contains used
    BTreeSet.insert BTreeSet.remove
run =
    next start (record { ledger = l₃; phase = p₃ }) w₄
      (next start (record { ledger = l₂; phase = p₂ }) (record { ledger = l₃; phase = p₃ })
        (next start (record { ledger = l₁; phase = p₁ }) (record { ledger = l₂; phase = p₂ })
          (next start start (record { ledger = l₁; phase = p₁ }) (stop start)
            (begins empty_ledger l₁ (λ t. idle) task_id refl))
          (records_ingress l₁ l₂ p₁ task_id true 11 12 3 (content_of 21) refl refl))
        (records_egress l₂ l₃ p₂ task_id true 13 14 4 (content_of 22) refl refl))
      (finishes l₃ p₃ task_id refl)

abbrev pub leaves : List GatewayLeaf
leaves = l₄.leaves

abbrev pub root : GatewayRoot
root = record {
  protocol_version = protocol_version;
  gateway_id = 1 ∷ [];
  pod_id = 2 ∷ [];
  incarnation_id = 3 ∷ [];
  epoch_id = 4 ∷ [];
  root = gateway_root toy leaves;
  leaf_count = 2;
}

abbrev pub sealed_epoch : SealedEpoch
sealed_epoch = record { signed_root = sign_gateway_root toy root key; leaves = leaves }

abbrev sealed_ledger : Ledger
sealed_ledger = record l₄ { sealed = true }

sealing : seal toy config token key (some token) l₄ ≡ ok (sealed_ledger, sealed_epoch)
unfolding seal bytes_dec ℕ_discrete option_dec
sealing = refl

Reaches-Invariant_example : Invariant config w₄
Reaches-Invariant_example = Reaches-Invariant toy config token key w₄ run

seal-Paired_example : NoMessages sealed_epoch.leaves task_id ⊎ Paired sealed_epoch.leaves task_id
seal-Paired_example =
    seal-Paired toy config token key w₄ sealed_ledger (some token) sealed_epoch run sealing task_id

config-Describes : Describes config epoch
config-Describes = record {
  version = refl;
  pod = refl;
  incarnation = refl;
  epoch_named = refl;
  opening = refl;
  closing = refl;
}

pub policy_valid : PolicyValid policy
policy_valid = record {
  version = refl;
  erases = omega arith;
  denominator_pos = omega arith;
  probability = omega arith;
}

-- The relations of the other tests start from this.
pub gateway_validated :
    validate_gateway toy policy epoch sealed_epoch.signed_root key sealed_epoch.leaves ≡ ok (24, 32)
unfolding next_leaf
gateway_validated =
    seal-validate_gateway toy config token key w₄ sealed_ledger (some token) sealed_epoch policy
      epoch toy-IsSignatureScheme policy_valid config-Describes (λ e. cc) (omega arith) run sealing
      (omega arith) (omega arith)

seal-validate_gateway_example :
    validate_gateway toy policy epoch sealed_epoch.signed_root key sealed_epoch.leaves
    ≡ ok (total_bits ingress sealed_epoch.leaves, total_bits egress sealed_epoch.leaves)
unfolding next_leaf
seal-validate_gateway_example =
    seal-validate_gateway toy config token key w₄ sealed_ledger (some token) sealed_epoch policy
      epoch toy-IsSignatureScheme policy_valid config-Describes (λ e. cc) (omega arith) run sealing
      (omega arith) (omega arith)

sealing_again :
    seal toy config token key (some token) sealed_ledger ≡ ok (sealed_ledger, sealed_epoch)
unfolding seal bytes_dec ℕ_discrete option_dec
sealing_again = refl

seal_final_example : sealed_epoch ≡ sealed_epoch
seal_final_example =
    seal_final toy config token key w₄ (record w₄ { ledger = sealed_ledger }) sealed_ledger
      sealed_ledger (some token) (some token) sealed_epoch sealed_epoch sealing
      (stop (record w₄ { ledger = sealed_ledger })) sealing_again

seal_reachable_example :
    (w : World) × (l : Ledger) × (sealed : SealedEpoch) × Reaches toy config token key start w
    × (seal toy config token key (some token) w.ledger ≡ ok (l, sealed))
    × (length sealed.leaves ≡ 4)
    × ((u : Text)
        → ((listed u (task_id ∷ (8 ∷ []) ∷ []) ≡ true) × Paired sealed.leaves u)
          ⊎ ((listed u (task_id ∷ (8 ∷ []) ∷ []) ≡ false) × NoMessages sealed.leaves u))
unfolding bytes_dec ℕ_discrete
seal_reachable_example =
    seal_reachable toy config token key (content_of 21) (task_id ∷ (8 ∷ []) ∷ []) (omega arith)
      ((λ e. cc), refl, ((λ e. cc), refl, tt))
