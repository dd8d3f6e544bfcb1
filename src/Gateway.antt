-- ===== src/Gateway.antt =====
-- crates/pocomp-gateway/src/main.rs: the ledger of the gateway and the handlers that change it.
-- Clock readings, commitments of the zkTorch service and outcomes of file writes are arguments.
pub mod Steps
pub mod Invariant
pub mod Preservation
pub mod Seal
pub mod Progress
pub mod Store
use verification_tooling.Prelude.{
  ℕ, List, [], ◌∷◌, ◌++◌, Bool, true, false, ◌||◌, not, Bytes, Text, ltb, ◌==◌, ◌≠◌, bytes_eq,
  length, is_empty, Option, none, some, option_dec, bytes_dec, ite, Result, ok, err, ◌>>=◌, ◌>>◌,
  reject_if,
}
use verification_tooling.BTreeSet
use verification_tooling.Types.{protocol_version}
use verification_tooling.Types.Records.{
  ContentCommitment, Direction, GatewayLeaf, GatewayRoot, SignedGatewayRoot,
}
use verification_tooling.Primitives.{Primitives}
use verification_tooling.Commitment.{gateway_root}
use verification_tooling.Crypto.{sign_gateway_root}

pub record EpochConfig : Type 0 where
  pub gateway_id : Text
  pub pod_id : Text
  pub incarnation_id : Text
  pub epoch_id : Text
  pub program_id : Text
  pub opened_at_ns : ℕ
  pub closed_at_ns : ℕ

pub record Ledger : Type 0 where
  pub sealed : Bool
  pub aborted : Bool
  pub leaves : List GatewayLeaf
  pub active_tasks : List Text

pub record SealedEpoch : Type 0 where
  pub signed_root : SignedGatewayRoot
  pub leaves : List GatewayLeaf

-- The messages of `bail!`, and the answers of the seal handler.
pub data GatewayError : Type 0 where
  outside_epoch epoch_sealed epoch_aborted journal_failed : GatewayError
  empty_task_id used_task_id unauthorized active_tasks_remain : GatewayError

-- `Ledger::default()`
abbrev pub empty_ledger : Ledger
empty_ledger = record { sealed = false; aborted = false; leaves = []; active_tasks = [] }

-- `leaves.iter().any(|leaf| leaf.descriptor.task_id == task_id)`
unfoldable pub used : Text → List GatewayLeaf → Bool
used task_id [] = false
used task_id (leaf ∷ leaves) = leaf.descriptor.task_id == task_id || used task_id leaves

-- `begin_task` runs it under the lock.
unfoldable pub reserve_task : Ledger → Text → Result GatewayError Ledger
reserve_task ledger task_id = do
  reject_if (is_empty task_id) empty_task_id
  reject_if ledger.sealed epoch_sealed
  reject_if ledger.aborted epoch_aborted
  reject_if (BTreeSet.contains ledger.active_tasks task_id || used task_id ledger.leaves)
      used_task_id
  ok (record ledger { active_tasks = BTreeSet.insert task_id ledger.active_tasks })

-- The leaf of a message; the number of leaves is a `u64` on every target.
unfoldable pub next_leaf :
    EpochConfig → Ledger → Text → Direction → ℕ → ℕ → ℕ → ContentCommitment → GatewayLeaf
next_leaf config ledger task_id direction started_at_ns ended_at_ns encoded_len_bytes content =
    record {
      descriptor = record {
        protocol_version = protocol_version;
        gateway_id = config.gateway_id;
        pod_id = config.pod_id;
        incarnation_id = config.incarnation_id;
        epoch_id = config.epoch_id;
        direction = direction;
        sequence = length ledger.leaves;
        task_id = task_id;
        program_id = config.program_id;
        started_at_ns = started_at_ns;
        ended_at_ns = ended_at_ns;
        encoded_len_bytes = encoded_len_bytes;
      };
      content = content;
    }

-- `journaled` tells whether the journal was written and synced.
unfoldable pub append_leaf :
    EpochConfig
    → Bool
    → Ledger
    → Text
    → Direction
    → ℕ
    → ℕ
    → ℕ
    → ContentCommitment
    → Result GatewayError Ledger
append_leaf config journaled ledger task_id direction started ended encoded_len content = do
  reject_if (ltb started config.opened_at_ns || ltb config.closed_at_ns ended || ltb ended started)
      outside_epoch
  reject_if ledger.sealed epoch_sealed
  reject_if (not journaled) journal_failed
  ok (record ledger {
    leaves =
        ledger.leaves
        ++ (next_leaf config ledger task_id direction started ended encoded_len content ∷ []);
  })

unfoldable pub abort_epoch : Ledger → Text → Ledger
abort_epoch ledger task_id = record ledger {
  aborted = true;
  active_tasks = BTreeSet.remove task_id ledger.active_tasks;
}

-- The last statement of `run_task` before its response.
unfoldable pub finish_task : Ledger → Text → Ledger
finish_task ledger task_id = record ledger {
  active_tasks = BTreeSet.remove task_id ledger.active_tasks;
}

-- The handler at `/admin/seal`, given the authorization header.
unfoldable pub seal :
    Primitives
    → EpochConfig
    → Text
    → Bytes
    → Option Text
    → Ledger
    → Result GatewayError (Ledger × SealedEpoch)
seal x config admin_token signing_key authorization ledger = do
  reject_if (ite (option_dec bytes_dec authorization (some admin_token)) false true) unauthorized
  reject_if (not (is_empty ledger.active_tasks)) active_tasks_remain
  reject_if ledger.aborted epoch_aborted
  let root : GatewayRoot = record {
    protocol_version = protocol_version;
    gateway_id = config.gateway_id;
    pod_id = config.pod_id;
    incarnation_id = config.incarnation_id;
    epoch_id = config.epoch_id;
    root = gateway_root x ledger.leaves;
    leaf_count = length ledger.leaves;
  }
  ok (
    record ledger { sealed = true },
    record { signed_root = sign_gateway_root x root signing_key; leaves = ledger.leaves },
  )
