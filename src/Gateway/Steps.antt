-- ===== src/Gateway/Steps.antt =====
-- The concurrent task handlers of crates/pocomp-gateway/src/main.rs as steps: each step is what one
-- handler does under one lock of the ledger, and the steps of different tasks interleave freely.
use verification_tooling.Prelude.{
  ℕ, Bool, Bytes, Text, ◌==◌, bytes_eq, ◌≡◌, ◌≢◌, Option, ok, if◌then◌else◌,
}
use verification_tooling.Types.Records.{ContentCommitment, ingress, egress}
use verification_tooling.Primitives.{Primitives}
use verification_tooling.Gateway.{
  EpochConfig, Ledger, SealedEpoch, empty_ledger, reserve_task, append_leaf, abort_epoch,
  finish_task, seal,
}

-- How far the handler of a task is. A `dropped` handler stopped for good, its connection gone.
pub data Phase : Type 0 where
  idle reserved ingress_recorded egress_recorded dropped : Phase

pub record World : Type 0 where
  pub ledger : Ledger
  pub phase : Text → Phase

abbrev pub at : (Text → Phase) → Text → Phase → Text → Phase
at phase t p u = if t == u then p else phase u

abbrev pub start : World
start = record { ledger = empty_ledger; phase = λ t. idle }

-- `task` and `run_task`. A failure at any point of `run_task` ends in `abort_epoch`.
pub data Step (x : Primitives) (config : EpochConfig) (admin_token : Text) (signing_key : Bytes)
    : World → World → Type 0 where
  begins :
      (l l' : Ledger) (phase : Text → Phase) (t : Text)
      → reserve_task l t ≡ ok l'
      → Step x config admin_token signing_key
          (record { ledger = l; phase = phase })
          (record { ledger = l'; phase = at phase t reserved })
  records_ingress :
      (l l' : Ledger) (phase : Text → Phase) (t : Text) (journaled : Bool) (started ended len : ℕ)
      (content : ContentCommitment)
      → phase t ≡ reserved
      → append_leaf config journaled l t ingress started ended len content ≡ ok l'
      → Step x config admin_token signing_key
          (record { ledger = l; phase = phase })
          (record { ledger = l'; phase = at phase t ingress_recorded })
  records_egress :
      (l l' : Ledger) (phase : Text → Phase) (t : Text) (journaled : Bool) (started ended len : ℕ)
      (content : ContentCommitment)
      → phase t ≡ ingress_recorded
      → append_leaf config journaled l t egress started ended len content ≡ ok l'
      → Step x config admin_token signing_key
          (record { ledger = l; phase = phase })
          (record { ledger = l'; phase = at phase t egress_recorded })
  finishes :
      (l : Ledger) (phase : Text → Phase) (t : Text)
      → phase t ≡ egress_recorded
      → Step x config admin_token signing_key
          (record { ledger = l; phase = phase })
          (record { ledger = finish_task l t; phase = at phase t idle })
  fails :
      (l : Ledger) (phase : Text → Phase) (t : Text)
      → phase t ≢ idle
      → phase t ≢ dropped
      → Step x config admin_token signing_key
          (record { ledger = l; phase = phase })
          (record { ledger = abort_epoch l t; phase = at phase t idle })
  drops :
      (l : Ledger) (phase : Text → Phase) (t : Text)
      → phase t ≢ idle
      → Step x config admin_token signing_key
          (record { ledger = l; phase = phase })
          (record { ledger = l; phase = at phase t dropped })
  seals :
      (l l' : Ledger) (phase : Text → Phase) (authorization : Option Text) (epoch : SealedEpoch)
      → seal x config admin_token signing_key authorization l ≡ ok (l', epoch)
      → Step x config admin_token signing_key
          (record { ledger = l; phase = phase })
          (record { ledger = l'; phase = phase })

-- What the steps reach from a world.
pub data Reaches (x : Primitives) (config : EpochConfig) (admin_token : Text) (signing_key : Bytes)
    : World → World → Type 0 where
  stop : (w : World) → Reaches x config admin_token signing_key w w
  next :
      (u v w : World)
      → Reaches x config admin_token signing_key u v
      → Step x config admin_token signing_key v w
      → Reaches x config admin_token signing_key u w
