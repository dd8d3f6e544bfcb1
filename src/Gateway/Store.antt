-- ===== src/Gateway/Store.antt =====
-- `persist_body` and the start-up checks of `main` of crates/pocomp-gateway/src/main.rs.
use verification_tooling.Prelude.{
  List, [], ◌∷◌, Bool, not, Bytes, Text, leb, ◌==◌, Option, none, some, is_some, ◌≡◌, arith, Result,
  ok, err, ◌>>◌, reject_if, if◌then◌else◌,
}
use verification_tooling.Types.Records.{Hash32, hash32_eq, Hash32-discrete, Direction}
use verification_tooling.Primitives.{Primitives}
use verification_tooling.Commitment.{task_artifact_id}
use verification_tooling.Gateway.{EpochConfig}
use verification_tooling.Gateway.Steps.{World, start}

pub data StoreError : Type 0 where
  open_not_before_close journal_exists bodies_exist body_exists body_not_written : StoreError

-- The files of the body store, by the identity that their path encodes.
unfoldable pub body_of : List (Hash32 × Bytes) → Hash32 → Option Bytes
body_of [] id = none
body_of ((kept, body) ∷ bodies) id = if kept == id then some body else body_of bodies id

-- The new file keeps what was written, `partial` where the write fails.
unfoldable pub persist_body :
    Primitives
    → EpochConfig
    → List (Hash32 × Bytes)
    → Text
    → Direction
    → Bytes
    → Bool
    → Bytes
    → Result StoreError (Unit {0}) × List (Hash32 × Bytes)
persist_body x config bodies task_id direction body written partial =
    let id = task_artifact_id x config.epoch_id task_id direction in
    if is_some (body_of bodies id)
    then (err body_exists, bodies)
    else (if written
        then (ok tt, (id, body) ∷ bodies)
        else (err body_not_written, (id, partial) ∷ bodies))

-- `main` up to the server: whether the journal and the body store could be created new.
unfoldable pub start_gateway : EpochConfig → Bool → Bool → Result StoreError World
start_gateway config journal_created bodies_created = do
  reject_if (leb config.closed_at_ns config.opened_at_ns) open_not_before_close
  reject_if (not journal_created) journal_exists
  reject_if (not bodies_created) bodies_exist
  ok start

-- A body that is stored stays as it is, whatever is persisted later.
persist_body_keeps :
    (x : Primitives) (config : EpochConfig) (bodies : List (Hash32 × Bytes)) (task_id : Text)
    (direction : Direction) (body : Bytes) (written : Bool) (partial : Bytes) (id : Hash32)
    (kept : Bytes)
    → body_of bodies id ≡ some kept
    → body_of (persist_body x config bodies task_id direction body written partial).1 id ≡ some kept
unfolding persist_body body_of
persist_body_keeps x config bodies task_id direction body written partial id kept h =
    elim (Hash32-discrete (task_artifact_id x config.epoch_id task_id direction) id) [
      | yes e ↦ ground (arith, e)
      | no ne ↦ ground (arith, ne)
    ]
