-- ===== src/Committer.antt =====
-- proofs/zktorch-committer/src/main.rs: the service that commits to the tensors of tasks, each identity once.
pub mod Laws
pub mod Once
use verification_tooling.Prelude.{
  ℕ, ◌*◌, List, [], ◌∷◌, Bool, true, false, ◌||◌, not, Bytes, Text, utf8, ltb, ◌==◌, ◌≠◌, nat_eq,
  bytes_eq, is_empty, length, checked_mul, Eq, Option, none, some, Result, ok, err, ◌>>=◌, ◌>>◌,
  reject_if, ok_or, if◌then◌else◌,
}
use verification_tooling.Types.Records.{
  Hash32, hash32_eq, Direction, ingress, egress, ContentCommitment, zktorch_kzg_bn254_v1,
}
use verification_tooling.Types.Audit.{QuantizedTensor}
use verification_tooling.Primitives.{Primitives}
use verification_tooling.Commitment.{hash_bytes, task_artifact_id}

pub record ShapeSpec : Type 0 where
  pub shape : List ℕ
  pub scale_log2 : ℕ

pub record TensorSpec : Type 0 where
  pub ingress_spec : ShapeSpec
  pub egress_spec : ShapeSpec

-- The identity headers, `none` for one that is missing or not ASCII.
pub record Headers : Type 0 where
  pub epoch : Option Text
  pub task : Option Text
  pub direction : Option Text

pub data CommitError : Type 0 where
  missing_header empty_identifier unknown_direction undecodable not_canonical : CommitError
  other_shape shape_overflow wrong_count not_an_array : CommitError
  no_directory identity_used not_written : CommitError

-- What the service takes from its libraries: the JSON encoding of a tensor, and the data of a tensor
-- by its shape and values, as the bytes of the opening and of the commitment.
pub record TensorLibrary : Type 0 where
  pub parse : Bytes → Option QuantizedTensor
  pub print : QuantizedTensor → Option Bytes
  pub data_of : List ℕ → List ℕ → Option (Bytes × Bytes)

-- The directory of openings: a file for each identity, which its path encodes.
pub record CommitterState : Type 0 where
  pub spec : TensorSpec
  pub openings : List (Hash32 × Bytes)

-- A request, and how the file operations of its handler end: whether the directory is there, and
-- whether the whole opening is written; `partial` is what is in the file otherwise.
pub record CommitRequest : Type 0 where
  pub headers : Headers
  pub body : Bytes
  pub directory : Bool
  pub written : Bool
  pub partial : Bytes

unfoldable pub opening_of : List (Hash32 × Bytes) → Hash32 → Option Bytes
opening_of [] id = none
opening_of ((used, opening) ∷ openings) id =
    if used == id then some opening else opening_of openings id

unfoldable pub exists : Option Bytes → Bool
exists none = false
exists (some opening) = true

-- `try_fold` over the dimensions.
unfoldable pub count_elements : ℕ → List ℕ → Result CommitError ℕ
count_elements total [] = ok total
count_elements total (dimension ∷ dimensions) = do
  next ← ok_or (checked_mul 64 total dimension) shape_overflow
  count_elements next dimensions

unfoldable pub validate_tensor : QuantizedTensor → ShapeSpec → Result CommitError (Unit {0})
validate_tensor tensor spec = do
  reject_if (tensor.shape ≠ spec.shape || tensor.scale_log2 ≠ spec.scale_log2) other_shape
  elements ← count_elements 1 tensor.shape
  reject_if (elements ≠ length tensor.values) wrong_count

-- `match direction`, here and in `opening_path`.
unfoldable pub direction_of : Text → Option Direction
unfolding utf8
direction_of name =
    if name == utf8 "ingress"
    then some ingress
    else (if name == utf8 "egress" then some egress else none)

abbrev pub spec_for : TensorSpec → Direction → ShapeSpec
spec_for spec ingress = spec.ingress_spec
spec_for spec egress = spec.egress_spec

-- What the handler has when it takes the lock: the identity, and the bytes of opening and commitment.
pub record Prepared : Type 0 where
  pub identity : Hash32
  pub opening : Bytes
  pub encoded : Bytes

module _ (x : Primitives) (library : TensorLibrary) where
  -- `commit_inner` up to the lock.
  unfoldable pub prepare : TensorSpec → CommitRequest → Result CommitError Prepared
  prepare specification request = do
    epoch ← ok_or request.headers.epoch missing_header
    task ← ok_or request.headers.task missing_header
    name ← ok_or request.headers.direction missing_header
    reject_if (is_empty epoch || is_empty task) empty_identifier
    direction ← ok_or (direction_of name) unknown_direction
    tensor ← ok_or (library.parse request.body) undecodable
    canonical ← ok_or (library.print tensor) undecodable
    reject_if (canonical ≠ request.body) not_canonical
    validate_tensor tensor (spec_for specification direction)
    (opening, encoded) ← ok_or (library.data_of tensor.shape tensor.values) not_an_array
    ok (record {
      identity = task_artifact_id x epoch task direction;
      opening = opening;
      encoded = encoded;
    })

  -- `commit_inner` under the lock, with the state that it leaves.
  unfoldable pub store :
      CommitterState
      → CommitRequest
      → Prepared
      → Result CommitError ContentCommitment × CommitterState
  store state request p =
      if not request.directory
      then (err no_directory, state)
      else (if exists (opening_of state.openings p.identity)
          then (err identity_used, state)
          else (if request.written
              then (
                ok (record { scheme = zktorch_kzg_bn254_v1; digest = hash_bytes x p.encoded }),
                record state { openings = (p.identity, p.opening) ∷ state.openings },
              )
              else (
                err not_written,
                record state { openings = (p.identity, request.partial) ∷ state.openings },
              )))

  unfoldable pub commit_inner :
      CommitterState → CommitRequest → Result CommitError ContentCommitment × CommitterState
  commit_inner state request = elim (prepare state.spec request) [
    | err e ↦ (err e, state)
    | ok p ↦ store state request p
  ]

  -- Requests one after the other, as the lock serves them.
  unfoldable pub commit_all : CommitterState → List CommitRequest → CommitterState
  commit_all state [] = state
  commit_all state (request ∷ requests) = commit_all (commit_inner state request).1 requests
