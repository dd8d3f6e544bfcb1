-- ===== src/Commitment.antt =====
-- crates/pocomp-protocol/src/commitment.rs: domain-separated hashes and the gateway's Merkle root.
pub mod Encoding
pub mod Separation
pub mod Merkle
pub mod Binding
use verification_tooling.Prelude.{
  ℕ, zero, suc, List, [], ◌∷◌, ◌++◌, map, true, false, Bytes, Text, utf8, ltb, ◌==◌, nat_eq, length,
  Option, none, some, if◌then◌else◌,
}
use verification_tooling.Types.Records.{Hash32, zero_hash, Direction, GatewayLeaf}
use verification_tooling.Types.Audit.{TaskProgram}
use verification_tooling.Types.CuPow.{CuPowChallenge, CuPowContract, CuPowWorkloadManifest}
use verification_tooling.Primitives.{Primitives}
use Encoding.{be_bytes}

abbrev pub hash_domain : Bytes
unfolding utf8
hash_domain = utf8 "pocomp/hash/v1"

abbrev pub commitment_domain : Bytes
unfolding utf8
commitment_domain = utf8 "pocomp/commitment/v1"

abbrev pub leaf_domain : Bytes
unfolding utf8
leaf_domain = utf8 "pocomp/gateway-leaf/v1"

abbrev pub node_domain : Bytes
unfolding utf8
node_domain = utf8 "pocomp/merkle-node/v1"

abbrev pub empty_root_domain : Bytes
unfolding utf8
empty_root_domain = utf8 "pocomp/merkle-empty/v1"

abbrev pub empty_aux_domain : Bytes
unfolding utf8
empty_aux_domain = utf8 "pocomp/empty-aux/v1"

abbrev pub task_program_domain : Bytes
unfolding utf8
task_program_domain = utf8 "pocomp/task-program/v1"

abbrev pub task_artifact_domain : Bytes
unfolding utf8
task_artifact_domain = utf8 "pocomp/task-artifact/v1"

abbrev pub cupow_workload_domain : Bytes
unfolding utf8
cupow_workload_domain = utf8 "pocomp/cupow/workload/v1"

abbrev pub cupow_contract_domain : Bytes
unfolding utf8
cupow_contract_domain = utf8 "pocomp/cupow/contract/v1"

abbrev pub cupow_challenge_domain : Bytes
unfolding utf8
cupow_challenge_domain = utf8 "pocomp/cupow/challenge/v1"

abbrev pub cupow_kzg_matrix_domain : Bytes
unfolding utf8
cupow_kzg_matrix_domain = utf8 "pocomp/cupow/kzg-matrix-commitment/v1"

-- What `domain_hash` feeds to the hash, in order.
unfoldable pub domain_message : Bytes → Bytes → Bytes
domain_message domain payload =
    hash_domain
    ++ (be_bytes 8 (length domain) ++ (domain ++ (be_bytes 8 (length payload) ++ payload)))

-- The bytes that `cupow_kzg_matrix_commitment` puts before the row commitments and those.
flat_rows : List Bytes → Bytes
flat_rows [] = []
flat_rows (r ∷ rs) = r ++ flat_rows rs

-- `level[0]`; the list is never empty where it is called.
unfoldable pub first : List Hash32 → Hash32
first [] = zero_hash
first (h ∷ hs) = h

module _ (x : Primitives) where
  open x use {postcard}

  unfoldable pub domain_hash : Bytes → Bytes → Hash32
  domain_hash domain payload = record { bytes = x.sha256 (domain_message domain payload) }

  unfoldable pub hash_bytes : Bytes → Hash32
  unfolding utf8
  hash_bytes = domain_hash (utf8 "bytes")

  -- Generic over the encoded type: `encode` is its postcard encoding.
  unfoldable pub commitment {ℓ} : {T : Type ℓ} → (T → Bytes) → T → Hash32
  commitment encode value = domain_hash commitment_domain (encode value)

  unfoldable pub empty_aux_commitment : Hash32
  empty_aux_commitment = domain_hash empty_aux_domain []

  unfoldable pub task_program_commitment : TaskProgram → Hash32
  task_program_commitment program = domain_hash task_program_domain (postcard.task_program program)

  unfoldable pub task_artifact_id : Text → Text → Direction → Hash32
  task_artifact_id epoch_id task_id direction =
      domain_hash task_artifact_domain (postcard.artifact_key (epoch_id, task_id, direction))

  unfoldable pub cupow_workload_commitment : CuPowWorkloadManifest → Hash32
  cupow_workload_commitment manifest =
      domain_hash cupow_workload_domain (postcard.workload_manifest manifest)

  unfoldable pub cupow_contract_digest : CuPowContract → Hash32
  cupow_contract_digest contract =
      domain_hash cupow_contract_domain (postcard.cupow_contract contract)

  unfoldable pub cupow_challenge_digest : CuPowChallenge → Hash32
  cupow_challenge_digest challenge =
      domain_hash cupow_challenge_domain (postcard.cupow_challenge challenge)

  -- `none` is the panic of the assertion.
  unfoldable pub cupow_kzg_matrix_commitment : ℕ → ℕ → List Bytes → Option Hash32
  unfolding flat_rows
  cupow_kzg_matrix_commitment rows columns row_commitments =
      if length row_commitments == rows
      then some (
          domain_hash cupow_kzg_matrix_domain (
            be_bytes 4 rows
            ++ (be_bytes 4 columns
                ++ (be_bytes 8 (length row_commitments) ++ flat_rows row_commitments))))
      else none

  unfoldable pub leaf_hash : GatewayLeaf → Hash32
  leaf_hash leaf = domain_hash leaf_domain (postcard.gateway_leaf leaf)

  unfoldable pub node_hash : Hash32 → Hash32 → Hash32
  node_hash left right = domain_hash node_domain (left.bytes ++ right.bytes)

  -- One round over `level.chunks(2)`: an odd node at the end is paired with itself.
  unfoldable pub next_level : List Hash32 → List Hash32
  next_level [] = []
  next_level (left ∷ []) = node_hash left left ∷ []
  next_level (left ∷ right ∷ rest) = node_hash left right ∷ next_level rest

  -- `while level.len() > 1`
  unfoldable pub merkle_loop : ℕ → List Hash32 → List Hash32
  merkle_loop zero level = level
  merkle_loop (suc fuel) level = elim (ltb 1 (length level)) [
    | true ↦ merkle_loop fuel (next_level level)
    | false ↦ level
  ]

  unfoldable pub gateway_root : List GatewayLeaf → Hash32
  gateway_root [] = domain_hash empty_root_domain []
  gateway_root (leaf ∷ leaves) =
      first (merkle_loop (length (leaf ∷ leaves)) (map leaf_hash (leaf ∷ leaves)))
