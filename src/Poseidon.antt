-- ===== src/Poseidon.antt =====
-- crates/pocomp-protocol/src/poseidon2.rs: the Poseidon2 permutation over BN254, and the tree hash of digests.
pub mod Constants
pub mod Sizes
pub mod Laws
use verification_tooling.Prelude.{
  ℕ, zero, suc, ◌+◌, ◌-◌, ◌*◌, ◌/◌, List, [], ◌∷◌, ◌++◌, Bytes, Text, true, false, ltb, leb, length,
  take, drop, replicate, Option, none, some, Result, ok, err, ◌>>=◌, ◌>>◌, ok_or, if◌then◌else◌,
}
use verification_tooling.Types.Records.{Hash32}
use Constants.{Row, external_rounds, internal_rounds}

-- The scalar field of BN254, from its library.
pub record ScalarField (F : Type 0) : Type 0 where
  pub nought : F
  pub plus : F → F → F
  pub times : F → F → F
  pub of_nat : ℕ → F
  pub from_be_bytes : Bytes → F
  pub from_le_bytes : Bytes → F
  pub to_bytes_le : F → Bytes

-- `expect` of a constant, and `level[0]`.
pub data PoseidonPanic : Type 0 where
  constant_not_hex empty_level : PoseidonPanic

unfoldable pub larger : ℕ → ℕ → ℕ
larger a b = if ltb a b then b else a

-- Doublings of `p` up to the first that reaches `n`.
unfoldable pub power_from : ℕ → ℕ → ℕ → ℕ
power_from zero p n = p
power_from (suc fuel) p n = let rest = power_from fuel (2 * p) n in if leb n p then p else rest

-- `next_power_of_two`; `n` doublings of 1 reach `n`.
unfoldable pub next_power_of_two : ℕ → ℕ
next_power_of_two n = power_from n 1 n

-- `resize(32, 0)`
unfoldable pub resize : Bytes → Bytes
resize bytes = take 32 (bytes ++ replicate 32 0)

module _ {F : Type 0} (field : ScalarField F) (decode : Text → Option Bytes) where
  open field use {nought, plus, times, of_nat, from_be_bytes, from_le_bytes, to_bytes_le}

  abbrev pub State : Type 0
  State = F × F × F

  unfoldable pub from_hex : Text → Result PoseidonPanic F
  from_hex value = do bytes ← ok_or (decode value) constant_not_hex; ok (from_be_bytes bytes)

  unfoldable pub sbox : F → F
  sbox value = let square = times value value in times (times square square) value

  unfoldable pub external_matrix : State → State
  external_matrix (a, b, c) = let sum = plus (plus a b) c in (plus a sum, plus b sum, plus c sum)

  unfoldable pub internal_matrix : State → State
  internal_matrix (a, b, c) =
      let sum = plus (plus a b) c in (plus a sum, plus b sum, plus (plus c c) sum)

  unfoldable pub external_loop : List Row → State → Result PoseidonPanic State
  external_loop [] state = ok state
  external_loop ((j, k, l) ∷ rows) (a, b, c) = do
    u ← from_hex j
    v ← from_hex k
    w ← from_hex l
    external_loop rows (external_matrix (sbox (plus a u), sbox (plus b v), sbox (plus c w)))

  unfoldable pub internal_loop : List Text → State → Result PoseidonPanic State
  internal_loop [] state = ok state
  internal_loop (j ∷ constants) (a, b, c) = do
    u ← from_hex j
    internal_loop constants (internal_matrix (sbox (plus a u), b, c))

  unfoldable pub permutation : State → Result PoseidonPanic State
  permutation state = do
    first ← external_loop (take 4 external_rounds) (external_matrix state)
    middle ← internal_loop internal_rounds first
    external_loop (drop 4 external_rounds) middle

  unfoldable pub merkle_leaves : ℕ → List F → List F
  merkle_leaves domain fields =
      let width = next_power_of_two (larger (length fields) 4) in
      (of_nat domain ∷ of_nat (length fields) ∷ of_nat 1 ∷ replicate (width - 3) nought)
      ++ (fields ++ replicate (width - length fields) nought)

  -- The zip of the two halves of a level.
  unfoldable pub compress : F → List F → List F → Result PoseidonPanic (List F)
  compress tweak [] rights = ok []
  compress tweak (left ∷ lefts) [] = ok []
  compress tweak (left ∷ lefts) (right ∷ rights) = do
    state ← permutation (left, right, tweak)
    rest ← compress tweak lefts rights
    ok (state.0 ∷ rest)

  -- The loop over the levels, from `depth`.
  unfoldable pub hash_loop : ℕ → ℕ → ℕ → List F → Result PoseidonPanic (List F)
  hash_loop zero domain depth level = ok level
  hash_loop (suc fuel) domain depth level = elim (ltb 1 (length level)) [
    | true ↦ do
      let half = length level / 2
      next ← compress (plus (of_nat domain) (of_nat depth)) (take half level) (drop half level)
      hash_loop fuel domain (suc depth) next
    | false ↦ ok level
  ]

  unfoldable pub root_hash : F → Hash32
  root_hash root = record { bytes = resize (to_bytes_le root) }

  -- One round for each member of the first level is more than enough.
  unfoldable pub hash_fields : ℕ → List F → Result PoseidonPanic Hash32
  hash_fields domain fields = do
    let leaves = merkle_leaves domain fields
    level ← hash_loop (length leaves) domain 0 leaves
    elim level [ [] ↦ err empty_level | root ∷ others ↦ ok (root_hash root) ]

  -- The `flat_map` over the digests: two limbs of 16 bytes each.
  unfoldable pub limbs : List Hash32 → List F
  limbs [] = []
  limbs (digest ∷ digests) =
      from_le_bytes (take 16 digest.bytes) ∷ from_le_bytes (drop 16 digest.bytes) ∷ limbs digests

  unfoldable pub poseidon2_hash_digests : ℕ → List Hash32 → Result PoseidonPanic Hash32
  poseidon2_hash_digests domain digests = hash_fields domain (limbs digests)
