-- ===== src/Commitment/Merkle.antt =====
-- About the loop of the gateway's Merkle root, crates/pocomp-protocol/src/commitment.rs.
use verification_tooling.Prelude.{
  ℕ, zero, suc, ◌+◌, ◌*◌, ◌%◌, ◌≤◌, ◌<◌, List, [], ◌∷◌, map, ◌≡◌, refl, ◌≢◌, arith, length,
  length-map,
}
use verification_tooling.Types.Records.{Hash32, GatewayLeaf}
use verification_tooling.Primitives.{Primitives}
use verification_tooling.Commitment.{first, leaf_hash, next_level, merkle_loop, gateway_root}

module _ (x : Primitives) where
  pub length-next_level :
      (level : List Hash32) → length (next_level x level) * 2 ≡ length level + length level % 2
  unfolding next_level
  length-next_level [] = omega arith
  length-next_level (a ∷ []) = omega arith
  length-next_level (a ∷ b ∷ rest) = omega (arith, length-next_level rest)

  -- Rounds as many as there are nodes leave a single one.
  merkle_loop_ends :
      (fuel : ℕ) (level : List Hash32)
      → 0 < length level
      → length level ≤ fuel
      → length (merkle_loop x fuel level) ≡ 1
  unfolding merkle_loop
  merkle_loop_ends zero level pos fits = omega arith
  merkle_loop_ends (suc fuel) level pos fits =
      ground (arith, length-next_level level, merkle_loop_ends fuel (next_level x level))

  -- More fuel than that changes nothing.
  pub merkle_loop_fuel :
      (f g : ℕ) (level : List Hash32)
      → 0 < length level
      → length level ≤ f
      → length level ≤ g
      → merkle_loop x f level ≡ merkle_loop x g level
  unfolding merkle_loop
  merkle_loop_fuel zero g level pos hf hg = absurd (omega arith)
  merkle_loop_fuel (suc f) zero level pos hf hg = absurd (omega arith)
  merkle_loop_fuel (suc f) (suc g) level pos hf hg =
      ground (arith, length-next_level level, merkle_loop_fuel f g (next_level x level))

  -- For one leaf or more, as many rounds of the Merkle loop as there are leaves end with exactly
  -- one node, and that node is the root.
  pub gateway_root-merkle_loop :
      (leaves : List GatewayLeaf)
      → leaves ≢ []
      → merkle_loop x (length leaves) (map (leaf_hash x) leaves) ≡ gateway_root x leaves ∷ []
  unfolding gateway_root first
  gateway_root-merkle_loop [] h = absurd (h refl)
  gateway_root-merkle_loop (leaf ∷ leaves) h = ground (
    arith,
    merkle_loop_ends (length (leaf ∷ leaves)) (map (leaf_hash x) (leaf ∷ leaves)),
    length-map (leaf_hash x) leaves,
  )
