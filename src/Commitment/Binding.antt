-- ===== src/Commitment/Binding.antt =====
-- About `gateway_root` of crates/pocomp-protocol/src/commitment.rs: what a root says of the leaves.
use mathlib.Core.List.{map-append}
use verification_tooling.Prelude.{
  ℕ, zero, suc, ◌+◌, ◌%◌, ◌^◌, ◌≤◌, ◌<◌, List, [], ◌∷◌, ◌++◌, map, Bytes, ◌≡◌, refl, sym, ap, ◌∙◌,
  ◌≢◌, ◌⊎◌, inl, inr, arith, All, length, length-append, length-map, append-injective, utf8,
}
use verification_tooling.Types.Records.{Hash32, GatewayLeaf}
use verification_tooling.Primitives.{Primitives}
use verification_tooling.Commitment.{
  leaf_domain, node_domain, first, domain_hash, leaf_hash, node_hash, next_level, merkle_loop,
  gateway_root,
}
use verification_tooling.Commitment.Separation.{Collision, domain_hash-injective}
use verification_tooling.Commitment.Merkle.{
  gateway_root-merkle_loop, length-next_level, merkle_loop_fuel,
}

module _ (x : Primitives) where
  node_payload :
      (a b : Hash32)
      → length a.bytes ≡ 32
      → length b.bytes ≡ 32
      → length (a.bytes ++ b.bytes) < 2 ^ 64
  node_payload a b ha hb = omega (arith, length-append a.bytes b.bytes)

  node_hash-injective :
      (a b c d : Hash32)
      → length a.bytes ≡ 32
      → length b.bytes ≡ 32
      → length c.bytes ≡ 32
      → length d.bytes ≡ 32
      → node_hash x a b ≡ node_hash x c d
      → ((a ≡ c) × (b ≡ d)) ⊎ Collision x
  unfolding node_hash utf8
  node_hash-injective a b c d ha hb hc hd h =
      elim (domain_hash-injective x node_domain (a.bytes ++ b.bytes) node_domain
        (c.bytes ++ d.bytes) (omega arith) (omega arith) (node_payload a b ha hb)
        (node_payload c d hc hd) h) [
          | inr collision ↦ inr collision
          | inl (_, same) ↦
              let parts = append-injective a.bytes b.bytes c.bytes d.bytes (omega arith) same in
              inl (ground arith)
        ]

-- SHA-256 has digests of 32 bytes.
abbrev pub HasDigests : Primitives → Type 0
HasDigests x = (m : Bytes) → length (x.sha256 m) ≡ 32

abbrev AreDigests : List Hash32 → Type 0
AreDigests = All (λ h. length h.bytes ≡ 32)

module _ (x : Primitives) (digests : HasDigests x) where
  next_level-AreDigests : (level : List Hash32) → AreDigests (next_level x level)
  unfolding next_level node_hash domain_hash
  next_level-AreDigests [] = tt
  next_level-AreDigests (a ∷ []) = (digests _, tt)
  next_level-AreDigests (a ∷ b ∷ rest) = (digests _, next_level-AreDigests rest)

  next_level-injective :
      (xs ys : List Hash32)
      → AreDigests xs
      → AreDigests ys
      → length xs ≡ length ys
      → next_level x xs ≡ next_level x ys
      → (xs ≡ ys) ⊎ Collision x
  unfolding next_level
  next_level-injective [] [] hx hy l e = inl refl
  next_level-injective [] (b ∷ ys) hx hy l e = absurd (omega arith)
  next_level-injective (a ∷ xs) [] hx hy l e = absurd (omega arith)
  next_level-injective (a ∷ []) (b ∷ []) hx hy l e = ground (arith, node_hash-injective x a a b b)
  next_level-injective (a ∷ []) (b ∷ c ∷ ys) hx hy l e = absurd (omega arith)
  next_level-injective (a ∷ b ∷ xs) (c ∷ []) hx hy l e = absurd (omega arith)
  next_level-injective (a ∷ b ∷ xs) (c ∷ d ∷ ys) hx hy l e =
      ground (arith, node_hash-injective x a b c d, next_level-injective xs ys)

  merkle_loop-injective :
      (fuel : ℕ) (xs ys : List Hash32)
      → AreDigests xs
      → AreDigests ys
      → length xs ≡ length ys
      → merkle_loop x fuel xs ≡ merkle_loop x fuel ys
      → (xs ≡ ys) ⊎ Collision x
  unfolding merkle_loop
  merkle_loop-injective zero xs ys hx hy l e = inl e
  merkle_loop-injective (suc fuel) xs ys hx hy l e = ground (
    arith,
    length-next_level x xs,
    length-next_level x ys,
    next_level-injective xs ys hx hy l,
    merkle_loop-injective fuel (next_level x xs) (next_level x ys) (next_level-AreDigests xs)
        (next_level-AreDigests ys),
  )

  abbrev encodings : List GatewayLeaf → List Bytes
  encodings = map x.postcard.gateway_leaf

  -- Encodings whose length is a 64-bit number.
  abbrev pub Encodable : List GatewayLeaf → Type 0
  Encodable = All (λ leaf. length (x.postcard.gateway_leaf leaf) < 2 ^ 64)

  leaf_hashes-AreDigests : (leaves : List GatewayLeaf) → AreDigests (map (leaf_hash x) leaves)
  unfolding leaf_hash domain_hash
  leaf_hashes-AreDigests [] = tt
  leaf_hashes-AreDigests (l ∷ ls) = (digests _, leaf_hashes-AreDigests ls)

  leaf_hashes-injective :
      (xs ys : List GatewayLeaf)
      → Encodable xs
      → Encodable ys
      → map (leaf_hash x) xs ≡ map (leaf_hash x) ys
      → (encodings xs ≡ encodings ys) ⊎ Collision x
  unfolding leaf_hash utf8
  leaf_hashes-injective [] [] hx hy e = inl refl
  leaf_hashes-injective [] (b ∷ ys) hx hy e = absurd (cc)
  leaf_hashes-injective (a ∷ xs) [] hx hy e = absurd (cc)
  leaf_hashes-injective (a ∷ xs) (b ∷ ys) hx hy e = ground (
    arith,
    domain_hash-injective x leaf_domain (x.postcard.gateway_leaf a) leaf_domain
        (x.postcard.gateway_leaf b) (omega arith) (omega arith) hx.0 hy.0,
    leaf_hashes-injective xs ys hx.1 hy.1,
  )

  -- If SHA-256 has digests of 32 bytes, equal roots over equally many leaves, whose encodings
  -- have a 64-bit length, come from leaves with equal encodings, or two different messages with
  -- one hash exist.
  pub gateway_root-injective :
      (xs ys : List GatewayLeaf)
      → Encodable xs
      → Encodable ys
      → length xs ≡ length ys
      → gateway_root x xs ≡ gateway_root x ys
      → (encodings xs ≡ encodings ys) ⊎ Collision x
  gateway_root-injective [] [] hx hy l e = inl refl
  gateway_root-injective [] (b ∷ ys) hx hy l e = absurd (omega arith)
  gateway_root-injective (a ∷ xs) [] hx hy l e = absurd (omega arith)
  gateway_root-injective (a ∷ xs) (b ∷ ys) hx hy l e =
      let p = gateway_root-merkle_loop x (a ∷ xs) (λ q. cc) in
      let q = gateway_root-merkle_loop x (b ∷ ys) (λ q. cc) in
      let same : merkle_loop x (length (a ∷ xs)) (map (leaf_hash x) (a ∷ xs))
          ≡ merkle_loop x (length (a ∷ xs)) (map (leaf_hash x) (b ∷ ys)) =
        p ∙ ap (λ r. r ∷ []) e ∙ sym (rw l q) in
      let widths =
        length-map (leaf_hash x) (a ∷ xs) ∙ l ∙ sym (length-map (leaf_hash x) (b ∷ ys)) in
      ground (
        arith,
        merkle_loop-injective (length (a ∷ xs)) (map (leaf_hash x) (a ∷ xs))
            (map (leaf_hash x) (b ∷ ys)) (leaf_hashes-AreDigests (a ∷ xs))
            (leaf_hashes-AreDigests (b ∷ ys)) widths same,
        leaf_hashes-injective (a ∷ xs) (b ∷ ys) hx hy,
      )

module _ (x : Primitives) where
  next_level_duplicate :
      (xs : List Hash32) (h : Hash32)
      → length xs % 2 ≡ 0
      → next_level x (xs ++ (h ∷ [])) ≡ next_level x (xs ++ (h ∷ h ∷ []))
  unfolding next_level
  next_level_duplicate [] h e = refl
  next_level_duplicate (a ∷ []) h e = absurd (omega arith)
  next_level_duplicate (a ∷ b ∷ xs) h e =
      ap (λ r. node_hash x a b ∷ r) (next_level_duplicate xs h (omega arith))

  -- One round of the loop over two nodes or more.
  merkle_loop_round :
      (fuel : ℕ) (level : List Hash32)
      → 1 < length level
      → merkle_loop x (suc fuel) level ≡ merkle_loop x fuel (next_level x level)
  unfolding merkle_loop
  merkle_loop_round fuel level h = ground arith

  merkle_loop_duplicate :
      (f g : ℕ) (level : List Hash32) (h : Hash32)
      → 0 < length level
      → length level % 2 ≡ 0
      → length level + 1 ≤ f
      → length level + 2 ≤ g
      → merkle_loop x f (level ++ (h ∷ [])) ≡ merkle_loop x g (level ++ (h ∷ h ∷ []))
  merkle_loop_duplicate f g level h pos even hf hg =
      let k = length level + 1 in
      let one = length-append level (h ∷ []) in
      let two = length-append level (h ∷ h ∷ []) in
      merkle_loop_fuel x f (suc k) (level ++ (h ∷ [])) (omega arith) (omega arith) (omega arith)
      ∙ merkle_loop_round k (level ++ (h ∷ [])) (omega arith)
      ∙ ap (merkle_loop x k) (next_level_duplicate level h even)
      ∙ sym (merkle_loop_round k (level ++ (h ∷ h ∷ [])) (omega arith))
      ∙ merkle_loop_fuel x (suc k) g (level ++ (h ∷ h ∷ [])) (omega arith) (omega arith)
          (omega arith)

  -- After a positive even number of leaves, one more leaf and that leaf twice have the same root:
  -- the root binds the leaves only together with their number.
  pub gateway_root_duplicate :
      (xs : List GatewayLeaf) (leaf : GatewayLeaf)
      → xs ≢ []
      → length xs % 2 ≡ 0
      → gateway_root x (xs ++ (leaf ∷ [])) ≡ gateway_root x (xs ++ (leaf ∷ leaf ∷ []))
  unfolding gateway_root
  gateway_root_duplicate [] leaf ne e = absurd (ne refl)
  gateway_root_duplicate (a ∷ xs) leaf ne e =
      let h = leaf_hash x in
      let one = length-append (a ∷ xs) (leaf ∷ []) in
      let two = length-append (a ∷ xs) (leaf ∷ leaf ∷ []) in
      let width = length-map h (a ∷ xs) in
      ap first (
        ap (merkle_loop x _) (map-append h (a ∷ xs) (leaf ∷ []))
        ∙ merkle_loop_duplicate _ _ (map h (a ∷ xs)) (h leaf) (omega arith) (omega arith)
            (omega arith) (omega arith)
        ∙ ap (merkle_loop x _) (sym (map-append h (a ∷ xs) (leaf ∷ leaf ∷ []))))
