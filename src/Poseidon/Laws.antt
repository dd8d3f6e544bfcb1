-- ===== src/Poseidon/Laws.antt =====
-- About the tree hash of crates/pocomp-protocol/src/poseidon2.rs: its loop ends with one root.
use verification_tooling.Prelude.{
  ℕ, zero, suc, ◌+◌, ◌-◌, ◌/◌, ◌≤◌, List, [], ◌∷◌, ◌++◌, Bytes, Text, true, ltb, length,
  length-append, take, drop, replicate, All, Option, some, ok, ◌≡◌, refl, ap, arith,
}
use verification_tooling.Types.Records.{Hash32}
use verification_tooling.Poseidon.{
  external_matrix, ScalarField, larger, resize, next_power_of_two, from_hex, external_loop,
  internal_loop, permutation, merkle_leaves, compress, hash_loop, root_hash, hash_fields, limbs,
  poseidon2_hash_digests, State,
}
use verification_tooling.Poseidon.Constants.{Row, external_rounds, internal_rounds}
use verification_tooling.Poseidon.Sizes.{
  power, power_pos, below_power, next_power_of_two_lem, length-replicate, length-take, length-drop,
}

module _ {F : Type 0} (field : ScalarField F) (decode : Text → Option Bytes) where
  abbrev pub Decodes : Text → Type 0
  Decodes c = (b : Bytes) × (decode c ≡ some b)

  abbrev pub RowDecodes : Row → Type 0
  RowDecodes (j, k, l) = Decodes j × Decodes k × Decodes l

  -- The pinned constants are hexadecimal.
  pub record ConstantsDecode : Type 0 where
    pub external : All RowDecodes external_rounds
    pub internal : All Decodes internal_rounds

  from_hex_total : (c : Text) → Decodes c → (v : F) × (from_hex field decode c ≡ ok v)
  unfolding from_hex
  from_hex_total c (b, e) = (field.from_be_bytes b, ground (arith, e))

  external_loop_total :
      (rows : List Row) (s : State field decode)
      → All RowDecodes rows
      → (t : State field decode) × (external_loop field decode rows s ≡ ok t)
  unfolding external_loop
  external_loop_total [] s h = (s, refl)
  external_loop_total ((j, k, l) ∷ rows) (a, b, c) ((dj, dk, dl), h) =
      let (u, eu) = from_hex_total j dj in
      let (v, ev) = from_hex_total k dk in
      let (w, ew) = from_hex_total l dl in rw (eu, ev, ew) (external_loop_total rows _ h)

  internal_loop_total :
      (cs : List Text) (s : State field decode)
      → All Decodes cs
      → (t : State field decode) × (internal_loop field decode cs s ≡ ok t)
  unfolding internal_loop
  internal_loop_total [] s h = (s, refl)
  internal_loop_total (j ∷ cs) (a, b, c) (dj, h) =
      let (u, eu) = from_hex_total j dj in rw eu (internal_loop_total cs _ h)

  take-All : {A : Type 0} (P : A → Type 0) (n : ℕ) (xs : List A) → All P xs → All P (take n xs)
  take-All P zero xs h = tt
  take-All P (suc n) [] h = tt
  take-All P (suc n) (x ∷ xs) (p, h) = (p, take-All P n xs h)

  drop-All : {A : Type 0} (P : A → Type 0) (n : ℕ) (xs : List A) → All P xs → All P (drop n xs)
  drop-All P zero xs h = h
  drop-All P (suc n) [] h = tt
  drop-All P (suc n) (x ∷ xs) (p, h) = drop-All P n xs h

  permutation_total :
      (s : State field decode)
      → ConstantsDecode
      → (t : State field decode) × (permutation field decode s ≡ ok t)
  unfolding permutation
  permutation_total s d =
      let (u, eu) =
        external_loop_total (take 4 external_rounds) (external_matrix field decode s)
          (take-All RowDecodes 4 external_rounds d.external) in
      let (v, ev) = internal_loop_total internal_rounds u d.internal in
      let (w, ew) =
        external_loop_total (drop 4 external_rounds) v
          (drop-All RowDecodes 4 external_rounds d.external) in
      (w, rw (eu, ev) ew)

  compress_total :
      (tweak : F) (n : ℕ) (lefts rights : List F)
      → ConstantsDecode
      → length lefts ≡ n
      → length rights ≡ n
      → (next : List F) × (compress field decode tweak lefts rights ≡ ok next) × (length next ≡ n)
  unfolding compress
  compress_total tweak n [] rights d hl hr = ([], refl, hl)
  compress_total tweak n (l ∷ ls) [] d hl hr = absurd (omega arith)
  compress_total tweak zero (l ∷ ls) (r ∷ rs) d hl hr = absurd (omega arith)
  compress_total tweak (suc n) (l ∷ ls) (r ∷ rs) d hl hr =
      let (t, et) = permutation_total (l, r, tweak) d in
      let (next, en, ln) = compress_total tweak n ls rs d (omega arith) (omega arith) in
      (t.0 ∷ next, rw (et, en) refl, ap suc ln)

  single : (level : List F) → length level ≡ 1 → (root : F) × (level ≡ root ∷ [])
  single [] h = absurd (omega arith)
  single (a ∷ []) h = (a, refl)
  single (a ∷ b ∷ rest) h = absurd (omega arith)

  hash_loop_total :
      (k domain depth : ℕ) (level : List F)
      → ConstantsDecode
      → length level ≡ power k
      → (root : F) × ((fuel : ℕ)
          → k ≤ fuel
          → hash_loop field decode fuel domain depth level ≡ ok (root ∷ []))
  unfolding hash_loop
  hash_loop_total zero domain depth level d h =
      let (root, e) = single level h in (root, λ fuel b. stops root e fuel)
    where
      stops :
          (root : F)
          → level ≡ root ∷ []
          → (fuel : ℕ) → hash_loop field decode fuel domain depth level ≡ ok (root ∷ [])
      stops root e zero = ap ok e
      stops root e (suc fuel) = ground (arith, e, h)
  hash_loop_total (suc k) domain depth level d h =
      let half : length level / 2 ≡ power k = omega (arith, h) in
      let twice : length level ≡ power k + power k = omega (arith, h) in
      let long : ltb 1 (length level) ≡ true = ground (arith, power_pos k, twice) in
      let tweak = field.plus (field.of_nat domain) (field.of_nat depth) in
      let (next, en, ln) =
        compress_total tweak (power k) (take (length level / 2) level)
          (drop (length level / 2) level) d (rw half (length-take (power k) (power k) level twice))
          (rw half (length-drop (power k) (power k) level twice)) in
      let (root, more) = hash_loop_total k domain (suc depth) next d ln in
      (root, λ fuel b. continues next root more long en fuel b)
    where
      continues :
          (next : List F) (root : F)
          → ((fuel : ℕ)
              → k ≤ fuel
              → hash_loop field decode fuel domain (suc depth) next ≡ ok (root ∷ []))
          → ltb 1 (length level) ≡ true
          → compress field decode
              (field.plus (field.of_nat domain) (field.of_nat depth))
              (take (length level / 2) level)
              (drop (length level / 2) level)
            ≡ ok next
          → (fuel : ℕ) → suc k ≤ fuel
          → hash_loop field decode fuel domain depth level ≡ ok (root ∷ [])
      continues next root more long en zero b = absurd (omega arith)
      continues next root more long en (suc fuel) b =
          ground (arith, long, en, more fuel (omega arith))

  length-merkle_leaves :
      (domain : ℕ) (fields : List F)
      → (k : ℕ) × (length (merkle_leaves field decode domain fields) ≡ power (suc k))
        × (length fields ≤ power k)
  unfolding merkle_leaves larger
  length-merkle_leaves domain fields =
      let most = larger (length fields) 4 in
      let (k, e, b) = next_power_of_two_lem most in
      let width = next_power_of_two most in
      let fits : length fields ≤ power k = ground (arith, b) in
      let four : 4 ≤ power k = ground (arith, b) in
      let left = length-replicate (width - 3) field.nought in
      let right = length-replicate (width - length fields) field.nought in
      let inner = length-append fields (replicate (width - length fields) field.nought) in
      let outer =
        length-append (replicate (width - 3) field.nought)
          (fields ++ replicate (width - length fields) field.nought) in
      (k, omega (arith, e, fits, four, left, right, inner, outer), fits)

  length-root_hash : (root : F) → length (root_hash field decode root).bytes ≡ 32
  unfolding root_hash resize
  length-root_hash root =
      let bytes = field.to_bytes_le root in
      length-take 32 (length bytes) (bytes ++ replicate 32 0)
        (omega (arith, length-append bytes (replicate 32 0)))

  -- What a hash of digests is: the root of the loop after as many rounds as the logarithm of the leaves.
  pub record Hashed (domain : ℕ) (digests : List Hash32) : Type 0 where
    pub rounds : ℕ
    pub root : F
    pub leaves_counted :
        length (merkle_leaves field decode domain (limbs field decode digests)) ≡ power rounds
    pub ended :
        hash_loop field decode rounds domain 0
          (merkle_leaves field decode domain (limbs field decode digests))
        ≡ ok (root ∷ [])
    pub hashed :
        poseidon2_hash_digests field decode domain digests ≡ ok (root_hash field decode root)
    pub width : length (root_hash field decode root).bytes ≡ 32

  -- When the pinned constants are hexadecimal, the hash of any digests under any domain ends: the
  -- first level has a power of two of leaves, as many rounds as its logarithm leave exactly one
  -- root, and the hash is the encoding of that root in 32 bytes.
  pub poseidon2_hash_digests_total :
      (domain : ℕ) (digests : List Hash32) → ConstantsDecode → Hashed domain digests
  unfolding poseidon2_hash_digests hash_fields
  poseidon2_hash_digests_total domain digests d =
      let (k, long, fits) = length-merkle_leaves domain (limbs field decode digests) in
      let leaves = merkle_leaves field decode domain (limbs field decode digests) in
      let (root, done) = hash_loop_total (suc k) domain 0 leaves d long in
      let whole = done (length leaves) (omega (arith, long, below_power (suc k))) in
      record {
        rounds = suc k;
        root = root;
        leaves_counted = long;
        ended = done (suc k) (omega arith);
        hashed = ground (arith, whole);
        width = length-root_hash root;
      }
