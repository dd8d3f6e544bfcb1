-- ===== src/CuPow/Noise/Separation.antt =====
-- About the message that `derive_matrix` of crates/pocomp-protocol/src/cupow.rs hashes, and
-- what it tells apart.
use verification_tooling.Prelude.{
  ℕ, ◌^◌, ◌<◌, ◌≡◌, refl, sym, ◌∙◌, Bytes, Text, length, append-injective,
}
use verification_tooling.Types.Records.{Hash32}
use verification_tooling.Commitment.Encoding.{be_bytes-injective}
use verification_tooling.Commitment.Separation.{prefixed-injective}
use verification_tooling.CuPow.Noise.{noise_domain, noise_message}

module _ (s t : Hash32) (v w : Hash32) (o p : Text) (k l : Bytes) (m n : ℕ) where
  -- For seeds and workload commitments of 32 bytes, operation identifiers and labels below 2^64
  -- bytes and retries below 2^32, the messages of two noise derivations are equal only if seed,
  -- workload commitment, operation, label and retry all are: different derivations hash different
  -- messages.
  pub noise_message-injective :
      length s.bytes ≡ 32
      → length t.bytes ≡ 32
      → length v.bytes ≡ 32
      → length w.bytes ≡ 32
      → length o < 2 ^ 64
      → length p < 2 ^ 64
      → length k < 2 ^ 64
      → length l < 2 ^ 64
      → m < 2 ^ 32
      → n < 2 ^ 32
      → noise_message s v o k m ≡ noise_message t w p l n
      → (s.bytes ≡ t.bytes) × (v.bytes ≡ w.bytes) × (o ≡ p) × (k ≡ l) × (m ≡ n)
  unfolding noise_message
  noise_message-injective hs ht hv hw ho hp hk hl hm hn same =
      let seeded = (append-injective noise_domain _ noise_domain _ refl same).1 in
      let seeds = append-injective s.bytes _ t.bytes _ (hs ∙ sym ht) seeded in
      let workloads = append-injective v.bytes _ w.bytes _ (hv ∙ sym hw) seeds.1 in
      let operations = prefixed-injective o p _ _ ho hp workloads.1 in
      let labels = prefixed-injective k l _ _ hk hl operations.1 in
      (seeds.0, workloads.0, operations.0, labels.0, be_bytes-injective 4 m n hm hn labels.1)
