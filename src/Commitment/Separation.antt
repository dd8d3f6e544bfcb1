-- ===== src/Commitment/Separation.antt =====
-- About `domain_hash` of crates/pocomp-protocol/src/commitment.rs: the injectivity of its message.
use verification_tooling.Prelude.{
  ◌^◌, ◌<◌, ◌++◌, ◌≡◌, refl, sym, ap, ◌∙◌, ◌≢◌, ◌⊎◌, inl, inr, Bytes, bytes_dec, length,
  append-injective, arith,
}
use verification_tooling.Types.Records.{Hash32}
use verification_tooling.Primitives.{Primitives}
use verification_tooling.Commitment.{
  hash_domain, domain_message, domain_hash, commitment, commitment_domain,
}
use verification_tooling.Commitment.Encoding.{be_bytes, length-be_bytes, be_bytes-injective}

-- Two messages with one hash.
abbrev pub Collision : Primitives → Type 0
Collision x = (a : Bytes) × (b : Bytes) × (a ≢ b) × (x.sha256 a ≡ x.sha256 b)

-- A length prefix and its contents, before more.
pub prefixed-injective :
    (d e u v : Bytes)
    → length d < 256 ^ 8
    → length e < 256 ^ 8
    → be_bytes 8 (length d) ++ (d ++ u) ≡ be_bytes 8 (length e) ++ (e ++ v)
    → (d ≡ e) × (u ≡ v)
prefixed-injective d e u v hd he h =
    let widths = length-be_bytes 8 (length d) ∙ sym (length-be_bytes 8 (length e)) in
    let split = append-injective _ (d ++ u) _ (e ++ v) widths h in
    append-injective d u e v (be_bytes-injective 8 _ _ hd he split.0) split.1

domain_message-injective :
    (d p e q : Bytes)
    → length d < 2 ^ 64
    → length e < 2 ^ 64
    → length p < 2 ^ 64
    → length q < 2 ^ 64
    → domain_message d p ≡ domain_message e q
    → (d ≡ e) × (p ≡ q)
unfolding domain_message
domain_message-injective d p e q hd he hp hq h =
    let outer =
      prefixed-injective d e _ _ hd he (append-injective hash_domain _ hash_domain _ refl h).1 in
    let widths = length-be_bytes 8 (length p) ∙ sym (length-be_bytes 8 (length q)) in
    (outer.0, (append-injective _ p _ q widths outer.1).1)

-- Equal hashes of domains and payloads below 2^64 bytes come from equal domains and equal
-- payloads, or two different messages with one SHA-256 hash exist.
pub domain_hash-injective :
    (x : Primitives) (d p e q : Bytes)
    → length d < 2 ^ 64
    → length e < 2 ^ 64
    → length p < 2 ^ 64
    → length q < 2 ^ 64
    → domain_hash x d p ≡ domain_hash x e q
    → ((d ≡ e) × (p ≡ q)) ⊎ Collision x
unfolding domain_hash
domain_hash-injective x d p e q hd he hp hq h =
    elim (bytes_dec (domain_message d p) (domain_message e q)) [
      | yes same ↦ inl (domain_message-injective d p e q hd he hp hq same)
      | no differ ↦
          inr (domain_message d p, domain_message e q, differ, ap (λ (k : Hash32). k.bytes) h)
    ]

-- The same for the commitments to two values, by their encodings.
pub commitment-injective {ℓ} :
    {T : Type ℓ} (x : Primitives) (encode : T → Bytes) (s t : T)
    → length (encode s) < 2 ^ 64
    → length (encode t) < 2 ^ 64
    → commitment x encode s ≡ commitment x encode t
    → (encode s ≡ encode t) ⊎ Collision x
unfolding commitment commitment_domain
commitment-injective x encode s t hs ht h =
    elim (domain_hash-injective x commitment_domain (encode s) commitment_domain (encode t)
      (omega arith) (omega arith) hs ht h) [ inl (d, same) ↦ inl same | inr c ↦ inr c ]
