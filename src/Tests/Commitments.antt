-- ===== src/Tests/Commitments.antt =====
-- Applications of the theorems on encodings, hashes, Merkle roots, signatures and samples.
use verification_tooling.Prelude.{
  ℕ, [], ◌∷◌, ◌++◌, map, true, Bytes, length, ◌≡◌, ◌⊎◌, refl, arith, ℕ_discrete, utf8,
}
use verification_tooling.Types.Records.{GatewayLeaf, ingress}
use verification_tooling.Types.Audit.{TaskPolicy}
use verification_tooling.Commitment.{leaf_hash, merkle_loop, gateway_root, leaf_domain}
use verification_tooling.Commitment.Encoding.{be_bytes, from_be_bytes}
use verification_tooling.Commitment.Separation.{Collision, domain_hash-injective}
use verification_tooling.Commitment.Merkle.{gateway_root-merkle_loop}
use verification_tooling.Commitment.Binding.{
  Encodable, gateway_root-injective, gateway_root_duplicate,
}
use verification_tooling.Crypto.{sign_gateway_root, verify_gateway_root_signature}
use verification_tooling.Crypto.Laws.{verify-sign_records}
use verification_tooling.CuPow.Noise.{e_left_label}
use verification_tooling.CuPow.Noise.Separation.{noise_message-injective}
use verification_tooling.Gateway.{next_leaf, empty_ledger}
use verification_tooling.Sampling.{sample_message, is_sampled, sample_threshold, sample_draw}
use verification_tooling.Sampling.Laws.{is_sampled_mono}
use verification_tooling.Tests.Toy.{toy, toy-IsSignatureScheme, key, hash_of, content_of, policy}
use verification_tooling.Tests.Gateway.{leaves, root, config}

abbrev short : Bytes
short = 1 ∷ []

domain_hash-injective_example : ((leaf_domain ≡ leaf_domain) × (short ≡ short)) ⊎ Collision toy
unfolding utf8
domain_hash-injective_example =
    domain_hash-injective toy leaf_domain short leaf_domain short (omega arith) (omega arith)
      (omega arith) (omega arith) refl

gateway_root-merkle_loop_example :
    merkle_loop toy (length leaves) (map (leaf_hash toy) leaves) ≡ gateway_root toy leaves ∷ []
gateway_root-merkle_loop_example = gateway_root-merkle_loop toy leaves (λ e. cc)

abbrev third : GatewayLeaf
third = next_leaf config empty_ledger (7 ∷ []) ingress 20 21 1 (content_of 3)

encodable : Encodable toy (λ m. refl) leaves
unfolding next_leaf
encodable = (ground arith, (ground arith, tt))

gateway_root-injective_example :
    (map toy.postcard.gateway_leaf leaves ≡ map toy.postcard.gateway_leaf leaves) ⊎ Collision toy
gateway_root-injective_example =
    gateway_root-injective toy (λ m. refl) leaves leaves encodable encodable refl refl

gateway_root_duplicate_example :
    gateway_root toy (leaves ++ (third ∷ [])) ≡ gateway_root toy (leaves ++ (third ∷ third ∷ []))
gateway_root_duplicate_example = gateway_root_duplicate toy leaves third (λ e. cc) (omega arith)

verify-sign_records_example :
    verify_gateway_root_signature toy (sign_gateway_root toy root key) key ≡ true
verify-sign_records_example = (verify-sign_records toy toy-IsSignatureScheme key).0 root

abbrev place : ℕ
place = 4

abbrev last_retry : ℕ
last_retry = 65_535

noise_message-injective_example :
    ((hash_of 2).bytes ≡ (hash_of 2).bytes)
    × ((hash_of 3).bytes ≡ (hash_of 3).bytes)
    × (short ≡ short)
    × (e_left_label ≡ e_left_label)
    × (last_retry ≡ last_retry)
unfolding utf8
noise_message-injective_example =
    noise_message-injective (hash_of 2) (hash_of 2) (hash_of 3) (hash_of 3) short short e_left_label
      e_left_label 65_535 65_535 refl refl refl refl (omega arith) (omega arith) (omega arith)
      (omega arith) (omega arith) (omega arith) refl

abbrev half : TaskPolicy
half = record policy.task { sample_numerator = 1; sample_denominator = 2 }

abbrev most : TaskPolicy
most = record policy.task { sample_numerator = 3; sample_denominator = 4 }

sampled_at_half : is_sampled toy (hash_of 2) (4 ∷ []) (7 ∷ []) half ≡ true
unfolding is_sampled sample_threshold sample_draw sample_message be_bytes from_be_bytes utf8
    ℕ_discrete
sampled_at_half = refl

is_sampled_mono_example : is_sampled toy (hash_of 2) (4 ∷ []) (7 ∷ []) most ≡ true
is_sampled_mono_example =
    is_sampled_mono toy (hash_of 2) (4 ∷ []) (7 ∷ []) half most (omega arith) (omega arith)
      (omega arith) sampled_at_half
