-- ===== src/Crypto/Laws.antt =====
-- About crates/pocomp-protocol/src/crypto.rs: signing against verifying, and the signing domains.
use verification_tooling.Prelude.{
  List, [], ◌∷◌, Bool, true, false, ◌&&◌, Bytes, bytes_eq, nat_eq, ◌≡◌, arith, ite, ℕ_discrete,
}
use verification_tooling.Types.Records.{GatewayRoot}
use verification_tooling.Types.Audit.{AuditContract, ErasureCertificate}
use verification_tooling.Types.CuPow.{
  CuPowCapacityCertificate, CuPowContract, CuPowChallenge, CuPowCompletion,
}
use verification_tooling.Primitives.{Primitives, IsSignatureScheme}
use verification_tooling.Crypto.{
  gateway_signing_domain, contract_signing_domain, erasure_signing_domain,
  cupow_capacity_signing_domain, cupow_contract_signing_domain, cupow_challenge_signing_domain,
  cupow_completion_signing_domain, signing_bytes, verify_signature, sign_gateway_root,
  verify_gateway_root_signature, sign_audit_contract, verify_audit_contract_signature,
  sign_erasure_certificate, verify_erasure_certificate_signature, sign_cupow_capacity,
  verify_cupow_capacity_signature, sign_cupow_contract, verify_cupow_contract_signature,
  sign_cupow_challenge, verify_cupow_challenge_signature, sign_cupow_completion,
  verify_cupow_completion_signature,
}

verify-sign {ℓ} :
    (x : Primitives)
    → IsSignatureScheme x.ed25519
    → {T : Type ℓ} (domain : Bytes) (encode : T → Bytes) (value : T) (key : Bytes)
    → verify_signature x domain encode value
        (x.ed25519.sign key (signing_bytes domain (encode value)))
        (x.ed25519.verifying_key key)
      ≡ true
unfolding verify_signature
verify-sign x s domain encode value key = ground (
  arith,
  s.key_valid key,
  s.length-sign key (signing_bytes domain (encode value)),
  s.verify-sign key (signing_bytes domain (encode value)),
)

-- For a signature scheme whose signatures have 64 bytes and verify, each of the seven kinds of
-- signed record verifies under the public key of the key that signed it.
pub verify-sign_records :
    (x : Primitives)
    → IsSignatureScheme x.ed25519
    → (key : Bytes)
    → let pk = x.ed25519.verifying_key key in
      ((r : GatewayRoot) → verify_gateway_root_signature x (sign_gateway_root x r key) pk ≡ true)
      × ((c : AuditContract)
          → verify_audit_contract_signature x (sign_audit_contract x c key) pk ≡ true)
      × ((c : ErasureCertificate)
          → verify_erasure_certificate_signature x (sign_erasure_certificate x c key) pk ≡ true)
      × ((c : CuPowCapacityCertificate)
          → verify_cupow_capacity_signature x (sign_cupow_capacity x c key) pk ≡ true)
      × ((c : CuPowContract)
          → verify_cupow_contract_signature x (sign_cupow_contract x c key) pk ≡ true)
      × ((c : CuPowChallenge)
          → verify_cupow_challenge_signature x (sign_cupow_challenge x c key) pk ≡ true)
      × ((c : CuPowCompletion)
          → verify_cupow_completion_signature x (sign_cupow_completion x c key) pk ≡ true)
unfolding sign_gateway_root verify_gateway_root_signature sign_audit_contract
    verify_audit_contract_signature sign_erasure_certificate verify_erasure_certificate_signature
    sign_cupow_capacity verify_cupow_capacity_signature sign_cupow_contract
    verify_cupow_contract_signature sign_cupow_challenge verify_cupow_challenge_signature
    sign_cupow_completion verify_cupow_completion_signature
verify-sign_records x s key =
    let p = x.postcard in
    (
      λ r. verify-sign x s gateway_signing_domain p.gateway_root r key,
      λ c. verify-sign x s contract_signing_domain p.audit_contract c key,
      λ c. verify-sign x s erasure_signing_domain p.erasure_certificate c key,
      λ c. verify-sign x s cupow_capacity_signing_domain p.capacity_certificate c key,
      λ c. verify-sign x s cupow_contract_signing_domain p.cupow_contract c key,
      λ c. verify-sign x s cupow_challenge_signing_domain p.cupow_challenge c key,
      λ c. verify-sign x s cupow_completion_signing_domain p.cupow_completion c key,
    )

abbrev pub signing_domains : List Bytes
signing_domains =
    gateway_signing_domain ∷ contract_signing_domain ∷ erasure_signing_domain
    ∷ cupow_capacity_signing_domain ∷ cupow_contract_signing_domain ∷ cupow_challenge_signing_domain
    ∷ cupow_completion_signing_domain ∷ []

-- The texts differ at a position that both have.
diverge : Bytes → Bytes → Bool
diverge [] e = false
diverge (a ∷ d) [] = false
diverge (a ∷ d) (b ∷ e) = ite (ℕ_discrete a b) (diverge d e) true

diverge_all : Bytes → List Bytes → Bool
diverge_all d [] = true
diverge_all d (e ∷ es) = diverge d e && diverge_all d es

-- Each text diverges from all that come after it.
pairwise_diverge : List Bytes → Bool
pairwise_diverge [] = true
pairwise_diverge (d ∷ ds) = diverge_all d ds && pairwise_diverge ds
