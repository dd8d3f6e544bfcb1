-- ===== src/Crypto.antt =====
-- crates/pocomp-protocol/src/crypto.rs: signing and verifying under a domain for each record.
pub mod Laws
use verification_tooling.Prelude.{
  ◌++◌, Bool, true, false, ◌&&◌, Bytes, utf8, length, ◌==◌, nat_eq, if◌then◌else◌,
}
use verification_tooling.Types.Records.{GatewayRoot, SignedGatewayRoot}
use verification_tooling.Types.Audit.{
  AuditContract, SignedAuditContract, ErasureCertificate, SignedErasureCertificate,
}
use verification_tooling.Types.CuPow.{
  CuPowCapacityCertificate, SignedCuPowCapacityCertificate, CuPowContract, SignedCuPowContract,
  CuPowChallenge, SignedCuPowChallenge, CuPowCompletion, SignedCuPowCompletion,
}
use verification_tooling.Primitives.{Primitives}

abbrev pub gateway_signing_domain : Bytes
unfolding utf8
gateway_signing_domain = utf8 "pocomp/gateway-root-signature/v1"

abbrev pub contract_signing_domain : Bytes
unfolding utf8
contract_signing_domain = utf8 "pocomp/audit-contract-signature/v1"

abbrev pub erasure_signing_domain : Bytes
unfolding utf8
erasure_signing_domain = utf8 "pocomp/erasure-certificate-signature/v1"

abbrev pub cupow_capacity_signing_domain : Bytes
unfolding utf8
cupow_capacity_signing_domain = utf8 "pocomp/cupow/capacity-signature/v1"

abbrev pub cupow_contract_signing_domain : Bytes
unfolding utf8
cupow_contract_signing_domain = utf8 "pocomp/cupow/contract-signature/v1"

abbrev pub cupow_challenge_signing_domain : Bytes
unfolding utf8
cupow_challenge_signing_domain = utf8 "pocomp/cupow/challenge-signature/v1"

abbrev pub cupow_completion_signing_domain : Bytes
unfolding utf8
cupow_completion_signing_domain = utf8 "pocomp/cupow/completion-signature/v1"

-- The signed message: the domain, then the postcard encoding.
unfoldable pub signing_bytes : Bytes → Bytes → Bytes
signing_bytes domain encoded = domain ++ encoded

module _ (x : Primitives) where
  open x use {postcard, ed25519}

  -- A key that does not parse and a signature of another length than 64 are refused.
  unfoldable pub verify_signature {ℓ} :
      {T : Type ℓ} → Bytes → (T → Bytes) → T → Bytes → Bytes → Bool
  verify_signature domain encode value signature public_key =
      if ed25519.is_key public_key
      then (if length signature == 64
          then ed25519.verify public_key (signing_bytes domain (encode value)) signature
          else false)
      else false

  unfoldable pub sign_gateway_root : GatewayRoot → Bytes → SignedGatewayRoot
  sign_gateway_root root key = record {
    statement = root;
    signature =
        ed25519.sign key (signing_bytes gateway_signing_domain (postcard.gateway_root root));
  }

  unfoldable pub verify_gateway_root_signature : SignedGatewayRoot → Bytes → Bool
  unfolding verify_signature
  verify_gateway_root_signature signed public_key =
      verify_signature gateway_signing_domain postcard.gateway_root signed.statement
        signed.signature public_key

  unfoldable pub sign_audit_contract : AuditContract → Bytes → SignedAuditContract
  sign_audit_contract contract key = record {
    contract = contract;
    signature =
        ed25519.sign key (signing_bytes contract_signing_domain (postcard.audit_contract contract));
  }

  unfoldable pub verify_audit_contract_signature : SignedAuditContract → Bytes → Bool
  unfolding verify_signature
  verify_audit_contract_signature signed public_key =
      verify_signature contract_signing_domain postcard.audit_contract signed.contract
        signed.signature public_key

  unfoldable pub sign_erasure_certificate : ErasureCertificate → Bytes → SignedErasureCertificate
  sign_erasure_certificate certificate key = record {
    certificate = certificate;
    signature =
        ed25519.sign key
          (signing_bytes erasure_signing_domain (postcard.erasure_certificate certificate));
  }

  unfoldable pub verify_erasure_certificate_signature : SignedErasureCertificate → Bytes → Bool
  unfolding verify_signature
  verify_erasure_certificate_signature signed public_key =
      verify_signature erasure_signing_domain postcard.erasure_certificate signed.certificate
        signed.signature public_key

  unfoldable pub sign_cupow_capacity :
      CuPowCapacityCertificate → Bytes → SignedCuPowCapacityCertificate
  sign_cupow_capacity certificate key = record {
    certificate = certificate;
    signature =
        ed25519.sign key
          (signing_bytes cupow_capacity_signing_domain (postcard.capacity_certificate certificate));
  }

  unfoldable pub verify_cupow_capacity_signature : SignedCuPowCapacityCertificate → Bytes → Bool
  unfolding verify_signature
  verify_cupow_capacity_signature signed public_key =
      verify_signature cupow_capacity_signing_domain postcard.capacity_certificate
        signed.certificate signed.signature public_key

  unfoldable pub sign_cupow_contract : CuPowContract → Bytes → SignedCuPowContract
  sign_cupow_contract contract key = record {
    contract = contract;
    signature =
        ed25519.sign key
          (signing_bytes cupow_contract_signing_domain (postcard.cupow_contract contract));
  }

  unfoldable pub verify_cupow_contract_signature : SignedCuPowContract → Bytes → Bool
  unfolding verify_signature
  verify_cupow_contract_signature signed public_key =
      verify_signature cupow_contract_signing_domain postcard.cupow_contract signed.contract
        signed.signature public_key

  unfoldable pub sign_cupow_challenge : CuPowChallenge → Bytes → SignedCuPowChallenge
  sign_cupow_challenge challenge key = record {
    challenge = challenge;
    signature =
        ed25519.sign key
          (signing_bytes cupow_challenge_signing_domain (postcard.cupow_challenge challenge));
  }

  unfoldable pub verify_cupow_challenge_signature : SignedCuPowChallenge → Bytes → Bool
  unfolding verify_signature
  verify_cupow_challenge_signature signed public_key =
      verify_signature cupow_challenge_signing_domain postcard.cupow_challenge signed.challenge
        signed.signature public_key

  unfoldable pub sign_cupow_completion : CuPowCompletion → Bytes → SignedCuPowCompletion
  sign_cupow_completion completion key = record {
    completion = completion;
    signature =
        ed25519.sign key
          (signing_bytes cupow_completion_signing_domain (postcard.cupow_completion completion));
  }

  unfoldable pub verify_cupow_completion_signature : SignedCuPowCompletion → Bytes → Bool
  unfolding verify_signature
  verify_cupow_completion_signature signed public_key =
      verify_signature cupow_completion_signing_domain postcard.cupow_completion signed.completion
        signed.signature public_key
