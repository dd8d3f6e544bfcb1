-- ===== src/Types.antt =====
-- The protocol's data types, crates/pocomp-protocol/src/types.rs, and its version constants.
pub mod Records
pub mod Audit
pub mod CuPow
use verification_tooling.Prelude.{Text, utf8}

-- Each constant is opaque unless `utf8` is unfolded.
abbrev pub protocol_version : Text
unfolding utf8
protocol_version = utf8 "pocomp.v1"

abbrev pub cupow_protocol_version : Text
unfolding utf8
cupow_protocol_version = utf8 "pocomp.cupow.v1"

abbrev pub cupow_arithmetic_profile : Text
unfolding utf8
cupow_arithmetic_profile = utf8 "f251-int8-r128.v1"

abbrev pub cupow_transcript_profile : Text
unfolding utf8
cupow_transcript_profile = utf8 "zktorch-bn254-kzg-row-commitments-v1"

abbrev pub exact_pairing_program : Text
unfolding utf8
exact_pairing_program = utf8 "exact-one-ingress-one-egress.v1"

abbrev pub zktorch_version : Text
unfolding utf8
zktorch_version = utf8 "63b9c68960f3ca84026d89428dd6d8129e930d53"
