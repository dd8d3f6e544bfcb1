-- ===== src/Tests/Poseidon.antt =====
-- A hash of two digests over a small field.
use verification_tooling.Prelude.{
  ℕ, ◌+◌, ◌*◌, ◌%◌, List, [], ◌∷◌, Bytes, Text, All, Option, some, refl,
}
use verification_tooling.Poseidon.{ScalarField}
use verification_tooling.Poseidon.Constants.{Row, external_rounds, internal_rounds}
use verification_tooling.Poseidon.Laws.{
  Decodes, RowDecodes, ConstantsDecode, Hashed, poseidon2_hash_digests_total,
}
use verification_tooling.Tests.Toy.{hash_of}

abbrev from_bytes : Bytes → ℕ
from_bytes [] = 0
from_bytes (b ∷ bs) = (b + from_bytes bs) % 251

abbrev small : ScalarField ℕ
small = record {
  nought = 0;
  plus = λ a b. (a + b) % 251;
  times = λ a b. (a * b) % 251;
  of_nat = λ n. n % 251;
  from_be_bytes = from_bytes;
  from_le_bytes = from_bytes;
  to_bytes_le = λ a. a ∷ [];
}

-- Stands for `hex::decode`.
abbrev decode : Text → Option Bytes
decode t = some t

each-Decodes : (cs : List Text) → All (Decodes small decode) cs
each-Decodes [] = tt
each-Decodes (c ∷ cs) = ((c, refl), each-Decodes cs)

each-RowDecodes : (rows : List Row) → All (RowDecodes small decode) rows
each-RowDecodes [] = tt
each-RowDecodes ((j, k, l) ∷ rows) = (((j, refl), (k, refl), (l, refl)), each-RowDecodes rows)

constants_decode : ConstantsDecode small decode
constants_decode = record {
  external = each-RowDecodes external_rounds;
  internal = each-Decodes internal_rounds;
}

poseidon2_hash_digests_total_example : Hashed small decode 7 (hash_of 1 ∷ hash_of 2 ∷ [])
poseidon2_hash_digests_total_example =
    poseidon2_hash_digests_total small decode 7 (hash_of 1 ∷ hash_of 2 ∷ []) constants_decode
