-- ===== src/Tests/Vectors.antt =====
-- A signature against a known one: the digest, the device identifier and the signature of a vector
-- of the reference implementation.
use libopod.Base.{ℕ, ◌≡◌, refl, List, [], ◌∷◌}
use libopod.Hashab.{calculate, cbk_random}

abbrev pub vector_digest : List ℕ
vector_digest =
    0x91 ∷ 0x5d ∷ 0xd7 ∷ 0x20 ∷ 0x30 ∷ 0x86 ∷ 0xae ∷ 0xea ∷ 0x30 ∷ 0x27 ∷ 0x40 ∷ 0xe9 ∷ 0x7f ∷ 0xeb
    ∷ 0xb7 ∷ 0xae ∷ 0xfa ∷ 0x9c ∷ 0xa9 ∷ 0xf1 ∷ []

abbrev pub vector_guid : List ℕ
vector_guid = 0xf8 ∷ 0x32 ∷ 0xc6 ∷ 0x59 ∷ 0x17 ∷ 0xda ∷ 0x67 ∷ 0x85 ∷ []

abbrev vector_signature : List ℕ
vector_signature =
    0x03 ∷ 0x00 ∷ 0x56 ∷ 0xd7 ∷ 0x47 ∷ 0x4d ∷ 0x48 ∷ 0x43 ∷ 0x46 ∷ 0x54 ∷ 0x49 ∷ 0xbd ∷ 0x44 ∷ 0x42
    ∷ 0x66 ∷ 0xeb ∷ 0x51 ∷ 0x6b ∷ 0xf4 ∷ 0x55 ∷ 0x27 ∷ 0x26 ∷ 0xb9 ∷ 0x41 ∷ 0x69 ∷ 0xd1 ∷ 0x42
    ∷ 0x4c ∷ 0x4f ∷ 0x43 ∷ 0x3a ∷ 0x82 ∷ 0x08 ∷ 0xfc ∷ 0x53 ∷ 0x45 ∷ 0xe3 ∷ 0x45 ∷ 0x07 ∷ 0xc3
    ∷ 0xfe ∷ 0x4a ∷ 0x8f ∷ 0x4e ∷ 0x8a ∷ 0x50 ∷ 0x52 ∷ 0x66 ∷ 0x45 ∷ 0x15 ∷ 0xaa ∷ 0xd3 ∷ 0x0e
    ∷ 0x4b ∷ 0x19 ∷ 0x5c ∷ 0x57 ∷ []

calculates_vector : calculate vector_digest vector_guid cbk_random ≡ vector_signature
unfolding calculate
calculates_vector = refl
