-- ===== src/Hashab.antt =====
-- src/crypto/hashab/mod.rs: the signature of a database for the sixth and seventh Nano. SHA-1 is a
-- third party's. The fixed-size arrays of the source are lists here.
pub mod Tables
pub mod Word
pub mod Edonr
pub mod Hash
pub mod Mix
pub mod Reduce
pub mod Cipher
pub mod Expand
pub mod Random
pub mod Digest
pub mod Signed
pub mod Chain
pub mod Implements
use libopod.Base.{
  ℕ, zero, suc, ◌+◌, ◌-◌, ◌%◌, Bool, true, false, ◌&&◌, ◌||◌, not, Option, none, some, List, [],
  ◌∷◌, ◌++◌, map,
}
use libopod.Base.Tests.{ltb, ◌==◌, if◌then◌else◌}
use libopod.Base.Lists.{length, take, drop, slice, splice, replicate}
use libopod.Error.{Result, ok, err, malformed, hashab_database, ◌>>=◌, ◌>>◌, ensure}
use libopod.Bytes.{to_le_bytes}
use libopod.Cdb.Chunk.{mhbd, eq_bytes}
use libopod.Cdb.Hashab.{SignatureStatus, valid, legacy_scheme4_then3, invalid}
use libopod.Hashab.Word.{at, set, byte_mul}
use libopod.Hashab.Cipher.{stage1, stage2}
use libopod.Hashab.Expand.{expand}
use libopod.Hashab.Reduce.{reduce}

abbrev pub signature_bytes : ℕ
signature_bytes = 57

abbrev pub random_bytes : ℕ
random_bytes = 23

abbrev pub cbk_random : List ℕ
cbk_random =
    b'A' ∷ b'B' ∷ b'C' ∷ b'D' ∷ b'E' ∷ b'F' ∷ b'G' ∷ b'H' ∷ b'I' ∷ b'J' ∷ b'K' ∷ b'L' ∷ b'M' ∷ b'N'
    ∷ b'O' ∷ b'P' ∷ b'Q' ∷ b'R' ∷ b'S' ∷ b'T' ∷ b'U' ∷ b'V' ∷ b'W' ∷ []

abbrev pub permutation_32 : List ℕ
permutation_32 =
    0x06 ∷ 0x18 ∷ 0x11 ∷ 0x07 ∷ 0x13 ∷ 0x0d ∷ 0x0e ∷ 0x09 ∷ 0x15 ∷ 0x1d ∷ 0x02 ∷ 0x1f ∷ 0x01 ∷ 0x04
    ∷ 0x1c ∷ 0x1a ∷ 0x10 ∷ 0x14 ∷ 0x0b ∷ 0x1e ∷ 0x03 ∷ 0x0a ∷ 0x1b ∷ 0x19 ∷ 0x05 ∷ 0x0f ∷ 0x16
    ∷ 0x00 ∷ 0x12 ∷ 0x17 ∷ 0x08 ∷ 0x0c ∷ []

abbrev pub permutation_56 : List ℕ
permutation_56 =
    0x15 ∷ 0x1c ∷ 0x06 ∷ 0x0c ∷ 0x07 ∷ 0x1a ∷ 0x05 ∷ 0x13 ∷ 0x08 ∷ 0x19 ∷ 0x03 ∷ 0x01 ∷ 0x2d ∷ 0x1e
    ∷ 0x10 ∷ 0x31 ∷ 0x1d ∷ 0x14 ∷ 0x28 ∷ 0x27 ∷ 0x35 ∷ 0x00 ∷ 0x2f ∷ 0x1b ∷ 0x26 ∷ 0x0b ∷ 0x0e
    ∷ 0x02 ∷ 0x23 ∷ 0x17 ∷ 0x24 ∷ 0x22 ∷ 0x12 ∷ 0x1f ∷ 0x20 ∷ 0x04 ∷ 0x29 ∷ 0x25 ∷ 0x21 ∷ 0x09
    ∷ 0x18 ∷ 0x0d ∷ 0x32 ∷ 0x0f ∷ 0x11 ∷ 0x2e ∷ 0x33 ∷ 0x2b ∷ 0x30 ∷ 0x2a ∷ 0x36 ∷ 0x0a ∷ 0x2c
    ∷ 0x34 ∷ 0x16 ∷ 0x37 ∷ []

-- the input of the first stage
unfoldable pub stage1_input : List ℕ → List ℕ → List ℕ → List ℕ
stage1_input database_sha1 firewire_guid random =
    let scale = map (λ source. byte_mul source 0xed) in
    scale firewire_guid ++ (scale database_sha1 ++ (scale random ++ replicate 29 0xc1))

-- the bytes of the second stage that the signature carries
unfoldable pub stage2_output : List ℕ → List ℕ → List ℕ → List ℕ
unfolding stage1_input stage1 expand reduce stage2
stage2_output database_sha1 firewire_guid random =
    let output = stage1 (stage1_input database_sha1 firewire_guid random) in
    let compression = reduce (expand (slice output 20 44) (take 24 output)) in
    stage2 (map (λ source. at output (44 + source)) permutation_32) compression

-- one byte of the signature, behind the first two; there are 55 of these, so that the last entry of
-- the permutation is not used
unfoldable pub signature_byte : List ℕ → List ℕ → ℕ → ℕ
signature_byte random output source =
    if ltb source random_bytes
    then at random source
    else byte_mul (at output (source - random_bytes)) 0x2d

unfoldable pub calculate : List ℕ → List ℕ → List ℕ → List ℕ
unfolding stage2_output signature_byte
calculate database_sha1 firewire_guid random =
    let output = stage2_output database_sha1 firewire_guid random in
    3 ∷ 0 ∷ map (signature_byte random output) (take 55 permutation_56)

abbrev pub set_flag : List Bool → ℕ → List Bool
set_flag [] i = []
set_flag (f ∷ fs) zero = true ∷ fs
set_flag (f ∷ fs) (suc i) = f ∷ set_flag fs i

-- The random bytes of a signature, and which of them were found.
unfoldable pub find_random : List ℕ → List ℕ → List ℕ → List Bool → List ℕ × List Bool
find_random [] sources random found = (random, found)
find_random (value ∷ values) [] random found = (random, found)
find_random (value ∷ values) (source ∷ sources) random found =
    find_random values sources (if ltb source random_bytes then set random source value else random)
      (if ltb source random_bytes then set_flag found source else found)

abbrev pub all_true : List Bool → Bool
all_true [] = true
all_true (b ∷ bs) = b && all_true bs

unfoldable pub verify_digest_signature : List ℕ → List ℕ → List ℕ → Bool
verify_digest_signature digest firewire_guid signature =
    let r =
      find_random (drop 2 signature) permutation_56 (replicate random_bytes 0)
        (replicate random_bytes false) in
    all_true r.1 && eq_bytes (calculate digest firewire_guid r.0) signature

-- the bytes that are digested: the checksum regions are zeros
unfoldable pub digested : List ℕ → Option ℕ → List ℕ
unfolding to_le_bytes
digested bytes scheme_override =
    let scheme : List ℕ = elim scheme_override [
      | none ↦ slice bytes 0x30 0x32
      | some scheme ↦ to_le_bytes 2 scheme
    ] in
    take 0x18 bytes
    ++ (replicate 8 0
        ++ (slice bytes 0x20 0x30
            ++ (scheme
                ++ (replicate 20 0
                    ++ (slice bytes 0x46 0x58
                        ++ (replicate 20 0
                            ++ (slice bytes 0x6c 0x72
                                ++ (replicate 46 0
                                    ++ (slice bytes 0xa0 0xab
                                        ++ (replicate signature_bytes 0 ++ drop 0xe4 bytes))))))))))

module _ (sha1 : List ℕ → List ℕ) where
  unfoldable pub database_digest : List ℕ → Option ℕ → List ℕ
  database_digest bytes scheme_override = sha1 (digested bytes scheme_override)

  unfoldable pub sign_database : List ℕ → List ℕ → List ℕ → Result (List ℕ)
  sign_database database firewire_guid random = do
    ensure (not (ltb (length database) 0xe4)) (malformed hashab_database (length database))
    ensure (eq_bytes (take 4 database) mhbd) (malformed hashab_database 0)
    let scheme3 = splice database 0x30 (to_le_bytes 2 3)
    ok (splice scheme3 0xab (calculate (database_digest scheme3 none) firewire_guid random))

  unfoldable pub verify_database_signature : List ℕ → List ℕ → Option SignatureStatus
  verify_database_signature database firewire_guid =
      let signature = slice database 0xab 0xe4 in
      if ltb (length database) 0xe4 || not (eq_bytes (take 4 database) mhbd)
      then none
      else if verify_digest_signature (database_digest database none) firewire_guid signature
      then some valid
      else if eq_bytes (slice database 0x30 0x32) (to_le_bytes 2 3)
          && verify_digest_signature (database_digest database (some 4)) firewire_guid signature
      then some legacy_scheme4_then3
      else some invalid
