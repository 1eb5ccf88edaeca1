-- ===== src/Tests/Signatures.antt =====
-- Signatures of a short file, with the first twenty bytes in place of SHA-1.
use libopod.Base.{ℕ, ◌≡◌, refl, some, true, false, List, [], ◌∷◌, ◌++◌, map, arith}
use libopod.Base.Lists.{length, take, drop, slice, replicate}
use libopod.Error.{ok}
use libopod.Bytes.{to_le_bytes}
use libopod.Cdb.Hashab.{valid}
use libopod.Hashab.{
  calculate, sign_database, verify_database_signature, cbk_random, find_random, permutation_56,
  random_bytes, verify_digest_signature,
}
use libopod.Hashab.Word.{at}
use libopod.Hashab.Tables.Stage2.{stage2_output_map}
use libopod.Hashab.Cipher.{cipher_cbc, stage2, stage2_profile}
use libopod.Hashab.Random.{find_random-calculate, verify_digest_signature-calculate}
use libopod.Hashab.Chain.{stage2-cipher_cbc}
use libopod.Hashab.Signed.{
  sign_database_frame, sign_database_ok, verify_database_signature-sign_database, Carries,
  verify_database_signature_inv,
}
use libopod.Tests.Data.{digest, guid, file_header, zeros}
use libopod.Tests.Vectors.{vector_digest, vector_guid}

abbrev database : List ℕ
database = file_header 240 ++ zeros 12

-- what signing the file gives
signs : (out : List ℕ) × (sign_database digest database guid cbk_random ≡ ok out)
signs = sign_database_ok digest database guid cbk_random (omega arith) refl

abbrev signed : List ℕ
signed = signs.0

find_random-calculate_example :
    find_random
      (drop 2 (calculate vector_digest vector_guid cbk_random))
      permutation_56
      (replicate random_bytes 0)
      (replicate random_bytes false)
    ≡ (cbk_random, replicate random_bytes true)
find_random-calculate_example = find_random-calculate vector_digest vector_guid cbk_random refl

verify_digest_signature-calculate_example :
    verify_digest_signature vector_digest vector_guid
      (calculate vector_digest vector_guid cbk_random)
    ≡ true
verify_digest_signature-calculate_example =
    verify_digest_signature-calculate vector_digest vector_guid cbk_random refl

sign_database_frame_example :
    (length signed ≡ length database)
    × (take 0x30 signed ≡ take 0x30 database)
    × (slice signed 0x30 0x32 ≡ to_le_bytes 2 3)
    × (slice signed 0x32 0xab ≡ slice database 0x32 0xab)
    × (drop 0xe4 signed ≡ drop 0xe4 database)
sign_database_frame_example = sign_database_frame digest database guid cbk_random signs.1

verify_database_signature-sign_database_example :
    verify_database_signature digest signed guid ≡ some valid
verify_database_signature-sign_database_example =
    verify_database_signature-sign_database digest database guid cbk_random refl signs.1

verify_database_signature_inv_example : Carries digest signed guid valid
verify_database_signature_inv_example =
    verify_database_signature_inv digest signed guid verify_database_signature-sign_database_example

stage2-cipher_cbc_example :
    stage2 (take 32 database) (map (λ b. at stage2_output_map b) (7 ∷ 200 ∷ []))
    ≡ cipher_cbc 2 stage2_profile (take 32 database) (7 ∷ 200 ∷ [])
stage2-cipher_cbc_example =
    stage2-cipher_cbc (take 32 database) (7 ∷ 200 ∷ []) (omega arith, (omega arith, tt))
