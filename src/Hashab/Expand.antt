-- ===== src/Hashab/Expand.antt =====
-- src/crypto/hashab/expand.rs: two ciphertexts are expanded to 190 bytes.
use libopod.Base.{ℕ, zero, suc, ◌+◌, ◌-◌, ◌*◌, min, List, [], ◌++◌, map}
use libopod.Base.Lists.{take, splice}
use libopod.Bytes.{to_le_bytes}
use libopod.Hashab.Word.{Word, low_byte, byte_mul, words_of, bytes_of, ◌bar◌, ◌<<◌, ◌>>◌}
use libopod.Hashab.Word as Word
use libopod.Hashab.Hash.{hash}

transform_word : Word → Word
transform_word word =
    let product = Word.◌*◌ word 0xc8180aff in
    low_byte (Word.◌*◌ word 0x6b)
    bar low_byte (Word.◌*◌ (product >> 8) 0x95) << 8
    bar low_byte (Word.◌*◌ (product >> 16) 0x95) << 16
    bar low_byte (Word.◌*◌ (product >> 24) 0x95) << 24

transform_hash_chunk : List ℕ → List ℕ
unfolding transform_word words_of bytes_of
transform_hash_chunk digest = bytes_of (map transform_word (words_of 8 digest))

-- the rounds that are left, from the offset that is filled
expand_rounds : ℕ → ℕ → List ℕ → List ℕ
unfolding hash transform_hash_chunk to_le_bytes
expand_rounds zero iteration work = []
expand_rounds (suc left) iteration work =
    let hashed = hash (splice work 44 (to_le_bytes 4 iteration)) in
    take (min (190 - iteration * 32) 32) (transform_hash_chunk hashed.1)
    ++ expand_rounds left (iteration + 1) hashed.0

unfoldable pub expand : List ℕ → List ℕ → List ℕ
unfolding expand_rounds to_le_bytes
expand middle_ciphertext leading_ciphertext =
    let scale = map (λ b. byte_mul b 0x6f) in
    expand_rounds 6 0 (
      scale (take 24 middle_ciphertext)
      ++ (scale (take 20 leading_ciphertext)
          ++ (to_le_bytes 4 0 ++ (to_le_bytes 4 12 ++ to_le_bytes 12 0))))
