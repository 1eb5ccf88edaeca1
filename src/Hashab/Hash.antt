-- ===== src/Hashab/Hash.antt =====
-- src/crypto/hashab/hash.rs: the hash of 64 bytes, which also overwrites them.
use libopod.Base.{ℕ, zero, suc, List, map}
use libopod.Base.Tests.{◌==◌, if◌then◌else◌}
use libopod.Base.Lists.{drop}
use libopod.Hashab.Word.{
  Word, at, index, complement, rotate_left, words_of, bytes_of, ◌+◌, ◌-◌, ◌*◌, ◌&◌, ◌bar◌, ◌<<◌,
  ◌>>◌,
}
use libopod.Hashab.Tables.Bytes.{
  hash_byte_table_0, hash_byte_table_1, hash_byte_table_2, hash_byte_table_3,
}
use libopod.Hashab.Edonr.{initial_state, compress}

encoded_rotate_left : Word → ℕ → Word
encoded_rotate_left value count = rotate_left (value * 0x8fa491df) (index count 31)

unfoldable pub preprocess_word : Word → Word
unfolding hash_byte_table_0 hash_byte_table_1 hash_byte_table_2 hash_byte_table_3
preprocess_word input =
    let input_multiplier : Word = 0xa272be3f in
    let combine_multiplier : Word = 0x7f8631bf in
    let byte_multiplier : Word = 0xc83bebc7 in
    let word_bias : Word = 0x44e57c7e in
    let byte0 = at hash_byte_table_0 (index input 0xff) in
    let byte1 = at hash_byte_table_1 (index (input >> 8) 0xff) in
    let byte2 = at hash_byte_table_2 (index (input >> 16) 0xff) in
    let byte3 = at hash_byte_table_3 (index (input >> 24) 0xff) in
    let scaled = ((byte0 * 0xc9 * 0x79 & 0xff) << 8) * input_multiplier in
    let byte1 = byte1 * 0xc9 & 0xff in
    let high_mask = complement (byte1 * 0x79) bar 0xff in
    let partial =
      byte1 * byte_multiplier
      + word_bias
      + complement high_mask * input_multiplier
      + high_mask * word_bias
      + scaled in
    let scaled = partial * combine_multiplier * 0x100 * input_multiplier in
    let high_mask = complement (byte2 * 0x79) bar 0xff in
    let partial =
      byte2 * byte_multiplier
      + word_bias
      + complement high_mask * input_multiplier
      + high_mask * word_bias
      + partial
      + scaled in
    let high_mask = complement (byte3 * 0x79) bar 0xff in
    let partial =
      high_mask * word_bias
      + byte3 * byte_multiplier
      + word_bias
      + complement high_mask * input_multiplier
      + partial * combine_multiplier * 0x100 * input_multiplier
      + partial in
    let partial = partial * combine_multiplier * 0x100 * input_multiplier + partial in
    partial * combine_multiplier

byte_index : Word → ℕ
byte_index value = index (value * 0xbf) 0xff

unfoldable pub state_to_word : Word → Word
unfolding encoded_rotate_left byte_index hash_byte_table_0 hash_byte_table_1 hash_byte_table_2
state_to_word canonical_state_word =
    let state_encode_multiplier : Word = 0xc2ed397f in
    let input_multiplier : Word = 0xa272be3f in
    let index_decode : Word = 0x7f8631bf in
    let index_multiplier : Word = 0x5d8d41c1 in
    let state_multiplier : Word = 0xbcb95b41 in
    let byte_multiplier : Word = 0xc83bebc7 in
    let word_bias : Word = 0x44e57c7e in
    let rotate_input : Word = 0x1e051c21 in
    let encoded_or_multiplier : Word = 0x00f39c82 in
    let state_word = canonical_state_word * state_encode_multiplier in
    let mapped = at hash_byte_table_0 (byte_index (state_word * state_multiplier)) in
    let mapped = mapped * 0xc9 & 0xff in
    let high_mask = complement (mapped * 0x79) bar 0xff in
    let combined =
      state_word * state_multiplier
      + high_mask * word_bias
      + mapped * byte_multiplier
      + word_bias
      + complement high_mask * input_multiplier in
    let rotated = encoded_rotate_left (combined * rotate_input) 11 in
    let rotated = rotated * input_multiplier in
    let mapped = at hash_byte_table_1 (byte_index rotated) in
    let mapped = mapped * 0xc9 & 0xff in
    let high_mask = complement (mapped * 0x79) bar 0xff in
    let combined =
      complement high_mask * input_multiplier
      + mapped * byte_multiplier
      + word_bias
      + high_mask * word_bias in
    let rotated =
      encoded_rotate_left
        (((combined * encoded_or_multiplier - 1 bar rotated * encoded_or_multiplier - 1)
              * input_multiplier
            + rotated
            + combined
            - index_multiplier)
          * rotate_input)
        10 in
    let mapped = at hash_byte_table_2 (byte_index (rotated * input_multiplier)) in
    let high_mask = complement (mapped * 0x79) bar 0xff in
    let combined =
      mapped * byte_multiplier
      + word_bias
      + complement high_mask * input_multiplier
      + high_mask * word_bias in
    let rotated = encoded_rotate_left ((rotated * input_multiplier - combined) * rotate_input) 7 in
    rotated * input_multiplier * index_decode

-- The four rounds: the state, and the block that the next round takes; the last leaves the block.
unfoldable pub rounds : ℕ → List Word → List Word → List Word × List Word
unfolding compress state_to_word
rounds zero state block = (state, block)
rounds (suc left) state block =
    let next = compress state block in
    rounds left next (if left == 0 then block else map state_to_word next)

-- the new contents of `work`, and the digest
unfoldable pub hash : List ℕ → List ℕ × List ℕ
unfolding words_of bytes_of preprocess_word initial_state rounds
hash work =
    let r = rounds 4 initial_state (map preprocess_word (words_of 16 work)) in
    (bytes_of r.1, bytes_of (map (λ word. word * 0xf46ef4ff) (drop 8 r.0)))
