-- ===== src/Hashab/Cipher.antt =====
-- src/crypto/hashab/cipher.rs: two chained block ciphers, which differ in their tables.
use Prim.Native.Nat.{bit_and}
use libopod.Base.{ℕ, zero, suc, ◌+◌, ◌*◌, ◌^◌, List, [], ◌∷◌, ◌++◌, map, none, some}
use mathlib.Core.Option
use mathlib.Core.Option.{Option}
use libopod.Base.Tests.{ltb, ◌==◌, if◌then◌else◌}
use libopod.Base.Lists.{take, drop, slice}
use libopod.Bytes.{from_le_bytes, to_le_bytes}
use libopod.Hashab.Word.{Word, at, xor_words, byte_mul, byte_add}
use libopod.Hashab.Word as Word
use libopod.Hashab.Tables.Stage1.{
  stage1_input_map, stage1_final_map, stage1_output_map, stage1_round_base, stage1_round_affine,
  stage1_schedule, stage1_initial_chain,
}
use libopod.Hashab.Tables.Stage2.{
  stage2_input_map, stage2_final_map, stage2_output_map, stage2_round_base, stage2_round_affine,
  stage2_schedule,
}

pub record Profile : Type 0 where
  pub input_map : List ℕ
  pub final_map : List ℕ
  pub output_map : List ℕ
  pub round_base : List ℕ
  pub round_affine : List ℕ
  pub schedule : List ℕ

unfoldable pub stage1_profile : Profile
unfolding stage1_input_map stage1_final_map stage1_output_map stage1_round_base stage1_round_affine
    stage1_schedule
stage1_profile = record {
  input_map = stage1_input_map;
  final_map = stage1_final_map;
  output_map = stage1_output_map;
  round_base = stage1_round_base;
  round_affine = stage1_round_affine;
  schedule = stage1_schedule;
}

unfoldable pub stage2_profile : Profile
unfolding stage2_input_map stage2_final_map stage2_output_map stage2_round_base stage2_round_affine
    stage2_schedule
stage2_profile = record {
  input_map = stage2_input_map;
  final_map = stage2_final_map;
  output_map = stage2_output_map;
  round_base = stage2_round_base;
  round_affine = stage2_round_affine;
  schedule = stage2_schedule;
}

affine_loop : ℕ → ℕ → List ℕ → ℕ → ℕ → ℕ
affine_loop zero bit parameters value result = result
affine_loop (suc left) bit parameters value result =
    affine_loop left (suc bit) parameters value
      (if bit_and value (2 ^ bit) == 0 then result else Word.◌^◌ result (at parameters (bit + 1)))

unfoldable pub affine_byte : List ℕ → ℕ → ℕ
unfolding affine_loop
affine_byte parameters value = affine_loop 8 0 parameters value (at parameters 0)

-- one lane of a round table at a base value
lane_byte : List ℕ → ℕ → ℕ → ℕ
unfolding affine_byte
lane_byte round_affine base zero = base
lane_byte round_affine base (suc lane) =
    affine_byte (slice round_affine (lane * 9) (lane * 9 + 9)) base

unfoldable pub profile_word : Profile → ℕ → ℕ → Word
unfolding lane_byte from_le_bytes
profile_word profile table_number i =
    let base = at profile.round_base i in
    let lane = table_number * 4 in
    from_le_bytes (
      lane_byte profile.round_affine base lane
      ∷ lane_byte profile.round_affine base (lane + 1)
      ∷ lane_byte profile.round_affine base (lane + 2)
      ∷ lane_byte profile.round_affine base (lane + 3)
      ∷ [])

-- the four tables, one after the other
xor_tables : ℕ → ℕ → Profile → List ℕ → ℕ → Word → Word
unfolding profile_word
xor_tables zero table profile input word value = value
xor_tables (suc left) table profile input word value =
    xor_tables left (suc table) profile input word
      (Word.◌^◌ value (profile_word profile table (at input (bit_and (word * 4 + table * 5) 15))))

table_words : ℕ → ℕ → Profile → List ℕ → List ℕ → List ℕ
unfolding xor_tables from_le_bytes to_le_bytes
table_words zero word profile input round_key = []
table_words (suc left) word profile input round_key =
    to_le_bytes 4 (
      xor_tables 4 0 profile input word (from_le_bytes (slice round_key (word * 4) (word * 4 + 4))))
    ++ table_words left (suc word) profile input round_key

unfoldable pub table_round : Profile → List ℕ → List ℕ → List ℕ
unfolding table_words
table_round profile input round_key = table_words 4 0 profile input round_key

final_bytes : ℕ → ℕ → Profile → List ℕ → List ℕ → List ℕ
final_bytes zero position profile input round_key = []
final_bytes (suc left) position profile input round_key =
    let input_position = bit_and (bit_and position 0x0c + bit_and position 0x03 * 5) 0x0f in
    let table_value = at profile.final_map (at input input_position) in
    Word.◌^◌ (byte_add (byte_mul table_value 0x81) 0x7a) (at round_key position)
    ∷ final_bytes left (suc position) profile input round_key

unfoldable pub final_round : Profile → List ℕ → List ℕ → List ℕ
unfolding final_bytes
final_round profile input round_key = final_bytes 16 0 profile input round_key

-- `map.iter().position(|candidate| *candidate == value)`
unfoldable pub position : List ℕ → ℕ → Option ℕ
position [] value = none
position (candidate ∷ rest) value =
    let later = position rest value in
    if candidate == value then some 0 else Option.map (λ i. i + 1) later

unfoldable pub inverse_map_byte : List ℕ → ℕ → ℕ
unfolding position
inverse_map_byte table value = elim (position table value) [
  | none ↦ 0
  | some i ↦ if ltb i 256 then i else 0
]

-- the rounds between the first key and the last one
table_rounds : ℕ → ℕ → Profile → List ℕ → List ℕ
unfolding table_round
table_rounds zero round profile state = state
table_rounds (suc left) round profile state =
    table_rounds left (suc round) profile
      (table_round profile state (slice profile.schedule (round * 16) (round * 16 + 16)))

map_bytes : List ℕ → List ℕ → List ℕ
map_bytes table bytes = map (λ b. at table b) bytes

-- one block, before the output map
unfoldable pub encrypt_block : Profile → List ℕ → List ℕ → List ℕ
unfolding table_rounds final_round map_bytes
encrypt_block profile input_block chaining =
    let state =
      xor_words (xor_words (map_bytes profile.input_map input_block) chaining)
        (take 16 profile.schedule) in
    final_round profile (table_rounds 9 1 profile state) (slice profile.schedule 160 176)

-- `n` blocks, each chained to the one before
unfoldable pub cipher_cbc : ℕ → Profile → List ℕ → List ℕ → List ℕ
unfolding encrypt_block map_bytes
cipher_cbc zero profile input chaining = []
cipher_cbc (suc n) profile input chaining =
    let encrypted = encrypt_block profile (take 16 input) chaining in
    map_bytes profile.output_map encrypted ++ cipher_cbc n profile (drop 16 input) encrypted

unfoldable pub stage1 : List ℕ → List ℕ
unfolding stage1_profile cipher_cbc stage1_initial_chain
stage1 input = cipher_cbc 5 stage1_profile input stage1_initial_chain

unfoldable pub stage2 : List ℕ → List ℕ → List ℕ
unfolding stage2_profile cipher_cbc inverse_map_byte
stage2 input initialization_vector =
    cipher_cbc 2 stage2_profile input
      (map (inverse_map_byte stage2_profile.output_map) initialization_vector)
