-- ===== src/Hashab/Reduce.antt =====
-- src/crypto/hashab/reduce.rs: 190 bytes are reduced to 16.
use Prim.Native.Nat as Nat
use libopod.Base.{ℕ, zero, suc, List, [], ◌∷◌}
use libopod.Bytes.{to_le_bytes}
use libopod.Hashab.Word.{
  Word, at, set, index, rotate_left, low_byte, byte_mul, byte_add, ◌+◌, ◌-◌, ◌^◌, ◌bar◌, ◌<<◌,
}
use libopod.Hashab.Tables.Seeds.{key_seed, state_seed, reduce_table}
use libopod.Hashab.Mix.{
  Mix, mix_first, mix_second, mix_third, mix_fourth, mix_fifth, mix_sixth, mix_seventh,
}

-- `(bytes[0].wrapping_add(bytes[1]) ^ bytes[2]).wrapping_add(bytes[3])`
fold_word : Word → ℕ
unfolding to_le_bytes
fold_word word =
    let bytes = to_le_bytes 4 word in
    byte_add (byte_add (at bytes 0) (at bytes 1) ^ at bytes 2) (at bytes 3)

-- one word of the input, its most significant byte first
assemble : List ℕ → ℕ → Word
assemble input i =
    let value = λ (byte : ℕ). byte_mul (at input (Nat.◌%◌ (Nat.◌+◌ (Nat.◌*◌ 4 i) byte) 190)) 0xbd in
    value 0 << 24 bar value 1 << 16 bar value 2 << 8 bar value 3

assemble_all : ℕ → ℕ → List ℕ → List Word
unfolding assemble
assemble_all zero i input = []
assemble_all (suc left) i input = assemble input i ∷ assemble_all left (suc i) input

-- one pass over the 128 words, in place
stir : ℕ → ℕ → List Word → List Word
stir zero i work = work
stir (suc left) i work = stir left (suc i) (
    set work i (
      (at work i ^ rotate_left (at work (index (Nat.◌+◌ i 115) 127)) 3)
      + rotate_left (at work (index (Nat.◌+◌ i 71) 127)) 5
      - rotate_left (at work (index (Nat.◌+◌ i 101) 127)) 23))

initial : Mix → List ℕ
initial m =
    let work = m.work in
    let s7 = m.s7 in
    let s8 = m.s8 in
    let s18 = m.s18 in
    let s19 = m.s19 in
    let s6 = m.s6 in
    let s10 = m.s10 in
    let s21 = m.s21 in
    let s25 = m.s25 in
    let s22 = m.s22 in
    let s24 = m.s24 in
    let s26 = m.s26 in
    (low_byte (0xba + s25))
    ∷ 0x97
    ∷ 0x97
    ∷ (low_byte (0x9b + s24))
    ∷ (low_byte (0xba + s8))
    ∷ 0x97
    ∷ (low_byte (0xd3 + s22))
    ∷ 0x97
    ∷ (low_byte (0xbe + s18 + s6))
    ∷ (low_byte (0x27 + s7))
    ∷ 0x4c
    ∷ (low_byte (0x27 + s19))
    ∷ (low_byte (0xbe + s10 + s21))
    ∷ (low_byte (0xe3 + s26))
    ∷ 0x4c
    ∷ (low_byte (0x27 + at work 92))
    ∷ []

-- `for slot in (index..64).step_by(16)` over the two arrays
xor_slots : ℕ → ℕ → List Word → List Word → ℕ → ℕ
xor_slots zero slot key state reduced = reduced
xor_slots (suc left) slot key state reduced =
    xor_slots left (Nat.◌+◌ slot 16) key state
      (reduced ^ (low_byte (at key slot) ^ low_byte (at state slot)))

-- `for slot in (index..128).step_by(16)`
xor_folds : ℕ → ℕ → List Word → ℕ → ℕ
unfolding fold_word
xor_folds zero slot work reduced = reduced
xor_folds (suc left) slot work reduced =
    xor_folds left (Nat.◌+◌ slot 16) work (reduced ^ fold_word (at work slot))

finish : ℕ → ℕ → Mix → List ℕ
unfolding initial xor_slots xor_folds
finish zero i m = []
finish (suc left) i m =
    byte_mul 0xa5 (xor_folds 8 i m.work (xor_slots 4 i m.key m.state (at (initial m) i)))
    ∷ finish left (suc i) m

unfoldable pub reduce : List ℕ → List ℕ
unfolding assemble_all stir finish key_seed state_seed reduce_table mix_first mix_second mix_third
    mix_fourth mix_fifth mix_sixth mix_seventh
reduce input =
    let work = stir 128 0 (stir 128 0 (stir 128 0 (stir 128 0 (assemble_all 128 0 input)))) in
    let t = reduce_table in
    let start : Mix = record {
      key = key_seed;
      state = state_seed;
      work = work;
      s7 = 0;
      s8 = 0;
      s9 = 0;
      s18 = 0;
      s19 = 0;
      s6 = 0;
      s10 = 0;
      s21 = 0;
      s25 = 0;
      s22 = 0;
      s24 = 0;
      s26 = 0;
    } in
    finish 16 0 (
      mix_seventh t
        (mix_sixth t (mix_fifth t (mix_fourth t (mix_third t (mix_second t (mix_first t start)))))))
