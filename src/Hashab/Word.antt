-- ===== src/Hashab/Word.antt =====
-- src/crypto/hashab/word.rs: a word is a number below 2 ^ 32, and the operators wrap as those of
-- `Word` do. Here and where these names are in use, `^` is the exclusive or, `&` and `bar` are the
-- other bit operations, `!` is `complement`. A shift or a rotation takes fewer than 32 places.
use Prim.Native.Nat as Nat
use Prim.Native.Nat.{bit_and, bit_or, bit_xor}
use libopod.Base.{ℕ, zero, suc, List, [], ◌∷◌, flatten, map}
use libopod.Base.Lists.{get_or, take, drop}
use libopod.Bytes.{from_le_bytes, to_le_bytes}

abbrev pub Word : Type 0
Word = ℕ

abbrev pub word_mod : ℕ
word_mod = 4294967296

infixl 65 ◌+◌ ◌-◌
abbrev pub ◌+◌ : Word → Word → Word
a + b = Nat.◌%◌ (Nat.◌+◌ a b) word_mod

abbrev pub ◌-◌ : Word → Word → Word
a - b = Nat.◌%◌ (Nat.◌-◌ (Nat.◌+◌ a word_mod) b) word_mod

infixl 70 ◌*◌ ◌/◌
abbrev pub ◌*◌ : Word → Word → Word
a * b = Nat.◌%◌ (Nat.◌*◌ a b) word_mod

abbrev pub ◌/◌ : Word → Word → Word
a / b = Nat.◌/◌ a b

infixl 55 ◌&◌
abbrev pub ◌&◌ : Word → Word → Word
a & b = bit_and a b

infixl 53 ◌^◌
abbrev pub ◌^◌ : Word → Word → Word
a ^ b = bit_xor a b

infixl 51 ◌bar◌
abbrev pub ◌bar◌ : Word → Word → Word
a bar b = bit_or a b

abbrev pub complement : Word → Word
complement a = Nat.◌-◌ 4294967295 a

abbrev pub neg : Word → Word
neg a = Nat.◌%◌ (Nat.◌-◌ word_mod a) word_mod

infixl 60 ◌<<◌ ◌>>◌
abbrev pub ◌<<◌ : Word → ℕ → Word
a << count = Nat.◌%◌ (Nat.◌*◌ a (Nat.◌^◌ 2 count)) word_mod

abbrev pub ◌>>◌ : Word → ℕ → Word
a >> count = Nat.◌/◌ a (Nat.◌^◌ 2 count)

abbrev pub rotate_left : Word → ℕ → Word
rotate_left a count = Nat.◌+◌ (a << count) (a >> Nat.◌-◌ 32 count)

abbrev pub rotate_right : Word → ℕ → Word
rotate_right a count = Nat.◌+◌ (a >> count) (a << Nat.◌-◌ 32 count)

abbrev pub low_byte : Word → ℕ
low_byte a = Nat.◌%◌ a 256

-- the value under a mask, as an index
abbrev pub index : Word → ℕ → ℕ
index a mask = bit_and a mask

-- `wrapping_mul` and `wrapping_add` of a `u8`
abbrev pub byte_mul : ℕ → ℕ → ℕ
byte_mul a b = Nat.◌%◌ (Nat.◌*◌ a b) 256

abbrev pub byte_add : ℕ → ℕ → ℕ
byte_add a b = Nat.◌%◌ (Nat.◌+◌ a b) 256

-- `xs[i]`, for indices that the code keeps below the length
abbrev pub at : List ℕ → ℕ → ℕ
at xs i = get_or xs i 0

-- `xs[i] = v`, for such indices
abbrev pub set : List ℕ → ℕ → ℕ → List ℕ
set [] i v = []
set (x ∷ xs) zero v = v ∷ xs
set (x ∷ xs) (suc i) v = x ∷ set xs i v

abbrev pub xor_words : List Word → List Word → List Word
xor_words [] ys = []
xor_words (x ∷ xs) [] = []
xor_words (x ∷ xs) (y ∷ ys) = (x ^ y) ∷ xor_words xs ys

-- `n` words of four bytes each, and back
unfoldable pub words_of : ℕ → List ℕ → List Word
unfolding from_le_bytes
words_of zero bytes = []
words_of (suc n) bytes = from_le_bytes (take 4 bytes) ∷ words_of n (drop 4 bytes)

unfoldable pub bytes_of : List Word → List ℕ
unfolding to_le_bytes flatten
bytes_of words = flatten (map (to_le_bytes 4) words)
