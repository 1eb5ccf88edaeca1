-- ===== src/Hash58.antt =====
-- src/crypto/hash58.rs: the signature of the uncompressed iTunesDB. SHA-1 is a parameter. The two
-- assertions of `sign_database` hold in debug builds only; past the end of a file that is shorter
-- than 0x6c bytes it stops the program, so that nothing is said of such a file.
pub mod Tables
pub mod Cleared
pub mod Laws
pub mod Gcd
use Prim.Native.Nat.{bit_xor}
use libopod.Base.{ℕ, zero, suc, ◌+◌, ◌*◌, ◌/◌, ◌%◌, Bool, false, ◌||◌, List, [], ◌∷◌, ◌++◌, map}
use libopod.Base.Tests.{ltb, ◌==◌, if◌then◌else◌}
use libopod.Base.Lists.{length, take, slice, splice, replicate, get_or}
use libopod.Bytes.{to_le_bytes}
use libopod.Cdb.Chunk.{eq_bytes}
use libopod.Hash58.Tables.{table1, table2, fixed}

-- the `while` loop; its second number falls in each round
unfoldable pub gcd_loop : ℕ → ℕ → ℕ → ℕ
gcd_loop zero a b = a
gcd_loop (suc fuel) a b = elim b [ zero ↦ a | suc c ↦ gcd_loop fuel (suc c) (a % suc c) ]

unfoldable pub gcd : ℕ → ℕ → ℕ
unfolding gcd_loop
gcd a b = gcd_loop (suc b) a b

unfoldable pub lcm : ℕ → ℕ → ℕ
unfolding gcd
lcm a b = if a == 0 || b == 0 then 1 else a * b / gcd a b

-- the four bytes of one pair
unfoldable pub pair_bytes : ℕ → ℕ → List ℕ
unfolding lcm table1 table2
pair_bytes a b =
    let hi = lcm a b / 256 % 256 in
    let lo = lcm a b % 256 in
    get_or table1 hi 0 ∷ get_or table2 hi 0 ∷ get_or table1 lo 0 ∷ get_or table2 lo 0 ∷ []

-- the pairs that are left to take
unfoldable pub pairs_bytes : ℕ → List ℕ → List ℕ
unfolding pair_bytes
pairs_bytes zero bytes = []
pairs_bytes (suc left) [] = []
pairs_bytes (suc left) (a ∷ []) = []
pairs_bytes (suc left) (a ∷ b ∷ rest) = pair_bytes a b ++ pairs_bytes left rest

-- the bytes that are digested, after the four writes
unfoldable pub cleared : List ℕ → List ℕ
unfolding to_le_bytes
cleared itunesdb =
    splice
      (splice (splice (splice itunesdb 0x18 (replicate 8 0)) 0x32 (replicate 20 0)) 0x58
        (replicate 20 0))
      0x30 (to_le_bytes 2 1)

module _ (sha1 : List ℕ → List ℕ) where
  unfoldable pub derive_key : List ℕ → List ℕ
  unfolding pairs_bytes fixed
  derive_key firewire_id =
      let y = splice (replicate 16 0) 0 (pairs_bytes 4 firewire_id) in
      splice (replicate 64 0) 0 (sha1 (fixed ++ y))

  unfoldable pub hmac_sha1 : List ℕ → List ℕ → List ℕ
  hmac_sha1 key message =
      let inner = map (λ byte. bit_xor byte 0x36) key in
      let outer = map (λ byte. bit_xor byte 0x5c) key in sha1 (outer ++ sha1 (inner ++ message))

  unfoldable pub calculate : List ℕ → List ℕ → List ℕ
  unfolding derive_key hmac_sha1
  calculate firewire_id itunesdb = hmac_sha1 (derive_key firewire_id) itunesdb

  unfoldable pub sign_database : List ℕ → List ℕ → List ℕ
  unfolding calculate cleared
  sign_database firewire_id itunesdb =
      let backup_db_id = slice itunesdb 0x18 0x20 in
      let backup_unk32 = slice itunesdb 0x32 0x46 in
      let digested = cleared itunesdb in
      let signed = splice digested 0x58 (calculate firewire_id digested) in
      splice (splice signed 0x18 backup_db_id) 0x32 backup_unk32

  unfoldable pub verify : List ℕ → List ℕ → Bool
  unfolding sign_database
  verify firewire_id itunesdb =
      if ltb (length itunesdb) 0x6c
      then false
      else eq_bytes (slice (sign_database firewire_id itunesdb) 0x58 0x6c)
          (slice itunesdb 0x58 0x6c)
