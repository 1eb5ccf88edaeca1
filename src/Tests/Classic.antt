-- ===== src/Tests/Classic.antt =====
-- The signature of a file of 120 bytes, with the first twenty bytes in place of SHA-1.
use libopod.Base.{ℕ, ◌+◌, ◌*◌, ◌/◌, ◌%◌, ◌≡◌, refl, true, List, [], ◌∷◌, ◌++◌, arith}
use libopod.Base.Lists.{splice}
use libopod.Bytes.{to_le_bytes}
use libopod.Cdb.Chunk.{mhbd}
use libopod.Hash58.{gcd, lcm, calculate, cleared, sign_database, verify}
use libopod.Hash58.Laws.{cleared-sign_database, sign_database-splice, verify-sign_database}
use libopod.Hash58.Gcd.{IsLcm, lcm-IsLcm}
use libopod.Tests.Checksums.{length-digest}
use libopod.Tests.Data.{digest, guid, zeros}

abbrev classic : List ℕ
classic = mhbd ++ zeros 20 ++ (1 ∷ 2 ∷ 3 ∷ []) ++ zeros 93

gcd_runs : gcd 12 8 ≡ 4
unfolding gcd
gcd_runs = refl

lcm_runs : lcm 12 8 ≡ 24
unfolding lcm
lcm_runs = refl

lcm_zero : lcm 0 7 ≡ 1
unfolding lcm
lcm_zero = refl

cleared-sign_database_example : cleared (sign_database digest guid classic) ≡ cleared classic
cleared-sign_database_example =
    cleared-sign_database digest length-digest guid classic (omega arith)

sign_database-splice_example :
    sign_database digest guid classic
    ≡ splice (splice classic 0x30 (to_le_bytes 2 1)) 0x58 (calculate digest guid (cleared classic))
sign_database-splice_example = sign_database-splice digest length-digest guid classic (omega arith)

verify-sign_database_example : verify digest guid (sign_database digest guid classic) ≡ true
verify-sign_database_example = verify-sign_database digest length-digest guid classic (omega arith)

lcm-IsLcm_example : IsLcm 12 8 (lcm 12 8) × (lcm 12 8 / 256 % 256 * 256 + lcm 12 8 % 256 ≡ lcm 12 8)
lcm-IsLcm_example = lcm-IsLcm 12 8 (omega arith) (omega arith) (omega arith) (omega arith)
