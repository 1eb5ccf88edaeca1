-- ===== src/Hashab/Implements.antt =====
-- The HASHAB signature fills the interface that the rest of the library takes.
use libopod.Base.{ℕ, List}
use libopod.Cdb.Hashab.{Hashab}
use libopod.Hashab.{calculate, sign_database, verify_database_signature, cbk_random}
use libopod.Hashab.Signed.{length-calculate}

abbrev pub hashab : (List ℕ → List ℕ) → Hashab
hashab sha1 = record {
  sign_database = λ database guid. sign_database sha1 database guid cbk_random;
  verify_database_signature = λ database guid. verify_database_signature sha1 database guid;
  calculate = λ digest guid. calculate digest guid cbk_random;
  length-calculate = λ digest guid. length-calculate digest guid cbk_random;
}
