-- ===== src/Cdb/Hashab.antt =====
-- The interface of src/crypto/hashab/mod.rs: a database is signed in place, the signature of a
-- database is classified, and the signature of a digest is computed.
use libopod.Base.{ℕ, Option, List, ◌≡◌}
use libopod.Base.Lists.{length}
use libopod.Error.{Result}

pub data SignatureStatus : Type 0 where
  valid legacy_scheme4_then3 invalid : SignatureStatus

-- `sign_database(database, guid, CBK_RANDOM)`, `verify_database_signature(data, guid)` and
-- `calculate(digest, guid, CBK_RANDOM)`, which returns a `[u8; 57]`
pub record Hashab : Type 0 where
  pub sign_database : List ℕ → List ℕ → Result (List ℕ)
  pub verify_database_signature : List ℕ → List ℕ → Option SignatureStatus
  pub calculate : List ℕ → List ℕ → List ℕ
  pub length-calculate : (digest guid : List ℕ) → length (calculate digest guid) ≡ 57
