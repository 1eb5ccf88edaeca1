-- ===== src/Tests/Checksums.antt =====
-- The checksums of a file of three bytes, with a short digest in place of SHA-1.
use libopod.Base.{ℕ, ◌≡◌, refl, true, some, List, [], ◌∷◌, ◌++◌, arith}
use libopod.Base.Lists.{length, length-take, length-append}
use libopod.Error.{ok}
use libopod.Cbk.{CbkInfo, location_digests, build_hashab_cbk, cbk_info, verify_cbk}
use libopod.Cbk.Laws.{verify_cbk-build_hashab_cbk, build_hashab_cbk-verify_cbk}
use libopod.Tests.Data.{digest, guid, zeros, unsigned}

pub length-digest : (bytes : List ℕ) → length (digest bytes) ≡ 20
length-digest bytes =
    omega (arith, length-take 20 (bytes ++ zeros 20), length-append bytes (zeros 20))

abbrev locations : List ℕ
locations = 1 ∷ 2 ∷ 3 ∷ []

abbrev checksums : List ℕ
checksums = zeros 57 ++ (digest locations ++ digest locations)

abbrev verified : CbkInfo
verified = record {
  bytes = 97;
  block_size = 1024;
  block_count = 1;
  checksum_scheme = 0;
  hashab_signature_matches = some true;
  master_digest_matches = true;
  block_digests_match = true;
}

verifies : verify_cbk digest unsigned locations checksums (some guid) ≡ ok verified
unfolding verify_cbk cbk_info build_hashab_cbk location_digests
verifies = refl

verify_cbk-build_hashab_cbk_example : checksums ≡ build_hashab_cbk digest unsigned locations guid
verify_cbk-build_hashab_cbk_example =
    verify_cbk-build_hashab_cbk digest unsigned locations checksums guid verifies refl refl refl

build_hashab_cbk-verify_cbk_example :
    (info : CbkInfo) × (verify_cbk digest unsigned locations
        (build_hashab_cbk digest unsigned locations guid)
        (some guid)
      ≡ ok info)
    × (info.hashab_signature_matches ≡ some true)
    × (info.master_digest_matches ≡ true)
    × (info.block_digests_match ≡ true)
build_hashab_cbk-verify_cbk_example =
    build_hashab_cbk-verify_cbk digest unsigned locations guid length-digest (omega arith)
