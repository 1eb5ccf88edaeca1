-- ===== src/Cbk.antt =====
-- src/storage/binary/cbk.rs: the checksums of `Locations.itdb`, a signature of 57 bytes, the digest
-- of the digests, and a digest for each block of 1024 bytes. SHA-1 is a third party's.

pub mod Laws
use libopod.Base.{
  ℕ, zero, suc, ◌+◌, ◌*◌, ◌/◌, ◌≡◌, Bool, ◌&&◌, Option, none, some, List, [], ◌∷◌, ◌++◌, map,
  flatten,
}
use libopod.Base.Tests.{ltb, ◌==◌}
use libopod.Base.Lists.{length, take, drop, slice, get_or}
use libopod.Error.{Result, ok, err, malformed, locations_cbk, ◌>>=◌, ◌>>◌, ensure}
use libopod.Cdb.Chunk.{eq_bytes, usize_mod}
use libopod.Cdb.Hashab.{Hashab}
use libopod.Cdb.Index.{u32_or_max}

abbrev pub block_bytes : ℕ
block_bytes = 1024

abbrev pub signature_bytes : ℕ
signature_bytes = 57

abbrev pub digest_bytes : ℕ
digest_bytes = 20

abbrev pub prefix_bytes : ℕ
prefix_bytes = signature_bytes + digest_bytes

pub record CbkInfo : Type 0 where
  pub bytes : ℕ
  pub block_size : ℕ
  pub block_count : ℕ
  pub checksum_scheme : ℕ
  pub hashab_signature_matches : Option Bool
  pub master_digest_matches : Bool
  pub block_digests_match : Bool

abbrev pub digests_match : CbkInfo → Bool
digests_match info = info.master_digest_matches && info.block_digests_match

-- `locations.len().div_ceil(BLOCK_BYTES)`
abbrev pub block_count_of : List ℕ → ℕ
block_count_of locations = (length locations + 1023) / 1024

-- the first `n` of `locations.chunks(BLOCK_BYTES)`
unfoldable pub chunks : ℕ → List ℕ → List (List ℕ)
chunks zero bytes = []
chunks (suc n) bytes = take block_bytes bytes ∷ chunks n (drop block_bytes bytes)

module _ (sha1 : List ℕ → List ℕ) where
  -- the digests of the blocks, one after the other, and the digest of these
  unfoldable pub location_digests : List ℕ → List ℕ × List ℕ
  unfolding chunks flatten
  location_digests locations =
      let concatenated = flatten (map sha1 (chunks (block_count_of locations) locations)) in
      (concatenated, sha1 concatenated)

module _ (sha1 : List ℕ → List ℕ) (hashab : Hashab) where
  unfoldable pub build_hashab_cbk : List ℕ → List ℕ → List ℕ
  build_hashab_cbk locations firewire_guid =
      let digests = location_digests sha1 locations in
      hashab.calculate digests.1 firewire_guid ++ (digests.1 ++ digests.0)

  -- the description of a file of the expected length
  unfoldable pub cbk_info : List ℕ → List ℕ → Option (List ℕ) → CbkInfo
  unfolding u32_or_max
  cbk_info locations cbk firewire_guid =
      let digests = location_digests sha1 locations in
      record {
        bytes = length cbk;
        block_size = block_bytes;
        block_count = u32_or_max (block_count_of locations);
        checksum_scheme = get_or cbk 0 0 + 256 * get_or cbk 1 0;
        hashab_signature_matches = elim firewire_guid [
          | none ↦ none
          | some guid ↦ some (
              eq_bytes (take signature_bytes (build_hashab_cbk locations guid))
                (take signature_bytes cbk))
        ];
        master_digest_matches = eq_bytes (slice cbk signature_bytes prefix_bytes) digests.1;
        block_digests_match = eq_bytes (drop prefix_bytes cbk) digests.0;
      }

  unfoldable pub verify_cbk : List ℕ → List ℕ → Option (List ℕ) → Result CbkInfo
  verify_cbk locations cbk firewire_guid = do
    ensure (ltb (block_count_of locations * digest_bytes) usize_mod) (malformed locations_cbk 0)
    ensure (ltb (prefix_bytes + block_count_of locations * digest_bytes) usize_mod)
        (malformed locations_cbk 0)
    ensure (length cbk == prefix_bytes + block_count_of locations * digest_bytes)
        (malformed locations_cbk 0)
    ok (cbk_info locations cbk firewire_guid)
