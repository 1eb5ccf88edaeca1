-- ===== src/Cbk/Laws.antt =====
-- What the checksums of `Locations.itdb` are worth: built ones verify, and verified ones are built.
use libopod.Base.{
  ℕ, zero, suc, ◌+◌, ◌*◌, ◌^◌, ◌<◌, ◌≡◌, refl, sym, ap, ap₂, ◌∙◌, Bool, true, Option, some, List,
  ◌++◌, map, flatten, arith,
}
use libopod.Base.Tests.{lt→ltb, ==_iff}
use libopod.Base.Lists.{
  length, take, drop, slice, length-append, drop-drop, take-append-drop, take-append_at,
  drop-append_at,
}
use libopod.Error.{ok}
use libopod.Cdb.Chunk.{eq_bytes, usize_mod}
use libopod.Cdb.Chunk.Equal.{eq_bytes_refl, eq_bytes→≡}
use libopod.Cdb.Hashab.{Hashab}
use libopod.Cbk.{
  CbkInfo, chunks, location_digests, build_hashab_cbk, cbk_info, verify_cbk, block_count_of,
  digest_bytes, prefix_bytes, signature_bytes,
}

-- the three parts of the checksums
parts :
    (cbk : List ℕ)
    → cbk
      ≡ take signature_bytes cbk
        ++ (slice cbk signature_bytes prefix_bytes ++ drop prefix_bytes cbk)
parts cbk = sym (
    ap (λ t. take signature_bytes cbk ++ t)
      (ap (λ t. slice cbk signature_bytes prefix_bytes ++ t)
          (sym (drop-drop digest_bytes signature_bytes prefix_bytes cbk refl))
        ∙ take-append-drop digest_bytes (drop signature_bytes cbk))
    ∙ take-append-drop signature_bytes cbk)

some-injective : {a b : Bool} → some a ≡ some b → a ≡ b
some-injective h = cc

module _ (sha1 : List ℕ → List ℕ) (length-sha1 : (bytes : List ℕ) → length (sha1 bytes) ≡ 20) where
  length-digests :
      (n : ℕ) (locations : List ℕ) → length (flatten (map sha1 (chunks n locations))) ≡ n * 20
  unfolding chunks flatten
  length-digests zero locations = refl
  length-digests (suc n) locations =
      length-append (sha1 (take 1024 locations)) _
      ∙ omega (arith, length-sha1 (take 1024 locations), length-digests n (drop 1024 locations))

module _ (sha1 : List ℕ → List ℕ) (hashab : Hashab) where
  verify_cbk_inv :
      (locations cbk : List ℕ) (guid : Option (List ℕ)) {info : CbkInfo}
      → verify_cbk sha1 hashab locations cbk guid ≡ ok info
      → cbk_info sha1 hashab locations cbk guid ≡ info
  unfolding verify_cbk
  verify_cbk_inv locations cbk guid e = ground arith

  take-build_hashab_cbk :
      (locations guid : List ℕ)
      → take signature_bytes (build_hashab_cbk sha1 hashab locations guid)
        ≡ hashab.calculate (location_digests sha1 locations).1 guid
  unfolding build_hashab_cbk
  take-build_hashab_cbk locations guid =
      take-append_at signature_bytes (hashab.calculate (location_digests sha1 locations).1 guid) _
        (sym (hashab.length-calculate (location_digests sha1 locations).1 guid))

  verify_cbk_in :
      (locations cbk : List ℕ) (guid : Option (List ℕ))
      → length locations < 2 ^ 63
      → length cbk ≡ prefix_bytes + block_count_of locations * digest_bytes
      → verify_cbk sha1 hashab locations cbk guid ≡ ok (cbk_info sha1 hashab locations cbk guid)
  unfolding verify_cbk
  verify_cbk_in locations cbk guid short total =
      let product = lt→ltb (block_count_of locations * digest_bytes) usize_mod (omega arith) in
      let sum =
        lt→ltb (prefix_bytes + block_count_of locations * digest_bytes) usize_mod (omega arith) in
      let same =
        (==_iff (length cbk) (prefix_bytes + block_count_of locations * digest_bytes)).1 total in
      rw (product, sum, same)

  -- Checksums that verify in all three parts, for a device whose GUID is known, are those that
  -- `build_hashab_cbk` builds, byte for byte.
  pub verify_cbk-build_hashab_cbk :
      (locations cbk guid : List ℕ) {info : CbkInfo}
      → verify_cbk sha1 hashab locations cbk (some guid) ≡ ok info
      → info.hashab_signature_matches ≡ some true
      → info.master_digest_matches ≡ true
      → info.block_digests_match ≡ true
      → cbk ≡ build_hashab_cbk sha1 hashab locations guid
  unfolding cbk_info build_hashab_cbk
  verify_cbk-build_hashab_cbk locations cbk guid e signed master blocks =
      let same = verify_cbk_inv locations cbk (some guid) e in
      let signature =
        eq_bytes→≡ _ _ (some-injective (ap (λ i. i.hashab_signature_matches) same ∙ signed)) in
      let m =
        eq_bytes→≡ (slice cbk signature_bytes prefix_bytes) (location_digests sha1 locations).1
          (ap (λ i. i.master_digest_matches) same ∙ master) in
      let d =
        eq_bytes→≡ (drop prefix_bytes cbk) (location_digests sha1 locations).0
          (ap (λ i. i.block_digests_match) same ∙ blocks) in
      parts cbk ∙ ap₂ ◌++◌ (sym signature ∙ take-build_hashab_cbk locations guid) (ap₂ ◌++◌ m d)

  -- Checksums that are built verify in all three parts, for the same device, where a digest has
  -- twenty bytes and the locations are fewer than 2 ^ 63 bytes.
  pub build_hashab_cbk-verify_cbk :
      (locations guid : List ℕ)
      → ((bytes : List ℕ) → length (sha1 bytes) ≡ 20)
      → length locations < 2 ^ 63
      → (info : CbkInfo) × (verify_cbk sha1 hashab locations
            (build_hashab_cbk sha1 hashab locations guid)
            (some guid)
          ≡ ok info)
        × (info.hashab_signature_matches ≡ some true)
        × (info.master_digest_matches ≡ true)
        × (info.block_digests_match ≡ true)
  unfolding cbk_info verify_cbk build_hashab_cbk
  build_hashab_cbk-verify_cbk locations guid len short =
      let cbk = build_hashab_cbk sha1 hashab locations guid in
      let d = location_digests sha1 locations in
      let signature = hashab.calculate d.1 guid in
      let size = length-digests sha1 len (block_count_of locations) locations in
      let sized : length d.1 ≡ 20 = unfold location_digests in len _ in
      let sized0 : length d.0 ≡ block_count_of locations * 20 = unfold location_digests in size in
      let total : length cbk ≡ prefix_bytes + block_count_of locations * digest_bytes =
        length-append signature (d.1 ++ d.0)
        ∙ omega (arith, length-append d.1 d.0, hashab.length-calculate d.1 guid, sized, sized0) in
      let behind : drop signature_bytes cbk ≡ d.1 ++ d.0 =
        drop-append_at signature_bytes signature (d.1 ++ d.0)
          (sym (hashab.length-calculate d.1 guid)) in
      (
        cbk_info sha1 hashab locations cbk (some guid),
        verify_cbk_in locations cbk (some guid) short total,
        ap some (eq_bytes_refl (take signature_bytes cbk)),
        ap (λ t. eq_bytes t d.1)
              (ap (take digest_bytes) behind ∙ take-append_at digest_bytes d.1 d.0 (sym sized))
            ∙ eq_bytes_refl d.1,
        ap (λ t. eq_bytes t d.0)
              (sym (drop-drop digest_bytes signature_bytes prefix_bytes cbk refl)
                ∙ ap (drop digest_bytes) behind
                ∙ drop-append_at digest_bytes d.1 d.0 (sym sized))
            ∙ eq_bytes_refl d.0,
      )
