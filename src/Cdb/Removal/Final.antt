-- ===== src/Cdb/Removal/Final.antt =====
-- What `finalize_cdb` returns, and when it returns a file.
use libopod.Base.{ℕ, ◌+◌, ◌≤◌, ◌<◌, ◌≡◌, refl, sym, ap, ◌∙◌, true, Option, some, List, arith}
use libopod.Base.Lists.{length, take, drop, slice}
use libopod.Error.{
  Result, Run, ok, ◌>>=◌, ◌>>◌, ensure, and_then, then_run, >>=-eq-ok, ensure-eq-ok, ok-injective,
  and_then-eq-ok, then_run-eq-ok,
}
use libopod.Bytes.{read_u32, to_le_bytes}
use libopod.Cdb.Chunk.{eq_bytes, mhbd, unverified}
use libopod.Cdb.Hashab.{Hashab, valid}
use libopod.Cdb.Index.{u32_mod}
use libopod.Cdb.Inspect.{
  CdbInfo, CdbDatasetInfo, inspect_header, inspect_cdb, decode_payload, describe, scan_datasets,
  max_uncompressed_bytes, max_datasets,
}
use libopod.Cdb.Removal.{is_valid, assemble_cdb, patch_header, sign_cdb, finalize_cdb}
use libopod.Cdb.Removal.Assemble.{
  IsAssembled, patch_header-IsAssembled, patch_header_inv, assemble_cdb-patch_header,
  assemble_cdb_inv,
}
use libopod.Cdb.Removal.Signed.{
  sign_database-IsAssembled, inspect_header-IsAssembled, describe_ok, decode_payload-IsAssembled,
}
use libopod.Hashab.{sign_database, verify_database_signature, cbk_random}
use libopod.Hashab.Signed.{
  verify_database_signature-sign_database, sign_database_ok, sign_database_frame,
}
use libopod.Hashab.Implements.{hashab}

-- the status that an inspection reports is that of the file
inspect_cdb-status :
    (inflate : ℕ → List ℕ → Option (List ℕ)) (h : Hashab) (bytes guid : List ℕ) {info : CdbInfo}
    → inspect_cdb inflate h bytes (some guid) ≡ some (ok info)
    → info.hashab_signature_status ≡ h.verify_database_signature bytes guid
unfolding inspect_cdb
inspect_cdb-status inflate h bytes guid {info} e =
    let (head, _, e1) = then_run-eq-ok (inspect_header bytes) _ e in
    let (payload, _, e2) = then_run-eq-ok (decode_payload inflate bytes head.0) _ e1 in
    let (datasets, _, e3) = and_then-eq-ok (scan_datasets payload head.1) _ e2 in
    described head payload datasets e3
  where
    described :
        (head : ℕ × ℕ × ℕ) (payload : List ℕ) (datasets : List CdbDatasetInfo)
        → describe h bytes (some guid) head payload datasets ≡ ok info
        → info.hashab_signature_status ≡ h.verify_database_signature bytes guid
    described head payload datasets d = unfold describe in ground (arith, d)

module _ (inflate : ℕ → List ℕ → Option (List ℕ)) (deflate : List ℕ → Option (List ℕ))
    (sha1 : List ℕ → List ℕ) (header uncompressed guid : List ℕ) where
  -- The last check never fails: what was signed and inspected is returned.
  pub finalize_cdb-signed :
      {out : List ℕ} {info : CdbInfo}
      → sign_cdb inflate deflate (hashab sha1) header uncompressed guid ≡ ok out
      → inspect_cdb inflate (hashab sha1) out (some guid) ≡ some (ok info)
      → finalize_cdb inflate deflate (hashab sha1) header uncompressed guid ≡ some (ok out)
  unfolding finalize_cdb sign_cdb
  finalize_cdb-signed {out} {info} signed inspected =
      let (a, _, e) =
        >>=-eq-ok (assemble_cdb inflate deflate (hashab sha1) header uncompressed) _ signed in
      let status : is_valid info.hashab_signature_status ≡ true = ap is_valid (
        inspect_cdb-status inflate (hashab sha1) out guid inspected
        ∙ verify_database_signature-sign_database sha1 a guid cbk_random refl e) in
      ap (λ r. then_run r (finish)) signed
      ∙ ap (λ r. and_then r (check out)) inspected
      ∙ ap (λ b. some (ensure b unverified >> ok out)) status
    where
      check : List ℕ → CdbInfo → Result (List ℕ)
      check output inspected =
          ensure (is_valid inspected.hashab_signature_status) unverified >> ok output

      finish : List ℕ → Run (List ℕ)
      finish output = and_then (inspect_cdb inflate (hashab sha1) output (some guid)) (check output)

  finalize_cdb_inv :
      {out : List ℕ}
      → finalize_cdb inflate deflate (hashab sha1) header uncompressed guid ≡ some (ok out)
      → (compressed : List ℕ) × (bytes : List ℕ) × (deflate uncompressed ≡ some compressed)
        × (patch_header header compressed ≡ ok bytes)
        × (sign_database sha1 bytes guid cbk_random ≡ ok out)
  unfolding finalize_cdb sign_cdb
  finalize_cdb_inv {out} e =
      let (output, signed, e1) =
        then_run-eq-ok (sign_cdb inflate deflate (hashab sha1) header uncompressed guid) _ e in
      let (info, _, e2) =
        and_then-eq-ok (inspect_cdb inflate (hashab sha1) output (some guid)) _ e1 in
      let (_, e3) = ensure-eq-ok (is_valid info.hashab_signature_status) _ _ e2 in
      let (bytes, assembled, e4) =
        >>=-eq-ok (assemble_cdb inflate deflate (hashab sha1) header uncompressed) _ signed in
      let (compressed, made, patched) =
        assemble_cdb_inv inflate deflate (hashab sha1) header uncompressed assembled in
      (compressed, bytes, made, patched, e4 ∙ ap ok (ok-injective e3))

  pub finalize_cdb-stream :
      {out : List ℕ}
      → 0xe4 ≤ length header
      → finalize_cdb inflate deflate (hashab sha1) header uncompressed guid ≡ some (ok out)
      → (deflate uncompressed ≡ some (drop (length header) out))
        × (verify_database_signature sha1 out guid ≡ some valid)
  finalize_cdb-stream {out} long e =
      let (compressed, bytes, made, patched, signed) = finalize_cdb_inv e in
      let a =
        sign_database-IsAssembled sha1 header compressed bytes guid cbk_random long
          (patch_header_inv header long compressed patched) signed in
      (
        made ∙ ap some (sym a.stream),
        verify_database_signature-sign_database sha1 bytes guid cbk_random refl signed,
      )

  module _
      (zlib : (limit : ℕ) (bytes compressed : List ℕ)
        → deflate bytes ≡ some compressed
        → inflate limit compressed ≡ some (take limit bytes))
      (long : 0xe4 ≤ length header) (small : length uncompressed ≤ max_uncompressed_bytes) where
    -- For a header of 0xe4 bytes or more and a payload of 512 MiB at most, and where what `deflate`
    -- packs is what `inflate` unpacks: a file that is returned is the header, of which no byte is
    -- changed outside the fields of the length, the scheme, the flag and the signature, and a stream
    -- that unpacks to the payload. The length field is the file's, the flag is 1, the scheme is 3,
    -- and the signature is valid for the device.
    pub finalize_cdb-IsAssembled :
        {out : List ℕ}
        → finalize_cdb inflate deflate (hashab sha1) header uncompressed guid ≡ some (ok out)
        → (compressed : List ℕ) × IsAssembled header compressed out
          × (decode_payload inflate out (length header) ≡ ok uncompressed)
          × (slice out 0x30 0x32 ≡ to_le_bytes 2 3)
          × (verify_database_signature sha1 out guid ≡ some valid)
    finalize_cdb-IsAssembled {out} e =
        let (compressed, bytes, made, patched, signed) = finalize_cdb_inv e in
        let a =
          sign_database-IsAssembled sha1 header compressed bytes guid cbk_random long
            (patch_header_inv header long compressed patched) signed in
        (
          compressed,
          a,
          decode_payload-IsAssembled header compressed out a inflate uncompressed
              (zlib (max_uncompressed_bytes + 1) uncompressed compressed made) small,
          (sign_database_frame sha1 bytes guid cbk_random signed).2,
          verify_database_signature-sign_database sha1 bytes guid cbk_random refl signed,
        )

    -- For a header of 0xe4 bytes or more that begins with the magic, says its own length and declares
    -- 64 datasets at most, a payload of 512 MiB at most that the inspection's scan cuts into that many
    -- datasets, and a stream that `deflate` gives for it, which with the header stays below 4 GiB, and
    -- where what `deflate` packs is what `inflate` unpacks: a file is returned.
    pub finalize_cdb_returns :
        (declared : ℕ) (compressed : List ℕ) {infos : List CdbDatasetInfo}
        → eq_bytes (take 4 header) mhbd ≡ true
        → read_u32 header 4 ≡ ok (length header)
        → read_u32 header 0x14 ≡ ok declared
        → declared ≤ max_datasets
        → scan_datasets uncompressed declared ≡ some (ok infos)
        → deflate uncompressed ≡ some compressed
        → length header + length compressed < u32_mod
        → (out : List ℕ) × (finalize_cdb inflate deflate (hashab sha1) header uncompressed guid
            ≡ some (ok out))
    unfolding inspect_cdb sign_cdb
    finalize_cdb_returns declared compressed {infos} magic own count few scanned made fits =
        let (bytes, patched, a) = patch_header-IsAssembled header long compressed fits in
        let size = a.size in
        let (out, signed) =
          sign_database_ok sha1 bytes guid cbk_random (omega (arith, size, long))
            (ap (λ t. eq_bytes t mhbd) a.magic ∙ magic) in
        let b =
          sign_database-IsAssembled sha1 header compressed bytes guid cbk_random long a signed in
        let head =
          inspect_header-IsAssembled header compressed out b declared long (omega (arith, fits))
            magic own count few in
        let decoded =
          decode_payload-IsAssembled header compressed out b inflate uncompressed
            (zlib (max_uncompressed_bytes + 1) uncompressed compressed made) small in
        let (info, described) =
          describe_ok header compressed out b (hashab sha1) (some guid) (length header, declared, 1)
            uncompressed infos long in
        let assembled =
          assemble_cdb-patch_header inflate deflate (hashab sha1) header uncompressed compressed
            made
          ∙ patched in
        (
          out,
          finalize_cdb-signed
              (ap (λ r. r >>= λ output. sign_database sha1 output guid cbk_random) assembled
                ∙ signed)
              (inspected out head decoded scanned described),
        )
      where
        inspected :
            (out : List ℕ) {info : CdbInfo}
            → inspect_header out ≡ ok (length header, declared, 1)
            → decode_payload inflate out (length header) ≡ ok uncompressed
            → scan_datasets uncompressed declared ≡ some (ok infos)
            → describe (hashab sha1) out (some guid) (length header, declared, 1) uncompressed infos
              ≡ ok info
            → inspect_cdb inflate (hashab sha1) out (some guid) ≡ some (ok info)
        inspected out head decoded scanned described = rw (head, decoded, scanned, described) refl
