-- ===== src/Hashab/Signed.antt =====
-- What `sign_database` leaves, and what `verify_database_signature` says of it.
use libopod.Base.{
  ℕ, ◌≤◌, ◌≡◌, refl, sym, ap, ap₂, ◌∙◌, Bool, true, false, not, none, some, List, ◌&&◌, ◌||◌, ◌⊎◌,
  inl, inr, arith,
}
use libopod.Base.Tests.{ltb, le→ltb_false, &&_inv, if◌then◌else◌}
use libopod.Base.Lists.{length, take, drop, slice, splice, length-splice}
use libopod.Base.Slices.{
  slice-splice_before, slice-splice_after, slice-splice_self, take-splice, drop-splice,
}
use libopod.Error.{ok, ok-injective, ensure-eq-ok}
use libopod.Bytes.{to_le_bytes}
use libopod.Bytes.Laws.{length-to_le_bytes}
use libopod.Cdb.Chunk.{eq_bytes, mhbd}
use libopod.Cdb.Chunk.Equal.{eq_bytes→≡}
use mathlib.Core.Path.{subst}
use libopod.Cdb.Hashab.{SignatureStatus, valid, legacy_scheme4_then3, invalid}
use libopod.Hashab.{
  calculate, database_digest, sign_database, verify_database_signature, verify_digest_signature,
}
use libopod.Hashab.Random.{verify_digest_signature-calculate, verify_digest_signature_inv}
use libopod.Hashab.Digest.{digested-signature}

pub length-calculate : (digest guid random : List ℕ) → length (calculate digest guid random) ≡ 57
unfolding calculate
length-calculate digest guid random = refl

module _ (sha1 : List ℕ → List ℕ) where
  scheme3 : List ℕ → List ℕ
  scheme3 database = splice database 0x30 (to_le_bytes 2 3)

  -- The checks that come before, and the bytes that are returned.
  sign_database_inv :
      (database guid random : List ℕ) {out : List ℕ}
      → sign_database sha1 database guid random ≡ ok out
      → (0xe4 ≤ length database)
        × (eq_bytes (take 4 database) mhbd ≡ true)
        × (out
            ≡ splice
                (scheme3 database)
                0xab
                (calculate (database_digest sha1 (scheme3 database) none) guid random))
  unfolding sign_database scheme3
  sign_database_inv database guid random e =
      let (long, e1) = ensure-eq-ok (not (ltb (length database) 0xe4)) _ _ e in
      let (magic, e2) = ensure-eq-ok (eq_bytes (take 4 database) mhbd) _ _ e1 in
      (at_least (length database) long, magic, sym (ok-injective e2))
    where
      at_least : (n : ℕ) → not (ltb n 0xe4) ≡ true → 0xe4 ≤ n
      at_least n h = ground arith

  length-scheme3 :
      (database : List ℕ) → 0xe4 ≤ length database → length (scheme3 database) ≡ length database
  unfolding scheme3
  length-scheme3 database h =
      length-splice database 0x30 (to_le_bytes 2 3) (omega (arith, h, length-to_le_bytes 2 3))

  splice_frame :
      (database signature : List ℕ)
      → length signature ≡ 57
      → 0xe4 ≤ length database
      → let out = splice (scheme3 database) 0xab signature in
        (length out ≡ length database)
        × (take 0x30 out ≡ take 0x30 database)
        × (slice out 0x30 0x32 ≡ to_le_bytes 2 3)
        × (slice out 0x32 0xab ≡ slice database 0x32 0xab)
        × (drop 0xe4 out ≡ drop 0xe4 database)
  unfolding scheme3
  splice_frame database signature size h =
      let s = scheme3 database in
      let two = length-to_le_bytes 2 3 in
      let same = length-scheme3 database h in
      (
        length-splice s 0xab signature (omega (arith, same, size, h)) ∙ same,
        take-splice s 0xab signature 0x30 (omega (arith, same, h)) (omega arith)
            ∙ take-splice database 0x30 (to_le_bytes 2 3) 0x30 (omega (arith, h)) (omega arith),
        slice-splice_before s 0xab signature 0x30 0x32 (omega (arith, same, h)) (omega arith)
              (omega arith)
            ∙ slice-splice_self database 0x30 (to_le_bytes 2 3) 0x32 (omega (arith, h))
                (omega (arith, two)),
        slice-splice_before s 0xab signature 0x32 0xab (omega (arith, same, h)) (omega arith)
              (omega arith)
            ∙ slice-splice_after database 0x30 (to_le_bytes 2 3) 0x32 0xab (omega (arith, h, two))
                (omega (arith, two)),
        drop-splice s 0xab signature 0xe4 (omega (arith, same, size, h)) (omega (arith, size))
            ∙ drop-splice database 0x30 (to_le_bytes 2 3) 0xe4 (omega (arith, h, two))
                (omega (arith, two)),
      )

  -- Signing keeps the length, and changes nothing but the scheme field, which becomes 3, and the
  -- 57 bytes of the signature.
  pub sign_database_frame :
      (database guid random : List ℕ) {out : List ℕ}
      → sign_database sha1 database guid random ≡ ok out
      → (length out ≡ length database)
        × (take 0x30 out ≡ take 0x30 database)
        × (slice out 0x30 0x32 ≡ to_le_bytes 2 3)
        × (slice out 0x32 0xab ≡ slice database 0x32 0xab)
        × (drop 0xe4 out ≡ drop 0xe4 database)
  sign_database_frame database guid random {out} e =
      let (long, magic, same) = sign_database_inv database guid random e in
      let signature = calculate (database_digest sha1 (scheme3 database) none) guid random in
      subst
        (λ t.
          (length t ≡ length database)
          × (take 0x30 t ≡ take 0x30 database)
          × (slice t 0x30 0x32 ≡ to_le_bytes 2 3)
          × (slice t 0x32 0xab ≡ slice database 0x32 0xab)
          × (drop 0xe4 t ≡ drop 0xe4 database))
        (sym same)
        (splice_frame database signature
          (length-calculate (database_digest sha1 (scheme3 database) none) guid random) long)

  verify_valid :
      (out guid : List ℕ)
      → 0xe4 ≤ length out
      → eq_bytes (take 4 out) mhbd ≡ true
      → verify_digest_signature (database_digest sha1 out none) guid (slice out 0xab 0xe4) ≡ true
      → verify_database_signature sha1 out guid ≡ some valid
  unfolding verify_database_signature
  verify_valid out guid long magic h =
      let short : ltb (length out) 0xe4 ≡ false = le→ltb_false (length out) 0xe4 long in
      rw (short, magic, h)

  -- The digest of what is signed is that of what is returned.
  database_digest-splice :
      (database signature : List ℕ)
      → length signature ≡ 57
      → 0xe4 ≤ length database
      → database_digest sha1 (splice database 0xab signature) none
        ≡ database_digest sha1 database none
  unfolding database_digest
  database_digest-splice database signature size h =
      ap sha1 (digested-signature database signature size h)

  verify-splice :
      (s guid random : List ℕ)
      → length random ≡ 23
      → 0xe4 ≤ length s
      → eq_bytes (take 4 s) mhbd ≡ true
      → verify_database_signature sha1
          (splice s 0xab (calculate (database_digest sha1 s none) guid random))
          guid
        ≡ some valid
  verify-splice s guid random size long magic =
      let digest = database_digest sha1 s none in
      let signature = calculate digest guid random in
      let fits = length-calculate digest guid random in
      let out = splice s 0xab signature in
      verify_valid out guid
        (omega (arith, long, length-splice s 0xab signature (omega (arith, fits, long))))
        (ap (λ t. eq_bytes t mhbd)
            (take-splice s 0xab signature 4 (omega (arith, long)) (omega arith))
          ∙ magic)
        (ap₂ (λ d t. verify_digest_signature d guid t)
            (database_digest-splice s signature fits long)
            (slice-splice_self s 0xab signature 0xe4 (omega (arith, long)) (omega (arith, fits)))
          ∙ verify_digest_signature-calculate digest guid random size)

  -- A database that `sign_database` signs, with any 23 random bytes, verifies for the same device.
  pub verify_database_signature-sign_database :
      (database guid random : List ℕ) {out : List ℕ}
      → length random ≡ 23
      → sign_database sha1 database guid random ≡ ok out
      → verify_database_signature sha1 out guid ≡ some valid
  unfolding scheme3
  verify_database_signature-sign_database database guid random size e =
      let (long, magic, same) = sign_database_inv database guid random e in
      let s = scheme3 database in
      let length_same = length-scheme3 database long in
      ap (λ t. verify_database_signature sha1 t guid) same
      ∙ verify-splice s guid random size (omega (arith, long, length_same)) (
          ap (λ t. eq_bytes t mhbd)
            (take-splice database 0x30 (to_le_bytes 2 3) 4 (omega (arith, long)) (omega arith))
          ∙ magic)

  status_cases :
      (none_of is_valid is_legacy : Bool) {status : SignatureStatus}
      → (if none_of
          then none
          else if is_valid
          then some valid
          else if is_legacy
          then some legacy_scheme4_then3
          else some invalid)
        ≡ some status
      → ((is_valid ≡ true) × (valid ≡ status))
        ⊎ ((is_legacy ≡ true) × (legacy_scheme4_then3 ≡ status))
        ⊎ (invalid ≡ status)
  status_cases true v l h = cc
  status_cases false true l h = inl (refl, cc)
  status_cases false false true h = inr (inl (refl, cc))
  status_cases false false false h = inr (inr (cc))

  -- What a status says: the signature is that of the database's own digest, for the device, with
  -- some random bytes; that of its digest with scheme 4, where the field says 3; or no claim.
  abbrev pub Carries : List ℕ → List ℕ → SignatureStatus → Type 0
  Carries database guid valid =
      (random : List ℕ) × (slice database 0xab 0xe4
        ≡ calculate (database_digest sha1 database none) guid random)
  Carries database guid legacy_scheme4_then3 =
      (slice database 0x30 0x32 ≡ to_le_bytes 2 3)
      × ((random : List ℕ) × (slice database 0xab 0xe4
            ≡ calculate (database_digest sha1 database (some 4)) guid random))
  Carries database guid invalid = Unit {0}

  -- A database that verifies carries what its status says.
  pub verify_database_signature_inv :
      (database guid : List ℕ) {status : SignatureStatus}
      → verify_database_signature sha1 database guid ≡ some status
      → Carries database guid status
  unfolding verify_database_signature
  verify_database_signature_inv database guid {status} h =
      let signature = slice database 0xab 0xe4 in
      let own = verify_digest_signature (database_digest sha1 database none) guid signature in
      let three = eq_bytes (slice database 0x30 0x32) (to_le_bytes 2 3) in
      let four = verify_digest_signature (database_digest sha1 database (some 4)) guid signature in
      elim (status_cases (ltb (length database) 0xe4 || not (eq_bytes (take 4 database) mhbd)) own
        (three && four) h) [
          | inl c ↦
              subst (Carries database guid) c.1 (verify_digest_signature_inv _ guid signature c.0)
          | inr (inl c) ↦
              let (scheme, made) = &&_inv three four c.0 in
              subst (Carries database guid) c.1
                (eq_bytes→≡ _ _ scheme, verify_digest_signature_inv _ guid signature made)
          | inr (inr c) ↦ subst (Carries database guid) c tt
        ]

  -- the checks of `sign_database` are these two
  pub sign_database_ok :
      (database guid random : List ℕ)
      → 0xe4 ≤ length database
      → eq_bytes (take 4 database) mhbd ≡ true
      → (out : List ℕ) × (sign_database sha1 database guid random ≡ ok out)
  unfolding sign_database
  sign_database_ok database guid random long magic =
      let fits = le→ltb_false (length database) 0xe4 long in
      (
        splice (splice database 0x30 (to_le_bytes 2 3)) 0xab (
            calculate (database_digest sha1 (splice database 0x30 (to_le_bytes 2 3)) none) guid
              random),
        rw (fits, magic) refl,
      )
