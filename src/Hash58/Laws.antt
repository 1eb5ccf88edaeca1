-- ===== src/Hash58/Laws.antt =====
-- What signing changes, and that it verifies.
use libopod.Base.{ℕ, ◌-◌, ◌≤◌, ◌<◌, ◌≡◌, refl, sym, ap, ◌∙◌, Bool, true, false, List, arith}
use libopod.Base.Tests.{le→ltb_false, if◌then◌else◌}
use libopod.Base.Lists.{length, slice, splice, length-splice, length-slice, get_elem?, replicate}
use libopod.Base.Slices.{slice-splice_after, slice-splice_self}
use libopod.Base.Points.{within, get_elem?-ext, get_elem?-splice_of, get_elem?-slice}
use libopod.Bytes.{to_le_bytes}
use libopod.Cdb.Chunk.{eq_bytes}
use libopod.Cdb.Chunk.Equal.{eq_bytes_refl}
use libopod.Hash58.{calculate, hmac_sha1, cleared, sign_database, verify}
use libopod.Hash58.Cleared.{pick_again, length-cleared_steps, get_elem?-cleared}

-- what was restored reads as before
pick_restored :
    {A : Type 0} (a b c d : Bool) (s z y x back v w digest : A)
    → (c ≡ true → (a ≡ false) × (b ≡ false) × (w ≡ v))
    → (d ≡ true → (a ≡ false) × (b ≡ false) × (back ≡ v))
    → (if c
        then w
        else if d
        then back
        else if b
        then digest
        else if a
        then s
        else if b
        then z
        else if c
        then y
        else if d
        then x
        else v)
      ≡ (if b then digest else if a then s else v)
pick_restored a b true d s z y x back v w digest hc hd =
    let (ha, hb, hw) = hc refl in rw (hb, ha, hw) refl
pick_restored a b false true s z y x back v w digest hc hd =
    let (ha, hb, hw) = hd refl in rw (hb, ha, hw) refl
pick_restored a true false false s z y x back v w digest hc hd = refl
pick_restored true false false false s z y x back v w digest hc hd = refl
pick_restored false false false false s z y x back v w digest hc hd = refl

-- the four fields do not overlap
within_unk32 :
    (i : ℕ)
    → within 0x32 20 i ≡ true
    → (within 0x30 2 i ≡ false) × (within 0x58 20 i ≡ false) × (0x32 ≤ i) × (i < 0x46)
within_unk32 i h = ground arith

within_db_id :
    (i : ℕ)
    → within 0x18 8 i ≡ true
    → (within 0x30 2 i ≡ false) × (within 0x58 20 i ≡ false) × (0x18 ≤ i) × (i < 0x20)
within_db_id i h = ground arith

module _ (sha1 : List ℕ → List ℕ) (size : (message : List ℕ) → length (sha1 message) ≡ 20)
    (firewire_id db : List ℕ) (long : 0x6c ≤ length db) where
  length-calculate : (itunesdb : List ℕ) → length (calculate sha1 firewire_id itunesdb) ≡ 20
  unfolding calculate hmac_sha1
  length-calculate itunesdb = size _

  digest : List ℕ
  digest = calculate sha1 firewire_id (cleared db)

  length-db_id : length (slice db 0x18 0x20) ≡ 8
  length-db_id = length-slice db 0x18 0x20 (omega arith) (omega (arith, long))

  length-unk32 : length (slice db 0x32 0x46) ≡ 20
  length-unk32 = length-slice db 0x32 0x46 (omega arith) (omega (arith, long))

  length-signed_steps :
      (length (splice (cleared db) 0x58 digest) ≡ length db)
      × (length (splice (splice (cleared db) 0x58 digest) 0x18 (slice db 0x18 0x20)) ≡ length db)
      × (length (sign_database sha1 firewire_id db) ≡ length db)
  unfolding sign_database digest
  length-signed_steps =
      let (_, _, _, zero) = length-cleared_steps db long in
      let twenty = length-calculate (cleared db) in
      let one = length-splice (cleared db) 0x58 digest (omega (arith, long, zero, twenty)) ∙ zero in
      let two =
        length-splice (splice (cleared db) 0x58 digest) 0x18 (slice db 0x18 0x20)
          (omega (arith, long, one, length-db_id))
        ∙ one in
      (
        one,
        two,
        length-splice (splice (splice (cleared db) 0x58 digest) 0x18 (slice db 0x18 0x20)) 0x32
              (slice db 0x32 0x46) (omega (arith, long, two, length-unk32))
            ∙ two,
      )

  get_elem?-sign_database :
      (i : ℕ)
      → get_elem? (sign_database sha1 firewire_id db) i ≡ (
          if within 0x32 20 i
          then get_elem? (slice db 0x32 0x46) (i - 0x32)
          else if within 0x18 8 i
          then get_elem? (slice db 0x18 0x20) (i - 0x18)
          else if within 0x58 20 i
          then get_elem? (calculate sha1 firewire_id (cleared db)) (i - 0x58)
          else get_elem? (cleared db) i)
  unfolding sign_database digest
  get_elem?-sign_database i =
      let (_, _, _, zero) = length-cleared_steps db long in
      let (one, two, _) = length-signed_steps in
      get_elem?-splice_of _ 0x32 (slice db 0x32 0x46) 20 i length-unk32 (omega (arith, long, two))
      ∙ ap (λ t. if within 0x32 20 i then get_elem? (slice db 0x32 0x46) (i - 0x32) else t)
          (get_elem?-splice_of _ 0x18 (slice db 0x18 0x20) 8 i length-db_id
              (omega (arith, long, one))
            ∙ ap (λ t. if within 0x18 8 i then get_elem? (slice db 0x18 0x20) (i - 0x18) else t)
                (get_elem?-splice_of (cleared db) 0x58 digest 20 i (length-calculate (cleared db))
                  (omega (arith, long, zero))))

  long_signed : 0x6c ≤ length (sign_database sha1 firewire_id db)
  long_signed = let (_, _, same) = length-signed_steps in omega (arith, long, same)

  -- What is digested does not change by signing.
  pub cleared-sign_database : cleared (sign_database sha1 firewire_id db) ≡ cleared db
  unfolding digest
  cleared-sign_database = get_elem?-ext _ _ λ i.
      get_elem?-cleared (sign_database sha1 firewire_id db) long_signed i
      ∙ ap
          (λ t.
            if within 0x30 2 i
            then get_elem? (to_le_bytes 2 1) (i - 0x30)
            else if within 0x58 20 i
            then get_elem? (replicate 20 0) (i - 0x58)
            else if within 0x32 20 i
            then get_elem? (replicate 20 0) (i - 0x32)
            else if within 0x18 8 i
            then get_elem? (replicate 8 0) (i - 0x18)
            else t)
          (get_elem?-sign_database i
            ∙ ap
                (λ t.
                  if within 0x32 20 i
                  then get_elem? (slice db 0x32 0x46) (i - 0x32)
                  else if within 0x18 8 i
                  then get_elem? (slice db 0x18 0x20) (i - 0x18)
                  else if within 0x58 20 i
                  then get_elem? digest (i - 0x58)
                  else t)
                (get_elem?-cleared db long i))
      ∙ pick_again (within 0x30 2 i) (within 0x58 20 i) (within 0x32 20 i) (within 0x18 8 i) _ _ _ _
          _ _ _ _
      ∙ sym (get_elem?-cleared db long i)

  slice-sign_database : slice (sign_database sha1 firewire_id db) 0x58 0x6c ≡ digest
  unfolding sign_database digest
  slice-sign_database =
      let (_, _, _, zero) = length-cleared_steps db long in
      let (one, two, _) = length-signed_steps in
      let twenty = length-calculate (cleared db) in
      slice-splice_after (splice (splice (cleared db) 0x58 digest) 0x18 (slice db 0x18 0x20)) 0x32
        (slice db 0x32 0x46) 0x58 0x6c (omega (arith, long, two, length-unk32))
        (omega (arith, length-unk32))
      ∙ slice-splice_after (splice (cleared db) 0x58 digest) 0x18 (slice db 0x18 0x20) 0x58 0x6c
          (omega (arith, long, one, length-db_id)) (omega (arith, length-db_id))
      ∙ slice-splice_self (cleared db) 0x58 digest 0x6c (omega (arith, long, zero))
          (omega (arith, twenty))

  -- Signing changes the scheme field, which becomes 1, and the signature, and no other byte: the
  -- fields that are cleared for the digest are restored; where a digest has twenty bytes and the
  -- file 0x6c or more.
  pub sign_database-splice :
      sign_database sha1 firewire_id db
      ≡ splice (splice db 0x30 (to_le_bytes 2 1)) 0x58 (calculate sha1 firewire_id (cleared db))
  unfolding digest to_le_bytes
  sign_database-splice = get_elem?-ext _ _ λ i.
      let scheme = length-splice db 0x30 (to_le_bytes 2 1) (omega (arith, long)) in
      get_elem?-sign_database i
      ∙ ap
          (λ t.
            if within 0x32 20 i
            then get_elem? (slice db 0x32 0x46) (i - 0x32)
            else if within 0x18 8 i
            then get_elem? (slice db 0x18 0x20) (i - 0x18)
            else if within 0x58 20 i
            then get_elem? digest (i - 0x58)
            else t)
          (get_elem?-cleared db long i)
      ∙ pick_restored (within 0x30 2 i) (within 0x58 20 i) (within 0x32 20 i) (within 0x18 8 i) _ _
          _ _ _ _ _ _
          (λ h.
            let (a, b, low, high) = within_unk32 i h in
            (a, b, get_elem?-slice db 0x32 0x46 i low high))
          (λ h.
            let (a, b, low, high) = within_db_id i h in
            (a, b, get_elem?-slice db 0x18 0x20 i low high))
      ∙ sym (
          get_elem?-splice_of _ 0x58 digest 20 i (length-calculate (cleared db))
            (omega (arith, long, scheme))
          ∙ ap (λ t. if within 0x58 20 i then get_elem? digest (i - 0x58) else t)
              (get_elem?-splice_of db 0x30 (to_le_bytes 2 1) 2 i refl (omega (arith, long))))

  signed_slice :
      slice (sign_database sha1 firewire_id db) 0x58 0x6c ≡ calculate sha1 firewire_id (cleared db)
  unfolding digest
  signed_slice = slice-sign_database

-- A file that is signed verifies for the same device; where a digest has twenty bytes and the file
-- 0x6c or more.
pub verify-sign_database :
    (sha1 : List ℕ → List ℕ)
    → ((message : List ℕ) → length (sha1 message) ≡ 20)
    → (firewire_id db : List ℕ) → 0x6c ≤ length db
    → verify sha1 firewire_id (sign_database sha1 firewire_id db) ≡ true
unfolding verify
verify-sign_database sha1 size firewire_id db long =
    let signed = sign_database sha1 firewire_id db in
    let long' = long_signed sha1 size firewire_id db long in
    let same =
      signed_slice sha1 size firewire_id signed long'
      ∙ ap (calculate sha1 firewire_id) (cleared-sign_database sha1 size firewire_id db long)
      ∙ sym (signed_slice sha1 size firewire_id db long) in
    rw (le→ltb_false (length signed) 0x6c long')
      (ap (λ t. eq_bytes t (slice signed 0x58 0x6c)) same ∙ eq_bytes_refl (slice signed 0x58 0x6c))
