-- ===== src/Cdb/Index/Jump/Entries.antt =====
-- The loop of `rewrite_mhod53`, byte by byte.
use libopod.Base.{
  ℕ, zero, suc, ◌+◌, ◌-◌, ◌*◌, ◌^◌, ◌≤◌, ◌<◌, ◌≡◌, refl, sym, ap, ap₂, ◌∙◌, true, false, List, [],
  ◌∷◌, ◌++◌, append-nil, append_assoc, inl, inr, arith,
}
use libopod.Base.Tests.{Bool-cases, ◌==◌}
use libopod.Base.Lists.{length, slice, take, drop, length-slice, length-append}
use libopod.Base.Slices.{slice-append_le, slice-append_ge, take-take_le}
use libopod.Error.{ok, >>=-eq-ok}
use libopod.Bytes.{IsBytes, from_le_bytes, read_u32, write_u32}
use libopod.Bytes.Laws.{
  read_u32_inv, read_u32_in, length-write_u32, read_u32-write_u32, read_u32-write_u32_ne,
  read_u32-lt,
}
use libopod.Cdb.Index.{renumber, regroup, entry53, entries53}
use native.Mathlib.Nat.{add-zero}
use libopod.Cdb.Index.Renumber.{renumber-le, regroup-le}
use libopod.Cdb.Index.Jump.{Group, group_at, groups, regrouped}

-- a group inside a larger buffer
group_at-append :
    (pre entry rest : List ℕ) (offset : ℕ)
    → offset ≡ length pre
    → length entry ≡ 12
    → group_at (pre ++ (entry ++ rest)) offset ≡ group_at entry 0
group_at-append pre entry rest offset h k =
    ap₂ (λ x (y : ℕ × ℕ). (x, y.0, y.1))
      (part 0 4 offset (offset + 4) (omega arith) (omega arith) (omega arith) (omega arith))
      (ap₂ (λ x y. (x, y))
        (part 4 8 (offset + 4) (offset + 8) (omega arith) (omega arith) (omega arith) (omega arith))
        (part 8 12 (offset + 8) (offset + 12) (omega arith) (omega arith) (omega arith)
          (omega arith)))
  where
    part :
        (a b a' b' : ℕ)
        → a ≤ b
        → b ≤ 12
        → a' ≡ length pre + a
        → b' ≡ length pre + b
        → from_le_bytes (slice (pre ++ (entry ++ rest)) a' b') ≡ from_le_bytes (slice entry a b)
    part a b a' b' ab b12 ea eb = ap from_le_bytes (
        slice-append_ge pre (entry ++ rest) a b a' b' ea eb
        ∙ slice-append_le entry rest a b ab (omega arith))

-- the two writes of an entry
entry53_inv :
    (chunk : List ℕ) (offset start count : ℕ) {entry : List ℕ}
    → entry53 chunk offset start count ≡ ok entry
    → (mid : List ℕ) × (write_u32 (slice chunk offset (offset + 12)) 4 start ≡ ok mid)
      × (write_u32 mid 8 count ≡ ok entry)
unfolding entry53
entry53_inv chunk offset start count e =
    >>=-eq-ok (write_u32 (slice chunk offset (offset + 12)) 4 start) _ e

first_field :
    (chunk : List ℕ) (offset : ℕ)
    → slice (slice chunk offset (offset + 12)) 0 4 ≡ slice chunk offset (offset + 4)
first_field chunk offset =
    take-take_le 4 (offset + 12 - offset) (drop offset chunk) (omega arith)
    ∙ ap (λ (t : ℕ). take t (drop offset chunk)) four
  where
    four : ◌≡◌ {A = ℕ} 4 (offset + 4 - offset)
    four = omega arith

-- A written entry keeps its letter, and has the new start and count.
pub entry53_lem :
    (chunk : List ℕ) (offset start count : ℕ) {entry : List ℕ}
    → offset + 12 ≤ length chunk
    → start < 2 ^ 32
    → count < 2 ^ 32
    → entry53 chunk offset start count ≡ ok entry
    → (length entry ≡ 12)
      × (group_at entry 0 ≡ (from_le_bytes (slice chunk offset (offset + 4)), start, count))
entry53_lem chunk offset start count {entry} h hs hc e =
    let (mid, first, second) = entry53_inv chunk offset start count e in
    let raw = slice chunk offset (offset + 12) in
    let raw_length : length raw ≡ 12 = omega (arith, length-slice chunk offset (offset + 12)) in
    let mid_length = length-write_u32 raw 4 start first in
    let letter : read_u32 entry 0 ≡ ok (from_le_bytes (slice chunk offset (offset + 4))) =
      read_u32-write_u32_ne mid 8 0 count second (inl (omega arith))
      ∙ read_u32-write_u32_ne raw 4 0 start first (inl (omega arith))
      ∙ read_u32_in raw 0 (omega (arith, raw_length))
      ∙ ap (λ t. ok (from_le_bytes t)) (first_field chunk offset) in
    let new_start : read_u32 entry 4 ≡ ok start =
      read_u32-write_u32_ne mid 8 4 count second (inl (omega arith))
      ∙ read_u32-write_u32 raw 4 start hs first in
    let new_count = read_u32-write_u32 mid 8 count hc second in
    (
      length-write_u32 mid 8 count second ∙ mid_length ∙ raw_length,
      ap₂ (λ x (y : ℕ × ℕ). (x, y.0, y.1)) (sym (read_u32_inv entry 0 letter).1)
          (ap₂ (λ x y. (x, y)) (sym (read_u32_inv entry 4 new_start).1)
            (sym (read_u32_inv entry 8 new_count).1)),
    )

-- A run of the loop appends a block of entries, which read back wherever the block stands.
pub record Appends (gs : List Group) (output : List ℕ) (retained : ℕ) (r : List ℕ × ℕ)
    : Type 0 where
  pub block : List ℕ
  pub appended : r.0 ≡ output ++ block
  pub number : r.1 ≡ retained + length gs
  pub size : length block ≡ length gs * 12
  pub read_back :
      (pre : List ℕ) (offset : ℕ)
      → offset ≡ length pre
      → groups (length gs) (pre ++ block) offset ≡ gs

Appends-cons :
    {g : Group} {gs : List Group} (entry output : List ℕ) (retained : ℕ) {r : List ℕ × ℕ}
    → length entry ≡ 12
    → group_at entry 0 ≡ g
    → Appends gs (output ++ entry) (retained + 1) r
    → Appends (g ∷ gs) output retained r
Appends-cons {g} {gs} entry output retained size holds ih = record {
  block = entry ++ ih.block;
  appended = ih.appended ∙ append_assoc output entry ih.block;
  number = omega (arith, ih.number);
  size = omega (arith, length-append entry ih.block, ih.size, size);
  read_back = λ pre offset h. ap₂ ◌∷◌ (group_at-append pre entry ih.block offset h size ∙ holds) (
      ap (λ t. groups (length gs) t (offset + 12)) (sym (append_assoc pre entry ih.block))
      ∙ ih.read_back (pre ++ entry) (offset + 12)
          (omega (arith, length-append pre entry, h, size)));
}

group_at_reads :
    (bytes : List ℕ) (offset : ℕ) {start count : ℕ}
    → read_u32 bytes (offset + 4) ≡ ok start
    → read_u32 bytes (offset + 8) ≡ ok count
    → group_at bytes offset ≡ (from_le_bytes (slice bytes offset (offset + 4)), start, count)
group_at_reads bytes offset {start} {count} hs hc =
    ap₂ (λ x y. (from_le_bytes (slice bytes offset (offset + 4)), x, y))
      (field 4 (offset + 8) (omega arith) hs) (field 8 (offset + 12) (omega arith) hc)
  where
    field :
        (a end : ℕ) {v : ℕ}
        → end ≡ offset + a + 4
        → read_u32 bytes (offset + a) ≡ ok v
        → from_le_bytes (slice bytes (offset + a) end) ≡ v
    field a end e h =
        ap (λ t. from_le_bytes (slice bytes (offset + a) t)) e
        ∙ sym (read_u32_inv bytes (offset + a) h).1

module _ (slots : List ℕ) {g : Group} (gs : List Group) {letter start count : ℕ}
    (is : g ≡ (letter, start, count)) where
  regrouped_dropped :
      (regroup slots start count == 0) ≡ true → regrouped slots (g ∷ gs) ≡ regrouped slots gs
  regrouped_dropped gone = ap (λ t. regrouped slots (t ∷ gs)) is ∙ rw gone refl

  regrouped_kept :
      (regroup slots start count == 0) ≡ false
      → regrouped slots (g ∷ gs)
        ≡ (letter, renumber slots start, regroup slots start count) ∷ regrouped slots gs
  regrouped_kept kept = ap (λ t. regrouped slots (t ∷ gs)) is ∙ rw kept refl

-- What a successful round has read.
module _ (chunk : List ℕ) (body : ℕ) (slots : List ℕ) where
  abbrev place : ℕ → ℕ
  place index = body + 16 + index * 12

  entries53_reads :
      (left index : ℕ) (output : List ℕ) (retained : ℕ) {r : List ℕ × ℕ}
      → entries53 chunk body slots (suc left) index output retained ≡ ok r
      → (start count : ℕ) × (read_u32 chunk (place index + 4) ≡ ok start)
        × (read_u32 chunk (place index + 8) ≡ ok count)
  unfolding entries53
  entries53_reads left index output retained e =
      let (start, hs, e1) = >>=-eq-ok (read_u32 chunk (place index + 4)) _ e in
      let (count, hc, e2) = >>=-eq-ok (read_u32 chunk (place index + 8)) _ e1 in
      (start, count, hs, hc)

  entries53_dropped :
      (left index : ℕ) (output : List ℕ) (retained : ℕ) {start count : ℕ} {r : List ℕ × ℕ}
      → entries53 chunk body slots (suc left) index output retained ≡ ok r
      → read_u32 chunk (place index + 4) ≡ ok start
      → read_u32 chunk (place index + 8) ≡ ok count
      → (regroup slots start count == 0) ≡ true
      → entries53 chunk body slots left (index + 1) output retained ≡ ok r
  unfolding entries53
  entries53_dropped left index output retained e hs hc gone = ground arith

  entries53_kept :
      (left index : ℕ) (output : List ℕ) (retained : ℕ) {start count : ℕ} {r : List ℕ × ℕ}
      → entries53 chunk body slots (suc left) index output retained ≡ ok r
      → read_u32 chunk (place index + 4) ≡ ok start
      → read_u32 chunk (place index + 8) ≡ ok count
      → (regroup slots start count == 0) ≡ false
      → (entry : List ℕ) × (entry53 chunk
            (place index)
            (renumber slots start)
            (regroup slots start count)
          ≡ ok entry)
        × (entries53 chunk body slots left (index + 1) (output ++ entry) (retained + 1) ≡ ok r)
  unfolding entries53
  entries53_kept left index output retained {start} {count} e hs hc kept =
      >>=-eq-ok (entry53 chunk (place index) (renumber slots start) (regroup slots start count)) _
        (ground (arith, e, hs, hc, kept))

  -- The whole loop.
  pub entries53_lem :
      (left index : ℕ) (output : List ℕ) (retained : ℕ) {r : List ℕ × ℕ}
      → IsBytes chunk
      → place index + left * 12 ≤ length chunk
      → entries53 chunk body slots left index output retained ≡ ok r
      → Appends (regrouped slots (groups left chunk (place index))) output retained r
  entries53_lem zero index output retained {r} bytes fits e =
      let same : (output, retained) ≡ r = unfold entries53 in cc in
      record {
        block = [];
        appended = ap (λ t. t.0) (sym same) ∙ sym (append-nil output);
        number = ap (λ t. t.1) (sym same) ∙ sym (add-zero retained);
        size = refl;
        read_back = λ pre offset h. refl;
      }
  entries53_lem (suc left) index output retained {r} bytes fits e =
      let (start, count, hs, hc) = entries53_reads left index output retained e in
      let next : place (index + 1) ≡ place index + 12 = omega arith in
      let group = group_at_reads chunk (place index) hs hc in
      elim (Bool-cases (regroup slots start count == 0)) [
        | inl gone ↦
            rw (regrouped_dropped slots (groups left chunk (place index + 12)) group gone, ← next)
              (entries53_lem left (index + 1) output retained bytes (omega arith)
                (entries53_dropped left index output retained e hs hc gone))
        | inr kept ↦
            let (entry, made, rest) = entries53_kept left index output retained e hs hc kept in
            let ih =
              entries53_lem left (index + 1) (output ++ entry) (retained + 1) bytes (omega arith)
                rest in
            let start_fits = read_u32-lt chunk (place index + 4) bytes hs in
            let count_fits = read_u32-lt chunk (place index + 8) bytes hc in
            let written =
              entry53_lem chunk (place index) (renumber slots start) (regroup slots start count)
                (omega arith) (omega (arith, renumber-le slots start))
                (omega (arith, regroup-le slots start count)) made in
            rw (regrouped_kept slots (groups left chunk (place index + 12)) group kept, ← next)
              (Appends-cons entry output retained written.0 written.1 ih)
      ]
