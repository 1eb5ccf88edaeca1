-- ===== src/Cdb/Positions/Moved.antt =====
-- What `rewrite_mhip_position` writes, against the place of the position in an item's bytes.
use libopod.Base.{
  ℕ, zero, suc, ◌+◌, ◌≤◌, ◌<◌, ◌≡◌, sym, ap, ◌∙◌, min, Option, true, ◌&&◌, not, List, some, inl,
  inr, arith,
}
use libopod.Base.Tests.{ltb, leb, le→leb, ◌==◌, if◌then◌else◌, Bool-cases, Option-cases}
use libopod.Base.Lists.{length, take, drop, slice, splice}
use libopod.Base.Slices.{take-splice, take-take_le, slice-eq-drop-take, slice-splice_self}
use libopod.Error.{ok, >>=-eq-ok, ensure-eq-ok, ok-injective}
use libopod.Bytes.{read_u32, write_u32, to_le_bytes, get_range}
use libopod.Bytes.Laws.{read_u32_inv, write_u32_inv, length-write_u32, length-to_le_bytes}
use libopod.Cdb.Chunk.{mhip, mhod, usize_mod, is_some_of, chunk_header, read_usize}
use libopod.Cdb.Chunk.Bounds.{read_usize_inv, chunk_header_field}
use libopod.Cdb.Chunk.Equal.{eq_bytes_refl}
use libopod.Cdb.Index.{renumber}
use libopod.Cdb.Positions.{
  mhod_child_claimed_end, mhip_value_offset, shift_value, rewrite_child, rewrite_children,
  rewrite_mhip_position, mhip_position, position_loop,
}

-- The first child of an item holds its position `v`, at `at`: behind the child's sixteen bytes where
-- the child claims more bytes than the item has, behind 24 bytes otherwise.
pub record IsPositioned (item : List ℕ) (at v : ℕ) : Type 0 where
  pub child : ℕ
  pub more : ℕ
  pub child_header : ℕ
  pub total : ℕ
  pub header_field : read_u32 item 4 ≡ ok child
  pub child_count : read_u32 item 12 ≡ ok (suc more)
  pub magic_is : slice item child (child + 4) ≡ mhod
  pub child_header_field : read_u32 item (child + 4) ≡ ok child_header
  pub total_field : read_u32 item (child + 8) ≡ ok total
  pub long : 12 ≤ child_header
  pub room : child_header ≤ total
  pub addressed : child + total < usize_mod
  pub kind : read_u32 item (child + 12) ≡ ok 100
  pub at_is : at ≡ child + (if ltb (length item) (child + total) then 16 else 24)
  pub inside : at + 4 ≤ child + total
  pub value : read_u32 item at ≡ ok v

claimed_magic :
    (bytes : List ℕ) (offset : ℕ)
    → offset + 4 ≤ length bytes
    → slice bytes offset (offset + 4) ≡ mhod
    → is_some_of (get_range bytes offset 4) mhod ≡ true
unfolding get_range
claimed_magic bytes offset fits is =
    rw (le→leb (offset + 4) (length bytes) fits, is) (eq_bytes_refl mhod)

-- the end that such a child claims
claimed :
    {item : List ℕ} {at v : ℕ} (p : IsPositioned item at v)
    → mhod_child_claimed_end item p.child ≡ some (p.child + p.total)
unfolding mhod_child_claimed_end
claimed {item} p =
    let fits = read_u32_inv item (p.child + 4) p.child_header_field in
    rw
      (
        claimed_magic item p.child (omega (arith, fits)) p.magic_is,
        p.child_header_field,
        p.total_field,
      )
      (ground (arith, p.long, p.room, p.addressed))

claimed_total :
    (bytes : List ℕ) (offset : ℕ) {end : ℕ}
    → mhod_child_claimed_end bytes offset ≡ some end
    → (total : ℕ) × (read_u32 bytes (offset + 8) ≡ ok total) × (end ≡ offset + total) × (12 ≤ total)
unfolding mhod_child_claimed_end
claimed_total bytes offset {end} e = ground (arith, e)

claimed_inv :
    (bytes : List ℕ) (offset : ℕ) {end : ℕ}
    → mhod_child_claimed_end bytes offset ≡ some end
    → (offset + 12 ≤ end) × (offset + 12 ≤ length bytes)
claimed_inv bytes offset e =
    let (total, field, ends, long) = claimed_total bytes offset e in
    let fits = read_u32_inv bytes (offset + 8) field in
    (omega (arith, ends, long), omega (arith, fits))

-- a value is written inside the chunk, behind the child's first sixteen bytes
rewrite_child_frame :
    (bytes : List ℕ) (offset end : ℕ) (values : List ℕ) {q : List ℕ}
    → rewrite_child bytes offset end values ≡ ok q
    → (length q ≡ length bytes) × (take offset q ≡ take offset bytes)
unfolding rewrite_child shift_value
rewrite_child_frame bytes offset end values {q} e =
    let at = offset + mhip_value_offset (ltb (length bytes) end) in
    let (kind, _, e1) = >>=-eq-ok (read_u32 bytes (offset + 12)) _ e in
    elim (Bool-cases (kind == 100 && leb (at + 4) (length bytes))) [
      | inr miss ↦
          let same : bytes ≡ q = ok-injective (rw miss at e1) in
          (sym (ap length same), sym (ap (take offset) same))
      | inl hit ↦
          let (value, _, wrote) = >>=-eq-ok (read_u32 bytes at) _ (rw hit at e1) in
          let (fits, is) = write_u32_inv bytes at (renumber values value) wrote in
          (
            length-write_u32 bytes at (renumber values value) wrote,
            ap (take offset) is
                ∙ take-splice bytes at (to_le_bytes 4 (renumber values value)) offset
                    (omega (arith, fits)) (omega arith),
          )
    ]

rewrite_children_frame :
    (left : ℕ) (bytes : List ℕ) (offset : ℕ) (values : List ℕ) {q : List ℕ}
    → rewrite_children left bytes offset values ≡ ok q
    → (length q ≡ length bytes) × (take offset q ≡ take offset bytes)
unfolding rewrite_children
rewrite_children_frame zero bytes offset values e =
    let same = ok-injective e in (sym (ap length same), sym (ap (take offset) same))
rewrite_children_frame (suc left) bytes offset values {q} e =
    elim (Option-cases (mhod_child_claimed_end bytes offset)) [
      | inl miss ↦
          let same : bytes ≡ q = ok-injective (rw (rewrite_children, miss) at e) in
          (sym (ap length same), sym (ap (take offset) same))
      | inr (end, is) ↦
          let (rewritten, wrote, e1) =
            >>=-eq-ok (rewrite_child bytes offset end values) _ (rw (rewrite_children, is) at e) in
          let (size, before) = rewrite_child_frame bytes offset end values wrote in
          let low = claimed_inv bytes offset is in
          elim (Bool-cases (min end (length bytes) == length rewritten)) [
            | inl last ↦
                let same : rewritten ≡ q = ok-injective (rw last at e1) in
                (sym (ap length same) ∙ size, sym (ap (take offset) same) ∙ before)
            | inr next ↦
                let (size', before') =
                  rewrite_children_frame left rewritten (min end (length bytes)) values
                    (rw next at e1) in
                (
                  size' ∙ size,
                  sym (take-take_le offset (min end (length bytes)) q (omega (arith, low)))
                      ∙ ap (take offset) before'
                      ∙ take-take_le offset (min end (length bytes)) rewritten (omega (arith, low))
                      ∙ before,
                )
          ]
    ]

-- What a rewrite does to an item, whose own header is kept: where its first child holds its position,
-- the new one stands there, and with no further child the rest of the item is kept too.
pub record IsMoved (values item out : List ℕ) : Type 0 where
  pub size : length out ≡ length item
  pub header_length : ℕ
  pub header_field : read_u32 item 4 ≡ ok header_length
  pub header_kept : take header_length out ≡ take header_length item
  pub moved :
      {at v : ℕ}
      → IsPositioned item at v
      → slice out at (at + 4) ≡ to_le_bytes 4 (renumber values v)
  pub only :
      {at v : ℕ}
      → IsPositioned item at v
      → read_u32 item 12 ≡ ok 1
      → out ≡ splice item at (to_le_bytes 4 (renumber values v))

-- the first child's value is written
rewrite_child-positioned :
    {item : List ℕ} {at v : ℕ} (values : List ℕ) (p : IsPositioned item at v) {q : List ℕ}
    → rewrite_child item p.child (p.child + p.total) values ≡ ok q
    → q ≡ splice item at (to_le_bytes 4 (renumber values v))
unfolding rewrite_child shift_value
rewrite_child-positioned {item} {at} {v} values p {q} e =
    let fits = read_u32_inv item at p.value in
    let room = le→leb (at + 4) (length item) fits.0 in
    let wrote : write_u32 item at (renumber values v) ≡ ok q =
      (rw (p.kind, ← p.at_is, room, p.value) at e) in
    (write_u32_inv item at (renumber values v) wrote).1

-- what the loop does behind the first child
rewrite_children-positioned :
    (more : ℕ) {item : List ℕ} {at v : ℕ} (values : List ℕ) (p : IsPositioned item at v)
    {q : List ℕ}
    → rewrite_children (suc more) item p.child values ≡ ok q
    → (slice q at (at + 4) ≡ to_le_bytes 4 (renumber values v))
      × (more ≡ 0 → q ≡ splice item at (to_le_bytes 4 (renumber values v)))
unfolding rewrite_children
rewrite_children-positioned more {item} {at} {v} values p {q} e =
    let (r, wrote, e1) =
      >>=-eq-ok (rewrite_child item p.child (p.child + p.total) values) _
        (rw (rewrite_children, claimed p) at e) in
    let is = rewrite_child-positioned values p wrote in
    let end = min (p.child + p.total) (length item) in
    let fits = read_u32_inv item at p.value in
    let there : slice r at (at + 4) ≡ to_le_bytes 4 (renumber values v) =
      ap (λ t. slice t at (at + 4)) is
      ∙ slice-splice_self item at (to_le_bytes 4 (renumber values v)) (at + 4) (omega (arith, fits))
          (ap (λ (n : ℕ). at + n) (sym (length-to_le_bytes 4 (renumber values v)))) in
    elim (Bool-cases (end == length r)) [
      | inl last ↦
          let same : r ≡ q = ok-injective (rw last at e1) in rw (← same) (there, λ none_more. is)
      | inr next ↦
          let rest : rewrite_children more r end values ≡ ok q = rw next at e1 in
          (
            slice-take at (at + 4) end q r (omega arith) (omega (arith, p.inside, fits))
                  (rewrite_children_frame more r end values rest).1
                ∙ there,
            λ none_more. sym (ok-injective (no_more more none_more r end rest)) ∙ is,
          )
    ]
  where
    slice-take :
        (a b end : ℕ) (xs ys : List ℕ)
        → a ≤ b
        → b ≤ end
        → take end xs ≡ take end ys
        → slice xs a b ≡ slice ys a b
    slice-take a b end xs ys h k e =
        slice-eq-drop-take xs a b h
        ∙ ap (drop a) (sym (take-take_le b end xs k) ∙ ap (take b) e ∙ take-take_le b end ys k)
        ∙ sym (slice-eq-drop-take ys a b h)

    no_more :
        (more : ℕ)
        → more ≡ 0
        → (r : List ℕ) (end : ℕ) → rewrite_children more r end values ≡ ok q
        → (ok r ≡ ok q)
    no_more zero h r end e = e
    no_more (suc more) h r end e = absurd (omega arith)

-- An item that is rewritten is moved.
pub rewrite_mhip_position-IsMoved :
    (item values : List ℕ) {out : List ℕ}
    → rewrite_mhip_position item values ≡ ok out
    → IsMoved values item out
unfolding rewrite_mhip_position
rewrite_mhip_position-IsMoved item values {out} e =
    let (h, header, e1) = >>=-eq-ok (chunk_header item 0 mhip) _ e in
    let (count, counted, e2) = >>=-eq-ok (read_usize item 12) _ e1 in
    let field = chunk_header_field item 0 mhip header in
    let frame = rewrite_children_frame count item h.header_length values e2 in
    record {
      size = frame.0;
      header_length = h.header_length;
      header_field = field;
      header_kept = frame.1;
      moved = λ p.
          (rewrite_children-positioned p.more values p
            (loop p field (read_usize_inv item 12 counted).0 e2)).0;
      only = λ p one.
          (rewrite_children-positioned p.more values p
              (loop p field (read_usize_inv item 12 counted).0 e2)).1
            (omega (arith, ok-injective (sym p.child_count ∙ one)));
    }
  where
    loop :
        {at v count header_length : ℕ} (p : IsPositioned item at v)
        → read_u32 item 4 ≡ ok header_length
        → read_u32 item 12 ≡ ok count
        → rewrite_children count item header_length values ≡ ok out
        → rewrite_children (suc p.more) item p.child values ≡ ok out
    loop p field counted e =
        rw (ok-injective (sym counted ∙ p.child_count), ok-injective (sym field ∙ p.header_field))
          at e

position_loop-IsPositioned :
    {item : List ℕ} {at v : ℕ} {value : Option ℕ} (p : IsPositioned item at v)
    → position_loop (suc p.more) item p.child ≡ ok value
    → value ≡ some v
unfolding position_loop
position_loop-IsPositioned {item} {at} {v} p e =
    let fits = read_u32_inv item at p.value in
    let room = le→leb (at + 4) (length item) fits.0 in
    let inner =
      le→leb (at + 4) (min (p.child + p.total) (length item)) (omega (arith, p.inside, fits)) in
    let (kind, read, e1) =
      >>=-eq-ok (read_u32 item (p.child + 12)) _ (rw (position_loop, claimed p) at e) in
    let same : kind ≡ 100 = ok-injective (sym read ∙ p.kind) in
    let taken = rw (same, ← p.at_is, room, inner) at e1 in
    sym (ok-injective (rw (← p.at_is, p.value) at taken))

-- The position that is read of an item is that of its first child.
pub mhip_position-IsPositioned :
    {item : List ℕ} {at v : ℕ} {value : Option ℕ}
    → IsPositioned item at v
    → mhip_position item ≡ ok value
    → value ≡ some v
unfolding mhip_position
mhip_position-IsPositioned {item} p e =
    let (h, header, e1) = >>=-eq-ok (chunk_header item 0 mhip) _ e in
    let (_, e2) = ensure-eq-ok (not (ltb h.header_length 16)) _ _ e1 in
    let (count, counted, e3) = >>=-eq-ok (read_usize item 12) _ e2 in
    let field = chunk_header_field item 0 mhip header in
    position_loop-IsPositioned p (
      rw
        (
          ok-injective (sym (read_usize_inv item 12 counted).0 ∙ p.child_count),
          ok-injective (sym field ∙ p.header_field),
        )
        at e3)
