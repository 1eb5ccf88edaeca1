-- ===== src/Bytes/Frame.antt =====
-- Fields of two buffers that agree where the field stands, and what a write leaves alone.
use libopod.Base.{ℕ, ◌+◌, ◌-◌, ◌≤◌, ◌≡◌, sym, ap, ◌∙◌, List, arith}
use libopod.Base.Lists.{length, take, drop, slice}
use libopod.Base.Slices.{slice-eq-drop-take, take-take_le, slice-slice, drop-splice, take-splice}
use libopod.Error.{ok}
use libopod.Bytes.{read_le, write_le, to_le_bytes, from_le_bytes}
use libopod.Bytes.Laws.{write_le_inv, length-to_le_bytes, read_le_in}

module _ (n : ℕ) (xs ys : List ℕ) (offset : ℕ) where
  pub read_le-slice :
      offset + n ≤ length xs
      → offset + n ≤ length ys
      → slice xs offset (offset + n) ≡ slice ys offset (offset + n)
      → read_le n xs offset ≡ read_le n ys offset
  read_le-slice h k e =
      read_le_in n xs offset h ∙ ap (λ t. ok (from_le_bytes t)) e ∙ sym (read_le_in n ys offset k)

  -- a field in a common beginning
  pub read_le-take :
      (k : ℕ)
      → offset + n ≤ k
      → k ≤ length xs
      → k ≤ length ys
      → take k xs ≡ take k ys
      → read_le n xs offset ≡ read_le n ys offset
  read_le-take k h hx hy e = read_le-slice (omega arith) (omega arith) (
      slice-eq-drop-take xs offset (offset + n) (omega arith)
      ∙ ap (drop offset) (
          sym (take-take_le (offset + n) k xs h)
          ∙ ap (take (offset + n)) e
          ∙ take-take_le (offset + n) k ys h)
      ∙ sym (slice-eq-drop-take ys offset (offset + n) (omega arith)))

  -- a field in a common middle
  pub read_le-middle :
      (a b : ℕ)
      → a ≤ offset
      → offset + n ≤ b
      → b ≤ length xs
      → b ≤ length ys
      → slice xs a b ≡ slice ys a b
      → read_le n xs offset ≡ read_le n ys offset
  read_le-middle a b h k hx hy e =
      let inner = λ (zs : List ℕ).
        slice-slice zs a b (offset - a) (offset + n - a) offset (offset + n) (omega arith)
          (omega arith) (omega arith) (omega arith) in
      read_le-slice (omega arith) (omega arith)
        (sym (inner xs) ∙ ap (λ t. slice t (offset - a) (offset + n - a)) e ∙ inner ys)

pub drop-write_le :
    (n : ℕ) (bs : List ℕ) (offset v a : ℕ) {out : List ℕ}
    → write_le n bs offset v ≡ ok out
    → offset + n ≤ a
    → drop a out ≡ drop a bs
drop-write_le n bs offset v a e h =
    let w = write_le_inv n bs offset v e in
    let len = length-to_le_bytes n v in
    ap (drop a) w.1
    ∙ drop-splice bs offset (to_le_bytes n v) a (omega (arith, w.0, len)) (omega (arith, len))

pub take-write_le :
    (n : ℕ) (bs : List ℕ) (offset v b : ℕ) {out : List ℕ}
    → write_le n bs offset v ≡ ok out
    → b ≤ offset
    → take b out ≡ take b bs
take-write_le n bs offset v b e h =
    let w = write_le_inv n bs offset v e in
    ap (take b) w.1 ∙ take-splice bs offset (to_le_bytes n v) b (omega (arith, w.0)) h
