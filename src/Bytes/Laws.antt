-- ===== src/Bytes/Laws.antt =====
-- Round trips and frames of the little-endian fields.
use native.Mathlib.Nat.{pow-suc}
use libopod.Base.{
  ℕ, zero, suc, ◌+◌, ◌*◌, ◌/◌, ◌%◌, ◌^◌, ◌≤◌, ◌<◌, ◌≡◌, refl, ap, ◌∙◌, ◌⊎◌, inl, inr, List, [], ◌∷◌,
  ◌++◌, arith,
}
use libopod.Base.Tests.{le→leb}
use libopod.Base.Lists.{length, slice, splice, take, drop, length-slice, length-splice}
use libopod.Base.Slices.{slice-splice_self, slice-splice_before, slice-splice_after}
use libopod.Error.{ok}
use libopod.Bytes.{
  IsBytes, from_le_bytes, to_le_bytes, read_le, write_le, read_u32, read_u64, write_u32,
}

pub length-to_le_bytes : (n v : ℕ) → length (to_le_bytes n v) ≡ n
unfolding to_le_bytes
length-to_le_bytes zero v = refl
length-to_le_bytes (suc n) v = ap suc (length-to_le_bytes n (v / 256))

pub to_le_bytes-IsBytes : (n v : ℕ) → IsBytes (to_le_bytes n v)
unfolding to_le_bytes
to_le_bytes-IsBytes zero v = tt
to_le_bytes-IsBytes (suc n) v = (omega arith, to_le_bytes-IsBytes n (v / 256))

pub from_le_bytes-to_le_bytes : (n v : ℕ) → v < 256 ^ n → from_le_bytes (to_le_bytes n v) ≡ v
unfolding from_le_bytes to_le_bytes
from_le_bytes-to_le_bytes zero v h = omega arith
from_le_bytes-to_le_bytes (suc n) v h =
    let p = pow-suc 256 n in omega (arith, from_le_bytes-to_le_bytes n (v / 256) (omega (arith, p)))

pub to_le_bytes-from_le_bytes :
    (bs : List ℕ) → IsBytes bs → to_le_bytes (length bs) (from_le_bytes bs) ≡ bs
unfolding from_le_bytes to_le_bytes
to_le_bytes-from_le_bytes [] h = refl
to_le_bytes-from_le_bytes (b ∷ bs) h =
    let low : (b + 256 * from_le_bytes bs) % 256 ≡ b = omega arith in
    let high : (b + 256 * from_le_bytes bs) / 256 ≡ from_le_bytes bs = omega arith in
    rw (low, high) (ap (λ t. b ∷ t) (to_le_bytes-from_le_bytes bs h.1))

pub from_le_bytes-lt : (bs : List ℕ) → IsBytes bs → from_le_bytes bs < 256 ^ length bs
unfolding from_le_bytes
from_le_bytes-lt [] h = omega arith
from_le_bytes-lt (b ∷ bs) h = omega (arith, pow-suc 256 (length bs), from_le_bytes-lt bs h.1)

-- What a read that succeeds says, and when one succeeds.
pub read_le_inv :
    (n : ℕ) (bs : List ℕ) (offset : ℕ) {v : ℕ}
    → read_le n bs offset ≡ ok v
    → (offset + n ≤ length bs) × (v ≡ from_le_bytes (slice bs offset (offset + n)))
unfolding read_le
read_le_inv n bs offset h = ground arith

pub read_le_in :
    (n : ℕ) (bs : List ℕ) (offset : ℕ)
    → offset + n ≤ length bs
    → read_le n bs offset ≡ ok (from_le_bytes (slice bs offset (offset + n)))
unfolding read_le
read_le_in n bs offset h = rw (le→leb (offset + n) (length bs) h, read_le)

pub write_le_in :
    (n : ℕ) (bs : List ℕ) (offset v : ℕ)
    → offset + n ≤ length bs
    → write_le n bs offset v ≡ ok (splice bs offset (to_le_bytes n v))
unfolding write_le
write_le_in n bs offset v h = rw (le→leb _ _ h)

pub write_le_inv :
    (n : ℕ) (bs : List ℕ) (offset v : ℕ) {out : List ℕ}
    → write_le n bs offset v ≡ ok out
    → (offset + n ≤ length bs) × (out ≡ splice bs offset (to_le_bytes n v))
unfolding write_le
write_le_inv n bs offset v h = ground arith

pub length-write_le :
    (n : ℕ) (bs : List ℕ) (offset v : ℕ) {out : List ℕ}
    → write_le n bs offset v ≡ ok out
    → length out ≡ length bs
length-write_le n bs offset v h =
    let w = write_le_inv n bs offset v h in
    ap length w.1
    ∙ length-splice bs offset (to_le_bytes n v) (omega (arith, length-to_le_bytes n v, w.0))

-- A field of `n` bytes that is written, with a value that fits, is read back.
pub read_le-write_le :
    (n : ℕ) (bs : List ℕ) (offset v : ℕ) {out : List ℕ}
    → v < 256 ^ n
    → write_le n bs offset v ≡ ok out
    → read_le n out offset ≡ ok v
read_le-write_le n bs offset v {out} fits h =
    let w = write_le_inv n bs offset v h in
    let same = length-write_le n bs offset v h in
    let len = length-to_le_bytes n v in
    read_le_in n out offset (omega (arith, same, w.0))
    ∙ ap (λ t. ok (from_le_bytes t))
        (ap (λ t. slice t offset (offset + n)) w.1
          ∙ slice-splice_self bs offset (to_le_bytes n v) (offset + n) (omega (arith, w.0))
              (omega (arith, len)))
    ∙ ap ok (from_le_bytes-to_le_bytes n v fits)

-- A field that does not overlap the written one reads as before, fault or value.
pub read_le-write_le_ne :
    (n m : ℕ) (bs : List ℕ) (offset other v : ℕ) {out : List ℕ}
    → write_le n bs offset v ≡ ok out
    → (other + m ≤ offset) ⊎ (offset + n ≤ other)
    → read_le m out other ≡ read_le m bs other
unfolding read_le
read_le-write_le_ne n m bs offset other v {out} h apart = ground (arith, same, slices apart)
  where
    w : (offset + n ≤ length bs) × (out ≡ splice bs offset (to_le_bytes n v))
    w = write_le_inv n bs offset v h

    same : length out ≡ length bs
    same = length-write_le n bs offset v h

    slices :
        (other + m ≤ offset) ⊎ (offset + n ≤ other)
        → slice out other (other + m) ≡ slice bs other (other + m)
    slices (inl before) =
        ap (λ t. slice t other (other + m)) w.1
        ∙ slice-splice_before bs offset (to_le_bytes n v) other (other + m) (omega (arith, w.0))
            (omega arith) before
    slices (inr after) =
        ap (λ t. slice t other (other + m)) w.1
        ∙ slice-splice_after bs offset (to_le_bytes n v) other (other + m)
            (omega (arith, length-to_le_bytes n v, w.0)) (omega (arith, length-to_le_bytes n v))

pub take-IsBytes : (n : ℕ) (bs : List ℕ) → IsBytes bs → IsBytes (take n bs)
take-IsBytes zero bs h = tt
take-IsBytes (suc n) [] h = tt
take-IsBytes (suc n) (b ∷ bs) h = (h.0, take-IsBytes n bs h.1)

pub drop-IsBytes : (n : ℕ) (bs : List ℕ) → IsBytes bs → IsBytes (drop n bs)
drop-IsBytes zero bs h = h
drop-IsBytes (suc n) [] h = tt
drop-IsBytes (suc n) (b ∷ bs) h = drop-IsBytes n bs h.1

pub append-IsBytes : (xs ys : List ℕ) → IsBytes xs → IsBytes ys → IsBytes (xs ++ ys)
append-IsBytes [] ys h k = k
append-IsBytes (x ∷ xs) ys h k = (h.0, append-IsBytes xs ys h.1 k)

-- A field of a byte buffer has the range of its width.
pub from_le_bytes-slice-lt :
    (bs : List ℕ) (offset n : ℕ)
    → IsBytes bs
    → offset + n ≤ length bs
    → from_le_bytes (slice bs offset (offset + n)) < 256 ^ n
from_le_bytes-slice-lt bs offset n h fits =
    let len : length (slice bs offset (offset + n)) ≡ n =
      omega (arith, length-slice bs offset (offset + n)) in
    rw len at (
      from_le_bytes-lt (slice bs offset (offset + n))
        (take-IsBytes _ (drop offset bs) (drop-IsBytes offset bs h)))

pub read_le-lt :
    (n : ℕ) (bs : List ℕ) (offset : ℕ) {v : ℕ}
    → IsBytes bs
    → read_le n bs offset ≡ ok v
    → v < 256 ^ n
read_le-lt n bs offset h e =
    let r = read_le_inv n bs offset e in rw r.1 (from_le_bytes-slice-lt bs offset n h r.0)

-- The same of the 32-bit fields, with the operations shut.
pub read_u32_inv :
    (bs : List ℕ) (offset : ℕ) {v : ℕ}
    → read_u32 bs offset ≡ ok v
    → (offset + 4 ≤ length bs) × (v ≡ from_le_bytes (slice bs offset (offset + 4)))
unfolding read_u32
read_u32_inv bs offset = read_le_inv 4 bs offset

pub read_u32_in :
    (bs : List ℕ) (offset : ℕ)
    → offset + 4 ≤ length bs
    → read_u32 bs offset ≡ ok (from_le_bytes (slice bs offset (offset + 4)))
unfolding read_u32
read_u32_in bs offset = read_le_in 4 bs offset

pub read_u32-lt :
    (bs : List ℕ) (offset : ℕ) {v : ℕ} → IsBytes bs → read_u32 bs offset ≡ ok v → v < 2 ^ 32
unfolding read_u32
read_u32-lt bs offset = read_le-lt 4 bs offset

pub write_u32_inv :
    (bs : List ℕ) (offset v : ℕ) {out : List ℕ}
    → write_u32 bs offset v ≡ ok out
    → (offset + 4 ≤ length bs) × (out ≡ splice bs offset (to_le_bytes 4 v))
unfolding write_u32
write_u32_inv bs offset v = write_le_inv 4 bs offset v

pub length-write_u32 :
    (bs : List ℕ) (offset v : ℕ) {out : List ℕ}
    → write_u32 bs offset v ≡ ok out
    → length out ≡ length bs
unfolding write_u32
length-write_u32 bs offset v = length-write_le 4 bs offset v

pub read_u32-write_u32 :
    (bs : List ℕ) (offset v : ℕ) {out : List ℕ}
    → v < 2 ^ 32
    → write_u32 bs offset v ≡ ok out
    → read_u32 out offset ≡ ok v
unfolding read_u32 write_u32
read_u32-write_u32 bs offset v = read_le-write_le 4 bs offset v

pub read_u32-write_u32_ne :
    (bs : List ℕ) (offset other v : ℕ) {out : List ℕ}
    → write_u32 bs offset v ≡ ok out
    → (other + 4 ≤ offset) ⊎ (offset + 4 ≤ other)
    → read_u32 out other ≡ read_u32 bs other
unfolding read_u32 write_u32
read_u32-write_u32_ne bs offset other v = read_le-write_le_ne 4 4 bs offset other v

pub read_u64_inv :
    (bs : List ℕ) (offset : ℕ) {v : ℕ}
    → read_u64 bs offset ≡ ok v
    → (offset + 8 ≤ length bs) × (v ≡ from_le_bytes (slice bs offset (offset + 8)))
unfolding read_u64
read_u64_inv bs offset = read_le_inv 8 bs offset
