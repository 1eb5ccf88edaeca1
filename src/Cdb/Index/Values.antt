-- ===== src/Cdb/Index/Values.antt =====
-- The 32-bit values of a range of a buffer, as numbers, and the bytes of such values.
use libopod.Base.{
  ℕ, zero, suc, ◌+◌, ◌*◌, ◌^◌, ◌≤◌, ◌<◌, ◌≡◌, refl, sym, ap, ◌∙◌, ap₂, List, [], ◌∷◌, ◌++◌,
  append_assoc, arith,
}
use libopod.Base.Lists.{length, slice, splice, length-append}
use libopod.Base.Slices.{slice-splice_after, slice-append_mid}
use libopod.Bytes.{IsBytes, from_le_bytes, to_le_bytes}
use libopod.Bytes.Laws.{length-to_le_bytes, from_le_bytes-to_le_bytes, from_le_bytes-slice-lt}

abbrev pub AllBelow : ℕ → List ℕ → Type 0
AllBelow m [] = Unit {0}
AllBelow m (v ∷ vs) = (v < m) × AllBelow m vs

-- the `n` values that stand from `offset` on
abbrev pub values : ℕ → List ℕ → ℕ → List ℕ
values zero bytes offset = []
values (suc n) bytes offset =
    from_le_bytes (slice bytes offset (offset + 4)) ∷ values n bytes (offset + 4)

abbrev pub encode : List ℕ → List ℕ
encode [] = []
encode (v ∷ vs) = to_le_bytes 4 v ++ encode vs

pub length-values : (n : ℕ) (bytes : List ℕ) (offset : ℕ) → length (values n bytes offset) ≡ n
length-values zero bytes offset = refl
length-values (suc n) bytes offset = ap suc (length-values n bytes (offset + 4))

pub length-encode : (vs : List ℕ) → length (encode vs) ≡ length vs * 4
length-encode [] = refl
length-encode (v ∷ vs) =
    omega
      (arith, length-append (to_le_bytes 4 v) (encode vs), length-to_le_bytes 4 v, length-encode vs)

pub values-AllBelow :
    (n : ℕ) (bytes : List ℕ) (offset : ℕ)
    → IsBytes bytes
    → offset + n * 4 ≤ length bytes
    → AllBelow (2 ^ 32) (values n bytes offset)
values-AllBelow zero bytes offset h fits = tt
values-AllBelow (suc n) bytes offset h fits = (
  from_le_bytes-slice-lt bytes offset 4 h (omega arith),
  values-AllBelow n bytes (offset + 4) h (omega arith),
)

-- what was encoded behind a prefix is read back there
pub values-encode :
    (pre : List ℕ) (vs : List ℕ) (offset : ℕ)
    → offset ≡ length pre
    → AllBelow (2 ^ 32) vs
    → values (length vs) (pre ++ encode vs) offset ≡ vs
values-encode pre [] offset e h = refl
values-encode pre (v ∷ vs) offset e h =
    let len = length-to_le_bytes 4 v in
    let head : from_le_bytes (slice (pre ++ (to_le_bytes 4 v ++ encode vs)) offset (offset + 4))
        ≡ v =
      ap from_le_bytes (
        slice-append_mid pre (to_le_bytes 4 v) (encode vs) offset (offset + 4) e
          (omega (arith, len)))
      ∙ from_le_bytes-to_le_bytes 4 v h.0 in
    let tail : values (length vs) (pre ++ (to_le_bytes 4 v ++ encode vs)) (offset + 4) ≡ vs =
      ap (λ t. values (length vs) t (offset + 4))
        (sym (append_assoc pre (to_le_bytes 4 v) (encode vs)))
      ∙ values-encode (pre ++ to_le_bytes 4 v) vs (offset + 4)
          (omega (arith, length-append pre (to_le_bytes 4 v), len)) h.1 in
    ap₂ ◌∷◌ head tail

-- a write before the range leaves the values
pub values-splice :
    (n : ℕ) (bytes : List ℕ) (offset at : ℕ) (ys : List ℕ)
    → at + length ys ≤ length bytes
    → at + length ys ≤ offset
    → values n (splice bytes at ys) offset ≡ values n bytes offset
values-splice zero bytes offset at ys h k = refl
values-splice (suc n) bytes offset at ys h k =
    ap₂ ◌∷◌ (ap from_le_bytes (slice-splice_after bytes at ys offset (offset + 4) h k))
      (values-splice n bytes (offset + 4) at ys h (omega arith))
