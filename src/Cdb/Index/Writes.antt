-- ===== src/Cdb/Index/Writes.antt =====
-- The count and length fields that end a rewrite in src/storage/binary/cdb_edit.rs.
use libopod.Base.{ℕ, ◌+◌, ◌≤◌, ◌<◌, ◌≡◌, sym, ap, ◌∙◌, List, arith, inr}
use libopod.Base.Lists.{length, drop, slice}
use libopod.Base.Slices.{slice-splice_after, drop-splice}
use libopod.Error.{ok, >>=-eq-ok}
use libopod.Bytes.{read_u32, write_u32, to_le_bytes}
use libopod.Bytes.Laws.{
  write_u32_inv, length-write_u32, read_u32-write_u32, read_u32-write_u32_ne, length-to_le_bytes,
}
use libopod.Cdb.Index.{u32_from, u32_mod, finish_mhod}
use libopod.Cdb.Index.Values.{values, values-splice}

pub u32_from_inv : (n : ℕ) {m : ℕ} → u32_from n ≡ ok m → (m ≡ n) × (n < u32_mod)
unfolding u32_from
u32_from_inv n e = ground arith

-- The two writes that end a rewrite, with the numbers that they store.
finish_mhod_inv :
    (body : ℕ) (output : List ℕ) (count : ℕ) {out : List ℕ}
    → finish_mhod body output count ≡ ok out
    → (counted : List ℕ) × (write_u32 output (body + 4) count ≡ ok counted)
      × (write_u32 counted 8 (length counted) ≡ ok out)
      × (count < u32_mod)
      × (length counted < u32_mod)
unfolding finish_mhod
finish_mhod_inv body output count e =
    let (c, hc, e1) = >>=-eq-ok (u32_from count) _ e in
    let (counted, hw, e2) = >>=-eq-ok (write_u32 output (body + 4) c) _ e1 in
    let (l, hl, e3) = >>=-eq-ok (u32_from (length counted)) _ e2 in
    let same = u32_from_inv count hc in
    let len = u32_from_inv (length counted) hl in
    (
      counted,
      ap (λ t. write_u32 output (body + 4) t) (sym same.0) ∙ hw,
      ap (λ t. write_u32 counted 8 t) (sym len.0) ∙ e3,
      same.1,
      len.1,
    )

values-write_u32 :
    (n : ℕ) (bytes : List ℕ) (at v offset : ℕ) {out : List ℕ}
    → write_u32 bytes at v ≡ ok out
    → at + 4 ≤ offset
    → values n out offset ≡ values n bytes offset
values-write_u32 n bytes at v offset e h =
    let w = write_u32_inv bytes at v e in
    let len = length-to_le_bytes 4 v in
    ap (λ t. values n t offset) w.1
    ∙ values-splice n bytes offset at (to_le_bytes 4 v) (omega (arith, len, w.0))
        (omega (arith, len))

-- the writes do not reach behind the count field
pub finish_mhod-slice :
    (body : ℕ) (output : List ℕ) (count : ℕ) {out : List ℕ}
    → 12 ≤ body
    → finish_mhod body output count ≡ ok out
    → (a b : ℕ) → body + 8 ≤ a
    → slice out a b ≡ slice output a b
finish_mhod-slice body output count {out} h e a b k =
    let (counted, first, second, _, _) = finish_mhod_inv body output count e in
    write_u32-slice counted 8 (length counted) second (omega arith)
    ∙ write_u32-slice output (body + 4) count first (omega arith)
  where
    write_u32-slice :
        (bytes : List ℕ) (at v : ℕ) {new : List ℕ}
        → write_u32 bytes at v ≡ ok new
        → at + 4 ≤ a
        → slice new a b ≡ slice bytes a b
    write_u32-slice bytes at v w far =
        let inv = write_u32_inv bytes at v w in
        let len = length-to_le_bytes 4 v in
        ap (λ t. slice t a b) inv.1
        ∙ slice-splice_after bytes at (to_le_bytes 4 v) a b (omega (arith, len, inv.0))
            (omega (arith, len))

pub finish_mhod-drop :
    (body : ℕ) (output : List ℕ) (count : ℕ) {out : List ℕ} (a : ℕ)
    → 12 ≤ body
    → body + 8 ≤ a
    → finish_mhod body output count ≡ ok out
    → drop a out ≡ drop a output
finish_mhod-drop body output count {out} a h k e =
    let (counted, first, second, _, _) = finish_mhod_inv body output count e in
    write_u32-drop counted 8 (length counted) second (omega arith)
    ∙ write_u32-drop output (body + 4) count first (omega arith)
  where
    write_u32-drop :
        (bytes : List ℕ) (at v : ℕ) {new : List ℕ}
        → write_u32 bytes at v ≡ ok new
        → at + 4 ≤ a
        → drop a new ≡ drop a bytes
    write_u32-drop bytes at v w far =
        let inv = write_u32_inv bytes at v w in
        let len = length-to_le_bytes 4 v in
        ap (drop a) inv.1
        ∙ drop-splice bytes at (to_le_bytes 4 v) a (omega (arith, len, inv.0)) (omega (arith, len))

-- What they leave: the count field, the length field, and the values behind.
pub finish_mhod_lem :
    (body : ℕ) (output : List ℕ) (count : ℕ) {out : List ℕ}
    → 12 ≤ body
    → finish_mhod body output count ≡ ok out
    → (length out ≡ length output)
      × (read_u32 out 8 ≡ ok (length out))
      × (read_u32 out (body + 4) ≡ ok count)
      × ((n offset : ℕ) → body + 8 ≤ offset → values n out offset ≡ values n output offset)
finish_mhod_lem body output count {out} h e =
    let (counted, first, second, c_fits, l_fits) = finish_mhod_inv body output count e in
    let len = length-write_u32 counted 8 (length counted) second in
    (
      len ∙ length-write_u32 output (body + 4) count first,
      read_u32-write_u32 counted 8 (length counted) l_fits second ∙ ap ok (sym len),
      read_u32-write_u32_ne counted 8 (body + 4) (length counted) second (inr (omega arith))
          ∙ read_u32-write_u32 output (body + 4) count c_fits first,
      λ n offset k.
          values-write_u32 n counted 8 (length counted) offset second (omega arith)
          ∙ values-write_u32 n output (body + 4) count offset first (omega arith),
    )
