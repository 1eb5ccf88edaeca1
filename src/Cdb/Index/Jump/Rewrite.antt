-- ===== src/Cdb/Index/Jump/Rewrite.antt =====
-- What `rewrite_mhod53` returns.
use libopod.Base.{
  ℕ, zero, suc, ◌+◌, ◌-◌, ◌*◌, ◌≤◌, ◌<◌, ◌≡◌, refl, sym, ap, ap₂, ◌∙◌, List, ◌∷◌, arith,
}
use libopod.Base.Tests.{leb, ◌==◌, ==_iff}
use libopod.Base.Lists.{length, take, slice, length-take, length-append}
use libopod.Error.{ok, >>=-eq-ok, ensure-eq-ok, ok-injective}
use libopod.Bytes.{IsBytes, from_le_bytes, read_u32}
use libopod.Cdb.Chunk.{mhod, ChunkHeader, chunk_header, read_usize, checked_end}
use libopod.Cdb.Chunk.Bounds.{chunk_header_bounds, read_usize_inv}
use libopod.Cdb.Index.{before, saturating_mul, entries53, finish_mhod, rewrite_mhod53, u32_mod}
use libopod.Cdb.Index.Renumber.{Once}
use libopod.Cdb.Index.Sorted.{entries_fit}
use libopod.Cdb.Index.Writes.{finish_mhod_lem, finish_mhod-slice}
use libopod.Cdb.Index.Jump.{groups, regrouped, Tiles}
use libopod.Cdb.Index.Jump.Entries.{Appends, entries53_lem}
use libopod.Cdb.Index.Jump.Tiling.{regrouped-Tiles}

groups-ext :
    (n : ℕ) (xs ys : List ℕ) (offset : ℕ)
    → ((a b : ℕ) → offset ≤ a → slice xs a b ≡ slice ys a b)
    → groups n xs offset ≡ groups n ys offset
groups-ext zero xs ys offset h = refl
groups-ext (suc n) xs ys offset h =
    ap₂ ◌∷◌
      (ap₂ (λ x (y : ℕ × ℕ). (from_le_bytes x, y.0, y.1)) (h offset (offset + 4) (omega arith))
        (ap₂ (λ x y. (from_le_bytes x, from_le_bytes y)) (h (offset + 4) (offset + 8) (omega arith))
          (h (offset + 8) (offset + 12) (omega arith))))
      (groups-ext n xs ys (offset + 12) (λ a b k. h a b (omega arith)))

-- What the checks before the loop establish, and what the loop and the last writes return.
record Walked (chunk slots out : List ℕ) : Type 0 where
  body : ℕ
  end : ℕ
  header : chunk_header chunk 0 mhod ≡ ok (record { header_length = body; end = end })
  count : ℕ
  walk : List ℕ × ℕ
  long : 12 ≤ body
  size : length chunk ≡ body + 16 + count * 12
  counted : read_u32 chunk (body + 4) ≡ ok count
  walked : entries53 chunk body slots count 0 (take (body + 16) chunk) 0 ≡ ok walk
  finished : finish_mhod body walk.0 walk.1 ≡ ok out

rewrite_mhod53-Walked :
    (chunk slots : List ℕ) {out : List ℕ}
    → rewrite_mhod53 chunk slots ≡ ok out
    → Walked chunk slots out
unfolding rewrite_mhod53
rewrite_mhod53-Walked chunk slots {out} e =
    let (h, header, e1) = >>=-eq-ok (chunk_header chunk 0 mhod) _ e in
    let (_, e2) = ensure-eq-ok (leb 16 (length chunk - h.header_length)) _ _ e1 in
    let (count, counted, e3) = >>=-eq-ok (read_usize chunk (h.header_length + 4)) _ e2 in
    let (entries, checked, e4) =
      >>=-eq-ok
        (checked_end (h.header_length + 16) (saturating_mul count 12) (length chunk)
          (h.header_length + 4))
        _ e3 in
    let (equal, e5) = ensure-eq-ok (entries == length chunk) _ _ e4 in
    let (w, walked, e6) =
      >>=-eq-ok
        (entries53 chunk h.header_length slots count 0 (take (h.header_length + 16) chunk) 0) _
        e5 in
    record {
      body = h.header_length;
      end = h.end;
      header = header;
      count = count;
      walk = w;
      long = (chunk_header_bounds chunk 0 mhod header).0;
      size =
          entries_fit (h.header_length + 16) count 12 (length chunk) (h.header_length + 4)
            (omega arith) checked ((==_iff entries (length chunk)).0 equal);
      counted = (read_usize_inv chunk (h.header_length + 4) counted).0;
      walked = walked;
      finished = e6;
    }

-- `out` is the jump table `chunk` without the removed slots.
pub record IsRegrouped (chunk slots out : List ℕ) : Type 0 where
  pub body : ℕ
  pub end : ℕ
  pub header : chunk_header chunk 0 mhod ≡ ok (record { header_length = body; end = end })
  pub count : ℕ
  pub new_count : ℕ
  pub old_size : length chunk ≡ body + 16 + count * 12
  pub old_count : read_u32 chunk (body + 4) ≡ ok count
  pub new_size : length out ≡ body + 16 + new_count * 12
  pub new_count_field : read_u32 out (body + 4) ≡ ok new_count
  pub length_field : read_u32 out 8 ≡ ok (length out)
  pub entries : groups new_count out (body + 16) ≡ regrouped slots (groups count chunk (body + 16))

IsRegrouped-Walked :
    (chunk slots : List ℕ) {out : List ℕ}
    → (w : Walked chunk slots out)
    → Appends
        (regrouped slots (groups w.count chunk (w.body + 16)))
        (take (w.body + 16) chunk)
        0
        w.walk
    → IsRegrouped chunk slots out
IsRegrouped-Walked chunk slots {out} w a =
    let new = regrouped slots (groups w.count chunk (w.body + 16)) in
    let finish = finish_mhod_lem w.body w.walk.0 w.walk.1 w.long w.finished in
    let pre = length-take (w.body + 16) chunk in
    let number : w.walk.1 ≡ length new = omega (arith, a.number) in
    let walk_length : length w.walk.0 ≡ w.body + 16 + length new * 12 = omega (
      arith,
      ap length a.appended,
      length-append (take (w.body + 16) chunk) a.block,
      pre,
      a.size,
      w.size,
    ) in
    record {
      body = w.body;
      end = w.end;
      header = w.header;
      count = w.count;
      new_count = length new;
      old_size = w.size;
      old_count = w.counted;
      new_size = finish.0 ∙ walk_length;
      new_count_field = finish.2 ∙ ap ok number;
      length_field = finish.1;
      entries =
          groups-ext (length new) out w.walk.0 (w.body + 16) (λ x y k.
            finish_mhod-slice w.body w.walk.0 w.walk.1 w.long w.finished x y (omega arith))
          ∙ ap (λ t. groups (length new) t (w.body + 16)) a.appended
          ∙ a.read_back (take (w.body + 16) chunk) (w.body + 16) (omega (arith, pre, w.size));
    }

-- A rewritten jump table has the old groups, in their order and with their letters, each with its
-- first slot renumbered and its count less the removed slots, and without those that became
-- empty; its count and length fields say so.
pub rewrite_mhod53-IsRegrouped :
    (chunk slots : List ℕ) {out : List ℕ}
    → IsBytes chunk
    → rewrite_mhod53 chunk slots ≡ ok out
    → IsRegrouped chunk slots out
rewrite_mhod53-IsRegrouped chunk slots {out} bytes e =
    let w = rewrite_mhod53-Walked chunk slots e in
    let first : w.body + 16 + 0 * 12 ≡ w.body + 16 = omega arith in
    let a =
      entries53_lem chunk w.body slots w.count 0 (take (w.body + 16) chunk) 0 bytes
        (omega (arith, w.size)) w.walked in
    IsRegrouped-Walked chunk slots w (rw first at a)

-- Where the groups of a jump table cover the slots of the sorted index from 0 to `b` without a
-- gap, and no removed slot is listed twice, the groups of the rewritten table cover the slots that
-- are left, from 0 to `b` less the removed ones below it, without a gap.
pub rewrite_mhod53-Tiles :
    (chunk slots : List ℕ) {out : List ℕ} (h : ChunkHeader) (count b : ℕ)
    → IsBytes chunk
    → rewrite_mhod53 chunk slots ≡ ok out
    → Once slots
    → b < u32_mod
    → chunk_header chunk 0 mhod ≡ ok h
    → read_u32 chunk (h.header_length + 4) ≡ ok count
    → Tiles 0 (groups count chunk (h.header_length + 16)) b
    → (new_count : ℕ) × (read_u32 out (h.header_length + 4) ≡ ok new_count)
      × Tiles 0 (groups new_count out (h.header_length + 16)) (b - before slots b)
rewrite_mhod53-Tiles chunk slots {out} h count b bytes e once fits header counted t =
    let r = rewrite_mhod53-IsRegrouped chunk slots bytes e in
    let same : h.header_length ≡ r.body =
      ap (λ x. x.header_length) (ok-injective (sym header ∙ r.header)) in
    let number : count ≡ r.count =
      ok-injective (sym counted ∙ ap (λ (x : ℕ). read_u32 chunk (x + 4)) same ∙ r.old_count) in
    let old : groups count chunk (h.header_length + 16) ≡ groups r.count chunk (r.body + 16) =
      ap₂ (λ (x y : ℕ). groups x chunk (y + 16)) number same in
    let tiled =
      regrouped-Tiles slots (groups r.count chunk (r.body + 16)) 0 b once fits (rw old at t) in
    let zero_start : 0 - before slots 0 ≡ 0 = omega arith in
    (
      r.new_count,
      ap (λ (x : ℕ). read_u32 out (x + 4)) same ∙ r.new_count_field,
      rw same (rw r.entries (rw zero_start at tiled)),
    )
