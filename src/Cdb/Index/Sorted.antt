-- ===== src/Cdb/Index/Sorted.antt =====
-- What `rewrite_mhod52` makes of the positions that a sorted index lists.
use libopod.Base.{
  ℕ, zero, suc, ◌+◌, ◌-◌, ◌*◌, ◌^◌, ◌≤◌, ◌<◌, ◌≡◌, refl, sym, ap, ◌∙◌, true, false, List, [], ◌∷◌,
  ◌++◌, append-nil, append_assoc, arith, inl, inr, min,
}
use libopod.Base.Tests.{if◌then◌else◌, Bool-cases, leb, ◌==◌, ==_iff}
use libopod.Base.Lists.{length, take, length-take, length-append}
use libopod.Error.{ok, >>=-eq-ok, ensure-eq-ok, ok-injective}
use libopod.Bytes.{IsBytes, read_u32, to_le_bytes}
use libopod.Bytes.Laws.{read_u32_inv}
use libopod.Cdb.Chunk.{mhod, chunk_header, read_usize, checked_end, usize_mod}
use libopod.Cdb.Chunk.Bounds.{chunk_header_bounds, checked_end_inv, read_usize_inv}
use libopod.Cdb.Index.{
  contains, renumber, u32_from, saturating_mul, entries52, finish_mhod, rewrite_mhod52,
}
use libopod.Cdb.Index.Renumber.{renumber-le}
use libopod.Cdb.Index.Values.{
  AllBelow, values, encode, length-values, length-encode, values-AllBelow, values-encode,
}
use libopod.Cdb.Index.Writes.{finish_mhod_lem}

-- the retained positions of a list, renumbered, and the slots of the removed ones
abbrev pub renumbered : List ℕ → List ℕ → List ℕ
renumbered removed [] = []
renumbered removed (v ∷ vs) =
    if contains removed v then renumbered removed vs else renumber removed v ∷ renumbered removed vs

abbrev pub removed_slots : List ℕ → ℕ → List ℕ → List ℕ
removed_slots removed i [] = []
removed_slots removed i (v ∷ vs) =
    if contains removed v
    then i ∷ removed_slots removed (i + 1) vs
    else removed_slots removed (i + 1) vs

length-renumbered :
    (removed : List ℕ) (i : ℕ) (vs : List ℕ)
    → length (renumbered removed vs) + length (removed_slots removed i vs) ≡ length vs
length-renumbered removed i [] = refl
length-renumbered removed i (v ∷ vs) = ground (arith, length-renumbered removed (i + 1) vs)

renumbered-AllBelow :
    (removed : List ℕ) (m : ℕ) (vs : List ℕ) → AllBelow m vs → AllBelow m (renumbered removed vs)
renumbered-AllBelow removed m [] h = tt
renumbered-AllBelow removed m (v ∷ vs) h =
    ground (arith, renumbered-AllBelow removed m vs h.1, renumber-le removed v)

module _ (chunk : List ℕ) (body : ℕ) (removed : List ℕ) where
  -- one round, and what it needs
  entries52_removed :
      (left index : ℕ) (output slots : List ℕ) {v : ℕ} {r : List ℕ × List ℕ}
      → entries52 chunk body removed (suc left) index output slots ≡ ok r
      → read_u32 chunk (body + 48 + index * 4) ≡ ok v
      → contains removed v ≡ true
      → entries52 chunk body removed left (index + 1) output (slots ++ (index ∷ [])) ≡ ok r
  unfolding entries52 u32_from
  entries52_removed left index output slots e read hit = ground arith

  entries52_kept :
      (left index : ℕ) (output slots : List ℕ) {v : ℕ} {r : List ℕ × List ℕ}
      → entries52 chunk body removed (suc left) index output slots ≡ ok r
      → read_u32 chunk (body + 48 + index * 4) ≡ ok v
      → contains removed v ≡ false
      → entries52 chunk body removed left
          (index + 1)
          (output ++ to_le_bytes 4 (renumber removed v))
          slots
        ≡ ok r
  unfolding entries52
  entries52_kept left index output slots e read miss = ground arith

  entries52_reads :
      (left index : ℕ) (output slots : List ℕ) {r : List ℕ × List ℕ}
      → entries52 chunk body removed (suc left) index output slots ≡ ok r
      → (v : ℕ) × (read_u32 chunk (body + 48 + index * 4) ≡ ok v)
  unfolding entries52
  entries52_reads left index output slots e =
      let (v, read, rest) = >>=-eq-ok (read_u32 chunk (body + 48 + index * 4)) _ e in (v, read)

  abbrev listed : ℕ → ℕ → List ℕ
  listed left index = values left chunk (body + 48 + index * 4)

  -- The whole loop: what it appends to the output, and which slots it reports.
  entries52_lem :
      (left index : ℕ) (output slots : List ℕ) {r : List ℕ × List ℕ}
      → entries52 chunk body removed left index output slots ≡ ok r
      → (r.0 ≡ output ++ encode (renumbered removed (listed left index)))
        × (r.1 ≡ slots ++ removed_slots removed index (listed left index))
  entries52_lem zero index output slots {r} e =
      let same : (output, slots) ≡ r = unfold entries52 in cc in
      (
        ap (λ t. t.0) (sym same) ∙ sym (append-nil output),
        ap (λ t. t.1) (sym same) ∙ sym (append-nil slots),
      )
  entries52_lem (suc left) index output slots {r} e =
      let (v, read) = entries52_reads left index output slots e in
      let field = (read_u32_inv chunk (body + 48 + index * 4) read).1 in
      let next : body + 48 + (index + 1) * 4 ≡ body + 48 + index * 4 + 4 = omega arith in
      elim (Bool-cases (contains removed v)) [
        | inl hit ↦
            let ih =
              entries52_lem left (index + 1) output (slots ++ (index ∷ []))
                (entries52_removed left index output slots e read hit) in
            rw (← field, hit, ← next) (ih.0, ih.1 ∙ append_assoc slots (index ∷ []) _)
        | inr miss ↦
            let ih =
              entries52_lem left (index + 1) (output ++ to_le_bytes 4 (renumber removed v)) slots
                (entries52_kept left index output slots e read miss) in
            rw (← field, miss, ← next)
              (ih.0 ∙ append_assoc output (to_le_bytes 4 (renumber removed v)) _, ih.1)
      ]

-- `out` and `slots` are what is made of the sorted index `chunk` without the `removed` positions.
pub record IsRenumbered (chunk removed out slots : List ℕ) : Type 0 where
  pub body : ℕ
  pub end : ℕ
  pub header : chunk_header chunk 0 mhod ≡ ok (record { header_length = body; end = end })
  pub count : ℕ
  pub new_count : ℕ
  pub old_size : length chunk ≡ body + 48 + count * 4
  pub old_count : read_u32 chunk (body + 4) ≡ ok count
  pub new_size : length out ≡ body + 48 + new_count * 4
  pub new_count_field : read_u32 out (body + 4) ≡ ok new_count
  pub length_field : read_u32 out 8 ≡ ok (length out)
  pub positions :
      values new_count out (body + 48) ≡ renumbered removed (values count chunk (body + 48))
  pub reported : slots ≡ removed_slots removed 0 (values count chunk (body + 48))

-- What the checks before the loop establish, and what the loop and the last writes return.
record Walked (chunk removed : List ℕ) (r : List ℕ × List ℕ) : Type 0 where
  body : ℕ
  end : ℕ
  header : chunk_header chunk 0 mhod ≡ ok (record { header_length = body; end = end })
  count : ℕ
  output : List ℕ
  long : 12 ≤ body
  size : length chunk ≡ body + 48 + count * 4
  counted : read_u32 chunk (body + 4) ≡ ok count
  walked : entries52 chunk body removed count 0 (take (body + 48) chunk) [] ≡ ok (output, r.1)
  finished : finish_mhod body output (count - length r.1) ≡ ok r.0

-- the size test, with a product that may saturate
pub entries_fit :
    (start count k size offset : ℕ) {end : ℕ}
    → 0 < start
    → checked_end start (saturating_mul count k) size offset ≡ ok end
    → end ≡ size
    → size ≡ start + count * k
unfolding saturating_mul
entries_fit start count k size offset h e same =
    omega (arith, checked_end_inv start (min (count * k) (usize_mod - 1)) size offset e)

rewrite_mhod52-Walked :
    (chunk removed : List ℕ) {r : List ℕ × List ℕ}
    → rewrite_mhod52 chunk removed ≡ ok r
    → Walked chunk removed r
unfolding rewrite_mhod52
rewrite_mhod52-Walked chunk removed {r} e =
    let (h, header, e1) = >>=-eq-ok (chunk_header chunk 0 mhod) _ e in
    let (_, e2) = ensure-eq-ok (leb 48 (length chunk - h.header_length)) _ _ e1 in
    let (count, counted, e3) = >>=-eq-ok (read_usize chunk (h.header_length + 4)) _ e2 in
    let (entries, checked, e4) =
      >>=-eq-ok
        (checked_end (h.header_length + 48) (saturating_mul count 4) (length chunk)
          (h.header_length + 4))
        _ e3 in
    let (equal, e5) = ensure-eq-ok (entries == length chunk) _ _ e4 in
    let (w, walked, e6) =
      >>=-eq-ok
        (entries52 chunk h.header_length removed count 0 (take (h.header_length + 48) chunk) []) _
        e5 in
    let (output, finished, e7) =
      >>=-eq-ok (finish_mhod h.header_length w.0 (count - length w.1)) _ e6 in
    let same : (output, w.1) ≡ r = ok-injective e7 in
    record {
      body = h.header_length;
      end = h.end;
      header = header;
      count = count;
      output = w.0;
      long = (chunk_header_bounds chunk 0 mhod header).0;
      size =
          entries_fit (h.header_length + 48) count 4 (length chunk) (h.header_length + 4)
            (omega arith) checked ((==_iff entries (length chunk)).0 equal);
      counted = (read_usize_inv chunk (h.header_length + 4) counted).0;
      walked = walked ∙ ap (λ t. ok (w.0, t)) (ap (λ t. t.1) same);
      finished =
          ap (λ t. finish_mhod h.header_length w.0 (count - length t)) (sym (ap (λ t. t.1) same))
          ∙ finished
          ∙ ap (λ t. ok t.0) same;
    }

IsRenumbered-Walked :
    (chunk removed : List ℕ) {r : List ℕ × List ℕ}
    → IsBytes chunk
    → (w : Walked chunk removed r)
    → w.output
      ≡ take (w.body + 48) chunk ++ encode (renumbered removed (values w.count chunk (w.body + 48)))
    → r.1 ≡ removed_slots removed 0 (values w.count chunk (w.body + 48))
    → IsRenumbered chunk removed r.0 r.1
IsRenumbered-Walked chunk removed {r} bytes w out_is slots_are =
    let old = values w.count chunk (w.body + 48) in
    let new = renumbered removed old in
    let finish = finish_mhod_lem w.body w.output (w.count - length r.1) w.long w.finished in
    let pre = length-take (w.body + 48) chunk in
    let new_count : w.count - length r.1 ≡ length new = omega (
      arith,
      length-renumbered removed 0 old,
      length-values w.count chunk (w.body + 48),
      ap length slots_are,
    ) in
    let out_length : length w.output ≡ w.body + 48 + length new * 4 = omega (
      arith,
      ap length out_is,
      length-append (take (w.body + 48) chunk) (encode new),
      pre,
      length-encode new,
      w.size,
    ) in
    record {
      body = w.body;
      end = w.end;
      header = w.header;
      count = w.count;
      new_count = length new;
      old_size = w.size;
      old_count = w.counted;
      new_size = finish.0 ∙ out_length;
      new_count_field = rw (← new_count) finish.2;
      length_field = finish.1;
      positions =
          finish.3 (length new) (w.body + 48) (omega arith)
          ∙ ap (λ t. values (length new) t (w.body + 48)) out_is
          ∙ values-encode (take (w.body + 48) chunk) new (w.body + 48) (omega (arith, pre, w.size))
              (renumbered-AllBelow removed (2 ^ 32) old
                (values-AllBelow w.count chunk (w.body + 48) bytes (omega (arith, w.size))));
      reported = slots_are;
    }

-- A rewritten sorted index lists the retained positions of the old one, in their order, each
-- renumbered, and reports the slots of the removed ones; its count and length fields say so.
pub rewrite_mhod52-IsRenumbered :
    (chunk removed : List ℕ) {r : List ℕ × List ℕ}
    → IsBytes chunk
    → rewrite_mhod52 chunk removed ≡ ok r
    → IsRenumbered chunk removed r.0 r.1
rewrite_mhod52-IsRenumbered chunk removed {r} bytes e =
    let w = rewrite_mhod52-Walked chunk removed e in
    let old = values w.count chunk (w.body + 48) in
    let new = renumbered removed old in
    let loop =
      entries52_lem chunk w.body removed w.count 0 (take (w.body + 48) chunk) [] w.walked in
    let first : w.body + 48 + 0 * 4 ≡ w.body + 48 = omega arith in
    let out_is : w.output ≡ take (w.body + 48) chunk ++ encode new = rw first at (loop.0) in
    let slots_are : r.1 ≡ removed_slots removed 0 old = rw first at (loop.1) in
    IsRenumbered-Walked chunk removed bytes w out_is slots_are
