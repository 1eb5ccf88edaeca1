-- ===== src/Cdb/Addition/Rebuild.antt =====
-- The bytes of the sorted indexes and jump tables that are built with a new track.
use libopod.Base.{ℕ, suc, ◌+◌, ◌-◌, ◌≤◌, ◌≡◌, inr, refl, sym, ap, ◌∙◌, none, List, [], ◌++◌, arith}
use mathlib.Core.Path.{subst}
use libopod.Base.Tests.{leb, leb→le}
use libopod.Base.Lists.{length, take, drop, drop-append_at, length-take, length-append}
use libopod.Base.Slices.{slice-append_le}
use libopod.Error.{ok, ensure-eq-ok, >>=-eq-ok}
use libopod.Bytes.{read_u32, write_u32, from_le_bytes}
use libopod.Bytes.Laws.{read_u32_in, length-write_u32, read_u32-write_u32, read_u32-write_u32_ne}
use libopod.Bytes.Frame.{drop-write_le}
use libopod.Sort.{Unicode}
use libopod.Cdb.Chunk.{mhod, chunk_header, ChunkHeader, malformed_at}
use libopod.Cdb.Chunk.Bounds.{chunk_header_bounds}
use libopod.Cdb.Index.{u32_from}
use libopod.Cdb.Index.Writes.{u32_from_inv}
use libopod.Cdb.Index.Values.{encode}
use libopod.Cdb.Index.Jump.{Group}
use libopod.Cdb.Addition.Order.{Entry}
use libopod.Cdb.Addition.Sorted.{Numbered, IsIndex, sorted_index-IsIndex}
use libopod.Cdb.Addition.Keys.{AllKeyed, sorted_index-AllKeyed}
use libopod.Cdb.Addition.Jump.{IsRuns, group_letters-IsRuns}
use libopod.Cdb.Addition.{
  ParsedTrack, CdbTrackAddition, positions, letters, view_at, sorted_index, group_letters,
  encode_groups, rebuild_mhod52, rebuild_mhod53,
}

read_u32-append_le :
    (xs ys : List ℕ) (offset : ℕ)
    → offset + 4 ≤ length xs
    → read_u32 (xs ++ ys) offset ≡ read_u32 xs offset
read_u32-append_le xs ys offset h =
    read_u32_in (xs ++ ys) offset (omega (arith, h, length-append xs ys))
    ∙ ap (λ t. ok (from_le_bytes t)) (slice-append_le xs ys offset (offset + 4) (omega arith) h)
    ∙ sym (read_u32_in xs offset h)

-- A chunk whose items stand from `start` on: its fields and its items.
pub record IsFramed (body start count : ℕ) (items out : List ℕ) : Type 0 where
  pub count_field : read_u32 out (body + 4) ≡ ok count
  pub length_field : read_u32 out 8 ≡ ok (length out)
  pub behind : drop start out ≡ items
  pub size : length out ≡ start + length items

-- the writes at the end of both
framed :
    (chunk : List ℕ) (body start count : ℕ) (items : List ℕ) {count32 len : ℕ}
    {counted out : List ℕ}
    → 12 ≤ body
    → body + 8 ≤ start
    → start ≤ length chunk
    → u32_from count ≡ ok count32
    → write_u32 (take start chunk) (body + 4) count32 ≡ ok counted
    → u32_from (length (counted ++ items)) ≡ ok len
    → write_u32 (counted ++ items) 8 len ≡ ok out
    → IsFramed body start count items out
unfolding write_u32
framed chunk body start count items {count32} {len} {counted} {out} b s fits c w l v =
    let pre = length-take start chunk in
    let size = length-write_u32 (take start chunk) (body + 4) count32 w in
    let both = length-append counted items in
    let whole = length-write_u32 (counted ++ items) 8 len v in
    let counts = u32_from_inv count c in
    let lens = u32_from_inv (length (counted ++ items)) l in
    let at_start : length counted ≡ start = omega (arith, pre, size, fits) in
    record {
      count_field =
          read_u32-write_u32_ne (counted ++ items) 8 (body + 4) len v (inr (omega arith))
          ∙ read_u32-append_le counted items (body + 4) (omega (arith, at_start))
          ∙ read_u32-write_u32 (take start chunk) (body + 4) count32 (omega (arith, counts)) w
          ∙ ap ok counts.0;
      length_field =
          read_u32-write_u32 (counted ++ items) 8 len (omega (arith, lens)) v
          ∙ ap ok (lens.0 ∙ sym whole);
      behind =
          drop-write_le 4 (counted ++ items) 8 len start v (omega arith)
          ∙ drop-append_at start counted items (sym at_start);
      size = omega (arith, whole, both, at_start);
    }

-- A sorted index of all tracks and the new one: the chunk's head, the count, the positions.
pub record IsSortedChunk (u : Unicode) (tracks : List ParsedTrack) (addition : CdbTrackAddition)
    (sort_type : ℕ) (chunk out : List ℕ) : Type 0 where
  pub body : ℕ
  pub header : (h : ChunkHeader) × (chunk_header chunk 0 mhod ≡ ok h) × (h.header_length ≡ body)
  pub indexed : List Entry
  pub built : sorted_index u tracks addition sort_type ≡ ok indexed
  pub index : IsIndex (suc (length tracks)) indexed
  pub keyed : AllKeyed u sort_type (view_at u tracks addition) indexed
  pub framed52 : IsFramed body (body + 48) (suc (length tracks)) (encode (positions indexed)) out

-- Where the tracks are numbered from 0 on, a type-52 chunk that is rebuilt with a new track says that
-- it lists one position more than there are tracks, and its length; behind its head stand the
-- positions, each from 0 to that of the new track once, in the order of sort fields, those of equal
-- fields in ascending order. The fields of a position are those of the track there, or of the new track
-- at the last position. The first of them is, for the sort types 0x1e and 0x1f, the season and the episode
-- number, and for any other the sort key of the text by which the jump table files the track; the
-- last one is the sort key of the title.
pub rebuild_mhod52-IsSortedChunk :
    (u : Unicode) (chunk : List ℕ) (tracks : List ParsedTrack) (addition : CdbTrackAddition)
    (sort_type : ℕ) {out : List ℕ}
    → Numbered 0 tracks
    → rebuild_mhod52 u chunk tracks addition sort_type ≡ ok out
    → IsSortedChunk u tracks addition sort_type chunk out
unfolding rebuild_mhod52
rebuild_mhod52-IsSortedChunk u chunk tracks addition sort_type {out} numbered h =
    let (header, hh, h1) = >>=-eq-ok (chunk_header chunk 0 mhod) _ h in
    let body = header.header_length in
    let bounds = chunk_header_bounds chunk 0 mhod hh in
    let (fits, h2) = ensure-eq-ok (leb 48 (length chunk - body)) (malformed_at body) _ h1 in
    let (indexed, built, h3) = >>=-eq-ok (sorted_index u tracks addition sort_type) _ h2 in
    let (count32, hc, h4) = >>=-eq-ok (u32_from (length indexed)) _ h3 in
    let (counted, hw, h5) =
      >>=-eq-ok (write_u32 (take (body + 48) chunk) (body + 4) count32) _ h4 in
    let items = encode (positions indexed) in
    let (len, hl, h6) = >>=-eq-ok (u32_from (length (counted ++ items))) _ h5 in
    let room = leb→le 48 (length chunk - body) fits in
    let index = sorted_index-IsIndex u tracks addition sort_type numbered built in
    record {
      body = body;
      header = (header, hh, refl);
      indexed = indexed;
      built = built;
      index = index;
      keyed = sorted_index-AllKeyed u tracks addition sort_type numbered built;
      framed52 =
          subst (λ n. IsFramed body (body + 48) n items out) index.size
            (framed chunk body (body + 48) (length indexed) items bounds.0 (omega arith)
              (omega (arith, room, bounds)) hc hw hl h6);
    }

-- The jump table of that index: the chunk's head, the count, the runs of equal letters.
pub record IsJumpChunk (u : Unicode) (tracks : List ParsedTrack) (addition : CdbTrackAddition)
    (sort_type : ℕ) (chunk out : List ℕ) : Type 0 where
  pub body : ℕ
  pub header : (h : ChunkHeader) × (chunk_header chunk 0 mhod ≡ ok h) × (h.header_length ≡ body)
  pub indexed : List Entry
  pub groups : List Group
  pub built : sorted_index u tracks addition sort_type ≡ ok indexed
  pub index : IsIndex (suc (length tracks)) indexed
  pub runs : IsRuns (letters u tracks addition sort_type indexed) groups
  pub framed53 : IsFramed body (body + 16) (length groups) (encode_groups groups) out

-- Where the tracks are numbered from 0 on, a type-53 chunk that is rebuilt with a new track gives its
-- number of groups and its length; behind its head stand the groups, which are the runs of equal
-- letters in the sorted index of the same sort type: each starts at the slot where the one before
-- ends, from the first slot to the last, each slot has the letter of its group, and neighbouring
-- groups have different letters.
pub rebuild_mhod53-IsJumpChunk :
    (u : Unicode) (chunk : List ℕ) (tracks : List ParsedTrack) (addition : CdbTrackAddition)
    (sort_type : ℕ) {out : List ℕ}
    → Numbered 0 tracks
    → rebuild_mhod53 u chunk tracks addition sort_type ≡ ok out
    → IsJumpChunk u tracks addition sort_type chunk out
unfolding rebuild_mhod53
rebuild_mhod53-IsJumpChunk u chunk tracks addition sort_type {out} numbered h =
    let (header, hh, h1) = >>=-eq-ok (chunk_header chunk 0 mhod) _ h in
    let body = header.header_length in
    let bounds = chunk_header_bounds chunk 0 mhod hh in
    let (fits, h2) = ensure-eq-ok (leb 16 (length chunk - body)) (malformed_at body) _ h1 in
    let (indexed, built, h3) = >>=-eq-ok (sorted_index u tracks addition sort_type) _ h2 in
    let found = letters u tracks addition sort_type indexed in
    let (groups, hg, h4) = >>=-eq-ok (group_letters 0 none [] found) _ h3 in
    let (count32, hc, h5) = >>=-eq-ok (u32_from (length groups)) _ h4 in
    let (counted, hw, h6) =
      >>=-eq-ok (write_u32 (take (body + 16) chunk) (body + 4) count32) _ h5 in
    let items = encode_groups groups in
    let (len, hl, h7) = >>=-eq-ok (u32_from (length (counted ++ items))) _ h6 in
    let room = leb→le 16 (length chunk - body) fits in
    record {
      body = body;
      header = (header, hh, refl);
      indexed = indexed;
      groups = groups;
      built = built;
      index = sorted_index-IsIndex u tracks addition sort_type numbered built;
      runs = group_letters-IsRuns found hg;
      framed53 =
          framed chunk body (body + 16) (length groups) items bounds.0 (omega arith)
            (omega (arith, room, bounds)) hc hw hl h7;
    }
