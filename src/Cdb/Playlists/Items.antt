-- ===== src/Cdb/Playlists/Items.antt =====
-- The loop of `rewrite_playlist` over the items of a playlist, as a cut of the playlist.
use libopod.Base.{
  ℕ, zero, suc, ◌≤◌, ◌≡◌, refl, sym, ap, ap₂, ◌∙◌, Bool, true, false, ◌&&◌, ◌||◌, Option, none,
  some, List, [], ◌∷◌, ◌++◌, map, flatten, append-nil, append_assoc, inl, inr, arith,
}
use libopod.Base.Tests.{if◌then◌else◌, Bool-cases, leb, ◌==◌}
use libopod.Base.Lists.{length, slice, drop, any}
use libopod.Error.{ok, value_or, >>=-eq-ok, ok-injective}
use libopod.Bytes.{read_u32, read_u64, from_le_bytes}
use libopod.Bytes.Laws.{read_u32_inv, read_u64_inv}
use libopod.Cdb.Chunk.{ChunkHeader, chunk_header, mhip}
use libopod.Cdb.Chunk.Bounds.{chunk_header_bounds, chunk_header-length_field}
use libopod.Cdb.Chunk.Whole.{IsChunk, AllChunks, chunk_header-IsChunk}
use libopod.Cdb.Index.{contains}
use libopod.Cdb.Tracks.{RemovedTrack}
use libopod.Cdb.Tracks.Walk.{cut_one}
use libopod.Cdb.Positions.{mhip_position}
use libopod.Cdb.Positions.Moved.{IsPositioned, mhip_position-IsPositioned}
use libopod.Cdb.Playlists.{Items, is_removed, persistent_id_of, walk_mhips, push_value}

-- Whether an item, by its own bytes, is one of a track: by the track's ID, or by the persistent ID
-- where the item's header is long enough to have one.
abbrev pub is_of : List ℕ → RemovedTrack → Bool
is_of item track =
    (track.track_id == from_le_bytes (slice item 0x18 0x1c))
    || (leb 0x34 (from_le_bytes (slice item 4 8))
        && (track.persistent_id == from_le_bytes (slice item 0x2c 0x34)))

-- whether it is one of a removed track
abbrev pub item_removed : List RemovedTrack → List ℕ → Bool
item_removed removed item = any (is_of item) removed

abbrev pub kept_items : List RemovedTrack → List (List ℕ) → List (List ℕ)
kept_items removed [] = []
kept_items removed (item ∷ items) =
    if item_removed removed item then kept_items removed items else item ∷ kept_items removed items

-- the position of an item, if it has one
abbrev pub position_of : List ℕ → Option ℕ
position_of item = value_or none (mhip_position item)

-- what is read as the position of each removed item is that of its first child
abbrev pub AllRead : List RemovedTrack → List (List ℕ) → Type 0
AllRead removed [] = Unit {0}
AllRead removed (item ∷ items) =
    (item_removed removed item ≡ true
      → (at v : ℕ) → IsPositioned item at v
      → position_of item ≡ some v)
    × AllRead removed items

-- the positions of the removed items
abbrev pub removed_values : List RemovedTrack → List ℕ → List (List ℕ) → List ℕ
removed_values removed values [] = values
removed_values removed values (item ∷ items) =
    removed_values removed
      (if item_removed removed item then push_value values (position_of item) else values) items

pub record IsItems (playlist : List ℕ) (removed : List RemovedTrack) (left offset : ℕ)
    (mhips : List (List ℕ)) (values : List ℕ) (w : Items) : Type 0 where
  pub items : List (List ℕ)
  pub number : length items ≡ left
  pub all_mhip : AllChunks mhip items
  pub all_read : AllRead removed items
  pub cut : drop offset playlist ≡ flatten items ++ drop w.2 playlist
  pub within : w.2 ≤ length playlist
  pub kept_are : w.0 ≡ mhips ++ kept_items removed items
  pub values_are : w.1 ≡ removed_values removed values items

any_either :
    (removed : List RemovedTrack) (v w : ℕ) (long : Bool)
    → (contains (map (λ (t : RemovedTrack). t.track_id) removed) v
        || (long && contains (map (λ (t : RemovedTrack). t.persistent_id) removed) w))
      ≡ any (λ t. (t.track_id == v) || (long && (t.persistent_id == w))) removed
any_either [] v w true = refl
any_either [] v w false = refl
any_either (t ∷ removed) v w long = ground (arith, any_either removed v w long)

persistent_id_of-cases :
    (chunk : List ℕ) (header_length : ℕ) (ids : List ℕ) {id : Option ℕ}
    → persistent_id_of chunk header_length ≡ ok id
    → elim id as (λ _. Bool) [ none ↦ false | some i ↦ contains ids i ]
      ≡ (leb 0x34 header_length && contains ids (from_le_bytes (slice chunk 0x2c 0x34)))
unfolding persistent_id_of
persistent_id_of-cases chunk header_length ids {id} e = elim (Bool-cases (leb 0x34 header_length)) [
  | inr short ↦ let same : none ≡ id = ok-injective (rw short at e) in rw (short, ← same) refl
  | inl long ↦
      let (i, read, e1) = >>=-eq-ok (read_u64 chunk 0x2c) _ (rw long at e) in
      let same : some i ≡ id = ok-injective e1 in
      rw (long, ← same) (ap (contains ids) (read_u64_inv chunk 0x2c read).1)
]

module _ (playlist : List ℕ) (removed : List RemovedTrack) where
  is_removed-item_removed :
      (item : List ℕ) (header_length : ℕ) {gone : Bool}
      → read_u32 item 4 ≡ ok header_length
      → is_removed removed item header_length ≡ ok gone
      → item_removed removed item ≡ gone
  unfolding is_removed
  is_removed-item_removed item header_length field e =
      let (track_id, read, e1) = >>=-eq-ok (read_u32 item 0x18) _ e in
      let (id, identified, e2) = >>=-eq-ok (persistent_id_of item header_length) _ e1 in
      let ids = map (λ (t : RemovedTrack). t.persistent_id) removed in
      let at_id : track_id ≡ from_le_bytes (slice item 0x18 0x1c) =
        (read_u32_inv item 0x18 read).1 in
      let at_length : header_length ≡ from_le_bytes (slice item 4 8) =
        (read_u32_inv item 4 field).1 in
      ap₂
        (λ v n.
          any
            (λ t.
              (t.track_id == v)
              || (leb 0x34 n && (t.persistent_id == from_le_bytes (slice item 0x2c 0x34))))
            removed)
        (sym at_id) (sym at_length)
      ∙ sym (
          any_either removed track_id (from_le_bytes (slice item 0x2c 0x34))
            (leb 0x34 header_length))
      ∙ ap (λ b. contains (map (λ (t : RemovedTrack). t.track_id) removed) track_id || b)
          (sym (persistent_id_of-cases item header_length ids identified))
      ∙ ok-injective e2

  item_removed-is :
      (offset : ℕ) {h : ChunkHeader} {gone : Bool}
      → chunk_header playlist offset mhip ≡ ok h
      → is_removed removed (slice playlist offset h.end) h.header_length ≡ ok gone
      → item_removed removed (slice playlist offset h.end) ≡ gone
  item_removed-is offset {h} header e =
      is_removed-item_removed (slice playlist offset h.end) h.header_length
        (chunk_header-length_field playlist offset mhip header) e

  module _ {left offset : ℕ} {mhips : List (List ℕ)} {values : List ℕ} {w : Items} (end : ℕ)
      (long : offset ≤ end) (chunk : IsChunk mhip (slice playlist offset end)) where
    IsItems-kept :
        item_removed removed (slice playlist offset end) ≡ false
        → IsItems playlist removed left end (mhips ++ (slice playlist offset end ∷ [])) values w
        → IsItems playlist removed (suc left) offset mhips values w
    IsItems-kept miss ih = record {
      items = slice playlist offset end ∷ ih.items;
      number = ap suc ih.number;
      all_mhip = (chunk, ih.all_mhip);
      all_read = (λ hit. cc, ih.all_read);
      cut = cut_one playlist offset end ih.items w.2 long ih.cut;
      within = ih.within;
      kept_are = rw miss (
          ih.kept_are
          ∙ append_assoc mhips (slice playlist offset end ∷ []) (kept_items removed ih.items));
      values_are = rw miss ih.values_are;
    }

    IsItems-removed :
        (value : Option ℕ)
        → item_removed removed (slice playlist offset end) ≡ true
        → mhip_position (slice playlist offset end) ≡ ok value
        → IsItems playlist removed left end mhips (push_value values value) w
        → IsItems playlist removed (suc left) offset mhips values w
    IsItems-removed value hit read ih =
        let is = ap (value_or none) read in
        record {
          items = slice playlist offset end ∷ ih.items;
          number = ap suc ih.number;
          all_mhip = (chunk, ih.all_mhip);
          all_read = (λ hit at v p. is ∙ mhip_position-IsPositioned p read, ih.all_read);
          cut = cut_one playlist offset end ih.items w.2 long ih.cut;
          within = ih.within;
          kept_are = rw hit ih.kept_are;
          values_are = rw (hit, is) ih.values_are;
        }

  walk_mhips_round :
      (left offset : ℕ) (mhips : List (List ℕ)) (values : List ℕ) {w : Items}
      → walk_mhips playlist removed (suc left) offset mhips values ≡ ok w
      → (h : ChunkHeader) × (gone : Bool) × (chunk_header playlist offset mhip ≡ ok h)
        × (is_removed removed (slice playlist offset h.end) h.header_length ≡ ok gone)
  unfolding walk_mhips
  walk_mhips_round left offset mhips values e =
      let (h, header, e1) = >>=-eq-ok (chunk_header playlist offset mhip) _ e in
      let (gone, tested, _) =
        >>=-eq-ok (is_removed removed (slice playlist offset h.end) h.header_length) _ e1 in
      (h, gone, header, tested)

  walk_mhips_kept :
      (left offset : ℕ) (mhips : List (List ℕ)) (values : List ℕ) {w : Items} {h : ChunkHeader}
      → walk_mhips playlist removed (suc left) offset mhips values ≡ ok w
      → chunk_header playlist offset mhip ≡ ok h
      → is_removed removed (slice playlist offset h.end) h.header_length ≡ ok false
      → walk_mhips playlist removed left h.end (mhips ++ (slice playlist offset h.end ∷ [])) values
        ≡ ok w
  unfolding walk_mhips
  walk_mhips_kept left offset mhips values e header tested = ground arith

  walk_mhips_removed :
      (left offset : ℕ) (mhips : List (List ℕ)) (values : List ℕ) {w : Items} {h : ChunkHeader}
      → walk_mhips playlist removed (suc left) offset mhips values ≡ ok w
      → chunk_header playlist offset mhip ≡ ok h
      → is_removed removed (slice playlist offset h.end) h.header_length ≡ ok true
      → (value : Option ℕ) × (mhip_position (slice playlist offset h.end) ≡ ok value)
        × (walk_mhips playlist removed left h.end mhips (push_value values value) ≡ ok w)
  unfolding walk_mhips
  walk_mhips_removed left offset mhips values {h = h} e header tested =
      >>=-eq-ok (mhip_position (slice playlist offset h.end)) _ (ground (arith, e, header, tested))

  -- A run of the loop goes over consecutive items; it keeps those that belong to no removed track,
  -- in their order, and collects the positions of the others.
  pub walk_mhips-IsItems :
      (left offset : ℕ) (mhips : List (List ℕ)) (values : List ℕ) {w : Items}
      → offset ≤ length playlist
      → walk_mhips playlist removed left offset mhips values ≡ ok w
      → IsItems playlist removed left offset mhips values w
  walk_mhips-IsItems zero offset mhips values {w} inside e =
      let same : (mhips, values, offset) ≡ w = ok-injective (unfold walk_mhips in e) in
      rw (← same) (record {
        items = [];
        number = refl;
        all_mhip = tt;
        all_read = tt;
        cut = unfold flatten in refl;
        within = inside;
        kept_are = sym (append-nil mhips);
        values_are = refl;
      })
  walk_mhips-IsItems (suc left) offset mhips values {w} inside e =
      let (h, gone, header, tested) = walk_mhips_round left offset mhips values e in
      let b = chunk_header_bounds playlist offset mhip header in
      let long : offset ≤ h.end = omega (arith, b) in
      let whole = chunk_header-IsChunk playlist offset mhip header in
      let is = item_removed-is offset header tested in
      elim (Bool-cases gone) [
        | inr miss ↦ IsItems-kept h.end long whole (is ∙ miss) (
            walk_mhips-IsItems left h.end (mhips ++ (slice playlist offset h.end ∷ [])) values b.2
              (walk_mhips_kept left offset mhips values e header (tested ∙ ap ok miss)))
        | inl hit ↦
            let (value, read, rest) =
              walk_mhips_removed left offset mhips values e header (tested ∙ ap ok hit) in
            IsItems-removed h.end long whole value (is ∙ hit) read
              (walk_mhips-IsItems left h.end mhips (push_value values value) b.2 rest)
      ]
