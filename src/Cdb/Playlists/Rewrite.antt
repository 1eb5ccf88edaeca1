-- ===== src/Cdb/Playlists/Rewrite.antt =====
-- What `rewrite_playlist` and `rewrite_playlist_dataset` return.
use libopod.Base.{
  min, ℕ, zero, suc, ◌≤◌, ◌≡◌, refl, sym, ap, ◌∙◌, true, not, List, [], ◌∷◌, ◌++◌, map, flatten,
  append-nil, append_assoc, arith,
}
use mathlib.Core.Path.{subst}
use libopod.Base.Tests.{ltb, ◌==◌, ==_iff}
use libopod.Base.Lists.{
  length, take, drop, slice, length-append, length-take, drop-append_at, drop_all,
}
use libopod.Error.{ok, >>=-eq-ok, ensure-eq-ok, ok-injective}
use libopod.Bytes.{read_u32}
use libopod.Cdb.Chunk.{chunk_header, mhyp, mhip, mhod, read_usize}
use libopod.Cdb.Chunk.Bounds.{chunk_header_bounds, read_usize_inv}
use libopod.Cdb.Chunk.Whole.{AllChunks}
use libopod.Cdb.Index.{finish_mhod}
use libopod.Cdb.Index.Writes.{finish_mhod_lem, finish_mhod-drop}
use libopod.Cdb.Tracks.{RemovedTrack}
use libopod.Cdb.Positions.{rewrite_mhip_position}
use libopod.Cdb.Positions.Moved.{IsMoved, rewrite_mhip_position-IsMoved}
use libopod.Cdb.Playlists.{
  Items, Removals, rewrite_mhod, walk_mhods, walk_mhips, append_mhips, rewrite_playlist,
}
use libopod.Cdb.Playlists.Items.{IsItems, kept_items, removed_values, AllRead, walk_mhips-IsItems}

-- each item moved up, in order
abbrev pub AllMoved : List ℕ → List (List ℕ) → List (List ℕ) → Type 0
AllMoved values [] [] = Unit {0}
AllMoved values [] (q ∷ qs) = ⊥
AllMoved values (p ∷ ps) [] = ⊥
AllMoved values (p ∷ ps) (q ∷ qs) = IsMoved values p q × AllMoved values ps qs

append_mhips_inv :
    (mhips : List (List ℕ)) (values output : List ℕ) {out : List ℕ}
    → append_mhips mhips values output ≡ ok out
    → (moved : List (List ℕ)) × AllMoved values mhips moved × (out ≡ output ++ flatten moved)
unfolding append_mhips flatten
append_mhips_inv [] values output e = ([], tt, sym (ok-injective e) ∙ sym (append-nil output))
append_mhips_inv (p ∷ ps) values output e =
    let (q, first, rest) = >>=-eq-ok (rewrite_mhip_position p values) _ e in
    let (qs, all, same) = append_mhips_inv ps values (output ++ q) rest in
    (
      q ∷ qs,
      (rewrite_mhip_position-IsMoved p values first, all),
      same ∙ append_assoc output q (flatten qs),
    )

-- The children of the header are written behind what is there.
walk_mhods_inv :
    (playlist positions : List ℕ) (left offset : ℕ) (output : List ℕ) (removals : Removals)
    {w : List ℕ × ℕ}
    → offset ≤ length playlist
    → walk_mhods playlist positions left offset output removals ≡ ok w
    → (w.1 ≤ length playlist) × ((children : List ℕ) × (w.0 ≡ output ++ children))
unfolding walk_mhods
walk_mhods_inv playlist positions zero offset output removals {w} inside e =
    let same : (output, offset) ≡ w = ok-injective e in
    (
      omega (arith, inside, ap (λ t. t.1) same),
      ([], sym (ap (λ t. t.0) same) ∙ sym (append-nil output)),
    )
walk_mhods_inv playlist positions (suc left) offset output removals inside e =
    let (h, header, e1) = >>=-eq-ok (chunk_header playlist offset mhod) _ e in
    let (r, _, e2) =
      >>=-eq-ok (rewrite_mhod (slice playlist offset h.end) h.header_length positions removals) _
        e1 in
    let b = chunk_header_bounds playlist offset mhod header in
    let (fits, (children, same)) =
      walk_mhods_inv playlist positions left h.end (output ++ r.0) r.1 b.2 e2 in
    (fits, (r.0 ++ children, same ∙ append_assoc output r.0 children))

-- `out` is the playlist `playlist` without the items of the removed tracks.
pub record IsKept (playlist : List ℕ) (removed : List RemovedTrack) (out : List ℕ) : Type 0 where
  pub items_at : ℕ
  pub new_items_at : ℕ
  pub items : List (List ℕ)
  pub moved : List (List ℕ)
  pub whole : drop items_at playlist ≡ flatten items
  pub all_mhip : AllChunks mhip items
  pub all_read : AllRead removed items
  pub old_count : read_u32 playlist 16 ≡ ok (length items)
  pub rest : drop new_items_at out ≡ flatten moved
  pub moved_are : AllMoved (removed_values removed [] items) (kept_items removed items) moved
  pub new_count : read_u32 out 16 ≡ ok (length (kept_items removed items))
  pub length_field : read_u32 out 8 ≡ ok (length out)

IsKept-finish :
    (playlist : List ℕ) (removed : List RemovedTrack) (children : List ℕ × ℕ) (head more : List ℕ)
    (mhip_count : ℕ) (w : Items) (output : List ℕ) {out : List ℕ}
    → 20 ≤ length head
    → children.0 ≡ head ++ more
    → read_u32 playlist 16 ≡ ok mhip_count
    → IsItems playlist removed mhip_count children.1 [] [] w
    → w.2 ≡ length playlist
    → append_mhips w.0 w.1 children.0 ≡ ok output
    → finish_mhod 12 output (length w.0) ≡ ok out
    → IsKept playlist removed out
IsKept-finish playlist removed children head more mhip_count w output {out} long same counted is
      ends appended finished =
    let (moved, all, written) = append_mhips_inv w.0 w.1 children.0 appended in
    let at_least : 20 ≤ length children.0 =
      omega (arith, ap length same, length-append head more, long) in
    let finish = finish_mhod_lem 12 output (length w.0) (omega arith) finished in
    record {
      items_at = children.1;
      new_items_at = length children.0;
      items = is.items;
      moved = moved;
      whole =
          is.cut
          ∙ ap (λ t. flatten is.items ++ t) (drop_all w.2 playlist (omega (arith, ends)))
          ∙ append-nil (flatten is.items);
      all_mhip = is.all_mhip;
      all_read = is.all_read;
      old_count = counted ∙ ap ok (sym is.number);
      rest =
          finish_mhod-drop 12 output (length w.0) (length children.0) (omega arith)
            (omega (arith, at_least)) finished
          ∙ ap (drop (length children.0)) written
          ∙ drop-append_at (length children.0) children.0 (flatten moved) refl;
      moved_are = moved_items is moved all;
      new_count = finish.2 ∙ ap (λ t. ok (length t)) is.kept_are;
      length_field = finish.1;
    }
  where
    moved_items :
        (i : IsItems playlist removed mhip_count children.1 [] [] w) (moved : List (List ℕ))
        → AllMoved w.1 w.0 moved
        → AllMoved (removed_values removed [] i.items) (kept_items removed i.items) moved
    moved_items i moved all =
        subst (λ t. AllMoved t (kept_items removed i.items) moved) i.values_are
          (subst (λ t. AllMoved w.1 t moved) i.kept_are all)

-- A playlist that is rewritten ended with as many items as its count field says, each one chunk with
-- the item's magic and of its own length. The new one ends with those that are of no removed track, by
-- the 32-bit ID at 0x18 or, where the item's header has 0x34 bytes or more, the 64-bit one at 0x2c. They
-- stand in their order, each with its length and its header kept. Where the first child of a kept item
-- holds a position inside its bytes, the place has the value that `renumber` gives for it and for the
-- positions read of the removed items; with no further child the rest of that item is kept too. The
-- position read of a removed item is that of its first child, where that holds one in the same way.
-- The new playlist's count and length fields say what it holds.
pub rewrite_playlist-IsKept :
    (playlist : List ℕ) (removed : List RemovedTrack) {out : List ℕ}
    → rewrite_playlist playlist removed ≡ ok out
    → IsKept playlist removed out
unfolding rewrite_playlist
rewrite_playlist-IsKept playlist removed e =
    let positions = map (λ (t : RemovedTrack). t.position) removed in
    let (h, header, e1) = >>=-eq-ok (chunk_header playlist 0 mhyp) _ e in
    let (long, e2) = ensure-eq-ok (not (ltb h.header_length 20)) _ _ e1 in
    let (mhod_count, _, e3) = >>=-eq-ok (read_usize playlist 12) _ e2 in
    let (mhip_count, counted, e4) = >>=-eq-ok (read_usize playlist 16) _ e3 in
    let (children, walked, e5) =
      >>=-eq-ok
        (walk_mhods playlist positions mhod_count h.header_length (take h.header_length playlist)
          [])
        _ e4 in
    let (items, gone, e6) =
      >>=-eq-ok (walk_mhips playlist removed mhip_count children.1 [] []) _ e5 in
    let (ends, e7) = ensure-eq-ok (items.2 == length playlist) _ _ e6 in
    let (output, appended, finished) = >>=-eq-ok (append_mhips items.0 items.1 children.0) _ e7 in
    let b = chunk_header_bounds playlist 0 mhyp header in
    let (fits, (more, same)) =
      walk_mhods_inv playlist positions mhod_count h.header_length (take h.header_length playlist)
        [] (omega (arith, b)) walked in
    IsKept-finish playlist removed children (take h.header_length playlist) more mhip_count items
      output
      (head_long h.header_length long (length-take h.header_length playlist) (omega (arith, b)))
      same (read_usize_inv playlist 16 counted).0
      (walk_mhips-IsItems playlist removed mhip_count children.1 [] [] fits gone)
      ((==_iff items.2 (length playlist)).0 ends) appended finished
  where
    head_long : (n : ℕ) {l m : ℕ} → not (ltb n 20) ≡ true → l ≡ min n m → n ≤ m → 20 ≤ l
    head_long n h e k = ground (arith, h, e)
