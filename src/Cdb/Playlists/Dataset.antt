-- ===== src/Cdb/Playlists/Dataset.antt =====
-- What `rewrite_playlist_dataset` returns.
use libopod.Base.{
  ℕ, zero, suc, ◌+◌, ◌<◌, ◌≤◌, ◌≡◌, refl, sym, ap, ◌∙◌, List, [], ◌∷◌, ◌++◌, flatten, append-nil,
  append_assoc, arith, inr,
}
use libopod.Base.Tests.{◌==◌, ==_iff}
use libopod.Base.Lists.{
  length, take, drop, slice, length-append, take-append_at, length-take, take-append-drop,
  drop-append_at, drop_all,
}
use libopod.Error.{ok, >>=-eq-ok, ensure-eq-ok, ok-injective}
use libopod.Bytes.{read_u32, write_u32}
use libopod.Bytes.Laws.{length-write_u32, read_u32-write_u32, read_u32-write_u32_ne}
use libopod.Bytes.Frame.{drop-write_le, read_le-take}
use libopod.Cdb.Chunk.{chunk_header, mhyp, mhlp}
use libopod.Cdb.Chunk.Bounds.{chunk_header_bounds}
use libopod.Cdb.Header.{ListHeader, list_header, list_header_inv}
use libopod.Cdb.Index.{u32_from, u32_mod}
use libopod.Cdb.Index.Writes.{u32_from_inv}
use libopod.Cdb.Tracks.{RemovedTrack}
use libopod.Cdb.Tracks.Walk.{cut_one}
use libopod.Cdb.Playlists.{rewrite_playlist, walk_playlists, rewrite_playlist_dataset}

-- each playlist rewritten, in order
abbrev pub AllRewritten : List RemovedTrack → List (List ℕ) → List (List ℕ) → Type 0
AllRewritten removed [] [] = Unit {0}
AllRewritten removed [] (q ∷ qs) = ⊥
AllRewritten removed (p ∷ ps) [] = ⊥
AllRewritten removed (p ∷ ps) (q ∷ qs) =
    (rewrite_playlist p removed ≡ ok q) × AllRewritten removed ps qs

record IsWalk (dataset : List ℕ) (removed : List RemovedTrack) (left offset : ℕ) (output : List ℕ)
    (w : List ℕ × ℕ) : Type 0 where
  old : List (List ℕ)
  new : List (List ℕ)
  number : length old ≡ left
  cut : drop offset dataset ≡ flatten old ++ drop w.1 dataset
  output_is : w.0 ≡ output ++ flatten new
  rewritten : AllRewritten removed old new

walk_playlists-IsWalk :
    (dataset : List ℕ) (removed : List RemovedTrack) (left offset : ℕ) (output : List ℕ)
    {w : List ℕ × ℕ}
    → walk_playlists dataset removed left offset output ≡ ok w
    → IsWalk dataset removed left offset output w
unfolding walk_playlists flatten
walk_playlists-IsWalk dataset removed zero offset output {w} e =
    let same : (output, offset) ≡ w = ok-injective e in
    rw (← same) (record {
      old = [];
      new = [];
      number = refl;
      cut = refl;
      output_is = sym (append-nil output);
      rewritten = tt;
    })
walk_playlists-IsWalk dataset removed (suc left) offset output {w} e =
    let (h, header, e1) = >>=-eq-ok (chunk_header dataset offset mhyp) _ e in
    let (q, made, e2) = >>=-eq-ok (rewrite_playlist (slice dataset offset h.end) removed) _ e1 in
    let ih = walk_playlists-IsWalk dataset removed left h.end (output ++ q) e2 in
    let b = chunk_header_bounds dataset offset mhyp header in
    record {
      old = slice dataset offset h.end ∷ ih.old;
      new = q ∷ ih.new;
      number = ap suc ih.number;
      cut = cut_one dataset offset h.end ih.old w.1 (omega (arith, b)) ih.cut;
      output_is = ih.output_is ∙ append_assoc output q (flatten ih.new);
      rewritten = (made, ih.rewritten);
    }

-- `out` is `dataset` with each of its playlists rewritten.
pub record IsMapped (dataset : List ℕ) (removed : List RemovedTrack) (out : List ℕ) : Type 0 where
  pub list : ℕ
  pub body : ℕ
  pub old : List (List ℕ)
  pub new : List (List ℕ)
  pub whole : dataset ≡ take body dataset ++ flatten old
  pub counted : read_u32 dataset (list + 8) ≡ ok (length old)
  pub same_count : read_u32 out (list + 8) ≡ ok (length old)
  pub rest : drop body out ≡ flatten new
  pub rewritten : AllRewritten removed old new
  pub length_field : read_u32 out 8 ≡ ok (length out)

IsMapped-close :
    (dataset : List ℕ) (removed : List RemovedTrack) (lh : ListHeader) (w : List ℕ × ℕ)
    {out : List ℕ}
    → list_header dataset mhlp ≡ ok lh
    → IsWalk dataset removed lh.count lh.body (take lh.body dataset) w
    → w.1 ≡ length dataset
    → length w.0 < u32_mod
    → write_u32 w.0 8 (length w.0) ≡ ok out
    → IsMapped dataset removed out
IsMapped-close dataset removed lh w {out} headed walk ends fits written =
    let (long, behind, inside, counted, _) = list_header_inv dataset mhlp headed in
    let pre = length-take lh.body dataset in
    record {
      list = lh.list;
      body = lh.body;
      old = walk.old;
      new = walk.new;
      whole =
          sym (take-append-drop lh.body dataset)
          ∙ ap (λ t. take lh.body dataset ++ t)
              (walk.cut
                ∙ ap (λ t. flatten walk.old ++ t) (drop_all w.1 dataset (omega (arith, ends)))
                ∙ append-nil (flatten walk.old));
      counted = counted ∙ ap ok (sym walk.number);
      same_count =
          read_u32-write_u32_ne w.0 8 (lh.list + 8) (length w.0) written (inr (omega arith))
          ∙ ap (λ t. read_u32 t (lh.list + 8)) walk.output_is
          ∙ read_u32-append (take lh.body dataset) (flatten walk.new) dataset lh.list lh.body
              (omega (arith, behind)) inside refl
          ∙ counted
          ∙ ap ok (sym walk.number);
      rest =
          drop-write_u32 w.0 (length w.0) lh.body (omega (arith, behind, long)) written
          ∙ ap (drop lh.body) walk.output_is
          ∙ drop-append_at lh.body (take lh.body dataset) (flatten walk.new)
              (omega (arith, pre, inside));
      rewritten = walk.rewritten;
      length_field =
          read_u32-write_u32 w.0 8 (length w.0) fits written
          ∙ ap ok (sym (length-write_u32 w.0 8 (length w.0) written));
    }
  where
    drop-write_u32 :
        (bytes : List ℕ) (v a : ℕ) {new : List ℕ}
        → 12 ≤ a
        → write_u32 bytes 8 v ≡ ok new
        → drop a new ≡ drop a bytes
    drop-write_u32 bytes v a h e = unfold write_u32 in drop-write_le 4 bytes 8 v a e h

    read_u32-append :
        (head rest bytes : List ℕ) (at body : ℕ)
        → at + 12 ≤ body
        → body ≤ length bytes
        → take body bytes ≡ head
        → read_u32 (head ++ rest) (at + 8) ≡ read_u32 bytes (at + 8)
    read_u32-append head rest bytes at body h k e =
        let size : length head ≡ body = omega (arith, ap length e, length-take body bytes, k) in
        unfold read_u32 in
        read_le-take 4 (head ++ rest) bytes (at + 8) body (omega arith)
          (omega (arith, length-append head rest, size)) k
          (take-append_at body head rest (sym size) ∙ sym e)

-- A playlist dataset that is rewritten was a list of playlists with nothing behind it. The new one
-- lists each of them rewritten, in their order, under the same count; its length field says its
-- length.
pub rewrite_playlist_dataset-IsMapped :
    (dataset : List ℕ) (removed : List RemovedTrack) {out : List ℕ}
    → rewrite_playlist_dataset dataset removed ≡ ok out
    → IsMapped dataset removed out
unfolding rewrite_playlist_dataset
rewrite_playlist_dataset-IsMapped dataset removed {out} e =
    let (lh, headed, e1) = >>=-eq-ok (list_header dataset mhlp) _ e in
    let (w, walked, e2) =
      >>=-eq-ok (walk_playlists dataset removed lh.count lh.body (take lh.body dataset)) _ e1 in
    let (ends, e3) = ensure-eq-ok (w.1 == length dataset) _ _ e2 in
    let (size, checked, written) = >>=-eq-ok (u32_from (length w.0)) _ e3 in
    let is = u32_from_inv (length w.0) checked in
    IsMapped-close dataset removed lh w headed
      (walk_playlists-IsWalk dataset removed lh.count lh.body (take lh.body dataset) walked)
      ((==_iff w.1 (length dataset)).0 ends) is.1 (rw is.0 at written)
