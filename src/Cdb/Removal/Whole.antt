-- ===== src/Cdb/Removal/Whole.antt =====
-- `remove_tracks_from_cdb` from end to end.
use mathlib.Core.Path.{subst}
use libopod.Base.{
  ◌||◌, ◌⊎◌, ℕ, ◌≤◌, ◌≡◌, refl, sym, ap, ◌∙◌, Bool, true, false, not, Option, some, List, [], ◌∷◌,
  ◌++◌, flatten, arith, inl, inr,
}
use libopod.Base.Tests.{◌==◌, if◌then◌else◌, Bool-cases}
use libopod.Base.Lists.{length, take, drop, any, length-take}
use libopod.Error.{
  value_or, ok, ◌>>=◌, ◌>>◌, ensure, and_then, >>=-eq-ok, ensure-eq-ok, ok-injective,
  and_then-eq-ok, then_run-eq-ok, run_run-eq-ok,
}
use libopod.Bytes.{read_u32}
use libopod.Cdb.Chunk.{unverified, read_usize}
use libopod.Cdb.Chunk.Bounds.{read_usize_inv}
use libopod.Cdb.Hashab.{valid}
use libopod.Hashab.{verify_database_signature}
use libopod.Hashab.Implements.{hashab}
use libopod.Cdb.Removal.Final.{finalize_cdb-stream}
use libopod.Cdb.Inspect.{decode_payload}
use libopod.Cdb.Split.{split_datasets}
use libopod.Cdb.Tracks.{RemovedTrack, rewrite_track_dataset}
use libopod.Cdb.Tracks.Rewrite.{IsCutOut, rewrite_track_dataset-IsCutOut}
use libopod.Cdb.Playlists.{rewrite_playlist_dataset}
use libopod.Cdb.Playlists.Dataset.{IsMapped, rewrite_playlist_dataset-IsMapped}
use libopod.Cdb.Removal.{
  is_empty, is_track_dataset, rewrite_first, rewrite_playlists, rewrite_datasets, finalize_cdb,
  remove_tracks_from_cdb,
}

-- What becomes of the datasets: before the first track dataset, that one, and behind it.
abbrev pub holds_playlists : List ℕ → Bool
holds_playlists dataset =
    value_or false (read_u32 dataset 12 >>= λ kind. ok (kind == 2 || kind == 3 || kind == 5))

-- each dataset that holds playlists mapped, any other as it was
abbrev pub AllMapped : List RemovedTrack → List (List ℕ) → List (List ℕ) → Type 0
AllMapped removed [] [] = Unit {0}
AllMapped removed [] (n ∷ ns) = ⊥
AllMapped removed (d ∷ ds) [] = ⊥
AllMapped removed (d ∷ ds) (n ∷ ns) =
    (((holds_playlists d ≡ true) × IsMapped d removed n) ⊎ ((holds_playlists d ≡ false) × (n ≡ d)))
    × AllMapped removed ds ns

rewrite_playlists-AllMapped :
    (ds : List (List ℕ)) (removed : List RemovedTrack) {ns : List (List ℕ)}
    → rewrite_playlists ds removed ≡ ok ns
    → AllMapped removed ds ns
unfolding rewrite_playlists
rewrite_playlists-AllMapped [] removed e = subst (AllMapped removed []) (ok-injective e) tt
rewrite_playlists-AllMapped (d ∷ ds) removed {ns} e =
    let (kind, read, e1) = >>=-eq-ok (read_u32 d 12) _ e in
    let (n, made, e2) =
      >>=-eq-ok
        (if kind == 2 || kind == 3 || kind == 5 then rewrite_playlist_dataset d removed else ok d) _
        e1 in
    let (rest, below, e3) = >>=-eq-ok (rewrite_playlists ds removed) _ e2 in
    let tested : holds_playlists d ≡ (kind == 2 || kind == 3 || kind == 5) =
      ap (λ r. value_or false (r >>= λ k. ok (k == 2 || k == 3 || k == 5))) read in
    subst (AllMapped removed (d ∷ ds)) (ok-injective e3) (
      one (kind == 2 || kind == 3 || kind == 5) tested made,
      rewrite_playlists-AllMapped ds removed below,
    )
  where
    one :
        {d n : List ℕ} {removed : List RemovedTrack} (b : Bool)
        → holds_playlists d ≡ b
        → (if b then rewrite_playlist_dataset d removed else ok d) ≡ ok n
        → ((holds_playlists d ≡ true) × IsMapped d removed n)
          ⊎ ((holds_playlists d ≡ false) × (n ≡ d))
    one {d = d} {removed = removed} true h k =
        inl (h, rewrite_playlist_dataset-IsMapped d removed k)
    one false h k = inr (h, sym (ok-injective k))

-- The datasets, the first track dataset among them cut.
pub record IsCutFirst (removals : List ℕ) (old new : List (List ℕ)) (removed : List RemovedTrack)
    : Type 0 where
  pub before : List (List ℕ)
  pub tracks : List ℕ
  pub new_tracks : List ℕ
  pub behind : List (List ℕ)
  pub old_is : old ≡ before ++ (tracks ∷ behind)
  pub new_is : new ≡ before ++ (new_tracks ∷ behind)
  pub is_tracks : is_track_dataset tracks ≡ true
  pub none_before : any is_track_dataset before ≡ false
  pub cut : IsCutOut tracks removals new_tracks removed

IsCutFirst-here :
    (removals d : List ℕ) (ds : List (List ℕ)) {r : List ℕ × List RemovedTrack}
    → is_track_dataset d ≡ true
    → rewrite_track_dataset d removals ≡ ok r
    → IsCutFirst removals (d ∷ ds) (r.0 ∷ ds) r.1
IsCutFirst-here removals d ds {r} is e = record {
  before = [];
  tracks = d;
  new_tracks = r.0;
  behind = ds;
  old_is = refl;
  new_is = refl;
  is_tracks = is;
  none_before = refl;
  cut = rewrite_track_dataset-IsCutOut d removals e;
}

IsCutFirst-later :
    (removals d : List ℕ) (ds : List (List ℕ)) (r : List (List ℕ) × List RemovedTrack)
    → is_track_dataset d ≡ false
    → IsCutFirst removals ds r.0 r.1
    → IsCutFirst removals (d ∷ ds) (d ∷ r.0) r.1
IsCutFirst-later removals d ds r is ih = record {
  before = d ∷ ih.before;
  tracks = ih.tracks;
  new_tracks = ih.new_tracks;
  behind = ih.behind;
  old_is = ap (λ t. d ∷ t) ih.old_is;
  new_is = ap (λ t. d ∷ t) ih.new_is;
  is_tracks = ih.is_tracks;
  none_before = rw is ih.none_before;
  cut = ih.cut;
}

rewrite_first_here :
    (d : List ℕ) (ds : List (List ℕ)) (removals : List ℕ) {r : List (List ℕ) × List RemovedTrack}
    → is_track_dataset d ≡ true
    → rewrite_first (d ∷ ds) removals ≡ ok r
    → (rewrite_track_dataset d removals >>= λ t. ok (t.0 ∷ ds, t.1)) ≡ ok r
unfolding rewrite_first
rewrite_first_here d ds removals hit e = rw (hit, rewrite_first) at e

rewrite_first_later :
    (d : List ℕ) (ds : List (List ℕ)) (removals : List ℕ) {r : List (List ℕ) × List RemovedTrack}
    → is_track_dataset d ≡ false
    → rewrite_first (d ∷ ds) removals ≡ ok r
    → (rewrite_first ds removals >>= λ t. ok (d ∷ t.0, t.1)) ≡ ok r
unfolding rewrite_first
rewrite_first_later d ds removals miss e = rw (miss, rewrite_first) at e

rewrite_first-IsCutFirst :
    (ds : List (List ℕ)) (removals : List ℕ) {r : List (List ℕ) × List RemovedTrack}
    → rewrite_first ds removals ≡ ok r
    → IsCutFirst removals ds r.0 r.1
unfolding rewrite_first
rewrite_first-IsCutFirst [] removals e = cc
rewrite_first-IsCutFirst (d ∷ ds) removals {r} e = elim (Bool-cases (is_track_dataset d)) [
  | inl hit ↦
      let (t, cut, e1) =
        >>=-eq-ok (rewrite_track_dataset d removals) _ (rewrite_first_here d ds removals hit e) in
      subst (λ (x : List (List ℕ) × List RemovedTrack). IsCutFirst removals (d ∷ ds) x.0 x.1)
        (ok-injective e1) (IsCutFirst-here removals d ds hit cut)
  | inr miss ↦
      let (t, rest, e1) =
        >>=-eq-ok (rewrite_first ds removals) _ (rewrite_first_later d ds removals miss e) in
      subst (λ (x : List (List ℕ) × List RemovedTrack). IsCutFirst removals (d ∷ ds) x.0 x.1)
        (ok-injective e1)
        (IsCutFirst-later removals d ds t miss (rewrite_first-IsCutFirst ds removals rest))
]

decode_payload_inside :
    (inflate : ℕ → List ℕ → Option (List ℕ)) (bytes : List ℕ) (header_length : ℕ) {payload : List ℕ}
    → decode_payload inflate bytes header_length ≡ ok payload
    → header_length ≤ length bytes
unfolding decode_payload
decode_payload_inside inflate bytes header_length e = ground arith

module _ (inflate : ℕ → List ℕ → Option (List ℕ)) (deflate : List ℕ → Option (List ℕ))
    (sha1 : List ℕ → List ℕ) (fuel : ℕ) (bytes guid removals : List ℕ) where
  -- What was read of the old file, and what the new one holds.
  pub record IsRemoved (out : List ℕ) : Type 0 where
    pub header_length : ℕ
    pub payload : List ℕ
    pub count : ℕ
    pub old : List (List ℕ)
    pub middle : List (List ℕ)
    pub new : List (List ℕ)
    pub removed : List RemovedTrack
    pub header_field : read_u32 bytes 4 ≡ ok header_length
    pub decoded : decode_payload inflate bytes header_length ≡ ok payload
    pub counted : read_u32 bytes 0x14 ≡ ok count
    pub split : split_datasets fuel payload count ≡ some (ok old)
    pub cut : IsCutFirst removals old middle removed
    pub mapped : AllMapped removed middle new
    pub stream : deflate (flatten new) ≡ some (drop header_length out)
    pub signed : verify_database_signature sha1 out guid ≡ some valid

  -- A removal that returns a file was asked for one track at least. The new file's stream packs the
  -- old datasets, with the requested tracks cut out of the first track dataset and every dataset of
  -- playlists rewritten for them, and its signature is valid for the device; where the header has
  -- 228 bytes or more.
  pub remove_tracks_from_cdb-IsRemoved :
      {out : List ℕ} {header_length : ℕ}
      → remove_tracks_from_cdb inflate deflate (hashab sha1) fuel bytes guid removals
        ≡ some (ok out)
      → read_u32 bytes 4 ≡ ok header_length
      → 0xe4 ≤ header_length
      → (is_empty removals ≡ false) × IsRemoved out
  unfolding remove_tracks_from_cdb rewrite_datasets
  remove_tracks_from_cdb-IsRemoved {out} {header_length = hl} e field long =
      let (h, asked, e1) =
        then_run-eq-ok (ensure (not (is_empty removals)) unverified >> read_usize bytes 4) _ e in
      let (some_asked, read) =
        ensure-eq-ok (not (is_empty removals)) unverified (read_usize bytes 4) asked in
      let (payload, decoded, e2) = then_run-eq-ok (decode_payload inflate bytes h) _ e1 in
      let (count, counted, e3) = then_run-eq-ok (read_usize bytes 0x14) _ e2 in
      let (uncompressed, rewritten, final) =
        run_run-eq-ok (and_then (split_datasets fuel payload count) (rewrite_datasets removals)) _
          e3 in
      let (old, split, e4) = and_then-eq-ok (split_datasets fuel payload count) _ rewritten in
      let (r, first, e5) = >>=-eq-ok (rewrite_first old removals) _ e4 in
      let (new, below, e6) = >>=-eq-ok (rewrite_playlists r.0 r.1) _ e5 in
      let h_field = (read_usize_inv bytes 4 read).0 in
      let same : hl ≡ h = ok-injective (sym field ∙ h_field) in
      let size : length (take h bytes) ≡ h =
        omega (arith, length-take h bytes, decode_payload_inside inflate bytes h decoded) in
      let f =
        finalize_cdb-stream inflate deflate sha1 (take h bytes) uncompressed guid
          (omega (arith, size, same, long)) final in
      (
        not_true (is_empty removals) some_asked,
        record {
          header_length = h;
          payload = payload;
          count = count;
          old = old;
          middle = r.0;
          new = new;
          removed = r.1;
          header_field = h_field;
          decoded = decoded;
          counted = (read_usize_inv bytes 0x14 counted).0;
          split = split;
          cut = rewrite_first-IsCutFirst old removals first;
          mapped = rewrite_playlists-AllMapped r.0 r.1 below;
          stream = ap deflate (ok-injective e6) ∙ f.0 ∙ ap (λ (n : ℕ). some (drop n out)) size;
          signed = f.1;
        },
      )
    where
      not_true : (b : Bool) → not b ≡ true → b ≡ false
      not_true true h = cc
      not_true false h = refl

  -- A removal of one track at least comes down to `finalize_cdb`, where the stages before succeed.
  pub remove_tracks_from_cdb-finalize_cdb :
      (header_length count : ℕ) (payload uncompressed : List ℕ) (old : List (List ℕ))
      → is_empty removals ≡ false
      → read_usize bytes 4 ≡ ok header_length
      → decode_payload inflate bytes header_length ≡ ok payload
      → read_usize bytes 0x14 ≡ ok count
      → split_datasets fuel payload count ≡ some (ok old)
      → rewrite_datasets removals old ≡ ok uncompressed
      → remove_tracks_from_cdb inflate deflate (hashab sha1) fuel bytes guid removals
        ≡ finalize_cdb inflate deflate (hashab sha1) (take header_length bytes) uncompressed guid
  unfolding remove_tracks_from_cdb
  remove_tracks_from_cdb-finalize_cdb header_length count payload uncompressed old asked field
        decoded counted split rewritten =
      rw (asked, field, decoded, counted, split, rewritten) refl
