-- ===== src/Cdb/Addition.antt =====
-- src/storage/binary/cdb_add.rs: the sorted indexes and the jump tables, with a track that is added.
pub mod Order
pub mod Sorted
pub mod Keys
pub mod Jump
pub mod Rebuild
use libopod.Base.{
  ℕ, zero, suc, ◌+◌, ◌-◌, ◌/◌, ◌%◌, Bool, true, false, Option, none, some, List, [], ◌∷◌, ◌++◌,
}
use libopod.Base.Tests.{ltb, leb, ◌==◌, if◌then◌else◌}
use libopod.Base.Lists.{length, take}
use libopod.Error.{Result, ok, err, ◌>>=◌, ◌>>◌, ensure}
use libopod.Bytes.{write_u32, to_le_bytes}
use libopod.Sort.{Text, Unicode, sort_key, jump_letter}
use libopod.Cdb.Chunk.{mhod, malformed_at, chunk_header, ChunkHeader}
use libopod.Cdb.Index.{u32_from}
use libopod.Cdb.Index.Values.{encode}
use libopod.Cdb.Index.Jump.{Group}
use libopod.Cdb.Addition.Order.{SortField, text, number, sort_by, compare_fields, Entry}

-- a track of the database
pub record ParsedTrack : Type 0 where
  pub position : ℕ
  pub persistent_id : ℕ
  pub track_id : ℕ
  pub artist_id_ref : ℕ
  pub track_number : ℕ
  pub disc_number : ℕ
  pub season : ℕ
  pub episode : ℕ
  pub title : Text
  pub album : Text
  pub artist : Text
  pub genre : Text
  pub composer : Text
  pub album_artist : Text
  pub show_name : Text
  pub sort_name : Text
  pub sort_album : Text
  pub sort_artist : Text
  pub sort_album_artist : Text
  pub sort_composer : Text
  pub sort_show : Text

-- of an added track, what the indexes read
pub record CdbTrackAddition : Type 0 where
  pub title : Text
  pub artist : Option Text
  pub album : Option Text
  pub album_artist : Option Text
  pub genre : Option Text
  pub composer : Option Text
  pub track_number : ℕ
  pub disc_number : ℕ

pub record CdbSortView : Type 0 where
  pub title : Text
  pub album : Text
  pub artist : Text
  pub genre : Text
  pub composer : Text
  pub album_artist : Text
  pub show_name : Text
  pub sort_name : Text
  pub sort_album : Text
  pub sort_artist : Text
  pub sort_album_artist : Text
  pub sort_composer : Text
  pub sort_show : Text
  pub track_number : ℕ
  pub disc_number : ℕ
  pub season : ℕ
  pub episode : ℕ

unfoldable pub from_track : ParsedTrack → CdbSortView
from_track track = record {
  title = track.title;
  album = track.album;
  artist = track.artist;
  genre = track.genre;
  composer = track.composer;
  album_artist = track.album_artist;
  show_name = track.show_name;
  sort_name = track.sort_name;
  sort_album = track.sort_album;
  sort_artist = track.sort_artist;
  sort_album_artist = track.sort_album_artist;
  sort_composer = track.sort_composer;
  sort_show = track.sort_show;
  track_number = track.track_number;
  disc_number = track.disc_number;
  season = track.season;
  episode = track.episode;
}

abbrev or_empty : Option Text → Text
or_empty none = []
or_empty (some t) = t

abbrev or_else : Option Text → Option Text → Option Text
or_else none other = other
or_else (some t) other = some t

unfoldable pub from_addition : CdbTrackAddition → CdbSortView
from_addition addition = record {
  title = addition.title;
  album = or_empty addition.album;
  artist = or_empty addition.artist;
  genre = or_empty addition.genre;
  composer = or_empty addition.composer;
  album_artist = or_empty (or_else addition.album_artist addition.artist);
  show_name = [];
  sort_name = [];
  sort_album = [];
  sort_artist = [];
  sort_album_artist = [];
  sort_composer = [];
  sort_show = [];
  track_number = addition.track_number;
  disc_number = addition.disc_number;
  season = 0;
  episode = 0;
}

abbrev pub prefer : Text → Text → Text
prefer [] display = display
prefer (c ∷ sort) display = c ∷ sort

abbrev first_nonempty : List Text → Text
first_nonempty [] = []
first_nonempty ([] ∷ rest) = first_nonempty rest
first_nonempty ((c ∷ value) ∷ rest) = c ∷ value

-- what an album artist is sorted and found by
abbrev album_artist_of : CdbSortView → Text
album_artist_of v =
    first_nonempty (v.sort_album_artist ∷ v.album_artist ∷ v.sort_artist ∷ v.artist ∷ [])

-- the decimal digits of a `u32`
abbrev digits : ℕ → ℕ → Text
digits zero n = []
digits (suc places) n =
    let rest = digits places (n / 10) in
    if ltb n 10 then (b'0' + n) ∷ [] else rest ++ ((b'0' + n % 10) ∷ [])

abbrev to_string : ℕ → Text
to_string n = digits 10 n

abbrev pub positions : List Entry → List ℕ
positions [] = []
positions ((fields, position) ∷ rest) = position ∷ positions rest

-- one more slot in the last group
abbrev pub count_last : List Group → List Group
count_last [] = []
count_last ((letter, start, count) ∷ []) = (letter, start, count + 1) ∷ []
count_last (g ∷ h ∷ gs) = g ∷ count_last (h ∷ gs)

abbrev pub is_letter : Option ℕ → ℕ → Bool
is_letter none letter = false
is_letter (some previous) letter = previous == letter

-- the loop over the letters of the slots
unfoldable pub group_letters : ℕ → Option ℕ → List Group → List ℕ → Result (List Group)
unfolding u32_from
group_letters index last groups [] = ok groups
group_letters index last groups (letter ∷ rest) = elim (is_letter last letter) [
  | true ↦ group_letters (index + 1) last (count_last groups) rest
  | false ↦ do
    start ← u32_from index
    group_letters (index + 1) (some letter) (groups ++ ((letter, start, 1) ∷ [])) rest
]

abbrev pub encode_groups : List Group → List ℕ
encode_groups [] = []
encode_groups ((letter, start, count) ∷ gs) =
    (to_le_bytes 2 letter ++ to_le_bytes 2 0 ++ to_le_bytes 4 start ++ to_le_bytes 4 count)
    ++ encode_groups gs

module _ (u : Unicode) where
  abbrev key : Text → SortField
  key t = text (sort_key u t)

  abbrev by_title : CdbSortView → List SortField
  by_title v = key (prefer v.sort_name v.title) ∷ []

  -- within an album
  abbrev by_disc : CdbSortView → List SortField
  by_disc v = number v.disc_number ∷ number v.track_number ∷ by_title v

  abbrev by_album : CdbSortView → List SortField
  by_album v = key (prefer v.sort_album v.album) ∷ by_disc v

  abbrev by_artist : CdbSortView → List SortField
  by_artist v = key (prefer v.sort_artist v.artist) ∷ by_album v

  abbrev show_of : CdbSortView → SortField
  show_of v = key (prefer v.sort_show v.show_name)

  -- the fields for the sort types of the title, the album, the artist, the genre, the composer, the
  -- show, the season, the episode and the album artist
  unfoldable pub sort_fields : CdbSortView → ℕ → List SortField
  unfolding sort_key
  sort_fields v sort_type =
      if sort_type == 0x04
      then by_album v
      else if sort_type == 0x05
      then by_artist v
      else if sort_type == 0x07
      then key v.genre ∷ by_artist v
      else if sort_type == 0x12
      then key (prefer v.sort_composer v.composer) ∷ by_album v
      else if sort_type == 0x1d
      then show_of v ∷ number v.season ∷ number v.episode ∷ by_title v
      else if sort_type == 0x1e
      then number v.season ∷ number v.episode ∷ show_of v ∷ by_title v
      else if sort_type == 0x1f
      then number v.episode ∷ number v.season ∷ show_of v ∷ by_title v
      else if sort_type == 0x23
      then key (album_artist_of v) ∷ by_album v
      else by_title v

  -- the text whose first letter a track is found under
  unfoldable pub index_letter_source : CdbSortView → ℕ → Text
  index_letter_source v sort_type =
      if sort_type == 0x04
      then prefer v.sort_album v.album
      else if sort_type == 0x05
      then prefer v.sort_artist v.artist
      else if sort_type == 0x07
      then v.genre
      else if sort_type == 0x12
      then prefer v.sort_composer v.composer
      else if sort_type == 0x1d
      then prefer v.sort_show v.show_name
      else if sort_type == 0x1e
      then to_string v.season
      else if sort_type == 0x1f
      then to_string v.episode
      else if sort_type == 0x23
      then album_artist_of v
      else prefer v.sort_name v.title

  abbrev pub entry_of : ℕ → ParsedTrack → Entry
  entry_of sort_type track = (sort_fields (from_track track) sort_type, track.position)

  abbrev pub entries_with : ℕ → List ParsedTrack → Entry → List Entry
  entries_with sort_type [] new = new ∷ []
  entries_with sort_type (t ∷ ts) new = entry_of sort_type t ∷ entries_with sort_type ts new

  unfoldable pub sorted_index : List ParsedTrack → CdbTrackAddition → ℕ → Result (List Entry)
  unfolding sort_fields from_track from_addition sort_by u32_from
  sorted_index tracks addition sort_type = do
    new_position ← u32_from (length tracks)
    ok (
        sort_by compare_fields (
          entries_with sort_type tracks
            (sort_fields (from_addition addition) sort_type, new_position)))

  unfoldable pub rebuild_mhod52 : List ℕ → List ParsedTrack → CdbTrackAddition → ℕ → Result (List ℕ)
  unfolding sorted_index
  rebuild_mhod52 chunk tracks addition sort_type = do
    header ← chunk_header chunk 0 mhod
    ensure (leb 48 (length chunk - header.header_length)) (malformed_at header.header_length)
    indexed ← sorted_index tracks addition sort_type
    count ← u32_from (length indexed)
    counted ← write_u32 (take (header.header_length + 48) chunk) (header.header_length + 4) count
    output_len ← u32_from (length (counted ++ encode (positions indexed)))
    write_u32 (counted ++ encode (positions indexed)) 8 output_len

  -- the track at a position: the new one stands behind the others
  abbrev pub view_at : List ParsedTrack → CdbTrackAddition → ℕ → CdbSortView
  view_at [] addition position = from_addition addition
  view_at (t ∷ ts) addition zero = from_track t
  view_at (t ∷ ts) addition (suc position) = view_at ts addition position

  abbrev pub letters : List ParsedTrack → CdbTrackAddition → ℕ → List Entry → List ℕ
  letters tracks addition sort_type [] = []
  letters tracks addition sort_type ((fields, position) ∷ rest) =
      jump_letter u (index_letter_source (view_at tracks addition position) sort_type)
      ∷ letters tracks addition sort_type rest

  unfoldable pub rebuild_mhod53 : List ℕ → List ParsedTrack → CdbTrackAddition → ℕ → Result (List ℕ)
  unfolding sorted_index index_letter_source jump_letter group_letters
  rebuild_mhod53 chunk tracks addition sort_type = do
    header ← chunk_header chunk 0 mhod
    ensure (leb 16 (length chunk - header.header_length)) (malformed_at header.header_length)
    indexed ← sorted_index tracks addition sort_type
    groups ← group_letters 0 none [] (letters tracks addition sort_type indexed)
    count ← u32_from (length groups)
    counted ← write_u32 (take (header.header_length + 16) chunk) (header.header_length + 4) count
    output_len ← u32_from (length (counted ++ encode_groups groups))
    write_u32 (counted ++ encode_groups groups) 8 output_len
