-- ===== src/Tests/Additions.antt =====
-- A sorted index and a jump table of two tracks, with a third one that is added.
use libopod.Base.{ℕ, ◌≡◌, refl, true, none, some, List, [], ◌∷◌, ◌++◌}
use libopod.Base.Lists.{replicate, drop}
use libopod.Cdb.Index.Values.{encode}
use libopod.Cdb.Addition.Order.{compare_fields}
use libopod.Error.{ok, value_or}
use libopod.Bytes.{to_le_bytes, from_le_bytes, read_u32, write_u32}
use libopod.Sort.{Unicode, Text}
use libopod.Cdb.Chunk.{mhod, chunk_header, require_magic, read_usize, checked_end}
use libopod.Cdb.Addition.{
  ParsedTrack, CdbTrackAddition, rebuild_mhod52, rebuild_mhod53, encode_groups,
}
use libopod.Cdb.Addition.Rebuild.{
  IsSortedChunk, IsJumpChunk, rebuild_mhod52-IsSortedChunk, rebuild_mhod53-IsJumpChunk,
}

-- the Unicode tables, for these texts
abbrev plain : Unicode
plain = record {
  to_lowercase = λ t. t;
  trim_start = λ t. t;
  lower_nfc = λ t. t;
  chars = λ t. t;
  is_alphanumeric = λ c. true;
  first_uppercase = λ c. c;
}

abbrev track_of : ℕ → Text → ParsedTrack
track_of position title = record {
  position = position;
  persistent_id = 7;
  track_id = 52;
  artist_id_ref = 0;
  track_number = 1;
  disc_number = 1;
  season = 0;
  episode = 0;
  title = title;
  album = [];
  artist = [];
  genre = [];
  composer = [];
  album_artist = [];
  show_name = [];
  sort_name = [];
  sort_album = [];
  sort_artist = [];
  sort_album_artist = [];
  sort_composer = [];
  sort_show = [];
}

abbrev two_tracks : List ParsedTrack
two_tracks = track_of 0 (b'x' ∷ b'b' ∷ []) ∷ track_of 1 (b'c' ∷ []) ∷ []

abbrev third_track : CdbTrackAddition
third_track = record {
  title = b'x' ∷ b'a' ∷ [];
  artist = none;
  album = some (b'y' ∷ []);
  album_artist = none;
  genre = none;
  composer = none;
  track_number = 2;
  disc_number = 1;
}

abbrev index_chunk : List ℕ
index_chunk = mhod ++ to_le_bytes 4 24 ++ to_le_bytes 4 72 ++ replicate 60 0

abbrev by_title_type : ℕ
by_title_type = 0x03

abbrev rebuilt52 : List ℕ
rebuilt52 = value_or [] (rebuild_mhod52 plain index_chunk two_tracks third_track by_title_type)

rebuilds52 : rebuild_mhod52 plain index_chunk two_tracks third_track by_title_type ≡ ok rebuilt52
unfolding rebuild_mhod52 chunk_header require_magic to_le_bytes read_usize read_u32 from_le_bytes
    checked_end compare_fields write_u32
rebuilds52 = refl

-- `c`, `xa`, `xb`
positions52 : drop 72 rebuilt52 ≡ encode (1 ∷ 2 ∷ 0 ∷ [])
unfolding rebuild_mhod52 chunk_header require_magic to_le_bytes read_usize read_u32 from_le_bytes
    checked_end compare_fields write_u32
positions52 = refl

abbrev rebuilt53 : List ℕ
rebuilt53 = value_or [] (rebuild_mhod53 plain index_chunk two_tracks third_track by_title_type)

rebuilds53 : rebuild_mhod53 plain index_chunk two_tracks third_track by_title_type ≡ ok rebuilt53
unfolding rebuild_mhod53 chunk_header require_magic to_le_bytes read_usize read_u32 from_le_bytes
    checked_end compare_fields write_u32
rebuilds53 = refl

groups53 : drop 40 rebuilt53 ≡ encode_groups ((b'c', 0, 1) ∷ (b'x', 1, 2) ∷ [])
unfolding rebuild_mhod53 chunk_header require_magic to_le_bytes read_usize read_u32 from_le_bytes
    checked_end compare_fields write_u32
groups53 = refl

rebuild_mhod52-IsSortedChunk_example :
    IsSortedChunk plain two_tracks third_track by_title_type index_chunk rebuilt52
rebuild_mhod52-IsSortedChunk_example =
    rebuild_mhod52-IsSortedChunk plain index_chunk two_tracks third_track by_title_type
      (refl, (refl, tt)) rebuilds52

rebuild_mhod53-IsJumpChunk_example :
    IsJumpChunk plain two_tracks third_track by_title_type index_chunk rebuilt53
rebuild_mhod53-IsJumpChunk_example =
    rebuild_mhod53-IsJumpChunk plain index_chunk two_tracks third_track by_title_type
      (refl, (refl, tt)) rebuilds53
