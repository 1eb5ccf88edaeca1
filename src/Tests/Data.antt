-- ===== src/Tests/Data.antt =====
-- Small chunks in the format of the iTunesCDB, for the tests.
use libopod.Base.{refl, none}
use libopod.Error.{ok}
use libopod.Cdb.Hashab.{Hashab}
use libopod.Base.{ℕ, zero, suc, ◌%◌, ◌/◌, List, [], ◌∷◌, ◌++◌}
use libopod.Base.Lists.{take}
use libopod.Cdb.Chunk.{mhbd, mhlp, mhyp, mhip, mhod, mhsd, mhlt, mhit}

abbrev pub zeros : ℕ → List ℕ
zeros zero = []
zeros (suc n) = 0 ∷ zeros n

abbrev pub le32 : ℕ → List ℕ
le32 v = v % 256 ∷ v / 256 ∷ 0 ∷ 0 ∷ []

-- a sorted index of type 52, with a header of twelve bytes
abbrev pub index_chunk : ℕ → ℕ → List ℕ → List ℕ
index_chunk total count entries =
    mhod ++ le32 12 ++ le32 total ++ zeros 4 ++ le32 count ++ zeros 40 ++ entries

-- three tracks in the order third, first, second
abbrev pub sorted_before : List ℕ
sorted_before = index_chunk 72 3 (le32 2 ++ le32 0 ++ le32 1)

-- the same without the second
abbrev pub sorted_after : List ℕ
sorted_after = index_chunk 68 2 (le32 1 ++ le32 0)

abbrev pub jump_chunk : ℕ → ℕ → List ℕ → List ℕ
jump_chunk total count entries =
    mhod ++ le32 12 ++ le32 total ++ zeros 4 ++ le32 count ++ zeros 8 ++ entries

-- two letters: the first slot, then two slots
abbrev pub jump_before : List ℕ
jump_before = jump_chunk 52 2 (le32 65 ++ le32 0 ++ le32 1 ++ le32 66 ++ le32 1 ++ le32 2)

-- the first letter is gone
abbrev pub jump_after : List ℕ
jump_after = jump_chunk 40 1 (le32 66 ++ le32 0 ++ le32 2)

-- a track of 120 bytes
abbrev pub track : ℕ → ℕ → List ℕ
track track_id persistent_id =
    mhit
    ++ le32 120
    ++ le32 120
    ++ zeros 4
    ++ le32 track_id
    ++ zeros 92
    ++ le32 persistent_id
    ++ zeros 4

abbrev pub track_dataset : ℕ → ℕ → List ℕ → List ℕ
track_dataset total count tracks =
    mhsd ++ le32 16 ++ le32 total ++ le32 1 ++ mhlt ++ le32 12 ++ le32 count ++ tracks

abbrev pub tracks_before : List ℕ
tracks_before = track_dataset 268 2 (track 7 1000 ++ track 8 2000)

abbrev pub tracks_after : List ℕ
tracks_after = track_dataset 148 1 (track 8 2000)

-- two datasets of sixteen bytes
abbrev pub payload : List ℕ
payload = mhsd ++ le32 16 ++ le32 16 ++ le32 1 ++ mhsd ++ le32 16 ++ le32 16 ++ le32 2

-- the second one says that it is empty
abbrev pub zero_length_payload : List ℕ
zero_length_payload = mhsd ++ le32 16 ++ le32 16 ++ le32 1 ++ mhsd ++ le32 16 ++ le32 0 ++ le32 2

-- a signature that is all zeros
abbrev pub unsigned : Hashab
unsigned = record {
  sign_database = λ database guid. ok database;
  verify_database_signature = λ database guid. none;
  calculate = λ digest guid. zeros 57;
  length-calculate = λ digest guid. refl;
}

-- a short digest in place of SHA-1: the first twenty bytes, with zeros behind
abbrev pub digest : List ℕ → List ℕ
digest bytes = take 20 (bytes ++ zeros 20)

abbrev pub guid : List ℕ
guid = 9 ∷ zeros 7

-- a header of 228 bytes, for a file of `total` bytes with two datasets
abbrev pub file_header : ℕ → List ℕ
file_header total =
    mhbd ++ le32 228 ++ le32 total ++ zeros 8 ++ le32 2 ++ zeros 144 ++ (1 ∷ 0 ∷ []) ++ zeros 58

-- an item of a playlist, with a child that carries its position
abbrev pub item : ℕ → ℕ → List ℕ
item track_id value =
    mhip
    ++ le32 52
    ++ le32 96
    ++ le32 1
    ++ zeros 8
    ++ le32 track_id
    ++ zeros 16
    ++ zeros 8
    ++ mhod
    ++ le32 24
    ++ le32 44
    ++ le32 100
    ++ zeros 8
    ++ le32 value
    ++ zeros 16

-- a playlist with a sorted index, over the given items
abbrev pub playlist : ℕ → ℕ → List ℕ → List ℕ → List ℕ
playlist total count index items =
    mhyp ++ le32 20 ++ le32 total ++ le32 1 ++ le32 count ++ index ++ items

abbrev pub playlist_dataset : ℕ → List ℕ → List ℕ
playlist_dataset total playlists =
    mhsd ++ le32 16 ++ le32 total ++ le32 2 ++ mhlp ++ le32 12 ++ le32 1 ++ playlists

-- a sorted index as a child: its kind stands behind the chunk's lengths
abbrev pub child_index : ℕ → ℕ → List ℕ → List ℕ
child_index total count entries =
    mhod
    ++ le32 24
    ++ le32 total
    ++ le32 52
    ++ zeros 8
    ++ zeros 4
    ++ le32 count
    ++ zeros 40
    ++ entries

abbrev pub playlist_before : List ℕ
playlist_before = playlist 292 2 (child_index 80 2 (le32 1 ++ le32 0)) (item 7 5 ++ item 8 6)

abbrev pub playlist_after : List ℕ
playlist_after = playlist 192 1 (child_index 76 1 (le32 0)) (item 8 5)
