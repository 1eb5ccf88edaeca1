-- ===== src/Lib.antt =====
-- libopod reads and rewrites the music database of an iPod. The part modelled here is the
-- iTunesCDB: a file with an `mhbd` header, followed by a zlib stream that unpacks to a sequence of
-- `mhsd` datasets, each a tree of chunks that begin with a magic, a header length and a total
-- length. A device is opened by inspecting the file (src/storage/binary/cdb.rs). Removing tracks
-- splits the payload into datasets, cuts tracks out of the track list, takes their items out of the
-- playlists, and renumbers the sorted indexes, jump tables and item positions that name tracks by
-- their position; the new file is packed, signed for the device and inspected again
-- (src/storage/binary/cdb_edit.rs). The signature is HASHAB (src/crypto/hashab), which runs a SHA-1
-- digest, the device's identifier and 23 random bytes through two block ciphers and a hash. Files
-- are named by paths relative to the mount root, which are validated before use
-- (src/fs/ipod_path.rs). The list of file locations carries checksums in a file of its own
-- (src/storage/binary/cbk.rs).
--
-- The files of an edit are staged on the host and installed as one transaction (src/edit/commit.rs).
-- A journal on the device names the phase and the number of outputs begun. An output that replaces a
-- file moves the original to a backup first (src/edit/commit/rename.rs). A recovery reads the journal
-- of an interrupted transaction, checks that the files are in a state that the journal allows, and
-- keeps a committed edit or moves the originals back.
--
-- Files and code:
--   Base, Base/*       shared names: Boolean tests, lists over the native numbers, slices
--   Error              `Error` and `Result` of src/error.rs, with the chains of fallible steps
--   Bytes, Bytes/Laws  the little-endian fields of both files
--   Cdb/Chunk          `require_magic`, `checked_end`, `usize_value`, `chunk_header`
--   Cdb/Header         the head of a list dataset, which two functions of cdb_edit.rs read alike
--   Cdb/Split          `split_datasets`: its cut, and where its loop makes progress
--   Cdb/Inspect        `inspect_cdb` and `decode_payload` of src/storage/binary/cdb.rs
--   Cdb/Hashab         the interface of src/crypto/hashab/mod.rs that the inspection and the checksums take
--   Cdb/Index          `rewrite_mhod52` (sorted index) and `rewrite_mhod53` (jump table)
--   Cdb/Tracks         `rewrite_track_dataset`
--   Cdb/Positions      `mhip_position` and `rewrite_mhip_position`
--   Cdb/Playlists      `rewrite_playlist` and `rewrite_playlist_dataset`
--   Cdb/Removal        `remove_tracks_from_cdb` and `finalize_cdb`: the new file, its signature, the whole,
--                      and where a removal ends
--   Cdb/Addition       src/storage/binary/cdb_add.rs: the sorted indexes and jump tables with a new track
--   Sort               src/edit/sort.rs
--   Hashab             src/crypto/hashab/mod.rs: `calculate`, `sign_database`, `verify_database_signature`
--   Hashab/Word        src/crypto/hashab/word.rs
--   Hashab/Tables      src/crypto/hashab/tables.rs, each table under its name in lower case
--   Hashab/Edonr, Hashab/Hash, Hashab/Expand, Hashab/Cipher   the files of these names
--   Hashab/Mix, Hashab/Reduce   src/crypto/hashab/reduce.rs, whose straight-line part is cut in seven
--   Hashab/Random, Digest, Signed, Chain   what signing and verifying mean
--   Hash58             src/crypto/hash58.rs: `sign_database` and `verify` of the uncompressed iTunesDB
--   IpodPath           `IpodPath::new` of src/fs/ipod_path.rs
--   Cbk                `build_hashab_cbk` and `verify_cbk` of src/storage/binary/cbk.rs
--   Commit/State       the journal of src/edit/commit.rs, the manifest, the files of each output
--   Commit/Effects     actions on that state, with every state that they pass through
--   Commit/Manifest, Install   `install_inner` of src/edit/commit.rs, and what it checks and writes
--   Commit/Replace     src/edit/commit/rename.rs: one replacement, its validation, the cleanup
--   Commit/Recover     `recover_with_failure_mode` of src/edit/commit.rs
--   Commit             `install_staged_and_open`
--   Commit/Invariant, Accepts, Cleanup, Undo, Restore, Rollback, Recovers   the states that an
--                      interruption leaves, and what each part of the recovery makes of them
--   Commit/Advance, Outputs, Installs, Safety, Open, Atomic   the same for the installation
--   Tests              small chunks, and the theorems applied to them
--
-- A byte is a number below 256, a buffer a list of bytes. A loop over a counted range recurs on
-- the count; a `while` loop takes fuel, and `none` is a run whose fuel was used up. `inspect_cdb`
-- takes one unit for each byte of the payload and one more, which is enough since each round takes
-- sixteen bytes. `split_datasets` has no such bound: see its results. The host is one with a
-- `usize` of 64 bits; sums of an offset into a buffer and a field's width do not wrap there. The
-- texts of errors are dropped, the offsets kept. zlib is a parameter: `inflate`, a
-- function from a limit and a stream to bytes or nothing, and `deflate`, from bytes to a stream or
-- nothing. Where a theorem needs it, the law is a hypothesis: what `deflate` packs, `inflate` unpacks,
-- up to the limit. SHA-1 is a parameter too, an arbitrary function;
-- the theorems of Hash58 ask that its digests have twenty bytes. The CDB code takes the HASHAB
-- operations as a record, of which the only law is that a signature of a digest has 57 bytes;
-- Hashab/Implements fills it. The words of HASHAB are numbers below 2 ^ 32, with the wrap written
-- out; an array index reads zero out of range, where the code never is. The last entry of
-- `PERMUTATION_56` has no place in the 57 bytes of a signature and is not used, there as here.
-- `remove_tracks_from_cdb` takes the fuel of `split_datasets` and hands it on.
--
-- What a text is in lower case, in NFC, or in characters, and which of these are alphanumeric, is a
-- parameter, the record `Unicode`. Strings compare by their bytes. Of an added track the model holds
-- what the indexes read.
--
-- A transaction is an action on the files of the device that records the state before each change, so
-- that an interruption, or a call of the operating system that fails, is one that stops in a recorded
-- state. A copy creates its file and then fills it; a rename is one change. Each output has a slot
-- with its target, its sibling temporary and its backup, since `validate_paths` makes these paths
-- distinct. What is written is taken to be on the device: the flushes of files and directories are
-- not modelled, and neither is a device that loses or reorders what was not flushed. SHA-256 is a
-- parameter, an arbitrary function. The journal is one of version 3 or 4 without appended artwork,
-- all outputs are verified in full, and the checks of the manifest against fixed lists of targets and
-- against the free space are left out. `is_added_media` says of an output that the generation of the
-- device does not contain its target. `read_back`, the test of the reopened library, is a parameter.
--
-- Not modelled: the rest of the additions to the iTunesCDB (src/storage/binary/cdb_add.rs), which
-- parses the tracks and writes the new one, the other databases
-- (SQLite, the uncompressed classic one, of which only the signature is), appended artwork
-- in a commit (src/edit/commit/append.rs), the preparation of an edit (src/edit/mod.rs), artwork,
-- the detection of devices, and the calls of the operating system.
pub mod Base
pub mod Bytes
pub mod Cbk
pub mod Cdb
pub mod Commit
pub mod Error
pub mod Hash58
pub mod Hashab
pub mod IpodPath
pub mod Sort
pub mod Tests
