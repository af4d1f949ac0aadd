-- ===== src/Tests/Torrents.antt =====
-- The torrent theorems at a torrent with two files, `a/b.mkv` of 5 bytes and `c` of 7.
use filelist_streaming_servi.Base.{
  ℕ, ◌+◌, ◌≡◌, ◌≢◌, ◌↔◌, ◌≤◌, ◌^◌, refl, true, false, some, List, [], ◌∷◌, ◌++◌, ok, err, codes,
  arith, length, All, lookup,
}
use filelist_streaming_servi.Torrent.{
  dict, entry, leaf, list, node, no_nodes, no_entries, Bytes, read_root, slice_panic, no_fuel,
}
use filelist_streaming_servi.Torrent.Encoding.{
  Value, write, meaning, decimal, text, items, cons, end, number,
}
use filelist_streaming_servi.Torrent.RoundTrip.{read_root-write, extent}
use filelist_streaming_servi.Torrent.Termination.{read_root-ends}
use filelist_streaming_servi.Torrent.Overflow.{read_root-panic}
use filelist_streaming_servi.Torrent.Paths.{is_playable, safe_torrent_path, SafePath}
use filelist_streaming_servi.Torrent.SafePaths.{safe_torrent_path_iff}
use filelist_streaming_servi.Torrent.Manifest.{
  Source, Shelf, TorrentManifest, torrent_manifest, data_files,
}
use filelist_streaming_servi.Torrent.Manifest.Files.{Laid, data_files-Laid}
use filelist_streaming_servi.Torrent.Manifest.Whole.{
  Given, Heading, KeepsPaths, Sound, metadata, expected, torrent_manifest-metadata,
}

abbrev listing : Value
listing = items (cons (text (codes "hi")) (cons (number 7) end))

read_root-write_example :
    read_root (write listing (codes "x"))
    ≡ ok (record { item = meaning listing; pos = extent listing; rest = codes "x" })
unfolding write
read_root-write_example = read_root-write listing (codes "x") (omega arith)

read_root-ends_example : read_root (codes "lli1e") ≢ err no_fuel
read_root-ends_example = read_root-ends (codes "lli1e")

abbrev huge : ℕ
huge = 9223372036854775807

read_root-panic_example :
    (read_root (decimal huge ++ (58 ∷ codes "x")) ≡ err slice_panic)
    ↔ (2 ^ 63 ≤ length (decimal huge) + 1 + huge)
unfolding decimal
read_root-panic_example = read_root-panic huge (codes "x") (omega arith) (omega arith)

-- The crash itself, in a metadata file of 20 bytes.
panics : read_root (codes "9223372036854775807:") ≡ err slice_panic
unfolding read_root
panics = refl

safe_torrent_path_iff_example :
    ((name : Bytes) × (safe_torrent_path name ≡ some (codes "a/b"))) ↔ SafePath (codes "a/b")
safe_torrent_path_iff_example = safe_torrent_path_iff (codes "a/b")

abbrev two_files : List Given
two_files =
    record { part = codes "a"; parts = codes "b.mkv" ∷ []; size = 5 }
    ∷ record { part = codes "c"; parts = []; size = 7 }
    ∷ []

abbrev heading : Heading
heading = record {
  announce = codes "http://t/a";
  name = codes "n";
  piece_length = 16384;
  pieces = codes "0123456789abcdefghij";
}

abbrev catalog : Source
catalog = record { open_torrent = λ id. ok (write (metadata heading two_files) []) }

abbrev broken : Source
broken = record { open_torrent = λ id. ok [] }

abbrev empty_shelf : Shelf
empty_shelf = record {
  manifests = [];
  unreadable = false;
  read_only = false;
  recode = λ path. path;
}

data_files-Laid_example : Laid 0 0 (expected 0 0 two_files)
unfolding data_files expected metadata write meaning
data_files-Laid_example =
    data_files-Laid (write (metadata heading two_files) []) (expected 0 0 two_files) refl

sound : All Sound two_files
sound = ground arith

kept : KeepsPaths empty_shelf.recode (expected 0 0 two_files)
unfolding expected
kept = (refl, (refl, tt))

torrent_manifest-metadata_example :
    let manifest : TorrentManifest = record {
      release_id = "r";
      files = expected 0 0 two_files;
      fetched_at = 3_000_000_007;
    } in
    ((torrent_manifest catalog 3_000_000_007 "r" empty_shelf).0 ≡ ok manifest)
    × ((torrent_manifest broken 9 "r" (torrent_manifest catalog 3_000_000_007 "r" empty_shelf).1).0
        ≡ ok (record manifest { fetched_at = 3_000_000_000 }))
unfolding write metadata lookup
torrent_manifest-metadata_example =
    torrent_manifest-metadata heading two_files catalog broken 3_000_000_007 9 "r" empty_shelf sound
      (omega arith) refl refl refl refl kept

sample :
    read_root (codes "d1:ai12e1:bl2:hiee")
    ≡ ok (record {
      item = dict (
          entry
            (codes "a")
            (leaf (codes "12"))
            (entry (codes "b") (list (node (leaf (codes "hi")) no_nodes)) no_entries));
      pos = 18;
      rest = [];
    })
unfolding read_root
sample = refl

playable : is_playable (codes "Show.S01/e.01.MKV") ≡ true
unfolding is_playable
playable = refl

unplayable : is_playable (codes "Show.mkv/readme") ≡ false
unfolding is_playable
unplayable = refl

trimmed : safe_torrent_path (codes "\\a\\b//") ≡ some (codes "a/b")
unfolding safe_torrent_path
trimmed = refl
