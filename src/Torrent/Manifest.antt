-- ===== src/Torrent/Manifest.antt =====
-- internal/application/torrentmeta.go: `torrentManifest`, from a release's metadata to its files. The catalog that
-- opens the metadata is the parameter `Source`; `Shelf` holds the manifests that are stored.
pub mod Files
pub mod Whole
use filelist_streaming_servi.Base.{
  ◌*◌, ℕ, ◌+◌, ◌%◌, ◌^◌, ◌≡◌, refl, Bool, true, false, ◌||◌, Option, none, some, List, [], ◌∷◌,
  ◌++◌, Result, ok, err, ◌>>=◌, if◌then◌else◌, ◌==◌, leb, codes, length, String, lookup, Runes, ◌/◌,
}
use filelist_streaming_servi.Torrent.{
  Bytes, Node, Nodes, leaf, no_nodes, node, ReadError, At, value_of, list_of, dict_of, get_entry,
  bint, read_root, first,
}
use filelist_streaming_servi.Torrent.Paths.{safe_torrent_path, is_playable}

pub record TorrentFile : Type 0 where
  pub index : ℕ
  pub path : Bytes
  pub size_bytes : ℕ
  pub offset : ℕ  -- the bits of the `int64`
  pub playable : Bool

pub record TorrentManifest : Type 0 where
  pub release_id : String
  pub files : List TorrentFile
  pub fetched_at : ℕ

pub data ManifestError : Type 0 where
  cache_failed open_failed read_failed empty_or_large no_info bad_length unsafe_path : ManifestError
  save_failed : ManifestError
  malformed : ReadError → ManifestError

-- `OpenTorrent` and the reading of its body: all the bytes that the body has, or an error.
pub record Source : Type 0 where
  pub open_torrent : String → Result ManifestError Bytes

-- The stored manifests; `unreadable` and `read_only` make a query or a save fail.
pub record Shelf : Type 0 where
  pub manifests : List (String × TorrentManifest)
  pub unreadable : Bool
  pub read_only : Bool
  pub recode : Bytes → Bytes  -- what a path is after `json.Marshal` and `json.Unmarshal`

-- `m[key]` where a missing key gives the zero node.
unfoldable pub entry_or_zero : Bytes → Node → Node
unfolding get_entry dict_of
entry_or_zero key parent = elim (get_entry key (dict_of parent)) [
  | none ↦ leaf []
  | some found ↦ found
]

-- `strings.Join(parts, "/")` of the values of the list.
unfoldable pub join_values : Nodes → Bytes
unfolding value_of
join_values no_nodes = []
join_values (node part no_nodes) = value_of part
join_values (node part (node next parts)) = value_of part ++ (47 ∷ join_values (node next parts))

unfoldable pub file_length : Node → Result ManifestError ℕ
unfolding entry_or_zero bint
file_length row = elim (bint (entry_or_zero (codes "length") row)) [
  | none ↦ err bad_length
  | some n ↦ ok n
]

unfoldable pub file_path : Bytes → Result ManifestError Bytes
unfolding safe_torrent_path
file_path name = elim (safe_torrent_path name) [ none ↦ err unsafe_path | some path ↦ ok path ]

-- The loop over the rows of a torrent with several files.
unfoldable pub list_files : ℕ → ℕ → Nodes → Result ManifestError (List TorrentFile)
unfolding file_length file_path join_values is_playable list_of
list_files index offset no_nodes = ok []
list_files index offset (node row rows) = file_length row >>= λ size.
    file_path (join_values (list_of (entry_or_zero (codes "path") row))) >>= λ path.
    list_files (index + 1) ((offset + size) % 2 ^ 64) rows >>= λ files. ok (
      record {
        index = index;
        path = path;
        size_bytes = size;
        offset = offset;
        playable = is_playable path;
      }
      ∷ files)

unfoldable pub one_file : Node → Result ManifestError (List TorrentFile)
unfolding file_length file_path is_playable
one_file info = file_length info >>= λ size.
    file_path (value_of (entry_or_zero (codes "name") info)) >>= λ path. ok (
      record { index = 0; path = path; size_bytes = size; offset = 0; playable = is_playable path }
      ∷ [])

unfoldable pub info_files : Node → Result ManifestError (List TorrentFile)
unfolding list_files one_file
info_files info = elim (get_entry (codes "files") (dict_of info)) [
  | some multi ↦ list_files 0 0 (list_of multi)
  | none ↦ one_file info
]

unfoldable pub root_files : Node → Result ManifestError (List TorrentFile)
unfolding info_files
root_files root = elim (get_entry (codes "info") (dict_of root)) [
  | none ↦ err no_info
  | some info ↦ info_files info
]

abbrev pub data_limit : ℕ
data_limit = 2 ^ 24

unfoldable pub read_files : Result ReadError (At Node) → Result ManifestError (List TorrentFile)
unfolding root_files
read_files (err e) = err (malformed e)
read_files (ok root) = root_files root.item

unfoldable pub data_files : Bytes → Result ManifestError (List TorrentFile)
unfolding read_root read_files
data_files bytes =
    if length bytes == 0 || leb data_limit (length bytes)
    then err empty_or_large
    else read_files (read_root bytes)

-- The fetch of a manifest that is not stored; the body is read up to the limit.
unfoldable pub fetch_manifest : Source → ℕ → String → Result ManifestError TorrentManifest
unfolding data_files first
fetch_manifest source now id = source.open_torrent id >>= λ body.
    data_files (first data_limit body) >>= λ files.
    ok (record { release_id = id; files = files; fetched_at = now })

unfoldable pub recode_files : (Bytes → Bytes) → List TorrentFile → List TorrentFile
recode_files recode [] = []
recode_files recode (file ∷ files) =
    record file { path = recode file.path } ∷ recode_files recode files

-- What is read back of a stored manifest: the time in whole seconds, and the paths as the database's JSON
-- text keeps them.
unfoldable pub stored_manifest : (Bytes → Bytes) → TorrentManifest → TorrentManifest
unfolding recode_files
stored_manifest recode manifest = record manifest {
  files = recode_files recode manifest.files;
  fetched_at = manifest.fetched_at / 1_000_000_000 * 1_000_000_000;
}

unfoldable pub save_manifest :
    TorrentManifest → Shelf → Result ManifestError TorrentManifest × Shelf
unfolding stored_manifest
save_manifest manifest shelf = if shelf.read_only then (err save_failed, shelf) else (
  ok manifest,
  record shelf {
    manifests = (manifest.release_id, stored_manifest shelf.recode manifest) ∷ shelf.manifests;
  },
)

unfoldable pub torrent_manifest :
    Source → ℕ → String → Shelf → Result ManifestError TorrentManifest × Shelf
unfolding fetch_manifest save_manifest lookup
torrent_manifest source now id shelf =
    if shelf.unreadable then (err cache_failed, shelf) else elim (lookup id shelf.manifests) [
      | some manifest ↦ (ok manifest, shelf)
      | none ↦ elim (fetch_manifest source now id) [
        | err e ↦ (err e, shelf)
        | ok manifest ↦ save_manifest manifest shelf
      ]
    ]
