-- ===== src/Torrent/Manifest/Files.antt =====
-- What the files of a manifest are, whatever the metadata: `torrentManifest` of
-- internal/application/torrentmeta.go.
use filelist_streaming_servi.Base.{
  ℕ, ◌+◌, ◌<◌, ◌%◌, ◌^◌, ◌≡◌, refl, inl, inr, true, false, some, List, [], ◌∷◌, Result, ok, err,
  Bool, codes, bind-ok, guard-ok, leb, length, ◌||◌, Option-cases, arith, subst, ◌==◌,
}
use filelist_streaming_servi.Torrent.{
  Bytes, Node, Nodes, ReadError, get_entry, dict_of, At, no_nodes, node, parse_natural, parse_int,
  signed_value, value_of, list_of, read_root,
}
use filelist_streaming_servi.Torrent.Paths.{safe_torrent_path, is_playable, SafePath}
use filelist_streaming_servi.Torrent.SafePaths.{safe_torrent_path_iff}
use filelist_streaming_servi.Torrent.Manifest.{
  TorrentFile, ManifestError, empty_or_large, list_files, one_file, root_files, read_files,
  data_files, data_limit, file_length, file_path, entry_or_zero, join_values,
}

-- The files one after the other, from the index `i` and from the sum of sizes `total` on.
unfoldable pub Laid : ℕ → ℕ → List TorrentFile → Type 0
Laid i total [] = Unit
Laid i total (f ∷ files) =
    (f.index ≡ i)
    × (f.offset ≡ total % 2 ^ 64)
    × (f.size_bytes < 2 ^ 63)
    × SafePath f.path
    × (f.playable ≡ is_playable f.path)
    × Laid (i + 1) (total + f.size_bytes) files

signed_value-small :
    (negative : Bool) (s : Bytes) (sign : Bool) (n : ℕ)
    → signed_value negative s ≡ some (sign, n)
    → n < 2 ^ 63 + 1 × ((sign ≡ false) → n < 2 ^ 63)
unfolding signed_value
signed_value-small negative [] sign n e = ground arith
signed_value-small negative (c ∷ s) sign n e = ground arith

parse_int-small :
    (s : Bytes) (sign : Bool) (n : ℕ)
    → parse_int s ≡ some (sign, n)
    → n < 2 ^ 63 + 1 × ((sign ≡ false) → n < 2 ^ 63)
unfolding parse_int
parse_int-small [] sign n e = ground arith
parse_int-small (c ∷ s) sign n e = ground (
  arith,
  signed_value-small false s sign n,
  signed_value-small true s sign n,
  signed_value-small false (c ∷ s) sign n,
)

parse_natural-small : (s : Bytes) (n : ℕ) → parse_natural s ≡ some n → n < 2 ^ 63
unfolding parse_natural
parse_natural-small s n e = ground (arith, parse_int-small s true n, parse_int-small s false n)

file_length-small : (row : Node) (n : ℕ) → file_length row ≡ ok n → n < 2 ^ 63
unfolding file_length
file_length-small row n e =
    ground (arith, parse_natural-small (value_of (entry_or_zero (codes "length") row)) n)

file_path-SafePath : (name path : Bytes) → file_path name ≡ ok path → SafePath path
unfolding file_path
file_path-SafePath name path e = elim (Option-cases (safe_torrent_path name)) [
  | inl f ↦ ground arith
  | inr (q, f) ↦ (safe_torrent_path_iff path).0 (name, ground arith)
]

-- A file that the loop lists, and the ones behind it.
abbrev pub next_file : ℕ → ℕ → ℕ → Bytes → TorrentFile
next_file i total size path = record {
  index = i;
  path = path;
  size_bytes = size;
  offset = total % 2 ^ 64;
  playable = is_playable path;
}

Laid-file :
    (i total size : ℕ) (path : Bytes) (files listed : List TorrentFile)
    → ◌≡◌ {A = Result ManifestError (List TorrentFile)}
        (ok (next_file i total size path ∷ files))
        (ok listed)
    → size < 2 ^ 63
    → SafePath path
    → Laid (i + 1) (total + size) files
    → Laid i total listed
unfolding Laid
Laid-file i total size path files [] e h s l = ground arith
Laid-file i total size path files (f ∷ listed) e h s l =
    subst (Laid i total) {x = next_file i total size path ∷ files} {y = f ∷ listed} (ground arith)
      (refl, refl, h, s, refl, l)

list_files-Laid :
    (rows : Nodes) (i total : ℕ) (files : List TorrentFile)
    → list_files i (total % 2 ^ 64) rows ≡ ok files
    → Laid i total files
unfolding list_files Laid
list_files-Laid no_nodes i total [] e = tt
list_files-Laid no_nodes i total (f ∷ files) e = ground arith
list_files-Laid (node row rows) i total files e =
    let (size, e1, k1) = bind-ok (file_length row) _ files e in
    let (path, e2, k2) =
      bind-ok (file_path (join_values (list_of (entry_or_zero (codes "path") row)))) _ files k1 in
    let (others, e3, k3) =
      bind-ok (list_files (i + 1) ((total % 2 ^ 64 + size) % 2 ^ 64) rows) _ files k2 in
    let wrap : (total % 2 ^ 64 + size) % 2 ^ 64 ≡ (total + size) % 2 ^ 64 = omega arith in
    let later : Laid (i + 1) (total + size) others =
      list_files-Laid rows (i + 1) (total + size) others
        (subst (λ o. list_files (i + 1) o rows ≡ ok others) wrap e3) in
    Laid-file i total size path others files k3 (file_length-small row size e1)
      (file_path-SafePath (join_values (list_of (entry_or_zero (codes "path") row))) path e2) later

one_file-Laid : (info : Node) (files : List TorrentFile) → one_file info ≡ ok files → Laid 0 0 files
unfolding one_file Laid
one_file-Laid info files e =
    let (size, e1, k1) = bind-ok (file_length info) _ files e in
    let (path, e2, k2) =
      bind-ok (file_path (value_of (entry_or_zero (codes "name") info))) _ files k1 in
    Laid-file 0 0 size path [] files k2 (file_length-small info size e1)
      (file_path-SafePath (value_of (entry_or_zero (codes "name") info)) path e2) tt

root_files-Laid :
    (root : Node) (files : List TorrentFile) → root_files root ≡ ok files → Laid 0 0 files
unfolding root_files
root_files-Laid root files e = elim (Option-cases (get_entry (codes "info") (dict_of root))) [
  | inl f ↦ ground arith
  | inr (info, f) ↦ elim (Option-cases (get_entry (codes "files") (dict_of info))) [
    | inl g ↦ one_file-Laid info files (ground arith)
    | inr (multi, g) ↦ list_files-Laid (list_of multi) 0 0 files (ground arith)
  ]
]

read_files-Laid :
    (read : Result ReadError (At Node)) (files : List TorrentFile)
    → read_files read ≡ ok files
    → Laid 0 0 files
unfolding read_files
read_files-Laid (ok root) files e = root_files-Laid root.item files e
read_files-Laid (err f) files e = ground arith

-- Whatever bytes the catalog gives, the files of a manifest are numbered in order, each starts at the
-- sum of the sizes before it (as an `int64`), has a size that an `int64` holds and a safe path, and is
-- marked as playable by its extension.
pub data_files-Laid :
    (bytes : Bytes) (files : List TorrentFile) → data_files bytes ≡ ok files → Laid 0 0 files
unfolding data_files
data_files-Laid bytes files e =
    let (small, read) =
      guard-ok (length bytes == 0 || leb data_limit (length bytes)) empty_or_large
        (read_files (read_root bytes)) files e in
    read_files-Laid (read_root bytes) files read
