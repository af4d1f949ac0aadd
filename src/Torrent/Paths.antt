-- ===== src/Torrent/Paths.antt =====
-- internal/application/torrentmeta.go: `safeTorrentPath` and `isPlayable`. A path is the list of its bytes.
use filelist_streaming_servi.Base.{
  ℕ, ◌+◌, ◌≢◌, Bool, true, false, ◌&&◌, ◌||◌, Option, none, some, List, [], ◌∷◌, map, if◌then◌else◌,
  ◌==◌, leb, runes_eq, codes, any, All,
}
use filelist_streaming_servi.Release.{split}
use filelist_streaming_servi.Torrent.{Bytes}

-- `strings.ReplaceAll(path, "\\", "/")`.
unfoldable pub with_slashes : Bytes → Bytes
with_slashes = map λ c. if c == 92 then 47 else c

-- `strings.Trim(path, "/")`.
unfoldable pub trim_front : Bytes → Bytes
trim_front [] = []
trim_front (c ∷ s) = if c == 47 then trim_front s else c ∷ s

unfoldable pub trim_end : Bytes → Bytes
trim_end [] = []
trim_end (c ∷ s) = elim (trim_end s) [ [] ↦ if c == 47 then [] else c ∷ [] | d ∷ t ↦ c ∷ d ∷ t ]

unfoldable pub is_bad_part : Bytes → Bool
unfolding runes_eq
is_bad_part part = runes_eq part [] || runes_eq part (codes ".") || runes_eq part (codes "..")

-- The tests behind the two replacements.
unfoldable pub accept_path : Bytes → Option Bytes
unfolding is_bad_part split
accept_path [] = none
accept_path (c ∷ s) = if any is_bad_part (split 47 (c ∷ s)) then none else some (c ∷ s)

unfoldable pub safe_torrent_path : Bytes → Option Bytes
unfolding with_slashes trim_front trim_end accept_path
safe_torrent_path name = accept_path (trim_end (trim_front (with_slashes name)))

-- `filepath.Ext` from the front: what stands from the last `.` of the last element on.
unfoldable pub extension_after : Bytes → Bytes → Bytes
extension_after found [] = found
extension_after found (c ∷ s) =
    if c == 47
    then extension_after [] s
    else if c == 46
    then extension_after (c ∷ s) s
    else extension_after found s

-- `strings.ToLower` of a UTF-8 text where the result is ASCII: the capital letters, U+0130 and the
-- Kelvin sign. No other letter has an ASCII lower case.
lower_byte : ℕ → ℕ
lower_byte c = if leb 65 c && leb c 90 then c + 32 else c

unfoldable pub lower_text : Bytes → Bytes
unfolding lower_byte
lower_text [] = []
lower_text (c ∷ []) = lower_byte c ∷ []
lower_text (c ∷ d ∷ []) =
    if c == 0xc4 && d == 0xb0 then 105 ∷ [] else lower_byte c ∷ lower_text (d ∷ [])
lower_text (c ∷ d ∷ e ∷ s) = elim (c == 0xc4 && d == 0xb0) [
  | true ↦ 105 ∷ lower_text (e ∷ s)
  | false ↦ elim (c == 0xe2 && (d == 0x84 && e == 0xaa)) [
    | true ↦ 107 ∷ lower_text s
    | false ↦ lower_byte c ∷ lower_text (d ∷ e ∷ s)
  ]
]

abbrev pub playable_extensions : List Bytes
playable_extensions =
    codes ".mkv"
    ∷ codes ".mp4"
    ∷ codes ".avi"
    ∷ codes ".mov"
    ∷ codes ".m4v"
    ∷ codes ".webm"
    ∷ codes ".ts"
    ∷ codes ".mp3"
    ∷ codes ".m4a"
    ∷ codes ".flac"
    ∷ codes ".ogg"
    ∷ codes ".opus"
    ∷ []

unfoldable pub is_playable : Bytes → Bool
unfolding extension_after lower_text runes_eq
is_playable path = any (runes_eq (lower_text (extension_after [] path))) playable_extensions

-- Every part of a path is a proper name, and the path has no backslash.
unfoldable pub SafePath : Bytes → Type 0
unfolding split
SafePath path =
    All (λ part. (part ≢ []) × (part ≢ codes ".") × (part ≢ codes "..")) (split 47 path)
    × All (λ c. c ≢ 92) path
