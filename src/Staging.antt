-- ===== src/Staging.antt =====
-- internal/application/updates/stage.go: a release archive is streamed to a file under its bound and against its
-- checksum (this file), and then unpacked under the rules of `Archive`. SHA-256 is the parameter
-- `sha256`; a reader is the data that it has ready, call by call, and how it ends.
pub mod Archive
pub mod Stream
use filelist_streaming_servi.Base.{
  ℕ, zero, suc, ◌+◌, ◌-◌, ◌*◌, Bool, true, false, not, ◌||◌, List, [], ◌∷◌, ◌++◌, Runes, Result, ok,
  err, ◌==◌, leb, ltb, if◌then◌else◌, runes_eq, to_lower, length, Option, none, some,
}
use filelist_streaming_servi.Release.Manifest.{hex_digest}
use filelist_streaming_servi.Torrent.{Bytes, first, beyond}

pub record Limits : Type 0 where
  pub compressed : ℕ
  pub expanded : ℕ
  pub entries : ℕ

pub data StageError : Type 0 where
  bad_checksum_text bad_limits no_destination no_file over_limit stream_failed no_flush : StageError
  no_close checksum_mismatch no_fuel : StageError

-- What the calls of the file system answer: a refused call is `true`.
pub record Refusals : Type 0 where
  pub make_dir : Bool
  pub create : Bool
  pub takes : Option ℕ  -- how many bytes are written before a write fails, if one does
  pub flush : Bool
  pub close : Bool

pub record Reader : Type 0 where
  pub chunks : List Bytes
  pub fails : Bool

-- How `io.Copy` ends.
pub data Ending : Type 0 where
  complete crossed broken unfinished : Ending

pub record Copied : Type 0 where
  pub written : Bytes
  pub ending : Ending

abbrev pub buffer : ℕ
buffer = 32 * 1024

-- `Read(p)` with `len(p)` = `room` at a reader whose next data is `chunk`: the data, and what is left.
unfoldable pub taken : ℕ → Bytes → Bytes
unfolding first
taken room chunk = if leb (length chunk) room then chunk else first room chunk

unfoldable pub left_over : ℕ → Bytes → List Bytes → List Bytes
unfolding beyond
left_over room chunk chunks = if leb (length chunk) room then chunks else beyond room chunk ∷ chunks

-- `boundedReader`: the `len(p)` that reaches the inner reader. `left` is `remaining + 1`, so that 0
-- stands for a crossed bound.
unfoldable pub bounded_room : ℕ → ℕ
bounded_room left = if leb left buffer then left else buffer

abbrev pub put_before : Bytes → Copied → Copied
put_before bytes copied = record copied { written = bytes ++ copied.written }

-- `io.Copy` from `boundedReader`: data that comes with an error is written before the copy ends.
unfoldable pub copy_bounded : ℕ → ℕ → List Bytes → Bool → Copied
unfolding taken left_over bounded_room
copy_bounded zero left chunks fails = record { written = []; ending = unfinished }
copy_bounded (suc fuel) zero chunks fails = record { written = []; ending = crossed }
copy_bounded (suc fuel) (suc left) [] fails = record {
  written = [];
  ending = if fails then broken else complete;
}
copy_bounded (suc fuel) (suc left) (chunk ∷ chunks) fails =
    let room = bounded_room (suc left) in
    let got = taken room chunk in
    let rest = copy_bounded fuel (suc left - length got) (left_over room chunk chunks) fails in
    if length got == suc left
    then record { written = got; ending = crossed }
    else put_before got rest

unfoldable pub same_digest : (Bytes → Runes) → Bytes → Runes → Bool
unfolding runes_eq to_lower
same_digest sha256 content expected = runes_eq (sha256 content) (to_lower expected)

-- The reads that a body can need.
unfoldable pub reads_of : List Bytes → ℕ
reads_of [] = 1
reads_of (chunk ∷ chunks) = length chunk + 1 + reads_of chunks

-- A write of the copy fails.
unfoldable pub is_full : Refusals → Bytes → Bool
is_full refusals written = elim refusals.takes [ none ↦ false | some n ↦ ltb n (length written) ]

-- A failing write ends the copy before its reader does.
unfoldable pub accept_ending : (Bytes → Runes) → Runes → Refusals → Copied → Result StageError Bytes
unfolding same_digest
accept_ending sha256 checksum refusals copied = elim copied.ending [
  | unfinished ↦ err no_fuel
  | crossed ↦ err over_limit
  | broken ↦ err stream_failed
  | complete ↦
      if refusals.flush
      then err no_flush
      else if refusals.close
      then err no_close
      else if not (same_digest sha256 copied.written checksum)
      then err checksum_mismatch
      else ok copied.written
]

unfoldable pub accept_copy : (Bytes → Runes) → Runes → Refusals → Copied → Result StageError Bytes
unfolding is_full accept_ending
accept_copy sha256 checksum refusals copied =
    if is_full refusals copied.written
    then err stream_failed
    else accept_ending sha256 checksum refusals copied

-- `StageArchive`: the content of the staged file. Every error removes the file. `sha256` gives the digest
-- in hexadecimal.
unfoldable pub stage_archive :
    (Bytes → Runes) → Runes → Limits → Refusals → Reader → Result StageError Bytes
unfolding hex_digest copy_bounded accept_copy reads_of
stage_archive sha256 checksum limits refusals body =
    if not (hex_digest checksum)
    then err bad_checksum_text
    else if limits.compressed == 0 || limits.expanded == 0 || limits.entries == 0
    then err bad_limits
    else if refusals.make_dir
    then err no_destination
    else if refusals.create
    then err no_file
    else accept_copy sha256 checksum refusals
        (copy_bounded (reads_of body.chunks) (limits.compressed + 1) body.chunks body.fails)
