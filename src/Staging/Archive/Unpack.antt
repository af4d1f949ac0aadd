-- ===== src/Staging/Archive/Unpack.antt =====
-- internal/application/updates/stage.go: `extractTarGz` and `extractZip`. What an archive reader finds is given member
-- by member; `Host` says which calls of the file system are refused, after any calls. Permission bits
-- are not modelled.
pub mod Steps
pub mod Members
pub mod Bounds
pub mod Sizes
pub mod Confined
use filelist_streaming_servi.Base.{
  ℕ, ◌+◌, ◌≡◌, Bool, true, false, Option, none, some, List, [], ◌∷◌, ◌++◌, Runes, Result, ok, err,
  ◌>>=◌, ◌==◌, leb, ltb, if◌then◌else◌, not,
}
use filelist_streaming_servi.Release.{split}
use filelist_streaming_servi.Staging.{Limits}
use filelist_streaming_servi.Staging.Archive.{
  ArchiveError, not_regular, refused, short_member, broken_member, truncated, unreadable, Target,
  Rules, new_archive_rules, member_path, account_size, check_link_target, clean_archive_name,
  trim_slash,
}

-- What the extraction asks of the file system; a path lists the names below the extraction root.
pub data DiskEffect : Type 0 where
  make_dir : List Runes → DiskEffect
  write_file : List Runes → ℕ → DiskEffect
  make_link : List Runes → Runes → DiskEffect

pub record Host : Type 0 where
  pub refuses : List DiskEffect → DiskEffect → Bool

pub data Kind : Type 0 where
  directory regular special : Kind
  symlink : Runes → Kind

-- A member: `size` is the declared size, `delivered` counts the bytes that its content has, `breaks` says
-- that an error follows them, and `locked` that its content cannot be opened.
pub record Member : Type 0 where
  pub name : Runes
  pub kind : Kind
  pub size : ℕ
  pub delivered : ℕ
  pub breaks : Bool
  pub locked : Bool

pub record Extraction : Type 0 where
  pub rules : Rules
  pub effects : List DiskEffect  -- the last one first

abbrev pub new_extraction : Extraction
new_extraction = record { rules = new_archive_rules; effects = [] }

-- A step goes on, or stops the extraction with an error.
pub data Unpacking : Type 0 where
  going : Extraction → Unpacking
  stopped : ArchiveError → Extraction → Unpacking

infixl 5 ◌then_go◌
abbrev pub ◌then_go◌ : Unpacking → (Extraction → Unpacking) → Unpacking
going s then_go f = f s
stopped e s then_go f = stopped e s

unfoldable pub ask_host : Host → DiskEffect → Extraction → Unpacking
ask_host host effect s =
    if host.refuses s.effects effect
    then stopped refused s
    else going (record s { effects = effect ∷ s.effects })

-- A check that changes the rules.
abbrev pub checked : Result ArchiveError Rules → Extraction → Unpacking
checked (ok rules) s = going (record s { rules = rules })
checked (err e) s = stopped e s

-- `filepath.Dir(dest)`: the directory of a destination.
unfoldable pub parent : List Runes → List Runes
parent [] = []
parent (p ∷ []) = []
parent (p ∷ q ∷ ps) = p ∷ parent (q ∷ ps)

-- `writeFileVerified` after the file is open: `countingLimitReader` passes at most the declared size on.
unfoldable pub stream_member : Member → Extraction → Unpacking
stream_member member s =
    if ltb member.delivered member.size
    then (if member.breaks then stopped broken_member s else stopped short_member s)
    else going s

unfoldable pub write_file_verified : Host → List Runes → Member → Extraction → Unpacking
unfolding ask_host stream_member
write_file_verified host dest member s =
    ask_host host (write_file dest member.size) s then_go stream_member member

abbrev pub open_content : Bool → Extraction → Unpacking
open_content true s = stopped unreadable s
open_content false s = going s

-- A regular file; `locked` is false in a tar stream, whose content needs no opening.
unfoldable pub unpack_regular : Host → Limits → List Runes → Bool → Member → Extraction → Unpacking
unfolding ask_host write_file_verified account_size parent
unpack_regular host limits dest locked member s =
    checked (account_size limits member.size s.rules) s
    then_go ask_host host (make_dir (parent dest))
    then_go open_content locked
    then_go write_file_verified host dest member

unfoldable pub unpack_link : Host → Target → Runes → Runes → Extraction → Unpacking
unfolding ask_host check_link_target parent split
unpack_link host target clean link s =
    checked (check_link_target target clean link s.rules) s
    then_go ask_host host (make_dir (parent (split 47 clean)))
    then_go ask_host host (make_link (split 47 clean) link)

-- The switch over the kinds of a member.
unfoldable pub unpack_kind :
    Host → Target → Limits → Runes → Kind → Bool → Member → Extraction → Unpacking
unfolding unpack_regular unpack_link ask_host split
unpack_kind host target limits clean directory locked member s =
    ask_host host (make_dir (split 47 clean)) s
unpack_kind host target limits clean regular locked member s =
    unpack_regular host limits (split 47 clean) locked member s
unpack_kind host target limits clean (symlink link) locked member s =
    unpack_link host target clean link s
unpack_kind host target limits clean special locked member s = stopped not_regular s

-- One round of the loop of `extractTarGz`.
unfoldable pub unpack_tar : Host → Target → Limits → Member → Extraction → Unpacking
unfolding member_path unpack_kind
unpack_tar host target limits member s = elim (member_path target limits member.name s.rules) [
  | err e ↦ stopped e s
  | ok (none, rules) ↦ going (record s { rules = rules })
  | ok (some clean, rules) ↦
      unpack_kind host target limits clean member.kind false member (record s { rules = rules })
]

-- How the stream of members ends: well, with a damaged trailer, or with a member that cannot be read.
pub data StreamEnd : Type 0 where
  ended damaged_trailer unreadable_member : StreamEnd

abbrev pub close_stream : StreamEnd → Extraction → Unpacking
close_stream ended s = going s
close_stream damaged_trailer s = stopped truncated s
close_stream unreadable_member s = stopped unreadable s

unfoldable pub unpack_tars :
    Host → Target → Limits → List Member → StreamEnd → Extraction → Unpacking
unfolding unpack_tar
unpack_tars host target limits [] end s = close_stream end s
unpack_tars host target limits (member ∷ members) end s =
    unpack_tar host target limits member s then_go unpack_tars host target limits members end

unfoldable pub extract_tar_gz : Host → Target → Limits → List Member → StreamEnd → Unpacking
unfolding unpack_tars
extract_tar_gz host target limits members end =
    unpack_tars host target limits members end new_extraction

-- `readZipSymlink` before the checks of a link.
abbrev pub read_link : Kind → Bool → Extraction → Unpacking
read_link (symlink link) locked s = open_content locked s
read_link _ locked s = going s

-- The archive root in a zip: its destination is the empty path, which no call accepts.
unfoldable pub unpack_root : Target → Limits → Runes → Kind → Member → Extraction → Unpacking
unfolding account_size check_link_target
unpack_root target limits name (symlink link) member s =
    checked (check_link_target target (clean_archive_name name) link s.rules) s
    then_go stopped refused
unpack_root target limits name special member s = stopped not_regular s
unpack_root target limits name directory member s = stopped refused s
unpack_root target limits name regular member s =
    checked (account_size limits member.size s.rules) s then_go stopped refused

-- One round of the loop of `extractZip`; the link's target is the member's content.
unfoldable pub unpack_zip : Host → Target → Limits → Member → Extraction → Unpacking
unfolding member_path unpack_kind unpack_root trim_slash
unpack_zip host target limits member s =
    let name = trim_slash member.name in
    elim (member_path target limits name s.rules) [
      | err e ↦ stopped e s
      | ok (none, rules) ↦
          read_link member.kind member.locked (record s { rules = rules })
          then_go unpack_root target limits name member.kind member
      | ok (some clean, rules) ↦
          read_link member.kind member.locked (record s { rules = rules })
          then_go unpack_kind host target limits clean member.kind member.locked member
    ]

unfoldable pub extract_zip : Host → Target → Limits → List Member → Extraction → Unpacking
unfolding unpack_zip
extract_zip host target limits [] s = going s
extract_zip host target limits (member ∷ members) s =
    unpack_zip host target limits member s then_go extract_zip host target limits members
