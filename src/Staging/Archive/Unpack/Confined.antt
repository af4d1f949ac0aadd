-- ===== src/Staging/Archive/Unpack/Confined.antt =====
-- Where the extraction of internal/application/updates/stage.go writes: below the extraction root, by names alone,
-- and for a macOS bundle inside its one directory. Other archives place no link.
use filelist_streaming_servi.Base.{
  ◌≡◌, ◌≢◌, refl, sym, ap, Bool, true, false, none, some, List, [], ◌∷◌, Runes, Result, ok, All,
  All-mono, subst, Result-cases, inl, inr,
}
use filelist_streaming_servi.Release.{split}
use filelist_streaming_servi.Staging.{Limits}
use filelist_streaming_servi.Staging.Archive.{
  ArchiveError, Target, Rules, member_path, clean_archive_name, trim_slash, refused, account_size,
  check_link_target,
}
use filelist_streaming_servi.Staging.Archive.Unpack.{
  make_dir, Host, Kind, directory, regular, special, symlink, Member, Extraction, Unpacking, going,
  stopped, ◌then_go◌, checked, unpack_kind, unpack_tar, unpack_tars, extract_tar_gz, extract_zip,
  new_extraction, read_link, ended, damaged_trailer, unreadable_member, unpack_root, unpack_zip,
  StreamEnd, close_stream,
}
use filelist_streaming_servi.Staging.Archive.Unpack.Steps.{
  Below, Confined, state_of, Keeps, Named, Confined-renamed, Keeps-then, Keeps-ask_host,
  Keeps-checked, Keeps-unpack_regular, Keeps-unpack_link, account_size-bundle, check_link_target-ok,
}
use filelist_streaming_servi.Staging.Archive.Unpack.Members.{member_path-Below, member_path-root}

-- The invariant of the loops.
abbrev Inv : Target → Extraction → Type 0
Inv target s = Keeps target s.rules.bundle_name s

Keeps-Inv : (target : Target) (b : Runes) (s : Extraction) → Keeps target b s → Inv target s
Keeps-Inv target b s k = (refl, subst (λ c. All (Confined target c) s.effects) (sym k.0) k.1)

Inv-rules :
    (target : Target) (rules : Rules) (s : Extraction)
    → Named s.rules.bundle_name rules.bundle_name
    → Inv target s
    → Inv target (record s { rules = rules })
Inv-rules target rules s n k = (
  refl,
  All-mono _ _ s.effects
      (λ e c. Confined-renamed target s.rules.bundle_name rules.bundle_name e n c) k.1,
)

Keeps-unpack_kind :
    (target : Target) (b : Runes) (host : Host) (limits : Limits) (clean : Runes) (kind : Kind)
    (locked : Bool) (member : Member) (s : Extraction)
    → Below target b (split 47 clean)
    → Keeps target b s
    → Keeps target b (state_of (unpack_kind host target limits clean kind locked member s))
unfolding unpack_kind
Keeps-unpack_kind target b host limits clean directory locked member s d k =
    Keeps-ask_host target b host (make_dir (split 47 clean)) s d k
Keeps-unpack_kind target b host limits clean regular locked member s d k =
    Keeps-unpack_regular target b host limits (split 47 clean) locked member s d k
Keeps-unpack_kind target b host limits clean (symlink link) locked member s d k =
    Keeps-unpack_link target b host clean link s d k
Keeps-unpack_kind target b host limits clean special locked member s d k = k

Inv-unpack_kind :
    (target : Target) (host : Host) (limits : Limits) (clean : Runes) (kind : Kind) (locked : Bool)
    (member : Member) (s : Extraction)
    → Below target s.rules.bundle_name (split 47 clean)
    → Inv target s
    → Inv target (state_of (unpack_kind host target limits clean kind locked member s))
Inv-unpack_kind target host limits clean kind locked member s d k =
    Keeps-Inv target s.rules.bundle_name
      (state_of (unpack_kind host target limits clean kind locked member s))
      (Keeps-unpack_kind target s.rules.bundle_name host limits clean kind locked member s d k)

Inv-then :
    (target : Target) (q : Unpacking) (f : Extraction → Unpacking)
    → Inv target (state_of q)
    → ((s : Extraction) → Inv target s → Inv target (state_of (f s)))
    → Inv target (state_of (q then_go f))
Inv-then target (going s) f k h = h s k
Inv-then target (stopped e s) f k h = k

Inv-checked-stopped :
    (target : Target) (r : Result ArchiveError Rules) (s : Extraction)
    → ((rules : Rules) → r ≡ ok rules → rules.bundle_name ≡ s.rules.bundle_name)
    → Inv target s
    → Inv target (state_of (checked r s then_go stopped refused))
Inv-checked-stopped target r s h k =
    Inv-then target (checked r s) (stopped refused)
      (Keeps-Inv target s.rules.bundle_name (state_of (checked r s))
        (Keeps-checked target s.rules.bundle_name r s h k))
      (λ t i. i)

Inv-unpack_tar :
    (target : Target) (host : Host) (limits : Limits) (member : Member) (s : Extraction)
    → Inv target s
    → Inv target (state_of (unpack_tar host target limits member s))
unfolding unpack_tar
Inv-unpack_tar target host limits member s k =
    elim (Result-cases (member_path target limits member.name s.rules)) [
      | inr (e, f) ↦ rw (unpack_tar, f) k
      | inl ((none, rules), f) ↦
          rw (unpack_tar, f)
            (Inv-rules target rules s
              (λ n. member_path-root target limits member.name s.rules rules f) k)
      | inl ((some clean, rules), f) ↦
          let (below, named) = member_path-Below target limits member.name clean s.rules rules f in
          rw (unpack_tar, f)
            (Inv-unpack_kind target host limits clean member.kind false member
              (record s { rules = rules }) below (Inv-rules target rules s named k))
    ]

Inv-close_stream :
    (target : Target) (end : StreamEnd) (s : Extraction)
    → Inv target s
    → Inv target (state_of (close_stream end s))
Inv-close_stream target ended s k = k
Inv-close_stream target damaged_trailer s k = k
Inv-close_stream target unreadable_member s k = k

Inv-unpack_tars :
    (target : Target) (host : Host) (limits : Limits) (members : List Member) (end : StreamEnd)
    (s : Extraction)
    → Inv target s
    → Inv target (state_of (unpack_tars host target limits members end s))
unfolding unpack_tars
Inv-unpack_tars target host limits [] end s k = Inv-close_stream target end s k
Inv-unpack_tars target host limits (member ∷ members) end s k =
    Inv-then target (unpack_tar host target limits member s)
      (unpack_tars host target limits members end) (Inv-unpack_tar target host limits member s k)
      (λ t. Inv-unpack_tars target host limits members end t)

Keeps-read_link :
    (target : Target) (b : Runes) (kind : Kind) (locked : Bool) (s : Extraction)
    → Keeps target b s
    → Keeps target b (state_of (read_link kind locked s))
Keeps-read_link target b (symlink link) true s k = k
Keeps-read_link target b (symlink link) false s k = k
Keeps-read_link target b directory locked s k = k
Keeps-read_link target b regular locked s k = k
Keeps-read_link target b special locked s k = k

Inv-unpack_root :
    (target : Target) (limits : Limits) (name : Runes) (kind : Kind) (member : Member)
    (s : Extraction)
    → Inv target s
    → Inv target (state_of (unpack_root target limits name kind member s))
unfolding unpack_root
Inv-unpack_root target limits name (symlink link) member s k =
    Inv-checked-stopped target (check_link_target target (clean_archive_name name) link s.rules) s
      (λ r e.
        ap (λ x. x.bundle_name)
          (check_link_target-ok target (clean_archive_name name) link s.rules r e).0)
      k
Inv-unpack_root target limits name regular member s k =
    Inv-checked-stopped target (account_size limits member.size s.rules) s
      (λ r e. account_size-bundle limits member.size s.rules r e) k
Inv-unpack_root target limits name directory member s k = k
Inv-unpack_root target limits name special member s k = k

-- A member of a zip whose target, if it is a link, is read first.
Inv-linked :
    (target : Target) (host : Host) (limits : Limits) (clean : Runes) (member : Member)
    (s : Extraction)
    → Below target s.rules.bundle_name (split 47 clean)
    → Inv target s
    → Inv target (
        state_of (
          read_link member.kind member.locked s
          then_go unpack_kind host target limits clean member.kind member.locked member))
Inv-linked target host limits clean member s d k =
    Keeps-Inv target s.rules.bundle_name
      (state_of (
        read_link member.kind member.locked s
        then_go unpack_kind host target limits clean member.kind member.locked member))
      (Keeps-then target s.rules.bundle_name (read_link member.kind member.locked s)
        (unpack_kind host target limits clean member.kind member.locked member)
        (Keeps-read_link target s.rules.bundle_name member.kind member.locked s k)
        (λ t.
          Keeps-unpack_kind target s.rules.bundle_name host limits clean member.kind member.locked
            member t d))

Inv-unpack_zip :
    (target : Target) (host : Host) (limits : Limits) (member : Member) (s : Extraction)
    → Inv target s
    → Inv target (state_of (unpack_zip host target limits member s))
unfolding unpack_zip
Inv-unpack_zip target host limits member s k =
    elim (Result-cases (member_path target limits (trim_slash member.name) s.rules)) [
      | inr (e, f) ↦ rw (unpack_zip, f) k
      | inl ((none, rules), f) ↦
          let named = λ (n : s.rules.bundle_name ≢ []).
            member_path-root target limits (trim_slash member.name) s.rules rules f in
          rw (unpack_zip, f)
            (Inv-then target (read_link member.kind member.locked (record s { rules = rules }))
              (unpack_root target limits (trim_slash member.name) member.kind member)
              (Keeps-Inv target rules.bundle_name
                (state_of (read_link member.kind member.locked (record s { rules = rules })))
                (Keeps-read_link target rules.bundle_name member.kind member.locked
                  (record s { rules = rules }) (Inv-rules target rules s named k)))
              (Inv-unpack_root target limits (trim_slash member.name) member.kind member))
      | inl ((some clean, rules), f) ↦
          let (below, named) =
            member_path-Below target limits (trim_slash member.name) clean s.rules rules f in
          rw (unpack_zip, f)
            (Inv-linked target host limits clean member (record s { rules = rules }) below
              (Inv-rules target rules s named k))
    ]

Inv-extract_zip :
    (target : Target) (host : Host) (limits : Limits) (members : List Member) (s : Extraction)
    → Inv target s
    → Inv target (state_of (extract_zip host target limits members s))
unfolding extract_zip
Inv-extract_zip target host limits [] s k = k
Inv-extract_zip target host limits (member ∷ members) s k =
    Inv-then target (unpack_zip host target limits member s)
      (extract_zip host target limits members) (Inv-unpack_zip target host limits member s k)
      (λ t. Inv-extract_zip target host limits members t)

-- Whatever the archive holds, whatever the file system refuses and however the extraction ends, each
-- directory, file and link that it makes is reached from the extraction root by names alone (no empty one,
-- no `.`, no `..`, none with a slash); in an archive of the bundle flavor the first name is that of the
-- archive's one bundle, in another it is no bundle's and no link is made; a link is relative, and its text,
-- followed by names alone, leads from its directory to a place below its own first name, the bundle.
pub extraction-Confined :
    (target : Target) (host : Host) (limits : Limits) (members : List Member) (end : StreamEnd)
    → let tar : Extraction = state_of (extract_tar_gz host target limits members end) in
      let zip : Extraction = state_of (extract_zip host target limits members new_extraction) in
      All (Confined target tar.rules.bundle_name) tar.effects
      × All (Confined target zip.rules.bundle_name) zip.effects
unfolding extract_tar_gz
extraction-Confined target host limits members end = (
  (Inv-unpack_tars target host limits members end new_extraction (refl, tt)).1,
  (Inv-extract_zip target host limits members new_extraction (refl, tt)).1,
)
