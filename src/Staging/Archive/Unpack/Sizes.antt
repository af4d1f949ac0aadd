-- ===== src/Staging/Archive/Unpack/Sizes.antt =====
-- The bytes that an archive of internal/application/updates/stage.go unpacks to stay within the limit.
use filelist_streaming_servi.Base.{
  ◌+◌, ◌≤◌, ◌<◌, ◌^◌, ◌≡◌, ap, Bool, false, ◌||◌, Option, none, some, List, [], ◌∷◌, Runes, codes,
  ok, ◌==◌, ltb, runes_eq, any, All, arith, Bool-cases, Result-cases, inl, inr, guard-ok, bind-ok,
  has_prefix,
}
use filelist_streaming_servi.Release.{split}
use filelist_streaming_servi.Staging.{Limits}
use filelist_streaming_servi.Staging.Archive.{
  Target, Rules, is_bundle_name, first_path_element, mark_bundle, name_bundle, admit_member,
  admit_named, member_path, escapes, duplicate, too_many_members, empty_name, foreign_separator,
  absolute_name, clean_archive_name, trim_slash, account_size, check_link_target,
}
use filelist_streaming_servi.Staging.Archive.Unpack.{
  Host, Kind, directory, regular, special, symlink, Member, Extraction, unpack_kind, unpack_tar,
  unpack_tars, extract_tar_gz, extract_zip, new_extraction, read_link, ended, damaged_trailer,
  unreadable_member, unpack_root, unpack_zip, StreamEnd, close_stream,
}
use filelist_streaming_servi.Staging.Archive.Unpack.Steps.{state_of, check_link_target-ok}
use filelist_streaming_servi.Staging.Archive.Unpack.Bounds.{
  total_size, Fits, Fits-then, Fits-unpack_kind, Fits-open_content, account_size-ok,
}

name_bundle-expanded :
    (first : Runes) (before after : Rules)
    → name_bundle first before ≡ ok after
    → after.expanded ≡ before.expanded
unfolding name_bundle
name_bundle-expanded first before after h = ground arith

mark_bundle-expanded :
    (target : Target) (clean : Runes) (before after : Rules)
    → mark_bundle target clean before ≡ ok after
    → after.expanded ≡ before.expanded
unfolding mark_bundle
mark_bundle-expanded target clean before after h =
    elim (Bool-cases (is_bundle_name (first_path_element clean))) [
      | inl e ↦ name_bundle-expanded (first_path_element clean) before after (ground arith)
      | inr e ↦ ground arith
    ]

admit_named-expanded :
    (target : Target) (clean : Runes) (before : Rules) (r : Option Runes × Rules)
    → admit_named target clean before ≡ ok r
    → r.1.expanded ≡ before.expanded
unfolding admit_named
admit_named-expanded target clean before r h =
    let (inside, h1) = guard-ok (any (runes_eq (codes "..")) (split 47 clean)) escapes _ r h in
    let (fresh, h2) = guard-ok (any (runes_eq clean) before.seen) duplicate _ r h1 in
    let (marked, h3, h4) =
      bind-ok (mark_bundle target clean (record before { seen = clean ∷ before.seen })) _ r h2 in
    let same : marked.expanded ≡ before.expanded =
      mark_bundle-expanded target clean (record before { seen = clean ∷ before.seen }) marked h3 in
    ground arith

admit_member-expanded :
    (target : Target) (clean : Runes) (before : Rules) (r : Option Runes × Rules)
    → admit_member target clean before ≡ ok r
    → r.1.expanded ≡ before.expanded
unfolding admit_member
admit_member-expanded target clean before r h = elim (Bool-cases (runes_eq clean (codes "."))) [
  | inl e ↦ ground arith
  | inr e ↦ admit_named-expanded target clean before r (ground arith)
]

member_path-expanded :
    (target : Target) (limits : Limits) (name : Runes) (before : Rules) (r : Option Runes × Rules)
    → member_path target limits name before ≡ ok r
    → r.1.expanded ≡ before.expanded
unfolding member_path
member_path-expanded target limits name before r h =
    let (a, h1) = guard-ok (ltb limits.entries (before.entries + 1)) too_many_members _ r h in
    let (b, h2) = guard-ok (runes_eq name []) empty_name _ r h1 in
    let (c, h3) = guard-ok (any (λ d. d == 92 || d == 0) name) foreign_separator _ r h2 in
    let (d, h4) = guard-ok (has_prefix name (codes "/")) absolute_name _ r h3 in
    admit_member-expanded target (clean_archive_name name)
      (record before { entries = before.entries + 1 }) r h4

Fits-rules :
    (limits : Limits) (rules : Rules) (s : Extraction)
    → rules.expanded ≡ s.rules.expanded
    → Fits limits 0 s
    → Fits limits 0 (record s { rules = rules })
Fits-rules limits rules s e k = (omega (arith, k.0, e), omega (arith, k.1, e))

Fits-unpack_tar :
    (limits : Limits) (target : Target) (host : Host) (member : Member) (s : Extraction)
    → member.size + limits.expanded < 2 ^ 63
    → Fits limits 0 s
    → Fits limits 0 (state_of (unpack_tar host target limits member s))
unfolding unpack_tar
Fits-unpack_tar limits target host member s m k =
    elim (Result-cases (member_path target limits member.name s.rules)) [
      | inr (e, f) ↦ rw (unpack_tar, f) k
      | inl ((none, rules), f) ↦
          rw (unpack_tar, f)
            (Fits-rules limits rules s
              (member_path-expanded target limits member.name s.rules (none, rules) f) k)
      | inl ((some clean, rules), f) ↦
          rw (unpack_tar, f)
            (Fits-unpack_kind limits target host clean member.kind false member
              (record s { rules = rules }) m
              (Fits-rules limits rules s
                (member_path-expanded target limits member.name s.rules (some clean, rules) f) k))
    ]

Fits-close_stream :
    (limits : Limits) (end : StreamEnd) (s : Extraction)
    → Fits limits 0 s
    → Fits limits 0 (state_of (close_stream end s))
Fits-close_stream limits ended s k = k
Fits-close_stream limits damaged_trailer s k = k
Fits-close_stream limits unreadable_member s k = k

Fits-unpack_tars :
    (limits : Limits) (target : Target) (host : Host) (members : List Member) (end : StreamEnd)
    (s : Extraction)
    → All (λ m. m.size + limits.expanded < 2 ^ 63) members
    → Fits limits 0 s
    → Fits limits 0 (state_of (unpack_tars host target limits members end s))
unfolding unpack_tars
Fits-unpack_tars limits target host [] end s m k = Fits-close_stream limits end s k
Fits-unpack_tars limits target host (member ∷ members) end s m k =
    Fits-then limits 0 0 (unpack_tar host target limits member s)
      (unpack_tars host target limits members end) (omega arith)
      (Fits-unpack_tar limits target host member s m.0 k)
      (λ t. Fits-unpack_tars limits target host members end t m.1)

Fits-read_link :
    (limits : Limits) (kind : Kind) (locked : Bool) (s : Extraction)
    → Fits limits 0 s
    → Fits limits 0 (state_of (read_link kind locked s))
Fits-read_link limits (symlink link) locked s k = Fits-open_content limits 0 locked s k
Fits-read_link limits directory locked s k = k
Fits-read_link limits regular locked s k = k
Fits-read_link limits special locked s k = k

Fits-unpack_root :
    (limits : Limits) (target : Target) (name : Runes) (kind : Kind) (member : Member)
    (s : Extraction)
    → member.size + limits.expanded < 2 ^ 63
    → Fits limits 0 s
    → Fits limits 0 (state_of (unpack_root target limits name kind member s))
unfolding unpack_root
Fits-unpack_root limits target name (symlink link) member s m k =
    elim (Result-cases (check_link_target target (clean_archive_name name) link s.rules)) [
      | inr (e, f) ↦ rw (unpack_root, f) k
      | inl (rules, f) ↦
          rw (unpack_root, f)
            (Fits-rules limits rules s
              (ap (λ r. r.expanded)
                (check_link_target-ok target (clean_archive_name name) link s.rules rules f).0)
              k)
    ]
Fits-unpack_root limits target name regular member s m k =
    elim (Result-cases (account_size limits member.size s.rules)) [
      | inr (e, f) ↦ rw (unpack_root, f) k
      | inl (rules, f) ↦
          let sum = account_size-ok limits member.size s.rules rules m k.1 f in
          rw (unpack_root, f) (omega (arith, k.0, sum.0), sum.1)
    ]
Fits-unpack_root limits target name directory member s m k = k
Fits-unpack_root limits target name special member s m k = k

Fits-unpack_zip :
    (limits : Limits) (target : Target) (host : Host) (member : Member) (s : Extraction)
    → member.size + limits.expanded < 2 ^ 63
    → Fits limits 0 s
    → Fits limits 0 (state_of (unpack_zip host target limits member s))
unfolding unpack_zip
Fits-unpack_zip limits target host member s m k =
    elim (Result-cases (member_path target limits (trim_slash member.name) s.rules)) [
      | inr (e, f) ↦ rw (unpack_zip, f) k
      | inl ((none, rules), f) ↦
          let seen : Fits limits 0 (record s { rules = rules }) =
            Fits-rules limits rules s
              (member_path-expanded target limits (trim_slash member.name) s.rules (none, rules) f)
              k in
          rw (unpack_zip, f)
            (Fits-then limits 0 0 (read_link member.kind member.locked (record s { rules = rules }))
              (unpack_root target limits (trim_slash member.name) member.kind member) (omega arith)
              (Fits-read_link limits member.kind member.locked (record s { rules = rules }) seen)
              (λ t. Fits-unpack_root limits target (trim_slash member.name) member.kind member t m))
      | inl ((some clean, rules), f) ↦
          let seen : Fits limits 0 (record s { rules = rules }) =
            Fits-rules limits rules s
              (member_path-expanded target limits (trim_slash member.name) s.rules
                (some clean, rules) f)
              k in
          rw (unpack_zip, f)
            (Fits-then limits 0 0 (read_link member.kind member.locked (record s { rules = rules }))
              (unpack_kind host target limits clean member.kind member.locked member) (omega arith)
              (Fits-read_link limits member.kind member.locked (record s { rules = rules }) seen)
              (λ t. Fits-unpack_kind limits target host clean member.kind member.locked member t m))
    ]

Fits-extract_zip :
    (limits : Limits) (target : Target) (host : Host) (members : List Member) (s : Extraction)
    → All (λ m. m.size + limits.expanded < 2 ^ 63) members
    → Fits limits 0 s
    → Fits limits 0 (state_of (extract_zip host target limits members s))
unfolding extract_zip
Fits-extract_zip limits target host [] s m k = k
Fits-extract_zip limits target host (member ∷ members) s m k =
    Fits-then limits 0 0 (unpack_zip host target limits member s)
      (extract_zip host target limits members) (omega arith)
      (Fits-unpack_zip limits target host member s m.0 k)
      (λ t. Fits-extract_zip limits target host members t m.1)

-- Where the limit and the size of any one member sum up within an `int64`, the files that an extraction
-- writes have together at most as many bytes as the limit, whatever the archive, the file system and the
-- end.
pub extraction-bounded :
    (limits : Limits) (target : Target) (host : Host) (members : List Member) (end : StreamEnd)
    → All (λ m. m.size + limits.expanded < 2 ^ 63) members
    → (total_size (state_of (extract_tar_gz host target limits members end)).effects
        ≤ limits.expanded)
      × (total_size (state_of (extract_zip host target limits members new_extraction)).effects
          ≤ limits.expanded)
unfolding extract_tar_gz
extraction-bounded limits target host members end m =
    let start : Fits limits 0 new_extraction = (omega arith, omega arith) in
    let tar : Fits limits 0 (state_of (unpack_tars host target limits members end new_extraction)) =
      Fits-unpack_tars limits target host members end new_extraction m start in
    let zip : Fits limits 0 (state_of (extract_zip host target limits members new_extraction)) =
      Fits-extract_zip limits target host members new_extraction m start in
    (omega (arith, tar.0, tar.1), omega (arith, zip.0, zip.1))
