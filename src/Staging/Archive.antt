-- ===== src/Staging/Archive.antt =====
-- internal/application/updates/stage.go: `archiveRules`, the rules that every archive member passes before it is
-- unpacked. A name is the list of its bytes; a destination is the list of the names that lead to it from
-- the extraction root. An `int64` is its bits.
pub mod Names
pub mod Unpack
use mathlib.Core.List.{reverse}
use filelist_streaming_servi.Base.{
  ℕ, zero, suc, ◌+◌, ◌%◌, ◌^◌, ◌≡◌, refl, Bool, true, false, not, ◌&&◌, ◌||◌, Option, none, some,
  List, [], ◌∷◌, ◌++◌, Runes, codes, Result, ok, err, ◌>>=◌, ◌==◌, leb, ltb, if◌then◌else◌,
  runes_eq, has_prefix, trim_prefix, any,
}
use filelist_streaming_servi.Release.{split}
use filelist_streaming_servi.Slashes.{join}
use filelist_streaming_servi.Staging.{Limits}

pub data ArchiveError : Type 0 where
  too_many_members empty_name foreign_separator absolute_name escapes duplicate : ArchiveError
  outside_bundle stray_bundle second_bundle negative_size size_limit : ArchiveError
  link_outside_bundle absolute_link link_escapes not_regular unreadable truncated : ArchiveError
  refused short_member broken_member : ArchiveError

-- The elements that `path.Clean` keeps of a relative path, the last one first.
unfoldable pub step_up : List Runes → List Runes
unfolding runes_eq
step_up [] = codes ".." ∷ []
step_up (top ∷ stack) = if runes_eq top (codes "..") then codes ".." ∷ top ∷ stack else stack

unfoldable pub clean_stack : List Runes → List Runes → List Runes
unfolding step_up
clean_stack stack [] = stack
clean_stack stack (part ∷ parts) =
    clean_stack
      (if runes_eq part [] || runes_eq part (codes ".")
        then stack
        else if runes_eq part (codes "..")
        then step_up stack
        else part ∷ stack)
      parts

abbrev pub text_of : List Runes → Runes
text_of [] = codes "."
text_of (p ∷ ps) = join p ps

-- `path.Clean` of a path that does not begin with a slash.
unfoldable pub path_clean : Runes → Runes
unfolding clean_stack split
path_clean name = text_of (reverse (clean_stack [] (split 47 name)))

-- `strings.TrimSuffix(name, "/")`.
unfoldable pub trim_slash : Runes → Runes
trim_slash [] = []
trim_slash (c ∷ []) = if c == 47 then [] else c ∷ []
trim_slash (c ∷ d ∷ s) = c ∷ trim_slash (d ∷ s)

unfoldable pub clean_archive_name : Runes → Runes
unfolding path_clean trim_slash trim_prefix
clean_archive_name name = trim_prefix (path_clean (trim_slash name)) (codes "./")

unfoldable pub first_path_element : Runes → Runes
first_path_element [] = []
first_path_element (c ∷ s) = if c == 47 then [] else c ∷ first_path_element s

-- `strings.HasSuffix(name, ".app")`.
unfoldable pub is_bundle_name : Runes → Bool
unfolding has_prefix
is_bundle_name name = has_prefix (reverse name) (reverse (codes ".app"))

-- `Target`, as far as the rules read it.
pub record Target : Type 0 where
  pub flavor : Runes

unfoldable pub is_bundle : Target → Bool
unfolding runes_eq
is_bundle target = runes_eq target.flavor (codes "bundle")

pub record Rules : Type 0 where
  pub seen : List Runes
  pub expanded : ℕ  -- the bits of the `int64`
  pub bundle_name : Runes
  pub entries : ℕ

abbrev pub new_archive_rules : Rules
new_archive_rules = record { seen = []; expanded = 0; bundle_name = []; entries = 0 }

-- The end of `markBundle`: the first bundle is the archive's.
unfoldable pub name_bundle : Runes → Rules → Result ArchiveError Rules
unfolding runes_eq
name_bundle first rules =
    let name = if runes_eq rules.bundle_name [] then first else rules.bundle_name in
    if not (runes_eq name first)
    then err second_bundle
    else ok (record rules { bundle_name = name })

unfoldable pub mark_bundle : Target → Runes → Rules → Result ArchiveError Rules
unfolding first_path_element is_bundle_name is_bundle name_bundle
mark_bundle target clean rules =
    if not (is_bundle_name (first_path_element clean))
    then (if is_bundle target then err outside_bundle else ok rules)
    else if not (is_bundle target)
    then err stray_bundle
    else name_bundle (first_path_element clean) rules

-- The end of `memberPath`, at the cleaned name; none for the archive root.
unfoldable pub admit_named : Target → Runes → Rules → Result ArchiveError (Option Runes × Rules)
unfolding mark_bundle split
admit_named target clean rules =
    if any (runes_eq (codes "..")) (split 47 clean)
    then err escapes
    else if any (runes_eq clean) rules.seen
    then err duplicate
    else mark_bundle target clean (record rules { seen = clean ∷ rules.seen }) >>= λ marked.
        ok (some clean, marked)

unfoldable pub admit_member : Target → Runes → Rules → Result ArchiveError (Option Runes × Rules)
unfolding admit_named
admit_member target clean rules =
    if runes_eq clean (codes ".") then ok (none, rules) else admit_named target clean rules

-- `memberPath`: the cleaned name, from which the destination is made; none for the archive root.
unfoldable pub member_path :
    Target → Limits → Runes → Rules → Result ArchiveError (Option Runes × Rules)
unfolding admit_member clean_archive_name
member_path target limits name rules =
    if ltb limits.entries (rules.entries + 1)
    then err too_many_members
    else if runes_eq name []
    then err empty_name
    else if any (λ c. c == 92 || c == 0) name
    then err foreign_separator
    else if has_prefix name (codes "/")
    then err absolute_name
    else admit_member target (clean_archive_name name)
        (record rules { entries = rules.entries + 1 })

-- `accountSize`; the sum of two `int64` wraps, and a negative one is below every limit.
unfoldable pub account_size : Limits → ℕ → Rules → Result ArchiveError Rules
account_size limits size rules =
    let sum = (rules.expanded + size) % 2 ^ 64 in
    if leb (2 ^ 63) size
    then err negative_size
    else if ltb sum (2 ^ 63) && ltb limits.expanded sum
    then err size_limit
    else ok (record rules { expanded = sum })

-- `path.Dir`: the text up to the last slash, cleaned.
has_slash : Runes → Bool
has_slash [] = false
has_slash (c ∷ s) = c == 47 || has_slash s

unfoldable pub before_last_slash : Runes → Runes
unfolding has_slash
before_last_slash [] = []
before_last_slash (c ∷ s) = if has_slash (c ∷ s) then c ∷ before_last_slash s else []

-- `path.Join` of two names, the first one not empty.
unfoldable pub path_join : Runes → Runes → Runes
unfolding path_clean
path_join dir [] = path_clean dir
path_join dir (c ∷ s) = path_clean (dir ++ (47 ∷ c ∷ s))

-- The place that a link leads to, by names alone, is not in the member's first directory.
unfoldable pub is_outside : Runes → Runes → Bool
unfolding first_path_element path_join before_last_slash path_clean runes_eq
is_outside member link =
    let resolved = path_clean (path_join (path_clean (before_last_slash member)) link) in
    runes_eq resolved (codes ".")
    || not (runes_eq (first_path_element resolved) (first_path_element member))

unfoldable pub check_link_target : Target → Runes → Runes → Rules → Result ArchiveError Rules
unfolding first_path_element is_bundle_name is_bundle is_outside
check_link_target target member link rules =
    if not (is_bundle target) || not (is_bundle_name (first_path_element member))
    then err link_outside_bundle
    else if has_prefix link (codes "/")
    then err absolute_link
    else if is_outside member link
    then err link_escapes
    else ok rules
