-- ===== src/Release.antt =====
-- internal/application/updates/version.go and release.go: from the announced version to the exact release
-- asset and its checksum. `golang.org/x/mod/semver`, `net/url` and the metadata source are the parameter
-- `Outside`; a text is the list of its code points.
pub mod Manifest
pub mod Trust
use filelist_streaming_servi.Base.{
  trim_prefix, ℕ, zero, suc, ◌+◌, ◌≡◌, Bool, true, false, not, ◌&&◌, ◌||◌, Option, none, some, List,
  [], ◌∷◌, ◌++◌, Runes, codes, Result, ok, err, ◌>>=◌, ◌>>◌, refuse_if, leb, ltb, ◌==◌,
  if◌then◌else◌, runes_eq, trim_space, has_prefix, keep, length,
}

pub record Url : Type 0 where
  pub scheme : Runes
  pub has_user : Bool
  pub host : Runes
  pub path : Runes

pub record Asset : Type 0 where
  pub name : Runes
  pub url : Runes

pub record Published : Type 0 where
  pub tag : Runes
  pub url : Runes
  pub notes : Runes
  pub draft : Bool
  pub prerelease : Bool
  pub published_at : ℕ
  pub assets : List Asset

pub record Identity : Type 0 where
  pub version : Runes
  pub goos : Runes
  pub goarch : Runes
  pub flavor : Runes

pub data ResolveError : Type 0 where
  manual_only no_matching_release untrusted_asset checksum_manifest source_failed : ResolveError

-- What the resolver calls outside this repository. A call of the source without an answer is an error.
pub record Outside : Type 0 where
  pub is_valid : Runes → Bool  -- semver.IsValid
  pub prerelease : Runes → Runes  -- semver.Prerelease
  pub is_greater : Runes → Runes → Bool  -- semver.Compare(a, b) > 0
  pub parse_url : Runes → Option Url
  pub latest_release : Result ResolveError Published
  pub checksum_manifest : Runes → Result ResolveError Runes

pub record Selection : Type 0 where
  pub version : Runes
  pub tag : Runes
  pub notes : Runes
  pub released_at : ℕ
  pub releases_url : Runes
  pub asset_name : Runes
  pub asset_url : Runes
  pub sha256 : Runes

-- `strings.Split` at a one-rune separator; the text before the first one stands first.
unfoldable pub push_rune : ℕ → List Runes → List Runes
push_rune c [] = (c ∷ []) ∷ []
push_rune c (s ∷ parts) = (c ∷ s) ∷ parts

unfoldable pub split : ℕ → Runes → List Runes
unfolding push_rune
split sep [] = [] ∷ []
split sep (c ∷ s) = let rest = split sep s in if c == sep then [] ∷ rest else push_rune c rest

unfoldable pub normalize_version : Runes → Runes
unfolding trim_space trim_prefix
normalize_version version = trim_prefix (trim_space version) (codes "v")

is_digit : ℕ → Bool
is_digit c = leb 48 c && leb c 57

all_digits : Runes → Bool
unfolding is_digit
all_digits [] = true
all_digits (c ∷ s) = is_digit c && all_digits s

is_numeric : Runes → Bool
unfolding all_digits
is_numeric [] = false
is_numeric (c ∷ s) = all_digits (c ∷ s)

-- The core: the text before the first `-` or `+`.
unfoldable pub core : Runes → Runes
core [] = []
core (c ∷ s) = if c == 45 || c == 43 then [] else c ∷ core s

unfoldable pub full_release_core : Runes → Bool
unfolding core split is_numeric
full_release_core version = elim (split 46 (core version)) [
  | a ∷ b ∷ c ∷ [] ↦ is_numeric a && (is_numeric b && is_numeric c)
  | _ ↦ false
]

unfoldable pub canonical_version : Outside → Runes → Option Runes
unfolding full_release_core
canonical_version out [] = none
canonical_version out (c ∷ version) =
    let canonical = codes "v" ++ (c ∷ version) in
    if not (out.is_valid canonical) || not (full_release_core (c ∷ version))
    then none
    else some canonical

unfoldable pub self_update_capable : Outside → Identity → Bool
unfolding canonical_version normalize_version
self_update_capable out identity =
    elim (canonical_version out (normalize_version identity.version)) [
      | none ↦ false
      | some _ ↦ true
    ]

-- `IsNewer`: none where one of the versions is no release version.
unfoldable pub is_newer : Outside → Runes → Runes → Option Bool
unfolding canonical_version normalize_version
is_newer out current candidate = elim (canonical_version out (normalize_version current)) [
  | none ↦ none
  | some a ↦ elim (canonical_version out (normalize_version candidate)) [
    | none ↦ none
    | some b ↦ some (out.is_greater b a)
  ]
]

is_desktop : Runes → Bool
is_desktop goarch = runes_eq goarch (codes "amd64") || runes_eq goarch (codes "arm64")

unfoldable pub asset_name : Runes → Runes → Runes → Runes → Option Runes
unfolding is_desktop runes_eq
asset_name flavor goos goarch version =
    let base = codes "filelist-streaming-" ++ version ++ codes "-" in
    let gui = runes_eq flavor (codes "gui") in
    if runes_eq goos (codes "linux")
    then (if gui
        then (if is_desktop goarch
            then some (base ++ codes "linux-" ++ goarch ++ codes ".tar.gz")
            else none)
        else if runes_eq flavor (codes "headless")
        then (if is_desktop goarch
            then some (base ++ codes "linux-" ++ goarch ++ codes "-headless.tar.gz")
            else if runes_eq goarch (codes "arm")
            then some (base ++ codes "linux-armv7.tar.gz")
            else none)
        else none)
    else if runes_eq goos (codes "windows")
    then (if gui && is_desktop goarch
        then some (base ++ codes "windows-" ++ goarch ++ codes ".zip")
        else none)
    else if runes_eq goos (codes "darwin")
    then (if gui
        then (if is_desktop goarch
            then some (base ++ codes "darwin-" ++ goarch ++ codes ".tar.gz")
            else none)
        else if runes_eq flavor (codes "bundle")
        then some (base ++ codes "darwin-universal.zip")
        else none)
    else none

-- `exactAsset`: the one asset of the name, none, or an error for several.
unfoldable pub exact_asset : List Asset → Runes → Result ResolveError (Option Asset)
unfolding runes_eq
exact_asset assets name = elim (keep (λ a. runes_eq a.name name) assets) [
  | [] ↦ ok none
  | a ∷ [] ↦ ok (some a)
  | _ ∷ _ ∷ _ ↦ err untrusted_asset
]

unfoldable pub is_repository_url : Outside → Runes → Runes → Bool
unfolding runes_eq
is_repository_url out url path = elim (out.parse_url url) [
  | none ↦ false
  | some u ↦
      runes_eq u.scheme (codes "https")
      && (not u.has_user && (runes_eq u.host (codes "github.com") && runes_eq u.path path))
]

abbrev pub repository_path : Runes
repository_path = codes "/mihaiflorentin88/filelist-streaming-service"
