-- ===== src/Tests/Updates.antt =====
-- The update theorems at an update from the executable with digest 1 to the one with digest 2, and at a
-- release with one asset for the headless ARM installation.
use filelist_streaming_servi.Base.{
  ℕ, ◌+◌, ◌≡◌, refl, ◌≢◌, true, false, Option, none, some, [], ◌∷◌, ◌++◌, Runes, codes, ok, arith,
}
use filelist_streaming_servi.Recovery.{
  Phase, staged, activated, Operation, Disk, after, activate, recover, Faults, no_faults, copied,
  is_partial,
}
use filelist_streaming_servi.Recovery.Crash.{IsPrepared, IsRepaired, recover-activate-IsRepaired}
use filelist_streaming_servi.Release.{Outside, Identity, Published, Asset, Selection, Url}
use filelist_streaming_servi.Release.Manifest.{
  manifest_digest, manifest_digest-Listed, Listed, AllReadable, lines_of,
}
use filelist_streaming_servi.Release.Trust.{resolve, IsTrusted, resolve-IsTrusted}

abbrev pub operation : Phase → Operation
operation phase = record {
  id = "op1";
  version = "1.2.0";
  phase = phase;
  prior_state = some 1;
  deadline = 90;
  suppress_next = false;
  failed_error = none;
}

abbrev pub prepared_disk : Disk
prepared_disk = record {
  live = some 1;
  backup = none;
  staged_file = some 2;
  journal = some (operation staged);
}

abbrev swapped_disk : Disk
swapped_disk = record {
  live = some 2;
  backup = some 1;
  staged_file = none;
  journal = some (operation activated);
}

prepared : IsPrepared (operation staged) 1 2 prepared_disk
prepared = record {
  live_old = refl;
  no_backup = refl;
  staged_new = refl;
  recorded = refl;
  is_staged = refl;
  prior_old = refl;
  unfailed = refl;
}

distinct : ◌≢◌ {A = ℕ} 1 2
distinct e = omega (arith, e)

recover-activate-IsRepaired_example : IsRepaired (operation staged) 1 2 "1.2.0" 50 (30 + 60) (
    recover no_faults "1.2.0" 50
      (after 3 (activate (copied (3 ∷ [])) 30 60 (operation staged)) prepared_disk))
unfolding is_partial
recover-activate-IsRepaired_example =
    recover-activate-IsRepaired (copied (3 ∷ [])) 3 30 60 (operation staged) 1 2 prepared_disk
      "1.2.0" 50 distinct prepared refl

abbrev refusing : Faults
refusing = record no_faults { rename_fails = true }

abbrev pub digest : Runes
digest = codes "0123456789abcdef0123456789abcdef0123456789abcdef0123456789abcdef"

abbrev pub file_name : Runes
file_name = codes "filelist-streaming-1.2.0-linux-armv7.tar.gz"

abbrev pub sums : Runes
sums = digest ++ codes "  *" ++ file_name

abbrev pub base : Runes
base = codes "/mihaiflorentin88/filelist-streaming-service/releases/"

-- A parser of the locations that this test meets: what follows the scheme and the host is the path.
abbrev pub parse : Runes → Option Url
parse path =
    some
      (record { scheme = codes "https"; has_user = false; host = codes "github.com"; path = path })

abbrev pub asset_at : Runes → Asset
asset_at name = record { name = name; url = base ++ codes "download/v1.2.0/" ++ name }

abbrev pub published : Published
published = record {
  tag = codes "v1.2.0";
  url = base ++ codes "tag/v1.2.0";
  notes = [];
  draft = false;
  prerelease = false;
  published_at = 7;
  assets = asset_at file_name ∷ asset_at (codes "SHA256SUMS") ∷ [];
}

abbrev pub outside : Outside
outside = record {
  is_valid = λ v. true;
  prerelease = λ v. [];
  is_greater = λ a b. true;
  parse_url = parse;
  latest_release = ok published;
  checksum_manifest = λ url. ok sums;
}

abbrev pub installation : Identity
installation = record {
  version = codes "1.1.0";
  goos = codes "linux";
  goarch = codes "arm";
  flavor = codes "headless";
}

abbrev pub selection : Selection
selection = record {
  version = codes "1.2.0";
  tag = codes "v1.2.0";
  notes = [];
  released_at = 7;
  releases_url = base ++ codes "tag/v1.2.0";
  asset_name = file_name;
  asset_url = base ++ codes "download/v1.2.0/" ++ file_name;
  sha256 = digest;
}

read : manifest_digest sums file_name ≡ ok digest
unfolding manifest_digest
read = refl

manifest_digest-Listed_example :
    Listed file_name digest (lines_of sums) × AllReadable (lines_of sums)
manifest_digest-Listed_example = manifest_digest-Listed sums file_name digest read

pub resolved : resolve outside installation (codes " v1.2.0") ≡ ok selection
unfolding resolve
resolved = refl

resolve-IsTrusted_example : IsTrusted outside installation (codes " v1.2.0") selection
resolve-IsTrusted_example =
    resolve-IsTrusted outside installation (codes " v1.2.0") selection resolved
