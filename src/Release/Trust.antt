-- ===== src/Release/Trust.antt =====
-- internal/application/updates/release.go: `Resolve`, and what a selection that it returns vouches for.
use filelist_streaming_servi.Base.{
  trim_prefix, ◌≡◌, refl, Bool, true, false, not, ◌||◌, Option, none, some, List, [], ◌∷◌, ◌++◌,
  Runes, codes, Result, ok, err, ◌>>=◌, ◌>>◌, refuse_if, runes_eq, arith, subst, ap, bind-ok,
}
use filelist_streaming_servi.Release.{
  Outside, Identity, Published, Asset, Selection, ResolveError, manual_only, no_matching_release,
  untrusted_asset, checksum_manifest, self_update_capable, normalize_version, canonical_version,
  asset_name, exact_asset, is_repository_url, repository_path,
}
use filelist_streaming_servi.Release.Manifest.{manifest_digest}

need {ℓ} : {A : Type ℓ} → ResolveError → Option A → Result ResolveError A
need e none = err e
need e (some a) = ok a

-- The one asset of a name; several fail with the error given.
need_asset : ResolveError → ResolveError → List Asset → Runes → Result ResolveError Asset
unfolding exact_asset
need_asset absent several assets name = elim (exact_asset assets name) [
  | ok none ↦ err absent
  | ok (some a) ↦ ok a
  | err _ ↦ err several
]

pub download_path : Runes → Runes → Runes
download_path tag name = repository_path ++ codes "/releases/download/" ++ tag ++ codes "/" ++ name

pub page_path : Runes → Runes
page_path tag = repository_path ++ codes "/releases/tag/" ++ tag

pub is_empty : Runes → Bool
is_empty [] = true
is_empty (c ∷ s) = false

-- The checks on the release's own metadata.
check_release : Outside → Runes → Runes → Published → Result ResolveError (Unit {0})
unfolding is_repository_url page_path is_empty runes_eq
check_release out tag canonical release =
    refuse_if (release.draft || release.prerelease) no_matching_release
    >> refuse_if (not (runes_eq release.tag tag)) no_matching_release
    >> refuse_if (not (is_empty (out.prerelease canonical))) no_matching_release
    >> refuse_if (not (is_repository_url out release.url (page_path tag))) untrusted_asset

-- The end of `Resolve`: the selection.
chosen : Published → Runes → Asset → Runes → Result ResolveError Selection
unfolding trim_prefix
chosen release name asset digest = ok record {
  version = trim_prefix release.tag (codes "v");
  tag = release.tag;
  notes = release.notes;
  released_at = release.published_at;
  releases_url = release.url;
  asset_name = name;
  asset_url = asset.url;
  sha256 = digest;
}

read_digest : Published → Runes → Asset → Runes → Result ResolveError Selection
unfolding manifest_digest chosen
read_digest release name asset text = manifest_digest text name >>= chosen release name asset

use_manifest : Outside → Runes → Published → Runes → Asset → Asset → Result ResolveError Selection
unfolding is_repository_url download_path read_digest
use_manifest out tag release name asset manifest =
    refuse_if (not (is_repository_url out manifest.url (download_path tag (codes "SHA256SUMS"))))
      untrusted_asset
    >>= λ _. out.checksum_manifest manifest.url >>= read_digest release name asset

use_asset : Outside → Runes → Published → Runes → Asset → Result ResolveError Selection
unfolding is_repository_url download_path need_asset use_manifest
use_asset out tag release name asset =
    refuse_if (not (is_repository_url out asset.url (download_path tag name))) untrusted_asset
    >>= λ _.
        need_asset checksum_manifest checksum_manifest release.assets (codes "SHA256SUMS")
        >>= use_manifest out tag release name asset

use_name : Outside → Runes → Published → Runes → Result ResolveError Selection
unfolding need_asset use_asset
use_name out tag release name =
    need_asset no_matching_release untrusted_asset release.assets name
    >>= use_asset out tag release name

use_release : Outside → Identity → Runes → Runes → Published → Result ResolveError Selection
unfolding check_release need asset_name trim_prefix use_name
use_release out identity tag canonical release = check_release out tag canonical release >>= λ _.
    need manual_only (
      asset_name identity.flavor identity.goos identity.goarch
        (trim_prefix release.tag (codes "v")))
    >>= use_name out tag release

use_version : Outside → Identity → Runes → Runes → Result ResolveError Selection
unfolding use_release
use_version out identity tag canonical =
    out.latest_release >>= use_release out identity tag canonical

unfoldable pub resolve : Outside → Identity → Runes → Result ResolveError Selection
unfolding self_update_capable normalize_version canonical_version need use_version
resolve out identity hint =
    let version = normalize_version hint in
    refuse_if (not (self_update_capable out identity)) manual_only >>= λ _.
    need no_matching_release (canonical_version out version)
    >>= use_version out identity (codes "v" ++ version)

refuse-ok : (bad : Bool) (e : ResolveError) (u : Unit {0}) → refuse_if bad e ≡ ok u → bad ≡ false
refuse-ok true e u h = ground arith
refuse-ok false e u h = refl

need-ok : {A : Type 0} (e : ResolveError) (o : Option A) (a : A) → need e o ≡ ok a → o ≡ some a
unfolding need
need-ok e none a h = ground arith
need-ok e (some b) a h = ground arith

need_asset-ok :
    (absent several : ResolveError) (assets : List Asset) (name : Runes) (a : Asset)
    → need_asset absent several assets name ≡ ok a
    → exact_asset assets name ≡ ok (some a)
unfolding need_asset
need_asset-ok absent several assets name a h = ground arith

selected : Selection → Result ResolveError Selection → Selection
selected s (ok t) = t
selected s (err e) = s

not-false : (b : Bool) → not b ≡ false → b ≡ true
not-false true e = refl
not-false false e = ground arith

check_release-ok :
    (out : Outside) (tag canonical : Runes) (release : Published) (u : Unit {0})
    → check_release out tag canonical release ≡ ok u
    → ((release.draft || release.prerelease) ≡ false)
      × (runes_eq release.tag tag ≡ true)
      × (is_repository_url out release.url (page_path tag) ≡ true)
      × (is_empty (out.prerelease canonical) ≡ true)
unfolding check_release
check_release-ok out tag canonical release u h =
    (ground arith, ground arith, ground arith, ground arith)

-- What a selection vouches for: a release of the source under the announced tag, neither a draft nor marked
-- as a prerelease, whose version has no prerelease part; its page, the asset's location and the manifest's
-- location in the repository over HTTPS; the asset named for the installation and the only one of its
-- name; and a digest that the release's only manifest gives for it.
pub record IsTrusted (out : Outside) (identity : Identity) (hint : Runes) (s : Selection)
    : Type 0 where
  pub release : Published
  pub asset : Asset
  pub manifest : Asset
  pub text : Runes
  pub published : out.latest_release ≡ ok release
  pub announced : runes_eq release.tag (codes "v" ++ normalize_version hint) ≡ true
  pub tagged : s.tag ≡ release.tag
  pub stable : release.draft || release.prerelease ≡ false
  pub canonical : Runes
  pub parsed : canonical_version out (normalize_version hint) ≡ some canonical
  pub final : is_empty (out.prerelease canonical) ≡ true
  pub page :
      is_repository_url out s.releases_url (page_path (codes "v" ++ normalize_version hint)) ≡ true
  pub named : asset_name identity.flavor identity.goos identity.goarch s.version ≡ some s.asset_name
  pub only : exact_asset release.assets s.asset_name ≡ ok (some asset)
  pub located :
      (s.asset_url ≡ asset.url)
      × (is_repository_url out s.asset_url
            (download_path (codes "v" ++ normalize_version hint) s.asset_name)
          ≡ true)
  pub listed : exact_asset release.assets (codes "SHA256SUMS") ≡ ok (some manifest)
  pub manifest_located :
      is_repository_url out manifest.url
        (download_path (codes "v" ++ normalize_version hint) (codes "SHA256SUMS"))
      ≡ true
  pub fetched : out.checksum_manifest manifest.url ≡ ok text
  pub digested : manifest_digest text s.asset_name ≡ ok s.sha256

-- Whatever `Resolve` returns for an announcement is trusted: it names the announced tag of the source's
-- latest release, which is neither a draft nor marked as a prerelease and whose version has no prerelease
-- part; the page, the asset and the manifest are at their fixed locations in the repository; the asset is
-- the only one of the name for the installation; and the digest is the one that the manifest gives for it.
pub resolve-IsTrusted :
    (out : Outside) (identity : Identity) (hint : Runes) (s : Selection)
    → resolve out identity hint ≡ ok s
    → IsTrusted out identity hint s
unfolding resolve use_version use_release use_name use_asset use_manifest read_digest chosen
    selected
resolve-IsTrusted out identity hint s h =
    let version = normalize_version hint in
    let tag = codes "v" ++ version in
    let gate =
      bind-ok (refuse_if (not (self_update_capable out identity)) manual_only)
        (λ _.
          need no_matching_release (canonical_version out version) >>= use_version out identity tag)
        s h in
    let canonical =
      bind-ok (need no_matching_release (canonical_version out version))
        (use_version out identity tag) s gate.2 in
    let release =
      bind-ok out.latest_release (use_release out identity tag canonical.0) s canonical.2 in
    let r = release.0 in
    let wanted =
      need manual_only (
        asset_name identity.flavor identity.goos identity.goarch (trim_prefix r.tag (codes "v"))) in
    let checked =
      bind-ok (check_release out tag canonical.0 r) (λ _. wanted >>= use_name out tag r) s
        release.2 in
    let facts = check_release-ok out tag canonical.0 r checked.0 checked.1 in
    let name = bind-ok wanted (use_name out tag r) s checked.2 in
    let asset =
      bind-ok (need_asset no_matching_release untrusted_asset r.assets name.0)
        (use_asset out tag r name.0) s name.2 in
    let sums = need_asset checksum_manifest checksum_manifest r.assets (codes "SHA256SUMS") in
    let here =
      bind-ok
        (refuse_if (not (is_repository_url out asset.0.url (download_path tag name.0)))
          untrusted_asset)
        (λ _. sums >>= use_manifest out tag r name.0 asset.0) s asset.2 in
    let manifest = bind-ok sums (use_manifest out tag r name.0 asset.0) s here.2 in
    let there =
      bind-ok
        (refuse_if
          (not (is_repository_url out manifest.0.url (download_path tag (codes "SHA256SUMS"))))
          untrusted_asset)
        (λ _. out.checksum_manifest manifest.0.url >>= read_digest r name.0 asset.0) s manifest.2 in
    let text =
      bind-ok (out.checksum_manifest manifest.0.url) (read_digest r name.0 asset.0) s there.2 in
    let digest = bind-ok (manifest_digest text.0 name.0) (chosen r name.0 asset.0) s text.2 in
    subst (IsTrusted out identity hint) (ap (selected s) digest.2) record {
      release = r;
      asset = asset.0;
      manifest = manifest.0;
      text = text.0;
      published = release.1;
      announced = facts.1;
      tagged = refl;
      stable = facts.0;
      canonical = canonical.0;
      parsed = need-ok no_matching_release _ _ canonical.1;
      final = facts.3;
      page = facts.2;
      named = need-ok manual_only _ _ name.1;
      only = need_asset-ok no_matching_release untrusted_asset r.assets name.0 asset.0 asset.1;
      located = (refl, not-false _ (refuse-ok _ untrusted_asset _ here.1));
      listed =
          need_asset-ok checksum_manifest checksum_manifest r.assets (codes "SHA256SUMS") manifest.0
            manifest.1;
      manifest_located = not-false _ (refuse-ok _ untrusted_asset _ there.1);
      fetched = text.1;
      digested = digest.1;
    }
