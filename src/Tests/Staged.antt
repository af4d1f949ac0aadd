-- ===== src/Tests/Staged.antt =====
-- The staging theorems at a small body and at small archives.
use filelist_streaming_servi.Base.{
  ℕ, ◌^◌, ◌-◌, ◌≡◌, ◌↔◌, ◌≤◌, refl, Bool, true, false, List, [], ◌∷◌, Runes, codes, ok, arith, All,
  some,
}
use filelist_streaming_servi.Staging.{Limits, Refusals, Reader, stage_archive}
use filelist_streaming_servi.Staging.Stream.{IsStaged, stage_archive_iff}
use filelist_streaming_servi.Staging.Archive.{
  clean_archive_name, Target, account_size, new_archive_rules,
}
use filelist_streaming_servi.Staging.Archive.Unpack.{
  Host, Member, Extraction, Unpacking, going, stopped, regular, symlink, ended, extract_tar_gz,
  extract_zip, new_extraction,
}
use filelist_streaming_servi.Staging.Archive.Unpack.Steps.{Confined, state_of}
use filelist_streaming_servi.Staging.Archive.Unpack.Confined.{extraction-Confined}
use filelist_streaming_servi.Staging.Archive.Unpack.Bounds.{total_size}
use filelist_streaming_servi.Staging.Archive.Unpack.Sizes.{extraction-bounded}

abbrev digest : Runes
digest = codes "00000000000000000000000000000000000000000000000000000000000000aa"

abbrev small : Limits
small = record { compressed = 4; expanded = 100; entries = 8 }

abbrev calm : Refusals
calm = record { make_dir = false; create = false; takes = some 9; flush = false; close = false }

abbrev body : Reader
body = record { chunks = codes "ab" ∷ [] ∷ codes "cd" ∷ []; fails = false }

stage_archive_iff_example :
    (stage_archive (λ bytes. digest) digest small calm body ≡ ok (codes "abcd"))
    ↔ IsStaged (λ bytes. digest) digest small calm body (codes "abcd")
stage_archive_iff_example =
    stage_archive_iff (λ bytes. digest) digest small calm body (codes "abcd")

staged : stage_archive (λ bytes. digest) digest small calm body ≡ ok (codes "abcd")
unfolding stage_archive
staged = refl

abbrev willing : Host
willing = record { refuses = λ effects effect. false }

abbrev file : Runes → ℕ → Member
file name size = record {
  name = name;
  kind = regular;
  size = size;
  delivered = size;
  breaks = false;
  locked = false;
}

abbrev link : Runes → Runes → Member
link name text = record {
  name = name;
  kind = symlink text;
  size = 0;
  delivered = 0;
  breaks = false;
  locked = false;
}

abbrev plain : Target
plain = record { flavor = codes "headless" }

abbrev mac : Target
mac = record { flavor = codes "bundle" }

abbrev release : List Member
release = file (codes "./filelist-streaming") 60 ∷ file (codes "LICENSE") 30 ∷ []

extraction-bounded_example :
    (total_size (state_of (extract_tar_gz willing plain small release ended)).effects ≤ 100)
    × (total_size (state_of (extract_zip willing plain small release new_extraction)).effects ≤ 100)
extraction-bounded_example =
    extraction-bounded small plain willing release ended (omega arith, (omega arith, tt))

abbrev passes : Unpacking → Bool
passes (going s) = true
passes (stopped e s) = false

unpacked : passes (extract_tar_gz willing plain small release ended) ≡ true
unfolding extract_tar_gz
unpacked = refl

-- Each link stays in the bundle by its text, but the second one goes through the first: on disk it
-- leads to the directory above the extraction root, and the file is written there.
abbrev chained : List Member
chained =
    link (codes "App.app/a/b/up") (codes "../..")
    ∷ link (codes "App.app/out") (codes "a/b/up/../..")
    ∷ file (codes "App.app/out/file") 1
    ∷ []

chained_links_pass : passes (extract_tar_gz willing mac small chained ended) ≡ true
unfolding extract_tar_gz
chained_links_pass = refl

-- After a first byte, a declared size of 2^63 - 1 makes the sum negative, and it passes.
huge_size_passes :
    account_size small (2 ^ 63 - 1) (record new_archive_rules { expanded = 1 })
    ≡ ok (record new_archive_rules { expanded = 2 ^ 63 })
unfolding account_size
huge_size_passes = refl

cleaned : clean_archive_name (codes "./a//b/../c/") ≡ codes "a/c"
unfolding clean_archive_name
cleaned = refl

climbed : clean_archive_name (codes "a/../../b") ≡ codes "../b"
unfolding clean_archive_name
climbed = refl

-- A bundle with a link.
abbrev bundle : List Member
bundle =
    file (codes "App.app/a/b") 60
    ∷ link (codes "App.app/current") (codes "a/b")
    ∷ link (codes "App.app/out") (codes "../../etc")
    ∷ []

extraction-Confined_example :
    let tar : Extraction = state_of (extract_tar_gz willing mac small bundle ended) in
    let zip : Extraction = state_of (extract_zip willing mac small bundle new_extraction) in
    All (Confined mac tar.rules.bundle_name) tar.effects
    × All (Confined mac zip.rules.bundle_name) zip.effects
extraction-Confined_example = extraction-Confined mac willing small bundle ended
