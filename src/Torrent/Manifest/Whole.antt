-- ===== src/Torrent/Manifest/Whole.antt =====
-- `torrentManifest` of internal/application/torrentmeta.go from end to end: the metadata of a torrent gives its files,
-- and a manifest that is stored is given again.
use filelist_streaming_servi.Base.{
  ◌∙◌, ◌/◌, ◌*◌, ℕ, zero, suc, ◌||◌, ◌+◌, ◌<◌, ◌%◌, ◌^◌, ◌≡◌, ◌≢◌, refl, sym, ap, false, none, List,
  [], ◌∷◌, ◌++◌, ok, length, arith, All-mono, All-append, subst, codes, String, All, lookup,
  eq_refl, ◌==◌, leb,
}
use filelist_streaming_servi.Torrent.{Bytes, list_of, bint, read_root, first}
use filelist_streaming_servi.Slashes.{join, NoSlash, split-join}
use filelist_streaming_servi.Torrent.Encoding.{
  Value, Values, Fields, number, text, items, fields, end, cons, stop, field, write, meaning,
  meaning_items, parse_natural-decimal,
}
use filelist_streaming_servi.Torrent.RoundTrip.{read_root-write, extent}
use filelist_streaming_servi.Torrent.Paths.{SafePath}
use filelist_streaming_servi.Torrent.SafePaths.{SafePath-fixed, Proper}
use filelist_streaming_servi.Torrent.Manifest.{
  recode_files, stored_manifest, TorrentFile, TorrentManifest, Source, Shelf, list_files,
  data_files, file_length, file_path, entry_or_zero, join_values, torrent_manifest, fetch_manifest,
  save_manifest, data_limit,
}
use filelist_streaming_servi.Torrent.Manifest.Files.{next_file}

-- A file as the maker of the torrent gives it: the parts of its path and its size.
pub record Given : Type 0 where
  pub part : Bytes
  pub parts : List Bytes
  pub size : ℕ

abbrev part_texts : List Bytes → Values
part_texts [] = end
part_texts (p ∷ ps) = cons (text p) (part_texts ps)

abbrev row : Given → Value
row g = fields (
    field (codes "length") (number g.size)
      (field (codes "path") (items (cons (text g.part) (part_texts g.parts))) stop))

abbrev rows : List Given → Values
rows [] = end
rows (g ∷ gs) = cons (row g) (rows gs)

-- The other entries of the metadata.
pub record Heading : Type 0 where
  pub announce : Bytes
  pub name : Bytes
  pub piece_length : ℕ
  pub pieces : Bytes

abbrev root_fields : Heading → List Given → Fields
root_fields heading gs =
    let info = field (codes "files") (items (rows gs)) (
      field (codes "name") (text heading.name) (
        field (codes "piece length") (number heading.piece_length)
          (field (codes "pieces") (text heading.pieces) stop))) in
    field (codes "announce") (text heading.announce) (field (codes "info") (fields info) stop)

-- The metadata of a torrent with these files: the tracker, and the file list with the name and the pieces.
unfoldable pub metadata : Heading → List Given → Value
metadata heading gs = fields (root_fields heading gs)

-- The parts are proper names without a separator, and the size fits an `int64`.
abbrev pub Sound : Given → Type 0
Sound g =
    All (λ p. Proper p × All (λ c. (c ≢ 47) × (c ≢ 92)) p) (g.part ∷ g.parts) × (g.size < 2 ^ 63)

unfoldable pub expected : ℕ → ℕ → List Given → List TorrentFile
expected i total [] = []
expected i total (g ∷ gs) =
    next_file i total g.size (join g.part g.parts) ∷ expected (i + 1) (total + g.size) gs

abbrev Clean : Bytes → Type 0
Clean p = All (λ c. (c ≢ 47) × (c ≢ 92)) p

All-Clean : (p : Bytes) (ps : List Bytes) → All Clean (p ∷ ps) → All (λ c. c ≢ 92) (join p ps)
All-Clean p [] a = All-mono _ _ p (λ c h. h.1) a.0
All-Clean p (q ∷ ps) a =
    All-append (λ c. c ≢ 92) p (47 ∷ join q ps) (All-mono _ _ p (λ c h. h.1) a.0)
      (λ h. omega (arith, h), All-Clean q ps a.1)

SafePath-join : (g : Given) → Sound g → SafePath (join g.part g.parts)
unfolding SafePath
SafePath-join g s =
    let proper : All Proper (g.part ∷ g.parts) = All-mono _ _ (g.part ∷ g.parts) (λ p h. h.0) s.0 in
    let clean : All Clean (g.part ∷ g.parts) = All-mono _ _ (g.part ∷ g.parts) (λ p h. h.1) s.0 in
    (
      subst (All Proper)
          (sym (
            split-join g.part g.parts (
              All-mono Clean NoSlash (g.part ∷ g.parts) (λ p h. All-mono _ _ p (λ c k. k.0) h)
                clean)))
          proper,
      All-Clean g.part g.parts clean,
    )

join_values-texts :
    (p : Bytes) (ps : List Bytes)
    → join_values (meaning_items (cons (text p) (part_texts ps))) ≡ join p ps
unfolding join_values meaning
join_values-texts p [] = refl
join_values-texts p (q ∷ ps) = ap (λ s. p ++ (47 ∷ s)) (join_values-texts q ps)

file_length-row : (g : Given) → Sound g → file_length (meaning (row g)) ≡ ok g.size
unfolding file_length meaning
file_length-row g s = rw (file_length, bint, parse_natural-decimal g.size s.1) refl

file_path-row :
    (g : Given)
    → Sound g
    → file_path (join_values (list_of (entry_or_zero (codes "path") (meaning (row g)))))
      ≡ ok (join g.part g.parts)
unfolding file_path meaning entry_or_zero list_of
file_path-row g s =
    rw
      (
        join_values-texts g.part g.parts,
        file_path,
        SafePath-fixed (join g.part g.parts) (SafePath-join g s),
      )
      refl

list_files-rows :
    (gs : List Given) (i total : ℕ)
    → All Sound gs
    → list_files i (total % 2 ^ 64) (meaning_items (rows gs)) ≡ ok (expected i total gs)
unfolding list_files meaning expected
list_files-rows [] i total a = refl
list_files-rows (g ∷ gs) i total a =
    let wrap : (total % 2 ^ 64 + g.size) % 2 ^ 64 ≡ (total + g.size) % 2 ^ 64 = omega arith in
    rw
      (
        list_files,
        file_length-row g a.0,
        file_path-row g a.0,
        wrap,
        list_files-rows gs (i + 1) (total + g.size) a.1,
      )
      refl

first-all : (n : ℕ) (bytes : Bytes) → length bytes < n → first n bytes ≡ bytes
unfolding first
first-all zero bytes h = absurd (omega arith)
first-all (suc n) [] h = refl
first-all (suc n) (b ∷ bytes) h = ap (λ s. b ∷ s) (first-all n bytes (omega arith))

fits :
    (bytes : Bytes)
    → 0 < length bytes
    → length bytes < data_limit
    → (length bytes == 0 || leb data_limit (length bytes)) ≡ false
fits bytes p h = ground arith

write-nonempty : (entries : Fields) → 0 < length (write (fields entries) [])
unfolding write
write-nonempty entries = omega arith

data_files-metadata :
    (heading : Heading) (gs : List Given)
    → All Sound gs
    → length (write (metadata heading gs) []) < data_limit
    → data_files (write (metadata heading gs) []) ≡ ok (expected 0 0 gs)
unfolding data_files metadata meaning
data_files-metadata heading gs a h =
    let bytes : Bytes = write (metadata heading gs) [] in
    let e : (length bytes == 0 || leb data_limit (length bytes)) ≡ false =
      fits bytes (write-nonempty (root_fields heading gs)) h in
    let f : read_root bytes
        ≡ ok (record {
          item = meaning (metadata heading gs);
          pos = extent (metadata heading gs);
          rest = [];
        }) =
      read_root-write (metadata heading gs) [] (omega (arith, h)) in
    rw (data_files, e, f) (list_files-rows gs 0 0 a)

fetch_manifest-metadata :
    (heading : Heading) (gs : List Given) (source : Source) (now : ℕ) (id : String)
    → All Sound gs
    → length (write (metadata heading gs) []) < data_limit
    → source.open_torrent id ≡ ok (write (metadata heading gs) [])
    → fetch_manifest source now id
      ≡ ok (record { release_id = id; files = expected 0 0 gs; fetched_at = now })
unfolding fetch_manifest
fetch_manifest-metadata heading gs source now id a h opened =
    rw
      (
        fetch_manifest,
        opened,
        first-all data_limit (write (metadata heading gs) []) h,
        data_files-metadata heading gs a h,
      )
      refl

-- A manifest that could be fetched is stored.
torrent_manifest-fetched :
    (manifest : TorrentManifest) (source : Source) (now : ℕ) (id : String) (shelf : Shelf)
    → fetch_manifest source now id ≡ ok manifest
    → shelf.unreadable ≡ false
    → shelf.read_only ≡ false
    → lookup id shelf.manifests ≡ none
    → torrent_manifest source now id shelf ≡ (
      ok manifest,
      record shelf {
        manifests = (manifest.release_id, stored_manifest shelf.recode manifest) ∷ shelf.manifests;
      },
    )
unfolding torrent_manifest save_manifest
torrent_manifest-fetched manifest source now id shelf fetched readable writable absent =
    simp (torrent_manifest, readable, absent, fetched, save_manifest, writable)

torrent_manifest-stored :
    (manifest : TorrentManifest) (source : Source) (now : ℕ) (id : String) (shelf : Shelf)
    → shelf.unreadable ≡ false
    → (torrent_manifest source now id
        (record shelf { manifests = (id, manifest) ∷ shelf.manifests })).0
      ≡ ok manifest
unfolding torrent_manifest lookup
torrent_manifest-stored manifest source now id shelf readable =
    rw (torrent_manifest, readable, lookup, eq_refl id) refl

-- The encoding of a path keeps it, as it does where the path is UTF-8.
abbrev pub KeepsPaths : (Bytes → Bytes) → List TorrentFile → Type 0
KeepsPaths recode files = All (λ f. recode f.path ≡ f.path) files

recode_files-kept :
    (recode : Bytes → Bytes) (files : List TorrentFile)
    → KeepsPaths recode files
    → recode_files recode files ≡ files
unfolding recode_files
recode_files-kept recode [] h = refl
recode_files-kept recode (f ∷ files) h =
    rw (recode_files, h.0, recode_files-kept recode files h.1) refl

-- The metadata of a torrent with several files, which holds the tracker, and in its `info` the files, each
-- with its length and path, the name, the piece length and the pieces, bencoded in fewer than 16 MiB,
-- gives exactly the files: their paths, their sizes, and the offsets where each begins. The manifest is
-- stored, and where the encoding of the database keeps the paths, the next call returns the same files,
-- with the time of the fetch in whole seconds, whatever the catalog then answers and whatever the time.
pub torrent_manifest-metadata :
    (heading : Heading) (gs : List Given) (source later : Source) (now after : ℕ) (id : String)
    (shelf : Shelf)
    → All Sound gs
    → length (write (metadata heading gs) []) < data_limit
    → source.open_torrent id ≡ ok (write (metadata heading gs) [])
    → shelf.unreadable ≡ false
    → shelf.read_only ≡ false
    → lookup id shelf.manifests ≡ none
    → KeepsPaths shelf.recode (expected 0 0 gs)
    → let manifest : TorrentManifest = record {
      release_id = id;
      files = expected 0 0 gs;
      fetched_at = now;
    } in
      let again : TorrentManifest = record manifest {
        fetched_at = now / 1_000_000_000 * 1_000_000_000;
      } in
      ((torrent_manifest source now id shelf).0 ≡ ok manifest)
      × ((torrent_manifest later after id (torrent_manifest source now id shelf).1).0 ≡ ok again)
unfolding torrent_manifest stored_manifest
torrent_manifest-metadata heading gs source later now after id shelf a h opened readable writable
      absent keeps =
    let manifest : TorrentManifest = record {
      release_id = id;
      files = expected 0 0 gs;
      fetched_at = now;
    } in
    let stored : TorrentManifest = stored_manifest shelf.recode manifest in
    let e : torrent_manifest source now id shelf
        ≡ (ok manifest, record shelf { manifests = (id, stored) ∷ shelf.manifests }) =
      torrent_manifest-fetched manifest source now id shelf
        (fetch_manifest-metadata heading gs source now id a h opened) readable writable absent in
    let same : stored ≡ record manifest { fetched_at = now / 1_000_000_000 * 1_000_000_000 } =
      ap
        (λ (files : List TorrentFile). record manifest {
          files = files;
          fetched_at = now / 1_000_000_000 * 1_000_000_000;
        })
        (recode_files-kept shelf.recode (expected 0 0 gs) keeps) in
    (
      ap (λ r. r.0) e,
      subst (λ r. (torrent_manifest later after id r.1).0 ≡ ok stored) (sym e)
            (torrent_manifest-stored stored later after id shelf readable)
          ∙ ap (λ (m : TorrentManifest). ok m) same,
    )
