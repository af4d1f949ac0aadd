-- ===== src/Tests/Shows.antt =====
-- The theorem on the grouping of the catalog at two sources of a series and one of a film.
use filelist_streaming_servi.Base.{
  if◌then◌else◌, ◌==◌, ◌+◌, List, ◌≡◌, refl, true, some, [], ◌∷◌, codes, map, In, Runes, ℕ,
}
use filelist_streaming_servi.Titles.{
  Listing, Digests, CatalogTitle, catalog_title_id, group_catalog,
}
use filelist_streaming_servi.Titles.Sets.{Distinct}
use filelist_streaming_servi.Titles.Grouped.{IsTitle, group_catalog-IsGrouped}

-- A stand-in for the hash: it tells apart the keys of this test.
abbrev digests : Digests
digests = record {
  hash = λ key. elim key [ [] ↦ "" | c ∷ rest ↦ if c == 109 then "film" else "series" ];
  itoa = λ n. [];
}

abbrev listing : Runes → ℕ → ℕ → Listing
listing kind seeders season = record {
  category = codes "TV-Series HD";
  seeders = seeders;
  size_bytes = 100;
  imdb_id = [];
  uploaded_at = some seeders;
  title = codes "Title";
  sort_title = codes "title";
  kind = kind;
  year = 2001;
  season_start = season;
  season_end = season + 1;
  episode_start = 0;
  resolution = codes "1080p";
}

abbrev listings : List Listing
listings =
    listing (codes "show") 3 1 ∷ listing (codes "movie") 9 0 ∷ listing (codes "show") 5 2 ∷ []

seasons :
    map (λ (t : CatalogTitle). t.season_count) (group_catalog digests true listings) ≡ 3 ∷ 0 ∷ []
unfolding group_catalog
seasons = refl

group_catalog-IsGrouped_example :
    let titles = group_catalog digests true listings in
    Distinct (map (λ (t : CatalogTitle). t.group.id) titles)
    × ((x : Listing)
        → In x listings
        → In (catalog_title_id digests x) (map (λ (t : CatalogTitle). t.group.id) titles))
    × ((t : CatalogTitle) → In t titles → IsTitle digests true listings t)
group_catalog-IsGrouped_example = group_catalog-IsGrouped digests true listings
