-- ===== src/Titles.antt =====
-- internal/application/catalog.go, `groupCatalog`: the sources of the catalog grouped into titles, in the
-- order in which the titles come up first. The hash of a title's key and the digits of a year are the
-- parameter `Digests`. The source keeps the maps of a title beside it; here they are one `Group`.
pub mod Sets
pub mod Grouped
pub mod Groups
pub mod Summary
use filelist_streaming_servi.Base.{
  ℕ, zero, suc, ◌+◌, ◌-◌, Bool, true, false, ◌&&◌, Option, none, some, List, [], ◌∷◌, ◌++◌, Runes,
  codes, String, ltb, leb, ◌==◌, if◌then◌else◌, runes_eq, str_eq, to_lower, map, length, keep, not,
  sort,
}
use filelist_streaming_servi.Retention.{compare_runes, is_before}

-- A catalog source: the fields of its release and of the parsed name.
pub record Listing : Type 0 where
  pub category : Runes
  pub seeders : ℕ
  pub size_bytes : ℕ
  pub imdb_id : Runes
  pub uploaded_at : Option ℕ
  pub title : Runes
  pub sort_title : Runes
  pub kind : Runes
  pub year : ℕ
  pub season_start : ℕ
  pub season_end : ℕ
  pub episode_start : ℕ
  pub resolution : Runes

pub record Digests : Type 0 where
  pub hash : Runes → String  -- the encoded prefix of SHA-256
  pub itoa : ℕ → Runes

unfoldable pub catalog_title_id : Digests → Listing → String
unfolding runes_eq to_lower
catalog_title_id env x =
    if runes_eq x.imdb_id []
    then env.hash (x.kind ++ (0 ∷ (x.sort_title ++ (0 ∷ env.itoa x.year))))
    else env.hash (x.kind ++ (0 ∷ (codes "imdb:" ++ to_lower x.imdb_id)))

-- The title under construction, with its sets in the order of their first insertion.
pub record Group : Type 0 where
  pub id : String
  pub title : Runes
  pub kind : Runes
  pub year : ℕ
  pub imdb_id : Runes
  pub source_count : ℕ
  pub largest_size_bytes : ℕ
  pub best_seeders : ℕ
  pub newest_upload : Option ℕ
  pub categories : List Runes
  pub resolutions : List Runes
  pub seasons : List ℕ
  pub episodes : List (ℕ × ℕ)
  pub sources : List Listing

unfoldable pub new_group : String → Listing → Group
new_group id x = record {
  id = id;
  title = x.title;
  kind = x.kind;
  year = x.year;
  imdb_id = x.imdb_id;
  source_count = 0;
  largest_size_bytes = 0;
  best_seeders = 0;
  newest_upload = none;
  categories = [];
  resolutions = [];
  seasons = [];
  episodes = [];
  sources = [];
}

-- The insertion into a set, given the test for equality.
unfoldable pub put_in {ℓ} : {A : Type ℓ} → (A → A → Bool) → A → List A → List A
put_in eq a [] = a ∷ []
put_in eq a (b ∷ set) = if eq b a then b ∷ set else b ∷ put_in eq a set

unfoldable pub set_non_empty : Runes → List Runes → List Runes
unfolding put_in runes_eq
set_non_empty value set = if runes_eq value [] then set else put_in runes_eq value set

unfoldable pub later : Option ℕ → Option ℕ → Option ℕ
later none newest = newest
later (some at) none = some at
later (some at) (some newest) = if ltb newest at then some at else some newest

unfoldable pub larger : ℕ → ℕ → ℕ
larger a b = if ltb b a then a else b

-- The numbers from `start` on, `count` of them.
unfoldable pub put_range : ℕ → ℕ → List ℕ → List ℕ
unfolding put_in
put_range start zero set = set
put_range start (suc count) set = put_range (suc start) count (put_in ◌==◌ start set)

abbrev pub pair_eq : ℕ × ℕ → ℕ × ℕ → Bool
pair_eq (a, b) (c, d) = a == c && b == d

unfoldable pub put_seasons : Listing → List ℕ → List ℕ
unfolding put_range larger
put_seasons x set =
    if ltb 0 x.season_start
    then put_range x.season_start (suc (larger x.season_end x.season_start) - x.season_start) set
    else set

unfoldable pub put_episode : Listing → List (ℕ × ℕ) → List (ℕ × ℕ)
unfolding put_in
put_episode x set =
    if ltb 0 x.episode_start then put_in pair_eq (x.season_start, x.episode_start) set else set

unfoldable pub note_source : Bool → Listing → Group → Group
unfolding put_in set_non_empty later larger put_seasons put_episode
note_source include x g = record g {
  source_count = suc g.source_count;
  largest_size_bytes = larger x.size_bytes g.largest_size_bytes;
  best_seeders = larger x.seeders g.best_seeders;
  newest_upload = later x.uploaded_at g.newest_upload;
  categories = put_in runes_eq x.category g.categories;
  resolutions = set_non_empty x.resolution g.resolutions;
  seasons = put_seasons x g.seasons;
  episodes = put_episode x g.episodes;
  sources = if include then g.sources ++ (x ∷ []) else g.sources;
}

unfoldable pub add_source : Bool → String → Listing → List Group → List Group
unfolding new_group note_source
add_source include id x [] = note_source include x (new_group id x) ∷ []
add_source include id x (g ∷ groups) =
    if str_eq g.id id then note_source include x g ∷ groups else g ∷ add_source include id x groups

unfoldable pub group_from : Digests → Bool → List Listing → List Group → List Group
unfolding add_source catalog_title_id
group_from env include [] groups = groups
group_from env include (x ∷ items) groups =
    group_from env include items (add_source include (catalog_title_id env x) x groups)

-- `sortedKeys`
unfoldable pub sorted_keys : List Runes → List Runes
unfolding sort compare_runes
sorted_keys set = sort (λ a b. is_before (compare_runes a b)) (keep (λ a. not (runes_eq a [])) set)

pub record CatalogTitle : Type 0 where
  pub group : Group
  pub categories : List Runes
  pub resolutions : List Runes
  pub season_count : ℕ
  pub episode_count : ℕ

unfoldable pub finish_title : Group → CatalogTitle
unfolding sorted_keys
finish_title g = record {
  group = g;
  categories = sorted_keys g.categories;
  resolutions = sorted_keys g.resolutions;
  season_count = length g.seasons;
  episode_count = length g.episodes;
}

unfoldable pub group_catalog : Digests → Bool → List Listing → List CatalogTitle
unfolding group_from finish_title
group_catalog env include items = map finish_title (group_from env include items [])
