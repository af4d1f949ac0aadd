-- ===== src/Catalog/Pack.antt =====
-- internal/application/catalog.go: `packSourceState` and `applyCatalogState`.
use filelist_streaming_servi.Base.{
  ℕ, true, not, ◌&&◌, ◌||◌, ◌+◌, ◌*◌, ◌/◌, Option, none, some, List, [], ◌∷◌, ◌++◌, String, map,
  ltb, leb, ◌==◌, if◌then◌else◌, keep, str_eq, length,
}
use filelist_streaming_servi.Catalog.{
  MediaState, CatalogSource, CatalogEpisode, CatalogSeason, CatalogDetail, CatalogStateIndex,
  empty_media_state, DownloadState, none_held, queued, downloading, partial, downloaded, failed,
  aggregate_media_states,
}
use filelist_streaming_servi.Catalog.Playback.{aggregate_source_state, project}

-- One file of the pack: its state and its weight.
pub record Part : Type 0 where
  pub state : MediaState
  pub weight : ℕ

pub part_of : CatalogSource → Part
part_of s = record {
  state = s.library_state;
  weight = if s.file_size_bytes == 0 then 1 else s.file_size_bytes;
}

unfoldable pub parts : String → List CatalogEpisode → List Part
unfolding part_of
parts id [] = []
parts id (e ∷ episodes) =
    map part_of (keep (λ s. str_eq s.release_id id) e.sources) ++ parts id episodes

-- What the loop of `packSourceState` carries.
pub record PackTally : Type 0 where
  pub downloaded : ℕ
  pub managed : ℕ
  pub downloading : ℕ
  pub queued : ℕ
  pub failed : ℕ
  pub weighted : ℕ
  pub total : ℕ
  pub download_id : String

pub count_state : DownloadState → PackTally → PackTally
count_state downloaded t = record t { downloaded = t.downloaded + 1; managed = t.managed + 1 }
count_state failed t = record t { failed = t.failed + 1; managed = t.managed + 1 }
count_state downloading t = record t { downloading = t.downloading + 1; managed = t.managed + 1 }
count_state queued t = record t { queued = t.queued + 1; managed = t.managed + 1 }
count_state partial t = record t { managed = t.managed + 1 }
count_state none_held t = t

-- The loop's body, for the progress that the aggregate found.
unfoldable pub tally_part : ℕ → Part → PackTally → PackTally
unfolding count_state
tally_part progress p t =
    let s = p.state in
    let weighed = record t {
      total = t.total + p.weight;
      weighted = t.weighted + s.progress * p.weight;
    } in
    count_state s.download_state (
      if not (str_eq s.download_id "") && (str_eq t.download_id "" || leb progress s.progress)
      then record weighed { download_id = s.download_id }
      else weighed)

unfoldable pub tally_parts : ℕ → List Part → PackTally → PackTally
unfolding tally_part
tally_parts progress [] t = t
tally_parts progress (p ∷ ps) t = tally_parts progress ps (tally_part progress p t)

unfoldable pub settle_pack : ℕ → PackTally → DownloadState
settle_pack n t =
    if t.downloaded == n
    then downloaded
    else if ltb 0 t.failed
    then failed
    else if ltb 0 t.downloading
    then downloading
    else if ltb 0 t.queued
    then queued
    else if ltb 0 t.managed
    then partial
    else none_held

unfoldable pub new_pack_tally : String → PackTally
new_pack_tally id = record {
  downloaded = 0;
  managed = 0;
  downloading = 0;
  queued = 0;
  failed = 0;
  weighted = 0;
  total = 0;
  download_id = id;
}

unfoldable pub pack_state : List Part → MediaState
unfolding aggregate_media_states tally_parts settle_pack new_pack_tally
pack_state [] = empty_media_state
pack_state (p ∷ ps) =
    let result = aggregate_media_states (map (λ q. q.state) (p ∷ ps)) true in
    let t = tally_parts result.progress (p ∷ ps) (new_pack_tally result.download_id) in
    record result {
      download_id = t.download_id;
      progress = if ltb 0 t.total then t.weighted / t.total else result.progress;
      download_state = settle_pack (length (p ∷ ps)) t;
    }

unfoldable pub pack_source_state : String → List CatalogEpisode → MediaState
unfolding parts pack_state
pack_source_state id episodes = pack_state (parts id episodes)

clear_source : CatalogSource → CatalogSource
clear_source s = record s { library_state = empty_media_state }

clear_episode : CatalogEpisode → CatalogEpisode
unfolding clear_source
clear_episode e = record { sources = map clear_source e.sources; library_state = empty_media_state }

clear_season : CatalogSeason → CatalogSeason
unfolding clear_source clear_episode
clear_season s = record {
  episodes = map clear_episode s.episodes;
  pack_sources = map clear_source s.pack_sources;
  library_state = empty_media_state;
}

-- The first half of `applyCatalogState`.
clear_detail : CatalogDetail → CatalogDetail
unfolding clear_source clear_season
clear_detail d = record d {
  title_sources = map clear_source d.title_sources;
  sources = map clear_source d.sources;
  seasons = map clear_season d.seasons;
  title_state = empty_media_state;
}

fill_episode : CatalogStateIndex → CatalogEpisode → CatalogEpisode
unfolding project aggregate_source_state
fill_episode index e =
    let sources = project index e.sources in
    record { sources = sources; library_state = aggregate_source_state sources }

fill_season : CatalogStateIndex → CatalogSeason → CatalogSeason
unfolding fill_episode pack_source_state aggregate_media_states
fill_season index s =
    let episodes = map (fill_episode index) s.episodes in
    record {
      episodes = episodes;
      pack_sources =
          map {A = CatalogSource}
            (λ p. record p { library_state = pack_source_state p.release_id episodes })
            s.pack_sources;
      library_state = aggregate_media_states (map (λ e. e.library_state) episodes) true;
    }

fill_detail : CatalogStateIndex → CatalogDetail → CatalogDetail
unfolding project fill_season aggregate_source_state aggregate_media_states
fill_detail index d =
    let sources = project index d.sources in
    let seasons = map (fill_season index) d.seasons in
    record d {
      title_sources = project index d.title_sources;
      sources = sources;
      seasons = seasons;
      title_state =
          if d.is_movie
          then aggregate_source_state sources
          else aggregate_media_states (map (λ s. s.library_state) seasons) true;
    }

-- `applyCatalogState`, given what `catalogState` returns: none for an error.
unfoldable pub apply_catalog_state : Option CatalogStateIndex → CatalogDetail → CatalogDetail
unfolding clear_detail fill_detail
apply_catalog_state none d = clear_detail d
apply_catalog_state (some index) d = fill_detail index (clear_detail d)
