-- ===== src/Catalog.antt =====
-- internal/application/catalog.go, from `catalogStateIndex` on: how the stored downloads and playback of
-- the household become the library state of a title's sources, episodes, packs and seasons. A progress is
-- in millionths; the weighted mean of a pack is rounded down to one. The state strings of
-- `domain.MediaState` are data types.
pub mod Playback
pub mod Aggregate
pub mod Foremost
pub mod Pack
pub mod PackTotals
pub mod Selection
use filelist_streaming_servi.Base.{
  ℕ, zero, suc, ◌+◌, ◌*◌, ◌/◌, Bool, true, false, not, ◌&&◌, ◌||◌, Option, none, some, List, [],
  ◌∷◌, String, Runes, map, ltb, leb, ◌==◌, if◌then◌else◌, length, keep, str_eq, codes, to_lower,
  contains, lookup,
}
use filelist_streaming_servi.Domain.{whole, Download, PlaybackState}

pub data DownloadState : Type 0 where
  none_held queued downloading partial downloaded failed : DownloadState

pub data TransferState : Type 0 where
  idle complete paused waiting active broken : TransferState

pub data WatchState : Type 0 where
  unwatched in_progress partly watched : WatchState

pub record MediaState : Type 0 where
  pub download_state : DownloadState
  pub transfer_state : TransferState
  pub watch_state : WatchState
  pub download_id : String
  pub progress : ℕ
  pub position_ms : ℕ
  pub duration_ms : ℕ

pub record CatalogSource : Type 0 where
  pub release_id : String
  pub file_count : ℕ
  pub file_index : Option ℕ
  pub file_size_bytes : ℕ
  pub library_state : MediaState

pub record CatalogEpisode : Type 0 where
  pub sources : List CatalogSource
  pub library_state : MediaState

pub record CatalogSeason : Type 0 where
  pub episodes : List CatalogEpisode
  pub pack_sources : List CatalogSource
  pub library_state : MediaState

pub record CatalogDetail : Type 0 where
  pub is_movie : Bool
  pub title_sources : List CatalogSource
  pub sources : List CatalogSource
  pub seasons : List CatalogSeason
  pub title_state : MediaState

-- `emptyMediaState`
abbrev pub empty_media_state : MediaState
empty_media_state = record {
  download_state = none_held;
  transfer_state = idle;
  watch_state = unwatched;
  download_id = "";
  progress = 0;
  position_ms = 0;
  duration_ms = 0;
}

-- The rows that `catalogState` indexes, in their stored order.
pub record CatalogStateIndex : Type 0 where
  pub downloads : List Download
  pub playback : List PlaybackState

unfoldable pub downloads_by_release : CatalogStateIndex → String → List Download
downloads_by_release index id = keep (λ d. str_eq d.release_id id) index.downloads

unfoldable pub playback_by_release : CatalogStateIndex → String → List PlaybackState
playback_by_release index id = keep (λ p. str_eq p.release_id id) index.playback

-- The last row of a source stands in the map.
last_of : String → List PlaybackState → Option PlaybackState → Option PlaybackState
last_of id [] found = found
last_of id (p ∷ rows) found = last_of id rows (if str_eq p.source_id id then some p else found)

unfoldable pub playback_by_source : CatalogStateIndex → String → Option PlaybackState
unfolding last_of
playback_by_source index id = last_of id index.playback none

unfoldable pub priority : TransferState → ℕ
priority idle = 0
priority complete = 1
priority paused = 2
priority waiting = 3
priority active = 4
priority broken = 5

unfoldable pub merge_transfer_state : TransferState → TransferState → TransferState
unfolding priority
merge_transfer_state current next = if ltb (priority current) (priority next) then next else current

unfoldable pub is_downloaded : DownloadState → Bool
is_downloaded downloaded = true
is_downloaded _ = false

unfoldable pub is_managed : DownloadState → Bool
is_managed none_held = false
is_managed _ = true

unfoldable pub is_watched : WatchState → Bool
is_watched watched = true
is_watched _ = false

unfoldable pub is_started : WatchState → Bool
is_started unwatched = false
is_started _ = true

count_if : Bool → ℕ → ℕ
count_if true n = n + 1
count_if false n = n

-- What the loop of `aggregateMediaStates` carries.
pub record Tally : Type 0 where
  pub downloaded : ℕ
  pub managed : ℕ
  pub watched : ℕ
  pub started : ℕ
  pub result : MediaState

unfoldable pub tally_state : MediaState → Tally → Tally
unfolding merge_transfer_state is_downloaded is_managed is_watched is_started count_if
tally_state s t =
    let merged = record t.result {
      transfer_state = merge_transfer_state t.result.transfer_state s.transfer_state;
    } in
    record {
      downloaded = count_if (is_downloaded s.download_state) t.downloaded;
      managed = count_if (is_managed s.download_state) t.managed;
      watched = count_if (is_watched s.watch_state) t.watched;
      started = count_if (is_started s.watch_state) t.started;
      result =
          if ltb t.result.progress s.progress
          then record merged { progress = s.progress; download_id = s.download_id }
          else merged;
    }

unfoldable pub tally_all : List MediaState → Tally → Tally
unfolding tally_state
tally_all [] t = t
tally_all (s ∷ states) t = tally_all states (tally_state s t)

abbrev pub new_tally : Tally
new_tally = record {
  downloaded = 0;
  managed = 0;
  watched = 0;
  started = 0;
  result = empty_media_state;
}

-- The end of `aggregateMediaStates`: what the counts of `n` states come to.
unfoldable pub settle_all : ℕ → Tally → MediaState
settle_all n t = record t.result {
  download_state =
      if t.downloaded == n then downloaded else if ltb 0 t.managed then partial else none_held;
  watch_state = if t.watched == n then watched else if ltb 0 t.started then partly else unwatched;
}

unfoldable pub settle_any : Tally → MediaState
settle_any t = record t.result {
  download_state =
      if ltb 0 t.downloaded then downloaded else if ltb 0 t.managed then downloading else none_held;
  watch_state =
      if ltb 0 t.watched then watched else if ltb 0 t.started then in_progress else unwatched;
}

unfoldable pub aggregate_media_states : List MediaState → Bool → MediaState
unfolding tally_all settle_all settle_any
aggregate_media_states [] require_all = empty_media_state
aggregate_media_states (s ∷ states) require_all =
    let t = tally_all (s ∷ states) new_tally in
    if require_all then settle_all (length (s ∷ states)) t else settle_any t
