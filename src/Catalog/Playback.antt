-- ===== src/Catalog/Playback.antt =====
-- internal/application/catalog.go: `sourceState`, `sourcesState` and `applyPlaybackState`.
use filelist_streaming_servi.Base.{
  ℕ, Bool, false, not, ◌&&◌, ◌||◌, Option, none, some, List, [], ◌∷◌, map, ltb, leb, ◌==◌,
  if◌then◌else◌, codes, to_lower, contains,
}
use filelist_streaming_servi.Domain.{Download, PlaybackState}
use filelist_streaming_servi.Catalog.{
  MediaState, CatalogSource, CatalogStateIndex, empty_media_state, downloads_by_release,
  playback_by_release, playback_by_source, none_held, queued, downloading, partial, downloaded,
  failed, complete, paused, waiting, active, broken, in_progress, watched, is_watched, is_started,
  aggregate_media_states,
}

-- `time.Unix(0, 0)`.
abbrev pub unix_epoch : ℕ
unix_epoch = 62_135_596_800_000_000_000

unfoldable pub apply_playback_state : MediaState → PlaybackState → MediaState
unfolding is_watched
apply_playback_state state playback =
    let marked =
      if playback.watched
      then record state { watch_state = watched }
      else if ltb 0 playback.position_ms && not (is_watched state.watch_state)
      then record state { watch_state = in_progress }
      else state in
    if ltb unix_epoch playback.updated_at && (state.position_ms == 0 || playback.watched)
    then record marked { position_ms = playback.position_ms; duration_ms = playback.duration_ms }
    else marked

unfoldable pub is_eligible : CatalogSource → Download → Bool
is_eligible source download = elim source.file_index [
  | some index ↦ download.file_index == index
  | none ↦ not (ltb 1 source.file_count)
]

unfoldable pub is_better : Download → Download → Bool
is_better download selected =
    ltb selected.progress download.progress
    || (download.progress == selected.progress && ltb selected.created_at download.created_at)

unfoldable pub consider : CatalogSource → Download → Option Download → Option Download
unfolding is_eligible is_better
consider source d selected =
    if is_eligible source d
    then elim selected [ none ↦ some d | some s ↦ if is_better d s then some d else some s ]
    else selected

-- The loop of `sourceState` over the downloads of the release.
unfoldable pub select_download : CatalogSource → List Download → Option Download → Option Download
unfolding consider
select_download source [] selected = selected
select_download source (d ∷ downloads) selected =
    select_download source downloads (consider source d selected)

unfoldable pub download_state : Download → MediaState → MediaState
unfolding to_lower contains
download_state d result =
    let held = record result { download_id = d.id; progress = d.progress } in
    let name = to_lower d.state in
    if leb 999_000 d.progress
    then record held { download_state = downloaded; transfer_state = complete }
    else elim d.error [
      | _ ∷ _ ↦ record held { download_state = failed; transfer_state = broken }
      | [] ↦
          if contains name (codes "paused") || contains name (codes "stopped")
          then record held { download_state = downloading; transfer_state = paused }
          else if contains name (codes "queued")
          then record held { download_state = queued; transfer_state = waiting }
          else record held { download_state = downloading; transfer_state = active }
    ]

-- The loop of `sourceState` over the playback of the release, which ends at a watched state.
apply_release_playback : CatalogSource → List PlaybackState → MediaState → MediaState
unfolding apply_playback_state is_watched
apply_release_playback source [] state = state
apply_release_playback source (p ∷ rows) state =
    let other : Bool = elim source.file_index [
      | some index ↦ not (p.file_index == index)
      | none ↦ false
    ] in
    let applied = if other then state else apply_playback_state state p in
    let rest = apply_release_playback source rows applied in
    if not other && is_watched applied.watch_state then applied else rest

apply_selected : CatalogStateIndex → Option Download → MediaState
unfolding download_state playback_by_source apply_playback_state
apply_selected index none = empty_media_state
apply_selected index (some d) =
    let held = download_state d empty_media_state in
    elim (playback_by_source index d.id) [ none ↦ held | some p ↦ apply_playback_state held p ]

unfoldable pub source_state : CatalogStateIndex → CatalogSource → MediaState
unfolding downloads_by_release select_download apply_selected is_started playback_by_release
    apply_release_playback
source_state index source =
    let selected = select_download source (downloads_by_release index source.release_id) none in
    let result = apply_selected index selected in
    if is_started result.watch_state
    then result
    else apply_release_playback source (playback_by_release index source.release_id) result

-- `aggregateSourceState`
unfoldable pub aggregate_source_state : List CatalogSource → MediaState
unfolding aggregate_media_states
aggregate_source_state sources = aggregate_media_states (map (λ s. s.library_state) sources) false

note_download : MediaState → Download → MediaState
note_download state d = record state {
  download_state = partial;
  download_id = d.id;
  progress = if ltb state.progress d.progress then d.progress else state.progress;
}

note_downloads : List Download → MediaState → MediaState
unfolding note_download
note_downloads [] state = state
note_downloads (d ∷ downloads) state = note_downloads downloads (note_download state d)

note_sources : CatalogStateIndex → List CatalogSource → MediaState → MediaState
unfolding note_downloads downloads_by_release
note_sources index [] state = state
note_sources index (s ∷ sources) state =
    note_sources index sources (note_downloads (downloads_by_release index s.release_id) state)

unfoldable pub project : CatalogStateIndex → List CatalogSource → List CatalogSource
unfolding source_state
project index sources =
    map {A = CatalogSource} (λ s. record s { library_state = source_state index s }) sources

unfoldable pub sources_state : CatalogStateIndex → List CatalogSource → MediaState
unfolding project aggregate_source_state note_sources
sources_state index sources =
    let result = aggregate_source_state (project index sources) in
    elim result.download_state [ none_held ↦ note_sources index sources result | _ ↦ result ]
