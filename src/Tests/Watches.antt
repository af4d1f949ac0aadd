-- ===== src/Tests/Watches.antt =====
-- The playback theorem at a household that has watched one source.
use filelist_streaming_servi.Base.{
  ◌≡◌, inl, inr, refl, true, false, List, [], ◌∷◌, All, arith, ok, codes,
}
use filelist_streaming_servi.Domain.{Download, PlaybackState}
use filelist_streaming_servi.Watching.{
  Shelves, Database, Viewing, move, mark, watch_all, update_playback, find_playback, blank_playback,
  moved,
}
use filelist_streaming_servi.Watching.Rows.{InDuration}
use filelist_streaming_servi.Watching.Watched.{Shown, watch_all-kept}

abbrev film : Download
film = record {
  id = "film";
  release_id = "r";
  engine_id = "e";
  file_index = 0;
  state = codes "seeding";
  progress = 1_000_000;
  leased = false;
  created_at = 1;
  updated_at = 1;
  error = [];
}

abbrev seen_film : PlaybackState
seen_film = record (blank_playback "film") { duration_ms = 100; position_ms = 100; watched = true }

abbrev shelves : Shelves
shelves = record { downloads = film ∷ []; playback = seen_film ∷ [] }

abbrev sound : Database
sound = record { download_fails = λ s. false; playback_fails = λ s. false; save_fails = λ s. false }

abbrev evening : List Viewing
evening = move 5 "film" 30 100 ∷ mark 6 "other" false ∷ mark 7 "film" true ∷ []

within : All InDuration (seen_film ∷ [])
within = ((omega arith, omega arith, λ h. omega arith), tt)

watch_all-kept_example :
    All InDuration (watch_all sound 90 evening shelves).playback
    × All (λ source. Shown source (watch_all sound 90 evening shelves)) ("film" ∷ [])
unfolding find_playback
watch_all-kept_example =
    watch_all-kept sound 90 ("film" ∷ []) evening shelves within
      (((seen_film, refl, refl), (tt, (inl refl, (inr refl, tt)))), tt)

-- A source is watched from the threshold on.
at_threshold :
    (update_playback sound 90 4 "film" 90 100 (record shelves { playback = [] })).0
    ≡ ok (moved 90 4 90 100 "film" film (blank_playback "film"))
unfolding update_playback
at_threshold = refl
