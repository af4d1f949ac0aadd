-- ===== src/Watching.antt =====
-- internal/application/service.go: `Playback`, `UpdatePlayback` and `SetWatched`, over the stored rows of the one
-- household. Which calls of the database fail is the parameter `Database`; the path of a file is not
-- modelled. A time in the media is the bits of its `int64` milliseconds.
pub mod Rows
pub mod Watched
use filelist_streaming_servi.Base.{
  ◌/◌, ℕ, ◌+◌, ◌*◌, ◌%◌, ◌^◌, Bool, true, false, not, ◌&&◌, ◌||◌, Option, none, some, List, [], ◌∷◌,
  String, Result, ok, err, str_eq, leb, ltb, ◌==◌, if◌then◌else◌, signed,
}
use filelist_streaming_servi.Domain.{Download, PlaybackState}

pub record Shelves : Type 0 where
  pub downloads : List Download
  pub playback : List PlaybackState

pub record Database : Type 0 where
  pub download_fails : Shelves → Bool
  pub playback_fails : Shelves → Bool
  pub save_fails : Shelves → Bool

pub data WatchError : Type 0 where
  negative_time no_download no_playback database_failed : WatchError

-- The row of a source, as the queries by primary key give it.
unfoldable pub find_download : String → List Download → Option Download
find_download id [] = none
find_download id (d ∷ rows) = if str_eq d.id id then some d else find_download id rows

unfoldable pub find_playback : String → List PlaybackState → Option PlaybackState
find_playback source [] = none
find_playback source (p ∷ rows) =
    if str_eq p.source_id source then some p else find_playback source rows

unfoldable pub get_download : Database → String → Shelves → Result WatchError Download
unfolding find_download
get_download db id s =
    if db.download_fails s
    then err database_failed
    else elim (find_download id s.downloads) [ none ↦ err no_download | some d ↦ ok d ]

-- `GetPlayback`, whose error is `sql.ErrNoRows` where there is no row.
unfoldable pub get_playback : Database → String → Shelves → Result WatchError PlaybackState
unfolding find_playback
get_playback db source s =
    if db.playback_fails s
    then err database_failed
    else elim (find_playback source s.playback) [ none ↦ err no_playback | some p ↦ ok p ]

-- The row that is stored: the time of the update, in nanoseconds, in whole seconds.
unfoldable pub stored_playback : PlaybackState → PlaybackState
stored_playback p = record p { updated_at = p.updated_at / 1_000_000_000 * 1_000_000_000 }

-- `SavePlayback`: the row of the source is replaced by the stored row, or that is added.
unfoldable pub put_playback : PlaybackState → List PlaybackState → List PlaybackState
put_playback p [] = p ∷ []
put_playback p (q ∷ rows) =
    if str_eq q.source_id p.source_id then p ∷ rows else q ∷ put_playback p rows

unfoldable pub save_playback :
    Database → PlaybackState → Shelves → Result WatchError PlaybackState × Shelves
unfolding put_playback stored_playback
save_playback db p s =
    if db.save_fails s
    then (err database_failed, s)
    else (ok p, record s { playback = put_playback (stored_playback p) s.playback })

abbrev pub blank_playback : String → PlaybackState
blank_playback source = record {
  source_id = source;
  release_id = "";
  file_index = 0;
  position_ms = 0;
  duration_ms = 0;
  watched = false;
  updated_at = 0;
}

unfoldable pub is_negative : ℕ → Bool
is_negative bits = leb (2 ^ 63) bits

-- A position beyond a known duration is the duration.
unfoldable pub clamp : ℕ → ℕ → ℕ
clamp position duration = if ltb 0 duration && ltb duration position then duration else position

-- The products wrap.
unfoldable pub reaches : ℕ → ℕ → ℕ → Bool
reaches threshold position duration =
    ltb 0 duration
    && leb (signed (duration * threshold % 2 ^ 64)) (signed (position * 100 % 2 ^ 64))

-- The row of the source, or the zero row where there is none.
unfoldable pub prior_playback : Database → String → Shelves → Result WatchError PlaybackState
unfolding find_playback
prior_playback db source s =
    if db.playback_fails s then err database_failed else elim (find_playback source s.playback) [
      | none ↦ ok (blank_playback source)
      | some p ↦ ok p
    ]

unfoldable pub moved : ℕ → ℕ → ℕ → ℕ → String → Download → PlaybackState → PlaybackState
unfolding reaches
moved threshold now position duration source d p = record {
  source_id = source;
  release_id = d.release_id;
  file_index = d.file_index;
  position_ms = position;
  duration_ms = duration;
  watched = if reaches threshold position duration then true else p.watched;
  updated_at = now;
}

unfoldable pub update_playback :
    Database → ℕ → ℕ → String → ℕ → ℕ → Shelves → Result WatchError PlaybackState × Shelves
unfolding is_negative clamp get_download prior_playback moved save_playback
update_playback db threshold now source position duration s =
    if is_negative position || is_negative duration
    then (err negative_time, s)
    else elim (get_download db source s) [
      | err e ↦ (err e, s)
      | ok d ↦ elim (prior_playback db source s) [
        | err e ↦ (err e, s)
        | ok p ↦
            save_playback db (moved threshold now (clamp position duration) duration source d p) s
      ]
    ]

unfoldable pub marked : ℕ → Bool → PlaybackState → PlaybackState
marked now watched p = record p {
  watched = watched;
  position_ms =
      if watched
      then (if ltb (signed 0) (signed p.duration_ms) then p.duration_ms else p.position_ms)
      else 0;
  updated_at = now;
}

-- The row that `SetWatched` marks: where there is none, one made from the download.
unfoldable pub made_playback : String → Result WatchError Download → Result WatchError PlaybackState
made_playback source (err e) = err e
made_playback source (ok d) =
    ok (record (blank_playback source) { release_id = d.release_id; file_index = d.file_index })

unfoldable pub marked_playback : Database → String → Shelves → Result WatchError PlaybackState
unfolding find_playback get_download made_playback
marked_playback db source s =
    if db.playback_fails s then err database_failed else elim (find_playback source s.playback) [
      | some p ↦ ok p
      | none ↦ made_playback source (get_download db source s)
    ]

unfoldable pub set_watched :
    Database → ℕ → String → Bool → Shelves → Result WatchError PlaybackState × Shelves
unfolding marked_playback marked save_playback
set_watched db now source watched s = elim (marked_playback db source s) [
  | err e ↦ (err e, s)
  | ok p ↦ save_playback db (marked now watched p) s
]

-- The calls that change a row, and their sequences.
pub data Viewing : Type 0 where
  move : ℕ → String → ℕ → ℕ → Viewing
  mark : ℕ → String → Bool → Viewing

unfoldable pub watch : Database → ℕ → Viewing → Shelves → Shelves
unfolding update_playback set_watched
watch db threshold (move now source position duration) s =
    (update_playback db threshold now source position duration s).1
watch db threshold (mark now source watched) s = (set_watched db now source watched s).1

unfoldable pub watch_all : Database → ℕ → List Viewing → Shelves → Shelves
unfolding watch
watch_all db threshold [] s = s
watch_all db threshold (a ∷ actions) s = watch_all db threshold actions (watch db threshold a s)
