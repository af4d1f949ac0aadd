-- ===== src/World.antt =====
-- What the service stands on: the repository (internal/application/ports.go, kept in SQLite), the
-- torrent engine and the clock. A world holds the rows that the modelled code reads and writes. What
-- the database, the engine and the file system answer or refuse is a parameter, `Env`, and may depend
-- on the whole world, so on every call made before.
use Prim.Native.String.{len, slice}
use text.Mathlib.Text.{starts_with}
use filelist_streaming_servi.Base.{
  ℕ, Bool, true, false, Option, none, some, List, String, Runes, Result, str_eq, keep, not,
  if◌then◌else◌, codes, contains, to_lower, ◌||◌,
}
use filelist_streaming_servi.Domain.{Download, DownloadStatus, PlaybackState}

-- An error value: the rate limit that it wraps with its `RetryAt`, the sentinels that the code tests
-- for, and its text.
pub record Error : Type 0 where
  pub rate_limit : Option ℕ
  pub deadline_exceeded : Bool
  pub canceled : Bool
  pub torrent_not_found : Bool
  pub text : Runes

-- `fmt.Errorf` or `errors.New` with this text.
abbrev pub plain_error : Runes → Error
plain_error t = record {
  rate_limit = none;
  deadline_exceeded = false;
  canceled = false;
  torrent_not_found = false;
  text = t;
}

-- `Job.State`; the column may hold any other text.
pub data JobState : Type 0 where
  queued running completed failed retry_wait other_state : JobState

-- `Job.Kind`, with the dispatch of `RetryJob`.
pub data JobKind : Type 0 where
  catalog_latest catalog_rebuild metadata title_refresh tracker_search retention other_kind :
      JobKind

pub record Job : Type 0 where
  pub id : String
  pub kind : JobKind
  pub state : JobState
  pub label : Runes
  pub dedupe_key : Runes
  pub progress : ℕ
  pub attempt : ℕ
  pub error : Runes
  pub retryable : Bool
  pub next_attempt_at : Option ℕ
  pub updated_at : ℕ

pub record World : Type 0 where
  pub downloads : List Download
  pub titles : List (String × String)
  pub favorites : List String
  pub playback : List PlaybackState
  pub jobs : List Job
  pub removals : List String  -- the hashes that the engine was told to remove, last first
  pub evictions : List (String × Runes)  -- the `downloads.evicted` events, last first

pub record Env : Type 0 where
  pub route_prefix : String  -- `enginePrefix()`
  pub now : World → ℕ
  pub list_error : World → Option Error
  pub titles_error : World → Option Error
  pub favorites_error : World → Option Error
  pub playback_error : World → Option Error
  pub jobs_error : World → Option Error
  pub save_error : World → Option Error
  pub delete_error : World → String → Option Error
  pub status : World → String → Result Error DownloadStatus
  pub remove_error : World → String → Option Error
  pub free_space : World → Result Error ℕ

-- `route` of internal/application/service.go: `strings.CutPrefix` with the engine's prefix.
unfoldable pub route : Env → String → Option String
route env engine_id =
    if starts_with engine_id env.route_prefix
    then some (slice engine_id (len env.route_prefix) (len engine_id))
    else none

-- `DeleteDownload`: the row with this primary key goes.
unfoldable pub delete_download : String → World → World
delete_download id w = record w { downloads = keep (λ row. not (str_eq row.id id)) w.downloads }

-- `isTransient` of internal/application/service.go, for an error that is not nil.
unfoldable pub is_transient : Error → Bool
unfolding contains to_lower
is_transient e =
    let text = to_lower e.text in
    elim e.rate_limit [
      | some at ↦ true
      | none ↦
          e.deadline_exceeded
          || e.canceled
          || contains text (codes "timeout")
          || contains text (codes "temporar")
          || contains text (codes "connection reset")
          || contains text (codes "http 5")
          || contains text (codes "returned 5")
    ]
