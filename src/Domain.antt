-- ===== src/Domain.antt =====
-- internal/domain/models.go and state.go: the records that the components share, with the fields
-- that the modelled code reads or writes. A time is its nanoseconds since year 1, so that 0 is Go's
-- zero time. A progress, a float between 0 and 1, is in millionths. Sizes are bytes.
use filelist_streaming_servi.Base.{
  ℕ, Bool, String, Runes, runes_eq, codes, to_lower, has_prefix, ◌||◌,
}

-- Progress 1.0.
abbrev pub whole : ℕ
whole = 1_000_000

pub record Download : Type 0 where
  pub id : String
  pub release_id : String
  pub engine_id : String
  pub file_index : ℕ
  pub state : Runes
  pub progress : ℕ
  pub leased : Bool
  pub created_at : ℕ
  pub updated_at : ℕ
  pub error : Runes

pub record DownloadStatus : Type 0 where
  pub progress : ℕ
  pub total_bytes : ℕ

pub record PlaybackState : Type 0 where
  pub source_id : String
  pub release_id : String
  pub file_index : ℕ
  pub position_ms : ℕ
  pub duration_ms : ℕ
  pub watched : Bool
  pub updated_at : ℕ

-- `IsPaused` of state.go.
unfoldable pub is_paused : Runes → Bool
unfolding to_lower has_prefix runes_eq
is_paused state =
    let s = to_lower state in
    has_prefix s (codes "paused")
    || runes_eq s (codes "stoppeddl")
    || runes_eq s (codes "stoppedup")
