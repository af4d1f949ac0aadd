-- ===== src/Retention.antt =====
-- internal/application/retention.go, lines 18 to 157: an engine route with its rows, what protects it
-- from eviction, and the order in which the eviction rules put the routes.
pub mod Order
use filelist_streaming_servi.Base.{
  ℕ, ◌<◌, compare, Ordering, Bool, true, false, not, ◌&&◌, List, [], ◌∷◌, String, Runes, codes,
  runes_eq, ltb, ◌==◌, if◌then◌else◌, any,
}
use filelist_streaming_servi.Domain.{Download, DownloadStatus, whole}
use filelist_streaming_servi.Settings.{Settings}

pub record Route : Type 0 where
  pub engine_id : String
  pub hash : String
  pub rows : List Download
  pub status : DownloadStatus
  pub favorite : Bool
  pub watched : Bool
  pub last_played : ℕ

oldest_from : ℕ → List Download → ℕ
oldest_from oldest [] = oldest
oldest_from oldest (row ∷ rows) =
    oldest_from (if ltb row.updated_at oldest then row.updated_at else oldest) rows

-- `rows[0]` panics on no rows; a surveyed route has one.
oldest_of : List Download → ℕ
unfolding oldest_from
oldest_of [] = 0
oldest_of (row ∷ rows) = oldest_from row.updated_at rows

unfoldable pub completed_at : Route → ℕ
unfolding oldest_of
completed_at r = oldest_of r.rows

unfoldable pub route_incomplete : Route → Bool
route_incomplete r =
    if ltb r.status.progress whole then true else any (λ row. ltb row.progress whole) r.rows

unfoldable pub route_leased : Route → Bool
route_leased r = any (λ row. row.leased) r.rows

unfoldable pub retention_protected : Route → Settings → Bool
unfolding route_incomplete route_leased
retention_protected route settings =
    if settings.protect_incomplete && route_incomplete route
    then true
    else if settings.protect_leased && route_leased route
    then true
    else if settings.protect_favorites && route.favorite
    then true
    else if settings.protect_never_watched && not route.watched
    then true
    else false

unfoldable pub last_activity : Route → ℕ
unfolding completed_at
last_activity r = if r.last_played == 0 then completed_at r else r.last_played

unfoldable pub bool_first : Bool → Bool → Ordering
bool_first true true = Ordering.eq
bool_first false false = Ordering.eq
bool_first true false = Ordering.lt
bool_first false true = Ordering.gt

pub data Rule : Type 0 where
  oldest_completed newest_completed least_recently_played most_recently_played : Rule
  watched_first never_watched_first largest smallest : Rule

-- The labels of the `switch`; any other text is its default case.
unfoldable pub rule_of : Runes → Rule
unfolding runes_eq
rule_of rule =
    if runes_eq rule (codes "newest-completed")
    then newest_completed
    else if runes_eq rule (codes "least-recently-played")
    then least_recently_played
    else if runes_eq rule (codes "most-recently-played")
    then most_recently_played
    else if runes_eq rule (codes "watched-first")
    then watched_first
    else if runes_eq rule (codes "never-watched-first")
    then never_watched_first
    else if runes_eq rule (codes "largest")
    then largest
    else if runes_eq rule (codes "smallest")
    then smallest
    else oldest_completed

compare_by : Rule → Route → Route → Ordering
unfolding completed_at last_activity bool_first
compare_by newest_completed a b = compare (completed_at b) (completed_at a)
compare_by least_recently_played a b = compare (last_activity a) (last_activity b)
compare_by most_recently_played a b = compare (last_activity b) (last_activity a)
compare_by watched_first a b = bool_first a.watched b.watched
compare_by never_watched_first a b = bool_first (not a.watched) (not b.watched)
compare_by largest a b = compare b.status.total_bytes a.status.total_bytes
compare_by smallest a b = compare a.status.total_bytes b.status.total_bytes
compare_by oldest_completed a b = compare (completed_at a) (completed_at b)

unfoldable pub compare_eviction_rule : Runes → Route → Route → Ordering
unfolding rule_of compare_by
compare_eviction_rule rule a b = compare_by (rule_of rule) a b

-- Go's `<` on strings, whose bytes are ordered as the code points are.
unfoldable pub compare_runes : Runes → Runes → Ordering
compare_runes [] [] = Ordering.eq
compare_runes [] (d ∷ t) = Ordering.lt
compare_runes (c ∷ s) [] = Ordering.gt
compare_runes (c ∷ s) (d ∷ t) = elim (compare c d) [
  | Ordering.eq ↦ compare_runes s t
  | Ordering.lt ↦ Ordering.lt
  | Ordering.gt ↦ Ordering.gt
]

abbrev pub or_else : Ordering → Ordering → Ordering
or_else Ordering.eq d = d
or_else Ordering.lt d = Ordering.lt
or_else Ordering.gt d = Ordering.gt

-- The comparison in `applyEvictionRules`.
unfoldable pub eviction_order : List Runes → Route → Route → Ordering
unfolding compare_eviction_rule completed_at compare_runes
eviction_order [] a b =
    or_else (compare (completed_at a) (completed_at b))
      (compare_runes (codes a.engine_id) (codes b.engine_id))
eviction_order (rule ∷ rules) a b =
    or_else (compare_eviction_rule rule a b) (eviction_order rules a b)

abbrev pub is_before : Ordering → Bool
is_before Ordering.lt = true
is_before _ = false

unfoldable pub evicted_before : List Runes → Route → Route → Bool
unfolding eviction_order
evicted_before rules a b = is_before (eviction_order rules a b)
