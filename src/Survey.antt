-- ===== src/Survey.antt =====
-- internal/application/retention.go, lines 159 to 298: the household facts, the survey of the routes
-- and the deficit.
pub mod Grouping
use filelist_streaming_servi.Base.{
  ◌%◌, ◌^◌, ℕ, ◌+◌, Bool, true, false, ◌||◌, ◌&&◌, Option, none, some, List, [], ◌∷◌, ◌++◌, String,
  Runes, codes, Result, ok, err, ◌>>=◌, ◌>>◌, check, str_eq, lookup, elem, ltb, ◌==◌, if◌then◌else◌,
}
use filelist_streaming_servi.Domain.{Download, PlaybackState}
use filelist_streaming_servi.Settings.{Settings, gigabytes_to_bytes}
use filelist_streaming_servi.Retention.{Route}
use filelist_streaming_servi.World.{World, Env, Error, route}

pub record Plan : Type 0 where
  pub routes : List Route
  pub stored_bytes : ℕ
  pub free : Result Error ℕ  -- `freeBytes` and `freeErr`

pub record Household : Type 0 where
  pub favorite_titles : List String
  pub latest_by_title : List (String × PlaybackState)
  pub title_by_release : List (String × String)

-- A missing key reads as the empty text.
title_of : Household → String → String
unfolding lookup
title_of h release_id = elim (lookup release_id h.title_by_release) [ none ↦ "" | some t ↦ t ]

-- `h.latestByTitle[titleID] = p`.
put : String → PlaybackState → List (String × PlaybackState) → List (String × PlaybackState)
put k v [] = (k, v) ∷ []
put k v ((j, w) ∷ m) = if str_eq j k then (k, v) ∷ m else (j, w) ∷ put k v m

newer : PlaybackState → Option PlaybackState → Bool
newer p none = true
newer p (some latest) = ltb latest.updated_at p.updated_at

-- The loop over the playback rows.
note_playback : List PlaybackState → Household → Household
unfolding title_of lookup put newer
note_playback [] h = h
note_playback (p ∷ ps) h =
    let title = title_of h p.release_id in
    note_playback ps (
      if str_eq title ""
      then h
      else if newer p (lookup title h.latest_by_title)
      then record h { latest_by_title = put title p h.latest_by_title }
      else h)

-- `CatalogTitleIDsForReleases` is asked for the releases of the managed rows.
titles_for : List Download → List (String × String) → List (String × String)
unfolding lookup
titles_for [] titles = []
titles_for (row ∷ rows) titles = elim (lookup row.release_id titles) [
  | none ↦ titles_for rows titles
  | some t ↦
      if str_eq row.release_id ""
      then titles_for rows titles
      else (row.release_id, t) ∷ titles_for rows titles
]

unfoldable pub retention_household : Env → List Download → World → Result Error Household
unfolding titles_for note_playback
retention_household env managed w = do
  check (env.titles_error w)
  check (env.favorites_error w)
  check (env.playback_error w)
  ok (
      note_playback w.playback (record {
        favorite_titles = w.favorites;
        latest_by_title = [];
        title_by_release = titles_for managed w.titles;
      }))

pub record Facts : Type 0 where
  pub favorite : Bool
  pub watched : Bool
  pub last_played : ℕ

note_row : Household → String → Facts → Facts
unfolding elem lookup
note_row h title f =
    let f' = record f { favorite = elem title h.favorite_titles || f.favorite } in
    elim (lookup title h.latest_by_title) [
      | none ↦ f'
      | some p ↦ record f' {
        watched = p.watched || f.watched;
        last_played =
            if f.last_played == 0 || ltb f.last_played p.updated_at
            then p.updated_at
            else f.last_played;
      }
    ]

-- The loop of `routeFacts`.
facts_from : Household → List Download → Facts → Facts
unfolding title_of note_row
facts_from h [] f = f
facts_from h (row ∷ rows) f =
    let title = title_of h row.release_id in
    facts_from h rows (if str_eq title "" then f else note_row h title f)

unfoldable pub route_facts : Household → List Download → Facts
unfolding facts_from
route_facts h rows =
    facts_from h rows (record { favorite = false; watched = false; last_played = 0 })

-- `byRoute` with its keys in `order`: a row joins the group of its engine id, or opens one.
unfoldable pub add_row : Download → List (String × List Download) → List (String × List Download)
add_row row [] = (row.engine_id, row ∷ []) ∷ []
add_row row ((k, rows) ∷ groups) =
    if str_eq k row.engine_id
    then (k, rows ++ row ∷ []) ∷ groups
    else (k, rows) ∷ add_row row groups

unfoldable pub group_rows :
    Env → List Download → List (String × List Download) → List (String × List Download)
unfolding add_row
group_rows env [] groups = groups
group_rows env (row ∷ rows) groups = elim (route env row.engine_id) [
  | none ↦ group_rows env rows groups
  | some hash ↦ group_rows env rows (add_row row groups)
]

abbrev hash_of : Option String → String
hash_of none = ""
hash_of (some hash) = hash

-- The loop over `order`: a route that the engine cannot describe is passed over.
unfoldable pub survey_routes : Env → World → Household → List (String × List Download) → List Route
unfolding route_facts
survey_routes env w h [] = []
survey_routes env w h ((engine_id, rows) ∷ groups) =
    let hash = hash_of (route env engine_id) in
    let rest = survey_routes env w h groups in
    let facts = route_facts h rows in
    elim (env.status w hash) [
      | err e ↦ rest
      | ok status ↦
          record {
            engine_id = engine_id;
            hash = hash;
            rows = rows;
            status = status;
            favorite = facts.favorite;
            watched = facts.watched;
            last_played = facts.last_played;
          }
          ∷ rest
    ]

-- Sums of an `int64` wrap.
unfoldable pub total_bytes : List Route → ℕ
total_bytes [] = 0
total_bytes (r ∷ rs) = (r.status.total_bytes + total_bytes rs) % 2 ^ 64

unfoldable pub retention_survey : Env → World → Result Error Plan
unfolding retention_household group_rows survey_routes total_bytes
retention_survey env w = do
  check (env.list_error w)
  household ← retention_household env w.downloads w
  let routes = survey_routes env w household (group_rows env w.downloads [])
  ok (record { routes = routes; stored_bytes = total_bytes routes; free = env.free_space w })

pub data Reason : Type 0 where
  cap reserve : Reason

-- The reserve check, skipped where the free space is unknown.
reserve_deficit : Plan → Settings → Option Reason
unfolding gigabytes_to_bytes
reserve_deficit plan settings = elim plan.free [
  | err e ↦ none
  | ok free_bytes ↦
      if ltb 0 settings.reserve_gb && ltb free_bytes (gigabytes_to_bytes settings.reserve_gb)
      then some reserve
      else none
]

-- A sum whose top bit is set is negative, so below the allocation.
unfoldable pub retention_deficit : Plan → Settings → Option Reason
unfolding gigabytes_to_bytes reserve_deficit
retention_deficit plan settings =
    if ltb 0 settings.allocation_gb
      && (ltb plan.stored_bytes (2 ^ 63)
          && ltb (gigabytes_to_bytes settings.allocation_gb) plan.stored_bytes)
    then some cap
    else reserve_deficit plan settings
