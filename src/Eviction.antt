-- ===== src/Eviction.antt =====
-- internal/application/retention.go, lines 300 to 397, and from service.go `removeTorrent`,
-- `forgetEngineRows`, `incomingTorrentBytes` and `ensureAllocationRoom`: the eviction of one torrent, and the
-- two loops that evict until the storage fits. The loops are unbounded in the source; here they take
-- fuel, one more than the number of rows.
pub mod Removal
pub mod Victim
pub mod Shielded
pub mod Admission
pub mod Termination
use filelist_streaming_servi.Base.{
  ◌%◌, ◌^◌, ◌&&◌, ℕ, zero, suc, ◌+◌, ◌-◌, Bool, true, false, not, Option, none, some, List, [], ◌∷◌,
  String, Runes, codes, Result, ok, err, str_eq, keep, ltb, ◌==◌, if◌then◌else◌, length, sort,
}
use filelist_streaming_servi.Domain.{Download}
use filelist_streaming_servi.Settings.{Settings, normalize_eviction_rules, gigabytes_to_bytes}
use filelist_streaming_servi.Retention.{Route, retention_protected, evicted_before}
use filelist_streaming_servi.World.{World, Env, Error, plain_error, route, delete_download}
use filelist_streaming_servi.Survey.{
  Plan, Reason, cap, reserve, retention_survey, retention_deficit,
}

-- The loop of `forgetEngineRows`; the first refused deletion ends it.
unfoldable pub forget_rows : Env → String → List Download → World → World × Option Error
forget_rows env engine_id [] w = (w, none)
forget_rows env engine_id (item ∷ items) w = elim (str_eq item.engine_id engine_id) [
  | false ↦ forget_rows env engine_id items w
  | true ↦ elim (env.delete_error w item.id) [
    | some e ↦ (w, some e)
    | none ↦ forget_rows env engine_id items (delete_download item.id w)
  ]
]

unfoldable pub forget_engine_rows : Env → String → World → World × Option Error
unfolding forget_rows
forget_engine_rows env engine_id w = elim (env.list_error w) [
  | some e ↦ (w, some e)
  | none ↦ forget_rows env engine_id w.downloads w
]

-- The engine is told to remove the torrent with its files. That it has no such torrent is no error.
unfoldable pub remove_torrent : Env → String → World → World × Option Error
unfolding forget_engine_rows
remove_torrent env engine_id w = elim (route env engine_id) [
  | none ↦ (w, some (plain_error (codes "unsupported engine route")))
  | some hash ↦
      let w' = record w { removals = hash ∷ w.removals } in
      elim (env.remove_error w hash) [
        | none ↦ forget_engine_rows env engine_id w'
        | some e ↦ if e.torrent_not_found then forget_engine_rows env engine_id w' else (w', some e)
      ]
]

abbrev pub candidates : Settings → List Route → List Route
candidates settings = keep (λ r. not (retention_protected r settings))

abbrev reason_text : Reason → Runes
reason_text cap = codes "cap"
reason_text reserve = codes "reserve"

-- The answer of `evictNext`: the victim, none where every torrent is protected, or an error.
pub data Evicted : Type 0 where
  evicted : Route → Evicted
  nothing : Evicted
  failed : Error → Evicted

unfoldable pub evict_first : Env → Reason → List Route → World → World × Evicted
evict_first env reason [] w = (w, nothing)
evict_first env reason (victim ∷ _) w =
    let (w', e) = remove_torrent env victim.engine_id w in
    elim e [
      | some e ↦ (w', failed e)
      | none ↦ (
        record w' { evictions = (victim.engine_id, reason_text reason) ∷ w'.evictions },
        evicted victim,
      )
    ]

-- `applyEvictionRules` sorts the unprotected routes, and the first one goes.
unfoldable pub evict_next : Env → Plan → Reason → Settings → List Runes → World → World × Evicted
unfolding evict_first
evict_next env plan reason settings rules w =
    evict_first env reason (sort (evicted_before rules) (candidates settings plan.routes)) w

-- How the eviction loops end.
pub data Outcome : Type 0 where
  fits : Outcome
  all_protected : Reason → Plan → Outcome
  stopped : Error → Outcome
  out_of_fuel : Outcome

pub record Run : Type 0 where
  pub world : World
  pub outcome : Outcome
  pub evicted_count : ℕ
  pub freed_bytes : ℕ

abbrev ended : World → Outcome → ℕ → ℕ → Run
ended w o n b = record { world = w; outcome = o; evicted_count = n; freed_bytes = b }

-- `plan.storedBytes += incoming`; the retention job has none incoming.
abbrev pub with_incoming : ℕ → Plan → Plan
with_incoming incoming plan = record plan { stored_bytes = (plan.stored_bytes + incoming) % 2 ^ 64 }

-- The loop that `runRetention` and `ensureAllocationRoom` share.
unfoldable pub evict_until_fits : ℕ → Env → Settings → List Runes → ℕ → Plan → ℕ → ℕ → World → Run
evict_until_fits zero env settings rules incoming plan n b w = ended w out_of_fuel n b
evict_until_fits (suc fuel) env settings rules incoming plan n b w =
    elim (retention_deficit plan settings) [
      | none ↦ ended w fits n b
      | some reason ↦
          let (w', answer) = evict_next env plan reason settings rules w in
          elim answer [
            | failed e ↦ ended w' (stopped e) n b
            | nothing ↦ ended w' (all_protected reason plan) n b
            | evicted victim ↦ elim (retention_survey env w') [
              | err e ↦ ended w' (stopped e) (n + 1) (b + victim.status.total_bytes)
              | ok plan' ↦
                  evict_until_fits fuel env settings rules incoming (with_incoming incoming plan')
                    (n + 1) (b + victim.status.total_bytes) w'
            ]
          ]
    ]

-- The survey and the loop of `runRetention`, with enough fuel.
unfoldable pub run_evictions : Env → Settings → ℕ → World → Run
unfolding evict_until_fits normalize_eviction_rules
run_evictions env settings incoming w = elim (retention_survey env w) [
  | err e ↦ ended w (stopped e) 0 0
  | ok plan ↦
      evict_until_fits (length w.downloads + 1) env settings
        (normalize_eviction_rules settings.eviction_rules) incoming (with_incoming incoming plan) 0
        0 w
]

-- What `ensureAllocationRoom` answers: `AllocationError` has the bytes that the plan leaves free, here
-- the capacity and what is stored.
pub data Answer : Type 0 where
  admitted : Answer
  allocation_error : ℕ → ℕ → ℕ → Answer  -- required, stored without it, capacity
  refused : Error → Answer

admission : Settings → ℕ → Outcome → Answer
unfolding gigabytes_to_bytes
admission settings incoming fits = admitted
admission settings incoming (all_protected cap plan) =
    allocation_error incoming ((plan.stored_bytes + 2 ^ 64 - incoming) % 2 ^ 64)
      (gigabytes_to_bytes settings.allocation_gb)
admission settings incoming (all_protected reserve plan) = admitted
admission settings incoming (stopped e) = refused e
admission settings incoming out_of_fuel = refused (plain_error [])  -- never reached

unfoldable pub ensure_allocation_room : Env → Settings → ℕ → World → World × Answer
unfolding run_evictions admission
ensure_allocation_room env settings incoming w =
    if settings.allocation_gb == 0
    then (w, admitted)
    else let run = run_evictions env settings incoming w in
      (run.world, admission settings incoming run.outcome)

-- `incomingTorrentBytes`: the sum of the sizes in the manifest, an `int64` that wraps, where it can be had
-- and is positive, else the tracker's size.
sum_of : List ℕ → ℕ
sum_of [] = 0
sum_of (size ∷ sizes) = (size + sum_of sizes) % 2 ^ 64

unfoldable pub incoming_torrent_bytes : Option (List ℕ) → ℕ → ℕ
unfolding sum_of
incoming_torrent_bytes none size_bytes = size_bytes
incoming_torrent_bytes (some files) size_bytes =
    if ltb 0 (sum_of files) && ltb (sum_of files) (2 ^ 63) then sum_of files else size_bytes
