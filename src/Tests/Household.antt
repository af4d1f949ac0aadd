-- ===== src/Tests/Household.antt =====
-- The theorems on the portal, the supervisor and the catalog at concrete inputs.
use filelist_streaming_servi.Base.{
  ℕ, ◌≡◌, refl, ◌≢◌, inl, inr, true, false, none, some, List, [], ◌∷◌, String, codes, ok, err, In,
  All, length, ltb, arith,
}
use filelist_streaming_servi.Domain.{Download, whole}
use filelist_streaming_servi.Portal.{
  Hub, HubState, Cycle, PublicSettings, AccountStatus, refresh, snapshot, login_call, unavailable,
}
use filelist_streaming_servi.Portal.Invariant.{
  Inv, Action, refreshed, expired, account_used, act, act_all, act_all-Inv,
}
use filelist_streaming_servi.Portal.Refresh.{
  act-quiet, refresh-no_delivery, deliveries, is_active_donor,
}
use filelist_streaming_servi.Supervisor.{
  System, Reachable, created, stepped, started, finished_build, began_stop, ended_stop, start,
  build_done, stop_begin, stop_end, serve_ended, remove, running, failed, not_running, starting,
  stopped, stopping,
}
use filelist_streaming_servi.Supervisor.Lifecycle.{WellFormed, Reachable-WellFormed, stale_failure}
use filelist_streaming_servi.Catalog.Aggregate.{aggregate-summary, download_summary, watch_summary}
use filelist_streaming_servi.Catalog.Foremost.{IsForemost, aggregate-IsForemost}
use filelist_streaming_servi.Catalog.Playback.{select_download}
use filelist_streaming_servi.Catalog.Selection.{IsBest, select_download-IsBest}
use filelist_streaming_servi.Catalog.Pack.{pack_source_state, parts}
use filelist_streaming_servi.Catalog.PackTotals.{
  IsPart, every_downloaded, pack_source_state-downloaded,
}
use filelist_streaming_servi.Catalog.{
  MediaState, CatalogSource, CatalogEpisode, empty_media_state, aggregate_media_states, downloaded,
  watched, active, is_downloaded,
}

abbrev dark : HubState
dark = record {
  accounts_enabled = false;
  ads_enabled = false;
  promotion_live = false;
  donor = false;
  donor_until = 0;
  links = [];
  promotions = [];
}

abbrev new_hub : Hub
new_hub = record {
  state = dark;
  generation = 0;
  last_key = "";
  notice = none;
  emitted = 0;
  calls = [];
}

dark-Inv : Inv dark
dark-Inv = record {
  live_ads = λ e. ground (arith, e);
  live_no_donor = λ e. refl;
  held_live = λ e. refl;
  expiry_donor = λ e. refl;
  accounts_donor = λ e. refl;
}

abbrev on : PublicSettings
on = record { accounts_enabled = true; ads_enabled = true }

abbrev supporter : AccountStatus
supporter = record { donor = true; donor_until = some 100 }

abbrev cycle : Cycle
cycle = record {
  now = 10;
  settings = ok on;
  links = ok [];
  account = ok supporter;
  availability = ok true;
  promotions = ok ("creative" ∷ []);
  settings_gate = none;
  links_gate = none;
  account_gate = none;
  availability_gate = none;
  promotions_gate = none;
}

abbrev actions : List Action
actions =
    refreshed "key" cycle
    ∷ expired 100
    ∷ refreshed "key" cycle
    ∷ account_used login_call (err unavailable)
    ∷ []

act_all-Inv_example : Inv (act_all actions new_hub).state
act_all-Inv_example = act_all-Inv actions new_hub dark-Inv

quiet : (act (expired 5) new_hub).emitted ≡ new_hub.emitted
unfolding act
quiet = refl

act-quiet_example : snapshot (act (expired 5) new_hub).state ≡ snapshot new_hub.state
act-quiet_example = act-quiet (expired 5) new_hub quiet

giving : is_active_donor cycle.now supporter ≡ true
unfolding is_active_donor
giving = refl

refresh-no_delivery_example :
    deliveries (refresh "key" cycle new_hub).calls ≡ deliveries new_hub.calls
refresh-no_delivery_example =
    refresh-no_delivery "key" cycle new_hub on supporter refl refl refl giving

-- A server that was started, stopped and started again, while the first one's goroutine still waits for
-- the lock.
abbrev waiting_first : System
waiting_first = record {
  state = running;
  error = none;
  app = some 1;
  address = "b";
  building = 0;
  serving = 1 ∷ 0 ∷ [];
  stopping = [];
  closed = 0 ∷ [];
  fired = running ∷ starting ∷ stopped ∷ stopping ∷ running ∷ starting ∷ [];
  built = 2;
}

restarted : Reachable waiting_first
unfolding start build_done stop_begin stop_end remove
restarted =
    stepped
      (stepped
        (stepped
          (stepped (stepped (stepped created (started _ none)) (finished_build _ 0 "a" refl))
            (began_stop _))
          (ended_stop _ 0 (inl refl)))
        (started _ none))
      (finished_build _ 0 "b" refl)

Reachable-WellFormed_example : WellFormed waiting_first
Reachable-WellFormed_example = Reachable-WellFormed restarted

apart : ◌≢◌ {A = ℕ} 0 1
apart e = omega (arith, e)

stale_failure_example :
    let t =
      serve_ended 0
        (some "accept")
        (record waiting_first { serving = remove 0 waiting_first.serving }) in
    Reachable t
    × (t.state ≡ failed)
    × ((t.app ≡ none)
        × (In 1 t.serving × ((In 1 t.closed → ⊥) × ((stop_begin t).1 ≡ some not_running))))
stale_failure_example =
    stale_failure waiting_first 0 1 "accept" restarted refl refl apart (inr (inl refl)) (inl refl)

abbrev half : MediaState
half = record empty_media_state { transfer_state = active; download_id = "d1"; progress = 500_000 }

abbrev done : MediaState
done = record empty_media_state {
  download_state = downloaded;
  watch_state = watched;
  download_id = "d2";
  progress = whole;
}

aggregate-summary_example :
    let a = aggregate_media_states (half ∷ done ∷ []) true in
    (a.download_state ≡ download_summary (half ∷ done ∷ []) true)
    × (a.watch_state ≡ watch_summary (half ∷ done ∷ []) true)
aggregate-summary_example = aggregate-summary (half ∷ done ∷ []) true

aggregate-IsForemost_example :
    IsForemost (half ∷ done ∷ []) (aggregate_media_states (half ∷ done ∷ []) false)
aggregate-IsForemost_example = aggregate-IsForemost (half ∷ done ∷ []) false

abbrev source : MediaState → CatalogSource
source state = record {
  release_id = "r1";
  file_count = 1;
  file_index = some 0;
  file_size_bytes = 10;
  library_state = state;
}

abbrev download : String → ℕ → Download
download id progress = record {
  id = id;
  release_id = "r1";
  engine_id = "native:aa";
  file_index = 0;
  state = codes "downloading";
  progress = progress;
  leased = false;
  created_at = 1;
  updated_at = 5;
  error = [];
}

picked :
    select_download (source half) (download "d1" 3 ∷ download "d2" 9 ∷ []) none
    ≡ some (download "d2" 9)
unfolding select_download
picked = refl

select_download-IsBest_example :
    IsBest (source half) (download "d1" 3 ∷ download "d2" 9 ∷ []) (download "d2" 9)
select_download-IsBest_example =
    select_download-IsBest (source half) (download "d1" 3 ∷ download "d2" 9 ∷ []) (download "d2" 9)
      picked

abbrev episodes : List CatalogEpisode
episodes =
    record { sources = source half ∷ source done ∷ []; library_state = empty_media_state } ∷ []

bounded : All IsPart (parts "r1" episodes)
unfolding parts
bounded = (omega arith, (omega arith, tt))

filled : ltb 0 (length (parts "r1" episodes)) ≡ true
unfolding parts
filled = refl

pack_source_state-downloaded_example :
    is_downloaded (pack_source_state "r1" episodes).download_state
    ≡ every_downloaded (parts "r1" episodes)
pack_source_state-downloaded_example = pack_source_state-downloaded "r1" episodes filled
