-- ===== src/Tests/Storage.antt =====
-- The storage theorems at a store of two torrents of 2 GiB under an allocation of 3 GiB.
use filelist_streaming_servi.Base.{
  ℕ, ◌*◌, ◌^◌, ◌≡◌, refl, ◌≢◌, inl, inr, Bool, true, false, none, [], ◌∷◌, String, codes, ok, In,
  str_eq, arith, eq_iff, ◌∙◌, sort, sym, ap,
}
use filelist_streaming_servi.Domain.{Download, DownloadStatus, whole}
use filelist_streaming_servi.Settings.{Settings}
use filelist_streaming_servi.Retention.{Route, retention_protected}
use filelist_streaming_servi.World.{World, Env, route}
use filelist_streaming_servi.Survey.{Plan, cap, retention_survey}
use filelist_streaming_servi.Survey.Grouping.{IsSurveyed, retention_survey-IsSurveyed}
use filelist_streaming_servi.Eviction.{evicted, evict_next, run_evictions, remove_torrent}
use filelist_streaming_servi.Eviction.Victim.{IsVictim, evict_next-IsVictim}
use filelist_streaming_servi.Eviction.Termination.{Settled, run_evictions-Settled}
use filelist_streaming_servi.Eviction.Shielded.{UniqueIds, run_evictions-keeps_shielded}

abbrev row : String → String → ℕ → Bool → Download
row id engine_id updated_at leased = record {
  id = id;
  release_id = "r1";
  engine_id = engine_id;
  file_index = 0;
  state = codes "seeding";
  progress = whole;
  leased = leased;
  created_at = 1;
  updated_at = updated_at;
  error = [];
}

abbrev old_row : Download
old_row = row "d1" "native:aa" 5 false

abbrev leased_row : Download
leased_row = row "d2" "native:bb" 3 true

abbrev test_world : World
test_world = record {
  downloads = old_row ∷ leased_row ∷ [];
  titles = [];
  favorites = [];
  playback = [];
  jobs = [];
  removals = [];
  evictions = [];
}

abbrev status : DownloadStatus
status = record { progress = whole; total_bytes = 2 * 2 ^ 30 }

abbrev test_env : Env
test_env = record {
  route_prefix = "native:";
  now = λ w. 0;
  list_error = λ w. none;
  titles_error = λ w. none;
  favorites_error = λ w. none;
  playback_error = λ w. none;
  jobs_error = λ w. none;
  save_error = λ w. none;
  delete_error = λ w id. none;
  status = λ w hash. ok status;
  remove_error = λ w hash. none;
  free_space = λ w. ok 0;
}

abbrev test_settings : Settings
test_settings = record {
  allocation_gb = 3000;
  reserve_gb = 0;
  eviction_rules = [];
  protect_incomplete = true;
  protect_leased = true;
  protect_favorites = false;
  protect_never_watched = false;
}

abbrev test_route : String → String → Download → Route
test_route engine_id hash held = record {
  engine_id = engine_id;
  hash = hash;
  rows = held ∷ [];
  status = status;
  favorite = false;
  watched = false;
  last_played = 0;
}

abbrev test_plan : Plan
test_plan = record {
  routes = test_route "native:aa" "aa" old_row ∷ test_route "native:bb" "bb" leased_row ∷ [];
  stored_bytes = 4 * 2 ^ 30;
  free = ok 0;
}

surveyed : retention_survey test_env test_world ≡ ok test_plan
unfolding retention_survey route
surveyed = refl

run_evictions-Settled_example :
    let run = run_evictions test_env test_settings 0 test_world in
    Settled test_env test_settings 0 run.outcome run.world
run_evictions-Settled_example = run_evictions-Settled test_env test_settings 0 test_world

differ : ◌≢◌ {A = String} "d1" "d2"
differ e = let equal : str_eq "d1" "d2" ≡ true = (eq_iff "d1" "d2").1 e in ground (arith, equal)

unique : UniqueIds test_world.downloads
unique a b (inl e) (inl f) same = e ∙ sym f
unique a b (inl e) (inr (inl f)) same =
    absurd (differ (sym (ap (λ d. d.id) e) ∙ same ∙ ap (λ d. d.id) f))
unique a b (inr (inl e)) (inl f) same =
    absurd (differ (sym (ap (λ d. d.id) f) ∙ sym same ∙ ap (λ d. d.id) e))
unique a b (inr (inl e)) (inr (inl f)) same = e ∙ sym f
unique a b (inr (inr e)) m same = absurd e
unique a b m (inr (inr f)) same = absurd f

run_evictions-keeps_shielded_example :
    In leased_row (run_evictions test_env test_settings 0 test_world).world.downloads
run_evictions-keeps_shielded_example =
    run_evictions-keeps_shielded test_env test_settings leased_row (inl (refl, refl)) 0 test_world
      unique (inr (inl refl))

chosen :
    (evict_next test_env test_plan cap test_settings [] test_world).1
    ≡ evicted (test_route "native:aa" "aa" old_row)
unfolding evict_next route sort retention_protected remove_torrent
chosen = refl

evict_next-IsVictim_example :
    IsVictim test_env test_plan test_settings [] test_world
      (evict_next test_env test_plan cap test_settings [] test_world).0
      (test_route "native:aa" "aa" old_row)
evict_next-IsVictim_example =
    evict_next-IsVictim test_env test_plan cap test_settings [] test_world
      (test_route "native:aa" "aa" old_row) chosen

retention_survey-IsSurveyed_example :
    IsSurveyed test_env test_world (test_route "native:bb" "bb" leased_row)
retention_survey-IsSurveyed_example =
    retention_survey-IsSurveyed test_env test_world test_plan
      (test_route "native:bb" "bb" leased_row) surveyed (inr (inl refl))
