-- ===== src/Eviction/Termination.antt =====
-- internal/application/retention.go and service.go: the ends of the eviction loop that `runRetention` and
-- `ensureAllocationRoom` share.
use filelist_streaming_servi.Base.{
  ℕ, zero, suc, ◌+◌, ◌<◌, ◌≡◌, refl, sym, ap, subst, ◌∙◌, ◌⊎◌, inl, inr, true, none, some, List, [],
  ◌∷◌, Runes, ok, str_eq, arith, All, In, length, In-of_In-keep, Option-cases, Result-cases, err,
}
use filelist_streaming_servi.Domain.{Download}
use filelist_streaming_servi.Settings.{Settings, normalize_eviction_rules}
use filelist_streaming_servi.Retention.{Route, retention_protected}
use filelist_streaming_servi.World.{World, Env, Error}
use filelist_streaming_servi.Survey.{Plan, Reason, retention_survey, retention_deficit}
use filelist_streaming_servi.Survey.Grouping.{retention_survey-IsSurveyed}
use filelist_streaming_servi.Eviction.{
  Evicted, evicted, nothing, failed, evict_next, Outcome, fits, all_protected, stopped, out_of_fuel,
  with_incoming, evict_until_fits, run_evictions, remove_torrent,
}
use filelist_streaming_servi.Eviction.Victim.{
  evict_next-IsVictim, evict_next_nothing, evict_next_failed,
}
use filelist_streaming_servi.Eviction.Removal.{length-remove_torrent-lt}

-- The error is one that a survey or the removal of a torrent gives.
abbrev pub Refuses : Env → Error → Type 0
Refuses env e =
    (w : World) × ((retention_survey env w ≡ err e)
      ⊎ ((v : Route) × ((remove_torrent env v.engine_id w).1 ≡ some e)))

-- What each end of a loop says of the world that it leaves.
abbrev pub Settled : Env → Settings → ℕ → Outcome → World → Type 0
Settled env settings incoming fits w =
    (plan : Plan) × (retention_survey env w ≡ ok plan)
    × (retention_deficit (with_incoming incoming plan) settings ≡ none)
Settled env settings incoming (all_protected reason p) w =
    (plan : Plan) × (retention_survey env w ≡ ok plan)
    × (p ≡ with_incoming incoming plan)
    × (retention_deficit p settings ≡ some reason)
    × All (λ r. retention_protected r settings ≡ true) plan.routes
Settled env settings incoming (stopped e) w = Refuses env e
Settled env settings incoming out_of_fuel w = ⊥

some-In : (rows : List Download) → 0 < length rows → (d : Download) × In d rows
some-In [] h = absurd (omega arith)
some-In (d ∷ rows) h = (d, inl refl)

-- The rows fall by one at least in a round that evicts.
pub length-evict_next-lt :
    (env : Env) (plan p : Plan) (reason : Reason) (settings : Settings) (rules : List Runes)
    (w : World) (v : Route)
    → retention_survey env w ≡ ok p
    → plan.routes ≡ p.routes
    → (evict_next env plan reason settings rules w).1 ≡ evicted v
    → length (evict_next env plan reason settings rules w).0.downloads < length w.downloads
length-evict_next-lt env plan p reason settings rules w v surveyed same h =
    let victim = evict_next-IsVictim env plan reason settings rules w v h in
    let route = retention_survey-IsSurveyed env w p v surveyed (subst (In v) same victim.planned) in
    let (d, m) = some-In v.rows route.rows_some in
    let (held, pinned) =
      In-of_In-keep (λ row. str_eq row.engine_id v.engine_id) d w.downloads
        (subst (In d) route.rows_complete m) in
    subst (λ ds. length ds < length w.downloads) (sym victim.rows)
      (length-remove_torrent-lt env v.engine_id d w held pinned victim.removed)

pub Evicted-cases :
    (a : Evicted) → ((v : Route) × (a ≡ evicted v)) ⊎ (a ≡ nothing) ⊎ ((e : Error) × (a ≡ failed e))
Evicted-cases (evicted v) = inl (v, refl)
Evicted-cases nothing = inr (inl refl)
Evicted-cases (failed e) = inr (inr (e, refl))

evict_until_fits-Settled :
    (fuel : ℕ) (env : Env) (settings : Settings) (rules : List Runes) (incoming : ℕ) (plan : Plan)
    (n b : ℕ) (w : World)
    → retention_survey env w ≡ ok plan
    → length w.downloads < fuel
    → let run =
        evict_until_fits fuel env settings rules incoming (with_incoming incoming plan) n b w in
      Settled env settings incoming run.outcome run.world
unfolding evict_until_fits
evict_until_fits-Settled zero env settings rules incoming plan n b w e h = absurd (omega arith)
evict_until_fits-Settled (suc fuel) env settings rules incoming plan n b w e h =
    elim (Option-cases (retention_deficit (with_incoming incoming plan) settings)) [
      | inl within ↦ rw (within, evict_until_fits) (plan, e, within)
      | inr (reason, tripped) ↦
          rw (tripped, evict_until_fits)
            (elim (Evicted-cases
              (evict_next env (with_incoming incoming plan) reason settings rules w).1) [
                | inr (inr (x, refused)) ↦
                    rw (refused, evict_until_fits)
                      (
                        w,
                        inr (
                            evict_next_failed env (with_incoming incoming plan) reason settings
                              rules w x refused),
                      )
                | inr (inl none_left) ↦
                    rw (none_left, evict_until_fits)
                      (let (closed, same) =
                          evict_next_nothing env (with_incoming incoming plan) reason settings rules
                            w none_left in
                        (plan, ap (retention_survey env) same ∙ e, refl, tripped, closed))
                | inl (v, gone) ↦
                    rw (gone, evict_until_fits)
                      (let w' =
                          (evict_next env (with_incoming incoming plan) reason settings rules
                            w).0 in
                        elim (Result-cases (retention_survey env w')) [
                          | inr (x, refused) ↦ rw (refused, evict_until_fits) (w', inl refused)
                          | inl (plan', again) ↦
                              rw (again, evict_until_fits)
                                (evict_until_fits-Settled fuel env settings rules incoming plan'
                                  (n + 1) (b + v.status.total_bytes) w' again
                                  (omega (
                                    arith,
                                    length-evict_next-lt env (with_incoming incoming plan) plan
                                        reason settings rules w v e refl gone,
                                  )))
                        ])
              ])
    ]

-- The eviction loop, with the fuel that `run_evictions` gives it, ends for every answer of the database
-- and the engine, and its end is true of a fresh survey of the world left: `fits` where no limit is
-- exceeded, `all_protected` where one is and every route is protected, `stopped` with an error that a
-- survey or the removal of a torrent gives.
pub run_evictions-Settled :
    (env : Env) (settings : Settings) (incoming : ℕ) (w : World)
    → let run = run_evictions env settings incoming w in
      Settled env settings incoming run.outcome run.world
unfolding run_evictions
run_evictions-Settled env settings incoming w = elim (Result-cases (retention_survey env w)) [
  | inr (e, refused) ↦ rw (refused, run_evictions) (w, inl refused)
  | inl (plan, surveyed) ↦
      rw (surveyed, run_evictions)
        (evict_until_fits-Settled (length w.downloads + 1) env settings
          (normalize_eviction_rules settings.eviction_rules) incoming plan 0 0 w surveyed
          (omega arith))
]
