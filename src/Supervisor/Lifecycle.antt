-- ===== src/Supervisor/Lifecycle.antt =====
-- internal/gui/supervisor.go: the supervisor's fields beside its goroutines, over all interleavings.
use filelist_streaming_servi.Base.{
  ℕ, suc, ◌+◌, ◌<◌, ◌≡◌, refl, ◌≢◌, Option, none, some, [], ◌∷◌, String, In, arith, ◌==◌, not, ap,
  ◌∙◌, In-of_In-keep, not, In-keep,
}
use filelist_streaming_servi.Supervisor.{
  State, stopped, starting, running, stopping, failed, System, Step, Reachable, start, build_failed,
  build_done, serve_ended, stop_begin, stop_end, created, stepped, started, new_system, remove,
  failed_build, finished_build, ended_serve, began_stop, ended_stop, not_running,
}

-- What the phase of the lifecycle says of the app and of the goroutines.
abbrev PhaseHolds : State → System → Type 0
PhaseHolds stopped s = (s.app ≡ none) × ((s.building ≡ 0) × (s.stopping ≡ []))
PhaseHolds failed s = (s.app ≡ none) × ((s.building ≡ 0) × (s.stopping ≡ []))
PhaseHolds starting s = (s.app ≡ none) × ((s.building ≡ 1) × (s.stopping ≡ []))
PhaseHolds running s =
    (app : ℕ) × (s.app ≡ some app)
    × ((In app s.closed → ⊥) × ((app + 1 ≡ s.built) × ((s.building ≡ 0) × (s.stopping ≡ []))))
PhaseHolds stopping s =
    (app : ℕ) × (s.app ≡ some app)
    × ((In app s.closed → ⊥) × ((app + 1 ≡ s.built) × ((s.building ≡ 0) × (s.stopping ≡ app ∷ []))))

pub record WellFormed (s : System) : Type 0 where
  pub phase : PhaseHolds s.state s
  pub closed_built : (app : ℕ) → In app s.closed → app < s.built
  pub serving_built : (app : ℕ) → In app s.serving → app < s.built
  pub error_failed : s.state ≢ failed → s.error ≡ none

new_system-WellFormed : WellFormed new_system
new_system-WellFormed = record {
  phase = (refl, (refl, refl));
  closed_built = λ app m. absurd m;
  serving_built = λ app m. absurd m;
  error_failed = λ n. refl;
}

start-WellFormed :
    (can_start : Option String) (s : System) → WellFormed s → WellFormed (start can_start s).0
unfolding start
start-WellFormed can_start s w = record {
  phase = ground arith;
  closed_built = λ app. ground (arith, w.closed_built app);
  serving_built = λ app. ground (arith, w.serving_built app);
  error_failed = ground (arith, w.error_failed);
}

build_failed-WellFormed :
    (s : System) (n : ℕ) (e : String)
    → s.building ≡ suc n
    → WellFormed s
    → WellFormed (build_failed e (record s { building = n }))
unfolding build_failed
build_failed-WellFormed s n e b w = record {
  phase = ground arith;
  closed_built = w.closed_built;
  serving_built = w.serving_built;
  error_failed = λ x. absurd (x refl);
}

build_done-WellFormed :
    (s : System) (n : ℕ) (address : String)
    → s.building ≡ suc n
    → WellFormed s
    → WellFormed (build_done address (record s { building = n }))
unfolding build_done
build_done-WellFormed s n address b w = record {
  phase = (
    s.built,
    refl,
    (λ m. omega (arith, w.closed_built s.built m), (refl, (ground arith, ground arith))),
  );
  closed_built = λ app m. omega (arith, w.closed_built app m);
  serving_built = λ app m. ground (arith, w.serving_built app);
  error_failed = λ x. refl;
}

serve_ended-WellFormed :
    (s : System) (app : ℕ) (e : Option String)
    → In app s.serving
    → WellFormed s
    → WellFormed (serve_ended app e (record s { serving = remove app s.serving }))
unfolding serve_ended remove
serve_ended-WellFormed s app none m w = record {
  phase = ground arith;
  closed_built = w.closed_built;
  serving_built = λ a i. w.serving_built a (In-of_In-keep _ a s.serving i).0;
  error_failed = w.error_failed;
}
serve_ended-WellFormed s app (some e) m w = record {
  phase = ground arith;
  closed_built = λ a. ground (arith, w.closed_built a, w.serving_built app m);
  serving_built =
      λ a. ground (arith, In-of_In-keep (λ m. not (m == app)) a s.serving, w.serving_built a);
  error_failed = ground (arith, w.error_failed);
}

stop_begin-WellFormed : (s : System) → WellFormed s → WellFormed (stop_begin s).0
unfolding stop_begin
stop_begin-WellFormed s w = record {
  phase = ground arith;
  closed_built = λ app. ground (arith, w.closed_built app);
  serving_built = λ app. ground (arith, w.serving_built app);
  error_failed = ground (arith, w.error_failed);
}

stopping-phase :
    (s : System) (app : ℕ)
    → In app s.stopping
    → WellFormed s
    → (s.stopping ≡ app ∷ []) × (app < s.built)
stopping-phase s app m w = (ground arith, ground arith)

remove-only : (app : ℕ) → remove app (app ∷ []) ≡ []
unfolding remove
remove-only app = ground arith

stop_end-WellFormed :
    (s : System) (app : ℕ)
    → In app s.stopping
    → WellFormed s
    → WellFormed (stop_end app (record s { stopping = remove app s.stopping }))
unfolding stop_end
stop_end-WellFormed s app m w = record {
  phase = (refl, (ground arith, ap (remove app) (stopping-phase s app m w).0 ∙ remove-only app));
  closed_built = λ a. ground (arith, w.closed_built a, stopping-phase s app m w);
  serving_built = w.serving_built;
  error_failed = λ x. refl;
}

Step-WellFormed : {s t : System} → Step s t → WellFormed s → WellFormed t
Step-WellFormed (started s can_start) w = start-WellFormed can_start s w
Step-WellFormed (failed_build s n e b) w = build_failed-WellFormed s n e b w
Step-WellFormed (finished_build s n address b) w = build_done-WellFormed s n address b w
Step-WellFormed (ended_serve s app e m) w = serve_ended-WellFormed s app e m w
Step-WellFormed (began_stop s) w = stop_begin-WellFormed s w
Step-WellFormed (ended_stop s app m) w = stop_end-WellFormed s app m w

-- In every reachable system the phase fixes the app held and the goroutines inside the factory and inside
-- `Stop`, an app held is the last one built and not closed, every closed or serving app was built, and
-- only the failed phase carries an error.
pub Reachable-WellFormed : {s : System} → Reachable s → WellFormed s
Reachable-WellFormed created = new_system-WellFormed
Reachable-WellFormed (stepped r t) = Step-WellFormed t (Reachable-WellFormed r)

-- In a reachable system that runs and holds an app which serves, let the goroutine of another app fail.
-- The system after it, reachable too, has failed and holds no app; the app that ran still serves, is not
-- closed, and `Stop` is refused.
pub stale_failure :
    (s : System) (old new : ℕ) (e : String)
    → Reachable s
    → s.state ≡ running
    → s.app ≡ some new
    → old ≢ new
    → In old s.serving
    → In new s.serving
    → let t = serve_ended old (some e) (record s { serving = remove old s.serving }) in
      Reachable t
      × (t.state ≡ failed)
      × ((t.app ≡ none)
          × (In new t.serving × ((In new t.closed → ⊥) × ((stop_begin t).1 ≡ some not_running))))
unfolding serve_ended remove stop_begin
stale_failure s old new e reached r a d stale m =
    let w = Reachable-WellFormed reached in
    let open_ : In new s.closed → ⊥ = ground (arith, w.phase) in
    (
      stepped reached (ended_serve s old (some e) stale),
      ground arith,
      (
        ground arith,
        (
          ground (arith, In-keep (λ m. not (m == old)) new s.serving m),
          (ground arith, ground arith),
        ),
      ),
    )
