-- ===== src/Supervisor.antt =====
-- internal/gui/supervisor.go: the desktop supervisor of the server. Every critical section under the
-- supervisor's mutex is one function; the goroutines between their critical sections are the system's
-- `building`, `serving` and `stopping`. An app is the number of its construction; its listen address, and
-- what the factory, the server and `CanStart` answer, are parameters.
pub mod Lifecycle
use filelist_streaming_servi.Base.{
  ℕ, zero, suc, ◌+◌, Bool, true, false, not, ◌||◌, Option, none, some, List, [], ◌∷◌, String, ◌==◌,
  if◌then◌else◌, keep, In, ◌≡◌,
}

pub data State : Type 0 where
  stopped starting running stopping failed : State

pub data Refusal : Type 0 where
  not_stopped : Refusal
  cannot_start : String → Refusal
  not_running : Refusal

-- The supervisor's fields, and behind them the system: its goroutines, the apps that were closed, the
-- callbacks that were fired (newest first), and how many apps were built.
pub record System : Type 0 where
  pub state : State
  pub error : Option String
  pub app : Option ℕ
  pub address : String
  pub building : ℕ  -- goroutines of `run` inside the app factory
  pub serving : List ℕ  -- goroutines of `run` inside `ListenAndServe`
  pub stopping : List ℕ  -- calls of `Stop` inside `Shutdown` or `Close`
  pub closed : List ℕ
  pub fired : List State
  pub built : ℕ

-- `NewSupervisor`
abbrev pub new_system : System
new_system = record {
  state = stopped;
  error = none;
  app = none;
  address = "";
  building = 0;
  serving = [];
  stopping = [];
  closed = [];
  fired = [];
  built = 0;
}

pub is_running : State → Bool
is_running running = true
is_running _ = false

is_stopped : State → Bool
is_stopped stopped = true
is_stopped failed = true
is_stopped _ = false

-- `transition`, and the callback fired once the lock is released.
transition : State → Option String → System → System
transition state error s = record s { state = state; error = error; fired = state ∷ s.fired }

-- `Start`, given what `CanStart` refuses.
unfoldable pub start : Option String → System → System × Option Refusal
unfolding is_stopped transition
start can_start s =
    if is_stopped s.state
    then elim can_start [
      | some e ↦ (s, some (cannot_start e))
      | none ↦ (record (transition starting none s) { building = s.building + 1 }, none)
    ]
    else (s, some not_stopped)

-- `run` when the factory failed.
unfoldable pub build_failed : String → System → System
unfolding transition
build_failed e s = transition failed (some e) s

-- `run` when the factory gave an app that listens on an address.
unfoldable pub build_done : String → System → System
unfolding transition
build_done address s =
    let s' = record s {
      app = some s.built;
      address = address;
      built = s.built + 1;
      serving = s.built ∷ s.serving;
    } in
    transition running none s'

-- `run` when `ListenAndServe` of an app returned: none for a nil error and for `ErrServerClosed`.
unfoldable pub serve_ended : ℕ → Option String → System → System
unfolding is_running transition
serve_ended app none s = s
serve_ended app (some e) s =
    if is_running s.state
    then transition failed (some e) (record s { app = none; closed = app ∷ s.closed })
    else s

push_app : Option ℕ → List ℕ → List ℕ
push_app none apps = apps
push_app (some app) apps = app ∷ apps

-- `Stop` up to the shutdown of the app that it took from the supervisor.
unfoldable pub stop_begin : System → System × Option Refusal
unfolding is_running transition push_app
stop_begin s =
    if is_running s.state
    then (record (transition stopping none s) { stopping = push_app s.app s.stopping }, none)
    else (s, some not_running)

-- `Stop` from the close of its app on.
unfoldable pub stop_end : ℕ → System → System
unfolding transition
stop_end app s = transition stopped none (record s { app = none; closed = app ∷ s.closed })

unfoldable pub remove : ℕ → List ℕ → List ℕ
remove n apps = keep (λ m. not (m == n)) apps

-- One step of some goroutine: a call of `Start` or `Stop`, or the next critical section of one that runs.
pub data Step : System → System → Type 0 where
  started : (s : System) (can_start : Option String) → Step s (start can_start s).0
  failed_build :
      (s : System) (n : ℕ) (e : String)
      → s.building ≡ suc n
      → Step s (build_failed e (record s { building = n }))
  finished_build :
      (s : System) (n : ℕ) (address : String)
      → s.building ≡ suc n
      → Step s (build_done address (record s { building = n }))
  ended_serve :
      (s : System) (app : ℕ) (e : Option String)
      → In app s.serving
      → Step s (serve_ended app e (record s { serving = remove app s.serving }))
  began_stop : (s : System) → Step s (stop_begin s).0
  ended_stop :
      (s : System) (app : ℕ)
      → In app s.stopping
      → Step s (stop_end app (record s { stopping = remove app s.stopping }))

pub data Reachable : System → Type 0 where
  created : Reachable new_system
  stepped : {s t : System} → Reachable s → Step s t → Reachable t
