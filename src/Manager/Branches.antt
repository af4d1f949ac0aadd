-- ===== src/Manager/Branches.antt =====
-- internal/application/updates/manager.go, `Apply`: what its branches promise, and what they compute.
use filelist_streaming_servi.Base.{
  ℕ, ◌≡◌, ◌⊎◌, refl, Bool, true, false, Option, none, some, List, [], ◌∷◌, ◌++◌, Runes, Result, ok,
  err, if◌then◌else◌, arith, ◌==◌, any, runes_eq-equal,
}
use filelist_streaming_servi.Release.{Selection, is_newer}
use filelist_streaming_servi.Release.Trust.{IsTrusted}
use filelist_streaming_servi.Manager.{
  Status, Manager, Surroundings, Failure, apply_busy, manual_only, canceled, failed, Event,
  event_status, event_failed, check_updates, begin_operation, finish_operation, accept_operation,
  Found, offered, neutral_message, fetch, failure_events, released, commit_status, found_status,
  base_status, bool_eq, status_eq,
}
use filelist_streaming_servi.Manager.Applied.{
  Application, begin_apply, finish_with, fail_apply, accept_found, apply_accepted, selection_of,
  answer_check,
}
use filelist_streaming_servi.Manager.Flights.{taken}
use filelist_streaming_servi.Manager.Endings.{ended, close-open}

pub finish_with-ended :
    (failure : Option Failure) (m : Manager) (events : List Event)
    (answer : Result Failure (Bool × Status))
    → any (λ c. c == m.idle) m.closed ≡ false
    → finish_with failure m events answer
      ≡ some record {
        manager = ended m;
        events =
            events
            ++ (failure_events failure
                ++ (if m.status.applying then event_status (ended m).status ∷ [] else []));
        answer = answer;
        started = none;
      }
unfolding finish_with ended released
finish_with-ended failure m events answer h =
    rw (finish_with, finish_operation, close-open m.idle (released m) h) refl

pub commit-idle :
    (status : Status) (m : Manager)
    → ((commit_status status m).0.idle ≡ m.idle) × ((commit_status status m).0.closed ≡ m.closed)
unfolding commit_status
commit-idle status m = (ground arith, ground arith)

pub bool_eq-equal : (b c : Bool) → bool_eq b c ≡ true → b ≡ c
unfolding bool_eq
bool_eq-equal b c e = ground arith

pub status_eq-equal : (s t : Status) → status_eq s t ≡ true → s ≡ t
unfolding status_eq
status_eq-equal s t e = ground (
  arith,
  runes_eq-equal s.current_version t.current_version,
  runes_eq-equal s.latest t.latest,
  runes_eq-equal s.notes t.notes,
  runes_eq-equal s.released_at t.released_at,
  runes_eq-equal s.releases_url t.releases_url,
  bool_eq-equal s.available t.available,
  bool_eq-equal s.self_update t.self_update,
  bool_eq-equal s.applying t.applying,
)

pub commit-status : (status : Status) (m : Manager) → (commit_status status m).0.status ≡ status
unfolding commit_status
commit-status status m = ground (arith, status_eq-equal status m.status)

-- Refused: nothing changes.
pub record IsRefused (m : Manager) (app : Application) : Type 0 where
  pub reason :
      ((m.applying ≡ true) × (app.answer ≡ err apply_busy))
      ⊎ ((m.applying ≡ false)
          × (m.status.self_update ≡ false)
          × ((text : Runes) × (app.answer ≡ err (manual_only text))))
  pub unchanged : (app.manager ≡ m) × (app.events ≡ [])
  pub nothing : app.started ≡ none

-- The token was free, was taken and is given back.
pub record IsReleased (m : Manager) (app : Application) : Type 0 where
  pub was_free : (m.applying ≡ false) × (m.status.self_update ≡ true)
  pub free : (app.manager.applying ≡ false) × (app.manager.barrier ≡ none)
  pub not_applying : app.manager.status.applying ≡ false
  pub nothing : app.started ≡ none

-- The text of the failure is an event, except where the caller's context has ended and it is that end.
unfoldable pub reported : Bool → Failure → List Event
reported true (canceled text) = []
reported done failure = event_failed (neutral_message failure) ∷ []

-- Failed: the fetch gave an error; what was available stays so.
pub record IsFailed (done : Bool) (env : Surroundings) (m : Manager) (app : Application)
    : Type 0 where
  pub failure : Failure
  pub fetched : fetch env ≡ err failure
  pub answered : app.answer ≡ err failure
  pub token : IsReleased m app
  pub kept : app.manager.status ≡ record (m.status) { applying = false }
  pub told :
      app.events
      ≡ reported done failure
        ++ (if m.status.applying then event_status app.manager.status ∷ [] else [])

-- Current: the fetch found nothing newer; nothing is available any more.
pub record IsCurrent (env : Surroundings) (m : Manager) (app : Application) : Type 0 where
  pub found : Found
  pub fetched : fetch env ≡ ok found
  pub not_newer : offered found ≡ none
  pub status : Status
  pub answered : (app.answer ≡ ok (false, status)) × (status.available ≡ false)
  pub token : IsReleased m app
  pub cleared : app.manager.status.available ≡ false

-- Started: the selection is trusted for the announced version and newer than the running one.
pub record IsStarted (env : Surroundings) (barrier : ℕ) (m : Manager) (app : Application)
    : Type 0 where
  pub sel : Selection
  pub hint : Runes
  pub started : app.started ≡ some sel
  pub announced : env.notice ≡ ok (some hint)
  pub trusted : IsTrusted env.out env.identity hint sel
  pub newer : is_newer env.out env.identity.version sel.version ≡ some true
  pub was_free : (m.applying ≡ false) × (m.status.self_update ≡ true)
  pub held :
      (app.manager.applying ≡ true)
      × (app.manager.barrier ≡ some barrier)
      × (app.manager.cancel_op ≡ true)
  pub answered : app.answer ≡ ok (true, app.manager.status)
  pub applying :
      (app.manager.status.applying ≡ true)
      × (app.manager.status.available ≡ true)
      × (app.manager.status.latest ≡ sel.version)

-- The applications of the branches.
abbrev pub failed_app : Bool → Failure → Manager → Application
failed_app done failure m = record {
  manager = ended m;
  events =
      reported done failure
      ++ (if m.status.applying then event_status (ended m).status ∷ [] else []);
  answer = err failure;
  started = none;
}

abbrev pub current_app : Status → Manager → Application
current_app status m =
    let (m', events) = commit_status status m in
    record {
      manager = ended m';
      events = events ++ (if m'.status.applying then event_status (ended m').status ∷ [] else []);
      answer = ok (false, status);
      started = none;
    }

abbrev pub started_app : ℕ → Status → Selection → Manager → Application
started_app barrier status sel m =
    let (m', events) = commit_status status m in
    let (m'', more) = accept_operation barrier m' in
    record {
      manager = m'';
      events = events ++ more;
      answer = ok (true, m''.status);
      started = some sel;
    }

pub fail_apply-told :
    (done : Bool) (failure : Failure) (m : Manager)
    → any (λ c. c == m.idle) m.closed ≡ false
    → fail_apply done failure m [] ≡ some (failed_app done failure m)
unfolding fail_apply reported failure_events
fail_apply-told true (canceled text) m h = finish_with-ended none m [] _ h
fail_apply-told false (canceled text) m h = finish_with-ended (some (canceled text)) m [] _ h
fail_apply-told true apply_busy m h = finish_with-ended (some apply_busy) m [] _ h
fail_apply-told false apply_busy m h = finish_with-ended (some apply_busy) m [] _ h
fail_apply-told true (manual_only text) m h = finish_with-ended (some (manual_only text)) m [] _ h
fail_apply-told false (manual_only text) m h = finish_with-ended (some (manual_only text)) m [] _ h
fail_apply-told true (failed text) m h = finish_with-ended (some (failed text)) m [] _ h
fail_apply-told false (failed text) m h = finish_with-ended (some (failed text)) m [] _ h

pub begin-taken :
    (m : Manager)
    → m.applying ≡ false
    → m.status.self_update ≡ true
    → begin_operation m ≡ ok (taken m)
unfolding begin_operation taken
begin-taken m a b = rw a (rw b refl)

pub check-err :
    (env : Surroundings) (m : Manager) (e : Failure)
    → fetch env ≡ err e
    → check_updates env m ≡ (m, ([], err e))
unfolding check_updates
check-err env m e f = rw (check_updates, f) refl

pub check-ok :
    (env : Surroundings) (m : Manager) (found : Found)
    → fetch env ≡ ok found
    → let status = found_status env (offered found) (base_status env.identity m) in
      check_updates env m
      ≡ ((commit_status status m).0, ((commit_status status m).1, ok (status, found)))
unfolding check_updates
check-ok env m found f = rw (check_updates, f) refl

-- `Apply` once the token is taken.
pub apply-taken :
    (done : Bool) (env : Surroundings) (barrier : ℕ) (m : Manager)
    → m.applying ≡ false
    → m.status.self_update ≡ true
    → begin_apply done env barrier m ≡ apply_accepted done env barrier (taken m)
unfolding begin_apply
apply-taken done env barrier m a b = rw (begin_apply, begin-taken m a b) refl

pub apply-failed :
    (done : Bool) (env : Surroundings) (barrier : ℕ) (m : Manager) (e : Failure)
    → any (λ c. c == m.idle) m.closed ≡ false
    → fetch env ≡ err e
    → apply_accepted done env barrier m ≡ some (failed_app done e m)
unfolding apply_accepted answer_check
apply-failed done env barrier m e o f =
    rw (apply_accepted, check-err env m e f) (fail_apply-told done e m o)

pub apply-current :
    (done : Bool) (env : Surroundings) (barrier : ℕ) (m : Manager) (found : Found)
    → any (λ c. c == m.idle) m.closed ≡ false
    → fetch env ≡ ok found
    → offered found ≡ none
    → apply_accepted done env barrier m ≡ some (current_app (base_status env.identity m) m)
unfolding apply_accepted answer_check found_status accept_found
apply-current done env barrier m found o f none_newer =
    let status = base_status env.identity m in
    let c = commit-idle status m in
    rw (apply_accepted, check-ok env m found f, none_newer)
      (finish_with-ended none (commit_status status m).0 (commit_status status m).1
        (ok (false, status)) (rw (c.0, c.1) o))

pub apply-started :
    (done : Bool) (env : Surroundings) (barrier : ℕ) (m : Manager) (found : Found) (sel : Selection)
    → fetch env ≡ ok found
    → offered found ≡ some sel
    → apply_accepted done env barrier m
      ≡ some (started_app barrier (found_status env (some sel) (base_status env.identity m)) sel m)
unfolding apply_accepted answer_check found_status accept_found selection_of offered
apply-started done env barrier m none sel f o = absurd (ground arith)
apply-started done env barrier m (some (sel', newer)) sel f o =
    rw (apply_accepted, check-ok env m (some (sel', newer)) f) (ground arith)
