-- ===== src/Manager/Applied.antt =====
-- internal/application/updates/manager.go, `Apply`: from the request to the accepted installation, where
-- no other goroutine of the coordinator comes between.
use filelist_streaming_servi.Base.{
  ℕ, Bool, true, false, not, Option, none, some, List, [], ◌++◌, Result, ok, err, if◌then◌else◌,
}
use filelist_streaming_servi.Release.{Selection}
use filelist_streaming_servi.Manager.{
  Status, Manager, Surroundings, Failure, apply_busy, manual_only, canceled, failed, Event,
  check_updates, begin_operation, finish_operation, accept_operation, Found,
}

-- What a request comes to: the installation that it starts, if any.
pub record Application : Type 0 where
  pub manager : Manager
  pub events : List Event
  pub answer : Result Failure (Bool × Status)
  pub started : Option Selection

-- The release of the token before an answer; none where it panics.
unfoldable pub finish_with :
    Option Failure → Manager → List Event → Result Failure (Bool × Status) → Option Application
unfolding finish_operation
finish_with failure m events answer = elim (finish_operation failure m) [
  | none ↦ none
  | some (m', more) ↦
      some record { manager = m'; events = events ++ more; answer = answer; started = none }
]

-- `beginApply` for a failure of `applyAccepted`: `done` says that the caller's context has ended.
unfoldable pub fail_apply : Bool → Failure → Manager → List Event → Option Application
unfolding finish_with
fail_apply done (canceled text) m events =
    finish_with (if done then none else some (canceled text)) m events (err (canceled text))
fail_apply done apply_busy m events = finish_with (some apply_busy) m events (err apply_busy)
fail_apply done (manual_only text) m events =
    finish_with (some (manual_only text)) m events (err (manual_only text))
fail_apply done (failed text) m events =
    finish_with (some (failed text)) m events (err (failed text))

unfoldable pub selection_of : Found → Option Selection
selection_of none = none
selection_of (some (sel, newer)) = some sel

unfoldable pub accept_found : ℕ → Manager → List Event → Status → Found → Option Application
unfolding finish_with accept_operation selection_of
accept_found barrier m events status found =
    if not status.available
    then finish_with none m events (ok (false, status))
    else let (m', more) = accept_operation barrier m in
      some record {
        manager = m';
        events = events ++ more;
        answer = ok (true, m'.status);
        started = selection_of found;
      }

-- `applyAccepted`, and `beginApply` for its failure, from the result of the check on.
unfoldable pub answer_check :
    Bool → ℕ → Manager × (List Event × Result Failure (Status × Found)) → Option Application
unfolding fail_apply accept_found
answer_check done barrier (m, (events, err failure)) = fail_apply done failure m events
answer_check done barrier (m, (events, ok (status, found))) =
    accept_found barrier m events status found

unfoldable pub apply_accepted : Bool → Surroundings → ℕ → Manager → Option Application
unfolding answer_check check_updates
apply_accepted done env barrier m = answer_check done barrier (check_updates env m)

unfoldable pub begin_apply : Bool → Surroundings → ℕ → Manager → Option Application
unfolding apply_accepted begin_operation
begin_apply done env barrier m = elim (begin_operation m) [
  | err failure ↦ some record { manager = m; events = []; answer = err failure; started = none }
  | ok m' ↦ apply_accepted done env barrier m'
]
