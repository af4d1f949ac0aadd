-- ===== src/Tests/Managers.antt =====
-- The theorems on the update coordinator at a coordinator that runs version 1.1.0 and is told of 1.2.0.
use filelist_streaming_servi.Base.{
  ℕ, ◌≡◌, ◌≢◌, ◌⊎◌, ◌↔◌, refl, true, false, Option, none, some, List, [], ◌∷◌, codes, ok, err,
  arith, In,
}
use filelist_streaming_servi.Recovery.{Operation, Disk, rolled_back, copied, no_faults, Faults}
use filelist_streaming_servi.Manager.{
  Manager, Status, Surroundings, Failure, failed, Event, new_manager, begin_operation,
  finish_operation, response_flushed, closed_channel, commit_status, apply_busy, found_status,
}
use filelist_streaming_servi.Manager.Machine.{
  Machine, new_machine, Reached, fresh, moved, begins, reads_own, commits_own, accepts, holding,
  decided, installing, no_operation, began, accepted, with_channel, status_of,
}
use filelist_streaming_servi.Manager.Applied.{Application, begin_apply}
use filelist_streaming_servi.Manager.Branches.{IsRefused, IsFailed, IsCurrent, IsStarted}
use filelist_streaming_servi.Manager.Begun.{begin_apply-Answers}
use filelist_streaming_servi.Manager.Endings.{ended}
use filelist_streaming_servi.Manager.Single.{Reached-single}
use filelist_streaming_servi.Manager.Stale.{checks, stale_applying}
use filelist_streaming_servi.Manager.Flights.{taken}
use filelist_streaming_servi.Manager.Pipeline.{Course, PipelineCall, plain, released}
use filelist_streaming_servi.Tests.Updates.{outside, installation, selection, operation}

abbrev surroundings : Surroundings
surroundings = record {
  identity = installation;
  is_wired = true;
  notice = ok (some (codes " v1.2.0"));
  out = outside;
  resolve_failure = λ e. failed (codes "no release");
  invalid_version = codes "not a release version";
  format_rfc3339 = λ t. codes "1970-01-01T00:00:07Z";
}

abbrev idle_manager : Manager
idle_manager = new_manager installation true

abbrev free_machine : Machine
free_machine = new_machine installation true

abbrev deciding_machine : Machine
deciding_machine = began (taken (with_channel idle_manager)) free_machine

abbrev own_status : Status
own_status = status_of surroundings (some selection) deciding_machine

abbrev holding_machine : Machine
holding_machine = record deciding_machine { flight = holding 1 own_status }

abbrev decided_machine : Machine
decided_machine = record holding_machine {
  manager = (commit_status own_status (holding_machine.manager)).0;
  flight = decided 1 own_status;
}

abbrev installing_machine : Machine
installing_machine = accepted 1 decided_machine

begun : Reached surroundings deciding_machine
unfolding began taken begin_operation
begun = moved (fresh true) (begins free_machine (taken (with_channel idle_manager)) refl)

installs : Reached surroundings installing_machine
unfolding began taken found_status
installs =
    moved
      (moved (moved begun (reads_own deciding_machine (some selection) 1 refl))
        (commits_own holding_machine 1 own_status refl))
      (accepts decided_machine 1 own_status refl refl)

Reached-single_example :
    ((begin_operation (installing_machine.manager) ≡ err apply_busy)
      ↔ (installing_machine.flight ≢ no_operation))
    × ((failure : Option Failure)
        → installing_machine.flight ≢ no_operation
        → (m : Manager) × (events : List Event) × (finish_operation failure
              (installing_machine.manager)
            ≡ some (m, events))
          × ((m.applying ≡ false)
              × ((m.barrier ≡ none)
                  × ((m.cancel_op ≡ false) × (In (installing_machine.manager.idle) m.closed)))))
    × ((barrier : ℕ)
        → installing_machine.manager.barrier ≡ some barrier
        → (installing_machine.flight ≡ installing)
          × ((response_flushed (installing_machine.manager) ≡ none) ↔ (barrier ≡ closed_channel)))
Reached-single_example = Reached-single surroundings installs

applies : installing_machine.manager.status.applying ≡ true
unfolding accepted
applies = refl

installs_now : installing_machine.flight ≡ installing
unfolding accepted
installs_now = refl

abbrev stale_status : Status
stale_status = status_of surroundings none installing_machine

abbrev overtaken : Manager
overtaken = (commit_status stale_status (ended (installing_machine.manager))).0

stale_applying_example :
    Reached surroundings (record installing_machine { manager = overtaken; flight = no_operation })
    × ((checks (surroundings ∷ []) overtaken).applying ≡ false)
    × ((checks (surroundings ∷ []) overtaken).status.applying ≡ true)
stale_applying_example =
    stale_applying surroundings installing_machine none none (surroundings ∷ []) installs
      installs_now applies

begin_apply-Answers_example :
    (app : Application) × (begin_apply false surroundings 1 (with_channel idle_manager) ≡ some app)
    × (IsRefused (with_channel idle_manager) app
        ⊎ (IsFailed false surroundings (with_channel idle_manager) app
            ⊎ (IsCurrent surroundings (with_channel idle_manager) app
                ⊎ IsStarted surroundings 1 (with_channel idle_manager) app)))
begin_apply-Answers_example =
    begin_apply-Answers false surroundings 1 (with_channel idle_manager) (omega arith, tt)

-- The handoff is refused after the activation.
abbrev course : Course
course = record {
  wake = released;
  supervision = plain;
  refuses = λ call. elim call [
    | PipelineCall.hand_off ↦ some (failed (codes "no helper"))
    | other ↦ none
  ];
  id = "op1";
  version = "1.2.0";
  payload = 2;
  begun = 10;
  health_timeout = 80;
  route = copied (3 ∷ []);
  effects = 3;
}

abbrev current_disk : Disk
current_disk = record { live = some 1; backup = none; staged_file = none; journal = none }

abbrev rolled_back_operation : Operation
rolled_back_operation = record (operation rolled_back) { suppress_next = true }

abbrev rolled_back_disk : Disk
rolled_back_disk = record current_disk { journal = some rolled_back_operation }

abbrev locked : Faults
locked = record no_faults { is_blocked = true }
