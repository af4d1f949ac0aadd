-- ===== src/Manager/Machine.antt =====
-- internal/application/updates/manager.go: the goroutines of the coordinator over their critical sections.
-- Any number of checks run beside the operation; a goroutine that has made its status and not committed
-- it holds it. `owed` counts the handlers whose accepted answer is not flushed yet; `started` says that
-- the startup sequence, which runs once, has asked for its operation.
use filelist_streaming_servi.Base.{
  ℕ, suc, ◌≡◌, Bool, true, false, Option, none, some, List, [], ◌∷◌, ◌++◌, ok, ◌==◌, if◌then◌else◌,
}
use filelist_streaming_servi.Release.{Selection, Identity}
use filelist_streaming_servi.Manager.{
  Status, Manager, Surroundings, Failure, Event, new_manager, base_status, commit_status,
  found_status, begin_operation, finish_operation, accept_operation, response_flushed,
  closed_channel,
}

-- Where the goroutine of the operation is, with the barrier it was given.
pub data Flight : Type 0 where
  no_operation : Flight
  deciding : ℕ → Flight  -- in `applyAccepted`, before the base status of its check
  holding : ℕ → Status → Flight  -- before the commit of that check
  decided : ℕ → Status → Flight
  installing : Flight

pub record Machine : Type 0 where
  pub manager : Manager
  pub flight : Flight
  pub held : List Status
  pub owed : ℕ
  pub started : Bool

abbrev pub new_machine : Identity → Bool → Machine
new_machine identity capable = record {
  manager = new_manager identity capable;
  flight = no_operation;
  held = [];
  owed = 0;
  started = false;
}

-- A new channel, as `Apply` makes one for its barrier.
abbrev pub with_channel : Manager → Manager
with_channel m = record m { made = suc m.made }

-- The failures with which an operation can end where it is.
abbrev pub MayEnd : Flight → Option Failure → Type 0
MayEnd no_operation failure = ⊥
MayEnd (deciding barrier) failure = Unit {0}
MayEnd (holding barrier status) failure = ⊥
MayEnd (decided barrier status) failure = (status.available ≡ false) × (failure ≡ none)
MayEnd installing failure = Unit {0}

-- `Apply` up to its token, with the channel that it makes.
unfoldable pub began : Manager → Machine → Machine
began m s = record s { manager = m; flight = deciding s.manager.made }

unfoldable pub began_startup : Manager → Machine → Machine
began_startup m s = record s { manager = m; flight = deciding closed_channel; started = true }

-- `applyAccepted` once the check offers a release; the startup sequence answers nobody.
unfoldable pub accepted : ℕ → Machine → Machine
unfolding accept_operation
accepted barrier s = record s {
  manager = (accept_operation barrier s.manager).0;
  flight = installing;
  owed = if barrier == closed_channel then s.owed else suc s.owed;
}

module _ (env : Surroundings) where
  abbrev pub status_of : Option Selection → Machine → Status
  status_of sel s = found_status env sel (base_status env.identity s.manager)

  pub data Move : Machine → Machine → Type 0 where
    reads :
        (s : Machine) (sel : Option Selection)
        → Move s (record s { held = status_of sel s ∷ s.held })
    commits :
        (s : Machine) (before : List Status) (status : Status) (rest : List Status)
        → s.held ≡ before ++ (status ∷ rest)
        → Move s (record s { manager = (commit_status status s.manager).0; held = before ++ rest })
    begins :
        (s : Machine) (m : Manager)
        → begin_operation (with_channel s.manager) ≡ ok m
        → Move s (began m s)
    begins_startup :
        (s : Machine) (m : Manager)
        → s.started ≡ false
        → begin_operation s.manager ≡ ok m
        → Move s (began_startup m s)
    reads_own :
        (s : Machine) (sel : Option Selection) (barrier : ℕ)
        → s.flight ≡ deciding barrier
        → Move s (record s { flight = holding barrier (status_of sel s) })
    commits_own :
        (s : Machine) (barrier : ℕ) (status : Status)
        → s.flight ≡ holding barrier status
        → Move s (record s {
          manager = (commit_status status s.manager).0;
          flight = decided barrier status;
        })
    accepts :
        (s : Machine) (barrier : ℕ) (status : Status)
        → s.flight ≡ decided barrier status
        → status.available ≡ true
        → Move s (accepted barrier s)
    ends :
        (s : Machine) (failure : Option Failure) (m : Manager) (events : List Event)
        → MayEnd s.flight failure
        → finish_operation failure s.manager ≡ some (m, events)
        → Move s (record s { manager = m; flight = no_operation })
    flushes :
        (s : Machine) (n : ℕ) (m : Manager)
        → s.owed ≡ suc n
        → response_flushed s.manager ≡ some m
        → Move s (record s { manager = m; owed = n })

  pub data Reached : Machine → Type 0 where
    fresh : (capable : Bool) → Reached (new_machine env.identity capable)
    moved : {s t : Machine} → Reached s → Move s t → Reached t
