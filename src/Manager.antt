-- ===== src/Manager.antt =====
-- internal/application/updates/manager.go and types.go: the update coordinator. Every critical section
-- under its mutex is one function, with the events that are emitted once the lock is released; `check`
-- and `Apply` compose them, and `Manager.Machine` interleaves them. A channel is the number of its
-- construction; the notice and what the resolver reads are the parameter `Surroundings`.
pub mod Applied
pub mod Begun
pub mod Branches
pub mod Endings
pub mod Flights
pub mod Machine
pub mod Pipeline
pub mod Settled
pub mod Single
pub mod Stale
pub mod Startups
pub mod Unsuppressed
use filelist_streaming_servi.Base.{
  ℕ, suc, ◌+◌, Bool, true, false, not, ◌&&◌, ◌||◌, Option, none, some, List, [], ◌∷◌, ◌++◌, Runes,
  codes, Result, ok, err, ◌==◌, if◌then◌else◌, runes_eq, any,
}
use filelist_streaming_servi.Release.{
  Outside, Identity, Selection, ResolveError, is_newer, self_update_capable,
}
use filelist_streaming_servi.Release.Trust.{resolve}

pub record Status : Type 0 where
  pub current_version : Runes
  pub available : Bool
  pub latest : Runes
  pub notes : Runes
  pub released_at : Runes
  pub releases_url : Runes
  pub self_update : Bool
  pub applying : Bool

-- An error by what `errors.Is` can see of it, with its text.
pub data Failure : Type 0 where
  apply_busy : Failure
  manual_only canceled failed : Runes → Failure

pub data Event : Type 0 where
  event_status : Status → Event
  event_failed : Runes → Event

-- The manager's fields, and behind them the channels: how many were made, and which are closed.
pub record Manager : Type 0 where
  pub status : Status
  pub applying : Bool
  pub barrier : Option ℕ
  pub idle : ℕ
  pub cancel_op : Bool  -- whether the cancel function of an operation is held
  pub made : ℕ
  pub closed : List ℕ

-- What the coordinator calls; a time is formatted by `format_rfc3339`.
pub record Surroundings : Type 0 where
  pub identity : Identity
  pub is_wired : Bool  -- whether there are a notice and a resolver
  pub notice : Result Failure (Option Runes)
  pub out : Outside
  pub resolve_failure : ResolveError → Failure
  pub invalid_version : Runes  -- the text of the error of `IsNewer`
  pub format_rfc3339 : ℕ → Runes

abbrev pub releases_url : Runes
releases_url = codes "https://github.com/mihaiflorentin88/filelist-streaming-service/releases"

-- `closedChannel`
abbrev pub closed_channel : ℕ
closed_channel = 0

-- `NewManager`, given what `capable` answers.
abbrev pub new_manager : Identity → Bool → Manager
new_manager identity capable = record {
  status = record {
    current_version = identity.version;
    available = false;
    latest = [];
    notes = [];
    released_at = [];
    releases_url = releases_url;
    self_update = capable;
    applying = false;
  };
  applying = false;
  barrier = none;
  idle = closed_channel;
  cancel_op = false;
  made = 1;
  closed = closed_channel ∷ [];
}

-- What `capable` probes besides the identity.
pub record Probes : Type 0 where
  pub wired : Bool  -- a resolver, a notice and a source of assets
  pub install_dir : Runes
  pub executable : Runes
  pub flavor_supported : Bool  -- the platform installs payloads of the flavor
  pub bundle_path : Runes
  pub writable : Bool  -- `dirWritable`

unfoldable pub capable : Outside → Identity → Probes → Bool
unfolding self_update_capable runes_eq
capable out identity probes =
    if not (self_update_capable out identity)
    then false
    else if not probes.wired
    then false
    else if runes_eq probes.install_dir [] || runes_eq probes.executable []
    then false
    else if runes_eq identity.flavor (codes "bundle") && runes_eq probes.bundle_path []
    then false
    else if not probes.flavor_supported
    then false
    else probes.writable

unfoldable pub bool_eq : Bool → Bool → Bool
bool_eq true b = b
bool_eq false b = not b

-- `==` on statuses.
unfoldable pub status_eq : Status → Status → Bool
unfolding runes_eq bool_eq
status_eq s t =
    runes_eq s.current_version t.current_version
    && bool_eq s.available t.available
    && runes_eq s.latest t.latest
    && runes_eq s.notes t.notes
    && runes_eq s.released_at t.released_at
    && runes_eq s.releases_url t.releases_url
    && bool_eq s.self_update t.self_update
    && bool_eq s.applying t.applying

unfoldable pub base_status : Identity → Manager → Status
base_status identity m = record {
  current_version = identity.version;
  available = false;
  latest = [];
  notes = [];
  released_at = [];
  releases_url = releases_url;
  self_update = m.status.self_update;
  applying = m.status.applying;
}

-- `commit`
unfoldable pub commit_status : Status → Manager → Manager × List Event
unfolding status_eq
commit_status status m =
    if not (status_eq status m.status)
    then (record m { status = status }, event_status status ∷ [])
    else (m, [])

-- The status that a check makes of the base and of what it found: a newer selection, or none.
unfoldable pub found_status : Surroundings → Option Selection → Status → Status
found_status env none base = base
found_status env (some sel) base = record base {
  available = true;
  latest = sel.version;
  notes = sel.notes;
  released_at = if sel.released_at == 0 then [] else env.format_rfc3339 sel.released_at;
}

-- What a check finds before it takes the lock: the selection, and whether it is newer.
abbrev pub Found : Type 0
Found = Option (Selection × Bool)

resolved : Surroundings → Selection → Result Failure Found
unfolding is_newer
resolved env sel = elim (is_newer env.out env.identity.version sel.version) [
  | none ↦ err (failed env.invalid_version)
  | some newer ↦ ok (some (sel, newer))
]

unfoldable pub fetch : Surroundings → Result Failure Found
unfolding resolved
fetch env =
    if not env.is_wired
    then err (failed (codes "updates: coordinator is not wired for checks"))
    else elim env.notice [
      | err e ↦ err e
      | ok none ↦ ok none
      | ok (some hint) ↦ elim (resolve env.out env.identity hint) [
        | err e ↦ err (env.resolve_failure e)
        | ok sel ↦ resolved env sel
      ]
    ]

-- The newer selection, if any.
unfoldable pub offered : Found → Option Selection
offered none = none
offered (some (sel, newer)) = if newer then some sel else none

-- `check`, where no other critical section comes between its own two.
unfoldable pub check_updates :
    Surroundings → Manager → Manager × (List Event × Result Failure (Status × Found))
unfolding fetch base_status found_status offered commit_status
check_updates env m = elim (fetch env) [
  | err e ↦ (m, ([], err e))
  | ok found ↦
      let status = found_status env (offered found) (base_status env.identity m) in
      let (m', events) = commit_status status m in (m', (events, ok (status, found)))
]

unfoldable pub begin_operation : Manager → Result Failure Manager
begin_operation m =
    if m.applying
    then err apply_busy
    else if not m.status.self_update
    then err (
        manual_only
          (codes "capability probe failed or the build identity is not a release version"))
    else ok (record m { applying = true; idle = m.made; made = suc m.made })

-- The closing of a channel, which panics where it is closed.
unfoldable pub close : ℕ → Manager → Option Manager
close channel m =
    if any (λ c. c == channel) m.closed
    then none
    else some (record m { closed = channel ∷ m.closed })

unfoldable pub neutral_message : Failure → Runes
neutral_message apply_busy = codes "updates: an apply operation is already in progress"
neutral_message (manual_only text) = codes "this installation cannot update itself automatically"
neutral_message (canceled text) = text
neutral_message (failed text) = text

unfoldable pub failure_events : Option Failure → List Event
unfolding neutral_message
failure_events none = []
failure_events (some failure) = event_failed (neutral_message failure) ∷ []

unfoldable pub released : Manager → Manager
released m = record m {
  applying = false;
  barrier = none;
  cancel_op = false;
  status = record (m.status) { applying = false };
  idle = closed_channel;
}

-- `finishOperation`: none where the closing of the idle channel panics.
unfoldable pub finish_operation : Option Failure → Manager → Option (Manager × List Event)
unfolding close failure_events released
finish_operation failure m = elim (close m.idle (released m)) [
  | none ↦ none
  | some m' ↦ some (
    m',
    failure_events failure ++ (if m.status.applying then event_status m'.status ∷ [] else []),
  )
]

-- The acceptance in `applyAccepted`.
unfoldable pub accept_operation : ℕ → Manager → Manager × List Event
accept_operation barrier m =
    let applying = record (m.status) { applying = true } in
    (
      record m { cancel_op = true; barrier = some barrier; status = applying },
      event_status applying ∷ [],
    )

-- `ResponseFlushed`: none where the closing of the barrier panics.
unfoldable pub response_flushed : Manager → Option Manager
unfolding close
response_flushed m = elim m.barrier [
  | none ↦ some m
  | some barrier ↦ close barrier (record m { barrier = none })
]
