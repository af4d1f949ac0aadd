-- ===== src/Manager/Flights.antt =====
-- internal/application/updates/manager.go: what the operation in flight holds, in each of its places.
use filelist_streaming_servi.Base.{
  ℕ, suc, ◌<◌, ◌≡◌, ◌≢◌, ◌⊎◌, refl, inl, inr, Bool, true, false, none, some, List, [], ◌∷◌, ok,
  ◌==◌, any, All, arith, All-mono, subst, sym, Bool-cases,
}
use filelist_streaming_servi.Manager.{
  Status, Manager, Surroundings, commit_status, begin_operation, status_eq, accept_operation,
  closed_channel,
}
use filelist_streaming_servi.Manager.Machine.{
  Flight, no_operation, deciding, holding, decided, installing, Machine, new_machine, with_channel,
  began, began_startup, accepted,
}

abbrev pub IsOpen : ℕ → Manager → Type 0
IsOpen channel m = (channel < m.made) × (any (λ c. c == channel) m.closed ≡ false)

-- A barrier is the closed channel or one that is open and not the idle channel.
abbrev pub IsBarrier : ℕ → Manager → Type 0
IsBarrier channel m = (channel ≡ closed_channel) ⊎ (IsOpen channel m × (channel ≢ m.idle))

-- What an operation in flight holds before its acceptance.
pub record IsTaken (barrier : ℕ) (m : Manager) : Type 0 where
  pub token : m.applying ≡ true
  pub idle_open : IsOpen m.idle m
  pub no_barrier : m.barrier ≡ none
  pub no_cancel : m.cancel_op ≡ false
  pub given : IsBarrier barrier m

pub record IsInstalling (m : Manager) : Type 0 where
  pub token : m.applying ≡ true
  pub idle_open : IsOpen m.idle m
  pub given : (barrier : ℕ) → m.barrier ≡ some barrier → IsBarrier barrier m

pub record IsFree (m : Manager) : Type 0 where
  pub token : m.applying ≡ false
  pub no_barrier : m.barrier ≡ none
  pub no_cancel : m.cancel_op ≡ false

abbrev pub FlightHolds : Flight → Manager → Type 0
FlightHolds no_operation m = IsFree m
FlightHolds (deciding barrier) m = IsTaken barrier m
FlightHolds (holding barrier status) m = IsTaken barrier m
FlightHolds (decided barrier status) m = IsTaken barrier m
FlightHolds installing m = IsInstalling m

pub record IsSound (s : Machine) : Type 0 where
  pub flight : FlightHolds s.flight s.manager
  pub closed_made : All (λ c. c < s.manager.made) s.manager.closed
  pub always_closed : any (λ c. c == closed_channel) s.manager.closed ≡ true

pub any-made :
    (n : ℕ) (closed : List ℕ) → All (λ c. c < n) closed → any (λ c. c == n) closed ≡ false
any-made n [] a = refl
any-made n (c ∷ closed) a = ground (arith, any-made n closed a.1)

pub made_suc : (n : ℕ) (closed : List ℕ) → All (λ c. c < n) closed → All (λ c. c < suc n) closed
made_suc n closed a = All-mono (λ c. c < n) (λ c. c < suc n) closed (λ c h. omega arith) a

pub fresh-IsSound :
    (env : Surroundings) (capable : Bool) → IsSound (new_machine env.identity capable)
fresh-IsSound env capable = record {
  flight = record { token = refl; no_barrier = refl; no_cancel = refl };
  closed_made = (omega arith, tt);
  always_closed = refl;
}

pub IsTaken-status :
    (barrier : ℕ) (status : Status) (m : Manager)
    → IsTaken barrier m
    → IsTaken barrier (record m { status = status })
IsTaken-status barrier status m h = record {
  token = h.token;
  idle_open = h.idle_open;
  no_barrier = h.no_barrier;
  no_cancel = h.no_cancel;
  given = h.given;
}

-- The status is not among what a flight is about.
pub with_status :
    (flight : Flight) (status : Status) (m : Manager)
    → FlightHolds flight m
    → FlightHolds flight (record m { status = status })
with_status no_operation status m h = record {
  token = h.token;
  no_barrier = h.no_barrier;
  no_cancel = h.no_cancel;
}
with_status (deciding b) status m h = IsTaken-status b status m h
with_status (holding b t) status m h = IsTaken-status b status m h
with_status (decided b t) status m h = IsTaken-status b status m h
with_status installing status m h = record {
  token = h.token;
  idle_open = h.idle_open;
  given = h.given;
}

pub commit-flight :
    (flight : Flight) (status : Status) (m : Manager)
    → FlightHolds flight m
    → FlightHolds flight (commit_status status m).0
unfolding commit_status
commit-flight flight status m h = elim (Bool-cases (status_eq status m.status)) [
  | inl e ↦ rw e h
  | inr e ↦ rw e (with_status flight status m h)
]

pub commit-channels :
    (status : Status) (m : Manager)
    → ((commit_status status m).0.made ≡ m.made) × ((commit_status status m).0.closed ≡ m.closed)
unfolding commit_status
commit-channels status m = (ground arith, ground arith)

pub commit-IsSound :
    (flight : Flight) (status : Status) (s : Machine)
    → FlightHolds flight s.manager
    → IsSound s
    → (held : List Status)
    → IsSound
        (record s { manager = (commit_status status s.manager).0; flight = flight; held = held })
commit-IsSound flight status s f w held =
    let c = commit-channels status s.manager in
    record {
      flight = commit-flight flight status s.manager f;
      closed_made = rw c.0 (rw c.1 w.closed_made);
      always_closed = rw c.1 w.always_closed;
    }

unfoldable pub taken : Manager → Manager
taken m = record m { applying = true; idle = m.made; made = suc m.made }

pub begin-ok : (m m' : Manager) → begin_operation m ≡ ok m' → (m.applying ≡ false) × (m' ≡ taken m)
unfolding begin_operation taken
begin-ok m m' e = (ground arith, ground arith)

-- Where the token is free no operation is in flight.
pub IsFree-flight :
    (flight : Flight) (m : Manager) → FlightHolds flight m → m.applying ≡ false → IsFree m
IsFree-flight no_operation m h e = h
IsFree-flight (deciding b) m h e = absurd (ground arith)
IsFree-flight (holding b t) m h e = absurd (ground arith)
IsFree-flight (decided b t) m h e = absurd (ground arith)
IsFree-flight installing m h e = absurd (ground arith)

pub began-IsSound :
    (s : Machine) (m : Manager)
    → begin_operation (with_channel s.manager) ≡ ok m
    → IsSound s
    → IsSound (began m s)
unfolding began taken
began-IsSound s m e w =
    let b = begin-ok (with_channel s.manager) m e in
    let f = IsFree-flight s.flight s.manager w.flight b.0 in
    let made = made_suc s.manager.made s.manager.closed w.closed_made in
    subst (λ m. IsSound (began m s)) (sym b.1)
      record {
        flight = record {
          token = refl;
          idle_open = (omega arith, any-made (suc s.manager.made) s.manager.closed made);
          no_barrier = f.no_barrier;
          no_cancel = f.no_cancel;
          given =
              inr (
                (omega arith, any-made s.manager.made s.manager.closed w.closed_made),
                omega arith,
              );
        };
        closed_made = made_suc (suc s.manager.made) s.manager.closed made;
        always_closed = w.always_closed;
      }

pub began_startup-IsSound :
    (s : Machine) (m : Manager)
    → begin_operation s.manager ≡ ok m
    → IsSound s
    → IsSound (began_startup m s)
unfolding began_startup taken
began_startup-IsSound s m e w =
    let b = begin-ok s.manager m e in
    let f = IsFree-flight s.flight s.manager w.flight b.0 in
    subst (λ m. IsSound (began_startup m s)) (sym b.1)
      record {
        flight = record {
          token = refl;
          idle_open = (omega arith, any-made s.manager.made s.manager.closed w.closed_made);
          no_barrier = f.no_barrier;
          no_cancel = f.no_cancel;
          given = inl refl;
        };
        closed_made = made_suc s.manager.made s.manager.closed w.closed_made;
        always_closed = w.always_closed;
      }

pub accepted-IsSound :
    (s : Machine) (barrier : ℕ)
    → IsTaken barrier s.manager
    → IsSound s
    → IsSound (accepted barrier s)
unfolding accepted accept_operation
accepted-IsSound s barrier t w = record {
  flight = record {
    token = t.token;
    idle_open = t.idle_open;
    given = λ b e. subst (λ b. IsBarrier b s.manager) (ground arith) t.given;
  };
  closed_made = w.closed_made;
  always_closed = w.always_closed;
}
