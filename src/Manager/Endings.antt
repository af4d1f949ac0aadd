-- ===== src/Manager/Endings.antt =====
-- internal/application/updates/manager.go: the end of an operation and the release of its barrier.
use filelist_streaming_servi.Base.{
  ℕ, ◌<◌, ◌≡◌, ◌≢◌, ◌⊎◌, refl, inl, inr, true, false, Option, none, some, List, ◌∷◌, ◌==◌, any,
  arith, subst, sym, Option-cases,
}
use filelist_streaming_servi.Manager.{
  Manager, Failure, Event, released, finish_operation, response_flushed, closed_channel, close,
}
use filelist_streaming_servi.Manager.Machine.{
  Flight, no_operation, deciding, holding, decided, installing, Machine,
}
use filelist_streaming_servi.Manager.Flights.{IsOpen, IsInstalling, FlightHolds, IsSound}

pub close-open :
    (channel : ℕ) (m : Manager)
    → any (λ c. c == channel) m.closed ≡ false
    → close channel m ≡ some (record m { closed = channel ∷ m.closed })
unfolding close
close-open channel m h = rw h refl

pub close-closed :
    (channel : ℕ) (m : Manager) → any (λ c. c == channel) m.closed ≡ true → close channel m ≡ none
unfolding close
close-closed channel m h = rw h refl

unfoldable pub ended : Manager → Manager
unfolding released
ended m = record (released m) { closed = m.idle ∷ m.closed }

-- An operation whose idle channel is open ends.
pub finish_operation-ended :
    (failure : Option Failure) (m : Manager)
    → any (λ c. c == m.idle) m.closed ≡ false
    → (events : List Event) × (finish_operation failure m ≡ some (ended m, events))
unfolding finish_operation ended released
finish_operation-ended failure m h =
    rw (finish_operation, close-open m.idle (released m) h) (_, refl)

pub ended-IsSound :
    (s : Machine) (failure : Option Failure) (m : Manager) (events : List Event)
    → finish_operation failure s.manager ≡ some (m, events)
    → IsOpen s.manager.idle s.manager
    → IsSound s
    → IsSound (record s { manager = m; flight = no_operation })
unfolding ended released
ended-IsSound s failure m events e o w =
    let f = finish_operation-ended failure s.manager o.1 in
    let same : m ≡ ended s.manager = ground arith in
    subst (λ m. IsSound (record s { manager = m; flight = no_operation })) (sym same)
      record {
        flight = record { token = refl; no_barrier = refl; no_cancel = refl };
        closed_made = (o.0, w.closed_made);
        always_closed = ground arith;
      }

-- The idle channel of an operation in flight is open.
pub flight-idle :
    (flight : Flight) (m : Manager) → FlightHolds flight m → flight ≢ no_operation → IsOpen m.idle m
flight-idle no_operation m h n = absurd (n refl)
flight-idle (deciding b) m h n = h.idle_open
flight-idle (holding b t) m h n = h.idle_open
flight-idle (decided b t) m h n = h.idle_open
flight-idle installing m h n = h.idle_open

unfoldable pub flushed : ℕ → Manager → Manager
flushed barrier m = record m { barrier = none; closed = barrier ∷ m.closed }

-- A barrier is held by an installation only.
pub barrier-installing :
    (flight : Flight) (m : Manager) (barrier : ℕ)
    → FlightHolds flight m
    → m.barrier ≡ some barrier
    → flight ≡ installing
barrier-installing no_operation m b h e = absurd (ground (arith, h.no_barrier))
barrier-installing (deciding c) m b h e = absurd (ground (arith, h.no_barrier))
barrier-installing (holding c t) m b h e = absurd (ground (arith, h.no_barrier))
barrier-installing (decided c t) m b h e = absurd (ground (arith, h.no_barrier))
barrier-installing installing m b h e = refl

pub flushed-flight :
    (m : Manager) (barrier : ℕ)
    → IsInstalling m
    → IsOpen barrier m
    → barrier ≢ m.idle
    → IsInstalling (flushed barrier m)
unfolding flushed
flushed-flight m barrier h o n = record {
  token = h.token;
  idle_open = (h.idle_open.0, ground (arith, h.idle_open.1));
  given = λ b e. absurd (ground arith);
}

-- A flush panics exactly where the barrier is the closed channel.
pub flush_cases :
    (s : Machine) (barrier : ℕ)
    → IsSound s
    → s.manager.barrier ≡ some barrier
    → (s.flight ≡ installing)
      × (((barrier ≡ closed_channel) × (response_flushed s.manager ≡ none))
          ⊎ ((barrier ≢ closed_channel)
              × (response_flushed s.manager ≡ some (flushed barrier s.manager))
              × IsInstalling (flushed barrier s.manager)
              × (barrier < s.manager.made)))
unfolding response_flushed flushed
flush_cases s barrier w e =
    let f = barrier-installing s.flight s.manager barrier w.flight e in
    let h = subst (λ f. FlightHolds f s.manager) f w.flight in
    (
      f,
      elim (h.given barrier e) [
        | inl z ↦
            inl (
              z,
              rw (e, z) (close-closed 0 (record (s.manager) { barrier = none }) w.always_closed),
            )
        | inr (o, n) ↦ inr (
          ground (arith, w.always_closed),
          rw e (close-open barrier _ o.1),
          flushed-flight s.manager barrier h o n,
          o.0,
        )
      ],
    )

pub flush_none : (m m' : Manager) → m.barrier ≡ none → response_flushed m ≡ some m' → m ≡ m'
unfolding response_flushed
flush_none m m' b e = ground arith

pub flushes-IsSound :
    (s : Machine) (n : ℕ) (m : Manager)
    → response_flushed s.manager ≡ some m
    → IsSound s
    → IsSound (record s { manager = m; owed = n })
unfolding flushed
flushes-IsSound s n m e w = elim (Option-cases s.manager.barrier) [
  | inl b ↦
      let same : s.manager ≡ m = flush_none s.manager m b e in
      subst (λ m. IsSound (record s { manager = m; owed = n })) same
        record { flight = w.flight; closed_made = w.closed_made; always_closed = w.always_closed }
  | inr (barrier, b) ↦
      let (f, cases) = flush_cases s barrier w b in
      elim cases [
        | inl (z, panics) ↦ absurd (ground arith)
        | inr (nz, closes, h, made) ↦
            let same : flushed barrier s.manager ≡ m = ground arith in
            subst (λ m. IsSound (record s { manager = m; owed = n })) same
              record {
                flight = subst (λ f. FlightHolds f (flushed barrier s.manager)) (sym f) h;
                closed_made = (made, w.closed_made);
                always_closed = ground (arith, w.always_closed);
              }
      ]
]
