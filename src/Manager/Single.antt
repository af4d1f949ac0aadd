-- ===== src/Manager/Single.antt =====
-- internal/application/updates/manager.go: the token, the channels and the operation in flight, over all
-- interleavings of the coordinator's goroutines.
use filelist_streaming_servi.Base.{
  ℕ, ◌≡◌, ◌≢◌, ◌↔◌, refl, inl, inr, true, false, Option, none, some, List, err, arith, subst, ◌++◌,
  In,
}
use filelist_streaming_servi.Manager.{
  Manager, Surroundings, Failure, Event, begin_operation, released, finish_operation,
  response_flushed, closed_channel, apply_busy,
}
use filelist_streaming_servi.Manager.Machine.{
  Flight, no_operation, deciding, holding, decided, installing, Machine, Move, reads, commits,
  begins, begins_startup, reads_own, commits_own, accepts, ends, flushes, Reached, fresh, moved,
  MayEnd,
}
use filelist_streaming_servi.Manager.Flights.{
  FlightHolds, IsSound, fresh-IsSound, commit-IsSound, began-IsSound, began_startup-IsSound,
  accepted-IsSound,
}
use filelist_streaming_servi.Manager.Endings.{
  ended, finish_operation-ended, ended-IsSound, flight-idle, flush_cases, flushes-IsSound,
}

in_flight :
    (flight : Flight) (m : Manager)
    → FlightHolds flight m
    → flight ≢ no_operation
    → m.applying ≡ true
in_flight no_operation m h n = absurd (n refl)
in_flight (deciding b) m h n = h.token
in_flight (holding b t) m h n = h.token
in_flight (decided b t) m h n = h.token
in_flight installing m h n = h.token

busy_iff :
    (flight : Flight) (m : Manager)
    → FlightHolds flight m
    → (begin_operation m ≡ err apply_busy) ↔ (flight ≢ no_operation)
unfolding begin_operation
busy_iff flight m h = (
  λ busy f. let free = subst (λ f. FlightHolds f m) f h in ground (arith, free.token),
  λ n. rw (in_flight flight m h n) refl,
)

module _ (env : Surroundings) where
  Move-IsSound : {s t : Machine} → Move env s t → IsSound s → IsSound t
  Move-IsSound (reads s sel) w = record {
    flight = w.flight;
    closed_made = w.closed_made;
    always_closed = w.always_closed;
  }
  Move-IsSound (commits s before status rest e) w =
      commit-IsSound s.flight status s w.flight w (before ++ rest)
  Move-IsSound (begins s m e) w = began-IsSound s m e w
  Move-IsSound (begins_startup s m new e) w = began_startup-IsSound s m e w
  Move-IsSound (reads_own s sel barrier f) w = record {
    flight = subst (λ f. FlightHolds f s.manager) f w.flight;
    closed_made = w.closed_made;
    always_closed = w.always_closed;
  }
  Move-IsSound (commits_own s barrier status f) w =
      commit-IsSound (decided barrier status) status s
        (subst (λ f. FlightHolds f s.manager) f w.flight) w s.held
  Move-IsSound (accepts s barrier status f a) w =
      accepted-IsSound s barrier (subst (λ f. FlightHolds f s.manager) f w.flight) w
  Move-IsSound (ends s failure m events may e) w =
      ended-IsSound s failure m events e
        (flight-idle s.flight s.manager w.flight (λ f. subst (λ f. MayEnd f failure) f may)) w
  Move-IsSound (flushes s n m o e) w = flushes-IsSound s n m e w

  pub Reached-IsSound : {s : Machine} → Reached env s → IsSound s
  Reached-IsSound (fresh capable) = fresh-IsSound env capable
  Reached-IsSound (moved r m) = Move-IsSound m (Reached-IsSound r)

  -- In every reachable machine: an apply finds the coordinator busy exactly where an operation is in
  -- flight; the end of an operation in flight, with any failure or none, closes its idle channel without
  -- a panic, frees the token and drops the barrier and the cancel function; a barrier is held only while
  -- an installation runs, and releasing it panics exactly where it is the closed channel.
  pub Reached-single :
      {s : Machine}
      → Reached env s
      → ((begin_operation s.manager ≡ err apply_busy) ↔ (s.flight ≢ no_operation))
        × ((failure : Option Failure)
            → s.flight ≢ no_operation
            → (m : Manager) × (events : List Event) × (finish_operation failure s.manager
                ≡ some (m, events))
              × ((m.applying ≡ false)
                  × ((m.barrier ≡ none) × ((m.cancel_op ≡ false) × (In s.manager.idle m.closed)))))
        × ((barrier : ℕ)
            → s.manager.barrier ≡ some barrier
            → (s.flight ≡ installing)
              × ((response_flushed s.manager ≡ none) ↔ (barrier ≡ closed_channel)))
  unfolding ended released
  Reached-single {s} r =
      let w = Reached-IsSound r in
      (
        busy_iff s.flight s.manager w.flight,
        λ failure n.
            let o = flight-idle s.flight s.manager w.flight n in
            let f = finish_operation-ended failure s.manager o.1 in
            (ended s.manager, f.0, f.1, (refl, (refl, (refl, ground arith)))),
        λ barrier e.
            let (f, cases) = flush_cases s barrier w e in
            elim cases [
              | inl (z, panics) ↦ (f, (λ h. z, λ h. panics))
              | inr (nz, closes, h, made) ↦
                  (f, (λ panics. absurd (ground arith), λ z. absurd (nz z)))
            ],
      )
