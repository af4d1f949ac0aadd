-- ===== src/Manager/Stale.antt =====
-- internal/application/updates/manager.go: a check that overtakes the end of an operation.
use filelist_streaming_servi.Base.{
  ◌≡◌, refl, true, false, Option, none, some, List, [], ◌∷◌, arith, Bool-cases, subst, inl,
  Result-cases, ◌∙◌, sym, inr,
}
use filelist_streaming_servi.Release.{Selection}
use filelist_streaming_servi.Manager.{
  Status, Manager, Surroundings, Failure, base_status, commit_status, found_status, check_updates,
  status_eq, offered, fetch, released,
}
use filelist_streaming_servi.Manager.Machine.{
  no_operation, installing, Machine, reads, commits, ends, Reached, moved, status_of, MayEnd,
}
use filelist_streaming_servi.Manager.Flights.{FlightHolds}
use filelist_streaming_servi.Manager.Endings.{ended, finish_operation-ended}
use filelist_streaming_servi.Manager.Single.{Reached-IsSound}

-- One check after another, with nothing between.
abbrev pub checks : List Surroundings → Manager → Manager
checks [] m = m
checks (env ∷ envs) m = checks envs (check_updates env m).0

status_eq-applying : (s t : Status) → status_eq s t ≡ true → s.applying ≡ t.applying
unfolding status_eq
status_eq-applying s t e = ground arith

commit-applying :
    (status : Status) (m : Manager)
    → status.applying ≡ true
    → ((commit_status status m).0.status.applying ≡ true)
      × ((commit_status status m).0.applying ≡ m.applying)
unfolding commit_status
commit-applying status m a = elim (Bool-cases (status_eq status m.status)) [
  | inl e ↦ rw e (ground (arith, status_eq-applying status m.status e), refl)
  | inr e ↦ rw e (a, refl)
]

-- A check carries the flag of the status that it read.
found-applying :
    (env : Surroundings) (sel : Option Selection) (m : Manager)
    → (found_status env sel (base_status env.identity m)).applying ≡ m.status.applying
unfolding found_status base_status
found-applying env none m = refl
found-applying env (some sel) m = refl

check-applying :
    (env : Surroundings) (m : Manager)
    → m.status.applying ≡ true
    → ((check_updates env m).0.status.applying ≡ true)
      × ((check_updates env m).0.applying ≡ m.applying)
unfolding check_updates
check-applying env m a = elim (Result-cases (fetch env)) [
  | inl (found, f) ↦
      rw (check_updates, f)
        (commit-applying (found_status env (offered found) (base_status env.identity m)) m
          (found-applying env (offered found) m ∙ a))
  | inr (e, f) ↦ rw (check_updates, f) (a, refl)
]

checks-applying :
    (envs : List Surroundings) (m : Manager)
    → m.status.applying ≡ true
    → ((checks envs m).status.applying ≡ true) × ((checks envs m).applying ≡ m.applying)
checks-applying [] m a = (a, refl)
checks-applying (env ∷ envs) m a =
    let c = check-applying env m a in
    let rest = checks-applying envs (check_updates env m).0 c.0 in (rest.0, rest.1 ∙ c.1)

ended_free : (m : Manager) → (ended m).applying ≡ false
unfolding ended released
ended_free m = refl

-- Where a check reads the base status while an operation installs, whose status is applying, and commits
-- once that operation has ended, with any failure or none, the machine after it is reachable, with no
-- operation in flight and the token free, and its status is applying; and so it stays whatever checks
-- follow.
pub stale_applying :
    (env : Surroundings) (s : Machine) (sel : Option Selection) (failure : Option Failure)
    (later : List Surroundings)
    → Reached env s
    → s.flight ≡ installing
    → s.manager.status.applying ≡ true
    → let held = status_of env sel s in
      let m = (commit_status held (ended s.manager)).0 in
      let t = record s { manager = m; flight = no_operation } in
      Reached env t
      × ((checks later m).applying ≡ false)
      × ((checks later m).status.applying ≡ true)
stale_applying env s sel failure later r f a =
    let w = Reached-IsSound env r in
    let held = status_of env sel s in
    let o = (subst (λ f. FlightHolds f s.manager) f w.flight).idle_open.1 in
    let e = finish_operation-ended failure s.manager o in
    let s1 = record s { held = held ∷ s.held } in
    let s2 = record s1 { manager = ended s.manager; flight = no_operation } in
    let r2 : Reached env s2 =
      moved (moved r (reads s sel))
        (ends s1 failure (ended s.manager) e.0 (subst (λ f. MayEnd f failure) (sym f) tt) e.1) in
    let c = commit-applying held (ended s.manager) (found-applying env sel s.manager ∙ a) in
    let k = checks-applying later (commit_status held (ended s.manager)).0 c.0 in
    (moved r2 (commits s2 [] held s.held refl), k.1 ∙ c.1 ∙ ended_free s.manager, k.0)
