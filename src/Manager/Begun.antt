-- ===== src/Manager/Begun.antt =====
-- internal/application/updates/manager.go, `Apply`: every branch of a request.
use filelist_streaming_servi.Base.{
  ℕ, ◌≡◌, ◌⊎◌, refl, Bool, true, false, none, some, [], Runes, ok, err, arith, ◌<◌, ◌==◌, any, All,
  Bool-cases, Result-cases, inl, inr, ◌∙◌, ap, Option-cases, subst, codes,
}
use filelist_streaming_servi.Release.{Selection, is_newer}
use filelist_streaming_servi.Release.Trust.{resolve, resolve-IsTrusted}
use filelist_streaming_servi.Manager.{
  Status, Manager, Surroundings, Failure, apply_busy, manual_only, begin_operation,
  accept_operation, Found, offered, fetch, released, commit_status, found_status, base_status,
  resolved,
}
use filelist_streaming_servi.Manager.Applied.{Application, begin_apply}
use filelist_streaming_servi.Manager.Flights.{any-made, taken}
use filelist_streaming_servi.Manager.Endings.{ended}
use filelist_streaming_servi.Manager.Branches.{
  commit-status, IsRefused, IsFailed, IsCurrent, IsStarted, failed_app, current_app, started_app,
  apply-taken, apply-failed, apply-current, apply-started,
}

resolved-found :
    (env : Surroundings) (sel' sel : Selection) (newer : Bool)
    → resolved env sel' ≡ ok (some (sel, newer))
    → (sel' ≡ sel) × (is_newer env.out env.identity.version sel.version ≡ some newer)
unfolding resolved
resolved-found env sel' sel newer e = ground arith

fetch-found :
    (env : Surroundings) (found : Selection × Bool)
    → fetch env ≡ ok (some found)
    → (hint : Runes) × (sel : Selection) × (env.notice ≡ ok (some hint))
      × (resolve env.out env.identity hint ≡ ok sel)
      × (resolved env sel ≡ ok (some found))
unfolding fetch
fetch-found env found f = elim (Result-cases env.notice) [
  | inr (e, n) ↦ absurd (ground arith)
  | inl (announced, n) ↦ elim (Option-cases announced) [
    | inl none_ ↦ absurd (ground arith)
    | inr (hint, h) ↦ elim (Result-cases (resolve env.out env.identity hint)) [
      | inr (e, r) ↦ absurd (ground arith)
      | inl (sel, r) ↦ (hint, sel, ground arith, r, ground arith)
    ]
  ]
]

-- What a fetch that offers a selection read.
offer :
    (env : Surroundings) (found : Found) (sel : Selection)
    → fetch env ≡ ok found
    → offered found ≡ some sel
    → (hint : Runes) × (env.notice ≡ ok (some hint))
      × (resolve env.out env.identity hint ≡ ok sel)
      × (is_newer env.out env.identity.version sel.version ≡ some true)
unfolding offered
offer env none sel f o = absurd (ground arith)
offer env (some (s, newer)) sel f o =
    let (hint, s', announced, r, found) = fetch-found env (s, newer) f in
    let same = resolved-found env s' s newer found in
    let t : s ≡ sel = ground arith in
    let yes_newer : newer ≡ true = ground arith in
    (
      hint,
      announced,
      r ∙ ap ok (same.0 ∙ t),
      subst (λ s. is_newer env.out env.identity.version (s.version) ≡ some true) t
          (same.1 ∙ ap some yes_newer),
    )

begin-busy : (m : Manager) → m.applying ≡ true → begin_operation m ≡ err apply_busy
unfolding begin_operation
begin-busy m busy = ground arith

begin-manual :
    (m : Manager)
    → m.applying ≡ false
    → m.status.self_update ≡ false
    → (text : Runes) × (begin_operation m ≡ err (manual_only text))
unfolding begin_operation
begin-manual m free manual =
    (codes "capability probe failed or the build identity is not a release version", ground arith)

apply-refused :
    (done : Bool) (env : Surroundings) (barrier : ℕ) (m : Manager) (e : Failure)
    → begin_operation m ≡ err e
    → begin_apply done env barrier m
      ≡ some record { manager = m; events = []; answer = err e; started = none }
unfolding begin_apply
apply-refused done env barrier m e r = rw (begin_apply, r) refl

apply_error :
    (done : Bool) (env : Surroundings) (m : Manager) (e : Failure)
    → (m.applying ≡ false) × (m.status.self_update ≡ true)
    → fetch env ≡ err e
    → IsFailed done env m (failed_app done e (taken m))
unfolding ended released taken
apply_error done env m e was f = record {
  failure = e;
  fetched = f;
  answered = refl;
  token = record { was_free = was; free = (refl, refl); not_applying = refl; nothing = refl };
  kept = refl;
  told = refl;
}

apply_nothing :
    (env : Surroundings) (m : Manager) (found : Found)
    → (m.applying ≡ false) × (m.status.self_update ≡ true)
    → fetch env ≡ ok found
    → offered found ≡ none
    → IsCurrent env m (current_app (base_status env.identity (taken m)) (taken m))
unfolding ended released base_status
apply_nothing env m found was f none_ =
    let status = base_status env.identity (taken m) in
    record {
      found = found;
      fetched = f;
      not_newer = none_;
      status = status;
      answered = (refl, refl);
      token = record { was_free = was; free = (refl, refl); not_applying = refl; nothing = refl };
      cleared = ap (λ (s : Status). s.available) (commit-status status (taken m));
    }

commit-applying_token :
    (status : Status) (m : Manager) → (commit_status status m).0.applying ≡ m.applying
unfolding commit_status
commit-applying_token status m = ground arith

apply_offer :
    (env : Surroundings) (barrier : ℕ) (m : Manager) (found : Found) (sel : Selection)
    → (m.applying ≡ false) × (m.status.self_update ≡ true)
    → fetch env ≡ ok found
    → offered found ≡ some sel
    → let status = found_status env (some sel) (base_status env.identity (taken m)) in
      IsStarted env barrier m (started_app barrier status sel (taken m))
unfolding accept_operation found_status taken
apply_offer env barrier m found sel was f o =
    let (hint, announced, resolves, newer) = offer env found sel f o in
    let status = found_status env (some sel) (base_status env.identity (taken m)) in
    let same = commit-status status (taken m) in
    record {
      sel = sel;
      hint = hint;
      started = refl;
      announced = announced;
      trusted = resolve-IsTrusted env.out env.identity hint sel resolves;
      newer = newer;
      was_free = was;
      held = (commit-applying_token status (taken m), refl, refl);
      answered = refl;
      applying = (refl, ap (λ (s : Status). s.available) same, ap (λ (s : Status). s.latest) same);
    }

-- `Apply` on every branch, where every closed channel was made and no other goroutine of the coordinator
-- acts in the meantime: it is refused where an operation is in flight or the installation cannot update
-- itself, and changes nothing; or it fails with the error of the fetch, which is told unless it is the end
-- of the caller's context, and what was available stays, though the comment of `check` says that a failed
-- fetch clears it; or there is nothing newer, and nothing is available; or an installation is started, of a selection that is
-- trusted for the announced version and newer than the running one. Only then is the token held after it.
pub begin_apply-Answers :
    (done : Bool) (env : Surroundings) (barrier : ℕ) (m : Manager)
    → All (λ c. c < m.made) m.closed
    → (app : Application) × (begin_apply done env barrier m ≡ some app)
      × (IsRefused m app
          ⊎ (IsFailed done env m app ⊎ (IsCurrent env m app ⊎ IsStarted env barrier m app)))
unfolding taken
begin_apply-Answers done env barrier m made = elim (Bool-cases m.applying) [
  | inl busy ↦ (
    record { manager = m; events = []; answer = err apply_busy; started = none },
    apply-refused done env barrier m apply_busy (begin-busy m busy),
    inl record { reason = inl (busy, refl); unchanged = (refl, refl); nothing = refl },
  )
  | inr free ↦ elim (Bool-cases m.status.self_update) [
    | inr manual ↦
        let (text, refused) = begin-manual m free manual in
        (
          record { manager = m; events = []; answer = err (manual_only text); started = none },
          apply-refused done env barrier m (manual_only text) refused,
          inl record {
            reason = inr (free, manual, (text, refl));
            unchanged = (refl, refl);
            nothing = refl;
          },
        )
    | inl capable ↦
        let was : (m.applying ≡ false) × (m.status.self_update ≡ true) = (free, capable) in
        let open_ : any (λ c. c == m.made) m.closed ≡ false = any-made m.made m.closed made in
        let taken_ = apply-taken done env barrier m free capable in
        elim (Result-cases (fetch env)) [
          | inr (e, f) ↦ (
            failed_app done e (taken m),
            taken_ ∙ apply-failed done env barrier (taken m) e open_ f,
            inr (inl (apply_error done env m e was f)),
          )
          | inl (found, f) ↦ elim (Option-cases (offered found)) [
            | inl none_ ↦ (
              current_app (base_status env.identity (taken m)) (taken m),
              taken_ ∙ apply-current done env barrier (taken m) found open_ f none_,
              inr (inr (inl (apply_nothing env m found was f none_))),
            )
            | inr (sel, o) ↦ (
              started_app barrier (found_status env (some sel) (base_status env.identity (taken m)))
                  sel (taken m),
              taken_ ∙ apply-started done env barrier (taken m) found sel f o,
              inr (inr (inr (apply_offer env barrier m found sel was f o))),
            )
          ]
        ]
  ]
]
