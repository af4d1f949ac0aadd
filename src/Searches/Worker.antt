-- ===== src/Searches/Worker.antt =====
-- internal/application/service.go: the steps of the worker of tracker searches.
use filelist_streaming_servi.Base.{
  ℕ, ◌≡◌, ◌≢◌, ◌⊎◌, ◌↔◌, inl, inr, refl, sym, ap, subst, ◌∙◌, Option, none, some, List, [], ◌∷◌,
  ◌++◌, String, Runes, In, map, length, arith, Option-cases, false,
}
use filelist_streaming_servi.World.{Error, Job, queued, running}
use filelist_streaming_servi.Searches.{
  Searches, save_job, key_of, take_search, run_search, end_search, running_job, ended_job,
  stored_or_blank, read_job, SearchAnswers,
}
use filelist_streaming_servi.Jobs.{fail_or_wait}
use filelist_streaming_servi.Titles.Sets.{Distinct}
use filelist_streaming_servi.Searches.Orderly.{
  Stands, Stands-save, held_list, held_list, waiting, IsOrderly, named-save, Stands-keep,
}

queue_cases :
    (queue : List Runes)
    → (queue ≡ []) ⊎ ((query : Runes) × (rest : List Runes) × (queue ≡ query ∷ rest))
queue_cases [] = inl refl
queue_cases (query ∷ rest) = inr (query, rest, refl)

same_query :
    {way : Option (Runes × Job)} {q r : Runes} {a b : Job}
    → way ≡ some (q, a)
    → way ≡ some (r, b)
    → q ≡ r
same_query e f = ground arith

ended_lem :
    (now : ℕ) (error : Option Error) (job : Job)
    → ((ended_job now error job).id ≡ job.id)
      × (((ended_job now error job).state ≢ queued) × ((ended_job now error job).state ≢ running))
unfolding ended_job fail_or_wait
ended_lem now none job = (refl, (λ e. absurd (ground arith), λ e. absurd (ground arith)))
ended_lem now (some e) job =
    (ground arith, (λ x. absurd (ground arith), λ x. absurd (ground arith)))

module _ (hash : Runes → String) where
  pub take_search-IsOrderly :
      (s : Searches) → IsOrderly hash s → IsOrderly hash (take_search hash s)
  unfolding take_search
  take_search-IsOrderly s o = elim (Option-cases s.under_way) [
    | inr (way, e) ↦ rw (take_search, e) o
    | inl u ↦ elim (Option-cases s.held) [
      | inr (query, e) ↦ rw (take_search, u, e) o
      | inl h ↦ elim (queue_cases s.queue) [
        | inl e ↦ rw (take_search, u, h, e) o
        | inr (query, queue, e) ↦
            let same : waiting hash s ≡ key_of hash query ∷ map (key_of hash) queue =
              ap (λ (x : Option Runes). map (key_of hash) (held_list x ++ s.queue)) h
              ∙ ap (map (key_of hash)) e in
            rw (take_search, u, h, e)
              record {
                queued_iff = λ k.
                    subst (λ (l : List String). Stands s.jobs k queued ↔ In k l) same
                      (o.queued_iff k);
                once = subst Distinct same o.once;
                running_iff = o.running_iff;
                own_job = λ q job w. absurd (ground arith);
                named = o.named;
                bounded = omega (arith, o.bounded, ap (length {A = Runes}) e);
              }
      ]
    ]
  ]

  pub begun-IsOrderly :
      (now : ℕ) (query : Runes) (job : Job) (s : Searches)
      → s.held ≡ some query
      → s.jobs (key_of hash query) ≡ some job
      → IsOrderly hash s
      → IsOrderly hash (record s {
        jobs = save_job (running_job now job) s.jobs;
        held = none;
        under_way = some (query, running_job now job);
      })
  unfolding running_job
  begun-IsOrderly now query job s h j o =
      let id = o.named (key_of hash query) job j in
      let same : waiting hash s ≡ key_of hash query ∷ map (key_of hash) s.queue =
        ap (λ (x : Option Runes). map (key_of hash) (held_list x ++ s.queue)) h in
      let once = subst Distinct same o.once in
      let ran = running_job now job in
      record {
        queued_iff = λ k.
            let saved = Stands-save ran s.jobs k queued in
            let old =
              subst (λ (l : List String). Stands s.jobs k queued ↔ In k l) same (o.queued_iff k) in
            (
              λ st. elim (saved.0 st) [
                | inl (_, is) ↦ absurd (ground arith)
                | inr (n, q) ↦ elim (old.0 q) [ inl e ↦ absurd (n (e ∙ sym id)) | inr m ↦ m ]
              ],
              λ m. saved.1 (
                  inr (
                    λ e. once.0 (subst (λ k. In k (map (key_of hash) s.queue)) (e ∙ id) m),
                    old.1 (inr m),
                  )),
            );
        once = once.1;
        running_iff = λ k.
            let saved = Stands-save ran s.jobs k running in
            (
              λ st. elim (saved.0 st) [
                | inl (e, _) ↦ (query, ran, refl, sym (e ∙ id))
                | inr (_, old) ↦
                    let (q, other, w, _) = (o.running_iff k).0 old in
                    absurd (ground (arith, o.own_job q other w))
              ],
              λ (q, other, w, e). saved.1 (inl (ground arith, refl)),
            );
        own_job = λ q other w. (ground arith, refl);
        named = named-save hash ran s.jobs o.named;
        bounded = o.bounded;
      }

  pub run_search-IsOrderly :
      (a : SearchAnswers) (now : ℕ) (s : Searches)
      → a.lookup_fails ≡ false
      → a.save_fails ≡ false
      → IsOrderly hash s
      → IsOrderly hash (run_search hash a now s)
  unfolding run_search stored_or_blank read_job
  run_search-IsOrderly a now s l w o = elim (Option-cases s.held) [
    | inl e ↦ rw (run_search, e) o
    | inr (query, e) ↦
        let (job, j, q) = (o.queued_iff (key_of hash query)).1 (
          subst
            (λ (x : Option Runes).
              In (key_of hash query) (map (key_of hash) (held_list x ++ s.queue)))
            (sym e) (inl refl)) in
        rw (run_search, e, l, w, j) (begun-IsOrderly now query job s e j o)
  ]

  pub finished-IsOrderly :
      (query : Runes) (job done : Job) (s : Searches)
      → s.under_way ≡ some (query, job)
      → done.id ≡ job.id
      → (done.state ≢ queued) × (done.state ≢ running)
      → IsOrderly hash s
      → IsOrderly hash (record s { jobs = save_job done s.jobs; under_way = none })
  finished-IsOrderly query job done s w id ended o =
      let own = (o.own_job query job w).0 in
      let ran = (o.running_iff (key_of hash query)).1 (query, job, w, refl) in
      let here : done.id ≡ key_of hash query = id ∙ own in
      record {
        queued_iff = λ k.
            let keep =
              Stands-keep hash done s.jobs queued ended.0
                (λ (found, at, is).
                  let twice : s.jobs (key_of hash query) ≡ some found = ap s.jobs (sym here) ∙ at in
                  ground (arith, ran))
                k in
            (λ h. (o.queued_iff k).0 (keep.0 h), λ m. keep.1 ((o.queued_iff k).1 m));
        once = o.once;
        running_iff = λ k.
            let saved = Stands-save done s.jobs k running in
            (
              λ st. elim (saved.0 st) [
                | inl (_, is) ↦ absurd (ended.1 is)
                | inr (n, old) ↦
                    let (q, other, w', e) = (o.running_iff k).0 old in
                    absurd (n (sym e ∙ ap (key_of hash) (same_query w' w) ∙ sym here))
              ],
              λ (q, other, w', e). absurd (ground arith),
            );
        own_job = λ q other w'. absurd (ground arith);
        named = named-save hash done s.jobs o.named;
        bounded = o.bounded;
      }

  pub end_search-IsOrderly :
      (a : SearchAnswers) (now : ℕ) (error : Option Error) (s : Searches)
      → a.save_fails ≡ false
      → IsOrderly hash s
      → IsOrderly hash (end_search hash a now error s)
  unfolding end_search
  end_search-IsOrderly a now error s w o = elim (Option-cases s.under_way) [
    | inl e ↦ rw (end_search, e) o
    | inr ((query, job), e) ↦
        rw (end_search, e, w)
          (finished-IsOrderly query job (ended_job now error job) s e (ended_lem now error job).0
            (ended_lem now error job).1 o)
  ]
