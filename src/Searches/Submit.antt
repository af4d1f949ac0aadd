-- ===== src/Searches/Submit.antt =====
-- internal/application/service.go: the submission and the retry of a tracker search.
use mathlib.Core.List.{append_assoc}
use filelist_streaming_servi.Base.{
  trim_space, trim_prefix, codes, ℕ, ◌<◌, ◌≡◌, ◌⊎◌, ◌↔◌, inl, inr, refl, sym, subst, ◌∙◌, Bool,
  true, false, Option, none, some, List, [], ◌∷◌, ◌++◌, String, Runes, In, map, length,
  length-append, arith, Bool-cases, Option-cases, ltb,
}
use filelist_streaming_servi.World.{Job, JobState, queued, running, failed}
use filelist_streaming_servi.Searches.{
  Searches, queue_size, save_job, is_pending_search, new_search, enqueue, submit, key_of,
  queue_search, retry_search, attempt_of, SearchAnswers, read_job,
}
use filelist_streaming_servi.Titles.Sets.{Distinct}
use filelist_streaming_servi.Searches.Orderly.{
  Stands, Stands-save, held_list, held_list, waiting, IsOrderly, named-save, Stands-keep,
  In-map_last, Distinct-map_last, Distinct-map_last,
}

-- A job that is not pending is neither queued nor running.
ended_not :
    (job : Job) (jobs : String → Option Job) (k : String) (state : JobState)
    → jobs k ≡ some job
    → is_pending_search job.state ≡ false
    → (state ≡ queued) ⊎ (state ≡ running)
    → Stands jobs k state
    → ⊥
unfolding is_pending_search
ended_not job jobs k state j p either (found, at, is) = ground arith

module _ (hash : Runes → String) where
  pub full-IsOrderly :
      (job : Job) (s : Searches)
      → job.state ≡ failed
      → (Stands s.jobs job.id queued → ⊥)
      → (Stands s.jobs job.id running → ⊥)
      → IsOrderly hash s
      → IsOrderly hash (record s { jobs = save_job job s.jobs })
  full-IsOrderly job s f nq nr o = record {
    queued_iff = λ k.
        let keep = Stands-keep hash job s.jobs queued (λ e. ground arith) nq k in
        (λ h. (o.queued_iff k).0 (keep.0 h), λ m. keep.1 ((o.queued_iff k).1 m));
    once = o.once;
    running_iff = λ k.
        let keep = Stands-keep hash job s.jobs running (λ e. ground arith) nr k in
        (λ h. (o.running_iff k).0 (keep.0 h), λ m. keep.1 ((o.running_iff k).1 m));
    own_job = o.own_job;
    named = named-save hash job s.jobs o.named;
    bounded = o.bounded;
  }

  pub room-IsOrderly :
      (query : Runes) (job : Job) (s : Searches)
      → job.state ≡ queued
      → job.id ≡ key_of hash query
      → (Stands s.jobs job.id queued → ⊥)
      → (Stands s.jobs job.id running → ⊥)
      → length s.queue < queue_size
      → IsOrderly hash s
      → IsOrderly hash (record s { jobs = save_job job s.jobs; queue = s.queue ++ (query ∷ []) })
  room-IsOrderly query job s q i nq nr room o =
      let list = held_list s.held ++ s.queue in
      let same = append_assoc (held_list s.held) s.queue (query ∷ []) in
      let waits : (k : String)
          → In k (map (key_of hash) (held_list s.held ++ (s.queue ++ (query ∷ []))))
            ↔ ((k ≡ key_of hash query) ⊎ In k (waiting hash s)) =
        λ k.
          subst
            (λ (l : List Runes).
              In k (map (key_of hash) l) ↔ ((k ≡ key_of hash query) ⊎ In k (waiting hash s)))
            same (In-map_last hash k list query) in
      record {
        queued_iff = λ k.
            let saved = Stands-save job s.jobs k queued in
            (
              λ h. elim (saved.0 h) [
                | inl (e, _) ↦ (waits k).1 (inl (e ∙ i))
                | inr (_, old) ↦ (waits k).1 (inr ((o.queued_iff k).0 old))
              ],
              λ m. elim ((waits k).0 m) [
                | inl e ↦ saved.1 (inl (e ∙ sym i, q))
                | inr m ↦
                    let old = (o.queued_iff k).1 m in
                    saved.1 (inr (λ e. nq (subst (λ k. Stands s.jobs k queued) e old), old))
              ],
            );
        once =
            subst (λ (l : List Runes). Distinct (map (key_of hash) l)) same
              (Distinct-map_last hash list query o.once (λ m. nq (
                subst (λ k. Stands s.jobs k queued) (sym i)
                  ((o.queued_iff (key_of hash query)).1 m))));
        running_iff = λ k.
            let keep = Stands-keep hash job s.jobs running (λ e. ground arith) nr k in
            (λ h. (o.running_iff k).0 (keep.0 h), λ m. keep.1 ((o.running_iff k).1 m));
        own_job = o.own_job;
        named = named-save hash job s.jobs o.named;
        bounded = omega (arith, room, length-append s.queue (query ∷ []));
      }

  pub enqueue-IsOrderly :
      (now : ℕ) (query : Runes) (job : Job) (s : Searches)
      → job.state ≡ queued
      → job.id ≡ key_of hash query
      → (Stands s.jobs job.id queued → ⊥)
      → (Stands s.jobs job.id running → ⊥)
      → IsOrderly hash s
      → IsOrderly hash (enqueue false now query job s).0
  unfolding enqueue
  enqueue-IsOrderly now query job s q i nq nr o =
      elim (Bool-cases (ltb (length s.queue) queue_size)) [
        | inl e ↦ rw (enqueue, e) (room-IsOrderly query job s q i nq nr (ground arith) o)
        | inr e ↦
            rw (enqueue, e)
              (full-IsOrderly
                (record job {
                  state = failed;
                  error = codes "tracker search queue is full";
                  updated_at = now;
                })
                s refl nq nr o)
      ]

  pub submitted :
      (now : ℕ) (key : String) (query : Runes) (attempt : ℕ) (s : Searches)
      → key ≡ key_of hash query
      → (Stands s.jobs key queued → ⊥)
      → (Stands s.jobs key running → ⊥)
      → IsOrderly hash s
      → IsOrderly hash (enqueue false now query (new_search key query attempt now) s).0
  unfolding new_search
  submitted now key query attempt s e nq nr o =
      enqueue-IsOrderly now query (new_search key query attempt now) s refl e nq nr o

  pub submit-IsOrderly :
      (a : SearchAnswers) (now : ℕ) (force : Bool) (key : String) (query : Runes)
      (existing again : Option Job) (s : Searches)
      → a.mark_fails ≡ false
      → key ≡ key_of hash query
      → s.jobs key ≡ existing
      → IsOrderly hash s
      → IsOrderly hash (submit a now force key query existing again s).0
  unfolding submit
  submit-IsOrderly a now force key query none again s m e j o = elim (Bool-cases a.save_fails) [
    | inl r ↦ rw (submit, r) o
    | inr r ↦
        rw (submit, r, m)
          (submitted now key query (attempt_of force again) s e (λ h. absurd (ground arith))
            (λ h. absurd (ground arith)) o)
  ]
  submit-IsOrderly a now force key query (some job) again s m e j o =
      elim (Bool-cases (is_pending_search job.state)) [
        | inl p ↦ rw (submit, p) o
        | inr p ↦ elim (Bool-cases a.save_fails) [
          | inl r ↦ rw (submit, p, r) o
          | inr r ↦
              rw (submit, p, r, m)
                (submitted now key query (attempt_of force again) s e
                  (λ h. ended_not job s.jobs key queued j p (inl refl) h)
                  (λ h. ended_not job s.jobs key running j p (inr refl) h) o)
        ]
      ]

  pub queue_search-IsOrderly :
      (a : SearchAnswers) (now : ℕ) (force : Bool) (q : Runes) (s : Searches)
      → a.read_fails ≡ false
      → a.mark_fails ≡ false
      → IsOrderly hash s
      → IsOrderly hash (queue_search hash a now force q s).0
  unfolding queue_search
  queue_search-IsOrderly a now force q s r m o = elim (Bool-cases (ltb (length (trim_space q)) 3)) [
    | inl e ↦ rw (queue_search, e) o
    | inr e ↦
        rw (queue_search, e, r)
          (submit-IsOrderly a now force (key_of hash (trim_space q)) (trim_space q)
            (s.jobs (key_of hash (trim_space q)))
            (read_job a.reread_fails (s.jobs (key_of hash (trim_space q)))) s m refl refl o)
  ]

  pub retry_search-IsOrderly :
      (a : SearchAnswers) (now : ℕ) (id : String) (s : Searches)
      → a.read_fails ≡ false
      → a.mark_fails ≡ false
      → IsOrderly hash s
      → IsOrderly hash (retry_search hash a now id s).0
  unfolding retry_search
  retry_search-IsOrderly a now id s r m o =
      elim (Option-cases (read_job a.lookup_fails (s.jobs id))) [
        | inl e ↦ rw (retry_search, e) o
        | inr (job, e) ↦ elim (Bool-cases (is_pending_search job.state)) [
          | inl p ↦ rw (retry_search, e, p) o
          | inr p ↦
              rw (retry_search, e, p)
                (queue_search-IsOrderly a now true
                  (trim_prefix job.label (codes "Search FileList for ")) s r m o)
        ]
      ]
