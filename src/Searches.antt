-- ===== src/Searches.antt =====
-- internal/application/service.go: the jobs of tracker searches (`QueueTrackerSearch`, the branch of
-- `RetryJob` for them, `trackerSearchWorker` with `runTrackerSearch`), their queue and their one worker. The
-- jobs are a map by id; the hash of a query is a parameter, and so is what the search and each call of the
-- database answer. The events and the log of a job are left out, and so is the end of the service, at which
-- the worker drops the query that it holds.
pub mod Once
pub mod Orderly
pub mod Submit
pub mod Worker
use filelist_streaming_servi.Base.{
  ℕ, suc, ◌+◌, Bool, true, false, ◌||◌, Option, none, some, List, [], ◌∷◌, ◌++◌, String, Runes,
  codes, Result, ok, err, ltb, if◌then◌else◌, str_eq, trim_space, trim_prefix, to_lower, length,
}
use filelist_streaming_servi.World.{
  Error, Job, JobState, queued, running, completed, failed, retry_wait, tracker_search, other_kind,
  other_state,
}
use filelist_streaming_servi.Jobs.{fail_or_wait}

pub data SearchError : Type 0 where
  too_short save_refused queue_full not_found active_job : SearchError

pub record Searches : Type 0 where
  pub jobs : String → Option Job
  pub queue : List Runes
  pub held : Option Runes  -- what the worker received and has no slot for yet
  pub under_way : Option (Runes × Job)

-- The state before any search.
abbrev pub no_searches : Searches
no_searches = record { jobs = λ k. none; queue = []; held = none; under_way = none }

abbrev pub queue_size : ℕ
queue_size = 256

-- The calls of the database that fail in one call of the service or one step of the worker.
pub record SearchAnswers : Type 0 where
  pub lookup_fails : Bool  -- the read of `RetryJob` and of `runTrackerSearch`
  pub read_fails : Bool  -- the first read of `QueueTrackerSearch`
  pub reread_fails : Bool  -- its read for the attempt
  pub save_fails : Bool
  pub mark_fails : Bool  -- its save where the queue is full

-- `GetJob`, of which a failure is taken for no job.
unfoldable pub read_job : Bool → Option Job → Option Job
read_job true job = none
read_job false job = job

unfoldable pub save_job : Job → (String → Option Job) → String → Option Job
save_job job jobs k = if str_eq job.id k then some job else jobs k

unfoldable pub is_pending_search : JobState → Bool
is_pending_search queued = true
is_pending_search running = true
is_pending_search retry_wait = true
is_pending_search _ = false

unfoldable pub is_over : JobState → Bool
is_over completed = true
is_over failed = true
is_over _ = false

unfoldable pub attempt_of : Bool → Option Job → ℕ
unfolding is_over
attempt_of force none = 1
attempt_of force (some job) = if force || is_over job.state then suc job.attempt else job.attempt

unfoldable pub new_search : String → Runes → ℕ → ℕ → Job
new_search key query attempt now = record {
  id = key;
  kind = tracker_search;
  state = queued;
  label = codes "Search FileList for " ++ query;
  dedupe_key = codes key;
  progress = 0;
  attempt = attempt;
  error = [];
  retryable = false;
  next_attempt_at = none;
  updated_at = now;
}

-- `QueueTrackerSearch` from the save of its job on. The save where the queue is full is under the same id
-- and replaces the first one.
unfoldable pub enqueue : Bool → ℕ → Runes → Job → Searches → Searches × Result SearchError Job
unfolding save_job
enqueue mark_fails now query job s =
    if ltb (length s.queue) queue_size
    then (record s { jobs = save_job job s.jobs; queue = s.queue ++ (query ∷ []) }, ok job)
    else (
      record s {
        jobs =
            if mark_fails
            then save_job job s.jobs
            else save_job
                (record job {
                  state = failed;
                  error = codes "tracker search queue is full";
                  updated_at = now;
                })
                s.jobs;
      },
      err queue_full,
    )

unfoldable pub submit :
    SearchAnswers
    → ℕ
    → Bool
    → String
    → Runes
    → Option Job
    → Option Job
    → Searches
    → Searches × Result SearchError Job
unfolding enqueue new_search attempt_of is_pending_search
submit a now force key query none again s =
    if a.save_fails
    then (s, err save_refused)
    else enqueue a.mark_fails now query (new_search key query (attempt_of force again) now) s
submit a now force key query (some existing) again s =
    if is_pending_search existing.state
    then (s, ok existing)
    else if a.save_fails
    then (s, err save_refused)
    else enqueue a.mark_fails now query (new_search key query (attempt_of force again) now) s

unfoldable pub running_job : ℕ → Job → Job
running_job now job = record job {
  state = running;
  progress = 100_000;
  error = [];
  next_attempt_at = none;
  updated_at = now;
}

-- The zero value of a job.
abbrev pub blank_job : Job
blank_job = record {
  id = "";
  kind = other_kind;
  state = other_state;
  label = [];
  dedupe_key = [];
  progress = 0;
  attempt = 0;
  error = [];
  retryable = false;
  next_attempt_at = none;
  updated_at = 0;
}

unfoldable pub stored_or_blank : Option Job → Job
stored_or_blank none = blank_job
stored_or_blank (some job) = job

-- The end of `runTrackerSearch`, given the error of the search.
unfoldable pub ended_job : ℕ → Option Error → Job → Job
unfolding fail_or_wait
ended_job now none job = record job {
  state = completed;
  progress = 1_000_000;
  retryable = false;
  next_attempt_at = none;
  updated_at = now;
}
ended_job now (some e) job = fail_or_wait now e job

-- The calls, and the steps of the worker.
pub data SearchCall : Type 0 where
  queues : SearchAnswers → ℕ → Bool → Runes → SearchCall
  retries : SearchAnswers → ℕ → String → SearchCall
  takes : SearchCall
  runs : SearchAnswers → ℕ → SearchCall
  ends : SearchAnswers → ℕ → Option Error → SearchCall

module _ (hash : Runes → String) where
  abbrev pub key_of : Runes → String
  key_of query = hash (to_lower query)

  unfoldable pub queue_search :
      SearchAnswers → ℕ → Bool → Runes → Searches → Searches × Result SearchError Job
  unfolding submit read_job trim_space to_lower
  queue_search a now force q s =
      let query = trim_space q in
      if ltb (length query) 3
      then (s, err too_short)
      else submit a now force (key_of query) query (read_job a.read_fails (s.jobs (key_of query)))
          (read_job a.reread_fails (s.jobs (key_of query))) s

  -- `RetryJob` at the job of a search.
  unfoldable pub retry_search :
      SearchAnswers → ℕ → String → Searches → Searches × Result SearchError Job
  unfolding queue_search trim_prefix read_job is_pending_search
  retry_search a now id s = elim (read_job a.lookup_fails (s.jobs id)) [
    | none ↦ (s, err not_found)
    | some job ↦
        if is_pending_search job.state
        then (s, err active_job)
        else queue_search a now true (trim_prefix job.label (codes "Search FileList for ")) s
  ]

  -- The worker receives a query.
  unfoldable pub take_search : Searches → Searches
  take_search s = elim s.under_way [
    | some search ↦ s
    | none ↦ elim s.held [
      | some query ↦ s
      | none ↦ elim s.queue [
        | [] ↦ s
        | query ∷ queue ↦ record s { queue = queue; held = some query }
      ]
    ]
  ]

  -- `runTrackerSearch` once it has its slots; a job that is not there is a blank one.
  unfoldable pub run_search : SearchAnswers → ℕ → Searches → Searches
  unfolding save_job running_job stored_or_blank read_job to_lower
  run_search a now s = elim s.held [
    | none ↦ s
    | some query ↦
        let job =
          running_job now (stored_or_blank (read_job a.lookup_fails (s.jobs (key_of query)))) in
        record s {
          jobs = if a.save_fails then s.jobs else save_job job s.jobs;
          held = none;
          under_way = some (query, job);
        }
  ]

  unfoldable pub end_search : SearchAnswers → ℕ → Option Error → Searches → Searches
  unfolding save_job ended_job
  end_search a now error s = elim s.under_way [
    | none ↦ s
    | some (query, job) ↦ record s {
      jobs = if a.save_fails then s.jobs else save_job (ended_job now error job) s.jobs;
      under_way = none;
    }
  ]

  unfoldable pub perform_call : SearchCall → Searches → Searches
  unfolding queue_search retry_search take_search run_search end_search
  perform_call (queues a now force q) s = (queue_search a now force q s).0
  perform_call (retries a now id) s = (retry_search a now id s).0
  perform_call takes s = take_search s
  perform_call (runs a now) s = run_search a now s
  perform_call (ends a now error) s = end_search a now error s

  unfoldable pub perform_calls : List SearchCall → Searches → Searches
  unfolding perform_call
  perform_calls [] s = s
  perform_calls (call ∷ calls) s = perform_calls calls (perform_call call s)
