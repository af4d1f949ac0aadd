-- ===== src/Searches/Once.antt =====
-- internal/application/service.go: the jobs of tracker searches beside their queue and their worker.
use filelist_streaming_servi.Base.{◌≡◌, false, All, List, [], ◌∷◌, String, Runes}
use filelist_streaming_servi.Searches.{
  Searches, no_searches, SearchCall, queues, retries, takes, runs, ends, perform_call,
  perform_calls,
}
use filelist_streaming_servi.Searches.Orderly.{IsOrderly, no_searches-IsOrderly}
use filelist_streaming_servi.Searches.Submit.{queue_search-IsOrderly, retry_search-IsOrderly}
use filelist_streaming_servi.Searches.Worker.{
  take_search-IsOrderly, run_search-IsOrderly, end_search-IsOrderly,
}

-- The database answers, save for the saves of a new search's job, whose failure the service reports, the
-- lookup of a retry, and the read for the number of an attempt.
abbrev pub Answered : SearchCall → Type 0
Answered (queues a now force q) = (a.read_fails ≡ false) × (a.mark_fails ≡ false)
Answered (retries a now id) = (a.read_fails ≡ false) × (a.mark_fails ≡ false)
Answered takes = Unit
Answered (runs a now) = (a.lookup_fails ≡ false) × (a.save_fails ≡ false)
Answered (ends a now error) = a.save_fails ≡ false

module _ (hash : Runes → String) where
  perform_call-IsOrderly :
      (call : SearchCall) (s : Searches)
      → Answered call
      → IsOrderly hash s
      → IsOrderly hash (perform_call hash call s)
  unfolding perform_call
  perform_call-IsOrderly (queues a now force q) s w o =
      queue_search-IsOrderly hash a now force q s w.0 w.1 o
  perform_call-IsOrderly (retries a now id) s w o = retry_search-IsOrderly hash a now id s w.0 w.1 o
  perform_call-IsOrderly takes s w o = take_search-IsOrderly hash s o
  perform_call-IsOrderly (runs a now) s w o = run_search-IsOrderly hash a now s w.0 w.1 o
  perform_call-IsOrderly (ends a now error) s w o = end_search-IsOrderly hash a now error s w o

  calls-IsOrderly :
      (calls : List SearchCall) (s : Searches)
      → All Answered calls
      → IsOrderly hash s
      → IsOrderly hash (perform_calls hash calls s)
  unfolding perform_calls
  calls-IsOrderly [] s w o = o
  calls-IsOrderly (call ∷ calls) s w o =
      calls-IsOrderly calls (perform_call hash call s) w.1 (perform_call-IsOrderly call s w.0 o)

  -- After any sequence of submissions, retries and steps of the worker, none within another, in which the
  -- first read of a submission, the save where the queue is full, and the reads and saves of the worker
  -- succeed: a search's job is queued exactly where its query waits, once, in the queue or at the worker;
  -- it is running exactly where the worker searches for it; and no more than 256 queries are in the queue.
  pub perform_calls-IsOrderly :
      (calls : List SearchCall)
      → All Answered calls
      → IsOrderly hash (perform_calls hash calls no_searches)
  perform_calls-IsOrderly calls w = calls-IsOrderly calls no_searches w (no_searches-IsOrderly hash)
