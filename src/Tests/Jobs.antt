-- ===== src/Tests/Jobs.antt =====
-- The theorems on jobs at a retention job.
use filelist_streaming_servi.Base.{false, none, some, [], codes}
use filelist_streaming_servi.World.{Error, Job, running, retention}

abbrev job : Job
job = record {
  id = "j1";
  kind = retention;
  state = running;
  label = codes "Run retention";
  dedupe_key = codes "retention";
  progress = 0;
  attempt = 1;
  error = [];
  retryable = false;
  next_attempt_at = none;
  updated_at = 1;
}

abbrev limited : Error
limited = record {
  rate_limit = some 70_500_000_000;
  deadline_exceeded = false;
  canceled = false;
  torrent_not_found = false;
  text = codes "rate limited";
}
