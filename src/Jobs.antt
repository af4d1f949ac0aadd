-- ===== src/Jobs.antt =====
-- internal/application/service.go: what becomes of a job whose attempt failed (`failOrWait`), the claim of
-- due jobs in `retryDueJobs` up to its call of `RetryJob`, and the startup recovery of interrupted jobs. The
-- sources of a title, none where the repository refuses, are a parameter. A time is in nanoseconds.
use filelist_streaming_servi.Base.{
  ℕ, ◌+◌, Bool, true, false, not, ◌&&◌, ◌||◌, Option, none, some, ◌/◌, ◌*◌, List, [], ◌∷◌, Runes,
  codes, runes_eq, trim_prefix, trim_space, length, any, if◌then◌else◌, ltb, leb, ◌==◌,
}
use filelist_streaming_servi.World.{
  Error, is_transient, Job, JobState, queued, running, failed, retry_wait, JobKind, title_refresh,
}

abbrev pub hour : ℕ
hour = 3_600_000_000_000

-- `failOrWait` at a time: the zero time stands for a rate limit without `RetryAt`.
unfoldable pub fail_or_wait : ℕ → Error → Job → Job
fail_or_wait now e job =
    let noted = record job { error = e.text; updated_at = now; retryable = is_transient e } in
    elim e.rate_limit [
      | some at ↦ record noted {
        state = retry_wait;
        next_attempt_at = some (if at == 0 then now + hour else at);
      }
      | none ↦ record noted {
        state = failed;
        next_attempt_at = if is_transient e then some (now + hour) else job.next_attempt_at;
      }
    ]

is_waiting : JobState → Bool
is_waiting retry_wait = true
is_waiting _ = false

is_failed : JobState → Bool
is_failed failed = true
is_failed _ = false

-- Whether a pass of `retryDueJobs` takes a job up.
unfoldable pub is_claimed : Bool → ℕ → Job → Bool
unfolding is_waiting is_failed
is_claimed waiting_only now job = elim job.next_attempt_at [
  | none ↦ false
  | some at ↦
      leb at now
      && (if waiting_only then is_waiting job.state else is_failed job.state && job.retryable)
]

abbrev pub nanoseconds : ℕ
nanoseconds = 1_000_000_000

whole_seconds : ℕ → ℕ
whole_seconds at = at / nanoseconds * nanoseconds

-- What a job is read back as after `SaveJob`: the database keeps whole seconds.
unfoldable pub saved_job : Job → Job
unfolding whole_seconds
saved_job job = record job {
  next_attempt_at = elim job.next_attempt_at [ none ↦ none | some at ↦ some (whole_seconds at) ];
  updated_at = whole_seconds job.updated_at;
}

-- The condition of `ListDueJobs` on a stored job.
unfoldable pub is_listed : ℕ → Job → Bool
unfolding is_waiting is_failed
is_listed before job = elim job.next_attempt_at [
  | none ↦ false
  | some at ↦
      leb (at / nanoseconds) (before / nanoseconds)
      && (is_waiting job.state || is_failed job.state && job.retryable)
]

-- Whether a pass of `retryDueJobs` takes up a job that was saved: it lists the due jobs, and compares the
-- times once more a moment later.
unfoldable pub is_taken_up : ℕ → ℕ → Bool → Job → Bool
unfolding saved_job is_listed is_claimed
is_taken_up before now waiting_only job =
    is_listed before (saved_job job) && is_claimed waiting_only now (saved_job job)

-- The job that is saved before the retry.
unfoldable pub claim : Job → Job
claim job = record job { state = failed; next_attempt_at = none }

-- The categories that are excluded by default, of internal/domain/categories.go.
abbrev pub default_blacklisted : List Runes
default_blacklisted =
    codes "Books"
    ∷ codes "Courses"
    ∷ codes "Various"
    ∷ codes "Docs"
    ∷ codes "Games Console"
    ∷ codes "Games PC"
    ∷ codes "Linux"
    ∷ codes "Mobile"
    ∷ codes "Apps"
    ∷ codes "XXX"
    ∷ []

is_allowed : Runes → Bool
unfolding runes_eq
is_allowed category = not (any (runes_eq category) default_blacklisted)

unfoldable pub is_active : JobState → Bool
is_active queued = true
is_active running = true
is_active _ = false

unfoldable pub is_title_refresh : JobKind → Bool
is_title_refresh title_refresh = true
is_title_refresh _ = false

-- The sources of a title are all in excluded categories.
is_excluded : Option (List Runes) → Bool
unfolding is_allowed
is_excluded (some (category ∷ categories)) = not (any is_allowed (category ∷ categories))
is_excluded _ = false

-- An interrupted title refresh: excluded, or queued again.
recover_refresh : ℕ → (Runes → Option (List Runes)) → Job → Job
unfolding runes_eq trim_prefix trim_space is_excluded
recover_refresh now sources job =
    let query = trim_prefix job.label (codes "Refresh all versions of ") in
    if runes_eq query job.label || ltb (length (trim_space query)) 3
    then job
    else if is_excluded (sources (trim_prefix job.dedupe_key (codes "catalog-title-refresh:")))
    then record job {
      state = failed;
      error = codes "category is excluded from discovery";
      updated_at = now;
    }
    else record job { state = queued; progress = 0; error = []; updated_at = now }

unfoldable pub recover_job : ℕ → (Runes → Option (List Runes)) → Job → Job
unfolding is_active is_title_refresh recover_refresh
recover_job now sources job =
    if not (is_active job.state)
    then job
    else if is_title_refresh job.kind
    then recover_refresh now sources job
    else record job {
      state = failed;
      error = codes "interrupted by server restart; safe to retry";
      retryable = true;
      next_attempt_at = some (now + hour);
      updated_at = now;
    }

-- Whether and by which pass a failed attempt is due at a time, from its error alone: in the second of the
-- time that it waits for, or later.
unfoldable pub is_due : ℕ → ℕ → Error → Bool → Bool
is_due now later e waiting_only = elim e.rate_limit [
  | some at ↦
      waiting_only && leb ((if at == 0 then now + hour else at) / nanoseconds) (later / nanoseconds)
  | none ↦
      not waiting_only && (is_transient e && leb ((now + hour) / nanoseconds) (later / nanoseconds))
]
