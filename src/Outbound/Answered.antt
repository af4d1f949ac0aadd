-- ===== src/Outbound/Answered.antt =====
-- What `Do` of internal/platform/outbound/retry.go gives: the first answer that is no 429, if one comes in time.
use filelist_streaming_servi.Base.{
  signed, ℕ, zero, suc, ◌+◌, ◌-◌, ◌≤◌, ◌<◌, ◌≡◌, ◌≢◌, refl, sym, ap, true, false, some, ok, ◌==◌,
  ltb, arith, subst, All, length,
}
use filelist_streaming_servi.Outbound.{
  Upstream, Response, Policy, Done, finished, delayed, ending, after_wait, retry_delay, on_response,
  attempt_once, attempt_from, attempts_of, delay_of, do_request,
}

-- Attempt `n` is answered 429 with a delay that the call waits for, and the context outlasts the wait.
pub record Waits (up : Upstream) (max_delay n : ℕ) : Type 0 where
  pub made : up.make_fails n ≡ false
  pub response : Response
  pub answered : up.answer n ≡ some response
  pub limited : response.status ≡ 429
  pub short : signed (retry_delay up response n) ≤ signed max_delay
  pub lasts : up.ends_in_wait n ≡ false

attempt_once-Waits :
    (up : Upstream) (max_delay n : ℕ) (w : Waits up max_delay n)
    → attempt_once up max_delay n ≡ delayed (retry_delay up w.response n)
unfolding attempt_once on_response
attempt_once-Waits up max_delay n w =
    let limited : (w.response.status == 429) ≡ true = ground (arith, w.limited) in
    let short : ltb (signed max_delay) (signed (retry_delay up w.response n)) ≡ false =
      ground (arith, w.short) in
    rw (attempt_once, w.made, w.answered, on_response, limited, short) refl

attempt_once-answered :
    (up : Upstream) (max_delay n : ℕ) (response : Response)
    → up.make_fails n ≡ false
    → up.answer n ≡ some response
    → response.status ≢ 429
    → attempt_once up max_delay n ≡ finished (ending (ok response) n)
unfolding attempt_once on_response
attempt_once-answered up max_delay n response made answered other =
    let free : (response.status == 429) ≡ false = ground arith in
    rw (attempt_once, made, answered, on_response, free) refl

-- The answer comes at attempt `m`, after `k` waits from attempt `n` on.
pub record Answers (max_delay n k m : ℕ) (response : Response) (done : Done) : Type 0 where
  pub got : done.result ≡ ok response
  pub all_sent : done.sent ≡ m
  pub waited : length done.waits ≡ k
  pub short_waits : All (λ delay. signed delay ≤ signed max_delay) done.waits

attempt_from-open :
    (up : Upstream) (max_delay left n : ℕ) (w : Waits up max_delay n)
    → attempt_from up max_delay (suc left) n
      ≡ after_wait (retry_delay up w.response n) (attempt_from up max_delay left (n + 1))
unfolding attempt_from
attempt_from-open up max_delay left n w =
    rw (attempt_from, attempt_once-Waits up max_delay n w, w.lasts) refl

attempt_from-finished :
    (up : Upstream) (max_delay left n : ℕ) (done : Done)
    → attempt_once up max_delay n ≡ finished done
    → attempt_from up max_delay left n ≡ done
unfolding attempt_from
attempt_from-finished up max_delay zero n done e = rw (attempt_from, e) refl
attempt_from-finished up max_delay (suc left) n done e = rw (attempt_from, e) refl

answered_now :
    (up : Upstream) (max_delay left n : ℕ) (response : Response)
    → attempt_once up max_delay n ≡ finished (ending (ok response) n)
    → Answers max_delay n 0 n response (attempt_from up max_delay left n)
answered_now up max_delay left n response e =
    subst (Answers max_delay n 0 n response)
      (sym (attempt_from-finished up max_delay left n (ending (ok response) n) e))
      (record { got = refl; all_sent = refl; waited = refl; short_waits = tt })

attempt_from-Answers :
    (up : Upstream) (max_delay k left n m : ℕ) (response : Response)
    → k ≤ left
    → m ≡ n + k
    → ((i : ℕ) → n ≤ i → i < m → Waits up max_delay i)
    → up.make_fails m ≡ false
    → up.answer m ≡ some response
    → response.status ≢ 429
    → Answers max_delay n k m response (attempt_from up max_delay left n)
unfolding attempt_from
attempt_from-Answers up max_delay zero left n m response l e w made answered other =
    let here : n ≡ m = omega arith in
    let once : attempt_once up max_delay m ≡ finished (ending (ok response) m) =
      attempt_once-answered up max_delay m response made answered other in
    subst (λ a. Answers max_delay a 0 m response (attempt_from up max_delay left a)) (sym here)
      (answered_now up max_delay left m response once)
attempt_from-Answers up max_delay (suc k) zero n m response l e w made answered other =
    absurd (omega arith)
attempt_from-Answers up max_delay (suc k) (suc left) n m response l e w made answered other =
    let here : Waits up max_delay n = w n (omega arith) (omega arith) in
    let later : Answers max_delay (n + 1) k m response (attempt_from up max_delay left (n + 1)) =
      attempt_from-Answers up max_delay k left (n + 1) m response (omega arith) (omega arith)
        (λ i a b. w i (omega arith) b) made answered other in
    subst (Answers max_delay n (suc k) m response)
      (sym (attempt_from-open up max_delay left n here))
      record {
        got = later.got;
        all_sent = later.all_sent;
        waited = ap suc later.waited;
        short_waits = (here.short, later.short_waits);
      }

-- Where an attempt within the policy gets an answer that is no 429, and each attempt before it is answered
-- 429 with a delay within the longest one that the caller's context outlasts, the call returns that
-- answer, after exactly so many requests, with one wait between any two of them and none longer than the
-- longest delay.
pub do_request-Answers :
    (up : Upstream) (policy : Policy) (m : ℕ) (response : Response)
    → 0 < m
    → m ≤ attempts_of policy
    → ((i : ℕ) → 1 ≤ i → i < m → Waits up (delay_of policy) i)
    → up.make_fails m ≡ false
    → up.answer m ≡ some response
    → response.status ≢ 429
    → Answers (delay_of policy) 1 (m - 1) m response (do_request up policy)
unfolding do_request
do_request-Answers up policy m response p l w made answered other =
    attempt_from-Answers up (delay_of policy) (m - 1) (attempts_of policy - 1) 1 m response
      (omega arith) (omega arith) w made answered other
