-- ===== src/Tests/Requests.antt =====
-- The retry theorem at an upstream that answers 429 once, and then 200.
use filelist_streaming_servi.Base.{
  signed, ℕ, ◌*◌, ◌≡◌, ◌≤◌, ◌<◌, refl, true, false, some, none, [], codes, arith, ltb,
  if◌then◌else◌, is_space,
}
use filelist_streaming_servi.Outbound.{
  Upstream, Response, Policy, do_request, attempts_of, delay_of, retry_delay, second,
}
use filelist_streaming_servi.Outbound.Answered.{Waits, Answers, do_request-Answers}

abbrev limited : Response
limited = record { status = 429; retry_after = codes " 2 "; rate_limit_reset = [] }

abbrev fine : Response
fine = record { status = 200; retry_after = []; rate_limit_reset = [] }

abbrev upstream : Upstream
upstream = record {
  make_fails = λ n. false;
  answer = λ n. some (if ltb n 2 then limited else fine);
  until_date = λ n raw. none;
  until_unix = λ n unix. 0;
  random = λ n bound. 0;
  ends_in_wait = λ n. false;
}

abbrev default : Policy
default = record { attempts = 0; max_inline_delay = 0 }

first-Waits : (i : ℕ) → 1 ≤ i → i < 2 → Waits upstream (delay_of default) i
unfolding delay_of retry_delay is_space
first-Waits i a b =
    let e : i ≡ 1 = omega arith in
    rw e (record {
      made = refl;
      response = limited;
      answered = refl;
      limited = refl;
      short = omega arith;
      lasts = refl;
    })

do_request-Answers_example : Answers (delay_of default) 1 1 2 fine (do_request upstream default)
unfolding attempts_of
do_request-Answers_example =
    do_request-Answers upstream default 2 fine (omega arith) (omega arith) first-Waits refl refl
      (omega arith)

-- A count of seconds that leaves the range of a `time.Duration` gives a negative delay, which no wait
-- observes and no longest delay refuses.
wrapped :
    retry_delay upstream (record limited { retry_after = codes "9223372037" }) 1
    ≡ 9223372037 * second
unfolding retry_delay is_space
wrapped = refl

negative : ltb (signed (9223372037 * second)) (signed 0) ≡ true
negative = refl
