-- ===== src/Outbound.antt =====
-- internal/platform/outbound/retry.go: the requests to an upstream that answers 429. A `time.Duration` is the bits of
-- its `int64` nanoseconds. The upstream, the clock, the random numbers and the caller's context are the
-- parameter `Upstream`, attempt by attempt.
pub mod Answered
use filelist_streaming_servi.Base.{
  ℕ, zero, suc, ◌+◌, ◌-◌, ◌*◌, ◌/◌, ◌%◌, ◌^◌, ◌≡◌, refl, Bool, true, false, not, ◌||◌, Option, none,
  some, List, [], ◌∷◌, Runes, codes, Result, ok, err, ◌==◌, leb, ltb, if◌then◌else◌, trim_space,
  signed,
}
use filelist_streaming_servi.Torrent.{parse_int}

pub record Response : Type 0 where
  pub status : ℕ
  pub retry_after : Runes
  pub rate_limit_reset : Runes

pub data RequestError : Type 0 where
  not_made not_sent cancelled : RequestError
  rate_limited : ℕ → ℕ → RequestError

-- What is outside: whether attempt `n` can be made and what it is answered, `http.ParseTime` with
-- `time.Until` and `time.Until` of a Unix time at attempt `n`, `rand.Int63n`, and whether the context ends
-- during the wait after attempt `n`.
pub record Upstream : Type 0 where
  pub make_fails : ℕ → Bool
  pub answer : ℕ → Option Response
  pub until_date : ℕ → Runes → Option ℕ
  pub until_unix : ℕ → Bool × ℕ → ℕ
  pub random : ℕ → ℕ → ℕ
  pub ends_in_wait : ℕ → Bool

pub record Policy : Type 0 where
  pub attempts : ℕ
  pub max_inline_delay : ℕ

abbrev pub second : ℕ
second = 1_000_000_000

unfoldable pub max_duration : ℕ → ℕ → ℕ
max_duration a b = if ltb (signed b) (signed a) then a else b

unfoldable pub backoff : Upstream → ℕ → ℕ
backoff up attempt =
    let steps = if ltb (attempt - 1) 5 then attempt - 1 else 5 in
    let base = second * 2 ^ steps in base + up.random attempt (base / 4 + 1)

unfoldable pub reset_delay : Upstream → ℕ → Runes → ℕ
unfolding max_duration backoff parse_int
reset_delay up attempt [] = backoff up attempt
reset_delay up attempt (c ∷ raw) = elim (parse_int (c ∷ raw)) [
  | some unix ↦ max_duration (up.until_unix attempt unix) second
  | none ↦ backoff up attempt
]

-- A count of seconds that is not negative; `-0` is one.
unfoldable pub seconds_of : Runes → Option ℕ
unfolding parse_int
seconds_of raw = elim (parse_int raw) [
  | none ↦ none
  | some (negative, n) ↦ if negative then (if n == 0 then some 0 else none) else some n
]

-- The product with a second wraps.
unfoldable pub retry_delay : Upstream → Response → ℕ → ℕ
unfolding reset_delay seconds_of trim_space
retry_delay up response attempt =
    let reset = reset_delay up attempt (trim_space response.rate_limit_reset) in
    let raw = trim_space response.retry_after in
    elim raw [
      | [] ↦ reset
      | c ∷ s ↦ elim (seconds_of (c ∷ s)) [
        | some seconds ↦ (seconds * second) % 2 ^ 64
        | none ↦ elim (up.until_date attempt (c ∷ s)) [
          | some delay ↦ max_duration delay second
          | none ↦ reset
        ]
      ]
    ]

-- The end of a call: its result, and the requests sent and the waits begun.
pub record Done : Type 0 where
  pub result : Result RequestError Response
  pub sent : ℕ
  pub waits : List ℕ

abbrev pub after_wait : ℕ → Done → Done
after_wait delay done = record done { waits = delay ∷ done.waits }

abbrev pub ending : Result RequestError Response → ℕ → Done
ending result sent = record { result = result; sent = sent; waits = [] }

-- One attempt: it ends the call, or gives the delay that a 429 asks for and that is no longer than the
-- longest one.
pub data Once : Type 0 where
  finished : Done → Once
  delayed : ℕ → Once

unfoldable pub on_response : Upstream → ℕ → ℕ → Response → Once
unfolding retry_delay
on_response up max_delay attempt response =
    let delay = retry_delay up response attempt in
    if not (response.status == 429)
    then finished (ending (ok response) attempt)
    else if ltb (signed max_delay) (signed delay)
    then finished (ending (err (rate_limited attempt delay)) attempt)
    else delayed delay

unfoldable pub attempt_once : Upstream → ℕ → ℕ → Once
unfolding on_response
attempt_once up max_delay attempt =
    if up.make_fails attempt
    then finished (ending (err not_made) (attempt - 1))
    else elim (up.answer attempt) [
      | none ↦ finished (ending (err not_sent) attempt)
      | some response ↦ on_response up max_delay attempt response
    ]

-- The loop from `attempt` on, with `left` attempts behind it.
unfoldable pub attempt_from : Upstream → ℕ → ℕ → ℕ → Done
unfolding attempt_once
attempt_from up max_delay zero attempt = elim (attempt_once up max_delay attempt) [
  | finished done ↦ done
  | delayed delay ↦ ending (err (rate_limited attempt delay)) attempt
]
attempt_from up max_delay (suc left) attempt = elim (attempt_once up max_delay attempt) [
  | finished done ↦ done
  | delayed delay ↦
      let rest = attempt_from up max_delay left (attempt + 1) in
      after_wait delay (if up.ends_in_wait attempt then ending (err cancelled) attempt else rest)
]

-- `Do`: a policy without attempts has 3, and one without a longest delay has 15 seconds; 0 stands for
-- every number below 1.
unfoldable pub attempts_of : Policy → ℕ
attempts_of policy = if ltb policy.attempts 1 then 3 else policy.attempts

unfoldable pub delay_of : Policy → ℕ
delay_of policy = if policy.max_inline_delay == 0 then 15 * second else policy.max_inline_delay

unfoldable pub do_request : Upstream → Policy → Done
unfolding attempt_from attempts_of delay_of
do_request up policy = attempt_from up (delay_of policy) (attempts_of policy - 1) 1
