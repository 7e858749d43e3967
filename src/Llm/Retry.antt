-- ===== src/Llm/Retry.antt =====
-- internal/llm/gemini.go: `doWithRetry` and `openStream`; internal/embed/embed.go: `post`. Attempt
-- `k` of a request is answered by `http k`, takes `took k` milliseconds, and the context ends in the
-- wait before it if `ctx_done k`. Times are milliseconds from the start of the call.
pub mod Attempts
mod Tests
use ragline.Base.{
  ℕ, zero, suc, ◌+◌, ◌*◌, ◌^◌, ◌||◌, Bool, true, false, List, [], ◌∷◌, Option, none, some, Bytes,
  min, leb, ltb, ◌==◌, if◌then◌else◌,
}

-- What `http.Do` comes to: an error, or a status and a body, which may fail to be read.
pub data Attempt : Type 0 where
  transport_error : Attempt
  response : ℕ → Option Bytes → Attempt

-- Why an attempt is made again.
pub data Failure : Type 0 where
  no_failure transport unread : Failure
  api_error : ℕ → Failure

-- What the loop does behind an attempt: `return raw`, `continue`, `return nil, err`.
pub data Verdict : Type 0 where
  accept : Bytes → Verdict
  again : Failure → Verdict
  reject : ℕ → Verdict

abbrev pub judge_status : ℕ → Bytes → Verdict
judge_status code body =
    if code == 200
    then accept body
    else if code == 429 || leb 500 code
    then again (api_error code)
    else reject code

abbrev pub judge : Attempt → Verdict
judge transport_error = again transport
judge (response code none) = again unread
judge (response code (some body)) = judge_status code body

-- `openStream` leaves the body of a 200 to its caller, and does not look at how reading the body of
-- an error went.
abbrev pub judge_header : Attempt → Verdict
judge_header transport_error = again transport
judge_header (response code body) = judge_status code []

-- How the loop ends.
pub data Ending : Type 0 where
  got : Bytes → Ending
  rejected : ℕ → Ending
  exhausted gave_up : Failure → Ending
  cancelled : Ending

-- The times at which requests went out, and the end.
pub record Run : Type 0 where
  pub starts : List ℕ
  pub ending : Ending

abbrev pub ended : Ending → Run
ended e = record { starts = []; ending = e }

-- `1<<attempt` seconds, at most 15.
abbrev pub wait_before : ℕ → ℕ
wait_before attempt = min (2 ^ attempt * 1000) 15000

-- The retry budget; `none` for a loop without one.
abbrev pub over : Option ℕ → ℕ → Bool
over none now = false
over (some budget) now = ltb budget now

module _ (verdict : ℕ → Verdict) (took : ℕ → ℕ) (ctx_done : ℕ → Bool) (budget : Option ℕ) where
  abbrev pub behind : Verdict → (Failure → Run) → Run
  behind (accept body) more = ended (got body)
  behind (reject code) more = ended (rejected code)
  behind (again e) more = more e

  -- The request goes out, and its answer decides.
  abbrev pub send_request : ℕ → Verdict → (Failure → Run) → Run
  send_request now v more = let r = behind v more in record r { starts = now ∷ r.starts }

  -- What stands before every attempt but the first.
  abbrev pub before_retry : ℕ → ℕ → Failure → (ℕ → Run) → Run
  before_retry attempt now last go =
      let sent = go (now + wait_before attempt) in
      if over budget now
      then ended (exhausted last)
      else if ctx_done attempt
      then ended cancelled
      else sent

  -- The loop from attempt `k` on, with `r` attempts left.
  unfoldable pub retry_loop : ℕ → ℕ → ℕ → Failure → Run
  retry_loop zero k now last = ended (gave_up last)
  retry_loop (suc r) k now last =
      let next : ℕ → Failure → Run = λ t e. retry_loop r (suc k) (t + took k) e in
      before_retry k now last (λ t. send_request t (verdict k) (next t))

  -- The whole loop: the first attempt waits for nothing.
  unfoldable pub attempts : ℕ → Run
  unfolding retry_loop
  attempts max_retries = send_request 0 (verdict 0) (λ e. retry_loop max_retries 1 (took 0) e)

module _ (http : ℕ → Attempt) (took : ℕ → ℕ) (ctx_done : ℕ → Bool) where
  -- `doWithRetry`
  unfoldable pub do_with_retry : ℕ → ℕ → Run
  unfolding attempts
  do_with_retry retry_budget max_retries =
      attempts (λ k. judge (http k)) took ctx_done (some retry_budget) max_retries

  -- `openStream`
  unfoldable pub open_stream : ℕ → ℕ → Run
  unfolding attempts
  open_stream retry_budget max_retries =
      attempts (λ k. judge_header (http k)) took ctx_done (some retry_budget) max_retries

  -- `post` of the embedding client, which has no budget.
  unfoldable pub post : ℕ → Run
  unfolding attempts
  post max_retries = attempts (λ k. judge (http k)) took ctx_done none max_retries
