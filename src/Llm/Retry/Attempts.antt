-- ===== src/Llm/Retry/Attempts.antt =====
-- The retry loop against the attempts that it makes.
use ragline.Base.{
  none, ℕ, zero, suc, ◌+◌, ◌≤◌, ◌<◌, ◌≡◌, refl, Bool, true, false, List, [], ◌∷◌, Option, some,
  arith, length, ltb, Bool-cases, ◌⊎◌, inl, inr,
}
use ragline.Llm.Retry.{
  Failure, Verdict, accept, again, reject, Ending, got, rejected, exhausted, gave_up, cancelled,
  Run, ended, wait_before, over, send_request, before_retry, retry_loop, attempts,
}

abbrev is_again : Verdict → Bool
is_again (again e) = true
is_again (accept b) = false
is_again (reject c) = false

-- What the end says of the attempts, of which `n` were made before.
abbrev Explains : (ℕ → Verdict) → ℕ → ℕ → Ending → Type 0
Explains verdict limit n (got body) = (k : ℕ) × (n ≡ suc k) × (verdict k ≡ accept body)
Explains verdict limit n (rejected code) = (k : ℕ) × (n ≡ suc k) × (verdict k ≡ reject code)
Explains verdict limit n (gave_up e) = (n ≡ suc limit) × (is_again (verdict limit) ≡ true)
Explains verdict limit n (exhausted e) = n ≤ limit
Explains verdict limit n cancelled = n ≤ limit

-- A run of the loop behind `made` attempts: at most `limit` retries in all, every attempt but the last
-- asked to be made again, and the end is what the last attempt came to.
pub record Ran (verdict : ℕ → Verdict) (limit made : ℕ) (x : Run) : Type 0 where
  pub bound : made + length x.starts ≤ suc limit
  pub retried : (j : ℕ) → suc j < made + length x.starts → is_again (verdict j) ≡ true
  pub why : Explains verdict limit (made + length x.starts) x.ending

-- Every request of a run goes out at most 15 seconds behind the budget.
abbrev pub InTime : ℕ → List ℕ → Type 0
InTime b [] = Unit
InTime b (t ∷ ts) = (t ≤ b + 15000) × InTime b ts

Nat-below : (j k : ℕ) → j < suc k → (j < k) ⊎ (j ≡ k)
Nat-below j k lt = ground arith

module _ (verdict : ℕ → Verdict) (took : ℕ → ℕ) (ctx_done : ℕ → Bool) (budget : Option ℕ)
    (limit : ℕ) where
  abbrev Retried : ℕ → Type 0
  Retried k = (j : ℕ) → j < k → is_again (verdict j) ≡ true

  -- An end before a further request.
  ended-Ran :
      (k : ℕ) (e : Ending)
      → k ≤ suc limit
      → Retried k
      → Explains verdict limit k e
      → Ran verdict limit k (ended e)
  ended-Ran k e le h why = record {
    bound = omega arith;
    retried = λ j lt. h j (omega arith);
    why = rw (same k) why;
  }
    where
      same : (k : ℕ) → k + 0 ≡ k
      same k = omega arith

  send-Ran :
      (k now : ℕ) (v : Verdict) (more : Failure → Run)
      → k ≤ limit
      → Retried k
      → verdict k ≡ v
      → ((e : Failure) → Retried (suc k) → Ran verdict limit (suc k) (more e))
      → Ran verdict limit k (send_request verdict took ctx_done budget now v more)
  send-Ran k now (accept body) more le h eq ih = record {
    bound = omega arith;
    retried = λ j lt. h j (omega arith);
    why = (k, omega arith, eq);
  }
  send-Ran k now (reject code) more le h eq ih = record {
    bound = omega arith;
    retried = λ j lt. h j (omega arith);
    why = (k, omega arith, eq);
  }
  send-Ran k now (again e) more le h eq ih =
      let here : is_again (verdict k) ≡ true = rw eq refl in
      let r =
        ih e
          (λ j lt. elim (Nat-below j k lt) [ inl below ↦ h j below | inr same ↦ rw same here ]) in
      let shift : k + length (now ∷ (more e).starts) ≡ suc k + length (more e).starts =
        omega arith in
      record {
        bound = rw shift r.bound;
        retried = λ j lt. r.retried j (omega arith);
        why = rw shift r.why;
      }

  before-Ran :
      (k now : ℕ) (last : Failure) (go : ℕ → Run)
      → k ≤ limit
      → Retried k
      → ((t : ℕ) → Ran verdict limit k (go t))
      → Ran verdict limit k (before_retry verdict took ctx_done budget k now last go)
  before-Ran k now last go le h ih = elim (Bool-cases (over budget now)) [
    | inl late ↦ rw late (ended-Ran k (exhausted last) (omega arith) h le)
    | inr early ↦ rw early (elim (Bool-cases (ctx_done k)) [
      | inl stop ↦ rw stop (ended-Ran k cancelled (omega arith) h le)
      | inr run ↦ rw run (ih (now + wait_before k))
    ])
  ]

  loop-Ran :
      (r k now : ℕ) (last : Failure)
      → r + k ≡ suc limit
      → Retried k
      → Ran verdict limit k (retry_loop verdict took ctx_done budget r k now last)
  unfolding retry_loop
  loop-Ran zero k now last e h =
      ended-Ran k (gave_up last) (omega arith) h (omega arith, h limit (omega arith))
  loop-Ran (suc r) k now last e h = before-Ran k now last _ (omega arith) h (λ t.
      send-Ran k t (verdict k) _ (omega arith) h refl
        (λ f h'. loop-Ran r (suc k) (t + took k) f (omega arith) h'))

  before-InTime :
      (b k now : ℕ) (last : Failure) (go : ℕ → Run)
      → budget ≡ some b
      → ((t : ℕ) → t ≤ b + 15000 → InTime b (go t).starts)
      → InTime b (before_retry verdict took ctx_done budget k now last go).starts
  before-InTime b k now last go eq ih = rw eq (elim (Bool-cases (ltb b now)) [
    | inl late ↦ rw late tt
    | inr early ↦ rw early (elim (Bool-cases (ctx_done k)) [
      | inl stop ↦ rw stop tt
      | inr run ↦ rw run (ih (now + wait_before k) (ground (arith, early)))
    ])
  ])

  send-InTime :
      (b now : ℕ) (v : Verdict) (more : Failure → Run)
      → now ≤ b + 15000
      → ((e : Failure) → InTime b (more e).starts)
      → InTime b (send_request verdict took ctx_done budget now v more).starts
  send-InTime b now (accept body) more le ih = (le, tt)
  send-InTime b now (reject code) more le ih = (le, tt)
  send-InTime b now (again e) more le ih = (le, ih e)

  loop-InTime :
      (b r k now : ℕ) (last : Failure)
      → budget ≡ some b
      → InTime b (retry_loop verdict took ctx_done budget r k now last).starts
  unfolding retry_loop
  loop-InTime b zero k now last eq = tt
  loop-InTime b (suc r) k now last eq =
      let more : ℕ → Failure → Run =
        λ t f. retry_loop verdict took ctx_done budget r (suc k) (t + took k) f in
      let go : ℕ → Run = λ t. send_request verdict took ctx_done budget t (verdict k) (more t) in
      before-InTime b k now last go eq (λ t le.
        send-InTime b t (verdict k) (more t) le (λ f. loop-InTime b r (suc k) (t + took k) f eq))

-- The budget that a loop keeps to, where it has one.
abbrev pub InBudget : Option ℕ → List ℕ → Type 0
InBudget none starts = Unit
InBudget (some b) starts = InTime b starts

attempts-InBudget :
    (verdict : ℕ → Verdict) (took : ℕ → ℕ) (ctx_done : ℕ → Bool) (budget : Option ℕ) (limit : ℕ)
    → InBudget budget (attempts verdict took ctx_done budget limit).starts
unfolding attempts
attempts-InBudget verdict took ctx_done none limit = tt
attempts-InBudget verdict took ctx_done (some b) limit =
    let more : Failure → Run = λ f. retry_loop verdict took ctx_done (some b) limit 1 (took 0) f in
    send-InTime verdict took ctx_done (some b) limit b 0 (verdict 0) more (omega arith)
      (λ e. loop-InTime verdict took ctx_done (some b) limit b limit 1 (took 0) e refl)

-- A request is sent at most once and `limit` times more, and sent again only where the answer before
-- was a failure that allows it. A body that is returned is the body of the last attempt, an error of
-- the API that of the last attempt, and the loop gives up behind the last retry only. With a retry
-- budget no request goes out more than 15 seconds behind the end of the budget.
pub attempts-Ran :
    (verdict : ℕ → Verdict) (took : ℕ → ℕ) (ctx_done : ℕ → Bool) (budget : Option ℕ) (limit : ℕ)
    → Ran verdict limit 0 (attempts verdict took ctx_done budget limit)
      × InBudget budget (attempts verdict took ctx_done budget limit).starts
unfolding attempts
attempts-Ran verdict took ctx_done budget limit = (
  send-Ran verdict took ctx_done budget limit 0 0 (verdict 0) _ (omega arith)
      (λ j lt. absurd (omega (arith, lt))) refl
      (λ e h. loop-Ran verdict took ctx_done budget limit limit 1 (took 0) e (omega arith) h),
  attempts-InBudget verdict took ctx_done budget limit,
)
