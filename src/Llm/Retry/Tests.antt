-- ===== src/Llm/Retry/Tests.antt =====
-- A request that is answered at the third attempt, and the theorems at it.
use ragline.Base.{ℕ, zero, suc, ◌≡◌, refl, Bool, false, [], ◌∷◌, some, codes}
use ragline.Llm.Retry.{Attempt, transport_error, response, judge, got, attempts, do_with_retry}
use ragline.Llm.Retry.Attempts.{Ran, InBudget, attempts-Ran}

abbrev flaky : ℕ → Attempt
flaky zero = transport_error
flaky (suc zero) = response 503 (some (codes "high demand"))
flaky (suc (suc k)) = response 200 (some (codes "ok"))

abbrev took : ℕ → ℕ
took k = 100

abbrev never : ℕ → Bool
never k = false

third_time :
    do_with_retry flaky took never 60000 4
    ≡ record { starts = 0 ∷ 2100 ∷ 6200 ∷ []; ending = got (codes "ok") }
unfolding do_with_retry
third_time = refl

attempts-Ran_example :
    Ran (λ k. judge (flaky k)) 4 0 (attempts (λ k. judge (flaky k)) took never (some 60000) 4)
    × InBudget (some 60000) (attempts (λ k. judge (flaky k)) took never (some 60000) 4).starts
attempts-Ran_example = attempts-Ran (λ k. judge (flaky k)) took never (some 60000) 4
