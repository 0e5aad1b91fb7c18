-- ===== src/Scenarios/RetryRuns.antt =====
-- A retried operation on concrete answers.
use pg_agent_rs.Prelude.{ℕ, String, ◌≡◌, refl, [], ◌∷◌, Result, ok, err, leb, if◌then◌else◌}
use pg_agent_rs.Retry.{at_least_one, retry_result}
use pg_agent_rs.Retry.Attempts.{Answers, retry_result-Answers}

-- fails twice, then answers
abbrev third_time : ℕ → Result String ℕ
third_time k = if leb 3 k then ok k else err "boom"

succeeds : retry_result third_time 5 ≡ ok 3
unfolding retry_result
succeeds = refl

exhausted : retry_result third_time 2 ≡ err ((1, "boom") ∷ (2, "boom") ∷ [])
unfolding retry_result
exhausted = refl

at_once : retry_result third_time 0 ≡ err ((1, "boom") ∷ [])
unfolding retry_result
at_once = refl

retry_result-Answers_example : Answers third_time 1 (at_least_one 5) (retry_result third_time 5)
retry_result-Answers_example = retry_result-Answers third_time 5
