-- ===== src/Retry.antt =====
-- Bounded attempts with every error kept (crates/pg-agent-core/src/retry.rs). The operation is the
-- answer of each attempt, by its number. The delay and the texts around the errors are left out.
pub mod Attempts
use pg_agent_rs.Prelude.{ℕ, zero, suc, List, [], ◌∷◌, ◌++◌, ltb, Result, ok, err, if◌then◌else◌}

-- `attempts.max(1)`
abbrev pub at_least_one : ℕ → ℕ
at_least_one attempts = if ltb attempts 1 then 1 else attempts

module _ {E A : Type 0} (op : ℕ → Result E A) where
  -- the loop, with the attempts that are left, the number of the next, and the errors so far
  unfoldable pub retry_from : ℕ → ℕ → List (ℕ × E) → Result (List (ℕ × E)) A
  retry_from zero attempt errors = err errors
  retry_from (suc left) attempt errors = elim (op attempt) [
    | ok v ↦ ok v
    | err e ↦ retry_from left (suc attempt) (errors ++ ((attempt, e) ∷ []))
  ]

  unfoldable pub retry_result : ℕ → Result (List (ℕ × E)) A
  unfolding retry_from
  retry_result attempts = retry_from (at_least_one attempts) 1 []
