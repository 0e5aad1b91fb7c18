-- ===== src/Retry/Attempts.antt =====
-- What a retried operation answers (crates/pg-agent-core/src/retry.rs).
use mathlib.Core.List.{append-nil, append_assoc}
use pg_agent_rs.Prelude.{
  ℕ, zero, suc, ◌+◌, ◌≤◌, ◌<◌, ◌≡◌, ◌⊎◌, refl, sym, ap, ◌∙◌, List, [], ◌∷◌, ◌++◌, map, All, arith,
  inl, inr, Result, ok, err,
}
use pg_agent_rs.Retry.{at_least_one, retry_from, retry_result}

-- `n` numbers in a row
abbrev pub numbers : ℕ → ℕ → List ℕ
numbers first zero = []
numbers first (suc n) = first ∷ numbers (suc first) n

module _ {E A : Type 0} (op : ℕ → Result E A) where
  -- an attempt of the range succeeded with `v`, and each before it failed
  abbrev pub FirstSuccess : ℕ → ℕ → A → Type 0
  FirstSuccess first n v =
      (k : ℕ) × (first ≤ k)
      × (k < first + n)
      × (op k ≡ ok v)
      × ((j : ℕ) → first ≤ j → j < k → (e : E) × (op j ≡ err e))

  -- the errors are those of all attempts of the range, in order
  abbrev pub AllFailed : ℕ → ℕ → List (ℕ × E) → Type 0
  AllFailed first n errors =
      (map (λ (p : ℕ × E). p.0) errors ≡ numbers first n)
      × All (λ (p : ℕ × E). op p.0 ≡ err p.1) errors

  abbrev pub Answers : ℕ → ℕ → Result (List (ℕ × E)) A → Type 0
  Answers first n (ok v) = FirstSuccess first n v
  Answers first n (err errors) = AllFailed first n errors

  -- the same, after errors that are kept
  After : List (ℕ × E) → ℕ → ℕ → Result (List (ℕ × E)) A → Type 0
  After kept first n (ok v) = FirstSuccess first n v
  After kept first n (err errors) =
      (rest : List (ℕ × E)) × (errors ≡ kept ++ rest) × AllFailed first n rest

  before :
      (first k : ℕ)
      → ((e : E) × (op first ≡ err e))
      → ((j : ℕ) → suc first ≤ j → j < k → (e : E) × (op j ≡ err e))
      → (j : ℕ) → first ≤ j
      → j < k
      → (e : E) × (op j ≡ err e)
  before first k now later j a b = elim (split first j a) [
    | inl e ↦ rw (← e) now
    | inr l ↦ later j l b
  ]
    where
      split : (m n : ℕ) → m ≤ n → (m ≡ n) ⊎ (suc m ≤ n)
      split m n h = ground (arith, h)

  later_After :
      (kept : List (ℕ × E)) (first n : ℕ) (e : E) (r : Result (List (ℕ × E)) A)
      → op first ≡ err e
      → After (kept ++ ((first, e) ∷ [])) (suc first) n r
      → After kept first (suc n) r
  unfolding After
  later_After kept first n e (ok v) q (k, a, b, s, f) =
      (k, omega (arith, a), omega (arith, b), s, before first k (e, q) f)
  later_After kept first n e (err errors) q (rest, s, (m, f)) = (
    (first, e) ∷ rest,
    s ∙ append_assoc kept ((first, e) ∷ []) rest,
    (ap (λ xs. first ∷ xs) m, (q, f)),
  )

  retry_from-After :
      (n first : ℕ) (kept : List (ℕ × E)) → After kept first n (retry_from op n first kept)
  unfolding retry_from After
  retry_from-After zero first kept = ([], sym (append-nil kept), (refl, tt))
  retry_from-After (suc n) first kept = by_answer (retry_from-After n (suc first)) (op first) refl
    where
      by_answer :
          ((ks : List (ℕ × E)) → After ks (suc first) n (retry_from op n (suc first) ks))
          → (r : Result E A) → op first ≡ r
          → After kept first (suc n) (retry_from op (suc n) first kept)
      by_answer ih (ok v) e =
          rw (e, retry_from)
            (first, omega arith, omega arith, e, λ j a b. absurd (omega (arith, a, b)))
      by_answer ih (err x) e =
          rw (e, retry_from) (later_After kept first n x _ e (ih (kept ++ ((first, x) ∷ []))))

  forget : (first n : ℕ) (r : Result (List (ℕ × E)) A) → After [] first n r → Answers first n r
  unfolding After
  forget first n (ok v) h = h
  forget first n (err errors) (rest, s, f) = rw s f

  -- A retried operation answers the first success among its attempts, of which there is at least one,
  -- and it fails only where all of them failed, with the error of each of them in order.
  pub retry_result-Answers :
      (attempts : ℕ) → Answers 1 (at_least_one attempts) (retry_result op attempts)
  unfolding retry_result
  retry_result-Answers attempts =
      forget 1 (at_least_one attempts) _ (retry_from-After (at_least_one attempts) 1 [])
