-- ===== src/Config/Timing.antt =====
-- When the consensus timing of a configuration is accepted
-- (crates/pg-agent-core/src/config.rs, `RaftConfig::validate`).
use pg_agent_rs.Prelude.{
  ℕ, ◌+◌, ◌*◌, ◌^◌, ◌≤◌, ◌<◌, ◌≡◌, ◌≢◌, ◌↔◌, ◌⊎◌, refl, Bool, true, false, Option, none, some,
  arith, leb, ltb, Bool-cases, inl, inr, ok, err, if◌then◌else◌,
}
use pg_agent_rs.Config.{
  RaftConfig, panicked, from_secs, or_default, effective_loop_wait, effective_retry_timeout,
  effective_leader_ttl, effective_election_timeout, duration_end, needed, is_refused,
  compare_timing, validate_timing, validate_raft,
}

-- `duration_end` is held as a number of its own, so that arithmetic need not read the literal.
needed_at : ℕ → ℕ → ℕ → Option ℕ
needed_at end l r =
    if leb end (2 * r) then none else if leb end (l + 2 * r) then none else some (l + 2 * r)

needed_cases :
    (end l r : ℕ)
    → ((end ≤ l + 2 * r) × (needed_at end l r ≡ none))
      ⊎ ((l + 2 * r < end) × (needed_at end l r ≡ some (l + 2 * r)))
unfolding needed_at
needed_cases end l r = elim (Bool-cases (leb end (2 * r))) [
  | inl e ↦ inl (ground (arith, e), rw e refl)
  | inr e ↦ elim (Bool-cases (leb end (l + 2 * r))) [
    | inl f ↦ inl (ground (arith, f), rw (e) (rw f refl))
    | inr f ↦ inr (ground (arith, f), rw (e) (rw f refl))
  ]
]

needed_split :
    (l r : ℕ)
    → ((duration_end ≤ l + 2 * r) × (needed l r ≡ none))
      ⊎ ((l + 2 * r < duration_end) × (needed l r ≡ some (l + 2 * r)))
unfolding needed needed_at
needed_split l r = needed_cases duration_end l r

compare_timing_iff : (b r t e : ℕ) → (compare_timing b r t e ≡ ok tt) ↔ ((b ≤ t) × (e < r))
unfolding compare_timing
compare_timing_iff b r t e = elim (Bool-cases (ltb t b)) [
  | inl x ↦ (λ h. absurd (cc (rw x at h)), λ (p, q). absurd (ground (arith, x, p)))
  | inr x ↦ elim (Bool-cases (leb r e)) [
    | inl y ↦ (λ h. absurd (cc (rw y at (rw x at h))), λ (p, q). absurd (ground (arith, y, q)))
    | inr y ↦ (λ h. (ground (arith, x), ground (arith, y)), λ h. rw (x) (rw y refl))
  ]
]

compare_timing-returns : (b r t e : ℕ) → compare_timing b r t e ≢ err panicked
unfolding compare_timing
compare_timing-returns b r t e h = elim (Bool-cases (ltb t b)) [
  | inl x ↦ absurd (cc (rw x at h))
  | inr x ↦ elim (Bool-cases (leb r e)) [
    | inl y ↦ absurd (cc (rw y at (rw x at h)))
    | inr y ↦ absurd (cc (rw y at (rw x at h)))
  ]
]

pub validate_timing_iff :
    (l r t e : ℕ)
    → t < duration_end
    → (validate_timing l r t e ≡ ok tt) ↔ ((l + 2 * r ≤ t) × (e < r))
unfolding validate_timing
validate_timing_iff l r t e u = elim (needed_split l r) [
  | inl (q, n) ↦
      rw (n, validate_timing)
        (λ h. absurd (cc h), λ (a, b). absurd (too_much (l + 2 * r) t duration_end q u a))
  | inr (q, n) ↦ rw (n, validate_timing) (compare_timing_iff (l + 2 * r) r t e)
]
  where
    too_much : (s t end : ℕ) → end ≤ s → t < end → s ≤ t → ⊥
    too_much s t end a b c = omega (arith, a, b, c)

validate_timing_panics :
    (l r t e : ℕ) → (validate_timing l r t e ≡ err panicked) ↔ (duration_end ≤ l + 2 * r)
unfolding validate_timing
validate_timing_panics l r t e = elim (needed_split l r) [
  | inl (q, n) ↦ rw (n, validate_timing) (λ h. q, λ h. refl)
  | inr (q, n) ↦
      rw (n, validate_timing)
        (
          λ h. absurd (compare_timing-returns (l + 2 * r) r t e h),
          λ h. absurd (below (l + 2 * r) duration_end q h),
        )
]
  where
    below : (s end : ℕ) → s < end → end ≤ s → ⊥
    below s end a b = omega (arith, a, b)

refusal :
    (o : Option Bool)
    → ((o ≡ some false) × (is_refused o ≡ true)) ⊎ ((o ≢ some false) × (is_refused o ≡ false))
refusal none = inr (λ h. cc h, refl)
refusal (some true) = inr (λ h. cc h, refl)
refusal (some false) = inl (refl, refl)

-- The timing is not checked on every configuration: unless `enabled = false` is refused first, the
-- validation panics exactly when `loop_wait + 2 * retry_timeout` has 2^64 seconds or more, whatever
-- `leader_ttl` is.
pub validate_raft_panics :
    (c : RaftConfig)
    → (validate_raft c ≡ err panicked) ↔ (
        (c.obsolete_enabled ≢ some false)
        × (duration_end ≤ effective_loop_wait c + 2 * effective_retry_timeout c))
unfolding validate_raft
validate_raft_panics c = elim (refusal c.obsolete_enabled) [
  | inl (e, f) ↦ (λ h. absurd (cc (rw f at h)), λ (n, q). absurd (n e))
  | inr (n, f) ↦ rw f (
    λ h. (
      n,
      (validate_timing_panics (effective_loop_wait c) (effective_retry_timeout c)
            (effective_leader_ttl c) (effective_election_timeout c)).0
          h,
    ),
    λ (m, q).
        (validate_timing_panics (effective_loop_wait c) (effective_retry_timeout c)
            (effective_leader_ttl c) (effective_election_timeout c)).1
          q,
  )
]

ttl_bound :
    (c : RaftConfig)
    → ((n : ℕ) → c.leader_ttl_secs ≡ some n → n < 2 ^ 64)
    → effective_leader_ttl c < duration_end
unfolding effective_leader_ttl
ttl_bound c h = by_setting c.leader_ttl_secs h
  where
    scaled : (n end : ℕ) → n < end → from_secs n < from_secs end
    scaled n end l = omega (arith, l)

    by_setting :
        (o : Option ℕ)
        → ((n : ℕ) → o ≡ some n → n < 2 ^ 64)
        → from_secs (or_default o 30) < duration_end
    by_setting none k = scaled 30 (2 ^ 64) (omega arith)
    by_setting (some n) k = scaled n (2 ^ 64) (k n refl)

timing :
    (c : RaftConfig)
    → ((n : ℕ) → c.leader_ttl_secs ≡ some n → n < 2 ^ 64)
    → (validate_timing
          (effective_loop_wait c)
          (effective_retry_timeout c)
          (effective_leader_ttl c)
          (effective_election_timeout c)
        ≡ ok tt)
      ↔ ((effective_loop_wait c + 2 * effective_retry_timeout c ≤ effective_leader_ttl c)
          × (effective_election_timeout c < effective_retry_timeout c))
timing c u =
    validate_timing_iff (effective_loop_wait c) (effective_retry_timeout c) (effective_leader_ttl c)
      (effective_election_timeout c) (ttl_bound c u)

-- The timing that is accepted, where `leader_ttl` is a `u64`: consensus is not switched off, a holder
-- exhausts its retries before the lease is old enough for a rival, and its retries outlive an election.
-- No overflow passes for a small sum.
pub validate_raft_iff :
    (c : RaftConfig)
    → ((n : ℕ) → c.leader_ttl_secs ≡ some n → n < 2 ^ 64)
    → (validate_raft c ≡ ok tt) ↔ (
        (c.obsolete_enabled ≢ some false)
        × (effective_loop_wait c + 2 * effective_retry_timeout c ≤ effective_leader_ttl c)
        × (effective_election_timeout c < effective_retry_timeout c))
unfolding validate_raft
validate_raft_iff c u = elim (refusal c.obsolete_enabled) [
  | inl (e, f) ↦ (λ h. absurd (cc (rw f at h)), λ (n, p, q). absurd (n e))
  | inr (n, f) ↦
      rw f (λ h. let (p, q) = (timing c u).0 h in (n, p, q), λ (m, p, q). (timing c u).1 (p, q))
]
