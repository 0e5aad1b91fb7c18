-- ===== src/Maintenance/Backoff.antt =====
-- The delay before a retry (`backoff` of crates/pg-agent-core/src/maintenance.rs), in seconds.
use pg_agent_rs.Prelude.{
  ◌/◌, ℕ, zero, suc, ◌+◌, ◌-◌, ◌≤◌, ◌≡◌, refl, false, arith, leb, if◌then◌else◌,
}

abbrev pub base_backoff : ℕ
base_backoff = 30

abbrev pub max_backoff : ℕ
max_backoff = 600

-- `d.min(MAX_BACKOFF)`
abbrev pub capped : ℕ → ℕ
capped d = if leb d max_backoff then d else max_backoff

-- the loop, with the number of doublings that are left
unfoldable pub doubled : ℕ → ℕ → ℕ
doubled zero d = capped d
doubled (suc k) d =
    let rest = doubled k (d + d) in if leb (max_backoff / 2) d then max_backoff else rest

unfoldable pub backoff : ℕ → ℕ
unfolding doubled
backoff next_attempt =
    if leb next_attempt 1 then base_backoff else doubled (next_attempt - 1) base_backoff

-- the delay doubled without a bound
unfoldable pub doubling : ℕ → ℕ → ℕ
doubling zero d = d
doubling (suc k) d = doubling k (d + d)

doubling-grows : (k d : ℕ) → d ≤ doubling k d
unfolding doubling
doubling-grows zero d = omega arith
doubling-grows (suc k) d = omega (arith, doubling-grows k (d + d))

doubled-capped : (k d : ℕ) → doubled k d ≡ capped (doubling k d)
unfolding doubled doubling
doubled-capped zero d = refl
doubled-capped (suc k) d = ground (arith, doubled-capped k (d + d), doubling-grows k (d + d))

leb_one : (n : ℕ) → leb (suc (suc n)) 1 ≡ false
leb_one n = ground arith

pred_suc : (n : ℕ) → suc (suc n) - 1 ≡ suc n
pred_suc n = omega arith

-- The delay before retry n + 1 is 30 seconds doubled n times and capped at 600 seconds: leaving the
-- loop early, before a doubling that would pass the cap, changes nothing.
pub backoff-capped : (n : ℕ) → backoff (suc n) ≡ capped (doubling n base_backoff)
unfolding backoff
backoff-capped zero = unfold doubling in refl
backoff-capped (suc n) = rw (leb_one n, pred_suc n) (doubled-capped (suc n) base_backoff)
