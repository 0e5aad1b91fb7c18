-- ===== src/PeerServer/Settled.antt =====
-- The wait before a copy ends (crates/pg-agent-core/src/peerserver.rs, `basebackup`).
use pg_agent_rs.Prelude.{
  ℕ, suc, zero, ◌+◌, ◌*◌, ◌≤◌, String, ◌≡◌, ◌⊎◌, refl, Bool, true, false, Option, none, some, leb,
  leb→le, arith, Bool-cases, inl, inr, Result, ok, err,
}
use pg_agent_rs.PeerServer.{
  Patterns, BasebackupRequest, BasebackupAnswer, invalid_options, port_out_of_range, settle_failed,
  stuck, status_failed, running, started, basebackup_valid, to_u16, opts_of, copy_at, Polls, settle,
  after_wait, peer_basebackup,
}

-- how the wait may end: after a poll that failed, one past the deadline, or one that found
-- PostgreSQL settled
abbrev pub Ended : Polls → ℕ → BasebackupAnswer → Type 0
Ended polls deadline stuck = (j : ℕ) × (polls.settling j ≡ ok true) × deadline ≤ polls.time j
Ended polls deadline settle_failed = (j : ℕ) × (e : String) × (polls.settling j ≡ err e)
Ended polls deadline _ = Unit

abbrev WaitEnded : Polls → ℕ → Result BasebackupAnswer (Unit {0}) → Type 0
WaitEnded polls deadline (err a) = ((a ≡ settle_failed) ⊎ (a ≡ stuck)) × Ended polls deadline a
WaitEnded polls deadline (ok u) = (j : ℕ) × (polls.settling j ≡ ok false)

module _ (polls : Polls) (deadline : ℕ) where
  abbrev Ends : ℕ → ℕ → Type 0
  Ends fuel k =
      (r : Result BasebackupAnswer (Unit {0})) × (settle polls deadline fuel k ≡ some r)
      × WaitEnded polls deadline r

  -- one poll, and what follows one that is early
  one_poll :
      (fuel k : ℕ) (p : Result String Bool)
      → polls.settling k ≡ p
      → (leb deadline (polls.time k) ≡ false → Ends fuel (suc k))
      → Ends (suc fuel) k
  unfolding settle
  one_poll fuel k (err e) q later = (err settle_failed, rw (settle, q) refl, (inl refl, (k, e, q)))
  one_poll fuel k (ok false) q later = (ok tt, rw (settle, q) refl, (k, q))
  one_poll fuel k (ok true) q later = elim (Bool-cases (leb deadline (polls.time k))) [
    | inl past ↦ (err stuck, rw (settle, q, past) refl, (inr refl, (k, q, leb→le _ _ past)))
    | inr early ↦ let (r, e, w) = later early in (r, rw (settle, q, early) e, w)
  ]

  -- the fuel lasts until the deadline, at 250 ms a poll
  settle-Ends :
      (fuel k : ℕ)
      → ((j : ℕ) → polls.time j + 250 ≤ polls.time (suc j))
      → deadline ≤ polls.time k + 250 * fuel
      → Ends (suc fuel) k
  settle-Ends zero k slow enough =
      one_poll zero k (polls.settling k) refl (λ early. absurd (ground (arith, early, enough)))
  settle-Ends (suc fuel) k slow enough =
      one_poll (suc fuel) k (polls.settling k) refl
        (λ early. settle-Ends fuel (suc k) slow (let s = slow k in omega arith))

-- what the answer means
abbrev pub Answered :
    Patterns → Polls → Result String Bool → ℕ → BasebackupRequest → BasebackupAnswer → Type 0
Answered pat polls status begun r started =
    ((port : ℕ) × (to_u16 r.primary_port ≡ some port)
      × (basebackup_valid pat (opts_of r port) ≡ true))
    × (status ≡ ok false)
    × ((j : ℕ) × (polls.settling j ≡ ok false))
Answered pat polls status begun r a = Ended polls (begun + 30000) a

module _ (pat : Patterns) (polls : Polls) (status : Result String Bool) (begun : ℕ)
    (r : BasebackupRequest) where
  judged :
      (w : Result BasebackupAnswer (Unit {0}))
      → WaitEnded polls (begun + 30000) w
      → (port : ℕ) → to_u16 r.primary_port ≡ some port
      → basebackup_valid pat (opts_of r port) ≡ true
      → (a : BasebackupAnswer) × (after_wait status (some w) ≡ some a)
        × Answered pat polls status begun r a
  judged (err settle_failed) (h, e) port p v = (settle_failed, refl, e)
  judged (err stuck) (h, e) port p v = (stuck, refl, e)
  judged (err _) (inl h, e) port p v = absurd (cc h)
  judged (err _) (inr h, e) port p v = absurd (cc h)
  judged (ok u) h port p v = by_status status refl
    where
      by_status :
          (s : Result String Bool)
          → status ≡ s
          → (a : BasebackupAnswer) × (after_wait status (some (ok u)) ≡ some a)
            × Answered pat polls status begun r a
      by_status (err e) q = (status_failed, rw q refl, tt)
      by_status (ok true) q = (running, rw q refl, tt)
      by_status (ok false) q = (started, rw q refl, ((port, p, v), q, h))

module _ (pat : Patterns) (polls : Polls) (status : Result String Bool) (begun : ℕ)
    (r : BasebackupRequest) (after : begun ≤ polls.time 0)
    (slow : (j : ℕ) → polls.time j + 250 ≤ polls.time (suc j)) where
  copy_at-Answered :
      (o : Option ℕ)
      → to_u16 r.primary_port ≡ o
      → (a : BasebackupAnswer) × (copy_at pat 121 polls status begun r o ≡ some a)
        × Answered pat polls status begun r a
  copy_at-Answered none p = (port_out_of_range, refl, tt)
  copy_at-Answered (some port) p = elim (Bool-cases (basebackup_valid pat (opts_of r port))) [
    | inr v ↦ (invalid_options, rw v refl, tt)
    | inl v ↦
        let (w, e, h) = settle-Ends polls (begun + 30000) 120 0 slow (omega arith) in
        let (a, f, g) = judged pat polls status begun r w h port p v in (a, rw (v, e) f, g)
  ]

-- A request to copy the data directory is always answered: where the first poll is not before the
-- begin and each poll comes at least 250 ms after the one before it, 121 polls are enough. The
-- copy is started only for a request that passes the input checks, with a port that fits 16 bits,
-- after a poll that found PostgreSQL settled, and where its status then said that it was not running;
-- the answer that it is stuck was given only after a poll, 30 s or more after the begin, that still
-- found it settling.
pub peer_basebackup-Answered :
    (pat : Patterns) (polls : Polls) (status : Result String Bool) (begun : ℕ)
    (r : BasebackupRequest)
    → begun ≤ polls.time 0
    → ((j : ℕ) → polls.time j + 250 ≤ polls.time (suc j))
    → (a : BasebackupAnswer) × (peer_basebackup pat 121 polls status begun r ≡ some a)
      × Answered pat polls status begun r a
unfolding peer_basebackup
peer_basebackup-Answered pat polls status begun r after slow =
    copy_at-Answered pat polls status begun r after slow (to_u16 r.primary_port) refl
