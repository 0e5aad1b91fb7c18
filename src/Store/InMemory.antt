-- ===== src/Store/InMemory.antt =====
-- `InMemoryConsensusStore` of crates/pg-agent-core/src/consensus.rs, with its fault switches.
-- The two counters are `AtomicU32`s; a call runs alone, so the compare-exchange loop of
-- `check_gate` succeeds at its first try.
pub mod Refinement
use pg_agent_rs.Prelude.{
  ℕ, ◌+◌, ◌-◌, Bool, true, false, ◌&&◌, Option, none, some, ◌==◌, ltb, if◌then◌else◌, u64, Result,
  ok, err,
}
use pg_agent_rs.Consensus.{
  Lease, Paused, Switchover, ClusterState, empty_state, TakeoverOutcome, won, lost, ReleaseOutcome,
  released, not_holder,
}

pub data GateError : Type 0 where
  injected_partition injected_failure : GateError

pub record InMemoryConsensusStore : Type 0 where
  pub state : ClusterState
  pub fail_reads : ℕ
  pub fail_writes : ℕ
  pub unavailable : Bool

pub new : InMemoryConsensusStore
new = record { state = empty_state; fail_reads = 0; fail_writes = 0; unavailable = false }

-- The test arrangement: a seeded state, and the three switches.
unfoldable pub install : ClusterState → InMemoryConsensusStore → InMemoryConsensusStore
install c m = record m { state = c }

unfoldable pub fail_next_reads : ℕ → InMemoryConsensusStore → InMemoryConsensusStore
fail_next_reads n m = record m { fail_reads = n }

unfoldable pub fail_next_writes : ℕ → InMemoryConsensusStore → InMemoryConsensusStore
fail_next_writes n m = record m { fail_writes = n }

unfoldable pub set_unavailable : Bool → InMemoryConsensusStore → InMemoryConsensusStore
set_unavailable b m = record m { unavailable = b }

-- the answer of the gate, and the counter that it leaves
unfoldable pub check_gate : Bool → ℕ → Result GateError (Unit {0}) × ℕ
check_gate unavailable counter =
    if unavailable
    then (err injected_partition, counter)
    else if ltb 0 counter
    then (err injected_failure, counter - 1)
    else (ok tt, counter)

unfoldable pub read_state :
    InMemoryConsensusStore → Result GateError ClusterState × InMemoryConsensusStore
unfolding check_gate
read_state m =
    let (gate, n) = check_gate m.unavailable m.fail_reads in
    let m' = record m { fail_reads = n } in
    elim gate [ ok _ ↦ (ok m.state, m') | err e ↦ (err e, m') ]

still_observed : Option Lease → Option (ℕ × ℕ) → Bool
still_observed none none = true
still_observed (some cur) (some (h, t)) = cur.holder == h && cur.term == t
still_observed _ _ = false

swap_lease :
    ℕ
    → ℕ
    → Option (ℕ × ℕ)
    → InMemoryConsensusStore
    → Result GateError TakeoverOutcome × InMemoryConsensusStore
unfolding still_observed
swap_lease now candidate expected m =
    let g = u64 (m.state.generation + 1) in
    let l : Lease = record { holder = candidate; term = g; since = now } in
    if still_observed m.state.lease expected
    then (ok (won l), record m { state = record m.state { generation = g; lease = some l } })
    else (ok (lost m.state.lease), m)

unfoldable pub try_takeover :
    ℕ
    → ℕ
    → Option (ℕ × ℕ)
    → InMemoryConsensusStore
    → Result GateError TakeoverOutcome × InMemoryConsensusStore
unfolding check_gate swap_lease
try_takeover now candidate expected m =
    let (gate, n) = check_gate m.unavailable m.fail_writes in
    let m' = record m { fail_writes = n } in
    elim gate [ ok _ ↦ swap_lease now candidate expected m' | err e ↦ (err e, m') ]

is_current : Option Lease → ℕ → ℕ → Bool
is_current none holder term = false
is_current (some cur) holder term = cur.holder == holder && cur.term == term

vacate : ℕ → ℕ → InMemoryConsensusStore → Result GateError ReleaseOutcome × InMemoryConsensusStore
unfolding is_current
vacate holder term m =
    if is_current m.state.lease holder term
    then (
      ok released,
      record m {
        state = record m.state { generation = u64 (m.state.generation + 1); lease = none };
      },
    )
    else (ok (not_holder m.state.lease), m)

unfoldable pub release :
    ℕ → ℕ → InMemoryConsensusStore → Result GateError ReleaseOutcome × InMemoryConsensusStore
unfolding check_gate vacate
release holder term m =
    let (gate, n) = check_gate m.unavailable m.fail_writes in
    let m' = record m { fail_writes = n } in
    elim gate [ ok _ ↦ vacate holder term m' | err e ↦ (err e, m') ]

unfoldable pub set_paused :
    Option Paused → InMemoryConsensusStore → Result GateError (Unit {0}) × InMemoryConsensusStore
unfolding check_gate
set_paused p m =
    let (gate, n) = check_gate m.unavailable m.fail_writes in
    let g = u64 (m.state.generation + 1) in
    let m' = record m { fail_writes = n } in
    let m'' = record m' { state = record m.state { generation = g; paused = p } } in
    elim gate [ ok _ ↦ (ok tt, m'') | err e ↦ (err e, m') ]

unfoldable pub set_switchover :
    Option Switchover
    → InMemoryConsensusStore
    → Result GateError (Unit {0}) × InMemoryConsensusStore
unfolding check_gate
set_switchover w m =
    let (gate, n) = check_gate m.unavailable m.fail_writes in
    let g = u64 (m.state.generation + 1) in
    let m' = record m { fail_writes = n } in
    let m'' = record m' { state = record m.state { generation = g; switchover = w } } in
    elim gate [ ok _ ↦ (ok tt, m'') | err e ↦ (err e, m') ]
