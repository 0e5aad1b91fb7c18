-- ===== src/Store/InMemory/Refinement.antt =====
-- The in-memory store and the replicated state machine make the same decisions.
use pg_agent_rs.Prelude.{ℕ, Option, none, some, ◌≡◌, refl, arith, err}
use pg_agent_rs.Consensus.{Lease, Paused, Switchover}
use pg_agent_rs.Raft.Machine.{observed_holds, is_lease_of, apply_command}
use pg_agent_rs.Store.{ConsensusStore, IsLinearizable}
use pg_agent_rs.Store.InMemory.{
  GateError, InMemoryConsensusStore, read_state, still_observed, is_current, try_takeover, release,
  set_paused, set_switchover,
}

-- The store as an implementation of the trait.
abbrev pub in_memory : ConsensusStore InMemoryConsensusStore GateError
in_memory = record {
  read_state = read_state;
  try_takeover = try_takeover;
  release_lease = release;
  write_paused = set_paused;
  write_switchover = set_switchover;
}

observed_agree : (o : Option Lease) (e : Option (ℕ × ℕ)) → still_observed o e ≡ observed_holds o e
unfolding still_observed observed_holds
observed_agree none none = refl
observed_agree none (some (h, t)) = refl
observed_agree (some l) none = refl
observed_agree (some l) (some (h, t)) = refl

current_agree : (o : Option Lease) (h t : ℕ) → is_current o h t ≡ is_lease_of o h t
unfolding is_current is_lease_of
current_agree none h t = refl
current_agree (some l) h t = refl

-- with the state as the committed document
pub in_memory-IsLinearizable : IsLinearizable in_memory (λ m. m.state)
unfolding read_state try_takeover release set_paused set_switchover apply_command
in_memory-IsLinearizable = record {
  read_current = λ m c h. ground arith;
  read_quiet = λ m. ground arith;
  takeover_applied = λ now x e m o h. ground (arith, observed_agree m.state.lease e);
  takeover_failed = λ now x e m r h. ground arith;
  release_applied = λ x t m o h. ground (arith, current_agree m.state.lease x t);
  release_failed = λ x t m r h. ground arith;
  paused_applied = λ p m h. ground arith;
  paused_failed = λ p m r h. ground arith;
  switchover_applied = λ w m h. ground arith;
  switchover_failed = λ w m r h. ground arith;
}

-- no write that fails has changed the document
pub record KeepsRefused : Type 0 where
  pub takeover_refused :
      (now x : ℕ) (e : Option (ℕ × ℕ)) (m : InMemoryConsensusStore) (r : GateError)
      → (try_takeover now x e m).0 ≡ err r
      → (try_takeover now x e m).1.state ≡ m.state
  pub release_refused :
      (h t : ℕ) (m : InMemoryConsensusStore) (r : GateError)
      → (release h t m).0 ≡ err r
      → (release h t m).1.state ≡ m.state
  pub paused_refused :
      (p : Option Paused) (m : InMemoryConsensusStore) (r : GateError)
      → (set_paused p m).0 ≡ err r
      → (set_paused p m).1.state ≡ m.state
  pub switchover_refused :
      (w : Option Switchover) (m : InMemoryConsensusStore) (r : GateError)
      → (set_switchover w m).0 ≡ err r
      → (set_switchover w m).1.state ≡ m.state

in_memory-KeepsRefused : KeepsRefused
unfolding try_takeover release set_paused set_switchover
in_memory-KeepsRefused = record {
  takeover_refused = λ now x e m r h. ground arith;
  release_refused = λ x t m r h. ground arith;
  paused_refused = λ p m r h. ground arith;
  switchover_refused = λ w m r h. ground arith;
}

-- The in-memory store keeps every promise of the trait with its state as the committed document:
-- an answered read returns it, and an answered write has done to it exactly what the replicated
-- state machine does and returned its response. Beyond the trait, a write that fails, which only
-- the gate makes it do, has left the document alone.
pub in_memory_exact : IsLinearizable in_memory (λ m. m.state) × KeepsRefused
in_memory_exact = (in_memory-IsLinearizable, in_memory-KeepsRefused)
