-- ===== src/Store.antt =====
-- The seam between the HA loop and the replicated state: the trait `ConsensusStore` of
-- crates/pg-agent-core/src/consensus.rs, and what its documentation promises.
-- An operation takes the store's own state and returns it, and no other node writes between two calls
-- that follow each other on that state; `err` is an answer that is unknown.
pub mod InMemory
use pg_agent_rs.Prelude.{ℕ, Option, ◌≡◌, ◌⊎◌, Result, ok, err}
use pg_agent_rs.Consensus.{Paused, Switchover, ClusterState, TakeoverOutcome, ReleaseOutcome}
use pg_agent_rs.Raft.Machine.{
  ConsensusCommand, takeover, release, set_paused, set_switchover, ack, takeover_response,
  release_response, apply_command,
}

-- `try_takeover` takes the time, the candidate and what it observed; `release_lease` is `release`.
pub record ConsensusStore (S E : Type 0) : Type 0 where
  pub read_state : S → Result E ClusterState × S
  pub try_takeover : ℕ → ℕ → Option (ℕ × ℕ) → S → Result E TakeoverOutcome × S
  pub release_lease : ℕ → ℕ → S → Result E ReleaseOutcome × S
  pub write_paused : Option Paused → S → Result E (Unit {0}) × S
  pub write_switchover : Option Switchover → S → Result E (Unit {0}) × S

-- After a failed write the state is unknown: the command may have been applied or not.
abbrev pub MaybeApplied : ConsensusCommand → ClusterState → ClusterState → Type 0
MaybeApplied c before after = (after ≡ before) ⊎ (after ≡ (apply_command before c).0)

-- `view s` is the committed state document. A read that answers returns it; a write that answers
-- has applied its command to it and returns the command's response. The laws speak of one call; a
-- theorem over several calls has no write of another node between them.
pub record IsLinearizable {S E : Type 0} (store : ConsensusStore S E) (view : S → ClusterState)
    : Type 0 where
  pub read_current : (s : S) (c : ClusterState) → (store.read_state s).0 ≡ ok c → c ≡ view s
  pub read_quiet : (s : S) → view (store.read_state s).1 ≡ view s
  pub takeover_applied :
      (now x : ℕ) (e : Option (ℕ × ℕ)) (s : S) (o : TakeoverOutcome)
      → (store.try_takeover now x e s).0 ≡ ok o
      → apply_command (view s) (takeover x e now)
        ≡ (view (store.try_takeover now x e s).1, takeover_response o)
  pub takeover_failed :
      (now x : ℕ) (e : Option (ℕ × ℕ)) (s : S) (r : E)
      → (store.try_takeover now x e s).0 ≡ err r
      → MaybeApplied (takeover x e now) (view s) (view (store.try_takeover now x e s).1)
  pub release_applied :
      (h t : ℕ) (s : S) (o : ReleaseOutcome)
      → (store.release_lease h t s).0 ≡ ok o
      → apply_command (view s) (release h t)
        ≡ (view (store.release_lease h t s).1, release_response o)
  pub release_failed :
      (h t : ℕ) (s : S) (r : E)
      → (store.release_lease h t s).0 ≡ err r
      → MaybeApplied (release h t) (view s) (view (store.release_lease h t s).1)
  pub paused_applied :
      (p : Option Paused) (s : S)
      → (store.write_paused p s).0 ≡ ok tt
      → apply_command (view s) (set_paused p) ≡ (view (store.write_paused p s).1, ack)
  pub paused_failed :
      (p : Option Paused) (s : S) (r : E)
      → (store.write_paused p s).0 ≡ err r
      → MaybeApplied (set_paused p) (view s) (view (store.write_paused p s).1)
  pub switchover_applied :
      (w : Option Switchover) (s : S)
      → (store.write_switchover w s).0 ≡ ok tt
      → apply_command (view s) (set_switchover w) ≡ (view (store.write_switchover w s).1, ack)
  pub switchover_failed :
      (w : Option Switchover) (s : S) (r : E)
      → (store.write_switchover w s).0 ≡ err r
      → MaybeApplied (set_switchover w) (view s) (view (store.write_switchover w s).1)
