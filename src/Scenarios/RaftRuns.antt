-- ===== src/Scenarios/RaftRuns.antt =====
-- The state machine and the in-memory store on concrete logs.
use pg_agent_rs.Prelude.{◌≡◌, refl, none, some, List, [], ◌∷◌, arith}
use pg_agent_rs.Consensus.{Lease, ClusterState, empty_state, lost, not_holder}
use pg_agent_rs.Raft.Machine.{
  ConsensusCommand, takeover, release, set_paused, takeover_response, release_response,
  apply_command, apply_all,
}
use pg_agent_rs.Raft.Terms.{won_terms, Increasing, won_terms-Increasing, stale_term_rejected}

-- node 1 takes the vacant lease, a pause is cleared, node 2 takes over, and the lease is released
abbrev history : List ConsensusCommand
history =
    takeover 1 none 10
    ∷ set_paused none
    ∷ takeover 2 (some (1, 1)) 20
    ∷ takeover 3 (some (1, 1)) 21
    ∷ release 2 3
    ∷ takeover 1 none 30
    ∷ []

history_terms : won_terms (apply_all empty_state history).1 ≡ 1 ∷ 3 ∷ 5 ∷ []
unfolding apply_all apply_command
history_terms = refl

won_terms-Increasing_example : Increasing 0 (won_terms (apply_all empty_state history).1)
won_terms-Increasing_example = won_terms-Increasing empty_state history (omega arith)

-- node 2 has taken the lease over from node 1
abbrev after_failover : ClusterState
after_failover = record {
  lease = some (record { holder = 2; term = 3; since = 20 });
  paused = none;
  switchover = none;
  generation = 3;
}

stale_term_rejected_example :
    let s' = (apply_all after_failover (set_paused none ∷ [])).0 in
    (apply_command s' (release 1 1) ≡ (s', release_response (not_holder s'.lease)))
    × (apply_command s' (takeover 1 (some (1, 1)) 40) ≡ (s', takeover_response (lost s'.lease)))
stale_term_rejected_example =
    stale_term_rejected after_failover (set_paused none ∷ []) 1 1 1 40 (omega arith) (omega arith)
      (omega arith)

abbrev winner : Lease
winner = record { holder = 1; term = 4; since = 40 }
