-- ===== src/Raft/Machine.antt =====
-- The commands of the replicated state machine and their application
-- (crates/pg-agent-core/src/raftstore.rs, `apply_command`).
use pg_agent_rs.Prelude.{
  ℕ, ◌+◌, Bool, true, false, ◌&&◌, Option, none, some, List, [], ◌∷◌, ◌==◌, if◌then◌else◌, u64,
}
use pg_agent_rs.Consensus.{
  Lease, Paused, Switchover, ClusterState, TakeoverOutcome, won, lost, ReleaseOutcome, released,
  not_holder,
}

pub data ConsensusCommand : Type 0 where
  takeover : ℕ → Option (ℕ × ℕ) → ℕ → ConsensusCommand
  release : ℕ → ℕ → ConsensusCommand
  set_paused : Option Paused → ConsensusCommand
  set_switchover : Option Switchover → ConsensusCommand

pub data CommandResponse : Type 0 where
  takeover_response : TakeoverOutcome → CommandResponse
  release_response : ReleaseOutcome → CommandResponse
  ack : CommandResponse
  noop : CommandResponse

-- does the committed lease still match what the candidate observed?
unfoldable pub observed_holds : Option Lease → Option (ℕ × ℕ) → Bool
observed_holds none none = true
observed_holds (some cur) (some (h, t)) = cur.holder == h && cur.term == t
observed_holds _ _ = false

unfoldable pub is_lease_of : Option Lease → ℕ → ℕ → Bool
is_lease_of none holder term = false
is_lease_of (some cur) holder term = cur.holder == holder && cur.term == term

-- the `u64` generation wraps, as in a release build
abbrev pub bump : ℕ → ℕ
bump g = u64 (g + 1)

grant : ClusterState → ℕ → ℕ → ClusterState × CommandResponse
grant s candidate now =
    let l : Lease = record { holder = candidate; term = bump s.generation; since = now } in
    (record s { lease = some l; generation = bump s.generation }, takeover_response (won l))

unfoldable pub apply_command : ClusterState → ConsensusCommand → ClusterState × CommandResponse
unfolding observed_holds is_lease_of grant
apply_command s (takeover candidate expected now) =
    if observed_holds s.lease expected
    then grant s candidate now
    else (s, takeover_response (lost s.lease))
apply_command s (release holder term) =
    if is_lease_of s.lease holder term
    then (record s { lease = none; generation = bump s.generation }, release_response released)
    else (s, release_response (not_holder s.lease))
apply_command s (set_paused p) = (record s { paused = p; generation = bump s.generation }, ack)
apply_command s (set_switchover w) =
    (record s { switchover = w; generation = bump s.generation }, ack)

-- the loop of `apply` over the commands of a log, with every response
unfoldable pub apply_all :
    ClusterState → List ConsensusCommand → ClusterState × List CommandResponse
apply_all s [] = (s, [])
apply_all s (c ∷ cs) =
    let (s', r) = apply_command s c in let (s'', rs) = apply_all s' cs in (s'', r ∷ rs)
