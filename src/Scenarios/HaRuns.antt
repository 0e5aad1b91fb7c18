-- ===== src/Scenarios/HaRuns.antt =====
-- Ticks of a three-node cluster whose holder, node 0, has died.
use mathlib.Core.List.{Memᴰ}
use pg_agent_rs.Prelude.{
  ℕ, ◌*◌, ◌-◌, ◌≡◌, ◌≢◌, ◌↔◌, refl, true, false, none, some, [], ◌∷◌, arith, inl, pos, ok, lookup,
  insert, All,
}
use pg_agent_rs.Consensus.{ClusterState}
use pg_agent_rs.Store.InMemory.{InMemoryConsensusStore, read_state, try_takeover}
use pg_agent_rs.Store.InMemory.Refinement.{in_memory, in_memory-IsLinearizable}
use pg_agent_rs.ClusterView.{WalPosition, NodeStatus}
use pg_agent_rs.Ha.{HaConfig, took_over, would_demote, quorum_lost, TickState, LocalView, PeerView}
use pg_agent_rs.Ha.Observe.{LocalAnswers, observe_local, observe_peers}
use pg_agent_rs.Ha.Candidacy.{Env, consider_candidacy}
use pg_agent_rs.Ha.Candidacy.Gates.{
  entry_gates, backoff_gate, known_gate, witness_gate, find_witness, witness_of, detach_gate,
  mover_gate,
}
use pg_agent_rs.Ha.Candidacy.Settle.{sample, unsettled, vanished}
use pg_agent_rs.Ha.Candidacy.Choice.{outranked, best_other}
use pg_agent_rs.Ha.Candidacy.Ranking.{Yields, outranked_iff}
use pg_agent_rs.Ha.Candidacy.Unique.{Shows, election_unique}
use pg_agent_rs.Ha.Tick.{TickInput, tick, run, tick_once, known_tick, follower_tick}
use pg_agent_rs.Ha.Tick.Unknown.{fail_closed}
use pg_agent_rs.Ha.Tick.Takeover.{TookOver, tick_took_over}

abbrev pub second : ℕ
second = 1000000000

abbrev pub timing : ℕ → HaConfig
timing id = record {
  local_id = id;
  loop_wait = 10 * second;
  retry_timeout = 10 * second;
  leader_ttl = 30 * second;
}

abbrev pub frozen : WalPosition
frozen = record { timeline = 1; lsn = 4096 }

abbrev pub deposed : ClusterState
deposed = record {
  lease = some (record { holder = 0; term = 7; since = 0 });
  paused = none;
  switchover = none;
  generation = 7;
}

abbrev pub shared : InMemoryConsensusStore
shared = record { state = deposed; fail_reads = 0; fail_writes = 0; unavailable = false }

abbrev pub standby_db : LocalAnswers
standby_db = record {
  in_recovery = some true;
  timeline = some (pos 1);
  flush_lsn = some 4096;
  walreceiver = some "";
}

abbrev pub standby_status : NodeStatus
standby_status = record {
  is_postgres_running = true;
  is_in_recovery = true;
  replication_state = "";
  timeline_id = pos 1;
  last_flush_lsn = 4096;
  peer_primary_seen_age_ms = (0, 40000) ∷ [];
}

-- node 1 has seen node 0 unhealthy for 31 s, and both standbys at one position a tick ago
abbrev pub watching : TickState
watching = record {
  last_holder = some 0;
  holder_unhealthy_since = some (0, 100 * second);
  store_unknown_since = none;
  backoff_until = none;
  held_term = none;
  held_since = none;
  settled_pos = (1, frozen) ∷ (2, frozen) ∷ [];
}

abbrev pub clock : ℕ → Env
clock t = record { now = t; wall = t; gen_range = λ n. 0 }

abbrev pub third_tick : TickInput
third_tick = record {
  env = clock (131 * second);
  timed_out = false;
  db = standby_db;
  statuses = (0, none) ∷ (2, some standby_status) ∷ [];
}

pub takes_over : (tick in_memory (timing 1) third_tick watching shared).0 ≡ took_over 8 false
unfolding tick_once consider_candidacy read_state try_takeover lookup insert observe_local
    observe_peers known_tick follower_tick entry_gates backoff_gate known_gate witness_gate
    find_witness witness_of detach_gate mover_gate unsettled sample vanished
takes_over = refl

tick_took_over_example :
    (c : ClusterState) × ((in_memory.read_state shared).0 ≡ ok c)
    × (c ≡ shared.state)
    × TookOver in_memory
        (timing 1)
        third_tick.env
        (λ m. m.state)
        (in_memory.read_state shared).1
        c
        (observe_local standby_db)
        (observe_peers third_tick.statuses)
        watching
        8
        (tick in_memory (timing 1) third_tick watching shared)
tick_took_over_example =
    tick_took_over in_memory (timing 1) (λ m. m.state) in_memory-IsLinearizable third_tick watching
      shared 8 false takes_over

-- Nodes 1 and 2 stand level, and each sees the other: node 1 has the lower id.
abbrev local_view : LocalView
local_view = record { is_primary = some false; pos = some frozen; receiving = false }

abbrev peer_at : ℕ → PeerView
peer_at id = record {
  node = id;
  running_as_primary = false;
  pos = some frozen;
  receiving = false;
  reachable = true;
  seen_ages = [];
}

wins :
    (consider_candidacy in_memory
      (timing 1)
      (clock (131 * second))
      (some (0, 7))
      local_view
      (peer_at 2 ∷ [])
      watching
      shared).0
    ≡ took_over 8 false
unfolding consider_candidacy try_takeover lookup insert entry_gates backoff_gate known_gate
    witness_gate find_witness witness_of detach_gate mover_gate unsettled sample vanished
wins = refl

shows : (id : ℕ) → Shows (timing id) local_view (peer_at id ∷ [])
shows id = record { peer = peer_at id; listed = Memᴰ.head refl; is_other = refl; position = refl }

election_unique_example :
    (consider_candidacy in_memory
      (timing 2)
      (clock (132 * second))
      (some (0, 7))
      local_view
      (peer_at 1 ∷ [])
      watching
      shared).0
    ≢ took_over 8 false
election_unique_example =
    election_unique in_memory in_memory (timing 1) (timing 2) (clock (131 * second))
      (clock (132 * second)) (some (0, 7)) (some (0, 7)) local_view local_view (peer_at 2 ∷ [])
      (peer_at 1 ∷ []) watching watching shared shared 8 8 false false (omega arith) (shows 2)
      (shows 1) wins

outranked_iff_example :
    (outranked 1 frozen (best_other (peer_at 2 ∷ [])) ≡ none)
    ↔ All (λ (p : PeerView). Yields 1 frozen p.node p.pos) (peer_at 2 ∷ [])
outranked_iff_example = outranked_iff 1 frozen (peer_at 2 ∷ [])

-- the holder is cut off from the quorum: every read outlives its budget
abbrev holding_on : TickState
holding_on = record watching { last_holder = some 1; holder_unhealthy_since = none }

abbrev dark_at : ℕ → TickInput
dark_at t = record { env = clock (t * second); timed_out = true; db = standby_db; statuses = [] }

fail_closed_example :
    let (_, ts', s') =
      run in_memory (timing 1) (dark_at 140 ∷ dark_at 145 ∷ []) holding_on shared in
    (tick in_memory (timing 1) (dark_at 151) ts' s').0
    ≡ would_demote (quorum_lost (151 * second - 140 * second))
fail_closed_example =
    fail_closed in_memory (timing 1) (dark_at 140) (dark_at 151) (dark_at 145 ∷ []) holding_on
      shared refl refl (inl refl) (inl refl, tt) (inl refl) (omega arith)
