-- ===== src/Scenarios/ExecutorRuns.antt =====
-- The executor on concrete decisions, and behind a tick of the loop.
use pg_agent_rs.Prelude.{
  ◌*◌, ◌≡◌, refl, ◌∙◌, true, false, none, some, [], ◌∷◌, any, All, arith, leb, inl, ok,
}
use pg_agent_rs.Consensus.{Lease}
use pg_agent_rs.Store.InMemory.{InMemoryConsensusStore}
use pg_agent_rs.Store.InMemory.Refinement.{in_memory, in_memory-IsLinearizable}
use pg_agent_rs.Inflight.Journal.{Io}
use pg_agent_rs.Ha.{following, took_over, TickState}
use pg_agent_rs.Ha.Tick.{TickInput, tick}
use pg_agent_rs.Scenarios.HaRuns.{second, timing, shared, watching, third_tick, takes_over}
use pg_agent_rs.RoleExec.{
  primary, standby, unarmed, promote_and_wait, create_slot, set_sync_names, probe_pgpool,
  follow_upstream, create_slot_on, ExecConfig, ExecInput, RoleExecutor,
}
use pg_agent_rs.RoleExec.Apply.{apply}
use pg_agent_rs.RoleExec.Duties.{is_stop, is_promotion, must_stop, apply_stops, apply_promotes}
use pg_agent_rs.RoleExec.Lease.{ReadOrWon, promotes-Leased, outage_stops}
use pg_agent_rs.RoleExec.Arming.{Arms, apply-Arms}

abbrev trio : ExecConfig
trio = record {
  members =
      record { id = 0; hostname = "node0" }
      ∷ record { id = 1; hostname = "node1" }
      ∷ record { id = 2; hostname = "node2" }
      ∷ [];
  local_id = 1;
  promote_deadline = 30 * second;
  slot_leb = leb;
}

abbrev broken : Io
broken = record { reads = false; skips = λ id. false; writes = false }

-- a standby whose journal is broken, with one standby attached to it once it serves
abbrev at_standby : ExecInput
at_standby = record {
  now = 131 * second;
  later = 133 * second;
  journal_now = 1000;
  state = standby false;
  begin_io = broken;
  close_io = broken;
  promoted = ok tt;
  slot_made = λ n. true;
  client_made = true;
  upstream_slot_made = true;
  followed = true;
  sync_names = ok unarmed;
  connected = ok ("node2" ∷ []);
}

abbrev at_primary : ExecInput
at_primary = record at_standby { state = primary }

abbrev rested : RoleExecutor
rested = record {
  confirmed_upstream = some 0;
  self_attach_in_flight = false;
  self_attach_last_probe = none;
  sync_arm_last_probe = none;
  follow_stalled_since = none;
  follow_wedged = false;
  journal = record { ops = []; seq = 0; retention = 100 };
}

-- the promotion runs although the journal is broken
promotion_unjournaled :
    (apply trio at_standby (took_over 8 false) rested).0
    ≡ promote_and_wait
      ∷ create_slot 0
      ∷ create_slot 2
      ∷ set_sync_names (0 ∷ 2 ∷ [])
      ∷ probe_pgpool
      ∷ []
unfolding apply
promotion_unjournaled = refl

follows_once :
    (apply trio at_standby (following 2) rested).0 ≡ create_slot_on 2 1 ∷ follow_upstream 2 ∷ []
unfolding apply
follows_once = refl

apply_stops_example :
    any is_stop (apply trio at_primary (following 2) rested).0 ≡ must_stop (following 2) primary
apply_stops_example = apply_stops trio at_primary (following 2) rested

apply-Arms_example : All (Arms trio at_standby) (apply trio at_standby (took_over 8 false) rested).0
apply-Arms_example = apply-Arms trio at_standby (took_over 8 false) rested

taken :
    any is_promotion
      (apply trio at_standby (tick in_memory (timing 1) third_tick watching shared).0 rested).0
    ≡ true
taken =
    apply_promotes trio at_standby (tick in_memory (timing 1) third_tick watching shared).0 rested
    ∙ rw takes_over refl

promotes-Leased_example :
    (l : Lease) × (l.holder ≡ 1)
    × ReadOrWon in_memory (timing 1) trio (λ s. s.state) third_tick watching shared l
promotes-Leased_example =
    promotes-Leased in_memory (timing 1) trio (λ (s : InMemoryConsensusStore). s.state)
      in_memory-IsLinearizable third_tick watching shared at_standby rested taken

-- node 1 holds the lease, and has had no answer for 11 s
abbrev cut_off : TickState
cut_off = record watching { last_holder = some 1; store_unknown_since = some (120 * second) }

abbrev dark : TickInput
dark = record third_tick { timed_out = true }

outage_stops_example :
    any is_stop (apply trio at_primary (tick in_memory (timing 1) dark cut_off shared).0 rested).0
    ≡ true
outage_stops_example =
    outage_stops in_memory (timing 1) trio dark cut_off shared (120 * second) at_primary rested
      (inl refl) refl refl (omega arith)
