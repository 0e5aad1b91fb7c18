-- ===== src/Scenarios/JournalRuns.antt =====
-- The journal of orchestrations on concrete calls.
use pg_agent_rs.Prelude.{◌≡◌, ◌↔◌, refl, true, false, none, List, [], ◌∷◌, ok, All}
use pg_agent_rs.Inflight.{
  op_name, key, handoff, recovery, promote, InflightOp, made, promote_op, in_progress,
}
use pg_agent_rs.Inflight.Journal.{is_active, same_op, seen, Io, FileInflightOpStore, begin}
use pg_agent_rs.Inflight.Guards.{Clear, begin_gate}
use pg_agent_rs.Inflight.SingleFlight.{SingleFlight}
use pg_agent_rs.Inflight.SingleFlight.Calls.{
  ListsAll, Call, begin_call, perform_all, perform_all-SingleFlight,
}

abbrev good : Io
good = record { reads = true; skips = λ id. false; writes = true }

abbrev full_disk : Io
full_disk = record { reads = true; skips = λ id. false; writes = false }

abbrev fresh_journal : FileInflightOpStore
fresh_journal = record { ops = []; seq = 0; retention = 100 }

-- a promotion, a second try of it, an exclusive handoff that is blocked, and a recovery on a full disk
abbrev calls : List Call
calls =
    begin_call good 10 (promote 1 8) "promoting" false
    ∷ begin_call good 11 (promote 1 8) "promoting" false
    ∷ begin_call good 12 (handoff 1 2 "b" "node1" false) "preflight_done" true
    ∷ begin_call full_disk 13 (recovery 1 2 "b" "node2") "queued" false
    ∷ []

all_listed : ListsAll calls fresh_journal
unfolding begin is_active same_op op_name key
all_listed = (tt, ((refl, tt), ((refl, tt), ((refl, tt), tt))))

perform_all-SingleFlight_example : SingleFlight (perform_all calls fresh_journal).ops
perform_all-SingleFlight_example = perform_all-SingleFlight calls fresh_journal all_listed tt

begin_gate_example :
    ((op : InflightOp) × ((begin good 10 (promote 1 8) "promoting" true fresh_journal).0 ≡ ok op))
    ↔ All (Clear (promote 1 8) true) []
unfolding seen
begin_gate_example = begin_gate good 10 (promote 1 8) "promoting" true fresh_journal refl refl

abbrev running : InflightOp
running = record {
  id = made 10 promote_op 0;
  status = in_progress;
  payload = promote 1 8;
  phase = "promoting";
  started_at = 10;
  updated_at = 10;
  completed_at = none;
  discharged_at = none;
  last_error = none;
}

abbrev with_running : FileInflightOpStore
with_running = record { ops = running ∷ []; seq = 1; retention = 100 }
