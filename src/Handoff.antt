-- ===== src/Handoff.antt =====
-- The planned handoff of the primary's role (`cluster_handoff` of
-- crates/pg-agent-core/src/localserver.rs): its ladder of phases, which the journal records so that a
-- crashed run is resumed where it stopped.
pub mod Rungs
pub mod Safe
pub mod Resume
pub mod Attempts
pub mod Request
pub mod Accepted
pub mod Whole
use text.Mathlib.Text.{◌==◌}
use pg_agent_rs.Prelude.{
  ℕ, suc, String, Bool, true, false, Option, none, some, List, [], ◌∷◌, leb, Result, ok, err,
  if◌then◌else◌,
}
use pg_agent_rs.Inflight.{OpId}
use pg_agent_rs.Pool.{NodeConfig}
use pg_agent_rs.Orchestration.{
  Action, checkpoint, promote, stop, start, rewind, basebackup, configure, attach_node, create_slot,
  drop_slot, Env, Copied, rewound, cloned, handoff_complete, both_copies_failed, OpResult, Task,
  pure, fail, reply, invalid_argument, ◌>>=◌, ◌>>◌, when, try, call, journal_phase,
  journal_complete, journal_abandon,
}

-- `HANDOFF_PHASES`
abbrev pub handoff_phases : List String
handoff_phases =
    "preflight_done" ∷ "target_promoted" ∷ "slot_created" ∷ "local_stopped" ∷ "data_copied"
    ∷ "recovery_conf_written" ∷ "local_started" ∷ "attached" ∷ []

-- `iter().position(|p| *p == phase)`, from the number of the first
unfoldable pub position_from : String → ℕ → List String → Option ℕ
position_from phase k [] = none
position_from phase k (p ∷ ps) =
    let rest = position_from phase (suc k) ps in if p == phase then some k else rest

unfoldable pub handoff_phase_index : String → Option ℕ
unfolding position_from
handoff_phase_index phase = position_from phase 0 handoff_phases

-- one run, with the journal's op, the old primary and the new one
module _ (env : Env) (id : OpId) (local target : ℕ) where
  unfoldable pub promote_target : Task (Unit {0})
  unfolding call journal_phase ◌>>=◌
  promote_target = do
    call env (checkpoint local)
    call env (promote target)
    journal_phase env id "target_promoted"

  unfoldable pub make_slot : Task (Unit {0})
  unfolding call journal_phase ◌>>=◌
  make_slot = do call env (create_slot target local); journal_phase env id "slot_created"

  unfoldable pub stop_local : Task (Unit {0})
  unfolding call journal_phase ◌>>=◌
  stop_local = do call env (stop local); journal_phase env id "local_stopped"

  -- neither copy succeeded: the slot is dropped and the op abandoned
  unfoldable pub give_up : String → Task Copied
  unfolding try journal_abandon ◌>>=◌
  give_up why = do
    _ ← try env (drop_slot target local)
    journal_abandon env id why
    reply false (both_copies_failed why)

  abbrev pub cloned_or : Result String (Unit {0}) → Task Copied
  cloned_or (ok u) = pure cloned
  cloned_or (err why) = give_up why

  abbrev pub rewound_or : Result String (Unit {0}) → Task Copied
  rewound_or (ok u) = pure rewound
  rewound_or (err e) = try env (basebackup local) >>= cloned_or

  unfoldable pub copy_data : Task Copied
  unfolding try give_up journal_phase ◌>>=◌
  copy_data = do
    how ← try env (rewind local) >>= rewound_or
    journal_phase env id "data_copied"
    pure how

  unfoldable pub write_conf : Task (Unit {0})
  unfolding call journal_phase ◌>>=◌
  write_conf = do call env (configure local); journal_phase env id "recovery_conf_written"

  unfoldable pub start_local : Task (Unit {0})
  unfolding call journal_phase ◌>>=◌
  start_local = do call env (start local); journal_phase env id "local_started"

  -- a failure is noted alone
  unfoldable pub attach_local : Task (Result String (Unit {0}))
  unfolding try journal_phase ◌>>=◌
  attach_local = do
    answer ← try env (attach_node local)
    journal_phase env id "attached"
    pure answer

  -- the steps from phase `s` on
  unfoldable pub climb : ℕ → Task OpResult
  unfolding promote_target make_slot stop_local copy_data write_conf start_local attach_local
      journal_complete ◌>>=◌
  climb s = do
    when (leb s 0) promote_target
    when (leb s 1) make_slot
    when (leb s 2) stop_local
    how ← if leb s 3 then copy_data else pure rewound
    when (leb s 4) write_conf
    when (leb s 5) start_local
    attached ← if leb s 6 then attach_local else pure (ok tt)
    journal_complete env id
    pure (record { ok = true; message = handoff_complete how attached })

  abbrev pub climb_from : Option ℕ → Task OpResult
  climb_from none = fail invalid_argument
  climb_from (some s) = climb s

  unfoldable pub run_handoff_from_phase : String → Task OpResult
  unfolding climb handoff_phase_index
  run_handoff_from_phase phase = climb_from (handoff_phase_index phase)
