-- ===== src/FollowPrimary.antt =====
-- The rebasing of a standby onto a new primary (`drive_follow_primary` of
-- crates/pg-agent-core/src/localserver.rs), phase by phase, and how the op ends with it.
pub mod Slot
pub mod Resume
pub mod Resumed
pub mod Hook
pub mod HookSlot
pub mod Hooked
use pg_agent_rs.Prelude.{
  ℕ, suc, String, Bool, true, false, Option, none, some, List, [], ◌∷◌, leb, Result, ok, err,
  if◌then◌else◌,
}
use pg_agent_rs.Inflight.{OpId}
use pg_agent_rs.Pool.{NodeConfig}
use pg_agent_rs.Handoff.{position_from}
use pg_agent_rs.Orchestration.{
  Action, dial, stop, start, rewind, basebackup, configure, attach_node, create_slot, Env,
  PeerStatus, World, Early, Task, pure, fail, action_failed, invalid_argument, ◌>>=◌, ◌>>◌, when,
  try, call, ask, journal_phase, journal_complete, journal_abandon, cleanup_slot_after_failure,
}

-- `FP_PHASES`
abbrev pub fp_phases : List String
fp_phases =
    "queued" ∷ "dialing" ∷ "detached_stopped" ∷ "slot_created" ∷ "data_copied"
    ∷ "recovery_conf_written" ∷ "detached_started" ∷ "attached" ∷ []

unfoldable pub fp_phase_index : String → Option ℕ
unfolding position_from
fp_phase_index phase = position_from phase 0 fp_phases

module _ (env : Env) (id : OpId) (detached new_primary : NodeConfig) where
  -- a call whose failure drops the slot on the new primary, or queues the drop
  abbrev pub or_cleanup : Action → String → Result String (Unit {0}) → Task (Unit {0})
  or_cleanup a cause (ok u) = pure tt
  or_cleanup a cause (err why) =
      cleanup_slot_after_failure env new_primary.id detached.id new_primary.hostname cause
      >> fail (action_failed a why)

  unfoldable pub guarded : Action → String → Task (Unit {0})
  unfolding try cleanup_slot_after_failure ◌>>=◌
  guarded a cause = try env a >>= or_cleanup a cause

  abbrev pub stopped_if_running : Bool → Task Bool
  stopped_if_running false = pure false
  stopped_if_running true = do
    call env (stop detached.id)
    journal_phase env id "detached_stopped"
    pure true

  -- does the run go on? A standby that does not run is left to its operator.
  unfoldable pub stop_detached : Task Bool
  unfolding ask call journal_phase ◌>>=◌
  stop_detached = ask env detached.id >>= (λ (s : PeerStatus). stopped_if_running s.is_running)

  unfoldable pub make_standby_slot : Task (Unit {0})
  unfolding call journal_phase ◌>>=◌
  make_standby_slot = do
    call env (create_slot new_primary.id detached.id)
    journal_phase env id "slot_created"

  abbrev pub clone_unless_rewound : Result String (Unit {0}) → Task (Unit {0})
  clone_unless_rewound (ok u) = pure tt
  clone_unless_rewound (err e) = guarded (basebackup detached.id) "follow_primary_basebackup_failed"

  unfoldable pub copy_detached : Task (Unit {0})
  unfolding try guarded journal_phase ◌>>=◌
  copy_detached = do
    try env (rewind detached.id) >>= clone_unless_rewound
    journal_phase env id "data_copied"

  unfoldable pub configure_detached : Task (Unit {0})
  unfolding guarded journal_phase ◌>>=◌
  configure_detached = do
    guarded (configure detached.id) "follow_primary_configure_standby_failed"
    journal_phase env id "recovery_conf_written"

  unfoldable pub start_detached : Task (Unit {0})
  unfolding guarded journal_phase ◌>>=◌
  start_detached = do
    guarded (start detached.id) "follow_primary_start_failed"
    journal_phase env id "detached_started"

  -- the slot is in use by now, so a failure leaves it
  unfoldable pub attach_detached : Task (Unit {0})
  unfolding call journal_phase ◌>>=◌
  attach_detached = do call env (attach_node detached.id); journal_phase env id "attached"

  unfoldable pub rebase : ℕ → Task (Unit {0})
  unfolding make_standby_slot copy_detached configure_detached start_detached attach_detached ◌>>=◌
  rebase s = do
    when (leb s 2) make_standby_slot
    when (leb s 3) copy_detached
    when (leb s 4) configure_detached
    when (leb s 5) start_detached
    when (leb s 6) attach_detached

  unfoldable pub drive : ℕ → Task (Unit {0})
  unfolding journal_phase call stop_detached rebase ◌>>=◌
  drive s = do
    when (leb s 0) (journal_phase env id "dialing")
    call env (dial detached.id)
    call env (dial new_primary.id)
    goes_on ← if leb s 1 then stop_detached else pure true
    when goes_on (rebase s)

  abbrev pub drive_from : Option ℕ → Task (Unit {0})
  drive_from none = fail invalid_argument
  drive_from (some s) = drive s

  unfoldable pub drive_follow_primary : String → Task (Unit {0})
  unfolding fp_phase_index drive
  drive_follow_primary phase = drive_from (fp_phase_index phase)

  abbrev pub settled : Result Early (Unit {0}) → Task (Unit {0})
  settled (ok u) = journal_complete env id
  settled (err e) = journal_abandon env id "driver failed"

  -- the task of the fan-out: the op ends as the run does
  unfoldable pub drive_task : String → Task (Unit {0})
  unfolding drive_follow_primary journal_complete journal_abandon
  drive_task phase w = let (r, w') = drive_follow_primary phase w in settled r w'
