-- ===== src/Recovery.antt =====
-- The reclone of a standby: pgpool's hook and the operator's command (`recovery_first_stage` and
-- `cluster_recover` of crates/pg-agent-core/src/localserver.rs).
pub mod Order
pub mod Gate
use pg_agent_rs.Prelude.{
  ℕ, ◌*◌, ℤ, pos, negsuc, String, Bool, true, false, not, ◌&&◌, Option, none, some, List, [], ◌∷◌,
  Result, ok, err, if◌then◌else◌,
}
use pg_agent_rs.Inflight.{
  in_progress, done, abandoned, recovery, recovery_op, primary_standby, OpKey, OpId, InflightOp,
}
use pg_agent_rs.Inflight.Journal.{
  Io, JournalError, FileInflightOpStore, read_failed, begin, update_phase,
}
use pg_agent_rs.Inflight.Owner.{within}
use pg_agent_rs.Pool.{
  NodeConfig, NodePool, NodeRef, node_by_id, local_node, is_local, resolve_node, resolve_local_node,
}
use pg_agent_rs.Orchestration.{
  Action, dial, stop, checkpoint, basebackup, configure, start, start_pgpool, attach_node,
  peer_attach, create_slot, Env, PeerStatus, World, OpResult, Task, pure, fail, reply, ◌>>=◌, ◌>>◌,
  try, call, ask, succeeded, local_or_fail, journal_complete, journal_abandon,
  cleanup_slot_after_failure, action_failed, journal_failed, recovery_skipped, reclone_complete,
  target_runs, start_failed, recover_complete,
}
use pg_agent_rs.Failover.{given}
use pg_agent_rs.Handoff.Request.{find_op, not_recovering, node_or_fail, peer_or_fail}

pub record RecoveryRequest : Type 0 where
  pub primary : Option NodeRef
  pub standby : Option NodeRef
  pub bypass_replay_marker : Bool

-- `RECOVERY_DEDUP_WINDOW`, in nanoseconds
abbrev pub recovery_dedup_window : ℕ
recovery_dedup_window = 24 * 60 * 60 * 1000000000

-- no op has the key of a node that is named without its id
abbrev pub dedup_key : ℤ → ℤ → Option OpKey
dedup_key (pos p) (pos s) = some (primary_standby p s)
dedup_key _ _ = none

unfoldable pub find_recovery :
    Io → Option OpKey → FileInflightOpStore → Result JournalError (Option InflightOp)
unfolding find_op
find_recovery io none st = if io.reads then ok none else err read_failed
find_recovery io (some k) st = find_op io recovery_op k st

-- was it done within the window?
abbrev pub recent : ℕ → InflightOp → Bool
recent now op = elim op.status [
  | done ↦ within now recovery_dedup_window op.completed_at
  | in_progress ↦ false
  | abandoned ↦ false
]

abbrev pub judge_recent : ℕ → Result JournalError (Option InflightOp) → Task Bool
judge_recent now (err e) = fail (journal_failed e)
judge_recent now (ok none) = pure false
judge_recent now (ok (some op)) = pure (recent now op)

unfoldable pub recovered_lately : Env → ℤ → ℤ → Task Bool
unfolding find_recovery
recovered_lately env p s w =
    judge_recent (env.clock "find") (find_recovery (env.io "find") (dedup_key p s) w.journal) w

abbrev pub begun_or_fail : Result JournalError InflightOp → Task OpId
begun_or_fail (err e) = fail (journal_failed e)
begun_or_fail (ok op) = pure op.id

unfoldable pub begin_recovery : (ℕ → String) → Env → NodeConfig → NodeConfig → Task OpId
unfolding begin
begin_recovery slot_text env p s w =
    let (r, j) =
      begin (env.io "begin") (env.clock "begin") (recovery p.id s.id s.hostname (slot_text s.id))
        "started" false w.journal in
    begun_or_fail r (record w { journal = j })

-- `update_phase`, whose failure is logged alone
unfoldable pub note_phase : Env → OpId → String → Task (Unit {0})
note_phase env id phase w =
    let (r, j) = update_phase (env.io phase) (env.clock phase) id phase none w.journal in
    pure tt (record w { journal = j })

-- one run, with the journal's op, the primary and the standby
module _ (env : Env) (id : OpId) (p s : NodeConfig) where
  -- the macro `fail!`
  abbrev pub give_up_on : Action → String → Task (Unit {0})
  give_up_on a why = journal_abandon env id why >> fail (action_failed a why)

  abbrev pub or_abandon : Action → Result String (Unit {0}) → Task (Unit {0})
  or_abandon a (ok u) = pure tt
  or_abandon a (err why) = give_up_on a why

  abbrev pub or_drop_slot : Action → String → Result String (Unit {0}) → Task (Unit {0})
  or_drop_slot a cause (ok u) = pure tt
  or_drop_slot a cause (err why) =
      cleanup_slot_after_failure env p.id s.id p.hostname cause >> give_up_on a why

  unfoldable pub make_recovery_slot : Task (Unit {0})
  unfolding try journal_abandon note_phase ◌>>=◌
  make_recovery_slot = do
    try env (checkpoint p.id) >>= or_abandon (checkpoint p.id)
    try env (create_slot p.id s.id) >>= or_abandon (create_slot p.id s.id)
    note_phase env id "slot_created"

  unfoldable pub clone_standby : Task (Unit {0})
  unfolding try cleanup_slot_after_failure journal_abandon note_phase ◌>>=◌
  clone_standby = do
    try env (dial s.id) >>= or_drop_slot (dial s.id) "recovery_1st_stage_peer_dial_failed"
    try env (basebackup s.id)
        >>= or_drop_slot (basebackup s.id) "recovery_1st_stage_basebackup_failed"
    note_phase env id "data_copied"

  unfoldable pub configure_clone : Task (Unit {0})
  unfolding try cleanup_slot_after_failure journal_abandon note_phase ◌>>=◌
  configure_clone = do
    try env (configure s.id)
        >>= or_drop_slot (configure s.id) "recovery_1st_stage_configure_standby_failed"
    note_phase env id "standby_configured"

  unfoldable pub run_recovery : Task OpResult
  unfolding make_recovery_slot clone_standby configure_clone journal_complete ◌>>=◌
  run_recovery = do
    make_recovery_slot
    clone_standby
    configure_clone
    journal_complete env id
    pure (record { ok = true; message = reclone_complete })

-- the recovery itself, once it is not a repetition
unfoldable pub recover_standby : (ℕ → String) → NodePool → Env → NodeRef → NodeRef → Task OpResult
unfolding resolve_local_node resolve_node begin_recovery run_recovery ◌>>=◌
recover_standby slot_text pool env primary standby = do
  p ← given (resolve_local_node pool primary)
  s ← given (resolve_node pool standby)
  id ← begin_recovery slot_text env p s
  run_recovery env id p s

abbrev pub recover_unless : (ℕ → String) → NodePool → Env → NodeRef → NodeRef → Bool → Task OpResult
recover_unless slot_text pool env primary standby true =
    pure (record { ok = true; message = recovery_skipped })
recover_unless slot_text pool env primary standby false =
    recover_standby slot_text pool env primary standby

unfoldable pub recovery_first_stage :
    (ℕ → String) → NodePool → Env → RecoveryRequest → Task OpResult
unfolding recovered_lately recover_standby ◌>>=◌
recovery_first_stage slot_text pool env req = do
  primary ← given req.primary
  standby ← given req.standby
  skip ← if req.bypass_replay_marker then pure false else recovered_lately env primary.id standby.id
  recover_unless slot_text pool env primary standby skip

abbrev pub ref_of : NodeConfig → NodeRef
ref_of n = record { id = pos n.id; hostname = n.hostname }

-- `pg_agentctl cluster recover`: a running target is stopped where the operator asks for it
abbrev pub stop_target : Env → Bool → ℕ → Bool → Task (Unit {0})
stop_target env asked s false = pure tt
stop_target env false s true = reply false target_runs
stop_target env true s true = call env (stop s)

abbrev pub attach_at : Env → ℕ → ℕ → Result String (Unit {0}) → Task (Result String (Unit {0}))
attach_at env m s (ok u) = try env (peer_attach m s)
attach_at env m s (err e) = pure (err e)

-- each other member's pgpool attaches the node; a failure is noted alone
unfoldable pub fan_out_attach : NodePool → Env → ℕ → List NodeConfig → Task (List (ℕ × Bool))
unfolding try is_local ◌>>=◌
fan_out_attach pool env s [] = pure []
fan_out_attach pool env s (m ∷ ms) =
    let rest = fan_out_attach pool env s ms in
    if is_local pool m
    then rest
    else try env (dial m.id)
      >>= attach_at env m.id s
      >>= (λ r. rest >>= (λ rs. pure ((m.id, succeeded r) ∷ rs)))

-- the start is the gate of what puts the node back into rotation
abbrev pub back_online : NodePool → Env → ℕ → Result String (Unit {0}) → Task OpResult
back_online pool env s (err e) = pure (record { ok = false; message = start_failed })
back_online pool env s (ok u) = do
  pgpool ← try env (start_pgpool s)
  attached ← try env (attach_node s)
  others ← fan_out_attach pool env s pool.members
  pure (record {
    ok = true;
    message = recover_complete (succeeded pgpool) (succeeded attached) others;
  })

abbrev pub finish_recover : NodePool → Env → ℕ → OpResult → Task OpResult
finish_recover pool env s answer =
    if answer.ok then try env (start s) >>= back_online pool env s else pure answer

-- The target is dialled in the preflight, in the recovery and in the fan-out, each with answers of
-- its own.
unfoldable pub cluster_recover :
    (ℕ → String) → NodePool → Env → Env → Env → ℕ → Bool → Task OpResult
unfolding local_node node_by_id is_local call ask recovery_first_stage try fan_out_attach ◌>>=◌
cluster_recover slot_text pool before during after to stop_asked = do
  recovers ← local_or_fail before.in_recovery
  not_recovering recovers
  p ← node_or_fail (local_node pool)
  s ← peer_or_fail pool (node_by_id pool to)
  call before (dial s.id)
  status ← ask before s.id
  stop_target before stop_asked s.id status.is_postgres_running
  answer ←
      recovery_first_stage slot_text pool during (record {
        primary = some (ref_of p);
        standby = some (ref_of s);
        bypass_replay_marker = true;
      })
  finish_recover pool after s.id answer
