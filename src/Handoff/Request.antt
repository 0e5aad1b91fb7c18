-- ===== src/Handoff/Request.antt =====
-- The request of a handoff (`cluster_handoff` of crates/pg-agent-core/src/localserver.rs): its
-- preflight, the gate of the journal, and the run.
use pg_agent_rs.Prelude.{
  ℕ, String, ◌-◌, ◌*◌, Bool, true, false, not, ◌&&◌, ◌||◌, Option, none, some, List, [], ◌∷◌, keep,
  ltb, Result, ok, err, if◌then◌else◌, ◌==◌,
}
use pg_agent_rs.Inflight.{
  in_progress, done, abandoned, InflightPayload, handoff, follow_primary, OpKey, from_to, OpName,
  handoff_op, op_name, key, name_eqb, key_eqb, OpId, InflightOp,
}
use pg_agent_rs.Inflight.Journal.{seen, JournalError, FileInflightOpStore, Io, read_failed, begin}
use pg_agent_rs.Inflight.Owner.{latest}
use pg_agent_rs.Pool.{NodeConfig, NodePool, node_by_id, local_node, is_local}
use pg_agent_rs.Orchestration.{
  dial, Env, PeerStatus, OpResult, Task, pure, fail, reply, ◌>>=◌, ◌>>◌, when, call, ask,
  local_or_fail, internal, invalid_argument, journal_failed, not_primary, target_stopped,
  target_not_standby, lag_unknown, lag_exceeded, already_processed, in_flight, begin_refused,
}
use pg_agent_rs.Handoff.{run_handoff_from_phase}

-- `find` of the journal: the latest op of the name and the key
unfoldable pub find_op :
    Io → OpName → OpKey → FileInflightOpStore → Result JournalError (Option InflightOp)
unfolding latest seen
find_op io name k st =
    if io.reads
    then ok (
        latest (
          keep (λ (o : InflightOp). name_eqb (op_name o.payload) name && key_eqb (key o.payload) k)
            (seen io st.ops)))
    else err read_failed

-- `MAX_HANDOFF_LAG_BYTES`
abbrev pub max_handoff_lag : ℕ
max_handoff_lag = 16 * 1024 * 1024

-- a finished handoff of the same nodes is not done again, and one in flight is to be resumed
unfoldable pub unless_known : Result JournalError (Option InflightOp) → Task (Unit {0})
unless_known (err e) = fail (journal_failed e)
unless_known (ok none) = pure tt
unless_known (ok (some op)) = elim op.status [
  | done ↦ reply true already_processed
  | in_progress ↦ reply false (in_flight op.id op.phase)
  | abandoned ↦ pure tt
]

-- the lag of the target's replay behind the local primary
unfoldable pub check_lag : ℕ → ℕ → Task (Unit {0})
check_lag local_lsn target_lsn =
    if local_lsn == 0 || target_lsn == 0
    then reply false lag_unknown
    else if ltb max_handoff_lag (local_lsn - target_lsn)
    then reply false (lag_exceeded (local_lsn - target_lsn))
    else pure tt

unfoldable pub check_target : Env → Bool → PeerStatus → Task (Unit {0})
unfolding check_lag ◌>>=◌
check_target env allow_lag s =
    if not s.is_postgres_running
    then reply false target_stopped
    else if not s.is_in_recovery
    then reply false target_not_standby
    else if allow_lag
    then pure tt
    else local_or_fail env.wal_lsn >>= (λ lsn. check_lag lsn s.current_wal_lsn)

abbrev pub not_recovering : Bool → Task (Unit {0})
not_recovering true = reply false not_primary
not_recovering false = pure tt

abbrev pub node_or_fail : Option NodeConfig → Task NodeConfig
node_or_fail none = fail internal
node_or_fail (some n) = pure n

abbrev pub peer_or_fail : NodePool → Option NodeConfig → Task NodeConfig
peer_or_fail pool none = fail invalid_argument
peer_or_fail pool (some n) = if is_local pool n then fail invalid_argument else pure n

abbrev pub begun : Result JournalError InflightOp → Task OpId
begun (err e) = reply false (begin_refused e)
begun (ok op) = pure op.id

-- the gate: one orchestration at a time
unfoldable pub begin_op : Env → InflightPayload → String → Bool → Task OpId
unfolding begin
begin_op env p phase exclusive w =
    let (r, j) = begin (env.io "begin") (env.clock "begin") p phase exclusive w.journal in
    begun r (record w { journal = j })

unfoldable pub look_up : Env → OpName → OpKey → Task (Unit {0})
unfolding find_op unless_known
look_up env name k w = unless_known (find_op (env.io "find") name k w.journal) w

-- Everything before the run, with the id of the op that was begun. `slot_text` prints the slot's name.
unfoldable pub preflight :
    (ℕ → String) → NodePool → Env → ℕ → Bool → Task (OpId × NodeConfig × NodeConfig)
unfolding node_by_id local_node is_local look_up call ask check_target begin_op ◌>>=◌
preflight slot_text pool env to allow_lag = do
  recovers ← local_or_fail env.in_recovery
  not_recovering recovers
  local ← node_or_fail (local_node pool)
  target ← peer_or_fail pool (node_by_id pool to)
  look_up env handoff_op (from_to local.id target.id)
  call env (dial target.id)
  s ← ask env target.id
  check_target env allow_lag s
  id ←
      begin_op env (handoff local.id target.id target.hostname (slot_text local.id) allow_lag)
        "preflight_done" true
  pure (id, local, target)

-- the op of a standby's rebasing, unless the journal refuses it
unfoldable pub begin_follow : Env → NodeConfig → NodeConfig → Task (Unit {0})
unfolding begin
begin_follow env detached new_primary w =
    let (r, j) =
      begin (env.io "queued") (env.clock "queued")
        (follow_primary detached.id detached.hostname new_primary.id new_primary.hostname) "queued"
        false w.journal in
    pure tt (record w { journal = j })

-- `fan_out_follow_primary`, up to the tasks that drive the ops that were begun
unfoldable pub fan_out_follow_primary : Env → ℕ → NodeConfig → List NodeConfig → Task (Unit {0})
unfolding begin_follow ◌>>=◌
fan_out_follow_primary env local new_primary [] = pure tt
fan_out_follow_primary env local new_primary (m ∷ ms) =
    when (not (m.id == local || m.id == new_primary.id)) (begin_follow env m new_primary)
    >> fan_out_follow_primary env local new_primary ms

unfoldable pub cluster_handoff : (ℕ → String) → NodePool → Env → ℕ → Bool → Task OpResult
unfolding preflight run_handoff_from_phase fan_out_follow_primary ◌>>=◌
cluster_handoff slot_text pool env to allow_lag = do
  (id, local, target) ← preflight slot_text pool env to allow_lag
  answer ← run_handoff_from_phase env id local.id target.id "preflight_done"
  when answer.ok (fan_out_follow_primary env local.id target pool.members)
  pure answer
