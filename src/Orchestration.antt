-- ===== src/Orchestration.antt =====
-- What the orchestrations of crates/pg-agent-core/src/localserver.rs run on: calls of the database,
-- of the service manager, of the peers and of pgpool, whose answers are arguments, with the journal
-- and the maintenance queue as state. A method is a function from the state to its answer and the new
-- state. Every call that may change something, and every dial, is kept in a log, the newest first, with
-- whether it succeeded; the questions about a status, a role or a position change nothing and are not kept.
pub mod Rules
pub mod Order
use pg_agent_rs.Prelude.{
  ℕ, String, Bool, true, false, List, [], ◌∷◌, none, Result, ok, err, if◌then◌else◌,
}
use pg_agent_rs.Inflight.{OpId}
use pg_agent_rs.Inflight.Journal.{
  Io, JournalError, FileInflightOpStore, update_phase, complete, abandon,
}
use pg_agent_rs.ReplayMarkers.{ReplayFile}
use pg_agent_rs.Maintenance.{MaintenancePayload, drop_slot_cleanup, node_slot}
use pg_agent_rs.Maintenance.Queue.{QueueError, FileMaintenanceStore, append}

-- A call, with the node that it acts on: `create_slot n s` and `drop_slot n s` are about the slot of
-- node `s` on node `n`, and `peer_attach n s` attaches node `s` to the pgpool of node `n`. The host,
-- port and slot that `rewind`, `basebackup` and `configure` name as their source are left out;
-- `get_status` only names the question in an error.
pub data Action : Type 0 where
  dial get_status checkpoint promote stop start rewind basebackup configure attach_node : ℕ → Action
  start_pgpool create_role : ℕ → Action
  create_slot drop_slot peer_attach : ℕ → ℕ → Action

-- the fields of a peer's `NodeStatus` that the orchestrations read
pub record PeerStatus : Type 0 where
  pub is_running : Bool
  pub is_postgres_running : Bool
  pub is_in_recovery : Bool
  pub current_wal_lsn : ℕ
  pub streaming : Bool

-- The answers to one run, with what the local service manager and the local database say. A call
-- happens at most once in a run, so its answer is one. The journal's file system answers by the phase
-- that is written or the call that reads; the ops that a fan-out begins share one answer.
pub record Env : Type 0 where
  pub act : Action → Result String (Unit {0})
  pub status : ℕ → Result String PeerStatus
  pub server_running : Result String Bool
  pub in_recovery : Result String Bool
  pub wal_lsn : Result String ℕ
  pub io : String → Io
  pub clock : String → ℕ
  pub queue_io : Io
  pub queue_clock : ℕ
  pub replay_io : Io
  pub replay_clock : ℕ
  pub slot_active : Result (Unit {0}) Bool

pub record World : Type 0 where
  pub journal : FileInflightOpStore
  pub queue : FileMaintenanceStore
  pub replay : List ReplayFile
  pub log : List (Action × Bool)

-- gRPC's `Status`; texts are constructors with what they show
pub data Status : Type 0 where
  action_failed : Action → String → Status
  journal_failed : JournalError → Status
  internal marker_failed invalid_argument failed_precondition not_found : Status

pub data Copied : Type 0 where
  rewound cloned : Copied

pub data Message : Type 0 where
  handoff_complete : Copied → Result String (Unit {0}) → Message
  both_copies_failed : String → Message
  not_primary target_stopped target_not_standby lag_unknown already_processed : Message
  lag_exceeded : ℕ → Message
  in_flight : OpId → String → Message
  begin_refused : JournalError → Message
  topology_changed target_not_in_pool diverged not_resumable followed driver_failed op_ended
        standby_stopped :
      Message
  no_candidates advisory node_owned slot_dropped cleanup_queued cleanup_not_queued standby_streams :
      Message
  recovery_skipped reclone_complete target_runs start_failed : Message
  recover_complete : Bool → Bool → List (ℕ × Bool) → Message

pub record OpResult : Type 0 where
  pub ok : Bool
  pub message : Message

-- an early return: an answer, or an error
pub data Early : Type 0 where
  replied : OpResult → Early
  failed : Status → Early

abbrev pub Task : Type 0 → Type 0
Task A = World → Result Early A × World

module _ {A : Type 0} where
  abbrev pub pure : A → Task A
  pure a w = (ok a, w)

  abbrev pub raise : Early → Task A
  raise e w = (err e, w)

  abbrev pub fail : Status → Task A
  fail s = raise (failed s)

  abbrev pub reply : Bool → Message → Task A
  reply answered said = raise (replied (record { ok = answered; message = said }))

module _ {A B : Type 0} where
  abbrev pub continue : Result Early A → (A → Task B) → Task B
  continue (ok a) f w = f a w
  continue (err e) f w = (err e, w)

  infixl 10 ◌>>=◌ ◌>>◌
  unfoldable pub ◌>>=◌ : Task A → (A → Task B) → Task B
  ◌>>=◌ m f w = let (r, w') = m w in continue r f w'

  abbrev pub ◌>>◌ : Task A → Task B → Task B
  m >> n = m >>= λ _. n

abbrev pub when : Bool → Task (Unit {0}) → Task (Unit {0})
when b m = if b then m else pure tt

abbrev pub succeeded : Result String (Unit {0}) → Bool
succeeded (ok u) = true
succeeded (err e) = false

-- a call whose failure is the caller's to judge
unfoldable pub try : Env → Action → Task (Result String (Unit {0}))
try env a w = (ok (env.act a), record w { log = (a, succeeded (env.act a)) ∷ w.log })

abbrev pub or_fail : Action → Result String (Unit {0}) → Task (Unit {0})
or_fail a (ok u) = pure tt
or_fail a (err e) = fail (action_failed a e)

-- a call whose failure is returned as an internal error
unfoldable pub call : Env → Action → Task (Unit {0})
unfolding try ◌>>=◌
call env a = try env a >>= or_fail a

abbrev pub status_or_fail : ℕ → Result String PeerStatus → Task PeerStatus
status_or_fail n (ok s) = pure s
status_or_fail n (err e) = fail (action_failed (get_status n) e)

-- an answer of the local node, whose failure is returned
abbrev pub local_or_fail : {A : Type 0} → Result String A → Task A
local_or_fail (ok a) = pure a
local_or_fail (err e) = fail internal

-- a question, whose failure is returned; it is not kept in the log
unfoldable pub ask : Env → ℕ → Task PeerStatus
ask env n = status_or_fail n (env.status n)

abbrev pub journal_or_fail : Result JournalError (Unit {0}) → Task (Unit {0})
journal_or_fail (ok u) = pure tt
journal_or_fail (err e) = fail (journal_failed e)

-- `update_phase`, whose failure is returned
unfoldable pub journal_phase : Env → OpId → String → Task (Unit {0})
journal_phase env id phase w =
    let (r, j) = update_phase (env.io phase) (env.clock phase) id phase none w.journal in
    journal_or_fail r (record w { journal = j })

unfoldable pub journal_complete : Env → OpId → Task (Unit {0})
journal_complete env id w =
    let (r, j) = complete (env.io "done") (env.clock "done") id w.journal in
    journal_or_fail r (record w { journal = j })

-- `abandon`, whose failure is logged alone
unfoldable pub journal_abandon : Env → OpId → String → Task (Unit {0})
journal_abandon env id why w =
    let (r, j) = abandon (env.io "abandoned") (env.clock "abandoned") id why w.journal in
    pure tt (record w { journal = j })

-- the intent to drop the slot of node `s` on a host, after the drop failed; was it queued?
unfoldable pub queue_drop : Env → ℕ → String → String → String → Task (Result QueueError (Unit {0}))
queue_drop env s host cause why w =
    let (r, q) =
      append env.queue_io env.queue_clock (drop_slot_cleanup (node_slot s) host cause why)
        w.queue in
    (ok (elim r [ ok i ↦ ok tt | err e ↦ err e ]), record w { queue = q })

abbrev pub queue_unless_dropped :
    Env → ℕ → String → String → Result String (Unit {0}) → Task (Unit {0})
queue_unless_dropped env s host cause (ok u) = pure tt
queue_unless_dropped env s host cause (err why) = queue_drop env s host cause why >>= λ r. pure tt

-- `cleanup_slot_after_failure`, and `cleanup_peer_slot_after_failure` where the slot is on a peer
unfoldable pub cleanup_slot_after_failure : Env → ℕ → ℕ → String → String → Task (Unit {0})
unfolding try queue_drop ◌>>=◌
cleanup_slot_after_failure env n s host cause =
    try env (drop_slot n s) >>= queue_unless_dropped env s host cause
