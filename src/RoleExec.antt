-- ===== src/RoleExec.antt =====
-- The executor of the HA loop's decisions (crates/pg-agent-core/src/roleexec.rs): its data. What the
-- instance, the database, the peers and pgpool answer to one decision is an argument; what the
-- executor asks of them is a list of actions, in order. Logging is left out.
pub mod QuorumCommit
pub mod Attach
pub mod Promote
pub mod Follow
pub mod Apply
pub mod Actions
pub mod Duties
pub mod Lease
pub mod Arming
use pg_agent_rs.Prelude.{
  ℕ, String, Bool, true, false, ◌&&◌, Option, List, [], ◌∷◌, ◌==◌, Result, ltb, ◌+◌, some, none,
}
use pg_agent_rs.Inflight.Journal.{Io, FileInflightOpStore}
use pg_agent_rs.Pool.{NodeConfig}

pub data InstanceState : Type 0 where
  primary : InstanceState
  standby : Bool → InstanceState
  down : InstanceState
  unknown : InstanceState

-- `synchronous_standby_names`: empty, `ANY 1 (node<i>, …)`, or another text
pub data SyncNames : Type 0 where
  unarmed : SyncNames
  any_one : List ℕ → SyncNames
  other_names : String → SyncNames

abbrev pub ids_eqb : List ℕ → List ℕ → Bool
ids_eqb [] [] = true
ids_eqb (x ∷ xs) (y ∷ ys) = x == y && ids_eqb xs ys
ids_eqb _ _ = false

abbrev pub names_eqb : SyncNames → List ℕ → Bool
names_eqb unarmed ids = false
names_eqb (any_one xs) ids = ids_eqb xs ids
names_eqb (other_names t) ids = false

-- what the executor asks for: of the instance, of the database, of the holder, and of pgpool
pub data Action : Type 0 where
  promote_and_wait ensure_stopped stop_receiving : Action
  follow_upstream : ℕ → Action
  create_slot : ℕ → Action
  set_sync_names : List ℕ → Action
  create_slot_on : ℕ → ℕ → Action
  probe_pgpool : Action

-- the pool, with the id of this node; `slot_leb` is the order of the texts `node<i>`
pub record ExecConfig : Type 0 where
  pub members : List NodeConfig
  pub local_id : ℕ
  pub promote_deadline : ℕ
  pub slot_leb : ℕ → ℕ → Bool

-- What the world answers to one decision. `later` is the clock once a promotion has ended;
-- `slot_made i` says that the database makes the slot of node `i`.
pub record ExecInput : Type 0 where
  pub now : ℕ
  pub later : ℕ
  pub journal_now : ℕ
  pub state : InstanceState
  pub begin_io : Io
  pub close_io : Io
  pub promoted : Result String (Unit {0})
  pub slot_made : ℕ → Bool
  pub client_made : Bool
  pub upstream_slot_made : Bool
  pub followed : Bool
  pub sync_names : Result (Unit {0}) SyncNames
  pub connected : Result (Unit {0}) (List String)

-- what the executor remembers, with the journal that it writes
pub record RoleExecutor : Type 0 where
  pub confirmed_upstream : Option ℕ
  pub self_attach_in_flight : Bool
  pub self_attach_last_probe : Option ℕ
  pub sync_arm_last_probe : Option ℕ
  pub follow_stalled_since : Option ℕ
  pub follow_wedged : Bool
  pub journal : FileInflightOpStore

-- `SELF_ATTACH_PROBE_INTERVAL` and `SYNC_ARM_PROBE_INTERVAL`
abbrev pub probe_interval : ℕ
probe_interval = 10000000000

-- is a rate-limited probe at `now` too early after the last one?
abbrev pub too_soon : ℕ → Option ℕ → Bool
too_soon now last = elim last [ some t ↦ ltb now (t + probe_interval) | none ↦ false ]
