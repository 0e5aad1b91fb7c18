-- ===== src/ClusterInit.antt =====
-- The initialisation of the standbys (`cluster_init` and `init_standby` of
-- crates/pg-agent-core/src/localserver.rs). What the library of consensus answers to the declaration of
-- the members is an argument; the lease is seeded in any consensus store.
pub mod Standby
pub mod Seeded
pub mod Started
use pg_agent_rs.Prelude.{
  ℕ, suc, String, Bool, true, false, not, ◌&&◌, ◌==◌, Option, none, some, List, [], ◌∷◌, length,
  Result, ok, err, if◌then◌else◌,
}
use pg_agent_rs.Consensus.{TakeoverOutcome}
use pg_agent_rs.Pool.{NodeConfig, NodePool, local_node}
use pg_agent_rs.Store.{ConsensusStore}
use pg_agent_rs.Orchestration.{
  Action, dial, stop, basebackup, configure, start, create_slot, create_role, Env, World, Task,
  pure, ◌>>=◌, ◌>>◌, try, call, local_or_fail, cleanup_slot_after_failure,
}
use pg_agent_rs.Handoff.Request.{node_or_fail}

pub record ClusterInitStandbyResult : Type 0 where
  pub node_id : ℕ
  pub ok : Bool

pub data InitMessage : Type 0 where
  in_recovery none_selected : InitMessage
  initialised : ℕ → InitMessage
  some_failed : ℕ → ℕ → InitMessage

-- none without consensus; else what the declaration of the members answered, and then the seeding
abbrev pub RaftNote : Type 0 → Type 0
RaftNote E = Option (Result String (Result E TakeoverOutcome))

pub record ClusterInitResponse (E : Type 0) : Type 0 where
  pub ok : Bool
  pub message : InitMessage
  pub raft_note : RaftNote E
  pub standbys : List ClusterInitStandbyResult

-- one standby, with its slot on the primary `here`; the queued drop names the primary's host
module _ (env : Env) (here s : ℕ) (primary_hostname : String) where
  -- the macro `fail_with_cleanup!`
  abbrev pub staged : String → Task Bool → Result String (Unit {0}) → Task Bool
  staged cause next (ok u) = next
  staged cause next (err why) =
      cleanup_slot_after_failure env here s primary_hostname cause >> pure false

  unfoldable pub start_standby : Task Bool
  unfolding try cleanup_slot_after_failure ◌>>=◌
  start_standby = try env (start s) >>= staged "cluster_init_start_failed" (pure true)

  unfoldable pub configure_standby : Task Bool
  unfolding try cleanup_slot_after_failure start_standby ◌>>=◌
  configure_standby =
      try env (configure s) >>= staged "cluster_init_configure_standby_failed" start_standby

  unfoldable pub copy_standby : Task Bool
  unfolding try cleanup_slot_after_failure configure_standby ◌>>=◌
  copy_standby =
      try env (basebackup s) >>= staged "cluster_init_basebackup_failed" configure_standby

  unfoldable pub stop_standby : Task Bool
  unfolding try cleanup_slot_after_failure copy_standby ◌>>=◌
  stop_standby = try env (stop s) >>= staged "cluster_init_stop_failed" copy_standby

  unfoldable pub reach_standby : Task Bool
  unfolding try cleanup_slot_after_failure stop_standby ◌>>=◌
  reach_standby = try env (dial s) >>= staged "cluster_init_peer_client_failed" stop_standby

  abbrev pub once_made : Result String (Unit {0}) → Task Bool
  once_made (ok u) = reach_standby
  once_made (err e) = pure false

  unfoldable pub init_standby : Task ClusterInitStandbyResult
  unfolding try reach_standby ◌>>=◌
  init_standby =
      try env (create_slot here s)
      >>= once_made
      >>= (λ (done : Bool). pure (record { node_id = s; ok = done }))

-- every node but the primary, or the one that was asked for
abbrev pub wanted : Option ℕ → ℕ → Bool
wanted none n = true
wanted (some m) n = m == n

unfoldable pub chosen : ℕ → Option ℕ → NodeConfig → Bool
chosen here only m = not (m.id == here) && wanted only m.id

unfoldable pub init_all :
    Env → ℕ → String → Option ℕ → List NodeConfig → Task (List ClusterInitStandbyResult)
unfolding init_standby ◌>>=◌
init_all env here host only [] = pure []
init_all env here host only (m ∷ ms) =
    let rest = init_all env here host only ms in
    if chosen here only m
    then init_standby env here m.id host >>= (λ r. rest >>= (λ rs. pure (r ∷ rs)))
    else rest

unfoldable pub failures : List ClusterInitStandbyResult → ℕ
failures [] = 0
failures (r ∷ rs) = if r.ok then failures rs else suc (failures rs)

abbrev pub verdict : ℕ → ℕ → Bool × InitMessage
verdict t f =
    if t == 0
    then (true, none_selected)
    else if f == 0
    then (true, initialised t)
    else (false, some_failed f t)

unfoldable pub respond :
    {E : Type 0} → RaftNote E → List ClusterInitStandbyResult → ClusterInitResponse E
unfolding failures
respond note rs =
    let (fine, said) = verdict (length rs) (failures rs) in
    record { ok = fine; message = said; raft_note = note; standbys = rs }

-- `bootstrap` is the answer of `bootstrap_membership`, none without consensus
module _ {S E : Type 0} (store : ConsensusStore S E) (now : ℕ)
    (bootstrap : Option (Result String (Unit {0}))) (state : S) where
  abbrev pub noted : Result E TakeoverOutcome × S → RaftNote E × S
  noted (r, s) = (some (ok r), s)

  -- the lease of the primary, on observed vacancy
  abbrev pub seed_lease : ℕ → Option (Result String (Unit {0})) → RaftNote E × S
  seed_lease here none = (none, state)
  seed_lease here (some (err e)) = (some (err e), state)
  seed_lease here (some (ok u)) = noted (store.try_takeover now here none state)

  abbrev pub conclude : List ClusterInitStandbyResult → RaftNote E × S → ClusterInitResponse E × S
  conclude rs (note, s) = (respond note rs, s)

  abbrev pub init_unless : NodePool → Env → Option ℕ → Bool → Task (ClusterInitResponse E × S)
  init_unless pool env only true =
      pure (record { ok = false; message = in_recovery; raft_note = none; standbys = [] }, state)
  init_unless pool env only false = do
    primary ← node_or_fail (local_node pool)
    call env (create_role primary.id)
    results ← init_all env primary.id primary.hostname only pool.members
    pure (conclude results (seed_lease primary.id bootstrap))

  -- an early failure leaves the store as it was
  unfoldable pub cluster_init : NodePool → Env → Option ℕ → Task (ClusterInitResponse E × S)
  unfolding local_node call init_all respond ◌>>=◌
  cluster_init pool env only = local_or_fail env.in_recovery >>= init_unless pool env only
